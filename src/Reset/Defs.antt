-- ===== src/Reset/Defs.antt =====
-- ros2_ws/src/aero_bridge/aero_bridge/reset.py: soft_reset, medium_reset and hard_reset. Wall time is in
-- microseconds, and lengths in millionths of a metre.
use aero_safe_rl.Base.{
  ℕ, zero, suc, ◌+◌, ◌*◌, ◌-◌, List, [], ◌∷◌, ◌++◌, Option, none, some, Bool, true, false, not,
  ◌&&◌, ◌||◌, ltb, leb, max, ◌-ℤ◌, Result, ok, err, if◌then◌else◌,
}
use aero_safe_rl.Bridge.{VehicleStatus, is_armed, preflight_passed}
use aero_safe_rl.Episode.{ResetTier, soft, medium, hard}
use aero_safe_rl.Mission.{Vec3, sq, neg_ℤ}

-- ResetError and its two subclasses.
pub data ResetError : Type 0 where
  reset_failed reset_unsafe reset_timeout : ResetError

pub data ResetCommand : Type 0 where
  set_pose : Vec3 → ResetCommand
  force_disarm reboot_px4 : ResetCommand

-- What the telemetry shows at a time.
pub record Reading : Type 0 where
  pub wall : ℕ
  pub odometry : Option (Vec3 × Vec3)
  pub vehicle_status : Option VehicleStatus

-- 15 s, 25 s and 1 s; 0.3 m and 0.2 m/s.
abbrev pub soft_reset_wall_timeout_s : ℕ
soft_reset_wall_timeout_s = 15000000

abbrev pub medium_reset_wall_timeout_s : ℕ
medium_reset_wall_timeout_s = 25000000

abbrev pub least_wait_s : ℕ
least_wait_s = 1000000

abbrev pub position_tolerance_m : ℕ
position_tolerance_m = 300000

abbrev pub velocity_tolerance_m_s : ℕ
velocity_tolerance_m_s = 200000

-- `_ned_to_gz_enu`
abbrev pub ned_to_gz_enu : Vec3 → Vec3
ned_to_gz_enu (x, (y, z)) = (y, (x, neg_ℤ z))

-- `sum(...) ** 0.5 <= tolerance`, on the squares.
unfoldable pub near : ℕ → Vec3 → Vec3 → Bool
near tolerance p q =
    leb (sq (p.0 -ℤ q.0) + (sq (p.1.0 -ℤ q.1.0) + sq (p.1.1 -ℤ q.1.1))) (tolerance * tolerance)

unfoldable pub slow : Vec3 → Bool
slow v = leb (sq v.0 + (sq v.1.0 + sq v.1.1)) (velocity_tolerance_m_s * velocity_tolerance_m_s)

abbrev pub at_spawn : Vec3 → Reading → Bool
at_spawn spawn r = elim r.odometry [ none ↦ false | some o ↦ near position_tolerance_m o.0 spawn ]

abbrev pub settled : Vec3 → Bool → Reading → Bool
settled spawn require_disarmed r = elim r.odometry [
  | none ↦ false
  | some o ↦ elim r.vehicle_status [
    | none ↦ false
    | some s ↦
        near position_tolerance_m o.0 spawn && (slow o.1 && (not require_disarmed || not s.armed))
  ]
]

-- `while True` with a condition and a deadline, on fuel: whether the condition came in time.
-- `none` is out of fuel.
unfoldable pub wait : (ℕ → Bool) → (ℕ → Bool) → ℕ → ℕ → Option Bool
wait met late zero i = none
wait met late (suc n) i =
    let rest = wait met late n (suc i) in
    if met i then some true else if late i then some false else rest

abbrev pub Outcome : Type 0 → Type 0
Outcome A = List ResetCommand × Option (Result ResetError A)

-- Ends in ResetTimeout if the wait was in vain, and goes on if not.
abbrev pub in_time : {A : Type 0} → List ResetCommand → Option Bool → Outcome A → Outcome A
in_time cs none rest = (cs, none)
in_time cs (some false) rest = (cs, some (err reset_timeout))
in_time cs (some true) (cs', r) = (cs ++ cs', r)

module _ (spawn : Vec3) (fuel : ℕ) where
  abbrev pub wait_until_settled : (ℕ → Reading) → ℕ → Bool → Option Bool
  wait_until_settled readings deadline require_disarmed =
      wait (λ i. settled spawn require_disarmed (readings i)) (λ i. ltb deadline (readings i).wall)
        fuel 0

  -- `if not _already_at_spawn: _teleport_to_spawn`. `teleports` is whether Gazebo accepts it.
  abbrev pub teleport : {A : Type 0} → Bool → Reading → Outcome A → Outcome A
  teleport teleports r rest =
      if at_spawn spawn r
      then rest
      else if teleports
      then (set_pose (ned_to_gz_enu spawn) ∷ rest.0, rest.1)
      else (set_pose (ned_to_gz_enu spawn) ∷ [], some (err reset_failed))

  -- `now` is what there is at the call, and `after` what each pump brings.
  abbrev pub settle_disarmed : (ℕ → Reading) → ℕ → Outcome ResetTier
  settle_disarmed after wait_from =
      in_time [] (wait_until_settled after (wait_from + soft_reset_wall_timeout_s) true)
        ([], some (ok soft))

  unfoldable pub soft_reset : Bool → Reading → (ℕ → Reading) → ℕ → Outcome ResetTier
  unfolding wait
  soft_reset teleports now after wait_from =
      if is_armed now.vehicle_status
      then ([], some (err reset_unsafe))
      else teleport teleports now (settle_disarmed after wait_from)

  -- The readings of the three loops, and the wall time at each one's start.
  abbrev pub remaining_until : ℕ → ℕ → ℕ
  remaining_until t0 from = from + max (t0 + medium_reset_wall_timeout_s - from) least_wait_s

  abbrev pub await_disarmed : (ℕ → Reading) → ℕ → Option Bool
  await_disarmed disarming deadline =
      wait (λ i. not (is_armed (disarming i).vehicle_status))
        (λ i. ltb deadline (disarming (suc i)).wall) fuel 0

  abbrev pub ready : Reading → Bool
  ready r = preflight_passed r.vehicle_status && not (is_armed r.vehicle_status)

  abbrev pub await_ready : (ℕ → Reading) → ℕ → Outcome ResetTier
  await_ready readying deadline =
      in_time [] (wait (λ i. ready (readying i)) (λ i. ltb deadline (readying i).wall) fuel 0)
        ([], some (ok medium))

  abbrev pub reboot : (ℕ → Reading) → (ℕ → Reading) → ℕ → ℕ → ℕ → Outcome ResetTier
  reboot settling readying t0 settle_from ready_from =
      let rest =
        in_time [] (wait_until_settled settling (remaining_until t0 settle_from) false)
          (await_ready readying (remaining_until t0 ready_from)) in
      (reboot_px4 ∷ rest.0, rest.1)

  -- `then_` is what there is once the vehicle is disarmed.
  unfoldable pub medium_reset :
      Bool
      → Reading
      → (ℕ → Reading)
      → Reading
      → (ℕ → Reading)
      → (ℕ → Reading)
      → ℕ
      → ℕ
      → ℕ
      → ℕ
      → Outcome ResetTier
  unfolding wait
  medium_reset teleports now disarming then_ settling readying t0 disarm_from settle_from
        ready_from =
      in_time (if is_armed now.vehicle_status then force_disarm ∷ [] else [])
        (await_disarmed disarming (disarm_from + medium_reset_wall_timeout_s))
        (teleport teleports then_ (reboot settling readying t0 settle_from ready_from))

-- `stops` and `starts`: whether the worker's scripts succeed.
unfoldable pub hard_reset : Bool → Bool → Result ResetError ResetTier
hard_reset stops starts = if stops && starts then ok hard else err reset_failed
