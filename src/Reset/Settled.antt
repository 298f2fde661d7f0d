-- ===== src/Reset/Settled.antt =====
-- ros2_ws/src/aero_bridge/aero_bridge/reset.py: what a reset that returns has seen.
use aero_safe_rl.Base.{
  ℕ, zero, suc, ◌+◌, ◌≡◌, ◌≢◌, refl, ap, ◌∙◌, inl, inr, List, [], Option, none, some, Bool, true,
  false, not, Bool-cases, ok, err, arith, if◌then◌else◌,
}
use aero_safe_rl.Bridge.{is_armed}
use aero_safe_rl.Episode.{ResetTier, soft, medium}
use aero_safe_rl.Mission.{Vec3}
use aero_safe_rl.Reset.Defs.{
  ResetError, reset_unsafe, ResetCommand, Reading, settled, at_spawn, wait, Outcome, in_time,
  teleport, settle_disarmed, soft_reset, medium_reset, ready, reboot, await_ready, remaining_until,
}

module _ (met late : ℕ → Bool) where
  -- A wait that was not in vain ends where the condition holds.
  wait-met : (n i : ℕ) → wait met late n i ≡ some true → (j : ℕ) × (met j ≡ true)
  unfolding wait
  wait-met zero i h = cc h
  wait-met (suc n) i h = elim (Bool-cases (met i)) [
    | inl y ↦ (i, y)
    | inr m ↦ elim (Bool-cases (late i)) [
      | inl l ↦ absurd (ground arith)
      | inr l ↦ wait-met n (suc i) (ground arith)
    ]
  ]

  -- A wait whose deadline passes ends.
  pub wait-ends : (n i : ℕ) → late (n + i) ≡ true → wait met late (suc n) i ≢ none
  unfolding wait
  wait-ends zero i l = elim (Bool-cases (met i)) [
    | inl y ↦ λ z. absurd (ground arith)
    | inr m ↦ let same : 0 + i ≡ i = omega arith in λ z. absurd (ground (arith, ap late same))
  ]
  wait-ends (suc n) i l = elim (Bool-cases (met i)) [
    | inl y ↦ λ z. absurd (ground arith)
    | inr m ↦ elim (Bool-cases (late i)) [
      | inl e ↦ λ z. absurd (ground arith)
      | inr e ↦
          let same : n + suc i ≡ suc n + i = omega arith in
          λ z. wait-ends n (suc i) (ap late same ∙ l) (ground arith)
    ]
  ]

in_time-ok :
    {A : Type 0} (cs : List ResetCommand) (o : Option Bool) (rest : Outcome A) (a : A)
    → (in_time cs o rest).1 ≡ some (ok a)
    → (o ≡ some true) × (rest.1 ≡ some (ok a))
in_time-ok cs none rest a h = cc h
in_time-ok cs (some false) rest a h = cc h
in_time-ok cs (some true) rest a h = (refl, h)

teleport-ok :
    {A : Type 0} (spawn : Vec3) (fuel : ℕ) (teleports : Bool) (r : Reading) (rest : Outcome A)
    (a : A)
    → (teleport spawn fuel teleports r rest).1 ≡ some (ok a)
    → rest.1 ≡ some (ok a)
teleport-ok spawn fuel teleports r rest a h = elim (Bool-cases (at_spawn spawn r)) [
  | inl y ↦ ground (arith, h)
  | inr n ↦ elim (Bool-cases teleports) [
    | inl t ↦ ground (arith, h)
    | inr t ↦ absurd (ground (arith, h))
  ]
]

refused-ok :
    {A : Type 0} (armed : Bool) (e : ResetError) (rest : Outcome A) (a : A)
    → (if armed then ([], some (err e)) else rest).1 ≡ some (ok a)
    → (armed ≡ false) × (rest.1 ≡ some (ok a))
refused-ok true e rest a h = cc h
refused-ok false e rest a h = (refl, h)

module _ (spawn : Vec3) (fuel : ℕ) (teleports : Bool) (now : Reading) (tier : ResetTier) where
  -- A soft reset that returns found the vehicle disarmed, and then saw it at rest at the spawn pose
  -- and disarmed.
  pub soft_reset-settled :
      (after : ℕ → Reading) (wait_from : ℕ)
      → (soft_reset spawn fuel teleports now after wait_from).1 ≡ some (ok tier)
      → (tier ≡ soft)
        × ((is_armed now.vehicle_status ≡ false)
            × ((j : ℕ) × (settled spawn true (after j) ≡ true)))
  unfolding soft_reset
  soft_reset-settled after wait_from h =
      let rest = settle_disarmed spawn fuel after wait_from in
      let (off, g) =
        refused-ok (is_armed now.vehicle_status) reset_unsafe
          (teleport spawn fuel teleports now rest) tier h in
      let (w, e) =
        in_time-ok [] _ ([], some (ok soft)) tier
          (teleport-ok spawn fuel teleports now rest tier g) in
      (cc e, (off, wait-met _ _ fuel 0 w))

  -- A medium reset that returns saw the vehicle disarmed, then at rest at the spawn pose, and then
  -- disarmed with its preflight checks passed; it rebooted PX4.
  pub medium_reset-ready :
      (disarming : ℕ → Reading) (then_ : Reading) (settling readying : ℕ → Reading)
      (t0 disarm_from settle_from ready_from : ℕ)
      → (medium_reset spawn fuel teleports now disarming then_ settling readying t0 disarm_from
          settle_from ready_from).1
        ≡ some (ok tier)
      → (tier ≡ medium)
        × (((i : ℕ) × (not (is_armed (disarming i).vehicle_status) ≡ true))
            × (((j : ℕ) × (settled spawn false (settling j) ≡ true))
                × ((k : ℕ) × (ready spawn fuel (readying k) ≡ true))))
  unfolding medium_reset
  medium_reset-ready disarming then_ settling readying t0 disarm_from settle_from ready_from h =
      let rest = reboot spawn fuel settling readying t0 settle_from ready_from in
      let (a, g) = in_time-ok _ _ (teleport spawn fuel teleports then_ rest) tier h in
      let (b, f) =
        in_time-ok [] _ (await_ready spawn fuel readying (remaining_until spawn fuel t0 ready_from))
          tier (teleport-ok spawn fuel teleports then_ rest tier g) in
      let (c, e) = in_time-ok [] _ ([], some (ok medium)) tier f in
      (cc e, (wait-met _ _ fuel 0 a, (wait-met _ _ fuel 0 b, wait-met _ _ fuel 0 c)))
