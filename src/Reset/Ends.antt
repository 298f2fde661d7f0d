-- ===== src/Reset/Ends.antt =====
-- ros2_ws/src/aero_bridge/aero_bridge/reset.py: every tier ends.
use aero_safe_rl.Base.{
  ℕ, suc, ◌+◌, ◌*◌, ◌≤◌, ◌<◌, ◌≡◌, ◌≢◌, refl, inl, inr, List, [], ◌∷◌, Option, none, some, Bool,
  true, false, not, ltb, Bool-cases, ok, err, arith, if◌then◌else◌,
}
use aero_safe_rl.Bridge.{is_armed}
use aero_safe_rl.Bridge.Ends.{Advances, clock_ge}
use aero_safe_rl.Episode.{soft, medium}
use aero_safe_rl.Mission.{Vec3}
use aero_safe_rl.Reset.Defs.{
  ResetError, reset_unsafe, ResetCommand, force_disarm, Reading, settled, at_spawn, wait, Outcome,
  in_time, teleport, settle_disarmed, soft_reset, medium_reset, ready, reboot, await_ready,
  remaining_until, soft_reset_wall_timeout_s, medium_reset_wall_timeout_s,
}
use aero_safe_rl.Reset.Settled.{wait-ends}

in_time-ends :
    {A : Type 0} (cs : List ResetCommand) (o : Option Bool) (rest : Outcome A)
    → o ≢ none
    → rest.1 ≢ none
    → (in_time cs o rest).1 ≢ none
in_time-ends cs none rest h g = λ z. h refl
in_time-ends cs (some false) rest h g = λ z. cc z
in_time-ends cs (some true) rest h g = g

teleport-ends :
    {A : Type 0} (spawn : Vec3) (fuel : ℕ) (teleports : Bool) (r : Reading) (rest : Outcome A)
    → rest.1 ≢ none
    → (teleport spawn fuel teleports r rest).1 ≢ none
teleport-ends spawn fuel teleports r rest g = elim (Bool-cases (at_spawn spawn r)) [
  | inl y ↦ λ z. g (ground arith)
  | inr n ↦ elim (Bool-cases teleports) [
    | inl t ↦ λ z. g (ground arith)
    | inr t ↦ λ z. absurd (ground arith)
  ]
]

refused-ends :
    {A : Type 0} (armed : Bool) (e : ResetError) (rest : Outcome A)
    → rest.1 ≢ none
    → (if armed then ([], some (err e)) else rest).1 ≢ none
refused-ends true e rest g = λ z. cc z
refused-ends false e rest g = g

module _ (tick n : ℕ) (clock : ℕ → ℕ) (advances : Advances clock tick) (met : ℕ → Bool) where
  -- A wait ends where its clock advances.
  timed-ends :
      (deadline : ℕ)
      → deadline < clock 0 + n * tick
      → wait met (λ i. ltb deadline (clock i)) (suc n) 0 ≢ none
  timed-ends deadline enough =
      let same : n + 0 ≡ n = omega arith in
      let late = clock_ge clock tick advances n in
      wait-ends met (λ i. ltb deadline (clock i)) n 0 (rw same (ground (arith, late, enough)))

module _ (spawn : Vec3) (tick n : ℕ) (teleports : Bool) (now : Reading) where
  -- What is left of the budget is at most all of it.
  within :
      (t0 from : ℕ) {start : ℕ}
      → t0 ≤ from
      → medium_reset_wall_timeout_s < n * tick
      → from ≤ start
      → remaining_until spawn (suc n) t0 from < start + n * tick
  within t0 from le enough since = ground arith

  -- A soft reset ends, its timeout's number of ticks and one more reading at most after it began to
  -- wait.
  pub soft_reset-ends :
      (after : ℕ → Reading) (wait_from : ℕ)
      → Advances (λ i. (after i).wall) tick
      → wait_from ≤ (after 0).wall
      → soft_reset_wall_timeout_s < n * tick
      → (soft_reset spawn (suc n) teleports now after wait_from).1 ≢ none
  unfolding soft_reset
  soft_reset-ends after wait_from advances from enough =
      let rest = settle_disarmed spawn (suc n) after wait_from in
      refused-ends (is_armed now.vehicle_status) reset_unsafe
        (teleport spawn (suc n) teleports now rest)
        (teleport-ends spawn (suc n) teleports now rest (
          in_time-ends [] _ ([], some (ok soft))
            (timed-ends tick n (λ i. (after i).wall) advances (λ i. settled spawn true (after i))
              (wait_from + soft_reset_wall_timeout_s) (omega arith))
            (λ z. cc z)))

  -- A medium reset ends: each of its loops does in the timeout's number of ticks and one more
  -- reading.
  pub medium_reset-ends :
      (disarming : ℕ → Reading) (then_ : Reading) (settling readying : ℕ → Reading)
      (t0 disarm_from settle_from ready_from : ℕ)
      → Advances (λ i. (disarming (suc i)).wall) tick
      → Advances (λ i. (settling i).wall) tick
      → Advances (λ i. (readying i).wall) tick
      → disarm_from ≤ (disarming 1).wall
      → t0 ≤ settle_from
      → settle_from ≤ (settling 0).wall
      → t0 ≤ ready_from
      → ready_from ≤ (readying 0).wall
      → medium_reset_wall_timeout_s < n * tick
      → (medium_reset spawn
          (suc n)
          teleports
          now
          disarming
          then_
          settling
          readying
          t0
          disarm_from
          settle_from
          ready_from).1
        ≢ none
  unfolding medium_reset
  medium_reset-ends disarming then_ settling readying t0 disarm_from settle_from ready_from a b c
        disarm_le t0_le settle_le t0_le' ready_le enough =
      let rest = reboot spawn (suc n) settling readying t0 settle_from ready_from in
      let disarms = if is_armed now.vehicle_status then force_disarm ∷ [] else [] in
      let disarmed : ℕ → Bool = λ i. not (is_armed (disarming i).vehicle_status) in
      in_time-ends disarms _ (teleport spawn (suc n) teleports then_ rest)
        (timed-ends tick n (λ i. (disarming (suc i)).wall) a disarmed
          (disarm_from + medium_reset_wall_timeout_s) (omega arith))
        (teleport-ends spawn (suc n) teleports then_ rest (
          in_time-ends [] _
            (await_ready spawn (suc n) readying (remaining_until spawn (suc n) t0 ready_from))
            (timed-ends tick n (λ i. (settling i).wall) b (λ i. settled spawn false (settling i))
              (remaining_until spawn (suc n) t0 settle_from)
              (within t0 settle_from t0_le enough settle_le))
            (in_time-ends [] _ ([], some (ok medium))
              (timed-ends tick n (λ i. (readying i).wall) c (λ i. ready spawn (suc n) (readying i))
                (remaining_until spawn (suc n) t0 ready_from)
                (within t0 ready_from t0_le' enough ready_le))
              (λ z. cc z))))
