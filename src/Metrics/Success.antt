-- ===== src/Metrics/Success.antt =====
-- experiments/metrics.py: which flights classify_outcome counts as successes.
use mathlib.Core.Path.{subst}
use aero_safe_rl.Base.{
  suc, ◌≤◌, ◌⊎◌, ℕ, ◌≡◌, refl, ◌↔◌, inl, inr, List, [], ◌∷◌, map, Option, none, some, or_else, Bool,
  true, false, ◌||◌, Bool-cases, ℤ, leb_ℤ, arith, if◌then◌else◌,
}
use aero_safe_rl.Episode.{TerminationReason, completed, same_reason}
use aero_safe_rl.Policy.Outcome.{OutcomeSpec}
use aero_safe_rl.Metrics.First.{drop}
use aero_safe_rl.Metrics.Slices.{Within, AtMost, drop_iff, around_iff}
use aero_safe_rl.Metrics.Outcome.{
  mission_success, safe_landing, crash, incomplete, Step, exceeds, alt_of, larger, nanmax,
  first_ground_contact, around, max_tilt_of, touchdown_of, has_contact, judge, classify_outcome,
}

larger_iff :
    (limit : ℤ) (x y : Option ℤ)
    → (exceeds (larger x y) limit ≡ false) ↔ ((exceeds x limit ≡ false) × (exceeds y limit ≡ false))
larger_iff limit none y = (λ h. (refl, h), λ h. h.1)
larger_iff limit (some a) none = (λ h. (h, refl), λ h. h.0)
larger_iff limit (some a) (some b) = elim (Bool-cases (leb_ℤ a b)) [
  | inl e ↦ (λ h. (ground (arith, h), ground (arith, h)), λ h. ground (arith, h.0, h.1))
  | inr e ↦ (λ h. (ground (arith, h), ground (arith, h)), λ h. ground (arith, h.0, h.1))
]

-- The largest value is within a limit just if all are.
nanmax_iff :
    (limit : ℤ) (xs : List (Option ℤ)) → (exceeds (nanmax xs) limit ≡ false) ↔ Within limit xs
nanmax_iff limit [] = (λ h. tt, λ h. refl)
nanmax_iff limit (x ∷ xs) = (
  λ h. let (p, q) = (larger_iff limit x (nanmax xs)).0 h in (p, (nanmax_iff limit xs).0 q),
  λ (p, q). (larger_iff limit x (nanmax xs)).1 (p, (nanmax_iff limit xs).1 q),
)

is_completed : (r : TerminationReason) → same_reason r completed ≡ true → r ≡ completed
is_completed TerminationReason.completed h = refl
is_completed _ h = cc h

verdict_lem :
    (tilted fast done contact : Bool)
    → (if tilted || fast
        then crash
        else if done
        then mission_success
        else if contact
        then safe_landing
        else incomplete)
      ≡ mission_success
    → (done ≡ true) × ((tilted ≡ false) × (fast ≡ false))
verdict_lem true fast done contact h = cc h
verdict_lem false true done contact h = cc h
verdict_lem false false true contact h = (refl, (refl, refl))
verdict_lem false false false true h = cc h
verdict_lem false false false false h = cc h

module _ (spec : OutcomeSpec) where
  judge_iff :
      (reason : TerminationReason) (max_tilt touchdown : Option ℤ) (limit : ℤ) (contact : Option ℕ)
      → (judge spec reason max_tilt touchdown limit contact ≡ mission_success) ↔ (
          (reason ≡ completed)
          × ((exceeds max_tilt spec.crash_tilt_deg ≡ false) × (exceeds touchdown limit ≡ false)))
  judge_iff reason max_tilt touchdown limit contact = (
    λ h.
        let (done, within) =
          verdict_lem (exceeds max_tilt spec.crash_tilt_deg) (exceeds touchdown limit)
            (same_reason reason completed) (has_contact spec contact) h in
        (is_completed reason done, within),
    λ (done, (upright, soft)). rw (upright, soft, done) refl,
  )

  max_tilt_iff :
      (up : Option ℕ) (tilts : List (Option ℤ))
      → (exceeds (max_tilt_of spec up tilts) spec.crash_tilt_deg ≡ false)
        ↔ ((k : ℕ) → up ≡ some k → AtMost spec.crash_tilt_deg tilts (λ j. k ≤ j))
  max_tilt_iff none tilts = (λ h k e. cc e, λ h. refl)
  max_tilt_iff (some up) tilts =
      let limit = spec.crash_tilt_deg in
      (
        λ h k e.
            let same : up ≡ k = cc e in
            subst (λ k. AtMost limit tilts (λ j. k ≤ j)) same
              ((drop_iff limit up tilts).0 ((nanmax_iff limit (drop up tilts)).0 h)),
        λ h. (nanmax_iff limit (drop up tilts)).1 ((drop_iff limit up tilts).1 (h up refl)),
      )

  touchdown_iff :
      (limit : ℤ) (contact : Option ℕ) (vz : List (Option ℤ))
      → (exceeds (touchdown_of spec contact vz) limit ≡ false)
        ↔ ((k : ℕ) → contact ≡ some k → AtMost limit vz (λ j. (j ≡ k) ⊎ (suc j ≡ k)))
  touchdown_iff limit none vz = (λ h k e. cc e, λ h. refl)
  touchdown_iff limit (some contact) vz = (
    λ h k e.
        let same : contact ≡ k = cc e in
        subst (λ k. AtMost limit vz (λ j. (j ≡ k) ⊎ (suc j ≡ k))) same
          ((around_iff spec limit contact vz).0 ((nanmax_iff limit (around spec contact vz)).0 h)),
    λ h.
        (nanmax_iff limit (around spec contact vz)).1
          ((around_iff spec limit contact vz).1 (h contact refl)),
  )

  -- A flight is a success just if its mission completed, no tilt at or after its first airborne tick
  -- is over the limit, those after a ground contact included, and no downward speed at its first
  -- ground contact or the tick before is, if there was one.
  pub success_iff :
      (tilt : Option ℤ → Option ℤ → Option ℤ) (reason : TerminationReason) (steps : List Step)
      (override : Option ℤ)
      → let contact = first_ground_contact spec (map alt_of steps) in
        ((classify_outcome spec tilt reason steps override).outcome ≡ mission_success) ↔ (
          (reason ≡ completed)
          × (((k : ℕ)
                → contact.0 ≡ some k
                → AtMost spec.crash_tilt_deg
                    (map (λ s. tilt s.roll_rad s.pitch_rad) steps)
                    (λ j. k ≤ j))
              × ((k : ℕ)
                  → contact.1 ≡ some k
                  → AtMost
                      (or_else override spec.crash_touchdown_speed_m_s)
                      (map (λ s. s.vel_z) steps)
                      (λ j. (j ≡ k) ⊎ (suc j ≡ k)))))
  unfolding classify_outcome
  success_iff tilt reason steps override =
      let contact = first_ground_contact spec (map alt_of steps) in
      let limit = or_else override spec.crash_touchdown_speed_m_s in
      let tilts = map (λ (s : Step). tilt s.roll_rad s.pitch_rad) steps in
      let vz = map (λ (s : Step). s.vel_z) steps in
      let judged =
        judge_iff reason (max_tilt_of spec contact.0 tilts) (touchdown_of spec contact.1 vz) limit
          contact.1 in
      (
        λ h.
            let (done, (upright, soft)) = judged.0 h in
            (
              done,
              ((max_tilt_iff contact.0 tilts).0 upright, (touchdown_iff limit contact.1 vz).0 soft),
            ),
        λ (done, (upright, soft)). judged.1 (
          done,
          ((max_tilt_iff contact.0 tilts).1 upright, (touchdown_iff limit contact.1 vz).1 soft),
        ),
      )
