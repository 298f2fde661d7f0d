-- ===== src/Metrics/Outcome.antt =====
-- experiments/metrics.py: first_ground_contact and classify_outcome, on a flight's step records. NaN is
-- `none`; no limit is passed by it.
use aero_safe_rl.Base.{
  ℕ, zero, suc, ◌+◌, ◌-◌, List, [], ◌∷◌, map, Option, none, some, or_else, Bool, true, false, ◌||◌,
  ℤ, leb_ℤ, ltb_ℤ, if◌then◌else◌,
}
use aero_safe_rl.Episode.{TerminationReason, completed, same_reason}
use aero_safe_rl.Mission.{neg_ℤ}
use aero_safe_rl.Policy.Outcome.{OutcomeSpec}
use aero_safe_rl.Metrics.First.{first, drop}

pub data Outcome : Type 0 where
  mission_success safe_landing crash incomplete : Outcome

pub record EpisodeOutcome : Type 0 where
  pub outcome : Outcome
  pub touchdown_speed_m_s : Option ℤ
  pub max_tilt_deg : Option ℤ

-- The columns that a judgement reads.
pub record Step : Type 0 where
  pub pos_z : Option ℤ
  pub vel_z : Option ℤ
  pub roll_rad : Option ℤ
  pub pitch_rad : Option ℤ

abbrev pub at_least : ℤ → Option ℤ → Bool
at_least limit none = false
at_least limit (some a) = leb_ℤ limit a

abbrev pub is_below : ℤ → Option ℤ → Bool
is_below limit none = false
is_below limit (some a) = ltb_ℤ a limit

abbrev pub exceeds : Option ℤ → ℤ → Bool
exceeds none limit = false
exceeds (some a) limit = ltb_ℤ limit a

abbrev pub alt_of : Step → Option ℤ
alt_of s = elim s.pos_z [ none ↦ none | some z ↦ some (neg_ℤ z) ]

abbrev pub take : {A : Type 0} → ℕ → List A → List A
take zero xs = []
take (suc n) [] = []
take (suc n) (x ∷ xs) = x ∷ take n xs

-- `np.nanmax`; the slices are not empty.
abbrev pub larger : Option ℤ → Option ℤ → Option ℤ
larger none y = y
larger (some a) none = some a
larger (some a) (some b) = some (if leb_ℤ a b then b else a)

abbrev pub nanmax : List (Option ℤ) → Option ℤ
nanmax [] = none
nanmax (x ∷ xs) = larger x (nanmax xs)

module _ (spec : OutcomeSpec) where
  -- The first contact among the ticks from the first airborne one on.
  abbrev pub contact_from : List (Option ℤ) → Option ℕ → Option ℕ
  contact_from alts none = none
  contact_from alts (some up) =
      elim (first (map (is_below spec.ground_contact_alt_m) (drop up alts))) [
        | none ↦ none
        | some down ↦ some (up + down)
      ]

  unfoldable pub first_ground_contact : List (Option ℤ) → Option ℕ × Option ℕ
  first_ground_contact alts =
      let up = first (map (at_least spec.airborne_alt_m) alts) in (up, contact_from alts up)

  -- `vz[max(contact - 1, 0):contact + 1]`
  abbrev pub around : ℕ → List (Option ℤ) → List (Option ℤ)
  around contact vz = take (contact + 1 - (contact - 1)) (drop (contact - 1) vz)

  abbrev pub max_tilt_of : Option ℕ → List (Option ℤ) → Option ℤ
  max_tilt_of none tilts = none
  max_tilt_of (some up) tilts = nanmax (drop up tilts)

  abbrev pub touchdown_of : Option ℕ → List (Option ℤ) → Option ℤ
  touchdown_of none vz = none
  touchdown_of (some contact) vz = nanmax (around contact vz)

  abbrev pub has_contact : Option ℕ → Bool
  has_contact none = false
  has_contact (some _) = true

  abbrev pub judge : TerminationReason → Option ℤ → Option ℤ → ℤ → Option ℕ → Outcome
  judge reason max_tilt touchdown limit contact =
      if exceeds max_tilt spec.crash_tilt_deg || exceeds touchdown limit
      then crash
      else if same_reason reason completed
      then mission_success
      else if has_contact contact
      then safe_landing
      else incomplete

  -- `tilt` is numpy's `degrees(hypot(roll, pitch))`.
  unfoldable pub classify_outcome :
      (Option ℤ → Option ℤ → Option ℤ) → TerminationReason → List Step → Option ℤ → EpisodeOutcome
  unfolding first_ground_contact
  classify_outcome tilt reason steps override =
      let limit = or_else override spec.crash_touchdown_speed_m_s in
      let (airborne, contact) = first_ground_contact (map alt_of steps) in
      let max_tilt = max_tilt_of airborne (map (λ s. tilt s.roll_rad s.pitch_rad) steps) in
      let touchdown = touchdown_of contact (map (λ s. s.vel_z) steps) in
      record {
        outcome = judge reason max_tilt touchdown limit contact;
        touchdown_speed_m_s = touchdown;
        max_tilt_deg = max_tilt;
      }
