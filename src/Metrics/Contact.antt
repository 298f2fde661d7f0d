-- ===== src/Metrics/Contact.antt =====
-- experiments/metrics.py and ros2_ws/src/aero_bridge/aero_bridge/mission_executor.py: a ground contact,
-- offline and in flight.
use aero_safe_rl.Base.{
  ℕ, suc, ◌+◌, ◌≡◌, refl, sym, ap, ◌∙◌, inl, inr, List, [], ◌∷◌, map, Option, none, some, Bool,
  true, false, Bool-cases, leb_ℤ, ltb_ℤ, Result, ok, err, ℤ, arith,
}
use aero_safe_rl.Policy.Outcome.{OutcomeSpec}
use aero_safe_rl.Mission.Flight.{FlightException, Row, Plan, Flight, altitude, touch_ground}
use aero_safe_rl.Metrics.First.{first, drop}
use aero_safe_rl.Metrics.Outcome.{first_ground_contact, contact_from, at_least, is_below}

-- What a row's answer says of the rows from it on.
abbrev pub contact_after : Result FlightException Bool → Option ℕ → Option ℕ
contact_after (err e) rest = none
contact_after (ok true) rest = some 0
contact_after (ok false) rest = elim rest [ none ↦ none | some i ↦ some (suc i) ]

after-first :
    (low : Bool) (rest : Option ℕ) (xs : List Bool)
    → rest ≡ first xs
    → contact_after (ok low) rest ≡ first (low ∷ xs)
after-first true rest xs e = refl
after-first false rest xs e = ap (contact_after (ok false)) e

-- An index counted from a later start.
abbrev from_index : ℕ → Option ℕ → Option ℕ
from_index up none = none
from_index up (some down) = some (up + down)

from_zero : (o : Option ℕ) → from_index 0 o ≡ o
from_zero none = refl
from_zero (some down) = ap some (omega arith)

from_suc :
    (up : ℕ) (o : Option ℕ) → from_index (suc up) o ≡ contact_after (ok false) (from_index up o)
from_suc up none = refl
from_suc up (some down) = ap some (omega arith)

module _ (spec : OutcomeSpec) where
  contact_eq :
      (alts : List (Option ℤ)) (up : ℕ)
      → contact_from spec alts (some up)
        ≡ from_index up (first (map (is_below spec.ground_contact_alt_m) (drop up alts)))
  contact_eq alts up = case_of (first (map (is_below spec.ground_contact_alt_m) (drop up alts)))
    where
      case_of :
          (o : Option ℕ) → (elim o [ none ↦ none | some down ↦ some (up + down) ]) ≡ from_index up o
      case_of none = refl
      case_of (some down) = refl

  shift_cases :
      (a : Option ℤ) (as' : List (Option ℤ)) (o : Option ℕ)
      → contact_from spec (a ∷ as') (contact_after (ok false) o)
        ≡ contact_after (ok false) (contact_from spec as' o)
  shift_cases a as' none = refl
  shift_cases a as' (some up) =
      contact_eq (a ∷ as') (suc up)
      ∙ from_suc up (first (map (is_below spec.ground_contact_alt_m) (drop up as')))
      ∙ ap (contact_after (ok false)) (sym (contact_eq as' up))

  -- A first row that is up begins the search.
  begun :
      (a : Option ℤ) (as' : List (Option ℤ))
      → at_least spec.airborne_alt_m a ≡ true
      → (first_ground_contact spec (a ∷ as')).1
        ≡ first (map (is_below spec.ground_contact_alt_m) (a ∷ as'))
  unfolding first_ground_contact
  begun a as' e =
      ap (λ b. contact_from spec (a ∷ as') (first (b ∷ map (at_least spec.airborne_alt_m) as'))) e
      ∙ contact_eq (a ∷ as') 0
      ∙ from_zero (first (map (is_below spec.ground_contact_alt_m) (a ∷ as')))

  -- A first row that is not up only moves the contact by one.
  shifted :
      (a : Option ℤ) (as' : List (Option ℤ))
      → at_least spec.airborne_alt_m a ≡ false
      → (first_ground_contact spec (a ∷ as')).1
        ≡ contact_after (ok false) (first_ground_contact spec as').1
  unfolding first_ground_contact
  shifted a as' e =
      ap (λ b. contact_from spec (a ∷ as') (first (b ∷ map (at_least spec.airborne_alt_m) as'))) e
      ∙ shift_cases a as' (first (map (at_least spec.airborne_alt_m) as'))

module _ {S D : Type 0} (c : Plan S D) where
  -- The row at which a flight first touches the ground, told row by row.
  unfoldable pub contact_row : List Row → Flight S D → Option ℕ
  contact_row [] f = none
  contact_row (r ∷ rs) f =
      contact_after (touch_ground c r f).1 (contact_row rs (touch_ground c r f).0)

  abbrev pub alts_of : List Row → List (Option ℤ)
  alts_of rs = map (λ r. some (altitude c r)) rs

  abbrev pub low_at : Row → Bool
  low_at r = ltb_ℤ (altitude c r) c.outcome.ground_contact_alt_m

  abbrev pub grounded : List Row → List Bool
  grounded rs = map (is_below c.outcome.ground_contact_alt_m) (alts_of rs)

  -- Once it has been up, the first row that is low.
  up_contact :
      (rs : List Row) (f : Flight S D) → f.airborne ≡ true → contact_row rs f ≡ first (grounded rs)
  unfolding contact_row touch_ground
  up_contact [] f up = refl
  up_contact (r ∷ rs) f up =
      let told : (touch_ground c r f).1 ≡ ok (low_at r) = ground (arith, up) in
      ap (λ v. contact_after v (contact_row rs (touch_ground c r f).0)) told
      ∙ after-first (low_at r) (contact_row rs (touch_ground c r f).0) (grounded rs)
          (up_contact rs (touch_ground c r f).0 (ground (arith, up)))

  -- The ground contact that ends a flight is the one by which its records are judged afterwards: the
  -- first row below the contact altitude from the first airborne one on, or none.
  pub contact_agrees :
      (rs : List Row) (f : Flight S D)
      → f.airborne ≡ false
      → contact_row rs f ≡ (first_ground_contact c.outcome (alts_of rs)).1
  unfolding contact_row touch_ground first_ground_contact
  contact_agrees [] f down = refl
  contact_agrees (r ∷ rs) f down =
      elim (Bool-cases (leb_ℤ c.outcome.airborne_alt_m (altitude c r))) [
        | inl up ↦
            let told : (touch_ground c r f).1 ≡ ok (low_at r) = ground (arith, up) in
            ap (λ v. contact_after v (contact_row rs (touch_ground c r f).0)) told
            ∙ after-first (low_at r) (contact_row rs (touch_ground c r f).0) (grounded rs)
                (up_contact rs (touch_ground c r f).0 (ground (arith, up)))
            ∙ sym (begun c.outcome (some (altitude c r)) (alts_of rs) up)
        | inr low ↦
            let told : (touch_ground c r f).1 ≡ ok false = ground (arith, down) in
            ap (λ v. contact_after v (contact_row rs (touch_ground c r f).0)) told
            ∙ ap (contact_after (ok false))
                (contact_agrees rs (touch_ground c r f).0 (ground (arith, down)))
            ∙ sym (shifted c.outcome (some (altitude c r)) (alts_of rs) low)
      ]
