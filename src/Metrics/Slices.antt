-- ===== src/Metrics/Slices.antt =====
-- experiments/metrics.py: limits on the entries of a slice, by their indices in the whole array.
use aero_safe_rl.Base.{
  ℕ, zero, suc, ◌+◌, ◌-◌, ◌≤◌, ◌<◌, ◌≡◌, refl, sym, ap, ◌∙◌, ◌↔◌, ◌⊎◌, List, [], ◌∷◌, get_elem?,
  All, Option, none, some, false, ℤ, ◌≤ℤ◌, arith,
}
use aero_safe_rl.Policy.Outcome.{OutcomeSpec}
use aero_safe_rl.Metrics.First.{drop, get_elem?-drop}
use aero_safe_rl.Metrics.Outcome.{exceeds, take, around}

abbrev pub Within : ℤ → List (Option ℤ) → Type 0
Within limit = All (λ x. exceeds x limit ≡ false)

-- The numbers at the indices of a set are at most a limit; NaN and what lies outside are not numbers.
abbrev pub AtMost : ℤ → List (Option ℤ) → (ℕ → Type 0) → Type 0
AtMost limit xs At = (j : ℕ) (v : ℤ) → At j → get_elem? xs j ≡ some (some v) → v ≤ℤ limit

Within-AtMost : (limit : ℤ) (xs : List (Option ℤ)) → Within limit xs → AtMost limit xs (λ _. Unit)
Within-AtMost limit [] h j v _ e = cc e
Within-AtMost limit (x ∷ xs) (p, h) zero v _ e = ground (arith, p, e)
Within-AtMost limit (x ∷ xs) (p, h) (suc j) v _ e = Within-AtMost limit xs h j v tt e

AtMost-Within : (limit : ℤ) (xs : List (Option ℤ)) → AtMost limit xs (λ _. Unit) → Within limit xs
AtMost-Within limit [] h = tt
AtMost-Within limit (none ∷ xs) h = (refl, AtMost-Within limit xs (λ j v _ e. h (suc j) v tt e))
AtMost-Within limit (some a ∷ xs) h =
    (ground (arith, h 0 a tt refl), AtMost-Within limit xs (λ j v _ e. h (suc j) v tt e))

get_elem?-take :
    {A : Type 0} (n : ℕ) (xs : List A) (i : ℕ) (x : A)
    → (get_elem? (take n xs) i ≡ some x) ↔ ((i < n) × (get_elem? xs i ≡ some x))
get_elem?-take zero xs i x = (λ h. cc h, λ h. absurd (omega (arith, h.0)))
get_elem?-take (suc n) [] i x = (λ h. cc h, λ h. cc (h.1))
get_elem?-take (suc n) (y ∷ ys) zero x = (λ h. (omega arith, h), λ h. h.1)
get_elem?-take (suc n) (y ∷ ys) (suc i) x =
    let (there, back) = get_elem?-take n ys i x in
    (λ h. let (lt, e) = there h in (omega (arith, lt), e), λ (lt, e). back (omega (arith, lt), e))

-- From an index on.
pub drop_iff :
    (limit : ℤ) (k : ℕ) (xs : List (Option ℤ))
    → Within limit (drop k xs) ↔ AtMost limit xs (λ j. k ≤ j)
drop_iff limit k xs = (
  λ h j v le e.
      let same : k + (j - k) ≡ j = omega (arith, le) in
      Within-AtMost limit (drop k xs) h (j - k) v tt
        (get_elem?-drop k xs (j - k) ∙ ap (get_elem? xs) same ∙ e),
  λ h.
      AtMost-Within limit (drop k xs)
        (λ j v _ e. h (k + j) v (omega arith) (sym (get_elem?-drop k xs j) ∙ e)),
)

-- At an index and the one before.
pub around_iff :
    (spec : OutcomeSpec) (limit : ℤ) (k : ℕ) (xs : List (Option ℤ))
    → Within limit (around spec k xs) ↔ AtMost limit xs (λ j. (j ≡ k) ⊎ (suc j ≡ k))
around_iff spec limit k xs =
    let n = k + 1 - (k - 1) in
    let part = drop (k - 1) xs in
    (
      λ h j v near e.
          let same : k - 1 + (j - (k - 1)) ≡ j = ground (arith, near) in
          let lt : j - (k - 1) < n = ground (arith, near) in
          Within-AtMost limit (take n part) h (j - (k - 1)) v tt (
            (get_elem?-take n part (j - (k - 1)) (some v)).1
              (lt, get_elem?-drop (k - 1) xs (j - (k - 1)) ∙ ap (get_elem? xs) same ∙ e)),
      λ h. AtMost-Within limit (take n part) (λ i v _ e.
          let (lt, e') = (get_elem?-take n part i (some v)).0 e in
          h (k - 1 + i) v (ground (arith, lt)) (sym (get_elem?-drop (k - 1) xs i) ∙ e')),
    )
