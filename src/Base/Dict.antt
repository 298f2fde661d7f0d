-- ===== src/Base/Dict.antt =====
-- Python's dict of counters: an association list under an equality test of the keys.
use Prim.Native.Nat.{ℕ, suc, ◌+◌}
use mathlib.Core.Path.{◌≡◌, refl}
use mathlib.Core.Logic.{inl, inr}
use mathlib.Core.Bool.{Bool}
use mathlib.Core.Option.{Option, none, some}
use mathlib.Core.List.{List, [], ◌∷◌}
use native.Mathlib.Omega.{arith}
use aero_safe_rl.Base.Tests.{if◌then◌else◌, or_else, ◌==◌, Bool-cases, Option-cases}

module _ {K : Type 0} (eq : K → K → Bool) where
  -- `d.get(k)`
  unfoldable pub get : K → List (K × ℕ) → Option ℕ
  get k [] = none
  get k ((j, n) ∷ d) = if eq j k then some n else get k d

  -- `d[k] += 1`; `none` is KeyError.
  unfoldable pub bump : K → List (K × ℕ) → Option (List (K × ℕ))
  bump k [] = none
  bump k ((j, n) ∷ d) =
      let rest = bump k d in
      if eq j k
      then some ((j, suc n) ∷ d)
      else elim rest [ none ↦ none | some d' ↦ some ((j, n) ∷ d') ]

  -- `d[k] = d.get(k, 0) + 1`
  unfoldable pub count_in : K → List (K × ℕ) → List (K × ℕ)
  count_in k [] = (k, 1) ∷ []
  count_in k ((j, n) ∷ d) = if eq j k then (j, suc n) ∷ d else (j, n) ∷ count_in k d

  -- `sum(d.values())`
  unfoldable pub sum_values : List (K × ℕ) → ℕ
  sum_values [] = 0
  sum_values ((j, n) ∷ d) = n + sum_values d

  pub sum_values-bump :
      (k : K) (d d' : List (K × ℕ)) → bump k d ≡ some d' → sum_values d' ≡ suc (sum_values d)
  unfolding bump sum_values
  sum_values-bump k [] d' e = cc
  sum_values-bump k ((j, n) ∷ d) d' e = elim (Bool-cases (eq j k)) [
    | inl hit ↦ ground arith
    | inr miss ↦ elim (Option-cases (bump k d)) [
      | inl q ↦ ground arith
      | inr (d1, q) ↦ ground (arith, sum_values-bump k d d1 q)
    ]
  ]

  pub sum_values-count_in :
      (k : K) (d : List (K × ℕ)) → sum_values (count_in k d) ≡ suc (sum_values d)
  unfolding count_in sum_values
  sum_values-count_in k [] = refl
  sum_values-count_in k ((j, n) ∷ d) = ground (arith, sum_values-count_in k d)

-- `d[k]` where a missing key counts as 0.
abbrev pub level : List (ℕ × ℕ) → ℕ → ℕ
level d k = or_else (get ◌==◌ k d) 0

pub level-bump :
    (k j : ℕ) (d d' : List (ℕ × ℕ))
    → bump ◌==◌ k d ≡ some d'
    → level d' j ≡ (if k == j then suc (level d j) else level d j)
unfolding bump get
level-bump k j [] d' e = cc
level-bump k j ((i, n) ∷ d) d' e = elim (Option-cases (bump ◌==◌ k d)) [
  | inl q ↦ ground arith
  | inr (d1, q) ↦ ground (arith, level-bump k j d d1 q)
]

-- A counter's value after `d[s] = d.get(s, 0) + 1`, where keys are told apart by a number.
pub level-count_in :
    {K : Type 0} (key : K → ℕ) (s t : K) (d : List (K × ℕ))
    → let eq : K → K → Bool = λ a b. key a == key b in
      or_else (get eq t (count_in eq s d)) 0
      ≡ (if key s == key t then suc (or_else (get eq t d) 0) else or_else (get eq t d) 0)
unfolding get count_in
level-count_in key s t [] = ground arith
level-count_in key s t ((j, n) ∷ d) = ground (arith, level-count_in key s t d)
