-- ===== src/Metrics/First.antt =====
-- experiments/metrics.py: `np.flatnonzero(mask)[0]` and slices from an index on.
use aero_safe_rl.Base.{
  ℕ, zero, suc, ◌+◌, ◌<◌, ◌≡◌, refl, sym, ap, ◌∙◌, ◌↔◌, inl, inr, List, [], ◌∷◌, get_elem?, Option,
  none, some, Bool, true, false, Option-cases, arith,
}

-- The first true entry.
abbrev pub first : List Bool → Option ℕ
first [] = none
first (true ∷ xs) = some 0
first (false ∷ xs) = elim (first xs) [ none ↦ none | some i ↦ some (suc i) ]

abbrev pub drop : {A : Type 0} → ℕ → List A → List A
drop zero xs = xs
drop (suc n) [] = []
drop (suc n) (x ∷ xs) = drop n xs

-- An entry is true, and none before it.
abbrev pub IsFirst : List Bool → ℕ → Type 0
IsFirst xs i = (get_elem? xs i ≡ some true) × ((j : ℕ) → j < i → get_elem? xs j ≡ some false)

first-IsFirst : (xs : List Bool) (i : ℕ) → first xs ≡ some i → IsFirst xs i
first-IsFirst [] i h = cc h
first-IsFirst (true ∷ xs) zero h = (refl, λ j l. absurd (omega (arith, l)))
first-IsFirst (true ∷ xs) (suc i) h = absurd (ground (arith, h))
first-IsFirst (false ∷ xs) zero h = elim (Option-cases (first xs)) [
  | inl e ↦ absurd (ground (arith, h))
  | inr (k, e) ↦ absurd (ground (arith, h))
]
first-IsFirst (false ∷ xs) (suc i) h = elim (Option-cases (first xs)) [
  | inl e ↦ absurd (ground (arith, h))
  | inr (k, e) ↦
      let (hit, before) = first-IsFirst xs i (ground (arith, h)) in
      (
        hit,
        λ j l.
            elim j as (λ j. j < suc i → get_elem? (false ∷ xs) j ≡ some false) [
              | zero ↦ λ _. refl
              | suc j ↦ λ l. before j (omega (arith, l))
            ]
              l,
      )
]

IsFirst-first : (xs : List Bool) (i : ℕ) → IsFirst xs i → first xs ≡ some i
IsFirst-first [] i (hit, before) = cc hit
IsFirst-first (true ∷ xs) zero h = refl
IsFirst-first (true ∷ xs) (suc i) (hit, before) = cc (before 0 (omega arith))
IsFirst-first (false ∷ xs) zero (hit, before) = cc hit
IsFirst-first (false ∷ xs) (suc i) (hit, before) =
    rw (IsFirst-first xs i (hit, λ j l. before (suc j) (omega (arith, l)))) refl

pub first_iff : (xs : List Bool) (i : ℕ) → (first xs ≡ some i) ↔ IsFirst xs i
first_iff xs i = (first-IsFirst xs i, IsFirst-first xs i)

pub get_elem?-drop :
    {A : Type 0} (o : ℕ) (xs : List A) (i : ℕ) → get_elem? (drop o xs) i ≡ get_elem? xs (o + i)
get_elem?-drop zero xs i = ap (get_elem? xs) (omega arith)
get_elem?-drop (suc o) [] i = refl
get_elem?-drop (suc o) (x ∷ xs) i =
    let same : suc o + i ≡ suc (o + i) = omega arith in
    get_elem?-drop o xs i ∙ ap (get_elem? (x ∷ xs)) (sym same)
