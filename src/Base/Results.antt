-- ===== src/Base/Results.antt =====
-- Python's exceptions as values: a call returns, or it raises an error of the module's own type.
use mathlib.Core.Path.{◌≡◌, refl}
use mathlib.Core.Logic.{◌⊎◌, inl, inr}
use mathlib.Core.Bool.{Bool, true, false}

pub data Result {ℓ} (E : Type 0) (A : Type ℓ) : Type ℓ where
  ok : A → Result E A
  err : E → Result E A

-- `if not b: raise e`
abbrev pub guard : {E : Type 0} → Bool → E → Result E (Unit {0})
guard false why = err why
guard true why = ok tt

module _ {ℓ} {E : Type 0} {A : Type ℓ} where
  pub Result-cases : (r : Result E A) → ((a : A) × (r ≡ ok a)) ⊎ ((e : E) × (r ≡ err e))
  Result-cases (err e) = inr (e, refl)
  Result-cases (ok a) = inl (a, refl)

pub ok_injective : {E A : Type 0} {a b : A} → ◌≡◌ {A = Result E A} (ok a) (ok b) → a ≡ b
ok_injective e = cc e

module _ {ℓ κ} {E : Type 0} {A : Type ℓ} {B : Type κ} where
  infixl 5 ◌>>=◌
  abbrev pub ◌>>=◌ : Result E A → (A → Result E B) → Result E B
  r >>= next = elim r [ err why ↦ err why | ok value ↦ next value ]

  -- A sequence that returns has a first part that returns.
  pub >>=-eq-ok :
      (r : Result E A) (next : A → Result E B) {final : B}
      → (r >>= next) ≡ ok final
      → (value : A) × (r ≡ ok value) × (next value ≡ ok final)
  >>=-eq-ok (err why) next returned = cc
  >>=-eq-ok (ok value) next returned = (value, refl, returned)

infixl 5 ◌>>◌
abbrev pub ◌>>◌ {κ} : {E : Type 0} {B : Type κ} → Result E (Unit {0}) → Result E B → Result E B
checked >> next = checked >>= λ _. next
