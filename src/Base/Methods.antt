-- ===== src/Base/Methods.antt =====
-- Methods of a mutable object: the new state comes back with the result, also when the call raises.
use mathlib.Core.Path.{◌≡◌, refl, ap}
use aero_safe_rl.Base.Results.{Result, ok, err}

abbrev pub Method : Type 0 → Type 0 → Type 0 → Type 0
Method E S A = S → S × Result E A

infixl 5 ◌>>=◌ ◌>>◌
abbrev pub ◌>>=◌ : {E S A B : Type 0} → Method E S A → (A → Method E S B) → Method E S B
◌>>=◌ m f s = let (s', r) = m s in elim r [ ok a ↦ f a s' | err e ↦ (s', err e) ]

abbrev pub ◌>>◌ : {E S B : Type 0} → Method E S (Unit {0}) → Method E S B → Method E S B
m >> k = m >>= λ _. k

abbrev pub pure : {E S A : Type 0} → A → Method E S A
pure a s = (s, ok a)

abbrev pub raise : {E S A : Type 0} → E → Method E S A
raise e s = (s, err e)

abbrev pub get : {E S : Type 0} → Method E S S
get s = (s, ok s)

abbrev pub modify : {E S : Type 0} → (S → S) → Method E S (Unit {0})
modify f s = (f s, ok tt)

bind_case :
    {E S A B : Type 0} (r : S × Result E A) (f : A → Method E S B) {s' : S} {b : B}
    → (let (s1, x) = r in elim x [ ok a ↦ f a s1 | err e ↦ (s1, err e) ]) ≡ (s', ok b)
    → (a : A) × (s1 : S) × (r ≡ (s1, ok a)) × (f a s1 ≡ (s', ok b))
bind_case (s1, ok a) f h = (a, s1, refl, h)
bind_case (s1, err e) f h = cc

-- Inversion of a call that returns.
pub bind-eq-ok :
    {E S A B : Type 0} (m : Method E S A) (f : A → Method E S B) (s : S) {s' : S} {b : B}
    → (m >>= f) s ≡ (s', ok b)
    → (a : A) × (s1 : S) × (m s ≡ (s1, ok a)) × (f a s1 ≡ (s', ok b))
bind-eq-ok m f s h = bind_case (m s) f h

-- A sequence whose first part returns, or raises.
pub bind-ok :
    {E S A B : Type 0} (m : Method E S A) (f : A → Method E S B) (s : S) {s1 : S} {a : A}
    → m s ≡ (s1, ok a)
    → (m >>= f) s ≡ f a s1
bind-ok {E} {S} {A} {B} m f s h =
    ap
      (λ (r : S × Result E A). elim r.1 as (λ _. S × Result E B) [
        | ok a ↦ f a r.0
        | err e ↦ (r.0, err e)
      ])
      h

pub bind-err :
    {E S A B : Type 0} (m : Method E S A) (f : A → Method E S B) (s : S) {s1 : S} {e : E}
    → m s ≡ (s1, err e)
    → (m >>= f) s ≡ (s1, err e)
bind-err {E} {S} {A} {B} m f s h =
    ap
      (λ (r : S × Result E A). elim r.1 as (λ _. S × Result E B) [
        | ok a ↦ f a r.0
        | err e ↦ (r.0, err e)
      ])
      h

-- What a method keeps, also when it raises.
abbrev pub Keeps : {E S A : Type 0} → (S → Type 0) → Method E S A → Type 0
Keeps {S} P m = (s : S) → P s → P (m s).0

pub bind-Keeps :
    {E S A B : Type 0} (P : S → Type 0) (m : Method E S A) (f : A → Method E S B)
    → Keeps P m
    → ((a : A) → Keeps P (f a))
    → Keeps P (m >>= f)
bind-Keeps {E = E} {S = S} {A = A} {B = B} P m f km kf s p = case_of (m s) (km s p)
  where
    case_of :
        (r : S × Result E A)
        → P r.0
        → P
            (let (s1, x) = r in
              elim x as (λ _. S × Result E B) [ ok a ↦ f a s1 | err e ↦ (s1, err e) ]).0
    case_of (s1, ok a) q = kf a s1 q
    case_of (s1, err e) q = q
