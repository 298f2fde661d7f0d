-- ===== src/Policy/Action/Load.antt =====
-- rl/policies/base_policy.py: a spec that loads is valid.
use Prim.Native.String.{String}
use text.Mathlib.TextEquality.{eq_iff}
use mathlib.Core.Path.{subst}
use aero_safe_rl.Base.{
  length, ap, sym, ◌∙◌, ◌>>=◌, ℤ, ◌≡◌, refl, List, [], ◌∷◌, Option, true, ok, arith, >>=-eq-ok,
}
use aero_safe_rl.Policy.Action.Spec.{
  ActionSpec, RawEntry, RawSpec, action_fields, same_names, nominal_in_range, fields,
  load_action_spec, field, read_action_spec, check_action_spec,
}
use aero_safe_rl.Policy.Action.Decode.{IsValid}

check_lem :
    (s t : ActionSpec)
    → check_action_spec s ≡ ok t
    → (s ≡ t)
      × (same_names s.names action_fields ≡ true)
      × (nominal_in_range s.low s.high s.nominal_vector ≡ true)
unfolding check_action_spec
check_lem s t h = ground arith

read_lem :
    (digest : RawSpec → String) (raw : RawSpec) (es : List RawEntry) (s : ActionSpec)
    → read_action_spec digest raw es ≡ ok s
    → (fields (λ e. e.name) es ≡ ok s.names)
      × (fields (λ e. e.low) es ≡ ok s.low)
      × (fields (λ e. e.high) es ≡ ok s.high)
      × (fields (λ e. e.nominal) es ≡ ok s.nominal_vector)
unfolding read_action_spec
read_lem digest raw es s h = ground arith

same_names_lem : (xs ys : List String) → same_names xs ys ≡ true → xs ≡ ys
same_names_lem [] [] h = refl
same_names_lem [] (y ∷ ys) h = cc
same_names_lem (x ∷ xs) [] h = cc
same_names_lem (x ∷ xs) (y ∷ ys) h = ground (arith, eq_iff x y, same_names_lem xs ys)

length-fields {ℓ} :
    {A : Type ℓ} (f : RawEntry → Option A) (es : List RawEntry) {xs : List A}
    → fields f es ≡ ok xs
    → length xs ≡ length es
length-fields f [] h = ground arith
length-fields f (e ∷ es) {xs = []} h = ground arith
length-fields f (e ∷ es) {xs = x ∷ xs} h = ground (arith, length-fields f es {xs = xs})

three : (xs : List ℤ) → length xs ≡ 3 → (a : ℤ) × (b : ℤ) × (c : ℤ) × (xs ≡ a ∷ b ∷ c ∷ [])
three [] h = absurd (omega arith)
three (a ∷ []) h = absurd (omega arith)
three (a ∷ b ∷ []) h = absurd (omega arith)
three (a ∷ b ∷ c ∷ []) h = (a, b, c, refl)
three (a ∷ b ∷ c ∷ d ∷ r) h = absurd (omega arith)

-- Three vectors of length three that passed the range check.
of_ranges :
    (s : ActionSpec)
    → length s.low ≡ 3
    → length s.high ≡ 3
    → length s.nominal_vector ≡ 3
    → s.names ≡ action_fields
    → nominal_in_range s.low s.high s.nominal_vector ≡ true
    → IsValid s
of_ranges s dl dh dn e r =
    let (l0, l1, l2, el) = three s.low dl in
    let (h0, h1, h2, eh) = three s.high dh in
    let (n0, n1, n2, en) = three s.nominal_vector dn in
    let r' : nominal_in_range (l0 ∷ l1 ∷ l2 ∷ []) (h0 ∷ h1 ∷ h2 ∷ []) (n0 ∷ n1 ∷ n2 ∷ []) ≡ true =
      rw (el, eh, en) at r in
    record {
      speed = record {
        low = l0;
        high = h0;
        nominal = n0;
        low_le = ground arith;
        le_high = ground arith;
      };
      offset = record {
        low = l1;
        high = h1;
        nominal = n1;
        low_le = ground arith;
        le_high = ground arith;
      };
      land = record {
        low = l2;
        high = h2;
        nominal = n2;
        low_le = ground arith;
        le_high = ground arith;
      };
      names_eq = e;
      low_eq = el;
      high_eq = eh;
      nominal_eq = en;
    }

-- A spec that loads has the three dimensions of `Action`, in order, each with low <= nominal <= high.
pub load_action_spec-IsValid :
    (digest : RawSpec → String) (raw : RawSpec) (s : ActionSpec)
    → load_action_spec digest raw ≡ ok s
    → IsValid s
unfolding load_action_spec
load_action_spec-IsValid digest raw s h =
    let (es, _, h1) =
      >>=-eq-ok (field raw.actions) (λ es. read_action_spec digest raw es >>= check_action_spec)
        h in
    let (t, read, h2) = >>=-eq-ok (read_action_spec digest raw es) check_action_spec h1 in
    let (same, named, ranged) = check_lem t s h2 in
    let (rn, rl, rh, ro) = read_lem digest raw es t read in
    let names : t.names ≡ action_fields = same_names_lem t.names action_fields named in
    let size : 3 ≡ length es = ap length (sym names) ∙ length-fields (λ e. e.name) es rn in
    subst IsValid same (
      of_ranges t (length-fields (λ e. e.low) es rl ∙ sym size)
        (length-fields (λ e. e.high) es rh ∙ sym size)
        (length-fields (λ e. e.nominal) es ro ∙ sym size) names ranged)
