-- ===== src/Policy/Action/Spec.antt =====
-- rl/policies/base_policy.py: the action, its spec, and the decoding of a raw vector.
use Prim.Native.String.{String}
use text.Mathlib.Text.{◌==◌ as str_eq}
use aero_safe_rl.Base.{
  ℕ, ◌*◌, ◌/◌, List, [], ◌∷◌, Option, none, some, Bool, true, false, ◌&&◌, ℤ, pos, min_ℤ, max_ℤ,
  leb_ℤ, ◌==◌, length, get_elem?, Result, ok, err, guard, ◌>>=◌, ◌>>◌, if◌then◌else◌,
}

-- 1.0 in millionths; also a second in microseconds.
abbrev pub one : ℕ
one = 1000000

-- What the policy side raises: ActionSpecError, ValueError, KeyError, the IndexError of a short
-- list, and ZeroDivisionError.
pub data PolicyError : Type 0 where
  action_spec_error value_error index_error key_error zero_division : PolicyError

-- Both numbers are finite: a policy that answers NaN is outside the model.
pub record Action : Type 0 where
  pub speed_scale : ℤ
  pub altitude_offset_m : ℤ
  pub land : Bool

abbrev pub to_vector : Action → List ℤ
to_vector a = a.speed_scale ∷ a.altitude_offset_m ∷ (if a.land then pos one else pos 0) ∷ []

pub record ActionSpec : Type 0 where
  pub action_version : String
  pub decision_rate_hz : ℕ
  pub names : List String
  pub low : List ℤ
  pub high : List ℤ
  pub nominal_vector : List ℤ
  pub land_threshold : ℤ
  pub v_max_xy_m_s : ℤ
  pub v_z_m_s : ℤ
  pub digest : String

-- In microseconds, from a rate in millionths of a hertz. A rate of 0 raises where the period
-- is used.
abbrev pub decision_period_s : ActionSpec → ℕ
decision_period_s s = one * one / s.decision_rate_hz

-- `[min(max(float(x), lo), hi) for x, lo, hi in zip(vector, low, high)]`, of finite numbers; NaN
-- would come through unchanged.
abbrev pub clip_vector : List ℤ → List ℤ → List ℤ → List ℤ
clip_vector (x ∷ xs) (lo ∷ los) (hi ∷ his) = min_ℤ (max_ℤ x lo) hi ∷ clip_vector xs los his
clip_vector _ _ _ = []

-- `v[i]`
abbrev pub index : List ℤ → ℕ → Result PolicyError ℤ
index v i = elim (get_elem? v i) [ none ↦ err index_error | some x ↦ ok x ]

unfoldable pub decode : ActionSpec → List ℤ → Result PolicyError Action
decode s vector = do
  guard (length vector == length s.names) action_spec_error
  let v = clip_vector vector s.low s.high
  speed ← index v 0
  offset ← index v 1
  land ← index v 2
  ok (record {
    speed_scale = speed;
    altitude_offset_m = offset;
    land = leb_ℤ s.land_threshold land;
  })

unfoldable pub clip : ActionSpec → Action → Result PolicyError Action
unfolding decode
clip s a = decode s (to_vector a)

unfoldable pub nominal : ActionSpec → Result PolicyError Action
unfolding decode
nominal s = decode s s.nominal_vector

-- A parsed `actions` entry and the parsed file: a missing or malformed field is `none`.
pub record RawEntry : Type 0 where
  pub name : Option String
  pub low : Option ℤ
  pub high : Option ℤ
  pub nominal : Option ℤ

pub record RawSpec : Type 0 where
  pub actions : Option (List RawEntry)
  pub action_version : Option String
  pub decision_rate_hz : Option ℕ
  pub land_threshold : Option ℤ
  pub v_max_xy_m_s : Option ℤ
  pub v_z_m_s : Option ℤ

-- KeyError and TypeError become ActionSpecError.
abbrev pub field {ℓ} : {A : Type ℓ} → Option A → Result PolicyError A
field none = err action_spec_error
field (some a) = ok a

abbrev pub fields {ℓ} :
    {A : Type ℓ} → (RawEntry → Option A) → List RawEntry → Result PolicyError (List A)
fields f [] = ok []
fields f (e ∷ es) = do x ← field (f e); xs ← fields f es; ok (x ∷ xs)

-- The field names of `Action`, in order.
abbrev pub action_fields : List String
action_fields = "speed_scale" ∷ "altitude_offset_m" ∷ "land" ∷ []

abbrev pub same_names : List String → List String → Bool
same_names [] [] = true
same_names (a ∷ as') (b ∷ bs) = str_eq a b && same_names as' bs
same_names _ _ = false

-- `all(lo <= nom <= hi)` over the zipped vectors.
abbrev pub nominal_in_range : List ℤ → List ℤ → List ℤ → Bool
nominal_in_range (lo ∷ los) (hi ∷ his) (nom ∷ noms) =
    (leb_ℤ lo nom && leb_ℤ nom hi) && nominal_in_range los his noms
nominal_in_range _ _ _ = true

-- The body of the `try`. `digest` is the SHA-256 of the parsed file, which only identifies it.
unfoldable pub read_action_spec :
    (RawSpec → String) → RawSpec → List RawEntry → Result PolicyError ActionSpec
read_action_spec digest raw entries = do
  names ← fields (λ e. e.name) entries
  version ← field raw.action_version
  rate ← field raw.decision_rate_hz
  low ← fields (λ e. e.low) entries
  high ← fields (λ e. e.high) entries
  noms ← fields (λ e. e.nominal) entries
  threshold ← field raw.land_threshold
  v_xy ← field raw.v_max_xy_m_s
  v_z ← field raw.v_z_m_s
  ok (record {
    action_version = version;
    decision_rate_hz = rate;
    names = names;
    low = low;
    high = high;
    nominal_vector = noms;
    land_threshold = threshold;
    v_max_xy_m_s = v_xy;
    v_z_m_s = v_z;
    digest = digest raw;
  })

-- The checks after the `try`.
unfoldable pub check_action_spec : ActionSpec → Result PolicyError ActionSpec
check_action_spec s = do
  guard (same_names s.names action_fields) action_spec_error
  guard (nominal_in_range s.low s.high s.nominal_vector) action_spec_error
  ok s

unfoldable pub load_action_spec : (RawSpec → String) → RawSpec → Result PolicyError ActionSpec
load_action_spec digest raw = do
  entries ← field raw.actions
  s ← read_action_spec digest raw entries
  check_action_spec s
