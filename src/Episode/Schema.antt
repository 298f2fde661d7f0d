-- ===== src/Episode/Schema.antt =====
-- experiments/episode_schema.py: validate_episode and validate_step, on the parsed schema. A record is
-- Python's dict; only a text can be one of the schema's words.
use Prim.Native.String.{String}
use text.Mathlib.Text.{◌==◌ as str_eq}
use aero_safe_rl.Base.{
  List, [], ◌∷◌, all_of, Option, none, some, is_some, Bool, false, ◌||◌, ℤ, Result, ◌>>◌, guard,
  if◌then◌else◌,
}

pub data Value : Type 0 where
  word : String → Value
  number : ℤ → Value
  flag : Bool → Value

abbrev pub Fields : Type 0
Fields = List (String × Value)

-- `record.get(name)`
abbrev pub get : Fields → String → Option Value
get [] name = none
get ((k, v) ∷ r) name = if str_eq k name then some v else get r name

pub data SchemaError : Type 0 where
  schema_validation_error key_error os_error : SchemaError

-- configs/schema/episode_record.yaml, the parts that are read.
pub record Schema : Type 0 where
  pub episode_required : List String
  pub step_required : List String
  pub termination_reasons : List String
  pub reset_tiers : List String
  pub fault_types : List String
  pub fault_profiles : List String

abbrev pub schema_version : String
schema_version = "5"

abbrev pub is_word : String → Option Value → Bool
is_word s (some (word t)) = str_eq t s
is_word s _ = false

-- `value in set(words)`
abbrev pub one_of : List String → Option Value → Bool
one_of [] v = false
one_of (w ∷ ws) v = is_word w v || one_of ws v

abbrev pub require : Bool → Result SchemaError (Unit {0})
require b = guard b schema_validation_error

-- `_check_required`
unfoldable pub check_required : Fields → List String → Result SchemaError (Unit {0})
check_required r required = do
  require (all_of (λ f. is_some (get r f)) required)
  require (is_word schema_version (get r "schema_version"))

module _ (s : Schema) where
  unfoldable pub validate_episode : Fields → Result SchemaError (Unit {0})
  validate_episode r = do
    check_required r s.episode_required
    require (one_of s.termination_reasons (get r "termination_reason"))
    require (one_of s.reset_tiers (get r "reset_tier"))
    require (one_of s.fault_types (get r "fault_type"))
    require (one_of s.fault_profiles (get r "fault_profile"))

  unfoldable pub validate_step : Fields → Result SchemaError (Unit {0})
  validate_step r = check_required r s.step_required
