-- ===== src/Tests/Logs.antt =====
-- A logger at concrete inputs: two steps and a summary, one of each that is refused.
use Prim.Native.String.{String}
use aero_safe_rl.Base.{◌≡◌, refl, List, [], ◌∷◌, map, length, true, pos, err}
use aero_safe_rl.Episode.Schema.{
  word, number, Fields, Schema, schema_validation_error, validate_step, validate_episode,
  check_required,
}
use aero_safe_rl.Episode.Logger.{log_step, write_episode}
use aero_safe_rl.Episode.Logged.{AllValid, Call, after, logged-AllValid}

abbrev schema : Schema
schema = record {
  episode_required = "schema_version" ∷ "episode_id" ∷ [];
  step_required = "schema_version" ∷ "t_sim_s" ∷ [];
  termination_reasons = "completed" ∷ "sim_fault" ∷ [];
  reset_tiers = "none" ∷ "soft" ∷ [];
  fault_types = "none" ∷ [];
  fault_profiles = "none" ∷ "ramp" ∷ [];
}

abbrev row : Fields
row = ("schema_version", word "5") ∷ ("t_sim_s", number (pos 100000)) ∷ []

abbrev stale : Fields
stale = ("schema_version", word "4") ∷ ("t_sim_s", number (pos 200000)) ∷ []

abbrev summary : String → Fields
summary tier =
    ("schema_version", word "5")
    ∷ ("episode_id", word "ep_0000")
    ∷ ("termination_reason", word "completed")
    ∷ ("reset_tier", word tier)
    ∷ ("fault_type", word "none")
    ∷ ("fault_profile", word "none")
    ∷ []

-- The latest first.
abbrev calls : List Call
calls =
    Call.episode true true (summary "soft")
    ∷ Call.episode true true (summary "warm")
    ∷ Call.step stale
    ∷ Call.step row
    ∷ []

logged-AllValid_example : AllValid schema (after schema calls)
logged-AllValid_example = logged-AllValid schema calls

-- A row of another version is refused, and so is a summary with an unknown tier.
refused : validate_step schema stale ≡ err schema_validation_error
unfolding validate_step check_required
refused = refl

written : map (λ f. length f.1) (after schema calls).step_files ≡ 1 ∷ []
unfolding log_step write_episode validate_step validate_episode check_required
written = refl
