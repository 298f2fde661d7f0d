-- ===== src/Policy/Outcome.antt =====
-- rl/policies/base_policy.py: OutcomeSpec, the rule by which a flight is judged, and its file. Lengths
-- are millionths of a metre, times microseconds, angles millionths of a degree.
use Prim.Native.String.{String}
use aero_safe_rl.Base.{List, Option, ℤ, Result, ok, ◌>>=◌}
use aero_safe_rl.Policy.Action.{PolicyError, field}

pub record OutcomeSpec : Type 0 where
  pub outcome_version : String
  pub ground_contact_alt_m : ℤ
  pub airborne_alt_m : ℤ
  pub crash_touchdown_speed_m_s : ℤ
  pub crash_tilt_deg : ℤ
  pub sensitivity_touchdown_speeds_m_s : List ℤ
  pub landed_settle_s : ℤ

-- The parsed file: a missing or malformed field is `none`.
pub record RawOutcome : Type 0 where
  pub outcome_version : Option String
  pub ground_contact_alt_m : Option ℤ
  pub airborne_alt_m : Option ℤ
  pub crash_touchdown_speed_m_s : Option ℤ
  pub crash_tilt_deg : Option ℤ
  pub sensitivity_touchdown_speeds_m_s : Option (List ℤ)
  pub landed_settle_s : Option ℤ

unfoldable pub load_outcome_spec : RawOutcome → Result PolicyError OutcomeSpec
load_outcome_spec raw = do
  version ← field raw.outcome_version
  contact ← field raw.ground_contact_alt_m
  airborne ← field raw.airborne_alt_m
  speed ← field raw.crash_touchdown_speed_m_s
  tilt ← field raw.crash_tilt_deg
  speeds ← field raw.sensitivity_touchdown_speeds_m_s
  settle ← field raw.landed_settle_s
  ok (record {
    outcome_version = version;
    ground_contact_alt_m = contact;
    airborne_alt_m = airborne;
    crash_touchdown_speed_m_s = speed;
    crash_tilt_deg = tilt;
    sensitivity_touchdown_speeds_m_s = speeds;
    landed_settle_s = settle;
  })
