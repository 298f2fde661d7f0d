-- ===== src/Tests/Policies.antt =====
-- The policy side at concrete inputs: configs/rl/action_v1.yaml, configs/rl/fsm_v1.yaml, and short
-- histories of decisions.
use Prim.Native.String.{String}
use aero_safe_rl.Base.{
  ℕ, ◌-◌, ◌*◌, ◌≤◌, ◌≡◌, refl, ◌↔◌, List, [], ◌∷◌, none, some, true, false, ℤ, pos, negsuc, length,
  ok, err, arith,
}
use aero_safe_rl.Features.{Frame, TelemetryWindow, has_columns, deque_append, value_of, values_of}
use aero_safe_rl.Features
use aero_safe_rl.Policy.Action.{
  decision_period_s, PolicyError, Action, ActionSpec, RawEntry, RawSpec, action_fields, clip,
  nominal, read_action_spec, check_action_spec, load_action_spec,
}
use aero_safe_rl.Policy.Action.Decode.{IsValid, Within, IsBinary}
use aero_safe_rl.Policy.Action.Load.{load_action_spec-IsValid}
use aero_safe_rl.Policy.Input.{MissionProgress, PolicyInput}
use aero_safe_rl.Policy.RuleBased.{FsmConfig, Reading, post_init, after, act}
use aero_safe_rl.Policy.RuleBased.Diagram.{Edge, after-Edge, is_latched}
use aero_safe_rl.Policy.RuleBased.Confirm.{
  Confirmed, Severe, reading, latched_iff_Confirmed, land_needs_evidence,
}
use aero_safe_rl.Policy.Driver.{
  Detector, PolicyDriver, Setup, Tick, reset, append_row, detect, ask, consult, annotate, step, run,
  decision_slack_s,
}
use aero_safe_rl.Policy.Driver.Latch.{Same, land_latches}
use aero_safe_rl.Policy.Driver.Cadence.{decision_rate, action_in_range}
use aero_safe_rl.Policy.Driver.Policies.{
  PolicyObject, nominal_policy, constant_policy, object_reset, object_act, object_state_name,
  policies,
}

abbrev entry : String → ℤ → ℤ → ℤ → RawEntry
entry n lo hi nom = record { name = some n; low = some lo; high = some hi; nominal = some nom }

abbrev raw_spec : RawSpec
raw_spec = record {
  actions = some (
      entry "speed_scale" (pos 0) (pos 1000000) (pos 1000000)
      ∷ entry "altitude_offset_m" (negsuc 3499999) (pos 0) (pos 0)
      ∷ entry "land" (pos 0) (pos 1000000) (pos 0)
      ∷ []);
  action_version = some "v1";
  decision_rate_hz = some 5000000;
  land_threshold = some (pos 500000);
  v_max_xy_m_s = some (pos 12000000);
  v_z_m_s = some (pos 1500000);
}

abbrev pub spec : ActionSpec
spec = record {
  action_version = "v1";
  decision_rate_hz = 5000000;
  names = action_fields;
  low = pos 0 ∷ negsuc 3499999 ∷ pos 0 ∷ [];
  high = pos 1000000 ∷ pos 0 ∷ pos 1000000 ∷ [];
  nominal_vector = pos 1000000 ∷ pos 0 ∷ pos 0 ∷ [];
  land_threshold = pos 500000;
  v_max_xy_m_s = pos 12000000;
  v_z_m_s = pos 1500000;
  digest = "d1";
}

spec_loads : load_action_spec (λ _. "d1") raw_spec ≡ ok spec
unfolding load_action_spec read_action_spec check_action_spec
spec_loads = refl

load_action_spec-IsValid_example : IsValid spec
load_action_spec-IsValid_example = load_action_spec-IsValid (λ _. "d1") raw_spec spec spec_loads

abbrev spec_valid : IsValid spec
spec_valid = record {
  speed = record {
    low = pos 0;
    high = pos 1000000;
    nominal = pos 1000000;
    low_le = omega arith;
    le_high = omega arith;
  };
  offset = record {
    low = negsuc 3499999;
    high = pos 0;
    nominal = pos 0;
    low_le = omega arith;
    le_high = omega arith;
  };
  land = record {
    low = pos 0;
    high = pos 1000000;
    nominal = pos 0;
    low_le = omega arith;
    le_high = omega arith;
  };
  names_eq = refl;
  low_eq = refl;
  high_eq = refl;
  nominal_eq = refl;
}

spec-IsBinary : IsBinary spec_valid
spec-IsBinary = ((omega arith, omega arith), (omega arith, omega arith), refl, refl)

-- Out of range in both coordinates.
abbrev too_fast : List ℤ
too_fast = pos 2000000 ∷ negsuc 4999999 ∷ pos 400000 ∷ []

abbrev dive : Action
dive = record { speed_scale = pos 2000000; altitude_offset_m = negsuc 4999999; land = true }

abbrev config : FsmConfig
config = record {
  suspect_p = pos 500000;
  clear_p = pos 50000;
  confirm_hold_s = pos 1000000;
  clear_hold_s = pos 1000000;
  suspected_speed_scale = pos 500000;
  suspected_altitude_offset_m = pos 0;
  degraded_speed_scale = pos 300000;
  degraded_altitude_offset_m = negsuc 2999999;
  land_severity = pos 400000;
}

config_accepted : post_init config ≡ ok config
unfolding post_init
config_accepted = refl

abbrev seen : ℕ → ℕ → ℕ → Reading
seen t p sev = record { t = t; p = pos p; sev = pos sev }

-- Half a second of a likely fault, the latest reading first.
abbrev history : List Reading
history = seen 500000 900000 600000 ∷ seen 0 800000 600000 ∷ []

after-Edge_example :
    Edge (after config history).state (after config (seen 1000000 900000 600000 ∷ history)).state
after-Edge_example = after-Edge config (seen 1000000 900000 600000) history config_accepted

abbrev confirmed_history : List Reading
confirmed_history = seen 1000000 900000 600000 ∷ history

latched_iff_Confirmed_example :
    (is_latched (after config confirmed_history).state ≡ true) ↔ Confirmed config confirmed_history
latched_iff_Confirmed_example =
    latched_iff_Confirmed config confirmed_history config_accepted
      (omega arith, (omega arith, (tt, tt)))

abbrev progress : MissionProgress
progress = record {
  waypoint_index = 1;
  n_waypoints = 4;
  distance_to_waypoint_m = 3000000;
  altitude_m = pos 5000000;
  elapsed_s = pos 1000000;
}

abbrev input : PolicyInput
input = record {
  t_sim_s = 1000000;
  features = λ _. none;
  detector = record {
    p_fault = pos 900000;
    rotor = pos 2;
    severity = pos 600000;
    uncertainty = pos 10000;
    alarm = true;
  };
  mission = progress;
  previous_action = none;
}

abbrev landing : Action
landing = record { speed_scale = pos 0; altitude_offset_m = negsuc 2999999; land = true }

abbrev pub nominal_action : Action
nominal_action = record { speed_scale = pos 1000000; altitude_offset_m = pos 0; land = false }

spec_nominal : nominal spec ≡ ok nominal_action
unfolding nominal
spec_nominal = refl

lands : (act config spec (after config history) input).1 ≡ ok landing
unfolding act after
lands = refl

land_needs_evidence_example :
    Confirmed config (reading input ∷ history) × Severe config (reading input ∷ history)
land_needs_evidence_example =
    land_needs_evidence config spec nominal_action landing input history config_accepted
      spec_nominal refl lands refl

abbrev frame : ℕ → Frame
frame t = record { t_sim_s = t; column = λ _. some (some (pos 7)) }

abbrev no_detector : Detector Unit
no_detector = record { reset = λ x. x; step = λ x _. (x, err PolicyError.value_error) }

abbrev pub setup : Setup PolicyObject Unit
setup = record {
  policy = policies;
  detector = no_detector;
  spec = spec;
  obs_names = "roll_rad" ∷ [];
  feature_names = "roll_rad" ∷ "thrust_accel_residual" ∷ [];
  residual = λ fs. some (pos (length fs));
  capacity = 3;
}

abbrev driver_of : PolicyObject → PolicyDriver PolicyObject Unit
driver_of p = record {
  policy = p;
  detector = none;
  window = record { capacity = 3; frames = [] };
  action = nominal_action;
  next_decision_t = none;
  n_decisions = 0;
}

abbrev tick : ℕ → Tick
tick t = record { row = frame t; progress = progress; decide = true }

abbrev ticks : List Tick
ticks = tick 0 ∷ tick 100000 ∷ tick 200000 ∷ []

abbrev slow : Action
slow = record { speed_scale = pos 500000; altitude_offset_m = pos 0; land = false }

-- A constant policy's driver, after `reset` and after the three ticks.
abbrev fresh : PolicyDriver PolicyObject Unit
fresh = driver_of (constant_policy slow)

abbrev flown : List Tick → PolicyDriver PolicyObject Unit → PolicyDriver PolicyObject Unit
flown ks d = (run setup ks d).0

fresh_resets : reset setup fresh ≡ (fresh, ok tt)
unfolding reset nominal Features.new_window object_reset policies
fresh_resets = refl

fresh_flies : run setup ticks fresh ≡ (flown ticks fresh, ok tt)
unfolding run step append_row detect consult ask annotate Features.append Features.extract values_of
    value_of has_columns deque_append object_act object_state_name policies clip
fresh_flies = refl

decision_rate_example :
    ((flown ticks fresh).n_decisions - 1) * (decision_period_s spec - decision_slack_s) ≤ 200000 - 0
decision_rate_example =
    decision_rate setup 0 200000 ticks fresh fresh (flown ticks fresh) (omega arith)
      ((omega arith, omega arith), ((omega arith, omega arith), ((omega arith, omega arith), tt)))
      fresh_resets fresh_flies

action_in_range_example : Within spec_valid (flown ticks fresh).action
action_in_range_example =
    action_in_range setup spec_valid ticks fresh fresh (flown ticks fresh) fresh_resets fresh_flies

-- A driver whose landing is in force.
abbrev descending : PolicyDriver PolicyObject Unit
descending = record (driver_of (constant_policy slow)) { action = landing }

descending_flies : run setup ticks descending ≡ (flown ticks descending, ok tt)
unfolding run step append_row detect consult ask annotate Features.append Features.extract values_of
    value_of has_columns deque_append object_act object_state_name policies clip
descending_flies = refl

land_latches_example : Same descending (flown ticks descending)
land_latches_example =
    land_latches setup ticks descending (flown ticks descending) refl descending_flies

abbrev pub plain : PolicyDriver PolicyObject Unit
plain = driver_of (nominal_policy nominal_action)

plain_resets : reset setup plain ≡ (plain, ok tt)
unfolding reset nominal Features.new_window object_reset policies
plain_resets = refl

plain_flies : run setup ticks plain ≡ (flown ticks plain, ok tt)
unfolding run step append_row detect consult ask annotate Features.append Features.extract values_of
    value_of has_columns deque_append object_act object_state_name policies clip
plain_flies = refl
