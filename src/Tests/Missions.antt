-- ===== src/Tests/Missions.antt =====
-- Missions at concrete inputs: a tracker over a few calls, and a whole short flight.
use aero_safe_rl.Base.{
  ℕ, ◌+◌, ◌*◌, ◌≤◌, ◌<◌, ◌≡◌, refl, ◌↔◌, List, [], ◌∷◌, length, All, Option, none, some, Bool, true,
  false, pos, negsuc, ◌+ℤ◌, ◌-ℤ◌, Result, ok, err, arith, ap,
}
use aero_safe_rl.Policy.Action.{PolicyError, Action, nominal, clip}
use aero_safe_rl.Policy.Outcome.{OutcomeSpec}
use aero_safe_rl.Policy.Driver.{PolicyDriver, Setup}
use aero_safe_rl.Policy.Driver
use aero_safe_rl.Policy.Driver.Policies.{
  PolicyObject, object_act, object_reset, object_state_name, policies,
}
use aero_safe_rl.Features
use aero_safe_rl.Features.{has_columns, deque_append, value_of, values_of}
use aero_safe_rl.Episode.{completed, aborted_error}
use aero_safe_rl.Bridge.{Sent, arm_and_engage_offboard}
use aero_safe_rl.Mission.{
  Vec3, isqrt, Geofence, MissionConfig, MissionTracker, TrackerError, new_tracker, update, hold,
  next_offset, dz_max, carrot_step, carrot_to, within, is_at, setpoint, target, n_legs, final_leg,
  leg_then,
}
use aero_safe_rl.Mission
use aero_safe_rl.Mission.Holds.{Sample, after, Held}
use aero_safe_rl.Mission.Complete.{Ordered, left_iff_Held}
use aero_safe_rl.Mission.Validate.{RawMission, InFence, IsConsistent, validate_mission_config}
use aero_safe_rl.Mission.Accepted.{HasFields, validate_iff}
use aero_safe_rl.Mission.Fence.{setpoint-InFence}
use aero_safe_rl.Mission.Flight.{
  Watch, Plan, Feed, MissionResult, fly_mission, mission_poll, landing_poll, hold_deadline,
}
use aero_safe_rl.Mission.Flight.Books.{samples, Spaced, Behind}
use aero_safe_rl.Mission.Flight.Completed.{completed_holds}
use aero_safe_rl.Mission.Flight.Returns.{Ticks, fly_mission_returns}
use aero_safe_rl.Mission.Flight.Rate.{step_rate}
use aero_safe_rl.Tests.Policies.{spec, setup, plain}

abbrev fence : Geofence
fence = record {
  x_min_m = negsuc 9999999;
  x_max_m = pos 10000000;
  y_min_m = negsuc 9999999;
  y_max_m = pos 10000000;
  z_min_m = negsuc 9999999;
  z_max_m = pos 0;
}

-- To (3, 0), held for 0.2 s, and then for 0.1 s more.
abbrev plan : MissionConfig
plan = record {
  altitude_m = pos 2000000;
  acceptance_radius_m = pos 500000;
  hold_time_s = pos 200000;
  final_hover_s = pos 100000;
  timeout_s = pos 60000000;
  waypoints = (pos 3000000, pos 0) ∷ [];
  geofence = fence;
}

abbrev go : Action
go = record { speed_scale = pos 1000000; altitude_offset_m = pos 0; land = false }

abbrev at : ℕ → ℕ → Sample
at t x = record { t_sim_s = t; position = (pos x, (pos 0, negsuc 1999999)); action = go }

-- The latest call first.
abbrev calls : List Sample
calls =
    at 600000 3000000
    ∷ at 500000 3000000
    ∷ at 400000 2900000
    ∷ at 300000 2800000
    ∷ at 200000 1500000
    ∷ at 100000 0
    ∷ []

abbrev started : MissionTracker
started = record {
  legs =
      leg_then (record { x = pos 3000000; y = pos 0; hold_s = pos 200000 })
        (final_leg (record { x = pos 3000000; y = pos 0; hold_s = pos 100000 }));
  n_waypoints = 1;
  altitude_m = pos 2000000;
  accept_r = pos 500000;
  spec = spec;
  carrot = (pos 0, pos 0);
  offset_m = pos 0;
  leg = 0;
  held_since = none;
  t_last = none;
  t_start = none;
}

starts : new_tracker plan spec (pos 0, pos 0) ≡ ok started
unfolding new_tracker
starts = refl

abbrev ended : MissionTracker
ended = elim (after started calls) [ ok t ↦ t | err e ↦ started ]

ends : after started calls ≡ ok ended
unfolding after update hold next_offset dz_max carrot_step carrot_to within is_at isqrt ◌-ℤ◌ ◌+ℤ◌
ends = refl

first_leg : ended.leg ≡ 1
unfolding after update hold next_offset dz_max carrot_step carrot_to within is_at isqrt ◌-ℤ◌ ◌+ℤ◌
first_leg = refl

calls-Ordered : Ordered calls
calls-Ordered = (omega arith, (omega arith, (omega arith, (omega arith, (omega arith, (tt, tt))))))

left_iff_Held_example : (0 < ended.leg) ↔ Held started 0 calls
left_iff_Held_example =
    left_iff_Held plan spec (pos 0, pos 0) started ended calls 0 starts calls-Ordered ends

abbrev raw_plan : RawMission
raw_plan = record {
  mission_id = some "m1";
  schema_version = some "1";
  altitude_m = some (pos 2000000);
  acceptance_radius_m = some (pos 500000);
  hold_time_s = some (pos 200000);
  final_hover_s = some (pos 100000);
  timeout_s = some (pos 60000000);
  waypoints = some ((pos 3000000, pos 0) ∷ []);
  geofence = some (record {
    x_min_m = some (negsuc 9999999);
    x_max_m = some (pos 10000000);
    y_min_m = some (negsuc 9999999);
    y_max_m = some (pos 10000000);
    z_min_m = some (negsuc 9999999);
    z_max_m = some (pos 0);
  });
}

validate_iff_example :
    (validate_mission_config raw_plan ≡ ok plan) ↔ (HasFields raw_plan plan × IsConsistent plan)
validate_iff_example = validate_iff raw_plan plan

plan-IsConsistent : IsConsistent plan
plan-IsConsistent = record {
  x_order = refl;
  y_order = refl;
  z_order = refl;
  takeoff = (omega arith, omega arith);
  inside = (((omega arith, omega arith), (omega arith, omega arith)), tt);
}

setpoint-InFence_example :
    InFence fence ((setpoint ended).0, (setpoint ended).1.0)
    × InFence fence ((target ended).0, (target ended).1.0)
setpoint-InFence_example =
    setpoint-InFence plan spec (pos 0, pos 0) started ended calls plan-IsConsistent
      ((omega arith, omega arith), (omega arith, omega arith)) (omega arith)
      (omega arith, (omega arith, (omega arith, (omega arith, (omega arith, (omega arith, tt))))))
      starts ends

-- A flight over a waypoint straight above the start. Each iteration takes 10 s of wall time and
-- 0.1 s of simulated time; PX4 is ready at once, and disarmed when the landing starts.
abbrev hover : MissionConfig
hover = record plan {
  hold_time_s = pos 100000;
  final_hover_s = pos 0;
  waypoints = (pos 0, pos 0) ∷ [];
}

abbrev watch : Bool → ℕ → Watch
watch armed i = record {
  wall = i * 10000000;
  now_us = some (1000000 + i * 100000);
  vehicle_status = some (record { armed = armed; offboard = true; pre_flight_checks_pass = true });
  vehicle_odometry = some (record {
    position = (some (pos 0), (some (pos 0), some (negsuc 1999999)));
    velocity = (some (pos 0), (some (pos 0), some (pos 0)));
  });
  has_attitude = true;
  has_sensors = true;
  columns = λ _. some (some (pos 7));
}

abbrev pub feed : Feed
feed = record {
  arming = watch true;
  holding = watch true;
  landing = watch false;
  arm_start = 0;
  hold_start = 0;
  land_start = 0;
  armed_now_us = some 1000000;
  armed_xy = some (pos 0, pos 0);
  finish_now_us = some 2000000;
}

abbrev pub outcome_spec : OutcomeSpec
outcome_spec = record {
  outcome_version = "1";
  ground_contact_alt_m = pos 300000;
  airborne_alt_m = pos 1000000;
  crash_touchdown_speed_m_s = pos 2000000;
  crash_tilt_deg = pos 60000000;
  sensitivity_touchdown_speeds_m_s = pos 1500000 ∷ pos 2500000 ∷ [];
  landed_settle_s = pos 2000000;
}

abbrev pub flight : Plan PolicyObject Unit
flight = record { setup = setup; outcome = outcome_spec; mission = hover; on_step = λ _. true }

resets : (Driver.reset setup plain).1 ≡ ok tt
unfolding Driver.reset nominal Features.new_window object_reset policies
resets = refl

feed-Ticks : Ticks feed 10000000
feed-Ticks = record {
  arming = λ i. omega arith;
  holding = λ i. omega arith;
  landing = λ i. omega arith;
  arm_from = omega arith;
  hold_from = omega arith;
  land_from = omega arith;
}

fly_mission_returns_example :
    (r : MissionResult) × ((fly_mission flight feed 20 plain).1 ≡ some (ok r))
fly_mission_returns_example =
    fly_mission_returns flight feed 10000000 19 feed-Ticks (omega arith) (omega arith) (omega arith)
      plain resets

abbrev nothing : MissionResult
nothing = record {
  termination_reason = aborted_error;
  n_steps = 0;
  waypoints_reached = 0;
  position_rmse_m = none;
  final_position_error_m = none;
  t_sim_start_s = none;
  t_sim_end_s = none;
  steps = [];
}

abbrev result_in : Option (Result PolicyError MissionResult) → MissionResult
result_in none = nothing
result_in (some (err e)) = nothing
result_in (some (ok x)) = x

result_in_lem :
    (o : Option (Result PolicyError MissionResult)) (r : MissionResult)
    → o ≡ some (ok r)
    → o ≡ some (ok (result_in o))
result_in_lem o r e = ground arith

abbrev outcome : List Sent × Option (Result PolicyError MissionResult)
outcome = fly_mission flight feed 20 plain

abbrev result : MissionResult
result = result_in outcome.1

flies : fly_mission flight feed 20 plain ≡ (outcome.0, some (ok result))
flies =
    ap (λ (o : Option (Result PolicyError MissionResult)). (outcome.0, o))
      (result_in_lem outcome.1 fly_mission_returns_example.0 fly_mission_returns_example.1)

reason : result.termination_reason ≡ completed
unfolding fly_mission arm_and_engage_offboard Driver.reset nominal Features.new_window object_reset
    policies new_tracker mission_poll Driver.step Features.append has_columns Features.extract
    values_of value_of clip update carrot_to isqrt ◌-ℤ◌ carrot_step is_at within ◌+ℤ◌ next_offset
    deque_append landing_poll hold_deadline dz_max hold Mission.progress object_act
    object_state_name
reason = refl

completed_holds_example :
    (start : MissionTracker) × (new_tracker hover spec (pos 0, pos 0) ≡ ok start)
    × ((i : ℕ) → i < n_legs start.legs → Held start i (samples result.steps))
    × (result.waypoints_reached ≡ length hover.waypoints)
completed_holds_example = completed_holds flight feed 20 plain outcome.0 result flies reason

step_rate_example :
    Spaced result.steps
    × ((from until : ℕ)
        → All (λ row. from ≤ row.t_sim_s) result.steps
        → Behind result.steps until
        → from ≤ until
        → from + result.n_steps * 100000 ≤ until)
step_rate_example = step_rate flight feed 20 plain outcome.0 result flies
