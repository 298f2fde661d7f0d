-- ===== src/Mission/Flight/Run.antt =====
-- ros2_ws/src/aero_bridge/aero_bridge/mission_executor.py: fly_mission and its result.
use aero_safe_rl.Base.{
  ℕ, suc, ◌+◌, ◌*◌, ◌/◌, List, [], ◌∷◌, ◌++◌, length, Option, none, some, or_else, false, ℤ, pos,
  ◌+ℤ◌, Result, ok, err, if◌then◌else◌,
}
use aero_safe_rl.Policy.Driver.{PolicyDriver}
use aero_safe_rl.Policy.Driver
use aero_safe_rl.Policy.Action.{PolicyError}
use aero_safe_rl.Episode.{
  TerminationReason, completed, preflight_failed, arm_timeout, offboard_rejected, offboard_lost,
  hold_timeout, land_timeout, episode_timeout, sim_fault, aborted_error, ground_contact,
  recovery_landed,
}
use aero_safe_rl.Bridge.{FlightError, Sent, arm_and_engage_offboard}
use aero_safe_rl.Mission.Geometry.{◌*ℤ◌, isqrt}
use aero_safe_rl.Mission.Tracker.{MissionTracker, TrackerError, new_tracker, waypoints_reached}
use aero_safe_rl.Mission.Validate.{takeoff_z}
use aero_safe_rl.Mission.Flight.Loops.{Ending, watch_loop, hold_body, land_body}
use aero_safe_rl.Mission.Flight.Defs.{FlightException, Watch, Row, Flight, Plan}

-- `_REASON_FOR_ERROR`, and ABORTED_ERROR for what is not in it. `_Settled` does not get there.
abbrev pub reason_for : FlightException → TerminationReason
reason_for (FlightException.sequence e) = elim e [
  | FlightError.preflight_failed ↦ preflight_failed
  | FlightError.arm_timeout ↦ arm_timeout
  | FlightError.offboard_rejected ↦ offboard_rejected
  | FlightError.hold_timeout ↦ hold_timeout
  | FlightError.offboard_lost ↦ offboard_lost
  | FlightError.land_timeout ↦ land_timeout
  | FlightError.poll_error ↦ aborted_error
]
reason_for FlightException.mission_timeout = episode_timeout
reason_for FlightException.sim_fault = sim_fault
reason_for FlightException.ground_contact = ground_contact
reason_for FlightException.settled = aborted_error
reason_for FlightException.unexpected = aborted_error

-- What a flight reads: an iteration of each loop, the wall clock when each loop starts, and the
-- readings after arming and at the end. The position after arming is finite.
pub record Feed : Type 0 where
  pub arming : ℕ → Watch
  pub holding : ℕ → Watch
  pub landing : ℕ → Watch
  pub arm_start : ℕ
  pub hold_start : ℕ
  pub land_start : ℕ
  pub armed_now_us : Option ℕ
  pub armed_xy : Option (ℤ × ℤ)
  pub finish_now_us : Option ℕ

-- 30 s each.
abbrev pub arm_timeout_s : ℕ
arm_timeout_s = 30000000

abbrev pub land_timeout_s : ℕ
land_timeout_s = 30000000

abbrev pub mission_wall_watchdog_factor : ℕ
mission_wall_watchdog_factor = 3

pub record MissionResult : Type 0 where
  pub termination_reason : TerminationReason
  pub n_steps : ℕ
  pub waypoints_reached : ℕ
  pub position_rmse_m : Option ℕ
  pub final_position_error_m : Option ℕ
  pub t_sim_start_s : Option ℕ
  pub t_sim_end_s : Option ℕ
  pub steps : List Row

abbrev pub sum_sq : List ℕ → ℕ
sum_sq [] = 0
sum_sq (e ∷ es) = e * e + sum_sq es

-- `none` is NaN.
abbrev pub rmse : List ℕ → Option ℕ
rmse [] = none
rmse (e ∷ es) = some (isqrt (sum_sq (e ∷ es) / suc (length es)))

abbrev pub head? {ℓ} : {A : Type ℓ} → List A → Option A
head? [] = none
head? (x ∷ xs) = some x

-- `land`, for which `_Settled` is the end of a landing.
abbrev pub unsettle : Ending → Ending
unsettle (some (err FlightException.settled)) = some (ok tt)
unsettle e = e

module _ {S D : Type 0} (c : Plan S D) (feed : Feed) where
  -- `wall_deadline`, three times the mission's budget away.
  unfoldable pub hold_deadline : ℤ
  hold_deadline = pos feed.hold_start +ℤ pos mission_wall_watchdog_factor *ℤ c.mission.timeout_s

module _ {S D : Type 0} (c : Plan S D) (feed : Feed) (fuel : ℕ) where
  unfoldable pub land_now : Flight S D → List Sent × (Flight S D × Ending)
  unfolding watch_loop land_body
  land_now f =
      let (s, ((t, f'), e)) =
        watch_loop (land_body c feed.landing (pos (feed.land_start + land_timeout_s))) fuel 0
          (record { next_publish = feed.land_start; next_command = feed.land_start }, f) in
      (s, (f', unsettle e))

  unfoldable pub hold_now : Flight S D → List Sent × (Flight S D × Ending)
  unfolding watch_loop hold_body
  hold_now f =
      let (s, ((t, f'), e)) =
        watch_loop (hold_body c feed.holding (hold_deadline c feed)) fuel 0
          (record { next_publish = feed.hold_start; next_command = 0 }, f) in
      (s, (f', e))

  -- The state when the mission starts.
  unfoldable pub take_off : Flight S D → Flight S D × Result TrackerError MissionTracker
  take_off f = (
    record f { t_sim_start_s = some (or_else feed.armed_now_us 0); next_record_s = 0 },
    new_tracker c.mission c.setup.spec (or_else feed.armed_xy (pos 0, pos 0)),
  )

  unfoldable pub fly_legs : Flight S D → List Sent × (Flight S D × Ending)
  unfolding hold_now land_now
  fly_legs f =
      let (s1, (f1, e1)) = hold_now f in
      let (s2, r) = land_now f1 in
      elim e1 [
        | none ↦ (s1, (f1, none))
        | some x ↦ elim x [ err e ↦ (s1, (f1, some (err e))) | ok _ ↦ (s1 ++ s2, r) ]
      ]

  -- The body of the `try`.
  unfoldable pub attempt : Flight S D → List Sent × (Flight S D × Ending)
  unfolding take_off fly_legs
  attempt f =
      let (s0, armed) =
        arm_and_engage_offboard (λ i. (feed.arming i).wall) (λ i. (feed.arming i).vehicle_status)
          feed.arm_start (takeoff_z c.mission) arm_timeout_s fuel in
      let (f1, made) = take_off f in
      elim armed [
        | none ↦ (s0, (f, none))
        | some x ↦ elim x [
          | err e ↦ (s0, (f, some (err (FlightException.sequence e))))
          | ok _ ↦ elim made [
            | err e ↦ (s0, (f1, some (err FlightException.unexpected)))
            | ok t ↦ let (s1, r) = fly_legs (record f1 { tracker = some t }) in (s0 ++ s1, r)
          ]
        ]
      ]

  abbrev pub reason_of : Flight S D → Result FlightException (Unit {0}) → TerminationReason
  reason_of f (err e) = reason_for e
  reason_of f (ok _) = if f.driver.action.land then recovery_landed else completed

  abbrev pub result_of : Flight S D → TerminationReason → MissionResult
  result_of f reason = record {
    termination_reason = reason;
    n_steps = length f.steps;
    waypoints_reached = elim f.tracker [ none ↦ 0 | some t ↦ waypoints_reached t ];
    position_rmse_m = rmse f.errors;
    final_position_error_m = head? f.errors;
    t_sim_start_s = f.t_sim_start_s;
    t_sim_end_s = feed.finish_now_us;
    steps = f.steps;
  }

  abbrev pub new_flight : PolicyDriver S D → Flight S D
  new_flight d = record {
    driver = d;
    tracker = none;
    steps = [];
    errors = [];
    step_index = 0;
    t_sim_start_s = none;
    airborne = false;
    contact_since = none;
    next_record_s = 0;
  }

  -- The commands, and the result; `none` is out of fuel. The driver's reset is outside the `try`.
  unfoldable pub fly_mission :
      PolicyDriver S D → List Sent × Option (Result PolicyError MissionResult)
  unfolding attempt
  fly_mission d =
      let (d', r) = Driver.reset c.setup d in
      let (s, (f, e)) = attempt (new_flight d') in
      elim r [
        | err x ↦ ([], some (err x))
        | ok _ ↦ (s, elim e [ none ↦ none | some x ↦ some (ok (result_of f (reason_of f x))) ])
      ]
