-- ===== src/Runner/Defs.antt =====
-- experiments/episode_runner.py: EpisodeRunner.run_episode. A W is the runner's world: its ROS objects,
-- its driver, the simulator and the files.
use aero_safe_rl.Base.{
  ℕ, List, [], ◌∷◌, Option, none, some, is_some, or_else, Bool, not, ◌&&◌, ℤ, sub_ℕ, ok, err,
  if◌then◌else◌,
}
use aero_safe_rl.Base.Methods.{Method, ◌>>=◌, ◌>>◌, pure, raise, modify}
use aero_safe_rl.Episode.{
  EpisodeRecord, ResetTier, no_reset, soft, medium, hard, sim_fault, same_reason,
}
use aero_safe_rl.Farm.Child.{ChildError, runner_error, Request, Runner}
use aero_safe_rl.Faults.{FaultSpec, healthy}
use aero_safe_rl.Mission.{Vec3}
use aero_safe_rl.Mission.Flight.{Row, MissionResult, head?}
use aero_safe_rl.Runner.Drive.{Echo, Tick, FaultState, new_fault_state, drive_rotor_fault}

pub record ResetResult : Type 0 where
  pub tier : ResetTier
  pub wall_duration_s : ℕ

-- What a flight leaves: its result, and the plugin's echo at each of its rows, the latest first.
pub record Flown : Type 0 where
  pub result : MissionResult
  pub echoes : List Echo

pub record Summary : Type 0 where
  pub episode : EpisodeRecord
  pub t_sim_start_s : ℕ
  pub t_sim_end_s : ℕ
  pub t_sim_duration_s : ℤ
  pub position_rmse_m : Option ℕ
  pub final_position_error_m : Option ℕ
  pub reset_wall_duration_s : ℕ
  pub final_pos : Option Vec3
  pub fault : FaultSpec
  pub fault_onset_time_s_observed : Option ℤ
  pub fault_confirmed_applied : Bool
  pub fault_confirmed_severity_final : ℤ

-- What run_episode calls on its world. `fly` is fly_mission with this runner's callback, which drives
-- the fault, logs the step and tells the caller; it raises where the driver's reset or the outcome's
-- file does.
pub record Ros (W : Type 0) : Type 0 where
  pub heartbeat : W → W
  pub soft_reset : Method ChildError W ResetResult
  pub medium_reset : Method ChildError W ResetResult
  pub hard_reset : Method ChildError W ResetResult
  pub close : Method ChildError W (Unit {0})
  pub build_ros_objects : Method ChildError W (Unit {0})
  pub clear_rotor_fault : Method ChildError W (Unit {0})
  pub fly : Request FaultSpec → Method ChildError W Flown
  pub write_episode : Summary → Method ChildError W (Unit {0})

-- `fault_state` after a flight's rows; the ticks are the rows with their echoes.
abbrev pub ticks_of : List Row → List Echo → List Tick
ticks_of (r ∷ rs) (e ∷ es) = (r.t_sim_s, e) ∷ ticks_of rs es
ticks_of _ _ = []

abbrev pub fault_state_of : Option FaultSpec → Flown → FaultState
fault_state_of spec f = elim (drive_rotor_fault spec (ticks_of f.result.steps f.echoes)) [
  | none ↦ new_fault_state
  | some s ↦ s.0
]

module _ {W : Type 0} (ros : Ros W) (worker_id : ℕ) (enable_rotor_fault : Bool) where
  abbrev pub M : Type 0 → Type 0
  M A = Method ChildError W A

  unfoldable pub rebuild_after_hard_reset : M (Unit {0})
  rebuild_after_hard_reset = do ros.close; ros.build_ros_objects

  -- The reset of the given tier, and what it took. The heartbeat marks its start.
  unfoldable pub apply_reset : ResetTier → M (ResetTier × ℕ)
  unfolding rebuild_after_hard_reset
  apply_reset no_reset = pure (no_reset, 0)
  apply_reset soft = do modify ros.heartbeat; r ← ros.soft_reset; pure (r.tier, r.wall_duration_s)
  apply_reset medium = do
    modify ros.heartbeat
    r ← ros.medium_reset
    pure (r.tier, r.wall_duration_s)
  apply_reset hard = do
    modify ros.heartbeat
    r ← ros.hard_reset
    rebuild_after_hard_reset
    pure (r.tier, r.wall_duration_s)

  abbrev pub start_of : MissionResult → ℕ
  start_of r = or_else r.t_sim_start_s 0

  abbrev pub end_of : MissionResult → ℕ
  end_of r = or_else r.t_sim_end_s (start_of r)

  -- `summary`, without the digests and the wall-clock stamps.
  unfoldable pub summary_of : Request FaultSpec → ResetTier × ℕ → Flown → Summary
  summary_of q (tier, duration) f =
      let r = f.result in
      let faults = fault_state_of q.fault_spec f in
      let fault = or_else q.fault_spec (healthy 0) in
      record {
        episode = record {
          worker_id = worker_id;
          episode_id = q.episode_id;
          seed = q.seed;
          reset_tier = tier;
          termination_reason = r.termination_reason;
          valid = not (same_reason r.termination_reason sim_fault);
          n_steps = r.n_steps;
          waypoints_reached = r.waypoints_reached;
          fault_applied = fault.fault_applied;
        };
        t_sim_start_s = start_of r;
        t_sim_end_s = end_of r;
        t_sim_duration_s = sub_ℕ (end_of r) (start_of r);
        position_rmse_m = r.position_rmse_m;
        final_position_error_m = r.final_position_error_m;
        reset_wall_duration_s = duration;
        final_pos = elim (head? r.steps) [ none ↦ none | some s ↦ some s.position ];
        fault = fault;
        fault_onset_time_s_observed = faults.onset_time_s_observed;
        fault_confirmed_applied = faults.confirmed_applied;
        fault_confirmed_severity_final = faults.confirmed_severity_final;
      }

  -- A fault that a runner without the plugin cannot inject raises ValueError.
  abbrev pub check_fault : Option FaultSpec → M (Unit {0})
  check_fault spec = if is_some spec && not enable_rotor_fault then raise runner_error else pure tt

  -- The flight, from a world without a fault in it.
  abbrev pub fly_clean : Request FaultSpec → M Flown
  fly_clean q = do if enable_rotor_fault then ros.clear_rotor_fault else pure tt; ros.fly q

  unfoldable pub run_episode : Request FaultSpec → M Summary
  unfolding apply_reset summary_of
  run_episode q = do
    check_fault q.fault_spec
    reset ← apply_reset q.reset_tier
    flown ← fly_clean q
    ros.write_episode (summary_of q reset flown)
    pure (summary_of q reset flown)

  -- The runner, as a farm's child sees it.
  unfoldable pub episode_runner : Runner W FaultSpec
  unfolding run_episode
  episode_runner = record {
    run_episode = λ q w.
        let (w', r) = run_episode q w in (w', elim r [ ok s ↦ ok s.episode | err e ↦ err e ]);
  }
