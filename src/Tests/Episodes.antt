-- ===== src/Tests/Episodes.antt =====
-- Episodes at concrete inputs: a fault over a few ticks, and a child that flies three episodes.
use aero_safe_rl.Base.{
  ℕ, suc, ◌≡◌, refl, inr, List, [], ◌∷◌, none, some, true, false, pos, negsuc, ok, arith, ◌==◌,
  if◌then◌else◌, map,
}
use aero_safe_rl.Episode.{next_reset_tier, no_reset, soft, medium, hard, completed, sim_fault}
use aero_safe_rl.Farm.Child.{Assignment, worker_main}
use aero_safe_rl.Faults.{FaultSpec, rotor_thrust_degradation, ramp}
use aero_safe_rl.Mission.Flight.{MissionResult}
use aero_safe_rl.Runner.{Echo, Tick, drive_ticks, Ros, episode_runner}
use aero_safe_rl.Runner.Onset.{latest, asked, onset_tick}
use aero_safe_rl.Runner.Profile.{drive_follows_profile}
use aero_safe_rl.Runner.Honest.{NamesTier}

-- Half of rotor 2's thrust, over a second from 1.5 s on.
abbrev pub fault : FaultSpec
fault = record {
  episode_index = 0;
  fault_applied = true;
  fault_type = rotor_thrust_degradation;
  rotor_index = pos 2;
  severity = pos 500000;
  onset_time_s = some (pos 1500000);
  profile = ramp;
  ramp_duration_s = pos 1000000;
}

abbrev quiet : Echo
quiet = record { latest_applied = false; latest_rotor_index = negsuc 0; latest_severity = pos 0 }

-- The latest tick first.
abbrev ticks : List Tick
ticks = (7000000, quiet) ∷ (6500000, quiet) ∷ (6000000, quiet) ∷ (5000000, quiet) ∷ []

drive_follows_profile_example :
    latest (drive_ticks fault (pos 1500000) ((7400000, quiet) ∷ ticks)).1
    ≡ asked fault 7400000 (onset_tick (pos 1500000) ((7400000, quiet) ∷ ticks))
drive_follows_profile_example =
    drive_follows_profile fault (pos 1500000) (7400000, quiet) ticks (inr refl)
      (omega arith, (omega arith, (omega arith, (omega arith, (tt, tt)))))

-- The second flight breaks the simulation.
abbrev pub result : ℕ → MissionResult
result n = record {
  termination_reason = if n == 1 then sim_fault else completed;
  n_steps = 0;
  waypoints_reached = 0;
  position_rmse_m = none;
  final_position_error_m = none;
  t_sim_start_s = some 0;
  t_sim_end_s = some 1000000;
  steps = [];
}

abbrev pub ros : Ros ℕ
ros = record {
  heartbeat = λ w. w;
  soft_reset = λ w. (w, ok (record { tier = soft; wall_duration_s = 1 }));
  medium_reset = λ w. (w, ok (record { tier = medium; wall_duration_s = 2 }));
  hard_reset = λ w. (w, ok (record { tier = hard; wall_duration_s = 3 }));
  close = λ w. (w, ok tt);
  build_ros_objects = λ w. (w, ok tt);
  clear_rotor_fault = λ w. (w, ok tt);
  fly = λ q w. (suc w, ok (record { result = result w; echoes = [] }));
  write_episode = λ s w. (w, ok tt);
}

ros-NamesTier : NamesTier ros
ros-NamesTier = record {
  soft_tier = λ w w' r h. ground arith;
  medium_tier = λ w w' r h. ground arith;
  hard_tier = λ w w' r h. ground arith;
}

abbrev pub assignment : Assignment FaultSpec
assignment = record {
  worker_id = 2;
  n_episodes = 3;
  start_index = 4;
  seed_base = 100;
  reset_tier = soft;
  fault_specs = none;
}

-- After the broken simulation comes a hard reset.
tiers :
    map (λ x. x.reset_tier) (worker_main (episode_runner ros 2 true) assignment 0).0
    ≡ no_reset ∷ soft ∷ hard ∷ []
unfolding worker_main episode_runner next_reset_tier
tiers = refl
