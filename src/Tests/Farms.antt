-- ===== src/Tests/Farms.antt =====
-- A farm with one worker at concrete inputs.
use aero_safe_rl.Base.{ℕ, ◌+◌, ◌-◌, ◌≤◌, ◌≡◌, refl, [], ◌∷◌, none, some, true, false, ok, arith}
use aero_safe_rl.Base.Dict.{get, bump, sum_values}
use aero_safe_rl.Episode.{EpisodeRecord, completed, no_reset, soft}
use aero_safe_rl.Farm.Manifest.{RunManifest}
use aero_safe_rl.Farm.{
  Farm, FarmConfig, take_in, drain_from, drain_queue, synthesize_lost_episode_record,
  record_farm_restart, spawn_worker, spawn_remaining, check_rate, over_restart_rate, on_restart,
}
use aero_safe_rl.Farm.Once.{tally, expected, completed_of}
use aero_safe_rl.Farm.Reach.{Steps, none_yet, more, hand_over, drain, restart, spawn}
use aero_safe_rl.Base.{◌↔◌, ◌⊎◌}
use aero_safe_rl.Farm.{exit}
use aero_safe_rl.Farm.Closing.{AllHalted, ScriptsSucceed, exit-Halted}
use aero_safe_rl.Farm.Exactly.{exactly_once}
use aero_safe_rl.Farm.Books.{Agrees}
use aero_safe_rl.Farm.Rate.{manifest-Agrees, WithinRate, restart_rate_bounded}
use aero_safe_rl.Farm.Child.{Request, Runner, Assignment}
use aero_safe_rl.Tests.Workers.{worker, scripts}

abbrev config : FarmConfig
config = record {
  worker_count = 1;
  n_episodes_per_worker = 4;
  seed_base = 100;
  reset_tier = soft;
  restart_rate_abort_threshold = 500000;
  max_wall_s = 10000000;
  health_poll_interval_s = 2000000;
}

abbrev new_manifest : RunManifest
new_manifest = record {
  run_id = "run_1";
  repo_git_sha = "unknown";
  mission_id = "square_v1";
  mission_config_digest = "d";
  env_versions = "{}";
  seed_base = 100;
  worker_to_instance = (0, 0) ∷ [];
  restart_budget_per_worker = 2;
  restart_rate_abort_threshold = 500000;
  start_time_utc = 0;
  end_time_utc = none;
  total_episodes = 0;
  episode_counts_by_outcome = [];
  restart_counts = (0, 0) ∷ [];
}

abbrev farm : Farm
farm = record {
  supervisors = worker ∷ [];
  results = [];
  restart_counts = (0, 0) ∷ [];
  completed_per_worker = (0, 0) ∷ [];
  recorded_episode_ids = [];
  result_queue = [];
  manifest = new_manifest;
  manifest_file = new_manifest;
  jobs = [];
}

abbrev flown : ℕ → EpisodeRecord
flown i = record {
  worker_id = 0;
  episode_id = i;
  seed = 100 + i;
  reset_tier = no_reset;
  termination_reason = completed;
  valid = true;
  n_steps = 300;
  waypoints_reached = 4;
  fault_applied = false;
}

-- The child is spawned, reports its first episode too late, is restarted, and the report is drained.
abbrev spawned : Farm
spawned = (spawn_remaining config 0 worker farm).0

abbrev reported : Farm
reported = record spawned {
  result_queue = flown 0 ∷ [];
  jobs = record { worker_id = 0; next_index = 1; end_index = 4 } ∷ [];
}

abbrev restarted : Farm
restarted = (on_restart config 0 reported).0

abbrev drained : Farm
drained = (drain_queue restarted).0

history : Steps config farm drained
unfolding on_restart synthesize_lost_episode_record take_in record_farm_restart drain_queue
    drain_from get bump spawn_remaining spawn_worker check_rate over_restart_rate sum_values
history =
    more
      (more
        (more (more none_yet (spawn 0 worker refl)) (
          hand_over [] [] (record { worker_id = 0; next_index = 0; end_index = 4 }) (flown 0) refl
            (omega arith) refl refl))
        (restart 0 refl))
      (drain refl)

exactly_once_example :
    ((w i : ℕ)
      → tally drained.results w i ≡ expected (completed_of farm) (completed_of drained) w i)
    × ((w : ℕ) → completed_of farm w ≤ completed_of drained w)
    × ((w : ℕ) → completed_of drained w - completed_of farm w ≤ 4 - completed_of farm w)
exactly_once_example =
    exactly_once config farm drained
      (record { no_results = refl; no_ids = refl; no_queue = refl; no_jobs = refl }) history

farm-Agrees : Agrees farm
unfolding get
farm-Agrees = record {
  written = refl;
  total = refl;
  by_outcome = λ t. refl;
  by_restart = λ w. refl;
}

manifest-Agrees_example :
    Agrees drained
    × ((k : ℕ) → Agrees (on_restart config k drained).0)
    × Agrees (drain_queue drained).0
manifest-Agrees_example = manifest-Agrees config farm-Agrees history

farm-WithinRate : WithinRate config farm
unfolding sum_values
farm-WithinRate _ = omega arith

restart_rate_bounded_example : WithinRate config drained
restart_rate_bounded_example = restart_rate_bounded config farm-WithinRate history

-- The only child died before its first report.
abbrev abandoned : Farm
abandoned = record spawned {
  supervisors =
      record worker {
        process = some (record { is_alive = false; obeys_terminate = true; obeys_sigkill = true });
      }
      ∷ [];
}

nothing_queued : drain_queue abandoned ≡ (abandoned, ok tt)
unfolding drain_queue drain_from spawn_remaining spawn_worker get
nothing_queued = refl

-- A runner that answers every request.
abbrev answer : Request Unit → EpisodeRecord
answer q = record {
  worker_id = 0;
  episode_id = q.episode_id;
  seed = q.seed;
  reset_tier = q.reset_tier;
  termination_reason = completed;
  valid = true;
  n_steps = 300;
  waypoints_reached = 4;
  fault_applied = false;
}

abbrev runner : Runner Unit Unit
runner = record { run_episode = λ q s. (s, ok (answer q)) }

abbrev assignment : Assignment Unit
assignment = record {
  worker_id = 0;
  n_episodes = 2;
  start_index = 1;
  seed_base = 100;
  reset_tier = soft;
  fault_specs = none;
}

exit-Halted_example :
    AllHalted config scripts spawned.supervisors (exit config scripts false spawned).0.supervisors
    × (((exit config scripts false spawned).1 ≡ ok tt)
        ↔ ((false ≡ true) ⊎ ScriptsSucceed config scripts spawned.supervisors))
exit-Halted_example = exit-Halted config scripts false spawned
