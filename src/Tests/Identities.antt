-- ===== src/Tests/Identities.antt =====
-- Two workers' identities, and a farm that resumes a run, at concrete inputs.
use aero_safe_rl.Base.{◌≡◌, refl, [], ◌∷◌, ◌==◌, none, some, true, false, pos, ok, if◌then◌else◌}
use aero_safe_rl.Episode.{soft}
use aero_safe_rl.Simulation.{InstanceSpec, derive, origin, for_instance}
use aero_safe_rl.Simulation.Disjoint.{Disjoint}
use aero_safe_rl.Farm.{Farm}
use aero_safe_rl.Farm.Create.{Options, Host, next_index, new_config, farm_of, new_farm}
use aero_safe_rl.Farm.New.{IsNew, new_farm-IsNew}
use aero_safe_rl.Tests.Workers.{machine}

abbrev first : InstanceSpec
first = derive 0 "default" "x500" (pos 1000000) origin true

abbrev second : InstanceSpec
second = derive 1 "default" "x500_aero" (pos 2000000) origin false

abbrev options : Options
options = record {
  worker_count = 1;
  mission_id = "square_v1";
  n_episodes_per_worker = 5;
  instance_base = 0;
  seed_base = 100;
  reset_tier = soft;
  speed_factor = pos 1000000;
  world = "default";
  model = "x500";
  headless = true;
  fault_specs_by_worker = none;
  run_id = some "run_1";
  resume = true;
  heartbeat_stall_timeout_s = 45000000;
  restart_budget_per_worker = 20;
  restart_rate_abort_threshold = 500000;
  health_poll_interval_s = 2000000;
  max_wall_s = none;
}

-- Worker 0 has its episodes 0, 1 and 2 on disk.
abbrev host : Host
host = record {
  load_mission = λ name. some "digest";
  env_versions = "{}";
  git_sha = "unknown";
  new_run_id = "run_2";
  now = 0;
  existing = λ w. if w == 0 then 0 ∷ 1 ∷ 2 ∷ [] else [];
  machine = λ w. machine;
}

abbrev resumed : Farm
resumed = farm_of host options "digest" (
    record {
      instance_id = 0;
      heartbeat_stall_timeout_s = 45000000;
      restart_budget = 20;
      process = none;
      restart_count = 0;
      machine = machine;
    }
    ∷ [])

resumes : new_farm host options ≡ ok (new_config host options, resumed)
unfolding new_farm for_instance
resumes = refl

-- It goes on with episode 3.
resumes_behind : resumed.completed_per_worker ≡ (0, 3) ∷ []
unfolding next_index
resumes_behind = refl

new_farm-IsNew_example : IsNew host options resumed
new_farm-IsNew_example = new_farm-IsNew host options (new_config host options) resumed resumes
