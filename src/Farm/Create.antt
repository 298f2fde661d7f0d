-- ===== src/Farm/Create.antt =====
-- experiments/sim_farm.py: SimFarm's constructor.
use Prim.Native.String.{String}
use text.Mathlib.Text.{◌==◌ as str_eq}
use aero_safe_rl.Base.{
  ℕ, zero, suc, ◌+◌, ◌*◌, List, [], ◌∷◌, Option, none, some, Bool, true, false, not, ◌||◌, ◌==◌,
  leb, length, is_some, or_else, map, ℤ, pos, Result, ok, err, guard, ◌>>=◌, ◌>>◌, if◌then◌else◌,
}
use aero_safe_rl.Episode.{ResetTier}
use aero_safe_rl.Faults.{FaultSpec}
use aero_safe_rl.Simulation.{for_instance}
use aero_safe_rl.Farm.Supervisor.{Worker, Machine}
use aero_safe_rl.Farm.Manifest.{RunManifest}
use aero_safe_rl.Farm.Defs.{Farm, FarmConfig, FarmError}

-- The constructor's arguments.
pub record Options : Type 0 where
  pub worker_count : ℕ
  pub mission_id : String
  pub n_episodes_per_worker : ℕ
  pub instance_base : ℕ
  pub seed_base : ℕ
  pub reset_tier : ResetTier
  pub speed_factor : ℤ
  pub world : String
  pub model : String
  pub headless : Bool
  pub fault_specs_by_worker : Option (List (List FaultSpec))
  pub run_id : Option String
  pub resume : Bool
  pub heartbeat_stall_timeout_s : ℕ
  pub restart_budget_per_worker : ℕ
  pub restart_rate_abort_threshold : ℕ
  pub health_poll_interval_s : ℕ
  pub max_wall_s : Option ℕ

-- What the constructor finds: the digest of a mission file that loads, the versions, a new run id,
-- the clock, the indices of the summaries that the run's directory holds for a worker, and what a
-- worker's supervisor sees.
pub record Host : Type 0 where
  pub load_mission : String → Option String
  pub env_versions : String
  pub git_sha : String
  pub new_run_id : String
  pub now : ℕ
  pub existing : ℕ → List ℕ
  pub machine : ℕ → Machine

-- 180 s in microseconds.
abbrev pub default_per_episode_wall_budget_s : ℕ
default_per_episode_wall_budget_s = 180000000

abbrev pub worker_instance : ℕ → ℕ → ℕ
worker_instance k instance_base = instance_base + k

abbrev pub all_of_length {ℓ} : {A : Type ℓ} → ℕ → List (List A) → Bool
all_of_length n [] = true
all_of_length n (xs ∷ xss) = elim (length xs == n) [ true ↦ all_of_length n xss | false ↦ false ]

-- The two checks of `fault_specs_by_worker`.
unfoldable pub check_fault_specs : Options → Result FarmError (Unit {0})
check_fault_specs o = elim o.fault_specs_by_worker [
  | none ↦ ok tt
  | some specs ↦ do
    guard (length specs == o.worker_count) FarmError.value_error
    guard (all_of_length o.n_episodes_per_worker specs) FarmError.value_error
]

-- `max(indices) + 1`, or 0 where there is no file.
unfoldable pub next_index : List ℕ → ℕ
next_index [] = 0
next_index (i ∷ is) = let rest = next_index is in if leb rest i then suc i else rest

module _ (host : Host) (o : Options) where
  -- The specs and supervisors of the `n` workers from `k` on.
  unfoldable pub new_workers : ℕ → ℕ → Result FarmError (List Worker)
  new_workers zero k = ok []
  new_workers (suc n) k =
      let rest = new_workers n (suc k) in
      elim (for_instance (pos (worker_instance k o.instance_base)) o.world o.model o.speed_factor
        none o.headless) [
          | err e ↦ err FarmError.instance_error
          | ok s ↦ do
            ws ← rest
            ok (
                record {
                  instance_id = s.instance_id;
                  heartbeat_stall_timeout_s = o.heartbeat_stall_timeout_s;
                  restart_budget = o.restart_budget_per_worker;
                  process = none;
                  restart_count = 0;
                  machine = host.machine s.instance_id;
                }
                ∷ ws)
        ]

  abbrev pub zero_of : Worker → ℕ × ℕ
  zero_of w = (w.instance_id, 0)

  abbrev pub start_of : Worker → ℕ × ℕ
  start_of w = (w.instance_id, if o.resume then next_index (host.existing w.instance_id) else 0)

  -- `{k: spec.instance for k, spec in enumerate(self.specs)}`
  abbrev pub number : ℕ → List Worker → List (ℕ × ℕ)
  number k [] = []
  number k (w ∷ ws) = (k, w.instance_id) ∷ number (suc k) ws

  abbrev pub new_manifest : String → String → List Worker → RunManifest
  new_manifest run_id mission_digest ws = record {
    run_id = run_id;
    repo_git_sha = host.git_sha;
    mission_id = o.mission_id;
    mission_config_digest = mission_digest;
    env_versions = host.env_versions;
    seed_base = o.seed_base;
    worker_to_instance = number 0 ws;
    restart_budget_per_worker = o.restart_budget_per_worker;
    restart_rate_abort_threshold = o.restart_rate_abort_threshold;
    start_time_utc = host.now;
    end_time_utc = none;
    total_episodes = 0;
    episode_counts_by_outcome = [];
    restart_counts = map zero_of ws;
  }

  abbrev pub new_config : FarmConfig
  new_config = record {
    worker_count = o.worker_count;
    n_episodes_per_worker = o.n_episodes_per_worker;
    seed_base = o.seed_base;
    reset_tier = o.reset_tier;
    restart_rate_abort_threshold = o.restart_rate_abort_threshold;
    max_wall_s = or_else o.max_wall_s (o.n_episodes_per_worker * default_per_episode_wall_budget_s);
    health_poll_interval_s = o.health_poll_interval_s;
  }

  -- `run_id or <a new one>`: an empty text counts as none given.
  abbrev pub chosen_run_id : String
  chosen_run_id = elim o.run_id [
    | none ↦ host.new_run_id
    | some r ↦ if str_eq r "" then host.new_run_id else r
  ]

  abbrev pub farm_of : String → List Worker → Farm
  farm_of mission_digest ws =
      let m = new_manifest chosen_run_id mission_digest ws in
      record {
        supervisors = ws;
        results = [];
        restart_counts = map zero_of ws;
        completed_per_worker = map start_of ws;
        recorded_episode_ids = [];
        result_queue = [];
        manifest = m;
        manifest_file = m;
        jobs = [];
      }

  unfoldable pub new_farm : Result FarmError (FarmConfig × Farm)
  unfolding check_fault_specs new_workers next_index
  new_farm = elim (host.load_mission o.mission_id) [
    | none ↦ err FarmError.mission_error
    | some mission_digest ↦ do
      check_fault_specs o
      ws ← new_workers o.worker_count 0
      guard (not o.resume || is_some o.run_id) FarmError.value_error
      ok (new_config, farm_of mission_digest ws)
  ]
