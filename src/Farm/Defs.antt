-- ===== src/Farm/Defs.antt =====
-- experiments/sim_farm.py: SimFarm's state, and how it takes in the episodes' records.
use aero_safe_rl.Base.{
  ℕ, ◌+◌, List, [], ◌∷◌, ◌++◌, none, some, Bool, true, false, ◌&&◌, leb, ◌==◌, any_of, ok, err,
  if◌then◌else◌,
}
use aero_safe_rl.Base.Methods.{Method}
use aero_safe_rl.Base.Dict.{get, bump}
use aero_safe_rl.Episode.{worker_restarted, ResetTier, EpisodeRecord}
use aero_safe_rl.Farm.Manifest.{RunManifest, record_episode, record_restart}
use aero_safe_rl.Farm.Supervisor.{SupervisorError, Worker}

-- SimFarmError by the place that raises it, KeyError, and a supervisor's error that escapes.
pub data FarmError : Type 0 where
  start_failed stop_failed budget_exhausted watchdog restart_rate : FarmError
  key_error index_error value_error mission_error instance_error : FarmError
  supervisor_error : SupervisorError → FarmError

-- What a child process was given to fly, and the next episode it will report. It shares nothing
-- with the farm but the result queue.
pub record Job : Type 0 where
  pub worker_id : ℕ
  pub next_index : ℕ
  pub end_index : ℕ

pub record FarmConfig : Type 0 where
  pub worker_count : ℕ
  pub n_episodes_per_worker : ℕ
  pub seed_base : ℕ
  pub reset_tier : ResetTier
  pub restart_rate_abort_threshold : ℕ  -- in millionths
  pub max_wall_s : ℕ
  pub health_poll_interval_s : ℕ

pub record Farm : Type 0 where
  pub supervisors : List Worker
  pub results : List EpisodeRecord
  pub restart_counts : List (ℕ × ℕ)
  pub completed_per_worker : List (ℕ × ℕ)
  pub recorded_episode_ids : List (ℕ × ℕ)
  pub result_queue : List EpisodeRecord
  pub manifest : RunManifest
  pub manifest_file : RunManifest
  pub jobs : List Job

abbrev pub Call : Type 0 → Type 0
Call A = Method FarmError Farm A

abbrev pub key_of : EpisodeRecord → ℕ × ℕ
key_of r = (r.worker_id, r.episode_id)

abbrev pub same_key : ℕ × ℕ → ℕ × ℕ → Bool
same_key a b = (a.0 == b.0) && (a.1 == b.1)

-- `_record_result`: whether the record was new. The progress callback only prints.
unfoldable pub record_result : EpisodeRecord → Farm → Farm × Bool
record_result r f =
    if any_of (same_key (key_of r)) f.recorded_episode_ids
    then (f, false)
    else let m = record_episode r f.manifest in
      (
        record f {
          recorded_episode_ids = f.recorded_episode_ids ++ key_of r ∷ [];
          results = f.results ++ r ∷ [];
          manifest = m;
          manifest_file = m;
        },
        true,
      )

-- `self._completed_per_worker[worker] += 1`
unfoldable pub bump_completed : ℕ → Call (Unit {0})
bump_completed worker f = elim (bump ◌==◌ worker f.completed_per_worker) [
  | none ↦ (f, err FarmError.key_error)
  | some d ↦ (record f { completed_per_worker = d }, ok tt)
]

-- `if self._record_result(record): self._completed_per_worker[...] += 1`
unfoldable pub take_in : EpisodeRecord → Call (Unit {0})
unfolding record_result bump_completed
take_in r f =
    let (f', is_new) = record_result r f in
    if is_new then bump_completed r.worker_id f' else (f', ok tt)

-- `_drain_queue` on the records that are in the queue.
unfoldable pub drain_from : List EpisodeRecord → Call (Unit {0})
drain_from [] f = (f, ok tt)
drain_from (r ∷ rs) f =
    let (f', x) = take_in r (record f { result_queue = rs }) in
    let rest = drain_from rs f' in elim x [ ok _ ↦ rest | err e ↦ (f', err e) ]

unfoldable pub drain_queue : Call (Unit {0})
unfolding drain_from
drain_queue f = drain_from f.result_queue f

module _ (c : FarmConfig) where
  -- The placeholder record of `_synthesize_lost_episode_record`.
  abbrev pub lost_record : ℕ → ℕ → EpisodeRecord
  lost_record worker completed = record {
    worker_id = worker;
    episode_id = completed;
    seed = c.seed_base + completed;
    reset_tier = c.reset_tier;
    termination_reason = worker_restarted;
    valid = false;
    n_steps = 0;
    waypoints_reached = 0;
    fault_applied = false;
  }

  unfoldable pub synthesize_lost_episode_record : ℕ → Call (Unit {0})
  unfolding take_in
  synthesize_lost_episode_record worker f = elim (get ◌==◌ worker f.completed_per_worker) [
    | none ↦ (f, err FarmError.key_error)
    | some completed ↦
        if leb c.n_episodes_per_worker completed
        then (f, ok tt)
        else take_in (lost_record worker completed) f
  ]

-- `_record_restart`
unfoldable pub record_farm_restart : ℕ → Call (Unit {0})
record_farm_restart worker f = elim (bump ◌==◌ worker f.restart_counts) [
  | none ↦ (f, err FarmError.key_error)
  | some d ↦
      let m = record_restart worker f.manifest in
      (record f { restart_counts = d; manifest = m; manifest_file = m }, ok tt)
]
