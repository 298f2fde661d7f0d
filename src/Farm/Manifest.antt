-- ===== src/Farm/Manifest.antt =====
-- experiments/run_manifest.py: what a run writes down about itself. Wall time is in microseconds.
use Prim.Native.String.{String}
use aero_safe_rl.Base.{ℕ, suc, List, Option, some, ◌==◌}
use aero_safe_rl.Base.Dict.{count_in}
use aero_safe_rl.Episode.{TerminationReason, same_reason, EpisodeRecord}

pub record RunManifest : Type 0 where
  pub run_id : String
  pub repo_git_sha : String
  pub mission_id : String
  pub mission_config_digest : String
  pub env_versions : String
  pub seed_base : ℕ
  pub worker_to_instance : List (ℕ × ℕ)
  pub restart_budget_per_worker : ℕ
  pub restart_rate_abort_threshold : ℕ
  pub start_time_utc : ℕ
  pub end_time_utc : Option ℕ
  pub total_episodes : ℕ
  pub episode_counts_by_outcome : List (TerminationReason × ℕ)
  pub restart_counts : List (ℕ × ℕ)

unfoldable pub record_episode : EpisodeRecord → RunManifest → RunManifest
record_episode summary m = record m {
  episode_counts_by_outcome =
      count_in same_reason summary.termination_reason m.episode_counts_by_outcome;
  total_episodes = suc m.total_episodes;
}

-- `self.restart_counts[instance] = self.restart_counts.get(instance, 0) + 1`
unfoldable pub record_restart : ℕ → RunManifest → RunManifest
record_restart instance_id m = record m {
  restart_counts = count_in ◌==◌ instance_id m.restart_counts;
}

-- `finalize` up to its `write`.
unfoldable pub finalize : ℕ → RunManifest → RunManifest
finalize now m = record m { end_time_utc = some now }
