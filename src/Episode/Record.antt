-- ===== src/Episode/Record.antt =====
-- experiments/episode_schema.py: the closed enums, and the record that a run keeps of an episode.
-- experiments/episode_runner.py: which reset tier the next episode gets.
use aero_safe_rl.Base.{ℕ, Option, none, some, Bool, true, false, ◌==◌}

pub data TerminationReason : Type 0 where
  completed preflight_failed arm_timeout offboard_rejected offboard_lost : TerminationReason
  hold_timeout land_timeout episode_timeout worker_restarted sim_fault : TerminationReason
  aborted_error ground_contact recovery_landed : TerminationReason

-- The reason's position in the enum, by which reasons are told apart.
abbrev pub reason_index : TerminationReason → ℕ
reason_index completed = 0
reason_index preflight_failed = 1
reason_index arm_timeout = 2
reason_index offboard_rejected = 3
reason_index offboard_lost = 4
reason_index hold_timeout = 5
reason_index land_timeout = 6
reason_index episode_timeout = 7
reason_index worker_restarted = 8
reason_index sim_fault = 9
reason_index aborted_error = 10
reason_index ground_contact = 11
reason_index recovery_landed = 12

abbrev pub same_reason : TerminationReason → TerminationReason → Bool
same_reason a b = reason_index a == reason_index b

pub data ResetTier : Type 0 where
  no_reset soft medium hard : ResetTier

-- `_CLEAN_TERMINATIONS` holds COMPLETED alone.
abbrev pub is_clean : TerminationReason → Bool
is_clean completed = true
is_clean _ = false

unfoldable pub next_reset_tier : ResetTier → Option TerminationReason → ResetTier
next_reset_tier requested none = requested
next_reset_tier requested (some r) = elim (is_clean r) [ true ↦ requested | false ↦ hard ]

-- The part of an episode record that the farm and its manifest read or decide. An episode id is
-- its index: the text `ep_0007` of an index is a padded decimal, one for each index.
pub record EpisodeRecord : Type 0 where
  pub worker_id : ℕ
  pub episode_id : ℕ
  pub seed : ℕ
  pub reset_tier : ResetTier
  pub termination_reason : TerminationReason
  pub valid : Bool
  pub n_steps : ℕ
  pub waypoints_reached : ℕ
  pub fault_applied : Bool
