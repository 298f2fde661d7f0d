-- ===== src/Farm/Books.antt =====
-- experiments/run_manifest.py and experiments/sim_farm.py: the manifest on disk agrees with the
-- run at every moment, and the restart rate stays below its threshold.
use aero_safe_rl.Base.{
  ℕ, suc, ◌+◌, ◌≡◌, refl, sym, ◌∙◌, inl, inr, List, [], ◌∷◌, ◌++◌, ◌==◌, leb, length, length-append,
  or_else, any_of, Bool-cases, Option-cases, Result-cases, arith, if◌then◌else◌,
}
use aero_safe_rl.Base.Dict.{get, bump, level, level-bump, level-count_in}
use aero_safe_rl.Episode.{EpisodeRecord, TerminationReason, same_reason, reason_index}
use aero_safe_rl.Farm.Manifest.{record_episode, record_restart}
use aero_safe_rl.Farm.Defs.{
  Farm, FarmConfig, same_key, key_of, record_result, bump_completed, take_in, drain_from,
  lost_record, synthesize_lost_episode_record, record_farm_restart,
}
use aero_safe_rl.Farm.Run.{spawn_worker, spawn_remaining, check_rate}
use aero_safe_rl.Farm.Supervisor.{Worker}

abbrev pub outcomes : List (TerminationReason × ℕ) → TerminationReason → ℕ
outcomes d t = or_else (get same_reason t d) 0

abbrev pub count_reason : TerminationReason → List EpisodeRecord → ℕ
count_reason t [] = 0
count_reason t (r ∷ rs) =
    if same_reason r.termination_reason t then suc (count_reason t rs) else count_reason t rs

count_reason_snoc :
    (t : TerminationReason) (rs : List EpisodeRecord) (r : EpisodeRecord)
    → count_reason t (rs ++ r ∷ []) ≡ count_reason t rs + count_reason t (r ∷ [])
count_reason_snoc t [] r = omega arith
count_reason_snoc t (x ∷ rs) r = ground (arith, count_reason_snoc t rs r)

-- What the file holds is the manifest, and the manifest agrees with the farm's own records.
pub record Agrees (f : Farm) : Type 0 where
  pub written : f.manifest_file ≡ f.manifest
  pub total : f.manifest.total_episodes ≡ length f.results
  pub by_outcome :
      (t : TerminationReason)
      → outcomes f.manifest.episode_counts_by_outcome t ≡ count_reason t f.results
  pub by_restart : (w : ℕ) → level f.manifest.restart_counts w ≡ level f.restart_counts w

-- The fields that the agreement reads.
pub record SamePapers (f f' : Farm) : Type 0 where
  pub file_eq : f'.manifest_file ≡ f.manifest_file
  pub manifest_eq : f'.manifest ≡ f.manifest
  pub results_eq : f'.results ≡ f.results
  pub restarts_eq : f'.restart_counts ≡ f.restart_counts

pub Agrees-of_SamePapers : (f f' : Farm) → SamePapers f f' → Agrees f → Agrees f'
Agrees-of_SamePapers f f' s a = record {
  written = s.file_eq ∙ a.written ∙ sym s.manifest_eq;
  total = rw (s.manifest_eq, s.results_eq) a.total;
  by_outcome = λ t. rw (s.manifest_eq, s.results_eq) (a.by_outcome t);
  by_restart = λ w. rw (s.manifest_eq, s.restarts_eq) (a.by_restart w);
}

record_result-Agrees : (r : EpisodeRecord) (f : Farm) → Agrees f → Agrees (record_result r f).0
unfolding record_result record_episode
record_result-Agrees r f a =
    elim (Bool-cases (any_of (same_key (key_of r)) f.recorded_episode_ids)) [
      | inl e ↦ rw e a
      | inr e ↦ rw e (record {
        written = refl;
        total = ground (arith, a.total, length-append f.results (r ∷ []));
        by_outcome = λ t. ground (
          arith,
          a.by_outcome t,
          count_reason_snoc t f.results r,
          level-count_in reason_index r.termination_reason t f.manifest.episode_counts_by_outcome,
        );
        by_restart = a.by_restart;
      })
    ]

bump_completed-SamePapers : (w : ℕ) (f : Farm) → SamePapers f (bump_completed w f).0
unfolding bump_completed
bump_completed-SamePapers w f = ground arith

take_in-Agrees : (r : EpisodeRecord) (f : Farm) → Agrees f → Agrees (take_in r f).0
unfolding take_in
take_in-Agrees r f a =
    let f1 = (record_result r f).0 in
    let a1 = record_result-Agrees r f a in
    elim (Bool-cases (record_result r f).1) [
      | inl e ↦ rw e (
          Agrees-of_SamePapers f1 (bump_completed r.worker_id f1).0
            (bump_completed-SamePapers r.worker_id f1) a1)
      | inr e ↦ rw e a1
    ]

pub drain_from-Agrees : (rs : List EpisodeRecord) (f : Farm) → Agrees f → Agrees (drain_from rs f).0
unfolding drain_from
drain_from-Agrees [] f a = a
drain_from-Agrees (r ∷ rs) f a =
    let popped = record f { result_queue = rs } in
    let a0 =
      Agrees-of_SamePapers f popped
        (record { file_eq = refl; manifest_eq = refl; results_eq = refl; restarts_eq = refl }) a in
    let a1 = take_in-Agrees r popped a0 in
    elim (Result-cases (take_in r popped).1) [
      | inl (_, e) ↦ rw (e, drain_from) (drain_from-Agrees rs (take_in r popped).0 a1)
      | inr (x, e) ↦ rw (e, drain_from) a1
    ]

pub record_farm_restart-Agrees : (w : ℕ) (f : Farm) → Agrees f → Agrees (record_farm_restart w f).0
unfolding record_farm_restart record_restart
record_farm_restart-Agrees w f a = elim (Option-cases (bump ◌==◌ w f.restart_counts)) [
  | inl e ↦ rw (e, record_farm_restart) a
  | inr (d, e) ↦
      rw (e, record_farm_restart)
        (record {
          written = refl;
          total = a.total;
          by_outcome = a.by_outcome;
          by_restart = λ v. ground (
            arith,
            a.by_restart v,
            level-count_in (λ x. x) w v f.manifest.restart_counts,
            level-bump w v f.restart_counts d e,
          );
        })
]

pub synthesize-Agrees :
    (c : FarmConfig) (w : ℕ) (f : Farm) → Agrees f → Agrees (synthesize_lost_episode_record c w f).0
unfolding synthesize_lost_episode_record
synthesize-Agrees c w f a = elim (Option-cases (get ◌==◌ w f.completed_per_worker)) [
  | inl e ↦ rw (e, synthesize_lost_episode_record) a
  | inr (i, e) ↦ elim (Bool-cases (leb c.n_episodes_per_worker i)) [
    | inl done ↦ rw (e, done, synthesize_lost_episode_record) a
    | inr room ↦
        rw (e, room, synthesize_lost_episode_record) (take_in-Agrees (lost_record c w i) f a)
  ]
]

pub spawn-SamePapers :
    (c : FarmConfig) (k : ℕ) (w : Worker) (f : Farm) → SamePapers f (spawn_remaining c k w f).0
unfolding spawn_remaining spawn_worker
spawn-SamePapers c k w f = ground arith

pub check_rate-SamePapers : (c : FarmConfig) (f : Farm) → SamePapers f (check_rate c f).0
unfolding check_rate
check_rate-SamePapers c f = ground arith
