-- ===== src/Farm/Exactly.antt =====
-- experiments/sim_farm.py: exactly one record for each episode, over every interleaving.
use mathlib.Core.Path.{subst}
use aero_safe_rl.Base.{
  ℕ, ◌-◌, ◌≤◌, ◌≡◌, refl, inl, inr, List, [], ◌∷◌, ◌++◌, ◌==◌, leb, ltb, All, get_elem?, Bool-cases,
  Option-cases, ok, arith,
}
use aero_safe_rl.Base.Methods.{◌>>◌, bind-eq-ok}
use aero_safe_rl.Base.Dict.{get, bump}
use aero_safe_rl.Farm.Defs.{
  Farm, FarmConfig, Job, Call, take_in, drain_queue, lost_record, synthesize_lost_episode_record,
  record_farm_restart,
}
use aero_safe_rl.Farm.Run.{with_worker, spawn_worker, spawn_remaining, check_rate, on_restart}
use aero_safe_rl.Farm.Supervisor.{Worker}
use aero_safe_rl.Farm.Levels.{
  Levels, Below, InTurn, after_queue, after_queue_mono, after_queue_ge, Ready-mono,
}
use aero_safe_rl.Farm.Once.{take_in-TakenIn, completed_of, expected, tally}
use aero_safe_rl.Farm.Reach.{
  Step, hand_over, drain, restart, spawn, workers, Steps, none_yet, more, Inv, JobOk, JobOk-mono,
  hand_over-Inv, drain_from-Inv,
}

-- The invariant reads these fields alone.
pub record SameBooks (f f' : Farm) : Type 0 where
  pub results_eq : f'.results ≡ f.results
  pub ids_eq : f'.recorded_episode_ids ≡ f.recorded_episode_ids
  pub completed_eq : f'.completed_per_worker ≡ f.completed_per_worker
  pub queue_eq : f'.result_queue ≡ f.result_queue
  pub jobs_eq : f'.jobs ≡ f.jobs

pub with_worker-ok :
    {A : Type 0} (k : ℕ) (g : Worker → Call A) (f f' : Farm) {a : A}
    → with_worker k g f ≡ (f', ok a)
    → (w : Worker) × (g w f ≡ (f', ok a))
with_worker-ok k g f f' h = elim (Option-cases (get_elem? f.supervisors k)) [
  | inl e ↦ absurd (ground arith)
  | inr (w, e) ↦ (w, ground arith)
]

module _ (c : FarmConfig) (base : Levels) where
  abbrev pub Holds : Farm → Type 0
  Holds f = Inv base c.n_episodes_per_worker f

  Holds-of_SameBooks : (f f' : Farm) → SameBooks f f' → Holds f → Holds f'
  Holds-of_SameBooks f f' s v = record {
    booked = record {
      once = λ w i. rw (s.results_eq, s.completed_eq) (v.booked.once w i);
      recorded = λ w i. rw (s.results_eq, s.ids_eq) (v.booked.recorded w i);
      above = λ w. rw s.completed_eq (v.booked.above w);
      bounded = λ w. rw s.completed_eq (v.booked.bounded w);
    };
    ready = rw (s.completed_eq, s.queue_eq) v.ready;
    jobs = rw (s.completed_eq, s.queue_eq, s.jobs_eq) v.jobs;
  }

  record_farm_restart_lem :
      (w : ℕ) (f f' : Farm) → record_farm_restart w f ≡ (f', ok tt) → SameBooks f f'
  unfolding record_farm_restart
  record_farm_restart_lem w f f' h = elim (Option-cases (bump ◌==◌ w f.restart_counts)) [
    | inl e ↦ absurd (ground arith)
    | inr (d, e) ↦ ground arith
  ]

  check_rate_lem : (f f' : Farm) → check_rate c f ≡ (f', ok tt) → f ≡ f'
  unfolding check_rate
  check_rate_lem f f' h = ground arith

  -- The placeholder is the worker's next episode, so taking it in keeps the books.
  synthesize-Holds :
      (w : ℕ) (f f' : Farm)
      → Holds f
      → synthesize_lost_episode_record c w f ≡ (f', ok tt)
      → Holds f'
  unfolding synthesize_lost_episode_record
  synthesize-Holds w f f' v h = elim (Option-cases (get ◌==◌ w f.completed_per_worker)) [
    | inl e ↦ absurd (ground arith)
    | inr (i, e) ↦ elim (Bool-cases (leb c.n_episodes_per_worker i)) [
      | inl done ↦ subst Holds (ground arith) v
      | inr room ↦
          let level_eq : completed_of f w ≡ i = ground arith in
          let turn : InTurn base c.n_episodes_per_worker (completed_of f) w i =
            ground (arith, v.booked.above w) in
          let t : take_in (lost_record c w i) f ≡ (f', ok tt) = ground arith in
          let taken =
            take_in-TakenIn base c.n_episodes_per_worker (lost_record c w i) f f' v.booked turn t in
          let grows : Below (completed_of f) (completed_of f') =
            λ x. ground (arith, taken.counted x) in
          record {
            booked = taken.booked;
            ready = rw taken.queue_eq (
                Ready-mono base c.n_episodes_per_worker (completed_of f) (completed_of f')
                  f.result_queue grows v.ready);
            jobs =
                rw (taken.queue_eq, taken.jobs_eq)
                  (JobOk-mono base c.n_episodes_per_worker
                    (after_queue (completed_of f) f.result_queue)
                    (after_queue (completed_of f') f.result_queue) f.jobs
                    (after_queue_mono (completed_of f) (completed_of f') f.result_queue grows)
                    v.jobs);
          }
    ]
  ]

  All-append-one :
      (lev : Levels) (js : List Job) (j : Job)
      → All (JobOk base c.n_episodes_per_worker lev) js
      → JobOk base c.n_episodes_per_worker lev j
      → All (JobOk base c.n_episodes_per_worker lev) (js ++ j ∷ [])
  All-append-one lev [] j k x = (x, tt)
  All-append-one lev (y ∷ js) j (k, ks) x = (k, All-append-one lev js j ks x)

  spawn-Holds :
      (k : ℕ) (w : Worker) (f f' : Farm)
      → Holds f
      → spawn_remaining c k w f ≡ (f', ok tt)
      → Holds f'
  unfolding spawn_remaining spawn_worker
  spawn-Holds k w f f' v h = elim (Option-cases (get ◌==◌ w.instance_id f.completed_per_worker)) [
    | inl e ↦ absurd (ground arith)
    | inr (i, e) ↦ elim (Bool-cases (ltb i c.n_episodes_per_worker)) [
      | inr done ↦ subst Holds (ground arith) v
      | inl room ↦
          let level_eq : completed_of f w.instance_id ≡ i = ground arith in
          let same : (spawn_worker k w i (c.n_episodes_per_worker - i) f) ≡ f' = ground arith in
          subst Holds same (record {
            booked = record {
              once = v.booked.once;
              recorded = v.booked.recorded;
              above = v.booked.above;
              bounded = v.booked.bounded;
            };
            ready = v.ready;
            jobs = All-append-one (after_queue (completed_of f) f.result_queue) f.jobs _ v.jobs (
                ground (
                  arith,
                  v.booked.above w.instance_id,
                  after_queue_ge (completed_of f) f.result_queue w.instance_id,
                ));
          })
    ]
  ]

  on_restart-Holds : (k : ℕ) (f f' : Farm) → Holds f → on_restart c k f ≡ (f', ok tt) → Holds f'
  unfolding on_restart
  on_restart-Holds k f f' v h =
      let body : Worker → Call (Unit {0}) = λ w.
        synthesize_lost_episode_record c w.instance_id
        >> record_farm_restart w.instance_id
        >> check_rate c
        >> spawn_remaining c k w in
      let (w, h1) = with_worker-ok k body f f' h in
      let lost = synthesize_lost_episode_record c w.instance_id in
      let counted = record_farm_restart w.instance_id in
      let (_, f3, e3, h3) =
        bind-eq-ok (lost >> counted >> check_rate c) (λ _. spawn_remaining c k w) f h1 in
      let (_, f2, e2, h2) = bind-eq-ok (lost >> counted) (λ _. check_rate c) f e3 in
      let (_, f1, e1, h0) = bind-eq-ok lost (λ _. counted) f e2 in
      let v1 = synthesize-Holds w.instance_id f f1 v e1 in
      let v2 = Holds-of_SameBooks f1 f2 (record_farm_restart_lem w.instance_id f1 f2 h0) v1 in
      spawn-Holds k w f3 f' (subst Holds (check_rate_lem f2 f3 h2) v2) h3

  Step-Holds : {f g : Farm} → Holds f → Step c f g → Holds g
  unfolding drain_queue
  Step-Holds {f} v (hand_over before after j r e room w i) =
      hand_over-Inv base c.n_episodes_per_worker f before after j r v e room w i
  Step-Holds {f} {g} v (drain h) =
      drain_from-Inv base c.n_episodes_per_worker f.result_queue f g refl v h
  Step-Holds {f} {g} v (restart k h) = on_restart-Holds k f g v h
  Step-Holds {f} {g} v (spawn k w h) = spawn-Holds k w f g v h
  Step-Holds {f} v (workers ws) =
      Holds-of_SameBooks f (record f { supervisors = ws })
        (record {
          results_eq = refl;
          ids_eq = refl;
          completed_eq = refl;
          queue_eq = refl;
          jobs_eq = refl;
        })
        v

  Steps-Holds : {f g : Farm} → Holds f → Steps c f g → Holds g
  Steps-Holds v none_yet = v
  Steps-Holds v (more s t) = Step-Holds (Steps-Holds v s) t

-- A farm before `run`: nothing recorded, queued or spawned. A resumed one has counted episodes.
pub record Fresh (f : Farm) : Type 0 where
  pub no_results : f.results ≡ []
  pub no_ids : f.recorded_episode_ids ≡ []
  pub no_queue : f.result_queue ≡ []
  pub no_jobs : f.jobs ≡ []

Fresh-Holds : (c : FarmConfig) (f : Farm) → Fresh f → Holds c (completed_of f) f
Fresh-Holds c f h = record {
  booked = record {
    once = λ w i. rw h.no_results (ground arith);
    recorded = λ w i. rw (h.no_results, h.no_ids) refl;
    above = λ w. omega arith;
    bounded = λ w. omega arith;
  };
  ready = rw h.no_queue tt;
  jobs = rw h.no_jobs tt;
}

-- Whatever the interleaving of children that report, hang or die with records still in the queue,
-- drains, restarts and spawns, from a fresh or resumed farm: the results hold exactly one record
-- for each episode of a worker from the index it resumed at up to its completed count, and none
-- for any other; and no worker's count passes its quota.
pub exactly_once :
    (c : FarmConfig) (f g : Farm)
    → Fresh f
    → Steps c f g
    → ((w i : ℕ) → tally g.results w i ≡ expected (completed_of f) (completed_of g) w i)
      × ((w : ℕ) → completed_of f w ≤ completed_of g w)
      × ((w : ℕ) → completed_of g w - completed_of f w ≤ c.n_episodes_per_worker - completed_of f w)
exactly_once c f g h s =
    let v = Steps-Holds c (completed_of f) (Fresh-Holds c f h) s in
    (v.booked.once, v.booked.above, v.booked.bounded)
