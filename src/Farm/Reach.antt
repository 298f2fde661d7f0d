-- ===== src/Farm/Reach.antt =====
-- experiments/sim_farm.py: the farm and its children as steps that interleave in any order.
use mathlib.Core.Path.{subst}
use aero_safe_rl.Base.{
  ℕ, suc, ◌≤◌, ◌<◌, ◌≡◌, ap, inl, inr, List, [], ◌∷◌, ◌++◌, All, Result-cases, ok, arith,
}
use aero_safe_rl.Episode.{EpisodeRecord}
use aero_safe_rl.Farm.Defs.{Farm, FarmConfig, Job, take_in, drain_from, drain_queue}
use aero_safe_rl.Farm.Run.{spawn_remaining, on_restart}
use aero_safe_rl.Farm.Supervisor.{Worker}
use aero_safe_rl.Farm.Levels.{
  Levels, Below, Ready, advance, after_queue, after_queue_mono, after_queue_snoc, Ready-mono,
  Ready-snoc,
}
use aero_safe_rl.Farm.Once.{Booked, TakenIn, take_in-TakenIn, completed_of}

-- One step of the farm or of something around it.
pub data Step (c : FarmConfig) : Farm → Farm → Type 0 where
  -- A child puts its next episode's record into the queue.
  hand_over :
      {f : Farm} (before after : List Job) (j : Job) (r : EpisodeRecord)
      → f.jobs ≡ before ++ j ∷ after
      → j.next_index < j.end_index
      → r.worker_id ≡ j.worker_id
      → r.episode_id ≡ j.next_index
      → Step c f (record f {
        result_queue = f.result_queue ++ r ∷ [];
        jobs = before ++ record j { next_index = suc j.next_index } ∷ after;
      })
  drain : {f g : Farm} → drain_queue f ≡ (g, ok tt) → Step c f g
  restart : {f g : Farm} (k : ℕ) → on_restart c k f ≡ (g, ok tt) → Step c f g
  spawn : {f g : Farm} (k : ℕ) (w : Worker) → spawn_remaining c k w f ≡ (g, ok tt) → Step c f g
  -- A child or another process of a worker dies, stalls or is restarted.
  workers : {f : Farm} (ws : List Worker) → Step c f (record f { supervisors = ws })

pub data Steps (c : FarmConfig) : Farm → Farm → Type 0 where
  none_yet : {f : Farm} → Steps c f f
  more : {f g h : Farm} → Steps c f g → Step c g h → Steps c f h

pub drain_cons :
    (r : EpisodeRecord) (rs : List EpisodeRecord) (f f' : Farm)
    → drain_from (r ∷ rs) f ≡ (f', ok tt)
    → (g : Farm) × (take_in r (record f { result_queue = rs }) ≡ (g, ok tt))
      × (drain_from rs g ≡ (f', ok tt))
unfolding drain_from
drain_cons r rs f f' h = elim (Result-cases (take_in r (record f { result_queue = rs })).1) [
  | inl (_, e) ↦ ((take_in r (record f { result_queue = rs })).0, ground arith, ground arith)
  | inr (x, e) ↦ absurd (ground arith)
]

module _ (base : Levels) (n : ℕ) where
  -- A child reports no earlier than the base, and skips no episode that is not in the queue.
  abbrev pub JobOk : Levels → Job → Type 0
  JobOk lev j =
      (base j.worker_id ≤ j.next_index) × (j.next_index ≤ lev j.worker_id) × (j.end_index ≤ n)

  pub record Inv (f : Farm) : Type 0 where
    pub booked : Booked base n f
    pub ready : Ready base n (completed_of f) f.result_queue
    pub jobs : All (JobOk (after_queue (completed_of f) f.result_queue)) f.jobs

  pub JobOk-mono : (a b : Levels) (js : List Job) → Below a b → All (JobOk a) js → All (JobOk b) js
  JobOk-mono a b [] le k = tt
  JobOk-mono a b (j ∷ js) le ((lo, up, end), k) =
      ((lo, omega (arith, le j.worker_id), end), JobOk-mono a b js le k)

  All-split :
      (a b : Levels) (j : Job) (before after : List Job)
      → All (JobOk a) (before ++ j ∷ after)
      → JobOk a j × ((x : Job) → Below a b → JobOk b x → All (JobOk b) (before ++ x ∷ after))
  All-split a b j [] after (k, ks) = (k, λ x le y. (y, JobOk-mono a b after le ks))
  All-split a b j (x0 ∷ before) after ((lo, up, end), ks) =
      let (k, build) = All-split a b j before after ks in
      (k, λ x le y. ((lo, omega (arith, le x0.worker_id), end), build x le y))

  pub hand_over-Inv :
      (f : Farm) (before after : List Job) (j : Job) (r : EpisodeRecord)
      → Inv f
      → f.jobs ≡ before ++ j ∷ after
      → j.next_index < j.end_index
      → r.worker_id ≡ j.worker_id
      → r.episode_id ≡ j.next_index
      → Inv (record f {
        result_queue = f.result_queue ++ r ∷ [];
        jobs = before ++ record j { next_index = suc j.next_index } ∷ after;
      })
  hand_over-Inv f before after j r v e room w i =
      let lev = completed_of f in
      let q = f.result_queue in
      let snoc = after_queue_snoc lev q r in
      let grows : Below (after_queue lev q) (after_queue lev (q ++ r ∷ [])) =
        λ x. ground (arith, snoc x) in
      let ((lo, up, end), build) =
        All-split (after_queue lev q) (after_queue lev (q ++ r ∷ [])) j before after
          (subst (All (JobOk (after_queue lev q))) e v.jobs) in
      record {
        booked = record {
          once = v.booked.once;
          recorded = v.booked.recorded;
          above = v.booked.above;
          bounded = v.booked.bounded;
        };
        ready = Ready-snoc base n lev q r v.ready (rw (w, i) (lo, up, omega arith));
        jobs =
            build (record j { next_index = suc j.next_index }) grows
              (omega arith, ground (arith, snoc j.worker_id), end);
      }

  pub drain_from-Inv :
      (rs : List EpisodeRecord) (f f' : Farm)
      → f.result_queue ≡ rs
      → Inv f
      → drain_from rs f ≡ (f', ok tt)
      → Inv f'
  unfolding drain_from
  drain_from-Inv [] f f' e v h = subst Inv (ap (λ x. x.0) h) v
  drain_from-Inv (r ∷ rs) f f' e v h =
      let (g, t, h') = drain_cons r rs f f' h in
      let popped = record f { result_queue = rs } in
      let (now, later) = subst (Ready base n (completed_of f)) e v.ready in
      let jobs = subst (λ q. All (JobOk (after_queue (completed_of f) q)) f.jobs) e v.jobs in
      let taken : TakenIn base n r popped g =
        take_in-TakenIn base n r popped g
          (record {
            once = v.booked.once;
            recorded = v.booked.recorded;
            above = v.booked.above;
            bounded = v.booked.bounded;
          })
          now t in
      let adv = advance (completed_of f) r.worker_id r.episode_id in
      drain_from-Inv rs g f' taken.queue_eq
        (record {
          booked = taken.booked;
          ready = rw taken.queue_eq (Ready-mono base n adv (completed_of g) rs taken.counted later);
          jobs =
              rw (taken.queue_eq, taken.jobs_eq)
                (JobOk-mono (after_queue adv rs) (after_queue (completed_of g) rs) f.jobs
                  (after_queue_mono adv (completed_of g) rs taken.counted) jobs);
        })
        h'
