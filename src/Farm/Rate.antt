-- ===== src/Farm/Rate.antt =====
-- experiments/sim_farm.py: what stays true over a whole run, restarts that raise included.
use mathlib.Core.Path.{subst}
use aero_safe_rl.Base.{
  ◌<◌, ◌↔◌, ◌*◌, ◌≤◌, ℕ, ◌≡◌, refl, sym, ap, ◌∙◌, ◌⊎◌, inl, inr, true, false, List, [], ◌∷◌, ◌==◌,
  leb, Option, none, some, get_elem?, Bool-cases, Option-cases, Result-cases, Result, ok, err,
  arith,
}
use aero_safe_rl.Base.Methods.{◌>>◌, bind-eq-ok, Keeps, bind-Keeps}
use aero_safe_rl.Base.Dict.{sum_values, get}
use aero_safe_rl.Episode.{EpisodeRecord}
use aero_safe_rl.Farm.Defs.{
  Farm, FarmError, FarmConfig, Call, take_in, drain_from, drain_queue, lost_record,
  synthesize_lost_episode_record, record_farm_restart,
}
use aero_safe_rl.Farm.Run.{
  with_worker, spawn_worker, spawn_remaining, check_rate, on_restart, over_restart_rate,
}
use aero_safe_rl.Farm.Supervisor.{Worker}
use aero_safe_rl.Farm.Reach.{Step, hand_over, drain, restart, spawn, workers, Steps, none_yet, more}
use aero_safe_rl.Farm.Exactly.{with_worker-ok}
use aero_safe_rl.Farm.Books.{
  Agrees, SamePapers, Agrees-of_SamePapers, drain_from-Agrees, record_farm_restart-Agrees,
  synthesize-Agrees, spawn-SamePapers, check_rate-SamePapers,
}

-- The methods that `_on_restart` calls, in order.
abbrev restart_body : FarmConfig → ℕ → Worker → Call (Unit {0})
restart_body c k w =
    synthesize_lost_episode_record c w.instance_id
    >> record_farm_restart w.instance_id
    >> check_rate c
    >> spawn_remaining c k w

with_worker-Keeps :
    (P : Farm → Type 0) (k : ℕ) (g : Worker → Call (Unit {0}))
    → ((w : Worker) → Keeps P (g w))
    → Keeps P (with_worker k g)
with_worker-Keeps P k g h f p = case_of (get_elem? f.supervisors k)
  where
    case_of :
        (o : Option Worker)
        → P
            (elim o as (λ _. Farm × Result FarmError (Unit {0})) [
              | none ↦ (f, err FarmError.index_error)
              | some w ↦ g w f
            ]).0
    case_of none = p
    case_of (some w) = h w f p

module _ (c : FarmConfig) where
  -- A property that each of them keeps is kept by the whole.
  on_restart-Keeps :
      (P : Farm → Type 0)
      → ((w : ℕ) → Keeps P (synthesize_lost_episode_record c w))
      → ((w : ℕ) → Keeps P (record_farm_restart w))
      → Keeps P (check_rate c)
      → ((k : ℕ) (w : Worker) → Keeps P (spawn_remaining c k w))
      → (k : ℕ) → Keeps P (on_restart c k)
  unfolding on_restart
  on_restart-Keeps P lost counted rate spawned k = with_worker-Keeps P k (restart_body c k) λ w.
      let a = synthesize_lost_episode_record c w.instance_id in
      let b = record_farm_restart w.instance_id in
      bind-Keeps P (a >> b >> check_rate c) (λ _. spawn_remaining c k w)
        (bind-Keeps P (a >> b) (λ _. check_rate c)
          (bind-Keeps P a (λ _. b) (lost w.instance_id) (λ _. counted w.instance_id)) (λ _. rate))
        (λ _. spawned k w)

  on_restart-Agrees : (k : ℕ) → Keeps Agrees (on_restart c k)
  on_restart-Agrees =
      on_restart-Keeps Agrees (λ w. synthesize-Agrees c w) record_farm_restart-Agrees
        (λ f a. Agrees-of_SamePapers f (check_rate c f).0 (check_rate-SamePapers c f) a)
        (λ k w f a. Agrees-of_SamePapers f (spawn_remaining c k w f).0 (spawn-SamePapers c k w f) a)

  same_papers : (f : Farm) → SamePapers f f
  same_papers f = record {
    file_eq = refl;
    manifest_eq = refl;
    results_eq = refl;
    restarts_eq = refl;
  }

  Step-Agrees : {f g : Farm} → Agrees f → Step c f g → Agrees g
  unfolding drain_queue
  Step-Agrees {f} a (hand_over before after j r e room w i) =
      Agrees-of_SamePapers f _
        (record { file_eq = refl; manifest_eq = refl; results_eq = refl; restarts_eq = refl }) a
  Step-Agrees {f} a (drain h) =
      subst Agrees (ap (λ x. x.0) h) (drain_from-Agrees f.result_queue f a)
  Step-Agrees {f} a (restart k h) = subst Agrees (ap (λ x. x.0) h) (on_restart-Agrees k f a)
  Step-Agrees {f} a (spawn k w h) =
      subst Agrees (ap (λ x. x.0) h)
        (Agrees-of_SamePapers f (spawn_remaining c k w f).0 (spawn-SamePapers c k w f) a)
  Step-Agrees {f} a (workers ws) =
      Agrees-of_SamePapers f (record f { supervisors = ws })
        (record { file_eq = refl; manifest_eq = refl; results_eq = refl; restarts_eq = refl }) a

  -- From a farm whose manifest agrees with it, over any interleaving: the file on disk is the
  -- manifest, its total and its count for each outcome are those of the results, and its restarts
  -- are the farm's; and this is still so when a restart or a drain raises.
  pub manifest-Agrees :
      {f g : Farm}
      → Agrees f
      → Steps c f g
      → Agrees g × ((k : ℕ) → Agrees (on_restart c k g).0) × Agrees (drain_queue g).0
  unfolding drain_queue
  manifest-Agrees {g} a none_yet =
      (a, λ k. on_restart-Agrees k g a, drain_from-Agrees g.result_queue g a)
  manifest-Agrees {g} a (more s t) =
      let b = Step-Agrees (manifest-Agrees a s).0 t in
      (b, λ k. on_restart-Agrees k g b, drain_from-Agrees g.result_queue g b)

-- A method leaves the restart counts and the children alone.
module _ (c : FarmConfig) where
  abbrev SameCounts : Farm → Farm → Type 0
  SameCounts f f' = (f'.restart_counts ≡ f.restart_counts) × (f'.jobs ≡ f.jobs)

  take_in-SameCounts : (r : EpisodeRecord) (f : Farm) → SameCounts f (take_in r f).0
  unfolding take_in
  take_in-SameCounts r f = ground arith

  drain_from-SameCounts : (rs : List EpisodeRecord) (f : Farm) → SameCounts f (drain_from rs f).0
  unfolding drain_from
  drain_from-SameCounts [] f = (refl, refl)
  drain_from-SameCounts (r ∷ rs) f =
      let popped = record f { result_queue = rs } in
      let (a, b) = take_in-SameCounts r popped in
      let (a', b') = drain_from-SameCounts rs (take_in r popped).0 in
      elim (Result-cases (take_in r popped).1) [
        | inl (_, e) ↦ rw (e, drain_from) (a' ∙ a, b' ∙ b)
        | inr (x, e) ↦ rw (e, drain_from) (a, b)
      ]

  synthesize-SameCounts : (w : ℕ) (f : Farm) → SameCounts f (synthesize_lost_episode_record c w f).0
  unfolding synthesize_lost_episode_record
  synthesize-SameCounts w f = elim (Option-cases (get ◌==◌ w f.completed_per_worker)) [
    | inl e ↦ rw (e, synthesize_lost_episode_record) (refl, refl)
    | inr (i, e) ↦ elim (Bool-cases (leb c.n_episodes_per_worker i)) [
      | inl done ↦ rw (e, done, synthesize_lost_episode_record) (refl, refl)
      | inr room ↦
          rw (e, room, synthesize_lost_episode_record) (take_in-SameCounts (lost_record c w i) f)
    ]
  ]

  spawn-counts :
      (k : ℕ) (w : Worker) (f : Farm)
      → (spawn_remaining c k w f).0.restart_counts ≡ f.restart_counts
  unfolding spawn_remaining spawn_worker
  spawn-counts k w f = ground arith

  rate_of_counts :
      (f f' : Farm)
      → f'.restart_counts ≡ f.restart_counts
      → over_restart_rate c f' ≡ over_restart_rate c f
  unfolding over_restart_rate
  rate_of_counts f f' e = rw e refl

  check_rate_cases :
      (f : Farm)
      → ((check_rate c f ≡ (f, ok tt)) × (over_restart_rate c f ≡ false))
        ⊎ ((check_rate c f ≡ (f, err FarmError.restart_rate)) × (over_restart_rate c f ≡ true))
  unfolding check_rate
  check_rate_cases f = ground (arith, Bool-cases (over_restart_rate c f))

  on_restart_rate :
      (k : ℕ) (f g : Farm) → on_restart c k f ≡ (g, ok tt) → over_restart_rate c g ≡ false
  unfolding on_restart
  on_restart_rate k f g h =
      let (w, h1) = with_worker-ok k (restart_body c k) f g h in
      let a = synthesize_lost_episode_record c w.instance_id in
      let b = record_farm_restart w.instance_id in
      let (_, f3, e3, h3) = bind-eq-ok (a >> b >> check_rate c) (λ _. spawn_remaining c k w) f h1 in
      let (_, f2, e2, h2) = bind-eq-ok (a >> b) (λ _. check_rate c) f e3 in
      let below : over_restart_rate c f3 ≡ false = ground (arith, check_rate_cases f2) in
      rate_of_counts f3 g (ap (λ x. x.0.restart_counts) (sym h3) ∙ spawn-counts k w f3) ∙ below

  below_rate :
      {f g : Farm} → over_restart_rate c f ≡ false → Steps c f g → over_restart_rate c g ≡ false
  unfolding drain_queue
  below_rate o none_yet = o
  below_rate {f} o (more {g = g} {h = h} s t) = kept (below_rate o s) t
    where
      kept :
          {u v : Farm} → over_restart_rate c u ≡ false → Step c u v → over_restart_rate c v ≡ false
      kept {u} p (hand_over before after j r e room w i) = rate_of_counts u _ refl ∙ p
      kept {u} {v} p (drain q) =
          rate_of_counts u v
            (ap (λ x. x.0.restart_counts) (sym q) ∙ (drain_from-SameCounts u.result_queue u).0)
          ∙ p
      kept {u} {v} p (restart k q) = on_restart_rate k u v q
      kept {u} {v} p (spawn k w q) =
          rate_of_counts u v (ap (λ x. x.0.restart_counts) (sym q) ∙ spawn-counts k w u) ∙ p
      kept {u} p (workers ws) = rate_of_counts u (record u { supervisors = ws }) refl ∙ p

  -- Where episodes are planned, the restarts are at most the threshold's share of them: so many
  -- millionths of the workers times the episodes of each.
  abbrev pub WithinRate : Farm → Type 0
  WithinRate f =
      0 < c.worker_count * c.n_episodes_per_worker
      → sum_values ◌==◌ f.restart_counts * 1000000
        ≤ c.restart_rate_abort_threshold * (c.worker_count * c.n_episodes_per_worker)

  within_iff : (f : Farm) → WithinRate f ↔ (over_restart_rate c f ≡ false)
  unfolding over_restart_rate
  within_iff f = (λ h. ground (arith, h), λ h some_planned. ground (arith, h))

  -- A run that starts with no more restarts than the threshold's share of its planned episodes has no
  -- more after any interleaving of steps in which no restart raised.
  pub restart_rate_bounded : {f g : Farm} → WithinRate f → Steps c f g → WithinRate g
  restart_rate_bounded {f} {g} h s = (within_iff g).1 (below_rate ((within_iff f).0 h) s)
