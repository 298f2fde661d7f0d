-- ===== src/Runner/Honest.antt =====
-- experiments/episode_runner.py and experiments/sim_farm.py: the runner keeps what the child's loop
-- relies on, so a child reports its episodes as the farm expects.
use mathlib.Core.Path.{subst}
use aero_safe_rl.Base.{
  ℕ, ◌≡◌, refl, sym, ap, ◌∙◌, ◌↔◌, inl, inr, none, Bool, false, not, Result-cases, ok, arith,
  ok_injective,
}
use aero_safe_rl.Base.Methods.{Method, ◌>>=◌, ◌>>◌, pure, bind-eq-ok}
use aero_safe_rl.Episode.{
  EpisodeRecord, ResetTier, no_reset, soft, medium, hard, TerminationReason, sim_fault, same_reason,
}
use aero_safe_rl.Farm.Child.{
  ChildError, Request, Assignment, Honest, Reports, Complete, worker_main, worker_main-Reports,
}
use aero_safe_rl.Faults.{FaultSpec}
use aero_safe_rl.Runner.Defs.{
  ResetResult, Flown, Summary, Ros, apply_reset, rebuild_after_hard_reset, summary_of, check_fault,
  fly_clean, run_episode, episode_runner,
}

-- A reset that returns names its own tier.
pub record NamesTier {W : Type 0} (ros : Ros W) : Type 0 where
  pub soft_tier : (w w' : W) (r : ResetResult) → ros.soft_reset w ≡ (w', ok r) → r.tier ≡ soft
  pub medium_tier : (w w' : W) (r : ResetResult) → ros.medium_reset w ≡ (w', ok r) → r.tier ≡ medium
  pub hard_tier : (w w' : W) (r : ResetResult) → ros.hard_reset w ≡ (w', ok r) → r.tier ≡ hard

not_same : (r : TerminationReason) → (not (same_reason r sim_fault) ≡ false) ↔ (r ≡ sim_fault)
not_same TerminationReason.sim_fault = (λ h. refl, λ e. refl)
not_same _ = (λ h. cc h, λ e. cc e)

module _ {W : Type 0} (ros : Ros W) (worker_id : ℕ) (enable_rotor_fault : Bool)
    (law : NamesTier ros) where
  apply_reset_tier :
      (tier : ResetTier) (w w' : W) (x : ResetTier × ℕ)
      → apply_reset ros worker_id enable_rotor_fault tier w ≡ (w', ok x)
      → x.0 ≡ tier
  unfolding apply_reset
  apply_reset_tier no_reset w w' x h = ground arith
  apply_reset_tier soft w w' x h =
      let (r, w1, e, h') =
        bind-eq-ok ros.soft_reset (λ r. pure (r.tier, r.wall_duration_s)) (ros.heartbeat w) h in
      ground (arith, law.soft_tier (ros.heartbeat w) w1 r e)
  apply_reset_tier medium w w' x h =
      let (r, w1, e, h') =
        bind-eq-ok ros.medium_reset (λ r. pure (r.tier, r.wall_duration_s)) (ros.heartbeat w) h in
      ground (arith, law.medium_tier (ros.heartbeat w) w1 r e)
  apply_reset_tier hard w w' x h =
      let rest : ResetResult → Method ChildError W (ResetTier × ℕ) = λ r.
        rebuild_after_hard_reset ros worker_id enable_rotor_fault
        >> pure (r.tier, r.wall_duration_s) in
      let (r, w1, e, h') = bind-eq-ok ros.hard_reset rest (ros.heartbeat w) h in
      let (_, w2, _, h'') =
        bind-eq-ok (rebuild_after_hard_reset ros worker_id enable_rotor_fault)
          (λ _. pure (r.tier, r.wall_duration_s)) w1 h' in
      ground (arith, law.hard_tier (ros.heartbeat w) w1 r e)

  -- What an episode's summary is, and the reset that came before.
  pub run_episode_lem :
      (q : Request FaultSpec) (w w' : W) (s : Summary)
      → run_episode ros worker_id enable_rotor_fault q w ≡ (w', ok s)
      → (x : ResetTier × ℕ) × (f : Flown) × (x.0 ≡ q.reset_tier)
        × (s ≡ summary_of ros worker_id enable_rotor_fault q x f)
        × (w1 : W) × (w2 : W) × (check_fault ros worker_id enable_rotor_fault q.fault_spec w
            ≡ (w1, ok tt))
        × (apply_reset ros worker_id enable_rotor_fault q.reset_tier w1 ≡ (w2, ok x))
  unfolding run_episode
  run_episode_lem q w w' s h =
      let told : ResetTier × ℕ → Flown → Summary = summary_of ros worker_id enable_rotor_fault q in
      let write : ResetTier × ℕ → Flown → Method ChildError W Summary =
        λ x f. ros.write_episode (told x f) >> pure (told x f) in
      let flight : ResetTier × ℕ → Method ChildError W Summary =
        λ x. fly_clean ros worker_id enable_rotor_fault q >>= write x in
      let reset = apply_reset ros worker_id enable_rotor_fault q.reset_tier in
      let (_, w1, e1, h1) =
        bind-eq-ok (check_fault ros worker_id enable_rotor_fault q.fault_spec)
          (λ _. reset >>= flight) w h in
      let (x, w2, e2, h2) = bind-eq-ok reset flight w1 h1 in
      let (f, w3, _, h3) =
        bind-eq-ok (fly_clean ros worker_id enable_rotor_fault q) (write x) w2 h2 in
      let (_, w4, _, h4) = bind-eq-ok (ros.write_episode (told x f)) (λ _. pure (told x f)) w3 h3 in
      (
        x,
        f,
        apply_reset_tier q.reset_tier w1 w2 x e2,
        ok_injective (sym (ap (λ r. r.1) h4)),
        w1,
        w2,
        e1,
        e2,
      )

  -- The record that the child gets is that of the summary.
  episode_lem :
      (q : Request FaultSpec) (w w' : W) (x : EpisodeRecord)
      → (episode_runner ros worker_id enable_rotor_fault).run_episode q w ≡ (w', ok x)
      → (s : Summary) × (run_episode ros worker_id enable_rotor_fault q w ≡ (w', ok s))
        × (s.episode ≡ x)
  unfolding episode_runner
  episode_lem q w w' x h =
      let r = run_episode ros worker_id enable_rotor_fault q w in
      let world : r.0 ≡ w' = ap (λ y. y.0) h in
      elim (Result-cases r.1) [
        | inr (e, p) ↦ absurd (ground (arith, ap (λ y. y.1) h))
        | inl (s, p) ↦
            let same : s.episode ≡ x = ground (arith, ap (λ y. y.1) h) in
            (s, ap (λ y. (r.0, y)) p ∙ ap (λ y. (y, ok s)) world, same)
      ]

  -- The runner keeps what the child's loop asks of it: each record names the worker, the episode,
  -- the seed and the tier of the request, and is valid unless the simulation broke.
  episode_runner-Honest :
      (a : Assignment FaultSpec)
      → a.worker_id ≡ worker_id
      → Honest (episode_runner ros worker_id enable_rotor_fault) a
  unfolding episode_runner summary_of
  episode_runner-Honest a same q w w' x h =
      let (s, e, p) = episode_lem q w w' x h in
      let (y, f, tier, told, _, _, _, _) = run_episode_lem q w w' s e in
      let record_eq = ap (λ s. s.episode) (sym told) ∙ p in
      (
        sym (ap (λ r. r.worker_id) record_eq) ∙ sym same,
        sym (ap (λ r. r.episode_id) record_eq),
        sym (ap (λ r. r.seed) record_eq),
        sym (ap (λ r. r.reset_tier) record_eq) ∙ tier,
      )

  -- A record is invalid exactly if the simulation broke.
  pub valid_iff :
      (q : Request FaultSpec) (w w' : W) (s : Summary)
      → run_episode ros worker_id enable_rotor_fault q w ≡ (w', ok s)
      → (s.episode.valid ≡ false) ↔ (s.episode.termination_reason ≡ sim_fault)
  unfolding summary_of
  valid_iff q w w' s h =
      let (y, f, tier, told, _, _, _, _) = run_episode_lem q w w' s h in
      subst
        (λ (x : Summary). (x.episode.valid ≡ false) ↔ (x.episode.termination_reason ≡ sim_fault))
        (sym told) (not_same f.result.termination_reason)

  -- A child that flies its episodes with this runner, whose resets name their tiers, reports them as
  -- the farm expects: in order from its start index without a gap, each under its own seed, the first
  -- without a reset, each later one with the run's tier after a completed episode and with a hard
  -- reset after any other, and all of them unless something raised.
  pub runner-Reports :
      (a : Assignment FaultSpec) (w : W)
      → a.worker_id ≡ worker_id
      → let runner = episode_runner ros worker_id enable_rotor_fault in
        Reports runner a 0 none (worker_main runner a w).0
        × Complete runner a a.n_episodes (worker_main runner a w)
  runner-Reports a w same =
      worker_main-Reports (episode_runner ros worker_id enable_rotor_fault) a
        (episode_runner-Honest a same) w
