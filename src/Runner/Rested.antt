-- ===== src/Runner/Rested.antt =====
-- experiments/episode_runner.py: an episode flies from the state that its reset tier promises.
use mathlib.Core.Path.{subst}
use aero_safe_rl.Base.{
  ℕ, is_some, ◌≡◌, refl, sym, ap, ◌∙◌, inl, inr, Option, none, some, Bool, true, false, not, ◌&&◌,
  Bool-cases, Result, ok, err, arith,
}
use aero_safe_rl.Base.Methods.{Method, ◌>>◌, pure, bind-eq-ok}
use aero_safe_rl.Episode.{ResetTier, no_reset, soft, medium, hard}
use aero_safe_rl.Farm.Child.{ChildError, Request, Assignment, Reports, Complete, worker_main}
use aero_safe_rl.Faults.{FaultSpec}
use aero_safe_rl.Reset
use aero_safe_rl.Reset.Settled.{soft_reset-settled, medium_reset-ready}
use aero_safe_rl.Runner.Defs.{
  ResetResult, Summary, summary_of, Ros, apply_reset, rebuild_after_hard_reset, check_fault,
  run_episode, episode_runner,
}
use aero_safe_rl.Runner.Honest.{NamesTier, run_episode_lem, runner-Reports}
use aero_safe_rl.Runner.Site.{Site, returned, run_soft, run_medium, run_hard, with_resets, Rested}

returned-ok :
    {W : Type 0} (w w' : W) (d : ℕ) (o : Option (Result Reset.ResetError ResetTier))
    (r : ResetResult)
    → returned w d o ≡ (w', ok r)
    → o ≡ some (ok r.tier)
returned-ok w w' d (some (ok tier)) r h = ground arith
returned-ok w w' d (some (err e)) r h = cc h
returned-ok w w' d none r h = cc h

hard_reset-starts :
    (stops starts : Bool) (tier : ResetTier)
    → some (Reset.hard_reset stops starts) ≡ some (ok tier)
    → (tier ≡ hard) × ((stops ≡ true) × (starts ≡ true))
unfolding Reset.hard_reset
hard_reset-starts true true tier h = (cc h, (refl, refl))
hard_reset-starts true false tier h = cc h
hard_reset-starts false starts tier h = cc h

module _ {W : Type 0} (site : Site W) where
  soft-Rested :
      (w w' : W) (r : ResetResult)
      → run_soft site w ≡ (w', ok r)
      → (r.tier ≡ soft) × Rested site soft w
  unfolding run_soft
  soft-Rested w w' r h =
      soft_reset-settled site.spawn site.fuel (site.teleports w) (site.now w) r.tier
        (site.settling w) (site.settle_from w) (returned-ok _ w' (site.wall_duration_s w) _ r h)

  medium-Rested :
      (w w' : W) (r : ResetResult)
      → run_medium site w ≡ (w', ok r)
      → (r.tier ≡ medium) × Rested site medium w
  unfolding run_medium
  medium-Rested w w' r h =
      let (tier, (_, rest)) =
        medium_reset-ready site.spawn site.fuel (site.teleports w) (site.now w) r.tier
          (site.disarming w) (site.disarmed w) (site.settling w) (site.readying w) (site.t0 w)
          (site.disarm_from w) (site.settle_from w) (site.ready_from w)
          (returned-ok _ w' (site.wall_duration_s w) _ r h) in
      (tier, rest)

  hard-Rested :
      (w w' : W) (r : ResetResult)
      → run_hard site w ≡ (w', ok r)
      → (r.tier ≡ hard) × Rested site hard w
  unfolding run_hard
  hard-Rested w w' r h =
      hard_reset-starts (site.stops w) (site.starts w) r.tier
        (returned-ok _ w' (site.wall_duration_s w) _ r h)

  module _ (ros : Ros W) where
    with_resets-NamesTier : NamesTier (with_resets site ros)
    with_resets-NamesTier = record {
      soft_tier = λ w w' r h. (soft-Rested w w' r h).0;
      medium_tier = λ w w' r h. (medium-Rested w w' r h).0;
      hard_tier = λ w w' r h. (hard-Rested w w' r h).0;
    }

    module _ (worker_id : ℕ) (enable_rotor_fault : Bool) where
      apply_reset-Rested :
          (tier : ResetTier) (w w' : W) (x : ResetTier × ℕ)
          → apply_reset (with_resets site ros) worker_id enable_rotor_fault tier w ≡ (w', ok x)
          → Rested site tier (ros.heartbeat w)
      unfolding apply_reset
      apply_reset-Rested no_reset w w' x h = tt
      apply_reset-Rested soft w w' x h =
          let (r, w1, e, _) =
            bind-eq-ok (run_soft site) (λ r. pure (r.tier, r.wall_duration_s)) (ros.heartbeat w)
              h in
          (soft-Rested (ros.heartbeat w) w1 r e).1
      apply_reset-Rested medium w w' x h =
          let (r, w1, e, _) =
            bind-eq-ok (run_medium site) (λ r. pure (r.tier, r.wall_duration_s)) (ros.heartbeat w)
              h in
          (medium-Rested (ros.heartbeat w) w1 r e).1
      apply_reset-Rested hard w w' x h =
          let rest : ResetResult → Method ChildError W (ResetTier × ℕ) = λ r.
            rebuild_after_hard_reset (with_resets site ros) worker_id enable_rotor_fault
            >> pure (r.tier, r.wall_duration_s) in
          let (r, w1, e, _) = bind-eq-ok (run_hard site) rest (ros.heartbeat w) h in
          (hard-Rested (ros.heartbeat w) w1 r e).1

      check_fault_world :
          (f : Option FaultSpec) (w w' : W) (u : Unit {0})
          → check_fault (with_resets site ros) worker_id enable_rotor_fault f w ≡ (w', ok u)
          → w ≡ w'
      check_fault_world f w w' u h = elim (Bool-cases (is_some f && not enable_rotor_fault)) [
        | inl y ↦ absurd (ground (arith, h))
        | inr n ↦ ground (arith, h)
      ]

      -- An episode that is flown and recorded with the bridge's resets has the tier asked for, and its
      -- reset saw what the tier promises before it flew: after a soft one the vehicle at rest at its
      -- spawn pose and disarmed, after a medium one also its preflight checks passed, and after a hard
      -- one the worker's scripts succeed.
      pub run_episode-Rested :
          (q : Request FaultSpec) (w w' : W) (s : Summary)
          → run_episode (with_resets site ros) worker_id enable_rotor_fault q w ≡ (w', ok s)
          → (s.episode.reset_tier ≡ q.reset_tier) × Rested site q.reset_tier (ros.heartbeat w)
      unfolding summary_of
      run_episode-Rested q w w' s h =
          let (x, f, tier, told, w1, w2, checked, reset) =
            run_episode_lem (with_resets site ros) worker_id enable_rotor_fault
              with_resets-NamesTier q w w' s h in
          let rested = apply_reset-Rested q.reset_tier w1 w2 x reset in
          (
            ap (λ s. s.episode.reset_tier) told ∙ tier,
            subst (λ w. Rested site q.reset_tier (ros.heartbeat w))
                (sym (check_fault_world q.fault_spec w w1 tt checked)) rested,
          )

      -- A child whose runner has the bridge's resets reports as the farm expects.
      pub site-Reports :
          (a : Assignment FaultSpec) (w : W)
          → a.worker_id ≡ worker_id
          → let runner = episode_runner (with_resets site ros) worker_id enable_rotor_fault in
            Reports runner a 0 none (worker_main runner a w).0
            × Complete runner a a.n_episodes (worker_main runner a w)
      site-Reports a w same =
          runner-Reports (with_resets site ros) worker_id enable_rotor_fault with_resets-NamesTier a
            w same
