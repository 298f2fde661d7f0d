-- ===== src/Farm/Supervisor/Budget.antt =====
-- experiments/worker_supervisor.py: the restart budget over many polls, and the heartbeat of a
-- worker that was just restarted.
use mathlib.Core.Path.{subst}
use aero_safe_rl.Base.{
  ℕ, suc, ◌+◌, ◌≤◌, ◌≡◌, refl, sym, ap, ◌∙◌, inl, Option, none, some, Bool, true, false, Result, ok,
  err, arith,
}
use aero_safe_rl.Farm.Supervisor.Defs.{
  Worker, Machine, Scripts, Child, SupervisorError, heartbeat_stale, is_healthy, start,
  ensure_healthy,
}
use aero_safe_rl.Farm.Supervisor.Health.{is_healthy_iff}
use aero_safe_rl.Farm.Supervisor.Restart.{
  Outcome, healthy, exhausted, restarted, forbidden, ensure_healthy-Outcome,
}

module _ (scripts : Scripts) where
  start_keeps :
      (w : Worker)
      → ((start scripts w).0.restart_count ≡ w.restart_count)
        × ((start scripts w).0.restart_budget ≡ w.restart_budget)
        × ((start scripts w).0.heartbeat_stall_timeout_s ≡ w.heartbeat_stall_timeout_s)
  unfolding start
  start_keeps w = ground arith

  -- The restarts that a poll began: one that it finished, or one that PermissionError broke off.
  abbrev pub begun : Result SupervisorError Bool → ℕ
  begun (ok true) = 1
  begun (ok false) = 0
  begun (err SupervisorError.permission_error) = 1
  begun (err _) = 0

  outcome_budget :
      {w : Worker} {r : Worker × Result SupervisorError Bool}
      → Outcome scripts w r
      → (r.0.restart_budget ≡ w.restart_budget)
        × (w.restart_count ≤ w.restart_budget → r.0.restart_count ≤ w.restart_budget)
        × (r.0.restart_count ≡ w.restart_count + begun r.1)
  outcome_budget {w} (healthy h) = (refl, λ b. b, omega arith)
  outcome_budget {w} (exhausted h b) = (refl, λ b'. b', omega arith)
  outcome_budget {w} (restarted {w1} {w2} h room c e) =
      let (k, b, _) = start_keeps w1 in
      let count : w2.restart_count ≡ suc w.restart_count =
        ap (λ x. x.restart_count) e ∙ k ∙ c.counted in
      (ap (λ x. x.restart_budget) e ∙ b ∙ c.budget_kept, λ _. omega arith, omega (arith, count))
  outcome_budget {w} (forbidden {w1} h room counted budget) =
      (budget, λ _. omega arith, omega (arith, counted))

  -- The worker after a history of health polls, which return or raise, and between which its
  -- surroundings change the machine and the child's handle in any way.
  pub data Polled (w : Worker) : ℕ → Worker → Type 0 where
    unpolled : Polled w 0 w
    poll :
        {n : ℕ} {u v : Worker} {r : Result SupervisorError Bool}
        → Polled w n u
        → ensure_healthy scripts u ≡ (v, r)
        → Polled w (n + begun r) v
    surroundings :
        {n : ℕ} {u : Worker} (m : Machine) (c : Option Child)
        → Polled w n u
        → Polled w n (record u { machine = m; process = c })

  -- Over any history of polls, whether they return or raise, the count rises by the restarts that
  -- were finished and those that PermissionError broke off, and a worker that starts within its
  -- budget never exceeds it.
  pub restarts_within_budget :
      {w : Worker} {n : ℕ} {v : Worker}
      → w.restart_count ≤ w.restart_budget
      → Polled w n v
      → (v.restart_count ≡ w.restart_count + n)
        × (v.restart_count ≤ w.restart_budget)
        × (v.restart_budget ≡ w.restart_budget)
  restarts_within_budget b unpolled = (omega arith, b, refl)
  restarts_within_budget b (surroundings m c p) = restarts_within_budget b p
  restarts_within_budget {w = w} b (poll {u = u} {v = v} {r = r} p e) =
      let (k, le, same) = restarts_within_budget b p in
      let (budget, within, count) =
        outcome_budget (subst (Outcome scripts u) e (ensure_healthy-Outcome scripts u)) in
      (
        omega (arith, k, count),
        omega (arith, within (omega (arith, le, same)), same),
        budget ∙ same,
      )

  start_heartbeat :
      ((m : Machine) → (scripts.start_worker m).0.heartbeat ≡ m.heartbeat)
      → (w : Worker) → (start scripts w).0.heartbeat ≡ none
  unfolding start
  start_heartbeat quiet w = quiet (record w.machine { heartbeat = none })

  stale_none : (w : Worker) → w.heartbeat ≡ none → heartbeat_stale w ≡ false
  unfolding heartbeat_stale
  stale_none w e = ground arith

  -- Where the start script does not write this worker's heartbeat, a worker that was just restarted
  -- and given its new child passes the next health check: no heartbeat of an earlier run is left to
  -- make it look stalled.
  pub restarted_is_healthy :
      ((m : Machine) → (scripts.start_worker m).0.heartbeat ≡ m.heartbeat)
      → (w v : Worker) (c : Child) → ensure_healthy scripts w ≡ (v, ok true)
      → c.is_alive ≡ true
      → is_healthy (record v { process = some c }) ≡ true
  restarted_is_healthy quiet w v c e l =
      (is_healthy_iff (record v { process = some c })).1
        (inl l, cleared (subst (Outcome scripts w) e (ensure_healthy-Outcome scripts w)) refl)
    where
      cleared :
          {r : Worker × Result SupervisorError Bool}
          → Outcome scripts w r
          → r.1 ≡ ok true
          → heartbeat_stale (record r.0 { process = some c }) ≡ false
      cleared (healthy h) q = cc
      cleared (exhausted h b) q = cc
      cleared (restarted {w1} {w2} h room k same) q =
          stale_none (record w2 { process = some c })
            (subst (λ (u : Worker). u.heartbeat ≡ none) (sym same) (start_heartbeat quiet w1))
      cleared (forbidden h room k b) q = cc
