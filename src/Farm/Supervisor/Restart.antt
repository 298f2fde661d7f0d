-- ===== src/Farm/Supervisor/Restart.antt =====
-- experiments/worker_supervisor.py: what a restart does, its budget, and what it leaves running.
use mathlib.Core.Path.{subst}
use aero_safe_rl.Base.{
  not, ◌&&◌, ℕ, suc, ◌≤◌, ◌<◌, ◌≡◌, refl, sym, ap, ◌⊎◌, inl, inr, Bool-cases, Option, none, some,
  Bool, true, false, List, [], ◌∷◌, All, leb, leb→le, Result, ok, err, arith,
}
use aero_safe_rl.Base.Methods.{◌>>=◌, pure, bind-eq-ok}
use aero_safe_rl.Farm.Supervisor.Defs.{
  Worker, Child, Scripts, Probe, SupervisorError, child_alive, alive_probe, pid_alive,
  read_runtime_pids, is_healthy, stop_child_process, sigkill, kill_probe, kill_stale, start,
  clean_up, try_start, ensure_healthy,
}

-- A live child that outlasts both the terminate() and the SIGKILL with their joins.
abbrev pub outlasts : Option Child → Bool
outlasts none = false
outlasts (some c) = c.is_alive && (not c.obeys_terminate && not c.obeys_sigkill)

-- Stopping the child leaves it alive only if it outlasts the signals, and changes nothing else.
pub stop_child_process_lem :
    (w : Worker)
    → (child_alive (stop_child_process w).process ≡ outlasts w.process)
      × (record (stop_child_process w) { process = w.process } ≡ w)
unfolding stop_child_process
stop_child_process_lem w = ground arith

abbrev pub AllDead : (ℕ → Probe) → List (Option ℕ) → Type 0
AllDead probe = All (λ p. pid_alive probe p ≡ false)

-- A worker differs from another in its machine alone.
abbrev SameObject : Worker → Worker → Type 0
SameObject w w' = record w' { machine = w.machine } ≡ w

abbrev IsDead : (ℕ → Probe) → ℕ → Type 0
IsDead probe pid = alive_probe (probe pid) ≡ false

module _ (pid : ℕ) (ps : List (Option ℕ)) (w w' : Worker) where
  -- One round of the loop: the pid was not alive and nothing changed, or it was and is gone now.
  kill_round :
      kill_stale (some pid ∷ ps) w ≡ (w', ok tt)
      → ((IsDead w.probe pid) × (kill_stale ps w ≡ (w', ok tt)))
        ⊎ ((w1 : Worker) × (sigkill pid w ≡ (w1, ok tt)) × (kill_stale ps w1 ≡ (w', ok tt)))
  unfolding kill_stale
  kill_round h = elim (Bool-cases (alive_probe (w.probe pid))) [
    | inr dead ↦ inl (dead, ground arith)
    | inl live ↦
        let h' : (sigkill pid >>= (λ _. kill_stale ps)) w ≡ (w', ok tt) = rw live at h in
        let (_, w1, e, k) = bind-eq-ok (sigkill pid) (λ _. kill_stale ps) w h' in inr (w1, e, k)
  ]

sigkill_lem :
    (pid : ℕ) (w w' : Worker)
    → sigkill pid w ≡ (w', ok tt)
    → IsDead w'.probe pid × SameObject w w' × ((q : ℕ) → IsDead w.probe q → IsDead w'.probe q)
unfolding sigkill
sigkill_lem pid w w' h = (ground arith, ground arith, λ q d. ground arith)

kill_stale_lem :
    (ps : List (Option ℕ)) (w w' : Worker)
    → kill_stale ps w ≡ (w', ok tt)
    → AllDead w'.probe ps × SameObject w w' × ((q : ℕ) → IsDead w.probe q → IsDead w'.probe q)
unfolding kill_stale sigkill pid_alive
kill_stale_lem [] w w' h = (tt, ground arith, λ q d. ground arith)
kill_stale_lem (none ∷ ps) w w' h = let (d, s, k) = kill_stale_lem ps w w' h in ((refl, d), s, k)
kill_stale_lem (some pid ∷ ps) w w' h = elim (kill_round pid ps w w' h) [
  | inl (dead, k) ↦ let (d, s, keep) = kill_stale_lem ps w w' k in ((keep pid dead, d), s, keep)
  | inr (w1, e, k) ↦
      let (d1, s1, keep1) = sigkill_lem pid w w1 e in
      let (d, s, keep) = kill_stale_lem ps w1 w' k in
      ((keep pid d1, d), ground arith, λ q x. keep q (keep1 q x))
]

module _ (scripts : Scripts) where
  read_after_stop :
      (w : Worker) (n : ℕ)
      → read_runtime_pids (stop_child_process (record w { restart_count = n }))
        ≡ read_runtime_pids w
  unfolding read_runtime_pids stop_child_process
  read_after_stop w n = ground arith

  -- What the worker keeps and what is gone when a restart comes to its start script.
  pub record CleanedUp (w w' : Worker) : Type 0 where
    pub child_stopped : child_alive w'.process ≡ outlasts w.process
    pub pids_gone : AllDead w'.probe (read_runtime_pids w)
    pub counted : w'.restart_count ≡ suc w.restart_count
    pub id_kept : w'.instance_id ≡ w.instance_id
    pub budget_kept : w'.restart_budget ≡ w.restart_budget
    pub timeout_kept : w'.heartbeat_stall_timeout_s ≡ w.heartbeat_stall_timeout_s

  -- Whatever the stop script did, after a clean-up that returns the child is dead, unless it outlasts
  -- both terminate() and SIGKILL, every process that the worker's own file named is dead, and one
  -- restart is counted.
  pub clean_up-CleanedUp : (w w' : Worker) → clean_up scripts w ≡ (w', ok tt) → CleanedUp w w'
  unfolding clean_up
  clean_up-CleanedUp w w' h =
      let w0 = record w { restart_count = suc w.restart_count } in
      let w1 = stop_child_process w0 in
      let w2 = record w1 { machine = (scripts.stop_worker w1.machine).0 } in
      let (child, same1) = stop_child_process_lem w0 in
      let (dead, same2, keep) = kill_stale_lem (read_runtime_pids w1) w2 w' h in
      record {
        child_stopped = ground (arith, child);
        pids_gone = subst (AllDead w'.probe) (read_after_stop w (suc w.restart_count)) dead;
        counted = ground arith;
        id_kept = ground arith;
        budget_kept = ground arith;
        timeout_kept = ground arith;
      }

Probe-cases : (p : Probe) → (p ≡ Probe.running) ⊎ ((p ≡ Probe.gone) ⊎ (p ≡ Probe.not_permitted))
Probe-cases Probe.running = inl refl
Probe-cases Probe.gone = inr (inl refl)
Probe-cases Probe.not_permitted = inr (inr refl)

abbrev without : ℕ → Worker → Worker
without pid w = record w { machine = record w.machine { probe = kill_probe w.probe pid } }

module _ (pid : ℕ) (ps : List (Option ℕ)) (w : Worker) where
  kill_running :
      w.probe pid ≡ Probe.running → kill_stale (some pid ∷ ps) w ≡ kill_stale ps (without pid w)
  unfolding kill_stale sigkill
  kill_running e = ground arith

  kill_gone : w.probe pid ≡ Probe.gone → kill_stale (some pid ∷ ps) w ≡ kill_stale ps w
  unfolding kill_stale
  kill_gone e = rw e

  kill_forbidden :
      w.probe pid ≡ Probe.not_permitted
      → kill_stale (some pid ∷ ps) w ≡ (w, err SupervisorError.permission_error)
  unfolding kill_stale sigkill
  kill_forbidden e = ground arith

-- The loop changes the machine alone, and can raise only PermissionError.
abbrev Kept : Worker → Worker × Result SupervisorError (Unit {0}) → Type 0
Kept w r = SameObject w r.0 × ((r.1 ≡ ok tt) ⊎ (r.1 ≡ err SupervisorError.permission_error))

kill_stale-Kept : (ps : List (Option ℕ)) (w : Worker) → Kept w (kill_stale ps w)
unfolding kill_stale
kill_stale-Kept [] w = (refl, inl refl)
kill_stale-Kept (none ∷ ps) w = kill_stale-Kept ps w
kill_stale-Kept (some pid ∷ ps) w = elim (Probe-cases (w.probe pid)) [
  | inl e ↦
      let (same, end) = kill_stale-Kept ps (without pid w) in
      subst (Kept w) (sym (kill_running pid ps w e)) (ground arith, end)
  | inr (inl e) ↦ subst (Kept w) (sym (kill_gone pid ps w e)) (kill_stale-Kept ps w)
  | inr (inr e) ↦ subst (Kept w) (sym (kill_forbidden pid ps w e)) (refl, inr refl)
]

module _ (scripts : Scripts) where
  -- What a call of `ensure_healthy` does.
  pub data Outcome (w : Worker) : Worker × Result SupervisorError Bool → Type 0 where
    healthy : is_healthy w ≡ true → Outcome w (w, ok false)
    exhausted :
        is_healthy w ≡ false
        → w.restart_budget ≤ w.restart_count
        → Outcome w (w, err SupervisorError.restart_budget_exhausted)
    restarted :
        {w1 w2 : Worker}
        → is_healthy w ≡ false
        → w.restart_count < w.restart_budget
        → CleanedUp scripts w w1
        → w2 ≡ (start scripts w1).0
        → Outcome w (w2, ok true)
    forbidden :
        {w1 : Worker}
        → is_healthy w ≡ false
        → w.restart_count < w.restart_budget
        → w1.restart_count ≡ suc w.restart_count
        → w1.restart_budget ≡ w.restart_budget
        → Outcome w (w1, err SupervisorError.permission_error)

  clean_up_counts :
      (w : Worker)
      → ((clean_up scripts w).0.restart_count ≡ suc w.restart_count)
        × ((clean_up scripts w).0.restart_budget ≡ w.restart_budget)
        × (((clean_up scripts w).1 ≡ ok tt)
            ⊎ ((clean_up scripts w).1 ≡ err SupervisorError.permission_error))
  unfolding clean_up
  clean_up_counts w =
      let w0 = record w { restart_count = suc w.restart_count } in
      let w1 = stop_child_process w0 in
      let w2 = record w1 { machine = (scripts.stop_worker w1.machine).0 } in
      let (child, same1) = stop_child_process_lem w0 in
      let (same2, end) = kill_stale-Kept (read_runtime_pids w1) w2 in
      (ground arith, ground arith, end)

  module _ (w : Worker) where
    runs_healthy : is_healthy w ≡ true → ensure_healthy scripts w ≡ (w, ok false)
    unfolding ensure_healthy
    runs_healthy h = rw h

    runs_exhausted :
        is_healthy w ≡ false
        → leb w.restart_budget w.restart_count ≡ true
        → ensure_healthy scripts w ≡ (w, err SupervisorError.restart_budget_exhausted)
    unfolding ensure_healthy
    runs_exhausted h b = rw (h, b)

    runs_restart :
        is_healthy w ≡ false
        → leb w.restart_budget w.restart_count ≡ false
        → ensure_healthy scripts w
          ≡ (clean_up scripts >>= λ _. try_start scripts >>= λ _. pure true) w
    unfolding ensure_healthy
    runs_restart h b = rw (h, b)

    after_clean_up :
        (w1 : Worker)
        → clean_up scripts w ≡ (w1, ok tt)
        → (clean_up scripts >>= λ _. try_start scripts >>= λ _. pure true) w
          ≡ ((start scripts w1).0, ok true)
    unfolding try_start
    after_clean_up w1 e = ground arith

    after_failure :
        (w1 : Worker) (x : SupervisorError)
        → clean_up scripts w ≡ (w1, err x)
        → (clean_up scripts >>= λ _. try_start scripts >>= λ _. pure true) w ≡ (w1, err x)
    after_failure w1 x e = ground arith

    -- A healthy worker is left as it is. An unhealthy one whose restart budget is used up raises
    -- RestartBudgetExhausted and is left as it is. Any other uses up one restart: its child, if it
    -- does not outlast both signals, and the processes in its file are dead before the start script
    -- runs, whose failure is passed over, or the call raises PermissionError.
    pub ensure_healthy-Outcome : Outcome w (ensure_healthy scripts w)
    ensure_healthy-Outcome = elim (Bool-cases (is_healthy w)) [
      | inl h ↦ subst (Outcome w) (sym (runs_healthy h)) (healthy h)
      | inr h ↦ elim (Bool-cases (leb w.restart_budget w.restart_count)) [
        | inl b ↦ subst (Outcome w) (sym (runs_exhausted h b)) (exhausted h (leb→le _ _ b))
        | inr b ↦
            let (counted, budget, end) = clean_up_counts w in
            let room : w.restart_count < w.restart_budget = ground arith in
            subst (Outcome w) (sym (runs_restart h b)) (elim end [
              | inl e ↦
                  let w1 = (clean_up scripts w).0 in
                  let q : clean_up scripts w ≡ (w1, ok tt) = ap (λ r. (w1, r)) e in
                  subst (Outcome w) (sym (after_clean_up w1 q))
                    (restarted h room (clean_up-CleanedUp scripts w w1 q) refl)
              | inr e ↦
                  let w1 = (clean_up scripts w).0 in
                  let q : clean_up scripts w ≡ (w1, err SupervisorError.permission_error) =
                    ap (λ r. (w1, r)) e in
                  subst (Outcome w) (sym (after_failure w1 SupervisorError.permission_error q))
                    (forbidden h room counted budget)
            ])
      ]
    ]
