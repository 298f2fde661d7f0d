-- ===== src/Tests/Workers.antt =====
-- A supervised worker at concrete inputs.
use aero_safe_rl.Base.{◌+◌, ◌≤◌, ◌≡◌, refl, ◌==◌, if◌then◌else◌, some, true, false, ok, arith}
use aero_safe_rl.Farm.Supervisor.{
  Worker, Machine, Scripts, Child, Probe, Heartbeat, heartbeat_stale, is_healthy,
  stop_child_process, sigkill, kill_stale, pid_alive, read_runtime_pids, clean_up, try_start,
  ensure_healthy,
}
use aero_safe_rl.Farm.Supervisor.Restart.{
  CleanedUp, Outcome, clean_up-CleanedUp, ensure_healthy-Outcome,
}
use aero_safe_rl.Farm.Supervisor.Budget.{unpolled, poll, restarts_within_budget}

-- Process 11 runs, 12 and 13 are gone; the heartbeat is a minute old.
abbrev pub machine : Machine
machine = record {
  instance_file = some (record { pid_gz = some 11; pid_agent = some 12; pid_px4 = some 13 });
  heartbeat = some (Heartbeat.t_wall 1000000);
  probe = λ pid. if pid == 11 then Probe.running else Probe.gone;
  now = 61000000;
}

abbrev pub worker : Worker
worker = record {
  instance_id = 0;
  heartbeat_stall_timeout_s = 45000000;
  restart_budget = 2;
  process = some (record { is_alive = true; obeys_terminate = false; obeys_sigkill = true });
  restart_count = 0;
  machine = machine;
}

abbrev pub scripts : Scripts
scripts = record {
  start_worker = λ m. (record m { now = m.now + 5000000 }, true);
  stop_worker = λ m. (m, false);
}

ensure_healthy-Outcome_example : Outcome scripts worker (ensure_healthy scripts worker)
ensure_healthy-Outcome_example = ensure_healthy-Outcome scripts worker

abbrev cleaned : Worker
cleaned = (clean_up scripts worker).0

worker-cleaned : clean_up scripts worker ≡ (cleaned, ok tt)
unfolding clean_up sigkill kill_stale stop_child_process read_runtime_pids
worker-cleaned = refl

clean_up-CleanedUp_example : CleanedUp scripts worker cleaned
clean_up-CleanedUp_example = clean_up-CleanedUp scripts worker cleaned worker-cleaned

abbrev restarted_worker : Worker
restarted_worker = (ensure_healthy scripts worker).0

worker_restarts : ensure_healthy scripts worker ≡ (restarted_worker, ok true)
unfolding ensure_healthy is_healthy heartbeat_stale pid_alive clean_up sigkill kill_stale
    stop_child_process read_runtime_pids try_start
worker_restarts = refl

restarts_within_budget_example :
    (restarted_worker.restart_count ≡ 0 + 1)
    × (restarted_worker.restart_count ≤ 2)
    × (restarted_worker.restart_budget ≡ 2)
restarts_within_budget_example =
    restarts_within_budget scripts (omega arith) (poll unpolled worker_restarts)

abbrev new_child : Child
new_child = record { is_alive = true; obeys_terminate = true; obeys_sigkill = true }
