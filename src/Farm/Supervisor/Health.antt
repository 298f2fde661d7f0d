-- ===== src/Farm/Supervisor/Health.antt =====
-- experiments/worker_supervisor.py: when a worker counts as healthy.
use aero_safe_rl.Base.{◌≡◌, ◌⊎◌, ◌↔◌, none, true, false, all_of, arith}
use aero_safe_rl.Farm.Supervisor.Defs.{
  Worker, child_alive, pid_alive, read_runtime_pids, heartbeat_stale, is_healthy,
}

-- A live child is trusted; with no child yet, the three processes have to be there.
abbrev pub Driven : Worker → Type 0
Driven w =
    (child_alive w.process ≡ true)
    ⊎ ((w.process ≡ none) × (all_of (pid_alive w.probe) (read_runtime_pids w) ≡ true))

-- A worker is healthy exactly when it has a live child, or no child yet and three live processes,
-- and it has no heartbeat older than the stall timeout; the processes of a worker with a live child
-- do not matter, and a dead child is never healthy.
pub is_healthy_iff : (w : Worker) → (is_healthy w ≡ true) ↔ (Driven w × (heartbeat_stale w ≡ false))
unfolding is_healthy
is_healthy_iff w = (there, back)
  where
    there : is_healthy w ≡ true → Driven w × (heartbeat_stale w ≡ false)
    there h = ground arith

    back : Driven w × (heartbeat_stale w ≡ false) → is_healthy w ≡ true
    back h = ground arith
