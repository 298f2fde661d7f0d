-- ===== src/Farm/Supervisor/Defs.antt =====
-- experiments/worker_supervisor.py: the supervisor's state, what it sees of the machine, and its
-- methods. Wall time is in microseconds.
use aero_safe_rl.Base.{
  ℕ, suc, ◌+◌, Option, none, some, Bool, true, false, not, ◌&&◌, List, [], ◌∷◌, ltb, leb, ◌==◌,
  is_some, all_of, ok, err, if◌then◌else◌,
}
use aero_safe_rl.Base.Methods.{Method, ◌>>=◌, pure}

pub data SupervisorError : Type 0 where
  worker_supervisor_error restart_budget_exhausted permission_error : SupervisorError

-- What a zero-signal kill of a pid meets: a process, ProcessLookupError or PermissionError.
pub data Probe : Type 0 where
  running gone not_permitted : Probe

-- `runtime` of instance_<N>.json.
pub record RuntimePids : Type 0 where
  pub pid_gz : Option ℕ
  pub pid_agent : Option ℕ
  pub pid_px4 : Option ℕ

-- The heartbeat file: unreadable, or the `t_wall` it holds (0 if that key is missing).
pub data Heartbeat : Type 0 where
  unreadable : Heartbeat
  t_wall : ℕ → Heartbeat

-- A handle of the child's process, and whether the child would exit on terminate() and on SIGKILL
-- before the join's timeout.
pub record Child : Type 0 where
  pub is_alive : Bool
  pub obeys_terminate : Bool
  pub obeys_sigkill : Bool

-- What the supervisor reads and changes outside its own process: the worker's files, what a
-- zero-signal kill of a pid meets, and the wall clock.
pub record Machine : Type 0 where
  pub instance_file : Option RuntimePids
  pub heartbeat : Option Heartbeat
  pub probe : ℕ → Probe
  pub now : ℕ

-- A WorkerSupervisor, with the machine it runs on.
pub record Worker : Type 0 where
  pub instance_id : ℕ
  pub heartbeat_stall_timeout_s : ℕ
  pub restart_budget : ℕ
  pub process : Option Child
  pub restart_count : ℕ
  pub machine : Machine
  pub open machine use *

abbrev pub Call : Type 0 → Type 0
Call A = Method SupervisorError Worker A

-- The shell scripts behind simulation/worker_process.py: a script changes the machine and
-- succeeds, or fails, which raises WorkerProcessError.
pub record Scripts : Type 0 where
  pub start_worker : Machine → Machine × Bool
  pub stop_worker : Machine → Machine × Bool

abbrev pub alive_probe : Probe → Bool
alive_probe Probe.running = true
alive_probe Probe.gone = false
alive_probe Probe.not_permitted = true

-- `_pid_alive`
unfoldable pub pid_alive : (ℕ → Probe) → Option ℕ → Bool
pid_alive probe none = false
pid_alive probe (some pid) = alive_probe (probe pid)

abbrev pub no_pids : RuntimePids
no_pids = record { pid_gz = none; pid_agent = none; pid_px4 = none }

-- `_read_runtime_pids`, the values in order.
unfoldable pub read_runtime_pids : Worker → List (Option ℕ)
read_runtime_pids w =
    let pids : RuntimePids = elim w.instance_file [ none ↦ no_pids | some p ↦ p ] in
    pids.pid_gz ∷ pids.pid_agent ∷ pids.pid_px4 ∷ []

-- `_heartbeat_age_s(...)` is not None and is above the timeout. An age is a difference of two
-- wall-clock readings, so the test is moved to one side.
unfoldable pub heartbeat_stale : Worker → Bool
heartbeat_stale w = elim w.heartbeat [
  | none ↦ false
  | some h ↦ elim h [ unreadable ↦ false | t_wall t ↦ ltb (w.heartbeat_stall_timeout_s + t) w.now ]
]

abbrev pub child_alive : Option Child → Bool
child_alive none = false
child_alive (some c) = c.is_alive

unfoldable pub is_healthy : Worker → Bool
unfolding read_runtime_pids heartbeat_stale pid_alive
is_healthy w =
    if is_some w.process && not (child_alive w.process)
    then false
    else if not (child_alive w.process) && not (all_of (pid_alive w.probe) (read_runtime_pids w))
    then false
    else not (heartbeat_stale w)

-- `terminate()` and `join`, then SIGKILL and `join` if the child is still there.
unfoldable pub stop_child_process : Worker → Worker
stop_child_process w = elim w.process [
  | none ↦ w
  | some c ↦
      if not c.is_alive
      then w
      else let after_terminate = record c { is_alive = not c.obeys_terminate } in
        if after_terminate.is_alive
        then record w { process = some (record after_terminate { is_alive = not c.obeys_sigkill }) }
        else record w { process = some after_terminate }
]

abbrev pub kill_probe : (ℕ → Probe) → ℕ → ℕ → Probe
kill_probe probe pid q = if q == pid then Probe.gone else probe q

-- `os.kill(pid, SIGKILL)` where ProcessLookupError is passed over.
unfoldable pub sigkill : ℕ → Call (Unit {0})
sigkill pid w = elim (w.probe pid) [
  | running ↦ (record w { machine = record w.machine { probe = kill_probe w.probe pid } }, ok tt)
  | gone ↦ (w, ok tt)
  | not_permitted ↦ (w, err SupervisorError.permission_error)
]

-- The loop over `stale_pids`.
unfoldable pub kill_stale : List (Option ℕ) → Call (Unit {0})
kill_stale [] w = (w, ok tt)
kill_stale (none ∷ ps) w = kill_stale ps w
kill_stale (some pid ∷ ps) w =
    (if alive_probe (w.probe pid) then sigkill pid >>= (λ _. kill_stale ps) else kill_stale ps) w

module _ (scripts : Scripts) where
  -- Clears the heartbeat file, then runs the start script.
  unfoldable pub start : Call (Unit {0})
  start w =
      let (m, started) = scripts.start_worker (record w.machine { heartbeat = none }) in
      (
        record w { machine = m },
        if started then ok tt else err SupervisorError.worker_supervisor_error,
      )

  unfoldable pub stop : Call (Unit {0})
  unfolding stop_child_process
  stop w =
      let w1 = stop_child_process w in
      if is_some w1.instance_file
      then (let (m, stopped) = scripts.stop_worker w1.machine in
          (
            record w1 { machine = m },
            if stopped then ok tt else err SupervisorError.worker_supervisor_error,
          ))
      else (w1, ok tt)

  -- From the decision to restart up to the new start.
  unfoldable pub clean_up : Call (Unit {0})
  unfolding stop_child_process read_runtime_pids kill_stale
  clean_up w =
      let w1 = stop_child_process (record w { restart_count = suc w.restart_count }) in
      let stale_pids = read_runtime_pids w1 in
      let w2 = record w1 { machine = (scripts.stop_worker w1.machine).0 } in
      kill_stale stale_pids w2

  -- `try: self.start() except WorkerSupervisorError: print(...)`
  unfoldable pub try_start : Call (Unit {0})
  unfolding start
  try_start w = ((start w).0, ok tt)

  unfoldable pub ensure_healthy : Call Bool
  ensure_healthy w =
      if is_healthy w
      then (w, ok false)
      else if leb w.restart_budget w.restart_count
      then (w, err SupervisorError.restart_budget_exhausted)
      else (clean_up >>= λ _. try_start >>= λ _. pure true) w
