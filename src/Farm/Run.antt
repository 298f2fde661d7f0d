-- ===== src/Farm/Run.antt =====
-- experiments/sim_farm.py: SimFarm's restarts, its start and stop, and the loop of `run`.
use aero_safe_rl.Base.{
  ℕ, zero, suc, ◌+◌, ◌-◌, ◌*◌, List, [], ◌∷◌, ◌++◌, none, some, Bool, true, false, not, ◌&&◌, ltb,
  leb, ◌==◌, get_elem?, length, all_of, ok, err, if◌then◌else◌,
}
use aero_safe_rl.Base.Methods.{◌>>=◌, ◌>>◌, pure}
use aero_safe_rl.Base.Dict.{get, sum_values}
use aero_safe_rl.Policy.Action.{one}
use aero_safe_rl.Farm.Manifest.{finalize}
use aero_safe_rl.Farm.Supervisor.{
  SupervisorError, Worker, Child, Scripts, child_alive, ensure_healthy,
}
use aero_safe_rl.Farm.Supervisor
use aero_safe_rl.Farm.Defs.{
  FarmError, FarmConfig, Farm, Call, drain_queue, synthesize_lost_episode_record,
  record_farm_restart,
}

-- `supervisors[k]`, and that supervisor's new state.
abbrev pub set_at : {A : Type 0} → ℕ → A → List A → List A
set_at k a [] = []
set_at zero a (x ∷ xs) = a ∷ xs
set_at (suc k) a (x ∷ xs) = x ∷ set_at k a xs

abbrev pub with_worker : {A : Type 0} → ℕ → (Worker → Call A) → Call A
with_worker k g f = elim (get_elem? f.supervisors k) [
  | none ↦ (f, err FarmError.index_error)
  | some w ↦ g w f
]

abbrev pub live_child : Child
live_child = record { is_alive = true; obeys_terminate = true; obeys_sigkill = true }

-- `_spawn_worker`: a process for the rest of the worker's episodes becomes the worker's child.
unfoldable pub spawn_worker : ℕ → Worker → ℕ → ℕ → Farm → Farm
spawn_worker k w start_index n_episodes f = record f {
  supervisors = set_at k (record w { process = some live_child }) f.supervisors;
  jobs =
      f.jobs
      ++ record {
        worker_id = w.instance_id;
        next_index = start_index;
        end_index = start_index + n_episodes;
      }
        ∷ [];
}

module _ (c : FarmConfig) where
  -- `total_restarts / total_planned > threshold`, cleared of the division.
  unfoldable pub over_restart_rate : Farm → Bool
  over_restart_rate f =
      let total_planned = c.worker_count * c.n_episodes_per_worker in
      ltb 0 total_planned
      && ltb (c.restart_rate_abort_threshold * total_planned)
          (sum_values ◌==◌ f.restart_counts * one)

  -- `if remaining > 0: self._spawn_worker(...)`, in `_on_restart` and at the start of `run`.
  unfoldable pub spawn_remaining : ℕ → Worker → Call (Unit {0})
  unfolding spawn_worker
  spawn_remaining k w f = elim (get ◌==◌ w.instance_id f.completed_per_worker) [
    | none ↦ (f, err FarmError.key_error)
    | some completed ↦
        if ltb completed c.n_episodes_per_worker
        then (spawn_worker k w completed (c.n_episodes_per_worker - completed) f, ok tt)
        else (f, ok tt)
  ]

  unfoldable pub check_rate : Call (Unit {0})
  unfolding over_restart_rate
  check_rate f = if over_restart_rate f then (f, err FarmError.restart_rate) else (f, ok tt)

  unfoldable pub on_restart : ℕ → Call (Unit {0})
  unfolding spawn_remaining check_rate
  on_restart k = with_worker k λ w.
      synthesize_lost_episode_record c w.instance_id
      >> record_farm_restart w.instance_id
      >> check_rate
      >> spawn_remaining k w

  module _ (scripts : Scripts) where
    abbrev farm_error : SupervisorError → FarmError
    farm_error SupervisorError.restart_budget_exhausted = FarmError.budget_exhausted
    farm_error e = FarmError.supervisor_error e

    -- `sup.ensure_healthy()`, where RestartBudgetExhausted becomes SimFarmError.
    unfoldable pub ensure_worker : ℕ → Call Bool
    ensure_worker k = with_worker k λ w f.
        let (w', r) = ensure_healthy scripts w in
        (
          record f { supervisors = set_at k w' f.supervisors },
          elim r [ ok b ↦ ok b | err e ↦ err (farm_error e) ],
        )

    unfoldable pub restart_and_resume : ℕ → Call (Unit {0})
    unfolding ensure_worker on_restart
    restart_and_resume k = ensure_worker k >>= λ _. on_restart k

    -- The first loop's body: a child that exited before its quota was done.
    unfoldable pub revive : ℕ → Call (Unit {0})
    unfolding restart_and_resume
    revive k = with_worker k λ w f. elim w.process [
      | none ↦ (f, ok tt)
      | some p ↦
          if p.is_alive then (f, ok tt) else elim (get ◌==◌ w.instance_id f.completed_per_worker) [
            | none ↦ (f, err FarmError.key_error)
            | some completed ↦
                if leb c.n_episodes_per_worker completed then (f, ok tt) else restart_and_resume k f
          ]
    ]

    -- The second loop's body: a child that runs is checked, and restarted if it hangs.
    unfoldable pub check_health : ℕ → Call (Unit {0})
    unfolding ensure_worker on_restart
    check_health k = with_worker k λ w f.
        if not (child_alive w.process)
        then (f, ok tt)
        else (ensure_worker k >>= λ restarted. if restarted then on_restart k else pure tt) f

    -- `for sup in self.supervisors`: the positions from `k` on.
    abbrev pub each : ℕ → ℕ → (ℕ → Call (Unit {0})) → Call (Unit {0})
    each zero k body f = (f, ok tt)
    each (suc n) k body f = (body k >>= λ _. each n (suc k) body) f

    abbrev pub all_over : Farm → Bool
    all_over f = all_of (λ w. not (child_alive w.process)) f.supervisors

    unfoldable pub finish : ℕ → Farm → Farm
    finish now f = let m = finalize now f.manifest in record f { manifest = m; manifest_file = m }

    -- One round of `while True`, up to its sleep; `true` is the `break`. `now` is the monotonic
    -- clock, against the deadline.
    unfoldable pub round : ℕ → ℕ → Call Bool
    unfolding revive check_health finish
    round deadline now = drain_queue >>= λ _ f.
        if all_over f
        then (drain_queue >>= λ _ g. (finish now g, ok true)) f
        else if ltb deadline now
        then (f, err FarmError.watchdog)
        else (each (length f.supervisors) 0 revive >>= λ _.
              each (length f.supervisors) 0 check_health >>= λ _. pure false)
            f

    -- `_start_with_retries` with the attempts that are left.
    unfoldable pub start_with_retries : ℕ → ℕ → Call (Unit {0})
    start_with_retries zero k = with_worker k λ w f. (f, err FarmError.start_failed)
    start_with_retries (suc n) k = with_worker k λ w f.
        let (w', r) = Supervisor.start scripts w in
        let f' = record f { supervisors = set_at k w' f.supervisors } in
        let again = start_with_retries n k f' in
        elim r [
          | ok _ ↦ (f', ok tt)
          | err e ↦ elim e [
            | SupervisorError.worker_supervisor_error ↦ again
            | SupervisorError.restart_budget_exhausted ↦ again
            | SupervisorError.permission_error ↦
                (f', err (FarmError.supervisor_error SupervisorError.permission_error))
          ]
        ]

    unfoldable pub enter : Call (Unit {0})
    unfolding start_with_retries
    enter f = each (length f.supervisors) 0 (start_with_retries 3) f

    -- `__exit__`'s loop: every worker gets a stop attempt; the ids of those that failed.
    unfoldable pub stop_all : List Worker → List Worker × List ℕ
    stop_all [] = ([], [])
    stop_all (w ∷ ws) =
        let (w', r) = Supervisor.stop scripts w in
        let (ws', failed) = stop_all ws in
        (w' ∷ ws', elim r [ ok _ ↦ failed | err _ ↦ w.instance_id ∷ failed ])

    -- `raised` tells whether the block of the `with` raised.
    unfoldable pub exit : Bool → Call (Unit {0})
    unfolding stop_all
    exit raised f =
        let (ws, failed) = stop_all f.supervisors in
        let f' = record f { supervisors = ws } in
        elim failed [
          | [] ↦ (f', ok tt)
          | _ ∷ _ ↦ if raised then (f', ok tt) else (f', err FarmError.stop_failed)
        ]
