-- ===== src/Farm/Closing.antt =====
-- experiments/sim_farm.py: what SimFarm.__exit__ leaves.
use aero_safe_rl.Base.{
  ap, is_some, err, Result, if◌then◌else◌, Option, none, some, Option-cases, ◌≡◌, refl, sym, ◌∙◌,
  ◌⊎◌, inl, inr, ◌↔◌, List, [], ◌∷◌, Bool, true, All, Bool-cases, Result-cases, ok, arith,
}
use aero_safe_rl.Farm.Supervisor.{
  SupervisorError, Worker, Scripts, Machine, RuntimePids, child_alive, stop_child_process,
}
use aero_safe_rl.Farm.Supervisor
use aero_safe_rl.Farm.Supervisor.Restart.{outlasts, stop_child_process_lem}
use aero_safe_rl.Farm.Defs.{Farm, FarmConfig}
use aero_safe_rl.Farm.Run.{stop_all, exit}

List-cases {ℓ} : {A : Type ℓ} (xs : List A) → (xs ≡ []) ⊎ ((y : A) × (ys : List A) × (xs ≡ y ∷ ys))
List-cases [] = inl refl
List-cases (y ∷ ys) = inr (y, ys, refl)

module _ (c : FarmConfig) (scripts : Scripts) where
  -- The machine after the stop script, which is run if there is an instance file.
  abbrev pub after_script : Option RuntimePids → Machine → Machine
  after_script none m = m
  after_script (some _) m = (scripts.stop_worker m).0

  abbrev pub script_ok : Option RuntimePids → Machine → Bool
  script_ok none m = true
  script_ok (some _) m = (scripts.stop_worker m).1

  -- A worker is stopped: its child is dead unless it outlasts both signals, and the stop script has
  -- been run on its machine if there was an instance file.
  abbrev pub Halted : Worker → Worker → Type 0
  Halted w w' =
      (child_alive w'.process ≡ outlasts w.process)
      × (w'.machine ≡ after_script w.instance_file w.machine)

  abbrev pub AllHalted : List Worker → List Worker → Type 0
  AllHalted [] [] = Unit
  AllHalted (w ∷ ws) (w' ∷ ws') = Halted w w' × AllHalted ws ws'
  AllHalted _ _ = ⊥

  -- No stop script that is run fails.
  abbrev pub ScriptsSucceed : List Worker → Type 0
  ScriptsSucceed = All (λ (w : Worker). script_ok w.instance_file w.machine ≡ true)

  -- What `stop` does once the child is dealt with.
  abbrev after_child : Worker → Worker × Result SupervisorError (Unit {0})
  after_child w =
      if is_some w.instance_file
      then (let (m, stopped) = scripts.stop_worker w.machine in
          (
            record w { machine = m },
            if stopped then ok tt else err SupervisorError.worker_supervisor_error,
          ))
      else (w, ok tt)

  after_child_lem :
      (w : Worker)
      → ((after_child w).0.process ≡ w.process)
        × ((after_child w).0.machine ≡ after_script w.instance_file w.machine)
        × (((after_child w).1 ≡ ok tt) ↔ (script_ok w.instance_file w.machine ≡ true))
  after_child_lem w = elim (Option-cases w.instance_file) [
    | inl e ↦
        (ground (arith, e), ground (arith, e), (λ h. ground (arith, e), λ h. ground (arith, e)))
    | inr (pids, e) ↦ (
      ground (arith, e),
      ground (arith, e),
      (λ h. ground (arith, e, h), λ h. ground (arith, e, h)),
    )
  ]

  stop_lem :
      (w : Worker)
      → Halted w (Supervisor.stop scripts w).0
        × (((Supervisor.stop scripts w).1 ≡ ok tt) ↔ (script_ok w.instance_file w.machine ≡ true))
  unfolding Supervisor.stop
  stop_lem w =
      let (child, same) = stop_child_process_lem w in
      let kept : (stop_child_process w).machine ≡ w.machine = ap (λ w. w.machine) same in
      let (process, machine, (there, back)) = after_child_lem (stop_child_process w) in
      let ok_eq = ap (λ (m : Machine). script_ok m.instance_file m) kept in
      (
        (
          ap child_alive process ∙ child,
          machine ∙ ap (λ (m : Machine). after_script m.instance_file m) kept,
        ),
        (λ h. sym ok_eq ∙ there h, λ h. back (ok_eq ∙ h)),
      )

  stop_all-Halted : (ws : List Worker) → AllHalted ws (stop_all c scripts ws).0
  unfolding stop_all
  stop_all-Halted [] = tt
  stop_all-Halted (w ∷ ws) = ((stop_lem w).0, stop_all-Halted ws)

  stop_all_iff : (ws : List Worker) → ((stop_all c scripts ws).1 ≡ []) ↔ ScriptsSucceed ws
  unfolding stop_all
  stop_all_iff [] = (λ _. tt, λ _. refl)
  stop_all_iff (w ∷ ws) =
      let (there, back) = (stop_lem w).1 in
      elim (Result-cases (Supervisor.stop scripts w).1) [
        | inl (_, e) ↦
            rw (e, stop_all) (λ h. (there e, (stop_all_iff ws).0 h), λ h. (stop_all_iff ws).1 h.1)
        | inr (x, e) ↦ rw (e, stop_all) (λ h. cc, λ h. absurd (cc (sym e ∙ back h.0)))
      ]

  -- Leaving the farm stops every worker, also those after one whose stop fails: no child lives on but
  -- one that outlasts both terminate() and SIGKILL, and the stop script has been run for each worker
  -- that has an instance file. It raises exactly if such a script failed and nothing else was raised
  -- before: an earlier error is never replaced.
  pub exit-Halted :
      (raised : Bool) (f : Farm)
      → AllHalted f.supervisors (exit c scripts raised f).0.supervisors
        × (((exit c scripts raised f).1 ≡ ok tt) ↔ ((raised ≡ true) ⊎ ScriptsSucceed f.supervisors))
  unfolding exit
  exit-Halted raised f =
      let ws = f.supervisors in
      let halted = stop_all-Halted ws in
      let (there, back) = stop_all_iff ws in
      elim (List-cases (stop_all c scripts ws).1) [
        | inl e ↦ rw (e, exit) (halted, (λ _. inr (there e), λ _. refl))
        | inr (x, xs, e) ↦ elim (Bool-cases raised) [
          | inl r ↦ rw (e, r, exit) (halted, (λ _. inl refl, λ _. refl))
          | inr r ↦
              rw (e, r, exit)
                (
                  halted,
                  (λ h. cc, λ h. elim h [ inl q ↦ cc | inr all ↦ absurd (cc (sym e ∙ back all)) ]),
                )
        ]
      ]
