-- ===== src/Runner/Profile.antt =====
-- experiments/episode_runner.py and experiments/fault_schedule.py: the commands of a flight follow
-- the fault's time profile.
use mathlib.Core.Path.{subst}
use aero_safe_rl.Base.{
  ℕ, ◌≤◌, ◌≡◌, refl, sym, ap, ◌∙◌, ◌⊎◌, inl, inr, List, [], ◌∷◌, ◌++◌, Option, none, some, or_else,
  is_some, true, false, ℤ, sub_ℕ, Bool-cases, Option-cases, arith, if◌then◌else◌,
}
use aero_safe_rl.Faults.{FaultSpec, step, ramp, commanded_severity}
use aero_safe_rl.Runner.Drive.{FaultState, RotorCommand, Tick, command, drive_tick, drive_ticks}
use aero_safe_rl.Runner.Onset.{
  first, onset_tick, NotAfter, Ordered, latest, asked, whole_severity, due, onset_elapsed,
}
use aero_safe_rl.Runner.Commands.{
  SameDrive, under_way, tick_due, tick_early, command_start, command_again, command_once,
  command_ramp,
}

module _ (spec : FaultSpec) (onset : ℤ) where
  -- The state and the commands after a flight's ticks, by the ticks alone.
  record Following (xs : List Tick) : Type 0 where
    start_eq : (drive_ticks spec onset xs).0.mission_start_t_sim_s ≡ first xs
    stepped :
        spec.profile ≡ step
        → ((drive_ticks spec onset xs).0.commanded ≡ is_some (onset_tick onset xs))
          × (latest (drive_ticks spec onset xs).1 ≡ (
              if is_some (onset_tick onset xs)
              then some (spec.rotor_index, spec.severity)
              else none))
    ramped :
        spec.profile ≡ ramp
        → ((drive_ticks spec onset xs).0.ramp_start_t_sim_s ≡ onset_tick onset xs)
          × (onset_tick onset xs ≡ none → latest (drive_ticks spec onset xs).1 ≡ none)

  module _ (x : Tick) (xs : List Tick) (k : NotAfter xs x.0) (o : Ordered xs)
      (f : Following xs) where
    abbrev before : FaultState
    before = (drive_ticks spec onset xs).0

    abbrev now : FaultState × List RotorCommand
    now = drive_ticks spec onset (x ∷ xs)

    due_eq : due onset x.0 before.mission_start_t_sim_s ≡ due onset x.0 (first xs)
    due_eq = ap (λ s. due onset x.0 s) f.start_eq

    -- The onset's tick was before, or is this one, or is still to come.
    onset_cases :
        ((o' : ℕ) × (onset_tick onset xs ≡ some o')
          × (o' ≤ x.0)
          × (due onset x.0 (first xs) ≡ true))
        ⊎ ((onset_tick onset xs ≡ none) × (due onset x.0 (first xs) ≡ true))
        ⊎ ((onset_tick onset xs ≡ none) × (due onset x.0 (first xs) ≡ false))
    onset_cases = elim (Option-cases (onset_tick onset xs)) [
      | inr (o', q) ↦ let (le, d) = onset_elapsed onset xs o' x.0 o k q in inl (o', q, le, d)
      | inl q ↦ elim (Bool-cases (due onset x.0 (first xs))) [
        | inl d ↦ inr (inl (q, d))
        | inr d ↦ inr (inr (q, d))
      ]
    ]

    abbrev ticked : FaultState × List RotorCommand
    ticked = drive_tick spec onset x before

    now_eq : now ≡ (ticked.0, ticked.1 ++ (drive_ticks spec onset xs).1)
    unfolding drive_ticks
    now_eq = refl

    start_lem : now.0.mission_start_t_sim_s ≡ first (x ∷ xs)
    start_lem =
        let whole : (under_way spec onset x.0 before).mission_start_t_sim_s ≡ first (x ∷ xs) =
          ap (λ s. some (or_else s x.0)) f.start_eq in
        ap (λ r. r.0.mission_start_t_sim_s) now_eq
        ∙ elim (Bool-cases (due onset x.0 before.mission_start_t_sim_s)) [
          | inl d ↦
              (tick_due spec onset x before d).1.start_eq
              ∙ command_start spec onset spec.profile x.0 (under_way spec onset x.0 before)
              ∙ whole
          | inr d ↦ (tick_early spec onset x before d).1.start_eq ∙ whole
        ]

    -- The commands after a tick at or after the onset, and before it.
    due_lem :
        due onset x.0 (first xs) ≡ true
        → let r = command spec spec.profile x.0 (under_way spec onset x.0 before) in
          (now.1 ≡ r.1 ++ (drive_ticks spec onset xs).1) × SameDrive now.0 r.0
    due_lem d =
        let (cs, same) = tick_due spec onset x before (due_eq ∙ d) in
        (
          ap (λ r. r.1) now_eq ∙ ap (λ c. c ++ (drive_ticks spec onset xs).1) cs,
          subst
              (λ n. SameDrive n (command spec spec.profile x.0 (under_way spec onset x.0 before)).0)
              (sym (ap (λ r. r.0) now_eq)) same,
        )

    early_lem :
        due onset x.0 (first xs) ≡ false
        → (now.1 ≡ (drive_ticks spec onset xs).1)
          × SameDrive now.0 (under_way spec onset x.0 before)
    early_lem d =
        let (cs, same) = tick_early spec onset x before (due_eq ∙ d) in
        (
          ap (λ r. r.1) now_eq ∙ ap (λ c. c ++ (drive_ticks spec onset xs).1) cs,
          subst (λ n. SameDrive n (under_way spec onset x.0 before)) (sym (ap (λ r. r.0) now_eq))
              same,
        )

    abbrev sent : List RotorCommand
    sent = (drive_ticks spec onset xs).1

    step_lem :
        spec.profile ≡ step
        → (now.0.commanded ≡ is_some (onset_tick onset (x ∷ xs)))
          × (latest now.1 ≡ (
              if is_some (onset_tick onset (x ∷ xs))
              then some (spec.rotor_index, spec.severity)
              else none))
    step_lem p =
        let (was, told) = f.stepped p in
        let s = under_way spec onset x.0 before in
        let known = λ (t : Option ℕ) (q : onset_tick onset xs ≡ t).
          told ∙ ap (λ o. if is_some o then some (spec.rotor_index, spec.severity) else none) q in
        elim onset_cases [
          | inl (o', q, le, d) ↦
              let (cs, same) = due_lem d in
              let e = command_again spec onset spec.profile x.0 s p (was ∙ ap is_some q) in
              rw q (
                same.commanded_eq ∙ ap (λ r. r.0.commanded) e ∙ was ∙ ap is_some q,
                ap latest (cs ∙ ap (λ r. r.1 ++ sent) e) ∙ known (some o') q,
              )
          | inr (inl (q, d)) ↦
              let (cs, same) = due_lem d in
              let e = command_once spec onset spec.profile x.0 s p (was ∙ ap is_some q) in
              rw (q, d)
                (
                  same.commanded_eq ∙ ap (λ r. r.0.commanded) e,
                  ap latest (cs ∙ ap (λ r. r.1 ++ sent) e),
                )
          | inr (inr (q, d)) ↦
              let (cs, same) = early_lem d in
              rw (q, d) (same.commanded_eq ∙ was ∙ ap is_some q, ap latest cs ∙ known none q)
        ]

    ramp_lem :
        spec.profile ≡ ramp
        → (now.0.ramp_start_t_sim_s ≡ onset_tick onset (x ∷ xs))
          × (latest now.1 ≡ asked spec x.0 (onset_tick onset (x ∷ xs)))
    ramp_lem p =
        let (was, told) = f.ramped p in
        let s = under_way spec onset x.0 before in
        elim onset_cases [
          | inl (o', q, le, d) ↦
              let (cs, same) = due_lem d in
              let e =
                command_ramp spec onset spec.profile x.0 o' s p
                  (ap (λ o. or_else o x.0) (was ∙ q)) in
              rw q (
                same.ramp_eq ∙ ap (λ r. r.0.ramp_start_t_sim_s) e,
                ap latest (cs ∙ ap (λ r. r.1 ++ sent) e),
              )
          | inr (inl (q, d)) ↦
              let (cs, same) = due_lem d in
              let e =
                command_ramp spec onset spec.profile x.0 x.0 s p
                  (ap (λ o. or_else o x.0) (was ∙ q)) in
              rw (q, d)
                (
                  same.ramp_eq ∙ ap (λ r. r.0.ramp_start_t_sim_s) e,
                  ap latest (cs ∙ ap (λ r. r.1 ++ sent) e),
                )
          | inr (inr (q, d)) ↦
              let (cs, same) = early_lem d in
              rw (q, d) (same.ramp_eq ∙ was ∙ q, ap latest cs ∙ told q)
        ]

    tick-Following : Following (x ∷ xs)
    tick-Following = record {
      start_eq = start_lem;
      stepped = step_lem;
      ramped = λ p. ((ramp_lem p).0, λ q. (ramp_lem p).1 ∙ ap (asked spec x.0) q);
    }

  drive_ticks-Following : (xs : List Tick) → Ordered xs → Following xs
  unfolding drive_ticks
  drive_ticks-Following [] o = record {
    start_eq = refl;
    stepped = λ p. (refl, refl);
    ramped = λ p. (refl, λ q. refl);
  }
  drive_ticks-Following (x ∷ xs) (k, o) = tick-Following x xs k o (drive_ticks-Following xs o)

  -- A step's command is the whole severity.
  step_asked :
      (t : ℕ) (o : Option ℕ)
      → spec.profile ≡ step
      → ((o' : ℕ) → o ≡ some o' → o' ≤ t)
      → (if is_some o then some (spec.rotor_index, spec.severity) else none) ≡ asked spec t o
  step_asked t none p le = refl
  step_asked t (some o) p le =
      ap (λ v. some (spec.rotor_index, v))
        (sym (whole_severity spec.severity spec.ramp_duration_s t o (le o refl))
          ∙ ap (λ p. commanded_severity spec.severity p spec.ramp_duration_s (sub_ℕ t o)) (sym p))

  -- At every tick of a flight whose time does not run backwards, the latest command to the plugin is
  -- what the fault's time profile asks for at that tick, counted from the first tick at or after
  -- the onset; before that tick there is none.
  pub drive_follows_profile :
      (x : Tick) (xs : List Tick)
      → (spec.profile ≡ step) ⊎ (spec.profile ≡ ramp)
      → Ordered (x ∷ xs)
      → latest (drive_ticks spec onset (x ∷ xs)).1 ≡ asked spec x.0 (onset_tick onset (x ∷ xs))
  drive_follows_profile x xs (inr p) (k, o) = (ramp_lem x xs k o (drive_ticks-Following xs o) p).1
  drive_follows_profile x xs (inl p) (k, o) =
      (step_lem x xs k o (drive_ticks-Following xs o) p).1
      ∙ step_asked x.0 (onset_tick onset (x ∷ xs)) p
          (λ o' e. (onset_elapsed onset (x ∷ xs) o' x.0 (k, o) (omega arith) e).0)
