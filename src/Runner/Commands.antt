-- ===== src/Runner/Commands.antt =====
-- experiments/episode_runner.py: what one tick of _drive_rotor_fault changes and commands.
use mathlib.Core.Path.{subst}
use aero_safe_rl.Base.{
  ℕ, ◌≡◌, refl, ap, ◌∙◌, inl, inr, [], ◌∷◌, some, or_else, Bool, true, false, ◌&&◌, ℤ, sub_ℕ,
  Bool-cases, arith, if◌then◌else◌,
}
use aero_safe_rl.Faults.{FaultSpec, FaultProfile, step, ramp, commanded_severity}
use aero_safe_rl.Mission.{same_ℤ}
use aero_safe_rl.Runner.Drive.{Echo, FaultState, Tick, command, confirm, drive_tick}
use aero_safe_rl.Runner.Onset.{due}

-- The fields that decide what is commanded.
pub record SameDrive (a b : FaultState) : Type 0 where
  pub start_eq : a.mission_start_t_sim_s ≡ b.mission_start_t_sim_s
  pub commanded_eq : a.commanded ≡ b.commanded
  pub ramp_eq : a.ramp_start_t_sim_s ≡ b.ramp_start_t_sim_s

module _ (spec : FaultSpec) (onset : ℤ) where
  -- What the echo leaves alone.
  confirm-SameDrive :
      (elapsed : ℤ) (e : Echo) (s : FaultState) → SameDrive (confirm spec elapsed e s) s
  unfolding confirm
  confirm-SameDrive elapsed e s =
      elim (Bool-cases (e.latest_applied && same_ℤ e.latest_rotor_index spec.rotor_index)) [
        | inl y ↦ rw y (record { start_eq = refl; commanded_eq = refl; ramp_eq = refl })
        | inr n ↦ rw n (record { start_eq = refl; commanded_eq = refl; ramp_eq = refl })
      ]

  abbrev pub under_way : ℕ → FaultState → FaultState
  under_way t s = record s { mission_start_t_sim_s = some (or_else s.mission_start_t_sim_s t) }

  -- A tick at or after the onset, and one before it.
  pub tick_due :
      (x : Tick) (s : FaultState)
      → due onset x.0 s.mission_start_t_sim_s ≡ true
      → let r = command spec spec.profile x.0 (under_way x.0 s) in
        ((drive_tick spec onset x s).1 ≡ r.1) × SameDrive (drive_tick spec onset x s).0 r.0
  unfolding drive_tick
  tick_due x s d =
      let e =
        ap
          (λ (b : Bool).
            if b then command spec spec.profile x.0 (under_way x.0 s) else (under_way x.0 s, []))
          d in
      (
        ap (λ r. r.1) e,
        subst (SameDrive (drive_tick spec onset x s).0) (ap (λ r. r.0) e)
            (confirm-SameDrive _ x.1 _),
      )

  pub tick_early :
      (x : Tick) (s : FaultState)
      → due onset x.0 s.mission_start_t_sim_s ≡ false
      → ((drive_tick spec onset x s).1 ≡ [])
        × SameDrive (drive_tick spec onset x s).0 (under_way x.0 s)
  unfolding drive_tick
  tick_early x s d =
      let e =
        ap
          (λ (b : Bool).
            if b then command spec spec.profile x.0 (under_way x.0 s) else (under_way x.0 s, []))
          d in
      (
        ap (λ r. r.1) e,
        subst (SameDrive (drive_tick spec onset x s).0) (ap (λ r. r.0) e)
            (confirm-SameDrive _ x.1 _),
      )

  pub command_start :
      (p : FaultProfile) (t : ℕ) (s : FaultState)
      → (command spec p t s).0.mission_start_t_sim_s ≡ s.mission_start_t_sim_s
  unfolding command
  command_start p t s = ground arith

  pub command_again :
      (p : FaultProfile) (t : ℕ) (s : FaultState)
      → p ≡ step
      → s.commanded ≡ true
      → command spec p t s ≡ (s, [])
  unfolding command
  command_again p t s e c =
      ap (λ p. command spec p t s) e
      ∙ ap
          (λ (b : Bool).
            if b
            then (s, [])
            else (record s { commanded = true }, (spec.rotor_index, spec.severity) ∷ []))
          c

  pub command_once :
      (p : FaultProfile) (t : ℕ) (s : FaultState)
      → p ≡ step
      → s.commanded ≡ false
      → command spec p t s ≡ (record s { commanded = true }, (spec.rotor_index, spec.severity) ∷ [])
  unfolding command
  command_once p t s e c =
      ap (λ p. command spec p t s) e
      ∙ ap
          (λ (b : Bool).
            if b
            then (s, [])
            else (record s { commanded = true }, (spec.rotor_index, spec.severity) ∷ []))
          c

  abbrev pub ramp_severity : ℕ → ℕ → ℤ
  ramp_severity t o = commanded_severity spec.severity spec.profile spec.ramp_duration_s (sub_ℕ t o)

  pub command_ramp :
      (p : FaultProfile) (t o : ℕ) (s : FaultState)
      → p ≡ ramp
      → or_else s.ramp_start_t_sim_s t ≡ o
      → command spec p t s
        ≡ (record s { ramp_start_t_sim_s = some o }, (spec.rotor_index, ramp_severity t o) ∷ [])
  unfolding command
  command_ramp p t o s e c =
      ap (λ p. command spec p t s) e
      ∙ ap
          (λ o.
            (record s { ramp_start_t_sim_s = some o }, (spec.rotor_index, ramp_severity t o) ∷ []))
          c
