-- ===== src/Runner/Drive.antt =====
-- experiments/episode_runner.py: _drive_rotor_fault, the callback that injects a fault in flight.
use aero_safe_rl.Base.{
  ℕ, List, [], ◌∷◌, ◌++◌, Option, none, some, or_else, Bool, true, false, ◌&&◌, ℤ, pos, ◌-ℤ◌, leb_ℤ,
  sub_ℕ, ltb, if◌then◌else◌,
}
use aero_safe_rl.Faults.{FaultSpec, FaultProfile, no_profile, step, ramp, commanded_severity}
use aero_safe_rl.Mission.{abs_ℤ, same_ℤ}

-- What the plugin's status messages have said last.
pub record Echo : Type 0 where
  pub latest_applied : Bool
  pub latest_rotor_index : ℤ
  pub latest_severity : ℤ

pub record FaultState : Type 0 where
  pub mission_start_t_sim_s : Option ℕ
  pub commanded : Bool
  pub ramp_start_t_sim_s : Option ℕ
  pub onset_time_s_observed : Option ℤ
  pub confirmed_applied : Bool
  pub confirmed_severity_final : ℤ

abbrev pub new_fault_state : FaultState
new_fault_state = record {
  mission_start_t_sim_s = none;
  commanded = false;
  ramp_start_t_sim_s = none;
  onset_time_s_observed = none;
  confirmed_applied = false;
  confirmed_severity_final = pos 0;
}

-- `set_rotor_fault(rotor_index, severity)`
abbrev pub RotorCommand : Type 0
RotorCommand = ℤ × ℤ

-- A tick of the flight: its sim time, and the echo then.
abbrev pub Tick : Type 0
Tick = ℕ × Echo

module _ (spec : FaultSpec) where
  -- What is commanded once the onset has passed.
  unfoldable pub command : FaultProfile → ℕ → FaultState → FaultState × List RotorCommand
  command no_profile t s = (s, [])
  command step t s =
      if s.commanded
      then (s, [])
      else (record s { commanded = true }, (spec.rotor_index, spec.severity) ∷ [])
  command ramp t s =
      let start = or_else s.ramp_start_t_sim_s t in
      (
        record s { ramp_start_t_sim_s = some start },
        (
          spec.rotor_index,
          commanded_severity spec.severity spec.profile spec.ramp_duration_s (sub_ℕ t start),
        )
            ∷ [],
      )

  -- What the echo confirms: within 0.01 of the severity.
  unfoldable pub confirm : ℤ → Echo → FaultState → FaultState
  confirm elapsed e s =
      if e.latest_applied && same_ℤ e.latest_rotor_index spec.rotor_index
      then record s {
        onset_time_s_observed = some (or_else s.onset_time_s_observed elapsed);
        confirmed_severity_final = e.latest_severity;
        confirmed_applied =
            if ltb (abs_ℤ (e.latest_severity -ℤ spec.severity)) 10000
            then true
            else s.confirmed_applied;
      }
      else s

module _ (spec : FaultSpec) (onset_time_s : ℤ) where
  -- A tick of a fault that is applied.
  unfoldable pub drive_tick : Tick → FaultState → FaultState × List RotorCommand
  unfolding command confirm
  drive_tick (t, e) s =
      let start = or_else s.mission_start_t_sim_s t in
      let elapsed = sub_ℕ t start in
      let s1 = record s { mission_start_t_sim_s = some start } in
      let (s2, cs) =
        if leb_ℤ onset_time_s elapsed then command spec spec.profile t s1 else (s1, []) in
      (confirm spec elapsed e s2, cs)

  -- A flight's ticks, and its commands; the latest of each first.
  unfoldable pub drive_ticks : List Tick → FaultState × List RotorCommand
  unfolding drive_tick
  drive_ticks [] = (new_fault_state, [])
  drive_ticks (x ∷ xs) =
      let (s, cs) = drive_ticks xs in let (s', c) = drive_tick x s in (s', c ++ cs)

-- `_drive_rotor_fault`: nothing for a healthy spec, and a TypeError for a fault without an onset.
unfoldable pub drive_rotor_fault :
    Option FaultSpec → List Tick → Option (FaultState × List RotorCommand)
unfolding drive_ticks
drive_rotor_fault none xs = some (new_fault_state, [])
drive_rotor_fault (some spec) xs =
    if spec.fault_applied
    then (elim xs [
      | [] ↦ some (new_fault_state, [])
      | x ∷ r ↦ elim spec.onset_time_s [
        | none ↦ none
        | some onset ↦ some (drive_ticks spec onset (x ∷ r))
      ]
    ])
    else some (new_fault_state, [])
