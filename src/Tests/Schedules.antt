-- ===== src/Tests/Schedules.antt =====
-- configs/faults/rotor_thrust_degradation_v1.yaml's shape, and a generator that draws the least value.
use Prim.Native.String.{String}
use aero_safe_rl.Base.{
  ◌≡◌, refl, List, [], ◌∷◌, length, Option, some, true, false, pos, ◌≤ℤ◌, ltb_ℤ, leb_ℤ, ◌+ℤ◌, ◌-ℤ◌,
  ok, arith,
}
use aero_safe_rl.Faults.{
  step, FaultSpec, FaultConfig, RawFaultConfig, Mission, ramp, commanded_severity, Rng,
  read_fault_config, check_ranges, validate_fault_config, sample_fault_schedule,
}
use aero_safe_rl.Faults.Profile.{commanded_severity_mono}
use aero_safe_rl.Faults.Schedule.{IsLawful, AllDrawn, sample_fault_schedule-AllDrawn}

commanded_severity_mono_example :
    (pos 0 ≤ℤ commanded_severity (pos 400000) ramp (pos 3000000) (pos 1000000))
    × (commanded_severity (pos 400000) ramp (pos 3000000) (pos 1000000)
        ≤ℤ commanded_severity (pos 400000) ramp (pos 3000000) (pos 3500000))
    × (commanded_severity (pos 400000) ramp (pos 3000000) (pos 3500000) ≤ℤ pos 400000)
    × (ltb_ℤ (pos 3500000) (pos 0) ≡ true
        → commanded_severity (pos 400000) ramp (pos 3000000) (pos 3500000) ≡ pos 0)
    × (ramp ≡ step
        → ltb_ℤ (pos 3500000) (pos 0) ≡ false
        → commanded_severity (pos 400000) ramp (pos 3000000) (pos 3500000) ≡ pos 400000)
    × (ramp ≡ ramp
        → ltb_ℤ (pos 3500000) (pos 0) ≡ false
        → leb_ℤ (pos 3000000) (pos 3500000) ≡ true
        → commanded_severity (pos 400000) ramp (pos 3000000) (pos 3500000) ≡ pos 400000)
commanded_severity_mono_example =
    commanded_severity_mono 400000 ramp (pos 3000000) (pos 1000000) (pos 3500000) (omega arith)

abbrev mission : Mission
mission = record {
  hold_time_s = pos 3000000;
  final_hover_s = pos 5000000;
  timeout_s = pos 120000000;
}

abbrev raw : RawFaultConfig
raw = record {
  fault_schema_version = some "1";
  fault_type = some "rotor_thrust_degradation";
  mission_id = some "square_v1";
  dataset = some (record { n_episodes = some 2; seed = some 7; healthy_fraction = some (pos 0) });
  rotor_indices = some (pos 0 ∷ pos 3 ∷ []);
  severity_range_s = some (pos 100000, pos 600000);
  onset_time_range_s = some (pos 5000000, pos 30000000);
  profiles = some ("step" ∷ "ramp" ∷ []);
  ramp_duration_range_s = some (pos 1000000, pos 5000000);
}

abbrev config : FaultConfig
config = record {
  fault_type = "rotor_thrust_degradation";
  mission_id = "square_v1";
  healthy_fraction = pos 0;
  rotor_indices = pos 0 ∷ pos 3 ∷ [];
  severity_range_s = (pos 100000, pos 600000);
  onset_time_range_s = (pos 5000000, pos 30000000);
  profiles = "step" ∷ "ramp" ∷ [];
  ramp_duration_range_s = (pos 1000000, pos 5000000);
}

abbrev load_mission : String → Option Mission
load_mission name = some mission

raw_accepted : validate_fault_config load_mission raw ≡ ok config
unfolding validate_fault_config read_fault_config check_ranges ◌+ℤ◌ ◌-ℤ◌
raw_accepted = refl

abbrev least : Rng Unit
least = record { random = λ g. (g, pos 0); choice = λ n g. (g, 0); uniform = λ lo hi g. (g, lo) }

least-IsLawful : IsLawful least
least-IsLawful = record {
  choice_in = λ n g h. h;
  uniform_ge = λ lo hi g h. omega arith;
  uniform_le = λ lo hi g h. h;
}

sample_fault_schedule-AllDrawn_example :
    (m : Mission) × (load_mission "square_v1" ≡ some m)
    × ((schedule : List FaultSpec) × (sample_fault_schedule least config 2 tt ≡ ok schedule)
        × (length schedule ≡ 2)
        × AllDrawn m 0 schedule)
sample_fault_schedule-AllDrawn_example =
    sample_fault_schedule-AllDrawn least load_mission raw config 2 tt least-IsLawful raw_accepted
