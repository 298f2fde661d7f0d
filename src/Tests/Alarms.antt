-- ===== src/Tests/Alarms.antt =====
-- A detector whose estimate is its first feature, at concrete inputs.
use aero_safe_rl.Base.{
  ℕ, ◌≡◌, refl, List, [], ◌∷◌, none, some, Bool, true, false, ℤ, Float, pos, map, ok,
}
use aero_safe_rl.Features.{Frame, append, extract, has_columns, deque_append, values_of, value_of}
use aero_safe_rl.Policy.Input.{DetectorOutput}
use aero_safe_rl.Policy.Alarm.{
  DetectorRuntime, Ensemble, reset, step, detect_all, sustained, likely, alarms_after, alarms_agree,
}

abbrev first_of : List Float → ℤ
first_of [] = pos 0
first_of (none ∷ xs) = pos 0
first_of (some x ∷ xs) = x

abbrev ensemble : Ensemble Unit
ensemble = record {
  infer = λ v h. (
    record { p_fault = first_of v; rotor = pos 1; severity = pos 300000; uncertainty = pos 0 },
    tt,
  );
  threshold = pos 500000;
  hold_ticks = 2;
  residual = λ fs. some (pos 0);
  feature_names = "roll_rad" ∷ [];
  capacity = 4;
}

abbrev frame : ℕ → ℕ → Frame
frame t p = record { t_sim_s = t; column = λ _. some (some (pos p)) }

abbrev frames : List Frame
frames = frame 0 600000 ∷ frame 100000 700000 ∷ frame 200000 100000 ∷ []

abbrev seen : ℕ → Bool → DetectorOutput
seen p on = record {
  p_fault = pos p;
  rotor = pos 1;
  severity = pos 300000;
  uncertainty = pos 0;
  alarm = on;
}

abbrev outputs : List DetectorOutput
outputs = seen 600000 false ∷ seen 700000 true ∷ seen 100000 false ∷ []

abbrev runtime : DetectorRuntime Unit
runtime = record { window = record { capacity = 4; frames = [] }; hidden = none; run = 7 }

detected : detect_all ensemble (reset ensemble runtime) frames ≡ ok outputs
unfolding detect_all reset step append extract has_columns deque_append values_of value_of
detected = refl

alarms_agree_example :
    (map (λ (o : DetectorOutput). o.alarm) outputs ≡ sustained 2 (map (likely ensemble) outputs))
    × (sustained 2 (map (likely ensemble) outputs)
        ≡ alarms_after 2 [] (map (likely ensemble) outputs))
alarms_agree_example = alarms_agree ensemble runtime frames outputs detected
