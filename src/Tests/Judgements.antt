-- ===== src/Tests/Judgements.antt =====
-- Judgements at concrete inputs: an alarm after a fault, and a hop that lands.
use aero_safe_rl.Base.{
  suc, ◌≤◌, ◌⊎◌, ℕ, ◌≡◌, refl, ◌↔◌, List, [], ◌∷◌, map, Option, none, some, Bool, true, false, ℤ,
  pos, negsuc, ok,
}
use aero_safe_rl.Episode.{completed}
use aero_safe_rl.Mission.Flight.{Row, mission, new_flight, touch_ground}
use aero_safe_rl.Metrics.{
  Step, alt_of, first_ground_contact, classify_outcome, mission_success, crash, detection_delay_s,
  false_alarm_count,
}
use aero_safe_rl.Metrics.Delay.{Delayed, delay_iff}
use aero_safe_rl.Metrics.Contact.{contact_row, alts_of, contact_agrees}
use aero_safe_rl.Metrics.Success.{success_iff}
use aero_safe_rl.Metrics.Slices.{AtMost}
use aero_safe_rl.Tests.Missions.{feed, flight, outcome_spec}
use aero_safe_rl.Tests.Policies.{plain}

abbrev alarm : List Bool
alarm = true ∷ false ∷ false ∷ true ∷ true ∷ []

abbrev active : List Bool
active = false ∷ true ∷ true ∷ true ∷ true ∷ []

abbrev elapsed : List ℕ
elapsed = 0 ∷ 100000 ∷ 200000 ∷ 300000 ∷ 400000 ∷ []

delay : detection_delay_s alarm active elapsed ≡ ok (some (pos 200000))
unfolding detection_delay_s
delay = refl

delay_iff_example :
    (detection_delay_s alarm active elapsed ≡ ok (some (pos 200000)))
    ↔ Delayed alarm active elapsed (pos 200000)
delay_iff_example = delay_iff alarm active elapsed (pos 200000)

-- The alarm before the onset is a false one.
false_alarms : false_alarm_count alarm active ≡ ok 1
unfolding false_alarm_count
false_alarms = refl

abbrev row : ℕ → ℤ → Row
row i z = record {
  step_index = i;
  t_sim_s = i;
  position = (pos 0, (pos 0, z));
  velocity = (pos 0, (pos 0, pos 0));
  target = (pos 0, (pos 0, pos 0));
  position_error_m = 0;
  flight_phase = mission;
  note = record {
    det = none;
    policy_state = "";
    action = record { speed_scale = pos 1000000; altitude_offset_m = pos 0; land = false };
  };
}

-- On the ground, up 2 m and down again.
abbrev rows : List Row
rows = row 0 (pos 0) ∷ row 1 (negsuc 1999999) ∷ row 2 (pos 0) ∷ []

contact_agrees_example :
    contact_row flight rows (new_flight flight feed 20 plain)
    ≡ (first_ground_contact outcome_spec (alts_of flight rows)).1
contact_agrees_example = contact_agrees flight rows (new_flight flight feed 20 plain) refl

contact : contact_row flight rows (new_flight flight feed 20 plain) ≡ some 2
unfolding contact_row touch_ground
contact = refl

abbrev at : ℤ → ℤ → Step
at z v = record {
  pos_z = some z;
  vel_z = some v;
  roll_rad = some (pos 0);
  pitch_rad = some (pos 100000);
}

-- Only the pitch counts here.
abbrev tilt : Option ℤ → Option ℤ → Option ℤ
tilt roll pitch = pitch

abbrev hop : ℤ → List Step
hop v = at (pos 0) (pos 0) ∷ at (negsuc 1999999) (pos 0) ∷ at (pos 0) v ∷ []

success_iff_example :
    ((classify_outcome outcome_spec tilt completed (hop (pos 1000000)) none).outcome
      ≡ mission_success)
    ↔ ((completed ≡ completed)
        × (((k : ℕ)
              → (first_ground_contact outcome_spec (map alt_of (hop (pos 1000000)))).0 ≡ some k
              → AtMost
                  (pos 60000000)
                  (map (λ s. tilt s.roll_rad s.pitch_rad) (hop (pos 1000000)))
                  (λ j. k ≤ j))
            × ((k : ℕ)
                → (first_ground_contact outcome_spec (map alt_of (hop (pos 1000000)))).1 ≡ some k
                → AtMost
                    (pos 2000000)
                    (map (λ s. s.vel_z) (hop (pos 1000000)))
                    (λ j. (j ≡ k) ⊎ (suc j ≡ k)))))
success_iff_example = success_iff outcome_spec tilt completed (hop (pos 1000000)) none

-- At 3 m/s it is a crash, although the mission completed.
hard_landing :
    (classify_outcome outcome_spec tilt completed (hop (pos 3000000)) none).outcome ≡ crash
unfolding classify_outcome
hard_landing = refl
