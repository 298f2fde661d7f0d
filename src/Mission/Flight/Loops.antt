-- ===== src/Mission/Flight/Loops.antt =====
-- ros2_ws/src/aero_bridge/aero_bridge/mission_executor.py: the two loops of
-- arming_sequence.py, as fly_mission runs them: they call it back, and send what Bridge.Arming's do.
use aero_safe_rl.Base.{
  ℕ, zero, suc, List, [], ◌∷◌, ◌++◌, Option, none, some, Bool, true, false, not, ltb_ℤ, ℤ, pos,
  Result, ok, err, if◌then◌else◌,
}
use aero_safe_rl.Bridge.{
  FlightError, offboard_mode, land, Sent, Timers, publish, send, is_armed, is_offboard,
}
use aero_safe_rl.Mission.Geometry.{Vec3}
use aero_safe_rl.Mission.Tracker.{setpoint}
use aero_safe_rl.Mission.Flight.Defs.{
  FlightException, Watch, Flight, Plan, mission_poll, landing_poll,
}

abbrev pub Ending : Type 0
Ending = Option (Result FlightException (Unit {0}))

-- `while True` around a body with a state, on fuel; `none` is out of fuel.
module _ {X : Type 0} (body : ℕ → X → List Sent × (X × Ending)) where
  unfoldable pub watch_loop : ℕ → ℕ → X → List Sent × (X × Ending)
  watch_loop zero i x = ([], (x, none))
  watch_loop (suc n) i x =
      let (s, (x', o)) = body i x in
      let (s', r) = watch_loop n (suc i) x' in
      elim o [ none ↦ (s ++ s', r) | some e ↦ (s, (x', some e)) ]

abbrev pub hold_end : ℤ → Watch → Result FlightException Bool → Ending
hold_end deadline w (err e) = some (err e)
hold_end deadline w (ok true) = some (ok tt)
hold_end deadline w (ok false) =
    if ltb_ℤ deadline (pos w.wall)
    then some (
        err (
          FlightException.sequence (
            if is_offboard w.vehicle_status
            then FlightError.hold_timeout
            else FlightError.offboard_lost)))
    else none

abbrev pub land_end : ℤ → Watch → Result FlightException (Unit {0}) → Ending
land_end deadline w (err e) = some (err e)
land_end deadline w (ok _) =
    if ltb_ℤ deadline (pos w.wall)
    then some (err (FlightException.sequence FlightError.land_timeout))
    else none

module _ {S D : Type 0} (c : Plan S D) where
  -- `state["tracker"].setpoint`. There is a tracker before the loop starts.
  abbrev pub setpoint_fn : Flight S D → Vec3
  setpoint_fn f = elim f.tracker [ none ↦ (pos 0, (pos 0, pos 0)) | some t ↦ setpoint t ]

  -- An iteration of hold_position_until.
  unfoldable pub hold_body :
      (ℕ → Watch) → ℤ → ℕ → Timers × Flight S D → List Sent × ((Timers × Flight S D) × Ending)
  hold_body watch deadline i (t, f) =
      let w = watch i in
      let (s1, t1) = publish w.wall (setpoint_fn f) t in
      let (s2, t2) = send w.wall (not (is_offboard w.vehicle_status)) (offboard_mode ∷ []) t1 in
      let (f', r) = mission_poll c w f in (s1 ++ s2, ((t2, f'), hold_end deadline w r))

  -- An iteration of land_and_wait.
  unfoldable pub land_body :
      (ℕ → Watch) → ℤ → ℕ → Timers × Flight S D → List Sent × ((Timers × Flight S D) × Ending)
  land_body watch deadline i (t, f) =
      let w = watch i in
      let (s, t') = send w.wall true (land ∷ []) t in
      let (f', r) = landing_poll c w f in
      if not (is_armed w.vehicle_status)
      then ([], ((t, f), some (ok tt)))
      else (s, ((t', f'), land_end deadline w r))
