-- ===== src/Bridge/Arming.antt =====
-- ros2_ws/src/aero_bridge/aero_bridge/arming_sequence.py: the three loops that wait for PX4.
-- Wall time is in microseconds. Iteration `i` of a loop reads the clock once, and the vehicle status
-- that the pumps up to then have received.
use aero_safe_rl.Base.{
  ℕ, zero, suc, ◌+◌, List, [], ◌∷◌, ◌++◌, Option, none, some, Bool, true, false, not, ◌&&◌, ltb,
  leb, ℤ, pos, Result, ok, err, if◌then◌else◌,
}

pub data FlightError : Type 0 where
  preflight_failed arm_timeout offboard_rejected : FlightError
  hold_timeout offboard_lost land_timeout poll_error : FlightError

pub record VehicleStatus : Type 0 where
  pub armed : Bool
  pub offboard : Bool
  pub pre_flight_checks_pass : Bool

pub data Command : Type 0 where
  offboard_heartbeat : Command
  position_setpoint : ℤ → ℤ → ℤ → Command
  offboard_mode arm land : Command

-- A command and the time of the iteration that sent it.
abbrev pub Sent : Type 0
Sent = ℕ × Command

abbrev pub Outcome : Type 0
Outcome = Option (Result FlightError (Unit {0}))

-- 20 Hz, 0.75 s and 1 s.
abbrev pub stream_period_s : ℕ
stream_period_s = 50000

abbrev pub warmup_s : ℕ
warmup_s = 750000

abbrev pub resend_interval_s : ℕ
resend_interval_s = 1000000

abbrev pub is_armed : Option VehicleStatus → Bool
is_armed none = false
is_armed (some s) = s.armed

abbrev pub is_offboard : Option VehicleStatus → Bool
is_offboard none = false
is_offboard (some s) = s.offboard

abbrev pub preflight_passed : Option VehicleStatus → Bool
preflight_passed none = false
preflight_passed (some s) = s.pre_flight_checks_pass

-- `_raise_arm_failure`, without its message.
unfoldable pub arm_failure : Option VehicleStatus → FlightError
arm_failure status =
    if not (preflight_passed status)
    then preflight_failed
    else if not (is_armed status)
    then arm_timeout
    else offboard_rejected

pub record Timers : Type 0 where
  pub next_publish : ℕ
  pub next_command : ℕ

-- `if now >= next_publish:` the heartbeat and a setpoint.
abbrev pub publish : ℕ → ℤ × (ℤ × ℤ) → Timers → List Sent × Timers
publish now (x, (y, z)) t =
    if leb t.next_publish now
    then (
      (now, offboard_heartbeat) ∷ (now, position_setpoint x y z) ∷ [],
      record t { next_publish = now + stream_period_s },
    )
    else ([], t)

abbrev pub stamp : ℕ → List Command → List Sent
stamp now [] = []
stamp now (c ∷ cs) = (now, c) ∷ stamp now cs

-- `if ... and now >= next_command:` the commands, and when they may be sent again.
abbrev pub send : ℕ → Bool → List Command → Timers → List Sent × Timers
send now wanted cs t =
    if wanted && leb t.next_command now
    then (stamp now cs, record t { next_command = now + resend_interval_s })
    else ([], t)

-- `while True`, on fuel; `none` is out of fuel.
unfoldable pub poll :
    (ℕ → Timers → List Sent × (Timers × Outcome)) → ℕ → ℕ → Timers → List Sent × Outcome
poll body zero i t = ([], none)
poll body (suc n) i t =
    let (s, (t', o)) = body i t in
    let rest = poll body n (suc i) t' in
    elim o [ none ↦ (s ++ rest.0, rest.1) | some r ↦ (s, some r) ]

module _ (clock : ℕ → ℕ) (status : ℕ → Option VehicleStatus) where
  abbrev pub engaged : ℕ → Bool
  engaged i = is_armed (status i) && is_offboard (status i)

  unfoldable pub arm_iteration : ℤ → ℕ → ℕ → Timers → List Sent × (Timers × Outcome)
  unfolding arm_failure
  arm_iteration takeoff_z wall_deadline i t =
      let now = clock i in
      let (s1, t1) = publish now (pos 0, (pos 0, takeoff_z)) t in
      let (s2, t2) = send now true (offboard_mode ∷ arm ∷ []) t1 in
      if engaged i then (s1, (t1, some (ok tt))) else (
        s1 ++ s2,
        (t2, if ltb wall_deadline now then some (err (arm_failure (status i))) else none),
      )

  unfoldable pub arm_and_engage_offboard : ℕ → ℤ → ℕ → ℕ → List Sent × Outcome
  unfolding arm_iteration poll
  arm_and_engage_offboard start takeoff_z timeout_s fuel =
      poll (arm_iteration takeoff_z (start + timeout_s)) fuel 0
        (record { next_publish = start; next_command = start + warmup_s })

  -- The setpoint of an iteration is fixed or what `setpoint_fn` returns then.
  unfoldable pub hold_iteration :
      (ℕ → ℤ × (ℤ × ℤ)) → (ℕ → Bool) → ℕ → ℕ → Timers → List Sent × (Timers × Outcome)
  hold_iteration setpoint is_reached wall_deadline i t =
      let now = clock i in
      let (s1, t1) = publish now (setpoint i) t in
      let (s2, t2) = send now (not (is_offboard (status i))) (offboard_mode ∷ []) t1 in
      (
        s1 ++ s2,
        (
          t2,
          if is_reached i
              then some (ok tt)
              else if ltb wall_deadline now
              then some (err (if not (is_offboard (status i)) then offboard_lost else hold_timeout))
              else none,
        ),
      )

  unfoldable pub hold_position_until :
      (ℕ → ℤ × (ℤ × ℤ)) → (ℕ → Bool) → ℕ → ℕ → ℕ → List Sent × Outcome
  unfolding hold_iteration poll
  hold_position_until setpoint is_reached start timeout_s fuel =
      poll (hold_iteration setpoint is_reached (start + timeout_s)) fuel 0
        (record { next_publish = start; next_command = 0 })

  -- `on_poll` tells in which iterations the callback raises.
  unfoldable pub land_iteration : (ℕ → Bool) → ℕ → ℕ → Timers → List Sent × (Timers × Outcome)
  land_iteration on_poll wall_deadline i t =
      let now = clock i in
      let (s, t') = send now true (land ∷ []) t in
      if not (is_armed (status i))
      then ([], (t, some (ok tt)))
      else if on_poll i
      then (s, (t', some (err poll_error)))
      else (s, (t', if ltb wall_deadline now then some (err land_timeout) else none))

  unfoldable pub land_and_wait : (ℕ → Bool) → ℕ → ℕ → ℕ → List Sent × Outcome
  unfolding land_iteration poll
  land_and_wait on_poll start timeout_s fuel =
      poll (land_iteration on_poll (start + timeout_s)) fuel 0
        (record { next_publish = start; next_command = start })
