-- ===== src/Bridge/Ends.antt =====
-- ros2_ws/src/aero_bridge/aero_bridge/arming_sequence.py: how and when each loop ends.
use aero_safe_rl.Base.{
  false, ◌&&◌, ℕ, zero, suc, ◌+◌, ◌*◌, ◌≤◌, ◌<◌, ◌≡◌, ◌≢◌, refl, sym, ap, ◌∙◌, inl, inr, List,
  Option, none, some, Bool, true, not, ltb, Bool-cases, Option-cases, ℤ, Result, ok, err, arith,
  if◌then◌else◌,
}
use aero_safe_rl.Bridge.Arming.{
  FlightError, preflight_failed, arm_timeout, offboard_rejected, hold_timeout, offboard_lost,
  land_timeout, poll_error, VehicleStatus, Sent, Outcome, Timers, is_armed, is_offboard,
  arm_failure, poll, arm_iteration, arm_and_engage_offboard, hold_iteration, hold_position_until,
  land_iteration, land_and_wait,
}

-- The loop ends in iteration `last` and in none before, from iteration `i` on.
pub record EndsAt (outcome : ℕ → Outcome) (i : ℕ) (r : Outcome) : Type 0 where
  pub last : ℕ
  pub from : i ≤ last
  pub result : Result FlightError (Unit {0})
  pub result_eq : r ≡ some result
  pub decided : outcome last ≡ some result
  pub undecided : (j : ℕ) → i ≤ j → j < last → outcome j ≡ none

-- An iteration whose outcome the timers do not change.
module _ (body : ℕ → Timers → List Sent × (Timers × Outcome)) (outcome : ℕ → Outcome)
    (agree : (i : ℕ) (t : Timers) → (body i t).1.1 ≡ outcome i) where
  poll-some :
      (n i : ℕ) (t : Timers) (x : Result FlightError (Unit {0}))
      → outcome i ≡ some x
      → (poll body (suc n) i t).1 ≡ some x
  unfolding poll
  poll-some n i t x e = let q = agree i t ∙ e in rw (q, poll) refl

  poll-none :
      (n i : ℕ) (t : Timers)
      → outcome i ≡ none
      → (poll body (suc n) i t).1 ≡ (poll body n (suc i) (body i t).1.0).1
  unfolding poll
  poll-none n i t e = let q = agree i t ∙ e in rw (q, poll) refl

  ends_now :
      (n i : ℕ) (t : Timers) (x : Result FlightError (Unit {0}))
      → outcome i ≡ some x
      → EndsAt outcome i (poll body (suc n) i t).1
  ends_now n i t x e = record {
    last = i;
    from = omega arith;
    result = x;
    result_eq = poll-some n i t x e;
    decided = e;
    undecided = λ j lo hi. absurd (omega arith);
  }

  ends_later :
      (n i : ℕ) (t : Timers)
      → outcome i ≡ none
      → EndsAt outcome (suc i) (poll body n (suc i) (body i t).1.0).1
      → EndsAt outcome i (poll body (suc n) i t).1
  ends_later n i t e x = record {
    last = x.last;
    from = omega (arith, x.from);
    result = x.result;
    result_eq = poll-none n i t e ∙ x.result_eq;
    decided = x.decided;
    undecided = λ j lo hi. elim (Bool-cases (ltb i j)) [
      | inl less ↦ x.undecided j (ground arith) hi
      | inr same ↦ let p : i ≡ j = ground arith in ap outcome (sym p) ∙ e
    ];
  }

  pub poll-EndsAt :
      (n i : ℕ) (t : Timers) → outcome (n + i) ≢ none → EndsAt outcome i (poll body (suc n) i t).1
  poll-EndsAt zero i t h = elim (Option-cases (outcome i)) [
    | inl e ↦ let same : 0 + i ≡ i = omega arith in absurd (h (ap outcome same ∙ e))
    | inr (x, e) ↦ ends_now 0 i t x e
  ]
  poll-EndsAt (suc n) i t h = elim (Option-cases (outcome i)) [
    | inl e ↦
        let same : n + suc i ≡ suc n + i = omega arith in
        ends_later (suc n) i t e
          (poll-EndsAt n (suc i) (body i t).1.0 (λ z. h (ap outcome (sym same) ∙ z)))
    | inr (x, e) ↦ ends_now (suc n) i t x e
  ]

-- Iterations do not take no time, so the deadline passes.
abbrev pub Advances : (ℕ → ℕ) → ℕ → Type 0
Advances clock tick = (i : ℕ) → clock i + tick ≤ clock (suc i)

pub clock_ge :
    (clock : ℕ → ℕ) (tick : ℕ) → Advances clock tick → (i : ℕ) → clock 0 + i * tick ≤ clock i
clock_ge clock tick a zero = omega arith
clock_ge clock tick a (suc i) = omega (arith, clock_ge clock tick a i, a i)

-- Which of the three failures a status shows: the checks do not pass or nothing is heard, the checks
-- pass and it is not armed, or it is armed.
abbrev pub failure_shown : Option VehicleStatus → FlightError
failure_shown none = preflight_failed
failure_shown (some s) = elim s.pre_flight_checks_pass [
  | false ↦ preflight_failed
  | true ↦ elim s.armed [ false ↦ arm_timeout | true ↦ offboard_rejected ]
]

arm_failure_lem : (s : Option VehicleStatus) → arm_failure s ≡ failure_shown s
unfolding arm_failure
arm_failure_lem none = refl
arm_failure_lem (some s) = elim (Bool-cases s.pre_flight_checks_pass) [
  | inr e ↦ ground (arith, e)
  | inl e ↦ elim (Bool-cases s.armed) [
    | inl f ↦ ground (arith, e, f)
    | inr f ↦ ground (arith, e, f)
  ]
]

module _ (clock : ℕ → ℕ) (status : ℕ → Option VehicleStatus) where
  -- The outcomes of the three loops in one iteration, from the clock and the telemetry alone.
  abbrev pub arm_outcome : ℕ → ℕ → Outcome
  arm_outcome wall_deadline i =
      if is_armed (status i) && is_offboard (status i)
      then some (ok tt)
      else if ltb wall_deadline (clock i)
      then some (err (failure_shown (status i)))
      else none

  abbrev pub hold_outcome : (ℕ → Bool) → ℕ → ℕ → Outcome
  hold_outcome is_reached wall_deadline i =
      if is_reached i
      then some (ok tt)
      else if ltb wall_deadline (clock i)
      then some (err (if is_offboard (status i) then hold_timeout else offboard_lost))
      else none

  abbrev pub land_outcome : (ℕ → Bool) → ℕ → ℕ → Outcome
  land_outcome on_poll wall_deadline i =
      if not (is_armed (status i))
      then some (ok tt)
      else if on_poll i
      then some (err poll_error)
      else if ltb wall_deadline (clock i)
      then some (err land_timeout)
      else none

  module _ (tick start timeout_s n : ℕ) (a : Advances clock tick) (s : start ≤ clock 0)
      (enough : timeout_s < n * tick) where
    late : ltb (start + timeout_s) (clock (n + 0)) ≡ true
    late = let same : n + 0 ≡ n = omega arith in rw same (ground (arith, clock_ge clock tick a n))

    -- Where each iteration takes at least a tick, arming ends within the timeout's number of ticks
    -- and one iteration: in the first one that sees PX4 armed and in offboard mode, or the first one
    -- after the deadline, with PreflightFailed if that iteration has no status or sees the checks
    -- fail, with ArmTimeout if it sees them pass and PX4 not armed, and else with OffboardRejected.
    pub arm-EndsAt :
        (takeoff_z : ℤ)
        → EndsAt
            (arm_outcome (start + timeout_s))
            0
            (arm_and_engage_offboard clock status start takeoff_z timeout_s (suc n)).1
    unfolding arm_and_engage_offboard arm_iteration
    arm-EndsAt takeoff_z =
        poll-EndsAt (arm_iteration clock status takeoff_z (start + timeout_s))
          (arm_outcome (start + timeout_s)) (λ i t. ground (arith, arm_failure_lem (status i))) n 0
          _ (λ e. absurd (ground (arith, late)))

    -- A hold ends in the same way: in the first iteration in which its condition is met, or the
    -- first one after the deadline, with OffboardLost if PX4 is out of offboard mode then and
    -- HoldTimeout if not.
    pub hold-EndsAt :
        (setpoint : ℕ → ℤ × (ℤ × ℤ)) (is_reached : ℕ → Bool)
        → EndsAt
            (hold_outcome is_reached (start + timeout_s))
            0
            (hold_position_until clock status setpoint is_reached start timeout_s (suc n)).1
    unfolding hold_position_until hold_iteration
    hold-EndsAt setpoint is_reached =
        poll-EndsAt (hold_iteration clock status setpoint is_reached (start + timeout_s))
          (hold_outcome is_reached (start + timeout_s)) (λ i t. ground arith) n 0 _
          (λ e. absurd (ground (arith, late)))

    -- A landing ends in the same way: in the first iteration that does not see PX4 armed, the first
    -- one in which the callback raises, or the first one after the deadline, with LandTimeout.
    pub land-EndsAt :
        (on_poll : ℕ → Bool)
        → EndsAt
            (land_outcome on_poll (start + timeout_s))
            0
            (land_and_wait clock status on_poll start timeout_s (suc n)).1
    unfolding land_and_wait land_iteration
    land-EndsAt on_poll =
        poll-EndsAt (land_iteration clock status on_poll (start + timeout_s))
          (land_outcome on_poll (start + timeout_s)) (λ i t. ground arith) n 0 _
          (λ e. absurd (ground (arith, late)))
