-- ===== src/Mission/Flight/Returns.antt =====
-- ros2_ws/src/aero_bridge/aero_bridge/mission_executor.py: a flight always ends with a result.
use mathlib.Core.Path.{subst}
use aero_safe_rl.Base.{
  ℕ, zero, suc, ◌+◌, ◌*◌, ◌≤◌, ◌<◌, ◌≡◌, ◌≢◌, List, refl, sym, ap, ◌∙◌, inl, inr, none, some, Bool,
  true, false, Bool-cases, Option-cases, Result-cases, Result, ok, err, arith, ℤ, pos, pos_part,
  ltb_ℤ, +ℤ_parts,
}
use aero_safe_rl.Policy.Driver.{PolicyDriver}
use aero_safe_rl.Policy.Driver
use aero_safe_rl.Bridge.{Sent, Timers, is_armed}
use aero_safe_rl.Bridge.Ends.{Advances, clock_ge, arm-EndsAt}
use aero_safe_rl.Mission.Geometry.{◌*ℤ◌}
use aero_safe_rl.Mission.Flight.Defs.{FlightException, Watch, Flight, Plan}
use aero_safe_rl.Mission.Flight.Loops.{Ending, watch_loop, hold_end, land_end, hold_body, land_body}
use aero_safe_rl.Mission.Validate.{takeoff_z}
use aero_safe_rl.Mission.Flight.Run.{
  Feed, unsettle, land_now, hold_now, hold_deadline, land_timeout_s, take_off, fly_legs, attempt,
  arm_timeout_s, mission_wall_watchdog_factor, MissionResult, result_of, reason_of, new_flight,
  fly_mission,
}

module _ {X : Type 0} (body : ℕ → X → List Sent × (X × Ending)) where
  watch_loop-ends :
      (n i : ℕ) (x : X)
      → ((y : X) → (body (n + i) y).1.1 ≢ none)
      → (watch_loop body (suc n) i x).1.1 ≢ none
  unfolding watch_loop
  watch_loop-ends zero i x last = elim (Option-cases (body i x).1.1) [
    | inr (r, e) ↦ rw (e, watch_loop) (λ z. cc z)
    | inl e ↦
        let same : 0 + i ≡ i = omega arith in absurd (last x (ap (λ k. (body k x).1.1) same ∙ e))
  ]
  watch_loop-ends (suc n) i x last = elim (Option-cases (body i x).1.1) [
    | inr (r, e) ↦ rw (e, watch_loop) (λ z. cc z)
    | inl e ↦
        let same : n + suc i ≡ suc n + i = omega arith in
        rw (e, watch_loop)
          (watch_loop-ends n (suc i) (body i x).1.0
            (λ y. subst (λ k. (body k y).1.1 ≢ none) (sym same) (last y)))
  ]

late_hold :
    (deadline : ℤ) (w : Watch) (r : Result FlightException Bool)
    → ltb_ℤ deadline (pos w.wall) ≡ true
    → hold_end deadline w r ≢ none
late_hold deadline w (err e) l = λ z. cc z
late_hold deadline w (ok true) l = λ z. cc z
late_hold deadline w (ok false) l = λ z. absurd (ground arith)

late_land :
    (deadline : ℤ) (w : Watch) (r : Result FlightException (Unit {0}))
    → ltb_ℤ deadline (pos w.wall) ≡ true
    → land_end deadline w r ≢ none
late_land deadline w (err e) l = λ z. cc z
late_land deadline w (ok u) l = λ z. absurd (ground arith)

unsettle-none : (e : Ending) → e ≢ none → unsettle e ≢ none
unsettle-none e h = λ z. h (ground arith)

-- The loops' iterations take a tick at least.
pub record Ticks (feed : Feed) (tick : ℕ) : Type 0 where
  pub arming : Advances (λ i. (feed.arming i).wall) tick
  pub holding : Advances (λ i. (feed.holding i).wall) tick
  pub landing : Advances (λ i. (feed.landing i).wall) tick
  pub arm_from : feed.arm_start ≤ (feed.arming 0).wall
  pub hold_from : feed.hold_start ≤ (feed.holding 0).wall
  pub land_from : feed.land_start ≤ (feed.landing 0).wall

module _ {S D : Type 0} (c : Plan S D) (feed : Feed) (tick n : ℕ) (t : Ticks feed tick)
    (arm_enough : arm_timeout_s < n * tick) (land_enough : land_timeout_s < n * tick)
    (hold_enough : mission_wall_watchdog_factor * pos_part c.mission.timeout_s < n * tick) where
  hold_late : ltb_ℤ (hold_deadline c feed) (pos (feed.holding (n + 0)).wall) ≡ true
  unfolding hold_deadline
  hold_late =
      let same : n + 0 ≡ n = omega arith in
      let elapsed = clock_ge (λ i. (feed.holding i).wall) tick t.holding n in
      let timeout = pos mission_wall_watchdog_factor *ℤ c.mission.timeout_s in
      rw same
        (ground (arith, elapsed, t.hold_from, hold_enough, +ℤ_parts (pos feed.hold_start) timeout))

  hold_now-ends : (f : Flight S D) → (hold_now c feed (suc n) f).1.1 ≢ none
  unfolding hold_now hold_body
  hold_now-ends f =
      watch_loop-ends (hold_body c feed.holding (hold_deadline c feed)) n 0
        (record { next_publish = feed.hold_start; next_command = 0 }, f)
        (λ y. late_hold (hold_deadline c feed) (feed.holding (n + 0)) _ hold_late)

  land_late :
      ltb_ℤ (pos (feed.land_start + land_timeout_s)) (pos (feed.landing (n + 0)).wall) ≡ true
  land_late =
      let same : n + 0 ≡ n = omega arith in
      let elapsed = clock_ge (λ i. (feed.landing i).wall) tick t.landing n in
      rw same (ground (arith, elapsed, t.land_from, land_enough))

  land_body-ends :
      (y : Timers × Flight S D)
      → (land_body c feed.landing (pos (feed.land_start + land_timeout_s)) (n + 0) y).1.1 ≢ none
  unfolding land_body
  land_body-ends y = elim (Bool-cases (is_armed (feed.landing (n + 0)).vehicle_status)) [
    | inr e ↦ rw e (λ z. cc z)
    | inl e ↦
        rw e (late_land (pos (feed.land_start + land_timeout_s)) (feed.landing (n + 0)) _ land_late)
  ]

  land_now-ends : (f : Flight S D) → (land_now c feed (suc n) f).1.1 ≢ none
  unfolding land_now
  land_now-ends f = unsettle-none _ (
      watch_loop-ends (land_body c feed.landing (pos (feed.land_start + land_timeout_s))) n 0
        (record { next_publish = feed.land_start; next_command = feed.land_start }, f)
        land_body-ends)

  fly_legs-ends : (f : Flight S D) → (fly_legs c feed (suc n) f).1.1 ≢ none
  unfolding fly_legs
  fly_legs-ends f = elim (Option-cases (hold_now c feed (suc n) f).1.1) [
    | inl e ↦ absurd (hold_now-ends f e)
    | inr (x, e) ↦ elim (Result-cases x) [
      | inr (y, q) ↦ rw (e, q, fly_legs) (λ z. cc z)
      | inl (u, q) ↦ rw (e, q, fly_legs) (land_now-ends (hold_now c feed (suc n) f).1.0)
    ]
  ]

  attempt-ends : (f : Flight S D) → (attempt c feed (suc n) f).1.1 ≢ none
  unfolding attempt
  attempt-ends f =
      let armed =
        arm-EndsAt (λ i. (feed.arming i).wall) (λ i. (feed.arming i).vehicle_status) tick
          feed.arm_start arm_timeout_s n t.arming t.arm_from arm_enough (takeoff_z c.mission) in
      let made = take_off c feed (suc n) f in
      elim (Result-cases armed.result) [
        | inr (y, q) ↦ let e = armed.result_eq in rw (e, q, attempt) (λ z. cc z)
        | inl (u, q) ↦ elim (Result-cases made.1) [
          | inr (y, m) ↦ let e = armed.result_eq in rw (e, q, m, attempt) (λ z. cc z)
          | inl (start, m) ↦
              let e = armed.result_eq in
              rw (e, q, m, attempt) (fly_legs-ends (record made.0 { tracker = some start }))
        ]
      ]

  -- A flight whose driver can be reset ends with a result, whatever the telemetry, the policy and
  -- the callback do: within the budget of 30 s of wall time for each of arming and landing and of
  -- three times the mission's timeout between them, where each iteration takes at least a tick.
  pub fly_mission_returns :
      (d : PolicyDriver S D)
      → (Driver.reset c.setup d).1 ≡ ok tt
      → (r : MissionResult) × ((fly_mission c feed (suc n) d).1 ≡ some (ok r))
  unfolding fly_mission
  fly_mission_returns d q =
      let a = (attempt c feed (suc n) (new_flight c feed (suc n) (Driver.reset c.setup d).0)).1 in
      elim (Option-cases a.1) [
        | inl e ↦ absurd (attempt-ends _ e)
        | inr (x, e) ↦ (
          result_of c feed (suc n) a.0 (reason_of c feed (suc n) a.0 x),
          rw (q, e, fly_mission) refl,
        )
      ]
