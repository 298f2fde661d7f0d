-- ===== src/Mission/Flight/Completed.antt =====
-- ros2_ws/src/aero_bridge/aero_bridge/mission_executor.py: a flight that ends as COMPLETED has flown
-- the whole mission.
use mathlib.Core.Path.{subst}
use aero_safe_rl.Base.{
  ℕ, ◌+◌, ◌<◌, ◌≡◌, ◌≢◌, refl, sym, ap, ◌∙◌, ◌⊎◌, inl, inr, List, [], length, Option, none, some,
  or_else, Bool, true, false, ◌||◌, Bool-cases, Option-cases, Result-cases, Result, ok, err, arith,
  pos,
}
use aero_safe_rl.Episode.{completed}
use aero_safe_rl.Policy.Driver.{PolicyDriver}
use aero_safe_rl.Policy.Driver
use aero_safe_rl.Bridge.{Sent, Timers, FlightError, arm_and_engage_offboard}
use aero_safe_rl.Mission.Tracker.{MissionTracker, n_legs, new_tracker, done, waypoints_reached}
use aero_safe_rl.Mission.New.{new_tracker-IsNew}
use aero_safe_rl.Mission.Holds.{after, Held, after-HoldsTrue}
use aero_safe_rl.Mission.Flight.Defs.{FlightException, settled, Flight, Plan, is_over}
use aero_safe_rl.Mission.Flight.Loops.{Ending, watch_loop, land_body}
use aero_safe_rl.Mission.Validate.{takeoff_z}
use aero_safe_rl.Mission.Flight.Run.{
  Feed, reason_for, reason_of, unsettle, land_now, hold_now, hold_deadline, land_timeout_s,
  take_off, fly_legs, attempt, arm_timeout_s, MissionResult, result_of, new_flight, fly_mission,
}
use aero_safe_rl.Mission.Flight.Books.{samples, Spaced, Behind, Kept, Ready}
use aero_safe_rl.Mission.Flight.Legs.{LandDone, HoldDone, hold-HoldDone, land-Landed}

unsettle_lem :
    (e : Ending) → unsettle e ≡ some (ok tt) → (e ≡ some (ok tt)) ⊎ (e ≡ some (err settled))
unsettle_lem e h = ground arith

module _ {S D : Type 0} (c : Plan S D) (feed : Feed) (fuel : ℕ) where
  is_over-LandDone :
      (start : MissionTracker) (f f' : Flight S D)
      → LandDone start c f f'
      → is_over c f' ≡ is_over c f
  is_over-LandDone start f f' l =
      ap (λ (x : Option MissionTracker × Bool). elim x.0 [ none ↦ false | some t ↦ done t ] || x.1)
        (ap (λ x. (x, f'.driver.action.land)) l.tracker_eq
          ∙ ap (λ x. (f.tracker, x.land)) l.action_eq)

  module _ (start : MissionTracker) (f : Flight S D) (k : Ready start f) where
    abbrev Flown : Flight S D × Ending → Type 0
    Flown r = Kept start r.0 × (r.1 ≡ some (ok tt) → is_over c r.0 ≡ true)

    hold_now_lem :
        HoldDone start c
          (record { next_publish = 0; next_command = 0 }, (hold_now c feed fuel f).1.0)
          (hold_now c feed fuel f).1.1
    unfolding hold_now
    hold_now_lem =
        hold-HoldDone start c feed.holding (hold_deadline c feed) fuel 0
          (record { next_publish = feed.hold_start; next_command = 0 }, f) k

    land_now_lem :
        (g : Flight S D)
        → Ready start g
        → Kept start (land_now c feed fuel g).1.0
          × ((land_now c feed fuel g).1.1 ≡ some (ok tt)
              → LandDone start c g (land_now c feed fuel g).1.0)
    unfolding land_now
    land_now_lem g kg =
        let t : Timers = record {
          next_publish = feed.land_start;
          next_command = feed.land_start;
        } in
        let deadline = pos (feed.land_start + land_timeout_s) in
        let l =
          land-Landed start c feed.landing deadline g fuel 0 (t, g) kg
            (record { tracker_eq = refl; action_eq = refl }) in
        (
          l.0,
          λ z.
              l.1
                (unsettle_lem (watch_loop (land_body c feed.landing deadline) fuel 0 (t, g)).1.1 z),
        )

    fly_legs-Flown : Flown (fly_legs c feed fuel f).1
    unfolding fly_legs
    fly_legs-Flown =
        let g = (hold_now c feed fuel f).1.0 in
        let (kept, ready) = hold_now_lem in
        elim (Option-cases (hold_now c feed fuel f).1.1) [
          | inl e ↦ rw (e, fly_legs) (kept, λ z. cc z)
          | inr (x, e) ↦ elim (Result-cases x) [
            | inr (y, q) ↦ rw (e, q, fly_legs) (kept, λ z. cc z)
            | inl (u, q) ↦
                let (rg, over) = ready (e ∙ ap some q) in
                let (kl, landed) = land_now_lem g rg in
                rw (e, q, fly_legs) (kl, λ z. is_over-LandDone start g _ (landed z) ∙ over)
          ]
        ]

  -- The facts of a flight's end, whatever it is; the tracker's start where there is one.
  pub record Attempted (f : Flight S D) (e : Ending) : Type 0 where
    pub spaced : Spaced f.steps
    pub counted : f.step_index ≡ length f.steps
    pub complete :
        e ≡ some (ok tt)
        → (start : MissionTracker) × (new_tracker c.mission c.setup.spec
              (or_else feed.armed_xy (pos 0, pos 0))
            ≡ ok start)
          × Kept start f
          × (is_over c f ≡ true)

  start-Ready :
      (start : MissionTracker) (g : Flight S D)
      → g.tracker ≡ some start
      → g.steps ≡ []
      → g.step_index ≡ 0
      → Ready start g
  unfolding after
  start-Ready start g t s i = (
    record {
      tracked = λ x e. subst (λ l. after start (samples l) ≡ ok x) (sym s) (cc (t, e));
      spaced = subst Spaced (sym s) tt;
      counted = i ∙ ap length (sym s);
    },
    subst (λ l. Behind l g.next_record_s) (sym s) tt,
  )

  unflown :
      (f : Flight S D) (e : Ending)
      → f.steps ≡ []
      → f.step_index ≡ 0
      → e ≢ some (ok tt)
      → Attempted f e
  unflown f e s i n = record {
    spaced = subst Spaced (sym s) tt;
    counted = i ∙ ap length (sym s);
    complete = λ z. absurd (n z);
  }

  flown :
      (start : MissionTracker) (g : Flight S D)
      → new_tracker c.mission c.setup.spec (or_else feed.armed_xy (pos 0, pos 0)) ≡ ok start
      → g.tracker ≡ some start
      → g.steps ≡ []
      → g.step_index ≡ 0
      → Attempted (fly_legs c feed fuel g).1.0 (fly_legs c feed fuel g).1.1
  flown start g m t s i =
      let (kept, over) = fly_legs-Flown start g (start-Ready start g t s i) in
      record {
        spaced = kept.spaced;
        counted = kept.counted;
        complete = λ z. (start, m, kept, over z);
      }

  attempt-Attempted :
      (d : PolicyDriver S D)
      → Attempted
          (attempt c feed fuel (new_flight c feed fuel d)).1.0
          (attempt c feed fuel (new_flight c feed fuel d)).1.1
  unfolding attempt take_off
  attempt-Attempted d =
      let f = new_flight c feed fuel d in
      let armed =
        arm_and_engage_offboard (λ i. (feed.arming i).wall) (λ i. (feed.arming i).vehicle_status)
          feed.arm_start (takeoff_z c.mission) arm_timeout_s fuel in
      let made = new_tracker c.mission c.setup.spec (or_else feed.armed_xy (pos 0, pos 0)) in
      elim (Option-cases armed.1) [
        | inl e ↦ rw (e, attempt) (unflown _ _ refl refl (λ z. cc z))
        | inr (x, e) ↦ elim (Result-cases x) [
          | inr (y, q) ↦ rw (e, q, attempt) (unflown _ _ refl refl (λ z. cc z))
          | inl (u, q) ↦ elim (Result-cases made) [
            | inr (y, m) ↦ rw (e, q, m, attempt, take_off) (unflown _ _ refl refl (λ z. cc z))
            | inl (start, m) ↦ rw (e, q, m, attempt, take_off) (flown start _ m refl refl refl)
          ]
        ]
      ]

sequence_lem : (e : FlightError) → reason_for (FlightException.sequence e) ≢ completed
sequence_lem FlightError.preflight_failed h = cc h
sequence_lem FlightError.arm_timeout h = cc h
sequence_lem FlightError.offboard_rejected h = cc h
sequence_lem FlightError.hold_timeout h = cc h
sequence_lem FlightError.offboard_lost h = cc h
sequence_lem FlightError.land_timeout h = cc h
sequence_lem FlightError.poll_error h = cc h

reason_for_lem : (e : FlightException) → reason_for e ≢ completed
reason_for_lem (FlightException.sequence e) = λ h. sequence_lem e h
reason_for_lem FlightException.mission_timeout = λ h. cc h
reason_for_lem FlightException.sim_fault = λ h. cc h
reason_for_lem FlightException.ground_contact = λ h. cc h
reason_for_lem FlightException.settled = λ h. cc h
reason_for_lem FlightException.unexpected = λ h. cc h

module _ {S D : Type 0} (c : Plan S D) (feed : Feed) (fuel : ℕ) where
  over_tracker :
      (f : Flight S D)
      → is_over c f ≡ true
      → f.driver.action.land ≡ false
      → (t : MissionTracker) × (f.tracker ≡ some t) × (done t ≡ true)
  over_tracker f o l = elim (Option-cases f.tracker) [
    | inl e ↦ absurd (ground (arith, e))
    | inr (t, e) ↦ (t, e, ground (arith, e))
  ]

  reason_of_lem :
      (f : Flight S D) (x : Result FlightException (Unit {0}))
      → reason_of c feed fuel f x ≡ completed
      → (x ≡ ok tt) × (f.driver.action.land ≡ false)
  reason_of_lem f (err e) h = absurd (reason_for_lem e h)
  reason_of_lem f (ok u) h = elim (Bool-cases f.driver.action.land) [
    | inl y ↦ absurd (ground arith)
    | inr n ↦ (refl, n)
  ]

  -- What the result of a flight shows.
  pub fly_mission_lem :
      (d : PolicyDriver S D) (s : List Sent) (r : MissionResult)
      → fly_mission c feed fuel d ≡ (s, some (ok r))
      → (f : Flight S D) × (x : Result FlightException (Unit {0})) × (r
          ≡ result_of c feed fuel f (reason_of c feed fuel f x))
        × Attempted c feed fuel f (some x)
  unfolding fly_mission
  fly_mission_lem d s r h =
      let d' = (Driver.reset c.setup d).0 in
      let a = (attempt c feed fuel (new_flight c feed fuel d')).1 in
      let known = attempt-Attempted c feed fuel d' in
      elim (Result-cases (Driver.reset c.setup d).1) [
        | inr (e, q) ↦ absurd (ground arith)
        | inl (u, q) ↦ elim (Option-cases a.1) [
          | inl e ↦ absurd (ground arith)
          | inr (x, e) ↦ (a.0, x, ground arith, subst (λ y. Attempted c feed fuel a.0 y) e known)
        ]
      ]

  waypoints_lem :
      (start t : MissionTracker)
      → new_tracker c.mission c.setup.spec (or_else feed.armed_xy (pos 0, pos 0)) ≡ ok start
      → t.legs ≡ start.legs
      → t.n_waypoints ≡ start.n_waypoints
      → done t ≡ true
      → waypoints_reached t ≡ length c.mission.waypoints
  waypoints_lem start t m l n o =
      let new = new_tracker-IsNew c.mission c.setup.spec _ start m in
      let legs : n_legs t.legs ≡ length c.mission.waypoints + 1 = ap n_legs l ∙ new.legs_eq in
      ground (arith, legs, n, new.count_eq)

  -- A flight whose result is COMPLETED has held at every waypoint of the mission for the hold time
  -- and at the last one for the final hover, by its own step records of the mission phase: in
  -- consecutive records over at least that time, the carrot stood on the waypoint and the vehicle
  -- was within the acceptance radius of the target. All waypoints are counted as reached.
  pub completed_holds :
      (d : PolicyDriver S D) (s : List Sent) (r : MissionResult)
      → fly_mission c feed fuel d ≡ (s, some (ok r))
      → r.termination_reason ≡ completed
      → (start : MissionTracker) × (new_tracker c.mission c.setup.spec
            (or_else feed.armed_xy (pos 0, pos 0))
          ≡ ok start)
        × ((i : ℕ) → i < n_legs start.legs → Held start i (samples r.steps))
        × (r.waypoints_reached ≡ length c.mission.waypoints)
  completed_holds d s r h q =
      let (f, x, e, k) = fly_mission_lem d s r h in
      let (returned, flies) = reason_of_lem f x (sym (ap (λ y. y.termination_reason) e) ∙ q) in
      let (start, m, kept, over) = k.complete (ap some returned) in
      let (t, there, finished) = over_tracker f over flies in
      let new = new_tracker-IsNew c.mission c.setup.spec _ start m in
      let true_ =
        after-HoldsTrue start new.leg_eq new.held_eq (samples f.steps) t (kept.tracked t there) in
      let reached : r.waypoints_reached ≡ waypoints_reached t =
        ap (λ y. y.waypoints_reached) e
        ∙ ap (λ (o : Option MissionTracker). elim o [ none ↦ 0 | some t ↦ waypoints_reached t ])
            there in
      let steps : r.steps ≡ f.steps = ap (λ y. y.steps) e in
      (
        start,
        m,
        λ i lt.
            subst (λ l. Held start i (samples l)) (sym steps)
              (true_.left i (ground (arith, lt, finished, ap n_legs true_.legs))),
        reached ∙ waypoints_lem start t m true_.legs true_.count finished,
      )
