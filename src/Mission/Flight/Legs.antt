-- ===== src/Mission/Flight/Legs.antt =====
-- ros2_ws/src/aero_bridge/aero_bridge/mission_executor.py: what the two loops of a flight leave.
use mathlib.Core.Path.{subst}
use aero_safe_rl.Base.{
  ℕ, zero, suc, ◌≡◌, refl, sym, ap, ◌∙◌, ◌⊎◌, inl, inr, List, none, some, Bool, true, false,
  Bool-cases, Option-cases, Result, ok, err, arith, ℤ,
}
use aero_safe_rl.Policy.Driver.Latch.{not_deciding-Same}
use aero_safe_rl.Bridge.{Sent, Timers, is_armed}
use aero_safe_rl.Mission.Tracker.{MissionTracker}
use aero_safe_rl.Mission.Flight.Defs.{
  FlightException, settled, unexpected, sim_fault, Watch, landing, Row, Flight, Plan, is_over,
  settle, mission_poll, landing_poll,
}
use aero_safe_rl.Mission.Flight.Loops.{Ending, watch_loop, hold_end, hold_body, land_end, land_body}
use aero_safe_rl.Mission.Flight.Records.{Logged}
use aero_safe_rl.Mission.Flight.Polls.{Polled, idle, stopped, refused, handled, landing_poll-Polled}
use aero_safe_rl.Mission.Flight.Books.{
  Kept, Ready, HandledBy, settle-HandledBy, mission_poll-Ready, landing_poll-Ready,
}

-- A rule for a loop: P before each iteration, Q when it ends or runs out of fuel.
module _ {X : Type 0} (body : ℕ → X → List Sent × (X × Ending)) (P : X → Type 0)
    (Q : X → Ending → Type 0)
    (goes_on : (i : ℕ) (x : X) → P x → (body i x).1.1 ≡ none → P (body i x).1.0)
    (ends : (i : ℕ) (x : X) (r : Result FlightException (Unit {0}))
      → P x
      → (body i x).1.1 ≡ some r
      → Q (body i x).1.0 (some r))
    (runs_out : (x : X) → P x → Q x none) where
  pub watch_loop_lem :
      (n i : ℕ) (x : X) → P x → Q (watch_loop body n i x).1.0 (watch_loop body n i x).1.1
  unfolding watch_loop
  watch_loop_lem zero i x p = runs_out x p
  watch_loop_lem (suc n) i x p = elim (Option-cases (body i x).1.1) [
    | inl e ↦ rw (e, watch_loop) (watch_loop_lem n (suc i) (body i x).1.0 (goes_on i x p e))
    | inr (r, e) ↦ rw (e, watch_loop) (ends i x r p e)
  ]

hold_end-none :
    (deadline : ℤ) (w : Watch) (r : Result FlightException Bool)
    → hold_end deadline w r ≡ none
    → r ≡ ok false
hold_end-none deadline w (err e) h = cc h
hold_end-none deadline w (ok true) h = cc h
hold_end-none deadline w (ok false) h = refl

hold_end-ok :
    (deadline : ℤ) (w : Watch) (r : Result FlightException Bool)
    → hold_end deadline w r ≡ some (ok tt)
    → r ≡ ok true
hold_end-ok deadline w (err e) h = cc h
hold_end-ok deadline w (ok true) h = refl
hold_end-ok deadline w (ok false) h = absurd (ground arith)

land_end-none :
    (deadline : ℤ) (w : Watch) (r : Result FlightException (Unit {0}))
    → land_end deadline w r ≡ none
    → r ≡ ok tt
land_end-none deadline w (err e) h = cc h
land_end-none deadline w (ok u) h = refl

land_end-some :
    (deadline : ℤ) (w : Watch) (r x : Result FlightException (Unit {0}))
    → land_end deadline w r ≡ some x
    → (some x ≡ some (ok tt)) ⊎ (some x ≡ some (err settled))
    → r ≡ err settled
land_end-some deadline w (err e) x h (inl z) = cc (h, z)
land_end-some deadline w (err e) x h (inr z) = cc (h, z)
land_end-some deadline w (ok u) x h (inl z) = absurd (ground arith)
land_end-some deadline w (ok u) x h (inr z) = absurd (ground arith)

not_stopped :
    (r : Result FlightException (Unit {0})) (e : FlightException)
    → r ≡ err e
    → (e ≡ sim_fault) ⊎ (e ≡ unexpected)
    → ¬ ((r ≡ ok tt) ⊎ (r ≡ err settled))
not_stopped r e q (inl k) (inl z) = cc (q, z)
not_stopped r e q (inl k) (inr z) = cc (q, k, z)
not_stopped r e q (inr k) (inl z) = cc (q, z)
not_stopped r e q (inr k) (inr z) = cc (q, k, z)

module _ (start : MissionTracker) {S D : Type 0} (c : Plan S D) where
  -- The end of the hold: the books are kept, and if it returns, the mission is over.
  abbrev pub HoldDone : Timers × Flight S D → Ending → Type 0
  HoldDone x e = Kept start x.1 × (e ≡ some (ok tt) → Ready start x.1 × (is_over c x.1 ≡ true))

  abbrev ReadyNow : Timers × Flight S D → Type 0
  ReadyNow x = Ready start x.1

  module _ (watch : ℕ → Watch) (deadline : ℤ) where
    pub hold-HoldDone :
        (n i : ℕ) (x : Timers × Flight S D)
        → Ready start x.1
        → HoldDone
            (watch_loop (hold_body c watch deadline) n i x).1.0
            (watch_loop (hold_body c watch deadline) n i x).1.1
    unfolding hold_body
    hold-HoldDone =
        watch_loop_lem (hold_body c watch deadline) ReadyNow HoldDone
          (λ i x p e.
            let b = hold_end-none deadline (watch i) (mission_poll c (watch i) x.1).1 e in
            ((mission_poll-Ready start c (watch i) x.1 p).1 false b).0)
          (λ i x r p e.
            let k = mission_poll-Ready start c (watch i) x.1 p in
            (
              k.0,
              λ z.
                  let b = hold_end-ok deadline (watch i) (mission_poll c (watch i) x.1).1 (e ∙ z) in
                  let (ready, over) = k.1 true b in (ready, sym over),
            ))
          (λ x p. (p.0, λ z. cc z))

  -- The end of a landing: the tracker and the action are those it started with.
  pub record LandDone (f f' : Flight S D) : Type 0 where
    pub tracker_eq : f'.tracker ≡ f.tracker
    pub action_eq : f'.driver.action ≡ f.driver.action

  Logged-LandDone :
      (w : Watch) (f g : Flight S D) (row : Row) → Logged c w landing f g row → LandDone f g
  Logged-LandDone w f g row l =
      let same =
        not_deciding-Same c.setup l.frame l.progress f.driver g.driver (row.note, l.action)
          l.driver_step in
      record {
        tracker_eq = l.after_eq ∙ ap some l.advances ∙ sym l.before_eq;
        action_eq = same.action_eq;
      }

  -- A landing's poll that returns, or that finds the vehicle settled.
  Polled-LandDone :
      (w : Watch) (f f' : Flight S D) (r : Result FlightException (Unit {0}))
      → Polled c w landing (settle c) f f' r
      → (r ≡ ok tt) ⊎ (r ≡ err settled)
      → LandDone f f'
  Polled-LandDone w f f' r (idle same q) z = record {
    tracker_eq = ap (λ x. x.tracker) same;
    action_eq = ap (λ x. x.driver.action) same;
  }
  Polled-LandDone w f f' r (stopped e q k st tr ix) z = absurd (not_stopped r e q k z)
  Polled-LandDone w f f' r (refused d row l q) z = absurd (not_stopped r unexpected q (inr refl) z)
  Polled-LandDone w f f' r (handled d g row l q) z =
      let a = Logged-LandDone w f g row l in
      let h =
        subst (λ x. HandledBy start c g x row) (ap (λ x. x.0) q) (settle-HandledBy start c row g) in
      record {
        tracker_eq = h.tracker_eq ∙ a.tracker_eq;
        action_eq = ap (λ d. d.action) h.driver_eq ∙ a.action_eq;
      }

  landing_poll-LandDone :
      (w : Watch) (f : Flight S D)
      → ((landing_poll c w f).1 ≡ ok tt) ⊎ ((landing_poll c w f).1 ≡ err settled)
      → LandDone f (landing_poll c w f).0
  landing_poll-LandDone w f z = Polled-LandDone w f _ _ (landing_poll-Polled c w f) z

  LandDone-trans : {f g h : Flight S D} → LandDone f g → LandDone g h → LandDone f h
  LandDone-trans a b = record {
    tracker_eq = b.tracker_eq ∙ a.tracker_eq;
    action_eq = b.action_eq ∙ a.action_eq;
  }

  -- Each iteration of the landing: it returns at once, or the poll goes on, ends it or settles it.
  module _ (watch : ℕ → Watch) (deadline : ℤ) (f0 : Flight S D) where
    abbrev Descending : Timers × Flight S D → Type 0
    Descending x = Ready start x.1 × LandDone f0 x.1

    abbrev pub Landed : Timers × Flight S D → Ending → Type 0
    Landed x e = Kept start x.1 × ((e ≡ some (ok tt)) ⊎ (e ≡ some (err settled)) → LandDone f0 x.1)

    land_going :
        (i : ℕ) (x : Timers × Flight S D)
        → Descending x
        → (land_body c watch deadline i x).1.1 ≡ none
        → Descending (land_body c watch deadline i x).1.0
    unfolding land_body
    land_going i x (k, l) e = elim (Bool-cases (is_armed (watch i).vehicle_status)) [
      | inr n ↦ absurd (ground arith)
      | inl y ↦
          let q =
            land_end-none deadline (watch i) (landing_poll c (watch i) x.1).1 (ground arith) in
          rw y (
            (landing_poll-Ready start c (watch i) x.1 k).1 q,
            LandDone-trans l (landing_poll-LandDone (watch i) x.1 (inl q)),
          )
    ]

    land_ends :
        (i : ℕ) (x : Timers × Flight S D) (r : Result FlightException (Unit {0}))
        → Descending x
        → (land_body c watch deadline i x).1.1 ≡ some r
        → Landed (land_body c watch deadline i x).1.0 (some r)
    unfolding land_body
    land_ends i x r (k, l) e = elim (Bool-cases (is_armed (watch i).vehicle_status)) [
      | inr n ↦ rw n (k.0, λ z. l)
      | inl y ↦ rw y (
        (landing_poll-Ready start c (watch i) x.1 k).0,
        λ z. LandDone-trans l (
            landing_poll-LandDone (watch i) x.1 (
              inr (
                land_end-some deadline (watch i) (landing_poll c (watch i) x.1).1 r (ground arith)
                  z))),
      )
    ]

    pub land-Landed :
        (n i : ℕ) (x : Timers × Flight S D)
        → Ready start x.1
        → LandDone f0 x.1
        → Landed
            (watch_loop (land_body c watch deadline) n i x).1.0
            (watch_loop (land_body c watch deadline) n i x).1.1
    land-Landed n i x k l =
        watch_loop_lem (land_body c watch deadline) Descending Landed land_going land_ends
          (λ x p. (p.0.0, λ z. p.1)) n i x (k, l)
