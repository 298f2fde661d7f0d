-- ===== src/Mission/Flight/Records.antt =====
-- ros2_ws/src/aero_bridge/aero_bridge/mission_executor.py: what a call of record_step changes.
use mathlib.Core.Path.{subst}
use aero_safe_rl.Base.Methods.{◌>>=◌, bind-ok, bind-err}
use aero_safe_rl.Base.{
  ℕ, suc, ◌≡◌, refl, sym, ap, ◌∙◌, ◌⊎◌, inl, inr, List, ◌∷◌, Option, none, some, Option-cases,
  Result-cases, Result, ok, err, arith, if◌then◌else◌,
}
use aero_safe_rl.Features.{Frame}
use aero_safe_rl.Policy.Action.{Action, PolicyError}
use aero_safe_rl.Policy.Driver.{PolicyDriver, Note}
use aero_safe_rl.Policy.Driver
use aero_safe_rl.Policy.Driver.Latch.{step_action}
use aero_safe_rl.Policy.Input.{MissionProgress}
use aero_safe_rl.Mission.Geometry.{Vec3, dist}
use aero_safe_rl.Mission.Tracker.{TrackerError, MissionTracker, target, progress, update}
use aero_safe_rl.Mission.Flight.Defs.{
  FlightException, sim_fault, unexpected, Watch, Odometry, Phase, is_mission, mission, landing, Row,
  Flight, Plan, F, readings, finite_state, frame_of, note_error, step_driver, advance_tracker, emit,
  record_finite, record_step,
}

module _ {S D : Type 0} where
  -- What no record touches.
  pub record Untouched (f f' : Flight S D) : Type 0 where
    pub start_eq : f'.t_sim_start_s ≡ f.t_sim_start_s
    pub airborne_eq : f'.airborne ≡ f.airborne
    pub contact_eq : f'.contact_since ≡ f.contact_since
    pub next_eq : f'.next_record_s ≡ f.next_record_s

  carry :
      {f g : Flight S D} (d : PolicyDriver S D) (tracker : Option MissionTracker) (steps : List Row)
      (i : ℕ)
      → Untouched f g
      → Untouched f (record g { driver = d; tracker = tracker; steps = steps; step_index = i })
  carry d tracker steps i u = record {
    start_eq = u.start_eq;
    airborne_eq = u.airborne_eq;
    contact_eq = u.contact_eq;
    next_eq = u.next_eq;
  }

abbrev pub Advances : Phase → ℕ → Vec3 → Action → MissionTracker → MissionTracker → Type 0
Advances mission t p a before after = update t p a before ≡ ok after
Advances landing t p a before after = after ≡ before

readings_now : (w : Watch) (r : Odometry × ℕ) → readings w ≡ some r → w.now_us ≡ some r.1
readings_now w r e = ground arith

module _ {S D : Type 0} (c : Plan S D) where
  abbrev pub callback : Row → Result FlightException (Option Row)
  callback row = if c.on_step row then ok (some row) else err unexpected

  -- A row that was appended.
  pub record Logged (w : Watch) (phase : Phase) (f f' : Flight S D) (row : Row) : Type 0 where
    pub steps_eq : f'.steps ≡ row ∷ f.steps
    pub index_eq : row.step_index ≡ f.step_index
    pub next_index : f'.step_index ≡ suc f.step_index
    pub time_eq : w.now_us ≡ some row.t_sim_s
    pub phase_eq : row.flight_phase ≡ phase
    pub before : MissionTracker
    pub before_eq : f.tracker ≡ some before
    pub after : MissionTracker
    pub after_eq : f'.tracker ≡ some after
    pub action_eq : row.note.action ≡ f'.driver.action
    pub advances : Advances phase row.t_sim_s row.position row.note.action before after
    pub untouched : Untouched f f'
    pub frame : Frame
    pub progress : MissionProgress
    pub action : Action
    pub driver_step :
        Driver.step c.setup frame progress (is_mission phase) f.driver
        ≡ (f'.driver, ok (row.note, action))

  pub data Recorded (w : Watch) (phase : Phase) (f f' : Flight S D)
      (r : Result FlightException (Option Row)) : Type 0 where
    skipped : f' ≡ f → r ≡ ok none → Recorded w phase f f' r
    failed :
        (e : FlightException)
        → r ≡ err e
        → (e ≡ sim_fault) ⊎ (e ≡ unexpected)
        → f'.steps ≡ f.steps
        → f'.tracker ≡ f.tracker
        → f'.step_index ≡ f.step_index
        → Recorded w phase f f' r
    logged : (row : Row) → Logged w phase f f' row → r ≡ callback row → Recorded w phase f f' r

  module _ (w : Watch) (tracker : MissionTracker) (t : ℕ) (p v : Vec3) (f : Flight S D)
      (now : w.now_us ≡ some t) (there : f.tracker ≡ some tracker) where
    abbrev driven : Phase → PolicyDriver S D × Result PolicyError (Note × Action)
    driven phase =
        Driver.step c.setup (frame_of w t v (dist p (target tracker))) (progress t p tracker)
          (is_mission phase) f.driver

    abbrev row_of : Phase → Note → Row
    row_of phase note = record {
      step_index = f.step_index;
      t_sim_s = t;
      position = p;
      velocity = v;
      target = target tracker;
      position_error_m = dist p (target tracker);
      flight_phase = phase;
      note = note;
    }

    -- The driver accepts the row, and the tracker's update returns.
    row-Logged :
        (phase : Phase) (f' : Flight S D) (x : Note × Action) (tracker' : MissionTracker)
        → (driven phase).1 ≡ ok x
        → f'.driver ≡ (driven phase).0
        → f'.tracker ≡ some tracker'
        → f'.steps ≡ row_of phase x.0 ∷ f.steps
        → f'.step_index ≡ suc f.step_index
        → Untouched f f'
        → Advances phase t p x.1 tracker tracker'
        → Logged w phase f f' (row_of phase x.0)
    row-Logged phase f' x tracker' q d tracked st ix same adv =
        let whole : driven phase ≡ (f'.driver, ok x) =
          ap (λ r. ((driven phase).0, r)) q ∙ ap (λ y. (y, ok x)) (sym d) in
        let (noted, acted) =
          step_action c.setup _ _ (is_mission phase) f.driver f'.driver x whole in
        record {
          steps_eq = st;
          index_eq = refl;
          next_index = ix;
          time_eq = now;
          phase_eq = refl;
          before = tracker;
          before_eq = there;
          after = tracker';
          after_eq = tracked;
          action_eq = noted;
          advances = subst (λ a. Advances phase t p a tracker tracker') (acted ∙ sym noted) adv;
          untouched = same;
          frame = frame_of w t v (dist p (target tracker));
          progress = progress t p tracker;
          action = x.1;
          driver_step = whole;
        }

    abbrev drive : Phase → F c (Note × Action)
    drive phase = step_driver c (frame_of w t v (dist p (target tracker))) tracker p phase

    abbrev emitted : Phase → Note × Action → Unit {0} → F c (Option Row)
    emitted phase x _ = emit c (row_of phase x.0)

    abbrev tell : Phase → Note × Action → F c (Option Row)
    tell phase x = advance_tracker c phase t p x.1 tracker >>= emitted phase x

    drive-ok :
        (phase : Phase) (g : Flight S D) (x : Note × Action)
        → g.driver ≡ f.driver
        → (driven phase).1 ≡ ok x
        → drive phase g ≡ (record g { driver = (driven phase).0 }, ok x)
    unfolding step_driver
    drive-ok phase g x same q =
        let e =
          ap
            (λ d.
              Driver.step c.setup (frame_of w t v (dist p (target tracker))) (progress t p tracker)
                (is_mission phase) d)
            same in
        rw (e, step_driver, q) refl

    drive-err :
        (phase : Phase) (g : Flight S D) (e : PolicyError)
        → g.driver ≡ f.driver
        → (driven phase).1 ≡ err e
        → drive phase g ≡ (record g { driver = (driven phase).0 }, err unexpected)
    unfolding step_driver
    drive-err phase g e same q =
        let e =
          ap
            (λ d.
              Driver.step c.setup (frame_of w t v (dist p (target tracker))) (progress t p tracker)
                (is_mission phase) d)
            same in
        rw (e, step_driver, q) refl

    abbrev noted : Phase → Flight S D
    noted phase = (note_error c phase (dist p (target tracker)) f).0

    noted-ok :
        (phase : Phase) → note_error c phase (dist p (target tracker)) f ≡ (noted phase, ok tt)
    noted-ok mission = refl
    noted-ok landing = refl

    noted_driver : (phase : Phase) → (noted phase).driver ≡ f.driver
    noted_driver mission = refl
    noted_driver landing = refl

    noted_tracker : (phase : Phase) → (noted phase).tracker ≡ f.tracker
    noted_tracker mission = refl
    noted_tracker landing = refl

    noted_steps : (phase : Phase) → (noted phase).steps ≡ f.steps
    noted_steps mission = refl
    noted_steps landing = refl

    noted_index : (phase : Phase) → (noted phase).step_index ≡ f.step_index
    noted_index mission = refl
    noted_index landing = refl

    noted_same : (phase : Phase) → Untouched f (noted phase)
    noted_same mission = record {
      start_eq = refl;
      airborne_eq = refl;
      contact_eq = refl;
      next_eq = refl;
    }
    noted_same landing = record {
      start_eq = refl;
      airborne_eq = refl;
      contact_eq = refl;
      next_eq = refl;
    }

    abbrev after_note : Phase → Unit {0} → F c (Option Row)
    after_note phase _ = drive phase >>= tell phase

    -- A record is the driver's step, and what follows it.
    record_finite_lem :
        (phase : Phase)
        → record_finite c w phase tracker t p v f ≡ (drive phase >>= tell phase) (noted phase)
    unfolding record_finite
    record_finite_lem phase =
        bind-ok (note_error c phase (dist p (target tracker))) (after_note phase) f (noted-ok phase)

    advance-ok :
        (a : Action) (g : Flight S D) (tracker' : MissionTracker)
        → update t p a tracker ≡ ok tracker'
        → advance_tracker c mission t p a tracker g ≡ (record g { tracker = some tracker' }, ok tt)
    unfolding advance_tracker
    advance-ok a g tracker' q = rw (q, advance_tracker) refl

    advance-err :
        (a : Action) (g : Flight S D) (e : TrackerError)
        → update t p a tracker ≡ err e
        → advance_tracker c mission t p a tracker g ≡ (g, err unexpected)
    unfolding advance_tracker
    advance-err a g e q = rw (q, advance_tracker) refl

    driven-Recorded :
        (phase : Phase) (x : Note × Action) (g : Flight S D)
        → (driven phase).1 ≡ ok x
        → g.driver ≡ (driven phase).0
        → g.tracker ≡ some tracker
        → g.steps ≡ f.steps
        → g.step_index ≡ f.step_index
        → Untouched f g
        → Recorded w phase f (tell phase x g).0 (tell phase x g).1
    unfolding advance_tracker emit
    driven-Recorded landing x g q d tracked st ix same =
        logged (row_of landing x.0)
          (row-Logged landing _ x tracker q d tracked (ap (λ l. row_of landing x.0 ∷ l) st)
            (ap suc ix) (carry g.driver g.tracker _ _ same) refl)
          refl
    driven-Recorded mission x g q d tracked st ix same =
        elim (Result-cases (update t p x.1 tracker)) [
          | inr (e, q') ↦
              subst
                (λ (r : Flight S D × Result FlightException (Option Row)).
                  Recorded w mission f r.0 r.1)
                (sym (
                  bind-err (advance_tracker c mission t p x.1 tracker) (emitted mission x) g
                    (advance-err x.1 g e q')))
                (failed unexpected refl (inr refl) st (tracked ∙ sym there) ix)
          | inl (tracker', q') ↦
              subst
                (λ (r : Flight S D × Result FlightException (Option Row)).
                  Recorded w mission f r.0 r.1)
                (sym (
                  bind-ok (advance_tracker c mission t p x.1 tracker) (emitted mission x) g
                    (advance-ok x.1 g tracker' q')))
                (logged (row_of mission x.0)
                  (row-Logged mission _ x tracker' q d refl (ap (λ l. row_of mission x.0 ∷ l) st)
                    (ap suc ix) (carry g.driver (some tracker') _ _ same) q')
                  refl)
        ]

    pub record_finite-Recorded :
        (phase : Phase)
        → Recorded w phase f
            (record_finite c w phase tracker t p v f).0
            (record_finite c w phase tracker t p v f).1
    record_finite-Recorded phase =
        let to : Flight S D × Result FlightException (Option Row) → Type 0 =
          λ r. Recorded w phase f r.0 r.1 in
        let g = noted phase in
        subst to (sym (record_finite_lem phase)) (elim (Result-cases (driven phase).1) [
          | inr (e, q) ↦
              subst to
                (sym (
                  bind-err (drive phase) (tell phase) g
                    (drive-err phase g e (noted_driver phase) q)))
                (failed unexpected refl (inr refl) (noted_steps phase) (noted_tracker phase)
                  (noted_index phase))
          | inl (x, q) ↦
              subst to
                (sym (
                  bind-ok (drive phase) (tell phase) g (drive-ok phase g x (noted_driver phase) q)))
                (driven-Recorded phase x (record g { driver = (driven phase).0 }) q refl
                  (noted_tracker phase ∙ there) (noted_steps phase) (noted_index phase)
                  (carry (driven phase).0 g.tracker g.steps g.step_index (noted_same phase)))
        ])

  record_step_lem :
      (w : Watch) (phase : Phase) (f : Flight S D) (r : Odometry × ℕ) (tracker : MissionTracker)
      (s : Vec3 × Vec3)
      → readings w ≡ some r
      → f.tracker ≡ some tracker
      → finite_state r.0 ≡ some s
      → record_step c w phase f ≡ record_finite c w phase tracker r.1 s.0 s.1 f
  unfolding record_step
  record_step_lem w phase f r tracker s e e' e'' = simp (e, e', e'', record_step)

  -- Every outcome of record_step.
  pub record_step-Recorded :
      (w : Watch) (phase : Phase) (f : Flight S D)
      → Recorded w phase f (record_step c w phase f).0 (record_step c w phase f).1
  unfolding record_step
  record_step-Recorded w phase f = elim (Option-cases (readings w)) [
    | inl e ↦ rw (e, record_step) (skipped refl refl)
    | inr (r, e) ↦ elim (Option-cases f.tracker) [
      | inl e' ↦ rw (e, e', record_step) (failed unexpected refl (inr refl) refl e' refl)
      | inr (tracker, e') ↦ elim (Option-cases (finite_state r.0)) [
        | inl e'' ↦ rw (e, e', e'', record_step) (failed sim_fault refl (inl refl) refl e' refl)
        | inr (s, e'') ↦
            subst
              (λ (x : Flight S D × Result FlightException (Option Row)). Recorded w phase f x.0 x.1)
              (sym (record_step_lem w phase f r tracker s e e' e''))
              (record_finite-Recorded w tracker r.1 s.0 s.1 f (readings_now w r e) e' phase)
      ]
    ]
  ]
