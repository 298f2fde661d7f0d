-- ===== src/Mission/Flight/Polls.antt =====
-- ros2_ws/src/aero_bridge/aero_bridge/mission_executor.py: what a poll of either loop changes.
use mathlib.Core.Path.{subst}
use aero_safe_rl.Base.{
  ◌≡◌, refl, sym, ap, ◌∙◌, ◌⊎◌, inl, inr, Option, none, some, Bool, true, Bool-cases, Result, ok,
  err, arith, if◌then◌else◌,
}
use aero_safe_rl.Base.Methods.{◌>>=◌, bind-ok, bind-err}
use aero_safe_rl.Mission.Flight.Defs.{
  FlightException, sim_fault, unexpected, mission_timeout, Watch, Phase, mission, landing, Row,
  Flight, Plan, F, record_step, when_due, record_due, is_over, tell_over, judge_row, settle,
  mission_poll, landing_poll, check_mission_deadline,
}
use aero_safe_rl.Mission.Flight.Records.{
  Recorded, skipped, failed, logged, Logged, record_step-Recorded,
}

module _ {S D : Type 0} (c : Plan S D) where
  -- A poll that hands its row on to `handle`.
  pub data Polled (w : Watch) (phase : Phase) (handle : Option Row → F c (Unit {0}))
      (f f' : Flight S D) (r : Result FlightException (Unit {0})) : Type 0 where
    idle : f' ≡ f → r ≡ ok tt → Polled w phase handle f f' r
    stopped :
        (e : FlightException)
        → r ≡ err e
        → (e ≡ sim_fault) ⊎ (e ≡ unexpected)
        → f'.steps ≡ f.steps
        → f'.tracker ≡ f.tracker
        → f'.step_index ≡ f.step_index
        → Polled w phase handle f f' r
    refused :
        record_due c w f ≡ true
        → (row : Row) → Logged c w phase f f' row
        → r ≡ err unexpected
        → Polled w phase handle f f' r
    handled :
        record_due c w f ≡ true
        → (g : Flight S D) (row : Row) → Logged c w phase f g row
        → handle (some row) g ≡ (f', r)
        → Polled w phase handle f f' r

  module _ (w : Watch) (phase : Phase) (handle : Option Row → F c (Unit {0}))
      (nothing : (g : Flight S D) → handle none g ≡ (g, ok tt)) (f : Flight S D)
      (due : record_due c w f ≡ true) where
    abbrev To : Flight S D × Result FlightException (Unit {0}) → Type 0
    To r = Polled w phase handle f r.0 r.1

    Recorded-Polled :
        (g : Flight S D) (r : Result FlightException (Option Row))
        → record_step c w phase f ≡ (g, r)
        → Recorded c w phase f g r
        → To ((record_step c w phase >>= handle) f)
    Recorded-Polled g r e (skipped same q) =
        let e' = e ∙ ap (λ x. (g, x)) q in
        subst To (sym (bind-ok (record_step c w phase) handle f e' ∙ nothing g)) (idle same refl)
    Recorded-Polled g r e (failed x q k st tr ix) =
        let e' = e ∙ ap (λ x. (g, x)) q in
        subst To (sym (bind-err (record_step c w phase) handle f e')) (stopped x refl k st tr ix)
    Recorded-Polled g r e (logged row l q) = elim (Bool-cases (c.on_step row)) [
      | inr n ↦
          let q' : r ≡ err unexpected =
            q ∙ ap (λ b. if b then ok (some row) else err unexpected) n in
          let e' = e ∙ ap (λ x. (g, x)) q' in
          subst To (sym (bind-err (record_step c w phase) handle f e')) (refused due row l refl)
      | inl y ↦
          let q' : r ≡ ok (some row) =
            q ∙ ap (λ b. if b then ok (some row) else err unexpected) y in
          let e' = e ∙ ap (λ x. (g, x)) q' in
          subst To (sym (bind-ok (record_step c w phase) handle f e')) (handled due g row l refl)
    ]

  pub when_due-Polled :
      (w : Watch) (phase : Phase) (handle : Option Row → F c (Unit {0}))
      → ((g : Flight S D) → handle none g ≡ (g, ok tt))
      → (f : Flight S D)
      → Polled w phase handle f (when_due c phase handle w f).0 (when_due c phase handle w f).1
  when_due-Polled w phase handle nothing f = elim (Bool-cases (record_due c w f)) [
    | inr n ↦
        subst
          (λ (r : Flight S D × Result FlightException (Unit {0})). Polled w phase handle f r.0 r.1)
          (ap (λ b. if b then (record_step c w phase >>= handle) f else (f, ok tt)) (sym n))
          (idle refl refl)
    | inl y ↦
        subst
          (λ (r : Flight S D × Result FlightException (Unit {0})). Polled w phase handle f r.0 r.1)
          (ap (λ b. if b then (record_step c w phase >>= handle) f else (f, ok tt)) (sym y))
          (Recorded-Polled w phase handle nothing f y _ _ refl (record_step-Recorded c w phase f))
  ]

  pub landing_poll-Polled :
      (w : Watch) (f : Flight S D)
      → Polled w landing (settle c) f (landing_poll c w f).0 (landing_poll c w f).1
  unfolding landing_poll settle
  landing_poll-Polled w f = when_due-Polled w landing (settle c) (λ g. refl) f

  -- A poll of the mission: its budget is spent, or a row may be judged.
  pub data MissionPolled (w : Watch) (f f' : Flight S D) (r : Result FlightException Bool)
      : Type 0 where
    late : f' ≡ f → r ≡ err mission_timeout → MissionPolled w f f' r
    judged :
        (x : Result FlightException (Unit {0}))
        → Polled w mission (judge_row c) f f' x
        → r ≡ elim x [ ok _ ↦ ok (is_over c f') | err e ↦ err e ]
        → MissionPolled w f f' r

  check_cases :
      (w : Watch) (f : Flight S D)
      → (check_mission_deadline c w f ≡ (f, ok tt))
        ⊎ (check_mission_deadline c w f ≡ (f, err mission_timeout))
  unfolding check_mission_deadline
  check_cases w f = ground arith

  judge_row-Polled :
      (w : Watch) (f : Flight S D)
      → Polled w mission
          (judge_row c)
          f
          (when_due c mission (judge_row c) w f).0
          (when_due c mission (judge_row c) w f).1
  unfolding judge_row
  judge_row-Polled w f = when_due-Polled w mission (judge_row c) (λ g. refl) f

  -- What the mission's poll returns, when its row is judged.
  told :
      (w : Watch) (f g : Flight S D) (x : Result FlightException (Unit {0}))
      → when_due c mission (judge_row c) w f ≡ (g, x)
      → Polled w mission (judge_row c) f g x
      → MissionPolled w f
          ((when_due c mission (judge_row c) w >>= tell_over c) f).0
          ((when_due c mission (judge_row c) w >>= tell_over c) f).1
  told w f g (ok u) e k =
      subst (λ (r : Flight S D × Result FlightException Bool). MissionPolled w f r.0 r.1)
        (sym (bind-ok (when_due c mission (judge_row c) w) (tell_over c) f e))
        (judged (ok u) k refl)
  told w f g (err x) e k =
      subst (λ (r : Flight S D × Result FlightException Bool). MissionPolled w f r.0 r.1)
        (sym (bind-err (when_due c mission (judge_row c) w) (tell_over c) f e))
        (judged (err x) k refl)

  pub mission_poll-MissionPolled :
      (w : Watch) (f : Flight S D) → MissionPolled w f (mission_poll c w f).0 (mission_poll c w f).1
  unfolding mission_poll
  mission_poll-MissionPolled w f =
      let rest : Unit {0} → F c Bool = λ _. when_due c mission (judge_row c) w >>= tell_over c in
      let to : Flight S D × Result FlightException Bool → Type 0 = λ r. MissionPolled w f r.0 r.1 in
      elim (check_cases w f) [
        | inr e ↦ subst to (sym (bind-err (check_mission_deadline c w) rest f e)) (late refl refl)
        | inl e ↦
            subst to (sym (bind-ok (check_mission_deadline c w) rest f e))
              (told w f _ _ refl (judge_row-Polled w f))
      ]
