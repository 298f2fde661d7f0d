-- ===== src/Mission/Flight/Books.antt =====
-- ros2_ws/src/aero_bridge/aero_bridge/mission_executor.py: the step records agree with the tracker,
-- and are a control period apart.
use mathlib.Core.Path.{subst}
use aero_safe_rl.Base.{
  ℕ, suc, ◌+◌, ◌≤◌, ◌≡◌, refl, sym, ap, ◌∙◌, List, [], ◌∷◌, length, Option, some, Bool, true,
  Result, ok, err, ◌>>=◌, arith, if◌then◌else◌,
}
use aero_safe_rl.Mission.Tracker.{TrackerError, MissionTracker, update}
use aero_safe_rl.Mission.Holds.{Sample, after}
use aero_safe_rl.Mission.Flight.Defs.{
  FlightException, ground_contact, F, is_over, Watch, Phase, is_mission, mission, landing, Row,
  Flight, Plan, judge_row, settle, mission_poll, landing_poll, touch_ground, set_next_record,
  record_due, control_period_s,
}
use aero_safe_rl.Mission.Flight.Records.{Logged, Advances}
use aero_safe_rl.Mission.Flight.Polls.{
  Polled, idle, stopped, refused, handled, MissionPolled, late, judged, landing_poll-Polled,
  mission_poll-MissionPolled,
}

-- The calls of the tracker's update that the rows record, the latest first.
abbrev pub samples : List Row → List Sample
samples [] = []
samples (r ∷ rs) =
    if is_mission r.flight_phase
    then record { t_sim_s = r.t_sim_s; position = r.position; action = r.note.action } ∷ samples rs
    else samples rs

-- A row at `t` would be a control period after the latest one.
abbrev pub Behind : List Row → ℕ → Type 0
Behind [] t = Unit
Behind (r ∷ rs) t = r.t_sim_s + control_period_s ≤ t

-- Each row is a control period after the one before, and they are numbered from 0.
abbrev pub Spaced : List Row → Type 0
Spaced [] = Unit
Spaced (r ∷ rs) = Behind rs r.t_sim_s × (r.step_index ≡ length rs) × Spaced rs

Behind-mono : (rs : List Row) (s t : ℕ) → Behind rs s → s ≤ t → Behind rs t
Behind-mono [] s t b le = tt
Behind-mono (r ∷ rs) s t b le = omega (arith, b, le)

due_le :
    {S D : Type 0} (c : Plan S D) (w : Watch) (f : Flight S D) (t : ℕ)
    → record_due c w f ≡ true
    → w.now_us ≡ some t
    → f.next_record_s ≤ t
due_le c w f t d e = ground arith

some_injective {ℓ} : {A : Type ℓ} {a b : A} → some a ≡ some b → a ≡ b
some_injective e = cc e

module _ (start : MissionTracker) where
  pub record Books (steps : List Row) (tracker : Option MissionTracker) (index : ℕ) : Type 0 where
    pub tracked : (t : MissionTracker) → tracker ≡ some t → after start (samples steps) ≡ ok t
    pub spaced : Spaced steps
    pub counted : index ≡ length steps

  abbrev pub Kept : {S D : Type 0} → Flight S D → Type 0
  Kept f = Books f.steps f.tracker f.step_index

  -- Where no row was refused, the next one is due a control period after the latest.
  abbrev pub Ready : {S D : Type 0} → Flight S D → Type 0
  Ready f = Kept f × Behind f.steps f.next_record_s

  Books-same :
      (s s' : List Row) (t t' : Option MissionTracker) (i i' : ℕ)
      → s' ≡ s
      → t' ≡ t
      → i' ≡ i
      → Books s t i
      → Books s' t' i'
  Books-same s s' t t' i i' p q r b =
      subst (λ x. Books x t' i') (sym p)
        (subst (λ x. Books s x i') (sym q) (subst (λ x. Books s t x) (sym r) b))

  -- The tracker after a row of either phase.
  after_row :
      (phase : Phase) (s : Sample) (h : List Sample) (before t : MissionTracker)
      → after start h ≡ ok before
      → Advances phase s.t_sim_s s.position s.action before t
      → after start (if is_mission phase then s ∷ h else h) ≡ ok t
  unfolding after
  after_row landing s h before t e a = e ∙ ap ok (sym a)
  after_row mission s h before t e a =
      ap (λ (r : Result TrackerError MissionTracker). r >>= update s.t_sim_s s.position s.action) e
      ∙ a

  module _ {S D : Type 0} (c : Plan S D) where
    Logged-Books :
        (w : Watch) (phase : Phase) (f g : Flight S D) (row : Row)
        → Logged c w phase f g row
        → Behind f.steps row.t_sim_s
        → Kept f
        → Kept g
    Logged-Books w phase f g row l b k =
        subst (λ x. Books x g.tracker g.step_index) (sym l.steps_eq)
          (record {
            tracked = λ t e.
                let same : l.after ≡ t = some_injective (sym l.after_eq ∙ e) in
                subst (λ x. after start (samples (row ∷ f.steps)) ≡ ok x) same
                  (after_row row.flight_phase _ (samples f.steps) l.before l.after
                    (k.tracked l.before l.before_eq)
                    (subst
                      (λ p. Advances p row.t_sim_s row.position row.note.action l.before l.after)
                      (sym l.phase_eq) l.advances));
            spaced = (b, l.index_eq ∙ k.counted, k.spaced);
            counted = l.next_index ∙ ap suc k.counted;
          })

    -- A row is recorded no earlier than the state says.
    due-Behind :
        (w : Watch) (phase : Phase) (f g : Flight S D) (row : Row)
        → record_due c w f ≡ true
        → Logged c w phase f g row
        → Behind f.steps f.next_record_s
        → Behind f.steps row.t_sim_s
    due-Behind w phase f g row d l b =
        Behind-mono f.steps f.next_record_s row.t_sim_s b (due_le c w f row.t_sim_s d l.time_eq)

    -- What the handlers of a row leave alone.
    pub record HandledBy (g f' : Flight S D) (row : Row) : Type 0 where
      pub steps_eq : f'.steps ≡ g.steps
      pub tracker_eq : f'.tracker ≡ g.tracker
      pub index_eq : f'.step_index ≡ g.step_index
      pub driver_eq : f'.driver ≡ g.driver
      pub next_eq : f'.next_record_s ≡ row.t_sim_s + control_period_s

    judge_row_lem :
        (row : Row) (g : Flight S D)
        → judge_row c (some row) g ≡ (
          (touch_ground c row (set_next_record c row.t_sim_s g)).0,
          elim (touch_ground c row (set_next_record c row.t_sim_s g)).1 [
            | ok b ↦ if b then err ground_contact else ok tt
            | err e ↦ err e
          ],
        )
    unfolding judge_row touch_ground
    judge_row_lem row g = ground arith

    judge_row-HandledBy :
        (row : Row) (g : Flight S D) → HandledBy g (judge_row c (some row) g).0 row
    unfolding touch_ground
    judge_row-HandledBy row g =
        subst (λ (r : Flight S D × Result FlightException (Unit {0})). HandledBy g r.0 row)
          (sym (judge_row_lem row g))
          (record {
            steps_eq = refl;
            tracker_eq = refl;
            index_eq = refl;
            driver_eq = refl;
            next_eq = refl;
          })

    pub settle-HandledBy : (row : Row) (g : Flight S D) → HandledBy g (settle c (some row) g).0 row
    unfolding settle
    settle-HandledBy row g = record {
      steps_eq = ground arith;
      tracker_eq = ground arith;
      index_eq = ground arith;
      driver_eq = ground arith;
      next_eq = ground arith;
    }

    HandledBy-Ready :
        (g f' : Flight S D) (row : Row) (rs : List Row)
        → g.steps ≡ row ∷ rs
        → HandledBy g f' row
        → Kept g
        → Ready f'
    HandledBy-Ready g f' row rs e h k = (
      Books-same _ _ _ _ _ _ h.steps_eq h.tracker_eq h.index_eq k,
      subst (λ x. Behind x f'.next_record_s) (sym (h.steps_eq ∙ e)) (omega (arith, h.next_eq)),
    )

    -- A poll keeps the books, and leaves them ready for the next one if it returns.
    Polled-Ready :
        (w : Watch) (phase : Phase) (handle : Option Row → F c (Unit {0})) (f f' : Flight S D)
        (r : Result FlightException (Unit {0}))
        → ((row : Row) (g : Flight S D) → HandledBy g (handle (some row) g).0 row)
        → Polled c w phase handle f f' r
        → Ready f
        → Kept f' × (r ≡ ok tt → Ready f')
    Polled-Ready w phase handle f f' r h (idle same q) k =
        let k' = subst Ready (sym same) k in (k'.0, λ _. k')
    Polled-Ready w phase handle f f' r h (stopped e q _ st tr ix) k =
        (Books-same _ _ _ _ _ _ st tr ix k.0, λ z. cc (q, z))
    Polled-Ready w phase handle f f' r h (refused d row l q) k =
        (Logged-Books w phase f f' row l (due-Behind w phase f f' row d l k.1) k.0, λ z. cc (q, z))
    Polled-Ready w phase handle f f' r h (handled d g row l q) k =
        let kg = Logged-Books w phase f g row l (due-Behind w phase f g row d l k.1) k.0 in
        let hb = subst (λ x. HandledBy g x row) (ap (λ x. x.0) q) (h row g) in
        let k' = HandledBy-Ready g f' row f.steps l.steps_eq hb kg in (k'.0, λ _. k')

    MissionPolled-Ready :
        (w : Watch) (f f' : Flight S D) (r : Result FlightException Bool)
        → MissionPolled c w f f' r
        → Ready f
        → Kept f' × ((b : Bool) → r ≡ ok b → Ready f' × (b ≡ is_over c f'))
    MissionPolled-Ready w f f' r (late same q) k = (subst Kept (sym same) k.0, λ b z. cc (q, z))
    MissionPolled-Ready w f f' r (judged (ok u) p q) k =
        let (k', ready) =
          Polled-Ready w mission (judge_row c) f f' (ok u) judge_row-HandledBy p k in
        (k', λ b z. (ready refl, cc (q, z)))
    MissionPolled-Ready w f f' r (judged (err e) p q) k =
        let (k', ready) =
          Polled-Ready w mission (judge_row c) f f' (err e) judge_row-HandledBy p k in
        (k', λ b z. cc (q, z))

    pub landing_poll-Ready :
        (w : Watch) (f : Flight S D)
        → Ready f
        → Kept (landing_poll c w f).0
          × ((landing_poll c w f).1 ≡ ok tt → Ready (landing_poll c w f).0)
    landing_poll-Ready w f k =
        Polled-Ready w landing (settle c) f _ _ settle-HandledBy (landing_poll-Polled c w f) k

    pub mission_poll-Ready :
        (w : Watch) (f : Flight S D)
        → Ready f
        → Kept (mission_poll c w f).0
          × ((b : Bool)
              → (mission_poll c w f).1 ≡ ok b
              → Ready (mission_poll c w f).0 × (b ≡ is_over c (mission_poll c w f).0))
    mission_poll-Ready w f k = MissionPolled-Ready w f _ _ (mission_poll-MissionPolled c w f) k
