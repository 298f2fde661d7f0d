-- ===== src/Policy/RuleBased/Confirm.antt =====
-- rl/policies/rule_based.py: when the machine confirms a fault, stated over the history alone.
use aero_safe_rl.Base.{
  ℕ, ◌≤◌, ◌≡◌, refl, ◌⊎◌, inl, inr, some, true, false, ℤ, sub_ℕ, leb_ℤ, ok, arith, List, [], ◌∷◌,
  Option-cases, Bool-cases, ap, ◌↔◌,
}
use aero_safe_rl.Policy.RuleBased.Defs.{
  FsmState, FsmConfig, Fsm, Reading, post_init, reset, watch, observe, after, held_for, hold_since,
  action_of, act,
}
use aero_safe_rl.Policy.Action.{Action, ActionSpec, nominal}
use aero_safe_rl.Policy.Input.{PolicyInput}
use aero_safe_rl.Policy.RuleBased.Diagram.{
  IsHysteresis, post_init-IsHysteresis, Quiet, after-Quiet, state_cases, observe_normal,
  observe_suspected, observe_recovering, observe_aborted, is_latched, held_for_now,
}

module _ (c : FsmConfig) where
  -- Every reading from one at time `s` up to the latest had p >= suspect_p.
  abbrev pub HighSince : ℕ → List Reading → Type 0
  HighSince s [] = ⊥
  HighSince s (r ∷ rs) = (leb_ℤ c.suspect_p r.p ≡ true) × ((r.t ≡ s) ⊎ HighSince s rs)

  -- At some reading of the history, p had stayed at or above suspect_p for confirm_hold_s.
  abbrev pub Confirmed : List Reading → Type 0
  Confirmed [] = ⊥
  Confirmed (r ∷ rs) =
      ((s : ℕ) × HighSince s (r ∷ rs) × (leb_ℤ c.confirm_hold_s (sub_ℕ r.t s) ≡ true))
      ⊎ Confirmed rs

-- Time does not run backwards.
abbrev pub NotAfter : List Reading → ℕ → Type 0
NotAfter [] t = Unit
NotAfter (r ∷ rs) t = r.t ≤ t

abbrev pub Ordered : List Reading → Type 0
Ordered [] = Unit
Ordered (r ∷ rs) = NotAfter rs r.t × Ordered rs

observe-high_since :
    (c : FsmConfig) (t : ℕ) (p sev : ℤ) (m : Fsm)
    → (observe c t p sev m).high_since ≡ hold_since (leb_ℤ c.suspect_p p) m.high_since t
unfolding observe
observe-high_since c t p sev m = ground arith

module _ (c : FsmConfig) where
  high_since-HighSince :
      (rs : List Reading) (s : ℕ) → (after c rs).high_since ≡ some s → HighSince c s rs
  unfolding after reset
  high_since-HighSince [] s e = cc
  high_since-HighSince (r ∷ rs) s e = elim (Option-cases (after c rs).high_since) [
    | inl n ↦ ground (arith, observe-high_since c r.t r.p r.sev (after c rs))
    | inr (s', q) ↦
        ground (arith, observe-high_since c r.t r.p r.sev (after c rs), high_since-HighSince rs s')
  ]

  HighSince-le :
      (rs : List Reading) (s t : ℕ) → Ordered rs → NotAfter rs t → HighSince c s rs → s ≤ t
  HighSince-le [] s t o n h = absurd h
  HighSince-le (r ∷ rs) s t (o, os) n (_, inl e) = omega arith
  HighSince-le (r ∷ rs) s t (o, os) n (_, inr h) = omega (arith, HighSince-le rs s r.t os o h)

  -- The machine's own start of the hold is at or before any other one.
  HighSince-high_since :
      (rs : List Reading) (s : ℕ)
      → Ordered rs
      → HighSince c s rs
      → (s' : ℕ) × ((after c rs).high_since ≡ some s') × (s' ≤ s)
  unfolding after
  HighSince-high_since [] s o h = absurd h
  HighSince-high_since (r ∷ rs) s (o, os) (e, inl q) = elim (Option-cases (after c rs).high_since) [
    | inl n ↦ (r.t, ground (arith, observe-high_since c r.t r.p r.sev (after c rs)), omega arith)
    | inr (s', q') ↦ (
      s',
      ground (arith, observe-high_since c r.t r.p r.sev (after c rs)),
      omega (arith, HighSince-le rs s' r.t os o (high_since-HighSince rs s' q')),
    )
  ]
  HighSince-high_since (r ∷ rs) s (o, os) (e, inr h) =
      let (s', q, le) = HighSince-high_since rs s os h in
      (s', ground (arith, observe-high_since c r.t r.p r.sev (after c rs)), le)

module _ (c : FsmConfig) (h : IsHysteresis c) (t : ℕ) (p sev : ℤ) (m : Fsm) where
  -- Only a full confirmation hold latches.
  latch_needs_hold :
      Quiet m
      → is_latched m.state ≡ false
      → is_latched (observe c t p sev m).state ≡ true
      → held_for (observe c t p sev m).high_since t c.confirm_hold_s ≡ true
  unfolding watch
  latch_needs_hold q n l =
      ground
        (arith, state_cases m.state, observe_normal c h t p sev m, observe_suspected c h t p sev m)

  hold_latches :
      Quiet m
      → held_for (observe c t p sev m).high_since t c.confirm_hold_s ≡ true
      → is_latched (observe c t p sev m).state ≡ true
  unfolding watch
  hold_latches q l = ground (
    arith,
    state_cases m.state,
    observe_normal c h t p sev m,
    observe_suspected c h t p sev m,
    observe_recovering c h t p sev m,
    observe_aborted c h t p sev m,
    held_for_now t c.confirm_hold_s h.confirm_pos,
  )

  latch_stays : is_latched m.state ≡ true → is_latched (observe c t p sev m).state ≡ true
  unfolding watch
  latch_stays l =
      ground (
        arith,
        state_cases m.state,
        observe_recovering c h t p sev m,
        observe_aborted c h t p sev m,
      )

-- An earlier start has been held for at least as long.
held_for_mono :
    (s s' t : ℕ) (hold : ℤ)
    → s' ≤ s
    → leb_ℤ hold (sub_ℕ t s) ≡ true
    → held_for (some s') t hold ≡ true
held_for_mono s s' t hold le e = ground arith

module _ (c : FsmConfig) (h : IsHysteresis c) where
  latched_sound : (rs : List Reading) → is_latched (after c rs).state ≡ true → Confirmed c rs
  unfolding after reset
  latched_sound [] l = cc
  latched_sound (r ∷ rs) l = elim (Bool-cases (is_latched (after c rs).state)) [
    | inl before ↦ inr (latched_sound rs before)
    | inr fresh ↦
        let held = latch_needs_hold c h r.t r.p r.sev (after c rs) (after-Quiet c rs h) fresh l in
        elim (Option-cases (after c (r ∷ rs)).high_since) [
          | inl n ↦ ground arith
          | inr (s, q) ↦ inl (s, high_since-HighSince c (r ∷ rs) s q, ground arith)
        ]
  ]

  latched_complete :
      (rs : List Reading) → Ordered rs → Confirmed c rs → is_latched (after c rs).state ≡ true
  unfolding after
  latched_complete [] o k = absurd k
  latched_complete (r ∷ rs) (o, os) (inl (s, run, held)) =
      let (s', q, le) = HighSince-high_since c (r ∷ rs) s (o, os) run in
      hold_latches c h r.t r.p r.sev (after c rs) (after-Quiet c rs h)
        (rw q (held_for_mono s s' r.t c.confirm_hold_s le held))
  latched_complete (r ∷ rs) (o, os) (inr k) =
      latch_stays c h r.t r.p r.sev (after c rs) (latched_complete rs os k)

-- For an accepted configuration and a history whose time does not run backwards, the machine is in
-- RECOVERING or ABORTED exactly when at some decision p_fault had stayed at or above suspect_p at
-- every decision for confirm_hold_s.
pub latched_iff_Confirmed :
    (c : FsmConfig) (rs : List Reading)
    → post_init c ≡ ok c
    → Ordered rs
    → (is_latched (after c rs).state ≡ true) ↔ Confirmed c rs
latched_iff_Confirmed c rs v o =
    let h = post_init-IsHysteresis c v in (latched_sound c h rs, latched_complete c h rs o)

-- Some decision had both p_fault and the severity estimate at or above their thresholds.
abbrev pub Severe : FsmConfig → List Reading → Type 0
Severe c [] = ⊥
Severe c (r ∷ rs) =
    ((leb_ℤ c.suspect_p r.p ≡ true) × (leb_ℤ c.land_severity r.sev ≡ true)) ⊎ Severe c rs

aborted_step :
    (c : FsmConfig) (h : IsHysteresis c) (t : ℕ) (p sev : ℤ) (m : Fsm)
    → Quiet m
    → (observe c t p sev m).state ≡ FsmState.aborted
    → (m.state ≡ FsmState.aborted)
      ⊎ ((leb_ℤ c.suspect_p p ≡ true) × (leb_ℤ c.land_severity sev ≡ true))
unfolding watch
aborted_step c h t p sev m q a = ground (
  arith,
  state_cases m.state,
  observe_normal c h t p sev m,
  observe_suspected c h t p sev m,
  observe_recovering c h t p sev m,
)

aborted-Severe :
    (c : FsmConfig) (h : IsHysteresis c) (rs : List Reading)
    → (after c rs).state ≡ FsmState.aborted
    → Severe c rs
unfolding after reset
aborted-Severe c h [] e = cc
aborted-Severe c h (r ∷ rs) e =
    elim (aborted_step c h r.t r.p r.sev (after c rs) (after-Quiet c rs h) e) [
      | inl before ↦ inr (aborted-Severe c h rs before)
      | inr now ↦ inl now
    ]

-- What a decision's input adds to the history.
abbrev pub reading : PolicyInput → Reading
reading obs = record { t = obs.t_sim_s; p = obs.detector.p_fault; sev = obs.detector.severity }

landing_state :
    (c : FsmConfig) (spec : ActionSpec) (n a : Action) (s : FsmState)
    → nominal spec ≡ ok n
    → n.land ≡ false
    → action_of c spec s ≡ ok a
    → a.land ≡ true
    → s ≡ FsmState.aborted
unfolding action_of
landing_state c spec n a FsmState.normal e f g l = ground arith
landing_state c spec n a FsmState.suspected e f g l = ground arith
landing_state c spec n a FsmState.recovering e f g l = ground arith
landing_state c spec n a FsmState.aborted e f g l = refl

-- Where the nominal action does not land, the policy orders a landing only if its history, this
-- decision included, holds a confirmation, and a decision at which p_fault and the severity
-- estimate were both at or above their thresholds.
pub land_needs_evidence :
    (c : FsmConfig) (spec : ActionSpec) (n a : Action) (obs : PolicyInput) (rs : List Reading)
    → post_init c ≡ ok c
    → nominal spec ≡ ok n
    → n.land ≡ false
    → (act c spec (after c rs) obs).1 ≡ ok a
    → a.land ≡ true
    → Confirmed c (reading obs ∷ rs) × Severe c (reading obs ∷ rs)
unfolding act after
land_needs_evidence c spec n a obs rs v e f g l =
    let h = post_init-IsHysteresis c v in
    let landing : (after c (reading obs ∷ rs)).state ≡ FsmState.aborted =
      landing_state c spec n a (after c (reading obs ∷ rs)).state e f g l in
    (
      latched_sound c h (reading obs ∷ rs) (ap is_latched landing),
      aborted-Severe c h (reading obs ∷ rs) landing,
    )
