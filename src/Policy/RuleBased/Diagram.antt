-- ===== src/Policy/RuleBased/Diagram.antt =====
-- rl/policies/rule_based.py: the transition diagram of the module's comment.
use aero_safe_rl.Base.{
  ℕ, ◌≡◌, refl, ◌⊎◌, inl, inr, none, some, Bool, true, false, ◌&&◌, ℤ, pos, leb_ℤ, ltb_ℤ, ok, arith,
  if◌then◌else◌, or_else, List, [], ◌∷◌,
}
use aero_safe_rl.Policy.RuleBased.Defs.{
  FsmState, FsmConfig, Fsm, Reading, post_init, reset, watch, observe, after, held_for,
}

-- The thresholds and hold times that `post_init` accepts.
pub record IsHysteresis (c : FsmConfig) : Type 0 where
  pub ordered : ltb_ℤ c.clear_p c.suspect_p ≡ true
  pub confirm_pos : ltb_ℤ (pos 0) c.confirm_hold_s ≡ true
  pub clear_pos : ltb_ℤ (pos 0) c.clear_hold_s ≡ true

pub post_init-IsHysteresis : (c : FsmConfig) → post_init c ≡ ok c → IsHysteresis c
unfolding post_init
post_init-IsHysteresis c h = record {
  ordered = ground arith;
  confirm_pos = ground arith;
  clear_pos = ground arith;
}

-- A reading at or above suspect_p is not below clear_p.
pub high_not_low :
    (c : FsmConfig) (p : ℤ)
    → IsHysteresis c
    → leb_ℤ c.suspect_p p ≡ true
    → ltb_ℤ p c.clear_p ≡ false
high_not_low c p h q = ground (arith, h.ordered)

-- A hold that starts now has not lasted yet.
pub held_for_now : (t : ℕ) (hold : ℤ) → ltb_ℤ (pos 0) hold ≡ true → held_for (some t) t hold ≡ false
held_for_now t hold h = ground arith

-- While the machine is NORMAL the last reading was below suspect_p.
abbrev pub Quiet : Fsm → Type 0
Quiet m = m.state ≡ FsmState.normal → m.high_since ≡ none

pub data Edge : FsmState → FsmState → Type 0 where
  stay : {s : FsmState} → Edge s s
  suspects : Edge FsmState.normal FsmState.suspected
  clears : Edge FsmState.suspected FsmState.normal
  degrades : Edge FsmState.suspected FsmState.recovering
  aborts : Edge FsmState.suspected FsmState.aborted
  worsens : Edge FsmState.recovering FsmState.aborted

abbrev allowed : FsmState → FsmState → Bool
allowed FsmState.normal FsmState.normal = true
allowed FsmState.normal FsmState.suspected = true
allowed FsmState.suspected _ = true
allowed FsmState.recovering FsmState.recovering = true
allowed FsmState.recovering FsmState.aborted = true
allowed FsmState.aborted FsmState.aborted = true
allowed _ _ = false

Edge-of : (s u : FsmState) → allowed s u ≡ true → Edge s u
Edge-of FsmState.normal FsmState.normal e = stay
Edge-of FsmState.normal FsmState.suspected e = suspects
Edge-of FsmState.normal FsmState.recovering e = cc
Edge-of FsmState.normal FsmState.aborted e = cc
Edge-of FsmState.suspected FsmState.normal e = clears
Edge-of FsmState.suspected FsmState.suspected e = stay
Edge-of FsmState.suspected FsmState.recovering e = degrades
Edge-of FsmState.suspected FsmState.aborted e = aborts
Edge-of FsmState.recovering FsmState.normal e = cc
Edge-of FsmState.recovering FsmState.suspected e = cc
Edge-of FsmState.recovering FsmState.recovering e = stay
Edge-of FsmState.recovering FsmState.aborted e = worsens
Edge-of FsmState.aborted FsmState.normal e = cc
Edge-of FsmState.aborted FsmState.suspected e = cc
Edge-of FsmState.aborted FsmState.recovering e = cc
Edge-of FsmState.aborted FsmState.aborted e = stay

pub state_cases :
    (s : FsmState)
    → (s ≡ FsmState.normal)
      ⊎ ((s ≡ FsmState.suspected) ⊎ ((s ≡ FsmState.recovering) ⊎ (s ≡ FsmState.aborted)))
state_cases FsmState.normal = inl refl
state_cases FsmState.suspected = inr (inl refl)
state_cases FsmState.recovering = inr (inr (inl refl))
state_cases FsmState.aborted = inr (inr (inr refl))

-- The tests that one transition makes, as Booleans.
module _ (c : FsmConfig) (h : IsHysteresis c) (t : ℕ) (p sev : ℤ) (m : Fsm) where
  watched_quiet :
      leb_ℤ c.suspect_p p ≡ true
      → ((watch c t p m).low_since ≡ none) × ((s : ℕ) × ((watch c t p m).high_since ≡ some s))
  unfolding watch
  watched_quiet e = (ground (arith, high_not_low c p h), (or_else m.high_since t, ground arith))

  -- From NORMAL the machine can only become SUSPECTED, on a reading at or above suspect_p.
  pub observe_normal :
      m.state ≡ FsmState.normal
      → m.high_since ≡ none
      → observe c t p sev m ≡ (
          if leb_ℤ c.suspect_p p
          then record (watch c t p m) { state = FsmState.suspected }
          else watch c t p m)
  unfolding observe
  observe_normal n q =
      ground (arith, high_not_low c p h, held_for_now t c.confirm_hold_s h.confirm_pos)

  -- From SUSPECTED a full confirmation hold decides between RECOVERING and ABORTED, and otherwise
  -- a full clear hold leads back to NORMAL.
  pub observe_suspected :
      m.state ≡ FsmState.suspected
      → let w = watch c t p m in
        observe c t p sev m ≡ (
          if held_for w.high_since t c.confirm_hold_s
          then record w {
            confirmed_at_s = some t;
            state = if leb_ℤ c.land_severity sev then FsmState.aborted else FsmState.recovering;
          }
          else (if held_for w.low_since t c.clear_hold_s
              then record w { state = FsmState.normal }
              else w))
  unfolding observe
  observe_suspected n = ground arith

  pub observe_recovering :
      m.state ≡ FsmState.recovering
      → observe c t p sev m ≡ (
          if leb_ℤ c.suspect_p p && leb_ℤ c.land_severity sev
          then record (watch c t p m) { state = FsmState.aborted }
          else watch c t p m)
  unfolding observe
  observe_recovering n = ground arith

  pub observe_aborted : m.state ≡ FsmState.aborted → observe c t p sev m ≡ watch c t p m
  unfolding observe
  observe_aborted n = ground arith

  observe-allowed : Quiet m → allowed m.state (observe c t p sev m).state ≡ true
  unfolding watch
  observe-allowed q = elim (state_cases m.state) [
    | inl e ↦ rw (observe_normal e (q e)) (ground arith)
    | inr (inl e) ↦ rw (observe_suspected e) (ground arith)
    | inr (inr (inl e)) ↦ rw (observe_recovering e) (ground arith)
    | inr (inr (inr e)) ↦ rw (observe_aborted e) (ground arith)
  ]

  pub observe-Edge : Quiet m → Edge m.state (observe c t p sev m).state
  observe-Edge q = Edge-of m.state (observe c t p sev m).state (observe-allowed q)

  pub observe-Quiet : Quiet m → Quiet (observe c t p sev m)
  unfolding watch
  observe-Quiet q = elim (state_cases m.state) [
    | inl e ↦ rw (observe_normal e (q e)) (ground arith)
    | inr (inl e) ↦ rw (observe_suspected e) (ground (arith, high_not_low c p h))
    | inr (inr (inl e)) ↦ rw (observe_recovering e) (ground arith)
    | inr (inr (inr e)) ↦ rw (observe_aborted e) (ground arith)
  ]

pub after-Quiet : (c : FsmConfig) (rs : List Reading) → IsHysteresis c → Quiet (after c rs)
unfolding after reset
after-Quiet c [] h = λ _. refl
after-Quiet c (r ∷ rs) h = observe-Quiet c h r.t r.p r.sev (after c rs) (after-Quiet c rs h)

-- Every decision of an accepted configuration, after any history, stays in its state or follows
-- one edge of the diagram.
pub after-Edge :
    (c : FsmConfig) (r : Reading) (rs : List Reading)
    → post_init c ≡ ok c
    → Edge (after c rs).state (after c (r ∷ rs)).state
unfolding after
after-Edge c r rs v =
    let h = post_init-IsHysteresis c v in
    observe-Edge c h r.t r.p r.sev (after c rs) (after-Quiet c rs h)

abbrev pub is_latched : FsmState → Bool
is_latched FsmState.recovering = true
is_latched FsmState.aborted = true
is_latched _ = false
