-- ===== src/Mission/Complete.antt =====
-- rl/mission_tracker.py: a full hold at a leg's waypoint is also enough to leave the leg.
use aero_safe_rl.Base.{
  ℕ, suc, ◌≤◌, ◌<◌, ◌≡◌, ◌⊎◌, inl, inr, ◌↔◌, List, [], ◌∷◌, none, some, or_else, true, false, ℤ,
  leb_ℤ, sub_ℕ, Option-cases, ok, >>=-eq-ok, arith, sym, ap, ◌∙◌,
}
use aero_safe_rl.Policy.Action.{ActionSpec}
use aero_safe_rl.Mission.Tracker.{
  MissionConfig, MissionTracker, new_tracker, Legs, leg_at, waypoint, update,
}
use aero_safe_rl.Mission.Steps.{Moves, over, away, holding, leaving, update-Moves}
use aero_safe_rl.Mission.Holds.{Sample, after, InPlace, HeldSince, Held, after-HoldsTrue}

-- Simulated time does not run backwards.
abbrev pub NotAfter : List Sample → ℕ → Type 0
NotAfter [] t = Unit
NotAfter (s ∷ h) t = s.t_sim_s ≤ t

abbrev pub Ordered : List Sample → Type 0
Ordered [] = Unit
Ordered (s ∷ h) = NotAfter h s.t_sim_s × Ordered h

leb_ℤ_earlier :
    (hold : ℤ) (t a b : ℕ) → a ≤ b → leb_ℤ hold (sub_ℕ t b) ≡ true → leb_ℤ hold (sub_ℕ t a) ≡ true
leb_ℤ_earlier hold t a b le h = ground arith

-- In a call that finds the vehicle in place, the hold goes on or is complete.
module _ (start : MissionTracker) (s : Sample) (h : List Sample) (i : ℕ) (t t' : MissionTracker)
    (e : after start h ≡ ok t) (x : InPlace start i s h) where
  same_before : x.before ≡ t
  same_before = cc (x.before_eq, e)

  leg_before : t.leg ≡ i
  leg_before = sym (ap (λ (b : MissionTracker). b.leg) same_before) ∙ x.leg_eq

  in_place_lem :
      Moves s.t_sim_s s.position s.action t t'
      → ((t'.leg ≡ i)
          × (t'.held_since ≡ some (or_else t.held_since s.t_sim_s))
          × (leb_ℤ (waypoint t).hold_s (sub_ℕ s.t_sim_s (or_else t.held_since s.t_sim_s)) ≡ false))
        ⊎ (t'.leg ≡ suc i)
  in_place_lem (over d q) = absurd (cc (x.under_way, d, same_before))
  in_place_lem (away d u q n same z) =
      let same_moved : u ≡ x.moved = cc (q, x.moved_eq, same_before) in
      absurd (cc (n, x.in_place, same_moved))
  in_place_lem (holding d u q y short same z) = inl (same ∙ leg_before, z, short)
  in_place_lem (leaving d u q y full next n) = inr (next ∙ ap suc leg_before)

module _ (start : MissionTracker) (fresh : start.leg ≡ 0) (idle : start.held_since ≡ none) where
  HeldSince-le :
      (i since t : ℕ) (h : List Sample)
      → Ordered h
      → NotAfter h t
      → HeldSince start i since h
      → since ≤ t
  HeldSince-le i since t [] o n x = absurd x
  HeldSince-le i since t (s ∷ h) (o, os) n (_, inl e) = omega arith
  HeldSince-le i since t (s ∷ h) (o, os) n (_, inr x) =
      omega (arith, HeldSince-le i since s.t_sim_s h os o x)

  -- The tracker's own hold started no later than any other.
  held_le :
      (i since : ℕ) (s : Sample) (h : List Sample) (t : MissionTracker)
      → Ordered (s ∷ h)
      → after start h ≡ ok t
      → HeldSince start i since (s ∷ h)
      → or_else t.held_since s.t_sim_s ≤ since
  unfolding after
  held_le i since s h t (o, os) e (x, inl now) = elim (Option-cases t.held_since) [
    | inl n ↦ rw n (omega (arith, now))
    | inr (since', z) ↦
        let true_ = after-HoldsTrue start fresh idle h t e in
        rw z (omega (arith, now, HeldSince-le t.leg since' s.t_sim_s h os o (true_.held since' z)))
  ]
  held_le i since s [] t o e (x, inr before) = absurd before
  held_le i since s (s1 ∷ h) t (o, os) e (x, inr before) =
      let (t1, e1, u1) = >>=-eq-ok (after start h) (update s1.t_sim_s s1.position s1.action) e in
      let ih = held_le i since s1 h t1 os e1 before in
      let leg = leg_before start s (s1 ∷ h) i t t e x in
      elim (in_place_lem start s1 h i t1 t e1 before.0
        (update-Moves s1.t_sim_s s1.position s1.action t1 t u1)) [
          | inl (_, z, _) ↦ rw z ih
          | inr next ↦ absurd (omega (arith, leg, next))
        ]

  leg_mono :
      (s : Sample) (t t' : MissionTracker)
      → Moves s.t_sim_s s.position s.action t t'
      → t.leg ≤ t'.leg
  leg_mono s t t' (over d q) = omega (arith, ap (λ x. x.leg) q)
  leg_mono s t t' (away d u q n same z) = omega (arith, same)
  leg_mono s t t' (holding d u q y short same z) = omega (arith, same)
  leg_mono s t t' (leaving d u q y full next n) = omega (arith, next)

  Held-left :
      (i : ℕ) (h : List Sample) (t : MissionTracker)
      → Ordered h
      → after start h ≡ ok t
      → Held start i h
      → i < t.leg
  unfolding after
  Held-left i [] t o e x = absurd x
  Held-left i (s ∷ h) t o e (inr x) =
      let (t1, e1, u1) = >>=-eq-ok (after start h) (update s.t_sim_s s.position s.action) e in
      omega (
        arith,
        Held-left i h t1 o.1 e1 x,
        leg_mono s t1 t (update-Moves s.t_sim_s s.position s.action t1 t u1),
      )
  Held-left i (s ∷ h) t o e (inl (since, x, full)) =
      let (t1, e1, u1) = >>=-eq-ok (after start h) (update s.t_sim_s s.position s.action) e in
      let true_ = after-HoldsTrue start fresh idle h t1 e1 in
      elim (in_place_lem start s h i t1 t e1 x.0
        (update-Moves s.t_sim_s s.position s.action t1 t u1)) [
          | inr next ↦ omega (arith, next)
          | inl (_, _, short) ↦
              let hold_eq : (leg_at start.legs i).hold_s ≡ (waypoint t1).hold_s =
                ap (λ (y : Legs × ℕ). (leg_at y.0 y.1).hold_s)
                  (ap (λ y. (y, i)) (sym true_.legs)
                    ∙ ap (λ y. (t1.legs, y)) (sym (leg_before start s h i t1 t e1 x.0))) in
              let enough =
                leb_ℤ_earlier (leg_at start.legs i).hold_s s.t_sim_s
                  (or_else t1.held_since s.t_sim_s) since (held_le i since s h t1 o e1 x) full in
              absurd (cc (short, enough, hold_eq))
        ]

-- A tracker leaves a leg exactly when the vehicle has held at its waypoint: in consecutive calls
-- over at least the leg's hold time, the carrot stood on the waypoint and the vehicle was within the
-- acceptance radius of the target. Simulated time must not run backwards.
pub left_iff_Held :
    (m : MissionConfig) (spec : ActionSpec) (start_xy : ℤ × ℤ) (start t : MissionTracker)
    (h : List Sample) (i : ℕ)
    → new_tracker m spec start_xy ≡ ok start
    → Ordered h
    → after start h ≡ ok t
    → (i < t.leg) ↔ Held start i h
unfolding new_tracker
left_iff_Held m spec start_xy start t h i n o e =
    let fresh : start.leg ≡ 0 = ground arith in
    let idle : start.held_since ≡ none = ground arith in
    ((after-HoldsTrue start fresh idle h t e).left i, Held-left start fresh idle i h t o e)
