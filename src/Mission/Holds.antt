-- ===== src/Mission/Holds.antt =====
-- rl/mission_tracker.py: a leg is left only after a full hold at its waypoint.
use mathlib.Core.Path.{subst}
use aero_safe_rl.Base.{
  ℕ, ◌<◌, ◌≡◌, refl, ◌⊎◌, inl, inr, List, [], ◌∷◌, none, some, or_else, true, false, leb_ℤ, sub_ℕ,
  leb, Bool-cases, Option-cases, Result, ok, ◌>>=◌, >>=-eq-ok, arith, sym, ap, ◌∙◌,
}
use aero_safe_rl.Policy.Action.{Action}
use aero_safe_rl.Mission.Geometry.{Vec3}
use aero_safe_rl.Mission.Tracker.{
  TrackerError, MissionTracker, Legs, leg_at, done, waypoint, arrived, travel, update,
}
use aero_safe_rl.Mission.Steps.{
  Moves, over, away, holding, leaving, update-Moves, update-legs, update-count,
}

-- The arguments of one call of update.
pub record Sample : Type 0 where
  pub t_sim_s : ℕ
  pub position : Vec3
  pub action : Action

module _ (start : MissionTracker) where
  -- The tracker after a history of calls, the latest first.
  unfoldable pub after : List Sample → Result TrackerError MissionTracker
  after [] = ok start
  after (s ∷ h) = after h >>= update s.t_sim_s s.position s.action

  -- In its latest call the tracker was on leg i, and the vehicle in place there.
  pub record InPlace (i : ℕ) (s : Sample) (h : List Sample) : Type 0 where
    pub before : MissionTracker
    pub before_eq : after h ≡ ok before
    pub leg_eq : before.leg ≡ i
    pub under_way : done before ≡ false
    pub moved : MissionTracker
    pub moved_eq : travel s.t_sim_s s.action before ≡ ok moved
    pub in_place : arrived s.position moved ≡ true

  -- It was so in each call from one at `since` up to the latest.
  abbrev pub HeldSince : ℕ → ℕ → List Sample → Type 0
  HeldSince i since [] = ⊥
  HeldSince i since (s ∷ h) = InPlace i s h × ((s.t_sim_s ≡ since) ⊎ HeldSince i since h)

  -- At some call of the history, it had been so for the leg's hold time.
  abbrev pub Held : ℕ → List Sample → Type 0
  Held i [] = ⊥
  Held i (s ∷ h) =
      ((since : ℕ) × HeldSince i since (s ∷ h)
        × (leb_ℤ (leg_at start.legs i).hold_s (sub_ℕ s.t_sim_s since) ≡ true))
      ⊎ Held i h

  -- The same hold under equal names.
  same_hold :
      {i j since since' : ℕ} (h : List Sample)
      → i ≡ j
      → since ≡ since'
      → HeldSince i since h
      → HeldSince j since' h
  same_hold {i} {j} {since} {since'} h p q x =
      subst (λ n. HeldSince j n h) q (subst (λ n. HeldSince n since h) p x)

  pub record HoldsTrue (h : List Sample) (t : MissionTracker) : Type 0 where
    pub held : (since : ℕ) → t.held_since ≡ some since → HeldSince t.leg since h
    pub left : (i : ℕ) → i < t.leg → Held i h
    pub over : done t ≡ true → t.held_since ≡ none
    pub legs : t.legs ≡ start.legs
    pub count : t.n_waypoints ≡ start.n_waypoints

  module _ (s : Sample) (h : List Sample) (t t' : MissionTracker) (e : after h ≡ ok t)
      (k : HoldsTrue h t) (l : t'.legs ≡ t.legs) (m : t'.n_waypoints ≡ t.n_waypoints) where
    -- A hold that goes on, or starts now.
    goes_on :
        done t ≡ false
        → (u : MissionTracker) → travel s.t_sim_s s.action t ≡ ok u
        → arrived s.position u ≡ true
        → HeldSince t.leg (or_else t.held_since s.t_sim_s) (s ∷ h)
    goes_on d u q y =
        let here : InPlace t.leg s h = record {
          before = t;
          before_eq = e;
          leg_eq = refl;
          under_way = d;
          moved = u;
          moved_eq = q;
          in_place = y;
        } in
        elim (Option-cases t.held_since) [
          | inl n ↦ (here, rw n (inl refl))
          | inr (since, z) ↦ (
            here,
            inr (same_hold h refl (ap (λ o. or_else o s.t_sim_s) (sym z)) (k.held since z)),
          )
        ]

    -- A call after which no hold goes on, and the leg is the same.
    no_hold : t'.leg ≡ t.leg → t'.held_since ≡ none → HoldsTrue (s ∷ h) t'
    no_hold same n = record {
      held = λ since z. cc (n, z);
      left = λ i lt. inr (k.left i (omega (arith, same)));
      over = λ _. n;
      legs = l ∙ k.legs;
      count = m ∙ k.count;
    }

    Moves-HoldsTrue : Moves s.t_sim_s s.position s.action t t' → HoldsTrue (s ∷ h) t'
    Moves-HoldsTrue (over d q) = no_hold (ap (λ x. x.leg) q) (ap (λ x. x.held_since) q ∙ k.over d)
    Moves-HoldsTrue (away d u q n same z) = no_hold same z
    Moves-HoldsTrue (holding d u q y short same z) = record {
      held = λ since w.
          let now : or_else t.held_since s.t_sim_s ≡ since = cc (z, w) in
          same_hold (s ∷ h) (sym same) now (goes_on d u q y);
      left = λ i lt. inr (k.left i (omega (arith, same)));
      over = λ z'. absurd (ground (arith, d, l, same));
      legs = l ∙ k.legs;
      count = m ∙ k.count;
    }
    Moves-HoldsTrue (leaving d u q y full next n) = record {
      held = λ since z. cc (n, z);
      left = λ i lt. elim (Bool-cases (leb t.leg i)) [
        | inr less ↦ inr (k.left i (ground arith))
        | inl ge ↦
            let same : i ≡ t.leg = ground (arith, next) in
            let hold_eq : (leg_at start.legs i).hold_s ≡ (waypoint t).hold_s =
              ap (λ (x : Legs × ℕ). (leg_at x.0 x.1).hold_s)
                (ap (λ x. (x, i)) (sym k.legs) ∙ ap (λ x. (t.legs, x)) same) in
            inl (
              or_else t.held_since s.t_sim_s,
              same_hold (s ∷ h) (sym same) refl (goes_on d u q y),
              subst (λ x. leb_ℤ x (sub_ℕ s.t_sim_s (or_else t.held_since s.t_sim_s)) ≡ true)
                  (sym hold_eq) full,
            )
      ];
      over = λ _. n;
      legs = l ∙ k.legs;
      count = m ∙ k.count;
    }

  module _ (fresh : start.leg ≡ 0) (idle : start.held_since ≡ none) where
    pub after-HoldsTrue : (h : List Sample) (t : MissionTracker) → after h ≡ ok t → HoldsTrue h t
    unfolding after
    after-HoldsTrue [] t e =
        let same : start ≡ t = cc e in
        record {
          held = λ since z. cc (idle, same, z);
          left = λ i lt. absurd (omega (arith, fresh, ap (λ x. x.leg) same));
          over = λ _. sym (ap (λ x. x.held_since) same) ∙ idle;
          legs = sym (ap (λ x. x.legs) same);
          count = sym (ap (λ x. x.n_waypoints) same);
        }
    after-HoldsTrue (s ∷ h) t e =
        let (u, p, q) = >>=-eq-ok (after h) (update s.t_sim_s s.position s.action) e in
        Moves-HoldsTrue s h u t p (after-HoldsTrue h u p)
          (update-legs s.t_sim_s s.position s.action u t q)
          (update-count s.t_sim_s s.position s.action u t q)
          (update-Moves s.t_sim_s s.position s.action u t q)
