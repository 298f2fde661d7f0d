-- ===== src/Mission/New.antt =====
-- rl/mission_tracker.py: a tracker at the start of its mission.
use aero_safe_rl.Base.{◌+◌, ◌≡◌, refl, ◌⊎◌, inl, inr, List, [], ◌∷◌, length, none, ℤ, ok, arith}
use aero_safe_rl.Policy.Action.{ActionSpec}
use aero_safe_rl.Mission.Tracker.{MissionConfig, MissionTracker, n_legs, legs_of, new_tracker}

-- The legs of a mission: one for each waypoint, and the final hover.
n_legs-legs_of :
    (m : MissionConfig) (w : ℤ × ℤ) (ws : List (ℤ × ℤ)) → n_legs (legs_of m w ws) ≡ length ws + 2
n_legs-legs_of m w [] = omega arith
n_legs-legs_of m w (v ∷ ws) = omega (arith, n_legs-legs_of m v ws)

List-cases {ℓ} : {A : Type ℓ} (l : List A) → (l ≡ []) ⊎ ((a : A) × (r : List A) × (l ≡ a ∷ r))
List-cases [] = inl refl
List-cases (a ∷ r) = inr (a, r, refl)

pub record IsNew (m : MissionConfig) (spec : ActionSpec) (start_xy : ℤ × ℤ) (t : MissionTracker)
    : Type 0 where
  pub leg_eq : t.leg ≡ 0
  pub held_eq : t.held_since ≡ none
  pub legs_eq : n_legs t.legs ≡ length m.waypoints + 1
  pub count_eq : t.n_waypoints ≡ length m.waypoints
  pub carrot_eq : t.carrot ≡ start_xy
  pub spec_eq : t.spec ≡ spec
  pub first : ℤ × ℤ
  pub others : List (ℤ × ℤ)
  pub waypoints_eq : m.waypoints ≡ first ∷ others
  pub route : t.legs ≡ legs_of m first others

pub new_tracker-IsNew :
    (m : MissionConfig) (spec : ActionSpec) (start_xy : ℤ × ℤ) (t : MissionTracker)
    → new_tracker m spec start_xy ≡ ok t
    → IsNew m spec start_xy t
unfolding new_tracker
new_tracker-IsNew m spec start_xy t h = elim (List-cases m.waypoints) [
  | inl e ↦ absurd (ground (arith, e))
  | inr (w, ws, e) ↦ record {
    leg_eq = ground (arith, e);
    held_eq = ground (arith, e);
    legs_eq = ground (arith, e, n_legs-legs_of m w ws);
    count_eq = ground (arith, e);
    carrot_eq = ground (arith, e);
    spec_eq = ground (arith, e);
    first = w;
    others = ws;
    waypoints_eq = e;
    route = ground (arith, e);
  }
]
