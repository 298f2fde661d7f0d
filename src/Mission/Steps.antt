-- ===== src/Mission/Steps.antt =====
-- rl/mission_tracker.py: what one call of update does to the leg and to the hold.
use mathlib.Core.Path.{subst}
use aero_safe_rl.Base.{
  ℕ, suc, ◌≡◌, inl, inr, none, some, or_else, Bool, true, false, leb_ℤ, sub_ℕ, Bool-cases, Result,
  ok, ap, ◌∙◌, if◌then◌else◌, ◌>>=◌, >>=-eq-ok, arith,
}
use aero_safe_rl.Policy.Action.{Action}
use aero_safe_rl.Mission.Geometry.{Vec3}
use aero_safe_rl.Mission.Tracker.{
  TrackerError, MissionTracker, done, Legs, leg_at, waypoint, arrived, stamp_times, hold, travel,
  update,
}

-- The parts that moving the carrot and the offset leaves alone.
pub record IsSameLeg (t t' : MissionTracker) : Type 0 where
  pub legs : t'.legs ≡ t.legs
  pub leg : t'.leg ≡ t.leg
  pub held : t'.held_since ≡ t.held_since
  pub n : t'.n_waypoints ≡ t.n_waypoints
  pub radius : t'.accept_r ≡ t.accept_r

pub travel-IsSameLeg :
    (t_sim_s : ℕ) (a : Action) (t t' : MissionTracker) → travel t_sim_s a t ≡ ok t' → IsSameLeg t t'
travel-IsSameLeg t_sim_s a t t' h = record {
  legs = ground arith;
  leg = ground arith;
  held = ground arith;
  n = ground arith;
  radius = ground arith;
}

-- The three ways of a call that returns: the mission is over, or the vehicle is not in place, or
-- it is, and the hold that goes on then is complete or not.
pub data Moves (s : ℕ) (p : Vec3) (a : Action) (t t' : MissionTracker) : Type 0 where
  over : done t ≡ true → t' ≡ stamp_times s t → Moves s p a t t'
  away :
      done t ≡ false
      → (u : MissionTracker) → travel s a t ≡ ok u
      → arrived p u ≡ false
      → t'.leg ≡ t.leg
      → t'.held_since ≡ none
      → Moves s p a t t'
  holding :
      done t ≡ false
      → (u : MissionTracker) → travel s a t ≡ ok u
      → arrived p u ≡ true
      → leb_ℤ (waypoint t).hold_s (sub_ℕ s (or_else t.held_since s)) ≡ false
      → t'.leg ≡ t.leg
      → t'.held_since ≡ some (or_else t.held_since s)
      → Moves s p a t t'
  leaving :
      done t ≡ false
      → (u : MissionTracker) → travel s a t ≡ ok u
      → arrived p u ≡ true
      → leb_ℤ (waypoint t).hold_s (sub_ℕ s (or_else t.held_since s)) ≡ true
      → t'.leg ≡ suc t.leg
      → t'.held_since ≡ none
      → Moves s p a t t'

module _ (s : ℕ) (p : Vec3) (a : Action) (t t' u : MissionTracker) where
  hold-Moves :
      done t ≡ false → travel s a t ≡ ok u → hold s p u ≡ t' → IsSameLeg t u → Moves s p a t t'
  unfolding hold
  hold-Moves e q k same =
      let now = or_else t.held_since s in
      let held : or_else u.held_since s ≡ now = ap (λ o. or_else o s) same.held in
      let here : (waypoint u).hold_s ≡ (waypoint t).hold_s =
        ap (λ (x : Legs × ℕ). (leg_at x.0 x.1).hold_s)
          (ap (λ l. (l, u.leg)) same.legs ∙ ap (λ i. (t.legs, i)) same.leg) in
      elim (Bool-cases (arrived p u)) [
        | inr n ↦ away e u q n (ground (arith, same.leg)) (ground arith)
        | inl y ↦ elim (Bool-cases (leb_ℤ (waypoint u).hold_s (sub_ℕ s (or_else u.held_since s)))) [
          | inl full ↦
              leaving e u q y (ground (arith, held, here)) (ground (arith, same.leg)) (ground arith)
          | inr short ↦
              holding e u q y (ground (arith, held, here)) (ground (arith, same.leg))
                (ground (arith, held))
        ]
      ]

module _ (s : ℕ) (p : Vec3) (a : Action) (t t' : MissionTracker) where
  pub update-Moves : update s p a t ≡ ok t' → Moves s p a t t'
  unfolding update
  update-Moves h = elim (Bool-cases (done t)) [
    | inl e ↦ over e (ground arith)
    | inr e ↦
        let rest : MissionTracker → Result TrackerError MissionTracker = λ u. ok (hold s p u) in
        let (u, q, k) = >>=-eq-ok (travel s a t) rest (
          subst
            (λ (b : Bool). (if b then ok (stamp_times s t) else (travel s a t >>= rest)) ≡ ok t') e
            h) in
        hold-Moves s p a t t' u e q (cc k) (travel-IsSameLeg s a t u q)
  ]

  pub update-legs : update s p a t ≡ ok t' → t'.legs ≡ t.legs
  unfolding update hold
  update-legs h = ground arith

  pub update-count : update s p a t ≡ ok t' → t'.n_waypoints ≡ t.n_waypoints
  unfolding update hold
  update-count h = ground arith
