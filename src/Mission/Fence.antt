-- ===== src/Mission/Fence.antt =====
-- rl/mission_tracker.py: the setpoints of an accepted mission stay inside its fence.
use mathlib.Core.Path.{subst}
use native.Mathlib.Nat.{mul-le-mul_left, div-le_of_le-mul, zero-div}
use aero_safe_rl.Base.{
  ℕ, zero, suc, ◌*◌, ◌/◌, ◌≤◌, ◌≡◌, refl, sym, inl, inr, ◌⊎◌, List, [], ◌∷◌, All, Bool, false, ℤ,
  pos, negsuc, ◌≤ℤ◌, ◌+ℤ◌, ◌-ℤ◌, +ℤ_parts, -ℤ_parts, leb_ℤ, leb, Bool-cases, Result, ok, err, ◌>>=◌,
  >>=-eq-ok, arith, sub_ℕ, if◌then◌else◌, ok_injective,
}
use aero_safe_rl.Policy.Action.{Action, ActionSpec, one}
use aero_safe_rl.Mission.Geometry.{Vec3, ◌*ℤ◌, div_ℤ, hypot}
use aero_safe_rl.Mission.Tracker.{
  TrackerError, Geofence, MissionConfig, Leg, Legs, leg_at, legs_of, MissionTracker, new_tracker,
  waypoint, setpoint, target, carrot_step, carrot_to, move_offset, stamp_times, elapsed, hold, done,
  travel, update,
}
use aero_safe_rl.Mission.Validate.{InRange, InFence, IsConsistent}
use aero_safe_rl.Mission.Holds.{Sample, after}
use aero_safe_rl.Mission.New.{new_tracker-IsNew}

share_le : (a m d : ℕ) → m ≤ d → a * m / d ≤ a
share_le a m d h = div-le_of_le-mul d (ground (arith, mul-le-mul_left {m = m} {n = d} a))

-- A share of a distance is between nothing and the whole.
share :
    (a : ℤ) (m d : ℕ)
    → m ≤ d
    → ((pos 0 ≤ℤ div_ℤ (a *ℤ pos m) d) × (div_ℤ (a *ℤ pos m) d ≤ℤ a))
      ⊎ ((a ≤ℤ div_ℤ (a *ℤ pos m) d) × (div_ℤ (a *ℤ pos m) d ≤ℤ pos 0))
share (pos n) m d h =
    let product : pos n *ℤ pos m ≡ pos (n * m) = ground arith in
    rw product (inl (ground arith, ground (arith, share_le n m d h, zero-div d)))
share (negsuc n) m d h =
    let product : negsuc n *ℤ pos m ≡ sub_ℕ 0 (suc n * m) = ground arith in
    rw product
      (inr (ground (arith, share_le (suc n) m d h, zero-div d), ground (arith, zero-div d)))

part-InRange :
    (lo w c hi : ℤ) (m d : ℕ)
    → m ≤ d
    → InRange lo w hi
    → InRange lo c hi
    → InRange lo (c +ℤ div_ℤ ((w -ℤ c) *ℤ pos m) d) hi
part-InRange lo w c hi m d h (a, b) (a', b') =
    let q = div_ℤ ((w -ℤ c) *ℤ pos m) d in
    elim (share (w -ℤ c) m d h) [
      | inl (x, y) ↦
          (ground (arith, -ℤ_parts w c, +ℤ_parts c q), ground (arith, -ℤ_parts w c, +ℤ_parts c q))
      | inr (x, y) ↦
          (ground (arith, -ℤ_parts w c, +ℤ_parts c q), ground (arith, -ℤ_parts w c, +ℤ_parts c q))
    ]

-- The carrot's position when it does not reach the waypoint.
go_on :
    (w : Leg) (m : ℕ) (c c' : ℤ × ℤ)
    → leb_ℤ (pos (hypot (w.x -ℤ c.0) (w.y -ℤ c.1))) (pos m) ≡ false
    → carrot_to w (pos m) c ≡ ok c'
    → (
      c.0 +ℤ div_ℤ ((w.x -ℤ c.0) *ℤ pos m) (hypot (w.x -ℤ c.0) (w.y -ℤ c.1)),
      c.1 +ℤ div_ℤ ((w.y -ℤ c.1) *ℤ pos m) (hypot (w.x -ℤ c.0) (w.y -ℤ c.1)),
    )
      ≡ c'
unfolding carrot_to
go_on w m c c' far h =
    let dist = hypot (w.x -ℤ c.0) (w.y -ℤ c.1) in
    let next : ℤ × ℤ =
      (c.0 +ℤ div_ℤ ((w.x -ℤ c.0) *ℤ pos m) dist, c.1 +ℤ div_ℤ ((w.y -ℤ c.1) *ℤ pos m) dist) in
    let last : Bool → Result TrackerError (ℤ × ℤ) =
      λ b. if b then err TrackerError.zero_division else ok next in
    let h1 = subst (λ (b : Bool). (if b then ok (w.x, w.y) else last (leb dist 0)) ≡ ok c') far h in
    elim (Bool-cases (leb dist 0)) [
      | inl here ↦ absurd (ground (arith, far))
      | inr more ↦ ok_injective (subst (λ (b : Bool). last b ≡ ok c') more h1)
    ]

speeds :
    (x y : ℤ) (dt : ℕ) → pos 0 ≤ℤ x → pos 0 ≤ℤ y → pos 0 ≤ℤ div_ℤ (x *ℤ y *ℤ pos dt) (one * one)
speeds (pos a) (pos b) dt p q = ground arith
speeds (pos a) (negsuc b) dt p q = absurd (omega arith)
speeds (negsuc a) y dt p q = absurd (omega arith)

carrot_to-InFence :
    (g : Geofence) (w : Leg) (move : ℤ) (c c' : ℤ × ℤ)
    → pos 0 ≤ℤ move
    → InFence g (w.x, w.y)
    → InFence g c
    → carrot_to w move c ≡ ok c'
    → InFence g c'
unfolding carrot_to
carrot_to-InFence g w (negsuc n) c c' p k k' h = absurd (omega arith)
carrot_to-InFence g w (pos m) c c' p k k' h =
    let dist = hypot (w.x -ℤ c.0) (w.y -ℤ c.1) in
    elim (Bool-cases (leb_ℤ (pos dist) (pos m))) [
      | inl near ↦ let e : (w.x, w.y) ≡ c' = ground (arith, near) in subst (InFence g) e k
      | inr far ↦
          let e : (
            c.0 +ℤ div_ℤ ((w.x -ℤ c.0) *ℤ pos m) dist,
            c.1 +ℤ div_ℤ ((w.y -ℤ c.1) *ℤ pos m) dist,
          )
              ≡ c' =
            go_on w m c c' far h in
          subst (InFence g) e (
            part-InRange g.x_min_m w.x c.0 g.x_max_m m dist (ground (arith, far)) k.0 k'.0,
            part-InRange g.y_min_m w.y c.1 g.y_max_m m dist (ground (arith, far)) k.1 k'.1,
          )
    ]

carrot_step_ge :
    (spec : ActionSpec) (a : Action) (dt : ℕ)
    → pos 0 ≤ℤ a.speed_scale
    → pos 0 ≤ℤ spec.v_max_xy_m_s
    → pos 0 ≤ℤ carrot_step spec a dt
unfolding carrot_step
carrot_step_ge spec a dt p q = speeds a.speed_scale spec.v_max_xy_m_s dt p q

legs_of-InFence :
    (g : Geofence) (m : MissionConfig) (w : ℤ × ℤ) (ws : List (ℤ × ℤ)) (i : ℕ)
    → InFence g w
    → All (InFence g) ws
    → let l = leg_at (legs_of m w ws) i in InFence g (l.x, l.y)
legs_of-InFence g m w [] zero k a = k
legs_of-InFence g m w [] (suc i) k a = k
legs_of-InFence g m w (v ∷ ws) zero k a = k
legs_of-InFence g m w (v ∷ ws) (suc i) k (b, bs) = legs_of-InFence g m v ws i b bs

-- What stays true of a tracker: the spec and the legs of its start, and a carrot inside the fence.
record IsInside (g : Geofence) (start t : MissionTracker) : Type 0 where
  legs : t.legs ≡ start.legs
  spec : t.spec ≡ start.spec
  carrot : InFence g t.carrot

module _ (g : Geofence) (start : MissionTracker)
    (route : (i : ℕ) → let l = leg_at start.legs i in InFence g (l.x, l.y))
    (v_max : pos 0 ≤ℤ start.spec.v_max_xy_m_s) where
  travel-IsInside :
      (s : ℕ) (a : Action) (t u : MissionTracker)
      → pos 0 ≤ℤ a.speed_scale
      → IsInside g start t
      → travel s a t ≡ ok u
      → IsInside g start u
  travel-IsInside s a t u p k h =
      let dt = elapsed t s in
      let (c, e, q) =
        >>=-eq-ok (carrot_to (waypoint t) (carrot_step t.spec a dt) t.carrot)
          (λ c. ok (record (move_offset dt a (stamp_times s t)) { carrot = c })) h in
      let fast = subst (λ (x : ActionSpec). pos 0 ≤ℤ x.v_max_xy_m_s) (sym k.spec) v_max in
      let way =
        subst (λ (l : Legs). InFence g ((leg_at l t.leg).x, (leg_at l t.leg).y)) (sym k.legs)
          (route t.leg) in
      let near =
        carrot_to-InFence g (waypoint t) (carrot_step t.spec a dt) t.carrot c
          (carrot_step_ge t.spec a dt p fast) way k.carrot e in
      subst (IsInside g start) (ok_injective q)
        (record { legs = k.legs; spec = k.spec; carrot = near })

  hold-carrot : (s : ℕ) (p : Vec3) (u : MissionTracker) → (hold s p u).carrot ≡ u.carrot
  unfolding hold
  hold-carrot s p u = ground arith

  hold-IsInside :
      (s : ℕ) (p : Vec3) (u : MissionTracker) → IsInside g start u → IsInside g start (hold s p u)
  unfolding hold
  hold-IsInside s p u k = record {
    legs = ground (arith, k.legs);
    spec = ground (arith, k.spec);
    carrot = subst (InFence g) (sym (hold-carrot s p u)) k.carrot;
  }

  update-IsInside :
      (s : ℕ) (p : Vec3) (a : Action) (t t' : MissionTracker)
      → pos 0 ≤ℤ a.speed_scale
      → IsInside g start t
      → update s p a t ≡ ok t'
      → IsInside g start t'
  unfolding update
  update-IsInside s p a t t' fast k h = elim (Bool-cases (done t)) [
    | inl e ↦
        let same : stamp_times s t ≡ t' = ok_injective (subst (λ (b : Bool). next b) e h) in
        subst (IsInside g start) same (record { legs = k.legs; spec = k.spec; carrot = k.carrot })
    | inr e ↦
        let (u, q, r) =
          >>=-eq-ok (travel s a t) (λ u. ok (hold s p u)) (subst (λ (b : Bool). next b) e h) in
        subst (IsInside g start) (ok_injective r)
          (hold-IsInside s p u (travel-IsInside s a t u fast k q))
  ]
    where
      next : Bool → Type 0
      next b = (if b then ok (stamp_times s t) else (travel s a t >>= λ u. ok (hold s p u))) ≡ ok t'

  after-IsInside :
      (start_in : InFence g start.carrot) (h : List Sample) (t : MissionTracker)
      → All (λ s. pos 0 ≤ℤ s.action.speed_scale) h
      → after start h ≡ ok t
      → IsInside g start t
  unfolding after
  after-IsInside start_in [] t a e =
      subst (IsInside g start) (ok_injective e)
        (record { legs = refl; spec = refl; carrot = start_in })
  after-IsInside start_in (s ∷ h) t (fast, a) e =
      let (u, p, q) = >>=-eq-ok (after start h) (update s.t_sim_s s.position s.action) e in
      update-IsInside s.t_sim_s s.position s.action u t fast (after-IsInside start_in h u a p) q

-- In an accepted mission, a tracker that starts inside the fence never sends the vehicle out of it:
-- after any calls whose actions do not ask for a negative speed, under a spec that does not either,
-- its setpoint and its target are horizontally inside the fence.
pub setpoint-InFence :
    (m : MissionConfig) (spec : ActionSpec) (start_xy : ℤ × ℤ) (start t : MissionTracker)
    (h : List Sample)
    → IsConsistent m
    → InFence m.geofence start_xy
    → pos 0 ≤ℤ spec.v_max_xy_m_s
    → All (λ s. pos 0 ≤ℤ s.action.speed_scale) h
    → new_tracker m spec start_xy ≡ ok start
    → after start h ≡ ok t
    → InFence m.geofence ((setpoint t).0, (setpoint t).1.0)
      × InFence m.geofence ((target t).0, (target t).1.0)
setpoint-InFence m spec start_xy start t h c inside v fast made e =
    let g = m.geofence in
    let new = new_tracker-IsNew m spec start_xy start made in
    let (first, others) = subst (All (InFence g)) new.waypoints_eq c.inside in
    let route = λ (i : ℕ).
      subst (λ (l : Legs). InFence g ((leg_at l i).x, (leg_at l i).y)) (sym new.route)
        (legs_of-InFence g m new.first new.others i first others) in
    let k =
      after-IsInside g start route
        (subst (λ (x : ActionSpec). pos 0 ≤ℤ x.v_max_xy_m_s) (sym new.spec_eq) v)
        (subst (InFence g) (sym new.carrot_eq) inside) h t fast e in
    (
      k.carrot,
      subst (λ (l : Legs). InFence g ((leg_at l t.leg).x, (leg_at l t.leg).y)) (sym k.legs)
          (route t.leg),
    )
