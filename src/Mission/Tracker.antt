-- ===== src/Mission/Tracker.antt =====
-- rl/mission_tracker.py: MissionTracker, its construction and its three operations.
use aero_safe_rl.Base.{
  ℕ, zero, suc, ◌+◌, ◌-◌, ◌*◌, List, [], ◌∷◌, length, Option, none, some, or_else, Bool, ◌&&◌, min,
  ℤ, pos, ◌+ℤ◌, ◌-ℤ◌, min_ℤ, max_ℤ, leb_ℤ, sub_ℕ, leb, Result, ok, err, if◌then◌else◌, ◌>>=◌,
}
use aero_safe_rl.Policy.Action.{Action, ActionSpec, one}
use aero_safe_rl.Policy.Input.{MissionProgress}
use aero_safe_rl.Mission.Geometry.{Vec3, abs_ℤ, neg_ℤ, ◌*ℤ◌, div_ℤ, same_ℤ, sq, hypot}

-- What a tracker raises: ValueError and ZeroDivisionError.
pub data TrackerError : Type 0 where
  value_error zero_division : TrackerError

pub record Geofence : Type 0 where
  pub x_min_m : ℤ
  pub x_max_m : ℤ
  pub y_min_m : ℤ
  pub y_max_m : ℤ
  pub z_min_m : ℤ
  pub z_max_m : ℤ

-- The fields of a mission file that the code reads.
pub record MissionConfig : Type 0 where
  pub altitude_m : ℤ
  pub acceptance_radius_m : ℤ
  pub hold_time_s : ℤ
  pub final_hover_s : ℤ
  pub timeout_s : ℤ
  pub waypoints : List (ℤ × ℤ)
  pub geofence : Geofence

pub record Leg : Type 0 where
  pub x : ℤ
  pub y : ℤ
  pub hold_s : ℤ

-- `_legs`, which is never empty.
pub data Legs : Type 0 where
  final_leg : Leg → Legs
  leg_then : Leg → Legs → Legs

abbrev pub n_legs : Legs → ℕ
n_legs (final_leg l) = 1
n_legs (leg_then l ls) = suc (n_legs ls)

-- `_legs[min(i, len(_legs) - 1)]`, which is `_legs[i]` for an i in range.
abbrev pub leg_at : Legs → ℕ → Leg
leg_at (final_leg l) i = l
leg_at (leg_then l ls) zero = l
leg_at (leg_then l ls) (suc i) = leg_at ls i

-- A leg for each waypoint, and the final hover at the last one.
abbrev pub legs_of : MissionConfig → ℤ × ℤ → List (ℤ × ℤ) → Legs
legs_of m w [] =
    leg_then (record { x = w.0; y = w.1; hold_s = m.hold_time_s })
      (final_leg (record { x = w.0; y = w.1; hold_s = m.final_hover_s }))
legs_of m w (v ∷ ws) =
    leg_then (record { x = w.0; y = w.1; hold_s = m.hold_time_s }) (legs_of m v ws)

pub record MissionTracker : Type 0 where
  pub legs : Legs
  pub n_waypoints : ℕ
  pub altitude_m : ℤ
  pub accept_r : ℤ
  pub spec : ActionSpec
  pub carrot : ℤ × ℤ
  pub offset_m : ℤ
  pub leg : ℕ
  pub held_since : Option ℕ
  pub t_last : Option ℕ
  pub t_start : Option ℕ

unfoldable pub new_tracker : MissionConfig → ActionSpec → ℤ × ℤ → Result TrackerError MissionTracker
new_tracker m spec start_xy = elim m.waypoints [
  | [] ↦ err value_error
  | w ∷ ws ↦ ok (record {
    legs = legs_of m w ws;
    n_waypoints = suc (length ws);
    altitude_m = pos (abs_ℤ m.altitude_m);
    accept_r = m.acceptance_radius_m;
    spec = spec;
    carrot = start_xy;
    offset_m = pos 0;
    leg = 0;
    held_since = none;
    t_last = none;
    t_start = none;
  })
]

abbrev pub done : MissionTracker → Bool
done t = leb (n_legs t.legs) t.leg

abbrev pub waypoints_reached : MissionTracker → ℕ
waypoints_reached t = min t.leg t.n_waypoints

-- `_z`: up is negative.
abbrev pub z_of : MissionTracker → ℤ
z_of t = neg_ℤ (t.altitude_m +ℤ t.offset_m)

-- `_waypoint`, as the leg that goes to it.
abbrev pub waypoint : MissionTracker → Leg
waypoint t = leg_at t.legs t.leg

abbrev pub setpoint : MissionTracker → Vec3
setpoint t = (t.carrot.0, (t.carrot.1, z_of t))

abbrev pub target : MissionTracker → Vec3
target t = ((waypoint t).x, ((waypoint t).y, z_of t))

-- `math.dist(position, self.target) <= self._accept_r`, on the squares.
unfoldable pub within : ℤ → Vec3 → Vec3 → Bool
within r p q =
    leb_ℤ (pos 0) r && leb (sq (p.0 -ℤ q.0) + (sq (p.1.0 -ℤ q.1.0) + sq (p.1.1 -ℤ q.1.1))) (sq r)

unfoldable pub is_at : ℤ × ℤ → Leg → Bool
is_at c l = same_ℤ c.0 l.x && same_ℤ c.1 l.y

-- `dt`, which is never negative, and the two times that every call sets.
abbrev pub elapsed : MissionTracker → ℕ → ℕ
elapsed t t_sim_s = elim t.t_last [ none ↦ 0 | some last ↦ t_sim_s - last ]

abbrev pub stamp_times : ℕ → MissionTracker → MissionTracker
stamp_times t_sim_s t = record t {
  t_start = some (or_else t.t_start t_sim_s);
  t_last = some t_sim_s;
}

abbrev pub clamp : ℤ → ℤ → ℤ
clamp dz_max d = min_ℤ (max_ℤ d (neg_ℤ dz_max)) dz_max

unfoldable pub dz_max : ActionSpec → ℕ → ℤ
dz_max spec dt = div_ℤ (spec.v_z_m_s *ℤ pos dt) one

-- The altitude offset moves towards the commanded one.
unfoldable pub next_offset : ℤ → ℤ → ℤ → ℤ
next_offset limit commanded offset = offset +ℤ clamp limit (commanded -ℤ offset)

abbrev pub move_offset : ℕ → Action → MissionTracker → MissionTracker
move_offset dt a t = record t {
  offset_m = next_offset (dz_max t.spec dt) a.altitude_offset_m t.offset_m;
}

unfoldable pub carrot_step : ActionSpec → Action → ℕ → ℤ
carrot_step spec a dt = div_ℤ (a.speed_scale *ℤ spec.v_max_xy_m_s *ℤ pos dt) (one * one)

-- The carrot moves towards the waypoint, and onto it when it is near enough. A negative step from
-- the waypoint itself divides by 0.
unfoldable pub carrot_to : Leg → ℤ → ℤ × ℤ → Result TrackerError (ℤ × ℤ)
carrot_to w move c =
    let dx = w.x -ℤ c.0 in
    let dy = w.y -ℤ c.1 in
    let dist = hypot dx dy in
    if leb_ℤ (pos dist) move
    then ok (w.x, w.y)
    else if leb dist 0
    then err zero_division
    else ok (c.0 +ℤ div_ℤ (dx *ℤ move) dist, c.1 +ℤ div_ℤ (dy *ℤ move) dist)

abbrev pub move_carrot : ℕ → Action → MissionTracker → Result TrackerError MissionTracker
move_carrot dt a t =
    carrot_to (waypoint t) (carrot_step t.spec a dt) t.carrot >>= λ c. ok (record t { carrot = c })

-- The carrot stands on the waypoint and the vehicle is near the target.
abbrev pub arrived : Vec3 → MissionTracker → Bool
arrived position t = is_at t.carrot (waypoint t) && within t.accept_r position (target t)

-- The hold at a waypoint: it starts on arrival, is broken on departure, and ends the leg.
unfoldable pub hold : ℕ → Vec3 → MissionTracker → MissionTracker
hold t_sim_s position t =
    let since = or_else t.held_since t_sim_s in
    if arrived position t
    then if leb_ℤ (waypoint t).hold_s (sub_ℕ t_sim_s since)
      then record t { leg = suc t.leg; held_since = none }
      else record t { held_since = some since }
    else record t { held_since = none }

-- What a call does before it looks at the hold.
abbrev pub travel : ℕ → Action → MissionTracker → Result TrackerError MissionTracker
travel t_sim_s a t =
    let dt = elapsed t t_sim_s in move_carrot dt a (move_offset dt a (stamp_times t_sim_s t))

unfoldable pub update : ℕ → Vec3 → Action → MissionTracker → Result TrackerError MissionTracker
unfolding hold
update t_sim_s position a t =
    if done t
    then ok (stamp_times t_sim_s t)
    else travel t_sim_s a t >>= λ t2. ok (hold t_sim_s position t2)

unfoldable pub progress : ℕ → Vec3 → MissionTracker → MissionProgress
progress t_sim_s position t = record {
  waypoint_index = if done t then t.n_waypoints else min t.leg (t.n_waypoints - 1);
  n_waypoints = t.n_waypoints;
  distance_to_waypoint_m = hypot ((waypoint t).x -ℤ position.0) ((waypoint t).y -ℤ position.1.0);
  altitude_m = neg_ℤ position.1.1;
  elapsed_s = elim t.t_start [ none ↦ pos 0 | some s ↦ sub_ℕ t_sim_s s ];
}
