-- ===== src/Mission/Validate.antt =====
-- ros2_ws/src/aero_bridge/aero_bridge/mission_executor.py: load_mission and validate_mission_config.
use Prim.Native.String.{String}
use mathlib.Core.Path.{subst}
use aero_safe_rl.Base.{
  List, [], ◌∷◌, ◌∙◌, Option, none, some, Bool, true, ◌&&◌, ◌≡◌, ◌↔◌, refl, ap, ℤ, pos, ◌≤ℤ◌, leb_ℤ,
  ltb_ℤ, all_of, All, Result, ok, err, guard, ◌>>=◌, ◌>>◌, >>=-eq-ok, arith,
}
use aero_safe_rl.Mission.Geometry.{abs_ℤ, neg_ℤ}
use aero_safe_rl.Mission.Tracker.{Geofence, MissionConfig}

-- MissionConfigError, and what reading a file raises.
pub data MissionError : Type 0 where
  mission_config_error read_error : MissionError

-- The parsed file; a missing field is `none`.
pub record RawGeofence : Type 0 where
  pub x_min_m : Option ℤ
  pub x_max_m : Option ℤ
  pub y_min_m : Option ℤ
  pub y_max_m : Option ℤ
  pub z_min_m : Option ℤ
  pub z_max_m : Option ℤ

pub record RawMission : Type 0 where
  pub mission_id : Option String
  pub schema_version : Option String
  pub altitude_m : Option ℤ
  pub acceptance_radius_m : Option ℤ
  pub hold_time_s : Option ℤ
  pub final_hover_s : Option ℤ
  pub timeout_s : Option ℤ
  pub waypoints : Option (List (ℤ × ℤ))
  pub geofence : Option RawGeofence

abbrev pub present {ℓ} : {A : Type ℓ} → Option A → Result MissionError A
present none = err mission_config_error
present (some a) = ok a

-- The check of the fence's fields, after that of the mission's.
unfoldable pub read_fence : RawGeofence → Result MissionError Geofence
read_fence fence = do
  x_min ← present fence.x_min_m
  x_max ← present fence.x_max_m
  y_min ← present fence.y_min_m
  y_max ← present fence.y_max_m
  z_min ← present fence.z_min_m
  z_max ← present fence.z_max_m
  ok (record {
    x_min_m = x_min;
    x_max_m = x_max;
    y_min_m = y_min;
    y_max_m = y_max;
    z_min_m = z_min;
    z_max_m = z_max;
  })

-- The fields from the sixth on, and the values.
unfoldable pub read_rest : RawMission → ℤ → ℤ → ℤ → Result MissionError MissionConfig
unfolding read_fence
read_rest raw altitude radius hold = do
  hover ← present raw.final_hover_s
  timeout ← present raw.timeout_s
  waypoints ← present raw.waypoints
  fence ← present raw.geofence
  bounds ← read_fence fence
  ok (record {
    altitude_m = altitude;
    acceptance_radius_m = radius;
    hold_time_s = hold;
    final_hover_s = hover;
    timeout_s = timeout;
    waypoints = waypoints;
    geofence = bounds;
  })

-- The two checks for missing fields.
unfoldable pub read_mission : RawMission → Result MissionError MissionConfig
unfolding read_rest
read_mission raw = do
  mission_id ← present raw.mission_id
  version ← present raw.schema_version
  altitude ← present raw.altitude_m
  radius ← present raw.acceptance_radius_m
  hold ← present raw.hold_time_s
  read_rest raw altitude radius hold

abbrev pub takeoff_z : MissionConfig → ℤ
takeoff_z m = neg_ℤ (pos (abs_ℤ m.altitude_m))

abbrev pub in_range : ℤ → ℤ → ℤ → Bool
in_range lo x hi = leb_ℤ lo x && leb_ℤ x hi

abbrev pub in_fence : Geofence → ℤ × ℤ → Bool
in_fence g w = in_range g.x_min_m w.0 g.x_max_m && in_range g.y_min_m w.1 g.y_max_m

unfoldable pub check_mission : MissionConfig → Result MissionError (Unit {0})
check_mission m = do
  let g = m.geofence
  guard (ltb_ℤ g.x_min_m g.x_max_m) mission_config_error
  guard (ltb_ℤ g.y_min_m g.y_max_m) mission_config_error
  guard (ltb_ℤ g.z_min_m g.z_max_m) mission_config_error
  guard (in_range g.z_min_m (takeoff_z m) g.z_max_m) mission_config_error
  guard (all_of (in_fence g) m.waypoints) mission_config_error

unfoldable pub validate_mission_config : RawMission → Result MissionError MissionConfig
unfolding read_mission check_mission
validate_mission_config raw = do m ← read_mission raw; check_mission m; ok m

-- `read` opens and parses the file.
unfoldable pub load_mission :
    (String → Result MissionError RawMission) → String → Result MissionError MissionConfig
unfolding validate_mission_config
load_mission read path = do raw ← read path; validate_mission_config raw

abbrev pub InRange : ℤ → ℤ → ℤ → Type 0
InRange lo x hi = (lo ≤ℤ x) × (x ≤ℤ hi)

-- Horizontally inside the fence.
abbrev pub InFence : Geofence → ℤ × ℤ → Type 0
InFence g w = InRange g.x_min_m w.0 g.x_max_m × InRange g.y_min_m w.1 g.y_max_m

pub record IsConsistent (m : MissionConfig) : Type 0 where
  pub x_order : ltb_ℤ m.geofence.x_min_m m.geofence.x_max_m ≡ true
  pub y_order : ltb_ℤ m.geofence.y_min_m m.geofence.y_max_m ≡ true
  pub z_order : ltb_ℤ m.geofence.z_min_m m.geofence.z_max_m ≡ true
  pub takeoff : InRange m.geofence.z_min_m (takeoff_z m) m.geofence.z_max_m
  pub inside : All (InFence m.geofence) m.waypoints

all_of-in_fence :
    (g : Geofence) (ws : List (ℤ × ℤ)) → (all_of (in_fence g) ws ≡ true) ↔ All (InFence g) ws
all_of-in_fence g [] = (λ _. tt, λ _. refl)
all_of-in_fence g (w ∷ ws) = (
  λ h. (ground arith, (all_of-in_fence g ws).0 (ground arith)),
  λ h. ground (arith, h.0, (all_of-in_fence g ws).1 h.1),
)

check_mission_iff : (m : MissionConfig) → (check_mission m ≡ ok tt) ↔ IsConsistent m
unfolding check_mission
check_mission_iff m =
    let iff = all_of-in_fence m.geofence m.waypoints in
    (
      λ h. record {
        x_order = ground arith;
        y_order = ground arith;
        z_order = ground arith;
        takeoff = ground arith;
        inside = iff.0 (ground arith);
      },
      λ h. ground (arith, h.x_order, h.y_order, h.z_order, h.takeoff, iff.1 h.inside),
    )

-- What the reader and the checks accept.
pub read_and_checked_iff :
    (raw : RawMission) (m : MissionConfig)
    → (validate_mission_config raw ≡ ok m) ↔ ((read_mission raw ≡ ok m) × IsConsistent m)
unfolding validate_mission_config
read_and_checked_iff raw m = (
  λ h.
      let (m', r, h') = >>=-eq-ok (read_mission raw) (λ x. check_mission x >>= λ _. ok x) h in
      let (_, c, e) = >>=-eq-ok (check_mission m') (λ _. ok m') h' in
      let same : m' ≡ m = cc e in
      (r ∙ ap ok same, subst IsConsistent same ((check_mission_iff m').0 c)),
  λ h.
      let checked = (check_mission_iff m).1 h.1 in
      ap (λ (r : Result MissionError MissionConfig). r >>= λ x. check_mission x >>= λ _. ok x) h.0
      ∙ ap (λ (r : Result MissionError (Unit {0})). r >>= λ _. ok m) checked,
)
