-- ===== src/Mission/Accepted.antt =====
-- validate_mission_config of mission_executor.py: what it accepts, in terms of the parsed file.
use Prim.Native.String.{String}
use mathlib.Core.Path.{subst}
use aero_safe_rl.Base.{◌∙◌, Option, none, some, ◌≡◌, ◌↔◌, refl, ap, ℤ, ok, >>=-eq-ok, ok_injective}
use aero_safe_rl.Mission.Tracker.{Geofence, MissionConfig}
use aero_safe_rl.Mission.Validate.{
  RawGeofence, RawMission, present, read_fence, read_rest, read_mission, validate_mission_config,
  IsConsistent, read_and_checked_iff,
}

-- The entry has every bound of the fence.
pub record HasBounds (raw : RawGeofence) (g : Geofence) : Type 0 where
  pub x_min_eq : raw.x_min_m ≡ some g.x_min_m
  pub x_max_eq : raw.x_max_m ≡ some g.x_max_m
  pub y_min_eq : raw.y_min_m ≡ some g.y_min_m
  pub y_max_eq : raw.y_max_m ≡ some g.y_max_m
  pub z_min_eq : raw.z_min_m ≡ some g.z_min_m
  pub z_max_eq : raw.z_max_m ≡ some g.z_max_m

-- The file has every required field, and the mission has their values.
pub record HasFields (raw : RawMission) (m : MissionConfig) : Type 0 where
  pub mission_id : String
  pub schema_version : String
  pub fence : RawGeofence
  pub mission_id_eq : raw.mission_id ≡ some mission_id
  pub version_eq : raw.schema_version ≡ some schema_version
  pub altitude_eq : raw.altitude_m ≡ some m.altitude_m
  pub radius_eq : raw.acceptance_radius_m ≡ some m.acceptance_radius_m
  pub hold_eq : raw.hold_time_s ≡ some m.hold_time_s
  pub hover_eq : raw.final_hover_s ≡ some m.final_hover_s
  pub timeout_eq : raw.timeout_s ≡ some m.timeout_s
  pub waypoints_eq : raw.waypoints ≡ some m.waypoints
  pub fence_eq : raw.geofence ≡ some fence
  pub bounds : HasBounds fence m.geofence

present-ok : {A : Type 0} (o : Option A) (a : A) → present o ≡ ok a → o ≡ some a
present-ok none a h = cc h
present-ok (some b) a h = ap some (ok_injective h)

read_fence-HasBounds : (raw : RawGeofence) (g : Geofence) → read_fence raw ≡ ok g → HasBounds raw g
unfolding read_fence
read_fence-HasBounds raw g h =
    let (a1, f1, k1) = >>=-eq-ok (present raw.x_min_m) _ h in
    let (a2, f2, k2) = >>=-eq-ok (present raw.x_max_m) _ k1 in
    let (a3, f3, k3) = >>=-eq-ok (present raw.y_min_m) _ k2 in
    let (a4, f4, k4) = >>=-eq-ok (present raw.y_max_m) _ k3 in
    let (a5, f5, k5) = >>=-eq-ok (present raw.z_min_m) _ k4 in
    let (a6, f6, k6) = >>=-eq-ok (present raw.z_max_m) _ k5 in
    let e = ok_injective k6 in
    record {
      x_min_eq = present-ok _ a1 f1 ∙ ap (λ g. some g.x_min_m) e;
      x_max_eq = present-ok _ a2 f2 ∙ ap (λ g. some g.x_max_m) e;
      y_min_eq = present-ok _ a3 f3 ∙ ap (λ g. some g.y_min_m) e;
      y_max_eq = present-ok _ a4 f4 ∙ ap (λ g. some g.y_max_m) e;
      z_min_eq = present-ok _ a5 f5 ∙ ap (λ g. some g.z_min_m) e;
      z_max_eq = present-ok _ a6 f6 ∙ ap (λ g. some g.z_max_m) e;
    }

module _ (raw : RawMission) (m : MissionConfig) where
  -- The fields from the sixth on, for a file that has the ones before.
  rest-HasFields :
      (id version : String) (altitude radius hold : ℤ)
      → raw.mission_id ≡ some id
      → raw.schema_version ≡ some version
      → raw.altitude_m ≡ some altitude
      → raw.acceptance_radius_m ≡ some radius
      → raw.hold_time_s ≡ some hold
      → read_rest raw altitude radius hold ≡ ok m
      → HasFields raw m
  unfolding read_rest
  rest-HasFields id version altitude radius hold p q r s t h =
      let (v6, e6, h6) = >>=-eq-ok (present raw.final_hover_s) _ h in
      let (v7, e7, h7) = >>=-eq-ok (present raw.timeout_s) _ h6 in
      let (v8, e8, h8) = >>=-eq-ok (present raw.waypoints) _ h7 in
      let (g, e9, h9) = >>=-eq-ok (present raw.geofence) _ h8 in
      let (b, f, k) = >>=-eq-ok (read_fence g) _ h9 in
      let e = ok_injective k in
      record {
        mission_id = id;
        schema_version = version;
        fence = g;
        mission_id_eq = p;
        version_eq = q;
        altitude_eq = r ∙ ap (λ m. some m.altitude_m) e;
        radius_eq = s ∙ ap (λ m. some m.acceptance_radius_m) e;
        hold_eq = t ∙ ap (λ m. some m.hold_time_s) e;
        hover_eq = present-ok raw.final_hover_s v6 e6 ∙ ap (λ m. some m.final_hover_s) e;
        timeout_eq = present-ok raw.timeout_s v7 e7 ∙ ap (λ m. some m.timeout_s) e;
        waypoints_eq = present-ok raw.waypoints v8 e8 ∙ ap (λ m. some m.waypoints) e;
        fence_eq = present-ok raw.geofence g e9;
        bounds = subst (HasBounds g) (ap (λ m. m.geofence) e) (read_fence-HasBounds g b f);
      }

  read_mission-HasFields : read_mission raw ≡ ok m → HasFields raw m
  unfolding read_mission
  read_mission-HasFields h =
      let (v1, e1, h1) = >>=-eq-ok (present raw.mission_id) _ h in
      let (v2, e2, h2) = >>=-eq-ok (present raw.schema_version) _ h1 in
      let (v3, e3, h3) = >>=-eq-ok (present raw.altitude_m) _ h2 in
      let (v4, e4, h4) = >>=-eq-ok (present raw.acceptance_radius_m) _ h3 in
      let (v5, e5, h5) = >>=-eq-ok (present raw.hold_time_s) (read_rest raw v3 v4) h4 in
      rest-HasFields v1 v2 v3 v4 v5 (present-ok raw.mission_id v1 e1)
        (present-ok raw.schema_version v2 e2) (present-ok raw.altitude_m v3 e3)
        (present-ok raw.acceptance_radius_m v4 e4) (present-ok raw.hold_time_s v5 e5) h5

HasBounds-read_fence : (raw : RawGeofence) (g : Geofence) → HasBounds raw g → read_fence raw ≡ ok g
unfolding read_fence
HasBounds-read_fence raw g b =
    rw (b.x_min_eq, b.x_max_eq, b.y_min_eq, b.y_max_eq, b.z_min_eq, b.z_max_eq) refl

HasFields-read_mission :
    (raw : RawMission) (m : MissionConfig) → HasFields raw m → read_mission raw ≡ ok m
unfolding read_mission read_rest
HasFields-read_mission raw m f =
    rw
      (
        f.mission_id_eq,
        f.version_eq,
        f.altitude_eq,
        f.radius_eq,
        f.hold_eq,
        f.hover_eq,
        f.timeout_eq,
        f.waypoints_eq,
        f.fence_eq,
        HasBounds-read_fence f.fence m.geofence f.bounds,
      )
      refl

-- A mission file is accepted, as a mission, exactly if it has every required field, its identifier and
-- schema version included, with that mission's values, the bounds of the mission's fence are in order,
-- and its takeoff height and every waypoint are inside the fence.
pub validate_iff :
    (raw : RawMission) (m : MissionConfig)
    → (validate_mission_config raw ≡ ok m) ↔ (HasFields raw m × IsConsistent m)
validate_iff raw m =
    let (there, back) = read_and_checked_iff raw m in
    (
      λ h. let (r, c) = there h in (read_mission-HasFields raw m r, c),
      λ (f, c). back (HasFields-read_mission raw m f, c),
    )
