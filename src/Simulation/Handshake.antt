-- ===== src/Simulation/Handshake.antt =====
-- simulation/instance_spec.py: InstanceSpec.to_dict and from_dict.
use Prim.Native.String.{String}
use text.Mathlib.Text.{◌==◌ as str_eq}
use aero_safe_rl.Base.{
  ℕ, List, [], ◌∷◌, Option, none, some, or_else, Bool, true, false, ℤ, all_of, any_of, Result, ok,
  err, guard, ◌>>=◌, ◌>>◌, if◌then◌else◌,
}
use aero_safe_rl.Simulation.Instance.{
  InstanceSpec, Numbered, InstanceError, instance_spec_error, key_error, type_error, untyped,
  spec_version_1,
}

-- What a dict holds under a key. A text such as px4_7 is `named`.
pub data Entry : Type 0 where
  word : String → Entry
  named : Numbered → Entry
  int : ℕ → Entry
  float : ℤ → Entry
  bool : Bool → Entry
  tuple list : List ℤ → Entry

abbrev pub Dict : Type 0
Dict = List (String × Entry)

abbrev pub get : Dict → String → Option Entry
get [] key = none
get ((k, v) ∷ d) key = if str_eq k key then some v else get d key

-- `d[key] = v`, of a key that is there or not.
abbrev pub put : Dict → String → Entry → Dict
put [] key v = (key, v) ∷ []
put ((k, x) ∷ d) key v = if str_eq k key then (k, v) ∷ d else (k, x) ∷ put d key v

-- `asdict(self)`
unfoldable pub asdict : InstanceSpec → Dict
asdict s =
    ("spec_version", word s.spec_version)
    ∷ ("instance", int s.instance_id)
    ∷ ("world_index", int s.world_index)
    ∷ ("mav_sys_id", int s.mav_sys_id)
    ∷ ("xrce_port", int s.xrce_port)
    ∷ ("ros_domain_id", int s.ros_domain_id)
    ∷ ("topic_ns", named s.topic_ns)
    ∷ ("gz_partition", named s.gz_partition)
    ∷ ("world", word s.world)
    ∷ ("model", word s.model)
    ∷ ("model_name", named s.model_name)
    ∷ ("spawn_pose", tuple s.spawn_pose)
    ∷ ("speed_factor", float s.speed_factor)
    ∷ ("headless", bool s.headless)
    ∷ []

unfoldable pub to_dict : InstanceSpec → Dict
unfolding asdict
to_dict s = put (asdict s) "spawn_pose" (list s.spawn_pose)

abbrev pub is_version : Option Entry → Bool
is_version (some (word v)) = str_eq v spec_version_1
is_version _ = false

-- `tuple(payload["spawn_pose"])`
abbrev pub pose_tuple : Option Entry → Result InstanceError Entry
pose_tuple none = err key_error
pose_tuple (some (tuple xs)) = ok (tuple xs)
pose_tuple (some (list xs)) = ok (tuple xs)
pose_tuple (some (word _)) = err untyped
pose_tuple (some (named _)) = err untyped
pose_tuple (some _) = err type_error

-- The value of a field, which must be there and of the field's type.
abbrev pub required : {A : Type 0} → (Entry → Option A) → Option Entry → Result InstanceError A
required of none = err type_error
required of (some v) = elim (of v) [ none ↦ err untyped | some a ↦ ok a ]

abbrev pub of_word : Entry → Option String
of_word (word s) = some s
of_word _ = none

abbrev pub of_named : Entry → Option Numbered
of_named (named x) = some x
of_named _ = none

abbrev pub of_int : Entry → Option ℕ
of_int (int n) = some n
of_int _ = none

abbrev pub of_float : Entry → Option ℤ
of_float (float x) = some x
of_float _ = none

abbrev pub of_bool : Entry → Option Bool
of_bool (bool b) = some b
of_bool _ = none

abbrev pub of_tuple : Entry → Option (List ℤ)
of_tuple (tuple xs) = some xs
of_tuple _ = none

abbrev pub field_names : List String
field_names =
    "spec_version" ∷ "instance" ∷ "world_index" ∷ "mav_sys_id" ∷ "xrce_port" ∷ "ros_domain_id"
    ∷ "topic_ns" ∷ "gz_partition" ∷ "world" ∷ "model" ∷ "model_name" ∷ "spawn_pose" ∷ "speed_factor"
    ∷ "headless" ∷ []

-- `cls( **payload)`: no unknown keyword, and every field but `headless`, which has a default.
unfoldable pub construct : Dict → Result InstanceError InstanceSpec
construct d = do
  guard (all_of (λ e. any_of (str_eq e.0) field_names) d) type_error
  version ← required of_word (get d "spec_version")
  instance_id ← required of_int (get d "instance")
  world_index ← required of_int (get d "world_index")
  mav_sys_id ← required of_int (get d "mav_sys_id")
  xrce_port ← required of_int (get d "xrce_port")
  ros_domain_id ← required of_int (get d "ros_domain_id")
  topic_ns ← required of_named (get d "topic_ns")
  gz_partition ← required of_named (get d "gz_partition")
  world ← required of_word (get d "world")
  model ← required of_word (get d "model")
  model_name ← required of_named (get d "model_name")
  spawn_pose ← required of_tuple (get d "spawn_pose")
  speed_factor ← required of_float (get d "speed_factor")
  headless ← required of_bool (some (or_else (get d "headless") (bool true)))
  ok (record {
    spec_version = version;
    instance_id = instance_id;
    world_index = world_index;
    mav_sys_id = mav_sys_id;
    xrce_port = xrce_port;
    ros_domain_id = ros_domain_id;
    topic_ns = topic_ns;
    gz_partition = gz_partition;
    world = world;
    model = model;
    model_name = model_name;
    spawn_pose = spawn_pose;
    speed_factor = speed_factor;
    headless = headless;
  })

unfoldable pub from_dict : Dict → Result InstanceError InstanceSpec
unfolding construct
from_dict data_ = do
  guard (is_version (get data_ "spec_version")) instance_spec_error
  pose ← pose_tuple (get data_ "spawn_pose")
  construct (put data_ "spawn_pose" pose)
