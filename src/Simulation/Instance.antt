-- ===== src/Simulation/Instance.antt =====
-- simulation/instance_spec.py: InstanceSpec.
use Prim.Native.String.{String}
use text.Mathlib.Text.{◌==◌ as str_eq}
use aero_safe_rl.Base.{
  ℕ, ◌+◌, List, [], ◌∷◌, Option, Bool, ◌||◌, ℤ, pos, pos_part, leb_ℤ, ltb_ℤ, length, ◌==◌, or_else,
  Result, ok, guard, ◌>>◌,
}

-- InstanceSpecError, and what a payload that is not one raises. Python does not check the types of a
-- dataclass; a value of another type than the field's is `untyped` here.
pub data InstanceError : Type 0 where
  instance_spec_error key_error type_error untyped : InstanceError

-- A text of the shape `<stem>_<number>`.
pub record Numbered : Type 0 where
  pub stem : String
  pub number : ℕ

abbrev pub spec_version_1 : String
spec_version_1 = "1"

abbrev pub xrce_base_port : ℕ
xrce_base_port = 8888

abbrev pub max_ros_domain_id : ℕ
max_ros_domain_id = 101

pub record InstanceSpec : Type 0 where
  pub spec_version : String
  pub instance_id : ℕ
  pub world_index : ℕ
  pub mav_sys_id : ℕ
  pub xrce_port : ℕ
  pub ros_domain_id : ℕ
  pub topic_ns : Numbered
  pub gz_partition : Numbered
  pub world : String
  pub model : String
  pub model_name : Numbered
  pub spawn_pose : List ℤ
  pub speed_factor : ℤ
  pub headless : Bool

abbrev pub origin : List ℤ
origin = pos 0 ∷ pos 0 ∷ pos 0 ∷ pos 0 ∷ pos 0 ∷ pos 0 ∷ []

-- The spec of an instance number that passed the checks.
abbrev pub derive : ℕ → String → String → ℤ → List ℤ → Bool → InstanceSpec
derive n world model speed_factor pose headless = record {
  spec_version = spec_version_1;
  instance_id = n;
  world_index = n;
  mav_sys_id = n + 1;
  xrce_port = xrce_base_port + n;
  ros_domain_id = n;
  topic_ns = record { stem = "px4"; number = n };
  gz_partition = record { stem = "aero"; number = n };
  world = world;
  model = model;
  model_name = record { stem = model; number = n };
  spawn_pose = pose;
  speed_factor = speed_factor;
  headless = headless;
}

unfoldable pub for_instance :
    ℤ → String → String → ℤ → Option (List ℤ) → Bool → Result InstanceError InstanceSpec
for_instance i world model speed_factor spawn_pose headless = do
  guard (leb_ℤ (pos 0) i) instance_spec_error
  guard (leb_ℤ i (pos max_ros_domain_id)) instance_spec_error
  guard (ltb_ℤ (pos 0) speed_factor) instance_spec_error
  let pose = or_else spawn_pose origin
  guard (length pose == 6) instance_spec_error
  ok (derive (pos_part i) world model speed_factor pose headless)

-- The parts of `/<ns>/fmu/<direction>/<name>`.
pub record Topic : Type 0 where
  pub ns : Numbered
  pub direction : String
  pub name : String

unfoldable pub topic : InstanceSpec → String → String → Result InstanceError Topic
topic s name direction = do
  guard (str_eq direction "in" || str_eq direction "out") instance_spec_error
  ok (record { ns = s.topic_ns; direction = direction; name = name })

abbrev pub process_labels : InstanceSpec → List Numbered
process_labels s =
    record { stem = "gz_world"; number = s.world_index }
    ∷ record { stem = "xrce_agent"; number = s.instance_id }
    ∷ record { stem = "px4_instance"; number = s.instance_id }
    ∷ []
