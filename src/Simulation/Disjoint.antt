-- ===== src/Simulation/Disjoint.antt =====
-- simulation/instance_spec.py: workers share no resource, and every one is representable.
use Prim.Native.String.{String}
use text.Mathlib.Text.{◌==◌ as str_eq}
use aero_safe_rl.Base.{◌≤◌, ◌≡◌, ◌≢◌, true, pos, ltb_ℤ, length, ok}
use aero_safe_rl.Simulation.Instance.{InstanceSpec, process_labels}
use aero_safe_rl.Simulation.Handshake.{from_dict, to_dict}

-- Two specs that have no resource in common.
pub record Disjoint (s t : InstanceSpec) : Type 0 where
  pub port : s.xrce_port ≢ t.xrce_port
  pub mavlink : s.mav_sys_id ≢ t.mav_sys_id
  pub domain : s.ros_domain_id ≢ t.ros_domain_id
  pub namespace : s.topic_ns ≢ t.topic_ns
  pub partition : s.gz_partition ≢ t.gz_partition
  pub labels : process_labels s ≢ process_labels t

-- What the consumers of a spec accept.
pub record Representable (s : InstanceSpec) : Type 0 where
  pub port_le : s.xrce_port ≤ 8989
  pub mavlink_ge : 1 ≤ s.mav_sys_id
  pub mavlink_le : s.mav_sys_id ≤ 102
  pub domain_le : s.ros_domain_id ≤ 101
  pub pose : length s.spawn_pose ≡ 6
  pub speed : ltb_ℤ (pos 0) s.speed_factor ≡ true
  pub reads_back : from_dict (to_dict s) ≡ ok s
