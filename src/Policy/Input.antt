-- ===== src/Policy/Input.antt =====
-- rl/policies/base_policy.py and ai/detector/runtime.py: what a policy sees at one decision.
-- Simulated time is a number of microseconds; probabilities and lengths are in millionths.
use Prim.Native.String.{String}
use aero_safe_rl.Base.{ℕ, ℤ, Float, Bool, Option}
use aero_safe_rl.Policy.Action.{Action}

pub record DetectorOutput : Type 0 where
  pub p_fault : ℤ
  pub rotor : ℤ
  pub severity : ℤ
  pub uncertainty : ℤ
  pub alarm : Bool

pub record MissionProgress : Type 0 where
  pub waypoint_index : ℕ
  pub n_waypoints : ℕ
  pub distance_to_waypoint_m : ℕ
  pub altitude_m : ℤ
  pub elapsed_s : ℤ

pub record PolicyInput : Type 0 where
  pub t_sim_s : ℕ
  pub features : String → Option Float
  pub detector : DetectorOutput
  pub mission : MissionProgress
  pub previous_action : Option Action
