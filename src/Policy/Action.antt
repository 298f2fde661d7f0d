-- ===== src/Policy/Action.antt =====
-- rl/policies/base_policy.py: Action, ActionSpec and load_action_spec. A float is an integer number
-- of millionths (1.0 is 1000000); a decoded vector is a list of them.
mod Spec
pub mod Decode
pub mod Load
unfoldable pub use Spec.*
