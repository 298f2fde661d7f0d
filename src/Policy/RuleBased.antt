-- ===== src/Policy/RuleBased.antt =====
-- rl/policies/rule_based.py: the state machine over the detector's output.
mod Defs
pub mod Diagram
pub mod Confirm
unfoldable pub use Defs.*
