-- ===== src/Simulation.antt =====
-- simulation/instance_spec.py: the identity of one worker, from its instance number.
mod Instance
mod Handshake
pub mod Disjoint
unfoldable pub use Instance.*
