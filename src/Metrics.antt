-- ===== src/Metrics.antt =====
-- experiments/metrics.py: how a flight is judged, and how soon and how often a detector's alarm sounds.
mod First
mod Detection
mod Outcome
pub mod Delay
pub mod Contact
pub mod Slices
pub mod Success
unfoldable pub use First.*
unfoldable pub use Detection.*
unfoldable pub use Outcome.*
