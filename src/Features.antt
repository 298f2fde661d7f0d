-- ===== src/Features.antt =====
-- ai/features/feature_extractor.py: the telemetry window and the features read from it.
mod Defs
pub mod Window
pub mod Series
unfoldable pub use Defs.*
