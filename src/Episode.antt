-- ===== src/Episode.antt =====
-- experiments/episode_schema.py and experiments/fault_schedule.py: the vocabulary of an episode
-- record, and the fault an episode is flown with.
pub mod Record
pub mod Schema
pub mod Logger
pub mod Logged
unfoldable pub use Record.*
