-- ===== src/Policy.antt =====
-- rl/: recovery policies over the detector's output, and the driver that runs them in a flight.
pub mod Action
pub mod Outcome
pub mod Input
pub mod RuleBased
pub mod Driver
pub mod Alarm
