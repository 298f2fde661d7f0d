-- ===== src/Tests.antt =====
-- Concrete inputs on which the theorems apply.
mod Policies
mod Windows
mod Workers
mod Farms
mod Flights
mod Schedules
mod Identities
mod Alarms
mod Missions
mod Episodes
mod Resets
mod Judgements
mod Logs
