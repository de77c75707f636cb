-- ===== src/Middle/Keeps.antt =====
-- The steps of the middle layer keep the invariant of the shard's pools.
pub mod Take
pub mod Join
pub mod Fill
pub mod Back
pub mod Round
pub mod Issue
pub mod Fuel
pub mod Finish
pub mod Settle
pub mod Reap
pub mod Drain
pub mod Held
pub mod Release
pub mod Laps
pub mod Once
pub mod Threads
