-- ===== src/Shard/Pools.antt =====
-- The invariant of a shard's pools, and that the allocators keep it.
pub mod Inv
pub mod Waiters
pub mod Slots
pub mod Account
