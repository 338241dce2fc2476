-- ===== src/Directory.antt =====
-- common/tile/memory_subsystem/directory_schemes: the entries of a coherence directory, which keep
-- the tiles that share a cache line, by each of the simulator's schemes.
pub mod Slots
pub mod SharerList
pub mod FullMap
pub mod Limited
pub mod LimitedBroadcast
pub mod Ackwise
pub mod Entry
pub mod Schemes
