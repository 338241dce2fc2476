-- ===== src/Cache.antt =====
-- The caches of a tile (common/tile/memory_subsystem/cache): lines and their states, replacement
-- policies, sets of lines, and the cache itself with its counters.
pub mod Line
pub mod Replacement
pub mod Set
pub mod Misses
pub mod Counters
pub mod Operations
