-- ===== src/Sync.antt =====
-- common/system/sync_server: mutexes, condition variables and barriers, and their server.
pub mod Effects
pub mod Growth
pub mod Mutex
pub mod Cond
pub mod Barrier
pub mod Server
