-- ===== src/DirectoryCntlr.antt =====
-- `DramDirectoryCntlr` of the MSI protocol with private caches
-- (common/tile/memory_subsystem/pr_l1_pr_l2_dram_directory_msi/dram_directory_cntlr.cc): a slice of
-- the directory serves the requests of the second level caches, those of one line in turn.
pub mod Messages
pub mod State
pub mod Replacement
pub mod Requests
pub mod Replies
pub mod Candidates
pub mod Invariant
