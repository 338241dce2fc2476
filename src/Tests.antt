-- ===== src/Tests.antt =====
-- Runs of the model on small inputs, and the theorems at inputs that meet their hypotheses.
mod Sync
mod Directory
mod Cache
mod Barrier
mod Queues
mod DirectoryCntlr
mod FullMap
