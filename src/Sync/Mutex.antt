-- ===== src/Sync/Mutex.antt =====
-- `SimMutex` of common/system/sync_server.cc.
pub mod Fifo
use graphite_atac.Prelude.{
  Bool, true, false, Option, none, some, List, [], ◌∷◌, ◌++◌, Result, ok, fail, ◌>>=◌, ◌>>◌, assert,
}
use graphite_atac.Sync.Growth.{is_empty}
use graphite_atac.Sync.Effects.{CoreId, same_core, Effect, stall_thread, resume_thread}

pub record SimMutex : Type 0 where
  pub owner : Option CoreId
  pub waiting : List CoreId

unfoldable pub new_mutex : SimMutex
new_mutex = record { owner = none; waiting = [] }

-- The new mutex, the calls made, and whether the core now owns the lock.
unfoldable pub lock : SimMutex → CoreId → SimMutex × List Effect × Bool
lock m core = elim m.owner [
  | none ↦ (record m { owner = some core }, [], true)
  | some _ ↦ (record m { waiting = m.waiting ++ core ∷ [] }, stall_thread core ∷ [], false)
]

unfoldable pub is_owner : Option CoreId → CoreId → Bool
is_owner none core = false
is_owner (some o) core = same_core o core

unfoldable pub hand_over : List CoreId → SimMutex × List Effect × Option CoreId
hand_over [] = (record { owner = none; waiting = [] }, [], none)
hand_over (next ∷ rest) =
    (record { owner = some next; waiting = rest }, resume_thread next ∷ [], some next)

-- The new mutex, the calls made, and the next owner, if any.
unfoldable pub unlock : SimMutex → CoreId → Result (SimMutex × List Effect × Option CoreId)
unfolding is_owner hand_over
unlock m core = do assert (is_owner m.owner core); ok (hand_over m.waiting)

-- `~SimMutex` asserts that no core waits.
unfoldable pub may_destroy : SimMutex → Bool
may_destroy m = is_empty m.waiting
