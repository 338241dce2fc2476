-- ===== src/Sync/Barrier.antt =====
-- `SimBarrier` of common/system/sync_server.cc.
pub mod Release
use graphite_atac.Prelude.{
  ℕ, zero, suc, Bool, List, [], ◌∷◌, ◌++◌, map, if◌then◌else◌, ◌==◌, ltb, leb, length, Result, ok,
  fail, ◌>>=◌, ◌>>◌, assert,
}
use graphite_atac.Sync.Growth.{is_empty}
use graphite_atac.Sync.Effects.{CoreId, Effect, stall_thread, resume_thread}

pub record SimBarrier : Type 0 where
  pub waiting : List CoreId
  pub count : ℕ
  pub max_time : ℕ

unfoldable pub new_barrier : ℕ → SimBarrier
new_barrier count = record { waiting = []; count = count; max_time = 0 }

-- The time of the first arrival, or the latest.
unfoldable pub latest : ℕ → ℕ → ℕ → ℕ
latest arrived time old = if arrived == 1 then time else if ltb old time then time else old

-- The last arrival empties the barrier and resumes all that wait at it.
unfoldable pub release_or_wait :
    SimBarrier → List CoreId → CoreId → ℕ → Result (SimBarrier × List Effect × List CoreId)
release_or_wait b waiting' core time =
    if length waiting' == b.count
    then ok (
      record b { waiting = []; max_time = time },
      stall_thread core ∷ map resume_thread waiting',
      waiting',
    )
    else ok (record b { waiting = waiting'; max_time = time }, stall_thread core ∷ [], [])

-- The new barrier, the calls made, and the threads to wake.
unfoldable pub wait : SimBarrier → CoreId → ℕ → Result (SimBarrier × List Effect × List CoreId)
unfolding latest release_or_wait
wait b core time = do
  let waiting' = b.waiting ++ core ∷ []
  let arrived = length waiting'
  assert (leb arrived b.count)
  let max_time' = latest arrived time b.max_time
  release_or_wait b waiting' core max_time'

-- `~SimBarrier` asserts that no core waits.
unfoldable pub may_destroy : SimBarrier → Bool
may_destroy b = is_empty b.waiting
