-- ===== src/Sync/Cond.antt =====
-- `SimCond` of common/system/sync_server.cc. A waiter keeps its mutex as a stable iterator, an
-- index into the server's mutexes (common/misc/stable_iterator.h), so the operations take these.
pub mod Broadcast
use graphite_atac.Prelude.{
  ◌≡◌, ℕ, Bool, true, false, Option, none, some, List, [], ◌∷◌, ◌++◌, if◌then◌else◌, get_elem?, set,
  Result, ok, fail, undefined_behaviour, ◌>>=◌,
}
use graphite_atac.Sync.Growth.{is_empty}
use graphite_atac.Sync.Effects.{CoreId, Effect, stall_thread, resume_thread}
use graphite_atac.Sync.Mutex.{SimMutex, lock, unlock}

pub record CondWaiter : Type 0 where
  pub core_id : CoreId
  pub mutex : ℕ
  pub arrival_time : ℕ

pub record SimCond : Type 0 where
  pub waiting : List CondWaiter

unfoldable pub new_cond : SimCond
new_cond = record { waiting = [] }

-- `~SimCond` asserts that no core waits.
unfoldable pub may_destroy : SimCond → Bool
may_destroy c = is_empty c.waiting

-- `*it` of a stable iterator: out of range it reads past the vector.
unfoldable pub deref : List SimMutex → ℕ → Result SimMutex
deref mutexes i = elim (get_elem? mutexes i) [ none ↦ fail undefined_behaviour | some m ↦ ok m ]

pub deref_lem :
    (mutexes : List SimMutex) (i : ℕ) {m : SimMutex}
    → get_elem? mutexes i ≡ some m
    → deref mutexes i ≡ ok m
unfolding deref
deref_lem mutexes i e = rw (e, deref)

-- The state, the mutexes, the calls made, and the thread that owns the mutex from now on, if any.
abbrev pub CondResult : Type 0
CondResult = Result (SimCond × List SimMutex × List Effect × Option CoreId)

unfoldable pub wait : SimCond → CoreId → ℕ → ℕ → List SimMutex → CondResult
wait c core time mux mutexes = do
  let c' : SimCond = record {
    waiting = c.waiting ++ record { core_id = core; mutex = mux; arrival_time = time } ∷ [];
  }
  m ← deref mutexes mux
  (m', effects, owner) ← unlock m core
  ok (c', set mutexes mux m', stall_thread core ∷ effects, owner)

-- A woken waiter asks for its mutex again: the mutexes, the calls made, whether it has the lock.
unfoldable pub wake : CondWaiter → List SimMutex → Result (List SimMutex × List Effect × Bool)
wake w mutexes = do
  m ← deref mutexes w.mutex
  let (m', effects, locked) = lock m w.core_id
  ok (set mutexes w.mutex m', resume_thread w.core_id ∷ effects, locked)

-- `m_waiting.erase(m_waiting.begin())`, where `w` is at the first place: each place is assigned the
-- next waiter, but `StableIterator::operator=` assigns nothing, so that the mutexes stay.
unfoldable pub erase_first : CondWaiter → List CondWaiter → List CondWaiter
erase_first w [] = []
erase_first w (next ∷ rest) = record next { mutex = w.mutex } ∷ erase_first next rest

unfoldable pub signal_first : List CondWaiter → List SimMutex → CondResult
unfolding wake erase_first
signal_first [] mutexes = ok (record { waiting = [] }, mutexes, [], none)
signal_first (w ∷ rest) mutexes = do
  (mutexes', effects, locked) ← wake w mutexes
  ok (
    record { waiting = erase_first w rest },
    mutexes',
    effects,
    if locked then some w.core_id else none,
  )

unfoldable pub signal : SimCond → List SimMutex → CondResult
unfolding signal_first
signal c mutexes = signal_first c.waiting mutexes

-- The loop over the waiters: the mutexes, the calls made, the list of woken threads.
unfoldable pub wake_all :
    List CondWaiter → List SimMutex → Result (List SimMutex × List Effect × List CoreId)
unfolding wake
wake_all [] mutexes = ok (mutexes, [], [])
wake_all (w ∷ rest) mutexes = do
  (mutexes', effects, locked) ← wake w mutexes
  (mutexes'', effects', woken) ← wake_all rest mutexes'
  ok (mutexes'', effects ++ effects', if locked then w.core_id ∷ woken else woken)

unfoldable pub broadcast :
    SimCond → List SimMutex → Result (SimCond × List SimMutex × List Effect × List CoreId)
unfolding wake_all
broadcast c mutexes = do
  (mutexes', effects, woken) ← wake_all c.waiting mutexes
  ok (record { waiting = [] }, mutexes', effects, woken)
