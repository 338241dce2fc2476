-- ===== src/Threads.antt =====
-- `ThreadManager` (common/system/thread_manager.cc): the states of the threads of each tile's main core.
-- Its calls on another core type end in an assertion; the master process makes them.
pub mod Exclusive
pub mod Running
use graphite_atac.Prelude.{
  vector_at, vector_set, ℕ, zero, suc, ◌+◌, ◌==◌, ◌<◌, if◌then◌else◌, Bool, true, false, not, List,
  [], ◌∷◌, Option, none, some, get_elem?, set, Result, ok, fail, log_error, undefined_behaviour,
  assert, ◌>>=◌, ◌>>◌,
}

-- `Core::State` (core.h).
pub data CoreState : Type 0 where
  running initializing stalled sleeping waking_up idle : CoreState

-- `none` is `INVALID_THREAD_ID`.
pub record ThreadManager : Type 0 where
  pub thread_state : List (List CoreState)
  pub last_stalled_thread : List (Option ℕ)

unfoldable pub is_running : CoreState → Bool
is_running running = true
is_running state = false

unfoldable pub is_initializing : CoreState → Bool
is_initializing initializing = true
is_initializing state = false

abbrev pub threads_of : ThreadManager → ℕ → Result (List CoreState)
threads_of m tile = elim (get_elem? m.thread_state tile) [
  | none ↦ fail undefined_behaviour
  | some threads ↦ ok threads
]

-- The loop of `isCoreRunning`, at thread `j` with the index found so far.
unfoldable pub running_from : ℕ → Option ℕ → List CoreState → Result (Option ℕ)
running_from j found [] = ok found
running_from j found (state ∷ states) = elim (is_running state) [
  | false ↦ running_from (suc j) found states
  | true ↦ elim found [ none ↦ running_from (suc j) (some j) states | some i ↦ fail log_error ]
]

unfoldable pub is_core_running : ThreadManager → ℕ → Result (Option ℕ)
is_core_running m tile = do threads ← threads_of m tile; running_from 0 none threads

unfoldable pub any_initializing : List CoreState → Bool
any_initializing [] = false
any_initializing (state ∷ states) = if is_initializing state then true else any_initializing states

unfoldable pub is_core_initializing : ThreadManager → ℕ → Result Bool
is_core_initializing m tile = do threads ← threads_of m tile; ok (any_initializing threads)

-- The clock-skew server is signalled afterwards, if there is one.
unfoldable pub stall_thread : ThreadManager → ℕ → ℕ → Result ThreadManager
stall_thread m tile thread_index = do
  threads ← threads_of m tile
  threads' ← vector_set threads thread_index stalled
  last ← vector_set m.last_stalled_thread tile (some thread_index)
  ok (record { thread_state = set m.thread_state tile threads'; last_stalled_thread = last })

unfoldable pub stall_running_thread : ThreadManager → ℕ → Result ThreadManager
stall_running_thread m tile = do
  found ← is_core_running m tile
  elim found [ none ↦ assert false >> fail log_error | some j ↦ stall_thread m tile j ]

unfoldable pub resume_thread : ThreadManager → ℕ → ℕ → Result ThreadManager
resume_thread m tile thread_index = do
  threads ← threads_of m tile
  state ← elim (get_elem? threads thread_index) [
    | none ↦ fail undefined_behaviour
    | some state ↦ ok state
  ]
  assert (not (is_running state))
  ok (record m { thread_state = set m.thread_state tile (set threads thread_index running) })

unfoldable pub resume_last_stalled_thread : ThreadManager → ℕ → Result ThreadManager
resume_last_stalled_thread m tile = do
  last ← elim (get_elem? m.last_stalled_thread tile) [
    | none ↦ fail undefined_behaviour
    | some last ↦ ok last
  ]
  elim last [ none ↦ assert false >> fail log_error | some j ↦ resume_thread m tile j ]
