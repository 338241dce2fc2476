-- ===== src/LaxBarrier.antt =====
-- `LaxBarrierSyncServer` (common/system/clock_skew_minimization_schemes/lax_barrier_sync_server.cc): cores
-- wait until every running one has reached the next barrier time.
pub mod Arrival
pub mod Pass
pub mod Release
pub mod Stall
use graphite_atac.Prelude.{
  vector_set, ℕ, zero, suc, ◌+◌, ◌%◌, ◌^◌, ◌==◌, ltb, if◌then◌else◌, Bool, true, false, not, List,
  [], ◌∷◌, ◌++◌, Option, none, some, get_elem?, set, replicate, ℤ, pos, negsuc, Result, ok, fail,
  log_error, assert_failed, undefined_behaviour, assert, ◌>>=◌, ◌>>◌,
}
use graphite_atac.Threads
use graphite_atac.Threads.{ThreadManager, is_core_running, is_core_initializing}

-- The clock and the acquire flag of each application tile.
pub record LaxBarrierSyncServer : Type 0 where
  pub barrier_interval : ℕ
  pub next_barrier_time : ℕ
  pub local_clock_list : List ℕ
  pub barrier_acquire_list : List Bool

unfoldable pub new_lax_barrier : ℕ → ℕ → LaxBarrierSyncServer
new_lax_barrier quantum num_application_tiles = record {
  barrier_interval = quantum;
  next_barrier_time = quantum;
  local_clock_list = replicate num_application_tiles 0;
  barrier_acquire_list = replicate num_application_tiles false;
}

-- The tiles whose main cores are sent `BARRIER_RELEASE`, and what the statistics thread is told.
pub data Message : Type 0 where
  barrier_release_to notify : ℕ → Message

-- `b != INVALID_THREAD_ID` for the `bool` that `isCoreInitializing` returns.
unfoldable pub differs_from_invalid : Bool → Bool
differs_from_invalid b = elim (if b then pos 1 else pos 0) [
  | pos n ↦ true
  | negsuc n ↦ not (n == 0)
]

-- The condition of the assertions.
unfoldable pub running_or_initializing : ThreadManager → ℕ → Result Bool
unfolding differs_from_invalid
running_or_initializing threads tile = do
  found ← is_core_running threads tile
  elim found [
    | some j ↦ ok true
    | none ↦ do b ← is_core_initializing threads tile; ok (differs_from_invalid b)
  ]

unfoldable pub is_barrier_reached_from : ThreadManager → ℕ → ℕ → Bool → List ℕ → Result Bool
is_barrier_reached_from threads next tile reached [] = ok reached
is_barrier_reached_from threads next tile reached (clock ∷ clocks) = elim (ltb clock next) [
  | true ↦ do
    found ← is_core_running threads tile
    elim found [
      | some j ↦ ok false
      | none ↦ is_barrier_reached_from threads next (suc tile) reached clocks
    ]
  | false ↦ do
    holds ← running_or_initializing threads tile
    assert holds
    is_barrier_reached_from threads next (suc tile) true clocks
]

unfoldable pub is_barrier_reached : ThreadManager → LaxBarrierSyncServer → Result Bool
is_barrier_reached threads s =
    is_barrier_reached_from threads s.next_barrier_time 0 false s.local_clock_list

-- The inner loop of `barrierRelease`: the flags afterwards, and the tiles that are released.
unfoldable pub release_from :
    ThreadManager → ℕ → ℕ → List ℕ → List Bool → Result (List Bool × List ℕ)
release_from threads next tile [] acquires = ok (acquires, [])
release_from threads next tile (clock ∷ clocks) [] =
    if ltb clock next
    then fail undefined_behaviour
    else release_from threads next (suc tile) clocks []
release_from threads next tile (clock ∷ clocks) (acquire ∷ acquires) = elim (ltb clock next) [
  | false ↦ do
    (rest, released) ← release_from threads next (suc tile) clocks acquires
    ok (acquire ∷ rest, released)
  | true ↦ elim acquire [
    | false ↦ do
      (rest, released) ← release_from threads next (suc tile) clocks acquires
      ok (false ∷ rest, released)
    | true ↦ do
      holds ← running_or_initializing threads tile
      assert holds
      (rest, released) ← release_from threads next (suc tile) clocks acquires
      ok (false ∷ rest, tile ∷ released)
  ]
]

pub release_messages : List ℕ → List Message
release_messages [] = []
release_messages (tile ∷ tiles) = barrier_release_to tile ∷ release_messages tiles

-- The loop until a thread is resumed, with fuel; `none` means that the fuel ran out.
unfoldable pub release_loop :
    ℕ → ThreadManager → LaxBarrierSyncServer → Option (Result (LaxBarrierSyncServer × List ℕ))
release_loop zero threads s = none
release_loop (suc fuel) threads s =
    let next = (s.next_barrier_time + s.barrier_interval) % 2 ^ 64 in
    elim (release_from threads next 0 s.local_clock_list s.barrier_acquire_list) [
      | fail fault ↦ some (fail fault)
      | ok (acquires, []) ↦
          release_loop fuel threads
            (record s { next_barrier_time = next; barrier_acquire_list = acquires })
      | ok (acquires, tile ∷ tiles) ↦ some (
          ok (record s { next_barrier_time = next; barrier_acquire_list = acquires }, tile ∷ tiles))
    ]

-- `barrierRelease`; a statistics thread may be there.
unfoldable pub barrier_release :
    ℕ
    → Bool
    → ThreadManager
    → LaxBarrierSyncServer
    → Option (Result (LaxBarrierSyncServer × List Message))
unfolding release_messages
barrier_release fuel statistics threads s = elim (release_loop fuel threads s) [
  | none ↦ none
  | some (fail fault) ↦ some (fail fault)
  | some (ok (s', tiles)) ↦ some (
      ok (
        s',
        release_messages tiles ++ (if statistics then notify s'.next_barrier_time ∷ [] else []),
      ))
]

unfoldable pub signal :
    ℕ
    → Bool
    → ThreadManager
    → LaxBarrierSyncServer
    → Option (Result (LaxBarrierSyncServer × List Message))
signal fuel statistics threads s = elim (is_barrier_reached threads s) [
  | fail fault ↦ some (fail fault)
  | ok true ↦ barrier_release fuel statistics threads s
  | ok false ↦ some (ok (s, []))
]

-- What `barrierWait` does before `signal`: `none` if the core is released at once.
unfoldable pub arrive :
    ThreadManager → LaxBarrierSyncServer → ℕ → ℕ → Result (Option LaxBarrierSyncServer)
arrive threads s tile time = do
  holds ← running_or_initializing threads tile
  assert holds
  if ltb time s.next_barrier_time then ok none else (do
    clocks ← vector_set s.local_clock_list tile time
    acquires ← vector_set s.barrier_acquire_list tile true
    ok (some (record s { local_clock_list = clocks; barrier_acquire_list = acquires })))

-- `barrierWait`, for the main core of a tile.
unfoldable pub barrier_wait :
    ℕ
    → Bool
    → ThreadManager
    → LaxBarrierSyncServer
    → ℕ
    → ℕ
    → Option (Result (LaxBarrierSyncServer × List Message))
barrier_wait fuel statistics threads s tile time = elim (arrive threads s tile time) [
  | fail fault ↦ some (fail fault)
  | ok none ↦ some (ok (s, barrier_release_to tile ∷ []))
  | ok (some s') ↦ signal fuel statistics threads s'
]

-- `ThreadManager::stallThread` signals the server, since the barrier may now be reached.
unfoldable pub stall_thread :
    ℕ
    → Bool
    → ThreadManager
    → LaxBarrierSyncServer
    → ℕ
    → ℕ
    → Option (Result (ThreadManager × LaxBarrierSyncServer × List Message))
stall_thread fuel statistics threads s tile thread_index =
    elim (Threads.stall_thread threads tile thread_index) [
      | fail fault ↦ some (fail fault)
      | ok threads' ↦ elim (signal fuel statistics threads' s) [
        | none ↦ none
        | some (fail fault) ↦ some (fail fault)
        | some (ok (s', messages)) ↦ some (ok (threads', s', messages))
      ]
    ]
