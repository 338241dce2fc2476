-- ===== src/LaxBarrier/Stall.antt =====
-- A thread that stalls may be the last one that the barrier waited for.
use graphite_atac.Prelude.{
  ℕ, ◌<◌, ◌≤◌, ◌≡◌, Bool, true, false, not, ◌&&◌, if◌then◌else◌, List, [], ◌∷◌, ◌++◌, Option, some,
  get_elem?, length, ok, arith, All, All-get_elem?,
}
use graphite_atac.Threads
use graphite_atac.Threads.{CoreState, ThreadManager}
use graphite_atac.Threads.Running.{IsExclusive, stall_thread-IsExclusive}
use graphite_atac.LaxBarrier.{
  LaxBarrierSyncServer, notify, is_barrier_reached, release_messages, barrier_release, signal,
  stall_thread,
}
use graphite_atac.LaxBarrier.Release.{IsValid, Released, release_loop_lem}
use graphite_atac.LaxBarrier.Arrival.{any_late, any_reached, is_barrier_reached_lem, reached_clock}

-- What a stall does to the server: nothing if the barrier is not reached, else it opens.
abbrev pub Signalled :
    ℕ → Bool → ThreadManager → ThreadManager → LaxBarrierSyncServer → ℕ → ℕ → Bool → Type 0
Signalled fuel statistics threads threads' s tile j false =
    (is_barrier_reached threads' s ≡ ok false)
    × (stall_thread fuel statistics threads s tile j ≡ some (ok (threads', s, [])))
Signalled fuel statistics threads threads' s tile j true =
    (s' : LaxBarrierSyncServer) × (tiles : List ℕ) × (is_barrier_reached threads' s ≡ ok true)
    × Released s s' tiles
    × (stall_thread fuel statistics threads s tile j
        ≡ some (
            ok (
              threads',
              s',
              release_messages tiles
                  ++ (if statistics then notify s'.next_barrier_time ∷ [] else []),
            )))

module _ (fuel : ℕ) (statistics : Bool) (threads : ThreadManager) (s : LaxBarrierSyncServer)
    (tile j : ℕ) (v : IsValid s) (e : IsExclusive threads)
    (h : length s.local_clock_list ≤ length threads.thread_state)
    (enough : All (λ clock. clock < fuel) s.local_clock_list) where
  signalled :
      (threads' : ThreadManager)
      → Threads.stall_thread threads tile j ≡ ok threads'
      → IsExclusive threads'
      → length s.local_clock_list ≤ length threads'.thread_state
      → (b : Bool) → is_barrier_reached threads' s ≡ ok b
      → Signalled fuel statistics threads threads' s tile j b
  unfolding stall_thread signal barrier_release
  signalled threads' stalls e' h' false reached = (reached, ground (arith, stalls, reached))
  signalled threads' stalls e' h' true reached =
      let there : any_reached s.next_barrier_time s.local_clock_list ≡ true =
        ground (arith, reached, is_barrier_reached_lem threads' s e' h') in
      let (i, clock, at_i, got) = reached_clock s.next_barrier_time s.local_clock_list there in
      let (s', tiles, runs, r) =
        release_loop_lem threads' fuel s i clock v e' h' at_i got
          (omega (arith, All-get_elem? (λ clock. clock < fuel) s.local_clock_list i enough at_i)) in
      (s', tiles, reached, r, ground (arith, stalls, reached, runs))

  -- Stalling a thread, in a valid server with at most one running thread on each core and fuel
  -- above every clock, succeeds and keeps the cores so; the barrier then opens exactly if some
  -- clock has got to it and no tile with a clock behind still has a running thread.
  pub stall_thread_lem :
      (states : List CoreState) (state : CoreState) (last : Option ℕ)
      → get_elem? threads.thread_state tile ≡ some states
      → get_elem? states j ≡ some state
      → get_elem? threads.last_stalled_thread tile ≡ some last
      → (threads' : ThreadManager) × (Threads.stall_thread threads tile j ≡ ok threads')
        × IsExclusive threads'
        × Signalled fuel statistics threads threads' s tile j (
            not (any_late threads' s.next_barrier_time 0 s.local_clock_list)
            && any_reached s.next_barrier_time s.local_clock_list)
  stall_thread_lem states state last at_tile at_j at_last =
      let (threads', stalls, e', _, _, len) =
        stall_thread-IsExclusive threads tile j states state last e at_tile at_j at_last in
      let h' : length s.local_clock_list ≤ length threads'.thread_state = omega (arith, len) in
      (
        threads',
        stalls,
        e',
        signalled threads' stalls e' h'
            (not (any_late threads' s.next_barrier_time 0 s.local_clock_list)
              && any_reached s.next_barrier_time s.local_clock_list)
            (is_barrier_reached_lem threads' s e' h'),
      )
