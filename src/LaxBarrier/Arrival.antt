-- ===== src/LaxBarrier/Arrival.antt =====
-- Who waits at the barrier, and when it opens.
use graphite_atac.Prelude.{
  ℕ, zero, suc, ◌+◌, ◌^◌, ◌<◌, ◌≤◌, ◌≡◌, refl, ap, ◌∙◌, ltb, ltb→lt, if◌then◌else◌, Bool, true,
  false, not, ◌&&◌, ◌||◌, List, [], ◌∷◌, ◌++◌, none, some, get_elem?, get_elem?-lt, set, length,
  length-set, ok, arith, Bool-cases, inl, inr, All, All-set, All-get_elem?,
}
use graphite_atac.Threads.{ThreadManager, is_core_running}
use graphite_atac.Threads.Running.{IsExclusive, is_core_running-Found}
use graphite_atac.LaxBarrier.{
  LaxBarrierSyncServer, barrier_release_to, notify, is_barrier_reached_from, is_barrier_reached,
  release_messages, barrier_release, signal, arrive, barrier_wait,
}
use graphite_atac.LaxBarrier.Release.{
  running_or_initializing_lem, Match, IsValid, Released, release_loop_lem,
}

-- A tile is waited for: its clock is behind and a thread runs on it.
unfoldable pub is_late : ThreadManager → ℕ → ℕ → ℕ → Bool
is_late threads next tile clock = elim (is_core_running threads tile) [
  | ok (some j) ↦ ltb clock next
  | r ↦ false
]

unfoldable pub any_late : ThreadManager → ℕ → ℕ → List ℕ → Bool
any_late threads next tile [] = false
any_late threads next tile (clock ∷ clocks) =
    is_late threads next tile clock || any_late threads next (suc tile) clocks

unfoldable pub any_reached : ℕ → List ℕ → Bool
any_reached next [] = false
any_reached next (clock ∷ clocks) = not (ltb clock next) || any_reached next clocks

is_barrier_reached_from_lem :
    (threads : ThreadManager) (next tile : ℕ) (reached : Bool) (clocks : List ℕ)
    → IsExclusive threads
    → tile + length clocks ≤ length threads.thread_state
    → is_barrier_reached_from threads next tile reached clocks
      ≡ ok (not (any_late threads next tile clocks) && (reached || any_reached next clocks))
unfolding is_barrier_reached_from any_late any_reached is_late
is_barrier_reached_from_lem threads next tile reached [] e h = ground arith
is_barrier_reached_from_lem threads next tile reached (clock ∷ clocks) e h =
    let (states, at_tile) = get_elem?-lt threads.thread_state tile (omega arith) in
    let (r, asked, _) = is_core_running-Found threads tile states e at_tile in
    ground (
      arith,
      asked,
      running_or_initializing_lem threads tile e,
      is_barrier_reached_from_lem threads next (suc tile) reached clocks e,
      is_barrier_reached_from_lem threads next (suc tile) true clocks e,
    )

-- With at most one running thread on each core, the test of the barrier succeeds, and says that it
-- is reached exactly if some clock has got to it and no tile with a clock behind has a running
-- thread.
pub is_barrier_reached_lem :
    (threads : ThreadManager) (s : LaxBarrierSyncServer)
    → IsExclusive threads
    → length s.local_clock_list ≤ length threads.thread_state
    → is_barrier_reached threads s
      ≡ ok (
          not (any_late threads s.next_barrier_time 0 s.local_clock_list)
          && any_reached s.next_barrier_time s.local_clock_list)
unfolding is_barrier_reached
is_barrier_reached_lem threads s e h =
    is_barrier_reached_from_lem threads s.next_barrier_time 0 false s.local_clock_list e
      (omega arith)

pub reached_clock :
    (next : ℕ) (clocks : List ℕ)
    → any_reached next clocks ≡ true
    → (i clock : ℕ) × (get_elem? clocks i ≡ some clock) × (next ≤ clock)
unfolding any_reached
reached_clock next [] h = cc
reached_clock next (clock ∷ clocks) h = elim (Bool-cases (ltb clock next)) [
  | inr here ↦ (0, clock, refl, ground (arith, here))
  | inl behind ↦
      let (i, c, at_i, reached) = reached_clock next clocks (ground (arith, behind)) in
      (suc i, c, at_i, reached)
]

Match-set :
    (next time tile : ℕ) (clocks : List ℕ) (acquires : List Bool)
    → Match next clocks acquires
    → next ≤ time
    → Match next (set clocks tile time) (set acquires tile true)
Match-set next time tile [] [] m h = tt
Match-set next time tile [] (a ∷ acquires) m h = absurd m
Match-set next time tile (c ∷ clocks) [] m h = absurd m
Match-set next time zero (c ∷ clocks) (a ∷ acquires) m h = (ground arith, m.1)
Match-set next time (suc tile) (c ∷ clocks) (a ∷ acquires) m h =
    (m.0, Match-set next time tile clocks acquires m.1 h)

Match-length :
    (next : ℕ) (clocks : List ℕ) (acquires : List Bool)
    → Match next clocks acquires
    → length acquires ≡ length clocks
Match-length next [] [] m = refl
Match-length next [] (a ∷ acquires) m = absurd m
Match-length next (c ∷ clocks) [] m = absurd m
Match-length next (c ∷ clocks) (a ∷ acquires) m = ap suc (Match-length next clocks acquires m.1)

-- The server when the tile has come to the barrier.
abbrev pub arrived : LaxBarrierSyncServer → ℕ → ℕ → LaxBarrierSyncServer
arrived s tile time = record s {
  local_clock_list = set s.local_clock_list tile time;
  barrier_acquire_list = set s.barrier_acquire_list tile true;
}

arrive_lem :
    (threads : ThreadManager) (s : LaxBarrierSyncServer) (tile time : ℕ)
    → IsValid s
    → IsExclusive threads
    → length s.local_clock_list ≤ length threads.thread_state
    → tile < length s.local_clock_list
    → arrive threads s tile time
      ≡ ok (if ltb time s.next_barrier_time then none else some (arrived s tile time))
unfolding arrive
arrive_lem threads s tile time v e h k =
    let (clock, at_clock) = get_elem?-lt s.local_clock_list tile k in
    let (flag, at_flag) = get_elem?-lt s.barrier_acquire_list tile (
      omega (
        arith,
        Match-length s.next_barrier_time s.local_clock_list s.barrier_acquire_list v.flags,
      )) in
    ground (arith, running_or_initializing_lem threads tile e, at_clock, at_flag)

-- What a wait does. A core whose time is before the barrier is released at once. Any other arrives;
-- it waits while the barrier is not reached, and else the barrier opens.
pub data Waited (fuel : ℕ) (statistics : Bool) (threads : ThreadManager) (s : LaxBarrierSyncServer)
    (tile time : ℕ) : Type 0 where
  at_once :
      time < s.next_barrier_time
      → barrier_wait fuel statistics threads s tile time
        ≡ some (ok (s, barrier_release_to tile ∷ []))
      → Waited fuel statistics threads s tile time
  waits :
      s.next_barrier_time ≤ time
      → is_barrier_reached threads (arrived s tile time) ≡ ok false
      → IsValid (arrived s tile time)
      → barrier_wait fuel statistics threads s tile time ≡ some (ok (arrived s tile time, []))
      → Waited fuel statistics threads s tile time
  opens :
      (s' : LaxBarrierSyncServer) (tiles : List ℕ)
      → s.next_barrier_time ≤ time
      → is_barrier_reached threads (arrived s tile time) ≡ ok true
      → Released (arrived s tile time) s' tiles
      → barrier_wait fuel statistics threads s tile time
        ≡ some (
            ok (
              s',
              release_messages tiles
                  ++ (if statistics then notify s'.next_barrier_time ∷ [] else []),
            ))
      → Waited fuel statistics threads s tile time

module _ (fuel : ℕ) (statistics : Bool) (threads : ThreadManager) (s : LaxBarrierSyncServer)
    (tile time : ℕ) (v : IsValid s) (e : IsExclusive threads)
    (h : length s.local_clock_list ≤ length threads.thread_state)
    (k : tile < length s.local_clock_list) (small : time + s.barrier_interval < 2 ^ 64)
    (enough : All (λ clock. clock < fuel) (set s.local_clock_list tile time)) where
  arrived-IsValid : s.next_barrier_time ≤ time → IsValid (arrived s tile time)
  arrived-IsValid late = record {
    flags =
        Match-set s.next_barrier_time time tile s.local_clock_list s.barrier_acquire_list v.flags
          late;
    positive = v.positive;
    small =
        All-set (λ clock. clock + s.barrier_interval < 2 ^ 64) s.local_clock_list tile time v.small
          small;
  }

  after_arrival :
      (late : s.next_barrier_time ≤ time)
      → (b : Bool) → is_barrier_reached threads (arrived s tile time) ≡ ok b
      → arrive threads s tile time ≡ ok (some (arrived s tile time))
      → Waited fuel statistics threads s tile time
  unfolding barrier_wait signal barrier_release
  after_arrival late false reached came =
      waits late reached (arrived-IsValid late) (ground (arith, came, reached))
  after_arrival late true reached came =
      let there : any_reached s.next_barrier_time (set s.local_clock_list tile time) ≡ true =
        ground (
          arith,
          reached,
          is_barrier_reached_lem threads (arrived s tile time) e,
          length-set s.local_clock_list tile time,
        ) in
      let (i, clock, at_i, got) =
        reached_clock s.next_barrier_time (set s.local_clock_list tile time) there in
      let (s', tiles, runs, r) =
        release_loop_lem threads fuel (arrived s tile time) i clock (arrived-IsValid late) e
          (omega (arith, length-set s.local_clock_list tile time)) at_i got
          (omega (
            arith,
            All-get_elem? (λ clock. clock < fuel) (set s.local_clock_list tile time) i enough at_i,
          )) in
      opens s' tiles late reached r (ground (arith, came, reached, runs))

  -- In a valid server, with at most one running thread on each core, a main core that comes to the
  -- barrier with a time that cannot overflow is released at once if the time is before the barrier;
  -- otherwise it waits if the barrier is not reached, with the server valid, and else the barrier
  -- is released. Fuel above every clock is enough.
  pub barrier_wait_lem : Waited fuel statistics threads s tile time
  unfolding barrier_wait
  barrier_wait_lem = elim (Bool-cases (ltb time s.next_barrier_time)) [
    | inl early ↦
        let came : arrive threads s tile time ≡ ok none =
          arrive_lem threads s tile time v e h k ∙ rw early refl in
        at_once (ltb→lt time s.next_barrier_time early) (ground (arith, came))
    | inr late ↦
        let came : arrive threads s tile time ≡ ok (some (arrived s tile time)) =
          arrive_lem threads s tile time v e h k ∙ rw late refl in
        after_arrival (ground (arith, late))
          (not (any_late threads s.next_barrier_time 0 (set s.local_clock_list tile time))
            && any_reached s.next_barrier_time (set s.local_clock_list tile time))
          (is_barrier_reached_lem threads (arrived s tile time) e
            (omega (arith, length-set s.local_clock_list tile time)))
          came
  ]
