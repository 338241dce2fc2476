-- ===== src/LaxBarrier/Release.antt =====
-- `barrierRelease` ends, and releases the tiles that the new barrier time lets go on.
use graphite_atac.Prelude.{
  ℕ, zero, suc, ◌+◌, ◌-◌, ◌%◌, ◌^◌, ◌<◌, ◌≤◌, ◌≡◌, ◌≢◌, refl, sym, ap, ◌∙◌, ltb, ltb→lt, Bool, true,
  List, [], ◌∷◌, some, get_elem?, length, ok, arith, Bool-cases, inl, inr, All, All-get_elem?,
}
use graphite_atac.Threads.{ThreadManager}
use graphite_atac.Threads.Running.{IsExclusive}
use graphite_atac.LaxBarrier.{
  LaxBarrierSyncServer, running_or_initializing, release_from, release_loop,
}
pub use graphite_atac.LaxBarrier.Pass.{running_or_initializing_lem, Match}
unfoldable pub use graphite_atac.LaxBarrier.Pass.{between}
use graphite_atac.LaxBarrier.Pass.{between_self, between_skip, between-ne, release_from_lem}

-- A state that the server reaches: the interval is positive, and no barrier time overflows.
pub record IsValid (s : LaxBarrierSyncServer) : Type 0 where
  pub flags : Match s.next_barrier_time s.local_clock_list s.barrier_acquire_list
  pub positive : 0 < s.barrier_interval
  pub small : All (λ clock. clock + s.barrier_interval < 2 ^ 64) s.local_clock_list

-- What a release does: the barrier time rises just until some tile can go on, and every tile that
-- then can is released.
pub record Released (s s' : LaxBarrierSyncServer) (tiles : List ℕ) : Type 0 where
  pub valid : IsValid s'
  pub clocks : s'.local_clock_list ≡ s.local_clock_list
  pub interval : s'.barrier_interval ≡ s.barrier_interval
  pub rises : s.next_barrier_time + s.barrier_interval ≤ s'.next_barrier_time
  pub released : tiles ≡ between s.next_barrier_time s'.next_barrier_time 0 s.local_clock_list
  pub some_tile : tiles ≢ []
  pub first :
      between s.next_barrier_time (s'.next_barrier_time - s.barrier_interval) 0 s.local_clock_list
      ≡ []

module _ (threads : ThreadManager) where
  abbrev pub Ends : ℕ → LaxBarrierSyncServer → Type 0
  Ends fuel s =
      (s' : LaxBarrierSyncServer) × (tiles : List ℕ) × (release_loop fuel threads s
        ≡ some (ok (s', tiles)))
      × Released s s' tiles

  -- The next barrier time, and the state after one pass.
  abbrev up : LaxBarrierSyncServer → ℕ
  up s = (s.next_barrier_time + s.barrier_interval) % 2 ^ 64

  abbrev pass : LaxBarrierSyncServer → List Bool → LaxBarrierSyncServer
  pass s acquires = record s { next_barrier_time = up s; barrier_acquire_list = acquires }

  stops :
      (fuel : ℕ) (s : LaxBarrierSyncServer) (acquires : List Bool) (tile : ℕ) (rest : List ℕ)
      → release_from threads (up s) 0 s.local_clock_list s.barrier_acquire_list
        ≡ ok (acquires, tile ∷ rest)
      → release_loop (suc fuel) threads s ≡ some (ok (pass s acquires, tile ∷ rest))
  unfolding release_loop
  stops fuel s acquires tile rest run = rw (run, release_loop) refl

  goes_on :
      (fuel : ℕ) (s : LaxBarrierSyncServer) (acquires : List Bool)
      → release_from threads (up s) 0 s.local_clock_list s.barrier_acquire_list ≡ ok (acquires, [])
      → release_loop (suc fuel) threads s ≡ release_loop fuel threads (pass s acquires)
  unfolding release_loop
  goes_on fuel s acquires run = rw (run, release_loop) refl

  -- The hypotheses of the loop: some clock has reached the barrier time, and the fuel is enough.
  record Waiting (fuel : ℕ) (s : LaxBarrierSyncServer) (i clock : ℕ) : Type 0 where
    valid : IsValid s
    active : (j : ℕ) → j < length s.local_clock_list → running_or_initializing threads j ≡ ok true
    at_tile : get_elem? s.local_clock_list i ≡ some clock
    reached : s.next_barrier_time ≤ clock
    enough : clock < s.next_barrier_time + fuel

  next_pass :
      (fuel : ℕ) (s : LaxBarrierSyncServer) (i clock : ℕ)
      → Waiting (suc fuel) s i clock
      → up s ≡ s.next_barrier_time + s.barrier_interval
      → (acquires : List Bool) → Match (up s) s.local_clock_list acquires
      → (tiles : List ℕ) → between s.next_barrier_time (up s) 0 s.local_clock_list ≡ tiles
      → release_from threads (up s) 0 s.local_clock_list s.barrier_acquire_list
        ≡ ok (acquires, tiles)
      → (Waiting fuel (pass s acquires) i clock → Ends fuel (pass s acquires))
      → Ends (suc fuel) s
  next_pass fuel s i clock w e acquires m (tile ∷ tiles) b run rec = (
    pass s acquires,
    tile ∷ tiles,
    stops fuel s acquires tile tiles run,
    record {
      valid = record { flags = m; positive = w.valid.positive; small = w.valid.small };
      clocks = refl;
      interval = refl;
      rises = omega (arith, e);
      released = sym b;
      some_tile = λ h. cc;
      first =
          ap (λ t. between s.next_barrier_time t 0 s.local_clock_list) {y = s.next_barrier_time}
            (omega (arith, e))
          ∙ between_self s.next_barrier_time 0 s.local_clock_list;
    },
  )
  next_pass fuel s i clock w e acquires m [] b run rec =
      let (s', tiles, runs, r) = rec (record {
        valid = record { flags = m; positive = w.valid.positive; small = w.valid.small };
        active = w.active;
        at_tile = w.at_tile;
        reached = elim (Bool-cases (ltb clock (up s))) [
          | inl early ↦ absurd (
              between-ne s.next_barrier_time (up s) 0 i clock s.local_clock_list w.at_tile w.reached
                (ltb→lt clock (up s) early) b)
          | inr late ↦ ground (arith, late)
        ];
        enough = omega (arith, e, w.enough, w.valid.positive);
      }) in
      (
        s',
        tiles,
        goes_on fuel s acquires run ∙ runs,
        record {
          valid = r.valid;
          clocks = r.clocks;
          interval = r.interval;
          rises = omega (arith, r.rises, e);
          released =
              r.released
              ∙ sym (
                  between_skip s.next_barrier_time (up s) s'.next_barrier_time 0 s.local_clock_list
                    (omega (arith, e)) b);
          some_tile = r.some_tile;
          first =
              between_skip s.next_barrier_time (up s) (s'.next_barrier_time - s.barrier_interval) 0
                s.local_clock_list (omega (arith, e)) b
              ∙ r.first;
        },
      )

  release_loop-Waiting :
      (fuel : ℕ) (s : LaxBarrierSyncServer) (i clock : ℕ) → Waiting fuel s i clock → Ends fuel s
  release_loop-Waiting zero s i clock w = absurd (omega (arith, w.enough, w.reached))
  release_loop-Waiting (suc fuel) s i clock w =
      let bound =
        All-get_elem? (λ c. c + s.barrier_interval < 2 ^ 64) s.local_clock_list i w.valid.small
          w.at_tile in
      let e : up s ≡ s.next_barrier_time + s.barrier_interval = omega (arith, bound, w.reached) in
      let (acquires, run, m) =
        release_from_lem threads s.next_barrier_time (up s) 0 s.local_clock_list
          s.barrier_acquire_list (λ j b. w.active j (omega arith)) (omega (arith, e))
          w.valid.flags in
      next_pass fuel s i clock w e acquires m
        (between s.next_barrier_time (up s) 0 s.local_clock_list) refl run
        (release_loop-Waiting fuel (pass s acquires) i clock)

  -- In a valid server, with at most one running thread on each core, the release ends if some clock
  -- has reached the barrier time and the fuel is above its distance: the barrier time rises by at
  -- least the interval, just until some tile can go on, and the tiles released are those whose
  -- clocks it has passed, of which there is one.
  pub release_loop_lem :
      (fuel : ℕ) (s : LaxBarrierSyncServer) (i clock : ℕ)
      → IsValid s
      → IsExclusive threads
      → length s.local_clock_list ≤ length threads.thread_state
      → get_elem? s.local_clock_list i ≡ some clock
      → s.next_barrier_time ≤ clock
      → clock < s.next_barrier_time + fuel
      → Ends fuel s
  release_loop_lem fuel s i clock v e tiles at_i reached enough =
      release_loop-Waiting fuel s i clock (record {
        valid = v;
        active = λ j h. running_or_initializing_lem threads j e (omega arith);
        at_tile = at_i;
        reached = reached;
        enough = enough;
      })
