-- ===== src/LaxBarrier/Pass.antt =====
-- One pass of the loop of `barrierRelease`.
use graphite_atac.Prelude.{
  ℕ, zero, suc, ◌+◌, ◌<◌, ◌≤◌, ◌≡◌, ◌≢◌, refl, ltb, if◌then◌else◌, Bool, true, false, not, ◌&&◌,
  List, [], ◌∷◌, some, get_elem?, length, ok, arith, Bool-cases, inl, inr, get_elem?-lt,
}
use graphite_atac.Threads.{ThreadManager}
use graphite_atac.Threads.Running.{IsExclusive, is_core_running-Found, is_core_initializing-IsJust}
use graphite_atac.LaxBarrier.{running_or_initializing, release_from}

-- If at most one thread of each core runs, the condition that the clock-skew server asserts of a
-- tile holds in any state of its threads, also if none runs or is being started.
pub running_or_initializing_lem :
    (threads : ThreadManager) (tile : ℕ)
    → IsExclusive threads
    → tile < length threads.thread_state
    → running_or_initializing threads tile ≡ ok true
unfolding running_or_initializing
running_or_initializing_lem threads tile e h =
    let (states, at_tile) = get_elem?-lt threads.thread_state tile h in
    let (r, run, _) = is_core_running-Found threads tile states e at_tile in
    ground (arith, run, is_core_initializing-IsJust threads tile states at_tile)

-- A tile has acquired the barrier exactly if its clock has reached the barrier time.
abbrev pub Match : ℕ → List ℕ → List Bool → Type 0
Match next [] [] = Unit
Match next (clock ∷ clocks) (acquire ∷ acquires) =
    (acquire ≡ not (ltb clock next)) × Match next clocks acquires
Match next clocks acquires = ⊥

-- The tiles whose clocks lie from `low` on and below `high`; the first clock is that of `tile`.
unfoldable pub between : ℕ → ℕ → ℕ → List ℕ → List ℕ
between low high tile [] = []
between low high tile (clock ∷ clocks) =
    let rest = between low high (suc tile) clocks in
    if not (ltb clock low) && ltb clock high then tile ∷ rest else rest

pub between_self : (next tile : ℕ) (clocks : List ℕ) → between next next tile clocks ≡ []
unfolding between
between_self next tile [] = refl
between_self next tile (clock ∷ clocks) = ground (arith, between_self next (suc tile) clocks)

pub between_skip :
    (low mid high tile : ℕ) (clocks : List ℕ)
    → low ≤ mid
    → between low mid tile clocks ≡ []
    → between low high tile clocks ≡ between mid high tile clocks
unfolding between
between_skip low mid high tile [] h e = refl
between_skip low mid high tile (clock ∷ clocks) h e =
    ground (arith, between_skip low mid high (suc tile) clocks)

pub between-ne :
    (low high tile i clock : ℕ) (clocks : List ℕ)
    → get_elem? clocks i ≡ some clock
    → low ≤ clock
    → clock < high
    → between low high tile clocks ≢ []
unfolding between
between-ne low high tile i clock [] at_i h k e = cc
between-ne low high tile zero clock (x ∷ clocks) at_i h k e = ground arith
between-ne low high tile (suc i) clock (x ∷ clocks) at_i h k e =
    ground (arith, between-ne low high (suc tile) i clock clocks at_i h k)

-- One pass.
pub release_from_lem :
    (threads : ThreadManager) (next next' tile : ℕ) (clocks : List ℕ) (acquires : List Bool)
    → ((i : ℕ) → i < tile + length clocks → running_or_initializing threads i ≡ ok true)
    → next ≤ next'
    → Match next clocks acquires
    → (acquires' : List Bool) × (release_from threads next' tile clocks acquires
        ≡ ok (acquires', between next next' tile clocks))
      × Match next' clocks acquires'
unfolding release_from between
release_from_lem threads next next' tile [] [] t h m = ([], refl, tt)
release_from_lem threads next next' tile [] (a ∷ as') t h m = absurd m
release_from_lem threads next next' tile (clock ∷ clocks) [] t h m = absurd m
release_from_lem threads next next' tile (clock ∷ clocks) (acquire ∷ acquires) t h m =
    let (rest, run, m') =
      release_from_lem threads next next' (suc tile) clocks acquires (λ i k. t i (omega arith)) h
        m.1 in
    let here = t tile (omega arith) in
    elim (Bool-cases (ltb clock next')) [
      | inl released ↦
          (false ∷ rest, ground (arith, released, run, here, m.0), (rw released refl, m'))
      | inr waits ↦
          (acquire ∷ rest, ground (arith, waits, run, m.0), (ground (arith, waits, m.0), m'))
    ]
