-- ===== src/Sync/Barrier/Release.antt =====
-- When a barrier releases its threads.
use mathlib.Core.List.{append_assoc}
use mathlib.Core.Path.{subst}
use graphite_atac.Prelude.{
  ℕ, ◌+◌, ◌<◌, ◌≡◌, refl, sym, ◌⊎◌, inr, List, [], ◌∷◌, ◌++◌, map, arith, length, length-append,
  max, Result, ok, ◌>>=◌,
}
use graphite_atac.Sync.Effects.{CoreId, Effect, stall_thread, resume_thread}
use graphite_atac.Sync.Barrier.{SimBarrier, new_barrier, latest, wait}

-- Fewer threads wait than the barrier is for, or the barrier is for none and nobody waits.
abbrev pub IsOpen : SimBarrier → Type 0
IsOpen b = (length b.waiting < b.count) ⊎ (b.waiting ≡ [])

pub new_barrier-IsOpen : (n : ℕ) → IsOpen (new_barrier n)
unfolding new_barrier
new_barrier-IsOpen n = inr refl

-- Every successful wait leaves the barrier open.
pub wait-IsOpen :
    (b b' : SimBarrier) (c : CoreId) (t : ℕ) (effects : List Effect) (woken : List CoreId)
    → wait b c t ≡ ok (b', effects, woken)
    → IsOpen b'
unfolding wait
wait-IsOpen b b' c t effects woken e = ground arith

-- Arrivals one after another: the barrier afterwards, and the threads woken, arrival by arrival.
pub arrivals : SimBarrier → List (CoreId × ℕ) → Result (SimBarrier × List (List CoreId))
arrivals b [] = ok (b, [])
arrivals b ((c, t) ∷ rest) = do
  (b', effects, woken) ← wait b c t
  (b'', later) ← arrivals b' rest
  ok (b'', woken ∷ later)

abbrev pub cores : List (CoreId × ℕ) → List CoreId
cores = map (λ a. a.0)

abbrev pub max_of : ℕ → List (CoreId × ℕ) → ℕ
max_of m [] = m
max_of m ((c, t) ∷ rest) = max_of (max m t) rest

abbrev pub nobody : List (CoreId × ℕ) → List (List CoreId)
nobody [] = []
nobody (a ∷ rest) = [] ∷ nobody rest

-- An arrival that is not the last, and the last one.
wait_early :
    (b : SimBarrier) (c : CoreId) (t : ℕ)
    → length b.waiting + 1 < b.count
    → wait b c t
      ≡ ok (
        record b {
          waiting = b.waiting ++ c ∷ [];
          max_time = latest (length (b.waiting ++ c ∷ [])) t b.max_time;
        },
        stall_thread c ∷ [],
        [],
      )
unfolding wait
wait_early b c t h = ground (arith, length-append b.waiting (c ∷ []))

wait_last :
    (b : SimBarrier) (c : CoreId) (t : ℕ)
    → length b.waiting + 1 ≡ b.count
    → wait b c t
      ≡ ok (
        record b { waiting = []; max_time = latest (length (b.waiting ++ c ∷ [])) t b.max_time },
        stall_thread c ∷ map resume_thread (b.waiting ++ c ∷ []),
        b.waiting ++ c ∷ [],
      )
unfolding wait
wait_last b c t h = ground (arith, length-append b.waiting (c ∷ []))

latest_next : (n t old : ℕ) → 1 < n → latest n t old ≡ max old t
unfolding latest
latest_next n t old h = ground arith

latest_first : (t old : ℕ) → latest 1 t old ≡ max 0 t
unfolding latest
latest_first t old = omega arith

-- What a run of arrivals that fills the barrier does.
abbrev pub Filled : SimBarrier → List CoreId → ℕ → List (CoreId × ℕ) → CoreId → ℕ → Type 0
Filled b ws old early c t =
    arrivals b (early ++ (c, t) ∷ [])
    ≡ ok (
      record b { waiting = []; max_time = max_of old (early ++ (c, t) ∷ []) },
      nobody early ++ (ws ++ (cores early ++ c ∷ [])) ∷ [],
    )

fill_next :
    (early : List (CoreId × ℕ)) (ws : List CoreId) (n m : ℕ) (c : CoreId) (t : ℕ)
    → 0 < length ws
    → length ws + length early + 1 ≡ n
    → Filled (record { waiting = ws; count = n; max_time = m }) ws m early c t
unfolding arrivals
fill_next [] ws n m c t p h = rw (
  wait_last (record { waiting = ws; count = n; max_time = m }) c t (omega arith),
  latest_next (length (ws ++ c ∷ [])) t m (omega (arith, length-append ws (c ∷ []))),
)
fill_next ((d, u) ∷ early) ws n m c t p h =
    let size = length-append ws (d ∷ []) in
    let rest = fill_next early (ws ++ d ∷ []) n (max m u) c t (omega arith) (omega arith) in
    rw (
      wait_early (record { waiting = ws; count = n; max_time = m }) d u (omega arith),
      latest_next (length (ws ++ d ∷ [])) u m (omega arith),
      rest,
      append_assoc ws (d ∷ []) (cores early ++ c ∷ []),
    )

fill_first :
    (early : List (CoreId × ℕ)) (n m : ℕ) (c : CoreId) (t : ℕ)
    → length early + 1 ≡ n
    → Filled (record { waiting = []; count = n; max_time = m }) [] 0 early c t
unfolding arrivals
fill_first [] n m c t h = rw (
  wait_last (record { waiting = []; count = n; max_time = m }) c t (omega arith),
  latest_first t m,
)
fill_first ((d, u) ∷ early) n m c t h =
    let rest = fill_next early (d ∷ []) n (max 0 u) c t (omega arith) (omega arith) in
    rw (
      wait_early (record { waiting = []; count = n; max_time = m }) d u (omega arith),
      latest_first u m,
      rest,
    )

-- At an empty barrier for `n` threads, `n` arrivals succeed: the first `n - 1` wake nobody, the last
-- one wakes all `n` in the order of arrival, and leaves the barrier empty for the next round with
-- the latest of the `n` times, whatever time the round before left.
pub arrivals-release :
    (b : SimBarrier) (early : List (CoreId × ℕ)) (c : CoreId) (t : ℕ)
    → b.waiting ≡ []
    → length early + 1 ≡ b.count
    → arrivals b (early ++ (c, t) ∷ [])
      ≡ ok (
        record b { waiting = []; max_time = max_of 0 (early ++ (c, t) ∷ []) },
        nobody early ++ (cores early ++ c ∷ []) ∷ [],
      )
arrivals-release b early c t e h =
    subst (λ ws. Filled (record b { waiting = ws }) [] 0 early c t) (sym e)
      (fill_first early b.count b.max_time c t h)
