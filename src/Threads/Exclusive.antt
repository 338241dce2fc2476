-- ===== src/Threads/Exclusive.antt =====
-- At most one thread of a core runs, and what the thread manager then answers.
use graphite_atac.Prelude.{
  ℕ, zero, suc, ◌+◌, ◌≤◌, ◌≡◌, refl, if◌then◌else◌, false, List, [], ◌∷◌, Option, none, some,
  get_elem?, set, ok, arith, All, All-get_elem?,
}
use graphite_atac.Threads.{
  CoreState, running, ThreadManager, is_running, running_from, is_core_running,
  is_core_initializing, any_initializing,
}

unfoldable pub count_running : List CoreState → ℕ
count_running [] = 0
count_running (state ∷ states) = (if is_running state then 1 else 0) + count_running states

abbrev pub AtMostOne : List CoreState → Type 0
AtMostOne states = count_running states ≤ 1

-- Every core has at most one running thread.
abbrev pub IsExclusive : ThreadManager → Type 0
IsExclusive m = All AtMostOne m.thread_state

pub running_from-none :
    (states : List CoreState) (j : ℕ) (found : Option ℕ)
    → count_running states ≡ 0
    → running_from j found states ≡ ok found
unfolding count_running running_from is_running
running_from-none [] j found h = refl
running_from-none (running ∷ states) j found h = absurd (omega arith)
running_from-none (state ∷ states) j found h = running_from-none states (suc j) found (omega arith)

-- What the loop finds: the one running thread, if there is one.
abbrev pub Found : ℕ → List CoreState → Option ℕ → Type 0
Found first states none = count_running states ≡ 0
Found first states (some i) = (k : ℕ) × (i ≡ first + k) × (get_elem? states k ≡ some running)

pub Found-cons :
    (state : CoreState) (states : List CoreState) (j : ℕ) (r : Option ℕ)
    → is_running state ≡ false
    → Found (suc j) states r
    → Found j (state ∷ states) r
unfolding count_running
Found-cons state states j none off h = ground arith
Found-cons state states j (some i) off h = (suc h.0, omega (arith, h.1), h.2)

pub running_from_lem :
    (states : List CoreState) (j : ℕ)
    → AtMostOne states
    → (r : Option ℕ) × (running_from j none states ≡ ok r) × Found j states r
unfolding count_running running_from is_running
running_from_lem [] j h = (none, refl, refl)
running_from_lem (running ∷ states) j h =
    (some j, running_from-none states (suc j) (some j) (omega arith), (0, omega arith, refl))
running_from_lem (state ∷ states) j h =
    let (r, run, found) = running_from_lem states (suc j) (omega arith) in
    (r, run, Found-cons state states j r refl found)

-- The answer about a core: the index of its running thread, or that it has none.
pub is_core_running-Found :
    (m : ThreadManager) (tile : ℕ) (states : List CoreState)
    → IsExclusive m
    → get_elem? m.thread_state tile ≡ some states
    → (r : Option ℕ) × (is_core_running m tile ≡ ok r) × Found 0 states r
unfolding is_core_running
is_core_running-Found m tile states e at_tile =
    let (r, run, found) =
      running_from_lem states 0 (All-get_elem? AtMostOne m.thread_state tile e at_tile) in
    (r, ground (arith, at_tile, run), found)

pub is_core_initializing-IsJust :
    (m : ThreadManager) (tile : ℕ) (states : List CoreState)
    → get_elem? m.thread_state tile ≡ some states
    → is_core_initializing m tile ≡ ok (any_initializing states)
unfolding is_core_initializing
is_core_initializing-IsJust m tile states at_tile = ground (arith, at_tile)

pub count_running-set :
    (states : List CoreState) (j : ℕ) (old new : CoreState)
    → get_elem? states j ≡ some old
    → count_running (set states j new) + (if is_running old then 1 else 0)
      ≡ count_running states + (if is_running new then 1 else 0)
unfolding count_running
count_running-set [] j old new h = cc
count_running-set (state ∷ states) zero old new h = ground arith
count_running-set (state ∷ states) (suc j) old new h =
    omega (arith, count_running-set states j old new h)
