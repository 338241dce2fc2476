-- ===== src/Threads/Running.antt =====
-- At most one thread of a core runs.
use mathlib.Core.Path.{subst}
use graphite_atac.Prelude.{
  length, length-set, ℕ, zero, suc, ◌+◌, ◌≡◌, ◌∙◌, ap, false, List, [], ◌∷◌, Option, none, some,
  get_elem?, get_elem?-set_self, set, ok, arith, All-set, All-get_elem?, lt_of_get_elem?,
}
use graphite_atac.Threads.{
  CoreState, running, stalled, ThreadManager, is_running, running_from, is_core_running,
  stall_thread, stall_running_thread, resume_thread, resume_last_stalled_thread,
}
pub use graphite_atac.Threads.Exclusive.{
  AtMostOne, IsExclusive, Found, is_core_running-Found, is_core_initializing-IsJust,
}
unfoldable pub use graphite_atac.Threads.Exclusive.{count_running}
use graphite_atac.Threads.Exclusive.{running_from-none, count_running-set}

-- A stall keeps the cores exclusive and stops their running thread; so does a resumption of a
-- thread that does not run on a core where none does.
pub stall_thread-IsExclusive :
    (m : ThreadManager) (tile j : ℕ) (states : List CoreState) (state : CoreState) (last : Option ℕ)
    → IsExclusive m
    → get_elem? m.thread_state tile ≡ some states
    → get_elem? states j ≡ some state
    → get_elem? m.last_stalled_thread tile ≡ some last
    → (m' : ThreadManager) × (stall_thread m tile j ≡ ok m')
      × IsExclusive m'
      × (get_elem? m'.last_stalled_thread tile ≡ some (some j))
      × (get_elem? m'.thread_state tile ≡ some (set states j stalled))
      × (length m'.thread_state ≡ length m.thread_state)
unfolding stall_thread is_running
stall_thread-IsExclusive m tile j states state last e at_tile at_j at_last = (
  record {
    thread_state = set m.thread_state tile (set states j stalled);
    last_stalled_thread = set m.last_stalled_thread tile (some j);
  },
  ground (arith, at_tile, at_j, at_last),
  All-set AtMostOne m.thread_state tile (set states j stalled) e (
      omega (
        arith,
        count_running-set states j state stalled at_j,
        All-get_elem? AtMostOne m.thread_state tile e at_tile,
      )),
  get_elem?-set_self m.last_stalled_thread tile (some j)
      (lt_of_get_elem? m.last_stalled_thread tile at_last),
  get_elem?-set_self m.thread_state tile (set states j stalled)
      (lt_of_get_elem? m.thread_state tile at_tile),
  length-set m.thread_state tile (set states j stalled),
)

not_running :
    (states : List CoreState) (j : ℕ) (state : CoreState)
    → count_running states ≡ 0
    → get_elem? states j ≡ some state
    → is_running state ≡ false
unfolding count_running
not_running [] j state h at_j = cc
not_running (x ∷ states) zero state h at_j = ground arith
not_running (x ∷ states) (suc j) state h at_j = not_running states j state (omega arith) at_j

running_after :
    (states : List CoreState) (j : ℕ) (state : CoreState)
    → count_running states ≡ 0
    → get_elem? states j ≡ some state
    → count_running (set states j running) ≡ 1
unfolding is_running
running_after states j state h at_j =
    ground (arith, count_running-set states j state running at_j, not_running states j state h at_j)

running_from-set :
    (states : List CoreState) (first j : ℕ) (state : CoreState)
    → count_running states ≡ 0
    → get_elem? states j ≡ some state
    → running_from first none (set states j running) ≡ ok (some (first + j))
unfolding running_from count_running is_running
running_from-set [] first j state h at_j = cc
running_from-set (x ∷ states) first zero state h at_j =
    running_from-none states (suc first) (some first) (omega arith)
    ∙ ap (λ i. ok (some i)) (omega arith)
running_from-set (running ∷ states) first (suc j) state h at_j = absurd (omega arith)
running_from-set (x ∷ states) first (suc j) state h at_j =
    running_from-set states (suc first) j state (omega arith) at_j
    ∙ ap (λ i. ok (some i)) (omega arith)

pub resume_thread-IsExclusive :
    (m : ThreadManager) (tile j : ℕ) (states : List CoreState) (state : CoreState)
    → IsExclusive m
    → get_elem? m.thread_state tile ≡ some states
    → get_elem? states j ≡ some state
    → count_running states ≡ 0
    → (m' : ThreadManager) × (resume_thread m tile j ≡ ok m')
      × IsExclusive m'
      × (is_core_running m' tile ≡ ok (some j))
unfolding resume_thread is_core_running
resume_thread-IsExclusive m tile j states state e at_tile at_j free =
    let off = not_running states j state free at_j in
    let m' : ThreadManager = record m {
      thread_state = set m.thread_state tile (set states j running);
    } in
    let one : AtMostOne (set states j running) =
      omega (arith, running_after states j state free at_j) in
    (
      m',
      ground (arith, at_tile, at_j, off),
      All-set AtMostOne m.thread_state tile (set states j running) e one,
      ground (
        arith,
        get_elem?-set_self m.thread_state tile (set states j running)
            (lt_of_get_elem? m.thread_state tile at_tile),
        running_from-set states 0 j state free at_j,
      ),
    )

none_after :
    (states : List CoreState) (j : ℕ)
    → get_elem? states j ≡ some running
    → AtMostOne states
    → count_running (set states j stalled) ≡ 0
unfolding is_running
none_after states j at_j one = omega (arith, count_running-set states j running stalled at_j)

no_running :
    (m : ThreadManager) (tile : ℕ) (states : List CoreState)
    → get_elem? m.thread_state tile ≡ some states
    → count_running states ≡ 0
    → is_core_running m tile ≡ ok none
unfolding is_core_running
no_running m tile states at_tile free =
    ground (arith, at_tile, running_from-none states 0 none free)

found_running :
    (m : ThreadManager) (tile j : ℕ) (states : List CoreState) (r : Option ℕ)
    → is_core_running m tile ≡ ok r
    → Found 0 states r
    → is_core_running m tile ≡ ok (some j)
    → get_elem? states j ≡ some running
found_running m tile j states none e h run = cc
found_running m tile j states (some i) e (k, i_eq, at_k) run =
    let same : i ≡ j = ground arith in
    let k_eq : k ≡ j = omega arith in subst (λ x. get_elem? states x ≡ some running) k_eq at_k

-- If at most one thread of each core runs, stalling the running thread of a core leaves it without
-- one, and resuming the last stalled thread makes the same thread the running one.
pub resume_last_stalled_thread-stall_running_thread :
    (m : ThreadManager) (tile j : ℕ) (states : List CoreState) (last : Option ℕ)
    → IsExclusive m
    → get_elem? m.thread_state tile ≡ some states
    → get_elem? m.last_stalled_thread tile ≡ some last
    → is_core_running m tile ≡ ok (some j)
    → (m1 m2 : ThreadManager) × (stall_running_thread m tile ≡ ok m1)
      × (is_core_running m1 tile ≡ ok none)
      × (resume_last_stalled_thread m1 tile ≡ ok m2)
      × IsExclusive m2
      × (is_core_running m2 tile ≡ ok (some j))
unfolding stall_running_thread resume_last_stalled_thread
resume_last_stalled_thread-stall_running_thread m tile j states last e at_tile at_last run =
    let (r, asked, found) = is_core_running-Found m tile states e at_tile in
    let at_j = found_running m tile j states r asked found run in
    let (m1, stalls, e1, last1, tile1, _) =
      stall_thread-IsExclusive m tile j states running last e at_tile at_j at_last in
    let free = none_after states j at_j (All-get_elem? AtMostOne m.thread_state tile e at_tile) in
    let (m2, resumes, e2, runs2) =
      resume_thread-IsExclusive m1 tile j (set states j stalled) stalled e1 tile1
        (get_elem?-set_self states j stalled (lt_of_get_elem? states j at_j)) free in
    (
      m1,
      m2,
      ground (arith, run, stalls),
      no_running m1 tile (set states j stalled) tile1 free,
      ground (arith, last1, resumes),
      e2,
      runs2,
    )
