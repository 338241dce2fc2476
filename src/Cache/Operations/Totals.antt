-- ===== src/Cache/Operations/Totals.antt =====
-- The lines of a cache in each state, and the counters of them.
use graphite_atac.Prelude.{
  ℕ, zero, suc, ◌+◌, ◌%◌, ◌^◌, ◌<◌, ◌≡◌, ◌≢◌, refl, ◌∙◌, ◌==◌, if◌then◌else◌, Bool, true, false,
  List, [], ◌∷◌, some, get_elem?, get_elem?-set, set, length, length-set, get_elem?-lt, ok, arith,
  lt_of_get_elem?,
}
use graphite_atac.Cache.Line.{CacheState, CacheLineInfo}
use graphite_atac.Cache.Set.{CacheSet}
use graphite_atac.Cache.Counters.{inc, dec, state_index, update_cache_line_state_counters}

-- 1 if the state is the one with index `st`.
abbrev pub one_if : ℕ → CacheState → ℕ
one_if st cstate = if state_index cstate == st then 1 else 0

unfoldable pub count_in : ℕ → List CacheLineInfo → ℕ
count_in st [] = 0
count_in st (info ∷ infos) = one_if st info.cstate + count_in st infos

-- The lines of all sets with that state.
unfoldable pub total_in : ℕ → List CacheSet → ℕ
total_in st [] = 0
total_in st (s ∷ sets) = count_in st s.cache_line_info_array + total_in st sets

pub count_in-set :
    (st : ℕ) (infos : List CacheLineInfo) (i : ℕ) (old info : CacheLineInfo)
    → get_elem? infos i ≡ some old
    → count_in st (set infos i info) + one_if st old.cstate
      ≡ count_in st infos + one_if st info.cstate
unfolding count_in
count_in-set st [] i old info h = cc
count_in-set st (x ∷ infos) zero old info h = ground arith
count_in-set st (x ∷ infos) (suc i) old info h = omega (arith, count_in-set st infos i old info h)

pub total_in-set :
    (st : ℕ) (sets : List CacheSet) (n : ℕ) (s s' : CacheSet)
    → get_elem? sets n ≡ some s
    → total_in st (set sets n s') + count_in st s.cache_line_info_array
      ≡ total_in st sets + count_in st s'.cache_line_info_array
unfolding total_in
total_in-set st [] n s s' h = cc
total_in-set st (x ∷ sets) zero s s' h = ground arith
total_in-set st (x ∷ sets) (suc n) s s' h = omega (arith, total_in-set st sets n s s' h)

-- The counter of each state but the invalid one is the number of lines in it, modulo its width.
pub record Counts (counters : List ℕ) (lines : ℕ → ℕ) : Type 0 where
  pub size : length counters ≡ 8
  pub at_state : (st n : ℕ) → st ≢ 0 → get_elem? counters st ≡ some n → n ≡ lines st % 2 ^ 64

state_index-lt : (cstate : CacheState) → state_index cstate < 8
unfolding state_index
state_index-lt cstate = ground arith

-- What the counter of one state becomes: `n` before, `a` and `b` the counters that are changed.
moved_at :
    (a b n n' lines lines' : ℕ) (is_old is_new : Bool)
    → lines' + (if is_old then 1 else 0) ≡ lines + (if is_new then 1 else 0)
    → n ≡ lines % 2 ^ 64
    → (is_old ≡ true → a ≡ n)
    → (is_new ≡ true → b ≡ (if is_old then dec a else n))
    → n' ≡ (if is_new then inc b else if is_old then dec a else n)
    → n' ≡ lines' % 2 ^ 64
unfolding inc dec
moved_at a b n n' lines lines' true true change e1 e2 e3 e4 = omega (arith, e2 refl, e3 refl)
moved_at a b n n' lines lines' true false change e1 e2 e3 e4 = omega (arith, e2 refl)
moved_at a b n n' lines lines' false true change e1 e2 e3 e4 = omega (arith, e3 refl)
moved_at a b n n' lines lines' false false change e1 e2 e3 e4 = omega arith

-- A line goes from one state to the other.
pub update_cache_line_state_counters-Counts :
    (counters : List ℕ) (old new : CacheState) (lines lines' : ℕ → ℕ)
    → Counts counters lines
    → ((st : ℕ) → st ≢ 0 → lines' st + one_if st old ≡ lines st + one_if st new)
    → (counters' : List ℕ) × (update_cache_line_state_counters old new counters ≡ ok counters')
      × Counts counters' lines'
unfolding update_cache_line_state_counters inc dec
update_cache_line_state_counters-Counts counters old new lines lines' c change =
    let ia = state_index old in
    let ib = state_index new in
    let (a, at_a) = get_elem?-lt counters ia (omega (arith, state_index-lt old, c.size)) in
    let counters1 : List ℕ = set counters ia (dec a) in
    let len1 : length counters1 ≡ 8 = length-set counters ia (dec a) ∙ c.size in
    let (b, at_b) = get_elem?-lt counters1 ib (omega (arith, state_index-lt new, len1)) in
    (
      set counters1 ib (inc b),
      ground (arith, at_a, at_b),
      record {
        size = length-set counters1 ib (inc b) ∙ len1;
        at_state = λ st n' ne h.
            let k : st < 8 = omega (
              arith,
              lt_of_get_elem? (set counters1 ib (inc b)) st h,
              length-set counters1 ib (inc b),
              len1,
            ) in
            let (n, at_n) = get_elem?-lt counters st (omega (arith, c.size)) in
            moved_at a b n n' (lines st) (lines' st) (ia == st) (ib == st) (change st ne)
              (c.at_state st n ne at_n) (ground (arith, at_a, at_n))
              (ground (
                arith,
                at_b,
                at_n,
                get_elem?-set counters ia st (dec a) (omega (arith, state_index-lt old, c.size)),
              ))
              (ground (
                arith,
                h,
                at_n,
                get_elem?-set counters1 ib st (inc b) (omega (arith, state_index-lt new, len1)),
                get_elem?-set counters ia st (dec a) (omega (arith, state_index-lt old, c.size)),
              ));
      },
    )
