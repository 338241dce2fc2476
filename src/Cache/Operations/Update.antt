-- ===== src/Cache/Operations/Update.antt =====
-- A new state for a line that is in a cache.
use graphite_atac.Prelude.{
  ℕ, ◌≡◌, refl, ◌∙◌, if◌then◌else◌, ◌&&◌, some, get_elem?, set, length-set, lt_of_get_elem?, ok,
  arith, All-set,
}
use graphite_atac.Cache.Line.{CacheLineInfo}
use graphite_atac.Cache.Replacement.{CacheReplacementPolicy}
use graphite_atac.Cache.Set.{CacheSet, find}
use graphite_atac.Cache.Set.Laws.{PolicyLaws}
use graphite_atac.Cache.Counters.{inc}
use graphite_atac.Cache.Misses.{track_invalidation}
use graphite_atac.Cache.Operations.{
  Cache, get_tag, get_set, line_info, set_cache_line_info, is_invalid,
}
use graphite_atac.Cache.Operations.Totals.{
  count_in-set, total_in, total_in-set, update_cache_line_state_counters-Counts,
}
use graphite_atac.Cache.Operations.Sets.{Coherent, IsConsistent, set-AreSets}

module _ (policy : CacheReplacementPolicy) (laws : PolicyLaws policy) (hash_fn : ℕ → ℕ)
    (c : Cache policy.State) (address : ℕ) (updated : CacheLineInfo) where
  -- The set of the address with the new line at way `i`.
  abbrev pub with_line : CacheSet → ℕ → CacheSet
  with_line s i = record s { cache_line_info_array = set s.cache_line_info_array i updated }

  set_found :
      (s : CacheSet)
      → get_elem? c.sets (hash_fn address) ≡ some s
      → get_set policy hash_fn c address ≡ ok s
  unfolding get_set
  set_found s at_set = ground (arith, at_set)

  info_found :
      (s : CacheSet) (i : ℕ) (old : CacheLineInfo)
      → find s (get_tag policy hash_fn c address) ≡ ok (some i)
      → get_elem? s.cache_line_info_array i ≡ some old
      → line_info policy hash_fn s (get_tag policy hash_fn c address) ≡ ok (some (i, old))
  unfolding line_info
  info_found s i old found at_i = ground (arith, found, at_i)

  -- In a consistent cache, giving a coherent line in place of the line with the tag of the address,
  -- where its set has one, succeeds; that line alone changes, and the cache stays consistent, with
  -- each counter of a valid state equal to the number of lines in it.
  pub set_cache_line_info_lem :
      (s : CacheSet) (i : ℕ) (old : CacheLineInfo)
      → IsConsistent policy laws c
      → get_elem? c.sets (hash_fn address) ≡ some s
      → find s (get_tag policy hash_fn c address) ≡ ok (some i)
      → get_elem? s.cache_line_info_array i ≡ some old
      → Coherent updated
      → (c' : Cache policy.State) × (set_cache_line_info policy hash_fn c address updated ≡ ok c')
        × (c'.sets ≡ set c.sets (hash_fn address) (with_line s i))
        × IsConsistent policy laws c'
  unfolding set_cache_line_info
  set_cache_line_info_lem s i old k at_set found at_i coherent =
      let n = hash_fn address in
      let was = k.sets n s at_set in
      let s' : CacheSet = with_line s i in
      let (counters, update, counts) =
        update_cache_line_state_counters-Counts c.cache_line_state_counters old.cstate
          updated.cstate (λ st. total_in st c.sets) (λ st. total_in st (set c.sets n s')) k.counted
          (λ st ne. omega (
            arith,
            total_in-set st c.sets n s s' at_set,
            count_in-set st s.cache_line_info_array i old updated at_i,
          )) in
      let after =
        set-AreSets policy laws c.replacement_policy c.replacement_policy c.line_size n c.sets s'
          (lt_of_get_elem? c.sets n at_set) k.sets
          (record {
            valid = record {
              ways = length-set s.cache_line_info_array i updated ∙ was.valid.ways;
              size = was.valid.size;
              small = was.valid.small;
            };
            number = was.number;
            good = was.good;
            line_size = was.line_size;
            coherent = All-set Coherent s.cache_line_info_array i updated was.coherent coherent;
          })
          (λ ways other ne g. g) in
      (
        record c {
          cache_line_state_counters = counters;
          tracking =
              if is_invalid updated.cstate && c.track_miss_types
              then track_invalidation c.tracking address
              else c.tracking;
          sets = set c.sets n s';
          tag_array_writes = if c.enabled then inc c.tag_array_writes else c.tag_array_writes;
        },
        rw (set_found s at_set, info_found s i old found at_i, update) refl,
        refl,
        record { sets = after; counted = counts },
      )
