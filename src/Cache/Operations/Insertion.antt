-- ===== src/Cache/Operations/Insertion.antt =====
-- An insertion into a cache keeps its sets, its policy and its counters of states in step.
use mathlib.Core.Path.{subst}
use graphite_atac.Prelude.{
  ℕ, ◌+◌, ◌-◌, ◌<◌, ◌≤◌, ◌≡◌, ◌≢◌, refl, sym, ap, ◌∙◌, ◌==◌, if◌then◌else◌, Bool, true, false, not,
  List, some, get_elem?, set, length, get_elem?-lt, lt_of_get_elem?, ok, arith, All, All-set,
  All-get_elem?,
}
use graphite_atac.Cache.Line.{invalid, CacheLineInfo, is_valid}
use graphite_atac.Cache.Replacement.{CacheReplacementPolicy}
use graphite_atac.Cache.Set.{CacheSet, Evicted, insert}
use graphite_atac.Cache.Set.Contents.{PolicyLaws, Insertion, insert_lem, told}
use graphite_atac.Cache.Misses.{track_insertion}
use graphite_atac.Cache.Counters.{state_index, update_cache_line_state_counters}
use graphite_atac.Cache.Operations.{
  Cache, get_address_from_tag, get_set, insert_cache_line, note_eviction, count_insertion,
}
use graphite_atac.Cache.Operations.Totals.{
  one_if, count_in, count_in-set, total_in, total_in-set, Counts,
  update_cache_line_state_counters-Counts,
}
use graphite_atac.Cache.Operations.Sets.{
  Coherent, AreSets, IsConsistent, set-AreSets, IsConsistent-of, one_if-le, count_in-le, zero_if,
}
use graphite_atac.Cache.Operations.Steps.{
  evicted_address-ne, Keeps-ok, counted-Keeps, Notes-ok, note_eviction-Notes,
}

module _ (policy : CacheReplacementPolicy) (laws : PolicyLaws policy) where
  module _ (hash_fn : ℕ → ℕ) (c : Cache policy.State) (address : ℕ) (info : CacheLineInfo)
      (buf : List ℕ) (out : Evicted) where
    -- The cache after the insertion: set `s` of the address is changed as `Insertion` says.
    pub record Inserted : Type 0 where
      pub c' : Cache policy.State
      pub s : CacheSet
      pub in_set : Insertion policy laws c.replacement_policy s info buf out
      pub at_set : get_elem? c.sets (hash_fn address) ≡ some s
      pub sets' : c'.sets ≡ set c.sets (hash_fn address) in_set.s'
      pub consistent : IsConsistent policy laws c'
      pub runs :
          let o = told (is_valid in_set.old) in_set.old in_set.line out in
          insert_cache_line policy hash_fn c address info (some buf) out
          ≡ ok (c', o, get_address_from_tag c.log_line_size o.info.tag)

    module _ (s : CacheSet) (k : IsConsistent policy laws c)
        (at_set : get_elem? c.sets (hash_fn address) ≡ some s)
        (i : Insertion policy laws c.replacement_policy s info buf out) (coherent : Coherent info)
        (log : 0 < c.log_line_size) (no_line : state_index out.info.cstate ≡ 0) where
      changed :
          (st : ℕ)
          → total_in st (set c.sets (hash_fn address) i.s') + one_if st i.old.cstate
            ≡ total_in st c.sets + one_if st info.cstate
      changed st = omega (
        arith,
        total_in-set st c.sets (hash_fn address) s i.s' at_set,
        count_in-set st s.cache_line_info_array i.index i.old info i.old_info,
        ap (count_in st) i.infos,
      )

      sets_after : AreSets policy laws i.p' c.line_size (set c.sets (hash_fn address) i.s')
      sets_after =
          let was = k.sets (hash_fn address) s at_set in
          set-AreSets policy laws c.replacement_policy i.p' c.line_size (hash_fn address) c.sets
            i.s' (lt_of_get_elem? c.sets (hash_fn address) at_set) k.sets
            (record {
              valid = i.valid;
              number = i.same_set.0 ∙ was.number;
              good =
                  subst (λ n. laws.IsGood i.p' i.s'.associativity n) (i.same_set.0 ∙ was.number)
                    i.good;
              line_size = i.same_set.2 ∙ was.line_size;
              coherent =
                  subst (All Coherent) (sym i.infos)
                    (All-set Coherent s.cache_line_info_array i.index info was.coherent coherent);
            })
            (λ ways other ne. i.frame ways other (λ e. ne (sym was.number ∙ e)))

      old-Coherent : Coherent i.old
      old-Coherent =
          All-get_elem? Coherent s.cache_line_info_array i.index
            (k.sets (hash_fn address) s at_set).coherent i.old_info

      c1 : Cache policy.State
      c1 = record c { replacement_policy = i.p'; sets = set c.sets (hash_fn address) i.s' }

      o_of : Bool → Evicted
      o_of v = told v i.old i.line out

      -- The cache when the inserted line is counted, from the one where the eviction is.
      with_line : Cache policy.State → List ℕ → Cache policy.State
      with_line c2 counters = record c2 {
        tracking = if c2.track_miss_types then track_insertion c2.tracking address else c2.tracking;
        cache_line_state_counters = counters;
      }

      told_coherent :
          (v : Bool)
          → is_valid i.old ≡ v
          → (o_of v).eviction ≡ not (state_index (o_of v).info.cstate == 0)
      unfolding o_of
      told_coherent true e = sym e ∙ old-Coherent
      told_coherent false e = ground (arith, no_line)

      some_line : (st : ℕ) → one_if st i.old.cstate ≤ total_in st c.sets
      some_line st = omega (
        arith,
        one_if-le st s.cache_line_info_array i.index i.old_info,
        count_in-le st c.sets (hash_fn address) at_set,
      )

      -- The step of the eviction, by whether there is one.
      Step : Bool → Type 0
      Step v =
          (c2 : Cache policy.State) × (mid : ℕ → ℕ) × ((if (o_of v).eviction
              then note_eviction policy hash_fn c1 (o_of v).info
                  (get_address_from_tag c.log_line_size (o_of v).info.tag)
              else ok c1)
            ≡ ok c2)
          × Counts c2.cache_line_state_counters mid
          × ((st : ℕ) → st ≢ 0 → mid st + one_if st i.old.cstate ≡ total_in st c.sets)
          × (c2.replacement_policy ≡ i.p')
          × (c2.line_size ≡ c.line_size)
          × (c2.sets ≡ set c.sets (hash_fn address) i.s')

      step : (v : Bool) → is_valid i.old ≡ v → Step v
      unfolding Step o_of c1
      step true e =
          let mid : ℕ → ℕ = λ st. total_in st c.sets - one_if st i.old.cstate in
          let (counters, update, counts) =
            update_cache_line_state_counters-Counts c.cache_line_state_counters i.old.cstate invalid
              (λ st. total_in st c.sets) mid k.counted
              (λ st ne. omega (arith, some_line st, zero_if st ne)) in
          let (c2, run, same) =
            Notes-ok policy hash_fn c1 counters
              (note_eviction policy hash_fn c1 i.old
                (get_address_from_tag c.log_line_size i.old.tag))
              (note_eviction-Notes policy hash_fn c1 i.old
                (get_address_from_tag c.log_line_size i.old.tag) counters
                (evicted_address-ne i.old.tag c.log_line_size log) update) in
          (
            c2,
            mid,
            run,
            subst (λ x. Counts x mid) (sym same.3) counts,
            (λ st ne. omega (arith, some_line st)),
            same.0,
            same.1,
            same.2,
          )
      step false e = (
        c1,
        (λ st. total_in st c.sets),
        refl,
        k.counted,
        (λ st ne. ground (arith, old-Coherent, e)),
        refl,
        refl,
        refl,
      )

      set_found : get_set policy hash_fn c address ≡ ok s
      unfolding get_set
      set_found = ground (arith, at_set)

      chained :
          (v : Bool)
          → is_valid i.old ≡ v
          → (c2 c4 : Cache policy.State) (counters : List ℕ)
          → (if (o_of v).eviction
              then note_eviction policy hash_fn c1
                  (o_of v).info
                  (get_address_from_tag c.log_line_size (o_of v).info.tag)
              else ok c1)
            ≡ ok c2
          → update_cache_line_state_counters invalid info.cstate c2.cache_line_state_counters
            ≡ ok counters
          → (if (with_line c2 counters).enabled
              then count_insertion policy hash_fn (with_line c2 counters) (o_of v)
              else ok (with_line c2 counters))
            ≡ ok c4
          → insert_cache_line policy hash_fn c address info (some buf) out
            ≡ ok (c4, o_of v, get_address_from_tag c.log_line_size (o_of v).info.tag)
      unfolding insert_cache_line o_of c1 with_line
      chained v e c2 c4 counters run2 update run4 =
          let inserted : insert policy c.replacement_policy s info (some buf) out
              ≡ ok (i.p', i.s', told v i.old i.line out) =
            subst
              (λ b.
                insert policy c.replacement_policy s info (some buf) out
                ≡ ok (i.p', i.s', told b i.old i.line out))
              e i.runs in
          rw (set_found, inserted) (rw run2 (rw update (rw run4 refl)))

      runs_after : (v : Bool) → is_valid i.old ≡ v → Inserted
      unfolding with_line Step c1 o_of
      runs_after v e =
          let (c2, mid, run2, counts2, mids, p2, size2, sets2) = step v e in
          let (counters, update, counts) =
            update_cache_line_state_counters-Counts c2.cache_line_state_counters invalid info.cstate
              mid (λ st. total_in st (set c.sets (hash_fn address) i.s')) counts2
              (λ st ne. omega (arith, changed st, mids st ne, zero_if st ne)) in
          let c3 = with_line c2 counters in
          let (c4, run4, same4) =
            Keeps-ok policy hash_fn c3
              (if c3.enabled then count_insertion policy hash_fn c3 (o_of v) else ok c3)
              (counted-Keeps policy hash_fn c3 (o_of v) (told_coherent v e)) in
          record {
            c' = c4;
            s = s;
            in_set = i;
            at_set = at_set;
            sets' = same4.2 ∙ sets2;
            consistent =
                IsConsistent-of policy laws c4 i.p' c.line_size (set c.sets (hash_fn address) i.s')
                  counters (same4.0 ∙ p2) (same4.1 ∙ size2) (same4.2 ∙ sets2) same4.3 sets_after
                  counts;
            runs =
                subst
                  (λ b.
                    insert_cache_line policy hash_fn c address info (some buf) out
                    ≡ ok (
                      c4,
                      told b i.old i.line out,
                      get_address_from_tag c.log_line_size (told b i.old i.line out).info.tag,
                    ))
                  (sym e) (chained v e c2 c4 counters run2 update run4);
          }

  -- In a consistent cache with lines of two bytes or more, inserting a coherent line at an address
  -- that hashes to a set, from a buffer of at least a line and with an invalid line of the caller
  -- to fill in, succeeds: the set of the address changes as an insertion into it does, no other set
  -- changes, and the cache stays consistent, with each counter of a valid state equal to the number
  -- of lines in it.
  pub insert_cache_line_lem :
      (hash_fn : ℕ → ℕ) (c : Cache policy.State) (address : ℕ) (info : CacheLineInfo) (buf : List ℕ)
      (out : Evicted)
      → IsConsistent policy laws c
      → hash_fn address < length c.sets
      → c.line_size ≤ length buf
      → 0 < c.log_line_size
      → Coherent info
      → state_index out.info.cstate ≡ 0
      → Inserted hash_fn c address info buf out
  insert_cache_line_lem hash_fn c address info buf out k below room log coherent no_line =
      let (s, at_set) = get_elem?-lt c.sets (hash_fn address) below in
      let was = k.sets (hash_fn address) s at_set in
      let i =
        insert_lem policy laws c.replacement_policy s info buf out was.valid
          (subst (λ n. laws.IsGood c.replacement_policy s.associativity n) (sym was.number)
            was.good)
          (omega (arith, was.line_size, room)) in
      runs_after hash_fn c address info buf out s k at_set i coherent log no_line (is_valid i.old)
        refl
