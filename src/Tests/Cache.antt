-- ===== src/Tests/Cache.antt =====
-- The caches (common/tile/memory_subsystem/cache) on small inputs.
use mathlib.Core.Path.{subst}
use mathlib.Core.Option.{some-injective}
use graphite_atac.Prelude.{
  ℕ, zero, suc, ◌%◌, ◌≡◌, ◌≢◌, refl, List, [], ◌∷◌, arith, ok, true, false, none, some, get_elem?,
}
use graphite_atac.Cache.Line.{shared, invalid, CacheLineInfo, invalid_line, is_valid, modified}
use graphite_atac.Cache.Replacement.{
  LruReplacementPolicy, lru, lru_update, ways_from, RoundRobinReplacementPolicy,
}
use graphite_atac.Cache.Replacement.Recency
use graphite_atac.Cache.Replacement.Recency.{Ranks, ways_from-Ranks, move_to_front}
use graphite_atac.Cache.Replacement.Victim
use graphite_atac.Cache.Replacement.Cycle
use graphite_atac.Cache.Replacement.Cycle.{evict_from, down_from}
use graphite_atac.Cache.Set.{CacheSet, Evicted, find, find_below}
use graphite_atac.Cache.Set.Contents
use graphite_atac.Cache.Set.Contents.{IsValid, Insertion}
use graphite_atac.Cache.Set.Access
use graphite_atac.Cache.Set.Access.{Within, Stored}
use graphite_atac.Cache.Set.Policies.{lru_laws, LruIsGood}
use graphite_atac.Cache.Misses.{no_addresses, get_miss_type, capacity_miss}
use graphite_atac.Cache.Misses.History
use graphite_atac.Cache.Misses.History.{Event, Status, Reachable, start, next, after, track}
use graphite_atac.Cache.Counters.{MemOp, initialize_miss_counters, state_index}
use graphite_atac.Cache.Counters.Balance
use graphite_atac.Cache.Operations.{Cache, get_tag, set_cache_line_info}
use graphite_atac.Cache.Operations.Totals.{total_in, count_in}
use graphite_atac.Cache.Operations.Sets.{IsConsistent, IsCacheSet}
use graphite_atac.Cache.Operations.Update
use graphite_atac.Cache.Operations.Insertion
use graphite_atac.Cache.Operations.Insertion.{Inserted}

abbrev line : ℕ → CacheLineInfo
line tag = record { tag = tag; cstate = shared }

abbrev policy : LruReplacementPolicy
policy = record { associativity = 2; lru_bits_vec = (0 ∷ 1 ∷ []) ∷ [] }

ranks : Ranks (0 ∷ 1 ∷ []) (0 ∷ 1 ∷ [])
unfolding ways_from
ranks = ways_from-Ranks 2 (omega arith)

-- Both ways are valid: the second one goes.
lru_get_replacement_way_lem_example :
    Victim.Chosen policy
      (line 5 ∷ line 6 ∷ [])
      0
      (0 ∷ 1 ∷ [])
      (0 ∷ 1 ∷ [])
      refl
      ranks
      refl
      refl
      (omega arith)
lru_get_replacement_way_lem_example =
    Victim.lru_get_replacement_way_lem policy (line 5 ∷ line 6 ∷ []) 0 (0 ∷ 1 ∷ []) (0 ∷ 1 ∷ [])
      refl ranks refl refl (omega arith)

lru_update-Ranks_example :
    (p' : LruReplacementPolicy) × (bits' : List ℕ) × (lru_update policy [] 0 1 ≡ ok p')
    × (p'.associativity ≡ 2)
    × (get_elem? p'.lru_bits_vec 0 ≡ some bits')
    × Ranks bits' (move_to_front 1 (0 ∷ 1 ∷ []))
    × ((other : ℕ)
        → 0 ≢ other
        → get_elem? p'.lru_bits_vec other ≡ get_elem? policy.lru_bits_vec other)
lru_update-Ranks_example =
    Recency.lru_update-Ranks policy [] 0 1 1 (0 ∷ 1 ∷ []) (0 ∷ 1 ∷ []) refl ranks (omega arith) refl

abbrev round_robin_policy : RoundRobinReplacementPolicy
round_robin_policy = record { associativity = 2; replacement_index_vec = 1 ∷ 1 ∷ [] }

round_robin_round_example :
    (p' : RoundRobinReplacementPolicy) × (evict_from 0 ([] ∷ [] ∷ []) round_robin_policy
      ≡ ok (p', 1 ∷ 0 ∷ []))
    × (p'.associativity ≡ 2)
    × ((other : ℕ) → get_elem? p'.replacement_index_vec other ≡ get_elem? (1 ∷ 1 ∷ []) other)
round_robin_round_example =
    Cycle.round_robin_round round_robin_policy ([] ∷ [] ∷ []) 0 (omega arith) refl refl

abbrev cache_set : CacheSet
cache_set = record {
  set_num = 0;
  associativity = 2;
  line_size = 2;
  cache_line_info_array = line 5 ∷ invalid_line ∷ [];
  lines = 10 ∷ 11 ∷ 0 ∷ 0 ∷ [];
}

cache_set-IsValid : IsValid cache_set
cache_set-IsValid = record { ways = refl; size = refl; small = omega arith }

policy-IsGood : LruIsGood policy 2 0
policy-IsGood = record {
  same = refl;
  some_way = omega arith;
  small = omega arith;
  bits = 0 ∷ 1 ∷ [];
  order = 0 ∷ 1 ∷ [];
  at_set = refl;
  ranks = ranks;
  size = refl;
}

abbrev nothing : Evicted
nothing = record {
  eviction = false;
  info = record { tag = 18446744073709551615; cstate = invalid };
  writeback_buf = none;
}

insert_lem_example : Insertion lru lru_laws policy cache_set (line 7) (20 ∷ 21 ∷ []) nothing
insert_lem_example =
    Contents.insert_lem lru lru_laws policy cache_set (line 7) (20 ∷ 21 ∷ []) nothing
      cache_set-IsValid policy-IsGood (omega arith)

write_line_lem_example : Stored lru lru_laws policy cache_set 0 1 1 (9 ∷ [])
write_line_lem_example =
    Access.write_line_lem lru lru_laws policy cache_set 0 1 1 (9 ∷ []) cache_set-IsValid
      policy-IsGood
      (record { way_in_range = omega arith; in_line = omega arith; some_bytes = omega arith })
      (omega arith)

abbrev first_insertion : ℕ → Status
first_insertion = after (Event.insertion 64) (λ a. Status.never_cached)

abbrev then_eviction : ℕ → Status
then_eviction = after (Event.eviction 64) first_insertion

get_miss_type-Reachable_example :
    get_miss_type (track (Event.eviction 64) (track (Event.insertion 64) no_addresses)) 64
    ≡ capacity_miss
get_miss_type-Reachable_example =
    History.get_miss_type-Reachable
      (track (Event.eviction 64) (track (Event.insertion 64) no_addresses)) then_eviction 64
      (next (Event.eviction 64) (track (Event.insertion 64) no_addresses) first_insertion
        (next (Event.insertion 64) no_addresses (λ a. Status.never_cached) start (λ e. cc)) refl)

update_miss_counters_lem_example :
    Balance.Updated false true no_addresses 64 initialize_miss_counters true MemOp.read true
update_miss_counters_lem_example =
    Balance.update_miss_counters_lem false no_addresses 64 initialize_miss_counters true true
      MemOp.read true tt (Balance.initialize_miss_counters-IsBalanced true)

abbrev cache : Cache LruReplacementPolicy
cache = record {
  enabled = true;
  instruction_cache = false;
  write_back = true;
  track_miss_types = true;
  line_size = 2;
  log_line_size = 1;
  replacement_policy = policy;
  sets = cache_set ∷ [];
  tracking = no_addresses;
  miss_counters = initialize_miss_counters;
  total_evictions = 0;
  total_dirty_evictions = 0;
  tag_array_reads = 0;
  tag_array_writes = 0;
  data_array_reads = 0;
  data_array_writes = 0;
  cache_line_state_counters = 0 ∷ 1 ∷ 0 ∷ 0 ∷ 0 ∷ 0 ∷ 0 ∷ 0 ∷ [];
}

cache_sets :
    (n : ℕ) (s : CacheSet)
    → get_elem? (cache_set ∷ []) n ≡ some s
    → IsCacheSet lru lru_laws policy 2 n s
unfolding is_valid state_index invalid_line
cache_sets zero s h = subst (IsCacheSet lru lru_laws policy 2 0) (some-injective _ _ h) (record {
  valid = cache_set-IsValid;
  number = refl;
  good = policy-IsGood;
  line_size = refl;
  coherent = (refl, (refl, tt));
})
cache_sets (suc n) s h = cc

cache_counts :
    (st n : ℕ)
    → st ≢ 0
    → get_elem? cache.cache_line_state_counters st ≡ some n
    → n ≡ total_in st (cache_set ∷ []) % 18446744073709551616
unfolding total_in count_in state_index invalid_line
cache_counts zero n ne h = absurd (ne refl)
cache_counts (suc zero) n ne h = ground arith
cache_counts (suc (suc zero)) n ne h = ground arith
cache_counts (suc (suc (suc zero))) n ne h = ground arith
cache_counts (suc (suc (suc (suc zero)))) n ne h = ground arith
cache_counts (suc (suc (suc (suc (suc zero))))) n ne h = ground arith
cache_counts (suc (suc (suc (suc (suc (suc zero)))))) n ne h = ground arith
cache_counts (suc (suc (suc (suc (suc (suc (suc zero))))))) n ne h = ground arith
cache_counts (suc (suc (suc (suc (suc (suc (suc (suc st)))))))) n ne h = cc

cache-IsConsistent : IsConsistent lru lru_laws cache
cache-IsConsistent = record {
  sets = cache_sets;
  counted = record { size = refl; at_state = cache_counts };
}

insert_cache_line_lem_example :
    Inserted lru lru_laws (λ address. 0) cache 14 (line 7) (20 ∷ 21 ∷ []) nothing
unfolding is_valid state_index invalid_line
insert_cache_line_lem_example =
    Insertion.insert_cache_line_lem lru lru_laws (λ address. 0) cache 14 (line 7) (20 ∷ 21 ∷ [])
      nothing cache-IsConsistent (omega arith) (omega arith) (omega arith) refl refl

tag_found : find cache_set (get_tag lru (λ address. 0) cache 10) ≡ ok (some 0)
unfolding find find_below get_tag invalid_line
tag_found = refl

set_cache_line_info_lem_example :
    (c' : Cache LruReplacementPolicy) × (set_cache_line_info lru
        (λ address. 0)
        cache
        10
        (record { tag = 5; cstate = modified })
      ≡ ok c')
    × (c'.sets
        ≡ record cache_set {
          cache_line_info_array = record { tag = 5; cstate = modified } ∷ invalid_line ∷ [];
        }
          ∷ [])
    × IsConsistent lru lru_laws c'
unfolding is_valid state_index
set_cache_line_info_lem_example =
    Update.set_cache_line_info_lem lru lru_laws (λ address. 0) cache 10
      (record { tag = 5; cstate = modified }) cache_set 0 (line 5) cache-IsConsistent refl tag_found
      refl refl
