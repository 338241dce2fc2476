-- ===== src/Cache/Counters.antt =====
-- The counters of `Cache` (cache.cc): hits and misses, evictions, accesses to the arrays, lines in each
-- state. They are `UInt64`.
pub mod Balance
use graphite_atac.Prelude.{
  vector_at, vector_set, ℕ, zero, suc, ◌+◌, ◌-◌, ◌%◌, ◌^◌, List, Option, none, some, get_elem?, set,
  replicate, Bool, true, false, Result, ok, fail, undefined_behaviour, log_error, assert, ◌>>=◌,
  ◌>>◌, if◌then◌else◌, not,
}
use graphite_atac.Cache.Line.{
  CacheState, invalid, shared, owned, exclusive, modified, data_invalid, clean, dirty,
}
use graphite_atac.Cache.Misses.{
  MissType, cold_miss, capacity_miss, sharing_miss, invalid_miss_type, Tracking, get_miss_type,
}

unfoldable pub inc : ℕ → ℕ
inc n = (n + 1) % 2 ^ 64

unfoldable pub dec : ℕ → ℕ
dec n = (n + (2 ^ 64 - 1)) % 2 ^ 64

pub record MissCounters : Type 0 where
  pub total_cache_accesses : ℕ
  pub total_cache_misses : ℕ
  pub total_read_accesses : ℕ
  pub total_read_misses : ℕ
  pub total_write_accesses : ℕ
  pub total_write_misses : ℕ
  pub total_cold_misses : ℕ
  pub total_capacity_misses : ℕ
  pub total_sharing_misses : ℕ

unfoldable pub initialize_miss_counters : MissCounters
initialize_miss_counters = record {
  total_cache_accesses = 0;
  total_cache_misses = 0;
  total_read_accesses = 0;
  total_read_misses = 0;
  total_write_accesses = 0;
  total_write_misses = 0;
  total_cold_misses = 0;
  total_capacity_misses = 0;
  total_sharing_misses = 0;
}

-- `Core::mem_op_t`.
pub data MemOp : Type 0 where
  read read_ex write : MemOp

-- `_enabled` holds where this is called.
unfoldable pub update_miss_type_counters : MissType → MissCounters → Result MissCounters
update_miss_type_counters cold_miss m =
    ok (record m { total_cold_misses = inc m.total_cold_misses })
update_miss_type_counters capacity_miss m =
    ok (record m { total_capacity_misses = inc m.total_capacity_misses })
update_miss_type_counters sharing_miss m =
    ok (record m { total_sharing_misses = inc m.total_sharing_misses })
update_miss_type_counters invalid_miss_type m = fail log_error

unfoldable pub count_access : Bool → MemOp → MissCounters → Result MissCounters
count_access instruction_cache write m = do
  assert (not instruction_cache)
  ok (record m {
    total_cache_accesses = inc m.total_cache_accesses;
    total_write_accesses = inc m.total_write_accesses;
  })
count_access instruction_cache op m = ok (record m {
  total_cache_accesses = inc m.total_cache_accesses;
  total_read_accesses = inc m.total_read_accesses;
})

unfoldable pub count_miss : MemOp → MissCounters → MissCounters
count_miss write m = record m {
  total_cache_misses = inc m.total_cache_misses;
  total_write_misses = inc m.total_write_misses;
}
count_miss op m = record m {
  total_cache_misses = inc m.total_cache_misses;
  total_read_misses = inc m.total_read_misses;
}

-- `updateMissCounters`, with the fields of the cache that it reads.
unfoldable pub update_miss_counters :
    Bool
    → Bool
    → Bool
    → Tracking
    → ℕ
    → MemOp
    → Bool
    → MissCounters
    → Result (MissCounters × MissType)
update_miss_counters false instruction_cache track_miss_types t address op cache_miss m =
    ok (m, invalid_miss_type)
update_miss_counters true instruction_cache track_miss_types t address op cache_miss m = do
  m' ← count_access instruction_cache op m
  let m'' = count_miss op m'
  let miss_type = get_miss_type t address
  if cache_miss
      then (if track_miss_types
          then (do m3 ← update_miss_type_counters miss_type m''; ok (m3, miss_type))
          else ok (m'', invalid_miss_type))
      else ok (m', invalid_miss_type)

-- The index of a state in `_cache_line_state_counters`.
unfoldable pub state_index : CacheState → ℕ
state_index invalid = 0
state_index shared = 1
state_index owned = 2
state_index exclusive = 3
state_index modified = 4
state_index data_invalid = 5
state_index clean = 6
state_index dirty = 7

unfoldable pub initialize_cache_line_state_counters : List ℕ
initialize_cache_line_state_counters = replicate 8 0

unfoldable pub update_cache_line_state_counters : CacheState → CacheState → List ℕ → Result (List ℕ)
update_cache_line_state_counters old_cstate new_cstate counters = do
  old ← vector_at counters (state_index old_cstate)
  let counters' = set counters (state_index old_cstate) (dec old)
  new ← vector_at counters' (state_index new_cstate)
  ok (set counters' (state_index new_cstate) (inc new))
