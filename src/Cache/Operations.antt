-- ===== src/Cache/Operations.antt =====
-- `Cache` (cache.cc): the sets behind a hash function, and the counters. The power and area models
-- only read the counters.
pub mod Totals
pub mod Sets
pub mod Steps
pub mod Insertion
pub mod Update
use Prim.Native.Nat.{bit_and}
use graphite_atac.Prelude.{
  vector_at, vector_set, ℕ, zero, suc, ◌+◌, ◌-◌, ◌*◌, ◌/◌, ◌%◌, ◌^◌, ◌==◌, if◌then◌else◌, Bool,
  true, false, not, ◌&&◌, List, [], ◌∷◌, Option, none, some, get_elem?, set, Result, ok, fail,
  undefined_behaviour, assert_failed, assert, ◌>>=◌, ◌>>◌,
}
use graphite_atac.Cache.Line.{CacheState, invalid, CacheLineInfo, writable}
use graphite_atac.Cache.Replacement.{CacheReplacementPolicy}
use graphite_atac.Cache.Set.{
  CacheSet, find, read_line, write_line, insert, Evicted, null_iff_empty, is_null,
}
use graphite_atac.Cache.Misses.{
  Tracking, track_eviction, track_insertion, track_invalidation, MissType,
}
use graphite_atac.Cache.Counters.{
  inc, MissCounters, MemOp, update_miss_counters, state_index, update_cache_line_state_counters,
}

pub record Cache (State : Type 0) : Type 0 where
  pub enabled : Bool
  pub instruction_cache : Bool
  pub write_back : Bool
  pub track_miss_types : Bool
  pub line_size : ℕ
  pub log_line_size : ℕ
  pub replacement_policy : State
  pub sets : List CacheSet
  pub tracking : Tracking
  pub miss_counters : MissCounters
  pub total_evictions : ℕ
  pub total_dirty_evictions : ℕ
  pub tag_array_reads : ℕ
  pub tag_array_writes : ℕ
  pub data_array_reads : ℕ
  pub data_array_writes : ℕ
  pub cache_line_state_counters : List ℕ

-- What the core asks of a line: to load into a buffer that is null or not, or to store a buffer.
pub data AccessType : Type 0 where
  load : Bool → AccessType
  store : Option (List ℕ) → AccessType

unfoldable pub no_buffer : AccessType → Bool
no_buffer (load null) = null
no_buffer (store buf) = is_null buf

-- `CacheHashFn::compute` (cache_hash_fn.h); the shared L2 cache has another.
unfoldable pub compute : ℕ → ℕ → ℕ → ℕ
compute num_sets log_cache_line_size address =
    bit_and (address / 2 ^ log_cache_line_size) ((num_sets + (2 ^ 32 - 1)) % 2 ^ 32)

-- Addresses and tags are 64 bits.
unfoldable pub get_address_from_tag : ℕ → ℕ → ℕ
get_address_from_tag log_line_size tag = (tag * 2 ^ log_line_size) % 2 ^ 64

is_invalid : CacheState → Bool
is_invalid cstate = state_index cstate == 0

unfoldable pub enable : {State : Type 0} → Cache State → Cache State
enable c = record c { enabled = true }

unfoldable pub disable : {State : Type 0} → Cache State → Cache State
disable c = record c { enabled = false }

module _ (policy : CacheReplacementPolicy) (hash_fn : ℕ → ℕ) where
  open policy use {State}

  unfoldable pub get_tag : Cache State → ℕ → ℕ
  get_tag c address = address / 2 ^ c.log_line_size

  unfoldable pub get_line_offset : Cache State → ℕ → ℕ
  get_line_offset c address = bit_and address ((c.line_size + (2 ^ 32 - 1)) % 2 ^ 32)

  unfoldable pub get_set : Cache State → ℕ → Result CacheSet
  get_set c address = vector_at c.sets (hash_fn address)

  -- The array that an access counts in.
  count_data : AccessType → Cache State → Cache State
  count_data (load null) c = record c { data_array_reads = inc c.data_array_reads }
  count_data (store buf) c = record c { data_array_writes = inc c.data_array_writes }

  access_line : AccessType → State → CacheSet → ℕ → ℕ → ℕ → Result (State × CacheSet × List ℕ)
  access_line (load null) p s line_index offset bytes = do
    (p', out) ← read_line policy p s line_index offset null bytes
    ok (p', s, out)
  access_line (store buf) p s line_index offset bytes = do
    (p', s') ← write_line policy p s line_index offset buf bytes
    ok (p', s', [])

  -- The cache, and the bytes that were loaded.
  unfoldable pub access_cache_line :
      Cache State → ℕ → AccessType → ℕ → Result (Cache State × List ℕ)
  unfolding count_data access_line
  access_cache_line c address access num_bytes = do
    assert (null_iff_empty (no_buffer access) num_bytes)
    s ← get_set c address
    found ← find s (get_tag c address)
    elim found [
      | none ↦ fail assert_failed
      | some line_index ↦ do
        (p', s', out) ←
            access_line access c.replacement_policy s line_index (get_line_offset c address)
              num_bytes
        let c' = record c { replacement_policy = p'; sets = set c.sets (hash_fn address) s' }
        ok (if c'.enabled then count_data access c' else c', out)
    ]

  -- The counters and the sets of addresses for the line that left.
  pub note_eviction : Cache State → CacheLineInfo → ℕ → Result (Cache State)
  note_eviction c old evicted_address = do
    assert (not (evicted_address == 2 ^ 64 - 1))
    counters ← update_cache_line_state_counters old.cstate invalid c.cache_line_state_counters
    ok (record c {
      cache_line_state_counters = counters;
      tracking =
          if c.track_miss_types then track_eviction c.tracking evicted_address else c.tracking;
    })

  count_eviction : Cache State → Evicted → Result (Cache State)
  unfolding is_invalid
  count_eviction c out =
      if out.eviction
      then (do
        assert (not (is_invalid out.info.cstate))
        ok (record c {
          tag_array_reads = inc c.tag_array_reads;
          data_array_reads = inc c.data_array_reads;
          total_evictions = inc c.total_evictions;
          total_dirty_evictions =
              if c.write_back && writable out.info.cstate
              then inc c.total_dirty_evictions
              else c.total_dirty_evictions;
        }))
      else (do
        assert (is_invalid out.info.cstate)
        ok (record c { tag_array_reads = inc c.tag_array_reads }))

  pub count_insertion : Cache State → Evicted → Result (Cache State)
  unfolding count_eviction
  count_insertion c out = do
    c' ← count_eviction c out
    ok (record c' {
      tag_array_writes = inc c'.tag_array_writes;
      data_array_writes = inc c'.data_array_writes;
    })

  -- The cache, what the caller is told of the line that made room, and that line's address.
  unfoldable pub insert_cache_line :
      Cache State
      → ℕ
      → CacheLineInfo
      → Option (List ℕ)
      → Evicted
      → Result (Cache State × Evicted × ℕ)
  unfolding note_eviction count_insertion
  insert_cache_line c inserted_address inserted fill_buf out = do
    s ← get_set c inserted_address
    (p', s', out') ← insert policy c.replacement_policy s inserted fill_buf out
    let c1 = record c { replacement_policy = p'; sets = set c.sets (hash_fn inserted_address) s' }
    let evicted_address = get_address_from_tag c.log_line_size out'.info.tag
    c2 ← if out'.eviction then note_eviction c1 out'.info evicted_address else ok c1
    counters ← update_cache_line_state_counters invalid inserted.cstate c2.cache_line_state_counters
    let c3 = record c2 {
      tracking =
          if c2.track_miss_types then track_insertion c2.tracking inserted_address else c2.tracking;
      cache_line_state_counters = counters;
    }
    c4 ← if c3.enabled then count_insertion c3 out' else ok c3
    ok (c4, out', evicted_address)

  pub line_info : CacheSet → ℕ → Result (Option (ℕ × CacheLineInfo))
  line_info s tag = do
    found ← find s tag
    elim found [
      | none ↦ ok none
      | some i ↦ do info ← vector_at s.cache_line_info_array i; ok (some (i, info))
    ]

  -- The line is copied to the caller's, if it is there.
  unfoldable pub get_cache_line_info :
      Cache State → ℕ → CacheLineInfo → Result (Cache State × CacheLineInfo)
  unfolding line_info
  get_cache_line_info c address out = do
    s ← get_set c address
    found ← line_info s (get_tag c address)
    let c' = if c.enabled then record c { tag_array_reads = inc c.tag_array_reads } else c
    elim found [ none ↦ ok (c', out) | some (i, info) ↦ ok (c', info) ]

  unfoldable pub set_cache_line_info : Cache State → ℕ → CacheLineInfo → Result (Cache State)
  unfolding line_info is_invalid
  set_cache_line_info c address updated = do
    s ← get_set c address
    found ← line_info s (get_tag c address)
    elim found [
      | none ↦ fail assert_failed
      | some (i, info) ↦ do
        counters ←
            update_cache_line_state_counters info.cstate updated.cstate c.cache_line_state_counters
        let s' = record s { cache_line_info_array = set s.cache_line_info_array i updated }
        ok (record c {
          cache_line_state_counters = counters;
          tracking =
              if is_invalid updated.cstate && c.track_miss_types
              then track_invalidation c.tracking address
              else c.tracking;
          sets = set c.sets (hash_fn address) s';
          tag_array_writes = if c.enabled then inc c.tag_array_writes else c.tag_array_writes;
        })
    ]
