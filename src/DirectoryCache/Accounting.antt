-- ===== src/DirectoryCache/Accounting.antt =====
-- The event counters of `DirectoryCache` (directory_cache.cc), 64 bits each, and the cycle count of
-- `ShmemPerfModel` (performance_models/shmem_perf_model.cc) for one thread.
use graphite_atac.Prelude.{ℕ, ◌+◌, ◌%◌, ◌^◌, ltb, if◌then◌else◌, Result, ok, fail, log_error}

pub record EventCounters : Type 0 where
  pub total_directory_accesses : ℕ
  pub tag_array_reads : ℕ
  pub tag_array_writes : ℕ
  pub data_array_reads : ℕ
  pub data_array_writes : ℕ

unfoldable pub no_events : EventCounters
no_events = record {
  total_directory_accesses = 0;
  tag_array_reads = 0;
  tag_array_writes = 0;
  data_array_reads = 0;
  data_array_writes = 0;
}

unfoldable pub update_counters : EventCounters → EventCounters
update_counters k = record {
  total_directory_accesses = (k.total_directory_accesses + 1) % 2 ^ 64;
  tag_array_reads = (k.tag_array_reads + 1) % 2 ^ 64;
  tag_array_writes = (k.tag_array_writes + 1) % 2 ^ 64;
  data_array_reads = (k.data_array_reads + 1) % 2 ^ 64;
  data_array_writes = (k.data_array_writes + 1) % 2 ^ 64;
}

-- `incrCycleCount` fails when the 64-bit sum wraps around.
unfoldable pub incr_cycle_count : ℕ → ℕ → Result ℕ
incr_cycle_count i_cycle_count count =
    if ltb (i_cycle_count + count) (2 ^ 64) then ok (i_cycle_count + count) else fail log_error

unfoldable pub update_cycle_count : ℕ → ℕ → ℕ
update_cycle_count cycle_count other = if ltb cycle_count other then other else cycle_count
