-- ===== src/Cache/Misses.antt =====
-- How `Cache` (cache.cc) tells the types of misses apart: three sets of addresses that `find`, `erase`
-- and `insert` of `std::set` read and write.
pub mod History
use graphite_atac.Prelude.{ℕ, ◌==◌, ◌||◌, ◌&&◌, Bool, true, false, not, if◌then◌else◌}

-- A set of addresses, by its members.
abbrev pub AddressSet : Type 0
AddressSet = ℕ → Bool

unfoldable pub add : ℕ → AddressSet → AddressSet
add address s = λ a. a == address || s a

unfoldable pub erase : ℕ → AddressSet → AddressSet
erase address s = λ a. s a && not (a == address)

pub record Tracking : Type 0 where
  pub fetched : AddressSet
  pub evicted : AddressSet
  pub invalidated : AddressSet

abbrev pub no_addresses : Tracking
no_addresses = record { fetched = λ a. false; evicted = λ a. false; invalidated = λ a. false }

pub data MissType : Type 0 where
  cold_miss capacity_miss sharing_miss invalid_miss_type : MissType

unfoldable pub get_miss_type : Tracking → ℕ → MissType
get_miss_type t address =
    if t.evicted address
    then capacity_miss
    else if t.invalidated address
    then sharing_miss
    else if t.fetched address
    then sharing_miss
    else cold_miss

-- The first set that has the address loses it.
unfoldable pub clear_miss_type_tracking_sets : Tracking → ℕ → Tracking
clear_miss_type_tracking_sets t address =
    if t.evicted address
    then record t { evicted = erase address t.evicted }
    else if t.invalidated address
    then record t { invalidated = erase address t.invalidated }
    else if t.fetched address
    then record t { fetched = erase address t.fetched }
    else t

-- What `insertCacheLine` does to the sets, for a line that is inserted and one that is evicted.
unfoldable pub track_eviction : Tracking → ℕ → Tracking
track_eviction t evicted = record t { evicted = add evicted t.evicted }

unfoldable pub track_insertion : Tracking → ℕ → Tracking
track_insertion t inserted =
    let t' = clear_miss_type_tracking_sets t inserted in
    record t' { fetched = add inserted t'.fetched }

-- What `setCacheLineInfo` does for a line that becomes invalid.
unfoldable pub track_invalidation : Tracking → ℕ → Tracking
track_invalidation t address = record t { invalidated = add address t.invalidated }
