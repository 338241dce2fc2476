-- ===== src/DirectoryCache.antt =====
-- `DirectoryCache` (common/tile/memory_subsystem/cache/directory_cache.cc) over `Directory`
-- (directory_schemes/directory.cc): the entries by sets, and those that were replaced and wait to be
-- invalidated. The maps of DETAILED_TRACKING, which only the summary reads, are left out.
pub mod Accounting
pub mod SetIndex
pub mod Ways
pub mod Lookup
pub mod Replacing
pub mod Coherence
pub use Accounting.{EventCounters, no_events, update_counters, incr_cycle_count}
use mathlib.Core.Option
use Prim.Native.Nat.{bit_xor}
use graphite_atac.Prelude.{
  ℕ, zero, suc, ◌+◌, ◌-◌, ◌*◌, ◌/◌, ◌%◌, ◌^◌, Bool, true, false, Option, none, some, List, [], ◌∷◌,
  ◌++◌, ◌==◌, leb, set, Result, ok, fail, assert_failed, log_error, out_of_fuel, ◌>>=◌, vector_at,
}
use graphite_atac.Directory.Entry.{Scheme, DirectoryEntry, new_entry}

-- An address is a number below 2^64 - 1, since that one is `INVALID_ADDRESS`.
pub record DirectoryCache (E : Type 0) : Type 0 where
  pub directory_entry_list : List (DirectoryEntry E)
  pub replaced_directory_entry_list : List (DirectoryEntry E)
  pub associativity : ℕ
  pub log_num_sets : ℕ
  pub log_cache_line_size : ℕ
  pub log_num_directories : ℕ
  pub enabled : Bool
  pub directory_access_delay : ℕ
  pub counters : EventCounters

-- `getBits` (common/misc/utils.h), where the low bit is not above the high one.
unfoldable pub get_bits : ℕ → ℕ → ℕ → ℕ
get_bits x high low = (x / 2 ^ low) % 2 ^ (high - low)

-- The loop of `computeSetIndex`: it ends when less than a whole group of bits is left.
unfoldable pub fold_groups : ℕ → ℕ → ℕ → ℕ → ℕ → Result ℕ
fold_groups zero address group i folded = fail out_of_fuel
fold_groups (suc fuel) address group i folded = elim (leb (i + group) 64) [
  | true ↦
      fold_groups fuel address group (i + group) (bit_xor folded (get_bits address (i + group) i))
  | false ↦ ok (folded % 2 ^ 32)
]

-- Where a line stands, for the code's pointer to it.
pub data Place : Type 0 where
  in_directory in_replaced : ℕ → Place

abbrev pub is_at : ℕ → Option ℕ → Bool
is_at address none = false
is_at address (some a) = a == address

abbrev pub is_free : Option ℕ → Bool
is_free none = true
is_free (some a) = false

module _ {E : Type 0} where
  -- A group has one bit or more, unless the cache has only one set.
  unfoldable pub compute_set_index : DirectoryCache E → ℕ → Result ℕ
  compute_set_index c address =
      fold_groups 66 address c.log_num_sets (c.log_cache_line_size + c.log_num_directories) 0

  unfoldable pub entry_num : DirectoryCache E → ℕ → ℕ → ℕ
  entry_num c set_index i = (set_index * c.associativity + i) % 2 ^ 32

  -- The first of some ways of a set, from way `i` on, whose address passes a test.
  unfoldable pub find_way : (Option ℕ → Bool) → DirectoryCache E → ℕ → ℕ → ℕ → Result (Option ℕ)
  find_way test c set_index i zero = ok none
  find_way test c set_index i (suc ways) = do
    e ← vector_at c.directory_entry_list (entry_num c set_index i)
    elim (test e.address) [
      | true ↦ ok (some (entry_num c set_index i))
      | false ↦ find_way test c set_index (suc i) ways
    ]

  unfoldable pub ways_of : DirectoryCache E → ℕ → ℕ → ℕ → Result (List (DirectoryEntry E))
  ways_of c set_index i zero = ok []
  ways_of c set_index i (suc ways) = do
    e ← vector_at c.directory_entry_list (entry_num c set_index i)
    rest ← ways_of c set_index (suc i) ways
    ok (e ∷ rest)

  unfoldable pub find_replaced : ℕ → List (DirectoryEntry E) → Option ℕ
  find_replaced address [] = none
  find_replaced address (e ∷ list) = elim (is_at address e.address) [
    | true ↦ some 0
    | false ↦ Option.map suc (find_replaced address list)
  ]

  -- What an access costs while the models are enabled.
  unfoldable pub access : DirectoryCache E → ℕ → Result (DirectoryCache E × ℕ)
  access c cycle_count = elim c.enabled [
    | false ↦ ok (c, cycle_count)
    | true ↦ do
      later ← incr_cycle_count cycle_count c.directory_access_delay
      ok (record c { counters = update_counters c.counters }, later)
  ]

module _ {E : Type 0} (scheme : Scheme E) where
  -- The entry that was found costs the latency of its scheme.
  unfoldable pub hit : DirectoryCache E → ℕ → ℕ → Result (DirectoryCache E × ℕ × Option Place)
  hit c cycle_count num = do
    e ← vector_at c.directory_entry_list num
    later ← incr_cycle_count cycle_count (scheme.get_latency e.sharers)
    ok (c, later, some (in_directory num))

  unfoldable pub take_free :
      DirectoryCache E → ℕ → ℕ → ℕ → Result (DirectoryCache E × ℕ × Option Place)
  take_free c cycle_count address num = do
    e ← vector_at c.directory_entry_list num
    let entries = set c.directory_entry_list num (record e { address = some address })
    ok (record c { directory_entry_list = entries }, cycle_count, some (in_directory num))

  -- The entry of the address, or else a free one that the address takes, or else the one that was
  -- replaced; none is the null pointer.
  unfoldable pub get_directory_entry :
      DirectoryCache E → ℕ → ℕ → Result (DirectoryCache E × ℕ × Option Place)
  get_directory_entry c cycle_count address = do
    (c, later) ← access c cycle_count
    set_index ← compute_set_index c address
    found ← find_way (is_at address) c set_index 0 c.associativity
    elim found [
      | some num ↦ hit c later num
      | none ↦ do
        free ← find_way is_free c set_index 0 c.associativity
        elim free [
          | some num ↦ take_free c later address num
          | none ↦ ok (
            c,
            later,
            Option.map in_replaced (find_replaced address c.replaced_directory_entry_list),
          )
        ]
    ]

  unfoldable pub get_replacement_candidates :
      DirectoryCache E → ℕ → ℕ → Result (DirectoryCache E × ℕ × List (DirectoryEntry E))
  get_replacement_candidates c cycle_count address = do
    (c, later, place) ← get_directory_entry c cycle_count address
    elim place [
      | some p ↦ fail assert_failed
      | none ↦ do
        set_index ← compute_set_index c address
        candidates ← ways_of c set_index 0 c.associativity
        ok (c, later, candidates)
    ]

  -- The new entry, with the address, takes the place of the old one.
  unfoldable pub put_new : DirectoryCache E → ℕ → ℕ → Result (DirectoryCache E)
  put_new c address num = do
    old ← vector_at c.directory_entry_list num
    let new = record (new_entry scheme) { address = some address }
    ok (record c {
      directory_entry_list = set c.directory_entry_list num new;
      replaced_directory_entry_list = c.replaced_directory_entry_list ++ old ∷ [];
    })

  unfoldable pub replace_directory_entry :
      DirectoryCache E → ℕ → ℕ → ℕ → Result (DirectoryCache E × ℕ × Place)
  replace_directory_entry c cycle_count replaced_address address = do
    (c, later) ← access c cycle_count
    set_index ← compute_set_index c replaced_address
    found ← find_way (is_at replaced_address) c set_index 0 c.associativity
    elim found [
      | none ↦ fail log_error
      | some num ↦ do c' ← put_new c address num; ok (c', later, in_directory num)
    ]

module _ {E : Type 0} where
  unfoldable pub erase_at : ℕ → List (DirectoryEntry E) → Result (List (DirectoryEntry E))
  erase_at address [] = fail log_error
  erase_at address (e ∷ list) = elim (is_at address e.address) [
    | true ↦ ok list
    | false ↦ do rest ← erase_at address list; ok (e ∷ rest)
  ]

  unfoldable pub invalidate_directory_entry : DirectoryCache E → ℕ → Result (DirectoryCache E)
  invalidate_directory_entry c address = do
    list ← erase_at address c.replaced_directory_entry_list
    ok (record c { replaced_directory_entry_list = list })

  -- Reading and changing the entry that a pointer names.
  unfoldable pub entry_at : DirectoryCache E → Place → Result (DirectoryEntry E)
  entry_at c (in_directory num) = vector_at c.directory_entry_list num
  entry_at c (in_replaced num) = vector_at c.replaced_directory_entry_list num

  unfoldable pub write_entry : DirectoryCache E → Place → DirectoryEntry E → DirectoryCache E
  write_entry c (in_directory num) e = record c {
    directory_entry_list = set c.directory_entry_list num e;
  }
  write_entry c (in_replaced num) e = record c {
    replaced_directory_entry_list = set c.replaced_directory_entry_list num e;
  }
