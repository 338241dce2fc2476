-- ===== src/Directory/Limited.antt =====
-- `DirectoryEntryLimited` (directory_entry_limited.cc) and `DirectoryEntryLimitedNoBroadcast`: at
-- most `max_hw_sharers` sharers, each in a slot.
pub mod Exact
use graphite_atac.Prelude.{
  ℕ, suc, ◌+◌, ◌-◌, ◌%◌, ◌*◌, ◌/◌, ◌^◌, if◌then◌else◌, Bool, true, false, not, Option, none, some,
  List, [], ◌∷◌, map, ◌==◌, length, get_elem?, replicate, ℤ, pos, negsuc, Result, ok, fail,
  log_error, undefined_behaviour, ◌>>=◌, ◌>>◌, assert,
}
use graphite_atac.Directory.Slots.{
  invalid_sharer, to_slot, to_tile, has_slot, holds, fill, clear, occupied,
}

-- The tile identifiers are `SInt32` that are not negative; `INVALID_SHARER` is 0xffff.
pub record Limited : Type 0 where
  pub max_hw_sharers : ℕ
  pub sharers : List ℕ
  pub num_tracked_sharers : ℕ

unfoldable pub new_limited : ℕ → Limited
new_limited max = record {
  max_hw_sharers = max;
  sharers = replicate max invalid_sharer;
  num_tracked_sharers = 0;
}

unfoldable pub has_sharer : Limited → ℕ → Bool
has_sharer e id = has_slot id e.sharers

-- The first loop asserts that no slot has the identifier, the second takes the first free slot; the
-- result says whether there was one.
unfoldable pub add_sharer : Limited → ℕ → Result (Limited × Bool)
add_sharer e id = do
  assert (not (holds (to_slot id) e.sharers))
  elim (fill (to_slot id) e.sharers) [
    | none ↦ ok (e, false)
    | some slots ↦
        ok (record e { sharers = slots; num_tracked_sharers = e.num_tracked_sharers + 1 }, true)
  ]

-- The counter of a valid entry is not 0 when a slot has the identifier.
unfoldable pub remove_sharer : Limited → ℕ → Result Limited
remove_sharer e id = elim (clear (to_slot id) e.sharers) [
  | none ↦ fail log_error
  | some slots ↦ ok (record e { sharers = slots; num_tracked_sharers = e.num_tracked_sharers - 1 })
]

-- The list, and whether all tiles are sharers.
unfoldable pub get_sharers_list : Limited → Result (List ℤ × Bool)
get_sharers_list e = do
  let list = map to_tile (occupied e.sharers)
  assert (e.num_tracked_sharers == length list)
  ok (list, true)

unfoldable pub get_num_sharers : Limited → ℕ
get_num_sharers e = e.num_tracked_sharers

-- `Random::next` (common/misc/random.h): the new seed and the value; `% 0` is undefined.
unfoldable pub next : ℕ → ℕ → Result (ℕ × ℕ)
next seed limit =
    let seed' = (seed * 1103515245 + 12345) % 2 ^ 32 in
    if limit == 0 then fail undefined_behaviour else ok (seed', (seed' / 65536) % limit)

at_index : List ℤ → ℕ → Result ℤ
at_index list i = elim (get_elem? list i) [ none ↦ fail undefined_behaviour | some id ↦ ok id ]

-- A sharer at random, with the generator's new seed; `INVALID_TILE_ID`, -1, if there is none.
unfoldable pub get_one_sharer : Limited → ℕ → Result (ℕ × ℤ)
unfolding at_index
get_one_sharer e seed = do
  (list, all) ← get_sharers_list e
  let n = length list
  if n == 0
      then ok (seed, negsuc 0)
      else do (seed', index) ← next seed n; id ← at_index list index; ok (seed', id)

-- `DirectoryEntryLimitedNoBroadcast::removeSharer`; the rest is inherited.
unfoldable pub remove_sharer_no_broadcast : Limited → ℕ → Bool → Result Limited
remove_sharer_no_broadcast e id reply_expected = do assert (not reply_expected); remove_sharer e id
