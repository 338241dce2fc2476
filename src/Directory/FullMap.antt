-- ===== src/Directory/FullMap.antt =====
-- `DirectoryEntryFullMap` (directory_schemes/directory_entry_full_map.cc): one bit for each tile.
pub mod Laws
pub mod Sharers
pub mod Changes
use graphite_atac.Prelude.{
  ℕ, zero, suc, ◌+◌, ◌==◌, leb, Bool, true, false, not, Option, none, some, List, replicate, length,
  ℤ, pos, negsuc, Result, ok, fail, undefined_behaviour, out_of_fuel, assert, ◌>>◌, ◌>>=◌,
  vector_at, vector_set, if◌then◌else◌,
}
use graphite_atac.Directory.Limited.{next}
use graphite_atac.BitVector.{
  BitVector, new_bit_vector, at_bit, set_bit, erase_bit, find, reset_find,
}

unfoldable pub new_full_map : ℕ → BitVector
new_full_map max_hw_sharers = new_bit_vector max_hw_sharers

unfoldable pub has_sharer : BitVector → ℕ → Result Bool
has_sharer sharers id = at_bit sharers id

unfoldable pub add_sharer : BitVector → ℕ → Result (BitVector × Bool)
add_sharer sharers id = do
  present ← at_bit sharers id
  assert (not present)
  sharers' ← set_bit sharers id
  ok (sharers', true)

unfoldable pub remove_sharer : BitVector → ℕ → Bool → Result BitVector
remove_sharer sharers id reply_expected = do
  assert (not reply_expected)
  present ← at_bit sharers id
  assert present
  erase_bit sharers id

-- The loop of `getSharersList`: each bit that is found goes to the next place of the list, which
-- is not checked.
unfoldable pub fill_list : ℕ → BitVector → List ℤ → ℕ → Result (BitVector × List ℤ)
fill_list zero sharers list i = fail out_of_fuel
fill_list (suc fuel) sharers list i = do
  (sharers', found) ← find sharers
  elim found [
    | none ↦ ok (sharers', list)
    | some new_sharer ↦ do
      list' ← vector_set list i (pos new_sharer)
      assert (leb (i + 1) sharers'.size)
      fill_list fuel sharers' list' (i + 1)
  ]

-- The list has the size of the vector, so that the fuel is one more.
unfoldable pub get_sharers_list : BitVector → Result (BitVector × List ℤ × Bool)
get_sharers_list sharers = do
  (sharers', list) ←
      fill_list (suc sharers.size) (reset_find sharers) (replicate sharers.size (pos 0)) 0
  ok (sharers', list, false)

-- With the generator's seed; an entry without sharers is `% 0`.
unfoldable pub get_one_sharer : BitVector → ℕ → Result (BitVector × ℕ × ℤ)
get_one_sharer sharers seed = do
  (sharers', list, all) ← get_sharers_list sharers
  (seed', index) ← next seed (length list)
  id ← vector_at list index
  ok (sharers', seed', id)

unfoldable pub get_num_sharers : BitVector → ℕ
get_num_sharers sharers = sharers.size

unfoldable pub get_latency : BitVector → ℕ
get_latency sharers = 0
