-- ===== src/Tests/FullMap.antt =====
-- Runs of the full-map entry, and its theorems at an entry of two tiles in two words.
use graphite_atac.Prelude.{
  ℕ, ◌<◌, ◌≡◌, refl, Option, true, false, none, some, [], ◌∷◌, map, pos, ok, arith,
}
use graphite_atac.BitVector.{
  BitVector, at_bit, find, find_from, find_in_word, find_in_byte, in_half, in_halves, reset_find,
  set_bit, erase_bit, new_bit_vector,
}
use graphite_atac.BitVector.Bits.{test_bit, or_bit, clear_bit, count_bits}
use graphite_atac.BitVector.Count.{IsCounted, count_words}
use graphite_atac.BitVector.Positions
use graphite_atac.BitVector.Search.{bit_in}
use graphite_atac.BitVector.Next.{Next}
use graphite_atac.BitVector.Positions.{set_positions}
use graphite_atac.Directory.FullMap
use graphite_atac.Directory.FullMap.Sharers
use graphite_atac.Directory.FullMap.Changes

-- Tiles 3 and 65 of 70; tile 3 was found last.
abbrev two_tiles : BitVector
two_tiles = record { capacity = 70; size = 2; last_pos = some 3; words = 8 ∷ 2 ∷ [] }

two_tiles-IsCounted : IsCounted two_tiles
unfolding count_words count_bits
two_tiles-IsCounted = record { counted = refl; covers = refl; short = omega arith }

find-Next_example :
    (o : Option ℕ) × (find two_tiles ≡ ok (record two_tiles { last_pos = o }, o))
    × Next (bit_in (8 ∷ 2 ∷ [])) (some 3) 0 128 o
find-Next_example = Positions.find-Next two_tiles refl

get_sharers_list-set_positions_example :
    (FullMap.get_sharers_list two_tiles
      ≡ ok (reset_find two_tiles, map pos (set_positions (8 ∷ 2 ∷ [])), false))
    × ((id : ℕ) → id < 70 → FullMap.has_sharer two_tiles id ≡ ok (bit_in (8 ∷ 2 ∷ []) id))
get_sharers_list-set_positions_example =
    Sharers.get_sharers_list-set_positions two_tiles two_tiles-IsCounted

change_sharer_lem_example : Changes.Adds two_tiles 65 × Changes.Removes two_tiles 65
change_sharer_lem_example = Changes.change_sharer_lem two_tiles 65 two_tiles-IsCounted

find_second : find two_tiles ≡ ok (record two_tiles { last_pos = some 65 }, some 65)
unfolding find find_from find_in_word find_in_byte in_half in_halves test_bit
find_second = refl

list_of_two :
    FullMap.get_sharers_list two_tiles ≡ ok (reset_find two_tiles, pos 3 ∷ pos 65 ∷ [], false)
unfolding FullMap.get_sharers_list FullMap.fill_list reset_find find find_from find_in_word
    find_in_byte in_half in_halves test_bit
list_of_two = refl

add_then_remove :
    (FullMap.add_sharer (new_bit_vector 70) 65
      ≡ ok (record { capacity = 70; size = 1; last_pos = none; words = 0 ∷ 2 ∷ [] }, true))
    × (FullMap.remove_sharer
          (record { capacity = 70; size = 1; last_pos = none; words = 0 ∷ 2 ∷ [] })
          65
          false
        ≡ ok (new_bit_vector 70))
unfolding FullMap.add_sharer FullMap.remove_sharer new_bit_vector at_bit set_bit erase_bit or_bit
    clear_bit test_bit
add_then_remove = (refl, refl)
