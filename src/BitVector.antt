-- ===== src/BitVector.antt =====
-- `BitVector` (common/misc/bit_vector.cc, bit_vector.h): the bits of a full-map entry, in words of 64.
pub mod Bits
pub mod Next
pub mod Words
pub mod Search
pub mod Members
pub mod Count
pub mod Positions
pub use Bits.{test_bit, or_bit, clear_bit}
use graphite_atac.Prelude.{
  ℕ, zero, suc, ◌+◌, ◌-◌, ◌*◌, ◌/◌, ◌%◌, ◌^◌, ◌==◌, ltb, Bool, true, false, Option, none, some,
  List, [], ◌∷◌, set, replicate, vector_at, Result, ok, fail, assert, ◌>>◌, ◌>>=◌, if◌then◌else◌,
}

-- `last_pos` is none for -1.
pub record BitVector : Type 0 where
  pub capacity : ℕ
  pub size : ℕ
  pub last_pos : Option ℕ
  pub words : List ℕ

unfoldable pub new_bit_vector : ℕ → BitVector
new_bit_vector bits = record {
  capacity = bits;
  size = 0;
  last_pos = none;
  words = replicate ((bits + 63) / 64) 0;
}

unfoldable pub reset : BitVector → BitVector
reset v = record v { words = replicate ((v.capacity + 63) / 64) 0; size = 0; last_pos = none }

unfoldable pub at_bit : BitVector → ℕ → Result Bool
at_bit v bit = do
  assert (ltb bit v.capacity)
  word ← vector_at v.words (bit / 64)
  ok (test_bit word (bit % 64))

-- The count goes up if the bit was clear; it is the `UInt32` of the vector's size.
unfoldable pub set_bit : BitVector → ℕ → Result BitVector
set_bit v bit = do
  assert (ltb bit v.capacity)
  present ← at_bit v bit
  word ← vector_at v.words (bit / 64)
  elim present [
    | true ↦ ok v
    | false ↦ ok (record v {
      words = set v.words (bit / 64) (or_bit word (bit % 64));
      size = (v.size + 1) % 2 ^ 32;
    })
  ]

unfoldable pub erase_bit : BitVector → ℕ → Result BitVector
erase_bit v bit = do
  assert (ltb bit v.capacity)
  present ← at_bit v bit
  word ← vector_at v.words (bit / 64)
  elim present [
    | false ↦ ok v
    | true ↦ ok (record v {
      words = set v.words (bit / 64) (clear_bit word (bit % 64));
      size = (v.size + 2 ^ 32 - 1) % 2 ^ 32;
    })
  ]

-- Whether a position is after the last one that was found.
abbrev pub is_after : Option ℕ → ℕ → Bool
is_after none position = true
is_after (some last) position = ltb last position

-- The bits of a byte from bit `l` on, `left` of them.
unfoldable pub find_in_byte : Option ℕ → ℕ → ℕ → ℕ → ℕ → Option ℕ
find_in_byte last byte base l zero = none
find_in_byte last byte base l (suc left) = elim (test_bit byte l) [
  | true ↦ elim (is_after last (base + l)) [
    | true ↦ some (base + l)
    | false ↦ find_in_byte last byte base (suc l) left
  ]
  | false ↦ find_in_byte last byte base (suc l) left
]

-- A word of twice `bits` bits by its halves, of which one that is zero is passed over.
unfoldable pub in_half : (ℕ → ℕ → Option ℕ) → ℕ → ℕ → Option ℕ
in_half search part base = if part == 0 then none else search part base

unfoldable pub in_halves : ℕ → (ℕ → ℕ → Option ℕ) → ℕ → ℕ → Option ℕ
in_halves bits search word base = elim (in_half search (word % 2 ^ bits) base) [
  | some position ↦ some position
  | none ↦ in_half search (word / 2 ^ bits) (base + bits)
]

unfoldable pub find_in_word : Option ℕ → ℕ → ℕ → Option ℕ
find_in_word last =
    in_half
      (in_halves 32 (in_halves 16 (in_halves 8 (λ byte base. find_in_byte last byte base 0 8))))

-- The words from `windex` on, `left` of them.
unfoldable pub find_from : BitVector → ℕ → ℕ → Result (Option ℕ)
find_from v windex zero = ok none
find_from v windex (suc left) = do
  word ← vector_at v.words windex
  elim (find_in_word v.last_pos word (64 * windex)) [
    | some position ↦ ok (some position)
    | none ↦ find_from v (suc windex) left
  ]

abbrev pub word_of : Option ℕ → ℕ
word_of none = 0
word_of (some last) = last / 64

-- The next bit that is set, which the vector remembers; after the last one it is none, and the
-- search starts over.
unfoldable pub find : BitVector → Result (BitVector × Option ℕ)
find v = do
  let windex = word_of v.last_pos
  position ← find_from v windex ((v.capacity + 63) / 64 - windex)
  ok (record v { last_pos = position }, position)

unfoldable pub reset_find : BitVector → BitVector
reset_find v = record v { last_pos = none }
