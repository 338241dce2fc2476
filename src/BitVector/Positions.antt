-- ===== src/BitVector/Positions.antt =====
-- The positions of a bit vector whose bits are set, in ascending order: `find` goes through them,
-- and the vector's size is their number.
use mathlib.Core.Path.{subst}
use graphite_atac.Prelude.{
  ℕ, zero, suc, ◌+◌, ◌-◌, ◌*◌, ◌/◌, ◌%◌, ◌<◌, ◌≤◌, ◌==◌, ◌≡◌, refl, sym, ap, ◌∙◌, Bool, true, false,
  Bool-cases, Option, none, some, List, [], ◌∷◌, ◌++◌, length, inl, inr, if◌then◌else◌, ltb→lt,
  lt→ltb, length-append, Result, ok, Yields-ok, vector_at-Returns, arith,
}
use graphite_atac.BitVector.{BitVector, is_after, word_of, find_in_word, find_from, find}
use graphite_atac.BitVector.Bits.{test_bit, count_bits}
use graphite_atac.BitVector.Count.{count_words, IsCounted}
use graphite_atac.BitVector.Search.{bit_of, bit_in, find_lem}
use graphite_atac.BitVector.Next.{Next}
use graphite_atac.BitVector.Words.{Spelt}

-- The positions that have `P`, of the `left` ones from `from` on.
unfoldable pub positions : (ℕ → Bool) → ℕ → ℕ → List ℕ
positions P from zero = []
positions P from (suc left) =
    let rest = positions P (suc from) left in if P from then from ∷ rest else rest

module _ (P : ℕ → Bool) where
  positions-clear :
      (from left : ℕ)
      → ((q : ℕ) → from ≤ q → q < from + left → P q ≡ false)
      → positions P from left ≡ []
  unfolding positions
  positions-clear from zero h = refl
  positions-clear from (suc left) h = rw (h from (omega arith) (omega arith)) (
      positions-clear (suc from) left
        (λ q low high. h q (omega (arith, low)) (omega (arith, high))))

  positions-first :
      (from skipped left : ℕ)
      → ((q : ℕ) → from ≤ q → q < from + skipped → P q ≡ false)
      → P (from + skipped) ≡ true
      → positions P from (skipped + suc left)
        ≡ (from + skipped) ∷ positions P (suc (from + skipped)) left
  unfolding positions
  positions-first from zero left h e =
      let count : 0 + suc left ≡ suc left = omega arith in
      let place : from + 0 ≡ from = omega arith in
      let here : P from ≡ true = sym (ap P place) ∙ e in rw (count, place, here) refl
  positions-first from (suc skipped) left h e =
      let count : suc skipped + suc left ≡ suc (skipped + suc left) = omega arith in
      let place : from + suc skipped ≡ suc from + skipped = omega arith in
      let here : P from ≡ false = h from (omega arith) (omega arith) in
      let there : P (suc from + skipped) ≡ true = sym (ap P place) ∙ e in
      rw (count, place, here)
        (positions-first (suc from) skipped left
          (λ q low high. h q (omega (arith, low)) (omega (arith, high))) there)

  positions-join :
      (from m n : ℕ) → positions P from (m + n) ≡ positions P from m ++ positions P (from + m) n
  unfolding positions
  positions-join from zero n =
      let count : 0 + n ≡ n = omega arith in
      let place : from + 0 ≡ from = omega arith in rw (count, place) refl
  positions-join from (suc m) n =
      let count : suc m + n ≡ suc (m + n) = omega arith in
      let place : from + suc m ≡ suc from + m = omega arith in
      rw (count, place)
        (elim (Bool-cases (P from)) [
          | inl here ↦ rw here (ap (λ l. from ∷ l) (positions-join (suc from) m n))
          | inr there ↦ rw there (positions-join (suc from) m n)
        ])

  length-positions :
      (from n word : ℕ) → Spelt n P word from → length (positions P from n) ≡ count_bits n word
  unfolding positions count_bits test_bit
  length-positions from zero word s = refl
  length-positions from (suc n) word s =
      let place : from + 0 ≡ from = omega arith in
      let here : P from ≡ (word % 2 == 1) = sym (ap P place) ∙ s 0 (omega arith) in
      let rest = length-positions (suc from) n (word / 2) (λ k u.
        let next : suc from + k ≡ from + suc k = omega arith in
        ap P next ∙ s (suc k) (omega (arith, u))) in
      rw here (ground (arith, rest))

-- A list of words has as many positions as its words have bits.
count_words_lem :
    (P : ℕ → Bool) (from : ℕ) (words : List ℕ)
    → ((windex k : ℕ) → k < 64 → P (from + (64 * windex + k)) ≡ bit_of words windex k)
    → length (positions P from (64 * length words)) ≡ count_words words
unfolding positions count_words
count_words_lem P from [] h = refl
count_words_lem P from (word ∷ words) h =
    let count : 64 * suc (length words) ≡ 64 + 64 * length words = omega arith in
    let first = length-positions P from 64 word (λ k u.
      let place : 64 * 0 + k ≡ k = omega arith in ap (λ n. P (from + n)) (sym place) ∙ h 0 k u) in
    let rest = count_words_lem P (from + 64) words (λ windex k u.
      let place : from + 64 + (64 * windex + k) ≡ from + (64 * suc windex + k) = omega arith in
      ap P place ∙ h (suc windex) k u) in
    ap (λ n. length (positions P from n)) count
    ∙ ap length (positions-join P from 64 (64 * length words))
    ∙ length-append (positions P from 64) (positions P (from + 64) (64 * length words))
    ∙ omega (arith, first, rest)

unfoldable pub set_positions : List ℕ → List ℕ
set_positions words = positions (bit_in words) 0 (64 * length words)

pub length-set_positions : (words : List ℕ) → length (set_positions words) ≡ count_words words
unfolding set_positions
length-set_positions words = count_words_lem (bit_in words) 0 words (λ windex k u.
    let index : (0 + (64 * windex + k)) / 64 ≡ windex = omega (arith, u) in
    let shift : (0 + (64 * windex + k)) % 64 ≡ k = omega (arith, u) in
    ap (λ i. bit_of words i ((0 + (64 * windex + k)) % 64)) index ∙ ap (bit_of words windex) shift)

-- The positions after the last one that was found.
abbrev pub start : Option ℕ → ℕ
start none = 0
start (some p) = suc p

after_start : (last : Option ℕ) (q : ℕ) → start last ≤ q → is_after last q ≡ true
after_start none q h = refl
after_start (some p) q h = lt→ltb p q h

start_after : (last : Option ℕ) (q : ℕ) → is_after last q ≡ true → start last ≤ q
start_after none q h = omega arith
start_after (some p) q h = ltb→lt p q h

abbrev pub from_next : (ℕ → Bool) → ℕ → Option ℕ → List ℕ
from_next P n none = []
from_next P n (some p) = p ∷ positions P (suc p) (n - suc p)

pub Next-positions :
    (P : ℕ → Bool) (last : Option ℕ) (n : ℕ) (o : Option ℕ)
    → start last ≤ n
    → Next P last 0 n o
    → positions P (start last) (n - start last) ≡ from_next P n o
Next-positions P last n none u h =
    positions-clear P (start last) (n - start last)
      (λ q low high. h q (omega arith) (omega (arith, high, u)) (after_start last q low))
Next-positions P last n (some p) u h =
    let low = start_after last p h.after in
    let place : start last + (p - start last) ≡ p = omega (arith, low) in
    let count : n - start last ≡ p - start last + suc (n - suc p) = omega (arith, low, h.below) in
    ap (positions P (start last)) count
    ∙ positions-first P (start last) (p - start last) (n - suc p)
        (λ q from to. h.first q (omega arith) (omega (arith, to, low)) (after_start last q from))
        (ap P place ∙ h.has)
    ∙ ap (λ q. q ∷ positions P (suc q) (n - suc p)) place

find_from-Returns :
    (v : BitVector) (windex left : ℕ)
    → (0 < left → windex + left ≤ length v.words)
    → (o : Option ℕ) × (find_from v windex left ≡ ok o)
unfolding find_from
find_from-Returns v windex zero h = (none, refl)
find_from-Returns v windex (suc left) h =
    let inside = h (omega arith) in
    let (word, e) = vector_at-Returns v.words windex (omega (arith, inside)) in
    rw e (
      go (find_in_word v.last_pos word (64 * windex)) (find_from v (suc windex) left)
        (find_from-Returns v (suc windex) left (λ _. omega (arith, inside))))
  where
    go :
        (found : Option ℕ) (rest : Result (Option ℕ))
        → ((o : Option ℕ) × (rest ≡ ok o))
        → (o : Option ℕ) × (elim found [ some position ↦ ok (some position) | none ↦ rest ] ≡ ok o)
    go none rest k = k
    go (some p) rest k = (some p, refl)

start-Next :
    (P : ℕ → Bool) (last : Option ℕ) (n : ℕ) (o : Option ℕ) → Next P last 0 n o → start o ≤ n
start-Next P last n none h = omega arith
start-Next P last n (some p) h = omega (arith, h.below)

-- If the words of a bit vector cover its capacity, find succeeds and returns the first position
-- after the last one whose bit is set, or none if every bit after the last one is clear, and
-- remembers what it returned.
pub find-Next :
    (v : BitVector)
    → length v.words ≡ (v.capacity + 63) / 64
    → (o : Option ℕ) × (find v ≡ ok (record v { last_pos = o }, o))
      × Next (bit_in v.words) v.last_pos 0 (64 * length v.words) o
find-Next v covers =
    let windex = word_of v.last_pos in
    let (o, e) =
      find_from-Returns v windex ((v.capacity + 63) / 64 - windex)
        (λ some_left. omega (arith, covers, some_left)) in
    let returned : find v ≡ ok (record v { last_pos = o }, o) = unfold find in rw e refl in
    let next =
      subst (λ n. Next (bit_in v.words) v.last_pos 0 (64 * n) o) (sym covers)
        (Yields-ok _ (find v) (find_lem v) returned).1 in
    (o, returned, next)

-- `find` takes the first of the positions that are left.
pub find-positions :
    (v : BitVector)
    → IsCounted v
    → start v.last_pos ≤ 64 * length v.words
    → (o : Option ℕ) × (find v ≡ ok (record v { last_pos = o }, o))
      × (start o ≤ 64 * length v.words)
      × (positions (bit_in v.words) (start v.last_pos) (64 * length v.words - start v.last_pos)
          ≡ from_next (bit_in v.words) (64 * length v.words) o)
find-positions v h u =
    let (o, returned, next) = find-Next v h.covers in
    (
      o,
      returned,
      start-Next (bit_in v.words) v.last_pos (64 * length v.words) o next,
      Next-positions (bit_in v.words) v.last_pos (64 * length v.words) o u next,
    )
