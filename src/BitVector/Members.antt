-- ===== src/BitVector/Members.antt =====
-- `BitVector::set` and `clear` change the bit of their position and no other.
use graphite_atac.Prelude.{
  ℕ, zero, suc, ◌/◌, ◌%◌, ◌≡◌, ◌==◌, refl, sym, ap, ◌∙◌, Bool, true, false, inl, inr, Bool-cases,
  if◌then◌else◌, List, [], ◌∷◌, set, ltb, ok, vector_at, Yields, Yields-after, Yields-assert,
  vector_at-Ends, ==_iff, arith,
}
use graphite_atac.BitVector.{BitVector, at_bit, set_bit, erase_bit}
use graphite_atac.BitVector.Bits.{test_bit, or_bit, clear_bit, test_bit-or_bit, test_bit-clear_bit}
use graphite_atac.BitVector.Search.{bit_of, bit_in}

bit_of-set :
    (words : List ℕ) (windex x : ℕ) {word : ℕ}
    → vector_at words windex ≡ ok word
    → (i k : ℕ)
    → bit_of (set words windex x) i k ≡ (if windex == i then test_bit x k else bit_of words i k)
bit_of-set [] windex x h i k = cc
bit_of-set (y ∷ words) zero x h zero k = refl
bit_of-set (y ∷ words) zero x h (suc i) k = ground arith
bit_of-set (y ∷ words) (suc windex) x h zero k = ground arith
bit_of-set (y ∷ words) (suc windex) x h (suc i) k =
    let same : (suc windex == suc i) ≡ (windex == i) = ground arith in
    rw same (bit_of-set words windex x h i k)

bit_of-vector_at :
    (words : List ℕ) (windex k : ℕ) {word : ℕ}
    → vector_at words windex ≡ ok word
    → bit_of words windex k ≡ test_bit word k
bit_of-vector_at [] windex k h = cc
bit_of-vector_at (y ∷ words) zero k {word} h =
    let same : y ≡ word = cc in ap (λ w. test_bit w k) same
bit_of-vector_at (y ∷ words) (suc windex) k h = bit_of-vector_at words windex k h

-- A word that has the bit as `b`, and the others as before.
bit_in-set :
    (words : List ℕ) (bit x : ℕ) (b : Bool) {word : ℕ}
    → vector_at words (bit / 64) ≡ ok word
    → ((j : ℕ) → test_bit x j ≡ (if bit % 64 == j then b else test_bit word j))
    → (q : ℕ) → bit_in (set words (bit / 64) x) q ≡ (if bit == q then b else bit_in words q)
bit_in-set words bit x b {word} h t q =
    bit_of-set words (bit / 64) x h (q / 64) (q % 64) ∙ elim (Bool-cases (bit / 64 == q / 64)) [
      | inl same_word ↦
          let index : bit / 64 ≡ q / 64 = (==_iff (bit / 64) (q / 64)).0 same_word in
          let old : bit_of words (q / 64) (q % 64) ≡ test_bit word (q % 64) =
            ap (λ i. bit_of words i (q % 64)) (sym index)
            ∙ bit_of-vector_at words (bit / 64) (q % 64) h in
          let same_bit : (bit % 64 == q % 64) ≡ (bit == q) = ground (arith, index) in
          rw (same_word, t (q % 64), old) (rw same_bit refl)
      | inr other ↦
          let apart : (bit == q) ≡ false = ground (arith, other) in rw other (rw apart refl)
    ]

pub set_bit-bit_in :
    (v : BitVector) (bit : ℕ)
    → at_bit v bit ≡ ok false
    → Yields
        (λ v'. (q : ℕ) → bit_in v'.words q ≡ (if bit == q then true else bit_in v.words q))
        (set_bit v bit)
unfolding set_bit
set_bit-bit_in v bit e = Yields-assert _ (ltb bit v.capacity) _ (λ _. rw e (
    Yields-after _ (vector_at v.words (bit / 64)) _ (vector_at-Ends v.words (bit / 64)) (λ word w.
      bit_in-set v.words bit (or_bit word (bit % 64)) true w (test_bit-or_bit word (bit % 64)))))

pub erase_bit-bit_in :
    (v : BitVector) (bit : ℕ)
    → at_bit v bit ≡ ok true
    → Yields
        (λ v'. (q : ℕ) → bit_in v'.words q ≡ (if bit == q then false else bit_in v.words q))
        (erase_bit v bit)
unfolding erase_bit
erase_bit-bit_in v bit e = Yields-assert _ (ltb bit v.capacity) _ (λ _. rw e (
    Yields-after _ (vector_at v.words (bit / 64)) _ (vector_at-Ends v.words (bit / 64)) (λ word w.
      bit_in-set v.words bit (clear_bit word (bit % 64)) false w
        (test_bit-clear_bit word (bit % 64)))))
