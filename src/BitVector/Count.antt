-- ===== src/BitVector/Count.antt =====
-- The size of a bit vector is the number of its bits that are set.
use graphite_atac.Prelude.{
  ℕ, zero, suc, ◌+◌, ◌*◌, ◌/◌, ◌%◌, ◌^◌, ◌<◌, ◌≤◌, ◌≡◌, refl, sym, ◌∙◌, Bool, true, false, List, [],
  ◌∷◌, set, replicate, length, length-set, length-replicate, ltb, Result, ok, vector_at, Yields,
  Yields-after, Yields-assert, vector_at-Ends, assert, ◌>>◌, ◌>>=◌, arith,
}
use graphite_atac.BitVector.{BitVector, new_bit_vector, reset, at_bit, set_bit, erase_bit}
use graphite_atac.BitVector.Bits.{
  test_bit, or_bit, clear_bit, count_bits, count_bits-or_bit, count_bits-clear_bit,
  count_bits_bound,
}

unfoldable pub count_words : List ℕ → ℕ
count_words [] = 0
count_words (w ∷ words) = count_bits 64 w + count_words words

pub record IsCounted (v : BitVector) : Type 0 where
  pub counted : v.size ≡ count_words v.words
  pub covers : length v.words ≡ (v.capacity + 63) / 64
  pub short : 64 * length v.words < 2 ^ 32

count_words_bound : (words : List ℕ) → count_words words ≤ 64 * length words
unfolding count_words
count_words_bound [] = omega arith
count_words_bound (w ∷ words) = omega (arith, count_bits_bound 64 w, count_words_bound words)

count_words-set :
    (words : List ℕ) (i x : ℕ) {w : ℕ}
    → vector_at words i ≡ ok w
    → count_words (set words i x) + count_bits 64 w ≡ count_words words + count_bits 64 x
unfolding count_words
count_words-set [] i x h = cc
count_words-set (y ∷ words) zero x {w = w} h = let same : y ≡ w = cc in rw same (omega arith)
count_words-set (y ∷ words) (suc i) x h = omega (arith, count_words-set words i x h)

at_bit_lem :
    (v : BitVector) (bit : ℕ) {b : Bool} {word : ℕ}
    → at_bit v bit ≡ ok b
    → vector_at v.words (bit / 64) ≡ ok word
    → test_bit word (bit % 64) ≡ b
unfolding at_bit
at_bit_lem v bit {b} {word} h w = go (ltb bit v.capacity) (vector_at v.words (bit / 64)) h w
  where
    go :
        (inside : Bool) (read : Result ℕ)
        → (assert inside >> (read >>= (λ word'. ok (test_bit word' (bit % 64))))) ≡ ok b
        → read ≡ ok word
        → test_bit word (bit % 64) ≡ b
    go false read h w = cc
    go true read h w = cc

pub set_bit-count :
    (v : BitVector) (bit : ℕ)
    → IsCounted v
    → at_bit v bit ≡ ok false
    → Yields (λ v'. IsCounted v' × (v'.size ≡ suc v.size)) (set_bit v bit)
unfolding set_bit
set_bit-count v bit h e = Yields-assert _ (ltb bit v.capacity) _ (λ _. rw e (
    Yields-after _ (vector_at v.words (bit / 64)) _ (vector_at-Ends v.words (bit / 64)) (λ word w.
      let i = bit / 64 in
      let word' = or_bit word (bit % 64) in
      let words_count = count_words-set v.words i word' w in
      let bits_count = count_bits-or_bit 64 word (bit % 64) (omega arith) (at_bit_lem v bit e w) in
      let still_short = length-set v.words i word' in
      let bound = count_words_bound (set v.words i word') in
      (
        record {
          counted = omega (arith, words_count, bits_count, still_short, bound, h.counted, h.short);
          covers = still_short ∙ h.covers;
          short = omega (arith, still_short, h.short);
        },
        omega (arith, words_count, bits_count, still_short, bound, h.counted, h.short),
      ))))

pub erase_bit-count :
    (v : BitVector) (bit : ℕ)
    → IsCounted v
    → at_bit v bit ≡ ok true
    → Yields (λ v'. IsCounted v' × (suc v'.size ≡ v.size)) (erase_bit v bit)
unfolding erase_bit
erase_bit-count v bit h e = Yields-assert _ (ltb bit v.capacity) _ (λ _. rw e (
    Yields-after _ (vector_at v.words (bit / 64)) _ (vector_at-Ends v.words (bit / 64)) (λ word w.
      let i = bit / 64 in
      let word' = clear_bit word (bit % 64) in
      let words_count = count_words-set v.words i word' w in
      let bits_count =
        count_bits-clear_bit 64 word (bit % 64) (omega arith) (at_bit_lem v bit e w) in
      let still_short = length-set v.words i word' in
      let bound = count_words_bound (set v.words i word') in
      (
        record {
          counted = omega (arith, words_count, bits_count, still_short, bound, h.counted, h.short);
          covers = still_short ∙ h.covers;
          short = omega (arith, still_short, h.short);
        },
        omega (arith, words_count, bits_count, still_short, bound, h.counted, h.short),
      ))))

zero_count : (n : ℕ) → count_bits n 0 ≡ 0
unfolding count_bits
zero_count zero = refl
zero_count (suc n) = omega (arith, zero_count n)

replicate_count : (n : ℕ) → count_words (replicate n 0) ≡ 0
unfolding count_words
replicate_count zero = refl
replicate_count (suc n) = omega (arith, replicate_count n, zero_count 64)

pub new_bit_vector-IsCounted : (bits : ℕ) → bits < 2 ^ 31 → IsCounted (new_bit_vector bits)
unfolding new_bit_vector
new_bit_vector-IsCounted bits h = record {
  counted = sym (replicate_count ((bits + 63) / 64));
  covers = length-replicate {A = ℕ} ((bits + 63) / 64) 0;
  short = omega (arith, length-replicate {A = ℕ} ((bits + 63) / 64) 0);
}

pub reset-IsCounted : (v : BitVector) → v.capacity < 2 ^ 31 → IsCounted (reset v)
unfolding reset new_bit_vector
reset-IsCounted v h =
    let fresh = new_bit_vector-IsCounted v.capacity h in
    record { counted = fresh.counted; covers = fresh.covers; short = fresh.short }
