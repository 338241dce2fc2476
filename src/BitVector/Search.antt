-- ===== src/BitVector/Search.antt =====
-- `BitVector::find` over the words finds the next bit that is set.
use mathlib.Core.Path.{subst}
use graphite_atac.Prelude.{
  ℕ, zero, suc, ◌+◌, ◌-◌, ◌*◌, ◌/◌, ◌%◌, ◌<◌, ◌≤◌, ltb, ◌≡◌, refl, ap, ◌∙◌, Bool, false, Option,
  none, some, List, get_elem?, Result, ok, fail, undefined_behaviour, Yields-map, vector_at, Yields,
  inl, inr, Bool-cases, ltb→lt, Yields-after, Yields-bind, vector_at-Ends, arith,
}
use graphite_atac.BitVector.{BitVector, word_of, find_in_word, find_from, find}
use graphite_atac.BitVector.Bits.{test_bit}
use graphite_atac.BitVector.Next.{Clear, Next, not_below, Clear-join, Next-after, Next-wider}
use graphite_atac.BitVector.Words.{find_in_word-Searches}

-- The bit at a position, where one out of the words is clear.
abbrev pub bit_of : List ℕ → ℕ → ℕ → Bool
bit_of words windex k = elim (get_elem? words windex) [ none ↦ false | some w ↦ test_bit w k ]

abbrev pub bit_in : List ℕ → ℕ → Bool
bit_in words q = bit_of words (q / 64) (q % 64)

pub bit_in_lem :
    (words : List ℕ) (windex k : ℕ) {word : ℕ}
    → vector_at words windex ≡ ok word
    → k < 64
    → bit_in words (64 * windex + k) ≡ test_bit word k
bit_in_lem words windex k {word} h u =
    let index : (64 * windex + k) / 64 ≡ windex = omega (arith, u) in
    let shift : (64 * windex + k) % 64 ≡ k = omega (arith, u) in
    ap (λ i. bit_of words i ((64 * windex + k) % 64)) index
    ∙ ap (bit_of words windex) shift
    ∙ go (get_elem? words windex) h
  where
    go :
        (o : Option ℕ)
        → elim o [ none ↦ fail undefined_behaviour | some w ↦ ok w ] ≡ ok word
        → elim o [ none ↦ false | some w ↦ test_bit w k ] ≡ test_bit word k
    go none e = cc
    go (some w) e = cc

find_from-Next :
    (v : BitVector) (windex left : ℕ)
    → Yields
        (Next (bit_in v.words) v.last_pos (64 * windex) (64 * (windex + left)))
        (find_from v windex left)
unfolding find_from
find_from-Next v windex zero = λ q low high after. absurd (omega (arith, low, high))
find_from-Next v windex (suc left) =
    let P = bit_in v.words in
    let next : 64 * suc windex ≡ 64 * windex + 64 = omega arith in
    let end : 64 * (suc windex + left) ≡ 64 * (windex + suc left) = omega arith in
    Yields-after _ (vector_at v.words windex) _ (vector_at-Ends v.words windex) (λ word e.
      go word (find_in_word v.last_pos word (64 * windex))
        (find_in_word-Searches v.last_pos P word (64 * windex)
          (λ k u. bit_in_lem v.words windex k e u))
        (find_from v (suc windex) left)
        (Yields-map _ _ (find_from v (suc windex) left) (find_from-Next v (suc windex) left) (λ o h.
          subst (λ n. Next P v.last_pos n (64 * (windex + suc left)) o) next
            (subst (λ n. Next P v.last_pos (64 * suc windex) n o) end h))))
  where
    go :
        (word : ℕ) (o : Option ℕ)
        → Next (bit_in v.words) v.last_pos (64 * windex) (64 * windex + 64) o
        → (rest : Result (Option ℕ))
        → Yields
            (Next (bit_in v.words) v.last_pos (64 * windex + 64) (64 * (windex + suc left)))
            rest
        → Yields
            (Next (bit_in v.words) v.last_pos (64 * windex) (64 * (windex + suc left)))
            (elim o [ some position ↦ ok (some position) | none ↦ rest ])
    go word (some p) h rest k =
        Next-wider (bit_in v.words) v.last_pos (64 * windex) (64 * windex + 64)
          (64 * (windex + suc left)) p (omega arith) h
    go word none h rest k = Yields-map _ _ rest k (λ o k'.
        Next-after (bit_in v.words) v.last_pos (64 * windex) (64 * windex + 64)
          (64 * (windex + suc left)) o (omega arith) h k')

before_last : (P : ℕ → Bool) (last : Option ℕ) (b : ℕ) → b ≤ 64 * word_of last → Clear P last 0 b
before_last P none b h q low high after = absurd (omega (arith, high, h))
before_last P (some p) b h q low high after = absurd (omega (arith, high, h, ltb→lt p q after))

-- The words from that of the last position on, or none of them if it is past the end.
to_the_end :
    (P : ℕ → Bool) (last : Option ℕ) (count : ℕ) (o : Option ℕ)
    → Next P last (64 * word_of last) (64 * (word_of last + (count - word_of last))) o
    → Next P last 0 (64 * count) o
to_the_end P last count none h = elim (Bool-cases (ltb (word_of last) count)) [
  | inl inside ↦
      let within = ltb→lt (word_of last) count inside in
      Clear-join P last 0 (64 * word_of last) (64 * count)
        (before_last P last (64 * word_of last) (omega arith))
        (λ q low high. h q low (omega (arith, high, within)))
  | inr outside ↦
      before_last P last (64 * count) (omega (arith, not_below (word_of last) count outside))
]
to_the_end P last count (some p) h = record {
  above = omega arith;
  below = omega (arith, h.above, h.below);
  has = h.has;
  after = h.after;
  first =
      Clear-join P last 0 (64 * word_of last) p
        (before_last P last (64 * word_of last) (omega arith)) h.first;
}

pub find_lem :
    (v : BitVector)
    → Yields
        (λ r.
          (r.0 ≡ record v { last_pos = r.1 })
          × Next (bit_in v.words) v.last_pos 0 (64 * ((v.capacity + 63) / 64)) r.1)
        (find v)
unfolding find
find_lem v =
    let windex = word_of v.last_pos in
    let count = (v.capacity + 63) / 64 in
    Yields-bind _ _ (find_from v windex (count - windex)) _
      (find_from-Next v windex (count - windex))
      (λ position _ h. (refl, to_the_end (bit_in v.words) v.last_pos count position h))
