-- ===== src/BitVector/Words.antt =====
-- The search of `BitVector::find` in one word, by its halves down to the bytes.
use mathlib.Core.Path.{subst}
use graphite_atac.Prelude.{
  ℕ, zero, suc, ◌+◌, ◌-◌, ◌/◌, ◌%◌, ◌^◌, ◌<◌, ◌==◌, ◌≡◌, refl, sym, ap, ◌∙◌, Bool, Option, none,
  some, inl, inr, Bool-cases, ==_iff, arith,
}
use graphite_atac.BitVector.{is_after, find_in_byte, in_half, in_halves, find_in_word}
use graphite_atac.BitVector.Bits.{test_bit, test_bit-zero, test_bit-low, test_bit-high}
use graphite_atac.BitVector.Next.{Next, Next-after, Next-wider, Next-step}

-- The bits of the word stand from `base` on.
abbrev pub Spelt : ℕ → (ℕ → Bool) → ℕ → ℕ → Type 0
Spelt bits P word base = (k : ℕ) → k < bits → P (base + k) ≡ test_bit word k

abbrev pub Searches : Option ℕ → ℕ → (ℕ → ℕ → Option ℕ) → Type 0
Searches last bits search =
    (P : ℕ → Bool) (word base : ℕ)
    → Spelt bits P word base
    → Next P last base (base + bits) (search word base)

find_in_byte-Next :
    (last : Option ℕ) (P : ℕ → Bool) (byte base l left : ℕ)
    → Spelt (l + left) P byte base
    → Next P last (base + l) (base + (l + left)) (find_in_byte last byte base l left)
unfolding find_in_byte
find_in_byte-Next last P byte base l zero s = λ q low high after. absurd (omega (arith, low, high))
find_in_byte-Next last P byte base l (suc left) s =
    let onward = find_in_byte last byte base (suc l) left in
    let moved : suc l + left ≡ l + suc left = omega arith in
    let next : base + suc l ≡ suc (base + l) = omega arith in
    let rest =
      find_in_byte-Next last P byte base (suc l) left (λ k h. s k (omega (arith, h, moved))) in
    Next-step P last (base + l) (base + (l + suc left)) onward (test_bit byte l)
      (is_after last (base + l)) (s l (omega arith)) refl (omega arith)
      (subst (λ n. Next P last n (base + (l + suc left)) onward) next
        (subst (λ n. Next P last (base + suc l) (base + n) onward) moved rest))

find_in_byte-Searches :
    (last : Option ℕ) → Searches last 8 (λ byte base. find_in_byte last byte base 0 8)
find_in_byte-Searches last P byte base s =
    let start : base + 0 ≡ base = omega arith in
    subst (λ n. Next P last n (base + 8) (find_in_byte last byte base 0 8)) start
      (find_in_byte-Next last P byte base 0 8 s)

module _ (last : Option ℕ) (bits : ℕ) (search : ℕ → ℕ → Option ℕ) where
  in_half-Searches : Searches last bits search → Searches last bits (in_half search)
  unfolding in_half
  in_half-Searches h P word base s = elim (Bool-cases (word == 0)) [
    | inl zero_word ↦ rw zero_word (λ q low high after.
        let place : base + (q - base) ≡ q = omega (arith, low) in
        let clear : word ≡ 0 = (==_iff word 0).0 zero_word in
        sym (ap P place)
        ∙ s (q - base) (omega (arith, low, high))
        ∙ ap (λ w. test_bit w (q - base)) clear
        ∙ test_bit-zero (q - base))
    | inr other ↦ rw other (h P word base s)
  ]

  in_halves-Searches :
      Searches last bits search → Searches last (bits + bits) (in_halves bits search)
  unfolding in_halves
  in_halves-Searches h P word base s =
      let whole : base + bits + bits ≡ base + (bits + bits) = omega arith in
      let low =
        in_half-Searches h P (word % 2 ^ bits) base
          (λ k u. s k (omega (arith, u)) ∙ sym (test_bit-low bits word k u)) in
      let high = in_half-Searches h P (word / 2 ^ bits) (base + bits) (λ k u.
        let place : base + bits + k ≡ base + (bits + k) = omega arith in
        ap P place ∙ s (bits + k) (omega (arith, u)) ∙ sym (test_bit-high bits word k)) in
      go (in_half search (word % 2 ^ bits) base) (in_half search (word / 2 ^ bits) (base + bits))
        low
        (subst (λ n. Next P last (base + bits) n (in_half search (word / 2 ^ bits) (base + bits)))
          whole high)
    where
      go :
          (first second : Option ℕ)
          → Next P last base (base + bits) first
          → Next P last (base + bits) (base + (bits + bits)) second
          → Next P last base
              (base + (bits + bits))
              (elim first [ some position ↦ some position | none ↦ second ])
      go none second low high =
          Next-after P last base (base + bits) (base + (bits + bits)) second (omega arith) low high
      go (some p) second low high =
          Next-wider P last base (base + bits) (base + (bits + bits)) p (omega arith) low

pub find_in_word-Searches : (last : Option ℕ) → Searches last 64 (find_in_word last)
unfolding find_in_word
find_in_word-Searches last =
    let byte : ℕ → ℕ → Option ℕ = λ b base. find_in_byte last b base 0 8 in
    in_half-Searches last 64 _ (
      in_halves-Searches last 32 _ (
        in_halves-Searches last 16 _ (in_halves-Searches last 8 byte (find_in_byte-Searches last))))
