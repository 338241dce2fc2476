-- ===== src/BitVector/Bits.antt =====
-- The bits of a word: `w & mask`, `w |= mask` and `w &= ~mask`, where the mask is `1 << s`.
use native.Mathlib.Nat.{
  pow-succ', div-one, div-div-eq-div-mul, div-add-mod, mod-lt, mul_assoc, mul-add-mod_self_left,
  mod-eq_of_lt,
}
use graphite_atac.Prelude.{
  sym, ◌^◌, ℕ, zero, suc, ◌+◌, ◌*◌, ◌/◌, ◌%◌, ◌<◌, ◌≤◌, ◌==◌, ◌≡◌, refl, ap, ◌∙◌, Bool, true, false,
  arith, if◌then◌else◌,
}

unfoldable pub test_bit : ℕ → ℕ → Bool
test_bit w zero = w % 2 == 1
test_bit w (suc s) = test_bit (w / 2) s

unfoldable pub or_bit : ℕ → ℕ → ℕ
or_bit w zero = w / 2 * 2 + 1
or_bit w (suc s) = or_bit (w / 2) s * 2 + w % 2

unfoldable pub clear_bit : ℕ → ℕ → ℕ
clear_bit w zero = w / 2 * 2
clear_bit w (suc s) = clear_bit (w / 2) s * 2 + w % 2

-- The number of the bits that are set, of the lowest `n`.
unfoldable pub count_bits : ℕ → ℕ → ℕ
count_bits zero w = 0
count_bits (suc n) w = w % 2 + count_bits n (w / 2)

half : (x r : ℕ) → r < 2 → (x * 2 + r) / 2 ≡ x
half x r h = omega arith

parity : (x r : ℕ) → r < 2 → (x * 2 + r) % 2 ≡ r
parity x r h = omega arith

pub test_bit-or_bit :
    (w s j : ℕ) → test_bit (or_bit w s) j ≡ (if s == j then true else test_bit w j)
unfolding test_bit or_bit
test_bit-or_bit w zero zero = ground arith
test_bit-or_bit w zero (suc j) = rw (half (w / 2) 1 (omega arith)) (ground arith)
test_bit-or_bit w (suc s) zero = rw (parity (or_bit (w / 2) s) (w % 2) (omega arith)) (ground arith)
test_bit-or_bit w (suc s) (suc j) =
    rw (half (or_bit (w / 2) s) (w % 2) (omega arith)) (test_bit-or_bit (w / 2) s j ∙ ground arith)

pub test_bit-clear_bit :
    (w s j : ℕ) → test_bit (clear_bit w s) j ≡ (if s == j then false else test_bit w j)
unfolding test_bit clear_bit
test_bit-clear_bit w zero zero = ground arith
test_bit-clear_bit w zero (suc j) =
    let low : w / 2 * 2 / 2 ≡ w / 2 = omega arith in rw low (ground arith)
test_bit-clear_bit w (suc s) zero =
    rw (parity (clear_bit (w / 2) s) (w % 2) (omega arith)) (ground arith)
test_bit-clear_bit w (suc s) (suc j) =
    rw (half (clear_bit (w / 2) s) (w % 2) (omega arith))
      (test_bit-clear_bit (w / 2) s j ∙ ground arith)

pub count_bits-or_bit :
    (n w s : ℕ) → s < n → test_bit w s ≡ false → count_bits n (or_bit w s) ≡ suc (count_bits n w)
unfolding test_bit or_bit count_bits
count_bits-or_bit zero w s h e = absurd (omega arith)
count_bits-or_bit (suc n) w zero h e =
    rw (half (w / 2) 1 (omega arith), parity (w / 2) 1 (omega arith)) (ground arith)
count_bits-or_bit (suc n) w (suc s) h e =
    rw
      (
        half (or_bit (w / 2) s) (w % 2) (omega arith),
        parity (or_bit (w / 2) s) (w % 2) (omega arith),
      )
      (omega (arith, count_bits-or_bit n (w / 2) s (omega arith) e))

pub count_bits-clear_bit :
    (n w s : ℕ) → s < n → test_bit w s ≡ true → suc (count_bits n (clear_bit w s)) ≡ count_bits n w
unfolding test_bit clear_bit count_bits
count_bits-clear_bit zero w s h e = absurd (omega arith)
count_bits-clear_bit (suc n) w zero h e =
    let low : w / 2 * 2 / 2 ≡ w / 2 = omega arith in rw low (ground arith)
count_bits-clear_bit (suc n) w (suc s) h e =
    rw
      (
        half (clear_bit (w / 2) s) (w % 2) (omega arith),
        parity (clear_bit (w / 2) s) (w % 2) (omega arith),
      )
      (omega (arith, count_bits-clear_bit n (w / 2) s (omega arith) e))

pub count_bits_bound : (n w : ℕ) → count_bits n w ≤ n
unfolding count_bits
count_bits_bound zero w = omega arith
count_bits_bound (suc n) w = omega (arith, count_bits_bound n (w / 2))

pub test_bit-zero : (k : ℕ) → test_bit 0 k ≡ false
unfolding test_bit
test_bit-zero zero = refl
test_bit-zero (suc k) = test_bit-zero k

pub test_bit-above : (w n : ℕ) → test_bit w (suc n) ≡ test_bit (w / 2) n
unfolding test_bit
test_bit-above w n = refl

pub test_bit-high : (bits w k : ℕ) → test_bit (w / 2 ^ bits) k ≡ test_bit w (bits + k)
test_bit-high zero w k =
    let same : 0 + k ≡ k = omega arith in
    ap (λ x. test_bit x k) (div-one w) ∙ sym (ap (test_bit w) same)
test_bit-high (suc bits) w k =
    let halved : w / 2 ^ suc bits ≡ w / 2 / 2 ^ bits =
      ap (λ m. w / m) (pow-succ' 2 bits) ∙ sym (div-div-eq-div-mul w 2 (2 ^ bits)) in
    let shift : suc bits + k ≡ suc (bits + k) = omega arith in
    ap (λ x. test_bit x k) halved
    ∙ test_bit-high bits (w / 2) k
    ∙ sym (ap (test_bit w) shift ∙ test_bit-above w (bits + k))

-- The remainder by a power of two has the bits under it.
half_of_rest : (w m : ℕ) → 0 < m → (w % (2 * m)) / 2 ≡ (w / 2) % m
half_of_rest w m h =
    let parts = div-add-mod w (2 * m) in
    let twice = mul_assoc 2 m (w / (2 * m)) in
    let small = mod-lt w {m = 2 * m} (omega (arith, h)) in
    let half_parts : w / 2 ≡ m * (w / (2 * m)) + (w % (2 * m)) / 2 = omega (arith, parts, twice) in
    sym (
      ap (λ x. x % m) half_parts
      ∙ mul-add-mod_self_left m (w / (2 * m)) ((w % (2 * m)) / 2)
      ∙ mod-eq_of_lt (omega (arith, small)))

parity_of_rest : (w m : ℕ) → (w % (2 * m)) % 2 ≡ w % 2
parity_of_rest w m = omega (arith, div-add-mod w (2 * m), mul_assoc 2 m (w / (2 * m)))

pow_pos : (n : ℕ) → 0 < 2 ^ n
pow_pos zero = omega arith
pow_pos (suc n) = omega (arith, pow-succ' 2 n, pow_pos n)

pub test_bit-low : (bits w k : ℕ) → k < bits → test_bit (w % 2 ^ bits) k ≡ test_bit w k
unfolding test_bit
test_bit-low zero w k h = absurd (omega arith)
test_bit-low (suc bits) w zero h = rw (pow-succ' 2 bits, parity_of_rest w (2 ^ bits)) refl
test_bit-low (suc bits) w (suc k) h =
    rw (pow-succ' 2 bits, half_of_rest w (2 ^ bits) (pow_pos bits))
      (test_bit-low bits (w / 2) k (omega arith))
