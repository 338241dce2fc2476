-- ===== src/DirectoryCache/SetIndex.antt =====
-- The set of an address (computeSetIndex of directory_cache.cc).
use mathlib.Core.Path.{subst}
use native.Mathlib.Nat.{mod-lt}
use Prim.Native.Nat.{bit_xor, bit_xor-bitwise, digits, differ}
use graphite_atac.Prelude.{
  ℕ, zero, suc, ◌+◌, ◌-◌, ◌*◌, ◌/◌, ◌%◌, ◌^◌, ◌≤◌, ◌<◌, ◌≡◌, refl, sym, inl, inr, true, leb, leb→le,
  Bool-cases, ok, fail, out_of_fuel, arith, length,
}
use graphite_atac.DirectoryCache.{
  DirectoryCache, get_bits, fold_groups, compute_set_index, entry_num,
}

differ-le_one : (a b : ℕ) → a ≤ 1 → b ≤ 1 → differ a b ≤ 1
differ-le_one zero b p q = q
differ-le_one (suc a) zero p q = p
differ-le_one (suc zero) (suc zero) p q = omega arith
differ-le_one (suc zero) (suc (suc b)) p q = absurd (omega arith)
differ-le_one (suc (suc a)) (suc b) p q = absurd (omega arith)

digits-lt : (n k a b : ℕ) → a < 2 ^ k → b < 2 ^ k → digits (λ b. b) differ n a b < 2 ^ k
digits-lt zero k a b p q = q
digits-lt (suc n) k zero b p q = q
digits-lt (suc n) zero (suc a) b p q = absurd (omega arith)
digits-lt (suc n) (suc k) (suc a) b p q = omega (
  arith,
  digits-lt n k (suc a / 2) (b / 2) (omega arith) (omega arith),
  differ-le_one (suc a % 2) (b % 2) (omega arith) (omega arith),
)

-- An exclusive or has no more bits than its arguments.
pub bit_xor-lt : (k a b : ℕ) → a < 2 ^ k → b < 2 ^ k → bit_xor a b < 2 ^ k
bit_xor-lt k a b p q = subst (λ x. x < 2 ^ k) (sym (bit_xor-bitwise a b)) (digits-lt a k a b p q)

power-pos : (k : ℕ) → 0 < 2 ^ k
power-pos zero = omega arith
power-pos (suc k) = omega (arith, power-pos k)

get_bits-lt : (x group i : ℕ) → get_bits x (i + group) i < 2 ^ group
unfolding get_bits
get_bits-lt x group i =
    let e : (i + group) - i ≡ group = omega arith in rw e (mod-lt (x / 2 ^ i) (power-pos group))

-- The groups of the address folded into one, with rounds enough for those that are left.
fold_groups_lem :
    (fuel address group i folded : ℕ)
    → 0 < group
    → folded < 2 ^ group
    → 64 ≤ i + fuel
    → (set : ℕ) × (fold_groups (suc fuel) address group i folded ≡ ok set) × (set < 2 ^ group)
unfolding fold_groups
fold_groups_lem zero address group i folded g small enough =
    elim (Bool-cases (leb (i + group) 64)) [
      | inr last ↦ (folded % 2 ^ 32, rw (last, fold_groups) refl, omega arith)
      | inl more ↦ absurd (omega (arith, leb→le (i + group) 64 more))
    ]
fold_groups_lem (suc rest) address group i folded g small enough =
    elim (Bool-cases (leb (i + group) 64)) [
      | inr last ↦ (folded % 2 ^ 32, rw (last, fold_groups) refl, omega arith)
      | inl more ↦
          let (set, e, b) =
            fold_groups_lem rest address group (i + group)
              (bit_xor folded (get_bits address (i + group) i)) g
              (bit_xor-lt group folded _ small (get_bits-lt address group i)) (omega arith) in
          (set, rw (more, fold_groups) e, b)
    ]

module _ {E : Type 0} (c : DirectoryCache E) where
  pub compute_set_index_lem :
      (address : ℕ)
      → 0 < c.log_num_sets
      → (set : ℕ) × (compute_set_index c address ≡ ok set) × (set < 2 ^ c.log_num_sets)
  unfolding compute_set_index
  compute_set_index_lem address g =
      fold_groups_lem 65 address c.log_num_sets _ 0 g (power-pos c.log_num_sets) (omega arith)

  way_in_range :
      (s i k n : ℕ)
      → s < k
      → i < c.associativity
      → k * c.associativity ≤ n
      → s * c.associativity + i < n
  way_in_range s i k n h q m = grind arith

  -- In a directory cache with more than one set and entries for every way of a set, of which there
  -- are less than 2 ^ 32, the set index of any address is found, and each way of that set is in the
  -- vector.
  pub compute_set_index_bounds :
      (address : ℕ)
      → 0 < c.log_num_sets
      → 2 ^ c.log_num_sets * c.associativity ≤ length c.directory_entry_list
      → length c.directory_entry_list < 2 ^ 32
      → (s : ℕ) × (compute_set_index c address ≡ ok s)
        × ((i : ℕ) → i < c.associativity → entry_num c s i < length c.directory_entry_list)
  unfolding entry_num
  compute_set_index_bounds address g room small =
      let (s, e, b) = compute_set_index_lem address g in
      (s, e, λ i h. let n = way_in_range s i (2 ^ c.log_num_sets) _ b h room in omega (arith, n))

-- With one set the groups have no bit, and the loop does not end.
pub one_set_endless :
    (fuel address i folded : ℕ) → i ≤ 64 → fold_groups fuel address 0 i folded ≡ fail out_of_fuel
unfolding fold_groups
one_set_endless zero address i folded h = refl
one_set_endless (suc fuel) address i folded h =
    let e : leb (i + 0) 64 ≡ true = ground arith in
    rw (e, fold_groups) (one_set_endless fuel address (i + 0) _ (omega arith))
