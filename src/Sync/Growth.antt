-- ===== src/Sync/Growth.antt =====
-- `std::vector::push_back` on the vectors of `SyncServer` (common/system/sync_server.cc): a full
-- vector moves to a larger block, and the elements of the old one are destroyed. As in libstdc++,
-- the new block has room for twice as many.
use graphite_atac.Prelude.{
  ℕ, ◌+◌, ◌==◌, ◌≡◌, refl, ◌⊎◌, inl, inr, max, Bool, true, false, ◌&&◌, List, [], ◌∷◌, ◌++◌, length,
  All, Result, ok, fail, assert_failed, assert, ◌>>◌, if◌then◌else◌, Bool-cases, ==_iff,
}

unfoldable pub all_of {ℓ} : {A : Type ℓ} → (A → Bool) → List A → Bool
all_of test [] = true
all_of test (x ∷ xs) = test x && all_of test xs

abbrev pub is_empty {ℓ} : {A : Type ℓ} → List A → Bool
is_empty [] = true
is_empty (x ∷ xs) = false

abbrev pub grown_capacity : ℕ → ℕ
grown_capacity size = size + max size 1

-- The vector and its capacity, from the test that an element's destructor asserts.
unfoldable pub push_back {ℓ} : {A : Type ℓ} → (A → Bool) → List A → ℕ → A → Result (List A × ℕ)
push_back may_destroy v capacity x =
    if length v == capacity
    then (assert (all_of may_destroy v) >> ok (v ++ x ∷ [], grown_capacity (length v)))
    else ok (v ++ x ∷ [], capacity)

-- Nobody waits at an element of a vector that is full.
abbrev pub Growable {ℓ} : {A B : Type ℓ} → (A → List B) → List A → ℕ → Type ℓ
Growable waiting v capacity = length v ≡ capacity → All (λ a. waiting a ≡ []) v

module _ {ℓ} {A B : Type ℓ} (waiting : A → List B) where
  all_of-empty :
      (v : List A) → all_of (λ a. is_empty (waiting a)) v ≡ true → All (λ a. waiting a ≡ []) v
  unfolding all_of
  all_of-empty [] h = tt
  all_of-empty (a ∷ v) h = go (waiting a) refl h (all_of-empty v)
    where
      go :
          (l : List B)
          → waiting a ≡ l
          → (is_empty l && all_of (λ b. is_empty (waiting b)) v) ≡ true
          → (all_of (λ b. is_empty (waiting b)) v ≡ true → All (λ b. waiting b ≡ []) v)
          → All (λ b. waiting b ≡ []) (a ∷ v)
      go [] e h k = (e, k h)
      go (b ∷ l) e h k = cc

  empty-all_of :
      (v : List A) → All (λ a. waiting a ≡ []) v → all_of (λ a. is_empty (waiting a)) v ≡ true
  unfolding all_of
  empty-all_of [] h = refl
  empty-all_of (a ∷ v) h = rw h.0 (empty-all_of v h.1)

  -- It succeeds exactly if nobody waits when the vector is full.
  pub push_back_lem :
      (v : List A) (capacity : ℕ) (x : A)
      → Growable waiting v capacity
          × ((capacity' : ℕ) × (push_back (λ a. is_empty (waiting a)) v capacity x
                ≡ ok (v ++ x ∷ [], capacity')))
        ⊎ (¬ Growable waiting v capacity)
          × (push_back (λ a. is_empty (waiting a)) v capacity x ≡ fail assert_failed)
  unfolding push_back
  push_back_lem v capacity x = elim (Bool-cases (length v == capacity)) [
    | inr roomy ↦ inl (
      (λ full. let yes = (==_iff (length v) capacity).1 full in absurd cc),
      (capacity, rw roomy refl),
    )
    | inl full ↦ elim (Bool-cases (all_of (λ a. is_empty (waiting a)) v)) [
      | inl idle ↦
          inl ((λ _. all_of-empty v idle), (grown_capacity (length v), rw (full, idle) refl))
      | inr busy ↦ inr (
        (λ h. let idle = empty-all_of v (h ((==_iff (length v) capacity).0 full)) in cc),
        rw (full, busy) refl,
      )
    ]
  ]
