-- ===== src/Prelude/Outcomes.antt =====
-- What holds of the value that code returns, if it does not abort. Fuel that runs out is no way to
-- abort.
use Prim.Native.Nat.{ℕ, zero, suc}
use mathlib.Core.Option.{Option, none, some}
use mathlib.Core.List.{List, [], ◌∷◌}
use graphite_atac.Prelude.Predicates.{All}
use graphite_atac.Prelude.Lists.{length, set, get_elem?, length-set}
use graphite_atac.Prelude.Vectors.{vector_at, vector_set}
use mathlib.Core.Path.{◌≡◌, refl, subst}
use mathlib.Core.Bool.{Bool, true, false}
use graphite_atac.Prelude.Tests.{if◌then◌else◌}
use graphite_atac.Prelude.Results.{
  Result, ok, fail, assert_failed, log_error, undefined_behaviour, out_of_fuel, ◌>>=◌, ◌>>◌, assert,
}

abbrev pub Yields {ℓ} : {A : Type ℓ} → (A → Type 0) → Result A → Type 0
Yields P (ok a) = P a
Yields P (fail out_of_fuel) = ⊥
Yields P (fail _) = Unit

module _ {ℓ κ} {A : Type ℓ} {B : Type κ} where
  pub Yields-bind :
      (P : A → Type 0) (Q : B → Type 0) (r : Result A) (f : A → Result B)
      → Yields P r
      → ((a : A) → r ≡ ok a → P a → Yields Q (f a))
      → Yields Q (r >>= f)
  Yields-bind P Q (ok a) f h k = k a refl h
  Yields-bind P Q (fail assert_failed) f h k = tt
  Yields-bind P Q (fail log_error) f h k = tt
  Yields-bind P Q (fail undefined_behaviour) f h k = tt
  Yields-bind P Q (fail out_of_fuel) f h k = h

module _ {ℓ} {B : Type ℓ} where
  pub Yields-assert :
      (Q : B → Type 0) (b : Bool) (r : Result B)
      → (b ≡ true → Yields Q r)
      → Yields Q (assert b >> r)
  Yields-assert Q true r k = k refl
  Yields-assert Q false r k = tt

  pub Yields-branch :
      (Q : B → Type 0) (b : Bool) (r s : Result B)
      → (b ≡ true → Yields Q r)
      → (b ≡ false → Yields Q s)
      → Yields Q (elim b [ true ↦ r | false ↦ s ])
  Yields-branch Q true r s h k = h refl
  Yields-branch Q false r s h k = k refl

  pub Yields-if :
      (Q : B → Type 0) (b : Bool) (r s : Result B)
      → (b ≡ true → Yields Q r)
      → (b ≡ false → Yields Q s)
      → Yields Q (if b then r else s)
  Yields-if Q true r s h k = h refl
  Yields-if Q false r s h k = k refl

  pub Yields-map :
      (P Q : B → Type 0) (r : Result B) → Yields P r → ((b : B) → P b → Q b) → Yields Q r
  Yields-map P Q (ok b) h k = k b h
  Yields-map P Q (fail assert_failed) h k = tt
  Yields-map P Q (fail log_error) h k = tt
  Yields-map P Q (fail undefined_behaviour) h k = tt
  Yields-map P Q (fail out_of_fuel) h k = h

  pub Yields-ok : (P : B → Type 0) (r : Result B) {b : B} → Yields P r → r ≡ ok b → P b
  Yields-ok P r h e = subst (Yields P) e h

  pub Yields-ends : (P : B → Type 0) (r : Result B) → Yields P r → ¬ (r ≡ fail out_of_fuel)
  Yields-ends P (ok b) h e = cc
  Yields-ends P (fail assert_failed) h e = cc
  Yields-ends P (fail log_error) h e = cc
  Yields-ends P (fail undefined_behaviour) h e = cc
  Yields-ends P (fail out_of_fuel) h e = h

module _ {ℓ} {A : Type ℓ} where
  pub Yields-vector_at :
      (P : A → Type 0) (xs : List A) (i : ℕ) → All P xs → Yields P (vector_at xs i)
  Yields-vector_at P [] i h = tt
  Yields-vector_at P (x ∷ xs) zero h = h.0
  Yields-vector_at P (x ∷ xs) (suc i) h = Yields-vector_at P xs i h.1

-- The value does not matter.
abbrev pub Ends {ℓ} : {A : Type ℓ} → Result A → Type 0
Ends r = Yields (λ _. Unit) r

module _ {ℓ} {A : Type ℓ} where
  pub vector_at-Ends : (xs : List A) (i : ℕ) → Ends (vector_at xs i)
  vector_at-Ends [] i = tt
  vector_at-Ends (x ∷ xs) zero = tt
  vector_at-Ends (x ∷ xs) (suc i) = vector_at-Ends xs i

  pub vector_set-length :
      (xs : List A) (i : ℕ) (v : A) → Yields (λ ys. length ys ≡ length xs) (vector_set xs i v)
  vector_set-length xs i v = go (get_elem? xs i)
    where
      go :
          (o : Option A)
          → Yields
              (λ ys. length ys ≡ length xs)
              (elim o [ none ↦ fail undefined_behaviour | some old ↦ ok (set xs i v) ])
      go none = tt
      go (some old) = length-set xs i v

module _ {ℓ κ} {A : Type ℓ} {B : Type κ} where
  pub Yields-after :
      (Q : B → Type 0) (r : Result A) (f : A → Result B)
      → Ends r
      → ((a : A) → r ≡ ok a → Yields Q (f a))
      → Yields Q (r >>= f)
  Yields-after Q r f h k = Yields-bind (λ _. Unit) Q r f h (λ a e _. k a e)

  pub Yields-option :
      (Q : B → Type 0) (o : Option A) (r : Result B) (f : A → Result B)
      → (o ≡ none → Yields Q r)
      → ((a : A) → o ≡ some a → Yields Q (f a))
      → Yields Q (elim o [ none ↦ r | some a ↦ f a ])
  Yields-option Q none r f h k = h refl
  Yields-option Q (some a) r f h k = k a refl
