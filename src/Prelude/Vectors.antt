-- ===== src/Prelude/Vectors.antt =====
-- Reads and writes of a vector, which C++ does not check.
use Prim.Native.Nat.{ℕ, zero, suc, ◌<◌}
use native.Mathlib.Omega.{arith}
use mathlib.Core.Path.{◌≡◌, refl, ap}
use mathlib.Core.List.{List, [], ◌∷◌, ◌++◌}
use mathlib.Core.Option.{none, some}
use graphite_atac.Prelude.Lists.{get_elem?, set, length}
use graphite_atac.Prelude.Results.{Result, ok, fail, undefined_behaviour}

abbrev pub vector_at {ℓ} : {A : Type ℓ} → List A → ℕ → Result A
vector_at xs i = elim (get_elem? xs i) [ none ↦ fail undefined_behaviour | some x ↦ ok x ]

abbrev pub vector_set {ℓ} : {A : Type ℓ} → List A → ℕ → A → Result (List A)
vector_set xs i v = elim (get_elem? xs i) [
  | none ↦ fail undefined_behaviour
  | some old ↦ ok (set xs i v)
]

module _ {ℓ} {A : Type ℓ} where
  -- A place that can be read can be written, and is then read as written.
  pub vector_at-set_self :
      (xs : List A) (i : ℕ) (v : A) {a : A}
      → vector_at xs i ≡ ok a
      → vector_at (set xs i v) i ≡ ok v
  vector_at-set_self [] i v h = cc
  vector_at-set_self (x ∷ xs) zero v h = refl
  vector_at-set_self (x ∷ xs) (suc i) v h = vector_at-set_self xs i v h

  pub vector_at-Returns : (xs : List A) (i : ℕ) → i < length xs → (a : A) × (vector_at xs i ≡ ok a)
  vector_at-Returns [] i h = absurd (omega arith)
  vector_at-Returns (x ∷ xs) zero h = (x, refl)
  vector_at-Returns (x ∷ xs) (suc i) h = vector_at-Returns xs i (omega (arith, h))

  get_elem?-append :
      (done : List A) (old : A) (left : List A)
      → get_elem? (done ++ old ∷ left) (length done) ≡ some old
  get_elem?-append [] old left = refl
  get_elem?-append (x ∷ done) old left = get_elem?-append done old left

  set-append :
      (done : List A) (old : A) (left : List A) (v : A)
      → set (done ++ old ∷ left) (length done) v ≡ done ++ v ∷ left
  set-append [] old left v = refl
  set-append (x ∷ done) old left v = ap (λ l. x ∷ l) (set-append done old left v)

  -- The place after the first ones.
  pub vector_set-append :
      (done : List A) (old : A) (left : List A) (v : A)
      → vector_set (done ++ old ∷ left) (length done) v ≡ ok (done ++ v ∷ left)
  vector_set-append done old left v =
      rw (vector_set, get_elem?-append done old left) (ap ok (set-append done old left v))
