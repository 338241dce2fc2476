-- ===== src/BitVector/Next.antt =====
-- The next position after the last one that has a property: what `BitVector::find` looks for.
use mathlib.Core.Path.{subst}
use graphite_atac.Prelude.{
  ℕ, suc, ◌<◌, ◌≤◌, ltb, ◌≡◌, Bool, true, false, Option, none, some, inl, inr, Bool-cases, ltb→lt,
  arith,
}
use graphite_atac.BitVector.{is_after}

-- The first position from `a` on, under `b`, that is after the last one and has `P`.
abbrev pub Clear : (ℕ → Bool) → Option ℕ → ℕ → ℕ → Type 0
Clear P last a b = (q : ℕ) → a ≤ q → q < b → is_after last q ≡ true → P q ≡ false

pub record IsNext (P : ℕ → Bool) (last : Option ℕ) (a b p : ℕ) : Type 0 where
  pub above : a ≤ p
  pub below : p < b
  pub has : P p ≡ true
  pub after : is_after last p ≡ true
  pub first : Clear P last a p

abbrev pub Next : (ℕ → Bool) → Option ℕ → ℕ → ℕ → Option ℕ → Type 0
Next P last a b none = Clear P last a b
Next P last a b (some p) = IsNext P last a b p

pub not_below : (a b : ℕ) → ltb a b ≡ false → b ≤ a
not_below a b h = ground arith

module _ (P : ℕ → Bool) (last : Option ℕ) where
  pub Clear-join : (a b c : ℕ) → Clear P last a b → Clear P last b c → Clear P last a c
  Clear-join a b c h k q low high after = elim (Bool-cases (ltb q b)) [
    | inl left ↦ h q low (ltb→lt q b left) after
    | inr right ↦ k q (not_below q b right) high after
  ]

  pub Next-after :
      (a b c : ℕ) (o : Option ℕ) → a ≤ b → Clear P last a b → Next P last b c o → Next P last a c o
  Next-after a b c none u h k = Clear-join a b c h k
  Next-after a b c (some p) u h k = record {
    above = omega (arith, k.above);
    below = k.below;
    has = k.has;
    after = k.after;
    first = Clear-join a b p h k.first;
  }

  pub Next-wider : (a b c p : ℕ) → b ≤ c → IsNext P last a b p → IsNext P last a c p
  Next-wider a b c p u k = record {
    above = k.above;
    below = omega (arith, k.below);
    has = k.has;
    after = k.after;
    first = k.first;
  }

module _ (P : ℕ → Bool) (last : Option ℕ) (b c : ℕ) (onward : Option ℕ) where
  only_here : (is_after last b ≡ true → P b ≡ false) → Clear P last b (suc b)
  only_here h q low high u =
      let same : b ≡ q = omega arith in subst (λ x. is_after last x ≡ true → P x ≡ false) same h u

  -- One position, and the search from the next one on.
  pub Next-step :
      (present after : Bool)
      → P b ≡ present
      → is_after last b ≡ after
      → b < c
      → Next P last (suc b) c onward
      → Next P last b c
          (elim present [ true ↦ elim after [ true ↦ some b | false ↦ onward ] | false ↦ onward ])
  Next-step false after e f h k =
      Next-after P last b (suc b) c onward (omega arith) (only_here (λ _. e)) k
  Next-step true false e f h k =
      Next-after P last b (suc b) c onward (omega arith) (only_here (λ u. cc)) k
  Next-step true true e f h k = record {
    above = omega arith;
    below = h;
    has = e;
    after = f;
    first = λ q low high u. absurd (omega arith);
  }
