-- ===== src/Cache/Set/Bytes.antt =====
-- The data array of a cache set: what is written is read again, and the rest is as it was.
use graphite_atac.Prelude.{
  ℕ, zero, suc, ◌+◌, ◌-◌, ◌≤◌, ◌≡◌, refl, ap, sym, ◌∙◌, List, [], ◌∷◌, ◌++◌, arith, length,
  take-append-drop, take, drop, length-append, length-take, length-drop, ok, ◌⊎◌, inl, inr,
}
use graphite_atac.Cache.Set.{peek, poke}

-- `take` and `drop` of an append.
module _ {ℓ} {A : Type ℓ} where
  pub take-length_append : (xs ys : List A) → take (length xs) (xs ++ ys) ≡ xs
  take-length_append [] ys = refl
  take-length_append (x ∷ xs) ys = ap (λ l. x ∷ l) (take-length_append xs ys)

  pub drop-append : (n : ℕ) (xs ys : List A) → n ≤ length xs → drop n (xs ++ ys) ≡ drop n xs ++ ys
  drop-append zero xs ys h = refl
  drop-append (suc n) [] ys h = absurd (omega arith)
  drop-append (suc n) (x ∷ xs) ys h = drop-append n xs ys (omega arith)

  pub drop-past :
      (n : ℕ) (xs ys : List A) → length xs ≤ n → drop n (xs ++ ys) ≡ drop (n - length xs) ys
  drop-past n [] ys h = ap (λ k. drop k ys) (omega arith)
  drop-past zero (x ∷ xs) ys h = absurd (omega arith)
  drop-past (suc n) (x ∷ xs) ys h =
      drop-past n xs ys (omega arith) ∙ ap (λ k. drop k ys) (omega arith)

  pub take-append : (n : ℕ) (xs ys : List A) → n ≤ length xs → take n (xs ++ ys) ≡ take n xs
  take-append zero xs ys h = refl
  take-append (suc n) [] ys h = absurd (omega arith)
  take-append (suc n) (x ∷ xs) ys h = ap (λ l. x ∷ l) (take-append n xs ys (omega arith))

-- The new array.
poked : List ℕ → ℕ → List ℕ → List ℕ
poked lines start buf = take start lines ++ (buf ++ drop (start + length buf) lines)

module _ (lines : List ℕ) (start : ℕ) (buf : List ℕ)
    (room : start + length buf ≤ length lines) where
  length-front : length (take start lines) ≡ start
  length-front = omega (arith, length-take start lines)

  length-poked : length (poked lines start buf) ≡ length lines
  unfolding poked
  length-poked = omega (
    arith,
    length-front,
    length-append (take start lines) (buf ++ drop (start + length buf) lines),
    length-append buf (drop (start + length buf) lines),
    length-drop (start + length buf) lines,
  )

  read_self : take (length buf) (drop start (poked lines start buf)) ≡ buf
  unfolding poked
  read_self =
      ap (take (length buf)) (
        drop-past start (take start lines) (buf ++ drop (start + length buf) lines)
          (omega (arith, length-front))
        ∙ ap (λ k. drop k (buf ++ drop (start + length buf) lines))
            {x = start - length (take start lines)} {y = 0} (omega (arith, length-front)))
      ∙ take-length_append buf (drop (start + length buf) lines)

  read_before :
      (at n : ℕ)
      → at + n ≤ start
      → take n (drop at (poked lines start buf)) ≡ take n (drop at lines)
  unfolding poked
  read_before at n h =
      front (buf ++ drop (start + length buf) lines)
      ∙ sym (front (drop start lines))
      ∙ ap (λ l. take n (drop at l)) (take-append-drop start lines)
    where
      front :
          (r : List ℕ)
          → take n (drop at (take start lines ++ r)) ≡ take n (drop at (take start lines))
      front r =
          ap (take n) (drop-append at (take start lines) r (omega (arith, length-front)))
          ∙ take-append n (drop at (take start lines)) r
              (omega (arith, length-front, length-drop at (take start lines)))

  read_behind :
      (at n : ℕ)
      → start + length buf ≤ at
      → take n (drop at (poked lines start buf)) ≡ take n (drop at lines)
  unfolding poked
  read_behind at n h = ap (take n) (
      drop-past at (take start lines) (buf ++ tail) (omega (arith, length-front))
      ∙ drop-past (at - length (take start lines)) buf tail (omega (arith, length-front))
      ∙ ap (λ k. drop k tail) {y = at - length (take (start + length buf) lines)}
          (omega (arith, length-front, length-take (start + length buf) lines))
      ∙ sym (
          drop-past at (take (start + length buf) lines) tail
            (omega (arith, length-take (start + length buf) lines)))
      ∙ ap (drop at) (take-append-drop (start + length buf) lines))
    where
      tail : List ℕ
      tail = drop (start + length buf) lines

  -- A write in range succeeds; it is read again, and what lies apart is as it was.
  pub poke_lem :
      (lines' : List ℕ) × (poke lines start buf ≡ ok lines')
      × (length lines' ≡ length lines)
      × (peek lines' start (length buf) ≡ ok buf)
      × ((at n : ℕ)
          → (at + n ≤ start) ⊎ (start + length buf ≤ at)
          → peek lines' at n ≡ peek lines at n)
  unfolding poke peek poked
  poke_lem = (
    poked lines start buf,
    ground arith,
    length-poked,
    ground (arith, length-poked, read_self),
    λ at n apart. elim apart [
      | inl h ↦ ground (arith, length-poked, read_before at n h)
      | inr h ↦ ground (arith, length-poked, read_behind at n h)
    ],
  )
