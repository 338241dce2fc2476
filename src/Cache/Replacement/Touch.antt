-- ===== src/Cache/Replacement/Touch.antt =====
-- An access moves the accessed way of a set to the front of the ranks.
use graphite_atac.Prelude.{
  ℕ, zero, suc, ◌≤◌, ◌≡◌, refl, sym, ◌∙◌, ◌≢◌, inl, inr, false, List, [], ◌∷◌, some, arith, ◌==◌,
  ltb, length, get_elem?, get_elem?-set, set, map, lt_of_get_elem?, ok, if◌then◌else◌, Bool-cases,
  length-map, length-set,
}
use graphite_atac.Directory.SharerList.{erase}
use graphite_atac.Cache.Replacement.{age, touch}

-- `order` lists the ways from the most to the least recently used one: the bits of a way are its
-- place there.
pub record Ranks (bits order : List ℕ) : Type 0 where
  pub size : length bits ≡ length order
  pub to_order :
      (way place : ℕ) → get_elem? bits way ≡ some place → get_elem? order place ≡ some way
  pub to_bits : (way place : ℕ) → get_elem? order place ≡ some way → get_elem? bits way ≡ some place

pub get_elem?-map :
    (f : ℕ → ℕ) (xs : List ℕ) (i : ℕ) {x : ℕ}
    → get_elem? xs i ≡ some x
    → get_elem? (map f xs) i ≡ some (f x)
get_elem?-map f [] i h = cc
get_elem?-map f (x ∷ xs) zero h = ground arith
get_elem?-map f (x ∷ xs) (suc i) h = get_elem?-map f xs i h

pub get_elem?-map_inv :
    (f : ℕ → ℕ) (xs : List ℕ) (i : ℕ) {y : ℕ}
    → get_elem? (map f xs) i ≡ some y
    → (x : ℕ) × (get_elem? xs i ≡ some x) × (f x ≡ y)
get_elem?-map_inv f [] i h = cc
get_elem?-map_inv f (x ∷ xs) zero h = (x, refl, ground arith)
get_elem?-map_inv f (x ∷ xs) (suc i) h = get_elem?-map_inv f xs i h

pub length-erase :
    (xs : List ℕ) (way place : ℕ)
    → get_elem? xs place ≡ some way
    → suc (length (erase way xs)) ≡ length xs
unfolding erase
length-erase [] way place h = cc
length-erase (x ∷ xs) way zero h = ground arith
length-erase (x ∷ xs) way (suc place) h = ground (arith, length-erase xs way place h)

pub get_elem?-erase :
    (xs : List ℕ) (way place i : ℕ)
    → get_elem? xs place ≡ some way
    → ((j : ℕ) → get_elem? xs j ≡ some way → j ≡ place)
    → get_elem? (erase way xs) i ≡ get_elem? xs (if ltb i place then i else suc i)
unfolding erase
get_elem?-erase [] way place i h once = cc
get_elem?-erase (x ∷ xs) way zero i h once = ground arith
get_elem?-erase (x ∷ xs) way (suc place) zero h once = ground (arith, once 0)
get_elem?-erase (x ∷ xs) way (suc place) (suc i) h once =
    ground (arith, once 0, get_elem?-erase xs way place i h (λ j e. omega (arith, once (suc j) e)))

-- The way becomes the most recent one.
abbrev pub move_to_front : ℕ → List ℕ → List ℕ
move_to_front way order = way ∷ erase way order

module _ {bits order : List ℕ} (r : Ranks bits order) (way accessed : ℕ)
    (at_way : get_elem? bits way ≡ some accessed) where
  place_once : (j : ℕ) → get_elem? order j ≡ some way → j ≡ accessed
  place_once j h = ground (arith, r.to_bits way j h)

  erase-order :
      (i : ℕ)
      → get_elem? (erase way order) i ≡ get_elem? order (if ltb i accessed then i else suc i)
  erase-order i = get_elem?-erase order way accessed i (r.to_order way accessed at_way) place_once

  aged : List ℕ
  aged = set (map (age accessed) bits) way 0

  get_elem?-aged :
      (v : ℕ)
      → get_elem? aged v ≡ (if way == v then some 0 else get_elem? (map (age accessed) bits) v)
  unfolding aged
  get_elem?-aged v =
      get_elem?-set (map (age accessed) bits) way v 0
        (omega (arith, length-map bits (age accessed), lt_of_get_elem? bits way at_way))

  moved :
      length order ≤ 256
      → (v p b : ℕ) → (way == v) ≡ false
      → get_elem? bits v ≡ some b
      → age accessed b ≡ p
      → get_elem? (move_to_front way order) p ≡ some v
  unfolding age
  moved small v zero b other at_v p_eq = ground (
    arith,
    r.to_order v b at_v,
    r.to_order way accessed at_way,
    lt_of_get_elem? order accessed (r.to_order way accessed at_way),
  )
  moved small v (suc p) b other at_v p_eq = ground (
    arith,
    r.to_order v b at_v,
    r.to_order way accessed at_way,
    lt_of_get_elem? order accessed (r.to_order way accessed at_way),
    erase-order p,
  )

  length-aged : length aged ≡ length (move_to_front way order)
  unfolding aged
  length-aged = omega (
    arith,
    length-set (map (age accessed) bits) way 0,
    length-map bits (age accessed),
    r.size,
    length-erase order way accessed (r.to_order way accessed at_way),
  )

  to_order' :
      length order ≤ 256
      → (v p : ℕ) → get_elem? aged v ≡ some p
      → get_elem? (move_to_front way order) p ≡ some v
  to_order' small v p h = elim (Bool-cases (way == v)) [
    | inl same ↦ ground (arith, get_elem?-aged v)
    | inr other ↦
        let (b, at_v, p_eq) =
          get_elem?-map_inv (age accessed) bits v (sym (get_elem?-aged v ∙ rw other refl) ∙ h) in
        moved small v p b other at_v p_eq
  ]

  unmoved :
      length order ≤ 256
      → (v p q : ℕ) → get_elem? order q ≡ some v
      → q ≢ accessed
      → age accessed q ≡ suc p
      → get_elem? aged v ≡ some (suc p)
  unmoved small v p q at_q ne e = ground (
    arith,
    get_elem?-aged v,
    r.to_bits v q at_q,
    at_way,
    get_elem?-map (age accessed) bits v (r.to_bits v q at_q),
  )

  to_bits' :
      length order ≤ 256
      → (v p : ℕ) → get_elem? (move_to_front way order) p ≡ some v
      → get_elem? aged v ≡ some p
  unfolding age
  to_bits' small v zero h = ground (arith, get_elem?-aged v)
  to_bits' small v (suc p) h = elim (Bool-cases (ltb p accessed)) [
    | inl before ↦
        unmoved small v p p (sym (erase-order p ∙ rw before refl) ∙ h) (ground arith)
          (ground (arith, lt_of_get_elem? order accessed (r.to_order way accessed at_way)))
    | inr behind ↦
        unmoved small v p (suc p) (sym (erase-order p ∙ rw behind refl) ∙ h) (ground arith)
          (ground arith)
  ]

  -- One access.
  pub touch-Ranks :
      length order ≤ 256
      → (bits' : List ℕ) × (touch bits way ≡ ok bits') × Ranks bits' (move_to_front way order)
  unfolding touch aged
  touch-Ranks small = (
    aged,
    ground (arith, at_way),
    record { size = length-aged; to_order = to_order' small; to_bits = to_bits' small },
  )
