-- ===== src/Cache/Replacement/Victim.antt =====
-- The way that `LRUReplacementPolicy` gives up.
use graphite_atac.Prelude.{
  ℕ, zero, suc, ◌+◌, ◌-◌, ◌<◌, ◌≡◌, refl, inl, inr, true, false, List, [], ◌∷◌, some, arith, ◌==◌,
  length, get_elem?, ok, if◌then◌else◌, Bool-cases, All, ◌⊎◌, ◌≢◌, lt_of_get_elem?, get_elem?-lt,
}
use mathlib.Core.Path.{subst}
use graphite_atac.Cache.Line.{CacheLineInfo, is_valid}
use graphite_atac.Cache.Replacement.{scan, LruReplacementPolicy, lru_get_replacement_way}
use graphite_atac.Cache.Replacement.Recency.{Ranks}

-- The way `way` is the first that is not valid, `i` being the first way of the list.
abbrev pub FirstInvalid : ℕ → List CacheLineInfo → ℕ → Type 0
FirstInvalid i [] way = ⊥
FirstInvalid i (info ∷ infos) way =
    ((is_valid info ≡ false) × (i ≡ way))
    ⊎ ((is_valid info ≡ true) × FirstInvalid (suc i) infos way)

abbrev pub AllValid : List CacheLineInfo → Type 0
AllValid = All (λ info. is_valid info ≡ true)

-- The last way whose bits are those of the least recent one.
last_of : ℕ → ℕ → ℕ → List ℕ → ℕ
last_of top i way [] = way
last_of top i way (bit ∷ bits) = last_of top (suc i) (if bit == top then i else way) bits

last_of-none :
    (bits : List ℕ) (top i way : ℕ)
    → ((j : ℕ) → get_elem? bits j ≢ some top)
    → last_of top i way bits ≡ way
unfolding last_of
last_of-none [] top i way h = refl
last_of-none (b ∷ bits) top i way h =
    ground (arith, h 0, last_of-none bits top (suc i) way (λ j. h (suc j)))

last_of-eq :
    (bits : List ℕ) (top i way place : ℕ)
    → get_elem? bits place ≡ some top
    → ((j : ℕ) → get_elem? bits j ≡ some top → j ≡ place)
    → last_of top i way bits ≡ i + place
unfolding last_of
last_of-eq [] top i way place h once = cc
last_of-eq (b ∷ bits) top i way zero h once =
    ground (arith, last_of-none bits top (suc i) i (λ j e. omega (arith, once (suc j) e)))
last_of-eq (b ∷ bits) top i way (suc place) h once =
    ground (
      arith,
      once 0,
      last_of-eq bits top (suc i) way place h (λ j e. omega (arith, once (suc j) e)),
    )

data Scanned (associativity i way : ℕ) (infos : List CacheLineInfo) (bits : List ℕ) : Type 0 where
  empty :
      (w : ℕ)
      → FirstInvalid i infos w
      → scan associativity (length infos) i way infos bits ≡ ok w
      → Scanned associativity i way infos bits
  full :
      AllValid infos
      → (last_of (associativity - 1) i way bits < associativity
          → scan associativity (length infos) i way infos bits
            ≡ ok (last_of (associativity - 1) i way bits))
      → Scanned associativity i way infos bits

scan_lem :
    (associativity i way : ℕ) (infos : List CacheLineInfo) (bits : List ℕ)
    → length infos ≡ length bits
    → Scanned associativity i way infos bits
unfolding scan last_of
scan_lem a i way [] [] h = full tt (λ k. ground arith)
scan_lem a i way [] (b ∷ bits) h = absurd (omega arith)
scan_lem a i way (info ∷ infos) [] h = absurd (omega arith)
scan_lem a i way (info ∷ infos) (b ∷ bits) h = elim (Bool-cases (is_valid info)) [
  | inr no_line ↦ empty i (inl (no_line, refl)) (rw no_line refl)
  | inl line ↦ elim (scan_lem a (suc i) (if b == a - 1 then i else way) infos bits (omega arith)) [
    | empty w f e ↦ empty w (inr (line, f)) (rw line e)
    | full v e ↦ full (line, v) (λ k. rw line (e k))
  ]
]

-- A way that is not valid, the first one; or the least recently used way, the last of `order`.
abbrev pub Victim : List CacheLineInfo → List ℕ → ℕ → Type 0
Victim infos order way =
    FirstInvalid 0 infos way ⊎ (AllValid infos × (get_elem? order (length order - 1) ≡ some way))

FirstInvalid-lt :
    (infos : List CacheLineInfo) (i way : ℕ) → FirstInvalid i infos way → way < i + length infos
FirstInvalid-lt [] i way h = absurd h
FirstInvalid-lt (info ∷ infos) i way (inl h) = omega arith
FirstInvalid-lt (info ∷ infos) i way (inr h) = omega (arith, FirstInvalid-lt infos (suc i) way h.1)

module _ (p : LruReplacementPolicy) (infos : List CacheLineInfo) (set_num : ℕ) (bits order : List ℕ)
    (at_set : get_elem? p.lru_bits_vec set_num ≡ some bits) (r : Ranks bits order)
    (lines : length infos ≡ p.associativity) (ways : length order ≡ p.associativity)
    (some_way : 0 < p.associativity) where
  abbrev pub Chosen : Type 0
  Chosen =
      (way : ℕ) × (lru_get_replacement_way p infos set_num ≡ ok (p, way))
      × (way < p.associativity)
      × Victim infos order way

  returns :
      (way : ℕ)
      → scan p.associativity (length infos) 0 p.associativity infos bits ≡ ok way
      → lru_get_replacement_way p infos set_num ≡ ok (p, way)
  unfolding lru_get_replacement_way
  returns way scanned =
      let e : scan p.associativity p.associativity 0 p.associativity infos bits ≡ ok way =
        subst (λ n. scan p.associativity n 0 p.associativity infos bits ≡ ok way) lines scanned in
      ground (arith, at_set, e)

  chosen : Scanned p.associativity 0 p.associativity infos bits → Chosen
  chosen (empty way first scanned) =
      (way, returns way scanned, omega (arith, FirstInvalid-lt infos 0 way first), inl first)
  chosen (full valid scanned) =
      let (way, last) = get_elem?-lt order (p.associativity - 1) (omega arith) in
      let bits_at = r.to_bits way (p.associativity - 1) last in
      let k : way < p.associativity = omega (arith, lt_of_get_elem? bits way bits_at, r.size) in
      let e : last_of (p.associativity - 1) 0 p.associativity bits ≡ way = omega (
        arith,
        last_of-eq bits (p.associativity - 1) 0 p.associativity way bits_at
            (λ j h. ground (arith, r.to_order j (p.associativity - 1) h)),
      ) in
      (way, returns way (rw e at (scanned (rw e k))), k, inr (valid, ground (arith, last, ways)))

  -- If the bits of a set rank its ways, of which there is one or more, the LRU policy succeeds and
  -- names a way of the set: the first that is not valid, or the least recently used one if all are
  -- valid.
  pub lru_get_replacement_way_lem : Chosen
  lru_get_replacement_way_lem =
      chosen (scan_lem p.associativity 0 p.associativity infos bits (omega (arith, r.size)))
