-- ===== src/Directory/FullMap/Changes.antt =====
-- Adding a sharer to a full-map entry and removing one: both on every branch.
use graphite_atac.Prelude.{
  ℕ, suc, ◌+◌, ◌-◌, ◌/◌, ◌%◌, ◌^◌, ◌<◌, ◌==◌, ◌≡◌, refl, ap, ◌∙◌, ◌⊎◌, inl, inr, Bool, true, false,
  Bool-cases, if◌then◌else◌, ltb, lt→ltb, ltb→lt, ok, fail, assert_failed, vector_at-Returns,
  Yields-ok, set, arith,
}
use graphite_atac.BitVector.{BitVector, at_bit, set_bit, erase_bit}
use graphite_atac.BitVector.Bits.{or_bit, clear_bit}
use graphite_atac.BitVector.Count.{IsCounted, set_bit-count, erase_bit-count}
use graphite_atac.BitVector.Search.{bit_in}
use graphite_atac.BitVector.Members.{set_bit-bit_in, erase_bit-bit_in}
use graphite_atac.Directory.FullMap.{add_sharer, remove_sharer}
use graphite_atac.Directory.FullMap.Sharers.{at_bit-bit_in}

-- Only the bit of the tile differs, and is now `b`.
pub record Changed (v v' : BitVector) (id : ℕ) (b : Bool) : Type 0 where
  pub counted : IsCounted v'
  pub capacity : v'.capacity ≡ v.capacity
  pub bits : (q : ℕ) → bit_in v'.words q ≡ (if id == q then b else bit_in v.words q)

abbrev pub Adds : BitVector → ℕ → Type 0
Adds v id =
    (id < v.capacity)
      × (bit_in v.words id ≡ false)
      × ((v' : BitVector) × (add_sharer v id ≡ ok (v', true))
          × Changed v v' id true
          × (v'.size ≡ suc v.size))
    ⊎ (¬ ((id < v.capacity) × (bit_in v.words id ≡ false))) × (add_sharer v id ≡ fail assert_failed)

abbrev pub Removes : BitVector → ℕ → Type 0
Removes v id =
    (id < v.capacity)
      × (bit_in v.words id ≡ true)
      × ((v' : BitVector) × (remove_sharer v id false ≡ ok v')
          × Changed v v' id false
          × (suc v'.size ≡ v.size))
    ⊎ (¬ ((id < v.capacity) × (bit_in v.words id ≡ true)))
      × (remove_sharer v id false ≡ fail assert_failed)

set_bit-Returns :
    (v : BitVector) (bit : ℕ)
    → IsCounted v
    → bit < v.capacity
    → at_bit v bit ≡ ok false
    → (v' : BitVector) × (set_bit v bit ≡ ok v') × (v'.capacity ≡ v.capacity)
unfolding set_bit
set_bit-Returns v bit h u e =
    let (word, w) = vector_at-Returns v.words (bit / 64) (omega (arith, h.covers, u)) in
    (
      record v {
        words = set v.words (bit / 64) (or_bit word (bit % 64));
        size = (v.size + 1) % 2 ^ 32;
      },
      rw (lt→ltb bit v.capacity u, e, w) refl,
      refl,
    )

erase_bit-Returns :
    (v : BitVector) (bit : ℕ)
    → IsCounted v
    → bit < v.capacity
    → at_bit v bit ≡ ok true
    → (v' : BitVector) × (erase_bit v bit ≡ ok v') × (v'.capacity ≡ v.capacity)
unfolding erase_bit
erase_bit-Returns v bit h u e =
    let (word, w) = vector_at-Returns v.words (bit / 64) (omega (arith, h.covers, u)) in
    (
      record v {
        words = set v.words (bit / 64) (clear_bit word (bit % 64));
        size = (v.size + 2 ^ 32 - 1) % 2 ^ 32;
      },
      rw (lt→ltb bit v.capacity u, e, w) refl,
      refl,
    )

at_bit-outside :
    (v : BitVector) (bit : ℕ) → ltb bit v.capacity ≡ false → at_bit v bit ≡ fail assert_failed
unfolding at_bit
at_bit-outside v bit h = rw h refl

add_sharer-Adds : (v : BitVector) (id : ℕ) → IsCounted v → Adds v id
unfolding add_sharer
add_sharer-Adds v id h = elim (Bool-cases (ltb id v.capacity)) [
  | inr outside ↦
      inr
        ((λ p. let inside = lt→ltb id v.capacity p.0 in cc), rw (at_bit-outside v id outside) refl)
  | inl inside ↦
      let u = ltb→lt id v.capacity inside in
      let at = at_bit-bit_in v id h u in
      elim (Bool-cases (bit_in v.words id)) [
        | inl old ↦ inr ((λ p. let new = p.1 in cc), rw (at ∙ ap ok old) refl)
        | inr new ↦
            let e = at ∙ ap ok new in
            let (v', runs, same) = set_bit-Returns v id h u e in
            let (counted, size) = Yields-ok _ (set_bit v id) (set_bit-count v id h e) runs in
            inl (
              u,
              new,
              (
                v',
                rw (e, runs) refl,
                record {
                  counted = counted;
                  capacity = same;
                  bits = Yields-ok _ (set_bit v id) (set_bit-bit_in v id e) runs;
                },
                size,
              ),
            )
      ]
]

remove_sharer-Removes : (v : BitVector) (id : ℕ) → IsCounted v → Removes v id
unfolding remove_sharer
remove_sharer-Removes v id h = elim (Bool-cases (ltb id v.capacity)) [
  | inr outside ↦
      inr
        ((λ p. let inside = lt→ltb id v.capacity p.0 in cc), rw (at_bit-outside v id outside) refl)
  | inl inside ↦
      let u = ltb→lt id v.capacity inside in
      let at = at_bit-bit_in v id h u in
      elim (Bool-cases (bit_in v.words id)) [
        | inr absent ↦ inr ((λ p. let old = p.1 in cc), rw (at ∙ ap ok absent) refl)
        | inl old ↦
            let e = at ∙ ap ok old in
            let (v', runs, same) = erase_bit-Returns v id h u e in
            let (counted, size) = Yields-ok _ (erase_bit v id) (erase_bit-count v id h e) runs in
            inl (
              u,
              old,
              (
                v',
                rw (e, runs) refl,
                record {
                  counted = counted;
                  capacity = same;
                  bits = Yields-ok _ (erase_bit v id) (erase_bit-bit_in v id e) runs;
                },
                size,
              ),
            )
      ]
]

-- If the size of a full-map entry is the number of its bits that are set, and its words cover its
-- capacity, then adding a tile succeeds exactly if the tile is within the capacity and no sharer,
-- and removing it, with no reply expected, exactly if it is within the capacity and a sharer;
-- otherwise an assertion fails. After a success the bit of that tile alone has changed, and the
-- size by one.
pub change_sharer_lem : (v : BitVector) (id : ℕ) → IsCounted v → Adds v id × Removes v id
change_sharer_lem v id h = (add_sharer-Adds v id h, remove_sharer-Removes v id h)
