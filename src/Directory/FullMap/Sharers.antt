-- ===== src/Directory/FullMap/Sharers.antt =====
-- What a full-map entry stands for: the tiles whose bits are set, which `getSharersList` lists.
use graphite_atac.Prelude.{
  ℕ, zero, suc, ◌+◌, ◌-◌, ◌*◌, ◌/◌, ◌%◌, ◌<◌, ◌≤◌, ◌≡◌, refl, sym, ap, ◌∙◌, true, false, leb,
  lt→ltb, Option, none, some, List, [], ◌∷◌, ◌++◌, map, length, replicate, length-replicate, ℤ, pos,
  Result, ok, vector_set, vector_set-append, vector_at-Returns, assert, ◌>>◌, ◌>>=◌, length-append,
  arith,
}
use graphite_atac.BitVector.{BitVector, at_bit, find, reset_find}
use graphite_atac.BitVector.Count.{IsCounted}
use graphite_atac.BitVector.Search.{bit_in, bit_in_lem}
use graphite_atac.BitVector.Positions.{
  positions, set_positions, length-set_positions, start, from_next, find-positions,
}
use graphite_atac.Directory.FullMap.{has_sharer, fill_list, get_sharers_list}

abbrev positions_left : BitVector → List ℕ
positions_left v =
    positions (bit_in v.words) (start v.last_pos) (64 * length v.words - start v.last_pos)

-- The loop writes the positions that are left after what the list holds already.
abbrev Fills : ℕ → Type 0
Fills fuel =
    (v : BitVector) (done left : List ℤ)
    → IsCounted v
    → start v.last_pos ≤ 64 * length v.words
    → length left ≡ length (positions_left v)
    → v.size ≡ length done + length left
    → length left < fuel
    → fill_list fuel v (done ++ left) (length done)
      ≡ ok (reset_find v, done ++ map pos (positions_left v))

append_one : (done : List ℤ) (x : ℤ) (left : List ℤ) → done ++ x ∷ left ≡ (done ++ x ∷ []) ++ left
append_one [] x left = refl
append_one (y ∷ done) x left = ap (λ l. y ∷ l) (append_one done x left)

le→leb : (a b : ℕ) → a ≤ b → leb a b ≡ true
le→leb a b h = ground arith

-- The loop's body, from what `find` returned.
abbrev found_next : ℕ → BitVector → List ℤ → List ℤ → Option ℕ → Result (BitVector × List ℤ)
found_next fuel v done left none = ok (record v { last_pos = none }, done ++ left)
found_next fuel v done left (some p) = vector_set (done ++ left) (length done) (pos p) >>= (λ list'.
    assert (leb (length done + 1) v.size)
    >> fill_list fuel (record v { last_pos = some p }) list' (length done + 1))

fill_one :
    (fuel : ℕ)
    → Fills fuel
    → (v : BitVector) (done left : List ℤ) → IsCounted v
    → v.size ≡ length done + length left
    → length left < suc fuel
    → (o : Option ℕ) → start o ≤ 64 * length v.words
    → length left ≡ length (from_next (bit_in v.words) (64 * length v.words) o)
    → found_next fuel v done left o
      ≡ ok (reset_find v, done ++ map pos (from_next (bit_in v.words) (64 * length v.words) o))
unfolding reset_find
fill_one fuel again v done [] h size f none u room = refl
fill_one fuel again v done (t ∷ left) h size f none u room = absurd (omega arith)
fill_one fuel again v done [] h size f (some p) u room = absurd (omega arith)
fill_one fuel again v done (t ∷ left) h size f (some p) u room =
    let longer : length (done ++ pos p ∷ []) ≡ length done + 1 = length-append done (pos p ∷ []) in
    let fits = le→leb (length done + 1) v.size (omega (arith, size)) in
    let v' : BitVector = record v { last_pos = some p } in
    let rest =
      again v' (done ++ pos p ∷ []) left
        (record { counted = h.counted; covers = h.covers; short = h.short }) u (omega (arith, room))
        (omega (arith, size, longer)) (omega (arith, f)) in
    rw (vector_set-append done t left (pos p), fits)
      (ap (λ l. fill_list fuel v' l (length done + 1)) (append_one done (pos p) left)
        ∙ ap (fill_list fuel v' ((done ++ pos p ∷ []) ++ left)) (sym longer)
        ∙ rest
        ∙ ap (λ l. ok (reset_find v, l))
            (sym (append_one done (pos p) (map pos (positions_left v')))))

fill_list-found :
    (fuel : ℕ) (v : BitVector) (done left : List ℤ) (o : Option ℕ)
    → find v ≡ ok (record v { last_pos = o }, o)
    → fill_list (suc fuel) v (done ++ left) (length done) ≡ found_next fuel v done left o
unfolding fill_list
fill_list-found fuel v done left none e = rw e refl
fill_list-found fuel v done left (some p) e = rw e refl

fill_list_lem : (fuel : ℕ) → Fills fuel
fill_list_lem zero v done left h u room size f = absurd (omega (arith, f))
fill_list_lem (suc fuel) v done left h u room size f =
    let (o, found, bound, rest) = find-positions v h u in
    fill_list-found fuel v done left o found
    ∙ fill_one fuel (fill_list_lem fuel) v done left h size f o bound (room ∙ ap length rest)
    ∙ ap (λ l. ok (reset_find v, done ++ map pos l)) (sym rest)

pub at_bit-bit_in :
    (v : BitVector) (id : ℕ) → IsCounted v → id < v.capacity → at_bit v id ≡ ok (bit_in v.words id)
unfolding at_bit
at_bit-bit_in v id h u =
    let (word, e) = vector_at-Returns v.words (id / 64) (omega (arith, h.covers, u)) in
    let place : 64 * (id / 64) + id % 64 ≡ id = omega arith in
    rw (lt→ltb id v.capacity u, e)
      (ap ok
        (sym (bit_in_lem v.words (id / 64) (id % 64) e (omega arith)) ∙ ap (bit_in v.words) place))

-- If the size of a full-map entry is the number of its bits that are set, and its words cover its
-- capacity, then getSharersList succeeds and returns the tiles whose bits are set, in ascending
-- order, and resets the position of the search; hasSharer of a tile within the capacity succeeds
-- and says whether its bit is set.
pub get_sharers_list-set_positions :
    (v : BitVector)
    → IsCounted v
    → (get_sharers_list v ≡ ok (reset_find v, map pos (set_positions v.words), false))
      × ((id : ℕ) → id < v.capacity → has_sharer v id ≡ ok (bit_in v.words id))
unfolding get_sharers_list has_sharer reset_find set_positions
get_sharers_list-set_positions v h = (rw whole refl, λ id u. at_bit-bit_in v id h u)
  where
    count : length (replicate v.size (pos 0)) ≡ v.size
    count = length-replicate v.size (pos 0)

    nothing : 64 * length v.words - 0 ≡ 64 * length v.words
    nothing = omega arith

    left : positions_left (reset_find v) ≡ set_positions v.words
    left = ap (positions (bit_in v.words) 0) nothing

    whole :
        fill_list (suc v.size) (reset_find v) (replicate v.size (pos 0)) 0
        ≡ ok (reset_find v, map pos (set_positions v.words))
    whole =
        fill_list_lem (suc v.size) (reset_find v) [] (replicate v.size (pos 0))
          (record { counted = h.counted; covers = h.covers; short = h.short }) (omega arith)
          (count ∙ h.counted ∙ sym (length-set_positions v.words) ∙ ap length (sym left))
          (omega (arith, count)) (omega (arith, count))
        ∙ ap (λ l. ok (reset_find v, map pos l)) left
