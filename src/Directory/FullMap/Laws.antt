-- ===== src/Directory/FullMap/Laws.antt =====
-- The operations of a full-map entry keep the vector's size the number of the sharers, and the loop
-- over the sharers comes to an end.
use graphite_atac.Prelude.{
  ℕ, zero, suc, ◌+◌, ◌<◌, ◌≤◌, ◌≡◌, refl, sym, ap, ◌∙◌, ◌/◌, ◌*◌, Bool, true, false, not, ltb, leb,
  some, List, replicate, length, ℤ, pos, ok, Yields, Yields-bind, Yields-after, Yields-assert,
  Yields-map, Yields-option, Ends, vector_at-Ends, vector_set, vector_set-length, vector_at, arith,
}
use graphite_atac.Directory.Limited.{next}
use graphite_atac.Directory.Schemes.Limits.{next-Ends}
use graphite_atac.Directory.FullMap.{
  add_sharer, remove_sharer, fill_list, get_sharers_list, get_one_sharer,
}
use graphite_atac.BitVector.{
  BitVector, at_bit, set_bit, find, find_from, find_in_word, word_of, reset_find,
}
use graphite_atac.BitVector.Count.{IsCounted, set_bit-count, erase_bit-count}

pub at_bit-Ends : (v : BitVector) (bit : ℕ) → Ends (at_bit v bit)
unfolding at_bit
at_bit-Ends v bit = Yields-assert _ (ltb bit v.capacity) _ (λ _.
    Yields-after _ (vector_at v.words (bit / 64)) _ (vector_at-Ends v.words (bit / 64))
      (λ word _. tt))

not-true : (b : Bool) → not b ≡ true → b ≡ false
not-true false h = refl
not-true true h = sym h

pub add_sharer-count :
    (v : BitVector) (id : ℕ)
    → IsCounted v
    → Yields (λ r. IsCounted r.0 × (r.0.size ≡ suc v.size) × (r.1 ≡ true)) (add_sharer v id)
unfolding add_sharer
add_sharer-count v id h = Yields-after _ (at_bit v id) _ (at_bit-Ends v id) (λ present e.
    Yields-assert _ (not present) _ (λ absent.
      Yields-bind _ _ (set_bit v id) _ (set_bit-count v id h (e ∙ ap ok (not-true present absent)))
        (λ v' _ k. (k.0, k.1, refl))))

pub remove_sharer-count :
    (v : BitVector) (id : ℕ)
    → IsCounted v
    → Yields (λ v'. IsCounted v' × (suc v'.size ≡ v.size)) (remove_sharer v id false)
unfolding remove_sharer
remove_sharer-count v id h =
    Yields-after _ (at_bit v id) _ (at_bit-Ends v id)
      (λ present e. Yields-assert _ present _ (λ there. erase_bit-count v id h (e ∙ ap ok there)))

find_from-Ends : (v : BitVector) (windex left : ℕ) → Ends (find_from v windex left)
unfolding find_from
find_from-Ends v windex zero = tt
find_from-Ends v windex (suc left) =
    Yields-after _ (vector_at v.words windex) _ (vector_at-Ends v.words windex) (λ word _.
      Yields-option _ (find_in_word v.last_pos word (64 * windex)) _
        (λ position. ok (some position)) (λ _. find_from-Ends v (suc windex) left) (λ _ _. tt))

pub find-Kept : (v : BitVector) → Yields (λ r. r.0 ≡ record v { last_pos = r.1 }) (find v)
unfolding find
find-Kept v =
    Yields-after _ (find_from v (word_of v.last_pos) _) _ (find_from-Ends v (word_of v.last_pos) _)
      (λ position _. refl)

fill_list-Kept :
    (fuel : ℕ) (v : BitVector) (list : List ℤ) (i : ℕ)
    → i ≤ v.size
    → v.size < fuel + i
    → Yields (λ r. (r.0 ≡ reset_find v) × (length r.1 ≡ length list)) (fill_list fuel v list i)
unfolding fill_list reset_find
fill_list-Kept zero v list i h k = omega arith
fill_list-Kept (suc fuel) v list i h k =
    Yields-bind _ _ (find v) _ (find-Kept v) (λ (v', found) _ same.
      Yields-option _ found _ _ (λ over. (same ∙ ap (λ p. record v { last_pos = p }) over, refl))
        (λ new_sharer _.
          Yields-bind _ _ (vector_set list i (pos new_sharer)) _
            (vector_set-length list i (pos new_sharer))
            (λ list' _ size. Yields-assert _ (leb (i + 1) v'.size) _ (λ fits.
              let size' : v'.size ≡ v.size = ap (λ w. w.size) same in
              Yields-map _ _ (fill_list fuel v' list' (i + 1))
                (fill_list-Kept fuel v' list' (i + 1) (ground (arith, fits, size'))
                  (omega (arith, k, size')))
                (λ r kept. (kept.0 ∙ ap reset_find same, kept.1 ∙ size))))))

pub get_sharers_list-Kept : (v : BitVector) → Yields (λ r. r.0 ≡ reset_find v) (get_sharers_list v)
unfolding get_sharers_list reset_find
get_sharers_list-Kept v =
    Yields-bind _ _ (fill_list _ _ _ 0) _
      (fill_list-Kept (suc v.size) (reset_find v) (replicate v.size (pos 0)) 0 (omega arith)
        (omega arith))
      (λ r _ k. k.0)

pub get_one_sharer-Kept :
    (v : BitVector) (seed : ℕ) → Yields (λ r. r.0 ≡ reset_find v) (get_one_sharer v seed)
unfolding get_one_sharer
get_one_sharer-Kept v seed =
    Yields-bind _ _ (get_sharers_list v) _ (get_sharers_list-Kept v) (λ (v', list, all) _ same.
      Yields-after _ (next seed (length list)) _ (next-Ends seed (length list)) (λ (seed', index) _.
        Yields-after _ (vector_at list index) _ (vector_at-Ends list index) (λ id _. same)))
