-- ===== src/DirectoryCache/Replacing.antt =====
-- An entry that is replaced is found among the replaced ones until its line is invalidated.
use mathlib.Core.Option
use mathlib.Core.Option.{some-injective}
use mathlib.Core.Path.{subst}
use graphite_atac.Prelude.{
  ℕ, suc, ◌<◌, set, Yields-map, ◌≡◌, refl, sym, ◌∙◌, ap, true, Option, none, some, List, [], ◌∷◌,
  ◌++◌, ok, ==_iff, inl, inr, Bool-cases, vector_at, Yields, Yields-bind, Yields-after,
  Yields-option, vector_at-Ends,
}
use graphite_atac.Directory.Entry.{Scheme, DirectoryEntry, new_entry}
use graphite_atac.DirectoryCache.{
  DirectoryCache, Place, in_directory, is_at, compute_set_index, entry_num, find_way, find_replaced,
  put_new, replace_directory_entry, erase_at, invalidate_directory_entry,
}
use graphite_atac.DirectoryCache.Accounting.{EventCounters}
use graphite_atac.DirectoryCache.Ways.{is_at_lem, ok-injective, find_way-Searched, Searched, IsWay}
use graphite_atac.DirectoryCache.Lookup.{Yields-access, set_index-Ends}

module _ {E : Type 0} where
  erase_at-snoc :
      (address : ℕ) (list : List (DirectoryEntry E)) (old : DirectoryEntry E)
      → old.address ≡ some address
      → find_replaced address list ≡ none
      → erase_at address (list ++ old ∷ []) ≡ ok list
  unfolding erase_at find_replaced
  erase_at-snoc address [] old at_old fresh =
      let here : is_at address old.address ≡ true =
        ap (is_at address) at_old ∙ (==_iff address address).1 refl in
      rw (here, erase_at) refl
  erase_at-snoc address (e ∷ list) old at_old fresh = elim (Bool-cases (is_at address e.address)) [
    | inl here ↦
        let found : find_replaced address (e ∷ list) ≡ some 0 = rw (here, find_replaced) refl in
        absurd (cc)
    | inr there ↦
        let rest =
          erase_at-snoc address list old at_old (
            not_later (find_replaced address list)
              (sym (rw (there, find_replaced) refl) ∙ fresh)) in
        rw (there, erase_at, rest) refl
  ]
    where
      not_later : (o : Option ℕ) → Option.map suc o ≡ none → o ≡ none
      not_later none h = refl
      not_later (some k) h = cc

module _ {E : Type 0} (scheme : Scheme E) where
  abbrev pub fresh_entry : ℕ → DirectoryEntry E
  fresh_entry address = record (new_entry scheme) { address = some address }

  -- The entry of the replaced line, at a way of its set, gives way to an empty one, and is kept
  -- among the replaced entries until its line is invalidated.
  pub record Replaced (c : DirectoryCache E) (replaced_address address : ℕ) (c' : DirectoryCache E)
      (place : Place) : Type 0 where
    pub s : ℕ
    pub set_index : compute_set_index c replaced_address ≡ ok s
    pub num : ℕ
    pub at_num : place ≡ in_directory num
    pub way : IsWay c s 0 c.associativity num
    pub old : DirectoryEntry E
    pub at_way : vector_at c.directory_entry_list num ≡ ok old
    pub old_address : old.address ≡ some replaced_address
    pub entries : c'.directory_entry_list ≡ set c.directory_entry_list num (fresh_entry address)
    pub kept : c'.replaced_directory_entry_list ≡ c.replaced_directory_entry_list ++ old ∷ []
    pub invalidated :
        invalidate_directory_entry c' replaced_address
        ≡ ok (record c' { replaced_directory_entry_list = c.replaced_directory_entry_list })

  put_new-Replaced :
      (c : DirectoryCache E) (replaced_address address num s : ℕ)
      → compute_set_index c replaced_address ≡ ok s
      → Searched (is_at replaced_address) c s 0 c.associativity (some num)
      → find_replaced replaced_address c.replaced_directory_entry_list ≡ none
      → Yields
          (λ c'. Replaced c replaced_address address c' (in_directory num))
          (put_new scheme c address num)
  unfolding put_new invalidate_directory_entry
  put_new-Replaced c replaced_address address num s index (way, (old, at_way, passes)) fresh =
      Yields-after _ (vector_at c.directory_entry_list num) _ (vector_at-Ends _ num)
        (λ old' readable.
          let at_old : old'.address ≡ some replaced_address =
            ap (λ (e : DirectoryEntry E). e.address) (ok-injective (sym readable ∙ at_way))
            ∙ is_at_lem replaced_address old.address passes in
          record {
            s = s;
            set_index = index;
            num = num;
            at_num = refl;
            way = way;
            old = old';
            at_way = readable;
            old_address = at_old;
            entries = refl;
            kept = refl;
            invalidated =
                rw
                  (erase_at-snoc replaced_address c.replaced_directory_entry_list old' at_old fresh)
                  refl;
          })

  -- The counters play no part in it.
  Replaced-counters :
      (c : DirectoryCache E) (k : EventCounters) (replaced_address address : ℕ)
      (c' : DirectoryCache E) (place : Place)
      → Replaced (record c { counters = k }) replaced_address address c' place
      → Replaced c replaced_address address c' place
  unfolding compute_set_index entry_num
  Replaced-counters c k replaced_address address c' place h = record {
    s = h.s;
    set_index = h.set_index;
    num = h.num;
    at_num = h.at_num;
    way = h.way;
    old = h.old;
    at_way = h.at_way;
    old_address = h.old_address;
    entries = h.entries;
    kept = h.kept;
    invalidated = h.invalidated;
  }

  -- In a directory cache with more than one set, if a line that has no entry among the replaced
  -- ones is replaced without a fault, then it had an entry at a way of its set: a new entry, empty
  -- but for the address, is there now, the other entries are as before, and the old entry is kept
  -- behind the replaced ones; invalidating the line leaves these as they were.
  pub replace_directory_entry-Replaced :
      (c : DirectoryCache E) (cycle_count replaced_address address : ℕ)
      → 0 < c.log_num_sets
      → find_replaced replaced_address c.replaced_directory_entry_list ≡ none
      → Yields
          (λ r. Replaced c replaced_address address r.0 r.2)
          (replace_directory_entry scheme c cycle_count replaced_address address)
  unfolding replace_directory_entry
  replace_directory_entry-Replaced c cycle_count replaced_address address groups fresh =
      Yields-access _ c cycle_count _ (λ k later.
        let c1 : DirectoryCache E = record c { counters = k } in
        Yields-map (λ r. Replaced c1 replaced_address address r.0 r.2) _ _
          (Yields-after _ (compute_set_index c1 replaced_address) _
            (set_index-Ends c1 replaced_address groups)
            (λ s index.
              Yields-bind (Searched (is_at replaced_address) c1 s 0 c.associativity) _
                (find_way (is_at replaced_address) c1 s 0 c.associativity) _
                (find_way-Searched (is_at replaced_address) c1 s 0 c.associativity)
                (λ found _ way.
                  Yields-option _ found _ _ (λ _. tt)
                    (λ num named.
                      Yields-bind (λ c'. Replaced c1 replaced_address address c' (in_directory num))
                        _ (put_new scheme c1 address num) _
                        (put_new-Replaced c1 replaced_address address num s index
                          (subst (Searched (is_at replaced_address) c1 s 0 c.associativity) named
                            way)
                          fresh)
                        (λ c' _ h. h)))))
          (λ r h. Replaced-counters c k replaced_address address r.0 r.2 h))
