-- ===== src/DirectoryCache/Lookup.antt =====
-- What a look-up in the directory cache finds, and when it takes a free way.
use mathlib.Core.Option
use mathlib.Core.Option.{some-injective}
use mathlib.Core.Path.{subst}
use graphite_atac.Prelude.{
  ℕ, ◌<◌, sym, ◌∙◌, ◌>>=◌, All, set, false, ◌≡◌, refl, ap, Option, none, some, Result, ok,
  vector_at, Yields, Yields-bind, Yields-after, Yields-option, Yields-branch, Yields-map,
  vector_at-Ends, Ends,
}
use graphite_atac.Directory.Entry.{Scheme, DirectoryEntry}
use graphite_atac.DirectoryCache.Accounting.{EventCounters, incr_cycle_count}
use graphite_atac.DirectoryCache.{
  DirectoryCache, Place, in_replaced, in_directory, is_at, is_free, compute_set_index, entry_num,
  find_way, access, hit, take_free, get_directory_entry,
}
use graphite_atac.DirectoryCache.SetIndex.{compute_set_index_lem}
use graphite_atac.DirectoryCache.Coherence.{incr_cycle_count-Ends}
use graphite_atac.DirectoryCache.Ways.{
  is_at_lem, is_free_lem, NoWay, IsWay, Searched, ok-injective, find_way-Searched, NamesReplaced,
  find_replaced-NamesReplaced,
}

-- Where a look-up of the address finds it: the set of the address is `s`, the cache before it `c`.
pub data Found {E : Type 0} (c c' : DirectoryCache E) (address s : ℕ) : Option Place → Type 0 where
  present :
      (num : ℕ) (e : DirectoryEntry E)
      → IsWay c s 0 c.associativity num
      → vector_at c.directory_entry_list num ≡ ok e
      → e.address ≡ some address
      → c'.directory_entry_list ≡ c.directory_entry_list
      → Found c c' address s (some (in_directory num))
  taken :
      (num : ℕ) (e : DirectoryEntry E)
      → NoWay (is_at address) c s 0 c.associativity
      → IsWay c s 0 c.associativity num
      → vector_at c.directory_entry_list num ≡ ok e
      → e.address ≡ none
      → c'.directory_entry_list
        ≡ set c.directory_entry_list num (record e { address = some address })
      → Found c c' address s (some (in_directory num))
  was_replaced :
      (k : ℕ) (e : DirectoryEntry E)
      → NoWay (is_at address) c s 0 c.associativity
      → NoWay is_free c s 0 c.associativity
      → vector_at c.replaced_directory_entry_list k ≡ ok e
      → e.address ≡ some address
      → c'.directory_entry_list ≡ c.directory_entry_list
      → Found c c' address s (some (in_replaced k))
  nowhere :
      NoWay (is_at address) c s 0 c.associativity
      → NoWay is_free c s 0 c.associativity
      → All (λ e. is_at address e.address ≡ false) c.replaced_directory_entry_list
      → c'.directory_entry_list ≡ c.directory_entry_list
      → Found c c' address s none

module _ {E : Type 0} where
  replaced-Found :
      (c c' : DirectoryCache E) (address s : ℕ)
      → NoWay (is_at address) c s 0 c.associativity
      → NoWay is_free c s 0 c.associativity
      → c'.directory_entry_list ≡ c.directory_entry_list
      → (o : Option ℕ) → NamesReplaced address c.replaced_directory_entry_list o
      → Found c c' address s (Option.map in_replaced o)
  replaced-Found c c' address s absent busy same none h = nowhere absent busy h same
  replaced-Found c c' address s absent busy same (some k) (e, at_k, has) =
      was_replaced k e absent busy at_k has same

  -- An access changes the counters of the cache only.
  pub Yields-access :
      {B : Type 0} (Q : B → Type 0) (c : DirectoryCache E) (cycle_count : ℕ)
      (f : DirectoryCache E × ℕ → Result B)
      → ((k : EventCounters) (later : ℕ) → Yields Q (f (record c { counters = k }, later)))
      → Yields Q (access c cycle_count >>= f)
  unfolding access
  Yields-access Q c cycle_count f h =
      Yields-bind (λ r. Yields Q (f r)) Q _ f
        (Yields-branch (λ r. Yields Q (f r)) c.enabled _ _
          (λ _.
            Yields-after _ (incr_cycle_count cycle_count c.directory_access_delay) _
              (incr_cycle_count-Ends cycle_count _) (λ later _. h _ later))
          (λ _. h c.counters cycle_count))
        (λ r _ q. q)

  pub set_index-Ends :
      (c : DirectoryCache E) (address : ℕ) → 0 < c.log_num_sets → Ends (compute_set_index c address)
  set_index-Ends c address g = let (s, e, b) = compute_set_index_lem c address g in rw e tt

module _ {E : Type 0} (scheme : Scheme E) where
  -- What a look-up of the address leaves.
  abbrev pub LooksUp : DirectoryCache E → ℕ → DirectoryCache E × ℕ × Option Place → Type 0
  LooksUp c address r =
      (r.0.replaced_directory_entry_list ≡ c.replaced_directory_entry_list)
      × ((s : ℕ) × (compute_set_index c address ≡ ok s) × Found c r.0 address s r.2)

  hit-LooksUp :
      (c : DirectoryCache E) (later address num s : ℕ)
      → compute_set_index c address ≡ ok s
      → Searched (is_at address) c s 0 c.associativity (some num)
      → Yields (LooksUp c address) (hit scheme c later num)
  unfolding hit
  hit-LooksUp c later address num s index (way, (e, at_way, passes)) =
      Yields-after _ (vector_at c.directory_entry_list num) _ (vector_at-Ends _ num) (λ e' _.
        Yields-after _ (incr_cycle_count later (scheme.get_latency e'.sharers)) _
          (incr_cycle_count-Ends later _)
          (λ _ _.
            (refl, (s, index, present num e way at_way (is_at_lem address e.address passes) refl))))

  take_free-LooksUp :
      (c : DirectoryCache E) (later address num s : ℕ)
      → compute_set_index c address ≡ ok s
      → NoWay (is_at address) c s 0 c.associativity
      → Searched is_free c s 0 c.associativity (some num)
      → Yields (LooksUp c address) (take_free scheme c later address num)
  unfolding take_free
  take_free-LooksUp c later address num s index absent (way, (e, at_way, passes)) =
      Yields-after _ (vector_at c.directory_entry_list num) _ (vector_at-Ends _ num) (λ e' readable.
        let same = ok-injective (sym readable ∙ at_way) in
        (
          refl,
          (
            s,
            index,
            taken num e' absent way readable
                (ap (λ (x : DirectoryEntry E). x.address) same ∙ is_free_lem e.address passes) refl,
          ),
        ))

  -- The counters play no part in it.
  LooksUp-counters :
      (c : DirectoryCache E) (k : EventCounters) (address : ℕ)
      (r : DirectoryCache E × ℕ × Option Place)
      → LooksUp (record c { counters = k }) address r
      → LooksUp c address r
  unfolding compute_set_index entry_num
  LooksUp-counters c k address r (same, (s, index, found)) = (same, (s, index, go found))
    where
      go :
          {o : Option Place}
          → Found (record c { counters = k }) r.0 address s o
          → Found c r.0 address s o
      go (present num e way at_way has kept) = present num e way at_way has kept
      go (taken num e absent way at_way free put) = taken num e absent way at_way free put
      go (was_replaced n e absent busy at_n has kept) = was_replaced n e absent busy at_n has kept
      go (nowhere absent busy gone kept) = nowhere absent busy gone kept

  -- A look-up in a directory cache with more than one set that returns without a fault leads to the
  -- way of the set of the address that has an entry of it, and changes no entry; if none has, to a
  -- free way of the set, whose entry takes the address; if none is free, to a replaced entry of the
  -- address, or to the null pointer if none of these has it. The replaced entries stay.
  pub get_directory_entry-Found :
      (c : DirectoryCache E) (cycle_count address : ℕ)
      → 0 < c.log_num_sets
      → Yields (LooksUp c address) (get_directory_entry scheme c cycle_count address)
  unfolding get_directory_entry
  get_directory_entry-Found c cycle_count address groups =
      Yields-access _ c cycle_count _ (λ k later.
        let c1 : DirectoryCache E = record c { counters = k } in
        Yields-map (LooksUp c1 address) _ _
          (Yields-after _ (compute_set_index c1 address) _ (set_index-Ends c1 address groups)
            (λ s index.
              Yields-bind (Searched (is_at address) c1 s 0 c.associativity) _
                (find_way (is_at address) c1 s 0 c.associativity) _
                (find_way-Searched (is_at address) c1 s 0 c.associativity)
                (λ found _ way.
                  Yields-option _ found _ _
                    (λ absent.
                      let no_way =
                        subst (Searched (is_at address) c1 s 0 c.associativity) absent way in
                      Yields-bind (Searched is_free c1 s 0 c.associativity) _
                        (find_way is_free c1 s 0 c.associativity) _
                        (find_way-Searched is_free c1 s 0 c.associativity)
                        (λ free _ free_way.
                          Yields-option _ free _ _
                            (λ busy. (
                              refl,
                              (
                                s,
                                index,
                                replaced-Found c1 c1 address s no_way
                                    (subst (Searched is_free c1 s 0 c.associativity) busy free_way)
                                    refl _
                                    (find_replaced-NamesReplaced address
                                      c.replaced_directory_entry_list),
                              ),
                            ))
                            (λ num named.
                              take_free-LooksUp c1 later address num s index no_way
                                (subst (Searched is_free c1 s 0 c.associativity) named free_way))))
                    (λ num named.
                      hit-LooksUp c1 later address num s index
                        (subst (Searched (is_at address) c1 s 0 c.associativity) named way)))))
          (λ r found. LooksUp-counters c k address r found))
