-- ===== src/DirectoryCache/Coherence.antt =====
-- Every operation of the directory cache keeps its entries coherent, and ends.
use graphite_atac.Prelude.{
  ℕ, zero, suc, ◌<◌, Bool, Option, some, List, [], ◌∷◌, set, vector_at, All, All-append, All-set,
  Yields, Yields-bind, Yields-branch, Yields-vector_at, vector_at-Ends, Yields-after, Yields-option,
  Ends, arith,
}
use graphite_atac.Directory.Entry.{Scheme, DirectoryEntry, new_entry}
use graphite_atac.Directory.Entry.Counts.{SchemeLaws, IsCoherent, new_entry-IsCoherent}
use graphite_atac.DirectoryCache.Accounting.{incr_cycle_count}
use graphite_atac.DirectoryCache.{
  DirectoryCache, Place, in_directory, in_replaced, is_at, is_free, compute_set_index, entry_num,
  find_way, access, hit, take_free, get_directory_entry, ways_of, get_replacement_candidates,
  put_new, replace_directory_entry, erase_at, invalidate_directory_entry, entry_at, write_entry,
}
use graphite_atac.DirectoryCache.SetIndex.{compute_set_index_lem}

pub incr_cycle_count-Ends : (cycles n : ℕ) → Ends (incr_cycle_count cycles n)
unfolding incr_cycle_count
incr_cycle_count-Ends cycles n = ground arith

module _ {E : Type 0} {scheme : Scheme E} (laws : SchemeLaws scheme) where
  pub record AllCoherent (c : DirectoryCache E) : Type 0 where
    pub listed : All (IsCoherent laws) c.directory_entry_list
    pub replaced : All (IsCoherent laws) c.replaced_directory_entry_list
    pub groups : 0 < c.log_num_sets

  module _ (c : DirectoryCache E) (h : AllCoherent c) where
    pub set_index-Ends : (address : ℕ) → Ends (compute_set_index c address)
    set_index-Ends address = let (s, e, b) = compute_set_index_lem c address h.groups in rw e tt

  pub find_way-Ends :
      (test : Option ℕ → Bool) (c : DirectoryCache E) (s i ways : ℕ)
      → Ends (find_way test c s i ways)
  unfolding find_way
  find_way-Ends test c s i zero = tt
  find_way-Ends test c s i (suc ways) =
      Yields-after _ (vector_at c.directory_entry_list (entry_num c s i)) _
        (vector_at-Ends c.directory_entry_list _)
        (λ e _.
          Yields-branch _ (test e.address) _ _ (λ _. tt) (λ _. find_way-Ends test c s (suc i) ways))

  access-AllCoherent :
      (c : DirectoryCache E) (cycles : ℕ)
      → AllCoherent c
      → Yields (λ r. AllCoherent r.0) (access c cycles)
  unfolding access
  access-AllCoherent c cycles h =
      Yields-branch _ c.enabled _ _
        (λ _.
          Yields-after _ (incr_cycle_count cycles c.directory_access_delay) _
            (incr_cycle_count-Ends cycles _)
            (λ _ _. record { listed = h.listed; replaced = h.replaced; groups = h.groups }))
        (λ _. h)

  -- Entries change place or address only.
  with_entry :
      (c : DirectoryCache E) (num : ℕ) (e : DirectoryEntry E)
      → AllCoherent c
      → IsCoherent laws e
      → AllCoherent (record c { directory_entry_list = set c.directory_entry_list num e })
  with_entry c num e h k = record {
    listed = All-set (IsCoherent laws) c.directory_entry_list num e h.listed k;
    replaced = h.replaced;
    groups = h.groups;
  }

  with_address :
      (e : DirectoryEntry E) (address : ℕ)
      → IsCoherent laws e
      → IsCoherent laws (record e { address = some address })
  with_address e address h = record { counted = h.counted; agrees = h.agrees }

  hit-AllCoherent :
      (c : DirectoryCache E) (cycles num : ℕ)
      → AllCoherent c
      → Yields (λ r. AllCoherent r.0) (hit scheme c cycles num)
  unfolding hit
  hit-AllCoherent c cycles num h =
      Yields-after _ (vector_at c.directory_entry_list num) _ (vector_at-Ends _ num) (λ e _.
        Yields-after _ (incr_cycle_count cycles (scheme.get_latency e.sharers)) _
          (incr_cycle_count-Ends cycles _) (λ _ _. h))

  take_free-AllCoherent :
      (c : DirectoryCache E) (cycles address num : ℕ)
      → AllCoherent c
      → Yields (λ r. AllCoherent r.0) (take_free scheme c cycles address num)
  unfolding take_free
  take_free-AllCoherent c cycles address num h =
      Yields-bind (IsCoherent laws) _ (vector_at c.directory_entry_list num) _
        (Yields-vector_at (IsCoherent laws) c.directory_entry_list num h.listed)
        (λ e _ k. with_entry c num _ h (with_address e address k))

  pub get_directory_entry-AllCoherent :
      (c : DirectoryCache E) (cycles address : ℕ)
      → AllCoherent c
      → Yields (λ r. AllCoherent r.0) (get_directory_entry scheme c cycles address)
  unfolding get_directory_entry
  get_directory_entry-AllCoherent c cycles address h =
      Yields-bind (λ r. AllCoherent r.0) _ (access c cycles) _ (access-AllCoherent c cycles h)
        (λ (c, later) _ k.
          Yields-after _ (compute_set_index c address) _ (set_index-Ends c k address) (λ s _.
            Yields-after _ (find_way (is_at address) c s 0 c.associativity) _
              (find_way-Ends (is_at address) c s 0 c.associativity)
              (λ found _.
                Yields-option _ found _ _
                  (λ _.
                    Yields-after _ (find_way is_free c s 0 c.associativity) _
                      (find_way-Ends is_free c s 0 c.associativity)
                      (λ free _.
                        Yields-option _ free _ _ (λ _. k)
                          (λ num _. take_free-AllCoherent c later address num k)))
                  (λ num _. hit-AllCoherent c later num k))))

  ways_of-All :
      (c : DirectoryCache E) (s i ways : ℕ)
      → AllCoherent c
      → Yields (All (IsCoherent laws)) (ways_of c s i ways)
  unfolding ways_of
  ways_of-All c s i zero h = tt
  ways_of-All c s i (suc ways) h =
      Yields-bind (IsCoherent laws) _ (vector_at c.directory_entry_list (entry_num c s i)) _
        (Yields-vector_at (IsCoherent laws) c.directory_entry_list _ h.listed)
        (λ e _ k.
          Yields-bind (All (IsCoherent laws)) _ (ways_of c s (suc i) ways) _
            (ways_of-All c s (suc i) ways h) (λ rest _ l. (k, l)))

  pub get_replacement_candidates-AllCoherent :
      (c : DirectoryCache E) (cycles address : ℕ)
      → AllCoherent c
      → Yields (λ r. AllCoherent r.0) (get_replacement_candidates scheme c cycles address)
  unfolding get_replacement_candidates
  get_replacement_candidates-AllCoherent c cycles address h =
      Yields-bind (λ r. AllCoherent r.0) _ (get_directory_entry scheme c cycles address) _
        (get_directory_entry-AllCoherent c cycles address h)
        (λ (c, later, place) _ k.
          Yields-option _ place _ _
            (λ _.
              Yields-after _ (compute_set_index c address) _ (set_index-Ends c k address) (λ s _.
                Yields-bind (All (IsCoherent laws)) _ (ways_of c s 0 c.associativity) _
                  (ways_of-All c s 0 c.associativity k) (λ _ _ _. k)))
            (λ _ _. tt))

  put_new-AllCoherent :
      (c : DirectoryCache E) (address num : ℕ)
      → AllCoherent c
      → Yields AllCoherent (put_new scheme c address num)
  unfolding put_new
  put_new-AllCoherent c address num h =
      Yields-bind (IsCoherent laws) _ (vector_at c.directory_entry_list num) _
        (Yields-vector_at (IsCoherent laws) c.directory_entry_list num h.listed)
        (λ old _ k. record {
          listed =
              All-set (IsCoherent laws) c.directory_entry_list num _ h.listed
                (with_address (new_entry scheme) address (new_entry-IsCoherent laws));
          replaced = All-append (IsCoherent laws) _ (old ∷ []) h.replaced (k, tt);
          groups = h.groups;
        })

  pub replace_directory_entry-AllCoherent :
      (c : DirectoryCache E) (cycles old address : ℕ)
      → AllCoherent c
      → Yields (λ r. AllCoherent r.0) (replace_directory_entry scheme c cycles old address)
  unfolding replace_directory_entry
  replace_directory_entry-AllCoherent c cycles old address h =
      Yields-bind (λ r. AllCoherent r.0) _ (access c cycles) _ (access-AllCoherent c cycles h)
        (λ (c, later) _ k.
          Yields-after _ (compute_set_index c old) _ (set_index-Ends c k old) (λ s _.
            Yields-after _ (find_way (is_at old) c s 0 c.associativity) _
              (find_way-Ends (is_at old) c s 0 c.associativity)
              (λ found _.
                Yields-option _ found _ _ (λ _. tt)
                  (λ num _.
                    Yields-bind AllCoherent _ (put_new scheme c address num) _
                      (put_new-AllCoherent c address num k) (λ c' _ k'. k')))))

  erase_at-All :
      (address : ℕ) (list : List (DirectoryEntry E))
      → All (IsCoherent laws) list
      → Yields (All (IsCoherent laws)) (erase_at address list)
  unfolding erase_at
  erase_at-All address [] h = tt
  erase_at-All address (e ∷ list) h =
      Yields-branch _ (is_at address e.address) _ _ (λ _. h.1)
        (λ _.
          Yields-bind (All (IsCoherent laws)) _ (erase_at address list) _
            (erase_at-All address list h.1) (λ rest _ k. (h.0, k)))

  pub invalidate_directory_entry-AllCoherent :
      (c : DirectoryCache E) (address : ℕ)
      → AllCoherent c
      → Yields AllCoherent (invalidate_directory_entry c address)
  unfolding invalidate_directory_entry
  invalidate_directory_entry-AllCoherent c address h =
      Yields-bind (All (IsCoherent laws)) _ (erase_at address c.replaced_directory_entry_list) _
        (erase_at-All address c.replaced_directory_entry_list h.replaced)
        (λ list _ k. record { listed = h.listed; replaced = k; groups = h.groups })

  pub entry_at-IsCoherent :
      (c : DirectoryCache E) (place : Place)
      → AllCoherent c
      → Yields (IsCoherent laws) (entry_at c place)
  unfolding entry_at
  entry_at-IsCoherent c (in_directory num) h =
      Yields-vector_at (IsCoherent laws) c.directory_entry_list num h.listed
  entry_at-IsCoherent c (in_replaced num) h =
      Yields-vector_at (IsCoherent laws) c.replaced_directory_entry_list num h.replaced

  pub write_entry-AllCoherent :
      (c : DirectoryCache E) (place : Place) (e : DirectoryEntry E)
      → AllCoherent c
      → IsCoherent laws e
      → AllCoherent (write_entry c place e)
  unfolding write_entry
  write_entry-AllCoherent c (in_directory num) e h k = with_entry c num e h k
  write_entry-AllCoherent c (in_replaced num) e h k = record {
    listed = h.listed;
    replaced = All-set (IsCoherent laws) c.replaced_directory_entry_list num e h.replaced k;
    groups = h.groups;
  }
