-- ===== src/Directory/Entry/Counts.antt =====
-- What the directory controller relies on of a scheme that keeps the sharers, and what it keeps true
-- of an entry: the state agrees with the number of the sharers and with the owner.
use mathlib.Core.Path.{subst}
use graphite_atac.Prelude.{
  ℕ, suc, ◌<◌, ◌≡◌, refl, sym, Bool, true, false, ℤ, pos, Result, ok, fail, log_error, Yields,
  Yields-after, Ends,
}
use graphite_atac.Directory.Slots.{IsTile}
use graphite_atac.Directory.Entry.{
  DirectoryState, uncached, shared, owned, exclusive, modified, Scheme, DirectoryEntry,
  invalid_tile_id, new_entry, set_owner,
}

-- The count of the sharers goes up and down by one, and no sharers are left at the start.
pub record SchemeLaws {E : Type 0} (scheme : Scheme E) : Type 1 where
  pub IsCounted : E → Type 0
  pub new_sharers-IsCounted : IsCounted scheme.new_sharers
  pub new_sharers-count : scheme.get_num_sharers scheme.new_sharers ≡ 0
  pub add_sharer-count :
      (e : E) (id : ℕ)
      → IsCounted e
      → IsTile id
      → Yields
          (λ r.
            IsCounted r.0
            × (scheme.get_num_sharers r.0 ≡ elim r.1 [
              | true ↦ suc (scheme.get_num_sharers e)
              | false ↦ scheme.get_num_sharers e
            ]))
          (scheme.add_sharer e id)
  pub remove_sharer-count :
      (e : E) (id : ℕ)
      → IsCounted e
      → IsTile id
      → Yields
          (λ e'. IsCounted e' × (suc (scheme.get_num_sharers e') ≡ scheme.get_num_sharers e))
          (scheme.remove_sharer e id)
  pub get_one_sharer-count :
      (e : E)
      → IsCounted e
      → Yields
          (λ r. IsCounted r.0 × (scheme.get_num_sharers r.0 ≡ scheme.get_num_sharers e))
          (scheme.get_one_sharer e)
  pub has_sharer-Ends : (e : E) (id : ℕ) → Ends (scheme.has_sharer e id)
  pub get_sharers_list-Ends : (e : E) → Ends (scheme.get_sharers_list e)

module _ {E : Type 0} (scheme : Scheme E) where
  -- An owner is the only sharer, and only a modified line has one.
  abbrev pub Agrees : DirectoryState → ℤ → E → Type 0
  Agrees uncached owner s = (scheme.get_num_sharers s ≡ 0) × (owner ≡ invalid_tile_id)
  Agrees shared owner s = (0 < scheme.get_num_sharers s) × (owner ≡ invalid_tile_id)
  Agrees owned owner s = ⊥
  Agrees exclusive owner s = ⊥
  Agrees modified owner s =
      (tile : ℕ) × (owner ≡ pos tile)
      × (scheme.get_num_sharers s ≡ 1)
      × (scheme.has_sharer s tile ≡ ok true)

module _ {E : Type 0} {scheme : Scheme E} (laws : SchemeLaws scheme) where
  pub record IsCoherent (e : DirectoryEntry E) : Type 0 where
    pub counted : laws.IsCounted e.sharers
    pub agrees : Agrees scheme e.dstate e.owner e.sharers

  pub new_entry-IsCoherent : IsCoherent (new_entry scheme)
  unfolding new_entry
  new_entry-IsCoherent = record {
    counted = laws.new_sharers-IsCounted;
    agrees = (laws.new_sharers-count, refl);
  }

  -- A sharer alone becomes the owner.
  pub set_owner-modified :
      (e : DirectoryEntry E) (tile : ℕ)
      → laws.IsCounted e.sharers
      → scheme.get_num_sharers e.sharers ≡ 1
      → Yields (λ e'. IsCoherent (record e' { dstate = modified })) (set_owner scheme e tile)
  unfolding set_owner
  set_owner-modified e tile h one =
      Yields-after _ (scheme.has_sharer e.sharers tile) _ (laws.has_sharer-Ends e.sharers tile) go
    where
      go :
          (b : Bool)
          → scheme.has_sharer e.sharers tile ≡ ok b
          → Yields
              (λ e'. IsCoherent (record e' { dstate = modified }))
              (elim b [ true ↦ ok (record e { owner = pos tile }) | false ↦ fail log_error ])
      go true has = record { counted = h; agrees = (tile, refl, one, has) }
      go false has = tt

  pub Agrees-dstate :
      (e : DirectoryEntry E) (d : DirectoryState)
      → IsCoherent e
      → e.dstate ≡ d
      → Agrees scheme d e.owner e.sharers
  Agrees-dstate e d h u = subst (λ x. Agrees scheme x e.owner e.sharers) u h.agrees

  pub still_shared :
      (e : DirectoryEntry E) (s : E)
      → IsCoherent e
      → e.dstate ≡ shared
      → laws.IsCounted s
      → 0 < scheme.get_num_sharers s
      → IsCoherent (record e { sharers = s })
  still_shared e s h u counted some_left = record {
    counted = counted;
    agrees =
        subst (λ x. Agrees scheme x e.owner s) (sym u) (some_left, (Agrees-dstate e shared h u).1);
  }

  pub now_shared :
      (e : DirectoryEntry E) (s : E)
      → IsCoherent e
      → e.dstate ≡ uncached
      → laws.IsCounted s
      → 0 < scheme.get_num_sharers s
      → IsCoherent (record e { dstate = shared; sharers = s })
  now_shared e s h u counted some_left = record {
    counted = counted;
    agrees = (some_left, (Agrees-dstate e uncached h u).1);
  }

module _ {ℓ} {B : Type ℓ} where
  pub Yields-dstate :
      (Q : B → Type 0) (d : DirectoryState) (u s m : Result B)
      → (d ≡ uncached → Yields Q u)
      → (d ≡ shared → Yields Q s)
      → (d ≡ modified → Yields Q m)
      → Yields Q (elim d [
        | uncached ↦ u
        | shared ↦ s
        | owned ↦ fail log_error
        | exclusive ↦ fail log_error
        | modified ↦ m
      ])
  Yields-dstate Q uncached u s m hu hs hm = hu refl
  Yields-dstate Q shared u s m hu hs hm = hs refl
  Yields-dstate Q owned u s m hu hs hm = tt
  Yields-dstate Q exclusive u s m hu hs hm = tt
  Yields-dstate Q modified u s m hu hs hm = hm refl
