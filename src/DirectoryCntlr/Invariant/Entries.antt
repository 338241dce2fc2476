-- ===== src/DirectoryCntlr/Invariant/Entries.antt =====
-- The changes that a reply makes to the entry of its line keep it coherent.
use mathlib.Core.Path.{subst}
use graphite_atac.Prelude.{
  ℕ, ◌==◌, ◌≡◌, refl, sym, Bool, true, false, Yields, Yields-bind, Yields-option, Yields-assert,
  Yields-after, arith, if◌then◌else◌, ==_iff,
}
use graphite_atac.Directory.Slots.{IsTile}
use graphite_atac.Directory.Entry.{
  Scheme, DirectoryEntry, DirectoryState, uncached, shared, owned, exclusive, modified, clear_owner,
}
use graphite_atac.Directory.Entry.Counts.{SchemeLaws, IsCoherent, Agrees, Agrees-dstate}
use graphite_atac.DirectoryCntlr.State.{DramDirectoryCntlr, get_entry, find_entry}
use graphite_atac.DirectoryCntlr.Replies.{
  is_shared, is_modified, find_existing, invalidated_entry, flushed_entry, written_back_entry,
}
use graphite_atac.DirectoryCntlr.Invariant.{Good, Kept, find_entry-Kept, get_entry-IsCoherent}

is_shared_lem : (d : DirectoryState) → is_shared d ≡ true → d ≡ shared
is_shared_lem uncached h = cc
is_shared_lem shared h = refl
is_shared_lem owned h = cc
is_shared_lem exclusive h = cc
is_shared_lem modified h = cc

is_modified_lem : (d : DirectoryState) → is_modified d ≡ true → d ≡ modified
is_modified_lem uncached h = cc
is_modified_lem shared h = cc
is_modified_lem owned h = cc
is_modified_lem exclusive h = cc
is_modified_lem modified h = refl

module _ {E : Type 0} {scheme : Scheme E} (laws : SchemeLaws scheme) where
  left_by :
      (e : DirectoryEntry E) (s : E) (b : Bool)
      → IsCoherent laws e
      → e.dstate ≡ shared
      → laws.IsCounted s
      → (scheme.get_num_sharers s == 0) ≡ b
      → IsCoherent laws (record e { sharers = s; dstate = if b then uncached else e.dstate })
  left_by e s true h u counted none_left = record {
    counted = counted;
    agrees = ((==_iff _ 0).0 none_left, (Agrees-dstate laws e shared h u).1);
  }
  left_by e s false h u counted some_left = record {
    counted = counted;
    agrees =
        subst (λ x. Agrees scheme x e.owner s) (sym u)
          (ground arith, (Agrees-dstate laws e shared h u).1);
  }

  pub invalidated_entry-IsCoherent :
      (e : DirectoryEntry E) (sender : ℕ)
      → IsCoherent laws e
      → IsTile sender
      → Yields (IsCoherent laws) (invalidated_entry scheme e sender)
  unfolding invalidated_entry
  invalidated_entry-IsCoherent e sender h t = Yields-assert _ (is_shared e.dstate) _ (λ u.
      Yields-bind _ _ (scheme.remove_sharer e.sharers sender) _
        (laws.remove_sharer-count e.sharers sender h.counted t)
        (λ s _ k. left_by e s _ h (is_shared_lem e.dstate u) k.0 refl))

  pub flushed_entry-IsCoherent :
      (e : DirectoryEntry E) (sender : ℕ)
      → IsCoherent laws e
      → IsTile sender
      → Yields (IsCoherent laws) (flushed_entry scheme e sender)
  unfolding flushed_entry clear_owner
  flushed_entry-IsCoherent e sender h t = Yields-assert _ (is_modified e.dstate) _ (λ u.
      let (tile, owner, one, has) = Agrees-dstate laws e modified h (is_modified_lem e.dstate u) in
      Yields-bind _ _ (scheme.remove_sharer e.sharers sender) _
        (laws.remove_sharer-count e.sharers sender h.counted t)
        (λ s _ k. record { counted = k.0; agrees = (omega (arith, k.1, one), refl) }))

  pub written_back_entry-IsCoherent :
      (e : DirectoryEntry E) (sender : ℕ)
      → IsCoherent laws e
      → Yields (IsCoherent laws) (written_back_entry scheme e sender)
  unfolding written_back_entry clear_owner
  written_back_entry-IsCoherent e sender h = Yields-assert _ (is_modified e.dstate) _ (λ u.
      let (tile, owner, one, has) = Agrees-dstate laws e modified h (is_modified_lem e.dstate u) in
      Yields-after _ (scheme.has_sharer e.sharers sender) _ (laws.has_sharer-Ends e.sharers sender)
        (λ has _.
          Yields-assert _ has _
            (λ _. record { counted = h.counted; agrees = (omega (arith, one), refl) })))

  module _ {Model : Type 0} where
    pub find_existing-Kept :
        (c : DramDirectoryCntlr E Model) (address : ℕ)
        → Good laws c
        → Yields (λ r. Kept laws c r.0 × IsCoherent laws r.2) (find_existing scheme c address)
    unfolding find_existing
    find_existing-Kept c address g =
        Yields-bind _ _ (find_entry scheme c address) _ (find_entry-Kept laws c address g)
          (λ (c', found) _ k.
            Yields-option _ found _ _ (λ _. tt)
              (λ place _.
                Yields-bind _ _ (get_entry c' place) _ (get_entry-IsCoherent laws c' place k.good)
                  (λ e _ h. (k, h))))
