-- ===== src/DirectoryCntlr/Invariant/Nullify.antt =====
-- Emptying the line of a replaced entry leaves the queues alone, but for the next request.
use graphite_atac.Prelude.{
  ℕ, refl, Bool, true, false, List, ℤ, Result, Yields, Yields-bind, Yields-after, Yields-option,
}
use graphite_atac.Directory.Entry.{Scheme, DirectoryEntry}
use graphite_atac.Directory.Entry.Counts.{SchemeLaws, IsCoherent, Yields-dstate}
use graphite_atac.DirectoryCache.{invalidate_directory_entry}
use graphite_atac.DirectoryCache.Coherence.{AllCoherent, invalidate_directory_entry-AllCoherent}
use graphite_atac.DirectoryCntlr.Messages.{ShmemMsg, ShmemReq}
use graphite_atac.DirectoryCntlr.State.{
  DramDirectoryCntlr, emit, send_each, broadcast, get_entry, find_entry,
}
use graphite_atac.DirectoryCntlr.Replacement.{
  send_invalidations, nullify_entry, process_nullify_req,
}
use graphite_atac.DirectoryCntlr.Invariant.{
  Good, Kept, find_entry-Kept, get_entry-IsCoherent, send-Kept, Kept-trans,
}

module _ {E Model : Type 0} {scheme : Scheme E} (laws : SchemeLaws scheme) where
  pub send_invalidations-Kept :
      (c : DramDirectoryCntlr E Model) (sharers : List ℤ × Bool) (msg : ShmemMsg)
      → Good laws c
      → Kept laws c (send_invalidations c sharers msg)
  unfolding send_invalidations broadcast emit send_each
  send_invalidations-Kept c (list, true) msg g = record {
    good = record { cache = g.cache; requests = g.requests };
    queues = refl;
  }
  send_invalidations-Kept c (list, false) msg g = record {
    good = record { cache = g.cache; requests = g.requests };
    queues = refl;
  }

  module _ (run_dram_perf_model : Model → ℕ → Model × ℕ)
      (next : ℕ → DramDirectoryCntlr E Model → Result (DramDirectoryCntlr E Model)) where
    nullify_entry-Yields :
        (Q : DramDirectoryCntlr E Model → Type 0) (c : DramDirectoryCntlr E Model) (msg : ShmemMsg)
        (e : DirectoryEntry E)
        → Good laws c
        → ((c' : DramDirectoryCntlr E Model) → Kept laws c c' → Q c')
        → ((c' : DramDirectoryCntlr E Model) → Kept laws c c' → Yields Q (next msg.address c'))
        → Yields Q (nullify_entry scheme run_dram_perf_model next c msg e)
    unfolding nullify_entry
    nullify_entry-Yields Q c msg e g stay go =
        Yields-dstate Q e.dstate _ _ _
          (λ _.
            Yields-bind (AllCoherent laws) Q
              (invalidate_directory_entry c.dram_directory_cache msg.address) _
              (invalidate_directory_entry-AllCoherent laws c.dram_directory_cache msg.address
                g.cache)
              (λ cache _ k.
                go _
                  (record { good = record { cache = k; requests = g.requests }; queues = refl })))
          (λ _.
            Yields-after Q (scheme.get_sharers_list e.sharers) _
              (laws.get_sharers_list-Ends e.sharers)
              (λ sharers _. stay _ (send_invalidations-Kept c sharers _ g)))
          (λ _. stay _ (send-Kept laws c _ _ g))

    pub process_nullify_req-Yields :
        (Q : DramDirectoryCntlr E Model → Type 0) (c : DramDirectoryCntlr E Model) (req : ShmemReq)
        → Good laws c
        → ((c' : DramDirectoryCntlr E Model) → Kept laws c c' → Q c')
        → ((c' : DramDirectoryCntlr E Model)
            → Kept laws c c'
            → Yields Q (next req.shmem_msg.address c'))
        → Yields Q (process_nullify_req scheme run_dram_perf_model next c req)
    unfolding process_nullify_req
    process_nullify_req-Yields Q c req g stay go =
        Yields-bind (λ r. Kept laws c r.0) Q (find_entry scheme c req.shmem_msg.address) _
          (find_entry-Kept laws c req.shmem_msg.address g)
          (λ (c', found) _ k.
            Yields-option Q found _ _ (λ _. tt)
              (λ place _.
                Yields-bind (IsCoherent laws) Q (get_entry c' place) _
                  (get_entry-IsCoherent laws c' place k.good)
                  (λ e _ _.
                    nullify_entry-Yields Q c' req.shmem_msg e k.good
                      (λ c'' h. stay c'' (Kept-trans laws c c' c'' k h))
                      (λ c'' h. go c'' (Kept-trans laws c c' c'' k h)))))
