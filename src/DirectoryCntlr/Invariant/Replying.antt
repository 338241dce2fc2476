-- ===== src/DirectoryCntlr/Invariant/Replying.antt =====
-- Every reply of a second level cache keeps the invariant of the controller, and is handled to the end.
use graphite_atac.Prelude.{
  ℕ, ◌≤◌, ◌<◌, ◌==◌, ◌∙◌, ap, ltb, Option, none, List, Result, ok, fail, log_error, ◌>>=◌, Yields,
  Yields-bind, Yields-branch, Yields-map, arith,
}
use graphite_atac.Queues.{count}
use graphite_atac.Directory.Slots.{IsTile}
use graphite_atac.Directory.Entry.{
  Scheme, DirectoryEntry, DirectoryState, uncached, shared, owned, exclusive, modified,
}
use graphite_atac.Directory.Entry.Counts.{SchemeLaws, IsCoherent}
use graphite_atac.DirectoryCache.{Place}
use graphite_atac.DirectoryCntlr.Messages.{ShmemMsg, ShmemReq}
use graphite_atac.DirectoryCntlr.State.{
  DramDirectoryCntlr, put_entry, resume_front, send_data_to_dram,
}
use graphite_atac.DirectoryCntlr.Replacement.{process_nullify_req}
use graphite_atac.DirectoryCntlr.Requests.{process_ex_req, process_sh_req}
use graphite_atac.DirectoryCntlr.Replies.{
  find_existing, invalidated_entry, flushed_entry, written_back_entry, after_invalidation,
  process_inv_rep, after_flush, process_flush_rep, after_write_back, process_wb_rep,
}
use graphite_atac.DirectoryCntlr.Invariant.{Good, Kept, put_entry-Kept, send_data_to_dram-Kept}
use graphite_atac.DirectoryCntlr.Invariant.Nullify.{process_nullify_req-Yields}
use graphite_atac.DirectoryCntlr.Invariant.Allocation.{ServesLast}
use graphite_atac.DirectoryCntlr.Invariant.Service.{
  Serves, Yields-type, process_ex_req-Good, process_sh_req-Good,
}
use graphite_atac.DirectoryCntlr.Invariant.Progress.{Resumed, resume_front-Resumed}
use graphite_atac.DirectoryCntlr.Invariant.Entries.{
  invalidated_entry-IsCoherent, flushed_entry-IsCoherent, written_back_entry-IsCoherent,
  find_existing-Kept,
}

module _ {E Model : Type 0} {scheme : Scheme E} (laws : SchemeLaws scheme)
    (run_dram_perf_model : Model → ℕ → Model × ℕ)
    (next : ℕ → DramDirectoryCntlr E Model → Result (DramDirectoryCntlr E Model)) (n : ℕ)
    (serves : Serves laws run_dram_perf_model next n)
    (last : ServesLast laws run_dram_perf_model next) where
  -- A request that can be served.
  record Ready (c : DramDirectoryCntlr E Model) (req : ShmemReq) : Type 0 where
    pub good : Good laws c
    pub waits : 0 < count c.dram_directory_req_queue_list req.shmem_msg.address
    pub few : count c.dram_directory_req_queue_list req.shmem_msg.address ≤ n
    pub from_tile : IsTile req.shmem_msg.requester

  serve_ex :
      (c : DramDirectoryCntlr E Model) (req : ShmemReq) (buffer : Option (List ℕ))
      → Ready c req
      → Yields (Good laws) (process_ex_req scheme run_dram_perf_model next c req buffer)
  serve_ex c req buffer r =
      process_ex_req-Good laws run_dram_perf_model next n serves c req buffer last r.good r.waits
        r.few r.from_tile

  serve_sh :
      (c : DramDirectoryCntlr E Model) (req : ShmemReq) (buffer : Option (List ℕ))
      → Ready c req
      → Yields (Good laws) (process_sh_req scheme run_dram_perf_model next c req buffer)
  serve_sh c req buffer r =
      process_sh_req-Good laws run_dram_perf_model next n serves c req buffer last r.good r.waits
        r.few r.from_tile

  serve_nullify :
      (c : DramDirectoryCntlr E Model) (req : ShmemReq)
      → Ready c req
      → Yields (Good laws) (process_nullify_req scheme run_dram_perf_model next c req)
  serve_nullify c req r =
      process_nullify_req-Yields laws run_dram_perf_model next (Good laws) c req r.good
        (λ c' k. k.good)
        (λ c' k.
          serves req.shmem_msg.address c' k.good
            (omega (arith, r.few, ap (λ q. count q req.shmem_msg.address) k.queues)))

  resume-Ready :
      (c : DramDirectoryCntlr E Model) (address : ℕ)
      (f : DramDirectoryCntlr E Model → ShmemReq → Result (DramDirectoryCntlr E Model))
      → Good laws c
      → count c.dram_directory_req_queue_list address ≤ n
      → ((c' : DramDirectoryCntlr E Model) (req : ShmemReq)
          → Ready c' req
          → Yields (Good laws) (f c' req))
      → Yields (Good laws) (do (c', req) ← resume_front c address; f c' req)
  resume-Ready c address f g few go =
      Yields-bind (Resumed laws c address) _ (resume_front c address) _
        (resume_front-Resumed laws c address g)
        (λ (c', req) _ k.
          let here = ap (count c'.dram_directory_req_queue_list) k.for_line ∙ k.same address in
          go c' req (record {
            good = k.good;
            waits = omega (arith, here, k.waits);
            few = omega (arith, here, few);
            from_tile = k.from_tile;
          }))

  Ready-Kept :
      (c c' : DramDirectoryCntlr E Model) (req : ShmemReq)
      → Ready c req
      → Kept laws c c'
      → Ready c' req
  Ready-Kept c c' req r k =
      let same = ap (λ q. count q req.shmem_msg.address) k.queues in
      record {
        good = k.good;
        waits = omega (arith, same, r.waits);
        few = omega (arith, same, r.few);
        from_tile = r.from_tile;
      }

  after_invalidation-Good :
      (c : DramDirectoryCntlr E Model) (req : ShmemReq) (d : DirectoryState)
      → Ready c req
      → Yields (Good laws) (after_invalidation scheme run_dram_perf_model next c req d)
  unfolding after_invalidation
  after_invalidation-Good c req d r =
      Yields-type _ req.shmem_msg.msg_type _ _ _ (if_uncached d _ (serve_ex c req none r))
        (serve_sh c req none r) (if_uncached d _ (serve_nullify c req r))
    where
      if_uncached :
          (d : DirectoryState) (s : Result (DramDirectoryCntlr E Model))
          → Yields (Good laws) s
          → Yields (Good laws) (elim d [ uncached ↦ s | _ ↦ ok c ])
      if_uncached uncached s h = h
      if_uncached shared s h = r.good
      if_uncached owned s h = r.good
      if_uncached exclusive s h = r.good
      if_uncached modified s h = r.good

  -- The entry of the reply's line has been changed, and the same requests wait.
  put_entry-Ready :
      (c c' : DramDirectoryCntlr E Model) (address : ℕ) (place : Place) (e' : DirectoryEntry E)
      → count c.dram_directory_req_queue_list address ≤ n
      → Kept laws c c'
      → IsCoherent laws e'
      → Good laws (put_entry c' place e')
        × (count (put_entry c' place e').dram_directory_req_queue_list address ≤ n)
  put_entry-Ready c c' address place e' few k h =
      let k' = put_entry-Kept laws c' place e' k.good h in
      (k'.good, omega (arith, few, ap (λ q. count q address) (k'.queues ∙ k.queues)))

  pub process_inv_rep-Good :
      (c : DramDirectoryCntlr E Model) (sender : ℕ) (msg : ShmemMsg)
      → Good laws c
      → IsTile sender
      → count c.dram_directory_req_queue_list msg.address ≤ n
      → Yields (Good laws) (process_inv_rep scheme run_dram_perf_model next c sender msg)
  unfolding process_inv_rep
  process_inv_rep-Good c sender msg g t few =
      Yields-bind _ _ (find_existing scheme c msg.address) _
        (find_existing-Kept laws c msg.address g)
        (λ (c', place, e) _ (k, h).
          Yields-bind (IsCoherent laws) _ (invalidated_entry scheme e sender) _
            (invalidated_entry-IsCoherent laws e sender h t)
            (λ e' _ h'.
              let r = put_entry-Ready c c' msg.address place e' few k h' in
              Yields-branch _
                (ltb 0 (count (put_entry c' place e').dram_directory_req_queue_list msg.address)) _
                _
                (λ _.
                  resume-Ready (put_entry c' place e') msg.address _ r.0 r.1
                    (λ c'' req ready. after_invalidation-Good c'' req e'.dstate ready))
                (λ _. r.0)))

  send_then :
      (c : DramDirectoryCntlr E Model) (req : ShmemReq) (msg : ShmemMsg)
      (f : DramDirectoryCntlr E Model → Result (DramDirectoryCntlr E Model))
      → Ready c req
      → ((c' : DramDirectoryCntlr E Model) → Ready c' req → Yields (Good laws) (f c'))
      → Yields (Good laws) (do
        c' ← send_data_to_dram run_dram_perf_model c msg.address msg.data_buf msg.modeled
        f c')
  send_then c req msg f r go =
      Yields-bind (Kept laws c) _
        (send_data_to_dram run_dram_perf_model c msg.address msg.data_buf msg.modeled) _
        (send_data_to_dram-Kept run_dram_perf_model laws c msg.address msg.data_buf msg.modeled
          r.good)
        (λ c' _ k. go c' (Ready-Kept c c' req r k))

  after_flush-Good :
      (c : DramDirectoryCntlr E Model) (req : ShmemReq) (msg : ShmemMsg)
      → Ready c req
      → Yields (Good laws) (after_flush scheme run_dram_perf_model next c req msg)
  unfolding after_flush
  after_flush-Good c req msg r =
      Yields-type _ req.shmem_msg.msg_type _ _ _ (serve_ex c req msg.data_buf r)
        (send_then c req msg _ r (λ c' r'. serve_sh c' req msg.data_buf r'))
        (send_then c req msg _ r (λ c' r'. serve_nullify c' req r'))

  pub process_flush_rep-Good :
      (c : DramDirectoryCntlr E Model) (sender : ℕ) (msg : ShmemMsg)
      → Good laws c
      → IsTile sender
      → count c.dram_directory_req_queue_list msg.address ≤ n
      → Yields (Good laws) (process_flush_rep scheme run_dram_perf_model next c sender msg)
  unfolding process_flush_rep
  process_flush_rep-Good c sender msg g t few =
      Yields-bind _ _ (find_existing scheme c msg.address) _
        (find_existing-Kept laws c msg.address g)
        (λ (c', place, e) _ (k, h).
          Yields-bind (IsCoherent laws) _ (flushed_entry scheme e sender) _
            (flushed_entry-IsCoherent laws e sender h t)
            (λ e' _ h'.
              let r = put_entry-Ready c c' msg.address place e' few k h' in
              Yields-branch _
                (count (put_entry c' place e').dram_directory_req_queue_list msg.address == 0) _ _
                (λ _.
                  Yields-map (Kept laws (put_entry c' place e')) _ _
                    (send_data_to_dram-Kept run_dram_perf_model laws (put_entry c' place e')
                      msg.address msg.data_buf msg.modeled r.0)
                    (λ c'' k'. k'.good))
                (λ _.
                  resume-Ready (put_entry c' place e') msg.address _ r.0 r.1
                    (λ c'' req ready. after_flush-Good c'' req msg ready))))

  after_write_back-Good :
      (c : DramDirectoryCntlr E Model) (req : ShmemReq) (msg : ShmemMsg)
      → Ready c req
      → Yields (Good laws) (after_write_back scheme run_dram_perf_model next c req msg)
  unfolding after_write_back
  after_write_back-Good c req msg r = send_then c req msg _ r (λ c' r'.
      Yields-type _ req.shmem_msg.msg_type (fail log_error) _ (fail log_error) tt
        (serve_sh c' req msg.data_buf r') tt)

  pub process_wb_rep-Good :
      (c : DramDirectoryCntlr E Model) (sender : ℕ) (msg : ShmemMsg)
      → Good laws c
      → IsTile sender
      → count c.dram_directory_req_queue_list msg.address ≤ n
      → Yields (Good laws) (process_wb_rep scheme run_dram_perf_model next c sender msg)
  unfolding process_wb_rep
  process_wb_rep-Good c sender msg g t few =
      Yields-bind _ _ (find_existing scheme c msg.address) _
        (find_existing-Kept laws c msg.address g)
        (λ (c', place, e) _ (k, h).
          Yields-bind (IsCoherent laws) _ (written_back_entry scheme e sender) _
            (written_back_entry-IsCoherent laws e sender h)
            (λ e' _ h'.
              let r = put_entry-Ready c c' msg.address place e' few k h' in
              Yields-branch _
                (count (put_entry c' place e').dram_directory_req_queue_list msg.address == 0) _ _
                (λ _. tt)
                (λ _.
                  resume-Ready (put_entry c' place e') msg.address _ r.0 r.1
                    (λ c'' req ready. after_write_back-Good c'' req msg ready))))
