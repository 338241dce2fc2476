-- ===== src/DirectoryCntlr/Invariant/Service.antt =====
-- Serving the requests of a line keeps every entry coherent, and ends once the line has no request
-- that can be served.
use graphite_atac.Prelude.{
  ℕ, ◌≤◌, ◌<◌, ◌≡◌, ap, Option, none, List, Result, Yields, Yields-bind, Yields-after,
  Yields-assert, Yields-branch, arith,
}
use graphite_atac.Queues.{count}
use graphite_atac.Directory.Slots.{IsTile}
use graphite_atac.Directory.Entry.{Scheme, DirectoryEntry, uncached, shared, modified, set_owner}
use graphite_atac.Directory.Entry.Counts.{
  SchemeLaws, IsCoherent, Yields-dstate, set_owner-modified, Agrees-dstate, still_shared,
  now_shared,
}
use graphite_atac.DirectoryCache.{Place}
use graphite_atac.DirectoryCntlr.Messages.{
  MessageType, ex_req, sh_req, inv_req, flush_req, wb_req, ex_rep, sh_rep, upgrade_rep, inv_rep,
  flush_rep, wb_rep, nullify_req, ShmemMsg, ShmemReq,
}
use graphite_atac.DirectoryCntlr.State.{
  DramDirectoryCntlr, get_entry, put_entry, retrieve_data_and_send_to_l2_cache,
}
use graphite_atac.DirectoryCntlr.Replacement.{is_null, find_or_allocate}
use graphite_atac.DirectoryCntlr.Requests.{
  reply_and_next, grant_exclusive, exclusive_entry, process_ex_req, add_to_shared, grant_shared,
  shared_entry, process_sh_req, process_front,
}
use graphite_atac.DirectoryCntlr.Invariant.{
  Good, Kept, get_entry-IsCoherent, put_entry-Kept, send-Kept, retrieve_data-Kept,
}
use graphite_atac.DirectoryCntlr.Invariant.Nullify.{send_invalidations-Kept}
use graphite_atac.DirectoryCntlr.Invariant.Allocation.{ServesLast, find_or_allocate-Waits}

-- A method that tells requests from other messages.
pub Yields-type :
    {B : Type 0} (Q : B → Type 0) (type : MessageType) (r s o : Result B)
    → Yields Q r
    → Yields Q s
    → Yields Q o
    → Yields Q (elim type [ ex_req ↦ r | sh_req ↦ s | _ ↦ o ])
Yields-type Q ex_req r s o h k l = h
Yields-type Q sh_req r s o h k l = k
Yields-type Q inv_req r s o h k l = l
Yields-type Q flush_req r s o h k l = l
Yields-type Q wb_req r s o h k l = l
Yields-type Q ex_rep r s o h k l = l
Yields-type Q sh_rep r s o h k l = l
Yields-type Q upgrade_rep r s o h k l = l
Yields-type Q inv_rep r s o h k l = l
Yields-type Q flush_rep r s o h k l = l
Yields-type Q wb_rep r s o h k l = l
Yields-type Q nullify_req r s o h k l = l

module _ {E Model : Type 0} {scheme : Scheme E} (laws : SchemeLaws scheme)
    (run_dram_perf_model : Model → ℕ → Model × ℕ)
    (next : ℕ → DramDirectoryCntlr E Model → Result (DramDirectoryCntlr E Model)) where
  -- What the next request leaves behind, if no more than `n` wait.
  abbrev pub Serves : ℕ → Type 0
  Serves n =
      (address : ℕ) (c : DramDirectoryCntlr E Model)
      → Good laws c
      → count c.dram_directory_req_queue_list address ≤ n
      → Yields (Good laws) (next address c)

  module _ (n : ℕ) (serves : Serves n) where
    reply_and_next-Good :
        (c : DramDirectoryCntlr E Model) (type : MessageType) (msg : ShmemMsg)
        (buffer : Option (List ℕ))
        → Good laws c
        → count c.dram_directory_req_queue_list msg.address ≤ n
        → Yields (Good laws) (reply_and_next scheme run_dram_perf_model next c type msg buffer)
    unfolding reply_and_next
    reply_and_next-Good c type msg buffer g few =
        Yields-bind (Kept laws c) _
          (retrieve_data_and_send_to_l2_cache run_dram_perf_model c type msg.requester msg.address
            buffer msg.modeled)
          _
          (retrieve_data-Kept run_dram_perf_model laws c type msg.requester msg.address buffer
            msg.modeled g)
          (λ c' _ k.
            serves msg.address c' k.good
              (omega (arith, few, ap (λ q. count q msg.address) k.queues)))

    put_and_reply :
        (c : DramDirectoryCntlr E Model) (place : Place) (e : DirectoryEntry E) (type : MessageType)
        (msg : ShmemMsg) (buffer : Option (List ℕ))
        → Good laws c
        → count c.dram_directory_req_queue_list msg.address ≤ n
        → IsCoherent laws e
        → Yields
            (Good laws)
            (reply_and_next scheme run_dram_perf_model next (put_entry c place e) type msg buffer)
    put_and_reply c place e type msg buffer g few h =
        let k = put_entry-Kept laws c place e g h in
        reply_and_next-Good (put_entry c place e) type msg buffer k.good
          (omega (arith, few, ap (λ q. count q msg.address) k.queues))

    grant_exclusive-Good :
        (c : DramDirectoryCntlr E Model) (msg : ShmemMsg) (buffer : Option (List ℕ)) (place : Place)
        (e : DirectoryEntry E)
        → Good laws c
        → count c.dram_directory_req_queue_list msg.address ≤ n
        → IsTile msg.requester
        → IsCoherent laws e
        → e.dstate ≡ uncached
        → Yields (Good laws) (grant_exclusive scheme run_dram_perf_model next c msg buffer place e)
    unfolding grant_exclusive set_owner
    grant_exclusive-Good c msg buffer place e g few t h u =
        let (empty, unowned) = Agrees-dstate laws e uncached h u in
        Yields-bind _ _ (scheme.add_sharer e.sharers msg.requester) _
          (laws.add_sharer-count e.sharers msg.requester h.counted t)
          (λ (sharers, added) _ (counted, size). Yields-assert _ added _ (λ yes_added.
            let one : scheme.get_num_sharers sharers ≡ 1 = ground (arith, size, empty) in
            Yields-bind (λ e'. IsCoherent laws (record e' { dstate = modified })) _
              (set_owner scheme (record e { sharers = sharers }) msg.requester) _
              (set_owner-modified laws (record e { sharers = sharers }) msg.requester counted one)
              (λ e' _ k. put_and_reply c place _ ex_rep msg buffer g few k)))

    exclusive_entry-Good :
        (c : DramDirectoryCntlr E Model) (msg : ShmemMsg) (buffer : Option (List ℕ)) (place : Place)
        (e : DirectoryEntry E)
        → Good laws c
        → count c.dram_directory_req_queue_list msg.address ≤ n
        → IsTile msg.requester
        → IsCoherent laws e
        → Yields (Good laws) (exclusive_entry scheme run_dram_perf_model next c msg buffer place e)
    unfolding exclusive_entry
    exclusive_entry-Good c msg buffer place e g few t h =
        Yields-dstate _ e.dstate _ _ _ (grant_exclusive-Good c msg buffer place e g few t h)
          (λ _. Yields-assert _ (is_null buffer) _ (λ _.
            Yields-after _ (scheme.get_sharers_list e.sharers) _
              (laws.get_sharers_list-Ends e.sharers)
              (λ sharers _. (send_invalidations-Kept laws c sharers _ g).good)))
          (λ _. Yields-assert _ (is_null buffer) _ (λ _. (send-Kept laws c _ _ g).good))

    pub process_ex_req-Good :
        (c : DramDirectoryCntlr E Model) (req : ShmemReq) (buffer : Option (List ℕ))
        → ServesLast laws run_dram_perf_model next
        → Good laws c
        → 0 < count c.dram_directory_req_queue_list req.shmem_msg.address
        → count c.dram_directory_req_queue_list req.shmem_msg.address ≤ n
        → IsTile req.shmem_msg.requester
        → Yields (Good laws) (process_ex_req scheme run_dram_perf_model next c req buffer)
    unfolding process_ex_req
    process_ex_req-Good c req buffer last g waits few t =
        Yields-bind _ _ (find_or_allocate scheme run_dram_perf_model next c req.shmem_msg) _
          (find_or_allocate-Waits laws run_dram_perf_model next c req.shmem_msg last g t waits)
          (λ (c', place) _ w.
            Yields-bind _ _ (get_entry c' place) _ (get_entry-IsCoherent laws c' place w.good)
              (λ e _ h.
                exclusive_entry-Good c' req.shmem_msg buffer place e w.good
                  (omega (arith, few, w.waiting)) t h))

    add_to_shared-Good :
        (c : DramDirectoryCntlr E Model) (msg : ShmemMsg) (buffer : Option (List ℕ)) (place : Place)
        (e : DirectoryEntry E)
        → Good laws c
        → count c.dram_directory_req_queue_list msg.address ≤ n
        → IsTile msg.requester
        → IsCoherent laws e
        → e.dstate ≡ shared
        → Yields (Good laws) (add_to_shared scheme run_dram_perf_model next c msg buffer place e)
    unfolding add_to_shared
    add_to_shared-Good c msg buffer place e g few t h u =
        let (some_before, unowned) = Agrees-dstate laws e shared h u in
        Yields-bind _ _ (scheme.add_sharer e.sharers msg.requester) _
          (laws.add_sharer-count e.sharers msg.requester h.counted t)
          (λ (sharers, added) _ (counted, size).
            Yields-branch _ added _ _
              (λ yes_added.
                put_and_reply c place _ sh_rep msg buffer g few
                  (still_shared laws e sharers h u counted (ground (arith, size))))
              (λ not_added.
                Yields-bind _ _ (scheme.get_one_sharer sharers) _
                  (laws.get_one_sharer-count sharers counted)
                  (λ (sharers', sharer_id) _ (counted', size').
                    let e' = record e { sharers = sharers' } in
                    let k = put_entry-Kept laws c place e' g (
                      still_shared laws e sharers' h u counted'
                        (ground (arith, size, size', some_before))) in
                    (send-Kept laws (put_entry c place e') sharer_id _ k.good).good)))

    grant_shared-Good :
        (c : DramDirectoryCntlr E Model) (msg : ShmemMsg) (buffer : Option (List ℕ)) (place : Place)
        (e : DirectoryEntry E)
        → Good laws c
        → count c.dram_directory_req_queue_list msg.address ≤ n
        → IsTile msg.requester
        → IsCoherent laws e
        → e.dstate ≡ uncached
        → Yields (Good laws) (grant_shared scheme run_dram_perf_model next c msg buffer place e)
    unfolding grant_shared
    grant_shared-Good c msg buffer place e g few t h u =
        Yields-bind _ _ (scheme.add_sharer e.sharers msg.requester) _
          (laws.add_sharer-count e.sharers msg.requester h.counted t)
          (λ (sharers, added) _ (counted, size). Yields-assert _ added _ (λ yes_added.
            put_and_reply c place _ sh_rep msg buffer g few
              (now_shared laws e sharers h u counted (ground (arith, size)))))

    shared_entry-Good :
        (c : DramDirectoryCntlr E Model) (msg : ShmemMsg) (buffer : Option (List ℕ)) (place : Place)
        (e : DirectoryEntry E)
        → Good laws c
        → count c.dram_directory_req_queue_list msg.address ≤ n
        → IsTile msg.requester
        → IsCoherent laws e
        → Yields (Good laws) (shared_entry scheme run_dram_perf_model next c msg buffer place e)
    unfolding shared_entry
    shared_entry-Good c msg buffer place e g few t h =
        Yields-dstate _ e.dstate _ _ _ (grant_shared-Good c msg buffer place e g few t h)
          (add_to_shared-Good c msg buffer place e g few t h)
          (λ _. Yields-assert _ (is_null buffer) _ (λ _. (send-Kept laws c _ _ g).good))

    pub process_sh_req-Good :
        (c : DramDirectoryCntlr E Model) (req : ShmemReq) (buffer : Option (List ℕ))
        → ServesLast laws run_dram_perf_model next
        → Good laws c
        → 0 < count c.dram_directory_req_queue_list req.shmem_msg.address
        → count c.dram_directory_req_queue_list req.shmem_msg.address ≤ n
        → IsTile req.shmem_msg.requester
        → Yields (Good laws) (process_sh_req scheme run_dram_perf_model next c req buffer)
    unfolding process_sh_req
    process_sh_req-Good c req buffer last g waits few t =
        Yields-bind _ _ (find_or_allocate scheme run_dram_perf_model next c req.shmem_msg) _
          (find_or_allocate-Waits laws run_dram_perf_model next c req.shmem_msg last g t waits)
          (λ (c', place) _ w.
            Yields-bind _ _ (get_entry c' place) _ (get_entry-IsCoherent laws c' place w.good)
              (λ e _ h.
                shared_entry-Good c' req.shmem_msg buffer place e w.good
                  (omega (arith, few, w.waiting)) t h))

    pub process_front-Good :
        (c : DramDirectoryCntlr E Model) (req : ShmemReq)
        → ServesLast laws run_dram_perf_model next
        → Good laws c
        → 0 < count c.dram_directory_req_queue_list req.shmem_msg.address
        → count c.dram_directory_req_queue_list req.shmem_msg.address ≤ n
        → IsTile req.shmem_msg.requester
        → Yields (Good laws) (process_front scheme run_dram_perf_model next c req)
    unfolding process_front
    process_front-Good c req last g waits few t =
        Yields-type _ req.shmem_msg.msg_type _ _ _
          (process_ex_req-Good c req none last g waits few t)
          (process_sh_req-Good c req none last g waits few t) tt
