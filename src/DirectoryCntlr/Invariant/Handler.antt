-- ===== src/DirectoryCntlr/Invariant/Handler.antt =====
-- Every message of a second level cache keeps the controller's invariant, and is handled to the end
-- with as much fuel as requests of its line wait.
use graphite_atac.Prelude.{
  ℕ, suc, ◌≤◌, ◌==◌, ◌≡◌, refl, ◌∙◌, ap, Result, ok, fail, out_of_fuel, log_error, Yields,
  Yields-bind, Yields-option, Yields-branch, Yields-ok, Yields-ends, arith, ==_iff,
}
use graphite_atac.Queues.{count}
use graphite_atac.Directory.Slots.{IsTile}
use graphite_atac.Directory.Entry.{Scheme}
use graphite_atac.Directory.Entry.Counts.{SchemeLaws}
use graphite_atac.DirectoryCntlr.Messages.{
  MessageType, ex_req, sh_req, inv_req, flush_req, wb_req, ex_rep, sh_rep, upgrade_rep, inv_rep,
  flush_rep, wb_rep, nullify_req, ShmemMsg, new_request,
}
use graphite_atac.DirectoryCntlr.State.{DramDirectoryCntlr, queue_request}
use graphite_atac.DirectoryCntlr.Requests.{process_next_req}
use graphite_atac.DirectoryCntlr.Replies.{accept_request, handle_msg, handle_msg_from_l2_cache}
use graphite_atac.DirectoryCntlr.Invariant.{Good}
use graphite_atac.DirectoryCntlr.Invariant.Allocation.{queue_request-Good}
use graphite_atac.DirectoryCntlr.Invariant.Service.{process_front-Good}
use graphite_atac.DirectoryCntlr.Invariant.Progress.{process_next_req-last, process_next_req-Serves}
use graphite_atac.DirectoryCntlr.Invariant.Replying.{
  process_inv_rep-Good, process_flush_rep-Good, process_wb_rep-Good,
}

Yields-message :
    {B : Type 0} (Q : B → Type 0) (type : MessageType) (request inv flush wb : Result B)
    → Yields Q request
    → Yields Q inv
    → Yields Q flush
    → Yields Q wb
    → Yields Q (elim type [
      | ex_req ↦ request
      | sh_req ↦ request
      | inv_rep ↦ inv
      | flush_rep ↦ flush
      | wb_rep ↦ wb
      | _ ↦ fail log_error
    ])
Yields-message Q ex_req request inv flush wb a b c d = a
Yields-message Q sh_req request inv flush wb a b c d = a
Yields-message Q inv_req request inv flush wb a b c d = tt
Yields-message Q flush_req request inv flush wb a b c d = tt
Yields-message Q wb_req request inv flush wb a b c d = tt
Yields-message Q ex_rep request inv flush wb a b c d = tt
Yields-message Q sh_rep request inv flush wb a b c d = tt
Yields-message Q upgrade_rep request inv flush wb a b c d = tt
Yields-message Q inv_rep request inv flush wb a b c d = b
Yields-message Q flush_rep request inv flush wb a b c d = c
Yields-message Q wb_rep request inv flush wb a b c d = d
Yields-message Q nullify_req request inv flush wb a b c d = tt

new_request_lem :
    (msg : ShmemMsg) (time : ℕ) → Yields (λ r. r.shmem_msg ≡ msg) (new_request msg time)
unfolding new_request
new_request_lem msg time = Yields-option _ msg.data_buf _ _ (λ _. refl) (λ _ _. tt)

module _ {E Model : Type 0} {scheme : Scheme E} (laws : SchemeLaws scheme)
    (run_dram_perf_model : Model → ℕ → Model × ℕ) where
  accept_request-Good :
      (fuel : ℕ) (c : DramDirectoryCntlr E Model) (msg : ShmemMsg)
      → Good laws c
      → IsTile msg.requester
      → Yields (Good laws) (
          accept_request scheme run_dram_perf_model
            (process_next_req scheme run_dram_perf_model (suc fuel))
            c
            msg)
  unfolding accept_request
  accept_request-Good fuel c msg g t =
      Yields-bind _ _ (new_request msg c.cycle_count) _ (new_request_lem msg c.cycle_count)
        (λ req _ same.
          let c' = queue_request c msg.address req in
          let g' =
            queue_request-Good laws run_dram_perf_model
              (process_next_req scheme run_dram_perf_model (suc fuel)) c msg.address req g
              (ap (λ (m : ShmemMsg). m.address) same, rw (same) t) in
          Yields-branch _ (count c'.dram_directory_req_queue_list msg.address == 1) _ _
            (λ one.
              let here : count c'.dram_directory_req_queue_list req.shmem_msg.address ≡ 1 =
                ap (λ (m : ShmemMsg). count c'.dram_directory_req_queue_list m.address) same
                ∙ (==_iff _ 1).0 one in
              process_front-Good laws run_dram_perf_model
                (process_next_req scheme run_dram_perf_model (suc fuel)) (suc fuel)
                (process_next_req-Serves laws run_dram_perf_model fuel) c' req
                (process_next_req-last laws run_dram_perf_model fuel) g' (omega (arith, here))
                (omega (arith, here)) (rw (same) t))
            (λ _. g'))

  -- Whatever message of a tile comes, the invariant is kept and the fuel does not run out.
  handled :
      (fuel : ℕ) (c : DramDirectoryCntlr E Model) (sender : ℕ) (msg : ShmemMsg)
      → Good laws c
      → IsTile sender
      → IsTile msg.requester
      → count c.dram_directory_req_queue_list msg.address ≤ suc fuel
      → Yields
          (Good laws)
          (handle_msg_from_l2_cache scheme run_dram_perf_model (suc fuel) c sender msg)
  unfolding handle_msg_from_l2_cache handle_msg
  handled fuel c sender msg g t u few =
      let next = process_next_req scheme run_dram_perf_model (suc fuel) in
      let serves = process_next_req-Serves laws run_dram_perf_model fuel in
      let last = process_next_req-last laws run_dram_perf_model fuel in
      Yields-message _ msg.msg_type _ _ _ _ (accept_request-Good fuel c msg g u)
        (process_inv_rep-Good laws run_dram_perf_model next (suc fuel) serves last c sender msg g t
          few)
        (process_flush_rep-Good laws run_dram_perf_model next (suc fuel) serves last c sender msg g
          t few)
        (process_wb_rep-Good laws run_dram_perf_model next (suc fuel) serves last c sender msg g t
          few)

  -- If every entry of a directory controller is coherent and the requests that wait are queued by
  -- their lines, then after any message of a tile that is handled without a fault, with as much
  -- fuel as requests of its line wait, this holds again: an uncached line has no sharer, a shared
  -- one has sharers and no owner, and a modified one has its owner as the only sharer.
  pub handle_msg-Good :
      (fuel : ℕ) (c c' : DramDirectoryCntlr E Model) (sender : ℕ) (msg : ShmemMsg)
      → Good laws c
      → IsTile sender
      → IsTile msg.requester
      → count c.dram_directory_req_queue_list msg.address ≤ suc fuel
      → handle_msg_from_l2_cache scheme run_dram_perf_model (suc fuel) c sender msg ≡ ok c'
      → Good laws c'
  handle_msg-Good fuel c c' sender msg g t u few e =
      Yields-ok (Good laws) _ (handled fuel c sender msg g t u few) e

  -- Under the invariant of the directory controller, as much fuel as requests of its line wait, and
  -- no less than one, is enough to handle any message of a tile: the recursion from one request to
  -- the next, with the replacements on the way, does not run out of it.
  pub handle_msg-ends :
      (fuel : ℕ) (c : DramDirectoryCntlr E Model) (sender : ℕ) (msg : ShmemMsg)
      → Good laws c
      → IsTile sender
      → IsTile msg.requester
      → count c.dram_directory_req_queue_list msg.address ≤ suc fuel
      → ¬ (
          handle_msg_from_l2_cache scheme run_dram_perf_model (suc fuel) c sender msg
          ≡ fail out_of_fuel)
  handle_msg-ends fuel c sender msg g t u few =
      Yields-ends (Good laws) _ (handled fuel c sender msg g t u few)
