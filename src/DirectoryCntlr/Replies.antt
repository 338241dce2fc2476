-- ===== src/DirectoryCntlr/Replies.antt =====
-- The replies of the second level caches, and the dispatch of the messages of these.
use graphite_atac.Prelude.{
  ℕ, ◌==◌, ltb, Bool, true, false, none, some, Result, ok, fail, assert_failed, log_error, ◌>>=◌,
  ◌>>◌, assert, if◌then◌else◌,
}
use graphite_atac.Queues.{count}
use graphite_atac.Directory.Entry.{
  Scheme, DirectoryEntry, DirectoryState, uncached, shared, modified, clear_owner,
}
use graphite_atac.DirectoryCache.{Place}
use graphite_atac.DirectoryCntlr.Messages.{
  ex_req, sh_req, inv_rep, flush_rep, wb_rep, ShmemMsg, ShmemReq, new_request,
}
use graphite_atac.DirectoryCntlr.State.{
  DramDirectoryCntlr, get_entry, put_entry, queue_request, find_entry, resume_front,
  send_data_to_dram,
}
use graphite_atac.DirectoryCntlr.Replacement.{process_nullify_req}
use graphite_atac.DirectoryCntlr.Requests.{
  process_ex_req, process_sh_req, process_front, process_next_req,
}

abbrev pub is_shared : DirectoryState → Bool
is_shared shared = true
is_shared _ = false

abbrev pub is_modified : DirectoryState → Bool
is_modified modified = true
is_modified _ = false

module _ {E : Type 0} (scheme : Scheme E) where
  -- The entry without the sharer that was invalidated: with the last one it is uncached.
  unfoldable pub invalidated_entry : DirectoryEntry E → ℕ → Result (DirectoryEntry E)
  invalidated_entry e sender = do
    assert (is_shared e.dstate)
    sharers ← scheme.remove_sharer e.sharers sender
    ok (record e {
      sharers = sharers;
      dstate = if scheme.get_num_sharers sharers == 0 then uncached else e.dstate;
    })

  unfoldable pub flushed_entry : DirectoryEntry E → ℕ → Result (DirectoryEntry E)
  flushed_entry e sender = do
    assert (is_modified e.dstate)
    sharers ← scheme.remove_sharer e.sharers sender
    ok (record (clear_owner scheme (record e { sharers = sharers })) { dstate = uncached })

  unfoldable pub written_back_entry : DirectoryEntry E → ℕ → Result (DirectoryEntry E)
  written_back_entry e sender = do
    assert (is_modified e.dstate)
    has ← scheme.has_sharer e.sharers sender
    assert has
    ok (record (clear_owner scheme e) { dstate = shared })

module _ {E Model : Type 0} (scheme : Scheme E) where
  unfoldable pub find_existing :
      DramDirectoryCntlr E Model
      → ℕ
      → Result (DramDirectoryCntlr E Model × Place × DirectoryEntry E)
  find_existing c address = do
    (c, found) ← find_entry scheme c address
    elim found [
      | none ↦ fail assert_failed
      | some place ↦ do e ← get_entry c place; ok (c, place, e)
    ]

module _ {E Model : Type 0} (scheme : Scheme E) (run_dram_perf_model : Model → ℕ → Model × ℕ)
    (next : ℕ → DramDirectoryCntlr E Model → Result (DramDirectoryCntlr E Model)) where
  -- An exclusive request and a replacement wait for the last of the sharers.
  unfoldable pub after_invalidation :
      DramDirectoryCntlr E Model → ShmemReq → DirectoryState → Result (DramDirectoryCntlr E Model)
  after_invalidation c req dstate = elim req.shmem_msg.msg_type [
    | ex_req ↦ elim dstate [
      | uncached ↦ process_ex_req scheme run_dram_perf_model next c req none
      | _ ↦ ok c
    ]
    | sh_req ↦ process_sh_req scheme run_dram_perf_model next c req none
    | _ ↦ elim dstate [
      | uncached ↦ process_nullify_req scheme run_dram_perf_model next c req
      | _ ↦ ok c
    ]
  ]

  unfoldable pub process_inv_rep :
      DramDirectoryCntlr E Model → ℕ → ShmemMsg → Result (DramDirectoryCntlr E Model)
  process_inv_rep c sender msg = do
    (c, place, e) ← find_existing scheme c msg.address
    e' ← invalidated_entry scheme e sender
    let c' = put_entry c place e'
    elim (ltb 0 (count c'.dram_directory_req_queue_list msg.address)) [
      | false ↦ ok c'
      | true ↦ do (c'', req) ← resume_front c' msg.address; after_invalidation c'' req e'.dstate
    ]

  -- The data goes on to an exclusive request, and to memory otherwise.
  unfoldable pub after_flush :
      DramDirectoryCntlr E Model → ShmemReq → ShmemMsg → Result (DramDirectoryCntlr E Model)
  after_flush c req msg = elim req.shmem_msg.msg_type [
    | ex_req ↦ process_ex_req scheme run_dram_perf_model next c req msg.data_buf
    | sh_req ↦ do
      c' ← send_data_to_dram run_dram_perf_model c msg.address msg.data_buf msg.modeled
      process_sh_req scheme run_dram_perf_model next c' req msg.data_buf
    | _ ↦ do
      c' ← send_data_to_dram run_dram_perf_model c msg.address msg.data_buf msg.modeled
      process_nullify_req scheme run_dram_perf_model next c' req
  ]

  unfoldable pub process_flush_rep :
      DramDirectoryCntlr E Model → ℕ → ShmemMsg → Result (DramDirectoryCntlr E Model)
  process_flush_rep c sender msg = do
    (c, place, e) ← find_existing scheme c msg.address
    e' ← flushed_entry scheme e sender
    let c' = put_entry c place e'
    elim (count c'.dram_directory_req_queue_list msg.address == 0) [
      | true ↦ send_data_to_dram run_dram_perf_model c' msg.address msg.data_buf msg.modeled
      | false ↦ do (c'', req) ← resume_front c' msg.address; after_flush c'' req msg
    ]

  unfoldable pub after_write_back :
      DramDirectoryCntlr E Model → ShmemReq → ShmemMsg → Result (DramDirectoryCntlr E Model)
  after_write_back c req msg = do
    c' ← send_data_to_dram run_dram_perf_model c msg.address msg.data_buf msg.modeled
    elim req.shmem_msg.msg_type [
      | sh_req ↦ process_sh_req scheme run_dram_perf_model next c' req msg.data_buf
      | _ ↦ fail log_error
    ]

  unfoldable pub process_wb_rep :
      DramDirectoryCntlr E Model → ℕ → ShmemMsg → Result (DramDirectoryCntlr E Model)
  process_wb_rep c sender msg = do
    (c, place, e) ← find_existing scheme c msg.address
    e' ← written_back_entry scheme e sender
    let c' = put_entry c place e'
    elim (count c'.dram_directory_req_queue_list msg.address == 0) [
      | true ↦ fail log_error
      | false ↦ do (c'', req) ← resume_front c' msg.address; after_write_back c'' req msg
    ]

  -- A request is served at once if no other request of the line waits.
  unfoldable pub accept_request :
      DramDirectoryCntlr E Model → ShmemMsg → Result (DramDirectoryCntlr E Model)
  accept_request c msg = do
    req ← new_request msg c.cycle_count
    let c' = queue_request c msg.address req
    elim (count c'.dram_directory_req_queue_list msg.address == 1) [
      | true ↦ process_front scheme run_dram_perf_model next c' req
      | false ↦ ok c'
    ]

  unfoldable pub handle_msg :
      DramDirectoryCntlr E Model → ℕ → ShmemMsg → Result (DramDirectoryCntlr E Model)
  handle_msg c sender msg = elim msg.msg_type [
    | ex_req ↦ accept_request c msg
    | sh_req ↦ accept_request c msg
    | inv_rep ↦ process_inv_rep c sender msg
    | flush_rep ↦ process_flush_rep c sender msg
    | wb_rep ↦ process_wb_rep c sender msg
    | _ ↦ fail log_error
  ]

module _ {E Model : Type 0} (scheme : Scheme E) (run_dram_perf_model : Model → ℕ → Model × ℕ) where
  -- The handler, with fuel for the requests of the line that it serves.
  unfoldable pub handle_msg_from_l2_cache :
      ℕ → DramDirectoryCntlr E Model → ℕ → ShmemMsg → Result (DramDirectoryCntlr E Model)
  handle_msg_from_l2_cache fuel c sender msg =
      handle_msg scheme run_dram_perf_model (process_next_req scheme run_dram_perf_model fuel) c
        sender msg
