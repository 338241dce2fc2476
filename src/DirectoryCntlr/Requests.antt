-- ===== src/DirectoryCntlr/Requests.antt =====
-- The requests that wait in the queue of a line: `process_next_req` closes the recursion, on fuel.
use graphite_atac.Prelude.{
  ℕ, zero, suc, leb, true, false, Option, none, List, Result, ok, fail, log_error, out_of_fuel,
  ◌>>=◌, ◌>>◌, assert,
}
use graphite_atac.Queues.{count, dequeue, is_empty}
use graphite_atac.Directory.Entry.{
  Scheme, DirectoryEntry, uncached, shared, owned, exclusive, modified, set_owner,
}
use graphite_atac.DirectoryCache.{Place}
use graphite_atac.DirectoryCntlr.Messages.{
  MessageType, ex_req, sh_req, inv_req, flush_req, wb_req, ex_rep, sh_rep, ShmemMsg, ShmemReq,
}
use graphite_atac.DirectoryCntlr.State.{
  DramDirectoryCntlr, send, get_entry, put_entry, resume_front, retrieve_data_and_send_to_l2_cache,
}
use graphite_atac.DirectoryCntlr.Replacement.{
  find_or_allocate, is_null, message, send_invalidations,
}

module _ {E Model : Type 0} (scheme : Scheme E) (run_dram_perf_model : Model → ℕ → Model × ℕ)
    (next : ℕ → DramDirectoryCntlr E Model → Result (DramDirectoryCntlr E Model)) where
  -- The reply to the request, and the next request of the line.
  unfoldable pub reply_and_next :
      DramDirectoryCntlr E Model
      → MessageType
      → ShmemMsg
      → Option (List ℕ)
      → Result (DramDirectoryCntlr E Model)
  reply_and_next c reply_type msg cached_data_buf = do
    c' ←
        retrieve_data_and_send_to_l2_cache run_dram_perf_model c reply_type msg.requester
          msg.address cached_data_buf msg.modeled
    next msg.address c'

  unfoldable pub grant_exclusive :
      DramDirectoryCntlr E Model
      → ShmemMsg
      → Option (List ℕ)
      → Place
      → DirectoryEntry E
      → Result (DramDirectoryCntlr E Model)
  grant_exclusive c msg cached_data_buf place e = do
    (sharers, add_result) ← scheme.add_sharer e.sharers msg.requester
    assert add_result
    owned_entry ← set_owner scheme (record e { sharers = sharers }) msg.requester
    reply_and_next (put_entry c place (record owned_entry { dstate = modified })) ex_rep msg
        cached_data_buf

  unfoldable pub exclusive_entry :
      DramDirectoryCntlr E Model
      → ShmemMsg
      → Option (List ℕ)
      → Place
      → DirectoryEntry E
      → Result (DramDirectoryCntlr E Model)
  exclusive_entry c msg cached_data_buf place e = elim e.dstate [
    | modified ↦ do assert (is_null cached_data_buf); ok (send c e.owner (message flush_req msg))
    | shared ↦ do
      assert (is_null cached_data_buf)
      sharers ← scheme.get_sharers_list e.sharers
      ok (send_invalidations c sharers (message inv_req msg))
    | uncached ↦ grant_exclusive c msg cached_data_buf place e
    | owned ↦ fail log_error
    | exclusive ↦ fail log_error
  ]

  unfoldable pub process_ex_req :
      DramDirectoryCntlr E Model → ShmemReq → Option (List ℕ) → Result (DramDirectoryCntlr E Model)
  process_ex_req c req cached_data_buf = do
    (c, place) ← find_or_allocate scheme run_dram_perf_model next c req.shmem_msg
    e ← get_entry c place
    exclusive_entry c req.shmem_msg cached_data_buf place e

  -- The sharer that could not be added waits until another one is invalidated.
  unfoldable pub add_to_shared :
      DramDirectoryCntlr E Model
      → ShmemMsg
      → Option (List ℕ)
      → Place
      → DirectoryEntry E
      → Result (DramDirectoryCntlr E Model)
  add_to_shared c msg cached_data_buf place e = do
    (sharers, add_result) ← scheme.add_sharer e.sharers msg.requester
    elim add_result [
      | true ↦
          reply_and_next (put_entry c place (record e { sharers = sharers })) sh_rep msg
            cached_data_buf
      | false ↦ do
        (sharers', sharer_id) ← scheme.get_one_sharer sharers
        ok (
            send (put_entry c place (record e { sharers = sharers' })) sharer_id
              (message inv_req msg))
    ]

  unfoldable pub grant_shared :
      DramDirectoryCntlr E Model
      → ShmemMsg
      → Option (List ℕ)
      → Place
      → DirectoryEntry E
      → Result (DramDirectoryCntlr E Model)
  grant_shared c msg cached_data_buf place e = do
    (sharers, add_result) ← scheme.add_sharer e.sharers msg.requester
    assert add_result
    reply_and_next (put_entry c place (record e { dstate = shared; sharers = sharers })) sh_rep msg
        cached_data_buf

  unfoldable pub shared_entry :
      DramDirectoryCntlr E Model
      → ShmemMsg
      → Option (List ℕ)
      → Place
      → DirectoryEntry E
      → Result (DramDirectoryCntlr E Model)
  shared_entry c msg cached_data_buf place e = elim e.dstate [
    | modified ↦ do assert (is_null cached_data_buf); ok (send c e.owner (message wb_req msg))
    | shared ↦ add_to_shared c msg cached_data_buf place e
    | uncached ↦ grant_shared c msg cached_data_buf place e
    | owned ↦ fail log_error
    | exclusive ↦ fail log_error
  ]

  unfoldable pub process_sh_req :
      DramDirectoryCntlr E Model → ShmemReq → Option (List ℕ) → Result (DramDirectoryCntlr E Model)
  process_sh_req c req cached_data_buf = do
    (c, place) ← find_or_allocate scheme run_dram_perf_model next c req.shmem_msg
    e ← get_entry c place
    shared_entry c req.shmem_msg cached_data_buf place e

  -- The request that is now at the front.
  unfoldable pub process_front :
      DramDirectoryCntlr E Model → ShmemReq → Result (DramDirectoryCntlr E Model)
  process_front c req = elim req.shmem_msg.msg_type [
    | ex_req ↦ process_ex_req c req none
    | sh_req ↦ process_sh_req c req none
    | _ ↦ fail log_error
  ]

module _ {E Model : Type 0} (scheme : Scheme E) (run_dram_perf_model : Model → ℕ → Model × ℕ) where
  unfoldable pub process_next_req :
      ℕ → ℕ → DramDirectoryCntlr E Model → Result (DramDirectoryCntlr E Model)
  process_next_req zero address c = fail out_of_fuel
  process_next_req (suc fuel) address c = do
    assert (leb 1 (count c.dram_directory_req_queue_list address))
    (queue, completed) ← dequeue none c.dram_directory_req_queue_list address
    let c' = record c { dram_directory_req_queue_list = queue }
    elim (is_empty queue address) [
      | true ↦ ok c'
      | false ↦ do
        (c'', req) ← resume_front c' address
        process_front scheme run_dram_perf_model (process_next_req fuel) c'' req
    ]
