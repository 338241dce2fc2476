-- ===== src/DirectoryCntlr/Replacement.antt =====
-- The entry that is replaced for a new line, and the request that empties its line. The methods that
-- call one another are functions of `next`, the call of processNextReqFromL2Cache at their end.
use graphite_atac.Prelude.{
  ℕ, ◌==◌, ltb, ◌&&◌, Bool, true, false, Option, none, some, List, [], ◌∷◌, ℤ, Result, ok, fail,
  assert_failed, log_error, ◌>>=◌, ◌>>◌, assert,
}
use graphite_atac.Queues.{HashMapQueue, count}
use graphite_atac.Directory.Entry.{
  Scheme, DirectoryEntry, uncached, shared, owned, exclusive, modified,
}
use graphite_atac.DirectoryCache.{
  Place, get_replacement_candidates, replace_directory_entry, invalidate_directory_entry,
}
use graphite_atac.DirectoryCntlr.Messages.{
  MessageType, inv_req, flush_req, nullify_req, ShmemMsg, ShmemReq, new_request,
}
use graphite_atac.DirectoryCntlr.State.{
  DramDirectoryCntlr, send, send_each, broadcast, get_entry, queue_request, find_entry,
}

-- A message of the directory for the request's tile and line, with no data.
unfoldable pub message : MessageType → ShmemMsg → ShmemMsg
message type req = record {
  msg_type = type;
  requester = req.requester;
  address = req.address;
  data_buf = none;
  modeled = req.modeled;
}

unfoldable pub nullify_message : ℕ → ℕ → Bool → ShmemMsg
nullify_message requester replaced_address modeled = record {
  msg_type = nullify_req;
  requester = requester;
  address = replaced_address;
  data_buf = none;
  modeled = modeled;
}

abbrev pub is_null {ℓ} : {A : Type ℓ} → Option A → Bool
is_null none = true
is_null (some a) = false

-- The count of the requests of an entry's line; the address of a candidate is always valid.
unfoldable pub requests_of : HashMapQueue (Option ShmemReq) → Option ℕ → ℕ
requests_of m none = 0
requests_of m (some address) = count m address

module _ {E : Type 0} (scheme : Scheme E) where
  -- Whether a candidate takes the place of the one so far.
  unfoldable pub is_better : Option (DirectoryEntry E) → DirectoryEntry E → Bool
  is_better none e = true
  is_better (some best) e =
      ltb (scheme.get_num_sharers e.sharers) (scheme.get_num_sharers best.sharers)

  -- The loop over the candidates: the first with the fewest sharers of those without a request.
  unfoldable pub choose_candidate :
      HashMapQueue (Option ShmemReq)
      → Option (DirectoryEntry E)
      → List (DirectoryEntry E)
      → Option (DirectoryEntry E)
  choose_candidate queue best [] = best
  choose_candidate queue best (e ∷ list) =
      let best' : Option (DirectoryEntry E) =
        elim (is_better best e && requests_of queue e.address == 0) [
          | true ↦ some e
          | false ↦ best
        ] in
      choose_candidate queue best' list

-- To all tiles if the entry says so, or else to each sharer.
unfoldable pub send_invalidations :
    {E Model : Type 0}
    → DramDirectoryCntlr E Model
    → List ℤ × Bool
    → ShmemMsg
    → DramDirectoryCntlr E Model
send_invalidations c (list, true) msg = broadcast c msg
send_invalidations c (list, false) msg = send_each c list msg

module _ {E Model : Type 0} (scheme : Scheme E) (run_dram_perf_model : Model → ℕ → Model × ℕ)
    (next : ℕ → DramDirectoryCntlr E Model → Result (DramDirectoryCntlr E Model)) where
  unfoldable pub nullify_entry :
      DramDirectoryCntlr E Model → ShmemMsg → DirectoryEntry E → Result (DramDirectoryCntlr E Model)
  nullify_entry c msg e = elim e.dstate [
    | modified ↦ ok (send c e.owner (message flush_req msg))
    | shared ↦ do
      sharers ← scheme.get_sharers_list e.sharers
      ok (send_invalidations c sharers (message inv_req msg))
    | uncached ↦ do
      cache ← invalidate_directory_entry c.dram_directory_cache msg.address
      next msg.address (record c { dram_directory_cache = cache })
    | owned ↦ fail log_error
    | exclusive ↦ fail log_error
  ]

  unfoldable pub process_nullify_req :
      DramDirectoryCntlr E Model → ShmemReq → Result (DramDirectoryCntlr E Model)
  process_nullify_req c req = do
    (c, found) ← find_entry scheme c req.shmem_msg.address
    elim found [
      | none ↦ fail assert_failed
      | some place ↦ do e ← get_entry c place; nullify_entry c req.shmem_msg e
    ]

  -- The request that empties the replaced line, which has no other.
  unfoldable pub nullify_replaced :
      DramDirectoryCntlr E Model → ShmemMsg → ℕ → ℕ → Result (DramDirectoryCntlr E Model)
  nullify_replaced c msg replaced_address msg_time = do
    let nullify_msg = nullify_message msg.requester replaced_address c.capacity_misses_modeled
    nullify ← new_request nullify_msg msg_time
    let queued = queue_request c replaced_address nullify
    assert (count queued.dram_directory_req_queue_list replaced_address == 1)
    process_nullify_req queued nullify

  unfoldable pub replace_candidate :
      DramDirectoryCntlr E Model
      → ShmemMsg
      → ℕ
      → Option (DirectoryEntry E)
      → Result (DramDirectoryCntlr E Model × Place)
  replace_candidate c msg msg_time none = fail log_error
  replace_candidate c msg msg_time (some e) = elim e.address [
    | none ↦ fail log_error
    | some replaced_address ↦ do
      (cache, later, place) ←
          replace_directory_entry scheme c.dram_directory_cache c.cycle_count replaced_address
            msg.address
      c' ←
          nullify_replaced (record c { dram_directory_cache = cache; cycle_count = later }) msg
            replaced_address msg_time
      ok (c', place)
  ]

  unfoldable pub process_directory_entry_allocation_req :
      DramDirectoryCntlr E Model → ShmemMsg → Result (DramDirectoryCntlr E Model × Place)
  process_directory_entry_allocation_req c msg = do
    (cache, later, candidates) ←
        get_replacement_candidates scheme c.dram_directory_cache c.cycle_count msg.address
    replace_candidate (record c { dram_directory_cache = cache; cycle_count = later }) msg
        c.cycle_count (choose_candidate scheme c.dram_directory_req_queue_list none candidates)

  unfoldable pub find_or_allocate :
      DramDirectoryCntlr E Model → ShmemMsg → Result (DramDirectoryCntlr E Model × Place)
  find_or_allocate c msg = do
    (c, found) ← find_entry scheme c msg.address
    elim found [ some place ↦ ok (c, place) | none ↦ process_directory_entry_allocation_req c msg ]
