-- ===== src/DirectoryCntlr/State.antt =====
-- The controller's parts, and its calls of them.
use graphite_atac.Prelude.{
  ℕ, Bool, Option, none, some, List, [], ◌∷◌, ◌++◌, map, ℤ, pos, Result, ok, fail,
  undefined_behaviour, ◌>>=◌,
}
use graphite_atac.Queues.{HashMapQueue, find, put, front, enqueue}
use graphite_atac.Directory.Entry.{Scheme, DirectoryEntry}
use graphite_atac.DirectoryCache.{DirectoryCache, Place, get_directory_entry, entry_at, write_entry}
use graphite_atac.DirectoryCache.Accounting.{update_cycle_count}
use graphite_atac.Dram.{DramCntlr, get_data_from_dram, put_data_to_dram}
use graphite_atac.DirectoryCntlr.Messages.{
  MessageType, ShmemMsg, ShmemReq, update_time, Effect, send_msg, broadcast_msg,
}

-- A null pointer in a queue is none; `sent` are the packets so far, in order.
pub record DramDirectoryCntlr (E Model : Type 0) : Type 0 where
  pub dram_directory_cache : DirectoryCache E
  pub dram_cntlr : DramCntlr Model
  pub dram_directory_req_queue_list : HashMapQueue (Option ShmemReq)
  pub cycle_count : ℕ
  pub capacity_misses_modeled : Bool
  pub sent : List Effect

module _ {E Model : Type 0} where
  unfoldable pub emit : DramDirectoryCntlr E Model → Effect → DramDirectoryCntlr E Model
  emit c effect = record c { sent = c.sent ++ effect ∷ [] }

  unfoldable pub send : DramDirectoryCntlr E Model → ℤ → ShmemMsg → DramDirectoryCntlr E Model
  send c receiver msg = emit c (send_msg c.cycle_count receiver msg)

  -- The loop over a list of tiles.
  unfoldable pub send_each :
      DramDirectoryCntlr E Model → List ℤ → ShmemMsg → DramDirectoryCntlr E Model
  send_each c receivers msg = record c {
    sent = c.sent ++ map (λ r. send_msg c.cycle_count r msg) receivers;
  }

  unfoldable pub broadcast : DramDirectoryCntlr E Model → ShmemMsg → DramDirectoryCntlr E Model
  broadcast c msg = emit c (broadcast_msg c.cycle_count msg)

  unfoldable pub put_entry :
      DramDirectoryCntlr E Model → Place → DirectoryEntry E → DramDirectoryCntlr E Model
  put_entry c place e = record c {
    dram_directory_cache = write_entry c.dram_directory_cache place e;
  }

  unfoldable pub get_entry : DramDirectoryCntlr E Model → Place → Result (DirectoryEntry E)
  get_entry c place = entry_at c.dram_directory_cache place

  unfoldable pub queue_request :
      DramDirectoryCntlr E Model → ℕ → ShmemReq → DramDirectoryCntlr E Model
  queue_request c address req = record c {
    dram_directory_req_queue_list = enqueue c.dram_directory_req_queue_list address (some req);
  }

  unfoldable pub find_entry :
      Scheme E → DramDirectoryCntlr E Model → ℕ → Result (DramDirectoryCntlr E Model × Option Place)
  find_entry scheme c address = do
    (cache, later, place) ← get_directory_entry scheme c.dram_directory_cache c.cycle_count address
    ok (record c { dram_directory_cache = cache; cycle_count = later }, place)

-- A request changed through the pointer that its queue has at the front.
unfoldable pub change_front :
    HashMapQueue (Option ShmemReq) → ℕ → ShmemReq → HashMapQueue (Option ShmemReq)
change_front m address req = elim (find address m) [
  | none ↦ m
  | some [] ↦ m
  | some (old ∷ rest) ↦ put address (some req ∷ rest) m
]

unfoldable pub pointee : Option ShmemReq → Result ShmemReq
pointee none = fail undefined_behaviour
pointee (some req) = ok req

module _ {E Model : Type 0} where
  -- The request at the front, with its time and the cycle count brought up to each other.
  unfoldable pub resume_front :
      DramDirectoryCntlr E Model → ℕ → Result (DramDirectoryCntlr E Model × ShmemReq)
  resume_front c address = do
    pointer ← front none c.dram_directory_req_queue_list address
    old ← pointee pointer
    let req = update_time old c.cycle_count
    ok (
      record c {
        dram_directory_req_queue_list = change_front c.dram_directory_req_queue_list address req;
        cycle_count = update_cycle_count c.cycle_count req.time;
      },
      req,
    )

module _ {E Model : Type 0} (run_dram_perf_model : Model → ℕ → Model × ℕ) where
  unfoldable pub retrieve_data_and_send_to_l2_cache :
      DramDirectoryCntlr E Model
      → MessageType
      → ℕ
      → ℕ
      → Option (List ℕ)
      → Bool
      → Result (DramDirectoryCntlr E Model)
  retrieve_data_and_send_to_l2_cache c reply_type receiver address cached_data_buf modeled =
      elim cached_data_buf [
        | some bytes ↦ ok (
            send c (pos receiver) (record {
              msg_type = reply_type;
              requester = receiver;
              address = address;
              data_buf = some bytes;
              modeled = modeled;
            }))
        | none ↦ do
          (dram, later, line) ←
              get_data_from_dram run_dram_perf_model c.dram_cntlr c.cycle_count address modeled
          ok (
              send (record c { dram_cntlr = dram; cycle_count = later }) (pos receiver)
                (record {
                  msg_type = reply_type;
                  requester = receiver;
                  address = address;
                  data_buf = some line;
                  modeled = modeled;
                }))
      ]

  unfoldable pub send_data_to_dram :
      DramDirectoryCntlr E Model → ℕ → Option (List ℕ) → Bool → Result (DramDirectoryCntlr E Model)
  send_data_to_dram c address data_buf modeled = do
    dram ← put_data_to_dram run_dram_perf_model c.dram_cntlr c.cycle_count address data_buf modeled
    ok (record c { dram_cntlr = dram })
