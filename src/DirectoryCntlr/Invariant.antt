-- ===== src/DirectoryCntlr/Invariant.antt =====
-- What holds of a directory controller between two messages, and that the calls which leave the
-- queues alone keep it.
pub mod Nullify
pub mod Allocation
pub mod Service
pub mod Progress
pub mod Entries
pub mod Replying
pub mod Handler
use graphite_atac.Prelude.{
  ℕ, suc, ◌-◌, ◌<◌, ◌≡◌, refl, sym, ◌∙◌, ap, Bool, true, false, Option, none, some, List, ℤ, Result,
  ok, ◌>>=◌, Yields, Yields-bind, Yields-after, Yields-option, Yields-map, Ends, arith,
  if◌then◌else◌, leb, ltb,
}
use graphite_atac.Queues.{HashMapQueue, count, enqueue}
use graphite_atac.Queues.Counts.{AllQueued, enqueue-AllQueued, count-enqueue}
use graphite_atac.Directory.Slots.{IsTile}
use graphite_atac.Directory.Entry.{Scheme, DirectoryEntry}
use graphite_atac.Directory.Entry.Counts.{SchemeLaws, IsCoherent}
use graphite_atac.DirectoryCache.{Place, get_directory_entry, entry_at}
use graphite_atac.DirectoryCache.Coherence.{
  AllCoherent, get_directory_entry-AllCoherent, entry_at-IsCoherent, write_entry-AllCoherent,
  incr_cycle_count-Ends,
}
use graphite_atac.DirectoryCache.Accounting.{incr_cycle_count}
use graphite_atac.Dram.{
  DramCntlr, get_data_from_dram, put_data_to_dram, line_of, allocate, latency_of, copy_line, lookup,
}
use graphite_atac.DirectoryCntlr.Messages.{MessageType, ShmemMsg, ShmemReq}
use graphite_atac.DirectoryCntlr.State.{
  DramDirectoryCntlr, emit, send, get_entry, put_entry, find_entry, queue_request,
  retrieve_data_and_send_to_l2_cache, send_data_to_dram,
}

-- A request waits in the queue of its line, and comes from a tile.
abbrev pub RequestOk : ℕ → Option ShmemReq → Type 0
RequestOk key none = Unit
RequestOk key (some req) = (req.shmem_msg.address ≡ key) × IsTile req.shmem_msg.requester

copy_line-Ends : (size : ℕ) (buffer : List ℕ) → Ends (copy_line size buffer)
unfolding copy_line
copy_line-Ends size buffer = ground arith

module _ {E Model : Type 0} {scheme : Scheme E} (laws : SchemeLaws scheme) where
  pub record Good (c : DramDirectoryCntlr E Model) : Type 0 where
    pub cache : AllCoherent laws c.dram_directory_cache
    pub requests : AllQueued RequestOk c.dram_directory_req_queue_list

  -- The same requests wait.
  pub record Kept (c c' : DramDirectoryCntlr E Model) : Type 0 where
    pub good : Good c'
    pub queues : c'.dram_directory_req_queue_list ≡ c.dram_directory_req_queue_list

  pub find_entry-Kept :
      (c : DramDirectoryCntlr E Model) (address : ℕ)
      → Good c
      → Yields (λ r. Kept c r.0) (find_entry scheme c address)
  unfolding find_entry
  find_entry-Kept c address g =
      Yields-bind (λ r. AllCoherent laws r.0) _
        (get_directory_entry scheme c.dram_directory_cache c.cycle_count address) _
        (get_directory_entry-AllCoherent laws c.dram_directory_cache c.cycle_count address g.cache)
        (λ (cache, later, place) _ k. record {
          good = record { cache = k; requests = g.requests };
          queues = refl;
        })

  pub get_entry-IsCoherent :
      (c : DramDirectoryCntlr E Model) (place : Place)
      → Good c
      → Yields (IsCoherent laws) (get_entry c place)
  unfolding get_entry
  get_entry-IsCoherent c place g = entry_at-IsCoherent laws c.dram_directory_cache place g.cache

  pub put_entry-Kept :
      (c : DramDirectoryCntlr E Model) (place : Place) (e : DirectoryEntry E)
      → Good c
      → IsCoherent laws e
      → Kept c (put_entry c place e)
  unfolding put_entry
  put_entry-Kept c place e g k = record {
    good = record {
      cache = write_entry-AllCoherent laws c.dram_directory_cache place e g.cache k;
      requests = g.requests;
    };
    queues = refl;
  }

  pub send-Kept :
      (c : DramDirectoryCntlr E Model) (receiver : ℤ) (msg : ShmemMsg)
      → Good c
      → Kept c (send c receiver msg)
  unfolding send emit
  send-Kept c receiver msg g = record {
    good = record { cache = g.cache; requests = g.requests };
    queues = refl;
  }

  pub Kept-trans : (a b c : DramDirectoryCntlr E Model) → Kept a b → Kept b c → Kept a c
  Kept-trans a b c h k = record { good = k.good; queues = k.queues ∙ h.queues }

module _ {Model : Type 0} (run_dram_perf_model : Model → ℕ → Model × ℕ) where
  line_of-Ends : (d : DramCntlr Model) (address : ℕ) → Ends (line_of d address)
  unfolding line_of
  line_of-Ends d address =
      Yields-option _ (lookup address d.data_map) _ _ (λ _. tt)
        (λ line _. copy_line-Ends d.cache_line_size line)

  get_data_from_dram-Ends :
      (d : DramCntlr Model) (cycles address : ℕ) (modeled : Bool)
      → Ends (get_data_from_dram run_dram_perf_model d cycles address modeled)
  unfolding get_data_from_dram
  get_data_from_dram-Ends d cycles address modeled =
      Yields-after _ (line_of (allocate d address) address) _ (line_of-Ends _ address) (λ line _.
        Yields-after _ (incr_cycle_count cycles (latency_of run_dram_perf_model d modeled cycles).1)
          _ (incr_cycle_count-Ends cycles _) (λ _ _. tt))

  put_data_to_dram-Ends :
      (d : DramCntlr Model) (cycles address : ℕ) (buffer : Option (List ℕ)) (modeled : Bool)
      → Ends (put_data_to_dram run_dram_perf_model d cycles address buffer modeled)
  unfolding put_data_to_dram
  put_data_to_dram-Ends d cycles address buffer modeled =
      Yields-option _ (lookup address d.data_map) _ _ (λ _. tt)
        (λ old _.
          Yields-option _ buffer _ _ (λ _. tt)
            (λ bytes _.
              Yields-after _ (copy_line d.cache_line_size bytes) _
                (copy_line-Ends d.cache_line_size bytes) (λ _ _. tt)))

  module _ {E : Type 0} {scheme : Scheme E} (laws : SchemeLaws scheme) where
    pub retrieve_data-Kept :
        (c : DramDirectoryCntlr E Model) (type : MessageType) (receiver address : ℕ)
        (buffer : Option (List ℕ)) (modeled : Bool)
        → Good laws c
        → Yields (Kept laws c) (
            retrieve_data_and_send_to_l2_cache run_dram_perf_model c type receiver address buffer
              modeled)
    unfolding retrieve_data_and_send_to_l2_cache
    retrieve_data-Kept c type receiver address buffer modeled g =
        Yields-option _ buffer _ _
          (λ _.
            Yields-after _
              (get_data_from_dram run_dram_perf_model c.dram_cntlr c.cycle_count address modeled) _
              (get_data_from_dram-Ends c.dram_cntlr c.cycle_count address modeled)
              (λ (dram, later, line) _.
                let c' = record c { dram_cntlr = dram; cycle_count = later } in
                let k = send-Kept laws c' _ _ (record { cache = g.cache; requests = g.requests }) in
                record { good = k.good; queues = k.queues }))
          (λ bytes _. send-Kept laws c _ _ g)

    pub send_data_to_dram-Kept :
        (c : DramDirectoryCntlr E Model) (address : ℕ) (buffer : Option (List ℕ)) (modeled : Bool)
        → Good laws c
        → Yields (Kept laws c) (send_data_to_dram run_dram_perf_model c address buffer modeled)
    unfolding send_data_to_dram
    send_data_to_dram-Kept c address buffer modeled g =
        Yields-after _
          (put_data_to_dram run_dram_perf_model c.dram_cntlr c.cycle_count address buffer modeled) _
          (put_data_to_dram-Ends c.dram_cntlr c.cycle_count address buffer modeled)
          (λ dram _. record {
            good = record { cache = g.cache; requests = g.requests };
            queues = refl;
          })
