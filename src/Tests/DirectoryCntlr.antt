-- ===== src/Tests/DirectoryCntlr.antt =====
-- The directory controller of the MSI protocol on small inputs: two sets of one entry, lines of two
-- bytes and at most two sharers.
use graphite_atac.Prelude.{
  ℕ, ◌≡◌, refl, ◌<◌, List, [], ◌∷◌, arith, ok, fail, true, pos, none, some, Result, ◌>>=◌,
  out_of_fuel, if◌then◌else◌, ◌==◌, Option, Yields,
}
use graphite_atac.Queues
use graphite_atac.Directory.Entry
use graphite_atac.Directory.Slots
use graphite_atac.Directory.Limited
use graphite_atac.Directory.Schemes
use graphite_atac.DirectoryCache.Accounting
use graphite_atac.DirectoryCache
use graphite_atac.Dram
use graphite_atac.DirectoryCntlr.Messages
use graphite_atac.DirectoryCntlr.State
use graphite_atac.DirectoryCntlr.Replacement
use graphite_atac.DirectoryCntlr.Requests
use graphite_atac.DirectoryCntlr.Replies
use graphite_atac.Directory.Entry.{Scheme, DirectoryEntry, new_entry, shared, uncached}
use graphite_atac.Directory.Entry.Counts.{new_entry-IsCoherent}
use graphite_atac.Directory.Limited.{Limited}
use graphite_atac.Directory.Schemes.{Seeded, limited_scheme}
use graphite_atac.Directory.Schemes.Laws.{limited_scheme-laws}
use graphite_atac.DirectoryCache.{
  DirectoryCache, Place, in_directory, get_directory_entry, compute_set_index, entry_num,
  replace_directory_entry,
}
use graphite_atac.DirectoryCache.Accounting.{no_events}
use graphite_atac.Dram.{DramCntlr, lookup, put_data_to_dram, get_data_from_dram}
use graphite_atac.Dram.Contents
use graphite_atac.DirectoryCntlr.Messages.{
  MessageType, ex_req, sh_req, inv_req, flush_req, wb_req, ex_rep, sh_rep, inv_rep, flush_rep,
  wb_rep, ShmemMsg, Effect, send_msg, broadcast_msg,
}
use graphite_atac.DirectoryCntlr.State.{DramDirectoryCntlr}
use graphite_atac.DirectoryCntlr.Replies.{handle_msg_from_l2_cache, find_existing}
use graphite_atac.DirectoryCntlr.Invariant.{Good}
use graphite_atac.DirectoryCntlr.Invariant.Handler
use graphite_atac.DirectoryCntlr.Candidates
use graphite_atac.DirectoryCntlr.Replacement.{choose_candidate}
use graphite_atac.DirectoryCache.SetIndex
use graphite_atac.DirectoryCache.Lookup
use graphite_atac.DirectoryCache.Replacing

abbrev limited : Scheme (Seeded Limited)
limited = limited_scheme 2

abbrev Cntlr : Type 0
Cntlr = DramDirectoryCntlr (Seeded Limited) (Unit {0})

abbrev instant : Unit {0} → ℕ → Unit {0} × ℕ
instant model time = (model, 0)

abbrev start_cache : DirectoryCache (Seeded Limited)
start_cache = record {
  directory_entry_list = new_entry limited ∷ new_entry limited ∷ [];
  replaced_directory_entry_list = [];
  associativity = 1;
  log_num_sets = 1;
  log_cache_line_size = 6;
  log_num_directories = 0;
  enabled = true;
  directory_access_delay = 3;
  counters = no_events;
}

abbrev start : Cntlr
start = record {
  dram_directory_cache = start_cache;
  dram_cntlr = record {
    cache_line_size = 2;
    data_map = [];
    read_count = [];
    write_count = [];
    perf_model = tt;
  };
  dram_directory_req_queue_list = [];
  cycle_count = 10;
  capacity_misses_modeled = true;
  sent = [];
}

abbrev message_of : MessageType → ℕ → Option (List ℕ) → ShmemMsg
message_of type tile bytes = record {
  msg_type = type;
  requester = tile;
  address = 64;
  data_buf = bytes;
  modeled = true;
}

abbrev handle : Cntlr → ℕ → ShmemMsg → Result Cntlr
handle c sender msg = handle_msg_from_l2_cache limited instant 3 c sender msg

-- Tile 3 takes the line, and gives it up when tile 5 wants to write it.
abbrev two_writers : Result Cntlr
two_writers = do
  c ← handle start 3 (message_of ex_req 3 none)
  c ← handle c 5 (message_of ex_req 5 none)
  handle c 3 (message_of flush_rep 3 (some (7 ∷ 8 ∷ [])))

abbrev sent_by : Result Cntlr → List Effect
sent_by (ok c) = c.sent
sent_by (fail f) = []

two_writers_sent :
    sent_by two_writers
    ≡ send_msg 13 (pos 3) (message_of ex_rep 3 (some (0 ∷ 0 ∷ [])))
      ∷ send_msg 16 (pos 3) (message_of flush_req 5 none)
      ∷ send_msg 22 (pos 5) (message_of ex_rep 5 (some (7 ∷ 8 ∷ [])))
      ∷ []
unfolding Queues.find Queues.put Queues.erase Queues.enqueue Queues.dequeue Queues.front
    Queues.count Queues.is_empty Queues.size Entry.new_entry Entry.set_owner Entry.clear_owner
    Slots.has_slot Slots.holds Slots.fill Slots.clear Slots.occupied Limited.new_limited
    Limited.has_sharer Limited.add_sharer Limited.remove_sharer Limited.get_sharers_list
    Limited.get_num_sharers Limited.next Limited.get_one_sharer Limited.remove_sharer_no_broadcast
    Schemes.limited_scheme Schemes.ackwise_scheme Accounting.no_events Accounting.update_counters
    Accounting.incr_cycle_count Accounting.update_cycle_count DirectoryCache.get_bits
    DirectoryCache.fold_groups DirectoryCache.compute_set_index DirectoryCache.entry_num
    DirectoryCache.find_way DirectoryCache.ways_of DirectoryCache.find_replaced
    DirectoryCache.access DirectoryCache.hit DirectoryCache.take_free
    DirectoryCache.get_directory_entry DirectoryCache.get_replacement_candidates
    DirectoryCache.put_new DirectoryCache.replace_directory_entry DirectoryCache.erase_at
    DirectoryCache.invalidate_directory_entry DirectoryCache.entry_at DirectoryCache.write_entry
    Dram.lookup Dram.insert Dram.copy_line Dram.add_to_count Dram.allocate Dram.line_of
    Dram.latency_of Dram.get_data_from_dram Dram.put_data_to_dram Messages.new_request
    Messages.update_time State.emit State.send State.send_each State.broadcast State.put_entry
    State.get_entry State.queue_request State.find_entry State.change_front State.pointee
    State.resume_front State.retrieve_data_and_send_to_l2_cache State.send_data_to_dram
    Replacement.message Replacement.nullify_message Replacement.requests_of Replacement.is_better
    Replacement.choose_candidate Replacement.send_invalidations Replacement.nullify_entry
    Replacement.process_nullify_req Replacement.nullify_replaced Replacement.replace_candidate
    Replacement.process_directory_entry_allocation_req Replacement.find_or_allocate
    Requests.reply_and_next Requests.grant_exclusive Requests.exclusive_entry
    Requests.process_ex_req Requests.add_to_shared Requests.grant_shared Requests.shared_entry
    Requests.process_sh_req Requests.process_front Requests.process_next_req
    Replies.invalidated_entry Replies.flushed_entry Replies.written_back_entry Replies.find_existing
    Replies.after_invalidation Replies.process_inv_rep Replies.after_flush Replies.process_flush_rep
    Replies.after_write_back Replies.process_wb_rep Replies.accept_request Replies.handle_msg
    Replies.handle_msg_from_l2_cache
two_writers_sent = refl

start-Good : Good (limited_scheme-laws 2) start
start-Good = record {
  cache = record {
    listed = (
      new_entry-IsCoherent (limited_scheme-laws 2),
      (new_entry-IsCoherent (limited_scheme-laws 2), tt),
    );
    replaced = tt;
    groups = omega arith;
  };
  requests = tt;
}

handle_msg-ends_example : ¬ (handle start 3 (message_of ex_req 3 none) ≡ fail out_of_fuel)
unfolding Queues.count Queues.find
handle_msg-ends_example =
    Handler.handle_msg-ends (limited_scheme-laws 2) instant 2 start 3 (message_of ex_req 3 none)
      start-Good (omega arith) (omega arith) (omega arith)

abbrev value_or : {A : Type 0} → A → Result A → A
value_or a (ok b) = b
value_or a (fail f) = a

-- Tile 3 has the line.
abbrev granted : Cntlr
granted = value_or start (handle start 3 (message_of ex_req 3 none))

handle_msg-Good_example : Good (limited_scheme-laws 2) granted
unfolding Queues.find Queues.put Queues.erase Queues.enqueue Queues.dequeue Queues.front
    Queues.count Queues.is_empty Queues.size Entry.new_entry Entry.set_owner Entry.clear_owner
    Slots.has_slot Slots.holds Slots.fill Slots.clear Slots.occupied Limited.new_limited
    Limited.has_sharer Limited.add_sharer Limited.remove_sharer Limited.get_sharers_list
    Limited.get_num_sharers Limited.next Limited.get_one_sharer Limited.remove_sharer_no_broadcast
    Schemes.limited_scheme Schemes.ackwise_scheme Accounting.no_events Accounting.update_counters
    Accounting.incr_cycle_count Accounting.update_cycle_count DirectoryCache.get_bits
    DirectoryCache.fold_groups DirectoryCache.compute_set_index DirectoryCache.entry_num
    DirectoryCache.find_way DirectoryCache.ways_of DirectoryCache.find_replaced
    DirectoryCache.access DirectoryCache.hit DirectoryCache.take_free
    DirectoryCache.get_directory_entry DirectoryCache.get_replacement_candidates
    DirectoryCache.put_new DirectoryCache.replace_directory_entry DirectoryCache.erase_at
    DirectoryCache.invalidate_directory_entry DirectoryCache.entry_at DirectoryCache.write_entry
    Dram.lookup Dram.insert Dram.copy_line Dram.add_to_count Dram.allocate Dram.line_of
    Dram.latency_of Dram.get_data_from_dram Dram.put_data_to_dram Messages.new_request
    Messages.update_time State.emit State.send State.send_each State.broadcast State.put_entry
    State.get_entry State.queue_request State.find_entry State.change_front State.pointee
    State.resume_front State.retrieve_data_and_send_to_l2_cache State.send_data_to_dram
    Replacement.message Replacement.nullify_message Replacement.requests_of Replacement.is_better
    Replacement.choose_candidate Replacement.send_invalidations Replacement.nullify_entry
    Replacement.process_nullify_req Replacement.nullify_replaced Replacement.replace_candidate
    Replacement.process_directory_entry_allocation_req Replacement.find_or_allocate
    Requests.reply_and_next Requests.grant_exclusive Requests.exclusive_entry
    Requests.process_ex_req Requests.add_to_shared Requests.grant_shared Requests.shared_entry
    Requests.process_sh_req Requests.process_front Requests.process_next_req
    Replies.invalidated_entry Replies.flushed_entry Replies.written_back_entry Replies.find_existing
    Replies.after_invalidation Replies.process_inv_rep Replies.after_flush Replies.process_flush_rep
    Replies.after_write_back Replies.process_wb_rep Replies.accept_request Replies.handle_msg
    Replies.handle_msg_from_l2_cache
handle_msg-Good_example =
    Handler.handle_msg-Good (limited_scheme-laws 2) instant 2 start granted 3
      (message_of ex_req 3 none) start-Good (omega arith) (omega arith) (omega arith) refl

compute_set_index_bounds_example :
    (s : ℕ) × (compute_set_index start_cache 64 ≡ ok s)
    × ((i : ℕ) → i < 1 → entry_num start_cache s i < 2)
compute_set_index_bounds_example =
    SetIndex.compute_set_index_bounds start_cache 64 (omega arith) (omega arith) (omega arith)

-- Lines 0 and 64 have entries; that of line 64 gives way to one for line 192.
abbrev one_line : DirectoryCache (Seeded Limited)
one_line = record start_cache {
  directory_entry_list =
      record (new_entry limited) { address = some 0 }
      ∷ record (new_entry limited) { address = some 64 }
      ∷ [];
}

get_directory_entry-Found_example :
    Yields (Lookup.LooksUp limited one_line 64) (get_directory_entry limited one_line 10 64)
get_directory_entry-Found_example =
    Lookup.get_directory_entry-Found limited one_line 10 64 (omega arith)

replace_directory_entry-Replaced_example :
    Yields
      (λ r. Replacing.Replaced limited one_line 64 192 r.0 r.2)
      (replace_directory_entry limited one_line 10 64 192)
unfolding DirectoryCache.find_replaced
replace_directory_entry-Replaced_example =
    Replacing.replace_directory_entry-Replaced limited one_line 10 64 192 (omega arith) refl

choose_candidate_lem_example :
    Candidates.Chosen limited [] one_line.directory_entry_list
      (choose_candidate limited [] none one_line.directory_entry_list)
choose_candidate_lem_example =
    Candidates.choose_candidate_lem limited [] one_line.directory_entry_list

-- A memory with one line that was used.
abbrev memory : DramCntlr (Unit {0})
memory = record {
  cache_line_size = 2;
  data_map = (64, 1 ∷ 2 ∷ []) ∷ [];
  read_count = [];
  write_count = [];
  perf_model = tt;
}

put_data_to_dram_lem_example :
    (d : DramCntlr (Unit {0})) × (put_data_to_dram instant memory 10 64 (some (7 ∷ 8 ∷ [])) true
      ≡ ok d)
    × ((j : ℕ) → Contents.reads d j ≡ (if 64 == j then 7 ∷ 8 ∷ [] else Contents.reads memory j))
unfolding lookup
put_data_to_dram_lem_example =
    Contents.put_data_to_dram_lem instant memory 10 64 (7 ∷ 8 ∷ []) (1 ∷ 2 ∷ []) true refl
      (omega arith)

get_data_from_dram-Loads_example :
    Yields (Contents.Loads instant memory 64) (get_data_from_dram instant memory 10 64 true)
get_data_from_dram-Loads_example = Contents.get_data_from_dram-Loads instant memory 10 64 true
