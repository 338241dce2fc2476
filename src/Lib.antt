-- ===== src/Lib.antt =====
-- Graphite is a parallel simulator of multicore processors: threads of a program run on simulated
-- tiles, each with a core, private and shared caches, a directory slice and network ports, and a
-- master process keeps the tiles in step. This library models the parts of it that keep the
-- simulated machine consistent. Paths are relative to carbon_sim_git/.
--
-- Parts, and the files that model them:
--
-- Synchronisation server (common/system/sync_server.cc, sync_server.h; dispatch in mcp.cc).
-- Sync.Effects has core identifiers, reply codes and effects: what a handler asks of the thread
-- manager and the network is a list, in the order of the calls. Sync.Mutex, Sync.Cond and
-- Sync.Barrier are SimMutex, SimCond and SimBarrier, one function for each method; Sync.Server has
-- the handlers of SyncServer over a record of the three vectors, and Sync.Server.Requests
-- dispatches to them. The children Fifo, Broadcast, Release, Mutexes, Conds, Barriers and
-- Invariant have the theorems. The table that a condition variable's waiters name their mutex by
-- is the server's own, as in StableIterator (common/misc/stable_iterator.h), whose assignment does
-- nothing. Sync.Growth is push_back of a vector: a full one doubles, as in libstdc++, and destroys
-- its old elements, whose destructors assert that nobody waits.
--
-- Thread states (common/system/thread_manager.cc). Threads has the states of each main core's
-- threads, isCoreRunning, isCoreInitializing, stallThread and resumeThread; Exclusive and Running
-- have the theorems.
--
-- Clock-skew barrier (common/system/clock_skew_minimization_schemes/lax_barrier_sync_server.cc).
-- LaxBarrier is LaxBarrierSyncServer, over the thread states above; Pass and Release have the
-- theorems on barrierRelease, Arrival on barrierWait, and Stall on a thread that stalls. The loop
-- of barrierRelease takes fuel: a clock that has reached the barrier time is passed in one more
-- step than it is ahead, since the interval is positive, and the theorems ask for no more.
--
-- Directory entries (common/tile/memory_subsystem/directory_schemes). Directory.Slots and
-- Directory.SharerList have the sharers' slots and the sets that they stand for;
-- Directory.Limited, Directory.LimitedBroadcast and Directory.Ackwise are the schemes of
-- directory_entry_limited.cc, directory_entry_limited_no_broadcast.cc,
-- directory_entry_limited_broadcast.cc and directory_entry_ackwise.cc, and their children Exact,
-- Covers and Count relate them to the sharers. Directory.FullMap is directory_entry_full_map.cc; its
-- children Laws, Changes and Sharers have the count of the sharers, their changes and the loop over them, which takes as
-- much fuel as the entry has sharers, and one more: a write past the end of the list is a fault.
-- Directory.Entry is the entry itself (directory_entry.cc) over any scheme of sharers, and
-- Directory.Entry.Counts has what a controller relies on of a scheme (SchemeLaws) and the coherence
-- of an entry; Directory.Schemes puts the full map, the limited scheme without broadcasts and ACKwise
-- behind the interface, and its child Laws shows that the three keep the laws.
--
-- Bit vectors (common/misc/bit_vector.cc, bit_vector.h). BitVector has the operations, over words of
-- 64 bits; Bits has the bits of one word, Count the number of bits that are set, Next, Words and
-- Search the next bit by words, halves and bytes, Members the bits after a change, and Positions the list of the bits that are set.
--
-- Directory cache (common/tile/memory_subsystem/cache/directory_cache.cc). DirectoryCache has the
-- entries by sets and those that were replaced; a pointer to an entry is its place. SetIndex has the
-- theorems on the set of an address, Ways, Lookup and Replacing those on finding and replacing entries,
-- Coherence that every operation keeps the entries coherent; Accounting has the counters and the
-- cycle count. The loop of computeSetIndex has 66 rounds, more than there are bits in an address;
-- with one set no number is enough, since it does not end.
--
-- DRAM controller (common/tile/memory_subsystem/dram_cntlr.cc). Dram has the data of the lines and
-- the access counts; Contents what reads and writes do.
--
-- Directory controller (common/tile/memory_subsystem/pr_l1_pr_l2_dram_directory_msi,
-- dram_directory_cntlr.cc). DirectoryCntlr.Messages and State have the messages, the controller's
-- parts and its calls of them, with the packets sent as a list, in order; Replacement and Requests
-- serve the requests that wait for a line, and Replies the replies of the caches and the dispatch.
-- processNextReqFromL2Cache calls itself through the request that it serves, and takes fuel: as much
-- as requests of the line wait is enough. The children of Invariant prove this and the coherence of
-- the entries, one child for each layer; Candidates has the other theorems.
--
-- Caches (common/tile/memory_subsystem/cache). Cache.Line has states and lines; Cache.Replacement
-- the interface of a replacement policy and its two implementations; Cache.Set is CacheSet, over
-- any policy; Cache.Misses and Cache.Counters are the miss types and the counters of Cache, and
-- Cache.Operations is Cache itself, over any policy and hash function. Cache.Set.Laws states the
-- laws that a set needs of a policy (PolicyLaws), and Cache.Set.Policies shows that both policies
-- keep them; Contents and Access have the theorems on insertions, stores and loads. Touch,
-- Recency, Victim and Cycle describe the policies, and Cache.Operations.Insertion and Update what
-- the whole cache does with a new line.
--
-- Queues by key (common/misc/hash_map_queue.h). Queues is HashMapQueue, over the entries of its
-- map, and Contents relates it to a queue for each key.
--
-- Prelude has Boolean tests, lists measured by native numbers, results and signed numbers. Tests
-- has runs on small inputs, and the theorems at inputs that meet their hypotheses.
--
-- Conventions. A failed assert or LOG_ASSERT_ERROR, a LOG_PRINT_ERROR and an access out of range
-- are faults of a Result, and end the handler. Machine words are natural numbers with the wrap-
-- around written out where the code can reach it: counters and barrier times modulo 2 ^ 64,
-- indices and seeds modulo 2 ^ 32, LRU bits modulo 256, slots modulo 2 ^ 16. The null pointer of
-- an optional argument is none.
--
-- Not modelled: the cache controllers, the other coherence protocols, the limitless entries, the network and queue models, the thread scheduler and the other schemes of clock-skew
-- minimisation; the statistics that a directory cache keeps for its summary; power, area and logging,
-- which only read the state; the transport, the Pin and QEMU front ends and vendored code.
pub mod Prelude
pub mod Sync
pub mod Directory
pub mod Cache
pub mod Threads
pub mod LaxBarrier
pub mod Queues
mod Tests
pub mod BitVector
pub mod Dram
pub mod DirectoryCache
pub mod DirectoryCntlr
