-- ===== src/Tests/Sync.antt =====
-- The synchronisation server (common/system/sync_server.cc) on small inputs.
use graphite_atac.Prelude.{
  ℕ, ◌≡◌, refl, ◌⊎◌, inr, List, [], ◌∷◌, ◌++◌, none, some, arith, ok, fail, assert_failed, ◌≢◌,
  undefined_behaviour, All, pos, negsuc, length,
}
use graphite_atac.Sync.Effects.{
  CoreId, Effect, net_send, stall_thread, resume_thread, timed, handle, mutex_lock_response,
  IsQuiet,
}
use graphite_atac.Sync.Growth.{push_back, all_of}
use graphite_atac.Sync.Mutex
use graphite_atac.Sync.Mutex.{SimMutex, lock, unlock, new_mutex}
use graphite_atac.Sync.Mutex.Fifo
use graphite_atac.Sync.Mutex.Fifo.{IsFair, queue, head?, Unlocked}
use graphite_atac.Sync.Cond
use graphite_atac.Sync.Cond.{SimCond, CondWaiter}
use graphite_atac.Sync.Cond.Broadcast
use graphite_atac.Sync.Cond.Broadcast.{queue_at, waiting_for, Granted}
use graphite_atac.Sync.Barrier.{SimBarrier}
use graphite_atac.Sync.Barrier.Release
use graphite_atac.Sync.Barrier.Release.{arrivals}
use graphite_atac.Sync.Server.{SyncServer, barrier_wait, mutex_init, mutex_lock}
use graphite_atac.Sync.Server.Requests.{
  process, mutex_init_req, cond_broadcast_req, mutex_lock_req, Allowed, Decides, IsValid, IsJust,
}
use graphite_atac.Sync.Server.Invariant
use graphite_atac.Sync.Server.Invariant.{Reachable, start, after, new_server}

abbrev core : ℕ → CoreId
core n = record { tile_id = n; core_type = 0 }

-- Core 0 owns a mutex that core 1 waits for.
abbrev contended : SimMutex
contended = record { owner = some (core 0); waiting = core 1 ∷ [] }

queue-lock_example : queue (lock contended (core 2)).0 ≡ core 0 ∷ core 1 ∷ core 2 ∷ []
queue-lock_example = (Fifo.queue-lock contended (core 2) tt).1

queue-unlock_example :
    (contended.owner ≡ some (core 0)) × Unlocked (core 1 ∷ []) (unlock contended (core 0))
    ⊎ (contended.owner ≢ some (core 0)) × (unlock contended (core 0) ≡ fail assert_failed)
queue-unlock_example = Fifo.queue-unlock contended (core 0)

-- Cores 2 and 3 wait on a condition variable, for mutexes 0 and 1.
abbrev sleepers : SimCond
sleepers = record {
  waiting =
      record { core_id = core 2; mutex = 0; arrival_time = 5 }
      ∷ record { core_id = core 3; mutex = 1; arrival_time = 6 }
      ∷ [];
}

abbrev free : SimMutex
free = record { owner = none; waiting = [] }

broadcast-queues_example :
    (ms' : List SimMutex) × (effects : List Effect) × (woken : List CoreId) × (Cond.broadcast
        sleepers
        (contended ∷ free ∷ [])
      ≡ ok (record { waiting = [] }, ms', effects, woken))
    × All IsFair ms'
    × All IsQuiet effects
    × (length ms' ≡ 2)
    × ((i : ℕ)
        → queue_at ms' i ≡ queue_at (contended ∷ free ∷ []) i ++ waiting_for i sleepers.waiting)
    × Granted ms' sleepers.waiting woken
broadcast-queues_example =
    Broadcast.broadcast-queues sleepers (contended ∷ free ∷ []) (tt, (refl, tt)) (omega arith)

-- Core 3 gets its mutex at once, and core 2 waits behind core 1.
broadcast_runs :
    Cond.broadcast sleepers (contended ∷ free ∷ [])
    ≡ ok (
      record { waiting = [] },
      record contended { waiting = core 1 ∷ core 2 ∷ [] }
          ∷ record { owner = some (core 3); waiting = [] }
          ∷ [],
      resume_thread (core 2) ∷ stall_thread (core 2) ∷ resume_thread (core 3) ∷ [],
      core 3 ∷ [],
    )
unfolding Cond.broadcast Cond.deref lock
broadcast_runs = refl

-- A barrier for two, left at time 7 by the round before.
abbrev barrier : SimBarrier
barrier = record { waiting = []; count = 2; max_time = 7 }

arrivals-release_example :
    arrivals barrier ((core 0, 3) ∷ (core 1, 2) ∷ [])
    ≡ ok (record barrier { max_time = 3 }, [] ∷ (core 0 ∷ core 1 ∷ []) ∷ [])
arrivals-release_example =
    Release.arrivals-release barrier ((core 0, 3) ∷ []) (core 1) 2 refl (omega arith)

abbrev busy : SyncServer
busy = record {
  mutexes = contended ∷ free ∷ [];
  conds = sleepers ∷ [];
  barriers = barrier ∷ [];
  mutex_capacity = 2;
  cond_capacity = 1;
  barrier_capacity = 1;
}

busy-IsValid : IsValid busy
busy-IsValid = record {
  fair = (tt, (refl, tt));
  in_range = (omega arith, tt);
  are_open = (inr refl, tt);
}

process-Decides_example :
    Decides
      (Allowed busy (cond_broadcast_req (core 0) (pos 0) 9))
      (process busy (cond_broadcast_req (core 0) (pos 0) 9))
process-Decides_example =
    Invariant.process-Decides busy (cond_broadcast_req (core 0) (pos 0) 9) busy-IsValid

-- The server after one request for a mutex.
abbrev one_mutex : SyncServer
one_mutex = record new_server { mutexes = free ∷ []; mutex_capacity = 1 }

one_mutex-Reachable : Reachable one_mutex
unfolding process mutex_init new_mutex new_server push_back all_of
one_mutex-Reachable =
    after {s = new_server} one_mutex (mutex_init_req (core 0)) (net_send (core 0) (handle 0) ∷ [])
      (start new_server refl) refl

Reachable-IsValid_example : IsValid one_mutex
Reachable-IsValid_example = Invariant.Reachable-IsValid one_mutex one_mutex-Reachable

abbrev locked_mutex : SyncServer
locked_mutex = record one_mutex { mutexes = record { owner = some (core 0); waiting = [] } ∷ [] }

abbrev granted : Effect
granted = net_send (core 0) (timed mutex_lock_response 4)

replies-IsJust_example :
    Allowed one_mutex (mutex_lock_req (core 0) (pos 0) 4)
    × All (IsJust locked_mutex.mutexes) (granted ∷ [])
unfolding process mutex_lock lock
replies-IsJust_example =
    Invariant.replies-IsJust one_mutex locked_mutex (mutex_lock_req (core 0) (pos 0) 4)
      (granted ∷ []) one_mutex-Reachable refl

-- A negative barrier identifier passes the signed check of `barrierWait`, and reads out of range.
barrier_wait-negative : barrier_wait busy (core 0) (negsuc 0) 5 ≡ fail undefined_behaviour
unfolding barrier_wait
barrier_wait-negative = refl

-- A third mutex makes the vector grow, and the destructor of the contended one fails its assertion.
mutex_init-busy : mutex_init busy (core 1) ≡ fail assert_failed
unfolding mutex_init push_back Mutex.may_destroy all_of
mutex_init-busy = refl

-- After a signal core 3 waits for mutex 0, which it did not give up, in place of mutex 1.
signal_runs :
    Cond.signal sleepers (contended ∷ free ∷ [])
    ≡ ok (
      record { waiting = record { core_id = core 3; mutex = 0; arrival_time = 6 } ∷ [] },
      record contended { waiting = core 1 ∷ core 2 ∷ [] } ∷ free ∷ [],
      resume_thread (core 2) ∷ stall_thread (core 2) ∷ [],
      none,
    )
unfolding Cond.signal Cond.deref lock
signal_runs = refl
