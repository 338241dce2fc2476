-- ===== src/Tests/Barrier.antt =====
-- The thread manager (common/system/thread_manager.cc) and the clock-skew barrier
-- (lax_barrier_sync_server.cc) on small inputs.
use graphite_atac.Prelude.{◌≡◌, refl, [], ◌∷◌, some, none, ok, arith, true, false, not, ◌&&◌}
use graphite_atac.Threads
use graphite_atac.Threads.{
  running, idle, ThreadManager, is_core_running, is_running, stall_running_thread,
  resume_last_stalled_thread, running_from,
}
use graphite_atac.Threads.Running
use graphite_atac.Threads.Running.{IsExclusive, count_running}
use graphite_atac.LaxBarrier.{LaxBarrierSyncServer, is_barrier_reached, running_or_initializing}
use graphite_atac.LaxBarrier.Release
use graphite_atac.LaxBarrier.Pass
use graphite_atac.LaxBarrier.Release.{IsValid, Ends}
use graphite_atac.LaxBarrier.Stall
use graphite_atac.LaxBarrier.Stall.{Signalled}
use graphite_atac.LaxBarrier.Arrival
use graphite_atac.LaxBarrier.Arrival.{Waited, any_late, any_reached}

-- Two tiles, with a running thread each.
abbrev threads : ThreadManager
threads = record {
  thread_state = (idle ∷ running ∷ []) ∷ (running ∷ []) ∷ [];
  last_stalled_thread = none ∷ none ∷ [];
}

threads-IsExclusive : IsExclusive threads
unfolding count_running is_running
threads-IsExclusive = omega arith

second_runs : is_core_running threads 0 ≡ ok (some 1)
unfolding is_core_running running_from is_running
second_runs = refl

resume_last_stalled_thread-stall_running_thread_example :
    (m1 m2 : ThreadManager) × (stall_running_thread threads 0 ≡ ok m1)
    × (is_core_running m1 0 ≡ ok none)
    × (resume_last_stalled_thread m1 0 ≡ ok m2)
    × IsExclusive m2
    × (is_core_running m2 0 ≡ ok (some 1))
resume_last_stalled_thread-stall_running_thread_example =
    Running.resume_last_stalled_thread-stall_running_thread threads 0 1 (idle ∷ running ∷ []) none
      threads-IsExclusive refl refl second_runs

-- The first tile has come with time 35, the second has yet to come.
abbrev server : LaxBarrierSyncServer
server = record {
  barrier_interval = 10;
  next_barrier_time = 10;
  local_clock_list = 35 ∷ 0 ∷ [];
  barrier_acquire_list = true ∷ false ∷ [];
}

server-IsValid : IsValid server
server-IsValid = record { flags = (refl, (refl, tt)); positive = omega arith; small = omega arith }

release_loop_lem_example : Ends threads 26 server
release_loop_lem_example =
    Release.release_loop_lem threads 26 server 0 35 server-IsValid threads-IsExclusive (omega arith)
      refl (omega arith) (omega arith)

is_barrier_reached_lem_example :
    is_barrier_reached threads server
    ≡ ok (not (any_late threads 10 0 (35 ∷ 0 ∷ [])) && any_reached 10 (35 ∷ 0 ∷ []))
is_barrier_reached_lem_example =
    Arrival.is_barrier_reached_lem threads server threads-IsExclusive (omega arith)

barrier_wait_lem_example : Waited 40 true threads server 1 12
barrier_wait_lem_example =
    Arrival.barrier_wait_lem 40 true threads server 1 12 server-IsValid threads-IsExclusive
      (omega arith) (omega arith) (omega arith) (omega arith)

running_or_initializing_lem_example : running_or_initializing threads 0 ≡ ok true
running_or_initializing_lem_example =
    Pass.running_or_initializing_lem threads 0 threads-IsExclusive (omega arith)

-- The tile that the server waits for stalls, and the barrier opens.
stall_thread_lem_example :
    (threads' : ThreadManager) × (Threads.stall_thread threads 1 0 ≡ ok threads')
    × IsExclusive threads'
    × Signalled 40 true threads threads' server 1 0
        (not (any_late threads' 10 0 (35 ∷ 0 ∷ [])) && any_reached 10 (35 ∷ 0 ∷ []))
stall_thread_lem_example =
    Stall.stall_thread_lem 40 true threads server 1 0 server-IsValid threads-IsExclusive
      (omega arith) (omega arith) (running ∷ []) running none refl refl refl
