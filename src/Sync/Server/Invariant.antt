-- ===== src/Sync/Server/Invariant.antt =====
-- What every request does to a valid `SyncServer`, and what holds after any sequence of requests.
use mathlib.Core.Path.{subst}
use graphite_atac.Prelude.{◌≡◌, sym, inl, inr, List, [], All, ok}
use graphite_atac.Sync.Effects.{Effect}
use graphite_atac.Sync.Server.{SyncServer, Handled}
use graphite_atac.Sync.Server.Requests.{
  Request, mutex_init_req, mutex_lock_req, mutex_unlock_req, cond_init_req, cond_wait_req,
  cond_signal_req, cond_broadcast_req, barrier_init_req, barrier_wait_req, process, Allowed,
  IsValid, IsJust, Decides,
}
use graphite_atac.Sync.Server.Mutexes.{mutex_init-Decides, mutex_lock-Decides, mutex_unlock-Decides}
use graphite_atac.Sync.Server.Conds.{
  cond_init-Decides, cond_wait-Decides, cond_signal-Decides, cond_broadcast-Decides,
}
use graphite_atac.Sync.Server.Barriers.{barrier_init-Decides, barrier_wait-Decides}

-- On a valid server a request succeeds exactly if it is allowed: its handles exist, a mutex is given
-- up only by its owner, a barrier is for at least one thread, and when a full vector of mutexes,
-- condition variables or barriers must grow, nobody waits at any of them; otherwise the handler
-- fails. After a success the server is valid again, and a core is told that it has a lock only if it owns one.
pub process-Decides :
    (s : SyncServer) (r : Request) → IsValid s → Decides (Allowed s r) (process s r)
unfolding process
process-Decides s (mutex_init_req core) v = mutex_init-Decides s core v
process-Decides s (mutex_lock_req core mux time) v = mutex_lock-Decides s core mux time v
process-Decides s (mutex_unlock_req core mux time) v = mutex_unlock-Decides s core mux time v
process-Decides s (cond_init_req core) v = cond_init-Decides s core v
process-Decides s (cond_wait_req core cond mux time) v = cond_wait-Decides s core cond mux time v
process-Decides s (cond_signal_req core cond time) v = cond_signal-Decides s core cond time v
process-Decides s (cond_broadcast_req core cond time) v = cond_broadcast-Decides s core cond time v
process-Decides s (barrier_init_req core count) v = barrier_init-Decides s core count v
process-Decides s (barrier_wait_req core barrier time) v =
    barrier_wait-Decides s core barrier time v

unfoldable pub new_server : SyncServer
new_server = record {
  mutexes = [];
  conds = [];
  barriers = [];
  mutex_capacity = 0;
  cond_capacity = 0;
  barrier_capacity = 0;
}

-- The states of a server that has handled requests, none of which failed.
pub data Reachable : SyncServer → Type 0 where
  start : (s : SyncServer) → s ≡ new_server → Reachable s
  after :
      {s : SyncServer} (s' : SyncServer) (r : Request) (effects : List Effect)
      → Reachable s
      → process s r ≡ ok (s', effects)
      → Reachable s'

decided :
    {P : Type 0} {r : Handled} (s' : SyncServer) (effects : List Effect)
    → r ≡ ok (s', effects)
    → Decides P r
    → P × IsValid s' × All (IsJust s'.mutexes) effects
decided s' effects e (inl (p, (t, out, e', v, j))) =
    let same : ◌≡◌ {A = SyncServer × List Effect} (t, out) (s', effects) = cc in
    (
      p,
      subst (λ (q : SyncServer × List Effect). IsValid q.0) same v,
      subst (λ (q : SyncServer × List Effect). All (IsJust q.0.mutexes) q.1) same j,
    )
decided s' effects e (inr (p, (f, e'))) = cc

new_server-IsValid : IsValid new_server
unfolding new_server
new_server-IsValid = record { fair = tt; in_range = tt; are_open = tt }

-- After any requests that did not fail, the server is valid: nobody waits for a mutex that no core
-- owns, no barrier holds as many threads as it is for, and every waiter's mutex exists.
pub Reachable-IsValid : (s : SyncServer) → Reachable s → IsValid s
Reachable-IsValid s (start _ e) = subst IsValid (sym e) new_server-IsValid
Reachable-IsValid s (after {s = t} _ r effects h e) =
    (decided s effects e (process-Decides t r (Reachable-IsValid t h))).1

-- In a reachable server a handler that succeeds was allowed, and whoever it tells that it has a lock
-- owns a mutex afterwards.
pub replies-IsJust :
    (s s' : SyncServer) (r : Request) (effects : List Effect)
    → Reachable s
    → process s r ≡ ok (s', effects)
    → Allowed s r × All (IsJust s'.mutexes) effects
replies-IsJust s s' r effects h e =
    let d = decided s' effects e (process-Decides s r (Reachable-IsValid s h)) in (d.0, d.2)
