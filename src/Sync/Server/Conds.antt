-- ===== src/Sync/Server/Conds.antt =====
-- The handlers of the condition variables' requests of `SyncServer`.
use mathlib.Core.Path.{subst}
use mathlib.Core.Option.{some-injective}
use graphite_atac.Prelude.{
  ◌==◌, ℕ, ◌≡◌, refl, ◌∙◌, inl, inr, Bool, true, false, Option, none, some, List, [], ◌∷◌, ◌++◌,
  length, get_elem?, set, All, All-append, All-get_elem?, ok, ℤ, arith, All-map, if◌then◌else◌,
  Option-cases,
}
use graphite_atac.Sync.Effects.{
  CoreId, Effect, IsQuiet, net_send, ack, mutex_lock_response, cond_signal_response,
  cond_broadcast_response,
}
use graphite_atac.Sync.Mutex.{SimMutex}
use graphite_atac.Sync.Mutex.Fifo.{IsFair, NoIdleWait, queue_of}
use graphite_atac.Sync.Cond.{SimCond, CondWaiter, signal, signal_first, erase_first}
use graphite_atac.Sync.Cond.Broadcast.{
  InRange, Woke, wake_lem, Granted, done, now, later, queue_at, broadcast-queues,
}
use graphite_atac.Sync.Server.{SyncServer, cond_signal, cond_broadcast, notify_owner, notify_all}
use graphite_atac.Sync.Server.Requests.{
  Exists, WaitsInRange, IsValid, Owns, IsJust, Decides, Found, found, missing, find, not_found,
  quiet-IsJust,
}
use graphite_atac.Sync.Server.Mutexes.{notify_owner-IsJust}
pub use graphite_atac.Sync.Server.Waits.{cond_init-Decides, cond_wait-Decides}
use graphite_atac.Sync.Server.Waits.{change-IsValid}

owner_head :
    (o : Option CoreId) (ws : List CoreId) (c : CoreId) (rest : List CoreId)
    → NoIdleWait o ws
    → queue_of o ws ≡ c ∷ rest
    → o ≡ some c
owner_head none ws c rest f q = cc
owner_head (some o) ws c rest f q = cc

-- The head of a fair mutex's queue owns it.
Owns-head :
    (ms : List SimMutex) (i : ℕ) (c : CoreId) (rest : List CoreId)
    → All IsFair ms
    → queue_at ms i ≡ c ∷ rest
    → Owns ms c
Owns-head ms i c rest f q = elim (Option-cases (get_elem? ms i)) [
  | inl e ↦ cc (rw e at q)
  | inr (m, e) ↦
      (i, m, e, owner_head m.owner m.waiting c rest (All-get_elem? IsFair ms i f e) (rw e at q))
]

woken-Owns :
    (locked : Bool) (d : CoreId) (ms : List SimMutex)
    → (locked ≡ true → Owns ms d)
    → (c : CoreId) → (if locked then some d else none) ≡ some c
    → Owns ms c
woken-Owns true d ms h c e = subst (Owns ms) (some-injective d c e) (h refl)
woken-Owns false d ms h c e = cc

granted-Owns :
    (w : CondWaiter) (ms : List SimMutex) (a : Woke w ms)
    → a.locked ≡ true
    → Owns a.mutexes w.core_id
granted-Owns w ms a t = elim a.granted [
  | inl (_, empty) ↦
      let self : (w.mutex == w.mutex) ≡ true = ground arith in
      Owns-head a.mutexes w.mutex w.core_id [] a.fair (a.queues w.mutex ∙ rw (empty, self))
  | inr (f, _) ↦ cc
]

-- The mutexes that stay in their places exist.
erase_first-InRange :
    (n : ℕ) (w : CondWaiter) (ws : List CondWaiter)
    → InRange n w
    → All (InRange n) ws
    → All (InRange n) (erase_first w ws)
unfolding erase_first
erase_first-InRange n w [] h hs = tt
erase_first-InRange n w (next ∷ ws) h hs = (h, erase_first-InRange n next ws hs.0 hs.1)

-- What `signal` does to a valid list of mutexes.
signal_lem :
    (ws : List CondWaiter) (ms : List SimMutex)
    → All IsFair ms
    → All (InRange (length ms)) ws
    → (c' : SimCond) × (ms' : List SimMutex) × (effects : List Effect) × (woken : Option CoreId)
      × (signal_first ws ms ≡ ok (c', ms', effects, woken))
      × All IsFair ms'
      × All IsQuiet effects
      × (length ms' ≡ length ms)
      × WaitsInRange (length ms) c'
      × ((c : CoreId) → woken ≡ some c → Owns ms' c)
unfolding signal_first
signal_lem [] ms f h = (record { waiting = [] }, ms, [], none, refl, f, tt, refl, tt, (λ c e. cc))
signal_lem (w ∷ ws) ms f h =
    let a = wake_lem w ms f h.0 in
    (
      record { waiting = erase_first w ws },
      a.mutexes,
      a.effects,
      if a.locked then some w.core_id else none,
      rw a.runs,
      a.fair,
      a.quiet,
      a.same_length,
      erase_first-InRange (length ms) w ws h.0 h.1,
      woken-Owns a.locked w.core_id a.mutexes (granted-Owns w ms a),
    )

cond_signal-Found :
    (s : SyncServer) (core : CoreId) (cond : ℤ) (time : ℕ)
    → IsValid s
    → Found s.conds cond
    → Decides (Exists s.conds cond) (cond_signal s core cond time)
unfolding cond_signal signal
cond_signal-Found s core cond time v (missing f e r) = inr ((λ x. not_found e x.1), (f, rw r))
cond_signal-Found s core cond time v (found i c e g r) =
    let waits = All-get_elem? (WaitsInRange (length s.mutexes)) s.conds i v.in_range g in
    let (c', ms, effects, woken, runs, fair, quiet, same, range, owns) =
      signal_lem c.waiting s.mutexes v.fair waits in
    let reply : List Effect = net_send core (ack cond_signal_response) ∷ [] in
    inl (
      (c, e),
      (
        record s { mutexes = ms; conds = set s.conds i c' },
        effects ++ (notify_owner woken time ++ reply),
        rw (r, runs),
        change-IsValid s i c' ms v fair same range,
        All-append (IsJust ms) effects _ (All-map (quiet-IsJust ms) effects quiet) (
            All-append (IsJust ms) (notify_owner woken time) reply
              (notify_owner-IsJust ms woken time owns) (tt, tt)),
      ),
    )

pub cond_signal-Decides :
    (s : SyncServer) (core : CoreId) (cond : ℤ) (time : ℕ)
    → IsValid s
    → Decides (Exists s.conds cond) (cond_signal s core cond time)
cond_signal-Decides s core cond time v = cond_signal-Found s core cond time v (find s.conds cond)

Granted-IsJust :
    (ms : List SimMutex) (code time : ℕ)
    → All IsFair ms
    → (ws : List CondWaiter) (cs : List CoreId) → Granted ms ws cs
    → All (IsJust ms) (notify_all code time cs)
Granted-IsJust ms code time f _ _ done = tt
Granted-IsJust ms code time f _ _ (now {w = w} {ws = ws} {cs = cs} rest q g) =
    ((λ _. Owns-head ms w.mutex w.core_id rest f q), Granted-IsJust ms code time f ws cs g)
Granted-IsJust ms code time f _ _ (later {ws = ws} {cs = cs} o front rest q g) =
    Granted-IsJust ms code time f ws cs g

cond_broadcast-Found :
    (s : SyncServer) (core : CoreId) (cond : ℤ) (time : ℕ)
    → IsValid s
    → Found s.conds cond
    → Decides (Exists s.conds cond) (cond_broadcast s core cond time)
unfolding cond_broadcast
cond_broadcast-Found s core cond time v (missing f e r) = inr ((λ x. not_found e x.1), (f, rw r))
cond_broadcast-Found s core cond time v (found i c e g r) =
    let waits = All-get_elem? (WaitsInRange (length s.mutexes)) s.conds i v.in_range g in
    let (ms, effects, woken, runs, fair, quiet, same, queues, granted) =
      broadcast-queues c s.mutexes v.fair waits in
    let c' : SimCond = record { waiting = [] } in
    let reply : List Effect = net_send core (ack cond_broadcast_response) ∷ [] in
    inl (
      (c, e),
      (
        record s { mutexes = ms; conds = set s.conds i c' },
        effects ++ (notify_all mutex_lock_response time woken ++ reply),
        rw (r, runs),
        change-IsValid s i c' ms v fair same tt,
        All-append (IsJust ms) effects _ (All-map (quiet-IsJust ms) effects quiet) (
            All-append (IsJust ms) (notify_all mutex_lock_response time woken) reply
              (Granted-IsJust ms mutex_lock_response time fair c.waiting woken granted) (tt, tt)),
      ),
    )

pub cond_broadcast-Decides :
    (s : SyncServer) (core : CoreId) (cond : ℤ) (time : ℕ)
    → IsValid s
    → Decides (Exists s.conds cond) (cond_broadcast s core cond time)
cond_broadcast-Decides s core cond time v =
    cond_broadcast-Found s core cond time v (find s.conds cond)
