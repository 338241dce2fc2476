-- ===== src/Sync/Server/Requests.antt =====
-- The requests that the main control program dispatches to the `SyncServer`
-- (common/system/mcp.cc), when each is allowed, and the server's invariant.
use graphite_atac.Prelude.{
  ℕ, ◌<◌, ◌≡◌, refl, ◌⊎◌, inl, inr, Option, none, some, List, length, get_elem?, All, ok, fail,
  Fault, assert_failed, ℤ, pos, negsuc, Option-cases,
}
use graphite_atac.Sync.Effects.{
  CoreId, Effect, stall_thread, resume_thread, IsQuiet, net_send, Message, handle, timed, ack,
  mutex_lock_response,
}
use graphite_atac.Sync.Growth.{Growable}
use graphite_atac.Sync.Mutex.{SimMutex}
use graphite_atac.Sync.Mutex.Fifo.{IsFair}
use graphite_atac.Sync.Cond.{SimCond}
use graphite_atac.Sync.Cond.Broadcast.{InRange}
use graphite_atac.Sync.Barrier.{SimBarrier}
use graphite_atac.Sync.Barrier.Release.{IsOpen}
use graphite_atac.Sync.Server.{
  SyncServer, Handled, checked_at, mutex_init, mutex_lock, mutex_unlock, cond_init, cond_wait,
  cond_signal, cond_broadcast, barrier_init, barrier_wait,
}

-- The core that asks comes first; a time comes last.
pub data Request : Type 0 where
  mutex_init_req : CoreId → Request
  mutex_lock_req : CoreId → ℤ → ℕ → Request
  mutex_unlock_req : CoreId → ℤ → ℕ → Request
  cond_init_req : CoreId → Request
  cond_wait_req : CoreId → ℤ → ℤ → ℕ → Request
  cond_signal_req : CoreId → ℤ → ℕ → Request
  cond_broadcast_req : CoreId → ℤ → ℕ → Request
  barrier_init_req : CoreId → ℕ → Request
  barrier_wait_req : CoreId → ℤ → ℕ → Request

unfoldable pub process : SyncServer → Request → Handled
process s (mutex_init_req core) = mutex_init s core
process s (mutex_lock_req core mux time) = mutex_lock s core mux time
process s (mutex_unlock_req core mux time) = mutex_unlock s core mux time
process s (cond_init_req core) = cond_init s core
process s (cond_wait_req core cond mux time) = cond_wait s core cond mux time
process s (cond_signal_req core cond time) = cond_signal s core cond time
process s (cond_broadcast_req core cond time) = cond_broadcast s core cond time
process s (barrier_init_req core count) = barrier_init s core count
process s (barrier_wait_req core barrier time) = barrier_wait s core barrier time

-- The element at a signed index, if the index is in range.
abbrev pub at {ℓ} : {A : Type ℓ} → List A → ℤ → Option A
at v (pos n) = get_elem? v n
at v (negsuc n) = none

abbrev pub Exists {ℓ} : {A : Type ℓ} → List A → ℤ → Type ℓ
Exists {A = A} v z = (a : A) × (at v z ≡ some a)

abbrev pub OwnedBy : List SimMutex → ℤ → CoreId → Type 0
OwnedBy v z core = (m : SimMutex) × (at v z ≡ some m) × (m.owner ≡ some core)

-- What a client must respect: handles exist, a mutex is released by its owner, a barrier that is
-- waited at is for at least one thread, and nobody waits at an element of a vector that must grow.
abbrev pub Allowed : SyncServer → Request → Type 0
Allowed s (mutex_init_req core) = Growable (λ (m : SimMutex). m.waiting) s.mutexes s.mutex_capacity
Allowed s (mutex_lock_req core mux time) = Exists s.mutexes mux
Allowed s (mutex_unlock_req core mux time) = OwnedBy s.mutexes mux core
Allowed s (cond_init_req core) = Growable (λ (c : SimCond). c.waiting) s.conds s.cond_capacity
Allowed s (cond_wait_req core cond mux time) = OwnedBy s.mutexes mux core × Exists s.conds cond
Allowed s (cond_signal_req core cond time) = Exists s.conds cond
Allowed s (cond_broadcast_req core cond time) = Exists s.conds cond
Allowed s (barrier_init_req core count) =
    Growable (λ (b : SimBarrier). b.waiting) s.barriers s.barrier_capacity
Allowed s (barrier_wait_req core barrier time) =
    (b : SimBarrier) × (at s.barriers barrier ≡ some b) × (0 < b.count)

abbrev pub WaitsInRange : ℕ → SimCond → Type 0
WaitsInRange n c = All (InRange n) c.waiting

-- Nobody waits for a free mutex or at a full barrier, and every waiter's mutex exists.
pub record IsValid (s : SyncServer) : Type 0 where
  pub fair : All IsFair s.mutexes
  pub in_range : All (WaitsInRange (length s.mutexes)) s.conds
  pub are_open : All IsOpen s.barriers

abbrev pub Owns : List SimMutex → CoreId → Type 0
Owns ms core = (i : ℕ) × (m : SimMutex) × (get_elem? ms i ≡ some m) × (m.owner ≡ some core)

abbrev pub JustMessage : List SimMutex → CoreId → Message → Type 0
JustMessage ms core (handle n) = Unit {0}
JustMessage ms core (timed code time) = code ≡ mutex_lock_response → Owns ms core
JustMessage ms core (ack code) = Unit {0}

-- A core is told that it has a lock only if it owns a mutex.
abbrev pub IsJust : List SimMutex → Effect → Type 0
IsJust ms (stall_thread core) = Unit {0}
IsJust ms (resume_thread core) = Unit {0}
IsJust ms (net_send core message) = JustMessage ms core message

abbrev pub Succeeds : Handled → Type 0
Succeeds r =
    (s' : SyncServer) × (effects : List Effect) × (r ≡ ok (s', effects))
    × IsValid s'
    × All (IsJust s'.mutexes) effects

abbrev pub Fails : Handled → Type 0
Fails r = (f : Fault) × (r ≡ fail f)

-- The handler succeeds, with a valid state and just replies, if `P` holds, and fails otherwise.
abbrev pub Decides : Type 0 → Handled → Type 0
Decides P r = P × Succeeds r ⊎ (¬ P) × Fails r

pub data Found {ℓ} {A : Type ℓ} (v : List A) (z : ℤ) : Type ℓ where
  found :
      (n : ℕ) (a : A)
      → at v z ≡ some a
      → get_elem? v n ≡ some a
      → checked_at v z ≡ ok (n, a)
      → Found v z
  missing : (f : Fault) → at v z ≡ none → checked_at v z ≡ fail f → Found v z

pub find {ℓ} : {A : Type ℓ} (v : List A) (z : ℤ) → Found v z
find v (negsuc n) = missing assert_failed refl refl
find v (pos n) = elim (Option-cases (get_elem? v n)) [
  | inl e ↦ missing assert_failed e (rw (e, checked_at))
  | inr (a, e) ↦ found n a e e (rw (e, checked_at))
]

-- Two readings of one place agree.
pub not_found {ℓ} : {A : Type ℓ} {o : Option A} {a : A} → o ≡ none → o ≡ some a → ⊥
not_found p q = cc

pub same_found {ℓ} : {A : Type ℓ} {o : Option A} {a b : A} → o ≡ some a → o ≡ some b → a ≡ b
same_found p q = cc

pub quiet-IsJust : (ms : List SimMutex) (e : Effect) → IsQuiet e → IsJust ms e
quiet-IsJust ms (stall_thread core) q = tt
quiet-IsJust ms (resume_thread core) q = tt
quiet-IsJust ms (net_send core message) q = absurd q
