-- ===== src/Sync/Server.antt =====
-- `SyncServer` of common/system/sync_server.cc. A handler takes what it unpacks from the receive
-- buffer as arguments, and returns the new state with the calls that it makes, in order.
pub mod Requests
pub mod Mutexes
pub mod Waits
pub mod Conds
pub mod Barriers
pub mod Invariant
use graphite_atac.Prelude.{
  ℕ, Bool, true, false, Option, none, some, List, [], ◌∷◌, ◌++◌, map, ltb, length, get_elem?, set,
  Result, ok, fail, assert_failed, undefined_behaviour, ◌>>=◌, ◌>>◌, assert, ℤ, pos, negsuc,
}
use graphite_atac.Sync.Effects.{
  CoreId, Effect, net_send, Message, handle, timed, ack, mutex_lock_response, mutex_unlock_response,
  cond_signal_response, cond_broadcast_response, barrier_wait_response,
}
use graphite_atac.Sync.Growth.{push_back}
use graphite_atac.Sync.Mutex
use graphite_atac.Sync.Mutex.{SimMutex, new_mutex, lock, unlock}
use graphite_atac.Sync.Cond
use graphite_atac.Sync.Cond.{SimCond, new_cond}
use graphite_atac.Sync.Barrier
use graphite_atac.Sync.Barrier.{SimBarrier, new_barrier}

-- The three vectors, with the room that each has before it must grow.
pub record SyncServer : Type 0 where
  pub mutexes : List SimMutex
  pub conds : List SimCond
  pub barriers : List SimBarrier
  pub mutex_capacity : ℕ
  pub cond_capacity : ℕ
  pub barrier_capacity : ℕ

abbrev pub Handled : Type 0
Handled = Result (SyncServer × List Effect)

-- `(size_t) index < v.size()` fails at a negative index, and then `v[index]` is in range.
abbrev pub checked_at {ℓ} : {A : Type ℓ} → List A → ℤ → Result (ℕ × A)
checked_at v (negsuc n) = fail assert_failed
checked_at v (pos n) = elim (get_elem? v n) [ none ↦ fail assert_failed | some a ↦ ok (n, a) ]

-- `barrier < (carbon_barrier_t) m_barriers.size()` is a signed comparison: it lets a negative index
-- pass, which then reads out of range.
abbrev pub signed_checked_at {ℓ} : {A : Type ℓ} → List A → ℤ → Result (ℕ × A)
signed_checked_at v (negsuc n) = fail undefined_behaviour
signed_checked_at v (pos n) = elim (get_elem? v n) [
  | none ↦ fail assert_failed
  | some a ↦ ok (n, a)
]

-- The reply to the new owner of a lock, if there is one.
abbrev pub notify_owner : Option CoreId → ℕ → List Effect
notify_owner none time = []
notify_owner (some owner) time = net_send owner (timed mutex_lock_response time) ∷ []

abbrev pub notify_all : ℕ → ℕ → List CoreId → List Effect
notify_all code time = map (λ core. net_send core (timed code time))

unfoldable pub mutex_init : SyncServer → CoreId → Handled
mutex_init s core = do
  (mutexes', capacity) ← push_back Mutex.may_destroy s.mutexes s.mutex_capacity new_mutex
  ok (
    record s { mutexes = mutexes'; mutex_capacity = capacity },
    net_send core (handle (length s.mutexes)) ∷ [],
  )

unfoldable pub lock_reply : Bool → CoreId → ℕ → List Effect
lock_reply true core time = net_send core (timed mutex_lock_response time) ∷ []
lock_reply false core time = []

unfoldable pub mutex_lock : SyncServer → CoreId → ℤ → ℕ → Handled
unfolding lock_reply
mutex_lock s core mux time = do
  (i, m) ← checked_at s.mutexes mux
  let (m', effects, locked) = lock m core
  ok (record s { mutexes = set s.mutexes i m' }, effects ++ lock_reply locked core time)

unfoldable pub mutex_unlock : SyncServer → CoreId → ℤ → ℕ → Handled
mutex_unlock s core mux time = do
  (i, m) ← checked_at s.mutexes mux
  (m', effects, owner) ← unlock m core
  ok (
    record s { mutexes = set s.mutexes i m' },
    effects ++ (notify_owner owner time ++ net_send core (ack mutex_unlock_response) ∷ []),
  )

unfoldable pub cond_init : SyncServer → CoreId → Handled
cond_init s core = do
  (conds', capacity) ← push_back Cond.may_destroy s.conds s.cond_capacity new_cond
  ok (
    record s { conds = conds'; cond_capacity = capacity },
    net_send core (handle (length s.conds)) ∷ [],
  )

unfoldable pub cond_wait : SyncServer → CoreId → ℤ → ℤ → ℕ → Handled
cond_wait s core cond mux time = do
  (j, _) ← checked_at s.mutexes mux
  (i, c) ← checked_at s.conds cond
  (c', mutexes', effects, owner) ← Cond.wait c core time j s.mutexes
  ok (record s { mutexes = mutexes'; conds = set s.conds i c' }, effects ++ notify_owner owner time)

unfoldable pub cond_signal : SyncServer → CoreId → ℤ → ℕ → Handled
cond_signal s core cond time = do
  (i, c) ← checked_at s.conds cond
  (c', mutexes', effects, woken) ← Cond.signal c s.mutexes
  ok (
    record s { mutexes = mutexes'; conds = set s.conds i c' },
    effects ++ (notify_owner woken time ++ net_send core (ack cond_signal_response) ∷ []),
  )

unfoldable pub cond_broadcast : SyncServer → CoreId → ℤ → ℕ → Handled
cond_broadcast s core cond time = do
  (i, c) ← checked_at s.conds cond
  (c', mutexes', effects, woken) ← Cond.broadcast c s.mutexes
  ok (
    record s { mutexes = mutexes'; conds = set s.conds i c' },
    effects
        ++ (notify_all mutex_lock_response time woken
            ++ net_send core (ack cond_broadcast_response) ∷ []),
  )

unfoldable pub barrier_init : SyncServer → CoreId → ℕ → Handled
barrier_init s core count = do
  (barriers', capacity) ←
      push_back Barrier.may_destroy s.barriers s.barrier_capacity (new_barrier count)
  ok (
    record s { barriers = barriers'; barrier_capacity = capacity },
    net_send core (handle (length s.barriers)) ∷ [],
  )

unfoldable pub barrier_wait : SyncServer → CoreId → ℤ → ℕ → Handled
barrier_wait s core barrier time = do
  (i, b) ← signed_checked_at s.barriers barrier
  (b', effects, woken) ← Barrier.wait b core time
  ok (
    record s { barriers = set s.barriers i b' },
    effects ++ notify_all barrier_wait_response b'.max_time woken,
  )
