-- ===== src/Sync/Server/Mutexes.antt =====
-- The handlers of the mutex requests of `SyncServer`.
use graphite_atac.Prelude.{
  ℕ, ◌≤◌, ◌<◌, ◌≡◌, refl, ◌∙◌, ap, ◌⊎◌, inl, inr, Bool, true, false, Option, none, some, List, [],
  ◌∷◌, ◌++◌, length, get_elem?, set, All, All-append, All-set, All-get_elem?, assert_failed, ◌≢◌, ℤ,
  arith, length-set, length-append, get_elem?-set_self, lt_of_get_elem?, All-map,
}
use graphite_atac.Sync.Effects.{CoreId, stall_thread, net_send, ack, handle, mutex_unlock_response}
use graphite_atac.Sync.Growth.{Growable, push_back_lem}
use graphite_atac.Sync.Mutex
use graphite_atac.Sync.Mutex.{SimMutex, new_mutex, lock}
use graphite_atac.Sync.Mutex.Fifo.{
  IsFair, queue-lock, queue-unlock, new_mutex-IsFair, head?, resumed, queue,
}
use graphite_atac.Sync.Cond.{SimCond}
use graphite_atac.Sync.Server.{
  SyncServer, mutex_init, mutex_lock, mutex_unlock, lock_reply, notify_owner,
}
use graphite_atac.Sync.Server.Requests.{
  Exists, OwnedBy, WaitsInRange, IsValid, Owns, IsJust, Decides, Found, found, missing, find,
  not_found, same_found,
}

-- More mutexes keep every waiter in range.
pub WaitsInRange-mono :
    {m n : ℕ} (cs : List SimCond) → m ≤ n → All (WaitsInRange m) cs → All (WaitsInRange n) cs
WaitsInRange-mono {m} {n} cs h = All-map (λ c. All-map (λ w k. omega arith) c.waiting) cs

-- A mutex of a valid server changes to a fair one.
pub set_mutex-IsValid :
    (s : SyncServer) (i : ℕ) (m : SimMutex)
    → IsValid s
    → IsFair m
    → IsValid (record s { mutexes = set s.mutexes i m })
set_mutex-IsValid s i m v f = record {
  fair = All-set IsFair s.mutexes i m v.fair f;
  in_range = WaitsInRange-mono s.conds (omega (arith, length-set s.mutexes i m)) v.in_range;
  are_open = v.are_open;
}

pub notify_owner-IsJust :
    (ms : List SimMutex) (o : Option CoreId) (time : ℕ)
    → ((c : CoreId) → o ≡ some c → Owns ms c)
    → All (IsJust ms) (notify_owner o time)
notify_owner-IsJust ms none time h = tt
notify_owner-IsJust ms (some c) time h = (λ _. h c refl, tt)

pub resumed-IsJust : (ms : List SimMutex) (o : Option CoreId) → All (IsJust ms) (resumed o)
resumed-IsJust ms none = tt
resumed-IsJust ms (some c) = (tt, tt)

pub mutex_init-Decides :
    (s : SyncServer) (core : CoreId)
    → IsValid s
    → Decides
        (Growable (λ (m : SimMutex). m.waiting) s.mutexes s.mutex_capacity)
        (mutex_init s core)
unfolding mutex_init Mutex.may_destroy
mutex_init-Decides s core v =
    elim (push_back_lem (λ (m : SimMutex). m.waiting) s.mutexes s.mutex_capacity new_mutex) [
      | inr (refused, runs) ↦ inr (refused, (assert_failed, rw runs refl))
      | inl (idle, (capacity, runs)) ↦ inl (
        idle,
        (
          record s { mutexes = s.mutexes ++ new_mutex ∷ []; mutex_capacity = capacity },
          net_send core (handle (length s.mutexes)) ∷ [],
          rw runs refl,
          record {
            fair = All-append IsFair s.mutexes (new_mutex ∷ []) v.fair (new_mutex-IsFair, tt);
            in_range =
                WaitsInRange-mono s.conds (omega (arith, length-append s.mutexes (new_mutex ∷ [])))
                  v.in_range;
            are_open = v.are_open;
          },
          (tt, tt),
        ),
      )
    ]

lock_reply-IsJust :
    (ms : List SimMutex) (b : Bool) (core : CoreId) (time : ℕ)
    → (b ≡ true → Owns ms core)
    → All (IsJust ms) (lock_reply b core time)
unfolding lock_reply
lock_reply-IsJust ms true core time h = (λ _. h refl, tt)
lock_reply-IsJust ms false core time h = tt

lock-IsJust :
    (ms : List SimMutex) (m : SimMutex) (i : ℕ) (core : CoreId) (time : ℕ)
    → IsFair m
    → get_elem? ms i ≡ some (lock m core).0
    → All (IsJust ms) ((lock m core).1 ++ lock_reply (lock m core).2 core time)
lock-IsJust ms m i core time f e = elim q.3 [
  | inl (locked, empty, quiet) ↦
      rw quiet (lock_reply-IsJust ms _ core time (λ _. (i, (lock m core).0, e, q.2 ∙ rw empty)))
  | inr (locked, busy, stalled) ↦
      rw (stalled, locked) (tt, lock_reply-IsJust ms false core time (λ h. cc))
]
  where
    q :
        IsFair (lock m core).0
        × (queue (lock m core).0 ≡ queue m ++ core ∷ [])
        × ((lock m core).0.owner ≡ head? (queue m ++ core ∷ []))
        × (((lock m core).2 ≡ true) × (queue m ≡ []) × ((lock m core).1 ≡ [])
            ⊎ ((lock m core).2 ≡ false)
              × (queue m ≢ [])
              × ((lock m core).1 ≡ stall_thread core ∷ []))
    q = queue-lock m core f

mutex_lock-Found :
    (s : SyncServer) (core : CoreId) (z : ℤ) (time : ℕ)
    → IsValid s
    → Found s.mutexes z
    → Decides (Exists s.mutexes z) (mutex_lock s core z time)
unfolding mutex_lock
mutex_lock-Found s core z time v (missing f e r) = inr ((λ x. not_found e x.1), (f, rw r))
mutex_lock-Found s core z time v (found i m e g r) =
    let f = All-get_elem? IsFair s.mutexes i v.fair g in
    let m' = (lock m core).0 in
    let ms = set s.mutexes i m' in
    inl (
      (m, e),
      (
        record s { mutexes = ms },
        (lock m core).1 ++ lock_reply (lock m core).2 core time,
        rw r,
        set_mutex-IsValid s i m' v (queue-lock m core f).0,
        lock-IsJust ms m i core time f
            (get_elem?-set_self s.mutexes i m' (lt_of_get_elem? s.mutexes i g)),
      ),
    )

pub mutex_lock-Decides :
    (s : SyncServer) (core : CoreId) (z : ℤ) (time : ℕ)
    → IsValid s
    → Decides (Exists s.mutexes z) (mutex_lock s core z time)
mutex_lock-Decides s core z time v = mutex_lock-Found s core z time v (find s.mutexes z)

-- The owner of a mutex that was just written is told so.
pub told_owner :
    (ms : List SimMutex) (i : ℕ) (m : SimMutex) (o : Option CoreId) (time : ℕ)
    → i < length ms
    → m.owner ≡ o
    → All (IsJust (set ms i m)) (notify_owner o time)
told_owner ms i m o time h e =
    notify_owner-IsJust _ o time (λ c p. (i, m, get_elem?-set_self ms i m h, e ∙ p))

mutex_unlock-Found :
    (s : SyncServer) (core : CoreId) (z : ℤ) (time : ℕ)
    → IsValid s
    → Found s.mutexes z
    → Decides (OwnedBy s.mutexes z core) (mutex_unlock s core z time)
unfolding mutex_unlock
mutex_unlock-Found s core z time v (missing f e r) = inr ((λ x. not_found e x.1), (f, rw r))
mutex_unlock-Found s core z time v (found i m e g r) = elim (queue-unlock m core) [
  | inl (owns, (m', u, fair, queued, next)) ↦ inl (
    (m, e, owns),
    (
      record s { mutexes = set s.mutexes i m' },
      resumed (head? m.waiting)
          ++ (notify_owner (head? m.waiting) time
              ++ net_send core (ack mutex_unlock_response) ∷ []),
      rw (r, u),
      set_mutex-IsValid s i m' v fair,
      All-append _ (resumed (head? m.waiting)) _ (resumed-IsJust _ _) (
          All-append _ (notify_owner (head? m.waiting) time) _
            (told_owner s.mutexes i m' _ time (lt_of_get_elem? s.mutexes i g) next) (tt, tt)),
    ),
  )
  | inr (strange, u) ↦ inr (
    (λ x. strange (ap (λ (k : SimMutex). k.owner) (same_found e x.1) ∙ x.2)),
    (assert_failed, rw (r, u)),
  )
]

pub mutex_unlock-Decides :
    (s : SyncServer) (core : CoreId) (z : ℤ) (time : ℕ)
    → IsValid s
    → Decides (OwnedBy s.mutexes z core) (mutex_unlock s core z time)
mutex_unlock-Decides s core z time v = mutex_unlock-Found s core z time v (find s.mutexes z)
