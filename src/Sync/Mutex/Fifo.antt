-- ===== src/Sync/Mutex/Fifo.antt =====
-- A mutex as a queue of the cores that asked for it, the owner first.
use graphite_atac.Prelude.{
  ◌≡◌, refl, ap, ◌⊎◌, inl, inr, true, false, Option, none, some, List, [], ◌∷◌, ◌++◌, Result, ok,
  fail, assert_failed, ◌≢◌, Bool-cases,
}
use mathlib.Core.Path.{subst}
use graphite_atac.Sync.Effects.{
  CoreId, same_core, same_core_refl, same_core-eq, Effect, stall_thread, resume_thread,
}
use graphite_atac.Sync.Mutex.{SimMutex, new_mutex, lock, unlock}

-- Nobody waits for a free mutex.
abbrev pub NoIdleWait : Option CoreId → List CoreId → Type 0
NoIdleWait none waiting = waiting ≡ []
NoIdleWait (some o) waiting = Unit {0}

abbrev pub IsFair : SimMutex → Type 0
IsFair m = NoIdleWait m.owner m.waiting

abbrev pub queue_of : Option CoreId → List CoreId → List CoreId
queue_of none waiting = waiting
queue_of (some o) waiting = o ∷ waiting

-- The owner, then the waiting cores, in the order in which they will own the mutex.
abbrev pub queue : SimMutex → List CoreId
queue m = queue_of m.owner m.waiting

abbrev pub head? : List CoreId → Option CoreId
head? [] = none
head? (c ∷ cs) = some c

pub new_mutex-IsFair : IsFair new_mutex
unfolding new_mutex
new_mutex-IsFair = refl

lock_lem :
    (o : Option CoreId) (ws : List CoreId) (c : CoreId)
    → NoIdleWait o ws
    → let r = lock (record { owner = o; waiting = ws }) c in
      IsFair r.0
      × (queue r.0 ≡ queue_of o ws ++ c ∷ [])
      × (r.0.owner ≡ head? (queue_of o ws ++ c ∷ []))
      × ((r.2 ≡ true) × (queue_of o ws ≡ []) × (r.1 ≡ [])
          ⊎ (r.2 ≡ false) × (queue_of o ws ≢ []) × (r.1 ≡ stall_thread c ∷ []))
unfolding lock
lock_lem none ws c h = rw h (tt, refl, refl, inl (refl, refl, refl))
lock_lem (some o) ws c h = (tt, refl, refl, inr (refl, (λ e. cc), refl))

-- `lock` puts the core at the end of the queue of a fair mutex. It reports the lock as taken
-- exactly when the queue was empty, and stalls the core otherwise; the owner is always the head.
pub queue-lock :
    (m : SimMutex) (c : CoreId)
    → IsFair m
    → let (m', effects, locked) = lock m c in
      IsFair m'
      × (queue m' ≡ queue m ++ c ∷ [])
      × (m'.owner ≡ head? (queue m ++ c ∷ []))
      × ((locked ≡ true) × (queue m ≡ []) × (effects ≡ [])
          ⊎ (locked ≡ false) × (queue m ≢ []) × (effects ≡ stall_thread c ∷ []))
queue-lock m c h = lock_lem m.owner m.waiting c h

abbrev pub resumed : Option CoreId → List Effect
resumed none = []
resumed (some c) = resume_thread c ∷ []

-- What a successful `unlock` by the owner returns: the queue without its head.
abbrev pub Unlocked : List CoreId → Result (SimMutex × List Effect × Option CoreId) → Type 0
Unlocked rest r =
    (m' : SimMutex) × (r ≡ ok (m', resumed (head? rest), head? rest))
    × IsFair m'
    × (queue m' ≡ rest)
    × (m'.owner ≡ head? rest)

unlock_owner :
    (o : CoreId) (ws : List CoreId)
    → Unlocked ws (unlock (record { owner = some o; waiting = ws }) o)
unfolding unlock
unlock_owner o [] = (record { owner = none; waiting = [] }, rw (same_core_refl o), refl, refl, refl)
unlock_owner o (w ∷ ws) =
    (record { owner = some w; waiting = ws }, rw (same_core_refl o), tt, refl, refl)

unlock_cases :
    (o : Option CoreId) (ws : List CoreId) (c : CoreId)
    → (o ≡ some c) × Unlocked ws (unlock (record { owner = o; waiting = ws }) c)
      ⊎ (o ≢ some c) × (unlock (record { owner = o; waiting = ws }) c ≡ fail assert_failed)
unfolding unlock
unlock_cases none ws c = inr ((λ e. cc), refl)
unlock_cases (some o) ws c = elim (Bool-cases (same_core o c)) [
  | inl same ↦
      let e : o ≡ c = same_core-eq o c same in
      inl (
        ap some e,
        subst (λ d. Unlocked ws (unlock (record { owner = some o; waiting = ws }) d)) e
            (unlock_owner o ws),
      )
  | inr other ↦ inr ((λ e. cc (same_core_refl o)), rw other)
]

-- By the owner, `unlock` succeeds: the next core of the queue owns the mutex and is resumed, and
-- with no next core the mutex is free. By any other core it fails its assertion.
pub queue-unlock :
    (m : SimMutex) (c : CoreId)
    → (m.owner ≡ some c) × Unlocked m.waiting (unlock m c)
      ⊎ (m.owner ≢ some c) × (unlock m c ≡ fail assert_failed)
queue-unlock m c = unlock_cases m.owner m.waiting c
