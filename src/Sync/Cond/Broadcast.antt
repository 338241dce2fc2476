-- ===== src/Sync/Cond/Broadcast.antt =====
-- Where the waiters of a condition variable go: into the queues of their mutexes, in order.
use mathlib.Core.List.{append-nil, append_assoc}
use graphite_atac.Prelude.{
  ℕ, ◌<◌, ◌≡◌, refl, ap, sym, ◌∙◌, ◌⊎◌, inl, inr, Bool, true, false, Option, none, some, List, [],
  ◌∷◌, ◌++◌, arith, ok, ◌≢◌, Bool-cases, length, get_elem?, set, All, All-append, All-set,
  All-get_elem?, if◌then◌else◌, ◌==◌, length-set, get_elem?-lt, get_elem?-set,
}
use graphite_atac.Sync.Effects.{CoreId, Effect, resume_thread, IsQuiet}
use graphite_atac.Sync.Mutex.{SimMutex, lock}
use graphite_atac.Sync.Mutex.Fifo.{IsFair, queue, queue-lock}
use graphite_atac.Sync.Cond.{CondWaiter, SimCond, deref_lem, wake, wake_all, broadcast}

abbrev pub queue_or_empty : Option SimMutex → List CoreId
queue_or_empty none = []
queue_or_empty (some m) = queue m

-- The owner and the waiting cores of the mutex at an index.
abbrev pub queue_at : List SimMutex → ℕ → List CoreId
queue_at ms i = queue_or_empty (get_elem? ms i)

-- The cores of the waiters whose mutex is at the index, in order.
abbrev pub waiting_for : ℕ → List CondWaiter → List CoreId
waiting_for i [] = []
waiting_for i (w ∷ ws) = (if w.mutex == i then w.core_id ∷ [] else []) ++ waiting_for i ws

queue_at-set :
    (ms : List SimMutex) (j i : ℕ) (m : SimMutex)
    → j < length ms
    → queue_at (set ms j m) i ≡ (if j == i then queue m else queue_at ms i)
queue_at-set ms j i m h = rw (get_elem?-set ms j i m h) (split (j == i))
  where
    split :
        (b : Bool)
        → queue_or_empty (if b then some m else get_elem? ms i)
          ≡ (if b then queue m else queue_at ms i)
    split true = refl
    split false = refl

pub record Woke (w : CondWaiter) (ms : List SimMutex) : Type 0 where
  pub mutexes : List SimMutex
  pub effects : List Effect
  pub locked : Bool
  pub runs : wake w ms ≡ ok (mutexes, effects, locked)
  pub fair : All IsFair mutexes
  pub quiet : All IsQuiet effects
  pub same_length : length mutexes ≡ length ms
  pub queues :
      (i : ℕ) → queue_at mutexes i ≡ queue_at ms i ++ (if w.mutex == i then w.core_id ∷ [] else [])
  pub granted :
      (locked ≡ true) × (queue_at ms w.mutex ≡ []) ⊎ (locked ≡ false) × (queue_at ms w.mutex ≢ [])

queues-wake :
    (w : CondWaiter) (ms : List SimMutex) (m m' : SimMutex) (i : ℕ)
    → get_elem? ms w.mutex ≡ some m
    → queue m' ≡ queue m ++ w.core_id ∷ []
    → (if w.mutex == i then queue m' else queue_at ms i)
      ≡ queue_at ms i ++ (if w.mutex == i then w.core_id ∷ [] else [])
queues-wake w ms m m' i e q = elim (Bool-cases (w.mutex == i)) [
  | inl here ↦ let same : w.mutex ≡ i = ground arith in rw (here, q, ← same, e)
  | inr there ↦ rw there (sym (append-nil (queue_at ms i)))
]

wake_fair :
    (w : CondWaiter) (ms : List SimMutex) (m : SimMutex)
    → All IsFair ms
    → w.mutex < length ms
    → get_elem? ms w.mutex ≡ some m
    → Woke w ms
unfolding wake
wake_fair w ms m f h e =
    let r = queue-lock m w.core_id (All-get_elem? IsFair ms w.mutex f e) in
    record {
      mutexes = set ms w.mutex (lock m w.core_id).0;
      effects = resume_thread w.core_id ∷ (lock m w.core_id).1;
      locked = (lock m w.core_id).2;
      runs = rw (deref_lem ms w.mutex e);
      fair = All-set IsFair ms w.mutex _ f r.0;
      quiet = (tt, elim r.3 [ inl g ↦ rw g.2 tt | inr g ↦ rw g.2 (tt, tt) ]);
      same_length = length-set ms w.mutex _;
      queues = λ i. queue_at-set ms w.mutex i _ h ∙ queues-wake w ms m (lock m w.core_id).0 i e r.1;
      granted = rw e (elim r.3 [ inl g ↦ inl (g.0, g.1) | inr g ↦ inr (g.0, g.1) ]);
    }

pub wake_lem :
    (w : CondWaiter) (ms : List SimMutex) → All IsFair ms → w.mutex < length ms → Woke w ms
wake_lem w ms f h = let (m, e) = get_elem?-lt ms w.mutex h in wake_fair w ms m f h e

-- How a list of woken threads reads off the queues: a thread is in it if it heads the queue of its
-- mutex, and otherwise stands behind another core in that queue.
pub data Granted (ms : List SimMutex) : List CondWaiter → List CoreId → Type 0 where
  done : Granted ms [] []
  now :
      {w : CondWaiter} {ws : List CondWaiter} {cs : List CoreId} (rest : List CoreId)
      → queue_at ms w.mutex ≡ w.core_id ∷ rest
      → Granted ms ws cs
      → Granted ms (w ∷ ws) (w.core_id ∷ cs)
  later :
      {w : CondWaiter} {ws : List CondWaiter} {cs : List CoreId} (o : CoreId)
      (front rest : List CoreId)
      → queue_at ms w.mutex ≡ o ∷ (front ++ w.core_id ∷ rest)
      → Granted ms ws cs
      → Granted ms (w ∷ ws) cs

pub record WokeAll (ws : List CondWaiter) (ms : List SimMutex) : Type 0 where
  pub mutexes : List SimMutex
  pub effects : List Effect
  pub woken : List CoreId
  pub runs : wake_all ws ms ≡ ok (mutexes, effects, woken)
  pub fair : All IsFair mutexes
  pub quiet : All IsQuiet effects
  pub same_length : length mutexes ≡ length ms
  pub queues : (i : ℕ) → queue_at mutexes i ≡ queue_at ms i ++ waiting_for i ws
  pub granted : Granted mutexes ws woken

abbrev pub InRange : ℕ → CondWaiter → Type 0
InRange n w = w.mutex < n

grant_first :
    (w : CondWaiter) (ws : List CondWaiter) (ms : List SimMutex) (final : List SimMutex)
    (cs : List CoreId) (locked : Bool)
    → queue_at final w.mutex ≡ queue_at ms w.mutex ++ w.core_id ∷ waiting_for w.mutex ws
    → (locked ≡ true) × (queue_at ms w.mutex ≡ []) ⊎ (locked ≡ false) × (queue_at ms w.mutex ≢ [])
    → Granted final ws cs
    → Granted final (w ∷ ws) (if locked then w.core_id ∷ cs else cs)
grant_first w ws ms final cs locked q (inl (t, e)) g =
    rw t (now (waiting_for w.mutex ws) (q ∙ ap (λ l. l ++ w.core_id ∷ waiting_for w.mutex ws) e) g)
grant_first w ws ms final cs locked q (inr (t, e)) g = rw t (behind (queue_at ms w.mutex) refl)
  where
    behind : (l : List CoreId) → queue_at ms w.mutex ≡ l → Granted final (w ∷ ws) cs
    behind [] p = absurd (e p)
    behind (o ∷ front) p =
        later o front (waiting_for w.mutex ws)
          (q ∙ ap (λ l. l ++ w.core_id ∷ waiting_for w.mutex ws) p) g

append_twice :
    (xs ys zs front back : List CoreId)
    → zs ≡ xs ++ front
    → ys ≡ zs ++ back
    → ys ≡ xs ++ (front ++ back)
append_twice xs ys zs front back p q = q ∙ rw p (append_assoc xs front back)

own_queue :
    (w : CondWaiter) (ws : List CondWaiter) (ms final : List SimMutex)
    → queue_at final w.mutex ≡ queue_at ms w.mutex ++ waiting_for w.mutex (w ∷ ws)
    → queue_at final w.mutex ≡ queue_at ms w.mutex ++ w.core_id ∷ waiting_for w.mutex ws
own_queue w ws ms final q = let self : (w.mutex == w.mutex) ≡ true = ground arith in q ∙ rw self

wake_all_lem :
    (ws : List CondWaiter) (ms : List SimMutex)
    → All IsFair ms
    → All (InRange (length ms)) ws
    → WokeAll ws ms
unfolding wake_all
wake_all_lem [] ms f h = record {
  mutexes = ms;
  effects = [];
  woken = [];
  runs = refl;
  fair = f;
  quiet = tt;
  same_length = refl;
  queues = λ i. sym (append-nil _);
  granted = done;
}
wake_all_lem (w ∷ ws) ms f h =
    let a = wake_lem w ms f h.0 in
    let b = wake_all_lem ws a.mutexes a.fair (rw a.same_length h.1) in
    record {
      mutexes = b.mutexes;
      effects = a.effects ++ b.effects;
      woken = if a.locked then w.core_id ∷ b.woken else b.woken;
      runs = rw (a.runs, b.runs);
      fair = b.fair;
      quiet = All-append IsQuiet a.effects b.effects a.quiet b.quiet;
      same_length = b.same_length ∙ a.same_length;
      queues = λ i. append_twice _ _ _ _ _ (a.queues i) (b.queues i);
      granted =
          grant_first w ws ms b.mutexes b.woken a.locked
            (own_queue w ws ms b.mutexes
              (append_twice _ _ _ _ _ (a.queues w.mutex) (b.queues w.mutex)))
            a.granted b.granted;
    }

-- `broadcast` returns normally if the mutexes are fair and every waiter's mutex exists. No waiter is
-- left on the condition variable: each has joined the end of its mutex's queue, in the order of
-- arrival, the woken threads are those that now own their mutex, and the mutexes stay fair. No
-- message is sent by it.
pub broadcast-queues :
    (c : SimCond) (ms : List SimMutex)
    → All IsFair ms
    → All (InRange (length ms)) c.waiting
    → (ms' : List SimMutex) × (effects : List Effect) × (woken : List CoreId) × (broadcast c ms
        ≡ ok (record { waiting = [] }, ms', effects, woken))
      × All IsFair ms'
      × All IsQuiet effects
      × (length ms' ≡ length ms)
      × ((i : ℕ) → queue_at ms' i ≡ queue_at ms i ++ waiting_for i c.waiting)
      × Granted ms' c.waiting woken
unfolding broadcast
broadcast-queues c ms f h =
    let r = wake_all_lem c.waiting ms f h in
    (r.mutexes, r.effects, r.woken, rw r.runs, r.fair, r.quiet, r.same_length, r.queues, r.granted)
