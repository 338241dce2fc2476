-- ===== src/Sync/Server/Barriers.antt =====
-- The handlers of the barriers' requests of `SyncServer`.
use graphite_atac.Prelude.{
  ℕ, ◌<◌, ◌≡◌, refl, ap, inl, inr, some, List, [], ◌∷◌, ◌++◌, map, length, get_elem?, set, All,
  All-append, All-set, All-get_elem?, ok, fail, assert_failed, undefined_behaviour, ℤ, pos, negsuc,
  arith, length-append, All-map, Option-cases, ltb, ◌==◌, Bool-cases,
}
use graphite_atac.Sync.Effects.{
  CoreId, Effect, stall_thread, resume_thread, net_send, handle, barrier_wait_response, IsQuiet,
}
use graphite_atac.Sync.Growth.{Growable, push_back_lem}
use graphite_atac.Sync.Mutex.{SimMutex}
use graphite_atac.Sync.Barrier.{SimBarrier, new_barrier, release_or_wait, latest}
use graphite_atac.Sync.Barrier
use graphite_atac.Sync.Barrier.Release.{IsOpen, new_barrier-IsOpen, wait-IsOpen}
use graphite_atac.Sync.Server.{
  SyncServer, barrier_init, barrier_wait, notify_all, signed_checked_at,
}
use graphite_atac.Sync.Server.Requests.{
  at, IsValid, IsJust, Decides, quiet-IsJust, not_found, same_found,
}

pub barrier_init-Decides :
    (s : SyncServer) (core : CoreId) (count : ℕ)
    → IsValid s
    → Decides
        (Growable (λ (b : SimBarrier). b.waiting) s.barriers s.barrier_capacity)
        (barrier_init s core count)
unfolding barrier_init Barrier.may_destroy
barrier_init-Decides s core count v =
    elim (push_back_lem (λ (b : SimBarrier). b.waiting) s.barriers s.barrier_capacity
      (new_barrier count)) [
        | inr (refused, runs) ↦ inr (refused, (assert_failed, rw runs refl))
        | inl (idle, (capacity, runs)) ↦ inl (
          idle,
          (
            record s {
              barriers = s.barriers ++ new_barrier count ∷ [];
              barrier_capacity = capacity;
            },
            net_send core (handle (length s.barriers)) ∷ [],
            rw runs refl,
            record {
              fair = v.fair;
              in_range = v.in_range;
              are_open = All-append IsOpen s.barriers _ v.are_open (new_barrier-IsOpen count, tt);
            },
            (tt, tt),
          ),
        )
      ]

-- At an open barrier a wait succeeds exactly if the barrier is for somebody.
pub data Waited (b : SimBarrier) (core : CoreId) (time : ℕ) : Type 0 where
  accepted :
      (b' : SimBarrier) (effects : List Effect) (woken : List CoreId)
      → 0 < b.count
      → Barrier.wait b core time ≡ ok (b', effects, woken)
      → All IsQuiet effects
      → Waited b core time
  refused : b.count ≡ 0 → Barrier.wait b core time ≡ fail assert_failed → Waited b core time

resumes-IsQuiet : (cs : List CoreId) → All IsQuiet (map resume_thread cs)
resumes-IsQuiet [] = tt
resumes-IsQuiet (c ∷ cs) = (tt, resumes-IsQuiet cs)

wait_lem : (b : SimBarrier) (core : CoreId) (time : ℕ) → IsOpen b → Waited b core time
unfolding Barrier.wait
wait_lem b core time o = elim (Bool-cases (ltb 0 b.count)) [
  | inl someone ↦ elim (Bool-cases (length all == b.count)) [
    | inl full ↦
        accepted (record b { waiting = []; max_time = latest (length all) time b.max_time })
          (stall_thread core ∷ map resume_thread all) all (ground arith)
          (ground (arith, length-append b.waiting (core ∷ []))) (tt, resumes-IsQuiet all)
    | inr more ↦
        accepted (record b { waiting = all; max_time = latest (length all) time b.max_time })
          (stall_thread core ∷ []) [] (ground arith)
          (ground (arith, length-append b.waiting (core ∷ []))) (tt, tt)
  ]
  | inr nobody ↦ refused (ground arith) (ground (arith, length-append b.waiting (core ∷ [])))
]
  where
    all : List CoreId
    all = b.waiting ++ core ∷ []

barrier_replies-IsJust :
    (ms : List SimMutex) (time : ℕ) (cs : List CoreId)
    → All (IsJust ms) (notify_all barrier_wait_response time cs)
barrier_replies-IsJust ms time [] = tt
barrier_replies-IsJust ms time (c ∷ cs) =
    ((λ e. absurd (omega arith)), barrier_replies-IsJust ms time cs)

abbrev IsFor : SyncServer → ℤ → Type 0
IsFor s z = (b : SimBarrier) × (at s.barriers z ≡ some b) × (0 < b.count)

barrier_wait-at :
    (s : SyncServer) (core : CoreId) (z : ℤ) (time : ℕ) (i : ℕ) (b : SimBarrier)
    → IsValid s
    → at s.barriers z ≡ some b
    → signed_checked_at s.barriers z ≡ ok (i, b)
    → Waited b core time
    → Decides (IsFor s z) (barrier_wait s core z time)
unfolding barrier_wait
barrier_wait-at s core z time i b v e r (accepted b' effects woken p runs quiet) = inl (
  (b, e, p),
  (
    record s { barriers = set s.barriers i b' },
    effects ++ notify_all barrier_wait_response b'.max_time woken,
    rw (r, runs),
    record {
      fair = v.fair;
      in_range = v.in_range;
      are_open =
          All-set IsOpen s.barriers i b' v.are_open (wait-IsOpen b b' core time effects woken runs);
    },
    All-append (IsJust s.mutexes) effects _ (All-map (quiet-IsJust s.mutexes) effects quiet)
        (barrier_replies-IsJust s.mutexes b'.max_time woken),
  ),
)
barrier_wait-at s core z time i b v e r (refused p runs) = inr (
  (λ x.
      let same : b ≡ x.0 = same_found e x.1 in
      ground (arith, ap (λ (k : SimBarrier). k.count) same)),
  (assert_failed, rw (r, runs)),
)

pub barrier_wait-Decides :
    (s : SyncServer) (core : CoreId) (z : ℤ) (time : ℕ)
    → IsValid s
    → Decides (IsFor s z) (barrier_wait s core z time)
unfolding barrier_wait
barrier_wait-Decides s core (negsuc n) time v = inr ((λ x. cc x.1), (undefined_behaviour, refl))
barrier_wait-Decides s core (pos n) time v = elim (Option-cases (get_elem? s.barriers n)) [
  | inl e ↦ inr ((λ x. not_found e x.1), (assert_failed, rw (e, signed_checked_at)))
  | inr (b, e) ↦
      barrier_wait-at s core (pos n) time n b v e (rw (e, signed_checked_at))
        (wait_lem b core time (All-get_elem? IsOpen s.barriers n v.are_open e))
]
