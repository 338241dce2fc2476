-- ===== src/Sync/Server/Waits.antt =====
-- `condWait` in a valid server.
use mathlib.Core.Path.{subst}
use graphite_atac.Prelude.{
  ℕ, ◌≡◌, refl, sym, ◌∙◌, ap, inl, inr, List, [], ◌∷◌, ◌++◌, length, set, All, All-append, All-set,
  All-get_elem?, assert_failed, ℤ, length-set, lt_of_get_elem?,
}
use graphite_atac.Sync.Effects.{CoreId, stall_thread, net_send, handle}
use graphite_atac.Sync.Growth.{Growable, push_back_lem}
use graphite_atac.Sync.Mutex.{SimMutex}
use graphite_atac.Sync.Mutex.Fifo.{IsFair, queue-unlock, head?, resumed}
use graphite_atac.Sync.Cond.{
  SimCond, CondWaiter, CondResult, new_cond, wait, wake, signal, signal_first, broadcast,
}
use graphite_atac.Sync.Cond
use graphite_atac.Sync.Cond.Broadcast.{InRange}
use graphite_atac.Sync.Server.{SyncServer, cond_init, cond_wait, notify_owner}
use graphite_atac.Sync.Server.Requests.{
  Exists, OwnedBy, WaitsInRange, IsValid, IsJust, Decides, Found, found, missing, find, not_found,
  same_found,
}
use graphite_atac.Sync.Server.Mutexes.{resumed-IsJust, told_owner}

pub cond_init-Decides :
    (s : SyncServer) (core : CoreId)
    → IsValid s
    → Decides (Growable (λ (c : SimCond). c.waiting) s.conds s.cond_capacity) (cond_init s core)
unfolding cond_init new_cond Cond.may_destroy
cond_init-Decides s core v =
    elim (push_back_lem (λ (c : SimCond). c.waiting) s.conds s.cond_capacity new_cond) [
      | inr (refused, runs) ↦ inr (refused, (assert_failed, rw runs refl))
      | inl (idle, (capacity, runs)) ↦ inl (
        idle,
        (
          record s { conds = s.conds ++ new_cond ∷ []; cond_capacity = capacity },
          net_send core (handle (length s.conds)) ∷ [],
          rw runs refl,
          record {
            fair = v.fair;
            in_range = All-append (WaitsInRange (length s.mutexes)) s.conds _ v.in_range (tt, tt);
            are_open = v.are_open;
          },
          (tt, tt),
        ),
      )
    ]

-- New mutexes and one new condition variable in a valid server.
pub change-IsValid :
    (s : SyncServer) (i : ℕ) (c : SimCond) (ms : List SimMutex)
    → IsValid s
    → All IsFair ms
    → length ms ≡ length s.mutexes
    → WaitsInRange (length s.mutexes) c
    → IsValid (record s { mutexes = ms; conds = set s.conds i c })
change-IsValid s i c ms v f e w = record {
  fair = f;
  in_range =
      subst (λ n. All (WaitsInRange n) (set s.conds i c)) (sym e)
        (All-set (WaitsInRange (length s.mutexes)) s.conds i c v.in_range w);
  are_open = v.are_open;
}

pub cond_wait-Found :
    (s : SyncServer) (core : CoreId) (cond mux : ℤ) (time : ℕ)
    → IsValid s
    → Found s.mutexes mux
    → Found s.conds cond
    → Decides (OwnedBy s.mutexes mux core × Exists s.conds cond) (cond_wait s core cond mux time)
unfolding cond_wait wait
cond_wait-Found s core cond mux time v (missing f e r) _ = inr ((λ x. not_found e x.0.1), (f, rw r))
cond_wait-Found s core cond mux time v (found j m e g r) (missing f e' r') =
    inr ((λ x. not_found e' x.1.1), (f, rw (r, r')))
cond_wait-Found s core cond mux time v (found j m e g r) (found i c e' g' r') =
    elim (queue-unlock m core) [
      | inl (owns, (m', u, fair, queued, next)) ↦
          let w : CondWaiter = record { core_id = core; mutex = j; arrival_time = time } in
          let c' : SimCond = record { waiting = c.waiting ++ w ∷ [] } in
          let ms = set s.mutexes j m' in
          inl (
            ((m, e, owns), (c, e')),
            (
              record s { mutexes = ms; conds = set s.conds i c' },
              (stall_thread core ∷ resumed (head? m.waiting))
                  ++ notify_owner (head? m.waiting) time,
              rw (r, r', Cond.deref_lem s.mutexes j g, u),
              change-IsValid s i c' ms v (All-set IsFair s.mutexes j m' v.fair fair)
                  (length-set s.mutexes j m')
                  (All-append (InRange (length s.mutexes)) c.waiting (w ∷ [])
                    (All-get_elem? (WaitsInRange (length s.mutexes)) s.conds i v.in_range g')
                    (lt_of_get_elem? s.mutexes j g, tt)),
              (
                tt,
                All-append (IsJust ms) (resumed (head? m.waiting)) _ (resumed-IsJust ms _) (
                    told_owner s.mutexes j m' (head? m.waiting) time (lt_of_get_elem? s.mutexes j g)
                      next),
              ),
            ),
          )
      | inr (strange, u) ↦ inr (
        (λ x. strange (ap (λ (k : SimMutex). k.owner) (same_found e x.0.1) ∙ x.0.2)),
        (assert_failed, rw (r, r', Cond.deref_lem s.mutexes j g, u)),
      )
    ]

pub cond_wait-Decides :
    (s : SyncServer) (core : CoreId) (cond mux : ℤ) (time : ℕ)
    → IsValid s
    → Decides (OwnedBy s.mutexes mux core × Exists s.conds cond) (cond_wait s core cond mux time)
cond_wait-Decides s core cond mux time v =
    cond_wait-Found s core cond mux time v (find s.mutexes mux) (find s.conds cond)
