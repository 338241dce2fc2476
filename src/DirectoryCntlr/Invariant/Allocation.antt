-- ===== src/DirectoryCntlr/Invariant/Allocation.antt =====
-- Replacing an entry leaves the requests of the other lines alone.
use mathlib.Core.Option.{some-injective}
use graphite_atac.Prelude.{
  ℕ, ◌<◌, ◌==◌, ◌≡◌, ◌≢◌, refl, sym, ◌∙◌, ap, ◌⊎◌, inl, inr, Bool, true, false, ◌&&◌, Option, none,
  some, List, [], ◌∷◌, Result, assert, ◌>>◌, Yields, Yields-bind, Yields-option, Yields-assert,
  Yields-map, arith, ==_iff,
}
use graphite_atac.Queues.{HashMapQueue, count}
use graphite_atac.Queues.Counts.{enqueue-AllQueued, count-enqueue}
use graphite_atac.Directory.Slots.{IsTile}
use graphite_atac.Directory.Entry.{Scheme, DirectoryEntry}
use graphite_atac.Directory.Entry.Counts.{SchemeLaws}
use graphite_atac.DirectoryCache.{get_replacement_candidates, replace_directory_entry}
use graphite_atac.DirectoryCache.Coherence.{
  AllCoherent, get_replacement_candidates-AllCoherent, replace_directory_entry-AllCoherent,
}
use graphite_atac.DirectoryCntlr.Messages.{ShmemMsg, ShmemReq, new_request}
use graphite_atac.DirectoryCntlr.State.{DramDirectoryCntlr, find_entry, queue_request}
use graphite_atac.DirectoryCntlr.Replacement.{
  nullify_message, requests_of, is_better, choose_candidate, process_nullify_req, nullify_replaced,
  replace_candidate, process_directory_entry_allocation_req, find_or_allocate,
}
use graphite_atac.DirectoryCntlr.Invariant.{RequestOk, Good, Kept, find_entry-Kept}
use graphite_atac.DirectoryCntlr.Invariant.Nullify.{process_nullify_req-Yields}

module _ {E : Type 0} (scheme : Scheme E) where
  -- A candidate that is chosen has no request, or was the choice before.
  pub choose_candidate_idle :
      (queue : HashMapQueue (Option ShmemReq)) (list : List (DirectoryEntry E))
      (best : Option (DirectoryEntry E)) {e : DirectoryEntry E}
      → choose_candidate scheme queue best list ≡ some e
      → (best ≡ some e) ⊎ (requests_of queue e.address ≡ 0)
  unfolding choose_candidate
  choose_candidate_idle queue [] best h = inl h
  choose_candidate_idle queue (a ∷ list) best {e} h =
      after (is_better scheme best a) (requests_of queue a.address == 0) refl
        (choose_candidate_idle queue list _ h)
    where
      after :
          (b idle : Bool)
          → (requests_of queue a.address == 0) ≡ idle
          → ((elim (b && idle) [ true ↦ some a | false ↦ best ]) ≡ some e)
            ⊎ (requests_of queue e.address ≡ 0)
          → (best ≡ some e) ⊎ (requests_of queue e.address ≡ 0)
      after b idle q (inr k) = inr k
      after true true q (inl k) =
          inr
            (ap (λ x. requests_of queue x.address) (sym (some-injective _ _ k)) ∙ (==_iff _ 0).0 q)
      after true false q (inl k) = inl k
      after false idle q (inl k) = inl k

module _ {E Model : Type 0} {scheme : Scheme E} (laws : SchemeLaws scheme)
    (run_dram_perf_model : Model → ℕ → Model × ℕ)
    (next : ℕ → DramDirectoryCntlr E Model → Result (DramDirectoryCntlr E Model)) where
  -- Other lines than `address` have as many requests as before.
  pub record Apart (address : ℕ) (c c' : DramDirectoryCntlr E Model) : Type 0 where
    pub good : Good laws c'
    pub others :
        (j : ℕ)
        → address ≢ j
        → count c'.dram_directory_req_queue_list j ≡ count c.dram_directory_req_queue_list j

  -- What a last request leaves behind.
  abbrev pub ServesLast : Type 0
  ServesLast =
      (address : ℕ) (c : DramDirectoryCntlr E Model)
      → Good laws c
      → count c.dram_directory_req_queue_list address ≡ 1
      → Yields (Apart address c) (next address c)

  Apart-trans :
      (address : ℕ) (a b c : DramDirectoryCntlr E Model)
      → Apart address a b
      → Apart address b c
      → Apart address a c
  Apart-trans address a b c h k = record {
    good = k.good;
    others = λ j ne. k.others j ne ∙ h.others j ne;
  }

  Kept-Apart :
      (address : ℕ) (c c' : DramDirectoryCntlr E Model) → Kept laws c c' → Apart address c c'
  Kept-Apart address c c' k = record {
    good = k.good;
    others = λ j ne. ap (λ q. count q j) k.queues;
  }

  pub queue_request-Good :
      (c : DramDirectoryCntlr E Model) (address : ℕ) (req : ShmemReq)
      → Good laws c
      → RequestOk address (some req)
      → Good laws (queue_request c address req)
  unfolding queue_request
  queue_request-Good c address req g k = record {
    cache = g.cache;
    requests = enqueue-AllQueued RequestOk c.dram_directory_req_queue_list address _ g.requests k;
  }

  queue_request-Apart :
      (c : DramDirectoryCntlr E Model) (address : ℕ) (req : ShmemReq)
      → Good laws c
      → RequestOk address (some req)
      → Apart address c (queue_request c address req)
  unfolding queue_request
  queue_request-Apart c address req g k = record {
    good = queue_request-Good c address req g k;
    others = λ j ne.
        let n : (address == j) ≡ false = ground arith in
        count-enqueue c.dram_directory_req_queue_list address j (some req) ∙ rw n refl;
  }

  -- With its one request done, the replaced line has been left as the others are.
  queued-Apart :
      (c queued : DramDirectoryCntlr E Model) (req : ShmemReq)
      → ServesLast
      → Apart req.shmem_msg.address c queued
      → Yields (Apart req.shmem_msg.address c) (
          assert (count queued.dram_directory_req_queue_list req.shmem_msg.address == 1)
          >> process_nullify_req scheme run_dram_perf_model next queued req)
  queued-Apart c queued req last a =
      let old = req.shmem_msg.address in
      Yields-assert (Apart old c) (count queued.dram_directory_req_queue_list old == 1) _ (λ one.
        process_nullify_req-Yields laws run_dram_perf_model next (Apart old c) queued req a.good
          (λ c' k. Apart-trans old c queued c' a (Kept-Apart old queued c' k))
          (λ c' k.
            Yields-map (Apart old c') (Apart old c) (next old c')
              (last old c' k.good (ap (λ q. count q old) k.queues ∙ (==_iff _ 1).0 one))
              (λ c'' h.
                Apart-trans old c queued c'' a
                  (Apart-trans old queued c' c'' (Kept-Apart old queued c' k) h))))

  nullify_replaced-Apart :
      (c : DramDirectoryCntlr E Model) (msg : ShmemMsg) (replaced_address msg_time : ℕ)
      → ServesLast
      → Good laws c
      → IsTile msg.requester
      → Yields
          (Apart replaced_address c)
          (nullify_replaced scheme run_dram_perf_model next c msg replaced_address msg_time)
  unfolding nullify_replaced nullify_message new_request
  nullify_replaced-Apart c msg old msg_time last g t =
      queued-Apart c _ _ last (queue_request-Apart c old _ g (refl, t))

  -- The line `address` keeps its requests.
  pub record Waits (address : ℕ) (c c' : DramDirectoryCntlr E Model) : Type 0 where
    pub good : Good laws c'
    pub waiting :
        count c'.dram_directory_req_queue_list address
        ≡ count c.dram_directory_req_queue_list address

  replace_candidate-Waits :
      (c : DramDirectoryCntlr E Model) (msg : ShmemMsg) (msg_time : ℕ)
      (chosen : Option (DirectoryEntry E))
      → ServesLast
      → Good laws c
      → IsTile msg.requester
      → 0 < count c.dram_directory_req_queue_list msg.address
      → ((e : DirectoryEntry E)
          → chosen ≡ some e
          → requests_of c.dram_directory_req_queue_list e.address ≡ 0)
      → Yields
          (λ r. Waits msg.address c r.0)
          (replace_candidate scheme run_dram_perf_model next c msg msg_time chosen)
  unfolding replace_candidate requests_of
  replace_candidate-Waits c msg msg_time none last g t waits idle = tt
  replace_candidate-Waits c msg msg_time (some e) last g t waits idle =
      Yields-option _ e.address _ _ (λ _. tt)
        (λ old at_old.
          let queue = c.dram_directory_req_queue_list in
          let none_left : count queue old ≡ 0 = sym (ap (requests_of queue) at_old) ∙ idle e refl in
          let other : old ≢ msg.address =
            λ p. omega (arith, waits, none_left, ap (count queue) p) in
          Yields-bind (λ r. AllCoherent laws r.0) _
            (replace_directory_entry scheme c.dram_directory_cache c.cycle_count old msg.address) _
            (replace_directory_entry-AllCoherent laws c.dram_directory_cache c.cycle_count old
              msg.address g.cache)
            (λ (cache, later, place) _ k.
              let c' = record c { dram_directory_cache = cache; cycle_count = later } in
              Yields-bind (Apart old c') _
                (nullify_replaced scheme run_dram_perf_model next c' msg old msg_time) _
                (nullify_replaced-Apart c' msg old msg_time last
                  (record { cache = k; requests = g.requests }) t)
                (λ c'' _ a. record { good = a.good; waiting = a.others msg.address other })))

  allocation-Waits :
      (c : DramDirectoryCntlr E Model) (msg : ShmemMsg)
      → ServesLast
      → Good laws c
      → IsTile msg.requester
      → 0 < count c.dram_directory_req_queue_list msg.address
      → Yields
          (λ r. Waits msg.address c r.0)
          (process_directory_entry_allocation_req scheme run_dram_perf_model next c msg)
  unfolding process_directory_entry_allocation_req
  allocation-Waits c msg last g t waits =
      Yields-bind (λ r. AllCoherent laws r.0) _
        (get_replacement_candidates scheme c.dram_directory_cache c.cycle_count msg.address) _
        (get_replacement_candidates-AllCoherent laws c.dram_directory_cache c.cycle_count
          msg.address g.cache)
        (λ (cache, later, candidates) _ k.
          let c' = record c { dram_directory_cache = cache; cycle_count = later } in
          Yields-map (λ r. Waits msg.address c' r.0) (λ r. Waits msg.address c r.0) _
            (replace_candidate-Waits c' msg c.cycle_count
              (choose_candidate scheme c.dram_directory_req_queue_list none candidates) last
              (record { cache = k; requests = g.requests }) t waits
              (λ e chosen. idle_of e (
                choose_candidate_idle scheme c.dram_directory_req_queue_list candidates none
                  chosen)))
            (λ r h. record { good = h.good; waiting = h.waiting }))
    where
      idle_of :
          (e : DirectoryEntry E)
          → (none ≡ some e) ⊎ (requests_of c.dram_directory_req_queue_list e.address ≡ 0)
          → requests_of c.dram_directory_req_queue_list e.address ≡ 0
      idle_of e (inl q) = cc
      idle_of e (inr q) = q

  Kept-Waits :
      (address : ℕ) (c c' : DramDirectoryCntlr E Model) → Kept laws c c' → Waits address c c'
  Kept-Waits address c c' k = record { good = k.good; waiting = ap (λ q. count q address) k.queues }

  pub find_or_allocate-Waits :
      (c : DramDirectoryCntlr E Model) (msg : ShmemMsg)
      → ServesLast
      → Good laws c
      → IsTile msg.requester
      → 0 < count c.dram_directory_req_queue_list msg.address
      → Yields
          (λ r. Waits msg.address c r.0)
          (find_or_allocate scheme run_dram_perf_model next c msg)
  unfolding find_or_allocate
  find_or_allocate-Waits c msg last g t waits =
      Yields-bind (λ r. Kept laws c r.0) _ (find_entry scheme c msg.address) _
        (find_entry-Kept laws c msg.address g)
        (λ (c', found) _ k.
          let same = ap (λ q. count q msg.address) k.queues in
          Yields-option _ found _ _
            (λ _.
              Yields-map (λ r. Waits msg.address c' r.0) (λ r. Waits msg.address c r.0) _
                (allocation-Waits c' msg last k.good t (omega (arith, same, waits)))
                (λ r h. record { good = h.good; waiting = h.waiting ∙ same }))
            (λ place _. Kept-Waits msg.address c c' k))
