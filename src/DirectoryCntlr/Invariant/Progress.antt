-- ===== src/DirectoryCntlr/Invariant/Progress.antt =====
-- The recursion from one request of a line to the next ends with as much fuel as requests wait.
use mathlib.Core.Path.{subst}
use graphite_atac.Prelude.{
  ℕ, zero, suc, ◌≤◌, ◌<◌, ◌==◌, ◌≡◌, refl, sym, ◌∙◌, ap, ◌⊎◌, inl, inr, Bool, true, false, leb,
  Option, none, some, List, ◌∷◌, ok, ◌>>=◌, Yields, Yields-bind, Yields-after, Yields-assert,
  Yields-branch, arith, if◌then◌else◌, ==_iff, length,
}
use graphite_atac.Queues.{HashMapQueue, count, dequeue, is_empty, front, find, put}
use graphite_atac.Queues.Counts.{
  AllQueued, count-dequeue, dequeue-AllQueued, front-find, count_lem, count_of, count-put,
  put-AllQueued, find-All, front-Ends, dequeue-Ends,
}
use graphite_atac.Directory.Slots.{IsTile}
use graphite_atac.Directory.Entry.{Scheme}
use graphite_atac.Directory.Entry.Counts.{SchemeLaws}
use graphite_atac.DirectoryCache.Accounting.{update_cycle_count}
use graphite_atac.DirectoryCntlr.Messages.{ShmemReq, update_time}
use graphite_atac.DirectoryCntlr.State.{DramDirectoryCntlr, resume_front, change_front, pointee}
use graphite_atac.DirectoryCntlr.Requests.{process_front, process_next_req}
use graphite_atac.DirectoryCntlr.Invariant.{RequestOk, Good}
use graphite_atac.DirectoryCntlr.Invariant.Allocation.{ServesLast}
use graphite_atac.DirectoryCntlr.Invariant.Service.{Serves, process_front-Good}

abbrev Requests : Type 0
Requests = HashMapQueue (Option ShmemReq)

change_front_at :
    (m : Requests) (address : ℕ) (req : ShmemReq) (old : Option ShmemReq)
    (rest : List (Option ShmemReq))
    → find address m ≡ some (old ∷ rest)
    → change_front m address req ≡ put address (some req ∷ rest) m
unfolding change_front
change_front_at m address req old rest e = rw (e, change_front) refl

count-change_front :
    (m : Requests) (address j : ℕ) (req : ShmemReq) (old : Option ShmemReq)
    (rest : List (Option ShmemReq))
    → find address m ≡ some (old ∷ rest)
    → count (change_front m address req) j ≡ count m j
count-change_front m address j req old rest e =
    ap (λ q. count q j) (change_front_at m address req old rest e)
    ∙ count-put m address j (some req ∷ rest)
    ∙ same (address == j) refl
  where
    same :
        (b : Bool) → (address == j) ≡ b → (if b then suc (length rest) else count m j) ≡ count m j
    same true h =
        sym (ap (count m) (sym ((==_iff address j).0 h)) ∙ count_lem m address ∙ ap count_of e)
    same false h = refl

module _ {E Model : Type 0} {scheme : Scheme E} (laws : SchemeLaws scheme) where
  -- The request that is resumed waits in the queue, which keeps its requests.
  pub record Resumed (c : DramDirectoryCntlr E Model) (address : ℕ)
      (r : DramDirectoryCntlr E Model × ShmemReq) : Type 0 where
    pub good : Good laws r.0
    pub same :
        (j : ℕ)
        → count r.0.dram_directory_req_queue_list j ≡ count c.dram_directory_req_queue_list j
    pub waits : 0 < count c.dram_directory_req_queue_list address
    pub for_line : r.1.shmem_msg.address ≡ address
    pub from_tile : IsTile r.1.shmem_msg.requester

  resumed :
      (c : DramDirectoryCntlr E Model) (address : ℕ)
      → Good laws c
      → (pointer : Option ShmemReq)
      → ((find address c.dram_directory_req_queue_list ≡ none) × (none ≡ pointer))
        ⊎ ((rest : List (Option ShmemReq)) × (find address c.dram_directory_req_queue_list
              ≡ some (pointer ∷ rest)))
      → Yields (Resumed c address) (do
        old ← pointee pointer
        let req = update_time old c.cycle_count
        ok (
          record c {
            dram_directory_req_queue_list =
                change_front c.dram_directory_req_queue_list address req;
            cycle_count = update_cycle_count c.cycle_count req.time;
          },
          req,
        ))
  unfolding pointee update_time
  resumed c address g none h = tt
  resumed c address g (some old) (inl (e, q)) = cc
  resumed c address g (some old) (inr (rest, e)) =
      let queue = c.dram_directory_req_queue_list in
      let waiting = find-All RequestOk address queue g.requests e in
      let req = update_time old c.cycle_count in
      record {
        good = record {
          cache = g.cache;
          requests =
              subst (AllQueued RequestOk) (sym (change_front_at queue address req _ rest e))
                (put-AllQueued RequestOk address (some req ∷ rest) queue g.requests waiting);
        };
        same = λ j. count-change_front queue address j req _ rest e;
        waits = omega (arith, count_lem queue address, ap count_of e);
        for_line = waiting.0.0;
        from_tile = waiting.0.1;
      }

  pub resume_front-Resumed :
      (c : DramDirectoryCntlr E Model) (address : ℕ)
      → Good laws c
      → Yields (Resumed c address) (resume_front c address)
  unfolding resume_front
  resume_front-Resumed c address g =
      Yields-after _ (front none c.dram_directory_req_queue_list address) _
        (front-Ends none c.dram_directory_req_queue_list address)
        (λ pointer f.
          resumed c address g pointer
            (front-find none pointer c.dram_directory_req_queue_list address f))

module _ {E Model : Type 0} {scheme : Scheme E} (laws : SchemeLaws scheme)
    (run_dram_perf_model : Model → ℕ → Model × ℕ) where
  dequeued-Good :
      (c : DramDirectoryCntlr E Model) (address : ℕ) (queue : Requests) (v : Option ShmemReq)
      → Good laws c
      → dequeue none c.dram_directory_req_queue_list address ≡ ok (queue, v)
      → Good laws (record c { dram_directory_req_queue_list = queue })
  dequeued-Good c address queue v g d = record {
    cache = g.cache;
    requests =
        dequeue-AllQueued RequestOk none v c.dram_directory_req_queue_list queue address g.requests
          d;
  }

  pub process_next_req-last :
      (fuel : ℕ)
      → ServesLast laws run_dram_perf_model (process_next_req scheme run_dram_perf_model (suc fuel))
  unfolding process_next_req
  process_next_req-last fuel address c g one =
      Yields-assert _ (leb 1 (count c.dram_directory_req_queue_list address)) _ (λ _.
        Yields-after _ (dequeue none c.dram_directory_req_queue_list address) _
          (dequeue-Ends none c.dram_directory_req_queue_list address)
          (λ (queue, completed) d.
            let c' = record c { dram_directory_req_queue_list = queue } in
            let g' = dequeued-Good c address queue completed g d in
            let fewer =
              count-dequeue none completed c.dram_directory_req_queue_list queue address in
            Yields-branch _ (is_empty queue address) _ _
              (λ _. record { good = g'; others = λ j ne. fewer j d ∙ ground arith })
              (λ _.
                Yields-bind (Resumed laws c' address) _ (resume_front c' address) _
                  (resume_front-Resumed laws c' address g')
                  (λ r _ k. absurd (ground (arith, k.waits, one, fewer address d))))))

  -- The front request, if one is left, is served with what fuel is left.
  serve_front :
      (fuel : ℕ)
      → Serves laws run_dram_perf_model (process_next_req scheme run_dram_perf_model fuel) fuel
        ⊎ (fuel ≡ 0)
      → (c : DramDirectoryCntlr E Model) (address : ℕ) → Good laws c
      → count c.dram_directory_req_queue_list address ≤ fuel
      → Yields (Good laws) (do
        (c', req) ← resume_front c address
        process_front scheme run_dram_perf_model
            (process_next_req scheme run_dram_perf_model fuel)
            c'
            req)
  serve_front fuel served c address g few =
      Yields-bind (Resumed laws c address) _ (resume_front c address) _
        (resume_front-Resumed laws c address g)
        (λ (c', req) _ k.
          let here = ap (count c'.dram_directory_req_queue_list) k.for_line ∙ k.same address in
          go fuel served few c' req k.good (omega (arith, here, k.waits)) here k.waits k.from_tile)
    where
      go :
          (fuel : ℕ)
          → Serves laws run_dram_perf_model (process_next_req scheme run_dram_perf_model fuel) fuel
            ⊎ (fuel ≡ 0)
          → count c.dram_directory_req_queue_list address ≤ fuel
          → (c' : DramDirectoryCntlr E Model) (req : ShmemReq) → Good laws c'
          → 0 < count c'.dram_directory_req_queue_list req.shmem_msg.address
          → count c'.dram_directory_req_queue_list req.shmem_msg.address
            ≡ count c.dram_directory_req_queue_list address
          → 0 < count c.dram_directory_req_queue_list address
          → IsTile req.shmem_msg.requester
          → Yields (Good laws) (
              process_front scheme run_dram_perf_model
                (process_next_req scheme run_dram_perf_model fuel)
                c'
                req)
      go zero served few c' req g' some_left here waits t = absurd (omega arith)
      go (suc fuel) (inr none_left) few c' req g' some_left here waits t = absurd (omega arith)
      go (suc fuel) (inl serves) few c' req g' some_left here waits t =
          process_front-Good laws run_dram_perf_model _ (suc fuel) serves c' req
            (process_next_req-last fuel) g' some_left (omega arith) t

  next_Serves :
      (fuel : ℕ)
      → Serves laws run_dram_perf_model (process_next_req scheme run_dram_perf_model fuel) fuel
        ⊎ (fuel ≡ 0)
      → Serves laws run_dram_perf_model
          (process_next_req scheme run_dram_perf_model (suc fuel))
          (suc fuel)
  unfolding process_next_req
  next_Serves fuel served address c g few =
      Yields-assert _ (leb 1 (count c.dram_directory_req_queue_list address)) _ (λ _.
        Yields-after _ (dequeue none c.dram_directory_req_queue_list address) _
          (dequeue-Ends none c.dram_directory_req_queue_list address)
          (λ (queue, completed) d.
            let c' = record c { dram_directory_req_queue_list = queue } in
            let g' = dequeued-Good c address queue completed g d in
            let fewer =
              count-dequeue none completed c.dram_directory_req_queue_list queue address address
                d in
            Yields-branch _ (is_empty queue address) _ _ (λ _. g')
              (λ _. serve_front fuel served c' address g' (ground (arith, fewer)))))

  -- The requests of a line, served with as much fuel as they are.
  pub process_next_req-Serves :
      (fuel : ℕ)
      → Serves laws run_dram_perf_model
          (process_next_req scheme run_dram_perf_model (suc fuel))
          (suc fuel)
  process_next_req-Serves zero = next_Serves zero (inr refl)
  process_next_req-Serves (suc fuel) = next_Serves (suc fuel) (inl (process_next_req-Serves fuel))
