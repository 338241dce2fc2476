-- ===== src/Dram/Contents.antt =====
-- What the memory of a DRAM controller holds, line by line.
use graphite_atac.Prelude.{
  ℕ, zero, suc, ◌≤◌, ◌==◌, ◌≡◌, refl, sym, ◌∙◌, ap, if◌then◌else◌, Bool, true, false, Option, none,
  some, leb, List, [], ◌∷◌, length, take, replicate, Result, ok, fail, Yields, Yields-bind,
  Yields-after, Yields-if, Yields-option, Yields-map, arith, ==_iff,
}
use graphite_atac.DirectoryCache.Accounting.{incr_cycle_count}
use graphite_atac.DirectoryCache.Coherence.{incr_cycle_count-Ends}
use graphite_atac.Dram.{
  DramCntlr, lookup, insert, copy_line, latency_of, allocate, line_of, get_data_from_dram,
  put_data_to_dram,
}

lookup-insert :
    {V : Type 0} (a j : ℕ) (v : V) (m : List (ℕ × V))
    → lookup j (insert a v m) ≡ (if a == j then some v else lookup j m)
unfolding lookup insert
lookup-insert a j v [] = refl
lookup-insert a j v ((k, w) ∷ m) = ground (arith, lookup-insert a j v m)

take-take : (n : ℕ) (xs : List ℕ) → take n (take n xs) ≡ take n xs
take-take zero xs = refl
take-take (suc n) [] = refl
take-take (suc n) (x ∷ xs) = ap (λ l. x ∷ l) (take-take n xs)

-- What the line at an address reads as; a line that was never used reads as zeros.
abbrev pub content : ℕ → Option (List ℕ) → List ℕ
content size none = replicate size 0
content size (some line) = take size line

pub reads : {Model : Type 0} → DramCntlr Model → ℕ → List ℕ
reads d address = content d.cache_line_size (lookup address d.data_map)

module _ {Model : Type 0} (run_dram_perf_model : Model → ℕ → Model × ℕ) where
  -- Only the line at the address has other bytes, its new ones.
  abbrev pub Stores : DramCntlr Model → ℕ → Option (List ℕ) → DramCntlr Model → Type 0
  Stores d address none d' = ⊥
  Stores d address (some bytes) d' =
      (j : ℕ) → reads d' j ≡ (if address == j then take d.cache_line_size bytes else reads d j)

  stored :
      (d : DramCntlr Model) (address j : ℕ) (bytes line : List ℕ) (b : Bool)
      → line ≡ take d.cache_line_size bytes
      → content d.cache_line_size (if b then some line else lookup j d.data_map)
        ≡ (if b then take d.cache_line_size bytes else reads d j)
  unfolding reads
  stored d address j bytes line true e = ap (take d.cache_line_size) e ∙ take-take _ bytes
  stored d address j bytes line false e = refl

  copy_line_lem :
      (size : ℕ) (bytes : List ℕ) → Yields (λ line. line ≡ take size bytes) (copy_line size bytes)
  unfolding copy_line
  copy_line_lem size bytes = Yields-if _ (leb size (length bytes)) _ _ (λ _. refl) (λ _. tt)

  abbrev IsOk : Result (DramCntlr Model) → Type 0
  IsOk (ok d) = Unit
  IsOk (fail f) = ⊥

  succeeds :
      (d : DramCntlr Model) (cycles address : ℕ) (bytes old : List ℕ) (modeled : Bool)
      → lookup address d.data_map ≡ some old
      → d.cache_line_size ≤ length bytes
      → IsOk (put_data_to_dram run_dram_perf_model d cycles address (some bytes) modeled)
  unfolding put_data_to_dram copy_line
  succeeds d cycles address bytes old modeled present long =
      let enough : leb d.cache_line_size (length bytes) ≡ true = ground arith in
      rw (present, put_data_to_dram, enough) tt

  -- A write changes the bytes of its line to those given, and no others.
  pub put_data_to_dram-Stores :
      (d : DramCntlr Model) (cycles address : ℕ) (buffer : Option (List ℕ)) (modeled : Bool)
      → Yields
          (Stores d address buffer)
          (put_data_to_dram run_dram_perf_model d cycles address buffer modeled)
  unfolding put_data_to_dram reads
  put_data_to_dram-Stores d cycles address none modeled =
      Yields-option _ (lookup address d.data_map) _ _ (λ _. tt) (λ old _. tt)
  put_data_to_dram-Stores d cycles address (some bytes) modeled =
      Yields-option _ (lookup address d.data_map) _ _ (λ _. tt)
        (λ old _.
          Yields-bind _ _ (copy_line d.cache_line_size bytes) _
            (copy_line_lem d.cache_line_size bytes)
            (λ line _ e j.
              ap (content d.cache_line_size) (lookup-insert address j line d.data_map)
              ∙ stored d address j bytes line (address == j) e))

  -- A write of a memory line that was read before, from a buffer of at least a line, succeeds: the
  -- line then reads as the bytes given, and every other line as before.
  pub put_data_to_dram_lem :
      (d : DramCntlr Model) (cycles address : ℕ) (bytes old : List ℕ) (modeled : Bool)
      → lookup address d.data_map ≡ some old
      → d.cache_line_size ≤ length bytes
      → (d' : DramCntlr Model) × (put_data_to_dram run_dram_perf_model d cycles address
            (some bytes)
            modeled
          ≡ ok d')
        × ((j : ℕ)
            → reads d' j ≡ (if address == j then take d.cache_line_size bytes else reads d j))
  put_data_to_dram_lem d cycles address bytes old modeled present long =
      returned (put_data_to_dram run_dram_perf_model d cycles address (some bytes) modeled) refl
        (succeeds d cycles address bytes old modeled present long)
        (put_data_to_dram-Stores d cycles address (some bytes) modeled)
    where
      returned :
          (r : Result (DramCntlr Model))
          → put_data_to_dram run_dram_perf_model d cycles address (some bytes) modeled ≡ r
          → IsOk r
          → Yields (Stores d address (some bytes)) r
          → (d' : DramCntlr Model) × (put_data_to_dram run_dram_perf_model d cycles address
                (some bytes)
                modeled
              ≡ ok d')
            × ((j : ℕ)
                → reads d' j ≡ (if address == j then take d.cache_line_size bytes else reads d j))
      returned (ok d') e h s = (d', e, s)
      returned (fail f) e h s = absurd h

  -- The bytes of the line are what the reader gets, and every line reads as before.
  abbrev pub Loads : DramCntlr Model → ℕ → DramCntlr Model × ℕ × List ℕ → Type 0
  Loads d address r = (r.2 ≡ reads d address) × ((j : ℕ) → reads r.0 j ≡ reads d j)

  take-replicate : (n : ℕ) → take {A = ℕ} n (replicate n 0) ≡ replicate n 0
  take-replicate zero = refl
  take-replicate (suc n) = ap (λ l. 0 ∷ l) (take-replicate n)

  allocate-reads : (d : DramCntlr Model) (address j : ℕ) → reads (allocate d address) j ≡ reads d j
  unfolding allocate reads
  allocate-reads d address j = go (lookup address d.data_map) refl
    where
      zeros : List ℕ
      zeros = replicate d.cache_line_size 0

      same :
          (b : Bool)
          → (address == j) ≡ b
          → lookup address d.data_map ≡ none
          → content d.cache_line_size (if b then some zeros else lookup j d.data_map)
            ≡ content d.cache_line_size (lookup j d.data_map)
      same true here e =
          take-replicate d.cache_line_size
          ∙ ap (content d.cache_line_size)
              (sym (ap (λ k. lookup k d.data_map) (sym ((==_iff address j).0 here)) ∙ e))
      same false there e = refl

      go :
          (o : Option (List ℕ))
          → lookup address d.data_map ≡ o
          → reads (allocate d address) j ≡ reads d j
      go none e =
          rw (e, allocate)
            (ap (content d.cache_line_size) (lookup-insert address j zeros d.data_map)
              ∙ same (address == j) refl e)
      go (some line) e = rw (e, allocate) refl

  line_of_lem :
      (d : DramCntlr Model) (address : ℕ)
      → Yields (λ line. line ≡ reads d address) (line_of d address)
  unfolding line_of reads
  line_of_lem d address =
      Yields-option _ (lookup address d.data_map) _ _ (λ _. tt)
        (λ line here.
          Yields-map (λ l. l ≡ take d.cache_line_size line) _ _
            (copy_line_lem d.cache_line_size line)
            (λ l e. e ∙ ap (content d.cache_line_size) (sym here)))

  -- A read gives the bytes of its line and changes none, also of a line that was never used, which
  -- is all zero.
  pub get_data_from_dram-Loads :
      (d : DramCntlr Model) (cycles address : ℕ) (modeled : Bool)
      → Yields (Loads d address) (get_data_from_dram run_dram_perf_model d cycles address modeled)
  unfolding get_data_from_dram reads
  get_data_from_dram-Loads d cycles address modeled =
      Yields-bind _ _ (line_of (allocate d address) address) _
        (line_of_lem (allocate d address) address)
        (λ line _ e.
          Yields-after _
            (incr_cycle_count cycles (latency_of run_dram_perf_model d modeled cycles).1) _
            (incr_cycle_count-Ends cycles _)
            (λ _ _. (e ∙ allocate-reads d address address, λ j. allocate-reads d address j)))
