-- ===== src/Cache/Operations/Steps.antt =====
-- What the steps of an insertion that count and note do to a cache.
use native.Mathlib.Nat.{pow-suc, mul_assoc}
use graphite_atac.Prelude.{
  ℕ, zero, suc, ◌-◌, ◌*◌, ◌^◌, ◌<◌, ◌≡◌, ◌≢◌, refl, ap, inl, inr, ◌==◌, if◌then◌else◌, Bool, true,
  false, not, List, Result, ok, fail, arith, Bool-cases,
}
use graphite_atac.Cache.Line.{invalid, CacheLineInfo}
use graphite_atac.Cache.Replacement.{CacheReplacementPolicy}
use graphite_atac.Cache.Set.{Evicted}
use graphite_atac.Cache.Counters.{state_index, update_cache_line_state_counters}
use graphite_atac.Cache.Operations.{
  Cache, get_address_from_tag, note_eviction, count_eviction, count_insertion, is_invalid,
}

pub evicted_address-ne : (tag log : ℕ) → 0 < log → get_address_from_tag log tag ≢ 2 ^ 64 - 1
unfolding get_address_from_tag
evicted_address-ne tag zero h e = absurd (omega arith)
evicted_address-ne tag (suc log) h e =
    absurd (omega (arith, mul_assoc tag (2 ^ log) 2, ap (λ k. tag * k) (pow-suc 2 log), e))

module _ (policy : CacheReplacementPolicy) (hash_fn : ℕ → ℕ) (c : Cache policy.State) where
  -- Only the counters of evictions and of the arrays differ.
  abbrev pub Keeps : Result (Cache policy.State) → Type 0
  Keeps (ok c') =
      (c'.replacement_policy ≡ c.replacement_policy)
      × (c'.line_size ≡ c.line_size)
      × (c'.sets ≡ c.sets)
      × (c'.cache_line_state_counters ≡ c.cache_line_state_counters)
      × (c'.tracking ≡ c.tracking)
  Keeps (fail fault) = ⊥

  pub Keeps-ok :
      (r : Result (Cache policy.State))
      → Keeps r
      → (c' : Cache policy.State) × (r ≡ ok c') × Keeps (ok c')
  Keeps-ok (ok c') h = (c', refl, h)
  Keeps-ok (fail fault) h = absurd h

  Keeps-if :
      (b : Bool) (x y : Result (Cache policy.State))
      → (b ≡ true → Keeps x)
      → (b ≡ false → Keeps y)
      → Keeps (if b then x else y)
  Keeps-if true x y f g = f refl
  Keeps-if false x y f g = g refl

  count_insertion-Keeps :
      (out : Evicted)
      → out.eviction ≡ not (state_index out.info.cstate == 0)
      → Keeps (count_insertion policy hash_fn c out)
  unfolding count_insertion count_eviction is_invalid
  count_insertion-Keeps out h = elim (Bool-cases (state_index out.info.cstate == 0)) [
    | inl zero_state ↦
        let off : out.eviction ≡ false = ground (arith, h, zero_state) in
        rw (off, zero_state) (refl, refl, refl, refl, refl)
    | inr other ↦
        let on : out.eviction ≡ true = ground (arith, h, other) in
        rw (on, other) (refl, refl, refl, refl, refl)
  ]

  pub counted-Keeps :
      (out : Evicted)
      → out.eviction ≡ not (state_index out.info.cstate == 0)
      → Keeps (if c.enabled then count_insertion policy hash_fn c out else ok c)
  counted-Keeps out h =
      Keeps-if c.enabled (count_insertion policy hash_fn c out) (ok c)
        (λ on. count_insertion-Keeps out h) (λ off. (refl, refl, refl, refl, refl))

  -- The counters of states after a line is evicted, if one is.
  abbrev pub Notes : List ℕ → Result (Cache policy.State) → Type 0
  Notes counters (ok c') =
      (c'.replacement_policy ≡ c.replacement_policy)
      × (c'.line_size ≡ c.line_size)
      × (c'.sets ≡ c.sets)
      × (c'.cache_line_state_counters ≡ counters)
  Notes counters (fail fault) = ⊥

  pub Notes-ok :
      (counters : List ℕ) (r : Result (Cache policy.State))
      → Notes counters r
      → (c' : Cache policy.State) × (r ≡ ok c') × Notes counters (ok c')
  Notes-ok counters (ok c') h = (c', refl, h)
  Notes-ok counters (fail fault) h = absurd h

  pub note_eviction-Notes :
      (old : CacheLineInfo) (evicted_address : ℕ) (counters : List ℕ)
      → evicted_address ≢ 2 ^ 64 - 1
      → update_cache_line_state_counters old.cstate invalid c.cache_line_state_counters
        ≡ ok counters
      → Notes counters (note_eviction policy hash_fn c old evicted_address)
  unfolding note_eviction
  note_eviction-Notes old evicted_address counters ne e =
      let t : (evicted_address == 2 ^ 64 - 1) ≡ false = ground arith in
      rw (t, e) (refl, refl, refl, refl)
