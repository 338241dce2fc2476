-- ===== src/Cache/Operations/Sets.antt =====
-- The sets and the counters of states of a cache, in step.
use mathlib.Core.Path.{subst}
use mathlib.Core.Option.{some-injective}
use graphite_atac.Prelude.{
  ℕ, zero, suc, ◌<◌, ◌≤◌, ◌≡◌, ◌≢◌, sym, ap, ◌∙◌, inl, inr, ◌==◌, not, List, [], ◌∷◌, some,
  get_elem?, get_elem?-set_self, get_elem?-set_ne, set, length, arith, All, Bool-cases, ==_iff,
}
use graphite_atac.Cache.Line.{invalid, CacheLineInfo, is_valid}
use graphite_atac.Cache.Replacement.{CacheReplacementPolicy}
use graphite_atac.Cache.Set.{CacheSet}
use graphite_atac.Cache.Set.Contents.{IsValid, PolicyLaws}
use graphite_atac.Cache.Counters.{state_index}
use graphite_atac.Cache.Operations.{Cache}
use graphite_atac.Cache.Operations.Totals.{one_if, count_in, total_in, Counts}

-- A line has the invalid tag exactly when it is in the invalid state.
abbrev pub Coherent : CacheLineInfo → Type 0
Coherent info = is_valid info ≡ not (state_index info.cstate == 0)

module _ (policy : CacheReplacementPolicy) (laws : PolicyLaws policy) where
  -- Set `n` of a cache.
  pub record IsCacheSet (p : policy.State) (size n : ℕ) (s : CacheSet) : Type 0 where
    pub valid : IsValid s
    pub number : s.set_num ≡ n
    pub good : laws.IsGood p s.associativity n
    pub line_size : s.line_size ≡ size
    pub coherent : All Coherent s.cache_line_info_array

  abbrev pub AreSets : policy.State → ℕ → List CacheSet → Type 0
  AreSets p line_size sets =
      (n : ℕ) (s : CacheSet) → get_elem? sets n ≡ some s → IsCacheSet p line_size n s

  pub record IsConsistent (c : Cache policy.State) : Type 0 where
    pub sets : AreSets c.replacement_policy c.line_size c.sets
    pub counted : Counts c.cache_line_state_counters (λ st. total_in st c.sets)

  pub set-AreSets :
      (p p' : policy.State) (line_size n : ℕ) (sets : List CacheSet) (s' : CacheSet)
      → n < length sets
      → AreSets p line_size sets
      → IsCacheSet p' line_size n s'
      → ((ways other : ℕ) → n ≢ other → laws.IsGood p ways other → laws.IsGood p' ways other)
      → AreSets p' line_size (set sets n s')
  set-AreSets p p' line_size n sets s' k h new frame m s at_m = elim (Bool-cases (n == m)) [
    | inl same ↦
        let e : n ≡ m = (==_iff n m).0 same in
        subst (λ x. IsCacheSet p' line_size m x)
          (some-injective _ _
            (sym (get_elem?-set_self sets n s' k) ∙ ap (get_elem? (set sets n s')) e ∙ at_m))
          (subst (λ j. IsCacheSet p' line_size j s') e new)
    | inr other ↦
        let ne : n ≢ m = ground arith in
        let old = h m s (sym (get_elem?-set_ne sets s' ne) ∙ at_m) in
        record {
          valid = old.valid;
          number = old.number;
          good = frame s.associativity m ne old.good;
          line_size = old.line_size;
          coherent = old.coherent;
        }
  ]

module _ (policy : CacheReplacementPolicy) (laws : PolicyLaws policy) where
  pub IsConsistent-of :
      (c : Cache policy.State) (p : policy.State) (size : ℕ) (sets : List CacheSet)
      (counters : List ℕ)
      → c.replacement_policy ≡ p
      → c.line_size ≡ size
      → c.sets ≡ sets
      → c.cache_line_state_counters ≡ counters
      → AreSets policy laws p size sets
      → Counts counters (λ st. total_in st sets)
      → IsConsistent policy laws c
  IsConsistent-of c p size sets counters ep es el ec h k = record {
    sets =
        subst (λ x. AreSets policy laws x c.line_size c.sets) (sym ep)
          (subst (λ x. AreSets policy laws p x c.sets) (sym es)
            (subst (λ x. AreSets policy laws p size x) (sym el) h));
    counted =
        subst (λ x. Counts x (λ st. total_in st c.sets)) (sym ec)
          (subst (λ x. Counts counters (λ st. total_in st x)) (sym el) k);
  }

pub one_if-le :
    (st : ℕ) (infos : List CacheLineInfo) (i : ℕ) {old : CacheLineInfo}
    → get_elem? infos i ≡ some old
    → one_if st old.cstate ≤ count_in st infos
unfolding count_in
one_if-le st [] i h = cc
one_if-le st (x ∷ infos) zero h = ground arith
one_if-le st (x ∷ infos) (suc i) h = omega (arith, one_if-le st infos i h)

pub count_in-le :
    (st : ℕ) (sets : List CacheSet) (n : ℕ) {s : CacheSet}
    → get_elem? sets n ≡ some s
    → count_in st s.cache_line_info_array ≤ total_in st sets
unfolding total_in
count_in-le st [] n h = cc
count_in-le st (x ∷ sets) zero h = ground arith
count_in-le st (x ∷ sets) (suc n) h = omega (arith, count_in-le st sets n h)

pub zero_if : (st : ℕ) → st ≢ 0 → one_if st invalid ≡ 0
unfolding state_index
zero_if st ne = ground arith
