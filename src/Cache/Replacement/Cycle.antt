-- ===== src/Cache/Replacement/Cycle.antt =====
-- `RoundRobinReplacementPolicy` gives up the ways of a set in turn.
use graphite_atac.Prelude.{
  ℕ, zero, suc, ◌-◌, ◌<◌, ◌≡◌, refl, ap, ◌∙◌, ◌≢◌, List, [], ◌∷◌, some, arith, ◌==◌, length,
  get_elem?, get_elem?-set_self, get_elem?-set_ne, lt_of_get_elem?, ok, Result, if◌then◌else◌, set,
  ◌>>=◌, Bool-cases, inl, inr,
}
use graphite_atac.Cache.Line.{CacheLineInfo}
use graphite_atac.Cache.Replacement.{RoundRobinReplacementPolicy, round_robin_get_replacement_way}

-- Some evictions from one set, whatever its lines are by then: the ways, in order.
pub evict_from :
    ℕ
    → List (List CacheLineInfo)
    → RoundRobinReplacementPolicy
    → Result (RoundRobinReplacementPolicy × List ℕ)
evict_from set_num [] p = ok (p, [])
evict_from set_num (infos ∷ rest) p = do
  (p', way) ← round_robin_get_replacement_way p infos set_num
  (p'', ways) ← evict_from set_num rest p'
  ok (p'', way ∷ ways)

-- The ways from `n` - 1 down to 0.
abbrev pub down_from : ℕ → List ℕ
down_from zero = []
down_from (suc n) = n ∷ down_from n

-- After the call the set stands at the next way; the other sets are as before.
record Turned (p p' : RoundRobinReplacementPolicy) (set_num next : ℕ) : Type 0 where
  associativity : p'.associativity ≡ p.associativity
  at_set : get_elem? p'.replacement_index_vec set_num ≡ some next
  at_others :
      (other : ℕ)
      → set_num ≢ other
      → get_elem? p'.replacement_index_vec other ≡ get_elem? p.replacement_index_vec other

turn :
    (p : RoundRobinReplacementPolicy) (infos : List CacheLineInfo) (set_num curr : ℕ)
    → get_elem? p.replacement_index_vec set_num ≡ some curr
    → (p' : RoundRobinReplacementPolicy) × (round_robin_get_replacement_way p infos set_num
        ≡ ok (p', curr))
      × Turned p p' set_num (if curr == 0 then p.associativity - 1 else curr - 1)
unfolding round_robin_get_replacement_way
turn p infos set_num curr h =
    let next = if curr == 0 then p.associativity - 1 else curr - 1 in
    (
      record p { replacement_index_vec = set p.replacement_index_vec set_num next },
      ground (arith, h),
      record {
        associativity = refl;
        at_set =
            get_elem?-set_self p.replacement_index_vec set_num next
              (lt_of_get_elem? p.replacement_index_vec set_num h);
        at_others = λ other ne. get_elem?-set_ne p.replacement_index_vec next ne;
      },
    )

evict_from-cons :
    (infos : List CacheLineInfo) (rest : List (List CacheLineInfo)) (set_num : ℕ)
    (p : RoundRobinReplacementPolicy)
    → {p' p'' : RoundRobinReplacementPolicy} {way : ℕ} {ways : List ℕ}
    → round_robin_get_replacement_way p infos set_num ≡ ok (p', way)
    → evict_from set_num rest p' ≡ ok (p'', ways)
    → evict_from set_num (infos ∷ rest) p ≡ ok (p'', way ∷ ways)
unfolding evict_from
evict_from-cons infos rest set_num p turned evicted = ground (arith, turned, evicted)

evict_down :
    (lines : List (List CacheLineInfo)) (p : RoundRobinReplacementPolicy) (set_num : ℕ)
    → (n : ℕ) → length lines ≡ suc n
    → get_elem? p.replacement_index_vec set_num ≡ some n
    → (p' : RoundRobinReplacementPolicy) × (evict_from set_num lines p ≡ ok (p', down_from (suc n)))
      × Turned p p' set_num (p.associativity - 1)
unfolding evict_from
evict_down [] p set_num n len h = absurd (omega arith)
evict_down (infos ∷ []) p set_num zero len h =
    let (p', turned, t) = turn p infos set_num 0 h in (p', rw turned refl, t)
evict_down (infos ∷ []) p set_num (suc n) len h = absurd (omega arith)
evict_down (infos ∷ infos' ∷ rest) p set_num zero len h = absurd (omega arith)
evict_down (infos ∷ infos' ∷ rest) p set_num (suc n) len h =
    let (p', turned, t) = turn p infos set_num (suc n) h in
    let (p'', evicted, u) =
      evict_down (infos' ∷ rest) p' set_num n (omega arith) (ground (arith, t.at_set)) in
    (
      p'',
      evict_from-cons infos (infos' ∷ rest) set_num p turned evicted,
      record {
        associativity = u.associativity ∙ t.associativity;
        at_set = ground (arith, u.at_set, t.associativity);
        at_others = λ other ne. u.at_others other ne ∙ t.at_others other ne;
      },
    )

-- As many evictions from a set as it has ways, which is one or more, beginning at the last way,
-- succeed and give up each way once, from the last to the first; every set then stands where it
-- stood.
pub round_robin_round :
    (p : RoundRobinReplacementPolicy) (lines : List (List CacheLineInfo)) (set_num : ℕ)
    → 0 < p.associativity
    → length lines ≡ p.associativity
    → get_elem? p.replacement_index_vec set_num ≡ some (p.associativity - 1)
    → (p' : RoundRobinReplacementPolicy) × (evict_from set_num lines p
        ≡ ok (p', down_from p.associativity))
      × (p'.associativity ≡ p.associativity)
      × ((other : ℕ)
          → get_elem? p'.replacement_index_vec other ≡ get_elem? p.replacement_index_vec other)
round_robin_round p lines set_num some_way len h =
    let (p', evicted, t) = evict_down lines p set_num (p.associativity - 1) (omega arith) h in
    (
      p',
      evicted ∙ ap (λ n. ok (p', down_from n)) {x = suc (p.associativity - 1)} (omega arith),
      t.associativity,
      λ other. elim (Bool-cases (set_num == other)) [
        | inl same ↦ ground (arith, t.at_set)
        | inr ne ↦ t.at_others other (ground arith)
      ],
    )
