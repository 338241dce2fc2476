-- ===== src/Cache/Replacement/Recency.antt =====
-- The bits of a set under `LRUReplacementPolicy` are the ranks of its ways by recency.
use graphite_atac.Prelude.{
  ℕ, zero, suc, ◌+◌, ◌<◌, ◌≤◌, ◌≡◌, refl, ap, ◌∙◌, ◌≢◌, List, some, arith, length, get_elem?, set,
  lt_of_get_elem?, ok, get_elem?-set_self, get_elem?-set_ne,
}
use graphite_atac.Cache.Line.{CacheLineInfo}
use graphite_atac.Cache.Replacement.{LruReplacementPolicy, lru_update, ways_from}
pub use graphite_atac.Cache.Replacement.Touch.{Ranks, length-erase, move_to_front}
use graphite_atac.Cache.Replacement.Touch.{touch-Ranks}

ways_from-get_elem? :
    (rounds first i : ℕ)
    → first + rounds ≤ 256
    → i < rounds
    → get_elem? (ways_from first rounds) i ≡ some (first + i)
unfolding ways_from
ways_from-get_elem? zero first i h k = absurd (omega arith)
ways_from-get_elem? (suc rounds) first zero h k = ap some (omega arith)
ways_from-get_elem? (suc rounds) first (suc i) h k =
    ways_from-get_elem? rounds (suc first) i (omega arith) (omega arith) ∙ ap some (omega arith)

length-ways_from : (rounds first : ℕ) → length (ways_from first rounds) ≡ rounds
unfolding ways_from
length-ways_from zero first = refl
length-ways_from (suc rounds) first = ap suc (length-ways_from rounds (suc first))

diagonal :
    (n : ℕ)
    → n ≤ 256
    → (i j : ℕ) → get_elem? (ways_from 0 n) i ≡ some j
    → get_elem? (ways_from 0 n) j ≡ some i
diagonal n h i j e =
    let k : i < n = omega (arith, lt_of_get_elem? (ways_from 0 n) i e, length-ways_from n 0) in
    ground (arith, ways_from-get_elem? n 0 i (omega arith) k)

-- At first the ways stand in their order.
pub ways_from-Ranks :
    (associativity : ℕ)
    → associativity ≤ 256
    → Ranks (ways_from 0 associativity) (ways_from 0 associativity)
ways_from-Ranks n h = record {
  size = refl;
  to_order = λ way place e. diagonal n h way place e;
  to_bits = λ way place e. diagonal n h place way e;
}

-- If the bits of a set with at most 256 ways rank them by recency, then after an access to one of
-- them they rank them with that way as the most recent one, and no other set changes.
pub lru_update-Ranks :
    (p : LruReplacementPolicy) (infos : List CacheLineInfo) (set_num way accessed : ℕ)
    (bits order : List ℕ)
    → get_elem? p.lru_bits_vec set_num ≡ some bits
    → Ranks bits order
    → length order ≤ 256
    → get_elem? bits way ≡ some accessed
    → (p' : LruReplacementPolicy) × (bits' : List ℕ) × (lru_update p infos set_num way ≡ ok p')
      × (p'.associativity ≡ p.associativity)
      × (get_elem? p'.lru_bits_vec set_num ≡ some bits')
      × Ranks bits' (move_to_front way order)
      × ((other : ℕ)
          → set_num ≢ other
          → get_elem? p'.lru_bits_vec other ≡ get_elem? p.lru_bits_vec other)
unfolding lru_update
lru_update-Ranks p infos set_num way accessed bits order at_set r small at_way =
    let (bits', touched, ranks) = touch-Ranks r way accessed at_way small in
    (
      record p { lru_bits_vec = set p.lru_bits_vec set_num bits' },
      bits',
      ground (arith, at_set, touched),
      refl,
      get_elem?-set_self p.lru_bits_vec set_num bits'
          (lt_of_get_elem? p.lru_bits_vec set_num at_set),
      ranks,
      λ other ne. get_elem?-set_ne p.lru_bits_vec bits' ne,
    )
