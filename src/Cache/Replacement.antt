-- ===== src/Cache/Replacement.antt =====
-- What a set asks of its replacement policy (cache_replacement_policy.h), and the two policies that
-- serve every cache: least recently used (lru_replacement_policy.cc) and round robin
-- (round_robin_replacement_policy.cc).
pub mod Touch
pub mod Recency
pub mod Victim
pub mod Cycle
use graphite_atac.Prelude.{
  vector_at, ℕ, zero, suc, ◌+◌, ◌-◌, ◌%◌, ◌==◌, ltb, if◌then◌else◌, Bool, true, false, List, [],
  ◌∷◌, map, none, some, get_elem?, set, replicate, Result, ok, fail, undefined_behaviour, assert,
  ◌>>=◌, ◌>>◌,
}
use graphite_atac.Cache.Line.{CacheLineInfo, is_valid}

-- The state of the policy is shared by the sets, which pass their number; `update` is told the way
-- that was accessed.
pub record CacheReplacementPolicy : Type 1 where
  pub State : Type 0
  pub get_replacement_way : State → List CacheLineInfo → ℕ → Result (State × ℕ)
  pub update : State → List CacheLineInfo → ℕ → ℕ → Result State

-- The bits of a set are `UInt8`, one for each of its `associativity` ways.
pub record LruReplacementPolicy : Type 0 where
  pub associativity : ℕ
  pub lru_bits_vec : List (List ℕ)

unfoldable pub ways_from : ℕ → ℕ → List ℕ
ways_from way zero = []
ways_from way (suc rounds) = (way % 256) ∷ ways_from (suc way) rounds

unfoldable pub new_lru : ℕ → ℕ → LruReplacementPolicy
unfolding ways_from
new_lru num_sets associativity = record {
  associativity = associativity;
  lru_bits_vec = replicate num_sets (ways_from 0 associativity);
}

-- The loop, at way `i` with `rounds` ways to go, and the assertion after it.
unfoldable pub scan : ℕ → ℕ → ℕ → ℕ → List CacheLineInfo → List ℕ → Result ℕ
scan associativity zero i way infos bits = do assert (ltb way associativity); ok way
scan associativity (suc rounds) i way (info ∷ infos) (bit ∷ bits) =
    let rest =
      scan associativity rounds (suc i) (if bit == associativity - 1 then i else way) infos bits in
    if is_valid info then rest else ok i
scan associativity (suc rounds) i way infos bits = fail undefined_behaviour

unfoldable pub lru_get_replacement_way :
    LruReplacementPolicy → List CacheLineInfo → ℕ → Result (LruReplacementPolicy × ℕ)
lru_get_replacement_way p infos set_num = do
  lru_bits ← vector_at p.lru_bits_vec set_num
  way ← scan p.associativity p.associativity 0 p.associativity infos lru_bits
  ok (p, way)

-- `lru_bits[i] ++` on a `UInt8`, if the line is more recent than the one accessed.
unfoldable pub age : ℕ → ℕ → ℕ
age accessed bit = if ltb bit accessed then (bit + 1) % 256 else bit

unfoldable pub touch : List ℕ → ℕ → Result (List ℕ)
touch lru_bits accessed_way = do
  accessed ← vector_at lru_bits accessed_way
  ok (set (map (age accessed) lru_bits) accessed_way 0)

unfoldable pub lru_update :
    LruReplacementPolicy → List CacheLineInfo → ℕ → ℕ → Result LruReplacementPolicy
lru_update p infos set_num accessed_way = do
  lru_bits ← vector_at p.lru_bits_vec set_num
  lru_bits' ← touch lru_bits accessed_way
  ok (record p { lru_bits_vec = set p.lru_bits_vec set_num lru_bits' })

abbrev pub lru : CacheReplacementPolicy
lru = record {
  State = LruReplacementPolicy;
  get_replacement_way = lru_get_replacement_way;
  update = lru_update;
}

pub record RoundRobinReplacementPolicy : Type 0 where
  pub associativity : ℕ
  pub replacement_index_vec : List ℕ

unfoldable pub new_round_robin : ℕ → ℕ → RoundRobinReplacementPolicy
new_round_robin num_sets associativity = record {
  associativity = associativity;
  replacement_index_vec = replicate num_sets (associativity - 1);
}

-- The `assert` bounds the set's number, since the vector has an index for each set.
unfoldable pub round_robin_get_replacement_way :
    RoundRobinReplacementPolicy → List CacheLineInfo → ℕ → Result (RoundRobinReplacementPolicy × ℕ)
round_robin_get_replacement_way p infos set_num = elim (get_elem? p.replacement_index_vec set_num) [
  | none ↦ assert false >> fail undefined_behaviour
  | some curr ↦
      let next = if curr == 0 then p.associativity - 1 else curr - 1 in
      ok (record p { replacement_index_vec = set p.replacement_index_vec set_num next }, curr)
]

abbrev pub round_robin : CacheReplacementPolicy
round_robin = record {
  State = RoundRobinReplacementPolicy;
  get_replacement_way = round_robin_get_replacement_way;
  update = λ p infos set_num accessed_way. ok p;
}
