-- ===== src/Cache/Counters/Balance.antt =====
-- The counters of hits and misses add up, modulo their width.
use graphite_atac.Prelude.{
  ℕ, ◌+◌, ◌%◌, ◌^◌, ◌≡◌, refl, ap, ◌∙◌, not, Bool, true, false, ok, arith, ◌≢◌, if◌then◌else◌, ◌&&◌,
}
use graphite_atac.Cache.Misses.{
  MissType, cold_miss, capacity_miss, sharing_miss, invalid_miss_type, Tracking, get_miss_type,
}
use graphite_atac.Cache.Counters.{
  inc, MissCounters, initialize_miss_counters, MemOp, update_miss_counters,
  update_miss_type_counters, count_access, count_miss,
}

-- Reads and writes make up the accesses and the misses; if the types are tracked, so do they the
-- misses.
pub record IsBalanced (track_miss_types : Bool) (m : MissCounters) : Type 0 where
  pub accesses : m.total_cache_accesses ≡ (m.total_read_accesses + m.total_write_accesses) % 2 ^ 64
  pub misses : m.total_cache_misses ≡ (m.total_read_misses + m.total_write_misses) % 2 ^ 64
  pub types :
      track_miss_types ≡ true
      → m.total_cache_misses
        ≡ (m.total_cold_misses + m.total_capacity_misses + m.total_sharing_misses) % 2 ^ 64

pub initialize_miss_counters-IsBalanced : (track : Bool) → IsBalanced track initialize_miss_counters
unfolding initialize_miss_counters
initialize_miss_counters-IsBalanced track = record {
  accesses = omega arith;
  misses = omega arith;
  types = λ h. omega arith;
}

-- Of a store in an instruction cache nothing is said: an assertion fails.
abbrev pub Allowed : Bool → MemOp → Type 0
Allowed instruction_cache MemOp.write = instruction_cache ≡ false
Allowed instruction_cache op = Unit

abbrev pub expected_type : Bool → Tracking → ℕ → MissType
expected_type counted t address = if counted then get_miss_type t address else invalid_miss_type

abbrev pub is_load : MemOp → Bool
is_load MemOp.read = true
is_load MemOp.read_ex = true
is_load MemOp.write = false

-- One more, modulo the width, if the event is counted.
abbrev pub counted_in : Bool → ℕ → ℕ
counted_in false n = n
counted_in true n = (n + 1) % 2 ^ 64

-- The reads and writes that are counted, of the accesses and of the misses.
pub record Counts (access miss : Bool) (op : MemOp) (m m' : MissCounters) : Type 0 where
  pub read_accesses :
      m'.total_read_accesses ≡ counted_in (access && is_load op) m.total_read_accesses
  pub write_accesses :
      m'.total_write_accesses ≡ counted_in (access && not (is_load op)) m.total_write_accesses
  pub read_misses : m'.total_read_misses ≡ counted_in (miss && is_load op) m.total_read_misses
  pub write_misses :
      m'.total_write_misses ≡ counted_in (miss && not (is_load op)) m.total_write_misses

all_same : (op : MemOp) (m : MissCounters) → Counts false false op m m
all_same op m = record {
  read_accesses = refl;
  write_accesses = refl;
  read_misses = refl;
  write_misses = refl;
}

-- A miss is counted after the access.
count_miss-Counts :
    (op : MemOp) (m m' : MissCounters)
    → Counts true false op m m'
    → Counts true true op m (count_miss op m')
unfolding count_miss inc
count_miss-Counts MemOp.read m m' c = record {
  read_accesses = c.read_accesses;
  write_accesses = c.write_accesses;
  read_misses = ap (counted_in true) c.read_misses;
  write_misses = c.write_misses;
}
count_miss-Counts MemOp.read_ex m m' c = record {
  read_accesses = c.read_accesses;
  write_accesses = c.write_accesses;
  read_misses = ap (counted_in true) c.read_misses;
  write_misses = c.write_misses;
}
count_miss-Counts MemOp.write m m' c = record {
  read_accesses = c.read_accesses;
  write_accesses = c.write_accesses;
  read_misses = c.read_misses;
  write_misses = ap (counted_in true) c.write_misses;
}

module _ (instruction_cache track : Bool) (t : Tracking) (address : ℕ) (m : MissCounters) where
  -- Every case of the access.
  abbrev pub Updated : Bool → MemOp → Bool → Type 0
  Updated enabled op cache_miss =
      (m' : MissCounters) × (update_miss_counters enabled instruction_cache track t address op
          cache_miss m
        ≡ ok (m', expected_type (enabled && (cache_miss && track)) t address))
      × IsBalanced track m'
      × Counts enabled (enabled && cache_miss) op m m'

  counted :
      IsBalanced track m
      → (op : MemOp) → Allowed instruction_cache op
      → (m' : MissCounters) × (count_access instruction_cache op m ≡ ok m')
        × IsBalanced track m'
        × Counts true false op m m'
  unfolding count_access inc
  counted b MemOp.read a = (
    _,
    refl,
    record { accesses = omega (arith, b.accesses); misses = b.misses; types = b.types },
    record { read_accesses = refl; write_accesses = refl; read_misses = refl; write_misses = refl },
  )
  counted b MemOp.read_ex a = (
    _,
    refl,
    record { accesses = omega (arith, b.accesses); misses = b.misses; types = b.types },
    record { read_accesses = refl; write_accesses = refl; read_misses = refl; write_misses = refl },
  )
  counted b MemOp.write a = (
    record m {
      total_cache_accesses = (m.total_cache_accesses + 1) % 2 ^ 64;
      total_write_accesses = (m.total_write_accesses + 1) % 2 ^ 64;
    },
    rw a refl,
    record { accesses = omega (arith, b.accesses); misses = b.misses; types = b.types },
    record { read_accesses = refl; write_accesses = refl; read_misses = refl; write_misses = refl },
  )

-- A miss that is counted and whose type is not yet.
record IsAhead (m : MissCounters) : Type 0 where
  accesses : m.total_cache_accesses ≡ (m.total_read_accesses + m.total_write_accesses) % 2 ^ 64
  misses : m.total_cache_misses ≡ (m.total_read_misses + m.total_write_misses) % 2 ^ 64
  types :
      m.total_cache_misses
      ≡ (m.total_cold_misses + m.total_capacity_misses + m.total_sharing_misses + 1) % 2 ^ 64

count_miss-IsAhead : (op : MemOp) (m : MissCounters) → IsBalanced true m → IsAhead (count_miss op m)
unfolding count_miss inc
count_miss-IsAhead MemOp.read m b = record {
  accesses = b.accesses;
  misses = omega (arith, b.misses);
  types = omega (arith, b.types refl);
}
count_miss-IsAhead MemOp.read_ex m b = record {
  accesses = b.accesses;
  misses = omega (arith, b.misses);
  types = omega (arith, b.types refl);
}
count_miss-IsAhead MemOp.write m b = record {
  accesses = b.accesses;
  misses = omega (arith, b.misses);
  types = omega (arith, b.types refl);
}

count_miss-IsBalanced :
    (op : MemOp) (m : MissCounters) → IsBalanced false m → IsBalanced false (count_miss op m)
unfolding count_miss inc
count_miss-IsBalanced MemOp.read m b = record {
  accesses = b.accesses;
  misses = omega (arith, b.misses);
  types = λ h. cc;
}
count_miss-IsBalanced MemOp.read_ex m b = record {
  accesses = b.accesses;
  misses = omega (arith, b.misses);
  types = λ h. cc;
}
count_miss-IsBalanced MemOp.write m b = record {
  accesses = b.accesses;
  misses = omega (arith, b.misses);
  types = λ h. cc;
}

typed :
    (ty : MissType) (m : MissCounters)
    → ty ≢ invalid_miss_type
    → IsAhead m
    → (m' : MissCounters) × (update_miss_type_counters ty m ≡ ok m')
      × IsBalanced true m'
      × Counts false false MemOp.read m m'
unfolding update_miss_type_counters inc
typed cold_miss m n a = (
  _,
  refl,
  record { accesses = a.accesses; misses = a.misses; types = λ h. omega (arith, a.types) },
  record { read_accesses = refl; write_accesses = refl; read_misses = refl; write_misses = refl },
)
typed capacity_miss m n a = (
  _,
  refl,
  record { accesses = a.accesses; misses = a.misses; types = λ h. omega (arith, a.types) },
  record { read_accesses = refl; write_accesses = refl; read_misses = refl; write_misses = refl },
)
typed sharing_miss m n a = (
  _,
  refl,
  record { accesses = a.accesses; misses = a.misses; types = λ h. omega (arith, a.types) },
  record { read_accesses = refl; write_accesses = refl; read_misses = refl; write_misses = refl },
)
typed invalid_miss_type m n a = absurd (n refl)

get_miss_type-ne : (t : Tracking) (address : ℕ) → get_miss_type t address ≢ invalid_miss_type
unfolding get_miss_type
get_miss_type-ne t address = ground arith

module _ (instruction_cache : Bool) (t : Tracking) (address : ℕ) (m : MissCounters) where
  -- If the counters of reads and writes, and of the types of misses where these are tracked, add up
  -- modulo their width, then counting an access, which is no store in an instruction cache,
  -- succeeds; they add up again, the type of the miss is given if it is counted, and of the
  -- counters of reads and writes exactly those of the access and, if it missed, of the miss have
  -- gone up by one.
  pub update_miss_counters_lem :
      (enabled track : Bool) (op : MemOp) (cache_miss : Bool)
      → Allowed instruction_cache op
      → IsBalanced track m
      → Updated instruction_cache track t address m enabled op cache_miss
  unfolding update_miss_counters
  update_miss_counters_lem false track op cache_miss a b = (m, refl, b, all_same op m)
  update_miss_counters_lem true track op false a b =
      let (m', run, b', c) = counted instruction_cache track t address m b op a in
      (m', rw run refl, b', c)
  update_miss_counters_lem true false op true a b =
      let (m', run, b', c) = counted instruction_cache false t address m b op a in
      (count_miss op m', rw run refl, count_miss-IsBalanced op m' b', count_miss-Counts op m m' c)
  update_miss_counters_lem true true op true a b =
      let (m', run, b', c) = counted instruction_cache true t address m b op a in
      let (m'', run', b'', same) =
        typed (get_miss_type t address) (count_miss op m') (get_miss_type-ne t address)
          (count_miss-IsAhead op m' b') in
      let c' = count_miss-Counts op m m' c in
      (
        m'',
        ground (arith, run, run'),
        b'',
        record {
          read_accesses = same.read_accesses ∙ c'.read_accesses;
          write_accesses = same.write_accesses ∙ c'.write_accesses;
          read_misses = same.read_misses ∙ c'.read_misses;
          write_misses = same.write_misses ∙ c'.write_misses;
        },
      )
