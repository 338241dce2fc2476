-- ===== src/Cache/Set.antt =====
-- `CacheSet` (cache_set.cc): the ways of one set, their data, and the policy that they share with the
-- other sets.
pub mod Laws
pub mod Contents
pub mod Bytes
pub mod Access
pub mod Policies
use graphite_atac.Prelude.{
  vector_at, vector_set, ℕ, zero, suc, ◌+◌, ◌-◌, ◌*◌, ◌%◌, ◌^◌, ◌==◌, leb, ltb, if◌then◌else◌, Bool,
  true, false, not, List, [], ◌∷◌, ◌++◌, Option, none, some, length, get_elem?, set, take, drop,
  replicate, Result, ok, fail, undefined_behaviour, assert, ◌>>=◌, ◌>>◌,
}
use graphite_atac.Cache.Line.{CacheLineInfo, is_valid, invalid_line}
use graphite_atac.Cache.Replacement.{CacheReplacementPolicy}

-- `lines` are the bytes of all ways, one way after the other.
pub record CacheSet : Type 0 where
  pub set_num : ℕ
  pub associativity : ℕ
  pub line_size : ℕ
  pub cache_line_info_array : List CacheLineInfo
  pub lines : List ℕ

unfoldable pub new_set : ℕ → ℕ → ℕ → CacheSet
new_set set_num associativity line_size = record {
  set_num = set_num;
  associativity = associativity;
  line_size = line_size;
  cache_line_info_array = replicate associativity invalid_line;
  lines = replicate ((associativity * line_size) % 2 ^ 32) 0;
}

-- `memcpy` from and to the data array; a copy past its end is undefined.
unfoldable pub peek : List ℕ → ℕ → ℕ → Result (List ℕ)
peek lines start bytes =
    if leb (start + bytes) (length lines)
    then ok (take bytes (drop start lines))
    else fail undefined_behaviour

unfoldable pub poke : List ℕ → ℕ → List ℕ → Result (List ℕ)
poke lines start buf =
    if leb (start + length buf) (length lines)
    then ok (take start lines ++ (buf ++ drop (start + length buf) lines))
    else fail undefined_behaviour

-- The indices are `UInt32`.
abbrev pub byte_at : CacheSet → ℕ → ℕ → ℕ
byte_at s line_index offset = (line_index * s.line_size + offset) % 2 ^ 32

-- The loop of `find`, over the ways below `n`, from the last.
unfoldable pub find_below : ℕ → ℕ → List CacheLineInfo → Result (Option ℕ)
find_below zero tag infos = ok none
find_below (suc i) tag infos =
    let rest = find_below i tag infos in
    elim (get_elem? infos i) [
      | none ↦ fail undefined_behaviour
      | some info ↦ if info.tag == tag then ok (some i) else rest
    ]

unfoldable pub find : CacheSet → ℕ → Result (Option ℕ)
find s tag = find_below s.associativity tag s.cache_line_info_array

-- What `insert` tells its caller: whether a line was evicted, and what it leaves in the caller's
-- line and buffer. `none` is the null pointer.
pub record Evicted : Type 0 where
  pub eviction : Bool
  pub info : CacheLineInfo
  pub writeback_buf : Option (List ℕ)

unfoldable pub write_back : CacheSet → ℕ → Option (List ℕ) → Result (Option (List ℕ))
write_back s index none = ok none
write_back s index (some old) = do
  line ← peek s.lines ((index * s.line_size) % 2 ^ 32) s.line_size
  ok (some line)

unfoldable pub evict : CacheSet → ℕ → CacheLineInfo → Evicted → Result Evicted
evict s index old out =
    if is_valid old
    then (do
      buf ← write_back s index out.writeback_buf
      ok (record { eviction = true; info = old; writeback_buf = buf }))
    else ok (record out { eviction = false })

-- The buffer has the bytes of one line at least.
unfoldable pub fill_line : CacheSet → ℕ → Option (List ℕ) → Result (List ℕ)
fill_line s index none = ok s.lines
fill_line s index (some buf) =
    if ltb (length buf) s.line_size
    then fail undefined_behaviour
    else poke s.lines ((index * s.line_size) % 2 ^ 32) (take s.line_size buf)

-- `(buf == NULL) == (bytes == 0)`.
unfoldable pub null_iff_empty : Bool → ℕ → Bool
null_iff_empty null bytes = if null then bytes == 0 else not (bytes == 0)

unfoldable pub is_null : Option (List ℕ) → Bool
is_null none = true
is_null (some buf) = false

unfoldable pub store : CacheSet → ℕ → Option (List ℕ) → ℕ → Result (List ℕ)
store s start none bytes = ok s.lines
store s start (some buf) bytes =
    if ltb (length buf) bytes then fail undefined_behaviour else poke s.lines start (take bytes buf)

module _ (policy : CacheReplacementPolicy) where
  open policy use {State, get_replacement_way, update}

  -- The caller's buffer is null or takes `bytes` bytes, which are the result.
  unfoldable pub read_line : State → CacheSet → ℕ → ℕ → Bool → ℕ → Result (State × List ℕ)
  read_line p s line_index offset null bytes = do
    assert (leb ((offset + bytes) % 2 ^ 32) s.line_size)
    assert (null_iff_empty null bytes)
    out ← if null then ok [] else peek s.lines (byte_at s line_index offset) bytes
    p' ← update p s.cache_line_info_array s.set_num line_index
    ok (p', out)

  unfoldable pub write_line :
      State → CacheSet → ℕ → ℕ → Option (List ℕ) → ℕ → Result (State × CacheSet)
  write_line p s line_index offset in_buf bytes = do
    assert (leb ((offset + bytes) % 2 ^ 32) s.line_size)
    assert (null_iff_empty (is_null in_buf) bytes)
    lines ← store s (byte_at s line_index offset) in_buf bytes
    p' ← update p s.cache_line_info_array s.set_num line_index
    ok (p', record s { lines = lines })

  unfoldable pub insert :
      State
      → CacheSet
      → CacheLineInfo
      → Option (List ℕ)
      → Evicted
      → Result (State × CacheSet × Evicted)
  insert p s inserted fill_buf out = do
    (p', index) ← get_replacement_way p s.cache_line_info_array s.set_num
    assert (ltb index s.associativity)
    old ← vector_at s.cache_line_info_array index
    out' ← evict s index old out
    lines ← fill_line s index fill_buf
    let infos = set s.cache_line_info_array index inserted
    p'' ← update p' infos s.set_num index
    ok (p'', record s { cache_line_info_array = infos; lines = lines }, out')
