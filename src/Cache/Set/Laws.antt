-- ===== src/Cache/Set/Laws.antt =====
-- What a cache set relies on, and what it finds and fills.
use mathlib.Core.Path.{subst}
use graphite_atac.Prelude.{
  ℕ, zero, suc, ◌+◌, ◌*◌, ◌%◌, ◌^◌, ◌<◌, ◌≤◌, ◌≡◌, ◌≢◌, ◌⊎◌, refl, sym, inl, inr, List, none, some,
  arith, ltb, length, get_elem?, get_elem?-set, set, take, ok, length-take, Result, Bool-cases,
}
use graphite_atac.Cache.Line.{CacheLineInfo}
use graphite_atac.Cache.Replacement.{CacheReplacementPolicy}
use graphite_atac.Cache.Set.{CacheSet, find_below, peek, fill_line}
use graphite_atac.Cache.Set.Bytes.{poke_lem}

-- A call of the policy for one set leaves it good for the others.
abbrev pub Frame : {State : Type 0} → (State → ℕ → ℕ → Type 0) → ℕ → State → State → Type 0
Frame IsGood set_num p p' =
    (ways other : ℕ) → set_num ≢ other → IsGood p ways other → IsGood p' ways other

-- In a good state the policy names a way of the set, and takes note of an access to one.
abbrev pub NamesWay : (policy : CacheReplacementPolicy) → (policy.State → ℕ → ℕ → Type 0) → Type 0
NamesWay policy IsGood =
    (p : policy.State) (infos : List CacheLineInfo) (set_num : ℕ)
    → IsGood p (length infos) set_num
    → (p' : policy.State) × (way : ℕ) × (policy.get_replacement_way p infos set_num ≡ ok (p', way))
      × (way < length infos)
      × IsGood p' (length infos) set_num
      × Frame IsGood set_num p p'

abbrev pub TakesNote : (policy : CacheReplacementPolicy) → (policy.State → ℕ → ℕ → Type 0) → Type 0
TakesNote policy IsGood =
    (p : policy.State) (infos : List CacheLineInfo) (set_num way : ℕ)
    → IsGood p (length infos) set_num
    → way < length infos
    → (p' : policy.State) × (policy.update p infos set_num way ≡ ok p')
      × IsGood p' (length infos) set_num
      × Frame IsGood set_num p p'

-- What a set relies on.
pub record PolicyLaws (policy : CacheReplacementPolicy) : Type 1 where
  pub IsGood : policy.State → ℕ → ℕ → Type 0
  pub names_way : NamesWay policy IsGood
  pub takes_note : TakesNote policy IsGood

-- The arrays have the sizes that the constructor gives them, and 32 bits index the bytes.
pub record IsValid (s : CacheSet) : Type 0 where
  pub ways : length s.cache_line_info_array ≡ s.associativity
  pub size : length s.lines ≡ s.associativity * s.line_size
  pub small : s.associativity * s.line_size < 2 ^ 32

pub find_below-set_new :
    (n index : ℕ) (infos : List CacheLineInfo) (info : CacheLineInfo)
    → index < n
    → index < length infos
    → find_below n info.tag infos ≡ ok none
    → find_below n info.tag (set infos index info) ≡ ok (some index)
unfolding find_below
find_below-set_new zero index infos info h k absent = absurd (omega arith)
find_below-set_new (suc i) index infos info h k absent =
    ground (arith, get_elem?-set infos index i info k, find_below-set_new i index infos info)

pub find_below-set_other :
    (n index t : ℕ) (infos : List CacheLineInfo) (old info : CacheLineInfo)
    → get_elem? infos index ≡ some old
    → index < length infos
    → old.tag ≢ t
    → info.tag ≢ t
    → find_below n t (set infos index info) ≡ find_below n t infos
unfolding find_below
find_below-set_other zero index t infos old info e k a b = refl
find_below-set_other (suc i) index t infos old info e k a b =
    ground
      (arith, get_elem?-set infos index i info k, find_below-set_other i index t infos old info)

pub line_fits : (i n size : ℕ) → i < n → i * size + size ≤ n * size
line_fits i n size h = grind arith

-- The bytes of a way.
unfoldable pub line_bytes : CacheSet → ℕ → Result (List ℕ)
line_bytes s way = peek s.lines (way * s.line_size) s.line_size

pub start_of :
    (s : CacheSet) (way : ℕ)
    → IsValid s
    → way < s.associativity
    → (way * s.line_size) % 2 ^ 32 ≡ way * s.line_size
start_of s way v h = omega (arith, line_fits way s.associativity s.line_size h, v.small)

pub line_apart :
    (i j size : ℕ) → i ≢ j → (j * size + size ≤ i * size) ⊎ (i * size + size ≤ j * size)
line_apart i j size ne = elim (Bool-cases (ltb i j)) [
  | inl before ↦ inr (line_fits i j size (ground arith))
  | inr behind ↦ inl (line_fits j i size (ground arith))
]

-- What a filled line and the others read afterwards.
pub record Filled (s : CacheSet) (index : ℕ) (buf lines : List ℕ) : Type 0 where
  pub length_same : length lines ≡ length s.lines
  pub line : peek lines (index * s.line_size) s.line_size ≡ ok (take s.line_size buf)
  pub others :
      (way : ℕ) → way ≢ index → peek lines (way * s.line_size) s.line_size ≡ line_bytes s way

pub fill_line_lem :
    (s : CacheSet) (index : ℕ) (buf : List ℕ)
    → IsValid s
    → index < s.associativity
    → s.line_size ≤ length buf
    → (lines : List ℕ) × (fill_line s index (some buf) ≡ ok lines) × Filled s index buf lines
unfolding fill_line line_bytes
fill_line_lem s index buf v h room =
    let size : length (take s.line_size buf) ≡ s.line_size =
      omega (arith, length-take s.line_size buf) in
    let (lines, done, same, again, apart) =
      poke_lem s.lines (index * s.line_size) (take s.line_size buf) (
        omega (
          arith,
          line_fits index s.associativity s.line_size h,
          v.size,
          length-take s.line_size buf,
        )) in
    (
      lines,
      ground (arith, done, start_of s index v h),
      record {
        length_same = same;
        line =
            subst (λ n. peek lines (index * s.line_size) n ≡ ok (take s.line_size buf)) size again;
        others = λ way ne. apart (way * s.line_size) s.line_size (
            subst
              (λ n.
                (way * s.line_size + s.line_size ≤ index * s.line_size)
                ⊎ (index * s.line_size + n ≤ way * s.line_size))
              (sym size) (line_apart index way s.line_size (λ e. ne (sym e))));
      },
    )
