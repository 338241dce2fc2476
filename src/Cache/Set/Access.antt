-- ===== src/Cache/Set/Access.antt =====
-- A store to a line of a cache set, and the loads after it.
use mathlib.Core.Path.{subst}
use graphite_atac.Prelude.{
  ℕ, ◌+◌, ◌*◌, ◌%◌, ◌^◌, ◌<◌, ◌≤◌, ◌≡◌, ◌≢◌, ◌⊎◌, sym, ◌∙◌, inl, inr, false, List, some, arith,
  ◌==◌, length, take, drop, ok, length-take, Bool-cases,
}
use graphite_atac.Cache.Replacement.{CacheReplacementPolicy}
use graphite_atac.Cache.Set.{
  CacheSet, peek, byte_at, store, is_null, null_iff_empty, read_line, write_line,
}
use graphite_atac.Cache.Set.Bytes.{poke_lem}
use graphite_atac.Cache.Set.Contents.{IsValid, PolicyLaws, line_fits, line_apart}

-- An access inside a line of the set.
pub record Within (s : CacheSet) (way offset bytes : ℕ) : Type 0 where
  pub way_in_range : way < s.associativity
  pub in_line : offset + bytes ≤ s.line_size
  pub some_bytes : 0 < bytes

within :
    (s : CacheSet) (lines : List ℕ) {way offset bytes : ℕ}
    → Within s way offset bytes
    → Within (record s { lines = lines }) way offset bytes
within s lines w = record {
  way_in_range = w.way_in_range;
  in_line = w.in_line;
  some_bytes = w.some_bytes;
}

byte_at-eq :
    (s : CacheSet) (way offset bytes : ℕ)
    → IsValid s
    → Within s way offset bytes
    → byte_at s way offset ≡ way * s.line_size + offset
byte_at-eq s way offset bytes v w = omega (
  arith,
  line_fits way s.associativity s.line_size w.way_in_range,
  v.small,
  w.in_line,
  w.some_bytes,
)

byte_at_fits :
    (s : CacheSet) (way offset bytes : ℕ)
    → IsValid s
    → Within s way offset bytes
    → byte_at s way offset + bytes ≤ length s.lines
byte_at_fits s way offset bytes v w = omega (
  arith,
  byte_at-eq s way offset bytes v w,
  line_fits way s.associativity s.line_size w.way_in_range,
  v.size,
  w.in_line,
)

line_small :
    (s : CacheSet) (way offset bytes : ℕ)
    → IsValid s
    → Within s way offset bytes
    → (offset + bytes) % 2 ^ 32 ≡ offset + bytes
line_small s way offset bytes v w = omega (
  arith,
  line_fits way s.associativity s.line_size w.way_in_range,
  v.small,
  w.in_line,
  w.some_bytes,
)

-- The two byte ranges do not overlap.
abbrev pub Apart : ℕ → ℕ → ℕ → ℕ → ℕ → ℕ → Type 0
Apart way offset bytes way' offset' bytes' =
    (way ≢ way') ⊎ ((offset' + bytes' ≤ offset) ⊎ (offset + bytes ≤ offset'))

bytes-Apart :
    (s : CacheSet) (way offset bytes way' offset' bytes' : ℕ)
    → IsValid s
    → Within s way offset bytes
    → Within s way' offset' bytes'
    → Apart way offset bytes way' offset' bytes'
    → (byte_at s way' offset' + bytes' ≤ byte_at s way offset)
      ⊎ (byte_at s way offset + bytes ≤ byte_at s way' offset')
bytes-Apart s way offset bytes way' offset' bytes' v w w' a = elim (Bool-cases (way == way')) [
  | inl same ↦
      ground (arith, byte_at-eq s way offset bytes v w, byte_at-eq s way' offset' bytes' v w')
  | inr other ↦ omega (
    arith,
    line_apart way way' s.line_size (ground arith),
    w.in_line,
    w'.in_line,
    byte_at-eq s way offset bytes v w,
    byte_at-eq s way' offset' bytes' v w',
  )
]

module _ (policy : CacheReplacementPolicy) (laws : PolicyLaws policy) where
  read_line-peek :
      (p : policy.State) (s : CacheSet) (way offset bytes : ℕ)
      → IsValid s
      → laws.IsGood p s.associativity s.set_num
      → Within s way offset bytes
      → (out : List ℕ) → peek s.lines (byte_at s way offset) bytes ≡ ok out
      → (p' : policy.State) × (read_line policy p s way offset false bytes ≡ ok (p', out))
  unfolding read_line null_iff_empty
  read_line-peek p s way offset bytes v good w out at_line =
      let good' = subst (λ n. laws.IsGood p n s.set_num) (sym v.ways) good in
      let (p', noted, _, _) =
        laws.takes_note p s.cache_line_info_array s.set_num way good'
          (omega (arith, w.way_in_range, v.ways)) in
      (
        p',
        ground (arith, at_line, noted, line_small s way offset bytes v w, w.in_line, w.some_bytes),
      )

  peek-IsJust :
      (s : CacheSet) (way offset bytes : ℕ)
      → IsValid s
      → Within s way offset bytes
      → (out : List ℕ) × (peek s.lines (byte_at s way offset) bytes ≡ ok out)
  unfolding peek
  peek-IsJust s way offset bytes v w = (
    take bytes (drop (byte_at s way offset) s.lines),
    ground (arith, byte_at_fits s way offset bytes v w),
  )

  -- The state after a store of `bytes` bytes.
  pub record Stored (p : policy.State) (s : CacheSet) (way offset bytes : ℕ) (buf : List ℕ)
      : Type 0 where
    pub p' : policy.State
    pub s' : CacheSet
    pub runs : write_line policy p s way offset (some buf) bytes ≡ ok (p', s')
    pub good : laws.IsGood p' s'.associativity s'.set_num
    pub valid : IsValid s'
    pub again :
        (p'' : policy.State) × (read_line policy p' s' way offset false bytes
          ≡ ok (p'', take bytes buf))
    pub elsewhere :
        (way' offset' bytes' : ℕ)
        → Within s way' offset' bytes'
        → Apart way offset bytes way' offset' bytes'
        → (out : List ℕ) × (p1 p2 : policy.State) × (read_line policy p s way' offset' false bytes'
            ≡ ok (p1, out))
          × (read_line policy p' s' way' offset' false bytes' ≡ ok (p2, out))

  -- Storing some bytes inside a line of a valid set, with the policy in a good state, succeeds; the
  -- same load then gives what was stored, and a load of bytes apart gives what it gave before.
  pub write_line_lem :
      (p : policy.State) (s : CacheSet) (way offset bytes : ℕ) (buf : List ℕ)
      → IsValid s
      → laws.IsGood p s.associativity s.set_num
      → Within s way offset bytes
      → bytes ≤ length buf
      → Stored p s way offset bytes buf
  unfolding write_line null_iff_empty is_null store
  write_line_lem p s way offset bytes buf v good w room =
      let size : length (take bytes buf) ≡ bytes = omega (arith, length-take bytes buf) in
      let good' = subst (λ n. laws.IsGood p n s.set_num) (sym v.ways) good in
      let (p', noted, good'', _) =
        laws.takes_note p s.cache_line_info_array s.set_num way good'
          (omega (arith, w.way_in_range, v.ways)) in
      let good3 = subst (λ n. laws.IsGood p' n s.set_num) v.ways good'' in
      let (lines, done, same, again, apart) =
        poke_lem s.lines (byte_at s way offset) (take bytes buf)
          (omega (arith, byte_at_fits s way offset bytes v w, size)) in
      let s' : CacheSet = record s { lines = lines } in
      let valid : IsValid s' = record { ways = v.ways; size = same ∙ v.size; small = v.small } in
      record {
        p' = p';
        s' = s';
        runs =
            ground (
              arith,
              done,
              noted,
              line_small s way offset bytes v w,
              w.in_line,
              w.some_bytes,
              room,
            );
        good = good3;
        valid = valid;
        again =
            read_line-peek p' s' way offset bytes valid good3 (within s lines w) (take bytes buf)
              (subst (λ n. peek lines (byte_at s way offset) n ≡ ok (take bytes buf)) size again);
        elsewhere = λ way' offset' bytes' w' a.
            let (out, at_line) = peek-IsJust s way' offset' bytes' v w' in
            let (p1, before) = read_line-peek p s way' offset' bytes' v good w' out at_line in
            let (p2, behind) =
              read_line-peek p' s' way' offset' bytes' valid good3 (within s lines w') out (
                apart (byte_at s way' offset') bytes' (
                  subst
                    (λ n.
                      (byte_at s way' offset' + bytes' ≤ byte_at s way offset)
                      ⊎ (byte_at s way offset + n ≤ byte_at s way' offset'))
                    (sym size) (bytes-Apart s way offset bytes way' offset' bytes' v w w' a))
                ∙ at_line) in
            (out, p1, p2, before, behind);
      }
