-- ===== src/Cache/Set/Contents.antt =====
-- What an insertion does to a cache set, under any policy that keeps the laws.
use mathlib.Core.Path.{subst}
use mathlib.Core.Option
use graphite_atac.Prelude.{
  ℕ, ◌*◌, ◌%◌, ◌^◌, ◌<◌, ◌≤◌, ◌≡◌, ◌≢◌, refl, sym, ◌∙◌, inl, inr, Bool, true, false, List, Option,
  none, some, arith, length, get_elem?, get_elem?-lt, length-set, set, take, drop, ok, Bool-cases,
}
use graphite_atac.Cache.Line.{CacheLineInfo, is_valid}
use graphite_atac.Cache.Replacement.{CacheReplacementPolicy}
use graphite_atac.Cache.Set.{CacheSet, find, peek, Evicted, evict, write_back, insert}
pub use graphite_atac.Cache.Set.Laws.{
  Frame, NamesWay, TakesNote, PolicyLaws, IsValid, line_fits, line_apart,
}
unfoldable pub use graphite_atac.Cache.Set.Laws.{line_bytes}
use graphite_atac.Cache.Set.Laws.{find_below-set_new, find_below-set_other, start_of, fill_line_lem}

-- What the caller is told of the line `old`, which has the bytes `line`.
abbrev pub told : Bool → CacheLineInfo → List ℕ → Evicted → Evicted
told true old line out = record {
  eviction = true;
  info = old;
  writeback_buf = Option.map (λ _. line) out.writeback_buf;
}
told false old line out = record out { eviction = false }

write_back_lem :
    (s : CacheSet) (index : ℕ) (line : List ℕ) (wanted : Option (List ℕ))
    → peek s.lines ((index * s.line_size) % 2 ^ 32) s.line_size ≡ ok line
    → write_back s index wanted ≡ ok (Option.map (λ _. line) wanted)
unfolding write_back
write_back_lem s index line none h = refl
write_back_lem s index line (some buf) h = rw h refl

evict_lem :
    (s : CacheSet) (index : ℕ) (old : CacheLineInfo) (out : Evicted) (line : List ℕ)
    → IsValid s
    → index < s.associativity
    → line_bytes s index ≡ ok line
    → evict s index old out ≡ ok (told (is_valid old) old line out)
unfolding evict line_bytes
evict_lem s index old out line v h at_line = elim (Bool-cases (is_valid old)) [
  | inl valid ↦
      rw (valid, write_back_lem s index line out.writeback_buf (rw (start_of s index v h) at_line))
        refl
  | inr empty ↦ rw empty refl
]

line_bytes-IsJust :
    (s : CacheSet) (way : ℕ)
    → IsValid s
    → way < s.associativity
    → (line : List ℕ) × (line_bytes s way ≡ ok line)
unfolding line_bytes peek
line_bytes-IsJust s way v h = (
  take s.line_size (drop (way * s.line_size) s.lines),
  ground (arith, v.size, line_fits way s.associativity s.line_size h),
)

module _ (policy : CacheReplacementPolicy) (laws : PolicyLaws policy) where
  -- What an insertion does: the policy's way now has the line and the data, its old line is given
  -- to the caller if it was valid, and the other ways are as they were.
  pub record Insertion (p : policy.State) (s : CacheSet) (info : CacheLineInfo) (buf : List ℕ)
      (out : Evicted) : Type 0 where
    pub p' : policy.State
    pub s' : CacheSet
    pub index : ℕ
    pub old : CacheLineInfo
    pub line : List ℕ
    pub runs : insert policy p s info (some buf) out ≡ ok (p', s', told (is_valid old) old line out)
    pub chosen : policy.State
    pub named : policy.get_replacement_way p s.cache_line_info_array s.set_num ≡ ok (chosen, index)
    pub noted : policy.update chosen s'.cache_line_info_array s.set_num index ≡ ok p'
    pub good : laws.IsGood p' s'.associativity s'.set_num
    pub valid : IsValid s'
    pub frame :
        (ways other : ℕ) → s.set_num ≢ other → laws.IsGood p ways other → laws.IsGood p' ways other
    pub same_set :
        (s'.set_num ≡ s.set_num)
        × (s'.associativity ≡ s.associativity)
        × (s'.line_size ≡ s.line_size)
    pub infos : s'.cache_line_info_array ≡ set s.cache_line_info_array index info
    pub in_range : index < s.associativity
    pub old_info : get_elem? s.cache_line_info_array index ≡ some old
    pub old_line : line_bytes s index ≡ ok line
    pub found : find s info.tag ≡ ok none → find s' info.tag ≡ ok (some index)
    pub others_found : (t : ℕ) → old.tag ≢ t → info.tag ≢ t → find s' t ≡ find s t
    pub filled : line_bytes s' index ≡ ok (take s.line_size buf)
    pub other_lines : (way : ℕ) → way ≢ index → line_bytes s' way ≡ line_bytes s way

  -- Inserting a line into a valid set, with the policy in a good state and a buffer of at least a
  -- line, succeeds under any policy with the laws: the way that get_replacement_way of the policy
  -- names, and that its update takes note of, has the line and the data, and its tag is found there
  -- if it was not in the set; the caller is told of the old line if that was valid; any other tag
  -- is found as before, and the other ways keep their bytes.
  pub insert_lem :
      (p : policy.State) (s : CacheSet) (info : CacheLineInfo) (buf : List ℕ) (out : Evicted)
      → IsValid s
      → laws.IsGood p s.associativity s.set_num
      → s.line_size ≤ length buf
      → Insertion p s info buf out
  unfolding insert find
  insert_lem p s info buf out v good room =
      let infos = s.cache_line_info_array in
      let good' = subst (λ n. laws.IsGood p n s.set_num) (sym v.ways) good in
      let (p', index, named, below, still, frame) = laws.names_way p infos s.set_num good' in
      let k : index < s.associativity = omega (arith, v.ways) in
      let (old, at_old) = get_elem?-lt infos index below in
      let (line, at_line) = line_bytes-IsJust s index v k in
      let (lines, done, filled) = fill_line_lem s index buf v k room in
      let len : length (set infos index info) ≡ length infos = length-set infos index info in
      let (p'', noted, good'', frame') =
        laws.takes_note p' (set infos index info) s.set_num index
          (subst (λ n. laws.IsGood p' n s.set_num) (sym len) still) (omega (arith, len)) in
      record {
        p' = p'';
        s' = record s { cache_line_info_array = set infos index info; lines = lines };
        index = index;
        old = old;
        line = line;
        runs =
            ground (arith, named, at_old, evict_lem s index old out line v k at_line, done, noted);
        chosen = p';
        named = named;
        noted = noted;
        good = subst (λ n. laws.IsGood p'' n s.set_num) (len ∙ v.ways) good'';
        valid = record { ways = len ∙ v.ways; size = filled.length_same ∙ v.size; small = v.small };
        frame = λ ways other ne g. frame' ways other ne (frame ways other ne g);
        same_set = (refl, refl, refl);
        infos = refl;
        in_range = k;
        old_info = at_old;
        old_line = at_line;
        found = λ absent. find_below-set_new s.associativity index infos info k below absent;
        others_found =
            λ t a b. find_below-set_other s.associativity index t infos old info at_old below a b;
        filled = unfold line_bytes in filled.line;
        other_lines = unfold line_bytes in filled.others;
      }
