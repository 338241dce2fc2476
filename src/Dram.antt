-- ===== src/Dram.antt =====
-- `DramCntlr` (common/tile/memory_subsystem/dram_cntlr.cc): the data of each line and the counts of
-- accesses. The latency of an access is computed with floating point numbers by the performance
-- model, and stands here for its result: a function of the cycle count, that keeps a state of its
-- own.
pub mod Contents
use graphite_atac.Prelude.{
  ℕ, ◌+◌, ◌%◌, ◌^◌, ◌==◌, leb, if◌then◌else◌, Bool, true, false, Option, none, some, List, [], ◌∷◌,
  length, take, replicate, Result, ok, fail, log_error, undefined_behaviour, ◌>>=◌,
}
use graphite_atac.DirectoryCache.Accounting.{incr_cycle_count}

-- `_data_map` and the counts as association lists; a count of none is 0.
pub record DramCntlr (Model : Type 0) : Type 0 where
  pub cache_line_size : ℕ
  pub data_map : List (ℕ × List ℕ)
  pub read_count : List (ℕ × ℕ)
  pub write_count : List (ℕ × ℕ)
  pub perf_model : Model

module _ {V : Type 0} where
  unfoldable pub lookup : ℕ → List (ℕ × V) → Option V
  lookup address [] = none
  lookup address ((a, v) ∷ m) = if a == address then some v else lookup address m

  unfoldable pub insert : ℕ → V → List (ℕ × V) → List (ℕ × V)
  insert address v [] = (address, v) ∷ []
  insert address v ((a, w) ∷ m) =
      if a == address then (address, v) ∷ m else (a, w) ∷ insert address v m

-- `memcpy` of a line: to read past the buffer is undefined.
unfoldable pub copy_line : ℕ → List ℕ → Result (List ℕ)
copy_line size buffer =
    if leb size (length buffer) then ok (take size buffer) else fail undefined_behaviour

abbrev pub count_of : Option ℕ → ℕ
count_of none = 0
count_of (some n) = n

unfoldable pub add_to_count : ℕ → List (ℕ × ℕ) → List (ℕ × ℕ)
add_to_count address m = insert address ((count_of (lookup address m) + 1) % 2 ^ 64) m

module _ {Model : Type 0} where
  -- A line that was never read is made, all zero, before it is copied.
  unfoldable pub allocate : DramCntlr Model → ℕ → DramCntlr Model
  allocate d address = elim (lookup address d.data_map) [
    | some line ↦ d
    | none ↦ record d { data_map = insert address (replicate d.cache_line_size 0) d.data_map }
  ]

  unfoldable pub line_of : DramCntlr Model → ℕ → Result (List ℕ)
  line_of d address = elim (lookup address d.data_map) [
    | none ↦ fail undefined_behaviour
    | some line ↦ copy_line d.cache_line_size line
  ]

module _ {Model : Type 0} (run_dram_perf_model : Model → ℕ → Model × ℕ) where
  -- The state of the model and the latency, which is 0 when the access is not modelled.
  unfoldable pub latency_of : DramCntlr Model → Bool → ℕ → Model × ℕ
  latency_of d modeled cycle_count =
      if modeled then run_dram_perf_model d.perf_model cycle_count else (d.perf_model, 0)

  unfoldable pub get_data_from_dram :
      DramCntlr Model → ℕ → ℕ → Bool → Result (DramCntlr Model × ℕ × List ℕ)
  get_data_from_dram d cycle_count address modeled = do
    let present = allocate d address
    line ← line_of present address
    let (model, latency) = latency_of d modeled cycle_count
    later ← incr_cycle_count cycle_count latency
    ok (
      record present { perf_model = model; read_count = add_to_count address d.read_count },
      later,
      line,
    )

  -- A line is there to be written only if it was read before.
  unfoldable pub put_data_to_dram :
      DramCntlr Model → ℕ → ℕ → Option (List ℕ) → Bool → Result (DramCntlr Model)
  put_data_to_dram d cycle_count address buffer modeled = elim (lookup address d.data_map) [
    | none ↦ fail log_error
    | some old ↦ elim buffer [
      | none ↦ fail undefined_behaviour
      | some bytes ↦ do
        line ← copy_line d.cache_line_size bytes
        let (model, latency) = latency_of d modeled cycle_count
        ok (record d {
          data_map = insert address line d.data_map;
          perf_model = model;
          write_count = add_to_count address d.write_count;
        })
    ]
  ]
