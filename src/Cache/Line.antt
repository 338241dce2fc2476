-- ===== src/Cache/Line.antt =====
-- `CacheState` (cache_state.h) and `CacheLineInfo` (cache_line_info.cc).
use graphite_atac.Prelude.{ℕ, Bool, true, false, not, ◌==◌}

pub data CacheState : Type 0 where
  invalid shared owned exclusive modified data_invalid clean dirty : CacheState

unfoldable pub readable : CacheState → Bool
readable modified = true
readable exclusive = true
readable owned = true
readable shared = true
readable cstate = false

unfoldable pub writable : CacheState → Bool
writable modified = true
writable exclusive = true
writable cstate = false

pub record CacheLineInfo : Type 0 where
  pub tag : ℕ
  pub cstate : CacheState

-- `(IntPtr) ~0`, with addresses of 64 bits.
abbrev pub invalid_tag : ℕ
invalid_tag = 18446744073709551615

-- The line that the constructor makes, and that `invalidate` leaves.
unfoldable pub invalid_line : CacheLineInfo
invalid_line = record { tag = invalid_tag; cstate = invalid }

unfoldable pub is_valid : CacheLineInfo → Bool
is_valid info = not (info.tag == invalid_tag)
