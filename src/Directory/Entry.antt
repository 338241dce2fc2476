-- ===== src/Directory/Entry.antt =====
-- `DirectoryEntry` (directory_entry.cc, directory_entry.h, directory_block_info.h,
-- directory_state.h): the line's address, its state, its owner and its sharers, over any scheme that
-- keeps the sharers.
pub mod Counts
use graphite_atac.Prelude.{
  ℕ, ◌≤◌, Bool, true, false, List, Option, none, some, ℤ, pos, negsuc, Result, ok, fail, log_error,
  ◌>>=◌,
}

pub data DirectoryState : Type 0 where
  uncached shared owned exclusive modified : DirectoryState

-- The virtual methods. `removeSharer` is always called with its default, no reply expected; a
-- sharer picked at random changes the seed of the entry's generator.
pub record Scheme (E : Type 0) : Type 0 where
  pub new_sharers : E
  pub has_sharer : E → ℕ → Result Bool
  pub add_sharer : E → ℕ → Result (E × Bool)
  pub remove_sharer : E → ℕ → Result E
  pub get_sharers_list : E → Result (List ℤ × Bool)
  pub get_one_sharer : E → Result (E × ℤ)
  pub get_num_sharers : E → ℕ
  pub get_latency : E → ℕ

-- The address is none for `INVALID_ADDRESS`, and the owner -1 for `INVALID_TILE_ID`.
pub record DirectoryEntry (E : Type 0) : Type 0 where
  pub address : Option ℕ
  pub dstate : DirectoryState
  pub owner : ℤ
  pub sharers : E

abbrev pub invalid_tile_id : ℤ
invalid_tile_id = negsuc 0

module _ {E : Type 0} (scheme : Scheme E) where
  unfoldable pub new_entry : DirectoryEntry E
  new_entry = record {
    address = none;
    dstate = uncached;
    owner = invalid_tile_id;
    sharers = scheme.new_sharers;
  }

  -- An owner other than `INVALID_TILE_ID` has to be a sharer.
  unfoldable pub set_owner : DirectoryEntry E → ℕ → Result (DirectoryEntry E)
  set_owner e tile = do
    has ← scheme.has_sharer e.sharers tile
    elim has [ true ↦ ok (record e { owner = pos tile }) | false ↦ fail log_error ]

  unfoldable pub clear_owner : DirectoryEntry E → DirectoryEntry E
  clear_owner e = record e { owner = invalid_tile_id }
