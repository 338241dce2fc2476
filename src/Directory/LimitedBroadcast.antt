-- ===== src/Directory/LimitedBroadcast.antt =====
-- `DirectoryEntryLimitedBroadcast` (directory_entry_limited_broadcast.cc): when the slots run out,
-- the entry turns to broadcasts, and counts the replies of all tiles.
pub mod Covers
use graphite_atac.Prelude.{
  ℕ, zero, suc, Bool, true, false, not, ◌&&◌, List, ◌==◌, ℤ, pos, negsuc, Result, ok, fail, ◌>>=◌,
  ◌>>◌, assert, if◌then◌else◌,
}
use graphite_atac.Directory.Limited
use graphite_atac.Directory.Limited.{Limited, new_limited}

-- `num_sharers` is an `SInt32` that a reply decrements, also from 0.
pub record LimitedBroadcast : Type 0 where
  pub base : Limited
  pub global_enabled : Bool
  pub num_sharers : ℤ

abbrev pub dec : ℤ → ℤ
dec (pos zero) = negsuc 0
dec (pos (suc n)) = pos n
dec (negsuc n) = negsuc (suc n)

abbrev pub is_zero : ℤ → Bool
is_zero (pos n) = n == 0
is_zero (negsuc n) = false

unfoldable pub new_limited_broadcast : ℕ → LimitedBroadcast
new_limited_broadcast max = record {
  base = new_limited max;
  global_enabled = false;
  num_sharers = pos 0;
}

-- The branch where the base class could not add: `total` is the number of tiles of the system.
unfoldable pub enable_global : ℕ → LimitedBroadcast → Limited → Result (LimitedBroadcast × Bool)
enable_global total e base = do
  assert (
      is_zero e.num_sharers
      && (not e.global_enabled && base.num_tracked_sharers == base.max_hw_sharers))
  ok (record { base = base; global_enabled = true; num_sharers = pos total }, true)

unfoldable pub add_sharer : ℕ → LimitedBroadcast → ℕ → Result (LimitedBroadcast × Bool)
unfolding enable_global
add_sharer total e id = elim e.global_enabled [
  | true ↦ ok (e, true)
  | false ↦ do
    (base, added) ← Limited.add_sharer e.base id
    if added then ok (record e { base = base }, true) else enable_global total e base
]

-- The tracked sharer goes; in broadcast mode the tile need not be tracked.
unfoldable pub remove_tracked : LimitedBroadcast → ℕ → Result Limited
remove_tracked e id =
    if e.global_enabled && not (Limited.has_sharer e.base id)
    then ok e.base
    else Limited.remove_sharer e.base id

-- The count of a reply to a broadcast: after the last one the entry tracks its sharers again.
unfoldable pub count_reply : LimitedBroadcast → Result LimitedBroadcast
count_reply e = do
  assert e.global_enabled
  let left = dec e.num_sharers
  if is_zero left
      then (do
        assert (e.base.num_tracked_sharers == 0)
        ok (record e { num_sharers = left; global_enabled = false }))
      else ok (record e { num_sharers = left })

unfoldable pub remove_sharer : LimitedBroadcast → ℕ → Bool → Result LimitedBroadcast
unfolding remove_tracked count_reply
remove_sharer e id reply_expected = do
  base ← remove_tracked e id
  if reply_expected then count_reply (record e { base = base }) else ok (record e { base = base })

unfoldable pub get_num_sharers : LimitedBroadcast → ℤ
get_num_sharers e = if e.global_enabled then e.num_sharers else pos (Limited.get_num_sharers e.base)

unfoldable pub in_broadcast_mode : LimitedBroadcast → Bool
in_broadcast_mode e = e.global_enabled

unfoldable pub get_sharers_list : LimitedBroadcast → Result (List ℤ × Bool)
get_sharers_list e = do (list, all) ← Limited.get_sharers_list e.base; ok (list, e.global_enabled)
