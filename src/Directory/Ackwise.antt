-- ===== src/Directory/Ackwise.antt =====
-- `DirectoryEntryAckwise` (directory_entry_ackwise.cc): when the slots run out, the entry counts the
-- sharers that it does not track.
pub mod Count
use graphite_atac.Prelude.{
  ℕ, ◌+◌, ◌-◌, Bool, true, false, not, ◌&&◌, List, ◌==◌, ltb, ℤ, Result, ok, fail, ◌>>=◌, ◌>>◌,
  assert, if◌then◌else◌,
}
use graphite_atac.Directory.Limited
use graphite_atac.Directory.Limited.{Limited, new_limited}

pub record Ackwise : Type 0 where
  pub base : Limited
  pub global_enabled : Bool
  pub num_untracked_sharers : ℕ

unfoldable pub new_ackwise : ℕ → Ackwise
new_ackwise max = record {
  base = new_limited max;
  global_enabled = false;
  num_untracked_sharers = 0;
}

-- The branch where the base class could not add.
unfoldable pub enable_global : Ackwise → Limited → Result (Ackwise × Bool)
enable_global e base = do
  assert (
      e.num_untracked_sharers == 0
      && (not e.global_enabled && base.num_tracked_sharers == base.max_hw_sharers))
  ok (record { base = base; global_enabled = true; num_untracked_sharers = 1 }, true)

unfoldable pub add_sharer : Ackwise → ℕ → Result (Ackwise × Bool)
unfolding enable_global
add_sharer e id = elim e.global_enabled [
  | true ↦ ok (record e { num_untracked_sharers = e.num_untracked_sharers + 1 }, true)
  | false ↦ do
    (base, added) ← Limited.add_sharer e.base id
    if added then ok (record e { base = base }, true) else enable_global e base
]

-- An untracked sharer goes; with the last one all sharers are tracked again.
unfoldable pub drop_untracked : Ackwise → Ackwise
drop_untracked e =
    let left = e.num_untracked_sharers - 1 in
    record e {
      num_untracked_sharers = left;
      global_enabled = if left == 0 then false else e.global_enabled;
    }

unfoldable pub remove_tracked : Ackwise → ℕ → Result Ackwise
remove_tracked e id = do base ← Limited.remove_sharer e.base id; ok (record e { base = base })

unfoldable pub remove_sharer : Ackwise → ℕ → Bool → Result Ackwise
remove_sharer e id reply_expected = do
  assert (not reply_expected)
  elim e.global_enabled [
    | false ↦ remove_tracked e id
    | true ↦ do
      assert (ltb 0 e.num_untracked_sharers)
      if Limited.has_sharer e.base id then remove_tracked e id else ok (drop_untracked e)
  ]

unfoldable pub in_broadcast_mode : Ackwise → Bool
in_broadcast_mode e = e.global_enabled

unfoldable pub get_sharers_list : Ackwise → Result (List ℤ × Bool)
get_sharers_list e = do (list, all) ← Limited.get_sharers_list e.base; ok (list, e.global_enabled)

unfoldable pub get_num_sharers : Ackwise → ℕ
get_num_sharers e = e.base.num_tracked_sharers + e.num_untracked_sharers
