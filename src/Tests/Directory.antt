-- ===== src/Tests/Directory.antt =====
-- The directory entries (common/tile/memory_subsystem/directory_schemes) on small inputs.
use graphite_atac.Prelude.{
  ℕ, ◌≡◌, refl, inr, List, [], ◌∷◌, arith, ok, true, false, pos, length, map,
}
use graphite_atac.Directory.Slots.{holds, fill, occupied, has_slot, IsTile, invalid_sharer}
use graphite_atac.Directory.SharerList.{IsSharers}
use graphite_atac.Directory.Limited.{
  Limited, add_sharer, get_sharers_list, get_one_sharer, next, has_sharer, get_num_sharers,
}
use graphite_atac.Directory.Limited.Exact
use graphite_atac.Directory.Ackwise
use graphite_atac.Directory.Ackwise.{Ackwise}
use graphite_atac.Directory.Ackwise.Count
use graphite_atac.Directory.LimitedBroadcast
use graphite_atac.Directory.LimitedBroadcast.{LimitedBroadcast}
use graphite_atac.Directory.LimitedBroadcast.Covers

-- Tile 3 in the one slot that there is.
abbrev one_slot : Limited
one_slot = record { max_hw_sharers = 1; sharers = 3 ∷ []; num_tracked_sharers = 1 }

three-IsSharers : (n : ℕ) → IsTile n → IsSharers (n ∷ [])
unfolding holds
three-IsSharers n t = record { apart = (refl, tt); tiles = (t, tt) }

one_slot-Represents : Exact.Represents one_slot (3 ∷ [])
unfolding holds occupied get_num_sharers
one_slot-Represents = record {
  valid = record {
    size = refl;
    slots = (inr (omega arith), tt);
    distinct = ((λ _. refl), tt);
    counted = refl;
  };
  sharers = three-IsSharers 3 (omega arith);
  members = λ j t. refl;
  count = refl;
}

get_sharers_list_lem_example :
    (list : List ℕ) × (get_sharers_list one_slot ≡ ok (map pos list, true))
    × IsSharers list
    × (length list ≡ 1)
    × ((j : ℕ) → IsTile j → holds j list ≡ holds j (3 ∷ []))
get_sharers_list_lem_example = Exact.get_sharers_list_lem one_slot (3 ∷ []) one_slot-Represents

-- One sharer tracked, one counted.
abbrev ackwise : Ackwise
ackwise = record { base = one_slot; global_enabled = true; num_untracked_sharers = 1 }

ackwise-Represents : Count.Represents ackwise (3 ∷ []) (5 ∷ [])
unfolding holds
ackwise-Represents = record {
  base = one_slot-Represents;
  others_valid = three-IsSharers 5 (omega arith);
  disjoint = λ j h. ground arith;
  counted = refl;
  flag = omega arith;
}

add_sharer-Represents_example : Count.AddsTo ackwise (3 ∷ []) (5 ∷ []) 7
unfolding holds
add_sharer-Represents_example =
    Count.add_sharer-Represents ackwise (3 ∷ []) (5 ∷ []) 7 (omega arith) ackwise-Represents refl

remove_sharer-Represents_example : Count.TakesFrom ackwise (3 ∷ []) (5 ∷ []) 5
unfolding holds
remove_sharer-Represents_example =
    Count.remove_sharer-Represents ackwise (3 ∷ []) (5 ∷ []) 5 (omega arith) ackwise-Represents refl

get_num_sharers-Represents_example :
    (Ackwise.get_num_sharers ackwise ≡ 2)
    × (list : List ℕ) × (Ackwise.get_sharers_list ackwise ≡ ok (map pos list, true))
    × IsSharers list
    × (length list ≡ 1)
    × ((j : ℕ) → IsTile j → holds j list ≡ holds j (3 ∷ []))
get_num_sharers-Represents_example =
    Count.get_num_sharers-Represents ackwise (3 ∷ []) (5 ∷ []) ackwise-Represents

abbrev tracking : LimitedBroadcast
tracking = record { base = one_slot; global_enabled = false; num_sharers = pos 0 }

tracking-Covers : Covers.Covers tracking (3 ∷ []) (3 ∷ [])
tracking-Covers = record { base = one_slot-Represents; idle = λ _. refl; covered = λ j h _. h }

add_sharer-Covers_example : Covers.AddsTo 4 tracking (3 ∷ []) (3 ∷ []) 2
unfolding holds
add_sharer-Covers_example =
    Covers.add_sharer-Covers 4 tracking (3 ∷ []) (3 ∷ []) 2 (omega arith) tracking-Covers
      (λ _. refl)

-- A broadcast to four tiles.
abbrev broadcasting : LimitedBroadcast
broadcasting = record { base = one_slot; global_enabled = true; num_sharers = pos 4 }

replies-Reset_example : Covers.Reset broadcasting (Covers.replies broadcasting (2 ∷ 3 ∷ 0 ∷ 1 ∷ []))
unfolding holds
replies-Reset_example =
    Covers.replies-Reset broadcasting (3 ∷ []) 2 (3 ∷ 0 ∷ 1 ∷ []) refl refl (omega arith)
      one_slot-Represents (λ j h. ground arith)

overflow_runs :
    LimitedBroadcast.add_sharer 4 tracking 2
    ≡ ok (record { base = one_slot; global_enabled = true; num_sharers = pos 4 }, true)
unfolding LimitedBroadcast.add_sharer add_sharer fill holds
overflow_runs = refl

get_one_sharer_runs : get_one_sharer one_slot 1 ≡ ok (1103527590, pos 3)
unfolding get_one_sharer get_sharers_list next occupied
get_one_sharer_runs = refl

-- A tile identifier from 2^15 on is added, and then not found: the slot is read with its sign.
has_sharer-big :
    (add_sharer
        (record { max_hw_sharers = 1; sharers = invalid_sharer ∷ []; num_tracked_sharers = 0 })
        40000
      ≡ ok (record { max_hw_sharers = 1; sharers = 40000 ∷ []; num_tracked_sharers = 1 }, true))
    × (has_sharer
          (record { max_hw_sharers = 1; sharers = 40000 ∷ []; num_tracked_sharers = 1 })
          40000
        ≡ false)
unfolding add_sharer has_sharer holds fill has_slot
has_sharer-big = (refl, refl)
