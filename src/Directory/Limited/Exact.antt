-- ===== src/Directory/Limited/Exact.antt =====
-- `DirectoryEntryLimited` keeps its sharers exactly.
use graphite_atac.Prelude.{
  ℕ, suc, ◌+◌, ◌-◌, ◌<◌, ◌≡◌, refl, sym, ◌∙◌, inl, inr, true, false, List, [], ◌∷◌, arith, ◌==◌,
  length, All, Bool-cases, replicate, length-replicate, ok, fail, assert_failed, log_error, pos,
  map, zero, length-map,
}
use graphite_atac.Directory.Slots.{
  invalid_sharer, to_slot, to_tile, holds, occupied, has_slot-holds, IsTile, IsSlot, IsDistinct,
  Filled, filled, full, fill_lem, Cleared, cleared, absent, clear_lem,
}
use graphite_atac.Directory.SharerList.{
  IsSharers, erase, holds-erase, length-erase, holds-cons, holds-nil, cons-IsSharers,
  erase-IsSharers,
}
use graphite_atac.Directory.Limited.{
  Limited, new_limited, has_sharer, add_sharer, remove_sharer, get_sharers_list, get_num_sharers,
}

-- Every slot is in the vector, and holds a tile or nothing, no tile twice; the counter counts.
pub record IsValid (e : Limited) : Type 0 where
  pub size : length e.sharers ≡ e.max_hw_sharers
  pub slots : All IsSlot e.sharers
  pub distinct : IsDistinct e.sharers
  pub counted : e.num_tracked_sharers ≡ length (occupied e.sharers)

-- The entry stands for the list of sharers.
pub record Represents (e : Limited) (l : List ℕ) : Type 0 where
  pub valid : IsValid e
  pub sharers : IsSharers l
  pub members : (j : ℕ) → IsTile j → holds j e.sharers ≡ holds j l
  pub count : get_num_sharers e ≡ length l

replicate_slots : (n : ℕ) → All IsSlot (replicate n invalid_sharer)
replicate_slots zero = tt
replicate_slots (suc n) = (inl refl, replicate_slots n)

replicate-IsDistinct : (n : ℕ) → IsDistinct (replicate n invalid_sharer)
replicate-IsDistinct zero = tt
replicate-IsDistinct (suc n) = ((λ u. absurd (u refl)), replicate-IsDistinct n)

occupied-replicate : (n : ℕ) → length (occupied (replicate n invalid_sharer)) ≡ 0
unfolding occupied
occupied-replicate zero = refl
occupied-replicate (suc n) = occupied-replicate n

holds-replicate : (n j : ℕ) → IsTile j → holds j (replicate n invalid_sharer) ≡ false
unfolding holds
holds-replicate zero j t = refl
holds-replicate (suc n) j t = ground (arith, holds-replicate n j t)

-- A new entry has no sharer.
pub new_limited-Represents : (max : ℕ) → Represents (new_limited max) []
unfolding new_limited get_num_sharers
new_limited-Represents max = record {
  valid = record {
    size = length-replicate max invalid_sharer;
    slots = replicate_slots max;
    distinct = replicate-IsDistinct max;
    counted = sym (occupied-replicate max);
  };
  sharers = record { apart = tt; tiles = tt };
  members = λ j t. holds-replicate max j t ∙ sym (holds-nil j);
  count = refl;
}

to_slot-tile : (id : ℕ) → IsTile id → to_slot id ≡ id
to_slot-tile id t = omega arith

-- What adding a tile to an entry for `l` does: it succeeds if a slot is free, is refused without a
-- change if none is, and fails if the tile is a sharer.
pub data Added (e : Limited) (id : ℕ) (l : List ℕ) : Type 0 where
  added :
      (e' : Limited)
      → add_sharer e id ≡ ok (e', true)
      → e'.max_hw_sharers ≡ e.max_hw_sharers
      → holds id l ≡ false
      → length l < e.max_hw_sharers
      → Represents e' (id ∷ l)
      → Added e id l
  no_room :
      add_sharer e id ≡ ok (e, false)
      → holds id l ≡ false
      → length l ≡ e.max_hw_sharers
      → Added e id l
  duplicate : add_sharer e id ≡ fail assert_failed → holds id l ≡ true → Added e id l

add_new :
    (e : Limited) (id : ℕ) (l : List ℕ)
    → IsTile id
    → Represents e l
    → holds id l ≡ false
    → holds id e.sharers ≡ false
    → Filled id e.sharers
    → Added e id l
unfolding add_sharer get_num_sharers
add_new e id l t r new fresh (filled slots f size occ room d v m) =
    added (record e { sharers = slots; num_tracked_sharers = e.num_tracked_sharers + 1 })
      (rw (to_slot-tile id t, fresh, f, add_sharer)) refl new
      (omega (arith, r.valid.counted, r.valid.size, r.count))
      (record {
        valid = record {
          size = size ∙ r.valid.size;
          slots = v r.valid.slots;
          distinct = d fresh r.valid.distinct r.valid.slots;
          counted = omega (arith, r.valid.counted);
        };
        sharers = cons-IsSharers id l t new r.sharers;
        members = λ j k. m j k ∙ rw (r.members j k) (sym (holds-cons id l j));
        count = omega (arith, r.count);
      })
add_new e id l t r new fresh (full f occ) =
    no_room (rw (to_slot-tile id t, fresh, f, add_sharer)) new
      (omega (arith, r.valid.counted, r.valid.size, r.count))

-- Adding a tile to a limited entry succeeds if it is no sharer and a slot is free, changes nothing
-- if none is, and fails if it is a sharer.
pub add_sharer_lem : (e : Limited) (id : ℕ) (l : List ℕ) → IsTile id → Represents e l → Added e id l
unfolding add_sharer
add_sharer_lem e id l t r = elim (Bool-cases (holds id l)) [
  | inl old ↦ duplicate (rw (to_slot-tile id t, r.members id t, old)) old
  | inr new ↦ add_new e id l t r new (r.members id t ∙ new) (fill_lem id e.sharers t)
]

-- What removing a tile does: it succeeds exactly if the tile is a sharer.
pub data Removed (e : Limited) (id : ℕ) (l : List ℕ) : Type 0 where
  removed :
      (e' : Limited)
      → remove_sharer e id ≡ ok e'
      → e'.max_hw_sharers ≡ e.max_hw_sharers
      → holds id l ≡ true
      → Represents e' (erase id l)
      → Removed e id l
  not_sharer : remove_sharer e id ≡ fail log_error → holds id l ≡ false → Removed e id l

remove_cases :
    (e : Limited) (id : ℕ) (l : List ℕ)
    → IsTile id
    → Represents e l
    → Cleared id e.sharers
    → Removed e id l
unfolding remove_sharer get_num_sharers
remove_cases e id l t r (cleared slots c old size occ d v m) =
    let here = sym (r.members id t) ∙ old in
    removed (record e { sharers = slots; num_tracked_sharers = e.num_tracked_sharers - 1 })
      (rw (to_slot-tile id t, c, remove_sharer)) refl here
      (record {
        valid = record {
          size = size ∙ r.valid.size;
          slots = v;
          distinct = d;
          counted = omega (arith, r.valid.counted);
        };
        sharers = erase-IsSharers id l r.sharers;
        members = λ j k. m j k ∙ rw (r.members j k) (sym (holds-erase id l j r.sharers.apart));
        count = omega (arith, r.count, length-erase id l here, r.valid.counted);
      })
remove_cases e id l t r (absent c new) =
    not_sharer (rw (to_slot-tile id t, c, remove_sharer)) (sym (r.members id t) ∙ new)

-- Removing a tile from a limited entry succeeds exactly if it is a sharer.
pub remove_sharer_lem :
    (e : Limited) (id : ℕ) (l : List ℕ) → IsTile id → Represents e l → Removed e id l
remove_sharer_lem e id l t r =
    remove_cases e id l t r (clear_lem id e.sharers t r.valid.distinct r.valid.slots)

pub has_sharer_lem :
    (e : Limited) (id : ℕ) (l : List ℕ) → IsTile id → Represents e l → has_sharer e id ≡ holds id l
unfolding has_sharer
has_sharer_lem e id l t r = has_slot-holds id e.sharers t ∙ r.members id t

holds-occupied : (slots : List ℕ) (j : ℕ) → IsTile j → holds j (occupied slots) ≡ holds j slots
unfolding holds occupied
holds-occupied [] j t = refl
holds-occupied (s ∷ slots) j t = ground (arith, holds-occupied slots j t)

occupied-IsSharers :
    (slots : List ℕ) → All IsSlot slots → IsDistinct slots → IsSharers (occupied slots)
unfolding occupied
occupied-IsSharers [] v d = record { apart = tt; tiles = tt }
occupied-IsSharers (s ∷ slots) v d = elim (Bool-cases (s == invalid_sharer)) [
  | inl free ↦ rw free (occupied-IsSharers slots v.1 d.1)
  | inr used ↦
      let t : IsTile s = ground arith in
      rw used (
        cons-IsSharers s (occupied slots) t (holds-occupied slots s t ∙ d.0 (λ e. ground arith))
          (occupied-IsSharers slots v.1 d.1))
]

to_tiles : (slots : List ℕ) → All IsTile slots → map to_tile slots ≡ map pos slots
to_tiles [] t = refl
to_tiles (s ∷ slots) t = ground (arith, to_tiles slots t.1)

-- `getSharersList` lists the sharers and nothing else, each once, and always says that all tiles are
-- sharers.
pub get_sharers_list_lem :
    (e : Limited) (l : List ℕ)
    → Represents e l
    → (list : List ℕ) × (get_sharers_list e ≡ ok (map pos list, true))
      × IsSharers list
      × (length list ≡ length l)
      × ((j : ℕ) → IsTile j → holds j list ≡ holds j l)
unfolding get_sharers_list get_num_sharers
get_sharers_list_lem e l r =
    let v = occupied-IsSharers e.sharers r.valid.slots r.valid.distinct in
    (
      occupied e.sharers,
      rw (to_tiles (occupied e.sharers) v.tiles, length-map (occupied e.sharers) pos)
          (ground (arith, r.valid.counted)),
      v,
      omega (arith, r.valid.counted, r.count),
      λ j t. holds-occupied e.sharers j t ∙ r.members j t,
    )
