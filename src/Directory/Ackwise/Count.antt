-- ===== src/Directory/Ackwise/Count.antt =====
-- An ACKwise entry tracks some sharers and counts the others.
use graphite_atac.Prelude.{
  ℕ, suc, ◌+◌, ◌-◌, ◌<◌, ◌≡◌, refl, ap, ◌∙◌, inl, inr, Bool, true, false, not, ◌&&◌, ◌||◌, List, [],
  ◌∷◌, arith, ◌==◌, ltb, length, Bool-cases, ok, map, pos, if◌then◌else◌,
}
use graphite_atac.Directory.Slots.{holds, IsTile}
use graphite_atac.Directory.SharerList.{
  IsSharers, erase, holds-erase, length-erase, holds-cons, holds-nil, cons-IsSharers,
  erase-IsSharers, length_of_holds,
}
use graphite_atac.Directory.Limited.{get_num_sharers as num_tracked}
use graphite_atac.Directory.Limited.Exact.{
  IsValid, Added, added, no_room, duplicate, add_sharer_lem, Removed, removed, not_sharer,
  remove_sharer_lem, has_sharer_lem, new_limited-Represents, get_sharers_list_lem,
}
use graphite_atac.Directory.Limited.Exact
use graphite_atac.Directory.Ackwise.{
  Ackwise, new_ackwise, add_sharer, remove_sharer, remove_tracked, drop_untracked, get_num_sharers,
  get_sharers_list,
}

-- `global_enabled` says whether a sharer is untracked.
abbrev pub Agrees : Bool → ℕ → Type 0
Agrees false n = n ≡ 0
Agrees true n = 0 < n

-- The entry stands for the sharers in `tracked`, which it knows, and in `others`, which it counts.
pub record Represents (e : Ackwise) (tracked others : List ℕ) : Type 0 where
  pub base : Exact.Represents e.base tracked
  pub others_valid : IsSharers others
  pub disjoint : (j : ℕ) → holds j tracked ≡ true → holds j others ≡ false
  pub counted : e.num_untracked_sharers ≡ length others
  pub flag : Agrees e.global_enabled e.num_untracked_sharers

-- A tile is a sharer.
abbrev pub shares : List ℕ → List ℕ → ℕ → Bool
shares tracked others j = holds j tracked || holds j others

pub new_ackwise-Represents : (max : ℕ) → Represents (new_ackwise max) [] []
unfolding new_ackwise
new_ackwise-Represents max = record {
  base = new_limited-Represents max;
  others_valid = record { apart = tt; tiles = tt };
  disjoint = λ j h. holds-nil j;
  counted = refl;
  flag = refl;
}

-- The new entry stands for one more sharer, or for one less.
abbrev pub AddsTo : Ackwise → List ℕ → List ℕ → ℕ → Type 0
AddsTo e tracked others id =
    (e' : Ackwise) × (tracked' : List ℕ) × (others' : List ℕ) × (add_sharer e id ≡ ok (e', true))
    × Represents e' tracked' others'
    × ((j : ℕ) → shares tracked' others' j ≡ (id == j || shares tracked others j))
    × (get_num_sharers e' ≡ suc (get_num_sharers e))

add_untracked :
    (e : Ackwise) (g : Bool) (tracked others : List ℕ) (id : ℕ)
    → e.global_enabled ≡ g
    → IsTile id
    → Represents e tracked others
    → shares tracked others id ≡ false
    → Added e.base id tracked
    → AddsTo e tracked others id
unfolding add_sharer get_num_sharers num_tracked
add_untracked e true tracked others id g t r new _ = (
  record e { num_untracked_sharers = e.num_untracked_sharers + 1 },
  tracked,
  id ∷ others,
  ground arith,
  record {
    base = r.base;
    others_valid = cons-IsSharers id others t (ground arith) r.others_valid;
    disjoint = λ j h. ground (arith, holds-cons id others j, r.disjoint j h);
    counted = omega (arith, r.counted);
    flag = rw g (omega arith);
  },
  (λ j. ground (arith, holds-cons id others j)),
  omega arith,
)
add_untracked e false tracked others id g t r new (added b runs max _ room rep) = (
  record e { base = b },
  id ∷ tracked,
  others,
  ground arith,
  record {
    base = rep;
    others_valid = r.others_valid;
    disjoint = λ j h. ground (arith, holds-cons id tracked j, r.disjoint j);
    counted = r.counted;
    flag = r.flag;
  },
  (λ j. ground (arith, holds-cons id tracked j)),
  omega (arith, rep.count, r.base.count),
)
add_untracked e false tracked others id g t r new (no_room runs _ is_full) = (
  record { base = e.base; global_enabled = true; num_untracked_sharers = 1 },
  tracked,
  id ∷ others,
  ground (arith, rw g at r.flag, r.base.count),
  record {
    base = r.base;
    others_valid = cons-IsSharers id others t (ground arith) r.others_valid;
    disjoint = λ j h. ground (arith, holds-cons id others j, r.disjoint j h);
    counted = omega (arith, rw g at r.flag, r.counted);
    flag = omega arith;
  },
  (λ j. ground (arith, holds-cons id others j)),
  omega (arith, rw g at r.flag),
)
add_untracked e false tracked others id g t r new (duplicate _ old) =
    let fresh : holds id tracked ≡ false = ground arith in cc

-- Adding a tile that is no sharer always succeeds: the entry stands for the sharers and that tile,
-- and counts one more.
pub add_sharer-Represents :
    (e : Ackwise) (tracked others : List ℕ) (id : ℕ)
    → IsTile id
    → Represents e tracked others
    → shares tracked others id ≡ false
    → AddsTo e tracked others id
add_sharer-Represents e tracked others id t r new =
    add_untracked e e.global_enabled tracked others id refl t r new
      (add_sharer_lem e.base id tracked t r.base)

abbrev pub TakesFrom : Ackwise → List ℕ → List ℕ → ℕ → Type 0
TakesFrom e tracked others id =
    (e' : Ackwise) × (tracked' : List ℕ) × (others' : List ℕ) × (remove_sharer e id false ≡ ok e')
    × Represents e' tracked' others'
    × ((j : ℕ) → shares tracked' others' j ≡ (shares tracked others j && not (id == j)))
    × (suc (get_num_sharers e') ≡ get_num_sharers e)

flag_pos : (g : Bool) (n : ℕ) → Agrees g n → g ≡ true → 0 < n
flag_pos true n a e = a
flag_pos false n a e = cc

flag_drop : (g : Bool) (n : ℕ) → g ≡ true → Agrees (if n - 1 == 0 then false else g) (n - 1)
flag_drop g n e = elim (Bool-cases (n - 1 == 0)) [
  | inl last ↦ rw last (ground arith)
  | inr more ↦ rw (more, e) (ground arith)
]

flag_true : (g : Bool) (n : ℕ) → Agrees g n → 0 < n → g ≡ true
flag_true true n a h = refl
flag_true false n a h = absurd (omega arith)

flag_ltb : (g : Bool) (n : ℕ) → Agrees g n → g ≡ ltb 0 n
flag_ltb true n a = ground arith
flag_ltb false n a = ground arith

take_tracked :
    (e : Ackwise) (g : Bool) (tracked others : List ℕ) (id : ℕ)
    → e.global_enabled ≡ g
    → IsTile id
    → Represents e tracked others
    → holds id tracked ≡ true
    → Removed e.base id tracked
    → TakesFrom e tracked others id
unfolding remove_sharer remove_tracked get_num_sharers num_tracked
take_tracked e g tracked others id eq t r old (not_sharer _ new) = cc
take_tracked e g tracked others id eq t r old (removed b runs _ _ rep) = (
  record e { base = b },
  erase id tracked,
  others,
  ground
      (arith, runs, flag_pos e.global_enabled _ r.flag, has_sharer_lem e.base id tracked t r.base),
  record {
    base = rep;
    others_valid = r.others_valid;
    disjoint = λ j h. ground (arith, holds-erase id tracked j r.base.sharers.apart, r.disjoint j);
    counted = r.counted;
    flag = r.flag;
  },
  (λ j. ground (arith, holds-erase id tracked j r.base.sharers.apart, r.disjoint id old)),
  omega (arith, rep.count, r.base.count, length-erase id tracked old),
)

take_untracked :
    (e : Ackwise) (tracked others : List ℕ) (id : ℕ)
    → e.global_enabled ≡ true
    → IsTile id
    → Represents e tracked others
    → holds id tracked ≡ false
    → holds id others ≡ true
    → TakesFrom e tracked others id
unfolding remove_sharer drop_untracked get_num_sharers num_tracked
take_untracked e tracked others id g t r new old = (
  drop_untracked e,
  tracked,
  erase id others,
  ground (arith, rw g at r.flag, has_sharer_lem e.base id tracked t r.base),
  record {
    base = r.base;
    others_valid = erase-IsSharers id others r.others_valid;
    disjoint = λ j h. ground (arith, holds-erase id others j r.others_valid.apart, r.disjoint j h);
    counted = omega (arith, r.counted, length-erase id others old);
    flag = flag_drop e.global_enabled e.num_untracked_sharers g;
  },
  (λ j. ground (arith, holds-erase id others j r.others_valid.apart)),
  omega (arith, r.counted, length_of_holds id others old),
)

-- Removing a sharer, with no reply expected, always succeeds: the entry stands for the other
-- sharers, and counts one less, whether the tile was tracked or only counted.
pub remove_sharer-Represents :
    (e : Ackwise) (tracked others : List ℕ) (id : ℕ)
    → IsTile id
    → Represents e tracked others
    → shares tracked others id ≡ true
    → TakesFrom e tracked others id
remove_sharer-Represents e tracked others id t r old = elim (Bool-cases (holds id tracked)) [
  | inl here ↦
      take_tracked e e.global_enabled tracked others id refl t r here
        (remove_sharer_lem e.base id tracked t r.base)
  | inr there ↦
      let other : holds id others ≡ true = ground arith in
      take_untracked e tracked others id
        (flag_true e.global_enabled _ r.flag
          (omega (arith, r.counted, length_of_holds id others other)))
        t r there other
]

-- The count of the sharers is right, and the list of sharers is given as complete exactly when it
-- is: it lists the tracked ones, and the flag says whether there are others.
pub get_num_sharers-Represents :
    (e : Ackwise) (tracked others : List ℕ)
    → Represents e tracked others
    → (get_num_sharers e ≡ length tracked + length others)
      × (list : List ℕ) × (get_sharers_list e ≡ ok (map pos list, ltb 0 (length others)))
      × IsSharers list
      × (length list ≡ length tracked)
      × ((j : ℕ) → IsTile j → holds j list ≡ holds j tracked)
unfolding get_num_sharers num_tracked get_sharers_list
get_num_sharers-Represents e tracked others r =
    let (list, runs, v, l, m) = get_sharers_list_lem e.base tracked r.base in
    (
      omega (arith, r.base.count, r.counted),
      list,
      rw runs (ap (λ b. ok (map pos list, b)) (flag_ltb e.global_enabled _ r.flag ∙ rw r.counted)),
      v,
      l,
      m,
    )
