-- ===== src/Directory/LimitedBroadcast/Covers.antt =====
-- A limited entry with broadcasts tracks its sharers until the slots run out, and after a broadcast
-- that every tile answers it tracks again.
use graphite_atac.Prelude.{
  ℕ, suc, ◌≡◌, ◌<◌, ◌⊎◌, inl, inr, refl, ap, Bool, true, false, not, ◌&&◌, List, [], ◌∷◌, arith,
  ◌==◌, length, All, Result, ok, ◌>>=◌, pos,
}
use graphite_atac.Directory.Slots.{holds, IsTile}
use graphite_atac.Directory.SharerList.{erase, holds-erase, holds-cons}
use graphite_atac.Directory.Limited.{Limited, get_num_sharers as num_tracked}
use graphite_atac.Directory.Limited.Exact.{
  Added, added, no_room, duplicate, add_sharer_lem, Removed, removed, not_sharer, remove_sharer_lem,
  has_sharer_lem,
}
use graphite_atac.Directory.Limited.Exact
use graphite_atac.Directory.LimitedBroadcast.{
  LimitedBroadcast, add_sharer, remove_sharer, remove_tracked, count_reply,
}

-- In neither mode is a sharer lost: outside broadcast mode each has a slot.
pub record Covers (e : LimitedBroadcast) (tracked sharers : List ℕ) : Type 0 where
  pub base : Exact.Represents e.base tracked
  pub idle : e.global_enabled ≡ false → e.num_sharers ≡ pos 0
  pub covered : (j : ℕ) → holds j sharers ≡ true → e.global_enabled ≡ false → holds j tracked ≡ true

-- In the broadcast mode nothing changes. Otherwise the tile gets a slot if one is free, and if none
-- is, the entry turns to broadcasts, and counts every tile of the system.
abbrev pub Turns : ℕ → LimitedBroadcast → LimitedBroadcast → List ℕ → List ℕ → ℕ → Bool → Type 0
Turns total e e' tracked tracked' id true = (e' ≡ e) × (tracked' ≡ tracked)
Turns total e e' tracked tracked' id false =
    (length tracked < e.base.max_hw_sharers)
      × (tracked' ≡ id ∷ tracked)
      × (e'.global_enabled ≡ false)
      × (e'.num_sharers ≡ pos 0)
    ⊎ (length tracked ≡ e.base.max_hw_sharers)
      × (tracked' ≡ tracked)
      × (e'.global_enabled ≡ true)
      × (e'.num_sharers ≡ pos total)

abbrev pub AddsTo : ℕ → LimitedBroadcast → List ℕ → List ℕ → ℕ → Type 0
AddsTo total e tracked sharers id =
    (e' : LimitedBroadcast) × (tracked' : List ℕ) × (add_sharer total e id ≡ ok (e', true))
    × Covers e' tracked' (id ∷ sharers)
    × Turns total e e' tracked tracked' id e.global_enabled

add_cases :
    (total : ℕ) (e : LimitedBroadcast) (g : Bool) (tracked sharers : List ℕ) (id : ℕ)
    → e.global_enabled ≡ g
    → Covers e tracked sharers
    → (g ≡ false → holds id tracked ≡ false)
    → Added e.base id tracked
    → (e' : LimitedBroadcast) × (tracked' : List ℕ) × (add_sharer total e id ≡ ok (e', true))
      × Covers e' tracked' (id ∷ sharers)
      × Turns total e e' tracked tracked' id g
unfolding add_sharer num_tracked
add_cases total e true tracked sharers id g c new _ = (
  e,
  tracked,
  ground arith,
  record { base = c.base; idle = c.idle; covered = λ j h k. cc },
  (refl, refl),
)
add_cases total e false tracked sharers id g c new (added b runs _ _ room rep) = (
  record e { base = b },
  id ∷ tracked,
  ground (arith, runs),
  record {
    base = rep;
    idle = c.idle;
    covered =
        λ j h k. ground (arith, holds-cons id sharers j, holds-cons id tracked j, c.covered j);
  },
  inl (room, refl, g, c.idle g),
)
add_cases total e false tracked sharers id g c new (no_room runs _ is_full) = (
  record { base = e.base; global_enabled = true; num_sharers = pos total },
  tracked,
  ground (arith, runs, c.idle g, c.base.count),
  record { base = c.base; idle = λ k. cc; covered = λ j h k. cc },
  inr (is_full, refl, refl, refl),
)
add_cases total e false tracked sharers id g c new (duplicate _ old) =
    let fresh : holds id tracked ≡ false = new refl in cc

-- Adding a tile to an entry with broadcasts, if outside the broadcast mode the entry does not track
-- it yet, succeeds and loses no sharer: in the broadcast mode nothing changes, and outside it the
-- tile is tracked if a slot is free, or else the broadcast mode is entered with all tiles counted.
pub add_sharer-Covers :
    (total : ℕ) (e : LimitedBroadcast) (tracked sharers : List ℕ) (id : ℕ)
    → IsTile id
    → Covers e tracked sharers
    → (e.global_enabled ≡ false → holds id tracked ≡ false)
    → AddsTo total e tracked sharers id
add_sharer-Covers total e tracked sharers id t c new =
    add_cases total e e.global_enabled tracked sharers id refl c new
      (add_sharer_lem e.base id tracked t c.base)

-- The replies of tiles, one after another.
pub replies : LimitedBroadcast → List ℕ → Result LimitedBroadcast
replies e [] = ok e
replies e (t ∷ ts) = do e' ← remove_sharer e t true; replies e' ts

abbrev pub Within : List ℕ → List ℕ → Type 0
Within l ts = (j : ℕ) → holds j l ≡ true → holds j ts ≡ true

-- The tracked sharers after the reply of the tile `t`.
without-Within :
    (t : ℕ) (ts l l' : List ℕ)
    → Within l (t ∷ ts)
    → ((j : ℕ) → holds j l' ≡ (holds j l && not (t == j)))
    → Within l' ts
without-Within t ts l l' w m j h = ground (arith, m j, w j, holds-cons t ts j)

pub data Untracked (e : LimitedBroadcast) (t : ℕ) (l : List ℕ) : Type 0 where
  untracked :
      (b : Limited) (l' : List ℕ)
      → remove_tracked e t ≡ ok b
      → Exact.Represents b l'
      → ((j : ℕ) → holds j l' ≡ (holds j l && not (t == j)))
      → Untracked e t l

remove_tracked_lem :
    (e : LimitedBroadcast) (t : ℕ) (l : List ℕ)
    → e.global_enabled ≡ true
    → IsTile t
    → Exact.Represents e.base l
    → Removed e.base t l
    → Untracked e t l
unfolding remove_tracked
remove_tracked_lem e t l g k r (removed b runs _ old rep) =
    untracked b (erase t l) (ground (arith, runs, has_sharer_lem e.base t l k r)) rep
      (λ j. holds-erase t l j r.sharers.apart)
remove_tracked_lem e t l g k r (not_sharer runs new) =
    untracked e.base l (ground (arith, has_sharer_lem e.base t l k r)) r (λ j. ground arith)

none_held : (l : List ℕ) → Within l [] → l ≡ []
unfolding holds
none_held [] w = refl
none_held (s ∷ l) w = absurd_head (w s (ground arith))
  where
    absurd_head : holds s [] ≡ true → (s ∷ l) ≡ []
    absurd_head h = cc

-- After the replies the entry tracks its sharers again, and has none.
abbrev pub Reset : LimitedBroadcast → Result LimitedBroadcast → Type 0
Reset e r =
    (e' : LimitedBroadcast) × (r ≡ ok e')
    × (e'.global_enabled ≡ false)
    × (e'.num_sharers ≡ pos 0)
    × Exact.Represents e'.base []

-- A reply that is not the last one.
reply_more :
    (e : LimitedBroadcast) (n t : ℕ) (b : Limited)
    → e.global_enabled ≡ true
    → e.num_sharers ≡ pos (suc (suc n))
    → remove_tracked e t ≡ ok b
    → remove_sharer e t true
      ≡ ok (record { base = b; global_enabled = true; num_sharers = pos (suc n) })
unfolding remove_sharer count_reply
reply_more e n t b g k runs = ground (arith, runs)

replies_lem :
    (ts : List ℕ) (t : ℕ) (e : LimitedBroadcast) (l : List ℕ)
    → e.global_enabled ≡ true
    → e.num_sharers ≡ pos (suc (length ts))
    → All IsTile (t ∷ ts)
    → Exact.Represents e.base l
    → Within l (t ∷ ts)
    → Untracked e t l
    → Reset e (replies e (t ∷ ts))
unfolding replies remove_sharer count_reply num_tracked
replies_lem [] t e l g n k r w (untracked b l' runs rep m) =
    let none = none_held l' (without-Within t [] l l' w m) in
    (
      record { base = b; global_enabled = false; num_sharers = pos 0 },
      ground (arith, runs, rep.count, ap length none),
      refl,
      refl,
      rw none at rep,
    )
replies_lem (u ∷ ts) t e l g n k r w (untracked b l' runs rep m) =
    let e1 : LimitedBroadcast = record {
      base = b;
      global_enabled = true;
      num_sharers = pos (suc (length ts));
    } in
    let (e', rest, off, none, q) =
      replies_lem ts u e1 l' refl refl k.1 rep (without-Within t (u ∷ ts) l l' w m)
        (remove_tracked_lem e1 u l' refl k.1.0 rep (remove_sharer_lem b u l' k.1.0 rep)) in
    (e', rw (reply_more e (length ts) t b g n runs) rest, off, none, q)

-- A broadcast to a list of tiles with all tracked sharers among them, as many as the entry counts:
-- once every tile has replied, in whatever order, the entry has left the broadcast mode, counts no
-- sharer and tracks none.
pub replies-Reset :
    (e : LimitedBroadcast) (tracked : List ℕ) (t : ℕ) (ts : List ℕ)
    → e.global_enabled ≡ true
    → e.num_sharers ≡ pos (length (t ∷ ts))
    → All IsTile (t ∷ ts)
    → Exact.Represents e.base tracked
    → Within tracked (t ∷ ts)
    → Reset e (replies e (t ∷ ts))
replies-Reset e tracked t ts g n k r w =
    replies_lem ts t e tracked g n k r w
      (remove_tracked_lem e t tracked g k.0 r (remove_sharer_lem e.base t tracked k.0 r))
