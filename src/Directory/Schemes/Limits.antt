-- ===== src/Directory/Schemes/Limits.antt =====
-- The counter of a limited entry counts its occupied slots, whatever tiles come and go.
use mathlib.Core.Option
use graphite_atac.Prelude.{
  ℕ, suc, ◌-◌, ◌==◌, ◌≡◌, refl, sym, inl, inr, true, false, not, Option, none, some, List, [], ◌∷◌,
  length, ok, fail, log_error, undefined_behaviour, Yields, Yields-after, Yields-assert, Yields-if,
  vector_at-Ends, Ends, Bool-cases, arith, replicate, map, get_elem?,
}
use graphite_atac.Directory.Slots.{
  invalid_sharer, to_slot, holds, clear, occupied, IsTile, filled, full, fill_lem, to_tile,
}
use graphite_atac.Directory.Limited.{
  Limited, new_limited, add_sharer, remove_sharer, remove_sharer_no_broadcast, get_sharers_list,
  get_one_sharer, next,
}

pub record IsCounted (e : Limited) : Type 0 where
  pub tracked : e.num_tracked_sharers ≡ length (occupied e.sharers)

occupied-replicate : (n : ℕ) → length (occupied (replicate n invalid_sharer)) ≡ 0
unfolding occupied
occupied-replicate ℕ.zero = refl
occupied-replicate (suc n) = occupied-replicate n

pub new_limited-IsCounted : (max : ℕ) → IsCounted (new_limited max)
unfolding new_limited
new_limited-IsCounted max = record { tracked = sym (occupied-replicate max) }

-- One slot less is occupied once a tile's was cleared.
abbrev Emptied : List ℕ → Option (List ℕ) → Type 0
Emptied slots none = Unit
Emptied slots (some r) = suc (length (occupied r)) ≡ length (occupied slots)

Emptied-cons :
    (s : ℕ) (slots : List ℕ) (o : Option (List ℕ))
    → Emptied slots o
    → Emptied (s ∷ slots) (Option.map (λ r. s ∷ r) o)
unfolding occupied
Emptied-cons s slots none h = tt
Emptied-cons s slots (some r) h = ground arith

clear-Emptied : (c : ℕ) (slots : List ℕ) → IsTile c → Emptied slots (clear c slots)
unfolding clear
clear-Emptied c [] t = tt
clear-Emptied c (s ∷ slots) t = elim (Bool-cases (s == c)) [
  | inl here ↦ rw (here, clear) (cleared_first here)
  | inr there ↦ rw (there, clear) (Emptied-cons s slots _ (clear-Emptied c slots t))
]
  where
    cleared_first : (s == c) ≡ true → Emptied (s ∷ slots) (some (invalid_sharer ∷ slots))
    cleared_first here = unfold occupied in ground arith

pub add_sharer-count :
    (e : Limited) (id : ℕ)
    → IsCounted e
    → IsTile id
    → Yields
        (λ r.
          IsCounted r.0
          × (r.0.num_tracked_sharers
              ≡ elim r.1 [ true ↦ suc e.num_tracked_sharers | false ↦ e.num_tracked_sharers ]))
        (add_sharer e id)
unfolding add_sharer
add_sharer-count e id h t = Yields-assert _ (not (holds (to_slot id) e.sharers)) _ (λ _.
    elim (fill_lem (to_slot id) e.sharers (omega arith)) [
      | filled r f size occ room d v m ↦
          rw f (record { tracked = omega (arith, occ, h.tracked) }, omega arith)
      | full f size ↦ rw f (h, refl)
    ])

pub remove_sharer-count :
    (e : Limited) (id : ℕ)
    → IsCounted e
    → IsTile id
    → Yields
        (λ e'. IsCounted e' × (suc e'.num_tracked_sharers ≡ e.num_tracked_sharers))
        (remove_sharer e id)
unfolding remove_sharer
remove_sharer-count e id h t =
    go (clear (to_slot id) e.sharers) (clear-Emptied (to_slot id) e.sharers (omega arith))
  where
    go :
        (o : Option (List ℕ))
        → Emptied e.sharers o
        → Yields
            (λ e'. IsCounted e' × (suc e'.num_tracked_sharers ≡ e.num_tracked_sharers))
            (elim o [
              | none ↦ fail log_error
              | some slots ↦
                  ok (record e { sharers = slots; num_tracked_sharers = e.num_tracked_sharers - 1 })
            ])
    go none k = tt
    go (some slots) k =
        (record { tracked = omega (arith, k, h.tracked) }, omega (arith, k, h.tracked))

pub remove_sharer_no_broadcast-count :
    (e : Limited) (id : ℕ)
    → IsCounted e
    → IsTile id
    → Yields
        (λ e'. IsCounted e' × (suc e'.num_tracked_sharers ≡ e.num_tracked_sharers))
        (remove_sharer_no_broadcast e id false)
unfolding remove_sharer_no_broadcast
remove_sharer_no_broadcast-count e id h t = remove_sharer-count e id h t

pub get_sharers_list-Ends : (e : Limited) → Ends (get_sharers_list e)
unfolding get_sharers_list
get_sharers_list-Ends e =
    Yields-assert _ (e.num_tracked_sharers == length (map to_tile (occupied e.sharers))) _ (λ _. tt)

pub next-Ends : (seed limit : ℕ) → Ends (next seed limit)
unfolding next
next-Ends seed limit = Yields-if _ (limit == 0) _ _ (λ _. tt) (λ _. tt)

pub get_one_sharer-Ends : (e : Limited) (seed : ℕ) → Ends (get_one_sharer e seed)
unfolding get_one_sharer
get_one_sharer-Ends e seed =
    Yields-after _ (get_sharers_list e) _ (get_sharers_list-Ends e) (λ (list, all) _.
      Yields-if _ (length list == 0) _ _ (λ _. tt)
        (λ _.
          Yields-after _ (next seed (length list)) _ (next-Ends seed (length list))
            (λ (seed', index) _.
              Yields-after _
                (elim (get_elem? list index) [ none ↦ fail undefined_behaviour | some id ↦ ok id ])
                _ (vector_at-Ends list index) (λ id _. tt))))
