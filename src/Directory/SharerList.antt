-- ===== src/Directory/SharerList.antt =====
-- What a directory entry stands for: the list of the tiles that share the line, each once.
use graphite_atac.Prelude.{
  ℕ, suc, ◌<◌, ◌≡◌, refl, true, false, not, ◌&&◌, ◌||◌, List, [], ◌∷◌, arith, ◌==◌, if◌then◌else◌,
  length, All,
}
use graphite_atac.Directory.Slots.{holds, IsTile}

abbrev pub AllApart : List ℕ → Type 0
AllApart [] = Unit {0}
AllApart (s ∷ l) = (holds s l ≡ false) × AllApart l

pub record IsSharers (l : List ℕ) : Type 0 where
  pub apart : AllApart l
  pub tiles : All IsTile l

-- The list without its first `c`.
unfoldable pub erase : ℕ → List ℕ → List ℕ
erase c [] = []
erase c (s ∷ l) = if s == c then l else s ∷ erase c l

pub holds-erase :
    (c : ℕ) (l : List ℕ) (j : ℕ) → AllApart l → holds j (erase c l) ≡ (holds j l && not (c == j))
unfolding holds erase
holds-erase c [] j a = refl
holds-erase c (s ∷ l) j a = ground (arith, a.0, holds-erase c l j a.1)

pub length-erase : (c : ℕ) (l : List ℕ) → holds c l ≡ true → suc (length (erase c l)) ≡ length l
unfolding holds erase
length-erase c [] h = cc
length-erase c (s ∷ l) h = ground (arith, length-erase c l)

pub erase-AllApart : (c : ℕ) (l : List ℕ) → AllApart l → AllApart (erase c l)
unfolding erase
erase-AllApart c [] a = tt
erase-AllApart c (s ∷ l) a = ground (arith, holds-erase c l s a.1, erase-AllApart c l a.1)

erase-tiles : (c : ℕ) (l : List ℕ) → All IsTile l → All IsTile (erase c l)
unfolding erase
erase-tiles c [] t = tt
erase-tiles c (s ∷ l) t = ground (arith, erase-tiles c l t.1)

pub cons-IsSharers :
    (c : ℕ) (l : List ℕ) → IsTile c → holds c l ≡ false → IsSharers l → IsSharers (c ∷ l)
cons-IsSharers c l t h v = record { apart = (h, v.apart); tiles = (t, v.tiles) }

pub erase-IsSharers : (c : ℕ) (l : List ℕ) → IsSharers l → IsSharers (erase c l)
erase-IsSharers c l v = record {
  apart = erase-AllApart c l v.apart;
  tiles = erase-tiles c l v.tiles;
}

pub holds-cons : (c : ℕ) (l : List ℕ) (j : ℕ) → holds j (c ∷ l) ≡ (c == j || holds j l)
unfolding holds
holds-cons c l j = refl

pub holds-nil : (j : ℕ) → holds j [] ≡ false
unfolding holds
holds-nil j = refl

pub length_of_holds : (c : ℕ) (l : List ℕ) → holds c l ≡ true → 0 < length l
unfolding holds
length_of_holds c [] h = cc
length_of_holds c (s ∷ l) h = omega arith
