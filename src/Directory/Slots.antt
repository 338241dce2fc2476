-- ===== src/Directory/Slots.antt =====
-- The vector `_sharers` of `DirectoryEntryLimited`: 16-bit slots, kept as bit patterns below 2^16.
use mathlib.Core.Option
use graphite_atac.Prelude.{
  ℕ, suc, ◌-◌, ◌%◌, ◌≤◌, ◌<◌, ◌≡◌, refl, ap, ◌⊎◌, inl, inr, ◌≢◌, Bool, true, false, not, ◌&&◌, ◌||◌,
  Option, none, some, List, [], ◌∷◌, arith, ◌==◌, ltb, if◌then◌else◌, length, ℤ, pos, negsuc, All,
  Bool-cases,
}

abbrev pub invalid_sharer : ℕ
invalid_sharer = 0xffff

-- `(SInt16) id`, as a bit pattern.
abbrev pub to_slot : ℕ → ℕ
to_slot id = id % 0x10000

-- `slot == id`, where the slot is promoted to a 32-bit integer and the id is not negative.
abbrev pub slot_is : ℕ → ℕ → Bool
slot_is slot id = ltb slot 0x8000 && slot == id

-- `(tile_id_t) slot`, with its sign.
abbrev pub to_tile : ℕ → ℤ
to_tile slot = if ltb slot 0x8000 then pos slot else negsuc (0xffff - slot)

unfoldable pub has_slot : ℕ → List ℕ → Bool
has_slot id [] = false
has_slot id (s ∷ slots) = slot_is s id || has_slot id slots

-- Whether some slot has the bit pattern.
unfoldable pub holds : ℕ → List ℕ → Bool
holds c [] = false
holds c (s ∷ slots) = s == c || holds c slots

-- The pattern written to the first free slot, if there is one.
unfoldable pub fill : ℕ → List ℕ → Option (List ℕ)
fill c [] = none
fill c (s ∷ slots) =
    if s == invalid_sharer then some (c ∷ slots) else Option.map (λ r. s ∷ r) (fill c slots)

-- The first slot with the pattern freed, if there is one.
unfoldable pub clear : ℕ → List ℕ → Option (List ℕ)
clear c [] = none
clear c (s ∷ slots) =
    if s == c then some (invalid_sharer ∷ slots) else Option.map (λ r. s ∷ r) (clear c slots)

unfoldable pub occupied : List ℕ → List ℕ
occupied [] = []
occupied (s ∷ slots) = if s == invalid_sharer then occupied slots else s ∷ occupied slots

-- No tile in two slots.
abbrev pub IsDistinct : List ℕ → Type 0
IsDistinct [] = Unit {0}
IsDistinct (s ∷ slots) = (s ≢ invalid_sharer → holds s slots ≡ false) × IsDistinct slots

-- A tile identifier that fits a slot.
abbrev pub IsTile : ℕ → Type 0
IsTile id = id < 0x8000

abbrev pub IsSlot : ℕ → Type 0
IsSlot s = (s ≡ invalid_sharer) ⊎ IsTile s

pub has_slot-holds : (id : ℕ) (slots : List ℕ) → IsTile id → has_slot id slots ≡ holds id slots
unfolding has_slot holds
has_slot-holds id [] h = refl
has_slot-holds id (s ∷ slots) h = ground (arith, has_slot-holds id slots h)

pub length-occupied-le : (slots : List ℕ) → length (occupied slots) ≤ length slots
unfolding occupied
length-occupied-le [] = omega arith
length-occupied-le (s ∷ slots) = ground (arith, length-occupied-le slots)

IsSlot-IsTile : {s : ℕ} → IsSlot s → s ≢ invalid_sharer → IsTile s
IsSlot-IsTile (inl e) u = absurd (u e)
IsSlot-IsTile (inr t) u = t

fill-apart :
    (c s : ℕ) (slots r : List ℕ)
    → IsSlot s
    → (s ≢ invalid_sharer → holds s slots ≡ false)
    → ((j : ℕ) → IsTile j → holds j r ≡ (c == j || holds j slots))
    → s ≢ invalid_sharer
    → holds c (s ∷ slots) ≡ false
    → holds s r ≡ false
unfolding holds
fill-apart c s slots r k d q u new = ground (arith, q s (IsSlot-IsTile k u), d u)

new_tail : (c s : ℕ) (slots : List ℕ) → holds c (s ∷ slots) ≡ false → holds c slots ≡ false
unfolding holds
new_tail c s slots new = ground arith

-- What `fill` does.
pub data Filled (c : ℕ) (slots : List ℕ) : Type 0 where
  filled :
      (r : List ℕ)
      → fill c slots ≡ some r
      → length r ≡ length slots
      → length (occupied r) ≡ suc (length (occupied slots))
      → length (occupied slots) < length slots
      → (holds c slots ≡ false → IsDistinct slots → All IsSlot slots → IsDistinct r)
      → (All IsSlot slots → All IsSlot r)
      → ((j : ℕ) → IsTile j → holds j r ≡ (c == j || holds j slots))
      → Filled c slots
  full : fill c slots ≡ none → length (occupied slots) ≡ length slots → Filled c slots

pub fill_lem : (c : ℕ) (slots : List ℕ) → IsTile c → Filled c slots
unfolding fill occupied holds
fill_lem c [] h = full refl refl
fill_lem c (s ∷ slots) h = elim (Bool-cases (s == invalid_sharer)) [
  | inl free ↦
      filled (c ∷ slots) (rw free) refl (ground arith) (ground (arith, length-occupied-le slots))
        (λ new d _. ((λ _. new_tail c s slots new), d.1)) (λ v. (inr h, v.1)) (λ j t. ground arith)
  | inr used ↦ elim (fill_lem c slots h) [
    | filled r e l o p d v q ↦
        filled (s ∷ r) (rw (used, e)) (ap suc l) (ground arith) (ground arith)
          (λ new w k.
            ((λ u. fill-apart c s slots r k.0 w.0 q u new), d (new_tail c s slots new) w.1 k.1))
          (λ w. (w.0, v w.1)) (λ j t. ground (arith, q j t))
    | full e o ↦ full (rw (used, e)) (ground arith)
  ]
]

-- What `clear` does, if no tile is in two slots.
pub data Cleared (c : ℕ) (slots : List ℕ) : Type 0 where
  cleared :
      (r : List ℕ)
      → clear c slots ≡ some r
      → holds c slots ≡ true
      → length r ≡ length slots
      → suc (length (occupied r)) ≡ length (occupied slots)
      → IsDistinct r
      → All IsSlot r
      → ((j : ℕ) → IsTile j → holds j r ≡ (holds j slots && not (c == j)))
      → Cleared c slots
  absent : clear c slots ≡ none → holds c slots ≡ false → Cleared c slots

pub clear_lem :
    (c : ℕ) (slots : List ℕ) → IsTile c → IsDistinct slots → All IsSlot slots → Cleared c slots
unfolding clear occupied holds
clear_lem c [] h d v = absent refl refl
clear_lem c (s ∷ slots) h d v = elim (Bool-cases (s == c)) [
  | inl here ↦
      cleared (invalid_sharer ∷ slots) (rw here) (ground arith) refl (ground arith)
        ((λ e. absurd (e refl)), d.1) (inl refl, v.1) (λ j t. ground (arith, d.0 (ground arith)))
  | inr there ↦ elim (clear_lem c slots h d.1 v.1) [
    | cleared r e m l o w u q ↦
        cleared (s ∷ r) (rw (there, e)) (ground arith) (ap suc l) (ground arith)
          ((λ u. ground (arith, q s (IsSlot-IsTile v.0 u), d.0 u)), w) (v.0, u)
          (λ j t. ground (arith, q j t))
    | absent e m ↦ absent (rw (there, e)) (ground arith)
  ]
]
