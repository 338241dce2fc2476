-- ===== src/Cache/Misses/History.antt =====
-- The type of a miss is what happened last to the address.
use mathlib.Core.Path.{subst}
use graphite_atac.Prelude.{
  ℕ, ◌≡◌, refl, sym, ◌∙◌, ◌==◌, ◌⊎◌, inl, inr, true, false, if◌then◌else◌, arith, Bool-cases, ◌≢◌,
  ==_iff, ap,
}
use graphite_atac.Cache.Misses.{
  add, erase, Tracking, MissType, cold_miss, capacity_miss, sharing_miss, no_addresses,
  get_miss_type, clear_miss_type_tracking_sets, track_eviction, track_insertion, track_invalidation,
}

pub data Status : Type 0 where
  never_cached cached evicted invalidated : Status

pub data Event : Type 0 where
  eviction insertion invalidation : ℕ → Event

-- The status of each address after an event.
abbrev pub after : Event → (ℕ → Status) → ℕ → Status
after (eviction e) status a = if e == a then evicted else status a
after (insertion e) status a = if e == a then cached else status a
after (invalidation e) status a = if e == a then invalidated else status a

-- Only a line that is in the cache leaves it, and only one that is not in the cache is inserted.
abbrev pub CanOccur : Event → (ℕ → Status) → Type 0
CanOccur (eviction e) status = status e ≡ cached
CanOccur (insertion e) status = status e ≢ cached
CanOccur (invalidation e) status = status e ≡ cached

unfoldable pub track : Event → Tracking → Tracking
track (eviction e) t = track_eviction t e
track (insertion e) t = track_insertion t e
track (invalidation e) t = track_invalidation t e

-- The sets after a history, and the status of each address by then.
pub data Reachable : Tracking → (ℕ → Status) → Type 0 where
  start : Reachable no_addresses (λ a. never_cached)
  next :
      (event : Event) (t : Tracking) (status : ℕ → Status)
      → Reachable t status
      → CanOccur event status
      → Reachable (track event t) (after event status)

-- What the sets say of an address with that status.
abbrev Agrees : Status → Tracking → ℕ → Type 0
Agrees never_cached t a = (t.fetched a ≡ false) × (t.evicted a ≡ false) × (t.invalidated a ≡ false)
Agrees cached t a = (t.fetched a ≡ true) × (t.evicted a ≡ false) × (t.invalidated a ≡ false)
Agrees evicted t a = (t.fetched a ≡ true) × (t.evicted a ≡ true) × (t.invalidated a ≡ false)
Agrees invalidated t a = (t.fetched a ≡ true) × (t.evicted a ≡ false) × (t.invalidated a ≡ true)

eviction_self :
    (s : Status) (t : Tracking) (a : ℕ)
    → Agrees s t a
    → s ≡ cached
    → Agrees evicted (track (eviction a) t) a
unfolding track track_eviction add
eviction_self cached t a h c = ground arith
eviction_self s t a h c = cc

invalidation_self :
    (s : Status) (t : Tracking) (a : ℕ)
    → Agrees s t a
    → s ≡ cached
    → Agrees invalidated (track (invalidation a) t) a
unfolding track track_invalidation add
invalidation_self cached t a h c = ground arith
invalidation_self s t a h c = cc

insertion_self :
    (s : Status) (t : Tracking) (a : ℕ)
    → Agrees s t a
    → s ≢ cached
    → Agrees cached (track (insertion a) t) a
unfolding track track_insertion clear_miss_type_tracking_sets add erase
insertion_self never_cached t a h c = ground arith
insertion_self cached t a h c = absurd (c refl)
insertion_self evicted t a h c = ground arith
insertion_self invalidated t a h c = ground arith

-- No event touches another address.
others :
    (event : Event) (t : Tracking) (e a : ℕ)
    → event ≡ eviction e ⊎ (event ≡ insertion e ⊎ event ≡ invalidation e)
    → (e == a) ≡ false
    → ((track event t).fetched a ≡ t.fetched a)
      × ((track event t).evicted a ≡ t.evicted a)
      × ((track event t).invalidated a ≡ t.invalidated a)
unfolding track track_eviction track_insertion track_invalidation clear_miss_type_tracking_sets add
    erase
others (eviction e') t e a h ne = ground arith
others (insertion e') t e a h ne = ground arith
others (invalidation e') t e a h ne = ground arith

Agrees-other :
    (s : Status) (t t' : Tracking) (a : ℕ)
    → (t'.fetched a ≡ t.fetched a)
      × (t'.evicted a ≡ t.evicted a)
      × (t'.invalidated a ≡ t.invalidated a)
    → Agrees s t a
    → Agrees s t' a
Agrees-other never_cached t t' a e h = ground arith
Agrees-other cached t t' a e h = ground arith
Agrees-other evicted t t' a e h = ground arith
Agrees-other invalidated t t' a e h = ground arith

track-Agrees :
    (event : Event) (t : Tracking) (status : ℕ → Status) (a : ℕ)
    → Agrees (status a) t a
    → CanOccur event status
    → Agrees (after event status a) (track event t) a
track-Agrees (eviction e) t status a h can = elim (Bool-cases (e == a)) [
  | inl same ↦
      let e_eq : e ≡ a = (==_iff e a).0 same in
      rw same (
        subst (λ x. Agrees evicted (track (eviction x) t) a) (sym e_eq)
          (eviction_self (status a) t a h (ap status (sym e_eq) ∙ can)))
  | inr ne ↦ rw ne (
      Agrees-other (status a) t (track (eviction e) t) a (others (eviction e) t e a (inl refl) ne)
        h)
]
track-Agrees (insertion e) t status a h can = elim (Bool-cases (e == a)) [
  | inl same ↦
      let e_eq : e ≡ a = (==_iff e a).0 same in
      rw same (
        subst (λ x. Agrees cached (track (insertion x) t) a) (sym e_eq)
          (insertion_self (status a) t a h (λ c. can (ap status e_eq ∙ c))))
  | inr ne ↦ rw ne (
      Agrees-other (status a) t (track (insertion e) t) a
        (others (insertion e) t e a (inr (inl refl)) ne) h)
]
track-Agrees (invalidation e) t status a h can = elim (Bool-cases (e == a)) [
  | inl same ↦
      let e_eq : e ≡ a = (==_iff e a).0 same in
      rw same (
        subst (λ x. Agrees invalidated (track (invalidation x) t) a) (sym e_eq)
          (invalidation_self (status a) t a h (ap status (sym e_eq) ∙ can)))
  | inr ne ↦ rw ne (
      Agrees-other (status a) t (track (invalidation e) t) a
        (others (invalidation e) t e a (inr (inr refl)) ne) h)
]

Reachable-Agrees :
    {t : Tracking} {status : ℕ → Status} → Reachable t status → (a : ℕ) → Agrees (status a) t a
Reachable-Agrees start a = (refl, refl, refl)
Reachable-Agrees (next event t status r can) a =
    track-Agrees event t status a (Reachable-Agrees r a) can

abbrev pub miss_of : Status → MissType
miss_of never_cached = cold_miss
miss_of cached = sharing_miss
miss_of evicted = capacity_miss
miss_of invalidated = sharing_miss

miss_type-Agrees :
    (s : Status) (t : Tracking) (a : ℕ) → Agrees s t a → get_miss_type t a ≡ miss_of s
unfolding get_miss_type
miss_type-Agrees never_cached t a h = ground arith
miss_type-Agrees cached t a h = ground arith
miss_type-Agrees evicted t a h = ground arith
miss_type-Agrees invalidated t a h = ground arith

-- After a history in which only lines in the cache leave it and only others are inserted, the type
-- of a miss is what happened last to the address.
pub get_miss_type-Reachable :
    (t : Tracking) (status : ℕ → Status) (a : ℕ)
    → Reachable t status
    → get_miss_type t a ≡ miss_of (status a)
get_miss_type-Reachable t status a r = miss_type-Agrees (status a) t a (Reachable-Agrees r a)
