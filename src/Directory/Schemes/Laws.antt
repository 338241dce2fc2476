-- ===== src/Directory/Schemes/Laws.antt =====
-- Both schemes keep the laws that the directory controller relies on.
use mathlib.Core.Path.{subst}
use graphite_atac.Prelude.{
  ℕ, suc, ◌+◌, ◌^◌, ap, ◌∙◌, ◌-◌, ◌<◌, ◌==◌, ◌&&◌, ◌≡◌, refl, sym, Bool, true, false, ltb, ltb→lt,
  if◌then◌else◌, Yields, Yields-bind, Yields-after, Yields-assert, Yields-if, arith,
}
use graphite_atac.Directory.Slots.{IsTile}
use graphite_atac.Directory.Entry.Counts.{SchemeLaws}
use graphite_atac.Directory.Limited
use graphite_atac.Directory.Limited.{Limited}
use graphite_atac.Directory.Ackwise
use graphite_atac.Directory.Ackwise.{
  Ackwise, new_ackwise, enable_global, drop_untracked, remove_tracked,
}
use graphite_atac.Directory.FullMap
use graphite_atac.Directory.FullMap.Laws
use graphite_atac.BitVector.{new_bit_vector, reset_find}
use graphite_atac.BitVector.Count
use graphite_atac.Directory.Schemes.{limited_scheme, ackwise_scheme, full_map_scheme}
use graphite_atac.Directory.Schemes.Limits
use graphite_atac.Directory.Schemes.Limits.{IsCounted}

-- Nothing is counted apart from the tracked sharers unless the entry says so.
abbrev Flagged : Bool → ℕ → Type 0
Flagged false untracked = untracked ≡ 0
Flagged true untracked = 0 < untracked

record Counted (e : Ackwise) : Type 0 where
  pub base : IsCounted e.base
  pub flag : Flagged e.global_enabled e.num_untracked_sharers

abbrev total : Ackwise → ℕ
total e = e.base.num_tracked_sharers + e.num_untracked_sharers

Added : Ackwise → Ackwise × Bool → Type 0
Added e r = Counted r.0 × (total r.0 ≡ elim r.1 [ true ↦ suc (total e) | false ↦ total e ])

add_sharer-Added :
    (e : Ackwise) (id : ℕ) (g : Bool)
    → e.global_enabled ≡ g
    → Counted e
    → IsTile id
    → Yields (Added e) (Ackwise.add_sharer e id)
unfolding Added Ackwise.add_sharer enable_global
add_sharer-Added e id true u h t =
    rw (u, Ackwise.add_sharer)
      (
        record {
          base = h.base;
          flag = subst (λ b. Flagged b (e.num_untracked_sharers + 1)) (sym u) (omega arith);
        },
        omega arith,
      )
add_sharer-Added e id false u h t =
    let none_untracked = subst (λ b. Flagged b e.num_untracked_sharers) u h.flag in
    rw (u, Ackwise.add_sharer)
      (Yields-bind _ _ (Limited.add_sharer e.base id) _ (Limits.add_sharer-count e.base id h.base t)
        (λ (base, added) _ (counted, size).
          Yields-if _ added _ _
            (λ yes_added. (record { base = counted; flag = h.flag }, ground (arith, size)))
            (λ not_added. Yields-assert _ (e.num_untracked_sharers == 0 && _) _ (λ _. (
              record { base = counted; flag = omega arith },
              ground (arith, size, none_untracked),
            )))))

Removed : Ackwise → Ackwise → Type 0
Removed e e' = Counted e' × (suc (total e') ≡ total e)

remove_tracked-Removed :
    (e : Ackwise) (id : ℕ) → Counted e → IsTile id → Yields (Removed e) (remove_tracked e id)
unfolding Removed remove_tracked
remove_tracked-Removed e id h t =
    Yields-bind _ _ (Limited.remove_sharer e.base id) _
      (Limits.remove_sharer-count e.base id h.base t)
      (λ base _ (counted, size). (record { base = counted; flag = h.flag }, omega (arith, size)))

drop_untracked-Removed :
    (e : Ackwise)
    → Counted e
    → e.global_enabled ≡ true
    → 0 < e.num_untracked_sharers
    → Removed e (drop_untracked e)
unfolding Removed drop_untracked
drop_untracked-Removed e h u some_left =
    (record { base = h.base; flag = flag (e.num_untracked_sharers - 1 == 0) refl }, omega arith)
  where
    flag :
        (b : Bool)
        → (e.num_untracked_sharers - 1 == 0) ≡ b
        → Flagged (if b then false else e.global_enabled) (e.num_untracked_sharers - 1)
    flag true none_left = ground arith
    flag false some_more =
        subst (λ g. Flagged g (e.num_untracked_sharers - 1)) (sym u) (ground arith)

remove_sharer-Removed :
    (e : Ackwise) (id : ℕ) (g : Bool)
    → e.global_enabled ≡ g
    → Counted e
    → IsTile id
    → Yields (Removed e) (Ackwise.remove_sharer e id false)
unfolding Ackwise.remove_sharer Removed
remove_sharer-Removed e id false u h t =
    rw (u, Ackwise.remove_sharer) (remove_tracked-Removed e id h t)
remove_sharer-Removed e id true u h t =
    rw (u, Ackwise.remove_sharer)
      (Yields-assert _ (ltb 0 e.num_untracked_sharers) _ (λ some_left.
        Yields-if _ (Limited.has_sharer e.base id) _ _ (λ _. remove_tracked-Removed e id h t)
          (λ _. drop_untracked-Removed e h u (ltb→lt _ _ some_left))))

pub limited_scheme-laws : (max : ℕ) → SchemeLaws (limited_scheme max)
unfolding limited_scheme Limited.get_num_sharers Limited.new_limited
limited_scheme-laws max = record {
  IsCounted = λ e. IsCounted e.entry;
  new_sharers-IsCounted = Limits.new_limited-IsCounted max;
  new_sharers-count = refl;
  add_sharer-count = λ e id h t.
      Yields-bind _ _ (Limited.add_sharer e.entry id) _ (Limits.add_sharer-count e.entry id h t)
        (λ (entry, added) _ k. k);
  remove_sharer-count = λ e id h t.
      Yields-bind _ _ (Limited.remove_sharer_no_broadcast e.entry id false) _
        (Limits.remove_sharer_no_broadcast-count e.entry id h t) (λ entry _ k. k);
  get_one_sharer-count = λ e h.
      Yields-after _ (Limited.get_one_sharer e.entry e.seed) _
        (Limits.get_one_sharer-Ends e.entry e.seed) (λ _ _. (h, refl));
  has_sharer-Ends = λ e id. tt;
  get_sharers_list-Ends = λ e. Limits.get_sharers_list-Ends e.entry;
}

pub ackwise_scheme-laws : (max : ℕ) → SchemeLaws (ackwise_scheme max)
unfolding ackwise_scheme Ackwise.get_num_sharers Ackwise.get_sharers_list new_ackwise Added Removed
    Limited.new_limited
ackwise_scheme-laws max = record {
  IsCounted = λ e. Counted e.entry;
  new_sharers-IsCounted = record { base = Limits.new_limited-IsCounted max; flag = refl };
  new_sharers-count = refl;
  add_sharer-count = λ e id h t.
      Yields-bind _ _ (Ackwise.add_sharer e.entry id) _ (add_sharer-Added e.entry id _ refl h t)
        (λ (entry, added) _ k. k);
  remove_sharer-count = λ e id h t.
      Yields-bind _ _ (Ackwise.remove_sharer e.entry id false) _
        (remove_sharer-Removed e.entry id _ refl h t) (λ entry _ k. k);
  get_one_sharer-count = λ e h.
      Yields-after _ (Limited.get_one_sharer e.entry.base e.seed) _
        (Limits.get_one_sharer-Ends e.entry.base e.seed) (λ _ _. (h, refl));
  has_sharer-Ends = λ e id. tt;
  get_sharers_list-Ends = λ e.
      Yields-after _ (Limited.get_sharers_list e.entry.base) _
        (Limits.get_sharers_list-Ends e.entry.base) (λ _ _. tt);
}

pub full_map_scheme-laws : (max : ℕ) → max < 2 ^ 31 → SchemeLaws (full_map_scheme max)
unfolding full_map_scheme FullMap.new_full_map FullMap.get_num_sharers new_bit_vector
    FullMap.has_sharer reset_find
full_map_scheme-laws max h = record {
  IsCounted = λ e. Count.IsCounted e.entry;
  new_sharers-IsCounted = Count.new_bit_vector-IsCounted max h;
  new_sharers-count = refl;
  add_sharer-count = λ e id h t.
      Yields-bind _ _ (FullMap.add_sharer e.entry id) _ (Laws.add_sharer-count e.entry id h)
        (λ (entry, added) _ (counted, size, always). (
          counted,
          size ∙ ap (λ b. elim b [ true ↦ suc e.entry.size | false ↦ e.entry.size ]) (sym always),
        ));
  remove_sharer-count = λ e id h t.
      Yields-bind _ _ (FullMap.remove_sharer e.entry id false) _
        (Laws.remove_sharer-count e.entry id h) (λ entry _ k. k);
  get_one_sharer-count = λ e h.
      Yields-bind _ _ (FullMap.get_one_sharer e.entry e.seed) _
        (Laws.get_one_sharer-Kept e.entry e.seed)
        (λ (entry, seed, id) _ same.
          subst (λ w. Count.IsCounted w × (w.size ≡ e.entry.size)) (sym same)
            (record { counted = h.counted; covers = h.covers; short = h.short }, refl));
  has_sharer-Ends = λ e id. Laws.at_bit-Ends e.entry id;
  get_sharers_list-Ends = λ e.
      Yields-bind _ _ (FullMap.get_sharers_list e.entry) _ (Laws.get_sharers_list-Kept e.entry)
        (λ _ _ _. tt);
}
