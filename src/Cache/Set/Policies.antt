-- ===== src/Cache/Set/Policies.antt =====
-- Both policies keep the laws that a cache set relies on.
use graphite_atac.Prelude.{
  ℕ, ◌-◌, ◌<◌, ◌≤◌, ◌≡◌, refl, sym, ◌∙◌, List, some, arith, length, get_elem?, ◌==◌, if◌then◌else◌,
  get_elem?-lt, lt_of_get_elem?, get_elem?-set_self, get_elem?-set_ne, set,
}
use graphite_atac.Cache.Replacement.{
  LruReplacementPolicy, lru, RoundRobinReplacementPolicy, round_robin,
  round_robin_get_replacement_way,
}
use graphite_atac.Cache.Replacement.Recency.{Ranks, move_to_front, length-erase, lru_update-Ranks}
use graphite_atac.Cache.Replacement.Victim.{lru_get_replacement_way_lem}
use graphite_atac.Cache.Set.Contents.{NamesWay, TakesNote, PolicyLaws}

-- The set's bits rank its ways.
pub record LruIsGood (p : LruReplacementPolicy) (ways set_num : ℕ) : Type 0 where
  pub same : p.associativity ≡ ways
  pub some_way : 0 < ways
  pub small : ways ≤ 256
  pub bits : List ℕ
  pub order : List ℕ
  pub at_set : get_elem? p.lru_bits_vec set_num ≡ some bits
  pub ranks : Ranks bits order
  pub size : length order ≡ ways

pub lru_names_way : NamesWay lru LruIsGood
lru_names_way = λ p infos set_num g.
    let (way, named, below, _) =
      lru_get_replacement_way_lem p infos set_num g.bits g.order g.at_set g.ranks (sym g.same)
        (g.size ∙ sym g.same) (omega (arith, g.same, g.some_way)) in
    (p, way, named, omega (arith, g.same), g, λ ways other ne h. h)

pub lru_takes_note : TakesNote lru LruIsGood
lru_takes_note = λ p infos set_num way g below.
    let (accessed, at_way) = get_elem?-lt g.bits way (omega (arith, g.size, g.ranks.size)) in
    let (p', bits', noted, same, at_set, ranks, apart) =
      lru_update-Ranks p infos set_num way accessed g.bits g.order g.at_set g.ranks
        (omega (arith, g.size, g.small)) at_way in
    (
      p',
      noted,
      record {
        same = same ∙ g.same;
        some_way = g.some_way;
        small = g.small;
        bits = bits';
        order = move_to_front way g.order;
        at_set = at_set;
        ranks = ranks;
        size = omega (
          arith,
          length-erase g.order way accessed (g.ranks.to_order way accessed at_way),
          g.size,
        );
      },
      λ ways other ne h. record {
        same = same ∙ h.same;
        some_way = h.some_way;
        small = h.small;
        bits = h.bits;
        order = h.order;
        at_set = apart other ne ∙ h.at_set;
        ranks = h.ranks;
        size = h.size;
      },
    )

abbrev pub lru_laws : PolicyLaws lru
lru_laws = record { IsGood = LruIsGood; names_way = lru_names_way; takes_note = lru_takes_note }

pub record RoundRobinIsGood (p : RoundRobinReplacementPolicy) (ways set_num : ℕ) : Type 0 where
  pub same : p.associativity ≡ ways
  pub curr : ℕ
  pub at_set : get_elem? p.replacement_index_vec set_num ≡ some curr
  pub below : curr < ways

pub round_robin_names_way : NamesWay round_robin RoundRobinIsGood
unfolding round_robin_get_replacement_way
round_robin_names_way = λ p infos set_num g.
    let next = if g.curr == 0 then p.associativity - 1 else g.curr - 1 in
    (
      record p { replacement_index_vec = set p.replacement_index_vec set_num next },
      g.curr,
      ground (arith, g.at_set),
      g.below,
      record {
        same = g.same;
        curr = next;
        at_set =
            get_elem?-set_self p.replacement_index_vec set_num next
              (lt_of_get_elem? p.replacement_index_vec set_num g.at_set);
        below = ground (arith, g.same, g.below);
      },
      λ ways other ne h. record {
        same = h.same;
        curr = h.curr;
        at_set = get_elem?-set_ne p.replacement_index_vec next ne ∙ h.at_set;
        below = h.below;
      },
    )

pub round_robin_takes_note : TakesNote round_robin RoundRobinIsGood
round_robin_takes_note = λ p infos set_num way g below. (p, refl, g, λ ways other ne h. h)

abbrev pub round_robin_laws : PolicyLaws round_robin
round_robin_laws = record {
  IsGood = RoundRobinIsGood;
  names_way = round_robin_names_way;
  takes_note = round_robin_takes_note;
}
