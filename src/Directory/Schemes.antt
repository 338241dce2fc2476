-- ===== src/Directory/Schemes.antt =====
-- The schemes behind the directory's interface (`DirectoryEntry::create` of directory_entry.cc, and
-- the virtual methods): an entry keeps the seed of its random generator, which starts at 1.
pub mod Limits
pub mod Laws
use graphite_atac.Prelude.{ℕ, Bool, true, false, List, ℤ, Result, ok, fail, ◌>>=◌}
use graphite_atac.Directory.Entry.{Scheme}
use graphite_atac.Directory.Limited
use graphite_atac.Directory.Limited.{Limited, new_limited}
use graphite_atac.BitVector.{BitVector}
use graphite_atac.Directory.FullMap
use graphite_atac.Directory.Ackwise
use graphite_atac.Directory.Ackwise.{Ackwise, new_ackwise}

pub record Seeded (S : Type 0) : Type 0 where
  pub entry : S
  pub seed : ℕ

-- The scheme limited_no_broadcast.
unfoldable pub limited_scheme : ℕ → Scheme (Seeded Limited)
limited_scheme max_hw_sharers = record {
  new_sharers = record { entry = new_limited max_hw_sharers; seed = 1 };
  has_sharer = λ e id. ok (Limited.has_sharer e.entry id);
  add_sharer = λ e id. do
    (entry, added) ← Limited.add_sharer e.entry id
    ok (record e { entry = entry }, added);
  remove_sharer = λ e id. do
    entry ← Limited.remove_sharer_no_broadcast e.entry id false
    ok (record e { entry = entry });
  get_sharers_list = λ e. Limited.get_sharers_list e.entry;
  get_one_sharer = λ e. do
    (seed, id) ← Limited.get_one_sharer e.entry e.seed
    ok (record e { seed = seed }, id);
  get_num_sharers = λ e. Limited.get_num_sharers e.entry;
  get_latency = λ e. 0;
}

unfoldable pub ackwise_scheme : ℕ → Scheme (Seeded Ackwise)
ackwise_scheme max_hw_sharers = record {
  new_sharers = record { entry = new_ackwise max_hw_sharers; seed = 1 };
  has_sharer = λ e id. ok (Limited.has_sharer e.entry.base id);
  add_sharer = λ e id. do
    (entry, added) ← Ackwise.add_sharer e.entry id
    ok (record e { entry = entry }, added);
  remove_sharer = λ e id. do
    entry ← Ackwise.remove_sharer e.entry id false
    ok (record e { entry = entry });
  get_sharers_list = λ e. Ackwise.get_sharers_list e.entry;
  get_one_sharer = λ e. do
    (seed, id) ← Limited.get_one_sharer e.entry.base e.seed
    ok (record e { seed = seed }, id);
  get_num_sharers = λ e. Ackwise.get_num_sharers e.entry;
  get_latency = λ e. 0;
}

-- The position of the search is reset before each use, and is not kept.
unfoldable pub full_map_scheme : ℕ → Scheme (Seeded BitVector)
full_map_scheme max_num_sharers = record {
  new_sharers = record { entry = FullMap.new_full_map max_num_sharers; seed = 1 };
  has_sharer = λ e id. FullMap.has_sharer e.entry id;
  add_sharer = λ e id. do
    (entry, added) ← FullMap.add_sharer e.entry id
    ok (record e { entry = entry }, added);
  remove_sharer = λ e id. do
    entry ← FullMap.remove_sharer e.entry id false
    ok (record e { entry = entry });
  get_sharers_list = λ e. do
    (entry, list, all) ← FullMap.get_sharers_list e.entry
    ok (list, all);
  get_one_sharer = λ e. do
    (entry, seed, id) ← FullMap.get_one_sharer e.entry e.seed
    ok (record { entry = entry; seed = seed }, id);
  get_num_sharers = λ e. FullMap.get_num_sharers e.entry;
  get_latency = λ e. FullMap.get_latency e.entry;
}
