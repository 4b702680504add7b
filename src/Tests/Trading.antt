-- ===== src/Tests/Trading.antt =====
-- The markets service on tables held in memory.
use paya_dev.Base.{◌+◌, ◌≤◌, ◌≡◌, refl, true, none, some, List, [], ◌∷◌, is_some, arith}
use paya_dev.Base.Int.{pos, ◌+ℤ◌, pos_part, neg_part}
use paya_dev.Base.Action.{ok}
use paya_dev.Entities.{Market, Prediction}
use paya_dev.Table.{count}
use paya_dev.Table.Memory.{memory}
use paya_dev.Markets.{Store, Comment, Bookmark, CreateMarket}
use paya_dev.Markets.Changes.{resolves, cancels}
use paya_dev.Markets.Final.{is_settled, is_void, perform_all, perform_all_final, AreUnique}
use paya_dev.Markets.Bulk.{Item, create_bulk, Atomic, create_bulk-Atomic}
use paya_dev.Markets.Stats.{StatsStore, Stat, prediction_stats}
use paya_dev.Markets.Stats.Counts.{prediction_stats_count, stat_of, count_of, staked_of}
use paya_dev.Tests.Samples.{ann, derby, settled_derby, anns_bet}

abbrev MemoryStore : Type 0
MemoryStore = Store (memory Market) (memory Comment) (memory Bookmark)

abbrev with_market : Market → MemoryStore
with_market m = record {
  markets = m ∷ [];
  comments = [];
  bookmarks = [];
  trending_cache = none;
  calls = [];
  events = [];
}

settled-AreUnique :
    AreUnique (memory Market) (memory Comment) (memory Bookmark) (with_market settled_derby).markets
settled-AreUnique k = ground arith

perform_all_final_example :
    (1
      ≤ count
          (memory Market)
          (is_settled 5 2)
          (perform_all
            (memory Market)
            (memory Comment)
            (memory Bookmark)
            (resolves 1600 (some tt) 5 1 ∷ cancels 600 (some 1) true 5 ann ∷ [])
            (with_market settled_derby)).markets)
    × (0
        ≤ count
            (memory Market)
            (is_void 5)
            (perform_all
              (memory Market)
              (memory Comment)
              (memory Bookmark)
              (resolves 1600 (some tt) 5 1 ∷ cancels 600 (some 1) true 5 ann ∷ [])
              (with_market settled_derby)).markets)
perform_all_final_example =
    perform_all_final (memory Market) (memory Comment) (memory Bookmark)
      (resolves 1600 (some tt) 5 1 ∷ cancels 600 (some 1) true 5 ann ∷ [])
      (with_market settled_derby) 5 2 settled-AreUnique

abbrev two_items : List Item
two_items =
    let dto : CreateMarket = record {
      title = 7;
      description = 0;
      category = 0;
      outcome_options = 1 ∷ 2 ∷ [];
      end_time = 900;
      resolution_time = 950;
      is_public = true;
    } in
    (dto, some 61, 11) ∷ (dto, some 62, 12) ∷ []

create_bulk-Atomic_example :
    Atomic
      (memory Market)
      (memory Comment)
      (memory Bookmark)
      two_items
      (with_market derby)
      (create_bulk 100 two_items ann (with_market derby))
create_bulk-Atomic_example =
    create_bulk-Atomic (memory Market) (memory Comment) (memory Bookmark) 100 two_items ann
      (with_market derby)

abbrev betting : StatsStore (memory Market) (memory Prediction)
betting = record { markets = derby ∷ []; predictions = anns_bet ∷ []; cache = [] }

abbrev derby_stats : List Stat
derby_stats =
    record { outcome = 1; count = 0; total_staked_stroops = pos 0 }
    ∷ record { outcome = 2; count = 1; total_staked_stroops = pos 30 }
    ∷ []

prediction_stats_runs : prediction_stats 600 5 betting ≡ (
  ok derby_stats,
  record betting { cache = (5, record { stats = derby_stats; cached_at = 600 }) ∷ [] },
)
unfolding prediction_stats ◌+ℤ◌
prediction_stats_runs = refl

prediction_stats_count_example :
    (is_some (stat_of 2 derby_stats) ≡ true)
    × (count_of (stat_of 2 derby_stats) ≡ 1)
    × (pos_part (staked_of (stat_of 2 derby_stats)) + 0
        ≡ neg_part (staked_of (stat_of 2 derby_stats)) + 30)
prediction_stats_count_example =
    prediction_stats_count (memory Market) (memory Prediction) 600 5 2 betting
      (record betting { cache = (5, record { stats = derby_stats; cached_at = 600 }) ∷ [] }) derby
      derby_stats refl refl prediction_stats_runs refl
