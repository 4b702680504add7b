-- ===== src/Markets/Stats.antt =====
-- `getPredictionStats` of backend/src/markets/markets.service.ts: counts and stakes by outcome, with
-- their cache of five minutes.
pub mod Counts
use paya_dev.Base.{ℕ, ◌+◌, ◌-◌, Bool, Option, none, some, List, [], ◌∷◌, ltb, ◌==◌, if◌then◌else◌}
use paya_dev.Base.Int.{ℤ, pos, ◌+ℤ◌}
use paya_dev.Base.Action.{Action, pure, gets, or_throw, ◌>>=◌}
use paya_dev.Entities.{Market, Prediction}
use paya_dev.Table.{Table, count}
use paya_dev.Markets.{Error, market_not_found, has_either_id}

-- `PredictionStatsDto`
pub record Stat : Type 0 where
  pub outcome : ℕ
  pub count : ℕ
  pub total_staked_stroops : ℤ

pub record CachedStats : Type 0 where
  pub stats : List Stat
  pub cached_at : ℕ

pub record StatsStore (M : Table Market) (P : Table Prediction) : Type 0 where
  pub markets : M.Contents
  pub predictions : P.Contents
  pub cache : List (ℕ × CachedStats)

-- `PREDICTION_STATS_CACHE_TTL_MS`
abbrev pub stats_ttl : ℕ
stats_ttl = 300000

-- `Map.set(outcome, { outcome, count: 0, total: '0' })`: a key that is there keeps its place.
open_stat : ℕ → List Stat → List Stat
open_stat o [] = record { outcome = o; count = 0; total_staked_stroops = pos 0 } ∷ []
open_stat o (st ∷ sts) =
    if st.outcome == o
    then record { outcome = o; count = 0; total_staked_stroops = pos 0 } ∷ sts
    else st ∷ open_stat o sts

open_stats : List ℕ → List Stat → List Stat
open_stats [] sts = sts
open_stats (o ∷ os) sts = open_stats os (open_stat o sts)

abbrev bump : Prediction → Stat → Stat
bump p st = record st {
  count = st.count + 1;
  total_staked_stroops = st.total_staked_stroops +ℤ p.stake_amount_stroops;
}

-- `Map.get`, and the change of the object that it gives; a missing key is passed over.
count_in : Prediction → List Stat → List Stat
count_in p [] = []
count_in p (st ∷ sts) =
    if st.outcome == p.chosen_outcome then bump p st ∷ sts else st ∷ count_in p sts

count_all : List Prediction → List Stat → List Stat
count_all [] sts = sts
count_all (p ∷ ps) sts = count_all ps (count_in p sts)

abbrev get_cached : ℕ → List (ℕ × CachedStats) → Option CachedStats
get_cached k [] = none
get_cached k ((j, c) ∷ cs) = if j == k then some c else get_cached k cs

-- A cached value that is still young enough.
abbrev pub fresh : ℕ → Option CachedStats → Option CachedStats
fresh now none = none
fresh now (some c) = if ltb (now - c.cached_at) stats_ttl then some c else none

-- `where: { market: { id: marketId } }`: the id as it was given, not that of the market found.
abbrev pub is_on : ℕ → Prediction → Bool
is_on k p = p.market == k

module _ {M : Table Market} {P : Table Prediction} where
  unfoldable pub prediction_stats : ℕ → ℕ → Action (StatsStore M P) Error (List Stat)
  unfolding open_stat open_stats count_in count_all
  prediction_stats now market_id = do
    market ←
        or_throw (← gets (λ s. M.find_one (has_either_id market_id) s.markets)) market_not_found
    cached ← gets (λ s. fresh now (get_cached market_id s.cache))
    elim cached [
      | some c ↦ pure c.stats
      | none ↦ λ s.
          let stats =
            count_all (P.find (is_on market_id) s.predictions)
              (open_stats market.outcome_options []) in
          pure stats
            (record s { cache = (market_id, record { stats = stats; cached_at = now }) ∷ s.cache })
    ]
