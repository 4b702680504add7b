-- ===== src/Predictions/Writing.antt =====
-- The writes of an accepted prediction, and the books.
use paya_dev.Base.{ℕ, ◌≤◌, ◌≡◌, refl, true, arith, ◌==◌}
use paya_dev.Base.Int.{pos_part, neg_part}
use paya_dev.Entities.{User, Market, Prediction, is_market, is_user}
use paya_dev.Table.{Table, count}
use paya_dev.Table.Laws.{count-insert_le_one, count-update_same}
use paya_dev.Predictions.{Store, is_prediction_of, add_participant, add_prediction}
use paya_dev.Predictions.Ledger.{
  at, MarketBalanced, UserBalanced, IsBalanced, pool-add_participant, participants-add_participant,
  staked-add_prediction, predictions-add_prediction,
}

module _ (P : Table Prediction) (M : Table Market) (U : Table User) where
  -- The writes of an accepted prediction.
  abbrev pub written : Prediction → Store P M U → Store P M U
  written p s = record s {
    predictions = P.insert p s.predictions;
    markets = M.update (is_market p.market) (add_participant p.stake_amount_stroops) s.markets;
    users = U.update (is_user p.user) (add_prediction p.stake_amount_stroops) s.users;
  }

  written-MarketBalanced :
      (p : Prediction) (k : ℕ) (s : Store P M U)
      → ((j : ℕ) → MarketBalanced P M U j s)
      → 1 ≤ count M (is_market p.market) s.markets
      → MarketBalanced P M U k (written p s)
  written-MarketBalanced p k s b there =
      let stake = p.stake_amount_stroops in
      let one : count M (is_market p.market) s.markets ≡ 1 = omega (arith, (b p.market).unique) in
      record {
        unique = omega (
          arith,
          (b k).unique,
          count-update_same M (is_market k) (is_market p.market) (add_participant stake) s.markets
              (λ m. refl),
        );
        counted = omega (
          arith,
          (b k).counted,
          participants-add_participant M s.markets p.market k stake one,
          P.total_insert (λ q. at (q.market == k) 1) p s.predictions,
        );
        pooled = omega (
          arith,
          (b k).pooled,
          pool-add_participant M s.markets p.market k stake one,
          P.total_insert (λ q. at (q.market == k) (pos_part q.stake_amount_stroops)) p
              s.predictions,
          P.total_insert (λ q. at (q.market == k) (neg_part q.stake_amount_stroops)) p
              s.predictions,
        );
      }

  written-UserBalanced :
      (p : Prediction) (k : ℕ) (s : Store P M U)
      → ((j : ℕ) → UserBalanced P M U j s)
      → 1 ≤ count U (is_user p.user) s.users
      → UserBalanced P M U k (written p s)
  written-UserBalanced p k s b there =
      let stake = p.stake_amount_stroops in
      let one : count U (is_user p.user) s.users ≡ 1 = omega (arith, (b p.user).unique) in
      record {
        unique = omega (
          arith,
          (b k).unique,
          count-update_same U (is_user k) (is_user p.user) (add_prediction stake) s.users
              (λ u. refl),
        );
        counted = omega (
          arith,
          (b k).counted,
          predictions-add_prediction U s.users p.user k stake one,
          P.total_insert (λ q. at (q.user == k) 1) p s.predictions,
        );
        staked = omega (
          arith,
          (b k).staked,
          staked-add_prediction U s.users p.user k stake one,
          P.total_insert (λ q. at (q.user == k) (pos_part q.stake_amount_stroops)) p s.predictions,
          P.total_insert (λ q. at (q.user == k) (neg_part q.stake_amount_stroops)) p s.predictions,
        );
      }

  pub written-IsBalanced :
      (p : Prediction) (s : Store P M U)
      → IsBalanced P M U s
      → 1 ≤ count M (is_market p.market) s.markets
      → 1 ≤ count U (is_user p.user) s.users
      → count P (is_prediction_of p.user p.market) s.predictions ≡ 0
      → IsBalanced P M U (written p s)
  written-IsBalanced p s b m u free = record {
    markets = λ k. written-MarketBalanced p k s b.markets m;
    users = λ k. written-UserBalanced p k s b.users u;
    single = λ i j.
        count-insert_le_one P (is_prediction_of i j) p s.predictions (b.single i j)
          (λ e. same_pair i j e);
  }
    where
      same_pair :
          (i j : ℕ)
          → is_prediction_of i j p ≡ true
          → count P (is_prediction_of i j) s.predictions ≡ 0
      same_pair i j e =
          let ei : p.user ≡ i = ground arith in
          let ej : p.market ≡ j = ground arith in rw (← ei, ← ej) free
