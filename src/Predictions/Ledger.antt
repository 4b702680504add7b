-- ===== src/Predictions/Ledger.antt =====
-- The books that `submit` keeps: the counters and pools of markets and users against the
-- predictions stored.
use paya_dev.Base.{ℕ, ◌+◌, ◌≤◌, ◌≡◌, Bool, arith, ◌==◌, if◌then◌else◌}
use paya_dev.Base.Int.{ℤ, pos, negsuc, pos_part, neg_part, ◌+ℤ◌, +ℤ_parts}
use paya_dev.Entities.{User, Market, Prediction, is_market, is_user}
use paya_dev.Table.{Table, count}
use paya_dev.Table.Laws.{total-update_one, total-update_plus}
use paya_dev.Predictions.{Store, is_zero, is_prediction_of, add_participant, add_prediction}

-- A number of one row, seen in the sum over a table only if the row has the key.
abbrev pub at : Bool → ℕ → ℕ
at b n = if b then n else 0

module _ (P : Table Prediction) (M : Table Market) (U : Table User) where
  -- One market `k`: its participant count is the number of its predictions, and its pool is the sum
  -- of their stakes (the sums of positive and of negative parts are kept apart).
  pub record MarketBalanced (k : ℕ) (s : Store P M U) : Type 0 where
    pub unique : count M (is_market k) s.markets ≤ 1
    pub counted :
        M.total (λ m. at (m.id == k) m.participant_count) s.markets
        ≡ P.total (λ p. at (p.market == k) 1) s.predictions
    pub pooled :
        M.total (λ m. at (m.id == k) (pos_part m.total_pool_stroops)) s.markets
          + P.total (λ p. at (p.market == k) (neg_part p.stake_amount_stroops)) s.predictions
        ≡ M.total (λ m. at (m.id == k) (neg_part m.total_pool_stroops)) s.markets
          + P.total (λ p. at (p.market == k) (pos_part p.stake_amount_stroops)) s.predictions

  -- The same of a user.
  pub record UserBalanced (k : ℕ) (s : Store P M U) : Type 0 where
    pub unique : count U (is_user k) s.users ≤ 1
    pub counted :
        U.total (λ u. at (u.id == k) u.total_predictions) s.users
        ≡ P.total (λ p. at (p.user == k) 1) s.predictions
    pub staked :
        U.total (λ u. at (u.id == k) (pos_part u.total_staked_stroops)) s.users
          + P.total (λ p. at (p.user == k) (neg_part p.stake_amount_stroops)) s.predictions
        ≡ U.total (λ u. at (u.id == k) (neg_part u.total_staked_stroops)) s.users
          + P.total (λ p. at (p.user == k) (pos_part p.stake_amount_stroops)) s.predictions

  pub record IsBalanced (s : Store P M U) : Type 0 where
    pub markets : (k : ℕ) → MarketBalanced k s
    pub users : (k : ℕ) → UserBalanced k s
    pub single : (u m : ℕ) → count P (is_prediction_of u m) s.predictions ≤ 1

-- The new total, where a zero stake leaves the column alone.
staked_parts :
    (stake total : ℤ)
    → let next = if is_zero stake then total else total +ℤ stake in
      pos_part next + neg_part total + neg_part stake
      ≡ neg_part next + pos_part total + pos_part stake
staked_parts (pos n) total = ground (arith, +ℤ_parts total (pos n))
staked_parts (negsuc n) total = ground (arith, +ℤ_parts total (negsuc n))

-- One more prediction with stake `stake` in the row of market `j`, seen from the key `k`.
module _ (M : Table Market) (s : M.Contents) (j k : ℕ) (stake : ℤ)
    (one : count M (is_market j) s ≡ 1) where
  pub pool-add_participant :
      let t = M.update (is_market j) (add_participant stake) s in
      M.total (λ m. at (m.id == k) (pos_part m.total_pool_stroops)) t
        + M.total (λ m. at (m.id == k) (neg_part m.total_pool_stroops)) s
        + at (j == k) (neg_part stake)
      ≡ M.total (λ m. at (m.id == k) (neg_part m.total_pool_stroops)) t
        + M.total (λ m. at (m.id == k) (pos_part m.total_pool_stroops)) s
        + at (j == k) (pos_part stake)
  pool-add_participant =
      total-update_one M _ _ (at (j == k) (pos_part stake)) (at (j == k) (neg_part stake)) _ _ s one
        (λ m h. ground (arith, staked_parts stake m.total_pool_stroops))

  pub participants-add_participant :
      M.total
        (λ m. at (m.id == k) m.participant_count)
        (M.update (is_market j) (add_participant stake) s)
      ≡ M.total (λ m. at (m.id == k) m.participant_count) s + at (j == k) 1
  participants-add_participant =
      total-update_plus M _ (at (j == k) 1) _ _ s one (λ m h. ground arith)

-- The same in the row of user `j`.
module _ (U : Table User) (s : U.Contents) (j k : ℕ) (stake : ℤ)
    (one : count U (is_user j) s ≡ 1) where
  pub staked-add_prediction :
      let t = U.update (is_user j) (add_prediction stake) s in
      U.total (λ u. at (u.id == k) (pos_part u.total_staked_stroops)) t
        + U.total (λ u. at (u.id == k) (neg_part u.total_staked_stroops)) s
        + at (j == k) (neg_part stake)
      ≡ U.total (λ u. at (u.id == k) (neg_part u.total_staked_stroops)) t
        + U.total (λ u. at (u.id == k) (pos_part u.total_staked_stroops)) s
        + at (j == k) (pos_part stake)
  staked-add_prediction =
      total-update_one U _ _ (at (j == k) (pos_part stake)) (at (j == k) (neg_part stake)) _ _ s one
        (λ u h. ground (arith, staked_parts stake u.total_staked_stroops))

  pub predictions-add_prediction :
      U.total
        (λ u. at (u.id == k) u.total_predictions)
        (U.update (is_user j) (add_prediction stake) s)
      ≡ U.total (λ u. at (u.id == k) u.total_predictions) s + at (j == k) 1
  predictions-add_prediction = total-update_plus U _ (at (j == k) 1) _ _ s one (λ u h. ground arith)
