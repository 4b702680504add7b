-- ===== src/Predictions.antt =====
-- backend/src/predictions/predictions.service.ts, over tables that are parameters. `now` is the time
-- of the request, `reply` what the contract answers, and `fresh` the id that the database assigns.
pub mod Status
pub mod Ledger
pub mod Writing
pub mod Submit
pub mod Claim
pub mod Requests
use paya_dev.Base.{
  ℕ, ◌+◌, ◌^◌, Bool, true, false, ◌||◌, ◌&&◌, not, Option, none, some, List, ltb, ◌==◌,
  if◌then◌else◌, is_some, includes,
}
use paya_dev.Base.Int.{ℤ, pos, negsuc, ◌+ℤ◌}
use paya_dev.Base.Action.{Action, pure, throw, gets, or_throw, ◌>>=◌, ◌>>◌, throw_if, modify}
use paya_dev.Entities.{User, Market, Prediction, is_market, is_user, is_prediction}
use paya_dev.Gateway.{Call, submit_prediction, claim_payout, invoke}
use paya_dev.Table.{Table, count}

pub data Error : Type 0 where
  market_not_found prediction_not_found : Error  -- NotFoundException
  market_paused market_closed invalid_outcome not_resolved not_won : Error  -- BadRequestException
  already_predicted already_claimed : Error  -- ConflictException
  not_owner : Error  -- ForbiddenException
  gateway_failed : Error  -- what the contract call threw
  refused_by_database : Error  -- a stake or a sum that a bigint column does not hold

-- `stake_amount_stroops` is the whole number that the text denotes: `none` where it denotes none, as
-- "1.5", which the validator `IsNumberString` lets through.
pub record SubmitPrediction : Type 0 where
  pub market_id : ℕ
  pub chosen_outcome : ℕ
  pub stake_amount_stroops : Option ℤ

-- `SorobanPredictionResult`; the payout may be missing.
pub record PredictionResult : Type 0 where
  pub tx_hash : ℕ
  pub payout_amount_stroops : Option ℤ

abbrev is_zero : ℤ → Bool
is_zero (pos n) = n == 0
is_zero (negsuc n) = false

-- `where: { user: { id }, market: { id } }`
abbrev pub is_prediction_of : ℕ → ℕ → Prediction → Bool
is_prediction_of u m p = p.user == u && p.market == m

-- `where: { id, user: { id } }`
abbrev pub is_owned : ℕ → ℕ → Prediction → Bool
is_owned k u p = p.id == k && p.user == u

-- `market.resolved_outcome === prediction.chosen_outcome`
abbrev pub won : Option ℕ → ℕ → Bool
won none chosen = false
won (some outcome) chosen = outcome == chosen

-- What a bigint column holds: 64 bits.
fits : ℤ → Bool
fits (pos n) = ltb n (2 ^ 63)
fits (negsuc n) = ltb n (2 ^ 63)

abbrev pub add_participant : ℤ → Market → Market
add_participant stake m = record m {
  participant_count = m.participant_count + 1;
  total_pool_stroops =
      if is_zero stake then m.total_pool_stroops else m.total_pool_stroops +ℤ stake;
}

abbrev pub add_prediction : ℤ → User → User
add_prediction stake u = record u {
  total_predictions = u.total_predictions + 1;
  total_staked_stroops =
      if is_zero stake then u.total_staked_stroops else u.total_staked_stroops +ℤ stake;
}

-- What `claim` writes into the row.
abbrev pub mark_claimed : PredictionResult → Prediction → Prediction
mark_claimed result p = record p {
  payout_claimed = true;
  tx_hash = some result.tx_hash;
  payout_amount_stroops = elim result.payout_amount_stroops [
    | none ↦ p.payout_amount_stroops
    | some amount ↦ amount
  ];
}

pub record Store (P : Table Prediction) (M : Table Market) (U : Table User) : Type 0 where
  pub predictions : P.Contents
  pub markets : M.Contents
  pub users : U.Contents
  pub calls : List Call

module _ {P : Table Prediction} {M : Table Market} {U : Table User} where
  abbrev invoke_here : {A : Type 0} → Call → Option A → Action (Store P M U) Error A
  invoke_here c reply =
      invoke (λ s. s.calls) (λ cs s. record s { calls = cs }) c reply gateway_failed

  abbrev find_prediction : (Prediction → Bool) → Store P M U → Option Prediction
  find_prediction p s = P.find_one p s.predictions

  abbrev find_market : ℕ → Store P M U → Option Market
  find_market k s = M.find_one (is_market k) s.markets

  -- The database refuses the new row, or one of the two updates, since a number is out of range.
  overflows : User → Market → ℤ → Store P M U → Bool
  unfolding fits
  overflows user market stake s =
      not (fits stake)
      || ltb 0 (
          count M
            (λ m. is_market market.id m && not (fits (add_participant stake m).total_pool_stroops))
            s.markets)
      || ltb 0 (
          count U
            (λ u. is_user user.id u && not (fits (add_prediction stake u).total_staked_stroops))
            s.users)

  -- The body of `dataSource.transaction`: where the database refuses a number, first of all a stake
  -- that is no integer as the new row is saved, all of it is rolled back.
  record_prediction :
      ℕ
      → ℕ
      → User
      → Market
      → SubmitPrediction
      → PredictionResult
      → Action (Store P M U) Error Prediction
  unfolding overflows
  record_prediction now fresh user market dto result = elim dto.stake_amount_stroops [
    | none ↦ throw refused_by_database
    | some stake ↦
        let saved : Prediction = record {
          id = fresh;
          user = user.id;
          market = market.id;
          chosen_outcome = dto.chosen_outcome;
          stake_amount_stroops = stake;
          payout_claimed = false;
          payout_amount_stroops = pos 0;
          tx_hash = some result.tx_hash;
          note = none;
          submitted_at = now;
        } in
        λ s.
          if overflows user market stake s
          then throw refused_by_database s
          else pure saved (record s {
            predictions = P.insert saved s.predictions;
            markets = M.update (is_market market.id) (add_participant stake) s.markets;
            users = U.update (is_user user.id) (add_prediction stake) s.users;
          })
  ]

  pub submit :
      ℕ
      → Option PredictionResult
      → ℕ
      → SubmitPrediction
      → User
      → Action (Store P M U) Error Prediction
  unfolding record_prediction
  submit now reply fresh dto user = do
    market ← or_throw (← gets (find_market dto.market_id)) market_not_found
    throw_if
        (market.is_resolved || market.is_cancelled || market.is_paused || ltb market.end_time now)
        (if market.is_paused then market_paused else market_closed)
    throw_if (not (includes market.outcome_options dto.chosen_outcome)) invalid_outcome
    existing ← gets (find_prediction (is_prediction_of user.id market.id))
    throw_if (is_some existing) already_predicted
    result ←
        invoke_here
          (submit_prediction user.stellar_address market.on_chain_market_id dto.chosen_outcome
            dto.stake_amount_stroops)
          reply
    record_prediction now fresh user market dto result

  pub find_by_id : ℕ → ℕ → Action (Store P M U) Error Prediction
  find_by_id id user_id = do
    prediction ← or_throw (← gets (find_prediction (is_prediction id))) prediction_not_found
    throw_if (not (prediction.user == user_id)) not_owner
    pure prediction

  pub update_note : ℕ → Option ℕ → User → Action (Store P M U) Error Prediction
  update_note id note user = do
    prediction ← or_throw (← gets (find_prediction (is_owned id user.id))) prediction_not_found
    modify λ s. record s {
      predictions =
          P.update (is_prediction prediction.id) (λ p. record p { note = note }) s.predictions;
    }
    pure (record prediction { note = note })

  -- A prediction's market is there by its foreign key; a missing one is `market_not_found` here.
  unfoldable pub claim : Option PredictionResult → ℕ → User → Action (Store P M U) Error Prediction
  claim reply id user = do
    prediction ← or_throw (← gets (find_prediction (is_owned id user.id))) prediction_not_found
    throw_if prediction.payout_claimed already_claimed
    market ← or_throw (← gets (find_market prediction.market)) market_not_found
    throw_if (not market.is_resolved) not_resolved
    throw_if (not (won market.resolved_outcome prediction.chosen_outcome)) not_won
    result ← invoke_here (claim_payout user.stellar_address market.on_chain_market_id) reply
    modify λ s. record s {
      predictions = P.update (is_prediction prediction.id) (mark_claimed result) s.predictions;
    }
    pure (mark_claimed result prediction)
