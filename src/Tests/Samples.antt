-- ===== src/Tests/Samples.antt =====
-- Rows and requests that the tests share.
use paya_dev.Base.{ℕ, true, false, none, some, [], ◌∷◌}
use paya_dev.Base.Int.{pos}
use paya_dev.Entities.{User, user, admin, Market, Prediction}
use paya_dev.Predictions.{SubmitPrediction, PredictionResult}

abbrev pub ann : User
ann = record {
  id = 1;
  stellar_address = 101;
  username = none;
  total_predictions = 0;
  correct_predictions = 0;
  total_staked_stroops = pos 0;
  total_winnings_stroops = pos 0;
  reputation_score = 0;
  season_points = 0;
  role = user;
  is_banned = false;
  ban_reason = none;
  banned_at = none;
  banned_by = none;
}

abbrev pub root_user : User
root_user = record ann { id = 9; role = admin }

-- Open until 1000, with the outcomes 1 and 2.
abbrev pub derby : Market
derby = record {
  id = 5;
  on_chain_market_id = 55;
  creator = 1;
  title = 0;
  description = 0;
  category = 0;
  outcome_options = 1 ∷ 2 ∷ [];
  end_time = 1000;
  resolution_time = 2000;
  is_resolved = false;
  resolved_outcome = none;
  resolved_at = none;
  is_public = true;
  is_cancelled = false;
  is_featured = false;
  is_paused = false;
  featured_at = none;
  total_pool_stroops = pos 0;
  participant_count = 0;
  created_at = 0;
}

abbrev pub settled_derby : Market
settled_derby = record derby {
  is_resolved = true;
  resolved_outcome = some 2;
  resolved_at = some 1500;
}

abbrev pub bet_on : ℕ → SubmitPrediction
bet_on o = record { market_id = 5; chosen_outcome = o; stake_amount_stroops = some (pos 30) }

abbrev pub paid : PredictionResult
paid = record { tx_hash = 77; payout_amount_stroops = some (pos 60) }

abbrev pub anns_bet : Prediction
anns_bet = record {
  id = 3;
  user = 1;
  market = 5;
  chosen_outcome = 2;
  stake_amount_stroops = pos 30;
  payout_claimed = false;
  payout_amount_stroops = pos 0;
  tx_hash = some 77;
  note = none;
  submitted_at = 500;
}
