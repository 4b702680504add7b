-- ===== src/Entities.antt =====
-- The rows of the tables that several services share: backend/src/markets/entities,
-- backend/src/predictions/entities and backend/src/users/entities.
-- Identifiers, addresses, hashes and texts are only compared and copied, so they are numbers. A Date
-- is its milliseconds. An amount in stroops is a decimal text that `BigInt` reads with its sign.
-- Left out are columns that no modelled operation reads or writes: avatars, mail addresses, preferences
-- and the times of the last change.
use paya_dev.Base.{ℕ, Bool, Option, List, ◌==◌, true, false}
use paya_dev.Base.Int.{ℤ}

pub data Role : Type 0 where
  user admin moderator : Role

pub record User : Type 0 where
  pub id : ℕ
  pub stellar_address : ℕ
  pub username : Option ℕ
  pub total_predictions : ℕ
  pub correct_predictions : ℕ
  pub total_staked_stroops : ℤ
  pub total_winnings_stroops : ℤ
  pub reputation_score : ℕ
  pub season_points : ℕ
  pub role : Role
  pub is_banned : Bool
  pub ban_reason : Option ℕ
  pub banned_at : Option ℕ
  pub banned_by : Option ℕ

pub record Market : Type 0 where
  pub id : ℕ
  pub on_chain_market_id : ℕ
  pub creator : ℕ  -- the creator's id
  pub title : ℕ
  pub description : ℕ
  pub category : ℕ
  pub outcome_options : List ℕ
  pub end_time : ℕ
  pub resolution_time : ℕ
  pub is_resolved : Bool
  pub resolved_outcome : Option ℕ
  pub resolved_at : Option ℕ
  pub is_public : Bool
  pub is_cancelled : Bool
  pub is_featured : Bool
  pub is_paused : Bool
  pub featured_at : Option ℕ
  pub total_pool_stroops : ℤ
  pub participant_count : ℕ
  pub created_at : ℕ

pub record Prediction : Type 0 where
  pub id : ℕ
  pub user : ℕ  -- the user's id
  pub market : ℕ  -- the market's id
  pub chosen_outcome : ℕ
  pub stake_amount_stroops : ℤ
  pub payout_claimed : Bool
  pub payout_amount_stroops : ℤ
  pub tx_hash : Option ℕ
  pub note : Option ℕ
  pub submitted_at : ℕ

-- `where: { id }`
abbrev pub is_market : ℕ → Market → Bool
is_market k m = m.id == k

abbrev pub is_user : ℕ → User → Bool
is_user k u = u.id == k

abbrev pub is_prediction : ℕ → Prediction → Bool
is_prediction k p = p.id == k

abbrev pub is_admin : Role → Bool
is_admin admin = true
is_admin user = false
is_admin moderator = false
