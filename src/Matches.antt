-- ===== src/Matches.antt =====
-- The creator events, matches and predictions on matches of backend/src/matches/entities, and the
-- payloads of the contract events about them, with the fields that `extractEventData` of
-- backend/src/indexer/indexer.service.ts reads. A number that cannot be read is `none`, as `readNum` gives null; numbers are natural.
pub mod Handlers
pub mod Grading
pub mod Consistent
pub mod Results
pub mod Joins
pub mod Payouts
use paya_dev.Base.{
  ℕ, ◌+◌, ◌-◌, ◌*◌, Bool, true, false, ◌&&◌, Option, none, some, ltb, ◌==◌, if◌then◌else◌,
}
use paya_dev.Base.Action.{◌>>=◌, ◌>>◌}
use paya_dev.Entities.{User}
use paya_dev.Table.{Table}

-- `WinningTeam` and `PredictedOutcome`
pub data Outcome : Type 0 where
  team_a team_b draw : Outcome

pub record Event : Type 0 where
  pub id : ℕ
  pub on_chain_event_id : ℕ
  pub start_time : ℕ
  pub end_time : ℕ
  pub is_active : Bool
  pub is_cancelled : Bool
  pub is_finalized : Bool
  pub max_participants : ℕ
  pub prize_pool : ℕ
  pub total_entry_fees_collected : ℕ
  pub participant_count : ℕ
  pub match_count : ℕ

pub record Match : Type 0 where
  pub id : ℕ
  pub on_chain_match_id : ℕ
  pub event : ℕ  -- the event's id
  pub match_time : ℕ
  pub points_multiplier : ℕ
  pub result_submitted : Bool
  pub winning_team : Option Outcome
  pub home_score : Option ℕ
  pub away_score : Option ℕ
  pub submitted_by : Option ℕ
  pub submitted_at : Option ℕ

pub record MatchPrediction : Type 0 where
  pub id : ℕ
  pub match_id : ℕ
  pub user : ℕ  -- the user's id
  pub predicted_outcome : Outcome
  pub predicted_home_score : Option ℕ
  pub predicted_away_score : Option ℕ
  pub points_earned : ℕ
  pub is_correct : Option Bool

-- The payloads, by the fields that the handlers use; 0 is a missing id, and `none` a missing address.
pub record EventCreated : Type 0 where
  pub event_id : ℕ
  pub created_at : Option ℕ
  pub start_time : Option ℕ
  pub end_time : Option ℕ
  pub prize_pool : ℕ
  pub is_finalized : Bool
  pub max_participants : Option ℕ

pub record MatchAdded : Type 0 where
  pub match_id : ℕ
  pub event_id : ℕ
  pub match_time : Option ℕ
  pub points_multiplier : Option ℕ

pub record UserJoined : Type 0 where
  pub event_id : ℕ
  pub user_address : Option ℕ
  pub entry_fee_paid : ℕ

-- `predicted_outcome` is a text: missing, or not one of the outcomes, or one of them.
pub record PredictionSubmitted : Type 0 where
  pub match_id : ℕ
  pub predictor : Option ℕ
  pub predicted_outcome : Option (Option Outcome)
  pub predicted_home_score : Option ℕ
  pub predicted_away_score : Option ℕ

pub record ResultSubmitted : Type 0 where
  pub match_id : ℕ
  pub winning_team : Option ℕ
  pub submitted_by : ℕ
  pub submitted_at : Option ℕ
  pub home_score : Option ℕ
  pub away_score : Option ℕ

pub data Error : Type 0 where
  notification_failed save_failed : Error

pub record Store (E : Table Event) (M : Table Match) (P : Table MatchPrediction) (U : Table User)
    : Type 0 where
  pub events : E.Contents
  pub matches : M.Contents
  pub predictions : P.Contents
  pub users : U.Contents

abbrev pub same_outcome : Outcome → Outcome → Bool
same_outcome team_a team_a = true
same_outcome team_b team_b = true
same_outcome draw draw = true
same_outcome _ _ = false

abbrev pub is_event : ℕ → Event → Bool
is_event k e = e.id == k

abbrev pub is_match : ℕ → Match → Bool
is_match k m = m.id == k

-- `where: { on_chain_match_id }`
abbrev pub on_chain : ℕ → Match → Bool
on_chain k m = m.on_chain_match_id == k

abbrev pub on_chain_event : ℕ → Event → Bool
on_chain_event k e = e.on_chain_event_id == k

-- `where: { match: { id } }`
abbrev pub is_for : ℕ → MatchPrediction → Bool
is_for k p = p.match_id == k

-- `where: { match: { id }, user: { id } }`
abbrev pub is_by : ℕ → ℕ → MatchPrediction → Bool
is_by k u p = p.match_id == k && p.user == u

-- `Number` of a number or null
abbrev pub number : Option ℕ → ℕ
number none = 0
number (some n) = n

-- `winningTeamMap`
abbrev pub team_of : ℕ → Option Outcome
team_of n =
    if n == 0
    then some team_a
    else if n == 1
    then some team_b
    else if n == 2
    then some draw
    else none

-- The outcome that a scoreline has.
abbrev pub outcome_of : ℕ → ℕ → Outcome
outcome_of home away = if ltb away home then team_a else if ltb home away then team_b else draw

-- `predictedOutcome`: of the scoreline, or of the text.
unfoldable pub predicted_outcome_of : PredictionSubmitted → Option Outcome
predicted_outcome_of d = elim d.predicted_home_score [
  | some home ↦ elim d.predicted_away_score [
    | some away ↦ some (outcome_of home away)
    | none ↦ elim d.predicted_outcome [ none ↦ none | some o ↦ o ]
  ]
  | none ↦ elim d.predicted_outcome [ none ↦ none | some o ↦ o ]
]

-- The points of a prediction whose outcome is right, from the two scorelines if all four are there.
abbrev pub points_for : Match → MatchPrediction → ℕ
points_for m p = elim m.home_score [
  | none ↦ m.points_multiplier
  | some home ↦ elim m.away_score [
    | none ↦ m.points_multiplier
    | some away ↦ elim p.predicted_home_score [
      | none ↦ m.points_multiplier
      | some h ↦ elim p.predicted_away_score [
        | none ↦ m.points_multiplier
        | some a ↦
            if h == home && a == away
            then 4 * m.points_multiplier
            else if h + away == home + a
            then 3 * m.points_multiplier
            else m.points_multiplier
      ]
    ]
  ]
]

-- `String(predicted_outcome) === String(winning_team)`
abbrev pub is_right : Option Outcome → Outcome → Bool
is_right none o = false
is_right (some w) o = same_outcome o w

-- The body of the loop of `gradePredictions`.
pub graded : Match → MatchPrediction → MatchPrediction
graded m p =
    let right = is_right m.winning_team p.predicted_outcome in
    record p { is_correct = some right; points_earned = if right then points_for m p else 0 }

-- What `handleMatchResultSubmitted` writes. The scores are null where they cannot be read, never
-- undefined, and `Number(null)` is 0.
abbrev pub with_result : ℕ → ResultSubmitted → Outcome → Match → Match
with_result now d w m = record m {
  result_submitted = true;
  winning_team = some w;
  submitted_by = some d.submitted_by;
  submitted_at =
      if number d.submitted_at == 0 then some now else some (number d.submitted_at * 1000);
  home_score = some (number d.home_score);
  away_score = some (number d.away_score);
}
