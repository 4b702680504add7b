-- ===== src/Tests/Playing.antt =====
-- The handlers of the events of matches on tables held in memory.
use paya_dev.Base.{◌≡◌, refl, ◌+◌, Bool, true, false, ◌&&◌, not, none, some, [], ◌∷◌, arith}
use paya_dev.Base.Action.{ok}
use paya_dev.Entities.{User}
use paya_dev.Table.{count}
use paya_dev.Table.Memory.{memory}
use paya_dev.Tests.Samples.{ann}
use paya_dev.Indexer
use paya_dev.Indexer.{
  RawEvent, ContractEvent, failed, pending, store_and_process, retry_one, max_retries,
}
use paya_dev.Matches
use paya_dev.Matches.{
  Event, Match, MatchPrediction, EventCreated, MatchAdded, UserJoined, PredictionSubmitted,
  ResultSubmitted, team_a, team_b, draw, outcome_of, graded, predicted_outcome_of, is_event, is_for,
}
use paya_dev.Matches.Handlers.{submit_result, create_event}
use paya_dev.Matches.Grading.{grade, graded_by_score}
use paya_dev.Matches.Results.{result_grades, result_is_final, is_ungraded, marked_correct}
use paya_dev.Matches.Consistent.{IsConsistent}
use paya_dev.Matches.Consistent.Runs
use paya_dev.Matches.Consistent.Runs.{creates, Reach-IsConsistent}
use paya_dev.Matches.Joins.{participants_of, Stands, retry_times, retries_join_again}

abbrev cup : Event
cup = record {
  id = 1;
  on_chain_event_id = 11;
  start_time = 0;
  end_time = 90;
  is_active = true;
  is_cancelled = false;
  is_finalized = false;
  max_participants = 0;
  prize_pool = 100;
  total_entry_fees_collected = 0;
  participant_count = 0;
  match_count = 1;
}

abbrev final_match : Match
final_match = record {
  id = 2;
  on_chain_match_id = 22;
  event = 1;
  match_time = 80;
  points_multiplier = 2;
  result_submitted = false;
  winning_team = none;
  home_score = none;
  away_score = none;
  submitted_by = none;
  submitted_at = none;
}

-- Two to one for the home team.
abbrev guess : MatchPrediction
guess = record {
  id = 3;
  match_id = 2;
  user = 1;
  predicted_outcome = team_a;
  predicted_home_score = some 2;
  predicted_away_score = some 1;
  points_earned = 0;
  is_correct = none;
}

abbrev guessed : PredictionSubmitted
guessed = record {
  match_id = 22;
  predictor = some 4;
  predicted_outcome = none;
  predicted_home_score = some 2;
  predicted_away_score = some 1;
}

-- Three to two for the home team.
abbrev result : ResultSubmitted
result = record {
  match_id = 22;
  winning_team = some 0;
  submitted_by = 4;
  submitted_at = some 85;
  home_score = some 3;
  away_score = some 2;
}

abbrev other_result : ResultSubmitted
other_result = record result { winning_team = some 1; home_score = some 0 }

abbrev decided_match : Match
decided_match = record final_match {
  result_submitted = true;
  winning_team = some team_a;
  home_score = some 3;
  away_score = some 2;
}

abbrev playing : Matches.Store (memory Event) (memory Match) (memory MatchPrediction) (memory User)
playing = record {
  events = cup ∷ [];
  matches = final_match ∷ [];
  predictions = guess ∷ [];
  users = ann ∷ [];
}

-- The difference of goals was predicted: the contract gives 2 points.
graded_by_score_example :
    ((graded decided_match guess).is_correct ≡ some true)
    × ((graded decided_match guess).points_earned ≡ 2 + 4)
unfolding predicted_outcome_of grade
graded_by_score_example =
    graded_by_score decided_match guess guessed 3 2 2 1 refl refl refl refl refl refl refl refl

result_grades_example :
    let after = (submit_result 90 true true result playing).1.predictions in
    (count (memory MatchPrediction) (λ p. is_for 2 p && is_ungraded p) after ≡ 0)
    × (count (memory MatchPrediction) (λ p. is_for 2 p && marked_correct p) after ≡ 1)
    × ((test : MatchPrediction → Bool)
        → count (memory MatchPrediction) (λ p. not (is_for 2 p) && test p) after ≡ 0)
result_grades_example = result_grades 90 result final_match team_a playing refl refl refl refl

result_is_final_example :
    submit_result 95 true true other_result (submit_result 90 false true result playing).1
    ≡ (ok tt, (submit_result 90 false true result playing).1)
result_is_final_example =
    result_is_final 90 95 false true true true result other_result final_match team_a playing
      (omega arith) refl refl refl refl

abbrev nothing_yet :
    Matches.Store (memory Event) (memory Match) (memory MatchPrediction) (memory User)
nothing_yet = record { events = []; matches = []; predictions = []; users = ann ∷ [] }

nothing_yet-IsConsistent : IsConsistent nothing_yet
nothing_yet-IsConsistent = record {
  ids = λ k. ground arith;
  match_ids = λ k. ground arith;
  prediction_ids = λ k. ground arith;
  chain_events = λ k. ground arith;
  chain_matches = λ k. ground arith;
  counts = λ k. refl;
  single = λ k u. ground arith;
}

abbrev announced : EventCreated
announced = record {
  event_id = 11;
  created_at = some 5;
  start_time = none;
  end_time = some 9;
  prize_pool = 100;
  is_finalized = false;
  max_participants = none;
}

Reach-IsConsistent_example : IsConsistent (create_event 7 1 true announced nothing_yet).1
Reach-IsConsistent_example =
    Reach-IsConsistent nothing_yet (create_event 7 1 true announced nothing_yet).1
      nothing_yet-IsConsistent (Runs.next Runs.here (creates 7 1 true announced refl refl))

abbrev joining : UserJoined
joining = record { event_id = 11; user_address = some 4; entry_fee_paid = 10 }

abbrev stuck_join : ContractEvent UserJoined
stuck_join = record {
  id = 1;
  ledger = 5;
  log_index = 0;
  event_type = 3;
  payload = joining;
  tx_hash = none;
  status = failed;
  error_message = some 1;
  retry_count = 1;
  created_at = 6;
  processed_at = none;
}

abbrev stuck :
    Indexer.Store
      (memory (ContractEvent UserJoined))
      (Matches.Store (memory Event) (memory Match) (memory MatchPrediction) (memory User))
stuck = record { events = stuck_join ∷ []; world = playing; handled = []; lost = [] }

cup-Stands : Stands (memory Event) 11 1 (cup ∷ [])
cup-Stands = record { one_row = omega arith; one_chain = omega arith; there = omega arith }

retries_join_again_example :
    (memory Event).total (participants_of 1) (retry_times 10 stuck_join 3 stuck).world.events ≡ 3
retries_join_again_example =
    retries_join_again (memory (ContractEvent UserJoined)) 10 stuck_join 3 1 stuck (omega arith)
      refl cup-Stands
