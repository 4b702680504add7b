-- ===== src/Matches/Handlers.antt =====
-- The handlers of backend/src/indexer/indexer.service.ts for EventCreated, MatchAdded, UserJoinedEvent,
-- PredictionSubmitted, MatchResultSubmitted and EventCancelled. Whether the notification after the writes
-- succeeds is an argument, as is the save of the graded predictions.
use paya_dev.Base.{
  ℕ, ◌+◌, ◌*◌, Bool, true, false, ◌||◌, not, Option, none, some, ltb, ◌==◌, if◌then◌else◌, is_some,
}
use paya_dev.Base.Action.{Action, pure, throw, throw_if}
use paya_dev.Entities.{User}
use paya_dev.Table.{Table}
use paya_dev.Matches.{
  Outcome, Event, Match, MatchPrediction, EventCreated, MatchAdded, UserJoined, PredictionSubmitted,
  ResultSubmitted, Error, notification_failed, save_failed, Store, is_event, is_match, on_chain,
  on_chain_event, is_for, is_by, number, team_of, predicted_outcome_of, graded, with_result,
}

-- `DEFAULT_EVENT_DURATION_SECONDS`
abbrev pub default_event_duration_seconds : ℕ
default_event_duration_seconds = 7776000

-- `readUnixTimestamp`
abbrev pub read_unix_timestamp : Option ℕ → Option ℕ
read_unix_timestamp none = none
read_unix_timestamp (some seconds) = if seconds == 0 then none else some (seconds * 1000)

abbrev pub or_else : Option ℕ → ℕ → ℕ
or_else none n = n
or_else (some m) n = m

-- The row that `handleEventCreated` makes.
unfoldable pub new_event : ℕ → ℕ → EventCreated → Event
new_event now fresh d =
    let created_at = or_else (read_unix_timestamp d.created_at) now in
    let start_time = or_else (read_unix_timestamp d.start_time) created_at in
    let parsed = or_else (read_unix_timestamp d.end_time) 0 in
    record {
      id = fresh;
      on_chain_event_id = d.event_id;
      start_time = start_time;
      end_time =
          if ltb start_time parsed
          then parsed
          else start_time + default_event_duration_seconds * 1000;
      is_active = true;
      is_cancelled = false;
      is_finalized = d.is_finalized;
      max_participants = number d.max_participants;
      prize_pool = d.prize_pool;
      total_entry_fees_collected = 0;
      participant_count = 0;
      match_count = 0;
    }

-- The row that `handleMatchAdded` makes. A multiplier that is missing is given as null, hence 0.
unfoldable pub new_match : ℕ → ℕ → ℕ → MatchAdded → Match
new_match now fresh event d =
    let given = number d.points_multiplier in
    record {
      id = fresh;
      on_chain_match_id = d.match_id;
      event = event;
      match_time = if number d.match_time == 0 then now else number d.match_time * 1000;
      points_multiplier = if ltb given 1 || ltb 3 given then 1 else given;
      result_submitted = false;
      winning_team = none;
      home_score = none;
      away_score = none;
      submitted_by = none;
      submitted_at = none;
    }

abbrev pub new_prediction : ℕ → ℕ → ℕ → Outcome → PredictionSubmitted → MatchPrediction
new_prediction fresh match_id user o d = record {
  id = fresh;
  match_id = match_id;
  user = user;
  predicted_outcome = o;
  predicted_home_score = d.predicted_home_score;
  predicted_away_score = d.predicted_away_score;
  points_earned = 0;
  is_correct = none;
}

-- The changes of an event row; the first row is the loaded one, the second the one that is saved over.
abbrev pub counted : Event → Event → Event
counted e x = record x { match_count = e.match_count + 1 }

abbrev pub joined : ℕ → Event → Event → Event
joined fee e x = record x {
  participant_count = e.participant_count + 1;
  prize_pool = e.prize_pool + fee;
  total_entry_fees_collected = e.total_entry_fees_collected + fee;
}

abbrev pub cancelled : Event → Event
cancelled e = record e { is_active = false; is_cancelled = true }

module _ {E : Table Event} {M : Table Match} {P : Table MatchPrediction} {U : Table User} where
  -- An early return.
  abbrev skip : Action (Store E M P U) Error (Unit {0})
  skip = pure tt

  abbrev pub notify : Bool → Action (Store E M P U) Error (Unit {0})
  notify notified = throw_if (not notified) notification_failed

  -- `handleEventCreated`
  unfoldable pub create_event :
      ℕ → ℕ → Bool → EventCreated → Action (Store E M P U) Error (Unit {0})
  create_event now fresh notified d s =
      if d.event_id == 0 || is_some (E.find_one (on_chain_event d.event_id) s.events)
      then skip s
      else notify notified (record s { events = E.insert (new_event now fresh d) s.events })

  -- `handleEventCancelled`
  unfoldable pub cancel_event : Bool → ℕ → Action (Store E M P U) Error (Unit {0})
  cancel_event notified event_id s =
      if event_id == 0 then skip s else elim (E.find_one (on_chain_event event_id) s.events) [
        | none ↦ skip s
        | some e ↦
            notify notified (record s { events = E.update (is_event e.id) cancelled s.events })
      ]

  -- `handleMatchAdded`
  unfoldable pub add_match : ℕ → ℕ → Bool → MatchAdded → Action (Store E M P U) Error (Unit {0})
  add_match now fresh notified d s =
      if d.match_id == 0 || d.event_id == 0 || is_some (M.find_one (on_chain d.match_id) s.matches)
      then skip s
      else elim (E.find_one (on_chain_event d.event_id) s.events) [
        | none ↦ skip s
        | some e ↦ notify notified (record s {
          matches = M.insert (new_match now fresh e.id d) s.matches;
          events = E.update (is_event e.id) (counted e) s.events;
        })
      ]

  -- `handleUserJoinedEvent`
  unfoldable pub join_event : Bool → UserJoined → Action (Store E M P U) Error (Unit {0})
  join_event notified d s =
      if d.event_id == 0 || not (is_some d.user_address)
      then skip s
      else elim (E.find_one (on_chain_event d.event_id) s.events) [
        | none ↦ skip s
        | some e ↦
            notify notified
              (record s { events = E.update (is_event e.id) (joined d.entry_fee_paid e) s.events })
      ]

  -- `handlePredictionSubmitted`
  unfoldable pub submit_prediction :
      ℕ → Bool → PredictionSubmitted → Action (Store E M P U) Error (Unit {0})
  submit_prediction fresh notified d s = elim d.predictor [
    | none ↦ skip s
    | some address ↦ elim (M.find_one (on_chain d.match_id) s.matches) [
      | none ↦ skip s
      | some m ↦ elim (U.find_one (λ u. u.stellar_address == address) s.users) [
        | none ↦ skip s
        | some u ↦
            if d.match_id == 0 || is_some (P.find_one (is_by m.id u.id) s.predictions)
            then skip s
            else elim (predicted_outcome_of d) [
              | none ↦ skip s
              | some o ↦ notify notified (record s {
                predictions = P.insert (new_prediction fresh m.id u.id o d) s.predictions;
              })
            ]
      ]
    ]
  ]

  -- `handleMatchResultSubmitted`, with `gradePredictions`
  unfoldable pub submit_result :
      ℕ → Bool → Bool → ResultSubmitted → Action (Store E M P U) Error (Unit {0})
  submit_result now saved notified d s =
      if d.match_id == 0 then skip s else elim (M.find_one (on_chain d.match_id) s.matches) [
        | none ↦ skip s
        | some m ↦ if m.result_submitted then skip s else elim (team_of (number d.winning_team)) [
          | none ↦ skip s
          | some w ↦
              let s' = record s {
                matches = M.update (is_match m.id) (with_result now d w) s.matches;
              } in
              if saved
              then notify notified (record s' {
                predictions = P.update (is_for m.id) (graded (with_result now d w m)) s.predictions;
              })
              else throw save_failed s'
        ]
      ]
