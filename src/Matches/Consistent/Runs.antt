-- ===== src/Matches/Consistent/Runs.antt =====
-- Runs of the handlers of contract events.
use paya_dev.Base.{ℕ, ◌≡◌, Bool}
use paya_dev.Entities.{User}
use paya_dev.Table.{Table, count}
use paya_dev.Matches.{
  Event, Match, MatchPrediction, EventCreated, MatchAdded, UserJoined, PredictionSubmitted,
  ResultSubmitted, Store, is_event, is_match,
}
use paya_dev.Matches.Handlers.{
  create_event, add_match, join_event, submit_prediction, submit_result, cancel_event,
}
use paya_dev.Matches.Consistent.{is_in, is_row, IsConsistent}
use paya_dev.Matches.Consistent.Handling.{
  create_event-IsConsistent, cancel_event-IsConsistent, join_event-IsConsistent,
  add_match-IsConsistent, submit_prediction-IsConsistent, submit_result-IsConsistent,
}

-- One contract event is handled; the id of a new row is in no use.
pub data Step {E : Table Event} {M : Table Match} {P : Table MatchPrediction} {U : Table User}
    (s : Store E M P U) : Store E M P U → Type 0 where
  creates :
      (now fresh : ℕ) (notified : Bool) (d : EventCreated)
      → count E (is_event fresh) s.events ≡ 0
      → count M (is_in fresh) s.matches ≡ 0
      → Step s (create_event now fresh notified d s).1
  adds :
      (now fresh : ℕ) (notified : Bool) (d : MatchAdded)
      → count M (is_match fresh) s.matches ≡ 0
      → Step s (add_match now fresh notified d s).1
  joins : (notified : Bool) (d : UserJoined) → Step s (join_event notified d s).1
  predicts :
      (fresh : ℕ) (notified : Bool) (d : PredictionSubmitted)
      → count P (is_row fresh) s.predictions ≡ 0
      → Step s (submit_prediction fresh notified d s).1
  decides :
      (now : ℕ) (saved notified : Bool) (d : ResultSubmitted)
      → Step s (submit_result now saved notified d s).1
  cancels : (notified : Bool) (k : ℕ) → Step s (cancel_event notified k s).1

pub data Reach {E : Table Event} {M : Table Match} {P : Table MatchPrediction} {U : Table User}
    (s : Store E M P U) : Store E M P U → Type 0 where
  here : Reach s s
  next : {t u : Store E M P U} → Reach s t → Step t u → Reach s u

module _ {E : Table Event} {M : Table Match} {P : Table MatchPrediction} {U : Table User} where
  Step-IsConsistent : {s t : Store E M P U} → Step s t → IsConsistent s → IsConsistent t
  Step-IsConsistent {s} (creates now fresh notified d new unused) c =
      create_event-IsConsistent now fresh notified d s new unused c
  Step-IsConsistent {s} (adds now fresh notified d new) c =
      add_match-IsConsistent now fresh notified d s new c
  Step-IsConsistent {s} (joins notified d) c = join_event-IsConsistent notified d s c
  Step-IsConsistent {s} (predicts fresh notified d new) c =
      submit_prediction-IsConsistent fresh notified d s new c
  Step-IsConsistent {s} (decides now saved notified d) c =
      submit_result-IsConsistent now saved notified d s c
  Step-IsConsistent {s} (cancels notified k) c = cancel_event-IsConsistent notified k s c

  -- From consistent tables, in whatever order and however often the handlers of EventCreated,
  -- MatchAdded, UserJoinedEvent, PredictionSubmitted, MatchResultSubmitted and EventCancelled run, and
  -- whether their notifications and grades go through or not, the tables stay consistent: the row ids
  -- of events, matches and predictions and the on-chain ids of events and matches are unique, an event
  -- counts exactly its matches, and a user has at most one prediction on a match. New rows get ids that
  -- are in no use.
  pub Reach-IsConsistent : (s t : Store E M P U) → IsConsistent s → Reach s t → IsConsistent t
  Reach-IsConsistent s _ c here = c
  Reach-IsConsistent s _ c (next r p) = Step-IsConsistent p (Reach-IsConsistent s _ c r)
