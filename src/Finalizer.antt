-- ===== src/Finalizer.antt =====
-- backend/src/matches/creator-event-finalizer.service.ts: events that are over and whose matches all
-- have results are finalized, twenty at a tick. Whether the contract call and the save succeed for an
-- event is an argument; the count of its matches is taken to succeed.
pub mod Ticks
use paya_dev.Base.{ℕ, ◌+◌, ◌-◌, Bool, true, ◌&&◌, not, List, [], ◌∷◌, ltb, ◌==◌, if◌then◌else◌}
use paya_dev.Gateway.{Call, finalize_event}
use paya_dev.Table.{Table, count}

pub record CreatorEvent : Type 0 where
  pub id : ℕ
  pub on_chain_event_id : ℕ
  pub end_time : ℕ
  pub is_finalized : Bool
  pub is_cancelled : Bool

pub record Match : Type 0 where
  pub id : ℕ
  pub event : ℕ  -- the event's id
  pub result_submitted : Bool

pub record Store (E : Table CreatorEvent) (M : Table Match) : Type 0 where
  pub events : E.Contents
  pub matches : M.Contents
  pub calls : List Call

-- What `triggerFinalization` returns.
pub record Tally : Type 0 where
  pub finalized : ℕ
  pub skipped : ℕ
  pub errors : ℕ

-- How the contract call and the save of one event end.
pub data Outcome : Type 0 where
  call_threw save_threw both_done : Outcome

-- `MAX_FINALIZE_PER_TICK`
abbrev pub max_finalize_per_tick : ℕ
max_finalize_per_tick = 20

abbrev pub is_event : ℕ → CreatorEvent → Bool
is_event k e = e.id == k

-- `where: { end_time: LessThan(now), is_finalized: false, is_cancelled: false }`
abbrev pub is_due : ℕ → CreatorEvent → Bool
is_due now e = ltb e.end_time now && not e.is_finalized && not e.is_cancelled

abbrev pub lacks_result : ℕ → Match → Bool
lacks_result k m = m.event == k && not m.result_submitted

abbrev pub finalized_event : CreatorEvent → CreatorEvent
finalized_event e = record e { is_finalized = true }

module _ (E : Table CreatorEvent) (M : Table Match) where
  -- `areAllMatchesResolved`
  pub all_resolved : ℕ → M.Contents → Bool
  all_resolved k ms = count M (lacks_result k) ms == 0

  -- The body of the loop, for one event.
  pub finalize_one : Outcome → CreatorEvent → Store E M → Tally → Store E M × Tally
  unfolding all_resolved
  finalize_one outcome e s n =
      let calls = finalize_event e.on_chain_event_id ∷ s.calls in
      if not (all_resolved e.id s.matches)
      then (s, record n { skipped = n.skipped + 1 })
      else elim outcome [
        | call_threw ↦ (record s { calls = calls }, record n { errors = n.errors + 1 })
        | save_threw ↦ (record s { calls = calls }, record n { errors = n.errors + 1 })
        | both_done ↦ (
          record s { calls = calls; events = E.update (is_event e.id) finalized_event s.events },
          record n { finalized = n.finalized + 1 },
        )
      ]

  pub finalize_each :
      (CreatorEvent → Outcome) → List CreatorEvent → Store E M → Tally → Store E M × Tally
  finalize_each outcome [] s n = (s, n)
  finalize_each outcome (e ∷ es) s n =
      let (s', n') = finalize_one (outcome e) e s n in finalize_each outcome es s' n'

  -- `triggerFinalization`; `finalizePendingEvents` does the same without the result.
  pub trigger_finalization : ℕ → (CreatorEvent → Outcome) → Store E M → Store E M × Tally
  unfolding finalize_each
  trigger_finalization now outcome s =
      finalize_each outcome (E.find_limit max_finalize_per_tick (is_due now) s.events) s
        (record { finalized = 0; skipped = 0; errors = 0 })
