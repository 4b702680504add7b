-- ===== src/Indexer.antt =====
-- backend/src/indexer/indexer.service.ts: contract events are fetched, stored and handed to their
-- handlers; a poll moves the checkpoint. `process` is what the handlers do to the rest of the database,
-- with the message of what they throw; `handled` notes each event whose handler came to its end, which
-- the source only logs, and `lost` each of them whose row could not be saved as processed afterwards.
-- `Data` is an event's payload. Which saves of an event's row go through is an argument.
pub mod Records
pub mod Rows
pub mod Recording
pub mod Once
pub mod Poll
pub mod Reconciliation
use paya_dev.Base.{
  ℕ, ◌+◌, ◌-◌, Bool, true, false, ◌&&◌, Option, none, some, List, [], ◌∷◌, leb, ◌==◌, if◌then◌else◌,
}
use paya_dev.Table.{Table}

pub data EventStatus : Type 0 where
  pending processed failed dlq : EventStatus

pub record RawEvent (Data : Type 0) : Type 0 where
  pub ledger : ℕ
  pub log_index : ℕ
  pub event_type : ℕ
  pub payload : Data
  pub tx_hash : Option ℕ

pub record ContractEvent (Data : Type 0) : Type 0 where
  pub id : ℕ
  pub ledger : ℕ
  pub log_index : ℕ
  pub event_type : ℕ
  pub payload : Data
  pub tx_hash : Option ℕ
  pub status : EventStatus
  pub error_message : Option ℕ
  pub retry_count : ℕ
  pub created_at : ℕ
  pub processed_at : Option ℕ

-- `MAX_RETRIES`, `DLQ_THRESHOLD` and `BATCH_SIZE`
abbrev pub max_retries : ℕ
max_retries = 5

abbrev pub dlq_threshold : ℕ
dlq_threshold = 5

abbrev pub batch_size : ℕ
batch_size = 100

abbrev pub is_processed : EventStatus → Bool
is_processed processed = true
is_processed _ = false

-- `where: [{ status: FAILED }, { status: DLQ }]`
abbrev pub is_stuck : EventStatus → Bool
is_stuck failed = true
is_stuck dlq = true
is_stuck _ = false

module _ {Data : Type 0} where
  abbrev pub has_id : ℕ → ContractEvent Data → Bool
  has_id k e = e.id == k

  -- `where: { ledger, log_index }`
  abbrev pub is_at : ℕ → ℕ → ContractEvent Data → Bool
  is_at l i e = e.ledger == l && e.log_index == i

  abbrev pub new_event : ℕ → ℕ → RawEvent Data → ContractEvent Data
  new_event now fresh raw = record {
    id = fresh;
    ledger = raw.ledger;
    log_index = raw.log_index;
    event_type = raw.event_type;
    payload = raw.payload;
    tx_hash = raw.tx_hash;
    status = pending;
    error_message = none;
    retry_count = 0;
    created_at = now;
    processed_at = none;
  }

  abbrev pub refreshed : RawEvent Data → ContractEvent Data → ContractEvent Data
  refreshed raw e = record e { payload = raw.payload; tx_hash = raw.tx_hash }

  abbrev pub finished : ℕ → ContractEvent Data → ContractEvent Data
  finished now e = record e { status = processed; processed_at = some now }

  abbrev pub failed_with : ℕ → ContractEvent Data → ContractEvent Data
  failed_with message e = record e {
    retry_count = e.retry_count + 1;
    status = if leb dlq_threshold (e.retry_count + 1) then dlq else failed;
    error_message = some message;
  }

  -- The loaded row after its save as processed failed.
  abbrev pub unmarked : ℕ → ℕ → ContractEvent Data → ContractEvent Data
  unmarked now message e = failed_with message (record e { processed_at = some now })

  abbrev pub retried : ℕ → ContractEvent Data → ContractEvent Data
  retried now e = record (finished now e) { error_message = none }

pub record Store {Data : Type 0} (E : Table (ContractEvent Data)) (World : Type 0) : Type 0 where
  pub events : E.Contents
  pub world : World
  pub handled : List (ℕ × ℕ)  -- newest first
  pub lost : List (ℕ × ℕ)  -- newest first

-- How the saves of `storeAndProcessEvent` go: of the row before its handler runs, of the row as
-- processed, with the message where it throws, and of the row with the error.
pub record Saves : Type 0 where
  pub stored : Bool
  pub marked : Option ℕ
  pub noted : Bool

module _ {Data World : Type 0} (E : Table (ContractEvent Data))
    (process : ℕ → Data → World → Option ℕ × World) where
  -- The save in the `catch`; where it throws, so does `storeAndProcessEvent`.
  abbrev pub note_error :
      Bool → ℕ → (ContractEvent Data → ContractEvent Data) → Store E World → Bool × Store E World
  note_error true k change s = (true, record s { events = E.update (has_id k) change s.events })
  note_error false k change s = (false, s)

  -- The `try` and `catch` of `storeAndProcessEvent`, for the row `k`; the Boolean is false where it
  -- throws.
  unfoldable pub run_handler : ℕ → ℕ → RawEvent Data → Saves → Store E World → Bool × Store E World
  run_handler now k raw saves s =
      let (thrown, world) = process raw.event_type raw.payload s.world in
      let place : ℕ × ℕ = (raw.ledger, raw.log_index) in
      elim thrown [
        | none ↦ elim saves.marked [
          | none ↦ (
            true,
            record s {
              events = E.update (has_id k) (finished now) s.events;
              world = world;
              handled = place ∷ s.handled;
            },
          )
          | some message ↦
              note_error saves.noted k (unmarked now message)
                (record s { world = world; handled = place ∷ s.handled; lost = place ∷ s.lost })
        ]
        | some message ↦ note_error saves.noted k (failed_with message) (record s { world = world })
      ]

  unfoldable pub store_and_process :
      ℕ → ℕ → RawEvent Data → Saves → Store E World → Bool × Store E World
  store_and_process now fresh raw saves s =
      elim (E.find_one (is_at raw.ledger raw.log_index) s.events) [
        | none ↦
            if saves.stored
            then run_handler now fresh raw saves
                (record s { events = E.insert (new_event now fresh raw) s.events })
            else (false, s)
        | some e ↦
            if is_processed e.status
            then (true, s)
            else if saves.stored
            then run_handler now e.id raw saves
                (record s { events = E.update (has_id e.id) (refreshed raw) s.events })
            else (false, s)
      ]

  -- The body of the loop of `retryFailedEvents`, for a loaded row; `saved` tells whether it can be
  -- saved as processed.
  unfoldable pub retry_one : ℕ → Bool → ContractEvent Data → Store E World → Store E World
  retry_one now saved e s =
      if leb max_retries e.retry_count
      then s
      else let (thrown, world) = process e.event_type e.payload s.world in
        let place : ℕ × ℕ = (e.ledger, e.log_index) in
        elim thrown [
          | none ↦
              if saved
              then record s {
                events = E.update (has_id e.id) (retried now) s.events;
                world = world;
                handled = place ∷ s.handled;
              }
              else record s { world = world; handled = place ∷ s.handled; lost = place ∷ s.lost }
          | some message ↦ record s { world = world }
        ]

  retry_each :
      ℕ → (ContractEvent Data → Bool) → List (ContractEvent Data) → Store E World → Store E World
  retry_each now saved [] s = s
  retry_each now saved (e ∷ es) s = retry_each now saved es (retry_one now (saved e) e s)

  pub retry_failed_events : ℕ → (ContractEvent Data → Bool) → Store E World → Store E World
  unfolding retry_each
  retry_failed_events now saved s =
      retry_each now saved (E.find (λ e. is_stuck e.status) s.events) s
