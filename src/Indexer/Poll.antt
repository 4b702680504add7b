-- ===== src/Indexer/Poll.antt =====
-- `pollContractEvents` and `reindex` of backend/src/indexer/indexer.service.ts. What the node answers is
-- an argument: the events of a batch and the latest ledger of the chain, or none where the call fails.
-- The value of a checkpoint is a bigint column, which comes back as a text: `+` appends to it, while
-- comparisons and `Math.max` read it as a number. `saves` tells how the saves for an event go.
pub mod Checkpoint
use paya_dev.Base.{
  ℕ, suc, ◌+◌, ◌-◌, ◌*◌, max, Bool, ◌&&◌, ◌||◌, Option, none, some, List, [], ◌∷◌, ltb, leb, ◌==◌,
  if◌then◌else◌,
}
use paya_dev.Table.{Table}
use paya_dev.Indexer.{RawEvent, ContractEvent, Store, Saves, store_and_process}

pub record Answer (Data : Type 0) : Type 0 where
  pub events : List (RawEvent Data)
  pub latest_ledger : ℕ

-- The checkpoints `indexer:last_processed_ledger` and `indexer:latest_contract_ledger`, and the
-- `last_indexed_ledger` of the reconciliation.
pub record Indexed {Data : Type 0} (E : Table (ContractEvent Data)) (World : Type 0) : Type 0 where
  pub store : Store E World
  pub last_processed : ℕ
  pub latest_contract : ℕ
  pub last_indexed : ℕ

module _ {Data : Type 0} where
  -- `a.ledger - b.ledger || a.log_index - b.log_index`
  abbrev pub comes_before : RawEvent Data → RawEvent Data → Bool
  comes_before a b = ltb a.ledger b.ledger || a.ledger == b.ledger && leb a.log_index b.log_index

  insert_sorted : RawEvent Data → List (RawEvent Data) → List (RawEvent Data)
  insert_sorted a [] = a ∷ []
  insert_sorted a (b ∷ bs) = if comes_before a b then a ∷ b ∷ bs else b ∷ insert_sorted a bs

  pub sort_events : List (RawEvent Data) → List (RawEvent Data)
  unfolding insert_sorted
  sort_events [] = []
  sort_events (a ∷ bs) = insert_sorted a (sort_events bs)

-- `advanceCheckpoint`
pub advance_checkpoint : ℕ → ℕ → ℕ
advance_checkpoint ledger last = if ltb last ledger then ledger else last

-- `fromLedger` of a poll, `Math.max(lastLedger + 1, 1)`, where `lastLedger` is a text of digits, so that
-- the sum is the text with a 1 appended. Without a row it is the number 0, and the sum is 1 as well.
pub from_ledger : ℕ → ℕ
from_ledger last = max (10 * last + 1) 1

-- `fetchEventsFromContract`: where the call fails, no events and the ledger asked from.
abbrev pub fetch_events : {Data : Type 0} → ℕ → Option (Answer Data) → Answer Data
fetch_events from none = record { events = []; latest_ledger = from }
fetch_events from (some answer) = answer

module _ {Data World : Type 0} (E : Table (ContractEvent Data))
    (process : ℕ → Data → World → Option ℕ × World) where
  -- The loop of a poll, with `maxProcessedLedger`; the database numbers new rows from `fresh` on.
  pub poll_each :
      (RawEvent Data → Saves) → ℕ → ℕ → List (RawEvent Data) → ℕ → Store E World → ℕ × Store E World
  poll_each saves now fresh [] reached s = (reached, s)
  poll_each saves now fresh (raw ∷ raws) reached s =
      let (ended, s') = store_and_process E process now fresh raw (saves raw) s in
      poll_each saves now (suc fresh) raws
        (if ended && ltb reached raw.ledger then raw.ledger else reached) s'

  pub poll :
      (RawEvent Data → Saves) → ℕ → ℕ → Option (Answer Data) → Indexed E World → Indexed E World
  unfolding poll_each advance_checkpoint from_ledger
  poll saves now fresh reply x =
      let answer = fetch_events (from_ledger x.last_processed) reply in
      let latest = answer.latest_ledger in
      let newer = ltb x.last_processed latest in
      let noted = if newer then latest else x.latest_contract in
      elim answer.events [
        | [] ↦ record x {
          latest_contract = noted;
          last_processed = if newer then latest else x.last_processed;
          last_indexed = if newer then advance_checkpoint latest x.last_indexed else x.last_indexed;
        }
        | raw ∷ raws ↦
            let (reached, store) =
              poll_each saves now fresh (sort_events answer.events) x.last_processed x.store in
            let final = max reached latest in
            record {
              store = store;
              latest_contract = noted;
              last_processed = final;
              last_indexed = advance_checkpoint final x.last_indexed;
            }
      ]

  pub reindex : ℕ → Indexed E World → Indexed E World
  reindex from x = record x { last_processed = from - 1 }
