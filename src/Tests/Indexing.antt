-- ===== src/Tests/Indexing.antt =====
-- The indexer on tables held in memory.
use paya_dev.Base.{
  ℕ, ◌+◌, ◌≤◌, ◌≡◌, refl, true, false, Option, none, some, [], ◌∷◌, ◌==◌, if◌then◌else◌, arith,
}
use paya_dev.Table.{count}
use paya_dev.Table.Memory.{memory}
use paya_dev.Indexer
use paya_dev.Indexer.{
  RawEvent, ContractEvent, Saves, failed, pending, store_and_process, retry_one, max_retries,
}
use paya_dev.Indexer.Records.{times, is_done, IsRecorded}
use paya_dev.Indexer.Once.{here, next, stores, Reach, handled_once}
use paya_dev.Indexer.Poll.{Indexed}
use paya_dev.Indexer.Poll.Checkpoint.{Tick}
use paya_dev.Indexer.Reconciliation.{Checkpoint}

-- A handler that adds up the payloads, and throws on 0.
abbrev adding : ℕ → ℕ → ℕ → Option ℕ × ℕ
adding event_type n w = if n == 0 then (some 9, w) else (none, w + n)

abbrev no_events : Indexer.Store (memory (ContractEvent ℕ)) ℕ
no_events = record { events = []; world = 0; handled = []; lost = [] }

no_events-IsRecorded : IsRecorded (memory (ContractEvent ℕ)) no_events
no_events-IsRecorded = record {
  ids = λ k. ground arith;
  places = λ l i. ground arith;
  noted = λ l i. refl;
}

abbrev seven : RawEvent ℕ
seven = record { ledger = 5; log_index = 0; event_type = 1; payload = 7; tx_hash = none }

abbrev unmarked_once : Saves
unmarked_once = record { stored = true; marked = some 4; noted = true }

abbrev all_saved : Saves
all_saved = record { stored = true; marked = none; noted = true }

-- The row is stored and noted, but cannot be saved as processed at first.
abbrev once : Indexer.Store (memory (ContractEvent ℕ)) ℕ
once = (store_and_process (memory (ContractEvent ℕ)) adding 10 1 seven unmarked_once no_events).1

abbrev twice : Indexer.Store (memory (ContractEvent ℕ)) ℕ
twice = (store_and_process (memory (ContractEvent ℕ)) adding 11 2 seven all_saved once).1

fetched_twice : Reach (memory (ContractEvent ℕ)) adding no_events twice
unfolding store_and_process Indexer.run_handler
fetched_twice =
    next (next here (stores 10 1 seven unmarked_once refl)) (stores 11 2 seven all_saved refl)

handled_once_example :
    (times 5 0 twice.handled
      ≡ count (memory (ContractEvent ℕ)) (is_done (memory (ContractEvent ℕ)) 5 0) twice.events
        + times 5 0 twice.lost)
    × (times 5 0 twice.handled ≤ 1 + times 5 0 twice.lost)
handled_once_example =
    handled_once (memory (ContractEvent ℕ)) adding no_events twice 5 0 no_events-IsRecorded
      fetched_twice

abbrev at_four : Indexed (memory (ContractEvent ℕ)) ℕ
at_four = record { store = no_events; last_processed = 4; latest_contract = 4; last_indexed = 4 }

-- The node is at ledger 20 and gives one event, which cannot be stored.
abbrev lost_tick : Tick ℕ
lost_tick = record {
  saves = λ raw. record { stored = false; marked = none; noted = true };
  now = 10;
  fresh = 1;
  reply = some (record { events = seven ∷ []; latest_ledger = 20 });
}

abbrev start : Checkpoint
start = record {
  last_indexed_ledger = 0;
  chain_head_ledger = 0;
  last_reconciled_from = 0;
  last_reconciled_to = 0;
  last_reconciled_at = none;
  last_backfill_count = 0;
}
