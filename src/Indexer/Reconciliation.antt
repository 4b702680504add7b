-- ===== src/Indexer/Reconciliation.antt =====
-- backend/src/indexer/reconciliation.service.ts: a second checkpoint follows the chain, and events that
-- the table lacks are filled in. `answer` is what the node says to `getEvents`, `none` where the call
-- fails.
pub mod Reaching
use paya_dev.Base.{
  ℕ, suc, ◌+◌, ◌-◌, min, max, ◌||◌, Option, none, some, List, [], ◌∷◌, ltb, leb, if◌then◌else◌,
  is_some,
}
use paya_dev.Table.{Table}
use paya_dev.Indexer.{RawEvent, ContractEvent, new_event, is_at}

-- `ChainSyncCheckpoint`
pub record Checkpoint : Type 0 where
  pub last_indexed_ledger : ℕ
  pub chain_head_ledger : ℕ
  pub last_reconciled_from : ℕ
  pub last_reconciled_to : ℕ
  pub last_reconciled_at : Option ℕ
  pub last_backfill_count : ℕ

-- `getReconcileWindow`, of the configured number
pub reconcile_window : Option ℕ → ℕ
reconcile_window none = 200
reconcile_window (some w) = if ltb 0 w then w else 200

module _ {Data : Type 0} (E : Table (ContractEvent Data)) where
  backfill_each : ℕ → ℕ → ℕ → List (RawEvent Data) → ℕ → E.Contents → ℕ × E.Contents
  backfill_each now fresh to_ledger [] filled es = (filled, es)
  backfill_each now fresh to_ledger (raw ∷ raws) filled es =
      if ltb to_ledger raw.ledger || is_some (E.find_one (is_at raw.ledger raw.log_index) es)
      then backfill_each now (suc fresh) to_ledger raws filled es
      else backfill_each now (suc fresh) to_ledger raws (filled + 1)
          (E.insert (new_event now fresh raw) es)

  -- `backfillGap`: a failing call counts as no events.
  pub backfill_gap : ℕ → ℕ → ℕ → Option (List (RawEvent Data)) → E.Contents → ℕ × E.Contents
  unfolding backfill_each
  backfill_gap now fresh to_ledger none es = (0, es)
  backfill_gap now fresh to_ledger (some raws) es = backfill_each now fresh to_ledger raws 0 es

  -- `runReconciliation`; `head` is the chain's head, `none` where that call fails.
  pub run_reconciliation :
      ℕ
      → ℕ
      → ℕ
      → Option ℕ
      → Option (List (RawEvent Data))
      → Checkpoint × E.Contents
      → Checkpoint × E.Contents
  unfolding backfill_gap
  run_reconciliation now fresh window none answer (c, es) = (c, es)
  run_reconciliation now fresh window (some head) answer (c, es) =
      if leb head c.last_indexed_ledger
      then (record c { chain_head_ledger = head }, es)
      else let from = max (c.last_indexed_ledger + 1) 1 in
        let to_ledger = min (from + window - 1) head in
        let (filled, es') = backfill_gap now fresh to_ledger answer es in
        (
          record c {
            chain_head_ledger = head;
            last_reconciled_from = from;
            last_reconciled_to = to_ledger;
            last_reconciled_at = some now;
            last_backfill_count = filled;
            last_indexed_ledger = to_ledger;
          },
          es',
        )
