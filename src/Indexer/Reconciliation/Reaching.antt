-- ===== src/Indexer/Reconciliation/Reaching.antt =====
-- The checkpoint of backend/src/indexer/reconciliation.service.ts, over many runs.
use paya_dev.Base.{
  ℕ, suc, ◌+◌, ◌-◌, ◌≤◌, min, max, ◌≡◌, Option, none, some, List, [], ◌∷◌, arith, Option-cases, inl,
  inr,
}
use paya_dev.Table.{Table, count}
use paya_dev.Table.Laws.{count-insert_le_one}
use paya_dev.Indexer.{RawEvent, ContractEvent, new_event, is_at}
use paya_dev.Indexer.Reconciliation.{Checkpoint, run_reconciliation, backfill_gap, backfill_each}

-- A run: the time, the next row id, and what the node answers.
abbrev pub Run : Type 0 → Type 0
Run Data = ℕ × ℕ × Option (List (RawEvent Data))

module _ {Data : Type 0} (E : Table (ContractEvent Data)) where
  -- Runs while the chain's head stays.
  pub runs : ℕ → ℕ → List (Run Data) → Checkpoint × E.Contents → Checkpoint × E.Contents
  runs window head [] x = x
  runs window head ((now, fresh, answer) ∷ rs) x =
      runs window head rs (run_reconciliation E now fresh window (some head) answer x)

  each_single :
      (now fresh to_ledger : ℕ) (raws : List (RawEvent Data)) (filled : ℕ) (es : E.Contents)
      → ((l i : ℕ) → count E (is_at l i) es ≤ 1)
      → (l i : ℕ) → count E (is_at l i) (backfill_each E now fresh to_ledger raws filled es).1 ≤ 1
  unfolding backfill_each
  each_single now fresh to_ledger [] filled es h l i = h l i
  each_single now fresh to_ledger (raw ∷ raws) filled es h l i =
      elim (Option-cases (E.find_one (is_at raw.ledger raw.log_index) es)) [
        | inr (x, e) ↦ ground (arith, e, each_single now (suc fresh) to_ledger raws filled es h l i)
        | inl e ↦ ground (
          arith,
          e,
          each_single now (suc fresh) to_ledger raws filled es h l i,
          each_single now (suc fresh) to_ledger raws (filled + 1)
              (E.insert (new_event now fresh raw) es) (grown e) l i,
        )
      ]
    where
      grown :
          E.find_one (is_at raw.ledger raw.log_index) es ≡ none
          → (l' i' : ℕ) → count E (is_at l' i') (E.insert (new_event now fresh raw) es) ≤ 1
      grown e l' i' =
          count-insert_le_one E (is_at l' i') (new_event now fresh raw) es (h l' i') (λ p.
            let same_ledger : raw.ledger ≡ l' = ground arith in
            let same_index : raw.log_index ≡ i' = ground arith in
            rw (← same_ledger, ← same_index)
              (E.find_one_none (is_at raw.ledger raw.log_index) es e))

  -- A run of the reconciliation keeps at most one row for each place on the chain.
  pub run_keeps_places :
      (window now fresh : ℕ) (head : Option ℕ) (answer : Option (List (RawEvent Data)))
      (x : Checkpoint × E.Contents)
      → ((l i : ℕ) → count E (is_at l i) x.1 ≤ 1)
      → (l i : ℕ) → count E (is_at l i) (run_reconciliation E now fresh window head answer x).1 ≤ 1
  unfolding run_reconciliation backfill_gap
  run_keeps_places window now fresh none answer (c, es) h l i = h l i
  run_keeps_places window now fresh (some head) none (c, es) h l i = ground (arith, h l i)
  run_keeps_places window now fresh (some head) (some raws) (c, es) h l i =
      let to_ledger = min (max (c.last_indexed_ledger + 1) 1 + window - 1) head in
      ground (arith, h l i, each_single now fresh to_ledger raws 0 es h l i)
