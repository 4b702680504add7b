-- ===== src/Indexer/Poll/Checkpoint.antt =====
-- Which ledgers the polls of backend/src/indexer/indexer.service.ts ask for.
use paya_dev.Base.{ℕ, Option, List, [], ◌∷◌}
use paya_dev.Table.{Table}
use paya_dev.Indexer.{RawEvent, ContractEvent, Saves}
use paya_dev.Indexer.Poll.{Answer, Indexed, from_ledger, poll, fetch_events}

module _ {Data World : Type 0} (E : Table (ContractEvent Data))
    (process : ℕ → Data → World → Option ℕ × World) where
  -- The ledger that a poll takes for the latest one.
  abbrev pub latest : Option (Answer Data) → Indexed E World → ℕ
  latest reply x = (fetch_events (from_ledger x.last_processed) reply).latest_ledger

-- A poll and its circumstances.
pub record Tick (Data : Type 0) : Type 0 where
  pub saves : RawEvent Data → Saves
  pub now : ℕ
  pub fresh : ℕ
  pub reply : Option (Answer Data)

module _ {Data World : Type 0} (E : Table (ContractEvent Data))
    (process : ℕ → Data → World → Option ℕ × World) where
  pub polls : List (Tick Data) → Indexed E World → Indexed E World
  polls [] x = x
  polls (t ∷ ts) x = polls ts (poll E process t.saves t.now t.fresh t.reply x)
