-- ===== src/Disputes.antt =====
-- backend/src/disputes/disputes.service.ts: disputes of resolved markets. The records on chain are
-- made in the background: `create` and `resolve` leave a task behind, which runs at any later time.
-- Seven days are taken as so many milliseconds.
pub mod Window
pub mod Records
use paya_dev.Base.{
  ℕ, ◌+◌, ◌-◌, Bool, true, false, ◌&&◌, not, Option, none, some, List, ◌∷◌, ltb, leb, ◌==◌, is_some,
}
use paya_dev.Base.Action.{Action, gets, or_throw, ◌>>=◌, ◌>>◌, throw_if, modify}
use paya_dev.Entities.{User, Market, is_market}
use paya_dev.Gateway.{Call, raise_dispute, resolve_dispute}
use paya_dev.Table.{Table}

pub data Error : Type 0 where
  market_not_found dispute_not_found : Error  -- NotFoundException
  market_unresolved window_passed not_pending : Error  -- BadRequestException
  already_raised : Error  -- ConflictException

pub data DisputeStatus : Type 0 where
  pending resolved : DisputeStatus

pub data DisputeResolution : Type 0 where
  upheld overturned : DisputeResolution

pub record Dispute : Type 0 where
  pub id : ℕ
  pub market : ℕ  -- the market's id
  pub disputant : ℕ  -- the user's id
  pub reason : ℕ
  pub status : DisputeStatus
  pub resolution : Option DisputeResolution
  pub admin_notes : Option ℕ
  pub resolved_by : Option ℕ
  pub resolved_at : Option ℕ
  pub on_chain_dispute_id : Option ℕ
  pub on_chain_resolution_tx : Option ℕ
  pub created_at : ℕ

-- `recordDisputeOnChain` and `recordResolutionOnChain`, with their arguments.
pub data Task : Type 0 where
  record_dispute : ℕ → ℕ → ℕ → Task
  record_resolution : ℕ → ℕ → DisputeResolution → Task

pub record Store (D : Table Dispute) (M : Table Market) : Type 0 where
  pub disputes : D.Contents
  pub markets : M.Contents
  pub tasks : List Task  -- newest first
  pub calls : List Call

-- Seven days.
abbrev pub dispute_window : ℕ
dispute_window = 604800000

abbrev pub is_dispute : ℕ → Dispute → Bool
is_dispute k d = d.id == k

-- `where: { marketId }`
abbrev pub is_about : ℕ → Dispute → Bool
is_about m d = d.market == m

abbrev pub is_pending : DisputeStatus → Bool
is_pending pending = true
is_pending resolved = false

-- `new Date(market.resolved_at)` seven days on; of a null it is taken from the epoch.
abbrev pub window_end : Market → ℕ
window_end m = elim m.resolved_at [ none ↦ dispute_window | some t ↦ t + dispute_window ]

abbrev pub new_dispute : ℕ → ℕ → ℕ → ℕ → User → Dispute
new_dispute now fresh market_id reason user = record {
  id = fresh;
  market = market_id;
  disputant = user.id;
  reason = reason;
  status = pending;
  resolution = none;
  admin_notes = none;
  resolved_by = none;
  resolved_at = none;
  on_chain_dispute_id = none;
  on_chain_resolution_tx = none;
  created_at = now;
}

abbrev pub decided : ℕ → DisputeResolution → Option ℕ → User → Dispute → Dispute
decided now resolution notes admin_user d = record d {
  status = resolved;
  resolution = some resolution;
  admin_notes = notes;
  resolved_by = some admin_user.id;
  resolved_at = some now;
}

abbrev pub raised_as : ℕ → Dispute → Dispute
raised_as chain_id d = record d { on_chain_dispute_id = some chain_id }

abbrev pub settled_by : ℕ → Dispute → Dispute
settled_by tx d = record d { on_chain_resolution_tx = some tx }

module _ {D : Table Dispute} {M : Table Market} where
  pub find_one : ℕ → Action (Store D M) Error Dispute
  find_one id s = or_throw (D.find_one (is_dispute id) s.disputes) dispute_not_found s

  pub create : ℕ → ℕ → ℕ → ℕ → User → Action (Store D M) Error Dispute
  unfolding find_one
  create now fresh market_id reason user = do
    market ← or_throw (← gets (λ s. M.find_one (is_market market_id) s.markets)) market_not_found
    throw_if (not market.is_resolved) market_unresolved
    throw_if (ltb (window_end market) now) window_passed
    existing ← gets (λ s. D.find_one (is_about market_id) s.disputes)
    throw_if (is_some existing) already_raised
    modify λ s. record s {
      disputes = D.insert (new_dispute now fresh market_id reason user) s.disputes;
      tasks = record_dispute fresh market.on_chain_market_id reason ∷ s.tasks;
    }
    find_one fresh

  -- The market of a dispute is there by its foreign key; a missing one is `market_not_found` here.
  pub resolve : ℕ → ℕ → DisputeResolution → Option ℕ → User → Action (Store D M) Error Dispute
  unfolding find_one
  resolve now id resolution notes admin_user = do
    dispute ← find_one id
    market ←
        or_throw (← gets (λ s. M.find_one (is_market dispute.market) s.markets)) market_not_found
    throw_if (not (is_pending dispute.status)) not_pending
    modify λ s. record s {
      disputes =
          D.update (is_dispute dispute.id) (decided now resolution notes admin_user) s.disputes;
      tasks = record_resolution dispute.id market.on_chain_market_id resolution ∷ s.tasks;
    }
    find_one id

  -- One task runs, with what the contract answers; what it throws is only logged.
  pub run_task : Option ℕ → Task → Store D M → Store D M
  run_task reply (record_dispute id chain_market reason) s =
      let called = record s { calls = raise_dispute chain_market reason ∷ s.calls } in
      elim reply [
        | none ↦ called
        | some chain_id ↦ record called {
          disputes = D.update (is_dispute id) (raised_as chain_id) s.disputes;
        }
      ]
  run_task reply (record_resolution id chain_market resolution) s =
      elim (D.find_one (is_dispute id) s.disputes) [
        | none ↦ s
        | some d ↦ elim d.on_chain_dispute_id [
          | none ↦ s
          | some chain_id ↦
              let called = record s { calls = resolve_dispute chain_market chain_id ∷ s.calls } in
              elim reply [
                | none ↦ called
                | some tx ↦ record called {
                  disputes = D.update (is_dispute id) (settled_by tx) s.disputes;
                }
              ]
        ]
      ]

  unfoldable pub check_dispute_window : ℕ → ℕ → Store D M → Bool
  check_dispute_window now market_id s = elim (M.find_one (is_market market_id) s.markets) [
    | none ↦ false
    | some m ↦ m.is_resolved && leb now (window_end m)
  ]
