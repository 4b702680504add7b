-- ===== src/Gateway.antt =====
-- The calls of backend/src/soroban/soroban.service.ts that the services make, and their effect as
-- the services see it. The contract runs on a remote node: what a call returns is
-- an argument of the model (`none` where it throws), and the calls made are logged, newest first.
-- Of the arguments of `createMarket` the log keeps the title.
use paya_dev.Base.{ℕ, Option, none, some, List, ◌∷◌}
use paya_dev.Base.Int.{ℤ}
use paya_dev.Base.Action.{ok, err, Action}

pub data Call : Type 0 where
  create_market : ℕ → Call
  submit_prediction : ℕ → ℕ → ℕ → Option ℤ → Call
  claim_payout : ℕ → ℕ → Call
  resolve_market : ℕ → ℕ → Call
  cancel_market pause_market resume_market : ℕ → Call
  create_season : ℕ → ℕ → ℕ → Call
  finalize_event : ℕ → Call
  raise_dispute resolve_dispute : ℕ → ℕ → Call

-- A call that answers `reply`, with the log kept in the state `s`.
abbrev pub invoke {ℓ κ ι} :
    {S : Type ℓ} {E : Type κ} {A : Type ι}
    → (S → List Call)
    → (List Call → S → S)
    → Call
    → Option A
    → E
    → Action S E A
invoke get put c none e s = (err e, put (c ∷ get s) s)
invoke get put c (some a) e s = (ok a, put (c ∷ get s) s)
