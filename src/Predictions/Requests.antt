-- ===== src/Predictions/Requests.antt =====
-- Sequences of requests to backend/src/predictions/predictions.controller.ts.
use paya_dev.Base.{◌∙◌, [], List, ap, ℕ, ◌≤◌, ◌≡◌, refl, Option, ◌∷◌, arith}
use paya_dev.Base.Action.{Result, ok, err}
use paya_dev.Entities.{User, Market, Prediction, is_user}
use paya_dev.Table.{Table, count}
use paya_dev.Table.Laws.{count-update_same}
use paya_dev.Predictions.{
  Store, SubmitPrediction, PredictionResult, Error, submit, claim, update_note,
}
use paya_dev.Predictions.Ledger.{IsBalanced}
use paya_dev.Predictions.Claim.{
  ClaimEffect, claim-ClaimEffect, claim-IsBalanced, update_note-IsBalanced,
}
use paya_dev.Predictions.Submit.{Effect, submit-Effect, submit-IsBalanced}

-- The requests of a user, with the answers that the contract gives.
pub data Request : Type 0 where
  submits : ℕ → Option PredictionResult → ℕ → SubmitPrediction → Request
  claims : Option PredictionResult → ℕ → Request
  notes : ℕ → Option ℕ → Request

module _ (P : Table Prediction) (M : Table Market) (U : Table User) where
  handle : User → Request → Store P M U → Store P M U
  handle user (submits now reply fresh dto) s = (submit now reply fresh dto user s).1
  handle user (claims reply id) s = (claim reply id user s).1
  handle user (notes id note) s = (update_note id note user s).1

  -- A sequence of requests, each by its user.
  pub handle_all : List (User × Request) → Store P M U → Store P M U
  handle_all [] s = s
  handle_all ((user, r) ∷ rs) s = handle_all rs (handle user r s)

  -- Every caller is stored.
  abbrev pub Stored : List (User × Request) → Store P M U → Type 0
  Stored [] s = Unit
  Stored ((user, r) ∷ rs) s = (1 ≤ count U (is_user user.id) s.users) × Stored rs s

  handle-IsBalanced :
      (user : User) (r : Request) (s : Store P M U)
      → 1 ≤ count U (is_user user.id) s.users
      → IsBalanced P M U s
      → IsBalanced P M U (handle user r s)
  unfolding handle
  handle-IsBalanced user (submits now reply fresh dto) s u b =
      submit-IsBalanced P M U now reply fresh dto user s b u
  handle-IsBalanced user (claims reply id) s u b = claim-IsBalanced P M U reply id user s b
  handle-IsBalanced user (notes id note) s u b = update_note-IsBalanced P M U id note user s b

  submit-stored :
      (k : ℕ) (dto : SubmitPrediction) (user : User) (s : Store P M U)
      (r : Result Error Prediction × Store P M U)
      → Effect P M U dto user s r
      → count U (is_user k) r.1.users ≡ count U (is_user k) s.users
  submit-stored k dto user s (err e, t) same =
      ap (λ (w : Store P M U). count U (is_user k) w.users) same
  submit-stored k dto user s (ok p, t) (_, _, _, _, _, same) =
      ap (λ (w : Store P M U). count U (is_user k) w.users) same
      ∙ count-update_same U (is_user k) (is_user p.user) _ s.users (λ u. refl)

  claim-stored :
      (reply : Option PredictionResult) (id : ℕ) (user : User) (s : Store P M U)
      (r : Result Error Prediction × Store P M U)
      → ClaimEffect P M U reply id user s r
      → r.1.users ≡ s.users
  claim-stored reply id user s (err e, t) same = ap (λ (w : Store P M U). w.users) same
  claim-stored reply id user s (ok p, t) (_, _, _, _, _, _, same) =
      ap (λ (w : Store P M U). w.users) same

  note-stored :
      (id : ℕ) (text : Option ℕ) (user : User) (s : Store P M U)
      → (update_note id text user s).1.users ≡ s.users
  unfolding update_note
  note-stored id text user s = ground arith

  handle-stored :
      (k : ℕ) (user : User) (r : Request) (s : Store P M U)
      → count U (is_user k) (handle user r s).users ≡ count U (is_user k) s.users
  unfolding handle
  handle-stored k user (submits now reply fresh dto) s =
      submit-stored k dto user s _ (submit-Effect P M U now reply fresh dto user s)
  handle-stored k user (claims reply id) s =
      ap (count U (is_user k))
        (claim-stored reply id user s _ (claim-ClaimEffect P M U reply id user s))
  handle-stored k user (notes id note) s = ap (count U (is_user k)) (note-stored id note user s)

  Stored-handle :
      (rs : List (User × Request)) (user : User) (r : Request) (s : Store P M U)
      → Stored rs s
      → Stored rs (handle user r s)
  Stored-handle [] user r s h = tt
  Stored-handle ((u, q) ∷ rs) user r s h =
      (omega (arith, h.0, handle-stored u.id user r s), Stored-handle rs user r s h.1)

  -- From balanced books, after any sequence of requests by stored users, whatever the contract answers,
  -- the books are balanced: participant counts, pools and staked totals agree with the stored predictions, and no
  -- user has two predictions on one market.
  pub handle_all-IsBalanced :
      (rs : List (User × Request)) (s : Store P M U)
      → Stored rs s
      → IsBalanced P M U s
      → IsBalanced P M U (handle_all rs s)
  unfolding handle_all
  handle_all-IsBalanced [] s h b = b
  handle_all-IsBalanced ((user, r) ∷ rs) s h b =
      handle_all-IsBalanced rs (handle user r s) (Stored-handle rs user r s h.1)
        (handle-IsBalanced user r s h.0 b)
