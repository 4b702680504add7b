-- ===== src/Predictions/Submit.antt =====
-- `submit` of backend/src/predictions/predictions.service.ts: what an accepted request writes, and which
-- requests are refused.
use paya_dev.Base.{
  ℕ, ◌≤◌, ◌≡◌, refl, Option, none, some, arith, List, ==_refl, Option-cases, inl, inr,
}
use paya_dev.Base.Action.{Result, ok, err}
use paya_dev.Entities.{User, Market, Prediction, is_market, is_user}
use paya_dev.Gateway.{Call}
use paya_dev.Table.{Table, count}
use paya_dev.Table.Laws.{found-count}
use paya_dev.Predictions.{
  Store, SubmitPrediction, PredictionResult, Error, submit, is_prediction_of,
}
use paya_dev.Predictions.Ledger.{IsBalanced}
use paya_dev.Predictions.Writing.{written, written-IsBalanced}

module _ (P : Table Prediction) (M : Table Market) (U : Table User) where
  -- What a request has done: it is refused and changes no table, or it has found its market and no
  -- earlier prediction, and writes.
  abbrev pub Effect :
      SubmitPrediction → User → Store P M U → Result Error Prediction × Store P M U → Type 0
  Effect dto user s (err e, t) = t ≡ record s { calls = t.calls }
  Effect dto user s (ok p, t) =
      (m : Market) × (M.find_one (is_market dto.market_id) s.markets ≡ some m)
      × (P.find_one (is_prediction_of user.id m.id) s.predictions ≡ none)
      × (p.user ≡ user.id)
      × (p.market ≡ m.id)
      × (t ≡ record (written P M U p s) { calls = t.calls })

  submit_refused :
      (now : ℕ) (reply : Option PredictionResult) (fresh : ℕ) (dto : SubmitPrediction) (user : User)
      (s t : Store P M U) (e : Error)
      → submit now reply fresh dto user s ≡ (err e, t)
      → t ≡ record s { calls = t.calls }
  unfolding submit
  submit_refused now reply fresh dto user s t e h = ground arith

  submit_accepted :
      (now : ℕ) (reply : Option PredictionResult) (fresh : ℕ) (dto : SubmitPrediction) (user : User)
      (s t : Store P M U) (p : Prediction)
      → submit now reply fresh dto user s ≡ (ok p, t)
      → Effect dto user s (ok p, t)
  unfolding submit
  submit_accepted now reply fresh dto user s t p h =
      elim (Option-cases (M.find_one (is_market dto.market_id) s.markets)) [
        | inl e ↦ ground arith
        | inr (m, e) ↦ (m, e, ground arith, ground arith, ground arith, ground arith)
      ]

  -- The log of calls is no part of the books.
  pub relog :
      (s : Store P M U) (cs : List Call)
      → IsBalanced P M U s
      → IsBalanced P M U (record s { calls = cs })
  relog s cs b = record {
    markets = λ k. record {
      unique = (b.markets k).unique;
      counted = (b.markets k).counted;
      pooled = (b.markets k).pooled;
    };
    users = λ k. record {
      unique = (b.users k).unique;
      counted = (b.users k).counted;
      staked = (b.users k).staked;
    };
    single = b.single;
  }

  Effect-IsBalanced :
      (dto : SubmitPrediction) (user : User) (s : Store P M U)
      (r : Result Error Prediction × Store P M U)
      → IsBalanced P M U s
      → 1 ≤ count U (is_user user.id) s.users
      → Effect dto user s r
      → IsBalanced P M U r.1
  Effect-IsBalanced dto user s (err e, t) b u same = rw same (relog s t.calls b)
  Effect-IsBalanced dto user s (ok p, t) b u (m, found, free, eu, em, same) = rw same (
      relog (written P M U p s) t.calls (
        written-IsBalanced P M U p s b
          (rw em (
            found-count M (is_market m.id) (is_market dto.market_id) s.markets m found
              (==_refl m.id)))
          (rw eu u)
          (rw (eu, em) (P.find_one_none (is_prediction_of user.id m.id) s.predictions free))))

  pub submit-Effect :
      (now : ℕ) (reply : Option PredictionResult) (fresh : ℕ) (dto : SubmitPrediction) (user : User)
      (s : Store P M U)
      → Effect dto user s (submit now reply fresh dto user s)
  submit-Effect now reply fresh dto user s = go (submit now reply fresh dto user s) refl
    where
      go :
          (r : Result Error Prediction × Store P M U)
          → submit now reply fresh dto user s ≡ r
          → Effect dto user s r
      go (ok p, t) h = submit_accepted now reply fresh dto user s t p h
      go (err e, t) h = submit_refused now reply fresh dto user s t e h

  -- Whatever a request by a stored user does, accepted or refused, every market's participant count
  -- and pool and every user's prediction count and staked total stay equal to the number and the
  -- stakes of the stored predictions, and no user comes to have two predictions on one market.
  pub submit-IsBalanced :
      (now : ℕ) (reply : Option PredictionResult) (fresh : ℕ) (dto : SubmitPrediction) (user : User)
      (s : Store P M U)
      → IsBalanced P M U s
      → 1 ≤ count U (is_user user.id) s.users
      → IsBalanced P M U (submit now reply fresh dto user s).1
  submit-IsBalanced now reply fresh dto user s b u =
      Effect-IsBalanced dto user s _ b u (submit-Effect now reply fresh dto user s)
