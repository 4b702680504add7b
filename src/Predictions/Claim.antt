-- ===== src/Predictions/Claim.antt =====
-- What `claim` and `updateNote` of backend/src/predictions/predictions.service.ts do to the predictions
-- and to the books.
use paya_dev.Base.{
  ℕ, ◌≤◌, ◌≡◌, refl, ◌∙◌, Bool, true, false, not, ◌&&◌, Option, none, some, arith, ◌==◌, weight,
  is_some, Option-cases, inl, inr,
}
use paya_dev.Base.Int.{ℤ, pos_part, neg_part}
use paya_dev.Base.Action.{Result, ok, err, is_ok}
use paya_dev.Entities.{User, Market, Prediction, is_market, is_prediction}
use paya_dev.Table.{Table, count}
use paya_dev.Table.Laws.{
  found-count, count-update, count-update_same, total-update_same, count_none,
}
use paya_dev.Predictions.{
  Store, PredictionResult, Error, already_claimed, claim, update_note, won, mark_claimed, is_owned,
}
use paya_dev.Predictions.Ledger.{at, IsBalanced}
use paya_dev.Predictions.Submit.{relog}

module _ (P : Table Prediction) (M : Table Market) (U : Table User) where
  -- A change of the predictions that keeps owner, market and stake of each keeps the books.
  touch-IsBalanced :
      (s : Store P M U) (q : Prediction → Bool) (g : Prediction → Prediction)
      → ((p : Prediction)
          → ((g p).user ≡ p.user)
            × ((g p).market ≡ p.market)
            × ((g p).stake_amount_stroops ≡ p.stake_amount_stroops))
      → IsBalanced P M U s
      → IsBalanced P M U (record s { predictions = P.update q g s.predictions })
  touch-IsBalanced s q g h b = record {
    markets = λ k. record {
      unique = (b.markets k).unique;
      counted = omega (arith, (b.markets k).counted, same (λ u m st. at (m == k) 1));
      pooled = omega (
        arith,
        (b.markets k).pooled,
        same (λ u m st. at (m == k) (pos_part st)),
        same (λ u m st. at (m == k) (neg_part st)),
      );
    };
    users = λ k. record {
      unique = (b.users k).unique;
      counted = omega (arith, (b.users k).counted, same (λ u m st. at (u == k) 1));
      staked = omega (
        arith,
        (b.users k).staked,
        same (λ u m st. at (u == k) (pos_part st)),
        same (λ u m st. at (u == k) (neg_part st)),
      );
    };
    single = λ i j. omega (arith, b.single i j, same (λ u m st. weight (u == i && m == j)));
  }
    where
      same :
          (f : ℕ → ℕ → ℤ → ℕ)
          → P.total (λ p. f p.user p.market p.stake_amount_stroops) (P.update q g s.predictions)
            ≡ P.total (λ p. f p.user p.market p.stake_amount_stroops) s.predictions
      same f =
          total-update_same P (λ p. f p.user p.market p.stake_amount_stroops) q g s.predictions
            (λ p. rw ((h p).0, (h p).1, (h p).2) refl)

  -- What a claim has done: it is refused and changes no table, or it has found the caller's
  -- unclaimed prediction, and marks it.
  abbrev pub ClaimEffect :
      Option PredictionResult
      → ℕ
      → User
      → Store P M U
      → Result Error Prediction × Store P M U
      → Type 0
  ClaimEffect reply id user s (err e, t) = t ≡ record s { calls = t.calls }
  ClaimEffect reply id user s (ok p, t) =
      (old : Prediction) × (result : PredictionResult) × (P.find_one (is_owned id user.id)
          s.predictions
        ≡ some old)
      × (old.payout_claimed ≡ false)
      × (reply ≡ some result)
      × (p ≡ mark_claimed result old)
      × (t ≡ record s {
        predictions = P.update (is_prediction old.id) (mark_claimed result) s.predictions;
        calls = t.calls;
      })

  claim_refused :
      (reply : Option PredictionResult) (id : ℕ) (user : User) (s t : Store P M U) (e : Error)
      → claim reply id user s ≡ (err e, t)
      → t ≡ record s { calls = t.calls }
  unfolding claim
  claim_refused reply id user s t e h = ground arith

  claim_accepted :
      (reply : Option PredictionResult) (id : ℕ) (user : User) (s t : Store P M U) (p : Prediction)
      → claim reply id user s ≡ (ok p, t)
      → ClaimEffect reply id user s (ok p, t)
  unfolding claim
  claim_accepted none id user s t p h = absurd (ground arith)
  claim_accepted (some result) id user s t p h =
      elim (Option-cases (P.find_one (is_owned id user.id) s.predictions)) [
        | inl e ↦ ground arith
        | inr (old, e) ↦ (old, result, e, ground arith, refl, ground arith, ground arith)
      ]

  pub claim-ClaimEffect :
      (reply : Option PredictionResult) (id : ℕ) (user : User) (s : Store P M U)
      → ClaimEffect reply id user s (claim reply id user s)
  claim-ClaimEffect reply id user s = go (claim reply id user s) refl
    where
      go :
          (r : Result Error Prediction × Store P M U)
          → claim reply id user s ≡ r
          → ClaimEffect reply id user s r
      go (ok p, t) h = claim_accepted reply id user s t p h
      go (err e, t) h = claim_refused reply id user s t e h

  claimed_again :
      (reply : Option PredictionResult) (id : ℕ) (user : User) (t : Store P M U) (p : Prediction)
      → P.find_one (is_owned id user.id) t.predictions ≡ some p
      → p.payout_claimed ≡ true
      → claim reply id user t ≡ (err already_claimed, t)
  unfolding claim
  claimed_again reply id user t p e h = ground arith

  -- After the marking of the row `k` no row of that id is found unclaimed.
  none_unclaimed :
      (result : PredictionResult) (id k u : ℕ) (s : P.Contents)
      → id ≡ k
      → count P
          (λ p. is_owned id u p && not p.payout_claimed)
          (P.update (is_prediction k) (mark_claimed result) s)
        ≡ 0
  none_unclaimed result id k u s e =
      count-update P (λ p. is_owned id u p && not p.payout_claimed) (is_prediction k)
        (mark_claimed result) s
      ∙ count_none P _ s (λ p. ground arith)

  marked_found :
      (result : PredictionResult) (id u : ℕ) (s : P.Contents) (old : Prediction)
      → P.find_one (is_owned id u) s ≡ some old
      → (p : Prediction) × (P.find_one
            (is_owned id u)
            (P.update (is_prediction old.id) (mark_claimed result) s)
          ≡ some p)
        × (p.payout_claimed ≡ true)
  marked_found result id u s old e = elim (Option-cases (P.find_one (is_owned id u) s')) [
    | inl lost_row ↦
        absurd (omega (arith, still_there, P.find_one_none (is_owned id u) s' lost_row))
    | inr (p, f) ↦ (p, f, is_marked p f)
  ]
    where
      s' : P.Contents
      s' = P.update (is_prediction old.id) (mark_claimed result) s

      passes : is_owned id u old ≡ true
      passes = P.find_one_passes (is_owned id u) s old e

      still_there : 1 ≤ count P (is_owned id u) s'
      still_there = omega (
        arith,
        found-count P (is_owned id u) (is_owned id u) s old e passes,
        count-update_same P (is_owned id u) (is_prediction old.id) (mark_claimed result) s
            (λ r. refl),
      )

      is_marked :
          (p : Prediction) → P.find_one (is_owned id u) s' ≡ some p → p.payout_claimed ≡ true
      is_marked p f =
          let own = P.find_one_passes (is_owned id u) s' p f in
          let few =
            P.find_one_stands (is_owned id u) s' p
              (λ r. weight (is_owned id u r && not r.payout_claimed)) f in
          ground (arith, none_unclaimed result id old.id u s (ground (arith, passes)))

  -- A payout is claimed once: after a claim that succeeded, every further claim of the same
  -- prediction by the same user is refused as already claimed, and neither calls the contract nor
  -- writes.
  pub claim_once :
      (first second : Option PredictionResult) (id : ℕ) (user : User) (s t : Store P M U)
      (p : Prediction)
      → claim first id user s ≡ (ok p, t)
      → claim second id user t ≡ (err already_claimed, t)
  claim_once first second id user s t p h =
      let (old, result, found, _, _, _, same) = claim_accepted first id user s t p h in
      let (q, again, marked) = marked_found result id user.id s.predictions old found in
      claimed_again second id user t q (rw same again) marked

  -- Over a stored prediction of the caller and its stored market, a claim succeeds exactly when the
  -- prediction is unclaimed, the market is resolved to its outcome, and the contract pays. Whether
  -- the market is cancelled is not asked.
  pub claim_accepts :
      (reply : Option PredictionResult) (id : ℕ) (user : User) (s : Store P M U) (p : Prediction)
      (m : Market)
      → P.find_one (is_owned id user.id) s.predictions ≡ some p
      → M.find_one (is_market p.market) s.markets ≡ some m
      → is_ok (claim reply id user s) ≡ (
          not p.payout_claimed
          && m.is_resolved
          && won m.resolved_outcome p.chosen_outcome
          && is_some reply)
  unfolding claim
  claim_accepts reply id user s p m e f = ground arith

  pub claim-IsBalanced :
      (reply : Option PredictionResult) (id : ℕ) (user : User) (s : Store P M U)
      → IsBalanced P M U s
      → IsBalanced P M U (claim reply id user s).1
  claim-IsBalanced reply id user s b =
      after (claim reply id user s) (claim-ClaimEffect reply id user s)
    where
      after :
          (r : Result Error Prediction × Store P M U)
          → ClaimEffect reply id user s r
          → IsBalanced P M U r.1
      after (err e, t) same = rw same (relog P M U s t.calls b)
      after (ok p, t) (old, result, _, _, _, _, same) = rw same (
          relog P M U _ t.calls (
            touch-IsBalanced s (is_prediction old.id) (mark_claimed result)
              (λ q. (refl, refl, refl)) b))

  pub update_note-IsBalanced :
      (id : ℕ) (note : Option ℕ) (user : User) (s : Store P M U)
      → IsBalanced P M U s
      → IsBalanced P M U (update_note id note user s).1
  unfolding update_note
  update_note-IsBalanced id note user s b =
      elim (Option-cases (P.find_one (is_owned id user.id) s.predictions)) [
        | inl e ↦ rw (e, update_note) b
        | inr (p, e) ↦
            rw (e, update_note)
              (touch-IsBalanced s (is_prediction p.id) (λ q. record q { note = note })
                (λ q. (refl, refl, refl)) b)
      ]
