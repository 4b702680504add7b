-- ===== src/Matches/Results.antt =====
-- The result of a match, and the grades of the predictions on it.
use paya_dev.Base.{
  ℕ, ◌≤◌, ◌≡◌, refl, ap, ◌∙◌, Bool, true, false, ◌&&◌, not, none, some, ◌==◌, is_some, arith,
  Bool-cases, Option-cases, inl, inr, ==_refl,
}
use paya_dev.Base.Action.{ok}
use paya_dev.Entities.{User}
use paya_dev.Table.{Table, count}
use paya_dev.Table.Laws.{count-update, found-count, count_none, count_ext, count_exclusive}
use paya_dev.Matches.{
  Outcome, Event, Match, MatchPrediction, ResultSubmitted, Store, same_outcome, is_match, on_chain,
  is_for, number, team_of, graded, with_result,
}
use paya_dev.Matches.Handlers.{submit_result}

abbrev pub is_ungraded : MatchPrediction → Bool
is_ungraded p = not (is_some p.is_correct)

abbrev pub marked_correct : MatchPrediction → Bool
marked_correct p = elim p.is_correct [ none ↦ false | some b ↦ b ]

abbrev pub expects : Outcome → MatchPrediction → Bool
expects w p = same_outcome p.predicted_outcome w

module _ {E : Table Event} {M : Table Match} {P : Table MatchPrediction} {U : Table User} where
  -- The first result of a match, where its grades are saved.
  accepts :
      (now : ℕ) (d : ResultSubmitted) (m : Match) (w : Outcome) (s : Store E M P U)
      → (d.match_id == 0) ≡ false
      → M.find_one (on_chain d.match_id) s.matches ≡ some m
      → m.result_submitted ≡ false
      → team_of (number d.winning_team) ≡ some w
      → submit_result now true true d s ≡ (
        ok tt,
        record s {
          matches = M.update (is_match m.id) (with_result now d w) s.matches;
          predictions = P.update (is_for m.id) (graded (with_result now d w m)) s.predictions;
        },
      )
  unfolding submit_result
  accepts now d m w s a b e good = rw (a, b, e, good) refl

  -- When a result with a valid winner comes in for a match that has none, and all writes succeed,
  -- no prediction on the match is left without a grade, those marked as correct are exactly those
  -- that expected the result, and the predictions on other matches stay as they are.
  pub result_grades :
      (now : ℕ) (d : ResultSubmitted) (m : Match) (w : Outcome) (s : Store E M P U)
      → (d.match_id == 0) ≡ false
      → M.find_one (on_chain d.match_id) s.matches ≡ some m
      → m.result_submitted ≡ false
      → team_of (number d.winning_team) ≡ some w
      → let after = (submit_result now true true d s).1.predictions in
        (count P (λ p. is_for m.id p && is_ungraded p) after ≡ 0)
        × (count P (λ p. is_for m.id p && marked_correct p) after
            ≡ count P (λ p. is_for m.id p && expects w p) s.predictions)
        × ((test : MatchPrediction → Bool)
            → count P (λ p. not (is_for m.id p) && test p) after
              ≡ count P (λ p. not (is_for m.id p) && test p) s.predictions)
  unfolding graded
  result_grades now d m w s a b e good = rw (accepts now d m w s a b e good) (
    count-update P (λ p. is_for m.id p && is_ungraded p) (is_for m.id) (graded m') s.predictions
        ∙ count_none P _ s.predictions (λ p. ground arith),
    count-update P (λ p. is_for m.id p && marked_correct p) (is_for m.id) (graded m') s.predictions
        ∙ count_ext P _ _ s.predictions (λ p. ground arith),
    λ test.
        count-update P (λ p. not (is_for m.id p) && test p) (is_for m.id) (graded m') s.predictions
        ∙ count_ext P _ _ s.predictions (λ p. ground arith),
  )
    where
      m' : Match
      m' = with_result now d w m

  -- No match with the on-chain id is left without a result.
  IsDecided : ℕ → Store E M P U → Type 0
  IsDecided k s = count M (λ x. on_chain k x && not x.result_submitted) s.matches ≡ 0

  -- What the handler does to the matches, for a first result.
  writes :
      (now : ℕ) (saved notified : Bool) (d : ResultSubmitted) (m : Match) (w : Outcome)
      (s : Store E M P U)
      → (d.match_id == 0) ≡ false
      → M.find_one (on_chain d.match_id) s.matches ≡ some m
      → m.result_submitted ≡ false
      → team_of (number d.winning_team) ≡ some w
      → (submit_result now saved notified d s).1.matches
        ≡ M.update (is_match m.id) (with_result now d w) s.matches
  unfolding submit_result
  writes now true true d m w s a b e good = rw (a, b, e, good) refl
  writes now true false d m w s a b e good = rw (a, b, e, good) refl
  writes now false _ d m w s a b e good = rw (a, b, e, good) refl

  stays :
      (now : ℕ) (saved notified : Bool) (d : ResultSubmitted) (s : Store E M P U)
      → IsDecided d.match_id s
      → submit_result now saved notified d s ≡ (ok tt, s)
  unfolding submit_result IsDecided
  stays now saved notified d s done = elim (Bool-cases (d.match_id == 0)) [
    | inl a ↦ rw a refl
    | inr a ↦ elim (Option-cases (M.find_one (on_chain d.match_id) s.matches)) [
      | inl b ↦ rw (a, b) refl
      | inr (m, b) ↦
          let found =
            found-count M (λ x. on_chain d.match_id x && not x.result_submitted)
              (on_chain d.match_id) s.matches m b in
          let passes = M.find_one_passes (on_chain d.match_id) s.matches m b in
          let e : m.result_submitted ≡ true = ground (arith, found, passes, done) in
          rw (a, b, e) refl
    ]
  ]

  decided :
      (now : ℕ) (saved notified : Bool) (d : ResultSubmitted) (m : Match) (w : Outcome)
      (s : Store E M P U)
      → count M (on_chain d.match_id) s.matches ≤ 1
      → (d.match_id == 0) ≡ false
      → M.find_one (on_chain d.match_id) s.matches ≡ some m
      → team_of (number d.winning_team) ≡ some w
      → IsDecided d.match_id (submit_result now saved notified d s).1
  unfolding IsDecided
  decided now saved notified d m w s few a b good = elim (Bool-cases m.result_submitted) [
    | inl e ↦
        let done =
          count_exclusive M (λ x. not x.result_submitted) (on_chain d.match_id)
            (on_chain d.match_id) m s.matches few b passes (ap not e) in
        rw (stays now saved notified d s done) done
    | inr e ↦ rw (writes now saved notified d m w s a b e good) (
        count-update M _ (is_match m.id) (with_result now d w) s.matches
        ∙ count_ext M _
            (λ x. on_chain d.match_id x && (not (is_match m.id x) && not x.result_submitted))
            s.matches (λ x. ground arith)
        ∙ count_exclusive M (λ x. not (is_match m.id x) && not x.result_submitted)
            (on_chain d.match_id) (on_chain d.match_id) m s.matches few b passes
            (ground (arith, ==_refl m.id)))
  ]
    where
      passes : on_chain d.match_id m ≡ true
      passes = M.find_one_passes (on_chain d.match_id) s.matches m b

  -- A result is final: once a result with a valid winner came in for a stored match, whose on-chain
  -- id is unique and not 0, every later result for the match is accepted without an error and
  -- changes nothing, even where the grades of the predictions could not be saved.
  pub result_is_final :
      (now now' : ℕ) (saved notified saved' notified' : Bool) (d d' : ResultSubmitted) (m : Match)
      (w : Outcome) (s : Store E M P U)
      → count M (on_chain d.match_id) s.matches ≤ 1
      → (d.match_id == 0) ≡ false
      → M.find_one (on_chain d.match_id) s.matches ≡ some m
      → team_of (number d.winning_team) ≡ some w
      → d'.match_id ≡ d.match_id
      → submit_result now' saved' notified' d' (submit_result now saved notified d s).1
        ≡ (ok tt, (submit_result now saved notified d s).1)
  result_is_final now now' saved notified saved' notified' d d' m w s few a b good same =
      stays now' saved' notified' d' _ (rw same (decided now saved notified d m w s few a b good))
