-- ===== src/Matches/Grading.antt =====
-- The points of a prediction, against those of the contract, `grade` of
-- contracts/users/src/storage_types.rs.
use paya_dev.Base.{
  ℕ, ◌+◌, ◌*◌, ◌≤◌, ◌<◌, ◌≡◌, ◌↔◌, Bool, true, not, ◌&&◌, some, ltb, ◌==◌, if◌then◌else◌, arith,
}
use paya_dev.Matches.{
  Match, MatchPrediction, PredictionSubmitted, graded, Outcome, team_a, team_b, draw, same_outcome,
  outcome_of, predicted_outcome_of,
}

-- `POINTS_CORRECT_RESULT` and `POINTS_EXACT_SCORE` of the contract
abbrev pub points_correct_result : ℕ
points_correct_result = 1

abbrev pub points_exact_score : ℕ
points_exact_score = 3

-- `MatchResult::from_scores` of the contract
abbrev pub from_scores : ℕ → ℕ → Outcome
from_scores home away = if ltb away home then team_a else if home == away then draw else team_b

-- `Prediction::grade` of the contract: whether the result was predicted, and the points.
unfoldable pub grade : ℕ → ℕ → ℕ → ℕ → ℕ → Bool × ℕ
grade h a actual_home actual_away points_multiplier =
    let result_correct = same_outcome (from_scores h a) (from_scores actual_home actual_away) in
    let exact_correct = h == actual_home && a == actual_away in
    let base_points =
      if exact_correct
      then points_correct_result + points_exact_score
      else if result_correct
      then points_correct_result
      else 0 in
    (result_correct, base_points * points_multiplier)

-- On a match whose winning team is that of its scores, a prediction that was submitted by a scoreline
-- is marked as the contract marks it and earns the points that the contract gives, but for one case:
-- where the difference of goals was predicted and the score was not, it earns two multipliers more.
pub graded_by_score :
    (m : Match) (p : MatchPrediction) (d : PredictionSubmitted) (home away h a : ℕ)
    → m.home_score ≡ some home
    → m.away_score ≡ some away
    → m.winning_team ≡ some (outcome_of home away)
    → d.predicted_home_score ≡ some h
    → d.predicted_away_score ≡ some a
    → p.predicted_home_score ≡ some h
    → p.predicted_away_score ≡ some a
    → predicted_outcome_of d ≡ some p.predicted_outcome
    → ((graded m p).is_correct ≡ some (grade h a home away m.points_multiplier).0)
      × ((graded m p).points_earned
          ≡ (grade h a home away m.points_multiplier).1
            + (if h + away == home + a && not (h == home && a == away)
                then 2 * m.points_multiplier
                else 0))
unfolding graded predicted_outcome_of grade
graded_by_score m p d home away h a mh ma mw dh da ph pa o = (ground arith, ground arith)

-- A prediction earns at most four times the multiplier, and points exactly where it is marked as
-- correct, if the multiplier is not 0.
pub graded_bounds :
    (m : Match) (p : MatchPrediction)
    → 0 < m.points_multiplier
    → ((graded m p).points_earned ≤ 4 * m.points_multiplier)
      × (((graded m p).is_correct ≡ some true) ↔ (0 < (graded m p).points_earned))
unfolding graded
graded_bounds m p h = ground arith
