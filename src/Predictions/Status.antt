-- ===== src/Predictions/Status.antt =====
-- The status of a prediction: `computeStatus`, and the filter of `findMine`, a condition on the
-- joined row of a prediction and its market.
use paya_dev.Base.{
  ℕ, ◌≡◌, ◌↔◌, Bool, true, false, ◌&&◌, not, Option, none, some, arith, ◌==◌, if◌then◌else◌,
  is_some,
}
use paya_dev.Entities.{Market, Prediction}
use paya_dev.Predictions.{won}

pub data Status : Type 0 where
  active won_bet lost pending : Status

pub compute_status : Prediction → Market → Status
compute_status prediction market =
    if market.is_cancelled
    then pending
    else if not market.is_resolved
    then active
    else if won market.resolved_outcome prediction.chosen_outcome
    then won_bet
    else lost

-- `market.resolved_outcome != prediction.chosen_outcome` in SQL: not true of a null.
abbrev differs : Option ℕ → ℕ → Bool
differs none chosen = false
differs (some outcome) chosen = not (outcome == chosen)

-- The conditions that `findMine` adds for a status.
pub passes_status : Status → Prediction → Market → Bool
passes_status active prediction market = not market.is_resolved && not market.is_cancelled
passes_status won_bet prediction market =
    market.is_resolved
    && not market.is_cancelled
    && won market.resolved_outcome prediction.chosen_outcome
passes_status lost prediction market =
    market.is_resolved
    && not market.is_cancelled
    && differs market.resolved_outcome prediction.chosen_outcome
passes_status pending prediction market = market.is_cancelled

-- The filter for a status lets through exactly the predictions that are shown with that status and
-- whose market is not resolved without an outcome, or is cancelled; so that no filter lets through a
-- prediction on a market that is resolved without an outcome and not cancelled.
pub shown_iff_filtered :
    (st : Status) (p : Prediction) (m : Market)
    → (passes_status st p m ≡ true) ↔ (
        (compute_status p m ≡ st)
        × ((m.is_resolved && not m.is_cancelled && not (is_some m.resolved_outcome)) ≡ false))
unfolding passes_status compute_status
shown_iff_filtered active p m = ground arith
shown_iff_filtered won_bet p m = ground arith
shown_iff_filtered lost p m = ground arith
shown_iff_filtered pending p m = ground arith
