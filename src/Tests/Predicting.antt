-- ===== src/Tests/Predicting.antt =====
-- The predictions service on tables held in memory.
use paya_dev.Base.{◌≡◌, ◌↔◌, refl, true, false, none, some, [], ◌∷◌, arith}
use paya_dev.Base.Action.{ok, err}
use paya_dev.Entities.{User, Market, Prediction}
use paya_dev.Table.Memory.{memory}
use paya_dev.Predictions.{Store, claim, mark_claimed, already_claimed}
use paya_dev.Predictions.Status.{won_bet, shown_iff_filtered, passes_status, compute_status}
use paya_dev.Predictions.Ledger.{IsBalanced}
use paya_dev.Predictions.Claim.{claim_once}
use paya_dev.Predictions.Requests.{submits, notes, handle_all, handle_all-IsBalanced}
use paya_dev.Tests.Samples.{ann, derby, settled_derby, bet_on, paid, anns_bet}

abbrev MemoryStore : Type 0
MemoryStore = Store (memory Prediction) (memory Market) (memory User)

abbrev at_start : MemoryStore
at_start = record { predictions = []; markets = derby ∷ []; users = ann ∷ []; calls = [] }

abbrev after_match : MemoryStore
after_match = record {
  predictions = anns_bet ∷ [];
  markets = settled_derby ∷ [];
  users = ann ∷ [];
  calls = [];
}

at_start-IsBalanced : IsBalanced (memory Prediction) (memory Market) (memory User) at_start
at_start-IsBalanced = record {
  markets = λ k. record { unique = ground arith; counted = ground arith; pooled = ground arith };
  users = λ k. record { unique = ground arith; counted = ground arith; staked = ground arith };
  single = λ u m. ground arith;
}

handle_all-IsBalanced_example : IsBalanced (memory Prediction) (memory Market) (memory User) (
    handle_all
      (memory Prediction)
      (memory Market)
      (memory User)
      ((ann, submits 500 (some paid) 3 (bet_on 2))
        ∷ (ann, submits 501 (some paid) 4 (bet_on 1))
        ∷ (ann, notes 3 (some 8))
        ∷ [])
      at_start)
handle_all-IsBalanced_example =
    handle_all-IsBalanced (memory Prediction) (memory Market) (memory User)
      ((ann, submits 500 (some paid) 3 (bet_on 2))
        ∷ (ann, submits 501 (some paid) 4 (bet_on 1))
        ∷ (ann, notes 3 (some 8))
        ∷ [])
      at_start (omega arith, (omega arith, (omega arith, tt))) at_start-IsBalanced

claim_runs : claim (some paid) 3 ann after_match ≡ (
  ok (mark_claimed paid anns_bet),
  record after_match {
    predictions = mark_claimed paid anns_bet ∷ [];
    calls = (claim (some paid) 3 ann after_match).1.calls;
  },
)
unfolding claim
claim_runs = refl

claim_once_example :
    claim none 3 ann (record after_match {
      predictions = mark_claimed paid anns_bet ∷ [];
      calls = (claim (some paid) 3 ann after_match).1.calls;
    })
    ≡ (
      err already_claimed,
      record after_match {
        predictions = mark_claimed paid anns_bet ∷ [];
        calls = (claim (some paid) 3 ann after_match).1.calls;
      },
    )
claim_once_example =
    claim_once (memory Prediction) (memory Market) (memory User) (some paid) none 3 ann after_match
      (record after_match {
        predictions = mark_claimed paid anns_bet ∷ [];
        calls = (claim (some paid) 3 ann after_match).1.calls;
      })
      (mark_claimed paid anns_bet) claim_runs

shown_iff_filtered_example :
    (passes_status won_bet anns_bet settled_derby ≡ true)
    ↔ ((compute_status anns_bet settled_derby ≡ won_bet) × (false ≡ false))
shown_iff_filtered_example = shown_iff_filtered won_bet anns_bet settled_derby
