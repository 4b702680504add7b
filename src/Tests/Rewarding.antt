-- ===== src/Tests/Rewarding.antt =====
-- The leaderboard and the payouts of events on tables held in memory.
use paya_dev.Base.{ℕ, ◌≤◌, ◌≡◌, refl, true, false, some, List, [], ◌∷◌, ◌==◌, if◌then◌else◌, arith}
use paya_dev.Entities.{User}
use paya_dev.Table.{count}
use paya_dev.Table.Memory.{memory}
use paya_dev.Tests.Samples.{ann}
use paya_dev.Achievements
use paya_dev.Achievements.{
  Achievement, UserAchievement, first_prediction, correct_predictions_10, has_id, is_of, meets,
  check_and_unlock,
}
use paya_dev.Achievements.Unlocking.{check_unlocks}
use paya_dev.Leaderboard.{LeaderboardEntry, is_global, recalculate_ranks}
use paya_dev.Leaderboard.Ranking.{IsTidy, stands_at}
use paya_dev.Leaderboard.Bounds.{recalculate_ranks_bounds}
use paya_dev.Matches.{Event}
use paya_dev.Matches.Payouts
use paya_dev.Matches.Payouts.{
  Payout, RawEntry, Writes, both_written, entry_written, finalize_payouts, pays_each,
}
use paya_dev.Matches.Payouts.Paying.{amount_of, paid_once}

abbrev cat : User
cat = record ann { id = 2; reputation_score = 90 }

abbrev dan : User
dan = record ann { id = 3; reputation_score = 40 }

abbrev ranking : List User
ranking = dan ∷ cat ∷ []

empty-IsTidy : IsTidy (memory LeaderboardEntry) 1 []
empty-IsTidy = record { ids = λ k. ground arith; below = refl; globals = λ k. ground arith }

-- Dan has less reputation than Cat, so has the second rank.
recalculate_ranks_bounds_example :
    (count
        (memory LeaderboardEntry)
        (stands_at 3 40 1 2)
        (recalculate_ranks (memory LeaderboardEntry) 1 true ranking [])
      ≡ 1)
    × (count
          (memory LeaderboardEntry)
          (is_global 3)
          (recalculate_ranks (memory LeaderboardEntry) 1 true ranking [])
        ≡ 1)
recalculate_ranks_bounds_example =
    recalculate_ranks_bounds (memory LeaderboardEntry) 1 ranking 3 40 [] empty-IsTidy (omega arith)
      (omega arith)

abbrev over : Event
over = record {
  id = 1;
  on_chain_event_id = 11;
  start_time = 0;
  end_time = 90;
  is_active = true;
  is_cancelled = false;
  is_finalized = false;
  max_participants = 0;
  prize_pool = 100;
  total_entry_fees_collected = 0;
  participant_count = 2;
  match_count = 1;
}

abbrev first_place : RawEntry
first_place = record {
  address = some 4;
  rank = some 1;
  payout_amount = 70;
  total_predictions = 3;
  correct_predictions = 2;
}

abbrev second_place : RawEntry
second_place = record first_place { address = some 5; rank = some 2; payout_amount = 30 }

-- The payout of the second entry cannot be stored.
abbrev second_fails : ℕ → Writes
second_fails n = if n == 2 then entry_written else both_written

abbrev unpaid : Payouts.Store (memory Event) (memory Payouts.LeaderboardEntry) (memory Payout)
unpaid = record { events = over ∷ []; entries = []; payouts = [] }

paid_once_example :
    (memory Payout).total
      (amount_of 11)
      (finalize_payouts 9
        (λ n. both_written)
        11
        (first_place ∷ second_place ∷ [])
        (finalize_payouts 1 second_fails 11 (first_place ∷ second_place ∷ []) unpaid)).payouts
    ≡ pays_each 1 second_fails (first_place ∷ second_place ∷ [])
unfolding finalize_payouts Payouts.process_each Payouts.process_entry Payouts.save_entry
paid_once_example =
    paid_once 1 9 second_fails (λ n. both_written) 11 (first_place ∷ second_place ∷ [])
      (first_place ∷ second_place ∷ []) over unpaid refl refl refl (omega arith)

abbrev first_step : Achievement
first_step = record { id = 1; kind = first_prediction; reward_points = 10 }

abbrev rising_star : Achievement
rising_star = record { id = 2; kind = correct_predictions_10; reward_points = 50 }

abbrev skilled : User
skilled = record ann { total_predictions = 20; correct_predictions = 12 }

abbrev offered : Achievements.Store (memory Achievement) (memory UserAchievement) (memory User)
offered = record {
  achievements = first_step ∷ rising_star ∷ [];
  granted = [];
  users = skilled ∷ [];
}

offered_ids : (k : ℕ) → count (memory Achievement) (has_id k) (first_step ∷ rising_star ∷ []) ≤ 1
offered_ids k = ground arith

check_unlocks_example :
    count (memory UserAchievement) (is_of ann.id 2) (check_and_unlock 50 1 ann offered).granted ≡ 1
unfolding meets
check_unlocks_example =
    check_unlocks 50 1 ann skilled correct_predictions_10 rising_star false offered offered_ids refl
      refl refl
