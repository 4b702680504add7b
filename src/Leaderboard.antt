-- ===== src/Leaderboard.antt =====
-- `recalculateRanks` of backend/src/leaderboard/leaderboard.service.ts. The users are those that
-- `findAll` gives; whether the transaction commits is an argument. The cached pages are left out.
pub mod Sorting
pub mod Ranking
pub mod Bounds
use paya_dev.Base.{
  ℕ, suc, ◌+◌, Bool, ◌&&◌, not, Option, none, some, List, [], ◌∷◌, leb, ◌==◌, if◌then◌else◌,
  is_some,
}
use paya_dev.Base.Int.{ℤ}
use paya_dev.Entities.{User}
use paya_dev.Table.{Table}

pub record LeaderboardEntry : Type 0 where
  pub id : ℕ
  pub user_id : ℕ
  pub season_id : Option ℕ
  pub rank : ℕ
  pub reputation_score : ℕ
  pub season_points : ℕ
  pub total_predictions : ℕ
  pub correct_predictions : ℕ
  pub total_winnings_stroops : ℤ

-- `entry.user_id = :userId AND entry.season_id IS NULL`
abbrev pub is_global : ℕ → LeaderboardEntry → Bool
is_global u e = e.user_id == u && not (is_some e.season_id)

abbrev pub has_id : ℕ → LeaderboardEntry → Bool
has_id k e = e.id == k

-- The numbers that are written.
abbrev pub ranked : ℕ → User → LeaderboardEntry → LeaderboardEntry
ranked rank u e = record e {
  rank = rank;
  reputation_score = u.reputation_score;
  season_points = u.season_points;
  total_predictions = u.total_predictions;
  correct_predictions = u.correct_predictions;
  total_winnings_stroops = u.total_winnings_stroops;
}

abbrev pub new_entry : ℕ → ℕ → User → LeaderboardEntry
new_entry fresh rank u = record {
  id = fresh;
  user_id = u.id;
  season_id = none;
  rank = rank;
  reputation_score = u.reputation_score;
  season_points = u.season_points;
  total_predictions = u.total_predictions;
  correct_predictions = u.correct_predictions;
  total_winnings_stroops = u.total_winnings_stroops;
}

-- `sort((a, b) => b.reputation_score - a.reputation_score)`, which is stable.
unfoldable pub insert_user : User → List User → List User
insert_user u [] = u ∷ []
insert_user u (v ∷ vs) =
    let rest = insert_user u vs in
    if leb v.reputation_score u.reputation_score then u ∷ v ∷ vs else v ∷ rest

unfoldable pub sort_users : List User → List User
unfolding insert_user
sort_users [] = []
sort_users (u ∷ us) = insert_user u (sort_users us)

module _ (L : Table LeaderboardEntry) where
  -- The body of the loop.
  unfoldable pub rank_user : ℕ → ℕ → User → L.Contents → L.Contents
  rank_user fresh rank u s = elim (L.find_one (is_global u.id) s) [
    | none ↦ L.insert (new_entry fresh rank u) s
    | some e ↦ L.update (has_id e.id) (ranked rank u) s
  ]

  -- The users after the first `i`; new rows get ids from `fresh` on.
  unfoldable pub rank_each : ℕ → ℕ → List User → L.Contents → L.Contents
  unfolding rank_user
  rank_each fresh i [] s = s
  rank_each fresh i (u ∷ us) s = rank_each (suc fresh) (suc i) us (rank_user fresh (i + 1) u s)

  unfoldable pub recalculate_ranks : ℕ → Bool → List User → L.Contents → L.Contents
  unfolding sort_users rank_each
  recalculate_ranks fresh commits users s =
      if commits then rank_each fresh 0 (sort_users users) s else s
