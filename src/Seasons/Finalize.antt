-- ===== src/Seasons/Finalize.antt =====
-- `finalizeSeason` of backend/src/seasons/seasons.service.ts: the winner and the points.
use paya_dev.Base.{ℕ, ◌≡◌, Bool, true, false, ◌&&◌, not, Option, none, some, ◌==◌}
use paya_dev.Entities.{User}
use paya_dev.Table.{Table}
use paya_dev.Seasons.{Season, Store, is_season, closed, reset_points}

abbrev same_id : Option ℕ → Option ℕ → Bool
same_id none none = true
same_id (some a) (some b) = a == b
same_id none (some _) = false
same_id (some _) none = false

abbrev is_closed : Option ℕ → Season → Bool
is_closed w s = s.is_finalized && (not s.is_active && same_id s.top_winner w)

-- The id of the user whom the database puts first by points.
abbrev pub leader : (U : Table User) → U.Contents → Option ℕ
leader U us = elim (U.find_best (λ u. u.season_points) (λ u. true) us) [
  | none ↦ none
  | some u ↦ some u.id
]

module _ (S : Table Season) (U : Table User) where
  Closes : Season → ℕ → Store S U → Store S U → Type 0
  Closes r id s t =
      (old : Season) × (S.find_one (is_season id) s.seasons ≡ some old)
      × (t.seasons ≡ S.update (is_season old.id) (closed (leader U s.users)) s.seasons)
      × (t.users ≡ U.update (λ u. true) reset_points s.users)
      × (S.find_one (is_season id) t.seasons ≡ some r)
