-- ===== src/Achievements.antt =====
-- `checkAndUnlockAchievements` of backend/src/achievements/achievements.service.ts. The accuracy is
-- compared by cross-multiplication.
pub mod Unlocking
use paya_dev.Base.{
  ℕ, suc, ◌-◌, ◌*◌, Bool, true, false, ◌&&◌, not, none, some, List, [], ◌∷◌, ltb, leb, ◌==◌,
  if◌then◌else◌,
}
use paya_dev.Base.Int.{ℤ, pos, negsuc}
use paya_dev.Entities.{User}
use paya_dev.Table.{Table}

pub data AchievementType : Type 0 where
  first_prediction correct_predictions_10 correct_predictions_50 correct_predictions_100 accuracy_75
        accuracy_90 total_staked_1m total_staked_10m reputation_500 reputation_1000 :
      AchievementType

pub record Achievement : Type 0 where
  pub id : ℕ
  pub kind : AchievementType  -- `type`
  pub reward_points : ℕ

pub record UserAchievement : Type 0 where
  pub id : ℕ
  pub user : ℕ  -- the user's id
  pub achievement : ℕ  -- the achievement's id
  pub is_unlocked : Bool
  pub unlocked_at : ℕ

pub record Store (A : Table Achievement) (G : Table UserAchievement) (U : Table User) : Type 0 where
  pub achievements : A.Contents
  pub granted : G.Contents
  pub users : U.Contents

-- The place of a type in `achievementsToCheck`.
abbrev pub place_of : AchievementType → ℕ
place_of first_prediction = 0
place_of correct_predictions_10 = 1
place_of correct_predictions_50 = 2
place_of correct_predictions_100 = 3
place_of accuracy_75 = 4
place_of accuracy_90 = 5
place_of total_staked_1m = 6
place_of total_staked_10m = 7
place_of reputation_500 = 8
place_of reputation_1000 = 9

abbrev pub all_types : List AchievementType
all_types =
    first_prediction ∷ correct_predictions_10 ∷ correct_predictions_50 ∷ correct_predictions_100
    ∷ accuracy_75 ∷ accuracy_90 ∷ total_staked_1m ∷ total_staked_10m ∷ reputation_500
    ∷ reputation_1000 ∷ []

abbrev at_least : ℕ → ℤ → Bool
at_least n (pos m) = leb n m
at_least n (negsuc m) = false

-- `condition`
unfoldable pub meets : AchievementType → User → Bool
meets first_prediction u = leb 1 u.total_predictions
meets correct_predictions_10 u = leb 10 u.correct_predictions
meets correct_predictions_50 u = leb 50 u.correct_predictions
meets correct_predictions_100 u = leb 100 u.correct_predictions
meets accuracy_75 u =
    ltb 0 u.total_predictions && leb (75 * u.total_predictions) (100 * u.correct_predictions)
meets accuracy_90 u =
    ltb 0 u.total_predictions && leb (90 * u.total_predictions) (100 * u.correct_predictions)
meets total_staked_1m u = at_least 1000000 u.total_staked_stroops
meets total_staked_10m u = at_least 10000000 u.total_staked_stroops
meets reputation_500 u = leb 500 u.reputation_score
meets reputation_1000 u = leb 1000 u.reputation_score

-- `where: { type }`
abbrev pub has_type : AchievementType → Achievement → Bool
has_type t a = place_of a.kind == place_of t

abbrev pub has_id : ℕ → Achievement → Bool
has_id k a = a.id == k

-- `where: { user: { id }, achievement: { id } }`
abbrev pub is_of : ℕ → ℕ → UserAchievement → Bool
is_of u a g = g.user == u && g.achievement == a

module _ {A : Table Achievement} {G : Table UserAchievement} {U : Table User} where
  -- The body of the loop; `full` is the loaded user.
  unfoldable pub unlock_one : ℕ → ℕ → ℕ → User → AchievementType → Store A G U → Store A G U
  unlock_one now fresh user full t s =
      if not (meets t full) then s else elim (A.find_one (has_type t) s.achievements) [
        | none ↦ s
        | some a ↦ elim (G.find_one (is_of user a.id) s.granted) [
          | some g ↦ s
          | none ↦
              let row : UserAchievement = record {
                id = fresh;
                user = user;
                achievement = a.id;
                is_unlocked = true;
                unlocked_at = now;
              } in
              record s { granted = G.insert row s.granted }
        ]
      ]

  unfoldable pub unlock_each : ℕ → ℕ → ℕ → User → List AchievementType → Store A G U → Store A G U
  unfolding unlock_one
  unlock_each now fresh user full [] s = s
  unlock_each now fresh user full (t ∷ ts) s =
      unlock_each now (suc fresh) user full ts (unlock_one now fresh user full t s)

  unfoldable pub check_and_unlock : ℕ → ℕ → User → Store A G U → Store A G U
  unfolding unlock_each
  check_and_unlock now fresh user s = elim (U.find_one (λ u. u.id == user.id) s.users) [
    | none ↦ s
    | some full ↦ unlock_each now fresh user.id full all_types s
  ]
