-- ===== src/Achievements/Unlocking.antt =====
-- Which achievements a user has, after a check.
use paya_dev.Base.{
  ℕ, suc, ◌≤◌, ◌≡◌, refl, sym, ap, ◌∙◌, Bool, true, false, ◌&&◌, ◌||◌, some, List, [], ◌∷◌, ◌==◌,
  if◌then◌else◌, arith, Bool-cases, Option-cases, inl, inr, weight, ==_iff, ==_refl,
}
use paya_dev.Entities.{User}
use paya_dev.Table.{Table, count}
use paya_dev.Table.Laws.{count-insert, count_exclusive, found-count}
use paya_dev.Achievements.{
  AchievementType, first_prediction, correct_predictions_10, correct_predictions_50,
  correct_predictions_100, accuracy_75, accuracy_90, total_staked_1m, total_staked_10m,
  reputation_500, reputation_1000, Achievement, UserAchievement, Store, place_of, all_types, meets,
  has_type, has_id, is_of, unlock_one, unlock_each, check_and_unlock,
}

abbrev occurs : AchievementType → List AchievementType → Bool
occurs t [] = false
occurs t (t' ∷ ts) = place_of t' == place_of t || occurs t ts

type_at : ℕ → AchievementType
type_at n =
    if n == 0
    then first_prediction
    else if n == 1
    then correct_predictions_10
    else if n == 2
    then correct_predictions_50
    else if n == 3
    then correct_predictions_100
    else if n == 4
    then accuracy_75
    else if n == 5
    then accuracy_90
    else if n == 6
    then total_staked_1m
    else if n == 7
    then total_staked_10m
    else if n == 8
    then reputation_500
    else reputation_1000

type_at-place_of : (t : AchievementType) → type_at (place_of t) ≡ t
unfolding type_at
type_at-place_of first_prediction = refl
type_at-place_of correct_predictions_10 = refl
type_at-place_of correct_predictions_50 = refl
type_at-place_of correct_predictions_100 = refl
type_at-place_of accuracy_75 = refl
type_at-place_of accuracy_90 = refl
type_at-place_of total_staked_1m = refl
type_at-place_of total_staked_10m = refl
type_at-place_of reputation_500 = refl
type_at-place_of reputation_1000 = refl

place_of-≡ : (t' t : AchievementType) → (place_of t' == place_of t) ≡ true → t' ≡ t
place_of-≡ t' t e =
    sym (type_at-place_of t')
    ∙ ap type_at ((==_iff (place_of t') (place_of t)).0 e)
    ∙ type_at-place_of t

all_occur : (t : AchievementType) → occurs t all_types ≡ true
all_occur first_prediction = refl
all_occur correct_predictions_10 = refl
all_occur correct_predictions_50 = refl
all_occur correct_predictions_100 = refl
all_occur accuracy_75 = refl
all_occur accuracy_90 = refl
all_occur total_staked_1m = refl
all_occur total_staked_10m = refl
all_occur reputation_500 = refl
all_occur reputation_1000 = refl

module _ (A : Table Achievement) where
  -- Achievements of two types are two.
  types_differ :
      (t' t : AchievementType) (a' a : Achievement) (rows : A.Contents)
      → ((k : ℕ) → count A (has_id k) rows ≤ 1)
      → A.find_one (has_type t) rows ≡ some a
      → A.find_one (has_type t') rows ≡ some a'
      → (place_of t' == place_of t) ≡ false
      → (a'.id == a.id) ≡ false
  types_differ t' t a' a rows ids f f' other = elim (Bool-cases (a'.id == a.id)) [
    | inr e ↦ e
    | inl e ↦
        let passes = A.find_one_passes (has_type t) rows a f in
        let passes' = A.find_one_passes (has_type t') rows a' f' in
        let none_there =
          count_exclusive A (has_type t') (has_id a.id) (has_type t) a rows (ids a.id) f
            (==_refl a.id) (ground (arith, passes, other)) in
        let there =
          found-count A (λ x. has_id a.id x && has_type t' x) (has_type t') rows a' f'
            (ground (arith, e, passes')) in
        absurd (omega (arith, none_there, there))
  ]

module _ {A : Table Achievement} {G : Table UserAchievement} {U : Table User} where
  same_unlocks :
      (now fresh user : ℕ) (full : User) (t : AchievementType) (a : Achievement) (had : Bool)
      (s : Store A G U)
      → A.find_one (has_type t) s.achievements ≡ some a
      → count G (is_of user a.id) s.granted ≡ weight had
      → (count G (is_of user a.id) (unlock_one now fresh user full t s).granted
          ≡ weight (had || meets t full))
        × ((unlock_one now fresh user full t s).achievements ≡ s.achievements)
  unfolding unlock_one
  same_unlocks now fresh user full t a had s f h = elim (Bool-cases (meets t full)) [
    | inr m ↦ rw (unlock_one, m) (ground (arith, h), refl)
    | inl m ↦ elim (Option-cases (G.find_one (is_of user a.id) s.granted)) [
      | inr (g, e) ↦
          rw (unlock_one, m, f, e)
            (
              ground (
                arith,
                h,
                found-count G (is_of user a.id) (is_of user a.id) s.granted g e
                    (G.find_one_passes (is_of user a.id) s.granted g e),
              ),
              refl,
            )
      | inl e ↦
          let row : UserAchievement = record {
            id = fresh;
            user = user;
            achievement = a.id;
            is_unlocked = true;
            unlocked_at = now;
          } in
          rw (unlock_one, m, f, e)
            (
              ground (
                arith,
                h,
                ==_refl user,
                ==_refl a.id,
                G.find_one_none (is_of user a.id) s.granted e,
                count-insert G (is_of user a.id) row s.granted,
              ),
              refl,
            )
    ]
  ]

  other_unlocks :
      (now fresh user : ℕ) (full : User) (t' t : AchievementType) (a : Achievement) (had : Bool)
      (s : Store A G U)
      → ((k : ℕ) → count A (has_id k) s.achievements ≤ 1)
      → A.find_one (has_type t) s.achievements ≡ some a
      → count G (is_of user a.id) s.granted ≡ weight had
      → (place_of t' == place_of t) ≡ false
      → (count G (is_of user a.id) (unlock_one now fresh user full t' s).granted
          ≡ weight (had || (false && meets t full)))
        × ((unlock_one now fresh user full t' s).achievements ≡ s.achievements)
  unfolding unlock_one
  other_unlocks now fresh user full t' t a had s ids f h other = elim (Bool-cases (meets t' full)) [
    | inr m ↦ rw (unlock_one, m) (ground (arith, h), refl)
    | inl m ↦ elim (Option-cases (A.find_one (has_type t') s.achievements)) [
      | inl f' ↦ rw (unlock_one, m, f') (ground (arith, h), refl)
      | inr (a', f') ↦ elim (Option-cases (G.find_one (is_of user a'.id) s.granted)) [
        | inr (g, e) ↦ rw (unlock_one, m, f', e) (ground (arith, h), refl)
        | inl e ↦
            let row : UserAchievement = record {
              id = fresh;
              user = user;
              achievement = a'.id;
              is_unlocked = true;
              unlocked_at = now;
            } in
            rw (unlock_one, m, f', e)
              (
                ground (
                  arith,
                  h,
                  types_differ A t' t a' a s.achievements ids f f' other,
                  count-insert G (is_of user a.id) row s.granted,
                ),
                refl,
              )
      ]
    ]
  ]

  -- One type is checked, for the achievement `a` of type `t`.
  one_unlocks :
      (now fresh user : ℕ) (full : User) (t' t : AchievementType) (a : Achievement) (had : Bool)
      (s : Store A G U)
      → ((k : ℕ) → count A (has_id k) s.achievements ≤ 1)
      → A.find_one (has_type t) s.achievements ≡ some a
      → count G (is_of user a.id) s.granted ≡ weight had
      → (count G (is_of user a.id) (unlock_one now fresh user full t' s).granted
          ≡ weight (had || (place_of t' == place_of t && meets t full)))
        × ((unlock_one now fresh user full t' s).achievements ≡ s.achievements)
  unfolding unlock_one
  one_unlocks now fresh user full t' t a had s ids f h =
      elim (Bool-cases (place_of t' == place_of t)) [
        | inl same ↦
            rw (same, place_of-≡ t' t same) (same_unlocks now fresh user full t a had s f h)
        | inr other ↦ rw other (other_unlocks now fresh user full t' t a had s ids f h other)
      ]

  each_unlocks :
      (now fresh user : ℕ) (full : User) (ts : List AchievementType) (t : AchievementType)
      (a : Achievement) (had : Bool) (s : Store A G U)
      → ((k : ℕ) → count A (has_id k) s.achievements ≤ 1)
      → A.find_one (has_type t) s.achievements ≡ some a
      → count G (is_of user a.id) s.granted ≡ weight had
      → count G (is_of user a.id) (unlock_each now fresh user full ts s).granted
        ≡ weight (had || (occurs t ts && meets t full))
  unfolding unlock_each
  each_unlocks now fresh user full [] t a had s ids f h = ground (arith, h)
  each_unlocks now fresh user full (t' ∷ ts) t a had s ids f h =
      let (next, same) = one_unlocks now fresh user full t' t a had s ids f h in
      let s' = unlock_one now fresh user full t' s in
      each_unlocks now (suc fresh) user full ts t a
        (had || (place_of t' == place_of t && meets t full)) s' (λ k. rw same (ids k)) (rw same f)
        next
      ∙ ap weight (ground arith)

  -- After a check a user has each achievement at most once, and has exactly those that were unlocked
  -- before and those of a type whose condition the stored user meets, where the ids of achievements are
  -- unique and nothing was unlocked twice before.
  pub check_unlocks :
      (now fresh : ℕ) (user full : User) (t : AchievementType) (a : Achievement) (had : Bool)
      (s : Store A G U)
      → ((k : ℕ) → count A (has_id k) s.achievements ≤ 1)
      → U.find_one (λ u. u.id == user.id) s.users ≡ some full
      → A.find_one (has_type t) s.achievements ≡ some a
      → count G (is_of user.id a.id) s.granted ≡ weight had
      → count G (is_of user.id a.id) (check_and_unlock now fresh user s).granted
        ≡ weight (had || meets t full)
  unfolding check_and_unlock
  check_unlocks now fresh user full t a had s ids loaded f h =
      rw (check_and_unlock, loaded)
        (each_unlocks now fresh user.id full all_types t a had s ids f h
          ∙ ap (λ (b : Bool). weight (had || (b && meets t full))) (all_occur t))
