-- ===== src/Leaderboard/Sorting.antt =====
-- The order of the users in backend/src/leaderboard/leaderboard.service.ts.
use paya_dev.Base.{
  ℕ, ◌+◌, ◌≤◌, ◌≡◌, refl, Bool, true, ◌&&◌, List, [], ◌∷◌, ltb, leb, ◌==◌, arith, Bool-cases, inl,
  inr, weight, sum_of,
}
use paya_dev.Entities.{User}
use paya_dev.Leaderboard.{insert_user, sort_users}

-- How many users pass a test.
abbrev pub number : (User → Bool) → List User → ℕ
number p us = sum_of (λ u. weight (p u)) us

-- Nobody is followed by a user of more reputation.
abbrev pub is_descending : List User → Bool
is_descending [] = true
is_descending (u ∷ us) =
    number (λ v. ltb u.reputation_score v.reputation_score) us == 0 && is_descending us

number-insert_user :
    (p : User → Bool) (u : User) (us : List User)
    → number p (insert_user u us) ≡ weight (p u) + number p us
unfolding insert_user
number-insert_user p u [] = omega arith
number-insert_user p u (v ∷ vs) = ground (arith, number-insert_user p u vs)

pub number-sort_users : (p : User → Bool) (us : List User) → number p (sort_users us) ≡ number p us
unfolding sort_users
number-sort_users p [] = refl
number-sort_users p (u ∷ us) =
    omega (arith, number-sort_users p us, number-insert_user p u (sort_users us))

pub number_mono :
    (p q : User → Bool) (us : List User)
    → ((u : User) → p u ≡ true → q u ≡ true)
    → number p us ≤ number q us
number_mono p q [] h = omega arith
number_mono p q (u ∷ us) h = ground (arith, h u, number_mono p q us h)

insert_user-is_descending :
    (u : User) (us : List User) → is_descending us ≡ true → is_descending (insert_user u us) ≡ true
unfolding insert_user
insert_user-is_descending u [] h = refl
insert_user-is_descending u (v ∷ vs) h =
    elim (Bool-cases (leb v.reputation_score u.reputation_score)) [
      | inl e ↦ rw e (
          ground (
            arith,
            e,
            h,
            number_mono (λ w. ltb u.reputation_score w.reputation_score)
                (λ w. ltb v.reputation_score w.reputation_score) vs (λ w. ground (arith, e)),
          ))
      | inr e ↦ rw e (
          ground (
            arith,
            e,
            h,
            insert_user-is_descending u vs (ground (arith, h)),
            number-insert_user (λ w. ltb v.reputation_score w.reputation_score) u vs,
          ))
    ]

pub sort_users-is_descending : (us : List User) → is_descending (sort_users us) ≡ true
unfolding sort_users
sort_users-is_descending [] = refl
sort_users-is_descending (u ∷ us) =
    insert_user-is_descending u (sort_users us) (sort_users-is_descending us)
