-- ===== src/Leaderboard/Bounds.antt =====
-- The bounds on the ranks that `recalculateRanks` of backend/src/leaderboard/leaderboard.service.ts
-- stores.
use paya_dev.Base.{
  ℕ, suc, ◌+◌, ◌-◌, ◌≤◌, ◌≡◌, refl, ◌∙◌, Bool, true, ◌&&◌, List, [], ◌∷◌, ltb, leb, ◌==◌, arith,
  Bool-cases, inl, inr, ==_iff, length,
}
use paya_dev.Entities.{User}
use paya_dev.Table.{Table, count}
use paya_dev.Table.Laws.{count_mono}
use paya_dev.Leaderboard.{
  LeaderboardEntry, is_global, sort_users, rank_user, rank_each, recalculate_ranks,
}
use paya_dev.Leaderboard.Sorting.{
  number, is_descending, number-sort_users, number_mono, sort_users-is_descending,
}
use paya_dev.Leaderboard.Ranking.{
  is_user, stands_at, IsTidy, rank_user-IsTidy, rank_user-other, rank_user-stands,
}

module _ (L : Table LeaderboardEntry) where
  -- Users who are ranked later leave the entry of one who is not among them.
  rank_each-other :
      (fresh i k : ℕ) (us : List User) (p : LeaderboardEntry → Bool) (s : L.Contents)
      → IsTidy L fresh s
      → number (is_user k) us ≡ 0
      → ((e : LeaderboardEntry) → p e ≡ true → is_global k e ≡ true)
      → count L p (rank_each L fresh i us s) ≡ count L p s
  unfolding rank_each
  rank_each-other fresh i k [] p s t none_there h = refl
  rank_each-other fresh i k (u ∷ us) p s t none_there h =
      rank_each-other (suc fresh) (suc i) k us p (rank_user L fresh (i + 1) u s)
        (rank_user-IsTidy L fresh (i + 1) u s t) (ground (arith, none_there)) h
      ∙ rank_user-other L fresh (i + 1) k u p s t (ground (arith, none_there)) h

  abbrev better : ℕ → List User → ℕ
  better r us = number (λ v. ltb r v.reputation_score) us

  abbrev as_good : ℕ → List User → ℕ
  as_good r us = number (λ v. leb r v.reputation_score) us

  rank_each-IsTidy :
      (fresh i : ℕ) (us : List User) (s : L.Contents)
      → IsTidy L fresh s
      → IsTidy L (fresh + length us) (rank_each L fresh i us s)
  unfolding rank_each
  rank_each-IsTidy fresh i [] s t = let same : fresh + 0 ≡ fresh = omega arith in rw same t
  rank_each-IsTidy fresh i (u ∷ us) s t =
      let same : fresh + suc (length us) ≡ suc fresh + length us = omega arith in
      rw same (
        rank_each-IsTidy (suc fresh) (suc i) us (rank_user L fresh (i + 1) u s)
          (rank_user-IsTidy L fresh (i + 1) u s t))

  -- Wider bounds let the one entry stand.
  widens :
      (fresh k r low high low' high' : ℕ) (s : L.Contents)
      → IsTidy L fresh s
      → low' ≤ low
      → high ≤ high'
      → count L (stands_at k r low high) s ≡ 1
      → count L (stands_at k r low' high') s ≡ 1
  widens fresh k r low high low' high' s t a b one = omega (
    arith,
    one,
    t.globals k,
    count_mono L (stands_at k r low high) (stands_at k r low' high') s (λ e. ground (arith, a, b)),
    count_mono L (stands_at k r low' high') (is_global k) s (λ e. ground arith),
  )

  -- After the loop, for a user in it: the entry has the reputation, and a rank above those who are
  -- better.
  rank_each-stands :
      (fresh i k r : ℕ) (us : List User) (s : L.Contents)
      → IsTidy L fresh s
      → is_descending us ≡ true
      → number (is_user k) us ≤ 1
      → 1 ≤ number (λ u. is_user k u && u.reputation_score == r) us
      → count L (stands_at k r (i + better r us) (i + as_good r us)) (rank_each L fresh i us s) ≡ 1
  unfolding rank_each
  rank_each-stands fresh i k r [] s t d single there = absurd (ground (arith, there))
  rank_each-stands fresh i k r (u ∷ us) s t d single there = elim (Bool-cases (is_user k u)) [
    | inl h ↦
        let alone : number (is_user k) us ≡ 0 = ground (arith, single, h) in
        let id : u.id ≡ k = (==_iff u.id k).0 h in
        let others =
          number_mono (λ v. is_user k v && v.reputation_score == r) (is_user k) us
            (λ v. ground arith) in
        let rep : u.reputation_score ≡ r = ground (arith, there, h, alone, others) in
        widens (suc fresh + length us) k r (i + 1 - 1) (i + 1) _ _ after tidy
          (ground (arith, d, rep)) (ground (arith, rep))
          (rank_each-other (suc fresh) (suc i) k us (stands_at k r (i + 1 - 1) (i + 1)) first
              first_tidy alone (λ e. ground arith)
            ∙ rw (← id, ← rep) (rank_user-stands L fresh (i + 1) u s t (omega arith)))
    | inr h ↦
        let below =
          number_mono (λ v. is_user k v && v.reputation_score == r)
            (λ v. ltb u.reputation_score v.reputation_score) us in
        let found : 1 ≤ number (λ v. is_user k v && v.reputation_score == r) us =
          ground (arith, there, h) in
        let good : leb r u.reputation_score ≡ true = elim (Bool-cases (leb r u.reputation_score)) [
          | inl e ↦ e
          | inr e ↦ absurd (omega (arith, found, below (λ v. ground (arith, e)), last))
        ] in
        widens (suc fresh + length us) k r (suc i + better r us) (suc i + as_good r us) _ _ after
          tidy (ground arith) (ground (arith, good))
          (rank_each-stands (suc fresh) (suc i) k r us first first_tidy (ground (arith, d))
            (ground (arith, single)) found)
  ]
    where
      first : L.Contents
      first = rank_user L fresh (i + 1) u s

      first_tidy : IsTidy L (suc fresh) first
      first_tidy = rank_user-IsTidy L fresh (i + 1) u s t

      after : L.Contents
      after = rank_each L (suc fresh) (suc i) us first

      tidy : IsTidy L (suc fresh + length us) after
      tidy = rank_each-IsTidy (suc fresh) (suc i) us first first_tidy

      last : number (λ v. ltb u.reputation_score v.reputation_score) us ≡ 0
      last = ground (arith, d)

  -- Where row ids are unique and users have at most one global entry, after a recalculation that
  -- commits, a user who is among those ranked, once, has one global entry, which holds the user's
  -- reputation, and whose rank is greater than the number of users with more reputation and at most
  -- the number of those with as much or more.
  pub recalculate_ranks_bounds :
      (fresh : ℕ) (users : List User) (k r : ℕ) (s : L.Contents)
      → IsTidy L fresh s
      → number (is_user k) users ≤ 1
      → 1 ≤ number (λ u. is_user k u && u.reputation_score == r) users
      → (count L
            (stands_at k r
              (number (λ v. ltb r v.reputation_score) users)
              (number (λ v. leb r v.reputation_score) users))
            (recalculate_ranks L fresh true users s)
          ≡ 1)
        × (count L (is_global k) (recalculate_ranks L fresh true users s) ≡ 1)
  unfolding recalculate_ranks
  recalculate_ranks_bounds fresh users k r s t single there = (
    one,
    omega (
      arith,
      one,
      tidy.globals k,
      count_mono L
          (stands_at k r (number (λ v. ltb r v.reputation_score) users)
            (number (λ v. leb r v.reputation_score) users))
          (is_global k) (rank_each L fresh 0 sorted s) (λ e. ground arith),
    ),
  )
    where
      sorted : List User
      sorted = sort_users users

      stands :
          count L
            (stands_at k r (0 + better r sorted) (0 + as_good r sorted))
            (rank_each L fresh 0 sorted s)
          ≡ 1
      stands =
          rank_each-stands fresh 0 k r sorted s t (sort_users-is_descending users)
            (omega (arith, single, number-sort_users (is_user k) users))
            (omega
              (arith, there, number-sort_users (λ u. is_user k u && u.reputation_score == r) users))

      tidy : IsTidy L (fresh + length sorted) (rank_each L fresh 0 sorted s)
      tidy = rank_each-IsTidy fresh 0 sorted s t

      one :
          count L
            (stands_at k r
              (number (λ v. ltb r v.reputation_score) users)
              (number (λ v. leb r v.reputation_score) users))
            (rank_each L fresh 0 sorted s)
          ≡ 1
      one =
          widens (fresh + length sorted) k r (0 + better r sorted) (0 + as_good r sorted) _ _ _ tidy
            (omega (arith, number-sort_users (λ v. ltb r v.reputation_score) users))
            (omega (arith, number-sort_users (λ v. leb r v.reputation_score) users)) stands
