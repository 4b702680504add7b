-- ===== src/Leaderboard/Ranking.antt =====
-- The entries that `recalculateRanks` of backend/src/leaderboard/leaderboard.service.ts stores.
use paya_dev.Base.{
  ℕ, suc, ◌-◌, ◌≤◌, ◌<◌, ◌≡◌, refl, ap, Bool, true, false, ◌&&◌, not, some, ltb, leb, ◌==◌,
  if◌then◌else◌, arith, Option-cases, inl, inr, ==_refl,
}
use paya_dev.Entities.{User}
use paya_dev.Table.{Table, count}
use paya_dev.Table.Laws.{
  count-insert, count-insert_le_one, count-update, count-update_same, count_mono, count_split,
  count_exclusive, found-count, count_ext,
}
use paya_dev.Leaderboard.{LeaderboardEntry, is_global, has_id, ranked, new_entry, rank_user}

abbrev pub is_user : ℕ → User → Bool
is_user k u = u.id == k

-- The global entry of user `k` with reputation `r`, at a rank above `low` and up to `high`.
abbrev pub stands_at : ℕ → ℕ → ℕ → ℕ → LeaderboardEntry → Bool
stands_at k r low high e =
    is_global k e && (e.reputation_score == r && (ltb low e.rank && leb e.rank high))

module _ (L : Table LeaderboardEntry) where
  -- Row ids are unique and lie below those to come, and a user has at most one global entry.
  pub record IsTidy (fresh : ℕ) (s : L.Contents) : Type 0 where
    pub ids : (k : ℕ) → count L (has_id k) s ≤ 1
    pub below : count L (λ e. leb fresh e.id) s ≡ 0
    pub globals : (k : ℕ) → count L (is_global k) s ≤ 1

  pub rank_user-IsTidy :
      (fresh rank : ℕ) (u : User) (s : L.Contents)
      → IsTidy fresh s
      → IsTidy (suc fresh) (rank_user L fresh rank u s)
  unfolding rank_user
  rank_user-IsTidy fresh rank u s t = elim (Option-cases (L.find_one (is_global u.id) s)) [
    | inr (e, f) ↦
        rw (rank_user, f)
          (record {
            ids = λ k. omega (
              arith,
              t.ids k,
              count-update_same L (has_id k) (has_id e.id) (ranked rank u) s (λ x. refl),
            );
            below = omega (
              arith,
              t.below,
              count-update_same L (λ x. leb (suc fresh) x.id) (has_id e.id) (ranked rank u) s
                  (λ x. refl),
              count_mono L (λ x. leb (suc fresh) x.id) (λ x. leb fresh x.id) s (λ x. ground arith),
            );
            globals = λ k. omega (
              arith,
              t.globals k,
              count-update_same L (is_global k) (has_id e.id) (ranked rank u) s (λ x. refl),
            );
          })
    | inl f ↦
        rw (rank_user, f)
          (record {
            ids = λ k. count-insert_le_one L (has_id k) (new_entry fresh rank u) s (t.ids k) (λ h.
                omega (
                  arith,
                  t.below,
                  count_mono L (has_id k) (λ x. leb fresh x.id) s (λ x p. ground (arith, h, p)),
                ));
            below = ground (
              arith,
              t.below,
              count-insert L (λ x. leb (suc fresh) x.id) (new_entry fresh rank u) s,
              count_mono L (λ x. leb (suc fresh) x.id) (λ x. leb fresh x.id) s (λ x. ground arith),
            );
            globals = λ k.
                count-insert_le_one L (is_global k) (new_entry fresh rank u) s (t.globals k) (λ h.
                  let same : u.id ≡ k = ground (arith, h) in
                  rw (← same) (L.find_one_none (is_global u.id) s f));
          })
  ]

  -- Ranking one user leaves the entries of another.
  pub rank_user-other :
      (fresh rank k : ℕ) (u : User) (p : LeaderboardEntry → Bool) (s : L.Contents)
      → IsTidy fresh s
      → (u.id == k) ≡ false
      → ((e : LeaderboardEntry) → p e ≡ true → is_global k e ≡ true)
      → count L p (rank_user L fresh rank u s) ≡ count L p s
  unfolding rank_user
  rank_user-other fresh rank k u p s t other h =
      elim (Option-cases (L.find_one (is_global u.id) s)) [
        | inl f ↦
            rw (rank_user, f)
              (ground (
                arith,
                count-insert L p (new_entry fresh rank u) s,
                h (new_entry fresh rank u),
                other,
              ))
        | inr (e, f) ↦ rw (rank_user, f) (kept e f)
      ]
    where
      kept :
          (e : LeaderboardEntry)
          → L.find_one (is_global u.id) s ≡ some e
          → count L p (L.update (has_id e.id) (ranked rank u) s) ≡ count L p s
      kept e f =
          let q = has_id e.id in
          let after = λ (x : LeaderboardEntry). if q x then p (ranked rank u x) else p x in
          let passes = L.find_one_passes (is_global u.id) s e f in
          let foreign : is_global k e ≡ false = ground (arith, passes, other) in
          omega (
            arith,
            count-update L p q (ranked rank u) s,
            count_split L after q s,
            count_split L p q s,
            count_mono L (λ x. after x && q x) (λ x. q x && is_global k x) s
                (λ x. ground (arith, h (ranked rank u x))),
            count_mono L (λ x. p x && q x) (λ x. q x && is_global k x) s (λ x. ground (arith, h x)),
            count_exclusive L (is_global k) q (is_global u.id) e s (t.ids e.id) f (==_refl e.id)
                foreign,
            count_ext L (λ x. after x && not (q x)) (λ x. p x && not (q x)) s (λ x. ground arith),
          )

  -- The user who is ranked has the entry.
  pub rank_user-stands :
      (fresh rank : ℕ) (u : User) (s : L.Contents)
      → IsTidy fresh s
      → 0 < rank
      → count L (stands_at u.id u.reputation_score (rank - 1) rank) (rank_user L fresh rank u s) ≡ 1
  unfolding rank_user
  rank_user-stands fresh rank u s t h = elim (Option-cases (L.find_one (is_global u.id) s)) [
    | inl f ↦
        rw (rank_user, f)
          (ground (
            arith,
            h,
            ==_refl u.id,
            ==_refl u.reputation_score,
            L.find_one_none (is_global u.id) s f,
            count-insert L (stands_at u.id u.reputation_score (rank - 1) rank)
                (new_entry fresh rank u) s,
            count_mono L (stands_at u.id u.reputation_score (rank - 1) rank) (is_global u.id) s
                (λ x. ground arith),
          ))
    | inr (e, f) ↦ rw (rank_user, f) (moved e f)
  ]
    where
      p : LeaderboardEntry → Bool
      p = stands_at u.id u.reputation_score (rank - 1) rank

      moved :
          (e : LeaderboardEntry)
          → L.find_one (is_global u.id) s ≡ some e
          → count L p (L.update (has_id e.id) (ranked rank u) s) ≡ 1
      moved e f =
          let q = has_id e.id in
          let after = λ (x : LeaderboardEntry). if q x then p (ranked rank u x) else p x in
          let passes = L.find_one_passes (is_global u.id) s e f in
          omega (
            arith,
            count-update L p q (ranked rank u) s,
            count_split L after q s,
            count_ext L (λ x. after x && q x) (λ x. q x && is_global u.id x) s
                (λ x. ground (arith, h, ==_refl u.reputation_score)),
            found-count L (λ x. q x && is_global u.id x) (is_global u.id) s e f
                (ground (arith, passes, ==_refl e.id)),
            t.ids e.id,
            count_mono L (λ x. q x && is_global u.id x) q s (λ x. ground arith),
            count_mono L (λ x. after x && not (q x)) (λ x. is_global u.id x && not (q x)) s
                (λ x. ground arith),
            count_exclusive L (λ x. not (q x)) (is_global u.id) (is_global u.id) e s
                (t.globals u.id) f passes (ap not (==_refl e.id)),
          )
