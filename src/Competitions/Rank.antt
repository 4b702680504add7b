-- ===== src/Competitions/Rank.antt =====
-- `getMyRank` of backend/src/competitions/competitions.service.ts, with its cache of five minutes. A
-- percentage with two decimals is the number of its hundredths, rounded as `Math.round` does.
use paya_dev.Base.{
  ℕ, zero, suc, ◌+◌, ◌-◌, ◌*◌, ◌/◌, ◌≤◌, ◌<◌, ◌≡◌, ◌⊎◌, Bool, true, ◌&&◌, ◌||◌, not, Option, none,
  some, List, [], ◌∷◌, ltb, ◌==◌, if◌then◌else◌, arith,
}
use paya_dev.Base.Action.{ok, Action, pure, gets, or_throw, ◌>>=◌, ◌>>◌}
use native.Mathlib.Nat.{div-lt_iff_lt-mul}
use paya_dev.Table.{Table, count}
use paya_dev.Table.Laws.{count_mono, found-count, count_split}
use paya_dev.Competitions.{
  Error, competition_not_found, not_participant, Competition, Participant, is_competition, is_in,
  is_member,
}

-- `UserRankResponseDto`
pub record UserRank : Type 0 where
  pub rank : ℕ
  pub score : ℕ
  pub total_participants : ℕ
  pub percentile : ℕ  -- in hundredths of a percent

pub record Entry : Type 0 where
  pub rank : UserRank
  pub timestamp : ℕ

pub record RankStore (C : Table Competition) (R : Table Participant) : Type 0 where
  pub competitions : C.Contents
  pub participants : R.Contents
  pub rank_cache : List ((ℕ × ℕ) × Entry)

-- `RANK_CACHE_TTL_MS`
abbrev pub rank_ttl : ℕ
rank_ttl = 300000

abbrev get_cached : ℕ → ℕ → List ((ℕ × ℕ) × Entry) → Option Entry
get_cached k u [] = none
get_cached k u (((j, v), e) ∷ es) = if j == k && v == u then some e else get_cached k u es

abbrev pub fresh : ℕ → Option Entry → Option UserRank
fresh now none = none
fresh now (some e) = if ltb (now - e.timestamp) rank_ttl then some e.rank else none

-- A higher score, or the same score and an earlier start.
abbrev pub outranks : Participant → Participant → Bool
outranks me p = ltb me.score p.score || p.score == me.score && ltb p.joined_at me.joined_at

-- `Math.round((1 - (rank - 1) / total) * 10000)`
unfoldable pub percentile_of : ℕ → ℕ → ℕ
percentile_of rank total =
    if ltb 0 total then (2 * (10000 * (total + 1 - rank)) + total) / (2 * total) else 10000

unfoldable pub rank_of : (R : Table Participant) → ℕ → Participant → R.Contents → ℕ
rank_of R k me s = count R (λ p. is_in k p && outranks me p) s + 1

module _ {C : Table Competition} {R : Table Participant} where
  unfoldable pub my_rank : ℕ → ℕ → ℕ → Action (RankStore C R) Error UserRank
  unfolding rank_of
  my_rank now k u = do
    cached ← gets (λ s. fresh now (get_cached k u s.rank_cache))
    elim cached [
      | some rank ↦ pure rank
      | none ↦ do
        or_throw (← gets (λ s. C.find_one (is_competition k) s.competitions)) competition_not_found
        me ← or_throw (← gets (λ s. R.find_one (is_member u k) s.participants)) not_participant
        λ s.
            let total = count R (is_in k) s.participants in
            let rank = rank_of R k me s.participants in
            let result : UserRank = record {
              rank = rank;
              score = me.score;
              total_participants = total;
              percentile = percentile_of rank total;
            } in
            pure result (record s {
              rank_cache = ((k, u), record { rank = result; timestamp = now }) ∷ s.rank_cache;
            })
    ]

percentile_bound : (rank total : ℕ) → 1 ≤ rank → percentile_of rank total ≤ 10000
unfolding percentile_of
percentile_bound rank zero h = ground arith
percentile_bound rank (suc n) h =
    let within : (2 * (10000 * (suc n + 1 - rank)) + suc n) / (2 * suc n) < 10001 =
      (div-lt_iff_lt-mul (omega arith)).1 (omega arith) in
    ground (arith, within)

module _ (C : Table Competition) (R : Table Participant) where
  -- A stored participant has a rank between 1 and the number of participants.
  rank_bounds :
      (k u : ℕ) (me : Participant) (s : R.Contents)
      → R.find_one (is_member u k) s ≡ some me
      → (1 ≤ rank_of R k me s) × (rank_of R k me s ≤ count R (is_in k) s)
  unfolding rank_of
  rank_bounds k u me s e = (
    omega arith,
    omega (
      arith,
      count_split R (is_in k) (outranks me) s,
      found-count R (λ p. is_in k p && not (outranks me p)) (is_member u k) s me e
          (ground (arith, R.find_one_passes (is_member u k) s me e)),
    ),
  )

  -- Of two participants of a competition the one with the higher score, or with the same score and
  -- the earlier start, has the smaller rank, if it is stored.
  pub rank_order :
      (k u : ℕ) (a b : Participant) (s : R.Contents)
      → R.find_one (is_member u k) s ≡ some a
      → (b.score < a.score) ⊎ ((b.score ≡ a.score) × (a.joined_at < b.joined_at))
      → rank_of R k a s < rank_of R k b s
  unfolding rank_of
  rank_order k u a b s e h =
      let ahead : outranks b a ≡ true = ground (arith, h) in
      omega (
        arith,
        count_split R (λ p. is_in k p && outranks b p) (outranks a) s,
        count_mono R (λ p. is_in k p && outranks a p)
            (λ p. (is_in k p && outranks b p) && outranks a p) s (λ p. ground (arith, ahead)),
        found-count R (λ p. (is_in k p && outranks b p) && not (outranks a p)) (is_member u k) s a e
            (ground (arith, ahead, R.find_one_passes (is_member u k) s a e)),
      )

  computed :
      (now k u : ℕ) (s t : RankStore C R) (me : Participant) (r : UserRank)
      → fresh now (get_cached k u s.rank_cache) ≡ none
      → R.find_one (is_member u k) s.participants ≡ some me
      → my_rank now k u s ≡ (ok r, t)
      → (r.rank ≡ rank_of R k me s.participants)
        × (r.total_participants ≡ count R (is_in k) s.participants)
        × (r.percentile ≡ percentile_of r.rank r.total_participants)
        × (t ≡ record s {
          rank_cache = ((k, u), record { rank = r; timestamp = now }) ∷ s.rank_cache;
        })
  unfolding my_rank
  computed now k u s t me r c m h = (ground arith, ground arith, ground arith, ground arith)

  -- A rank that is computed for a stored participant, since no cached one is young enough, lies
  -- between 1 and the number of participants, its percentile is at most 100, and for five minutes the
  -- same request is answered with it and changes nothing.
  pub my_rank_bounds :
      (now later k u : ℕ) (s t : RankStore C R) (me : Participant) (r : UserRank)
      → fresh now (get_cached k u s.rank_cache) ≡ none
      → R.find_one (is_member u k) s.participants ≡ some me
      → my_rank now k u s ≡ (ok r, t)
      → later < now + rank_ttl
      → (1 ≤ r.rank)
        × (r.rank ≤ r.total_participants)
        × (r.percentile ≤ 10000)
        × (my_rank later k u t ≡ (ok r, t))
  my_rank_bounds now later k u s t me r c m h soon =
      let (rank, total, perc, after) = computed now k u s t me r c m h in
      let (low, high) = rank_bounds k u me s.participants m in
      let pos_rank : 1 ≤ r.rank = omega (arith, low, rank) in
      (
        pos_rank,
        omega (arith, high, rank, total),
        omega (arith, perc, percentile_bound r.rank r.total_participants pos_rank),
        again after,
      )
    where
      again :
          t ≡ record s {
            rank_cache = ((k, u), record { rank = r; timestamp = now }) ∷ s.rank_cache;
          }
          → my_rank later k u t ≡ (ok r, t)
      again e = unfold my_rank in ground arith
