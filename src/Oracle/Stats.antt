-- ===== src/Oracle/Stats.antt =====
-- backend/src/oracle/oracle.service.ts: the pages of pending matches, and the numbers of getStats. A page
-- holds rows in no given order; their number and the total are modelled.
use paya_dev.Base.{
  ℕ, ◌+◌, ◌-◌, ◌*◌, min, ◌≡◌, refl, Bool, true, ◌&&◌, not, Option, none, some, ltb, leb, arith,
}
use paya_dev.Table.{Table, count}
use paya_dev.Table.Laws.{count_split, count_ext}
use paya_dev.Oracle.{EventMatch}

-- `m.match_time < :now` and `m.result_submitted = false`
abbrev pub is_pending : ℕ → EventMatch → Bool
is_pending now m = ltb m.match_time now && not m.result_submitted

-- Of `getPendingMatches`: the length of the page, the total, the page and the limit.
pub record PendingPage : Type 0 where
  pub shown : ℕ
  pub total : ℕ
  pub page : ℕ
  pub limit : ℕ

pub record OracleStats : Type 0 where
  pub pending : ℕ
  pub resolved : ℕ
  pub overdue : ℕ

abbrev given : Option ℕ → ℕ → ℕ
given none n = n
given (some m) n = m

module _ (M : Table EventMatch) where
  pub get_pending_matches : ℕ → Option ℕ → Option ℕ → M.Contents → PendingPage
  get_pending_matches now page limit s =
      let p = given page 1 in
      let l = min (given limit 20) 100 in
      let all = count M (is_pending now) s in
      record { shown = min l (all - (p - 1) * l); total = all; page = p; limit = l }

  -- A day is 86400000 ms.
  pub get_stats : ℕ → M.Contents → OracleStats
  get_stats now s =
      let threshold = now - 86400000 in
      record {
        pending = count M (λ m. is_pending now m && leb threshold m.match_time) s;
        resolved = count M (λ m. m.result_submitted) s;
        overdue = count M (λ m. ltb m.match_time threshold && not m.result_submitted) s;
      }

  -- The numbers of pending and overdue matches add up to the total that the pages of pending matches
  -- report at the same time, and with the resolved ones to all matches but those that are ahead.
  pub stats_add_up :
      (now : ℕ) (page limit : Option ℕ) (s : M.Contents)
      → ((get_stats now s).pending + (get_stats now s).overdue
          ≡ (get_pending_matches now page limit s).total)
        × ((get_stats now s).pending
              + (get_stats now s).overdue
              + (get_stats now s).resolved
              + count M (λ m. leb now m.match_time && not m.result_submitted) s
            ≡ count M (λ m. true) s)
  unfolding get_stats get_pending_matches
  stats_add_up now page limit s =
      let threshold = now - 86400000 in
      let split = count_split M (is_pending now) (λ m. leb threshold m.match_time) s in
      let late =
        count_ext M (λ m. is_pending now m && not (leb threshold m.match_time))
          (λ m. ltb m.match_time threshold && not m.result_submitted) s (λ m. ground arith) in
      let decided = count_split M (λ m. true) (λ m. m.result_submitted) s in
      let undecided =
        count_split M (λ m. true && not m.result_submitted) (λ m. ltb m.match_time now) s in
      let ahead =
        count_ext M (λ m. (true && not m.result_submitted) && not (ltb m.match_time now))
          (λ m. leb now m.match_time && not m.result_submitted) s (λ m. ground arith) in
      let past =
        count_ext M (λ m. (true && not m.result_submitted) && ltb m.match_time now) (is_pending now)
          s (λ m. ground arith) in
      let res =
        count_ext M (λ m. true && m.result_submitted) (λ m. m.result_submitted) s (λ m. refl) in
      (omega (arith, split, late), omega (arith, split, late, decided, undecided, ahead, past, res))
