-- ===== src/Markets/Stats/Counts.antt =====
-- The stats of a market against the stored predictions.
use paya_dev.Base.{
  ℕ, ◌+◌, ◌≡◌, refl, ap, ◌∙◌, fun_ext, true, ◌&&◌, Option, none, some, List, [], ◌∷◌, ◌==◌,
  if◌then◌else◌, is_some, includes, arith, weight, sum_of,
}
use paya_dev.Base.Int.{ℤ, pos, +ℤ_parts, pos_part, neg_part}
use paya_dev.Base.Action.{ok}
use paya_dev.Entities.{Market, Prediction}
use paya_dev.Table.{Table, count}
use paya_dev.Markets.{has_either_id}
use paya_dev.Markets.Stats.{
  Stat, StatsStore, open_stat, open_stats, bump, count_in, count_all, get_cached, fresh, is_on,
  prediction_stats,
}

-- What the list says of an outcome.
abbrev pub stat_of : ℕ → List Stat → Option Stat
stat_of o [] = none
stat_of o (st ∷ sts) = if st.outcome == o then some st else stat_of o sts

abbrev pub count_of : Option Stat → ℕ
count_of none = 0
count_of (some st) = st.count

abbrev pub staked_of : Option Stat → ℤ
staked_of none = pos 0
staked_of (some st) = st.total_staked_stroops

abbrev bumped : Prediction → Option Stat → Option Stat
bumped p none = none
bumped p (some st) = some (bump p st)

stat_of-count_in :
    (o : ℕ) (p : Prediction) (sts : List Stat)
    → stat_of o (count_in p sts)
      ≡ (if p.chosen_outcome == o then bumped p (stat_of o sts) else stat_of o sts)
unfolding count_in
stat_of-count_in o p [] = ground arith
stat_of-count_in o p (st ∷ sts) = ground (arith, stat_of-count_in o p sts)

-- The stat of a listed outcome after the loop over the predictions.
count_all-Counts :
    (o : ℕ) (ps : List Prediction) (sts : List Stat) (st : Stat)
    → stat_of o sts ≡ some st
    → let after = stat_of o (count_all ps sts) in
      (is_some after ≡ true)
      × (count_of after ≡ st.count + sum_of (λ p. weight (p.chosen_outcome == o)) ps)
unfolding count_all
count_all-Counts o [] sts st e = ground arith
count_all-Counts o (p ∷ ps) sts st e = ground (
  arith,
  stat_of-count_in o p sts,
  count_all-Counts o ps (count_in p sts) st,
  count_all-Counts o ps (count_in p sts) (bump p st),
)

-- The same of the stakes, with positive and negative parts kept apart.
count_all-Stakes :
    (o : ℕ) (ps : List Prediction) (sts : List Stat) (st : Stat)
    → stat_of o sts ≡ some st
    → let after = staked_of (stat_of o (count_all ps sts)) in
      let chosen = λ (f : ℤ → ℕ).
        sum_of (λ p. if p.chosen_outcome == o then f p.stake_amount_stroops else 0) ps in
      pos_part after + neg_part st.total_staked_stroops + chosen neg_part
      ≡ neg_part after + pos_part st.total_staked_stroops + chosen pos_part
unfolding count_all
count_all-Stakes o [] sts st e = ground arith
count_all-Stakes o (p ∷ ps) sts st e = ground (
  arith,
  stat_of-count_in o p sts,
  +ℤ_parts st.total_staked_stroops p.stake_amount_stroops,
  count_all-Stakes o ps (count_in p sts) st,
  count_all-Stakes o ps (count_in p sts) (bump p st),
)

abbrev empty_stat : ℕ → Stat
empty_stat o = record { outcome = o; count = 0; total_staked_stroops = pos 0 }

stat_of-open_stat :
    (o x : ℕ) (sts : List Stat)
    → stat_of o (open_stat x sts) ≡ (if x == o then some (empty_stat o) else stat_of o sts)
unfolding open_stat
stat_of-open_stat o x [] = ground arith
stat_of-open_stat o x (st ∷ sts) = ground (arith, stat_of-open_stat o x sts)

stat_of-open_stats :
    (o : ℕ) (os : List ℕ) (sts : List Stat)
    → stat_of o (open_stats os sts) ≡ (if includes os o then some (empty_stat o) else stat_of o sts)
unfolding open_stats
stat_of-open_stats o [] sts = refl
stat_of-open_stats o (x ∷ os) sts =
    ground (arith, stat_of-open_stats o os (open_stat x sts), stat_of-open_stat o x sts)

module _ (M : Table Market) (P : Table Prediction) where
  computed :
      (now id : ℕ) (s t : StatsStore M P) (m : Market) (stats : List Stat)
      → M.find_one (has_either_id id) s.markets ≡ some m
      → fresh now (get_cached id s.cache) ≡ none
      → prediction_stats now id s ≡ (ok stats, t)
      → stats ≡ count_all (P.find (is_on id) s.predictions) (open_stats m.outcome_options [])
  unfolding prediction_stats
  computed now id s t m stats e c h = ground arith

  -- The stats computed, where none are cached, for an outcome that the market lists count the stored
  -- predictions of that outcome whose market id is the id asked for, and add up their stakes. (A market
  -- found by its id on chain is another thing: its predictions carry its own id and are not counted.)
  pub prediction_stats_count :
      (now id o : ℕ) (s t : StatsStore M P) (m : Market) (stats : List Stat)
      → M.find_one (has_either_id id) s.markets ≡ some m
      → fresh now (get_cached id s.cache) ≡ none
      → prediction_stats now id s ≡ (ok stats, t)
      → includes m.outcome_options o ≡ true
      → (is_some (stat_of o stats) ≡ true)
        × (count_of (stat_of o stats)
            ≡ count P (λ p. is_on id p && p.chosen_outcome == o) s.predictions)
        × (pos_part (staked_of (stat_of o stats))
              + P.total
                  (λ p.
                    if is_on id p && p.chosen_outcome == o
                    then neg_part p.stake_amount_stroops
                    else 0)
                  s.predictions
            ≡ neg_part (staked_of (stat_of o stats))
              + P.total
                  (λ p.
                    if is_on id p && p.chosen_outcome == o
                    then pos_part p.stake_amount_stroops
                    else 0)
                  s.predictions)
  prediction_stats_count now id o s t m stats e c h i = rw (computed now id s t m stats e c h) (
    counts.0,
    omega (arith, counts.1, counted),
    omega (
      arith,
      count_all-Stakes o ps opened (empty_stat o) found,
      both (λ p. neg_part p.stake_amount_stroops),
      both (λ p. pos_part p.stake_amount_stroops),
    ),
  )
    where
      ps : List Prediction
      ps = P.find (is_on id) s.predictions

      opened : List Stat
      opened = open_stats m.outcome_options []

      found : stat_of o opened ≡ some (empty_stat o)
      found = ground (arith, stat_of-open_stats o m.outcome_options [])

      counts :
          (is_some (stat_of o (count_all ps opened)) ≡ true)
          × (count_of (stat_of o (count_all ps opened))
              ≡ 0 + sum_of (λ p. weight (p.chosen_outcome == o)) ps)
      counts = count_all-Counts o ps opened (empty_stat o) found

      both :
          (f : Prediction → ℕ)
          → sum_of (λ p. if p.chosen_outcome == o then f p else 0) ps
            ≡ P.total (λ p. if is_on id p && p.chosen_outcome == o then f p else 0) s.predictions
      both f =
          P.sum_find (λ p. if p.chosen_outcome == o then f p else 0) (is_on id) s.predictions
          ∙ ap (λ (g : Prediction → ℕ). P.total g s.predictions) (fun_ext (λ p. ground arith))

      counted :
          sum_of (λ p. weight (p.chosen_outcome == o)) ps
          ≡ count P (λ p. is_on id p && p.chosen_outcome == o) s.predictions
      counted =
          P.sum_find (λ p. weight (p.chosen_outcome == o)) (is_on id) s.predictions
          ∙ ap (λ (g : Prediction → ℕ). P.total g s.predictions) (fun_ext (λ p. ground arith))
