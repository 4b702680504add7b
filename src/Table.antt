-- ===== src/Table.antt =====
-- A database table, as the services see it through TypeORM: the interface that the services of
-- backend/src take as a parameter, and what they rely on.
-- TypeORM and PostgreSQL are not part of the repository, so the type of a table's contents stays
-- abstract. It is observed by `total`, the sum of a number taken from each row: with a test for the
-- number it counts rows, so that no statement depends on an order of rows.

pub mod Laws
pub mod Memory
pub mod Single
use paya_dev.Base.{
  ℕ, ◌+◌, ◌≤◌, ◌≡◌, Bool, true, ◌&&◌, Option, none, some, List, if◌then◌else◌, weight, ltb, sum_of,
  length, min,
}

pub record Table (Row : Type 0) : Type 1 where
  pub Contents : Type 0
  -- `SELECT SUM(…)`
  pub total : (Row → ℕ) → Contents → ℕ
  -- `findOne({ where })`: some row that passes, if there is one
  pub find_one : (Row → Bool) → Contents → Option Row
  -- `findOne({ where, order: { key: 'DESC' } })`
  pub find_best : (Row → ℕ) → (Row → Bool) → Contents → Option Row
  -- `find({ where })`: all rows that pass
  pub find : (Row → Bool) → Contents → List Row
  -- `find({ where, take })`: that many of the rows that pass, or all
  pub find_limit : ℕ → (Row → Bool) → Contents → List Row
  -- `save(create(…))`
  pub insert : Row → Contents → Contents
  -- `update(where, changes)`, and `save` of a row that was loaded and changed
  pub update : (Row → Bool) → (Row → Row) → Contents → Contents
  -- `delete(where)`, `remove`
  pub delete : (Row → Bool) → Contents → Contents
  -- A row that is found passes the test, and stands in the table.
  pub find_one_passes :
      (p : Row → Bool) (s : Contents) (r : Row) → find_one p s ≡ some r → p r ≡ true
  pub find_one_stands :
      (p : Row → Bool) (s : Contents) (r : Row) (f : Row → ℕ)
      → find_one p s ≡ some r
      → f r ≤ total f s
  -- No row passes a test that finds none.
  pub find_one_none :
      (p : Row → Bool) (s : Contents) → find_one p s ≡ none → total (λ r. weight (p r)) s ≡ 0
  -- The best row stands in the table and passes, and no row that passes has a greater key.
  pub find_best_passes :
      (key : Row → ℕ) (p : Row → Bool) (s : Contents) (r : Row)
      → find_best key p s ≡ some r
      → p r ≡ true
  pub find_best_stands :
      (key : Row → ℕ) (p : Row → Bool) (s : Contents) (r : Row) (f : Row → ℕ)
      → find_best key p s ≡ some r
      → f r ≤ total f s
  pub find_best_greatest :
      (key : Row → ℕ) (p : Row → Bool) (s : Contents) (r : Row)
      → find_best key p s ≡ some r
      → total (λ x. weight (p x && ltb (key r) (key x))) s ≡ 0
  pub find_best_none :
      (key : Row → ℕ) (p : Row → Bool) (s : Contents)
      → find_best key p s ≡ none
      → total (λ r. weight (p r)) s ≡ 0
  -- The rows found are those that pass, each as often as it stands in the table.
  pub sum_find :
      (f : Row → ℕ) (p : Row → Bool) (s : Contents)
      → sum_of f (find p s) ≡ total (λ r. if p r then f r else 0) s
  pub sum_find_limit :
      (n : ℕ) (f : Row → ℕ) (p : Row → Bool) (s : Contents)
      → sum_of f (find_limit n p s) ≤ total (λ r. if p r then f r else 0) s
  pub length-find_limit :
      (n : ℕ) (p : Row → Bool) (s : Contents)
      → length (find_limit n p s) ≡ min n (total (λ r. weight (p r)) s)
  pub total_insert : (f : Row → ℕ) (r : Row) (s : Contents) → total f (insert r s) ≡ f r + total f s
  pub total_update :
      (f : Row → ℕ) (q : Row → Bool) (g : Row → Row) (s : Contents)
      → total f (update q g s) ≡ total (λ r. if q r then f (g r) else f r) s
  pub total_delete :
      (f : Row → ℕ) (q : Row → Bool) (s : Contents)
      → total f (delete q s) ≡ total (λ r. if q r then 0 else f r) s
  pub total_add : (f g : Row → ℕ) (s : Contents) → total (λ r. f r + g r) s ≡ total f s + total g s
  pub total_mono : (f g : Row → ℕ) (s : Contents) → ((r : Row) → f r ≤ g r) → total f s ≤ total g s

-- `count({ where })`
abbrev pub count : {Row : Type 0} (T : Table Row) → (Row → Bool) → T.Contents → ℕ
count T p s = T.total (λ r. weight (p r)) s
