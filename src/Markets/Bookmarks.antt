-- ===== src/Markets/Bookmarks.antt =====
-- The bookmarks of backend/src/markets/markets.service.ts, and the relation between users and markets
-- that they stand for.
use paya_dev.Base.{ℕ, ◌≡◌, Bool, ◌&&◌, ◌||◌, not, Option, none, some, List, [], ◌∷◌, ◌==◌, weight}
use paya_dev.Entities.{User, Market}
use paya_dev.Table.{Table, count}
use paya_dev.Markets.{
  Store, Comment, Bookmark, has_either_id, is_bookmark_of, add_bookmark, remove_bookmark,
}

-- A request of a user for a market, by either id.
pub data Request : Type 0 where
  adds : (fresh market_id : ℕ) → User → Request
  removes : (market_id : ℕ) → User → Request

abbrev asked : Request → ℕ
asked (adds fresh k user) = k
asked (removes k user) = k

-- Which user has marked which market.
abbrev pub Marks : Type 0
Marks = ℕ → ℕ → Bool

abbrev pub with_mark : ℕ → ℕ → Marks → Marks
with_mark u m f v n = v == u && n == m || f v n

abbrev pub without_mark : ℕ → ℕ → Marks → Marks
without_mark u m f v n = not (v == u && n == m) && f v n

-- A request on the relation; `id_of` finds the id of a market.
pub mark : (ℕ → Option ℕ) → Request → Marks → Marks
mark id_of (adds fresh k user) f = elim (id_of k) [ none ↦ f | some m ↦ with_mark user.id m f ]
mark id_of (removes k user) f = elim (id_of k) [ none ↦ f | some m ↦ without_mark user.id m f ]

pub mark_all : (ℕ → Option ℕ) → List Request → Marks → Marks
mark_all id_of [] f = f
mark_all id_of (r ∷ rs) f = mark_all id_of rs (mark id_of r f)

module _ (M : Table Market) (C : Table Comment) (B : Table Bookmark) where
  pub handle : Request → Store M C B → Store M C B
  unfolding add_bookmark remove_bookmark
  handle (adds fresh k user) s = (add_bookmark fresh k user s).1
  handle (removes k user) s = (remove_bookmark k user s).1

  pub handle_all : List Request → Store M C B → Store M C B
  handle_all [] s = s
  handle_all (r ∷ rs) s = handle_all rs (handle r s)

  abbrev pub id_in : M.Contents → ℕ → Option ℕ
  id_in ms k = elim (M.find_one (has_either_id k) ms) [ none ↦ none | some m ↦ some m.id ]

  -- A user has one bookmark for each market that the relation holds of, and none for others.
  pub record StandFor (f : Marks) (bs : B.Contents) : Type 0 where
    pub counted : (u m : ℕ) → count B (is_bookmark_of u m) bs ≡ weight (f u m)
