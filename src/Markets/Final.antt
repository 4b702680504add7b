-- ===== src/Markets/Final.antt =====
-- What no sequence of operations on the markets undoes.
use paya_dev.Base.{
  ℕ, ◌≤◌, ◌≡◌, refl, Bool, false, ◌&&◌, not, Option, none, some, List, [], ◌∷◌, ◌==◌, if◌then◌else◌,
  arith, ==_refl,
}
use paya_dev.Entities.{Market, is_market}
use paya_dev.Table.{Table, count}
use paya_dev.Table.Laws.{
  count-update, count_mono, count-update-ge, count_exclusive, count_split, count-update_same,
}
use paya_dev.Markets.{Comment, Bookmark, Store, has_either_id, resolved}
use paya_dev.Markets.Changes.{Op, perform, Change, same, edit, settle, void, hold, perform-Change}

abbrev is_won : Option ℕ → ℕ → Bool
is_won none o = false
is_won (some x) o = x == o

-- Market `k` is resolved to the outcome `o`.
abbrev pub is_settled : ℕ → ℕ → Market → Bool
is_settled k o m = m.id == k && (m.is_resolved && is_won m.resolved_outcome o)

abbrev pub is_void : ℕ → Market → Bool
is_void k m = m.id == k && m.is_cancelled

module _ (M : Table Market) (C : Table Comment) (B : Table Bookmark) where
  pub perform_all : List Op → Store M C B → Store M C B
  perform_all [] s = s
  perform_all (op ∷ ops) s = perform_all ops (perform M C B op s)

  -- No id stands twice.
  abbrev pub AreUnique : M.Contents → Type 0
  AreUnique a = (k : ℕ) → count M (is_market k) a ≤ 1

  Change-ids :
      {a b : M.Contents}
      → Change M C B a b
      → (k : ℕ) → count M (is_market k) b ≡ count M (is_market k) a
  Change-ids same k = refl
  Change-ids {a} (edit m dto) k = count-update_same M (is_market k) _ _ a (λ r. refl)
  Change-ids {a} (settle m id o now e u) k = count-update_same M (is_market k) _ _ a (λ r. refl)
  Change-ids {a} (void m) k = count-update_same M (is_market k) _ _ a (λ r. refl)
  Change-ids {a} (hold m b) k = count-update_same M (is_market k) _ _ a (λ r. refl)

  Change-void :
      {a b : M.Contents}
      → Change M C B a b
      → (k : ℕ) → count M (is_void k) a ≤ count M (is_void k) b
  Change-void same k = omega arith
  Change-void {a} (edit m dto) k = count-update-ge M (is_void k) _ _ a (λ r _ p. p)
  Change-void {a} (settle m id o now e u) k = count-update-ge M (is_void k) _ _ a (λ r _ p. p)
  Change-void {a} (void m) k = count-update-ge M (is_void k) _ _ a (λ r _ p. ground arith)
  Change-void {a} (hold m b) k = count-update-ge M (is_void k) _ _ a (λ r _ p. p)

  -- The row that is settled was not settled before, and no other row has its id.
  settle-settled :
      (a : M.Contents) (m : Market) (id outcome now k o : ℕ)
      → AreUnique a
      → M.find_one (has_either_id id) a ≡ some m
      → m.is_resolved ≡ false
      → count M (is_settled k o) a
        ≤ count M (is_settled k o) (M.update (is_market m.id) (resolved outcome now) a)
  settle-settled a m id outcome now k o unique e open_market = omega (
    arith,
    count_split M (is_settled k o) (is_market m.id) a,
    count_mono M (λ r. is_settled k o r && is_market m.id r)
        (λ r. is_market m.id r && is_settled k o r) a (λ r. ground arith),
    count_exclusive M (is_settled k o) (is_market m.id) (has_either_id id) m a (unique m.id) e
        (==_refl m.id) (ground arith),
    count-update M (is_settled k o) (is_market m.id) (resolved outcome now) a,
    count_mono M (λ r. is_settled k o r && not (is_market m.id r))
        (λ r.
          if is_market m.id r then is_settled k o (resolved outcome now r) else is_settled k o r)
        a (λ r. ground arith),
  )

  Change-settled :
      {a b : M.Contents}
      → Change M C B a b
      → AreUnique a
      → (k o : ℕ) → count M (is_settled k o) a ≤ count M (is_settled k o) b
  Change-settled same u k o = omega arith
  Change-settled {a} (edit m dto) u k o = count-update-ge M (is_settled k o) _ _ a (λ r _ p. p)
  Change-settled {a} (settle m id x now e f) u k o = settle-settled a m id x now k o u e f
  Change-settled {a} (void m) u k o = count-update-ge M (is_settled k o) _ _ a (λ r _ p. p)
  Change-settled {a} (hold m b) u k o = count-update-ge M (is_settled k o) _ _ a (λ r _ p. p)

  -- No sequence of updates, resolutions, cancellations, pauses and resumptions takes back a
  -- resolution, changes a resolved outcome, or revives a cancelled market, where no id stands twice.
  pub perform_all_final :
      (ops : List Op) (s : Store M C B) (k o : ℕ)
      → AreUnique s.markets
      → (count M (is_settled k o) s.markets ≤ count M (is_settled k o) (perform_all ops s).markets)
        × (count M (is_void k) s.markets ≤ count M (is_void k) (perform_all ops s).markets)
  unfolding perform_all
  perform_all_final [] s k o u = (omega arith, omega arith)
  perform_all_final (op ∷ ops) s k o u =
      let c = perform-Change M C B op s in
      let later =
        perform_all_final ops (perform M C B op s) k o (λ j. omega (arith, u j, Change-ids c j)) in
      (omega (arith, later.0, Change-settled c u k o), omega (arith, later.1, Change-void c k))
