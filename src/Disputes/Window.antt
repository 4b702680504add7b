-- ===== src/Disputes/Window.antt =====
-- When a dispute can be raised: `create` and `checkDisputeWindow` of
-- backend/src/disputes/disputes.service.ts.
use paya_dev.Base.{ℕ, ◌≡◌, refl, true, ◌&&◌, not, is_some, arith, Option-cases, inl, inr}
use paya_dev.Base.Action.{is_ok}
use paya_dev.Entities.{User, Market, is_market}
use paya_dev.Table.{Table}
use paya_dev.Table.Laws.{count-insert}
use paya_dev.Disputes.{
  Dispute, Store, is_dispute, is_about, new_dispute, create, find_one, check_dispute_window,
}

module _ (D : Table Dispute) (M : Table Market) where
  -- A dispute that was just stored is found.
  found_again :
      (now fresh market_id reason : ℕ) (user : User) (ds : D.Contents)
      → is_some (
          D.find_one (is_dispute fresh) (D.insert (new_dispute now fresh market_id reason user) ds))
        ≡ true
  found_again now fresh market_id reason user ds =
      let row = new_dispute now fresh market_id reason user in
      elim (Option-cases (D.find_one (is_dispute fresh) (D.insert row ds))) [
        | inl e ↦ absurd (
            ground (
              arith,
              count-insert D (is_dispute fresh) row ds,
              D.find_one_none (is_dispute fresh) (D.insert row ds) e,
            ))
        | inr (d, e) ↦ rw e refl
      ]

  -- A dispute is raised exactly where `checkDisputeWindow` says that the window is open and the
  -- market has no dispute yet.
  pub create_accepts :
      (now fresh market_id reason : ℕ) (user : User) (s : Store D M)
      → is_ok (create now fresh market_id reason user s) ≡ (
          check_dispute_window now market_id s
          && not (is_some (D.find_one (is_about market_id) s.disputes)))
  unfolding create find_one check_dispute_window
  create_accepts now fresh market_id reason user s =
      elim (Option-cases (M.find_one (is_market market_id) s.markets)) [
        | inl e ↦ ground arith
        | inr (m, e) ↦ ground (arith, found_again now fresh market_id reason user s.disputes)
      ]
