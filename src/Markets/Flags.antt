-- ===== src/Markets/Flags.antt =====
-- The flags of a market under the operations of the service: when each is set, and what no operation
-- undoes.
use paya_dev.Base.{ℕ, ◌≡◌, Bool, ◌&&◌, ◌||◌, not, Option, some, leb, ◌==◌, is_some, includes, arith}
use paya_dev.Base.Action.{is_ok}
use paya_dev.Entities.{User, Market, is_admin}
use paya_dev.Table.{Table}
use paya_dev.Markets.{Comment, Bookmark, Store, has_either_id, resolve, cancel, pause, resume}

module _ (M : Table Market) (C : Table Comment) (B : Table Bookmark) where
  -- Over a stored market, `resolveMarket` succeeds exactly when the market is unresolved, lists the
  -- outcome and the contract agrees. Whether it is cancelled, paused or still running is not asked.
  pub resolve_accepts :
      (now : ℕ) (reply : Option (Unit {0})) (id outcome : ℕ) (s : Store M C B) (m : Market)
      → M.find_one (has_either_id id) s.markets ≡ some m
      → is_ok (resolve now reply id outcome s)
        ≡ (not m.is_resolved && includes m.outcome_options outcome && is_some reply)
  unfolding resolve
  resolve_accepts now reply id outcome s m e = ground arith

  -- Over a stored market, `cancelMarket` succeeds exactly for an admin or the creator of a market
  -- that is neither resolved nor cancelled and has not ended, when the contract agrees and the row is
  -- saved.
  pub cancel_accepts :
      (now : ℕ) (reply : Option ℕ) (stored : Bool) (id : ℕ) (user : User) (s : Store M C B)
      (m : Market)
      → M.find_one (has_either_id id) s.markets ≡ some m
      → is_ok (cancel now reply stored id user s) ≡ (
          (is_admin user.role || m.creator == user.id)
          && not m.is_resolved
          && not m.is_cancelled
          && leb now m.end_time
          && is_some reply
          && stored)
  unfolding cancel
  cancel_accepts now reply stored id user s m e = ground arith

  -- Over a stored market, pausing and resuming succeed exactly for an admin, on a market that is
  -- neither resolved nor cancelled and is not yet in the wanted state, when the contract agrees;
  -- resuming also wants that the market has not ended.
  pub pause_accepts :
      (now : ℕ) (reply : Option ℕ) (id : ℕ) (user : User) (s : Store M C B) (m : Market)
      → M.find_one (has_either_id id) s.markets ≡ some m
      → (is_ok (pause reply id user s) ≡ (
          is_admin user.role
          && not m.is_resolved
          && not m.is_cancelled
          && not m.is_paused
          && is_some reply))
        × (is_ok (resume now reply id user s) ≡ (
            is_admin user.role
            && not m.is_resolved
            && not m.is_cancelled
            && m.is_paused
            && leb now m.end_time
            && is_some reply))
  unfolding pause resume
  pause_accepts now reply id user s m e = ground arith
