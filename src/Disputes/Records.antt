-- ===== src/Disputes/Records.antt =====
-- Requests and background tasks of backend/src/disputes/disputes.service.ts in any order.
use paya_dev.Base.{
  ℕ, ◌≤◌, ◌≡◌, refl, ap, Bool, true, false, ◌&&◌, not, Option, none, some, List, [], ◌∷◌, leb, ◌==◌,
  if◌then◌else◌, is_some, arith, Option-cases, inl, inr, ==_iff,
}
use paya_dev.Entities.{User, Market, is_market}
use paya_dev.Table.{Table, count}
use paya_dev.Table.Laws.{count-insert_le_one, count-update_same}
use paya_dev.Disputes.{
  Dispute, DisputeResolution, Task, record_dispute, record_resolution, Store, is_dispute, is_about,
  is_pending, new_dispute, decided, raised_as, settled_by, create, resolve, run_task, find_one,
  window_end,
}

-- A request, or a task that runs with what the contract answers.
pub data Event : Type 0 where
  creates : ℕ → ℕ → ℕ → ℕ → User → Event
  resolves : ℕ → ℕ → DisputeResolution → Option ℕ → User → Event
  works : Option ℕ → Task → Event

module _ (D : Table Dispute) (M : Table Market) where
  handle : Event → Store D M → Store D M
  handle (creates now fresh market_id reason user) s = (create now fresh market_id reason user s).1
  handle (resolves now id resolution notes admin_user) s =
      (resolve now id resolution notes admin_user s).1
  handle (works reply task) s = run_task reply task s

  pub handle_all : List Event → Store D M → Store D M
  handle_all [] s = s
  handle_all (e ∷ es) s = handle_all es (handle e s)

  data Change (a : D.Contents) : D.Contents → Type 0 where
    same : Change a a
    add :
        (now fresh market_id reason : ℕ) (user : User)
        → D.find_one (is_about market_id) a ≡ none
        → Change a (D.insert (new_dispute now fresh market_id reason user) a)
    touch :
        (k : ℕ) (g : Dispute → Dispute)
        → ((d : Dispute) → (g d).market ≡ d.market)
        → Change a (D.update (is_dispute k) g a)

  Change-single :
      {a b : D.Contents}
      → Change a b
      → ((m : ℕ) → count D (is_about m) a ≤ 1)
      → (m : ℕ) → count D (is_about m) b ≤ 1
  Change-single same h m = h m
  Change-single {a} (add now fresh market_id reason user free) h m =
      count-insert_le_one D (is_about m) (new_dispute now fresh market_id reason user) a (h m) (λ e.
        let same_market : market_id ≡ m = (==_iff market_id m).0 e in
        rw (← same_market) (D.find_one_none (is_about market_id) a free))
  Change-single {a} (touch k g kept) h m = omega (
    arith,
    h m,
    count-update_same D (is_about m) (is_dispute k) g a (λ d. ap (λ x. x == m) (kept d)),
  )

  from_if : (b : Bool) (a c : D.Contents) → (b ≡ true → Change a c) → Change a (if b then c else a)
  from_if true a c h = h refl
  from_if false a c h = same

  create-Change :
      (now fresh market_id reason : ℕ) (user : User) (s : Store D M)
      → Change s.disputes (create now fresh market_id reason user s).1.disputes
  create-Change now fresh market_id reason user s =
      elim (Option-cases (M.find_one (is_market market_id) s.markets)) [
        | inl e ↦ rw (missing e) same
        | inr (m, e) ↦
            rw (found m e)
              (from_if _ s.disputes _ (λ h. add now fresh market_id reason user (ground arith)))
      ]
    where
      missing :
          M.find_one (is_market market_id) s.markets ≡ none
          → (create now fresh market_id reason user s).1.disputes ≡ s.disputes
      missing e = unfold create in ground arith

      found :
          (m : Market)
          → M.find_one (is_market market_id) s.markets ≡ some m
          → (create now fresh market_id reason user s).1.disputes ≡ (
              if m.is_resolved
                && leb now (window_end m)
                && not (is_some (D.find_one (is_about market_id) s.disputes))
              then D.insert (new_dispute now fresh market_id reason user) s.disputes
              else s.disputes)
      found m e = unfold create find_one in ground arith

  resolve-Change :
      (now id : ℕ) (resolution : DisputeResolution) (notes : Option ℕ) (admin_user : User)
      (s : Store D M)
      → Change s.disputes (resolve now id resolution notes admin_user s).1.disputes
  resolve-Change now id resolution notes admin_user s =
      elim (Option-cases (D.find_one (is_dispute id) s.disputes)) [
        | inl e ↦ rw (missing e) same
        | inr (d, e) ↦ rw (found d e) (
            from_if _ s.disputes _
              (λ h. touch d.id (decided now resolution notes admin_user) (λ x. refl)))
      ]
    where
      missing :
          D.find_one (is_dispute id) s.disputes ≡ none
          → (resolve now id resolution notes admin_user s).1.disputes ≡ s.disputes
      missing e = unfold resolve find_one in ground arith

      found :
          (d : Dispute)
          → D.find_one (is_dispute id) s.disputes ≡ some d
          → (resolve now id resolution notes admin_user s).1.disputes ≡ (
              if is_some (M.find_one (is_market d.market) s.markets) && is_pending d.status
              then D.update (is_dispute d.id) (decided now resolution notes admin_user) s.disputes
              else s.disputes)
      found d e = unfold resolve find_one in ground arith

  run_task-Change :
      (reply : Option ℕ) (task : Task) (s : Store D M)
      → Change s.disputes (run_task reply task s).disputes
  unfolding run_task
  run_task-Change none (record_dispute id chain_market reason) s = same
  run_task-Change (some chain_id) (record_dispute id chain_market reason) s =
      touch id (raised_as chain_id) (λ x. refl)
  run_task-Change reply (record_resolution id chain_market resolution) s =
      rw (shape reply)
        (from_if (reaches reply) s.disputes _ (λ h. touch id (settled_by (tx reply)) (λ x. refl)))
    where
      -- The contract is called, and answers.
      reaches : Option ℕ → Bool
      reaches r = is_some r && elim (D.find_one (is_dispute id) s.disputes) [
        | none ↦ false
        | some d ↦ is_some d.on_chain_dispute_id
      ]

      tx : Option ℕ → ℕ
      tx none = 0
      tx (some t) = t

      shape :
          (r : Option ℕ)
          → (run_task r (record_resolution id chain_market resolution) s).disputes ≡ (
              if reaches r
              then D.update (is_dispute id) (settled_by (tx r)) s.disputes
              else s.disputes)
      shape none = unfold run_task in ground arith
      shape (some t) = unfold run_task in ground arith

  handle-Change : (e : Event) (s : Store D M) → Change s.disputes (handle e s).disputes
  unfolding handle
  handle-Change (creates now fresh market_id reason user) s =
      create-Change now fresh market_id reason user s
  handle-Change (resolves now id resolution notes admin_user) s =
      resolve-Change now id resolution notes admin_user s
  handle-Change (works reply task) s = run_task-Change reply task s

  -- Where no market has two disputes, none comes to have two, however disputes are raised and resolved,
  -- and whenever and with whatever answers the background tasks run.
  pub disputes_stay_single :
      (es : List Event) (s : Store D M) (m : ℕ)
      → ((k : ℕ) → count D (is_about k) s.disputes ≤ 1)
      → count D (is_about m) (handle_all es s).disputes ≤ 1
  unfolding handle_all
  disputes_stay_single [] s m h = h m
  disputes_stay_single (e ∷ es) s m h =
      disputes_stay_single es (handle e s) m (Change-single (handle-Change e s) h)
