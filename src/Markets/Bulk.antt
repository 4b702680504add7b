-- ===== src/Markets/Bulk.antt =====
-- `createBulk` of backend/src/markets/markets.service.ts: markets made on chain one after the other
-- inside one database transaction.
use paya_dev.Base.{
  ℕ, suc, ◌+◌, ◌<◌, ◌≡◌, refl, ap, Bool, true, ◌&&◌, not, Option, none, some, List, [], ◌∷◌, ◌++◌,
  leb, is_some, arith, Bool-cases, inl, inr, length, sum_of, sum_of-append, length-append,
}
use paya_dev.Base.Action.{Result, ok, err, Action, ◌>>◌, throw_if, is_ok}
use paya_dev.Entities.{User, Market}
use paya_dev.Gateway.{create_market}
use paya_dev.Table.{Table}
use paya_dev.Markets.{
  Error, end_in_past, gateway_failed, Comment, Bookmark, Store, CreateMarket, new_market,
}

-- One market of a batch: its request, the contract's answer and the id that the database assigns.
abbrev pub Item : Type 0
Item = CreateMarket × Option ℕ × ℕ

-- The first loop: every `end_time` lies in the future.
abbrev pub all_future : ℕ → List Item → Bool
all_future now [] = true
all_future now ((dto, _, _) ∷ items) = not (leb dto.end_time now) && all_future now items

-- The contract answers every item.
abbrev pub all_answered : List Item → Bool
all_answered [] = true
all_answered ((_, reply, _) ∷ items) = is_some reply && all_answered items

module _ {M : Table Market} {C : Table Comment} {B : Table Bookmark} where
  -- The second loop; a market is stored as soon as the contract has made it.
  create_each : ℕ → User → List Item → List Market → Action (Store M C B) Error (List Market)
  create_each now user [] created s = (ok created, s)
  create_each now user ((dto, none, fresh) ∷ items) created s =
      (err gateway_failed, record s { calls = create_market dto.title ∷ s.calls })
  create_each now user ((dto, some on_chain, fresh) ∷ items) created s =
      let saved = new_market now fresh on_chain dto user in
      create_each now user items (created ++ saved ∷ [])
        (record s { calls = create_market dto.title ∷ s.calls; markets = M.insert saved s.markets })

  -- A transaction: after a throw the tables are what they were.
  abbrev transaction : {A : Type 0} → Action (Store M C B) Error A → Action (Store M C B) Error A
  transaction m s =
      let (r, t) = m s in
      elim r [ ok a ↦ (ok a, t) | err e ↦ (err e, record t { markets = s.markets }) ]

  pub create_bulk : ℕ → List Item → User → Action (Store M C B) Error (List Market)
  unfolding create_each
  create_bulk now items user = do
    throw_if (not (all_future now items)) end_in_past
    transaction (create_each now user items [])

module _ (M : Table Market) (C : Table Comment) (B : Table Bookmark) where
  -- What the second loop has done when it began with `created`.
  abbrev Made : ℕ → List Market → Store M C B → Result Error (List Market) × Store M C B → Type 0
  Made n created s (err e, t) = length s.calls < length t.calls
  Made n created s (ok ms, t) =
      (length ms ≡ length created + n)
      × (length t.calls ≡ length s.calls + n)
      × ((f : Market → ℕ)
          → M.total f t.markets + sum_of f created ≡ M.total f s.markets + sum_of f ms)

  create_each-Made :
      (now : ℕ) (user : User) (items : List Item) (created : List Market) (s : Store M C B)
      → Made (length items) created s (create_each now user items created s)
  unfolding create_each
  create_each-Made now user [] created s = (omega arith, omega arith, λ f. refl)
  create_each-Made now user ((dto, none, fresh) ∷ items) created s = omega arith
  create_each-Made now user ((dto, some on_chain, fresh) ∷ items) created s =
      let saved = new_market now fresh on_chain dto user in
      let s' = record s {
        calls = create_market dto.title ∷ s.calls;
        markets = M.insert saved s.markets;
      } in
      one_more saved s' (create_each now user items (created ++ saved ∷ []) s')
        (create_each-Made now user items (created ++ saved ∷ []) s') refl refl
    where
      one_more :
          (saved : Market) (s' : Store M C B) (r : Result Error (List Market) × Store M C B)
          → Made (length items) (created ++ saved ∷ []) s' r
          → s'.calls ≡ create_market dto.title ∷ s.calls
          → s'.markets ≡ M.insert saved s.markets
          → Made (suc (length items)) created s r
      one_more saved s' (err e, t) m c k = omega (arith, m, ap length c)
      one_more saved s' (ok ms, t) (l, n, total) c k = (
        omega (arith, l, length-append created (saved ∷ [])),
        omega (arith, n, ap length c),
        λ f. omega (
          arith,
          total f,
          sum_of-append f created (saved ∷ []),
          M.total_insert f saved s.markets,
          ap (M.total f) k,
        ),
      )

  -- Either a batch is stored whole, or not at all.
  abbrev pub Atomic : List Item → Store M C B → Result Error (List Market) × Store M C B → Type 0
  Atomic items s (err e, t) = t.markets ≡ s.markets
  Atomic items s (ok ms, t) =
      (length ms ≡ length items)
      × (length t.calls ≡ length s.calls + length items)
      × ((f : Market → ℕ) → M.total f t.markets ≡ M.total f s.markets + sum_of f ms)

  transaction-Atomic :
      (items : List Item) (s : Store M C B) (r : Result Error (List Market) × Store M C B)
      → Made (length items) [] s r
      → Atomic items s
          (elim r.0 [ ok a ↦ (ok a, r.1) | err e ↦ (err e, record (r.1) { markets = s.markets }) ])
  transaction-Atomic items s (err e, t) m = refl
  transaction-Atomic items s (ok ms, t) (l, n, total) =
      (omega (arith, l), n, λ f. omega (arith, total f))

  -- A batch of markets is stored whole or not at all: on success as many markets as were asked for
  -- are added, one for each call of the contract, and after any failure the table is what it was.
  pub create_bulk-Atomic :
      (now : ℕ) (items : List Item) (user : User) (s : Store M C B)
      → Atomic items s (create_bulk now items user s)
  unfolding create_bulk
  create_bulk-Atomic now items user s = elim (Bool-cases (all_future now items)) [
    | inl e ↦ rw e (
        transaction-Atomic items s (create_each now user items [] s)
          (create_each-Made now user items [] s))
    | inr e ↦ rw e refl
  ]

  create_each_accepts :
      (now : ℕ) (user : User) (items : List Item) (created : List Market) (s : Store M C B)
      → is_ok (create_each now user items created s) ≡ all_answered items
  unfolding create_each
  create_each_accepts now user [] created s = refl
  create_each_accepts now user ((dto, none, fresh) ∷ items) created s = refl
  create_each_accepts now user ((dto, some on_chain, fresh) ∷ items) created s =
      create_each_accepts now user items _ _

  -- A batch succeeds exactly when every end time lies in the future and the contract makes every
  -- market.
  pub create_bulk_accepts :
      (now : ℕ) (items : List Item) (user : User) (s : Store M C B)
      → is_ok (create_bulk now items user s) ≡ (all_future now items && all_answered items)
  unfolding create_bulk
  create_bulk_accepts now items user s = ground (arith, create_each_accepts now user items [] s)
