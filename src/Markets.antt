-- ===== src/Markets.antt =====
-- backend/src/markets/markets.service.ts: the operations that change a market, its comments and its
-- bookmarks. `reply` is what the contract answers, `fresh` the id that the database assigns, `stored`
-- whether the save succeeds where the code catches its failure.
pub mod Bulk
pub mod Bookmarks
pub mod Stats
pub mod Flags
pub mod Changes
pub mod Final
use paya_dev.Base.{
  ℕ, ◌+◌, ◌-◌, Bool, true, false, ◌&&◌, ◌||◌, not, Option, none, some, List, [], ◌∷◌, ◌++◌, ltb,
  leb, ◌==◌, is_some, includes,
}
use paya_dev.Base.Int.{pos}
use paya_dev.Base.Action.{ok, Action, pure, gets, or_throw, ◌>>=◌, ◌>>◌, throw_if, modify}
use paya_dev.Entities.{User, Market, is_market, is_admin}
use paya_dev.Gateway.{
  Call, create_market, resolve_market, cancel_market, pause_market, resume_market, invoke,
}
use paya_dev.Table.{Table}

pub data Error : Type 0 where
  market_not_found parent_not_found : Error  -- NotFoundException
  not_creator not_permitted not_admin : Error  -- ForbiddenException
  end_in_past ended invalid_outcome is_resolved is_cancelled : Error  -- BadRequestException
  already_resolved already_paused not_paused : Error  -- ConflictException
  gateway_failed save_failed : Error  -- BadGatewayException

pub record Comment : Type 0 where
  pub id : ℕ
  pub content : ℕ
  pub author : ℕ  -- the user's id
  pub market : ℕ  -- the market's id
  pub parent : Option ℕ

pub record Bookmark : Type 0 where
  pub id : ℕ
  pub user : ℕ
  pub market : ℕ

pub record CreateMarket : Type 0 where
  pub title : ℕ
  pub description : ℕ
  pub category : ℕ
  pub outcome_options : List ℕ
  pub end_time : ℕ
  pub resolution_time : ℕ
  pub is_public : Bool

pub record UpdateMarket : Type 0 where
  pub title : Option ℕ
  pub description : Option ℕ
  pub category : Option ℕ

-- What goes out of the service besides the contract's calls: webhooks, and keys deleted from the
-- shared cache.
pub data Event : Type 0 where
  market_created market_resolved : ℕ → Event
  drop_trending : Event
  drop_detail : ℕ → Event

pub record Store (M : Table Market) (C : Table Comment) (B : Table Bookmark) : Type 0 where
  pub markets : M.Contents
  pub comments : C.Contents
  pub bookmarks : B.Contents
  pub trending_cache : Option ℕ  -- when the cached list was made
  pub calls : List Call
  pub events : List Event  -- newest first

-- `where: [{ id }, { on_chain_market_id: id }]`
abbrev pub has_either_id : ℕ → Market → Bool
has_either_id k m = m.id == k || m.on_chain_market_id == k

abbrev pub is_bookmark_of : ℕ → ℕ → Bookmark → Bool
is_bookmark_of u m b = b.user == u && b.market == m

-- The row that `createMarket` and `createBulk` store, the columns' defaults included.
pub new_market : ℕ → ℕ → ℕ → CreateMarket → User → Market
new_market now fresh on_chain dto user = record {
  id = fresh;
  on_chain_market_id = on_chain;
  creator = user.id;
  title = dto.title;
  description = dto.description;
  category = dto.category;
  outcome_options = dto.outcome_options;
  end_time = dto.end_time;
  resolution_time = dto.resolution_time;
  is_resolved = false;
  resolved_outcome = none;
  resolved_at = none;
  is_public = dto.is_public;
  is_cancelled = false;
  is_featured = false;
  is_paused = false;
  featured_at = none;
  total_pool_stroops = pos 0;
  participant_count = 0;
  created_at = now;
}

-- `dto.field ?? keep`
abbrev or_keep : Option ℕ → ℕ → ℕ
or_keep none old = old
or_keep (some new) old = new

abbrev pub edited : UpdateMarket → Market → Market
edited dto m = record m {
  title = or_keep dto.title m.title;
  description = or_keep dto.description m.description;
  category = or_keep dto.category m.category;
}

abbrev pub resolved : ℕ → ℕ → Market → Market
resolved outcome now m = record m {
  is_resolved = true;
  resolved_outcome = some outcome;
  resolved_at = some now;
}

abbrev pub cancelled : Market → Market
cancelled m = record m { is_cancelled = true }

abbrev pub paused : Bool → Market → Market
paused b m = record m { is_paused = b }

module _ {M : Table Market} {C : Table Comment} {B : Table Bookmark} where
  abbrev call_here : {A : Type 0} → Call → Option A → Action (Store M C B) Error A
  call_here c reply = invoke (λ s. s.calls) (λ cs s. record s { calls = cs }) c reply gateway_failed

  abbrev emit : List Event → Action (Store M C B) Error (Unit {0})
  emit es = modify λ s. record s { events = es ++ s.events }

  -- `save` of a loaded market, of which `g` changed some columns.
  abbrev save_market : Market → (Market → Market) → Action (Store M C B) Error (Unit {0})
  save_market m g = modify λ s. record s { markets = M.update (is_market m.id) g s.markets }

  find_market : ℕ → Action (Store M C B) Error Market
  find_market id s = or_throw (M.find_one (has_either_id id) s.markets) market_not_found s

  pub create :
      ℕ → Option ℕ → ℕ → Bool → Bool → CreateMarket → User → Action (Store M C B) Error Market
  create now reply fresh stored emitted dto user = do
    throw_if (leb dto.end_time now) end_in_past
    on_chain ← call_here (create_market dto.title) reply
    let saved = new_market now fresh on_chain dto user
    throw_if (not stored) save_failed
    modify λ s. record s { markets = M.insert saved s.markets }
    throw_if (not emitted) save_failed
    emit (market_created saved.id ∷ [])
    pure saved

  pub update : ℕ → ℕ → ℕ → UpdateMarket → Action (Store M C B) Error Market
  unfolding find_market
  update now id user_id dto = do
    market ← find_market id
    throw_if (not (market.creator == user_id)) not_creator
    throw_if (ltb market.end_time now) ended
    save_market market (edited dto)
    pure (edited dto market)

  pub resolve : ℕ → Option (Unit {0}) → ℕ → ℕ → Action (Store M C B) Error Market
  unfolding find_market
  resolve now reply id outcome = do
    market ← find_market id
    throw_if market.is_resolved already_resolved
    throw_if (not (includes market.outcome_options outcome)) invalid_outcome
    call_here (resolve_market market.on_chain_market_id outcome) reply
    save_market market (resolved outcome now)
    modify λ s. record s { trending_cache = none }
    emit (market_resolved market.id ∷ drop_detail market.id ∷ drop_trending ∷ [])
    pure (resolved outcome now market)

  pub cancel : ℕ → Option ℕ → Bool → ℕ → User → Action (Store M C B) Error Market
  unfolding find_market
  cancel now reply stored id user = do
    market ← find_market id
    throw_if (not (is_admin user.role) && not (market.creator == user.id)) not_permitted
    throw_if market.is_resolved is_resolved
    throw_if market.is_cancelled is_cancelled
    throw_if (ltb market.end_time now) ended
    call_here (cancel_market market.on_chain_market_id) reply
    throw_if (not stored) save_failed
    save_market market cancelled
    modify λ s. record s { trending_cache = none }
    emit (drop_detail market.id ∷ drop_trending ∷ [])
    pure (cancelled market)

  pub pause : Option ℕ → ℕ → User → Action (Store M C B) Error Market
  unfolding find_market
  pause reply id user = do
    market ← find_market id
    throw_if (not (is_admin user.role)) not_admin
    throw_if market.is_resolved is_resolved
    throw_if market.is_cancelled is_cancelled
    throw_if market.is_paused already_paused
    call_here (pause_market market.on_chain_market_id) reply
    save_market market (paused true)
    pure (paused true market)

  pub resume : ℕ → Option ℕ → ℕ → User → Action (Store M C B) Error Market
  unfolding find_market
  resume now reply id user = do
    market ← find_market id
    throw_if (not (is_admin user.role)) not_admin
    throw_if market.is_resolved is_resolved
    throw_if market.is_cancelled is_cancelled
    throw_if (not market.is_paused) not_paused
    throw_if (ltb market.end_time now) ended
    call_here (resume_market market.on_chain_market_id) reply
    save_market market (paused false)
    pure (paused false market)

  -- The parent of a comment, if one is named, has to exist.
  check_parent : Option ℕ → Action (Store M C B) Error (Unit {0})
  check_parent none s = (ok tt, s)
  check_parent (some id) s =
      throw_if (not (is_some (C.find_one (λ c. c.id == id) s.comments))) parent_not_found s

  pub create_comment : ℕ → ℕ → ℕ → Option ℕ → User → Action (Store M C B) Error Comment
  unfolding find_market check_parent
  create_comment fresh market_id content parent_id user = do
    market ← find_market market_id
    check_parent parent_id
    let saved : Comment = record {
      id = fresh;
      content = content;
      author = user.id;
      market = market.id;
      parent = parent_id;
    }
    modify λ s. record s { comments = C.insert saved s.comments }
    pure saved

  pub add_bookmark : ℕ → ℕ → User → Action (Store M C B) Error Bookmark
  unfolding find_market
  add_bookmark fresh market_id user = do
    market ← find_market market_id
    existing ← gets (λ s. B.find_one (is_bookmark_of user.id market.id) s.bookmarks)
    elim existing [
      | some bookmark ↦ pure bookmark
      | none ↦
          let saved : Bookmark = record { id = fresh; user = user.id; market = market.id } in
          λ s. pure saved (record s { bookmarks = B.insert saved s.bookmarks })
    ]

  pub remove_bookmark : ℕ → User → Action (Store M C B) Error (Unit {0})
  unfolding find_market
  remove_bookmark market_id user = do
    market ← find_market market_id
    modify λ s. record s { bookmarks = B.delete (is_bookmark_of user.id market.id) s.bookmarks }
