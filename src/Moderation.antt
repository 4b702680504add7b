-- ===== src/Moderation.antt =====
-- backend/src/flags/flags.service.ts: flags that users raise on markets, and what an admin does with
-- them. `fresh` is the id that the database assigns.
pub mod Flagging
pub mod Resolving
use paya_dev.Base.{
  ℕ, ◌-◌, Bool, true, false, ◌&&◌, not, Option, none, some, List, ◌∷◌, ◌==◌, is_some,
}
use paya_dev.Base.Action.{Action, pure, gets, or_throw, ◌>>=◌, ◌>>◌, throw_if, modify}
use paya_dev.Entities.{User, Market, is_market, is_user}
use paya_dev.Table.{Table}

pub data Error : Type 0 where
  market_not_found flag_not_found : Error  -- NotFoundException
  already_flagged already_resolved : Error  -- ConflictException

pub data FlagStatus : Type 0 where
  pending resolved dismissed : FlagStatus

pub data ResolutionAction : Type 0 where
  dismiss remove_market ban_user : ResolutionAction

pub record Flag : Type 0 where
  pub id : ℕ
  pub market : ℕ  -- the market's id
  pub user : ℕ  -- the id of the user who raised it
  pub reason : ℕ
  pub status : FlagStatus
  pub description : Option ℕ
  pub resolution_action : Option ResolutionAction
  pub admin_notes : Option ℕ
  pub resolved_by : Option ℕ
  pub resolved_at : Option ℕ
  pub created_at : ℕ

pub record CreateFlag : Type 0 where
  pub market_id : ℕ
  pub reason : ℕ
  pub description : Option ℕ

-- Notes that are missing or empty are `none`.
pub record ResolveFlag : Type 0 where
  pub action : ResolutionAction
  pub admin_notes : Option ℕ

-- `logActivity`
pub data Activity : Type 0 where
  market_flagged : ℕ → ℕ → ℕ → Activity
  flag_resolved : ℕ → ℕ → ResolutionAction → Activity

pub record Store (F : Table Flag) (M : Table Market) (U : Table User) : Type 0 where
  pub flags : F.Contents
  pub markets : M.Contents
  pub users : U.Contents
  pub activities : List Activity  -- newest first

abbrev pub is_pending : FlagStatus → Bool
is_pending pending = true
is_pending _ = false

abbrev pub has_id : ℕ → Flag → Bool
has_id k f = f.id == k

-- `where: { user_id, market_id, status: PENDING }`
abbrev pub is_open : ℕ → ℕ → Flag → Bool
is_open u m f = f.user == u && f.market == m && is_pending f.status

abbrev pub new_flag : ℕ → ℕ → ℕ → CreateFlag → Flag
new_flag now fresh user_id dto = record {
  id = fresh;
  market = dto.market_id;
  user = user_id;
  reason = dto.reason;
  status = pending;
  description = dto.description;
  resolution_action = none;
  admin_notes = none;
  resolved_by = none;
  resolved_at = none;
  created_at = now;
}

abbrev status_after : ResolutionAction → FlagStatus
status_after dismiss = dismissed
status_after remove_market = resolved
status_after ban_user = resolved

abbrev pub settled : ℕ → ℕ → ResolveFlag → Flag → Flag
settled now admin_id dto f = record f {
  status = status_after dto.action;
  resolution_action = some dto.action;
  admin_notes = dto.admin_notes;
  resolved_by = some admin_id;
  resolved_at = some now;
}

-- The text of the reason is kept as the flag's reason.
abbrev pub banned : ℕ → ℕ → ℕ → User → User
banned now admin_id reason u = record u {
  is_banned = true;
  ban_reason = some reason;
  banned_at = some now;
  banned_by = some admin_id;
}

abbrev pub removed : Market → Market
removed m = record m { is_cancelled = true }

module _ {F : Table Flag} {M : Table Market} {U : Table User} where
  pub create_flag : ℕ → ℕ → ℕ → CreateFlag → Action (Store F M U) Error Flag
  create_flag now fresh user_id dto = do
    or_throw (← gets (λ s. M.find_one (is_market dto.market_id) s.markets)) market_not_found
    existing ← gets (λ s. F.find_one (is_open user_id dto.market_id) s.flags)
    throw_if (is_some existing) already_flagged
    let saved = new_flag now fresh user_id dto
    modify λ s. record s {
      flags = F.insert saved s.flags;
      activities = market_flagged user_id dto.market_id dto.reason ∷ s.activities;
    }
    pure saved

  -- The `switch` of `resolveFlag`.
  act : ℕ → ℕ → Flag → ResolutionAction → Store F M U → Store F M U
  act now admin_id flag dismiss s = s
  act now admin_id flag remove_market s = record s {
    markets = M.update (is_market flag.market) removed s.markets;
  }
  act now admin_id flag ban_user s = record s {
    users = U.update (is_user flag.user) (banned now admin_id flag.reason) s.users;
  }

  unfoldable pub resolve_flag : ℕ → ℕ → ResolveFlag → ℕ → Action (Store F M U) Error Flag
  unfolding act
  resolve_flag now flag_id dto admin_id = do
    flag ← or_throw (← gets (λ s. F.find_one (has_id flag_id) s.flags)) flag_not_found
    throw_if (not (is_pending flag.status)) already_resolved
    modify (act now admin_id flag dto.action)
    modify λ s. record s {
      flags = F.update (has_id flag.id) (settled now admin_id dto) s.flags;
      activities = flag_resolved admin_id flag_id dto.action ∷ s.activities;
    }
    pure (settled now admin_id dto flag)
