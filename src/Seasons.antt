-- ===== src/Seasons.antt =====
-- backend/src/seasons/seasons.service.ts: creating a season, the active one, and finalizing. `reply`
-- is what the contract answers, `fresh` the id that the database assigns.
pub mod Separate
pub mod Finalize
use paya_dev.Base.{
  ℕ, ◌-◌, ◌/◌, Bool, true, false, ◌&&◌, not, Option, none, some, List, ◌∷◌, ltb, leb, ◌==◌,
  if◌then◌else◌, is_some,
}
use paya_dev.Base.Action.{Action, pure, throw, gets, or_throw, ◌>>=◌, ◌>>◌, throw_if, modify}
use paya_dev.Entities.{User}
use paya_dev.Gateway.{Call, create_season}
use paya_dev.Table.{Table, count}

pub data Error : Type 0 where
  no_active_season season_not_found : Error  -- NotFoundException
  invalid_time end_before_start : Error  -- BadRequestException
  number_in_use overlapping already_finalized : Error  -- ConflictException
  gateway_failed notification_failed : Error  -- what the called service threw

pub record Season : Type 0 where
  pub id : ℕ
  pub season_number : ℕ
  pub starts_at : ℕ
  pub ends_at : ℕ
  pub reward_pool_stroops : ℕ
  pub is_active : Bool
  pub is_finalized : Bool
  pub top_winner : Option ℕ  -- the user's id
  pub on_chain_season_id : Option ℕ
  pub soroban_tx_hash : Option ℕ

-- A time that `new Date` cannot read is `none`.
pub record CreateSeason : Type 0 where
  pub season_number : ℕ
  pub start_time : Option ℕ
  pub end_time : Option ℕ
  pub reward_pool_stroops : ℕ
  pub sync_soroban : Bool

pub record Store (S : Table Season) (U : Table User) : Type 0 where
  pub seasons : S.Contents
  pub users : U.Contents
  pub calls : List Call
  pub notified : List ℕ  -- the addresses of the winners notified, newest first

abbrev pub is_season : ℕ → Season → Bool
is_season k s = s.id == k

abbrev pub has_number : ℕ → Season → Bool
has_number n s = s.season_number == n

-- The conditions of `findActive`.
abbrev pub is_running : ℕ → Season → Bool
is_running now s = s.is_active && leb s.starts_at now && ltb now s.ends_at

-- The conditions of `hasActiveSeasonOverlappingRange`.
abbrev pub overlaps : ℕ → ℕ → Season → Bool
overlaps start end s = s.is_active && ltb s.starts_at end && ltb start s.ends_at

abbrev pub new_season : ℕ → ℕ → ℕ → ℕ → CreateSeason → Season
new_season now fresh start end dto = record {
  id = fresh;
  season_number = dto.season_number;
  starts_at = start;
  ends_at = end;
  reward_pool_stroops = dto.reward_pool_stroops;
  is_active = leb start now && ltb now end;
  is_finalized = false;
  top_winner = none;
  on_chain_season_id = none;
  soroban_tx_hash = none;
}

abbrev pub synced : ℕ → ℕ → Season → Season
synced chain_id tx s = record s { on_chain_season_id = some chain_id; soroban_tx_hash = some tx }

abbrev pub closed : Option ℕ → Season → Season
closed winner s = record s { is_active = false; is_finalized = true; top_winner = winner }

abbrev pub reset_points : User → User
reset_points u = record u { season_points = 0 }

module _ {S : Table Season} {U : Table User} where
  pub find_active : ℕ → Action (Store S U) Error Season
  find_active now = do
    season ← gets (λ s. S.find_best (λ r. r.starts_at) (is_running now) s.seasons)
    or_throw season no_active_season

  -- The part of `create` under `sync_soroban`: where the contract fails the row is removed again.
  sync : Option (ℕ × ℕ) → Season → Action (Store S U) Error Season
  sync reply saved s =
      let call =
        create_season (saved.starts_at / 1000) (saved.ends_at / 1000) saved.reward_pool_stroops in
      elim reply [
        | none ↦
            throw gateway_failed (record s {
              seasons = S.delete (is_season saved.id) s.seasons;
              calls = call ∷ s.calls;
            })
        | some (chain_id, tx) ↦ pure (synced chain_id tx saved) (record s {
          seasons = S.update (is_season saved.id) (synced chain_id tx) s.seasons;
          calls = call ∷ s.calls;
        })
      ]

  unfoldable pub create : ℕ → Option (ℕ × ℕ) → ℕ → CreateSeason → Action (Store S U) Error Season
  unfolding sync
  create now reply fresh dto = do
    start ← or_throw dto.start_time invalid_time
    end ← or_throw dto.end_time invalid_time
    throw_if (leb end start) end_before_start
    duplicate ← gets (λ s. S.find_one (has_number dto.season_number) s.seasons)
    throw_if (is_some duplicate) number_in_use
    overlapping_count ← gets (λ s. count S (overlaps start end) s.seasons)
    throw_if (ltb 0 overlapping_count) overlapping
    let saved = new_season now fresh start end dto
    modify λ s. record s { seasons = S.insert saved s.seasons }
    if dto.sync_soroban then sync reply saved else pure saved

  -- `sent` is whether the notification of a winner succeeds; it comes after the commit.
  unfoldable pub finalize : Bool → ℕ → Action (Store S U) Error Season
  finalize sent id = do
    season ← or_throw (← gets (λ s. S.find_one (is_season id) s.seasons)) season_not_found
    throw_if season.is_finalized already_finalized
    top_winner ← gets (λ s. U.find_best (λ u. u.season_points) (λ u. true) s.users)
    let winner_id : Option ℕ = elim top_winner [ none ↦ none | some u ↦ some u.id ]
    modify λ s. record s {
      seasons = S.update (is_season season.id) (closed winner_id) s.seasons;
      users = U.update (λ u. true) reset_points s.users;
    }
    throw_if (is_some top_winner && not sent) notification_failed
    modify λ s. record s {
      notified = elim top_winner [ none ↦ s.notified | some u ↦ u.stellar_address ∷ s.notified ];
    }
    or_throw (← gets (λ s. S.find_one (is_season id) s.seasons)) season_not_found
