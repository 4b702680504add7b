-- ===== src/Competitions.antt =====
-- backend/src/competitions/competitions.service.ts. `now` is the time of the request and `fresh` the
-- id that the database assigns.
pub mod Status
pub mod Members
pub mod Joining
pub mod Rank
use paya_dev.Base.{ℕ, ◌+◌, ◌-◌, Bool, ◌&&◌, not, Option, none, some, ltb, leb, ◌==◌, is_some}
use paya_dev.Base.Int.{ℤ, pos, negsuc, ◌+ℤ◌}
use paya_dev.Base.Action.{Action, pure, gets, or_throw, ◌>>=◌, ◌>>◌, throw_if, modify}
use paya_dev.Table.{Table, count}

pub data Error : Type 0 where
  competition_not_found not_participant : Error  -- NotFoundException
  not_creator : Error  -- ForbiddenException
  already_started ended full cannot_leave : Error  -- BadRequestException
  already_joined : Error  -- ConflictException

pub data Visibility : Type 0 where
  public_visible private_visible : Visibility

pub record Competition : Type 0 where
  pub id : ℕ
  pub title : ℕ
  pub description : ℕ
  pub start_time : ℕ
  pub end_time : ℕ
  pub prize_pool_stroops : ℤ
  pub max_participants : ℕ
  pub participant_count : ℤ
  pub is_finalized : Bool
  pub is_cancelled : Bool
  pub visibility : Visibility
  pub invite_code : Option ℕ
  pub creator : ℕ  -- the creator's id
  pub created_at : ℕ

pub record Participant : Type 0 where
  pub id : ℕ
  pub user : ℕ
  pub competition : ℕ
  pub score : ℕ
  pub joined_at : ℕ

pub record UpdateCompetition : Type 0 where
  pub title : Option ℕ
  pub description : Option ℕ
  pub prize_pool_stroops : Option ℤ
  pub max_participants : Option ℕ

-- `where: { id }`
abbrev pub is_competition : ℕ → Competition → Bool
is_competition k c = c.id == k

-- `where: { competition_id }`
abbrev pub is_in : ℕ → Participant → Bool
is_in k p = p.competition == k

-- `where: { user_id, competition_id }`
abbrev pub is_member : ℕ → ℕ → Participant → Bool
is_member u k p = p.user == u && p.competition == k

abbrev pub shift_count : ℤ → Competition → Competition
shift_count d c = record c { participant_count = c.participant_count +ℤ d }

-- `if (dto.x !== undefined) competition.x = dto.x`
abbrev pub or_keep {ℓ} : {A : Type ℓ} → Option A → A → A
or_keep none old = old
or_keep (some new) old = new

abbrev pub edited : UpdateCompetition → Competition → Competition
edited dto c = record c {
  title = or_keep dto.title c.title;
  description = or_keep dto.description c.description;
  prize_pool_stroops = or_keep dto.prize_pool_stroops c.prize_pool_stroops;
  max_participants = or_keep dto.max_participants c.max_participants;
}

pub record Store (C : Table Competition) (R : Table Participant) : Type 0 where
  pub competitions : C.Contents
  pub participants : R.Contents

module _ {C : Table Competition} {R : Table Participant} where
  find_competition : ℕ → Action (Store C R) Error Competition
  find_competition id s =
      or_throw (C.find_one (is_competition id) s.competitions) competition_not_found s

  -- `Competition is full`, asked only where a maximum is set.
  is_full : Competition → Store C R → Bool
  is_full c s =
      ltb 0 c.max_participants && leb c.max_participants (count R (is_in c.id) s.participants)

  unfoldable pub join : ℕ → ℕ → ℕ → ℕ → Action (Store C R) Error Participant
  unfolding find_competition is_full
  join now fresh competition_id user_id = do
    competition ← find_competition competition_id
    throw_if (leb competition.end_time now) ended
    existing ← gets (λ s. R.find_one (is_member user_id competition_id) s.participants)
    throw_if (is_some existing) already_joined
    throw_if (← gets (is_full competition)) full
    let saved : Participant = record {
      id = fresh;
      user = user_id;
      competition = competition_id;
      score = 0;
      joined_at = now;
    }
    modify λ s. record s {
      participants = R.insert saved s.participants;
      competitions = C.update (is_competition competition_id) (shift_count (pos 1)) s.competitions;
    }
    pure saved

  unfoldable pub leave : ℕ → ℕ → ℕ → Action (Store C R) Error (Unit {0})
  unfolding find_competition
  leave now competition_id user_id = do
    competition ← find_competition competition_id
    throw_if (leb competition.start_time now) cannot_leave
    participant ←
        or_throw (← gets (λ s. R.find_one (is_member user_id competition_id) s.participants))
          not_participant
    modify λ s. record s {
      participants = R.delete (λ p. p.id == participant.id) s.participants;
      competitions =
          C.update (is_competition competition_id) (shift_count (negsuc 0)) s.competitions;
    }

  pub update : ℕ → ℕ → UpdateCompetition → ℕ → Action (Store C R) Error Competition
  unfolding find_competition
  update now id dto user_id = do
    competition ← find_competition id
    throw_if (not (competition.creator == user_id)) not_creator
    throw_if (leb competition.start_time now) already_started
    modify λ s. record s {
      competitions = C.update (is_competition competition.id) (edited dto) s.competitions;
    }
    pure (edited dto competition)
