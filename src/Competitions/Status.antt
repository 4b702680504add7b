-- ===== src/Competitions/Status.antt =====
-- The status of a competition: `getCompetitionStatus`, `applyStatusFilter` and `getTimeRemaining`
-- of backend/src/competitions/competitions.service.ts.
use paya_dev.Base.{
  ℕ, ◌-◌, ◌≤◌, ◌<◌, ◌≡◌, ◌↔◌, ◌⊎◌, Bool, true, false, ◌&&◌, not, Option, none, some, ltb, leb,
  if◌then◌else◌, arith,
}
use paya_dev.Competitions.{Competition}

pub data Status : Type 0 where
  active upcoming ended cancelled : Status

pub competition_status : Competition → ℕ → Status
competition_status c now =
    if c.is_cancelled
    then cancelled
    else if ltb now c.start_time
    then upcoming
    else if leb c.start_time now && leb now c.end_time
    then active
    else ended

-- The SQL conditions of `list` for a status.
pub passes_status : Status → Competition → ℕ → Bool
passes_status active c now = leb c.start_time now && leb now c.end_time && not c.is_cancelled
passes_status upcoming c now = ltb now c.start_time && not c.is_cancelled
passes_status ended c now = ltb c.end_time now && not c.is_cancelled
passes_status cancelled c now = c.is_cancelled

pub time_remaining : Competition → ℕ → Option ℕ
time_remaining c now =
    if leb c.end_time now
    then none
    else if ltb now c.start_time
    then some (c.start_time - now)
    else some (c.end_time - now)

-- Over a competition that starts no later than it ends, the filter for a status lets through exactly
-- the competitions that are shown with it.
pub status_iff_listed :
    (st : Status) (c : Competition) (now : ℕ)
    → c.start_time ≤ c.end_time
    → (passes_status st c now ≡ true) ↔ (competition_status c now ≡ st)
unfolding passes_status competition_status
status_iff_listed active c now h = ground arith
status_iff_listed upcoming c now h = ground arith
status_iff_listed ended c now h = ground arith
status_iff_listed cancelled c now h = ground arith

-- Of a competition that is not cancelled and starts before it ends, the time remaining is that to
-- its start while it is upcoming, that to its end while it is active and not in its last moment, and
-- none otherwise.
pub time_remaining_lem :
    (c : Competition) (now : ℕ)
    → c.start_time < c.end_time
    → c.is_cancelled ≡ false
    → ((competition_status c now ≡ upcoming) × (time_remaining c now ≡ some (c.start_time - now)))
      ⊎ ((competition_status c now ≡ active)
          × (now < c.end_time)
          × (time_remaining c now ≡ some (c.end_time - now)))
      ⊎ ((c.end_time ≤ now) × (time_remaining c now ≡ none))
unfolding competition_status time_remaining
time_remaining_lem c now h k = ground arith
