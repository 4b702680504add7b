-- ===== src/Oracle.antt =====
-- backend/src/oracle/webhook.service.ts: the results of matches that an oracle reports are queued in
-- memory and submitted, with retries. When an attempt ends, whether it fails before it writes, and with
-- which message, are arguments. Attempts do not overlap.
pub mod Drain
pub mod Records
pub mod Stats
use paya_dev.Base.{
  ℕ, ◌+◌, Bool, true, ◌&&◌, Option, none, some, List, [], ◌∷◌, ◌++◌, ltb, leb, ◌==◌, if◌then◌else◌,
}
use paya_dev.Base.Action.{Action, pure, throw, ◌>>=◌, ◌>>◌}
use paya_dev.Matches.{Outcome}
use paya_dev.Table.{Table}

-- `CreatorEventMatch`
pub record EventMatch : Type 0 where
  pub id : ℕ
  pub on_chain_match_id : ℕ
  pub match_time : ℕ
  pub result_submitted : Bool
  pub winning_team : Option Outcome

pub data SubmissionStatus : Type 0 where
  pending submitted failed : SubmissionStatus

pub record Submission : Type 0 where
  pub id : ℕ
  pub match_id : ℕ
  pub winning_team : Outcome
  pub confidence_score : ℕ
  pub status : SubmissionStatus
  pub submitted_at : Option ℕ
  pub error_message : Option ℕ
  pub retry_count : ℕ

-- The id of a job is `job_` with the time and a random text.
pub record Job : Type 0 where
  pub stamp : ℕ
  pub random : ℕ
  pub match_id : ℕ
  pub winning_team : Outcome
  pub confidence_score : ℕ
  pub retry_count : ℕ
  pub next_retry_at : ℕ
  pub last_error : Option ℕ

pub record MatchResult : Type 0 where
  pub match_id : ℕ
  pub winning_team : Outcome
  pub confidence_score : ℕ

pub data Error : Type 0 where
  match_not_found already_resolved not_started : Error

pub record Store (M : Table EventMatch) (S : Table Submission) : Type 0 where
  pub queue : List Job
  pub matches : M.Contents
  pub submissions : S.Contents

abbrev pub max_retries : ℕ
max_retries = 3

-- `RETRY_DELAYS`, by the number of the retry
abbrev pub retry_delay : ℕ → ℕ
retry_delay n = if n == 1 then 60000 else if n == 2 then 300000 else 900000

abbrev pub is_job : Job → Job → Bool
is_job j k = k.stamp == j.stamp && k.random == j.random

abbrev pub on_chain : ℕ → EventMatch → Bool
on_chain k m = m.on_chain_match_id == k

abbrev pub has_id : ℕ → EventMatch → Bool
has_id k m = m.id == k

-- `where: { match_id }`
abbrev pub is_about : ℕ → Submission → Bool
is_about k r = r.match_id == k

abbrev pub is_record : ℕ → Submission → Bool
is_record k r = r.id == k

abbrev pub remove : Job → List Job → List Job
remove j [] = []
remove j (k ∷ ks) = let rest = remove j ks in if is_job j k then rest else k ∷ rest

-- The job in the queue is changed in place.
abbrev pub replace : Job → List Job → List Job
replace j [] = []
replace j (k ∷ ks) = let rest = replace j ks in if is_job j k then j ∷ rest else k ∷ rest

abbrev pub due : ℕ → List Job → List Job
due now [] = []
due now (j ∷ js) = let rest = due now js in if leb j.next_retry_at now then j ∷ rest else rest

abbrev pub failed_job : ℕ → Job → Job
failed_job message j = record j { retry_count = j.retry_count + 1; last_error = some message }

abbrev pub scheduled : ℕ → Job → Job
scheduled now j = record j { next_retry_at = now + retry_delay j.retry_count }

module _ (S : Table Submission) where
  -- `updateSubmissionRecord`, which takes the time in the job's id for the id of its match.
  unfoldable pub update_submission_record :
      Job → (Submission → Submission) → S.Contents → S.Contents
  update_submission_record j change s = elim (S.find_one (is_about j.stamp) s) [
    | none ↦ s
    | some r ↦ S.update (is_record r.id) change s
  ]

module _ {M : Table EventMatch} {S : Table Submission} where
  -- `handleRetry`
  unfoldable pub handle_retry : ℕ → ℕ → Job → Store M S → Store M S
  handle_retry now message job s =
      let j = failed_job message job in
      let records =
        update_submission_record S j
          (λ r. record r {
            status = failed;
            error_message = some message;
            retry_count = j.retry_count;
          })
          s.submissions in
      record s {
        queue =
            if leb max_retries j.retry_count
            then remove j s.queue
            else replace (scheduled now j) s.queue;
        submissions = records;
      }

  -- `submitToOracle`, with `simulateOracleSubmission`; the attempt ends at `now` and fails with a
  -- message, or not.
  unfoldable pub submit_to_oracle : ℕ → Option ℕ → Job → Store M S → Store M S
  submit_to_oracle now (some message) j s = handle_retry now message j s
  submit_to_oracle now none j s = record {
    queue = remove j s.queue;
    matches = elim (M.find_one (on_chain j.match_id) s.matches) [
      | none ↦ s.matches
      | some m ↦
          M.update (has_id m.id)
            (λ x. record x { result_submitted = true; winning_team = some j.winning_team })
            s.matches
    ];
    submissions =
        update_submission_record S j
          (λ r. record r {
            status = submitted;
            submitted_at = some now;
            retry_count = j.retry_count;
          })
          s.submissions;
  }

  -- `processMatchResult`; the row of `saveSubmissionToDatabase` has the id `fresh`, if it can be saved,
  -- and the first attempt ends at `ended`.
  unfoldable pub process_match_result :
      ℕ → ℕ → ℕ → ℕ → Bool → Option ℕ → MatchResult → Action (Store M S) Error Job
  process_match_result now ended random fresh saved failure dto s =
      elim (M.find_one (on_chain dto.match_id) s.matches) [
        | none ↦ throw match_not_found s
        | some m ↦
            if m.result_submitted
            then throw already_resolved s
            else if ltb (now + 3600000) m.match_time
            then throw not_started s
            else let job : Job = record {
              stamp = now;
              random = random;
              match_id = dto.match_id;
              winning_team = dto.winning_team;
              confidence_score = dto.confidence_score;
              retry_count = 0;
              next_retry_at = now;
              last_error = none;
            } in
              let row : Submission = record {
                id = fresh;
                match_id = dto.match_id;
                winning_team = dto.winning_team;
                confidence_score = dto.confidence_score;
                status = pending;
                submitted_at = none;
                error_message = none;
                retry_count = 0;
              } in
              pure job (
                submit_to_oracle ended failure job (record s {
                  queue = s.queue ++ (job ∷ []);
                  submissions = if saved then S.insert row s.submissions else s.submissions;
                }))
      ]

  -- The loop of `processRetries`; `ended` and `failure` tell when and how the attempt of a job ends.
  unfoldable pub submit_each : (Job → ℕ) → (Job → Option ℕ) → List Job → Store M S → Store M S
  submit_each ended failure [] s = s
  submit_each ended failure (j ∷ js) s =
      submit_each ended failure js (submit_to_oracle (ended j) (failure j) j s)

  unfoldable pub process_retries : ℕ → (Job → ℕ) → (Job → Option ℕ) → Store M S → Store M S
  unfolding submit_each
  process_retries now ended failure s = submit_each ended failure (due now s.queue) s
