-- ===== src/Oracle/Drain.antt =====
-- How long a job stays in the queue of backend/src/oracle/webhook.service.ts.
use paya_dev.Base.{
  ℕ, ◌+◌, ◌*◌, ◌<◌, ◌==◌, if◌then◌else◌, ◌≤◌, ◌≡◌, refl, ap, ◌∙◌, Bool, true, false, ◌&&◌, ◌||◌,
  not, Option, none, some, List, [], ◌∷◌, ltb, leb, arith, Bool-cases, inl, inr, weight, ==_refl,
  sum_of,
}
use paya_dev.Table.{Table}
use paya_dev.Oracle.{
  EventMatch, Submission, Job, Store, max_retries, is_job, remove, replace, due, failed_job,
  scheduled, handle_retry, submit_to_oracle, submit_each, process_retries,
}

-- How many jobs fail a test.
abbrev pub failing : (Job → Bool) → List Job → ℕ
failing p js = sum_of (λ k. weight (not (p k))) js

abbrev listed : List Job → Job → Bool
listed [] k = false
listed (j ∷ js) k = is_job j k || listed js k

-- A round of `processRetries`: when it begins, and when and how the attempt of each job ends.
pub record Round : Type 0 where
  pub now : ℕ
  pub ended : Job → ℕ
  pub failure : Job → Option ℕ

failing_mono :
    (p q : Job → Bool) (js : List Job)
    → ((k : Job) → p k ≡ true → q k ≡ true)
    → failing q js ≤ failing p js
failing_mono p q [] h = omega arith
failing_mono p q (k ∷ js) h = ground (arith, h k, failing_mono p q js h)

failing-remove :
    (p : Job → Bool) (j : Job) (js : List Job)
    → failing p (remove j js) ≤ failing (λ k. is_job j k || p k) js
failing-remove p j [] = omega arith
failing-remove p j (k ∷ js) = ground (arith, failing-remove p j js)

failing-replace :
    (p : Job → Bool) (j : Job) (js : List Job)
    → p j ≡ true
    → failing p (replace j js) ≤ failing (λ k. is_job j k || p k) js
failing-replace p j [] h = omega arith
failing-replace p j (k ∷ js) h = ground (arith, h, failing-replace p j js h)

is_job_refl : (j : Job) → is_job j j ≡ true
is_job_refl j = ground (arith, ==_refl j.stamp, ==_refl j.random)

pub failing-due : (p : Job → Bool) (now : ℕ) (js : List Job) → failing p (due now js) ≤ failing p js
failing-due p now [] = omega arith
failing-due p now (j ∷ js) = ground (arith, failing-due p now js)

-- Rounds of which each begins by `gap` after the one before, the first one by `gap` after `p`, and in
-- which the attempts end by `slack` after the begin.
abbrev pub Follows : ℕ → ℕ → ℕ → List Round → Type 0
Follows gap slack p [] = Unit
Follows gap slack p (r ∷ rs) =
    (r.now ≤ p + gap) × ((j : Job) → r.ended j ≤ r.now + slack) × Follows gap slack r.now rs

abbrev pub last_begin : ℕ → List Round → ℕ
last_begin p [] = p
last_begin p (r ∷ rs) = last_begin r.now rs

module _ {M : Table EventMatch} {S : Table Submission} where
  pub retry_rounds : List Round → Store M S → Store M S
  retry_rounds [] s = s
  retry_rounds (r ∷ rs) s = retry_rounds rs (process_retries r.now r.ended r.failure s)

-- `t` is the time by which the jobs that were never retried are due.
module _ (gap slack t : ℕ) where
  -- The time by which a job with so many retries behind it comes up.
  abbrev pub deadline : ℕ → ℕ
  deadline n =
      if n == 0
      then t
      else if n == 1
      then t + (gap + slack) + 60000
      else t + 2 * (gap + slack) + 360000

  -- After a round that began at `p`: a job with attempts left, whose time is not over.
  abbrev pub waits : ℕ → Job → Bool
  waits p k =
      ltb k.retry_count max_retries
      && leb k.next_retry_at (deadline k.retry_count)
      && leb p (deadline k.retry_count)

  -- A job that comes up in a round and fails once more is given up or waits for its next deadline.
  rescheduled :
      (p now ended message : ℕ) (j : Job)
      → waits p j ≡ true
      → now ≤ p + gap
      → ended ≤ now + slack
      → leb max_retries (j.retry_count + 1) ≡ false
      → waits now (scheduled ended (failed_job message j)) ≡ true
  rescheduled p now ended message j w near soon left = ground arith

  -- The jobs that do not come up in a round wait on.
  others_wait :
      (p now : ℕ) (js : List Job)
      → failing (waits p) js ≡ 0
      → failing (λ k. listed (due now js) k || waits now k) js ≡ 0
  others_wait p now [] h = refl
  others_wait p now (j ∷ js) h =
      let rest = others_wait p now js (ground (arith, h)) in
      elim (Bool-cases (leb j.next_retry_at now)) [
        | inl comes ↦
            ap (λ ds. failing (λ k. listed ds k || waits now k) (j ∷ js)) (listed_first comes)
            ∙ with_it rest
        | inr later ↦
            ap (λ ds. failing (λ k. listed ds k || waits now k) (j ∷ js)) (passed_over later)
            ∙ ground (arith, rest, still_waits later (ground (arith, h)))
      ]
    where
      listed_first : leb j.next_retry_at now ≡ true → due now (j ∷ js) ≡ j ∷ due now js
      listed_first e = rw e refl

      passed_over : leb j.next_retry_at now ≡ false → due now (j ∷ js) ≡ due now js
      passed_over e = rw e refl

      with_it :
          failing (λ k. listed (due now js) k || waits now k) js ≡ 0
          → failing (λ k. listed (j ∷ due now js) k || waits now k) (j ∷ js) ≡ 0
      with_it rest = ground (
        arith,
        is_job_refl j,
        rest,
        failing_mono (λ k. listed (due now js) k || waits now k)
            (λ k. (is_job j k || listed (due now js) k) || waits now k) js (λ k. ground arith),
      )

      still_waits : leb j.next_retry_at now ≡ false → waits p j ≡ true → waits now j ≡ true
      still_waits later w = ground arith

  none_waits :
      (p : ℕ) (js : List Job)
      → failing (waits p) js ≡ 0
      → t + 2 * (gap + slack) + 360000 < p
      → js ≡ []
  none_waits p [] h late = refl
  none_waits p (j ∷ js) h late = absurd (ground (arith, h))

  module _ {M : Table EventMatch} {S : Table Submission} where
    -- An attempt leaves of its job nothing, or one that waits.
    attempt_waits :
        (p now ended : ℕ) (failure : Option ℕ) (j : Job) (q : Job → Bool) (s : Store M S)
        → waits p j ≡ true
        → now ≤ p + gap
        → ended ≤ now + slack
        → failing (λ k. q k || waits now k) (submit_to_oracle ended failure j s).queue
          ≤ failing (λ k. is_job j k || (q k || waits now k)) s.queue
    unfolding submit_to_oracle handle_retry
    attempt_waits p now ended none j q s w near soon = failing-remove _ j s.queue
    attempt_waits p now ended (some message) j q s w near soon =
        elim (Bool-cases (leb max_retries (j.retry_count + 1))) [
          | inl spent ↦
              rw spent (failing-remove (λ k. q k || waits now k) (failed_job message j) s.queue)
          | inr left ↦ rw left (
              failing-replace (λ k. q k || waits now k) (scheduled ended (failed_job message j))
                s.queue (ground (arith, rescheduled p now ended message j w near soon left)))
        ]

    each_waits :
        (p now : ℕ) (ended : Job → ℕ) (failure : Job → Option ℕ) (js : List Job) (s : Store M S)
        → failing (waits p) js ≡ 0
        → now ≤ p + gap
        → ((j : Job) → ended j ≤ now + slack)
        → failing (waits now) (submit_each ended failure js s).queue
          ≤ failing (λ k. listed js k || waits now k) s.queue
    unfolding submit_each
    each_waits p now ended failure [] s h near soon = omega arith
    each_waits p now ended failure (j ∷ js) s h near soon =
        let head : waits p j ≡ true = ground (arith, h) in
        omega (
          arith,
          each_waits p now ended failure js (submit_to_oracle (ended j) (failure j) j s)
              (ground (arith, h)) near soon,
          attempt_waits p now (ended j) (failure j) j (listed js) s head near (soon j),
          failing_mono (λ k. is_job j k || (listed js k || waits now k))
              (λ k. (is_job j k || listed js k) || waits now k) s.queue (λ k. ground arith),
          failing_mono (λ k. (is_job j k || listed js k) || waits now k)
              (λ k. is_job j k || (listed js k || waits now k)) s.queue (λ k. ground arith),
        )

    round_waits :
        (p now : ℕ) (ended : Job → ℕ) (failure : Job → Option ℕ) (s : Store M S)
        → failing (waits p) s.queue ≡ 0
        → now ≤ p + gap
        → ((j : Job) → ended j ≤ now + slack)
        → failing (waits now) (process_retries now ended failure s).queue ≡ 0
    unfolding process_retries
    round_waits p now ended failure s h near soon = omega (
      arith,
      each_waits p now ended failure (due now s.queue) s
          (omega (arith, h, failing-due (waits p) now s.queue)) near soon,
      others_wait p now s.queue h,
    )

    rounds_wait :
        (p : ℕ) (rs : List Round) (s : Store M S)
        → failing (waits p) s.queue ≡ 0
        → Follows gap slack p rs
        → failing (waits (last_begin p rs)) (retry_rounds rs s).queue ≡ 0
    unfolding retry_rounds
    rounds_wait p [] s h f = h
    rounds_wait p (r ∷ rs) s h (near, soon, f) =
        rounds_wait r.now rs (process_retries r.now r.ended r.failure s)
          (round_waits p r.now r.ended r.failure s h near soon) f

    -- The queue drains: let every job in it have attempts left and be due by `t`, or by `deadline` if
    -- it was retried, and let rounds of retries follow, the first one by `gap` after `t` and each
    -- other by `gap` after the one before, in which an attempt ends by `slack` after the begin of its
    -- round; then, whichever attempts fail, no job is left after a round that begins more than six
    -- minutes, two gaps and two slacks after `t`.
    pub retries_drain_queue :
        (rs : List Round) (s : Store M S)
        → failing (waits t) s.queue ≡ 0
        → Follows gap slack t rs
        → t + 2 * (gap + slack) + 360000 < last_begin t rs
        → (retry_rounds rs s).queue ≡ []
    retries_drain_queue rs s ready f late =
        none_waits (last_begin t rs) (retry_rounds rs s).queue (rounds_wait t rs s ready f) late
