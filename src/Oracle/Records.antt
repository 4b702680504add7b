-- ===== src/Oracle/Records.antt =====
-- The submission records of backend/src/oracle/webhook.service.ts.
use paya_dev.Base.{
  ℕ, ◌≤◌, ◌≡◌, refl, ◌∙◌, Option, none, some, List, [], ◌∷◌, leb, arith, Option-cases, inl, inr,
}
use paya_dev.Table.{Table, count}
use paya_dev.Table.Laws.{found-count}
use paya_dev.Oracle.{
  EventMatch, Submission, Job, Store, is_about, due, failed_job, update_submission_record,
  handle_retry, submit_to_oracle, submit_each, process_retries,
}
use paya_dev.Oracle.Drain.{failing, failing-due}

module _ (S : Table Submission) where
  -- No record is about a match with this id, so none is found.
  unfound :
      (bound : ℕ) (j : Job) (change : Submission → Submission) (rs : S.Contents)
      → count S (λ r. leb bound r.match_id) rs ≡ 0
      → bound ≤ j.stamp
      → update_submission_record S j change rs ≡ rs
  unfolding update_submission_record
  unfound bound j change rs low late = elim (Option-cases (S.find_one (is_about j.stamp) rs)) [
    | inl e ↦ rw (update_submission_record, e) refl
    | inr (r, e) ↦
        let passes = S.find_one_passes (is_about j.stamp) rs r e in
        let at : r.match_id ≡ j.stamp = ground (arith, passes) in
        absurd (
          ground (
            arith,
            low,
            found-count S (λ x. leb bound x.match_id) (is_about j.stamp) rs r e
                (ground (arith, at, late)),
          ))
  ]

module _ {M : Table EventMatch} {S : Table Submission} where
  attempt_keeps :
      (bound now : ℕ) (failure : Option ℕ) (j : Job) (s : Store M S)
      → count S (λ r. leb bound r.match_id) s.submissions ≡ 0
      → bound ≤ j.stamp
      → (submit_to_oracle now failure j s).submissions ≡ s.submissions
  unfolding submit_to_oracle handle_retry
  attempt_keeps bound now none j s low late = unfound S bound j _ s.submissions low late
  attempt_keeps bound now (some message) j s low late =
      unfound S bound (failed_job message j) _ s.submissions low late

  each_keeps :
      (bound : ℕ) (ended : Job → ℕ) (failure : Job → Option ℕ) (js : List Job) (s : Store M S)
      → count S (λ r. leb bound r.match_id) s.submissions ≡ 0
      → failing (λ k. leb bound k.stamp) js ≡ 0
      → (submit_each ended failure js s).submissions ≡ s.submissions
  unfolding submit_each
  each_keeps bound ended failure [] s low late = refl
  each_keeps bound ended failure (j ∷ js) s low late =
      let step = attempt_keeps bound (ended j) (failure j) j s low (ground (arith, late)) in
      each_keeps bound ended failure js (submit_to_oracle (ended j) (failure j) j s) (rw step low)
        (ground (arith, late))
      ∙ step

  -- The record of a submission is not updated: where the on-chain ids of matches lie below the times at
  -- which the jobs were made, no round of retries changes a record, whether its attempts fail or not.
  pub retries_keep_records :
      (bound now : ℕ) (ended : Job → ℕ) (failure : Job → Option ℕ) (s : Store M S)
      → count S (λ r. leb bound r.match_id) s.submissions ≡ 0
      → failing (λ k. leb bound k.stamp) s.queue ≡ 0
      → (process_retries now ended failure s).submissions ≡ s.submissions
  unfolding process_retries
  retries_keep_records bound now ended failure s low late =
      each_keeps bound ended failure (due now s.queue) s low
        (omega (arith, late, failing-due (λ k. leb bound k.stamp) now s.queue))
