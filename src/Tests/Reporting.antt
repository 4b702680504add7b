-- ===== src/Tests/Reporting.antt =====
-- API keys, the queue of the oracle and bookmarks on tables held in memory.
use paya_dev.Base.{
  ℕ, zero, suc, ◌+◌, ◌≡◌, ◌≢◌, refl, false, none, some, List, [], ◌∷◌, ◌==◌, arith, ==_refl, sum_of,
}
use paya_dev.Base.Action.{ok}
use paya_dev.Entities.{Market}
use paya_dev.Table.Memory.{memory}
use paya_dev.Tests.Samples.{ann, derby}
use paya_dev.ApiKeys.{ApiKey, CreateApiKey, Bcrypt, raw_key, new_key, create, revoke, validate_key}
use paya_dev.ApiKeys.Created.{create_validates}
use paya_dev.ApiKeys.Revoked
use paya_dev.ApiKeys.Revoked.{Valid, validate_key-Valid, revoked_for_good}
use paya_dev.Matches.{team_b}
use paya_dev.Oracle
use paya_dev.Oracle.{EventMatch, Submission, Job, pending, process_retries}
use paya_dev.Oracle.Drain.{Round, Follows, retry_rounds, retries_drain_queue}
use paya_dev.Oracle.Records.{retries_keep_records}
use paya_dev.Oracle.Stats.{get_stats, get_pending_matches, stats_add_up}
use paya_dev.Markets
use paya_dev.Markets.{Comment, Bookmark}
use paya_dev.Markets.Bookmarks.{Request, adds, removes}

-- A stand-in for bcrypt, by the sum of the characters.
abbrev sum_hash : Bcrypt
sum_hash = record {
  hash = λ salt raw. sum_of (λ c. c) raw;
  compare = λ raw h. sum_of (λ c. c) raw == h;
  compare-hash = λ salt raw. ==_refl (sum_of (λ c. c) raw);
}

abbrev for_bot : CreateApiKey
for_bot = record { name = 1; scopes = 2 ∷ []; expires_at = some 900 }

create_validates_example :
    let (made, s') = create sum_hash (memory ApiKey) 1 5 (48 ∷ 49 ∷ []) 7 for_bot [] in
    (made ≡ ok (raw_key sum_hash (48 ∷ 49 ∷ [])))
    × (validate_key sum_hash (memory ApiKey) 800 (raw_key sum_hash (48 ∷ 49 ∷ [])) s'
        ≡ (ok (new_key sum_hash 1 5 (48 ∷ 49 ∷ []) 7 for_bot), s'))
create_validates_example =
    create_validates sum_hash (memory ApiKey) 800 1 5 (48 ∷ 49 ∷ []) 7 for_bot [] refl refl

abbrev bot_key : ApiKey
bot_key = record {
  id = 1;
  user_id = 7;
  name = 1;
  key_prefix = 105 ∷ 97 ∷ 95 ∷ 48 ∷ [];
  key_hash = 345;
  scopes = 2 ∷ [];
  expires_at = none;
  revoked_at = none;
  last_used_at = none;
}

abbrev spare_key : ApiKey
spare_key = record bot_key { id = 2; key_hash = 345 }

revoked_for_good_example : spare_key.id ≢ 1
unfolding revoke validate_key
revoked_for_good_example =
    revoked_for_good sum_hash (memory ApiKey) 800 900 1 7 (105 ∷ 97 ∷ 95 ∷ 48 ∷ [])
      (spare_key ∷ bot_key ∷ [])
      (revoke sum_hash (memory ApiKey) 800 1 7 (spare_key ∷ bot_key ∷ [])).1 spare_key refl
      Revoked.here refl

abbrev reported : Job
reported = record {
  stamp = 5000;
  random = 1;
  match_id = 22;
  winning_team = team_b;
  confidence_score = 90;
  retry_count = 1;
  next_retry_at = 65000;
  last_error = some 3;
}

abbrev played : EventMatch
played = record {
  id = 1;
  on_chain_match_id = 22;
  match_time = 4000;
  result_submitted = false;
  winning_team = none;
}

abbrev on_record : Submission
on_record = record {
  id = 1;
  match_id = 22;
  winning_team = team_b;
  confidence_score = 90;
  status = pending;
  submitted_at = none;
  error_message = none;
  retry_count = 0;
}

abbrev reporting : Oracle.Store (memory EventMatch) (memory Submission)
reporting = record { queue = reported ∷ []; matches = played ∷ []; submissions = on_record ∷ [] }

-- Rounds every minute, in which each attempt fails after a second.
abbrev each_minute : ℕ → ℕ → List Round
each_minute from zero = []
each_minute from (suc n) =
    record { now = from; ended = λ j. from + 1000; failure = λ j. some 3 }
    ∷ each_minute (from + 60000) n

each_minute-Follows : (n from : ℕ) → Follows 60000 1000 from (each_minute (from + 60000) n)
each_minute-Follows zero from = tt
each_minute-Follows (suc n) from =
    (omega arith, (λ j. omega arith), each_minute-Follows n (from + 60000))

retries_drain_queue_example : (retry_rounds (each_minute 125000 10) reporting).queue ≡ []
retries_drain_queue_example =
    retries_drain_queue 60000 1000 65000 (each_minute 125000 10) reporting refl
      (each_minute-Follows 10 65000) (omega arith)

retries_keep_records_example :
    (process_retries 70000 (λ j. 70100) (λ j. none) reporting).submissions ≡ on_record ∷ []
retries_keep_records_example =
    retries_keep_records 5000 70000 (λ j. 70100) (λ j. none) reporting refl refl

stats_add_up_example :
    ((get_stats (memory EventMatch) 5000 (played ∷ [])).pending
        + (get_stats (memory EventMatch) 5000 (played ∷ [])).overdue
      ≡ (get_pending_matches (memory EventMatch) 5000 (some 1) none (played ∷ [])).total)
    × ((get_stats (memory EventMatch) 5000 (played ∷ [])).pending
          + (get_stats (memory EventMatch) 5000 (played ∷ [])).overdue
          + (get_stats (memory EventMatch) 5000 (played ∷ [])).resolved
          + 0
        ≡ 1)
stats_add_up_example = stats_add_up (memory EventMatch) 5000 (some 1) none (played ∷ [])

abbrev unmarked : Markets.Store (memory Market) (memory Comment) (memory Bookmark)
unmarked = record {
  markets = derby ∷ [];
  comments = [];
  bookmarks = [];
  trending_cache = none;
  calls = [];
  events = [];
}

abbrev marking : List Request
marking =
    adds 1 derby.id ann
    ∷ adds 2 derby.on_chain_market_id ann
    ∷ removes derby.id ann
    ∷ adds 3 derby.id ann
    ∷ []
