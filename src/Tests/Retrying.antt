-- ===== src/Tests/Retrying.antt =====
-- Idempotency keys and webhook deliveries on tables held in memory.
use paya_dev.Base.{ℕ, zero, suc, ◌+◌, List, ◌≡◌, refl, true, none, some, [], ◌∷◌, arith}
use paya_dev.Table.Memory.{memory}
use paya_dev.Idempotency.{
  Key, Request, World, begin, running, other_body, is_key, claimed, answer_existing, try_claim,
  complete, at_phase, Reach, here, next, acquires,
}
use paya_dev.Idempotency.Exclusion.{Starts, IsTimely, exclusion}
use paya_dev.Idempotency.Replay.{later_answers}
use paya_dev.Webhooks.{Endpoint, responded, threw, new_log, failed}
use paya_dev.Webhooks.Delivery.{IsSound, Round, rounds, rounds-IsSound}
use paya_dev.Webhooks.Delivery.Failing.{Follows, failing_delivery_ends}

abbrev payment : Request
payment = record { key = 7; user = 1; request_hash = 40 }

abbrev other_payment : Request
other_payment = record payment { request_hash = 41 }

payment-claimed : try_claim (memory Key) 100 1 payment [] ≡ some (claimed 100 1 payment ∷ [])
unfolding try_claim
payment-claimed = refl

later_answers_example :
    let t = claimed 100 1 payment ∷ [] in
    let done = complete (memory Key) 1 200 6 t in
    (try_claim (memory Key) 150 2 other_payment t ≡ none)
    × (answer_existing other_payment ((memory Key).find_one (is_key 7 1) t) ≡ other_body)
    × (try_claim (memory Key) 150 2 other_payment done ≡ none)
    × (answer_existing other_payment ((memory Key).find_one (is_key 7 1) done) ≡ other_body)
later_answers_example =
    later_answers (memory Key) 100 1 150 2 200 6 payment other_payment []
      (claimed 100 1 payment ∷ []) payment-claimed refl refl

abbrev quiet : World (memory Key)
quiet = record { keys = []; phase = λ r. begin }

quiet-Starts : Starts (memory Key) (λ r. payment) quiet
quiet-Starts = record { unique = λ k u. omega arith; ids = λ i. omega arith; begins = λ r. refl }

abbrev held_once : World (memory Key)
held_once = record {
  keys = claimed 100 1 payment ∷ [];
  phase = at_phase 3 (running 1) (λ r. begin);
}

held_once-Reach : Reach (memory Key) (λ r. payment) quiet held_once
held_once-Reach =
    next here (acquires 3 100 1 (claimed 100 1 payment ∷ []) refl refl payment-claimed)

held_once-IsTimely : IsTimely (memory Key) (λ r. payment) held_once-Reach
unfolding held_once-Reach
held_once-IsTimely = (tt, tt)

exclusion_example : ◌≡◌ {A = ℕ} 3 3
exclusion_example =
    exclusion (memory Key) (λ r. payment) quiet held_once 3 3 1 1 quiet-Starts held_once-Reach
      held_once-IsTimely refl refl refl refl

abbrev hook : Endpoint
hook = record {
  id = 8;
  url = 0;
  event_types = 5 ∷ [];
  is_active = true;
  failure_count = 0;
  last_delivery_at = none;
  last_failure_at = none;
}

abbrev refused_then_taken : List Round
refused_then_taken =
    record { began = 100; ended = 200; response = responded 500 }
    ∷ record { began = 5000; ended = 5100; response = responded 204 }
    ∷ []

rounds-IsSound_example : IsSound 2 (rounds 2 refused_then_taken (new_log 100 1 hook 5 6, hook)).0
rounds-IsSound_example = rounds-IsSound 2 100 1 5 6 refused_then_taken hook (omega arith)

-- Every half minute a timeout of ten seconds.
abbrev timeouts : ℕ → ℕ → List Round
timeouts from zero = []
timeouts from (suc n) =
    record { began = from; ended = from + 10000; response = threw 3 none }
    ∷ timeouts (from + 30000) n

timeouts-Follows : (n from : ℕ) → Follows 30000 10000 from (timeouts (from + 30000) n)
timeouts-Follows zero from = tt
timeouts-Follows (suc n) from = (omega arith, omega arith, tt, timeouts-Follows n (from + 30000))

failing_delivery_ends_example :
    (rounds 2 (timeouts 30100 122) (new_log 100 1 hook 5 6, hook)).0.status ≡ failed
failing_delivery_ends_example =
    failing_delivery_ends 1 30000 10000 100 1 5 6 (timeouts 30100 122) hook
      (timeouts-Follows 122 100) (omega arith)
