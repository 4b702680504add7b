-- ===== src/Webhooks/Delivery.antt =====
-- The life of one delivery: how often it is attempted, how it ends, and when it is tried again.
pub mod Failing
use paya_dev.Base.{
  ℕ, zero, suc, ◌+◌, ◌-◌, ◌*◌, ◌^◌, ◌≤◌, ◌<◌, min, ◌≡◌, true, none, some, List, [], ◌∷◌,
  if◌then◌else◌, arith, Bool-cases, inl, inr,
}
use native.Mathlib.Nat.{pow-suc}
use paya_dev.Webhooks.{
  pending, success, failed, Endpoint, DeliveryLog, Response, responded, threw, schedule_retry,
  attempt_delivery, is_ready, new_log,
}

-- What holds of a log between two attempts: it is pending with an attempt left, or it was delivered
-- with a status from 200 to 299, or it has failed with no attempt left and is not tried again.
pub record IsSound (max_attempts : ℕ) (log : DeliveryLog) : Type 0 where
  pub bounded : log.attempt_count ≤ max_attempts
  pub pending_left : log.status ≡ pending → log.attempt_count < max_attempts
  pub failed_spent :
      log.status ≡ failed → (log.attempt_count ≡ max_attempts) × (log.next_retry_at ≡ none)
  pub success_delivered :
      log.status ≡ success
      → (code : ℕ) × (log.http_status_code ≡ some code) × (200 ≤ code) × (code < 300)

new_log-IsSound :
    (max_attempts now fresh : ℕ) (e : Endpoint) (event_type payload : ℕ)
    → 0 < max_attempts
    → IsSound max_attempts (new_log now fresh e event_type payload)
unfolding new_log
new_log-IsSound m now fresh e event_type payload h = record {
  bounded = omega arith;
  pending_left = λ _. h;
  failed_spent = λ k. cc;
  success_delivered = λ k. cc;
}

-- A round of `processPendingDeliveries` whose batch holds the log: when it begins, and when an attempt in
-- it ends, with which response.
pub record Round : Type 0 where
  pub began : ℕ
  pub ended : ℕ
  pub response : Response

-- The log is attempted if it is ready.
pub round : ℕ → Round → DeliveryLog × Endpoint → DeliveryLog × Endpoint
unfolding attempt_delivery is_ready
round m r (log, e) =
    if is_ready r.began log then attempt_delivery m r.ended r.response log e else (log, e)

pub rounds : ℕ → List Round → DeliveryLog × Endpoint → DeliveryLog × Endpoint
rounds m [] le = le
rounds m (r ∷ rs) le = rounds m rs (round m r le)

module _ (m began now : ℕ) (log : DeliveryLog) (e : Endpoint) (s : IsSound m log)
    (ready : is_ready began log ≡ true) where
  was_pending : log.status ≡ pending
  unfolding is_ready
  was_pending = ground arith

  left_over : log.attempt_count < m
  left_over = s.pending_left was_pending

  attempt-IsSound : (response : Response) → IsSound m (attempt_delivery m now response log e).0
  unfolding attempt_delivery
  attempt-IsSound (responded code) = record {
    bounded = ground (arith, left_over);
    pending_left = λ h. ground (arith, left_over);
    failed_spent = λ h. ground (arith, left_over, was_pending);
    success_delivered = λ h. (
      code,
      ground (arith, was_pending),
      ground (arith, was_pending),
      ground (arith, was_pending),
    );
  }
  attempt-IsSound (threw message response) = record {
    bounded = ground (arith, left_over);
    pending_left = λ h. ground (arith, left_over);
    failed_spent = λ h. ground (arith, left_over, was_pending);
    success_delivered = λ h. absurd (ground (arith, was_pending));
  }

round-IsSound :
    (m : ℕ) (r : Round) (log : DeliveryLog) (e : Endpoint)
    → IsSound m log
    → IsSound m (round m r (log, e)).0
unfolding round
round-IsSound m r log e s = elim (Bool-cases (is_ready r.began log)) [
  | inl ready ↦ rw ready (attempt-IsSound m r.began r.ended log e s ready r.response)
  | inr idle ↦ rw idle s
]

keeps :
    (m : ℕ) (rs : List Round) (le : DeliveryLog × Endpoint)
    → IsSound m le.0
    → IsSound m (rounds m rs le).0
unfolding rounds
keeps m [] le s = s
keeps m (r ∷ rs) (log, e) s = keeps m rs (round m r (log, e)) (round-IsSound m r log e s)

-- A delivery is attempted at most `max_attempts` times, over any number of rounds and whatever the
-- endpoint answers; it is successful only after a status from 200 to 299, and it fails only when the
-- attempts are used up, after which it is not scheduled.
pub rounds-IsSound :
    (m now fresh event_type payload : ℕ) (rs : List Round) (e : Endpoint)
    → 0 < m
    → IsSound m (rounds m rs (new_log now fresh e event_type payload, e)).0
rounds-IsSound m now fresh event_type payload rs e h =
    keeps m rs (new_log now fresh e event_type payload, e)
      (new_log-IsSound m now fresh e event_type payload h)

pow_pos : (n : ℕ) → 1 ≤ 2 ^ n
pow_pos zero = omega arith
pow_pos (suc n) = rw (pow-suc 2 n) (omega (arith, pow_pos n))

pow_twice : (n : ℕ) → 2 ^ suc n ≡ 2 * 2 ^ n
pow_twice n = rw (pow-suc 2 n) (omega arith)

-- After the failed attempt number `suc n`, with attempts left, the log stays as it was but for the
-- time of the next attempt, which is between a second and an hour away; and the wait after the next
-- failed attempt is twice as long, up to an hour.
pub schedule_retry_backoff :
    (m now n : ℕ) (log : DeliveryLog)
    → suc (suc n) < m
    → (d : ℕ) × (schedule_retry m now (suc n) log ≡ record log { next_retry_at = some (now + d) })
      × (1000 ≤ d)
      × (d ≤ 3600000)
      × (schedule_retry m now (suc (suc n)) log
          ≡ record log { next_retry_at = some (now + min (2 * d) 3600000) })
unfolding schedule_retry
schedule_retry_backoff m now n log h =
    let e : suc n - 1 ≡ n = omega arith in
    let e' : suc (suc n) - 1 ≡ suc n = omega arith in
    (
      min (2 ^ n * 1000) 3600000,
      rw e (ground arith),
      omega (arith, pow_pos n),
      omega arith,
      rw (e', pow_twice n) (ground (arith, pow_pos n)),
    )
