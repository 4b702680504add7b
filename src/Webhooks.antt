-- ===== src/Webhooks.antt =====
-- backend/src/webhooks/services/webhook-dispatcher.service.ts: the logs that an event queues, and one
-- attempt to deliver a log. `max_attempts` is WEBHOOK_MAX_ATTEMPTS, and the answer of the endpoint is
-- an argument.
pub mod Delivery
pub mod Emit
use paya_dev.Base.{
  ℕ, suc, ◌+◌, ◌-◌, ◌*◌, ◌^◌, min, Bool, true, false, ◌&&◌, Option, none, some, List, [], ◌∷◌, ltb,
  leb, ◌==◌, if◌then◌else◌, includes, keep,
}
use paya_dev.Table.{Table}

pub data DeliveryStatus : Type 0 where
  pending success failed : DeliveryStatus

pub record Endpoint : Type 0 where
  pub id : ℕ
  pub url : ℕ
  pub event_types : List ℕ
  pub is_active : Bool
  pub failure_count : ℕ
  pub last_delivery_at : Option ℕ
  pub last_failure_at : Option ℕ

pub record DeliveryLog : Type 0 where
  pub id : ℕ
  pub endpoint : ℕ  -- the endpoint's id
  pub event_type : ℕ
  pub payload : ℕ
  pub status : DeliveryStatus
  pub attempt_count : ℕ
  pub http_status_code : Option ℕ
  pub error_message : Option ℕ
  pub next_retry_at : Option ℕ
  pub delivered_at : Option ℕ

-- What `axios.post` does: a response with its status, or a throw with its message and, where the
-- error has a response, its status.
pub data Response : Type 0 where
  responded : ℕ → Response
  threw : ℕ → Option (Option ℕ) → Response

pub schedule_retry : ℕ → ℕ → ℕ → DeliveryLog → DeliveryLog
schedule_retry max_attempts now attempt log =
    if leb max_attempts attempt
    then record log { status = failed; next_retry_at = none }
    else record log { next_retry_at = some (now + min (2 ^ (attempt - 1) * 1000) 3600000) }

abbrev count_failure : ℕ → Endpoint → Endpoint
count_failure now e = record e { last_failure_at = some now; failure_count = e.failure_count + 1 }

-- `response?.status || null`, where the error has a response
abbrev status_of_error : Option (Option ℕ) → Option ℕ → Option ℕ
status_of_error none old = old
status_of_error (some none) old = none
status_of_error (some (some code)) old = if code == 0 then none else some code

-- The log and the endpoint that `attemptDelivery` saves.
pub attempt_delivery : ℕ → ℕ → Response → DeliveryLog → Endpoint → DeliveryLog × Endpoint
unfolding schedule_retry
attempt_delivery max_attempts now (responded code) log e =
    let attempt = log.attempt_count + 1 in
    if leb 200 code && ltb code 300
    then (
      record log {
        status = success;
        http_status_code = some code;
        delivered_at = some now;
        attempt_count = attempt;
      },
      record e { last_delivery_at = some now; failure_count = 0 },
    )
    else (
      let retried = schedule_retry max_attempts now attempt log in
          record retried { attempt_count = attempt },
      count_failure now e,
    )
attempt_delivery max_attempts now (threw message response) log e =
    let attempt = log.attempt_count + 1 in
    let retried = schedule_retry max_attempts now attempt log in
    (
      record retried {
        attempt_count = attempt;
        error_message = some message;
        http_status_code = status_of_error response log.http_status_code;
      },
      count_failure now e,
    )

abbrev is_pending : DeliveryStatus → Bool
is_pending pending = true
is_pending _ = false

-- The filter of `processPendingDeliveries`.
pub is_ready : ℕ → DeliveryLog → Bool
is_ready now log =
    is_pending log.status && elim log.next_retry_at [ none ↦ true | some t ↦ leb t now ]

-- `createDeliveryLog`
pub new_log : ℕ → ℕ → Endpoint → ℕ → ℕ → DeliveryLog
new_log now fresh e event_type payload = record {
  id = fresh;
  endpoint = e.id;
  event_type = event_type;
  payload = payload;
  status = pending;
  attempt_count = 0;
  http_status_code = none;
  error_message = none;
  next_retry_at = some now;
  delivered_at = none;
}

module _ (E : Table Endpoint) (L : Table DeliveryLog) where
  -- The loop of `emit`; the database numbers the logs from `fresh` on.
  queue_each : ℕ → ℕ → ℕ → ℕ → List Endpoint → L.Contents → L.Contents
  queue_each now fresh event_type payload [] logs = logs
  queue_each now fresh event_type payload (e ∷ es) logs =
      queue_each now (suc fresh) event_type payload es
        (L.insert (new_log now fresh e event_type payload) logs)

  pub emit : ℕ → ℕ → ℕ → ℕ → E.Contents → L.Contents → L.Contents
  unfolding queue_each
  emit now fresh event_type payload endpoints logs =
      queue_each now fresh event_type payload
        (keep (λ e. includes e.event_types event_type) (E.find (λ e. e.is_active) endpoints)) logs
