-- ===== src/Webhooks/Emit.antt =====
-- `emit` of backend/src/webhooks/services/webhook-dispatcher.service.ts: for which endpoints an event is
-- queued.
use paya_dev.Base.{
  ℕ, suc, ◌+◌, ◌≡◌, refl, ap, ◌∙◌, fun_ext, Bool, ◌&&◌, List, [], ◌∷◌, ◌==◌, if◌then◌else◌,
  includes, arith, weight, length, keep, sum_of,
}
use paya_dev.Table.{Table, count}
use paya_dev.Webhooks.{Endpoint, DeliveryLog, new_log, queue_each, emit, is_ready}

sum_of-keep :
    {A : Type 0} (f : A → ℕ) (p : A → Bool) (xs : List A)
    → sum_of f (keep p xs) ≡ sum_of (λ x. if p x then f x else 0) xs
sum_of-keep f p [] = refl
sum_of-keep f p (x ∷ xs) = ground (arith, sum_of-keep f p xs)

-- A log that is queued for the endpoint `k`: pending, untried, and due.
abbrev pub is_queued : ℕ → ℕ → ℕ → ℕ → DeliveryLog → Bool
is_queued now k event_type payload log =
    log.endpoint == k
    && log.event_type == event_type
    && log.payload == payload
    && log.attempt_count == 0
    && is_ready now log

module _ (E : Table Endpoint) (L : Table DeliveryLog) where
  queued_each :
      (now fresh event_type payload k : ℕ) (es : List Endpoint) (logs : L.Contents)
      → count L
          (is_queued now k event_type payload)
          (queue_each E L now fresh event_type payload es logs)
        ≡ count L (is_queued now k event_type payload) logs + sum_of (λ e. weight (e.id == k)) es
  unfolding queue_each
  queued_each now fresh event_type payload k [] logs = omega arith
  queued_each now fresh event_type payload k (e ∷ es) logs = omega (
    arith,
    queued_each now (suc fresh) event_type payload k es
        (L.insert (new_log now fresh e event_type payload) logs),
    L.total_insert (λ l. weight (is_queued now k event_type payload l))
        (new_log now fresh e event_type payload) logs,
    one,
  )
    where
      one :
          weight (is_queued now k event_type payload (new_log now fresh e event_type payload))
          ≡ weight (e.id == k)
      one = unfold new_log is_ready in ground arith

  total_each :
      (now fresh event_type payload : ℕ) (es : List Endpoint) (logs : L.Contents)
      → L.total (λ l. 1) (queue_each E L now fresh event_type payload es logs)
        ≡ L.total (λ l. 1) logs + length es
  unfolding queue_each
  total_each now fresh event_type payload [] logs = omega arith
  total_each now fresh event_type payload (e ∷ es) logs = omega (
    arith,
    total_each now (suc fresh) event_type payload es
        (L.insert (new_log now fresh e event_type payload) logs),
    L.total_insert (λ l. 1) (new_log now fresh e event_type payload) logs,
  )

  -- An event is queued, as an untried delivery that is due at once, for each endpoint as often as the
  -- endpoint is stored, active and subscribed to it, and for no other endpoint.
  pub emit_queues :
      (now fresh event_type payload k : ℕ) (endpoints : E.Contents) (logs : L.Contents)
      → count L
          (is_queued now k event_type payload)
          (emit E L now fresh event_type payload endpoints logs)
        ≡ count L (is_queued now k event_type payload) logs
          + count E (λ e. e.is_active && includes e.event_types event_type && e.id == k) endpoints
  unfolding emit
  emit_queues now fresh event_type payload k endpoints logs =
      queued_each now fresh event_type payload k _ logs
      ∙ ap (λ n. count L (is_queued now k event_type payload) logs + n)
          (sum_of-keep (λ e. weight (e.id == k)) (λ e. includes e.event_types event_type) _
            ∙ E.sum_find _ _ endpoints
            ∙ ap (λ (g : Endpoint → ℕ). E.total g endpoints) (fun_ext (λ e. ground arith)))
