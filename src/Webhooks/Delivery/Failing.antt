-- ===== src/Webhooks/Delivery/Failing.antt =====
-- An endpoint that fails every time: how its deliveries end.
use paya_dev.Base.{
  ℕ, suc, ◌+◌, ◌-◌, ◌*◌, ◌^◌, ◌≤◌, ◌<◌, min, ◌≡◌, ◌⊎◌, ◌∙◌, refl, true, false, zero, some, List, [],
  ◌∷◌, arith, Bool-cases, inl, inr,
}
use native.Mathlib.Nat.{suc-mul}
use paya_dev.Webhooks.{
  pending, failed, Endpoint, DeliveryLog, Response, responded, threw, schedule_retry,
  attempt_delivery, is_ready, new_log,
}
use paya_dev.Webhooks.Delivery.{Round, round, rounds}

-- The endpoint does not take the delivery.
abbrev pub Fails : Response → Type 0
Fails (responded code) = (code < 200) ⊎ (300 ≤ code)
Fails (threw _ _) = Unit

-- Rounds of which each begins by `gap` after the one before, the first one by `gap` after `p`, in which
-- an attempt ends by `slack` after the begin, and the endpoint fails.
abbrev pub Follows : ℕ → ℕ → ℕ → List Round → Type 0
Follows gap slack p [] = Unit
Follows gap slack p (r ∷ rs) =
    (r.began ≤ p + gap)
    × (r.ended ≤ r.began + slack)
    × Fails r.response
    × Follows gap slack r.began rs

abbrev pub last_begin : ℕ → List Round → ℕ
last_begin p [] = p
last_begin p (r ∷ rs) = last_begin r.began rs

-- A log that waits until `t` at most, after `n` attempts, at a time `p` that is not later.
abbrev Waits : ℕ → ℕ → ℕ → DeliveryLog → Type 0
Waits p t n log =
    (log.status ≡ pending)
    × (log.attempt_count ≡ n)
    × (p ≤ t)
    × ((next : ℕ) × (log.next_retry_at ≡ some next) × (next ≤ t))

-- An attempt that fails with others left puts the log off by an hour at most.
put_off :
    (m began ended : ℕ) (response : Response) (log : DeliveryLog) (e : Endpoint)
    → is_ready began log ≡ true
    → Fails response
    → log.attempt_count + 1 < m
    → let after =
        (round m (record { began = began; ended = ended; response = response }) (log, e)).0 in
      (after.status ≡ log.status)
      × (after.attempt_count ≡ log.attempt_count + 1)
      × (after.next_retry_at ≡ some (ended + min (2 ^ (log.attempt_count + 1 - 1) * 1000) 3600000))
unfolding round schedule_retry attempt_delivery
put_off m b d (responded code) log e ready f left = (ground arith, ground arith, ground arith)
put_off m b d (threw x y) log e ready f left = (ground arith, ground arith, ground arith)

-- A log that is not ready waits on.
idle-Waits :
    (m p t n : ℕ) (r : Round) (log : DeliveryLog) (e : Endpoint)
    → Waits p t n log
    → is_ready r.began log ≡ false
    → Waits r.began t n (round m r (log, e)).0
unfolding round is_ready
idle-Waits m p t n r log e (st, c, h, (next, w, b)) idle = (
  ground (arith, st, idle),
  ground (arith, c, idle),
  ground (arith, st, w, b, idle),
  (next, ground (arith, w, idle), b),
)

round-Waits :
    (m gap slack p t n : ℕ) (r : Round) (log : DeliveryLog) (e : Endpoint)
    → Waits p t n log
    → is_ready r.began log ≡ true
    → r.began ≤ p + gap
    → r.ended ≤ r.began + slack
    → Fails r.response
    → suc n < m
    → Waits r.began (t + (gap + slack + 3600000)) (suc n) (round m r (log, e)).0
round-Waits m gap slack p t n r log e w ready near soon f left =
    let (st, c, at_time) =
      put_off m r.began r.ended r.response log e ready f (omega (arith, w.1)) in
    let wait = min (2 ^ (log.attempt_count + 1 - 1) * 1000) 3600000 in
    (
      st ∙ w.0,
      omega (arith, c, w.1),
      omega (arith, w.2, near),
      (r.ended + wait, at_time, omega (arith, w.2, near, soon)),
    )

round-failed :
    (m n began ended : ℕ) (response : Response) (log : DeliveryLog) (e : Endpoint)
    → log.attempt_count ≡ n
    → is_ready began log ≡ true
    → Fails response
    → m ≡ suc n
    → (round m (record { began = began; ended = ended; response = response }) (log, e)).0.status
      ≡ failed
unfolding round
round-failed m n b d (responded code) log e c ready f left = ground arith
round-failed m n b d (threw x y) log e c ready f left = ground arith

-- A log that has failed stays as it is.
failed_stays :
    (m : ℕ) (rs : List Round) (log : DeliveryLog) (e : Endpoint)
    → log.status ≡ failed
    → (rounds m rs (log, e)).0.status ≡ failed
unfolding rounds round is_ready
failed_stays m [] log e h = h
failed_stays m (r ∷ rs) log e h = ground (arith, failed_stays m rs log e h)

-- `left` further failures use up the attempts.
Waits-failed :
    (m gap slack left p t n : ℕ) (rs : List Round) (log : DeliveryLog) (e : Endpoint)
    → Waits p t n log
    → Follows gap slack p rs
    → n + suc left ≡ m
    → t + left * (gap + slack + 3600000) < last_begin p rs
    → (rounds m rs (log, e)).0.status ≡ failed
unfolding rounds
Waits-failed m gap slack left p t n [] log e w f total late = absurd (omega (arith, w.2, late))
Waits-failed m gap slack zero p t n (r ∷ rs) log e w (near, soon, bad, f) total late =
    elim (Bool-cases (is_ready r.began log)) [
      | inr idle ↦
          Waits-failed m gap slack zero r.began t n rs (round m r (log, e)).0 (round m r (log, e)).1
            (idle-Waits m p t n r log e w idle) f total late
      | inl ready ↦
          failed_stays m rs (round m r (log, e)).0 (round m r (log, e)).1
            (round-failed m n r.began r.ended r.response log e w.1 ready bad (omega arith))
    ]
Waits-failed m gap slack (suc left) p t n (r ∷ rs) log e w (near, soon, bad, f) total late =
    elim (Bool-cases (is_ready r.began log)) [
      | inr idle ↦
          Waits-failed m gap slack (suc left) r.began t n rs (round m r (log, e)).0
            (round m r (log, e)).1 (idle-Waits m p t n r log e w idle) f total late
      | inl ready ↦
          Waits-failed m gap slack left r.began (t + (gap + slack + 3600000)) (suc n) rs
            (round m r (log, e)).0 (round m r (log, e)).1
            (round-Waits m gap slack p t n r log e w ready near soon bad (omega (arith, total))) f
            (omega (arith, total)) (omega (arith, late, suc-mul left (gap + slack + 3600000)))
    ]

-- Against an endpoint that fails every time, a delivery does not stay pending: in rounds whose batch
-- holds the log, the first one by `gap` after its creation and each other by `gap` after the one
-- before, in which an attempt ends by `slack` after the begin, whether they find the log ready or not,
-- the log has failed after a round that begins later than an hour, a gap and a slack for each
-- attempt but the last.
pub failing_delivery_ends :
    (left gap slack now fresh event_type payload : ℕ) (rs : List Round) (e : Endpoint)
    → Follows gap slack now rs
    → now + left * (gap + slack + 3600000) < last_begin now rs
    → (rounds (suc left) rs (new_log now fresh e event_type payload, e)).0.status ≡ failed
failing_delivery_ends left gap slack now fresh event_type payload rs e f late =
    Waits-failed (suc left) gap slack left now now 0 rs (new_log now fresh e event_type payload) e
      (unfold new_log in (refl, refl, omega arith, (now, refl, omega arith))) f (omega arith) late
