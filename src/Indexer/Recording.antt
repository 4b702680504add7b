-- ===== src/Indexer/Recording.antt =====
-- What one event, stored or retried, does to the records of the indexer.
use paya_dev.Base.{
  ℕ, ◌≡◌, refl, Bool, true, false, Option, none, some, ◌∷◌, leb, arith, Bool-cases, Option-cases,
  inl, inr,
}
use paya_dev.Table.{Table, count}
use paya_dev.Indexer.{
  RawEvent, ContractEvent, Store, is_processed, has_id, is_at, new_event, refreshed, finished,
  failed_with, unmarked, retried, Saves, note_error, run_handler, store_and_process, retry_one,
  max_retries,
}
use paya_dev.Indexer.Records.{IsRecorded, Opens, marks}
use paya_dev.Indexer.Rows.{
  found-Opens, change-IsRecorded, lost-IsRecorded, world-IsRecorded, note_error-IsRecorded,
  fresh-Opens, insert-IsRecorded, refresh-IsRecorded, refresh-Opens,
}

module _ {Data World : Type 0} (E : Table (ContractEvent Data))
    (process : ℕ → Data → World → Option ℕ × World) where
  run_handler-IsRecorded :
      (now k : ℕ) (raw : RawEvent Data) (saves : Saves) (s : Store E World)
      → IsRecorded E s
      → Opens E k raw.ledger raw.log_index s.events
      → IsRecorded E (run_handler E process now k raw saves s).1
  run_handler-IsRecorded now k raw saves s r o = elim (Option-cases outcome.0) [
    | inl e ↦ elim (Option-cases saves.marked) [
      | inl f ↦ rw (done e f) (
          change-IsRecorded E process k (finished now) s outcome.1
            ((raw.ledger, raw.log_index) ∷ s.handled) s.lost r (λ x. (refl, refl, refl))
            (λ l i. omega (
              arith,
              r.noted l i,
              marks E k raw.ledger raw.log_index s.events o (finished now) (λ x. (refl, refl, refl))
                  l i,
            )))
      | inr (m, f) ↦ rw (unsaved m e f) (
          note_error-IsRecorded E process saves.noted k raw.ledger raw.log_index (unmarked now m) _
            (lost-IsRecorded E process raw.ledger raw.log_index outcome.1 s r) o
            (λ x. (refl, refl, refl)) (λ x. ground arith))
    ]
    | inr (m, e) ↦ rw (broke m e) (
        note_error-IsRecorded E process saves.noted k raw.ledger raw.log_index (failed_with m) _
          (world-IsRecorded E process outcome.1 s r) o (λ x. (refl, refl, refl))
          (λ x. ground arith))
  ]
    where
      outcome : Option ℕ × World
      outcome = process raw.event_type raw.payload s.world

      done :
          outcome.0 ≡ none
          → saves.marked ≡ none
          → run_handler E process now k raw saves s ≡ (
            true,
            record s {
              events = E.update (has_id k) (finished now) s.events;
              world = outcome.1;
              handled = (raw.ledger, raw.log_index) ∷ s.handled;
            },
          )
      done e f = unfold run_handler in ground arith

      unsaved :
          (m : ℕ)
          → outcome.0 ≡ none
          → saves.marked ≡ some m
          → run_handler E process now k raw saves s
            ≡ note_error E process saves.noted k (unmarked now m) (record s {
              world = outcome.1;
              handled = (raw.ledger, raw.log_index) ∷ s.handled;
              lost = (raw.ledger, raw.log_index) ∷ s.lost;
            })
      unsaved m e f = unfold run_handler in ground arith

      broke :
          (m : ℕ)
          → outcome.0 ≡ some m
          → run_handler E process now k raw saves s
            ≡ note_error E process saves.noted k (failed_with m) (record s { world = outcome.1 })
      broke m e = unfold run_handler in ground arith

  pub store_and_process-IsRecorded :
      (now fresh : ℕ) (raw : RawEvent Data) (saves : Saves) (s : Store E World)
      → IsRecorded E s
      → count E (has_id fresh) s.events ≡ 0
      → IsRecorded E (store_and_process E process now fresh raw saves s).1
  unfolding store_and_process
  store_and_process-IsRecorded now fresh raw saves s r new =
      elim (Option-cases (E.find_one (is_at raw.ledger raw.log_index) s.events)) [
        | inl e ↦ elim (Bool-cases saves.stored) [
          | inr unsaved ↦ rw (e, store_and_process, unsaved) r
          | inl saved ↦ rw (stored_new e saved) (
              run_handler-IsRecorded now fresh raw saves _
                (insert-IsRecorded E process now fresh raw s r new e)
                (fresh-Opens E process now fresh raw s.events new))
        ]
        | inr (x, e) ↦ elim (Bool-cases (is_processed x.status)) [
          | inl h ↦ rw (e, store_and_process, h) r
          | inr h ↦ elim (Bool-cases saves.stored) [
            | inr unsaved ↦ rw (e, store_and_process, h, unsaved) r
            | inl saved ↦ rw (stored_again x e h saved) (
                run_handler-IsRecorded now x.id raw saves _
                  (refresh-IsRecorded E process x.id raw s r)
                  (refresh-Opens E process x.id x.id raw.ledger raw.log_index raw s.events
                    (opened x e h)))
          ]
        ]
      ]
    where
      stored_new :
          E.find_one (is_at raw.ledger raw.log_index) s.events ≡ none
          → saves.stored ≡ true
          → store_and_process E process now fresh raw saves s
            ≡ run_handler E process now fresh raw saves
                (record s { events = E.insert (new_event now fresh raw) s.events })
      stored_new e t = unfold store_and_process in ground arith

      stored_again :
          (x : ContractEvent Data)
          → E.find_one (is_at raw.ledger raw.log_index) s.events ≡ some x
          → is_processed x.status ≡ false
          → saves.stored ≡ true
          → store_and_process E process now fresh raw saves s
            ≡ run_handler E process now x.id raw saves
                (record s { events = E.update (has_id x.id) (refreshed raw) s.events })
      stored_again x e h t = unfold store_and_process in ground arith

      opened :
          (x : ContractEvent Data)
          → E.find_one (is_at raw.ledger raw.log_index) s.events ≡ some x
          → is_processed x.status ≡ false
          → Opens E x.id raw.ledger raw.log_index s.events
      opened x e h =
          let passes = E.find_one_passes (is_at raw.ledger raw.log_index) s.events x e in
          let l : x.ledger ≡ raw.ledger = ground (arith, passes) in
          let i : x.log_index ≡ raw.log_index = ground (arith, passes) in
          rw (← l, ← i) (found-Opens E process (is_at raw.ledger raw.log_index) x s r e h)

  pub retry_one-IsRecorded :
      (now : ℕ) (saved : Bool) (find : ContractEvent Data → Bool) (x : ContractEvent Data)
      (s : Store E World)
      → IsRecorded E s
      → E.find_one find s.events ≡ some x
      → is_processed x.status ≡ false
      → IsRecorded E (retry_one E process now saved x s)
  retry_one-IsRecorded now saved find x s r f h =
      elim (Bool-cases (leb max_retries x.retry_count)) [
        | inl spent ↦ rw (idle spent) r
        | inr left ↦ elim (Option-cases outcome.0) [
          | inr (m, e) ↦ rw (broke m left e) (world-IsRecorded E process outcome.1 s r)
          | inl e ↦ elim (Bool-cases saved) [
            | inr gone ↦
                rw (unsaved left e gone)
                  (lost-IsRecorded E process x.ledger x.log_index outcome.1 s r)
            | inl kept ↦ rw (done left e kept) (
                change-IsRecorded E process x.id (retried now) s outcome.1
                  ((x.ledger, x.log_index) ∷ s.handled) s.lost r (λ y. (refl, refl, refl))
                  (λ l i. omega (
                    arith,
                    r.noted l i,
                    marks E x.id x.ledger x.log_index s.events
                        (found-Opens E process find x s r f h) (retried now)
                        (λ y. (refl, refl, refl)) l i,
                  )))
          ]
        ]
      ]
    where
      outcome : Option ℕ × World
      outcome = process x.event_type x.payload s.world

      idle : leb max_retries x.retry_count ≡ true → retry_one E process now saved x s ≡ s
      idle p = unfold retry_one in ground arith

      done :
          leb max_retries x.retry_count ≡ false
          → outcome.0 ≡ none
          → saved ≡ true
          → retry_one E process now saved x s ≡ record s {
            events = E.update (has_id x.id) (retried now) s.events;
            world = outcome.1;
            handled = (x.ledger, x.log_index) ∷ s.handled;
          }
      done p e t = unfold retry_one in ground arith

      unsaved :
          leb max_retries x.retry_count ≡ false
          → outcome.0 ≡ none
          → saved ≡ false
          → retry_one E process now saved x s ≡ record s {
            world = outcome.1;
            handled = (x.ledger, x.log_index) ∷ s.handled;
            lost = (x.ledger, x.log_index) ∷ s.lost;
          }
      unsaved p e t = unfold retry_one in ground arith

      broke :
          (m : ℕ)
          → leb max_retries x.retry_count ≡ false
          → outcome.0 ≡ some m
          → retry_one E process now saved x s ≡ record s { world = outcome.1 }
      broke m p e = unfold retry_one in ground arith
