-- ===== src/Indexer/Once.antt =====
-- How often the handler of a contract event comes to its end.
use paya_dev.Base.{ℕ, ◌+◌, Bool, ◌≤◌, ◌≡◌, ◌&&◌, Option, some, arith}
use paya_dev.Table.{Table, count}
use paya_dev.Table.Laws.{count_mono}
use paya_dev.Indexer.{
  RawEvent, ContractEvent, Store, Saves, is_stuck, has_id, is_at, store_and_process, retry_one,
}
use paya_dev.Indexer.Records.{times, is_done, IsRecorded}
use paya_dev.Indexer.Recording.{store_and_process-IsRecorded, retry_one-IsRecorded}

-- One event of a poll, under a row id that is not in use, or the retry of one stuck event.
pub data Step {Data World : Type 0} (E : Table (ContractEvent Data))
    (process : ℕ → Data → World → Option ℕ × World) (s : Store E World)
    : Store E World → Type 0 where
  stores :
      (now fresh : ℕ) (raw : RawEvent Data) (saves : Saves)
      → count E (has_id fresh) s.events ≡ 0
      → Step E process s (store_and_process E process now fresh raw saves s).1
  retries :
      (now k : ℕ) (saved : Bool) (x : ContractEvent Data)
      → E.find_one (λ e. has_id k e && is_stuck e.status) s.events ≡ some x
      → Step E process s (retry_one E process now saved x s)

pub data Reach {Data World : Type 0} (E : Table (ContractEvent Data))
    (process : ℕ → Data → World → Option ℕ × World) (s : Store E World)
    : Store E World → Type 0 where
  here : Reach E process s s
  next : {t u : Store E World} → Reach E process s t → Step E process t u → Reach E process s u

module _ {Data World : Type 0} (E : Table (ContractEvent Data))
    (process : ℕ → Data → World → Option ℕ × World) where
  Step-IsRecorded : {s t : Store E World} → Step E process s t → IsRecorded E s → IsRecorded E t
  Step-IsRecorded {s} (stores now fresh raw saves new) r =
      store_and_process-IsRecorded E process now fresh raw saves s r new
  Step-IsRecorded {s} (retries now k saved x f) r =
      let passes = E.find_one_passes (λ e. has_id k e && is_stuck e.status) s.events x f in
      retry_one-IsRecorded E process now saved (λ e. has_id k e && is_stuck e.status) x s r f
        (ground (arith, passes))

  Reach-IsRecorded : {s t : Store E World} → IsRecorded E s → Reach E process s t → IsRecorded E t
  Reach-IsRecorded r here = r
  Reach-IsRecorded r (next p st) = Step-IsRecorded st (Reach-IsRecorded r p)

  -- From unique rows whose statuses tell what was handled, however often contract events are
  -- fetched again and retried, whatever their handlers throw, and whichever saves of their rows fail,
  -- the handler of an event at one place on the chain comes to its end once if the event's row is
  -- marked as processed, and once more for each time that this mark could not be saved after the
  -- handler had ended; so at most once where that save never fails. New rows get ids that are in no
  -- use.
  pub handled_once :
      (s t : Store E World) (l i : ℕ)
      → IsRecorded E s
      → Reach E process s t
      → (times l i t.handled ≡ count E (is_done E l i) t.events + times l i t.lost)
        × (times l i t.handled ≤ 1 + times l i t.lost)
  handled_once s t l i r p =
      let q = Reach-IsRecorded r p in
      (
        q.noted l i,
        omega (
          arith,
          q.noted l i,
          q.places l i,
          count_mono E (is_done E l i) (is_at l i) t.events (λ e. ground arith),
        ),
      )
