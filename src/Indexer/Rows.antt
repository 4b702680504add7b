-- ===== src/Indexer/Rows.antt =====
-- What one write to the rows of contract events does to the records of the indexer.
use paya_dev.Base.{
  ℕ, ◌+◌, ◌≡◌, refl, Bool, true, false, ◌&&◌, not, Option, none, some, List, ◌∷◌, arith, ==_iff,
  ==_refl,
}
use paya_dev.Table.{Table, count}
use paya_dev.Table.Laws.{
  count-insert, count-insert_le_one, count-update_same, count_mono, count_split, found-count,
}
use paya_dev.Indexer.{
  RawEvent, ContractEvent, Store, is_processed, has_id, is_at, new_event, refreshed, note_error,
}
use paya_dev.Indexer.Records.{times, is_done, IsRecorded, Opens, leaves}

module _ {Data World : Type 0} (E : Table (ContractEvent Data))
    (process : ℕ → Data → World → Option ℕ × World) where
  -- A row that was found, unprocessed, is the only one of its id.
  pub found-Opens :
      (find : ContractEvent Data → Bool) (e : ContractEvent Data) (s : Store E World)
      → IsRecorded E s
      → E.find_one find s.events ≡ some e
      → is_processed e.status ≡ false
      → Opens E e.id e.ledger e.log_index s.events
  found-Opens find e s r f h =
      let one = found-count E (has_id e.id) find s.events e f (==_refl e.id) in
      let good =
        λ (x : ContractEvent Data). is_at e.ledger e.log_index x && not (is_processed x.status) in
      let stands =
        found-count E (λ x. has_id e.id x && good x) find s.events e f (ground (arith, h)) in
      (
        omega (arith, one, r.ids e.id),
        omega (arith, r.ids e.id, stands, count_split E (has_id e.id) good s.events),
      )

  -- A change of one row that keeps ids and places, with what is noted of it.
  pub change-IsRecorded :
      (k : ℕ) (g : ContractEvent Data → ContractEvent Data) (s : Store E World) (w : World)
      (hs ls : List (ℕ × ℕ))
      → IsRecorded E s
      → ((e : ContractEvent Data)
          → ((g e).id ≡ e.id) × ((g e).ledger ≡ e.ledger) × ((g e).log_index ≡ e.log_index))
      → ((l i : ℕ)
          → times l i hs ≡ count E (is_done E l i) (E.update (has_id k) g s.events) + times l i ls)
      → IsRecorded E
          (record { events = E.update (has_id k) g s.events; world = w; handled = hs; lost = ls })
  change-IsRecorded k g s w hs ls r h n = record {
    ids = λ j. omega (
      arith,
      r.ids j,
      count-update_same E (has_id j) (has_id k) g s.events (λ e. ground (arith, h e)),
    );
    places = λ l i. omega (
      arith,
      r.places l i,
      count-update_same E (is_at l i) (has_id k) g s.events (λ e. ground (arith, h e)),
    );
    noted = n;
  }

  -- A handler has come to its end, and the mark of it is lost.
  pub lost-IsRecorded :
      (l i : ℕ) (w : World) (s : Store E World)
      → IsRecorded E s
      → IsRecorded E (record s { world = w; handled = (l, i) ∷ s.handled; lost = (l, i) ∷ s.lost })
  lost-IsRecorded l i w s r = record {
    ids = r.ids;
    places = r.places;
    noted = λ l' i'. omega (arith, r.noted l' i');
  }

  pub world-IsRecorded :
      (w : World) (s : Store E World) → IsRecorded E s → IsRecorded E (record s { world = w })
  world-IsRecorded w s r = record { ids = r.ids; places = r.places; noted = r.noted }

  -- The save of an error, whether it goes through or not, where it leaves the row unprocessed.
  pub note_error-IsRecorded :
      (saved : Bool) (k l i : ℕ) (g : ContractEvent Data → ContractEvent Data) (s : Store E World)
      → IsRecorded E s
      → Opens E k l i s.events
      → ((e : ContractEvent Data)
          → ((g e).id ≡ e.id) × ((g e).ledger ≡ e.ledger) × ((g e).log_index ≡ e.log_index))
      → ((e : ContractEvent Data) → is_processed (g e).status ≡ false)
      → IsRecorded E (note_error E process saved k g s).1
  note_error-IsRecorded false k l i g s r o h u = r
  note_error-IsRecorded true k l i g s r o h u =
      change-IsRecorded k g s s.world s.handled s.lost r h
        (λ l' i'. omega (arith, r.noted l' i', leaves E k l i s.events o g u l' i'))

  pub fresh-Opens :
      (now fresh : ℕ) (raw : RawEvent Data) (es : E.Contents)
      → count E (has_id fresh) es ≡ 0
      → Opens E fresh raw.ledger raw.log_index (E.insert (new_event now fresh raw) es)
  fresh-Opens now fresh raw es new =
      let row = new_event now fresh raw in
      let bad = λ (x : ContractEvent Data).
        has_id fresh x && not (is_at raw.ledger raw.log_index x && not (is_processed x.status)) in
      (
        ground (arith, new, count-insert E (has_id fresh) row es),
        ground (
          arith,
          new,
          count-insert E bad row es,
          count_mono E bad (has_id fresh) es (λ x. ground arith),
        ),
      )

  pub insert-IsRecorded :
      (now fresh : ℕ) (raw : RawEvent Data) (s : Store E World)
      → IsRecorded E s
      → count E (has_id fresh) s.events ≡ 0
      → E.find_one (is_at raw.ledger raw.log_index) s.events ≡ none
      → IsRecorded E (record s { events = E.insert (new_event now fresh raw) s.events })
  insert-IsRecorded now fresh raw s r new free = record {
    ids = λ k.
        count-insert_le_one E (has_id k) row s.events (r.ids k)
          (λ e. let same_id : fresh ≡ k = (==_iff fresh k).0 e in rw (← same_id) new);
    places = λ l i. count-insert_le_one E (is_at l i) row s.events (r.places l i) (λ e.
        let same_ledger : raw.ledger ≡ l = ground arith in
        let same_index : raw.log_index ≡ i = ground arith in
        rw (← same_ledger, ← same_index)
          (E.find_one_none (is_at raw.ledger raw.log_index) s.events free));
    noted = λ l i. ground (arith, r.noted l i, count-insert E (is_done E l i) row s.events);
  }
    where
      row : ContractEvent Data
      row = new_event now fresh raw

  pub refresh-IsRecorded :
      (k : ℕ) (raw : RawEvent Data) (s : Store E World)
      → IsRecorded E s
      → IsRecorded E (record s { events = E.update (has_id k) (refreshed raw) s.events })
  refresh-IsRecorded k raw s r =
      change-IsRecorded k (refreshed raw) s s.world s.handled s.lost r (λ x. (refl, refl, refl))
        (λ l i. omega (
          arith,
          r.noted l i,
          count-update_same E (is_done E l i) (has_id k) (refreshed raw) s.events (λ x. refl),
        ))

  pub refresh-Opens :
      (j k l i : ℕ) (raw : RawEvent Data) (es : E.Contents)
      → Opens E k l i es
      → Opens E k l i (E.update (has_id j) (refreshed raw) es)
  refresh-Opens j k l i raw es o = (
    omega (arith, o, count-update_same E (has_id k) (has_id j) (refreshed raw) es (λ x. refl)),
    omega (
      arith,
      o,
      count-update_same E (λ e. has_id k e && not (is_at l i e && not (is_processed e.status)))
          (has_id j) (refreshed raw) es (λ x. refl),
    ),
  )
