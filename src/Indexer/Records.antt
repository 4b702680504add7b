-- ===== src/Indexer/Records.antt =====
-- What the indexer records of the contract events: unique rows, and how often each was handled.
use paya_dev.Base.{
  ℕ, ◌+◌, ◌≤◌, ◌≡◌, Bool, false, ◌&&◌, not, List, [], ◌∷◌, ◌==◌, if◌then◌else◌, arith, Bool-cases,
  inl, inr, weight,
}
use paya_dev.Table.{Table, count}
use paya_dev.Table.Laws.{count-update, count_mono, count_split}
use paya_dev.Indexer.{ContractEvent, Store, processed, is_processed, has_id, is_at}

-- How often an event is noted as handled.
abbrev pub times : ℕ → ℕ → List (ℕ × ℕ) → ℕ
times l i [] = 0
times l i ((l', i') ∷ hs) = weight (l' == l && i' == i) + times l i hs

module _ {Data : Type 0} (E : Table (ContractEvent Data)) where
  abbrev pub is_done : ℕ → ℕ → ContractEvent Data → Bool
  is_done l i e = is_at l i e && is_processed e.status

  -- Row ids and places on the chain are unique, and an event has been handled as often as its row is
  -- marked as processed, and once more for each time that this mark could not be saved.
  pub record IsRecorded {World : Type 0} (s : Store E World) : Type 0 where
    pub ids : (k : ℕ) → count E (has_id k) s.events ≤ 1
    pub places : (l i : ℕ) → count E (is_at l i) s.events ≤ 1
    pub noted : (l i : ℕ) → times l i s.handled ≡ count E (is_done l i) s.events + times l i s.lost

  -- The row `k` stands once, at the place, and is not processed.
  abbrev pub Opens : ℕ → ℕ → ℕ → E.Contents → Type 0
  Opens k l i es =
      (count E (has_id k) es ≡ 1)
      × (count E (λ e. has_id k e && not (is_at l i e && not (is_processed e.status))) es ≡ 0)

  module _ (k l i : ℕ) (es : E.Contents) (o : Opens k l i es) where
    -- A change that marks the row `k` as processed, and keeps ids and places.
    pub marks :
        (g : ContractEvent Data → ContractEvent Data)
        → ((e : ContractEvent Data)
            → ((g e).ledger ≡ e.ledger)
              × ((g e).log_index ≡ e.log_index)
              × ((g e).status ≡ processed))
        → (l' i' : ℕ)
        → count E (is_done l' i') (E.update (has_id k) g es)
          ≡ weight (l == l' && i == i') + count E (is_done l' i') es
    marks g h l' i' = omega (
      arith,
      o,
      count-update E p q g es,
      count_split E after q es,
      count_split E p q es,
      count_split E q good es,
      count_mono E (λ e. after e && not (q e)) (λ e. p e && not (q e)) es (λ e. ground arith),
      count_mono E (λ e. p e && not (q e)) (λ e. after e && not (q e)) es (λ e. ground arith),
      count_mono E (λ e. p e && q e) (λ e. q e && not (good e)) es (λ e. ground arith),
      at_row,
    )
      where
        q : ContractEvent Data → Bool
        q = has_id k

        good : ContractEvent Data → Bool
        good e = is_at l i e && not (is_processed e.status)

        p : ContractEvent Data → Bool
        p = is_done l' i'

        after : ContractEvent Data → Bool
        after e = if q e then p (g e) else p e

        at_row : count E (λ e. after e && q e) es ≡ weight (l == l' && i == i')
        at_row = elim (Bool-cases (l == l' && i == i')) [
          | inl here ↦ rw here (
              omega (
                arith,
                o,
                count_split E q good es,
                count_mono E (λ e. after e && q e) q es (λ e. ground arith),
                count_mono E (λ e. q e && good e) (λ e. after e && q e) es
                    (λ e. ground (arith, h e, here)),
              ))
          | inr away ↦ rw away (
              omega (
                arith,
                o,
                count_mono E (λ e. after e && q e) (λ e. q e && not (good e)) es
                    (λ e. ground (arith, h e, away)),
              ))
        ]

    -- A change that leaves the row `k` unprocessed.
    pub leaves :
        (g : ContractEvent Data → ContractEvent Data)
        → ((e : ContractEvent Data) → is_processed (g e).status ≡ false)
        → (l' i' : ℕ)
        → count E (is_done l' i') (E.update (has_id k) g es) ≡ count E (is_done l' i') es
    leaves g h l' i' = omega (
      arith,
      o,
      count-update E p q g es,
      count_split E p q es,
      count_mono E after (λ e. p e && not (q e)) es (λ e. ground (arith, h e)),
      count_mono E (λ e. p e && not (q e)) after es (λ e. ground arith),
      count_mono E (λ e. p e && q e) (λ e. q e && not (good e)) es (λ e. ground arith),
    )
      where
        q : ContractEvent Data → Bool
        q = has_id k

        good : ContractEvent Data → Bool
        good e = is_at l i e && not (is_processed e.status)

        p : ContractEvent Data → Bool
        p = is_done l' i'

        after : ContractEvent Data → Bool
        after e = if q e then p (g e) else p e
