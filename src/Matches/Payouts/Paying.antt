-- ===== src/Matches/Payouts/Paying.antt =====
-- What is paid out for an event that is finalized.
use paya_dev.Base.{
  ℕ, suc, ◌+◌, ◌≤◌, ◌≡◌, true, false, some, List, [], ◌∷◌, ◌==◌, if◌then◌else◌, arith, Bool-cases,
  Option-cases, inl, inr, ==_refl,
}
use paya_dev.Table.{Table, count}
use paya_dev.Table.Single.{total_of_none}
use paya_dev.Matches.{Event, is_event, on_chain_event}
use paya_dev.Matches.Payouts.{
  LeaderboardEntry, Payout, RawEntry, Writes, none_written, entry_written, both_written, Store,
  save_entry, is_payout_of, process_entry, process_each, finalize_payouts, pays, pays_each,
}

abbrev pub amount_of : ℕ → Payout → ℕ
amount_of k p = if is_payout_of k p then p.payout_amount_stroops else 0

module _ {E : Table Event} {L : Table LeaderboardEntry} {P : Table Payout} where
  entry_pays :
      (fresh : ℕ) (writes : Writes) (k : ℕ) (raw : RawEntry) (s : Store E L P)
      → P.total (amount_of k) (process_entry fresh writes k raw s).payouts
        ≡ pays writes raw + P.total (amount_of k) s.payouts
  unfolding process_entry
  entry_pays fresh none_written k raw s = ground arith
  entry_pays fresh entry_written k raw s = ground arith
  entry_pays fresh both_written k raw s = elim (Option-cases raw.address) [
    | inl a ↦ ground (arith, a)
    | inr (address, a) ↦ elim (Option-cases raw.rank) [
      | inl r ↦ ground (arith, a, r)
      | inr (rank, r) ↦
          let row : Payout = record {
            id = fresh;
            event_id = k;
            user_address = address;
            payout_amount_stroops = raw.payout_amount;
            is_claimed = false;
            leaderboard_entry_id = (save_entry L fresh k address rank raw s.entries).0;
          } in
          rw (process_entry, a, r)
            (ground (arith, a, r, ==_refl k, P.total_insert (amount_of k) row s.payouts))
    ]
  ]

  each_pays :
      (fresh : ℕ) (writes : ℕ → Writes) (k : ℕ) (raws : List RawEntry) (s : Store E L P)
      → P.total (amount_of k) (process_each fresh writes k raws s).payouts
        ≡ pays_each fresh writes raws + P.total (amount_of k) s.payouts
  unfolding process_each pays_each
  each_pays fresh writes k [] s = omega arith
  each_pays fresh writes k (raw ∷ raws) s = omega (
    arith,
    each_pays (suc fresh) writes k raws (process_entry fresh (writes fresh) k raw s),
    entry_pays fresh (writes fresh) k raw s,
  )

  first_pays :
      (fresh : ℕ) (writes : ℕ → Writes) (k : ℕ) (raws : List RawEntry) (e : Event) (s : Store E L P)
      → (k == 0) ≡ false
      → E.find_one (on_chain_event k) s.events ≡ some e
      → count P (is_payout_of k) s.payouts ≡ 0
      → P.total (amount_of k) (finalize_payouts fresh writes k raws s).payouts
        ≡ pays_each fresh writes raws
  unfolding finalize_payouts
  first_pays fresh writes k raws e s a f unpaid = elim (Bool-cases e.is_finalized) [
    | inl done ↦
        rw (a, f, unpaid, done)
          (omega (
            arith,
            each_pays fresh writes k raws s,
            total_of_none P (λ p. p.payout_amount_stroops) (is_payout_of k) s.payouts unpaid,
          ))
    | inr open_yet ↦
        rw (a, f, unpaid, open_yet)
          (omega (
            arith,
            each_pays fresh writes k raws (record s {
              events = E.update (is_event e.id) (λ x. record x { is_finalized = true }) s.events;
            }),
            total_of_none P (λ p. p.payout_amount_stroops) (is_payout_of k) s.payouts unpaid,
          ))
  ]

  second_pays :
      (fresh : ℕ) (writes : ℕ → Writes) (k : ℕ) (raws : List RawEntry) (s : Store E L P)
      → 1 ≤ count P (is_payout_of k) s.payouts
      → finalize_payouts fresh writes k raws s ≡ s
  unfolding finalize_payouts
  second_pays fresh writes k raws s paid = ground (arith, paid)

  -- A stored event is paid out once: when its leaderboard has been handled for the first time, with
  -- nothing paid before, and some payout was stored, the event's payouts add up to what the entries
  -- pay whose writes got through, and they stay so when the event comes again, with whatever
  -- leaderboard. An entry whose writes failed is not paid any more.
  pub paid_once :
      (fresh fresh' : ℕ) (writes writes' : ℕ → Writes) (k : ℕ) (raws raws' : List RawEntry)
      (e : Event) (s : Store E L P)
      → (k == 0) ≡ false
      → E.find_one (on_chain_event k) s.events ≡ some e
      → count P (is_payout_of k) s.payouts ≡ 0
      → 1 ≤ count P (is_payout_of k) (finalize_payouts fresh writes k raws s).payouts
      → P.total
          (amount_of k)
          (finalize_payouts fresh' writes' k raws' (finalize_payouts fresh writes k raws s)).payouts
        ≡ pays_each fresh writes raws
  paid_once fresh fresh' writes writes' k raws raws' e s a f unpaid paid =
      rw (second_pays fresh' writes' k raws' (finalize_payouts fresh writes k raws s) paid)
        (first_pays fresh writes k raws e s a f unpaid)
