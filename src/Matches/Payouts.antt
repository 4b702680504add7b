-- ===== src/Matches/Payouts.antt =====
-- `handleEventFinalized` and `processLeaderboardEntry` of backend/src/indexer/indexer.service.ts: the
-- final ranks and the payouts of an event. How far the writes of an entry get is an argument. Accuracies
-- are in hundredths of a percent.
pub mod Paying
use paya_dev.Base.{
  ℕ, suc, ◌+◌, ◌*◌, ◌/◌, Bool, true, false, ◌&&◌, Option, none, some, List, [], ◌∷◌, ltb, ◌==◌,
  if◌then◌else◌, is_some,
}
use paya_dev.Table.{Table, count}
use paya_dev.Table.Laws.{}
use paya_dev.Matches.{Event, is_event, on_chain_event}

-- `CreatorEventLeaderboardEntry`; the event is its on-chain id.
pub record LeaderboardEntry : Type 0 where
  pub id : ℕ
  pub event_id : ℕ
  pub user_address : ℕ
  pub rank : ℕ
  pub total_predictions : ℕ
  pub correct_predictions : ℕ
  pub accuracy_percentage : ℕ
  pub is_winner : Bool

-- `CreatorEventPayout`
pub record Payout : Type 0 where
  pub id : ℕ
  pub event_id : ℕ
  pub user_address : ℕ
  pub payout_amount_stroops : ℕ
  pub is_claimed : Bool
  pub leaderboard_entry_id : ℕ

-- An entry of the event's leaderboard, as it is read.
pub record RawEntry : Type 0 where
  pub address : Option ℕ
  pub rank : Option ℕ
  pub payout_amount : ℕ
  pub total_predictions : ℕ
  pub correct_predictions : ℕ

-- How far the writes of an entry get before one throws.
pub data Writes : Type 0 where
  none_written entry_written both_written : Writes

pub record Store (E : Table Event) (L : Table LeaderboardEntry) (P : Table Payout) : Type 0 where
  pub events : E.Contents
  pub entries : L.Contents
  pub payouts : P.Contents

abbrev pub is_entry_of : ℕ → ℕ → LeaderboardEntry → Bool
is_entry_of k a e = e.event_id == k && e.user_address == a

abbrev pub has_entry_id : ℕ → LeaderboardEntry → Bool
has_entry_id i e = e.id == i

-- `where: { event_id }`
abbrev pub is_payout_of : ℕ → Payout → Bool
is_payout_of k p = p.event_id == k

-- `Math.round((correct / total) * 10000)`
pub accuracy : ℕ → ℕ → ℕ
accuracy total correct = if total == 0 then 0 else (20000 * correct + total) / (2 * total)

-- The fields that an entry sets.
abbrev pub ranked : ℕ → RawEntry → LeaderboardEntry → LeaderboardEntry
ranked rank raw e = record e {
  rank = rank;
  total_predictions = raw.total_predictions;
  correct_predictions = raw.correct_predictions;
  accuracy_percentage = accuracy raw.total_predictions raw.correct_predictions;
  is_winner = ltb 0 raw.payout_amount;
}

module _ (L : Table LeaderboardEntry) where
  -- The upsert of the entry; it gives the id of the row.
  unfoldable pub save_entry : ℕ → ℕ → ℕ → ℕ → RawEntry → L.Contents → ℕ × L.Contents
  save_entry fresh event_id address rank raw s =
      elim (L.find_one (is_entry_of event_id address) s) [
        | none ↦
            let blank : LeaderboardEntry = record {
              id = fresh;
              event_id = event_id;
              user_address = address;
              rank = 0;
              total_predictions = 0;
              correct_predictions = 0;
              accuracy_percentage = 0;
              is_winner = false;
            } in
            (fresh, L.insert (ranked rank raw blank) s)
        | some e ↦ (e.id, L.update (has_entry_id e.id) (ranked rank raw) s)
      ]

module _ {E : Table Event} {L : Table LeaderboardEntry} {P : Table Payout} where
  -- `processLeaderboardEntry`; new rows get the id `fresh`.
  unfoldable pub process_entry : ℕ → Writes → ℕ → RawEntry → Store E L P → Store E L P
  unfolding save_entry
  process_entry fresh writes event_id raw s = elim raw.address [
    | none ↦ s
    | some address ↦ elim raw.rank [
      | none ↦ s
      | some rank ↦
          let (entry_id, entries) = save_entry L fresh event_id address rank raw s.entries in
          let payout : Payout = record {
            id = fresh;
            event_id = event_id;
            user_address = address;
            payout_amount_stroops = raw.payout_amount;
            is_claimed = false;
            leaderboard_entry_id = entry_id;
          } in
          elim writes [
            | none_written ↦ s
            | entry_written ↦ record s { entries = entries }
            | both_written ↦ record s { entries = entries; payouts = P.insert payout s.payouts }
          ]
    ]
  ]

  -- The loop over the leaderboard; what an entry throws is only logged.
  unfoldable pub process_each : ℕ → (ℕ → Writes) → ℕ → List RawEntry → Store E L P → Store E L P
  unfolding process_entry
  process_each fresh writes event_id [] s = s
  process_each fresh writes event_id (raw ∷ raws) s =
      process_each (suc fresh) writes event_id raws
        (process_entry fresh (writes fresh) event_id raw s)

  -- `handleEventFinalized`
  unfoldable pub finalize_payouts : ℕ → (ℕ → Writes) → ℕ → List RawEntry → Store E L P → Store E L P
  unfolding process_each
  finalize_payouts fresh writes event_id leaderboard s =
      if event_id == 0 then s else elim (E.find_one (on_chain_event event_id) s.events) [
        | none ↦ s
        | some e ↦
            if ltb 0 (count P (is_payout_of event_id) s.payouts)
            then s
            else process_each fresh writes event_id leaderboard (
                if e.is_finalized then s else record s {
                  events =
                      E.update (is_event e.id) (λ x. record x { is_finalized = true }) s.events;
                })
      ]

-- What an entry pays, if its writes get through.
abbrev pub pays : Writes → RawEntry → ℕ
pays none_written raw = 0
pays entry_written raw = 0
pays both_written raw = if is_some raw.address && is_some raw.rank then raw.payout_amount else 0

pub pays_each : ℕ → (ℕ → Writes) → List RawEntry → ℕ
pays_each fresh writes [] = 0
pays_each fresh writes (raw ∷ raws) = pays (writes fresh) raw + pays_each (suc fresh) writes raws
