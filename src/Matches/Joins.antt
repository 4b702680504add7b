-- ===== src/Matches/Joins.antt =====
-- A UserJoinedEvent that is retried, as the indexer retries the events whose handlers threw.
use paya_dev.Base.{
  ℕ, zero, suc, ◌+◌, ◌≤◌, ◌<◌, ◌≡◌, refl, Bool, true, false, ◌&&◌, ◌||◌, not, Option, none, some,
  ◌==◌, if◌then◌else◌, is_some, arith, Bool-cases, Option-cases, inl, inr, ==_iff, ==_refl,
}
use paya_dev.Base.Action.{Result, ok, err}
use paya_dev.Entities.{User}
use paya_dev.Indexer.{ContractEvent, max_retries, retry_one}
use paya_dev.Indexer
use paya_dev.Table.{Table, count}
use paya_dev.Table.Laws.{count-update_same, count_exclusive, count_mono}
use paya_dev.Table.Single.{total_of_one, total-update_to}
use paya_dev.Matches.{
  Event, Match, MatchPrediction, UserJoined, Error, Store, is_event, on_chain_event,
  notification_failed, save_failed,
}
use paya_dev.Matches.Handlers.{join_event, joined}

-- The message of what a handler throws.
abbrev pub message_of : Result Error (Unit {0}) → Option ℕ
message_of (ok _) = none
message_of (err notification_failed) = some 1
message_of (err save_failed) = some 2

abbrev pub participants_of : ℕ → Event → ℕ
participants_of k e = if is_event k e then e.participant_count else 0

abbrev pub is_valid : UserJoined → Bool
is_valid d = not (d.event_id == 0 || not (is_some d.user_address))

-- The event with an on-chain id is the row `i`, and no other.
pub record Stands (E : Table Event) (k i : ℕ) (es : E.Contents) : Type 0 where
  pub one_row : count E (is_event i) es ≤ 1
  pub one_chain : count E (on_chain_event k) es ≤ 1
  pub there : 1 ≤ count E (λ e. on_chain_event k e && is_event i e) es

module _ (E : Table Event) where
  found-Stands :
      (k i : ℕ) (e : Event) (es : E.Contents)
      → Stands E k i es
      → E.find_one (on_chain_event k) es ≡ some e
      → e.id ≡ i
  found-Stands k i e es st found = elim (Bool-cases (is_event i e)) [
    | inl h ↦ (==_iff e.id i).0 h
    | inr h ↦
        let passes = E.find_one_passes (on_chain_event k) es e found in
        let none_there =
          count_exclusive E (is_event i) (on_chain_event k) (on_chain_event k) e es st.one_chain
            found passes h in
        omega (arith, none_there, st.there)
  ]

  joined-Stands :
      (k i j fee : ℕ) (e : Event) (es : E.Contents)
      → Stands E k i es
      → Stands E k i (E.update (is_event j) (joined fee e) es)
  joined-Stands k i j fee e es st = record {
    one_row = omega (
      arith,
      st.one_row,
      count-update_same E (is_event i) (is_event j) (joined fee e) es (λ x. refl),
    );
    one_chain = omega (
      arith,
      st.one_chain,
      count-update_same E (on_chain_event k) (is_event j) (joined fee e) es (λ x. refl),
    );
    there = omega (
      arith,
      st.there,
      count-update_same E (λ x. on_chain_event k x && is_event i x) (is_event j) (joined fee e) es
          (λ x. refl),
    );
  }

  joined_total :
      (k i fee : ℕ) (e : Event) (es : E.Contents)
      → Stands E k i es
      → E.find_one (on_chain_event k) es ≡ some e
      → is_event i e ≡ true
      → E.total (participants_of i) (E.update (is_event i) (joined fee e) es)
        ≡ 1 + E.total (participants_of i) es
  joined_total k i fee e es st found here = omega (
    arith,
    total_of_one E (λ x. x.participant_count) (is_event i) (on_chain_event k) e es st.one_row found
        here,
    total-update_to E (λ x. x.participant_count) (e.participant_count + 1) (is_event i)
        (on_chain_event k) e (joined fee e) es st.one_row found here (λ x h. (h, refl)),
  )

module _ {E : Table Event} {M : Table Match} {P : Table MatchPrediction} {U : Table User} where
  -- What `processEventByType` runs for the event, where the notification succeeds or not.
  pub process_join : Bool → ℕ → UserJoined → Store E M P U → Option ℕ × Store E M P U
  unfolding join_event
  process_join notified event_type d s = let (r, s') = join_event notified d s in (message_of r, s')

  -- A join whose notification fails, of a row that stands.
  joins :
      (t : ℕ) (d : UserJoined) (e : Event) (s : Store E M P U)
      → is_valid d ≡ true
      → E.find_one (on_chain_event d.event_id) s.events ≡ some e
      → process_join false t d s ≡ (
        some 1,
        record s { events = E.update (is_event e.id) (joined d.entry_fee_paid e) s.events },
      )
  unfolding process_join join_event
  joins t d e s valid found =
      let given : (d.event_id == 0 || not (is_some d.user_address)) ≡ false =
        ground (arith, valid) in
      rw (given, found) refl

  -- A join whose notification fails adds one participant, and the row stands still.
  join_adds :
      (t : ℕ) (d : UserJoined) (i : ℕ) (s : Store E M P U)
      → is_valid d ≡ true
      → Stands E d.event_id i s.events
      → ((process_join false t d s).0 ≡ some 1)
        × (E.total (participants_of i) (process_join false t d s).1.events
            ≡ 1 + E.total (participants_of i) s.events)
        × Stands E d.event_id i (process_join false t d s).1.events
  join_adds t d i s valid st =
      elim (Option-cases (E.find_one (on_chain_event d.event_id) s.events)) [
        | inl free ↦
            let none_there = E.find_one_none (on_chain_event d.event_id) s.events free in
            ground (
              arith,
              none_there,
              st.there,
              count_mono E (λ e. on_chain_event d.event_id e && is_event i e)
                  (on_chain_event d.event_id) s.events (λ x. ground arith),
            )
        | inr (e, found) ↦
            let same = found-Stands E d.event_id i e s.events st found in
            rw (joins t d e s valid found) (
              refl,
              rw same (
                  joined_total E d.event_id i d.entry_fee_paid e s.events st found
                    (rw same (==_refl i))),
              joined-Stands E d.event_id i e.id d.entry_fee_paid e s.events st,
            )
      ]

  -- The retries of one stuck event.
  pub retry_times :
      {C : Table (ContractEvent UserJoined)}
      → ℕ
      → ContractEvent UserJoined
      → ℕ
      → Indexer.Store C (Store E M P U)
      → Indexer.Store C (Store E M P U)
  retry_times {C} now x zero s = s
  retry_times {C} now x (suc n) s =
      retry_one C (process_join false) now true x (retry_times now x n s)

  retries-Stands :
      {C : Table (ContractEvent UserJoined)} (now : ℕ) (x : ContractEvent UserJoined) (n i : ℕ)
      (s : Indexer.Store C (Store E M P U))
      → x.retry_count < max_retries
      → is_valid x.payload ≡ true
      → Stands E x.payload.event_id i s.world.events
      → (E.total (participants_of i) (retry_times now x n s).world.events
          ≡ n + E.total (participants_of i) s.world.events)
        × Stands E x.payload.event_id i (retry_times now x n s).world.events
  unfolding retry_times
  retries-Stands now x zero i s left valid st = (omega arith, st)
  retries-Stands {C} now x (suc n) i s left valid st =
      let (sum, st') = retries-Stands now x n i s left valid st in
      let (threw, one_more, st'') =
        join_adds x.event_type x.payload i (retry_times now x n s).world valid st' in
      rw (stays_stuck (retry_times now x n s) threw) (omega (arith, sum, one_more), st'')
    where
      stays_stuck :
          (t : Indexer.Store C (Store E M P U))
          → (process_join false x.event_type x.payload t.world).0 ≡ some 1
          → retry_one C (process_join false) now true x t
            ≡ record t { world = (process_join false x.event_type x.payload t.world).1 }
      stays_stuck t threw = unfold retry_one in ground (arith, left)

  -- Joining is not idempotent: while the notification of a stuck UserJoinedEvent with retries left
  -- fails, `n` retries of it count one user as `n` participants more, where the event stands in one
  -- row.
  pub retries_join_again :
      (C : Table (ContractEvent UserJoined)) (now : ℕ) (x : ContractEvent UserJoined) (n i : ℕ)
      (s : Indexer.Store C (Store E M P U))
      → x.retry_count < max_retries
      → is_valid x.payload ≡ true
      → Stands E x.payload.event_id i s.world.events
      → E.total (participants_of i) (retry_times now x n s).world.events
        ≡ n + E.total (participants_of i) s.world.events
  retries_join_again C now x n i s left valid st = (retries-Stands now x n i s left valid st).0
