-- ===== src/Matches/Consistent.antt =====
-- What the handlers of the contract events keep of the tables of events, matches and predictions.
pub mod Handling
pub mod Runs
use paya_dev.Base.{
  ℕ, ◌+◌, ◌-◌, ◌≤◌, ◌≡◌, refl, ap, fun_ext, Bool, true, false, none, some, ◌==◌, if◌then◌else◌,
  arith, Bool-cases, inl, inr, weight, ==_iff,
}
use paya_dev.Base.Action.{}
use paya_dev.Entities.{User}
use paya_dev.Table.{Table, count}
use paya_dev.Table.Single.{total_of_one}
use paya_dev.Table.Laws.{count-insert, count-insert_le_one, count-update_same, total-update_same}
use paya_dev.Matches.{
  Event, Match, MatchPrediction, Store, is_event, is_match, on_chain, on_chain_event, is_by,
}
use paya_dev.Matches.Handlers.{counted, notify}

abbrev pub is_in : ℕ → Match → Bool
is_in k m = m.event == k

abbrev pub is_row : ℕ → MatchPrediction → Bool
is_row k p = p.id == k

abbrev pub matches_of : ℕ → Event → ℕ
matches_of k e = if is_event k e then e.match_count else 0

module _ (E : Table Event) where
  -- Writing back a loaded event with one more match adds one to its number, and to no other.
  counted_total :
      (find : Event → Bool) (e : Event) (es : E.Contents)
      → ((k : ℕ) → count E (is_event k) es ≤ 1)
      → E.find_one find es ≡ some e
      → (j : ℕ)
      → E.total (matches_of j) (E.update (is_event e.id) (counted e) es)
        ≡ weight (e.id == j) + E.total (matches_of j) es
  counted_total find e es few found j = elim (Bool-cases (e.id == j)) [
    | inl same ↦
        let at_j : e.id ≡ j = (==_iff e.id j).0 same in
        omega (
          arith,
          E.total_update (matches_of j) (is_event e.id) (counted e) es,
          ap (λ (f : Event → ℕ). E.total f es) (fun_ext (λ x. changes_one at_j x)),
          total_of_one E (λ x. e.match_count + 1) (is_event j) find e es (few j) found same,
          total_of_one E (λ x. x.match_count) (is_event j) find e es (few j) found same,
          ap weight same,
        )
    | inr other ↦ omega (
      arith,
      E.total_update (matches_of j) (is_event e.id) (counted e) es,
      ap (λ (f : Event → ℕ). E.total f es) (fun_ext (λ x. leaves_others other x)),
      ap weight other,
    )
  ]
    where
      changes_one :
          e.id ≡ j
          → (x : Event)
          → (if is_event e.id x then matches_of j (counted e x) else matches_of j x)
            ≡ (if is_event j x then e.match_count + 1 else 0)
      changes_one at_j x = ground (arith, at_j)

      leaves_others :
          (e.id == j) ≡ false
          → (x : Event)
          → (if is_event e.id x then matches_of j (counted e x) else matches_of j x)
            ≡ matches_of j x
      leaves_others other x = ground (arith, other)

module _ {E : Table Event} {M : Table Match} {P : Table MatchPrediction} {U : Table User} where
  -- Row ids and on-chain ids are unique, a user has one prediction on a match, and an event counts its matches.
  pub record IsConsistent (s : Store E M P U) : Type 0 where
    pub ids : (k : ℕ) → count E (is_event k) s.events ≤ 1
    pub match_ids : (k : ℕ) → count M (is_match k) s.matches ≤ 1
    pub prediction_ids : (k : ℕ) → count P (is_row k) s.predictions ≤ 1
    pub chain_events : (k : ℕ) → count E (on_chain_event k) s.events ≤ 1
    pub chain_matches : (k : ℕ) → count M (on_chain k) s.matches ≤ 1
    pub counts : (k : ℕ) → E.total (matches_of k) s.events ≡ count M (is_in k) s.matches
    pub single : (k u : ℕ) → count P (is_by k u) s.predictions ≤ 1

  pub notify-state : (b : Bool) (s : Store E M P U) → (notify b s).1 ≡ s
  notify-state true s = refl
  notify-state false s = refl

  -- A change of event rows that keeps ids and the number of matches.
  pub change-IsConsistent :
      (k : ℕ) (g : Event → Event) (s : Store E M P U)
      → ((e : Event)
          → ((g e).id ≡ e.id)
            × ((g e).on_chain_event_id ≡ e.on_chain_event_id)
            × ((g e).match_count ≡ e.match_count))
      → IsConsistent s
      → IsConsistent (record s { events = E.update (is_event k) g s.events })
  change-IsConsistent k g s h c = record {
    ids = λ j. omega (
      arith,
      c.ids j,
      count-update_same E (is_event j) (is_event k) g s.events (λ e. ground (arith, h e)),
    );
    chain_events = λ j. omega (
      arith,
      c.chain_events j,
      count-update_same E (on_chain_event j) (is_event k) g s.events (λ e. ground (arith, h e)),
    );
    counts = λ j. omega (
      arith,
      c.counts j,
      total-update_same E (matches_of j) (is_event k) g s.events (λ e. ground (arith, h e)),
    );
    match_ids = c.match_ids;
    prediction_ids = c.prediction_ids;
    chain_matches = c.chain_matches;
    single = c.single;
  }

  pub insert_match-IsConsistent :
      (m : Match) (find : Event → Bool) (e : Event) (s : Store E M P U)
      → count M (is_match m.id) s.matches ≡ 0
      → m.event ≡ e.id
      → E.find_one find s.events ≡ some e
      → M.find_one (on_chain m.on_chain_match_id) s.matches ≡ none
      → IsConsistent s
      → IsConsistent (record s {
        matches = M.insert m s.matches;
        events = E.update (is_event e.id) (counted e) s.events;
      })
  insert_match-IsConsistent m find e s new of_e found free c = record {
    ids = λ j. omega (
      arith,
      c.ids j,
      count-update_same E (is_event j) (is_event e.id) (counted e) s.events (λ x. refl),
    );
    chain_events = λ j. omega (
      arith,
      c.chain_events j,
      count-update_same E (on_chain_event j) (is_event e.id) (counted e) s.events (λ x. refl),
    );
    match_ids = λ j.
        count-insert_le_one M (is_match j) m s.matches (c.match_ids j)
          (λ p. let same_id : m.id ≡ j = ground arith in rw (← same_id) new);
    prediction_ids = c.prediction_ids;
    chain_matches = λ j. count-insert_le_one M (on_chain j) m s.matches (c.chain_matches j) (λ p.
        let same_id : m.on_chain_match_id ≡ j = ground arith in
        rw (← same_id) (M.find_one_none (on_chain m.on_chain_match_id) s.matches free));
    counts = λ j. ground (
      arith,
      c.counts j,
      count-insert M (is_in j) m s.matches,
      counted_total E find e s.events c.ids found j,
    );
    single = c.single;
  }
