-- ===== src/Matches/Consistent/Handling.antt =====
-- The handlers of the contract events, one by one, on the tables of events, matches and predictions.
use paya_dev.Base.{
  ℕ, ◌≡◌, refl, Bool, false, ◌||◌, not, none, ◌==◌, is_some, arith, Bool-cases, Option-cases, inl,
  inr,
}
use paya_dev.Entities.{User}
use paya_dev.Table.{Table, count}
use paya_dev.Table.Laws.{count-insert_le_one, count-update_same}
use paya_dev.Matches.{
  Outcome, Event, Match, MatchPrediction, EventCreated, MatchAdded, UserJoined, PredictionSubmitted,
  ResultSubmitted, Store, is_event, is_match, on_chain, on_chain_event, is_for, is_by, number,
  team_of, predicted_outcome_of, graded, with_result,
}
use paya_dev.Matches.Handlers.{
  new_event, new_match, new_prediction, joined, cancelled, create_event, add_match, join_event,
  submit_prediction, submit_result, cancel_event,
}
use paya_dev.Matches.Consistent.{
  is_in, is_row, matches_of, IsConsistent, notify-state, change-IsConsistent,
  insert_match-IsConsistent,
}

module _ {E : Table Event} {M : Table Match} {P : Table MatchPrediction} {U : Table User} where
  pub create_event-IsConsistent :
      (now fresh : ℕ) (notified : Bool) (d : EventCreated) (s : Store E M P U)
      → count E (is_event fresh) s.events ≡ 0
      → count M (is_in fresh) s.matches ≡ 0
      → IsConsistent s
      → IsConsistent (create_event now fresh notified d s).1
  unfolding new_event create_event
  create_event-IsConsistent now fresh notified d s new unused c =
      elim (Bool-cases (d.event_id == 0)) [
        | inl zero_id ↦ rw (create_event, zero_id) c
        | inr some_id ↦ elim (Option-cases (E.find_one (on_chain_event d.event_id) s.events)) [
          | inr (e, found) ↦ rw (create_event, some_id, found) c
          | inl free ↦
              rw (create_event, some_id, free, notify-state)
                (record {
                  ids = λ k.
                      count-insert_le_one E (is_event k) row s.events (c.ids k)
                        (λ e. let same_id : fresh ≡ k = ground arith in rw (← same_id) new);
                  chain_events = λ k.
                      count-insert_le_one E (on_chain_event k) row s.events (c.chain_events k) (λ e.
                        let same_id : d.event_id ≡ k = ground arith in
                        rw (← same_id) (E.find_one_none (on_chain_event d.event_id) s.events free));
                  counts =
                      λ k. ground (arith, c.counts k, E.total_insert (matches_of k) row s.events);
                  match_ids = c.match_ids;
                  prediction_ids = c.prediction_ids;
                  chain_matches = c.chain_matches;
                  single = c.single;
                })
        ]
      ]
    where
      row : Event
      row = new_event now fresh d

  pub cancel_event-IsConsistent :
      (notified : Bool) (k : ℕ) (s : Store E M P U)
      → IsConsistent s
      → IsConsistent (cancel_event notified k s).1
  unfolding cancel_event
  cancel_event-IsConsistent notified k s c = elim (Bool-cases (k == 0)) [
    | inl zero_id ↦ rw (cancel_event, zero_id) c
    | inr some_id ↦ elim (Option-cases (E.find_one (on_chain_event k) s.events)) [
      | inl none_there ↦ rw (cancel_event, some_id, none_there) c
      | inr (e, found) ↦
          rw (cancel_event, some_id, found, notify-state)
            (change-IsConsistent e.id cancelled s (λ x. (refl, refl, refl)) c)
    ]
  ]

  pub join_event-IsConsistent :
      (notified : Bool) (d : UserJoined) (s : Store E M P U)
      → IsConsistent s
      → IsConsistent (join_event notified d s).1
  unfolding join_event
  join_event-IsConsistent notified d s c =
      elim (Bool-cases (d.event_id == 0 || not (is_some d.user_address))) [
        | inl lacking ↦ rw (join_event, lacking) c
        | inr given ↦ elim (Option-cases (E.find_one (on_chain_event d.event_id) s.events)) [
          | inl none_there ↦ rw (join_event, given, none_there) c
          | inr (e, found) ↦
              rw (join_event, given, found, notify-state)
                (change-IsConsistent e.id (joined d.entry_fee_paid e) s (λ x. (refl, refl, refl)) c)
        ]
      ]

  pub add_match-IsConsistent :
      (now fresh : ℕ) (notified : Bool) (d : MatchAdded) (s : Store E M P U)
      → count M (is_match fresh) s.matches ≡ 0
      → IsConsistent s
      → IsConsistent (add_match now fresh notified d s).1
  unfolding new_match add_match
  add_match-IsConsistent now fresh notified d s new c =
      elim (Bool-cases (
        d.match_id == 0
        || d.event_id == 0
        || is_some (M.find_one (on_chain d.match_id) s.matches))) [
          | inl lacking ↦ rw (add_match, lacking) c
          | inr given ↦ elim (Option-cases (E.find_one (on_chain_event d.event_id) s.events)) [
            | inl none_there ↦ rw (add_match, given, none_there) c
            | inr (e, found) ↦ elim (Option-cases (M.find_one (on_chain d.match_id) s.matches)) [
              | inr (m, there) ↦ ground (arith, given, there)
              | inl free ↦
                  rw (add_match, given, found, notify-state)
                    (insert_match-IsConsistent (new_match now fresh e.id d)
                      (on_chain_event d.event_id) e s new refl found free c)
            ]
          ]
        ]

  pub submit_prediction-IsConsistent :
      (fresh : ℕ) (notified : Bool) (d : PredictionSubmitted) (s : Store E M P U)
      → count P (is_row fresh) s.predictions ≡ 0
      → IsConsistent s
      → IsConsistent (submit_prediction fresh notified d s).1
  unfolding submit_prediction
  submit_prediction-IsConsistent fresh notified d s unused c = elim (Option-cases d.predictor) [
    | inl a ↦ rw (submit_prediction, a) c
    | inr (address, a) ↦ elim (Option-cases (M.find_one (on_chain d.match_id) s.matches)) [
      | inl b ↦ rw (submit_prediction, a, b) c
      | inr (m, b) ↦ elim (Option-cases (U.find_one (λ u. u.stellar_address == address) s.users)) [
        | inl e ↦ rw (submit_prediction, a, b, e) c
        | inr (u, e) ↦
            elim (Bool-cases
              (d.match_id == 0 || is_some (P.find_one (is_by m.id u.id) s.predictions))) [
                | inl old ↦ rw (submit_prediction, a, b, e, old) c
                | inr new ↦ elim (Option-cases (predicted_outcome_of d)) [
                  | inl bad ↦ rw (submit_prediction, a, b, e, new, bad) c
                  | inr (o, good) ↦
                      rw (submit_prediction, a, b, e, new, good, notify-state)
                        (record {
                          ids = c.ids;
                          chain_events = c.chain_events;
                          match_ids = c.match_ids;
                          prediction_ids = λ k.
                              count-insert_le_one P (is_row k) (new_prediction fresh m.id u.id o d)
                                s.predictions (c.prediction_ids k)
                                (λ p.
                                  let same_id : fresh ≡ k = ground arith in rw (← same_id) unused);
                          chain_matches = c.chain_matches;
                          counts = c.counts;
                          single = λ k v.
                              count-insert_le_one P (is_by k v) (new_prediction fresh m.id u.id o d)
                                s.predictions (c.single k v)
                                (λ p.
                                  let same_match : m.id ≡ k = ground arith in
                                  let same_user : u.id ≡ v = ground arith in
                                  rw (← same_match, ← same_user)
                                    (P.find_one_none (is_by m.id u.id) s.predictions
                                      (unfound m u new)));
                        })
                ]
              ]
      ]
    ]
  ]
    where
      unfound :
          (m : Match) (u : User)
          → (d.match_id == 0 || is_some (P.find_one (is_by m.id u.id) s.predictions)) ≡ false
          → P.find_one (is_by m.id u.id) s.predictions ≡ none
      unfound m u h = elim (Option-cases (P.find_one (is_by m.id u.id) s.predictions)) [
        | inl e ↦ e
        | inr (p, e) ↦ ground (arith, h, e)
      ]

  -- A result, and the grades that follow, keep ids, events and users.
  result-IsConsistent :
      (now k : ℕ) (w : Outcome) (m : Match) (d : ResultSubmitted) (s : Store E M P U)
      → IsConsistent s
      → IsConsistent (record s { matches = M.update (is_match k) (with_result now d w) s.matches })
  result-IsConsistent now k w m d s c = record {
    ids = c.ids;
    chain_events = c.chain_events;
    match_ids = λ j. omega (
      arith,
      c.match_ids j,
      count-update_same M (is_match j) (is_match k) (with_result now d w) s.matches (λ x. refl),
    );
    prediction_ids = c.prediction_ids;
    chain_matches = λ j. omega (
      arith,
      c.chain_matches j,
      count-update_same M (on_chain j) (is_match k) (with_result now d w) s.matches (λ x. refl),
    );
    counts = λ j. omega (
      arith,
      c.counts j,
      count-update_same M (is_in j) (is_match k) (with_result now d w) s.matches (λ x. refl),
    );
    single = c.single;
  }

  grades-IsConsistent :
      (k : ℕ) (m : Match) (s : Store E M P U)
      → IsConsistent s
      → IsConsistent (record s { predictions = P.update (is_for k) (graded m) s.predictions })
  unfolding graded
  grades-IsConsistent k m s c = record {
    ids = c.ids;
    chain_events = c.chain_events;
    match_ids = c.match_ids;
    prediction_ids = λ j. omega (
      arith,
      c.prediction_ids j,
      count-update_same P (is_row j) (is_for k) (graded m) s.predictions (λ x. refl),
    );
    chain_matches = c.chain_matches;
    counts = c.counts;
    single = λ j u. omega (
      arith,
      c.single j u,
      count-update_same P (is_by j u) (is_for k) (graded m) s.predictions (λ x. refl),
    );
  }

  pub submit_result-IsConsistent :
      (now : ℕ) (saved notified : Bool) (d : ResultSubmitted) (s : Store E M P U)
      → IsConsistent s
      → IsConsistent (submit_result now saved notified d s).1
  unfolding submit_result
  submit_result-IsConsistent now saved notified d s c = elim (Bool-cases (d.match_id == 0)) [
    | inl a ↦ rw (submit_result, a) c
    | inr a ↦ elim (Option-cases (M.find_one (on_chain d.match_id) s.matches)) [
      | inl b ↦ rw (submit_result, a, b) c
      | inr (m, b) ↦ elim (Bool-cases m.result_submitted) [
        | inl e ↦ rw (submit_result, a, b, e) c
        | inr e ↦ elim (Option-cases (team_of (number d.winning_team))) [
          | inl bad ↦ rw (submit_result, a, b, e, bad) c
          | inr (w, good) ↦ elim (Bool-cases saved) [
            | inr lost ↦
                rw (submit_result, a, b, e, good, lost) (result-IsConsistent now m.id w m d s c)
            | inl kept ↦
                rw (submit_result, a, b, e, good, kept, notify-state)
                  (grades-IsConsistent m.id (with_result now d w m) _
                    (result-IsConsistent now m.id w m d s c))
          ]
        ]
      ]
    ]
  ]
