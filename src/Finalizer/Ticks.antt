-- ===== src/Finalizer/Ticks.antt =====
-- One tick of backend/src/matches/creator-event-finalizer.service.ts: what it counts, and which events
-- it leaves alone.
use paya_dev.Base.{
  ℕ, ◌+◌, ◌≤◌, min, ◌≡◌, refl, ap, ◌∙◌, fun_ext, Bool, true, false, ◌&&◌, List, [], ◌∷◌,
  if◌then◌else◌, arith, Bool-cases, inl, inr, ==_iff, length,
}
use paya_dev.Table.{Table, count}
use paya_dev.Table.Laws.{count-update}
use paya_dev.Finalizer.{
  CreatorEvent, Match, Store, Tally, Outcome, call_threw, save_threw, both_done,
  max_finalize_per_tick, is_event, is_due, lacks_result, finalized_event, all_resolved,
  finalize_one, finalize_each, trigger_finalization,
}

-- The event `k`, finalized.
abbrev pub is_final : ℕ → CreatorEvent → Bool
is_final k e = is_event k e && e.is_finalized

abbrev sum_tally : Tally → ℕ
sum_tally n = n.finalized + n.skipped + n.errors

module _ (E : Table CreatorEvent) (M : Table Match) where
  one_counts :
      (o : Outcome) (e : CreatorEvent) (s : Store E M) (n : Tally)
      → sum_tally (finalize_one E M o e s n).1 ≡ sum_tally n + 1
  unfolding finalize_one
  one_counts call_threw e s n = ground arith
  one_counts save_threw e s n = ground arith
  one_counts both_done e s n = ground arith

  each_counts :
      (o : CreatorEvent → Outcome) (es : List CreatorEvent) (s : Store E M) (n : Tally)
      → sum_tally (finalize_each E M o es s n).1 ≡ sum_tally n + length es
  unfolding finalize_each
  each_counts o [] s n = omega arith
  each_counts o (e ∷ es) s n =
      let r = finalize_one E M (o e) e s n in
      omega (arith, each_counts o es r.0 r.1, one_counts (o e) e s n)

  -- Every event of a tick is counted once, as finalized, skipped or failed, and a tick takes as many
  -- events as are due, up to twenty; one failing event does not keep the others from their turn.
  pub trigger_counts :
      (now : ℕ) (o : CreatorEvent → Outcome) (s : Store E M)
      → let tally = (trigger_finalization E M now o s).1 in
        tally.finalized + tally.skipped + tally.errors
        ≡ min max_finalize_per_tick (count E (is_due now) s.events)
  unfolding trigger_finalization
  trigger_counts now o s =
      each_counts o (E.find_limit max_finalize_per_tick (is_due now) s.events) s
        (record { finalized = 0; skipped = 0; errors = 0 })
      ∙ omega (arith, E.length-find_limit max_finalize_per_tick (is_due now) s.events)

  one_matches :
      (o : Outcome) (e : CreatorEvent) (s : Store E M) (n : Tally)
      → (finalize_one E M o e s n).0.matches ≡ s.matches
  unfolding finalize_one
  one_matches call_threw e s n = ground arith
  one_matches save_threw e s n = ground arith
  one_matches both_done e s n = ground arith

  one_leaves :
      (k : ℕ) (o : Outcome) (e : CreatorEvent) (s : Store E M) (n : Tally)
      → 1 ≤ count M (lacks_result k) s.matches
      → count E (is_final k) (finalize_one E M o e s n).0.events ≡ count E (is_final k) s.events
  one_leaves k o e s n h = elim (Bool-cases (all_resolved E M e.id s.matches)) [
    | inl done ↦ rw (written done) (settled done o)
    | inr open_match ↦ rw (idle open_match) refl
  ]
    where
      after : Outcome → E.Contents
      after call_threw = s.events
      after save_threw = s.events
      after both_done = E.update (is_event e.id) finalized_event s.events

      written :
          all_resolved E M e.id s.matches ≡ true → (finalize_one E M o e s n).0.events ≡ after o
      written d = elim o [
        | call_threw ↦ unfold finalize_one in ground arith
        | save_threw ↦ unfold finalize_one in ground arith
        | both_done ↦ unfold finalize_one in ground arith
      ]

      idle :
          all_resolved E M e.id s.matches ≡ false → (finalize_one E M o e s n).0.events ≡ s.events
      idle d = unfold finalize_one in ground arith

      other : all_resolved E M e.id s.matches ≡ true → k ≡ e.id → ⊥
      other d same =
          let none_lacking : count M (lacks_result e.id) s.matches ≡ 0 =
            (==_iff (count M (lacks_result e.id) s.matches) 0).0 (unfold all_resolved in d) in
          omega (arith, rw same at h, none_lacking)

      unmoved :
          all_resolved E M e.id s.matches ≡ true
          → (r : CreatorEvent)
          → (if is_event e.id r then is_final k (finalized_event r) else is_final k r)
            ≡ is_final k r
      unmoved d r = elim (Bool-cases (is_event e.id r)) [
        | inl here ↦ elim (Bool-cases (is_event k r)) [
          | inl there ↦ absurd (other d (ground (arith, here, there)))
          | inr away ↦ ground arith
        ]
        | inr away ↦ rw away refl
      ]

      settled :
          all_resolved E M e.id s.matches ≡ true
          → (o : Outcome) → count E (is_final k) (after o) ≡ count E (is_final k) s.events
      settled d call_threw = refl
      settled d save_threw = refl
      settled d both_done =
          count-update E (is_final k) (is_event e.id) finalized_event s.events
          ∙ ap (λ (p : CreatorEvent → Bool). count E p s.events) (fun_ext (λ r. unmoved d r))

  each_leaves :
      (k : ℕ) (o : CreatorEvent → Outcome) (es : List CreatorEvent) (s : Store E M) (n : Tally)
      → 1 ≤ count M (lacks_result k) s.matches
      → count E (is_final k) (finalize_each E M o es s n).0.events ≡ count E (is_final k) s.events
  unfolding finalize_each
  each_leaves k o [] s n h = refl
  each_leaves k o (e ∷ es) s n h =
      let r = finalize_one E M (o e) e s n in
      each_leaves k o es r.0 r.1 (rw (one_matches (o e) e s n) h) ∙ one_leaves k (o e) e s n h

  -- An event with a match that has no result is not finalized by a tick, whatever the other events and
  -- the contract do.
  pub trigger_waits_for_results :
      (now k : ℕ) (o : CreatorEvent → Outcome) (s : Store E M)
      → 1 ≤ count M (lacks_result k) s.matches
      → count E (is_final k) (trigger_finalization E M now o s).0.events
        ≡ count E (is_final k) s.events
  unfolding trigger_finalization
  trigger_waits_for_results now k o s h =
      each_leaves k o (E.find_limit max_finalize_per_tick (is_due now) s.events) s
        (record { finalized = 0; skipped = 0; errors = 0 }) h
