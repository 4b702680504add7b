-- ===== src/Idempotency/Holding.antt =====
-- What the requests in their handlers hold (backend/src/common/idempotency), and changes of phase.
use paya_dev.Base.{
  ℕ, ◌≤◌, ◌≡◌, ◌≢◌, refl, sym, ap, ◌∙◌, fun_ext, Bool, ◌&&◌, Option, none, some, ◌==◌, arith,
  Bool-cases, inl, inr, ==_iff,
}
use paya_dev.Table.{Table, count}
use paya_dev.Table.Laws.{count-update, count-delete}
use paya_dev.Idempotency.{
  Key, Request, World, Phase, begin, collided, running, storing, releasing, answered, at_phase,
  is_key, has_id,
}

-- The row that a request holds, from its insert until its body is stored or its row released.
abbrev pub held_id : Phase → Option ℕ
held_id (running i) = some i
held_id (storing i _) = some i
held_id (releasing i) = some i
held_id begin = none
held_id collided = none
held_id (answered _) = none

abbrev pub held_row : ℕ → Request → Key → Bool
held_row i r x = has_id i x && (is_key r.key r.user x && x.in_progress)

module _ (K : Table Key) (requests : ℕ → Request) where
  -- Keys and row ids are unique; a request that holds a row finds it in progress under its own key
  -- and user; and no two requests hold one row.
  pub record Inv (w : World K) : Type 0 where
    pub unique : (k u : ℕ) → count K (is_key k u) w.keys ≤ 1
    pub ids : (i : ℕ) → count K (has_id i) w.keys ≤ 1
    pub held :
        (r i : ℕ) → held_id (w.phase r) ≡ some i → 1 ≤ count K (held_row i (requests r)) w.keys
    pub distinct : (r q i : ℕ) → held_id (w.phase r) ≡ some i → held_id (w.phase q) ≡ some i → r ≡ q

  -- A change of phase that keeps what is held.
  module _ (w : World K) (r : ℕ) (p : Phase) where
    kept :
        held_id p ≡ held_id (w.phase r)
        → (q : ℕ) → held_id (at_phase r p w.phase q) ≡ held_id (w.phase q)
    kept e q = elim (Bool-cases (q == r)) [
      | inl h ↦ let eq : q ≡ r = (==_iff q r).0 h in rw h (rw eq e)
      | inr h ↦ rw h refl
    ]

    pub moves-Inv :
        held_id p ≡ held_id (w.phase r) → Inv w → Inv (record w { phase = at_phase r p w.phase })
    moves-Inv e v = record {
      unique = v.unique;
      ids = v.ids;
      held = λ q i h. v.held q i (sym (kept e q) ∙ h);
      distinct = λ q q' i h h'. v.distinct q q' i (sym (kept e q) ∙ h) (sym (kept e q') ∙ h');
    }

    -- A request that lets its row go: every other one still holds its own.
    other :
        held_id p ≡ none
        → (q i : ℕ) → held_id (at_phase r p w.phase q) ≡ some i
        → (q ≢ r) × (held_id (w.phase q) ≡ some i)
    other e q i h = elim (Bool-cases (q == r)) [
      | inl same ↦ absurd (ground arith)
      | inr differs ↦ (ground arith, ground arith)
    ]

  pub held_update :
      (i j : ℕ) (r : Request) (g : Key → Key) (s : K.Contents)
      → ((x : Key) → (g x).id ≡ x.id)
      → i ≢ j
      → count K (held_row j r) (K.update (has_id i) g s) ≡ count K (held_row j r) s
  held_update i j r g s h ne =
      count-update K (held_row j r) (has_id i) g s
      ∙ ap (λ (f : Key → ℕ). K.total f s) (fun_ext (λ x. ground (arith, h x)))

  pub held_delete :
      (i j : ℕ) (r : Request) (s : K.Contents)
      → i ≢ j
      → count K (held_row j r) (K.delete (has_id i) s) ≡ count K (held_row j r) s
  held_delete i j r s ne =
      count-delete K (held_row j r) (has_id i) s
      ∙ ap (λ (f : Key → ℕ). K.total f s) (fun_ext (λ x. ground arith))

  -- A request that holds a row lets it go, and the table keeps what the others hold.
  pub drops-Inv :
      (w : World K) (r i : ℕ) (p : Phase) (s : K.Contents)
      → Inv w
      → held_id (w.phase r) ≡ some i
      → held_id p ≡ none
      → ((k u : ℕ) → count K (is_key k u) s ≤ count K (is_key k u) w.keys)
      → ((j : ℕ) → count K (has_id j) s ≤ count K (has_id j) w.keys)
      → ((j : ℕ) (q : Request) → i ≢ j → count K (held_row j q) s ≡ count K (held_row j q) w.keys)
      → Inv (record { keys = s; phase = at_phase r p w.phase })
  drops-Inv w r i p s v hr hp keys ids rows = record {
    unique = λ k u. omega (arith, v.unique k u, keys k u);
    ids = λ j. omega (arith, v.ids j, ids j);
    held = λ q j h.
        let (ne, hq) = other w r p hp q j h in
        omega (
          arith,
          rows j (requests q) (λ e. ne (v.distinct q r j hq (hr ∙ ap some e))),
          v.held q j hq,
        );
    distinct = λ q q' j h h'. v.distinct q q' j (other w r p hp q j h).1 (other w r p hp q' j h').1;
  }
