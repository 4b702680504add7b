-- ===== src/Idempotency/Exclusion.antt =====
-- Which requests hold a key, over all steps of backend/src/common/idempotency.
use paya_dev.Base.{
  ℕ, ◌≤◌, ◌≡◌, refl, sym, ap, ◌∙◌, false, ◌&&◌, not, none, some, ◌==◌, if◌then◌else◌, arith,
  Bool-cases, inl, inr, ==_iff,
}
use paya_dev.Table.{Table, count}
use paya_dev.Table.Laws.{
  count-insert, count-insert_le_one, count-update_same, count-delete, count-delete-le, count_mono,
  count_split,
}
use paya_dev.Idempotency.{
  Key, Request, World, begin, collided, running, storing, releasing, at_phase, is_key, has_id,
  completed, claimed, is_expired, try_claim, complete, release, cleanup, Step, acquires, collides,
  rechecks, returns, throws, stores, frees, cleans, Reach, here, next,
}
use paya_dev.Idempotency.Holding.{
  Inv, held_id, held_row, moves-Inv, held_update, held_delete, drops-Inv,
}

module _ (K : Table Key) (requests : ℕ → Request) where
  claim_found :
      (now fresh : ℕ) (r : Request) (s t : K.Contents)
      → try_claim K now fresh r s ≡ some t
      → (K.find_one (is_key r.key r.user) s ≡ none) × (t ≡ K.insert (claimed now fresh r) s)
  unfolding try_claim
  claim_found now fresh r s t h = ground arith

  acquires-Inv :
      (w : World K) (r now fresh : ℕ)
      → count K (has_id fresh) w.keys ≡ 0
      → K.find_one (is_key (requests r).key (requests r).user) w.keys ≡ none
      → Inv K requests w
      → Inv K requests (record {
        keys = K.insert (claimed now fresh (requests r)) w.keys;
        phase = at_phase r (running fresh) w.phase;
      })
  acquires-Inv w r now fresh new free v = record {
    unique = λ k u. count-insert_le_one K (is_key k u) row w.keys (v.unique k u) (λ e.
        let a : row.key ≡ k = ground arith in
        let b : row.user ≡ u = ground arith in
        rw (← a, ← b) (K.find_one_none (is_key row.key row.user) w.keys free));
    ids = λ i.
        count-insert_le_one K (has_id i) row w.keys (v.ids i)
          (λ e. let a : fresh ≡ i = ground arith in rw (← a) new);
    held = λ q i h. elim (Bool-cases (q == r)) [
      | inl same ↦
          let eq : q ≡ r = (==_iff q r).0 same in
          ground (arith, count-insert K (held_row i (requests q)) row w.keys, ap requests eq)
      | inr differs ↦
          ground
            (arith, count-insert K (held_row i (requests q)) row w.keys, v.held q i (ground arith))
    ];
    distinct = λ q q' i h h'. elim (Bool-cases (q == r)) [
      | inl a ↦ elim (Bool-cases (q' == r)) [
        | inl b ↦ ground arith
        | inr b ↦ absurd (taken q' (ground arith))
      ]
      | inr a ↦ elim (Bool-cases (q' == r)) [
        | inl b ↦ absurd (taken q (ground arith))
        | inr b ↦ v.distinct q q' i (ground arith) (ground arith)
      ]
    ];
  }
    where
      row : Key
      row = claimed now fresh (requests r)

      -- Nobody holds a row of the new id.
      taken : (q : ℕ) → held_id (w.phase q) ≡ some fresh → ⊥
      taken q h = omega (
        arith,
        new,
        v.held q fresh h,
        count_mono K (held_row fresh (requests q)) (has_id fresh) w.keys (λ x. ground arith),
      )

  cleans-Inv :
      (w : World K) (now : ℕ)
      → count K (λ x. x.in_progress && is_expired now x) w.keys ≡ 0
      → Inv K requests w
      → Inv K requests (record w { keys = cleanup K now w.keys })
  unfolding cleanup
  cleans-Inv w now idle v = record {
    unique =
        λ k u. omega (arith, v.unique k u, count-delete-le K (is_key k u) (is_expired now) w.keys);
    ids = λ i. omega (arith, v.ids i, count-delete-le K (has_id i) (is_expired now) w.keys);
    held = λ r i h. omega (
      arith,
      v.held r i h,
      count-delete K (held_row i (requests r)) (is_expired now) w.keys,
      count_split K (held_row i (requests r)) (is_expired now) w.keys,
      count_mono K (λ x. held_row i (requests r) x && is_expired now x)
          (λ x. x.in_progress && is_expired now x) w.keys (λ x. ground arith),
      count_mono K (λ x. held_row i (requests r) x && not (is_expired now x))
          (λ x. if is_expired now x then false else held_row i (requests r) x) w.keys
          (λ x. ground arith),
    );
    distinct = v.distinct;
  }

  -- No cleanup meets a request that has been in progress for a day.
  abbrev StepIsTimely : {w x : World K} → Step K requests w x → Type 0
  StepIsTimely (acquires r now fresh s b new h) = Unit
  StepIsTimely (collides r now fresh b h) = Unit
  StepIsTimely (rechecks r c) = Unit
  StepIsTimely (returns r i body c) = Unit
  StepIsTimely (throws r i c) = Unit
  StepIsTimely (stores r i status body c) = Unit
  StepIsTimely (frees r i c) = Unit
  StepIsTimely {w} (cleans now) = count K (λ x. x.in_progress && is_expired now x) w.keys ≡ 0

  abbrev pub IsTimely : {w x : World K} → Reach K requests w x → Type 0
  IsTimely here = Unit
  IsTimely (next r st) = IsTimely r × StepIsTimely st

  Step-Inv :
      {w x : World K} (st : Step K requests w x)
      → StepIsTimely st
      → Inv K requests w
      → Inv K requests x
  unfolding complete release
  Step-Inv {w} (acquires r now fresh s b new h) timely v =
      let (free, same) = claim_found now fresh (requests r) w.keys s h in
      rw same (acquires-Inv w r now fresh new free v)
  Step-Inv {w} (collides r now fresh b h) timely v = moves-Inv K requests w r collided (rw b refl) v
  Step-Inv {w} (rechecks r c) timely v = moves-Inv K requests w r _ (rw c refl) v
  Step-Inv {w} (returns r i body c) timely v =
      moves-Inv K requests w r (storing i body) (rw c refl) v
  Step-Inv {w} (throws r i c) timely v = moves-Inv K requests w r (releasing i) (rw c refl) v
  Step-Inv {w} (stores r i status body c) timely v =
      drops-Inv K requests w r i _ _ v (rw c refl) refl
        (λ k u. omega (
          arith,
          count-update_same K (is_key k u) (has_id i) (completed status body) w.keys (λ x. refl),
        ))
        (λ j. omega (
          arith,
          count-update_same K (has_id j) (has_id i) (completed status body) w.keys (λ x. refl),
        ))
        (λ j q ne. held_update K requests i j q (completed status body) w.keys (λ x. refl) ne)
  Step-Inv {w} (frees r i c) timely v =
      drops-Inv K requests w r i _ _ v (rw c refl) refl
        (λ k u. count-delete-le K (is_key k u) (has_id i) w.keys)
        (λ j. count-delete-le K (has_id j) (has_id i) w.keys)
        (λ j q ne. held_delete K requests i j q w.keys ne)
  Step-Inv {w} (cleans now) timely v = cleans-Inv w now timely v

  Reach-Inv :
      {w x : World K}
      → Inv K requests w
      → (reach : Reach K requests w x) → IsTimely reach
      → Inv K requests x
  Reach-Inv v here timely = v
  Reach-Inv v (next r st) (before, timely) = Step-Inv st timely (Reach-Inv v r before)

  -- Before the first request: unique keys and ids, and nobody holds a row.
  pub record Starts (w : World K) : Type 0 where
    pub unique : (k u : ℕ) → count K (is_key k u) w.keys ≤ 1
    pub ids : (i : ℕ) → count K (has_id i) w.keys ≤ 1
    pub begins : (r : ℕ) → w.phase r ≡ begin

  Starts-Inv : (w : World K) → Starts w → Inv K requests w
  Starts-Inv w st = record {
    unique = st.unique;
    ids = st.ids;
    held = λ r i h. absurd (ground (arith, st.begins r));
    distinct = λ r q i h h'. absurd (ground (arith, st.begins r));
  }

  one_key :
      (w : World K) (r q i j : ℕ)
      → Inv K requests w
      → held_id (w.phase r) ≡ some i
      → held_id (w.phase q) ≡ some j
      → (requests r).key ≡ (requests q).key
      → (requests r).user ≡ (requests q).user
      → i ≡ j
  one_key w r q i j v hr hq k u = elim (Bool-cases (i == j)) [
    | inl same ↦ (==_iff i j).0 same
    | inr differs ↦
        let row = is_key (requests r).key (requests r).user in
        absurd (
          omega (
            arith,
            v.unique (requests r).key (requests r).user,
            v.held r i hr,
            v.held q j hq,
            count_split K row (has_id i) w.keys,
            count_mono K (held_row i (requests r)) (λ x. row x && has_id i x) w.keys
                (λ x. ground arith),
            count_mono K (held_row j (requests q)) (λ x. row x && not (has_id i x)) w.keys
                (λ x. ground arith),
          ))
  ]

  -- In every interleaving of inserts, lookups, handlers, completions, releases and cleanups in which no
  -- cleanup meets a request that has been in progress for a day, two requests with the same key and user never both hold the
  -- key: if both are running their handler, storing its body or releasing the key, they are one.
  pub exclusion :
      (w x : World K) (r q i j : ℕ)
      → Starts w
      → (reach : Reach K requests w x) → IsTimely reach
      → held_id (x.phase r) ≡ some i
      → held_id (x.phase q) ≡ some j
      → (requests r).key ≡ (requests q).key
      → (requests r).user ≡ (requests q).user
      → r ≡ q
  exclusion w x r q i j st reach timely hr hq k u =
      let v = Reach-Inv (Starts-Inv w st) reach timely in
      v.distinct r q i hr (hq ∙ ap some (sym (one_key x r q i j v hr hq k u)))
