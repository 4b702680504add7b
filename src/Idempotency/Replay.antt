-- ===== src/Idempotency/Replay.antt =====
-- What later requests with the same key and user get, once one has claimed it.
use paya_dev.Base.{
  ℕ, ◌≤◌, ◌≡◌, refl, ap, ◌∙◌, Bool, true, false, ◌&&◌, not, Option, none, some, ◌==◌, if◌then◌else◌,
  arith, Option-cases, inl, inr, weight, ==_iff,
}
use paya_dev.Table.{Table, count}
use paya_dev.Table.Laws.{
  count-insert, count-update, count-update_same, count-delete, count_mono, found-count,
}
use paya_dev.Idempotency.{
  Key, Request, other_body, in_flight, replayed, is_key, has_id, completed, claimed,
  answer_existing, try_claim, complete, release,
}

abbrev is_body : Option ℕ → ℕ → Bool
is_body none body = false
is_body (some b) body = b == body

-- A row that still runs, and one whose handler has returned `body`.
abbrev is_running : ℕ → Key → Bool
is_running hash x = x.request_hash == hash && x.in_progress

abbrev is_done : ℕ → ℕ → Key → Bool
is_done hash body x = x.request_hash == hash && (not x.in_progress && is_body x.response_body body)

answer-running :
    (later : Request) (hash : ℕ) (x : Key)
    → is_running hash x ≡ true
    → answer_existing later (some x)
      ≡ (if hash == later.request_hash then in_flight else other_body)
unfolding answer_existing
answer-running later hash x h = ground arith

body_eq : (o : Option ℕ) (body : ℕ) → is_body o body ≡ true → o ≡ some body
body_eq none body h = cc
body_eq (some b) body h = ap some ((==_iff b body).0 h)

answer-done :
    (later : Request) (hash body : ℕ) (x : Key)
    → is_done hash body x ≡ true
    → answer_existing later (some x)
      ≡ (if hash == later.request_hash then replayed (some body) else other_body)
unfolding answer_existing
answer-done later hash body x h = ground (arith, body_eq x.response_body body)

module _ (K : Table Key) where
  claimed_by :
      (now fresh : ℕ) (r : Request) (s t : K.Contents)
      → try_claim K now fresh r s ≡ some t
      → (count K (is_key r.key r.user) s ≡ 0) × (t ≡ K.insert (claimed now fresh r) s)
  unfolding try_claim
  claimed_by now fresh r s t h = elim (Option-cases (K.find_one (is_key r.key r.user) s)) [
    | inl e ↦ (K.find_one_none (is_key r.key r.user) s e, ground arith)
    | inr (x, e) ↦ ground arith
  ]

  -- Where every row of a key passes a test and there is one, a claim collides and finds such a row.
  collides_with :
      (now fresh : ℕ) (later : Request) (good : Key → Bool) (s : K.Contents)
      → count K (λ x. is_key later.key later.user x && not (good x)) s ≡ 0
      → 1 ≤ count K (is_key later.key later.user) s
      → (try_claim K now fresh later s ≡ none)
        × ((x : Key) × (K.find_one (is_key later.key later.user) s ≡ some x) × (good x ≡ true))
  unfolding try_claim
  collides_with now fresh later good s all one = elim (Option-cases (K.find_one mine s)) [
    | inl e ↦ absurd (omega (arith, one, K.find_one_none mine s e))
    | inr (x, e) ↦ (
      ground arith,
      (
        x,
        e,
        ground (
          arith,
          K.find_one_passes mine s x e,
          K.find_one_stands mine s x (λ y. weight (mine y && not (good y))) e,
        ),
      ),
    )
  ]
    where
      mine : Key → Bool
      mine = is_key later.key later.user

  -- Once a request has claimed its key, a later one with the same key and user collides. While the
  -- handler runs it is told that the key is in progress; after the handler's body is stored it is
  -- given that body; and if its hash differs it is refused, in either state.
  pub later_answers :
      (now fresh then' fresh' status body : ℕ) (r later : Request) (s t : K.Contents)
      → try_claim K now fresh r s ≡ some t
      → later.key ≡ r.key
      → later.user ≡ r.user
      → let mine = is_key later.key later.user in
        let done = complete K fresh status body t in
        (try_claim K then' fresh' later t ≡ none)
        × (answer_existing later (K.find_one mine t)
            ≡ (if r.request_hash == later.request_hash then in_flight else other_body))
        × (try_claim K then' fresh' later done ≡ none)
        × (answer_existing later (K.find_one mine done)
            ≡ (if r.request_hash == later.request_hash then replayed (some body) else other_body))
  unfolding complete
  later_answers now fresh then' fresh' status body r later s t h ek eu =
      let (c, (x, f, g)) =
        collides_with then' fresh' later (is_running r.request_hash) t running one in
      let (c', (x', f', g')) =
        collides_with then' fresh' later (is_done r.request_hash body)
          (K.update (has_id fresh) (completed status body) t) done one' in
      (
        c,
        rw f (answer-running later r.request_hash x g),
        c',
        rw f' (answer-done later r.request_hash body x' g'),
      )
    where
      mine : Key → Bool
      mine = is_key later.key later.user

      row : Key
      row = claimed now fresh r

      free : count K mine s ≡ 0
      free = rw (ek, eu) (claimed_by now fresh r s t h).0

      same : t ≡ K.insert row s
      same = (claimed_by now fresh r s t h).1

      one : 1 ≤ count K mine t
      one = rw same (ground (arith, count-insert K mine row s))

      running : count K (λ x. mine x && not (is_running r.request_hash x)) t ≡ 0
      running = rw same (
          ground (
            arith,
            free,
            count-insert K (λ x. mine x && not (is_running r.request_hash x)) row s,
            count_mono K (λ x. mine x && not (is_running r.request_hash x)) mine s
                (λ x. ground arith),
          ))

      one' : 1 ≤ count K mine (K.update (has_id fresh) (completed status body) t)
      one' = omega (
        arith,
        one,
        count-update_same K mine (has_id fresh) (completed status body) t (λ x. refl),
      )

      open_row : Key → Bool
      open_row x =
          if has_id fresh x
          then mine x && not (is_done r.request_hash body (completed status body x))
          else mine x && not (is_done r.request_hash body x)

      done :
          count K
            (λ x. mine x && not (is_done r.request_hash body x))
            (K.update (has_id fresh) (completed status body) t)
          ≡ 0
      done =
          count-update K (λ x. mine x && not (is_done r.request_hash body x)) (has_id fresh)
            (completed status body) t
          ∙ rw same (
              ground (
                arith,
                free,
                count-insert K open_row row s,
                count_mono K open_row mine s (λ x. ground arith),
              ))

  -- After a handler that threw the key is free: the same request can claim it again.
  pub release_frees :
      (now fresh then' fresh' : ℕ) (r : Request) (s t : K.Contents)
      → try_claim K now fresh r s ≡ some t
      → try_claim K then' fresh' r (release K fresh t)
        ≡ some (K.insert (claimed then' fresh' r) (release K fresh t))
  unfolding release
  release_frees now fresh then' fresh' r s t h =
      elim (Option-cases (K.find_one mine (K.delete (has_id fresh) t))) [
        | inl e ↦ unfold try_claim in ground arith
        | inr (x, e) ↦ absurd (
            omega (
              arith,
              none_left,
              found-count K mine mine (K.delete (has_id fresh) t) x e
                  (K.find_one_passes mine (K.delete (has_id fresh) t) x e),
            ))
      ]
    where
      mine : Key → Bool
      mine = is_key r.key r.user

      row : Key
      row = claimed now fresh r

      left : Key → Bool
      left x = if has_id fresh x then false else mine x

      none_left : count K mine (K.delete (has_id fresh) t) ≡ 0
      none_left =
          count-delete K mine (has_id fresh) t
          ∙ rw ((claimed_by now fresh r s t h).1) (
              ground (
                arith,
                (claimed_by now fresh r s t h).0,
                count-insert K left row s,
                count_mono K left mine s (λ x. ground arith),
              ))
