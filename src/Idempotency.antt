-- ===== src/Idempotency.antt =====
-- backend/src/common/idempotency: the service that claims keys in a table with a unique index on key
-- and user, and the interceptor that runs a handler once for a key. Requests interleave at each
-- access to the database; `Step` is one such access by one request. The check of the header, before
-- the first access, is left out.
pub mod Holding
pub mod Exclusion
pub mod Replay
use paya_dev.Base.{
  ℕ, ◌-◌, ◌≡◌, Bool, true, false, ◌&&◌, not, Option, none, some, ltb, ◌==◌, if◌then◌else◌,
}
use paya_dev.Table.{Table, count}

-- `IdempotencyKey`
pub record Key : Type 0 where
  pub id : ℕ
  pub key : ℕ
  pub user : ℕ
  pub request_hash : ℕ
  pub status_code : Option ℕ
  pub response_body : Option ℕ
  pub in_progress : Bool
  pub created_at : ℕ

-- A request: the header, the user, and the hash of its method, URL and body.
pub record Request : Type 0 where
  pub key : ℕ
  pub user : ℕ
  pub request_hash : ℕ

pub data Answer : Type 0 where
  other_body : Answer  -- UnprocessableEntityException
  in_flight : Answer  -- ConflictException
  vanished : Answer  -- the unique violation, thrown again
  replayed : Option ℕ → Answer  -- the stored body
  served : ℕ → Answer  -- the handler's own body
  handler_threw : Answer

-- The unique index, `where: { key, userId }`
abbrev pub is_key : ℕ → ℕ → Key → Bool
is_key k u x = x.key == k && x.user == u

abbrev pub has_id : ℕ → Key → Bool
has_id i x = x.id == i

abbrev pub completed : ℕ → ℕ → Key → Key
completed status body x = record x {
  status_code = some status;
  response_body = some body;
  in_progress = false;
}

-- `CLEANUP_AGE_MS`
abbrev pub cleanup_age : ℕ
cleanup_age = 86400000

abbrev pub is_expired : ℕ → Key → Bool
is_expired now x = ltb x.created_at (now - cleanup_age)

abbrev pub claimed : ℕ → ℕ → Request → Key
claimed now fresh r = record {
  id = fresh;
  key = r.key;
  user = r.user;
  request_hash = r.request_hash;
  status_code = none;
  response_body = none;
  in_progress = true;
  created_at = now;
}

-- What the interceptor answers where the key was not acquired and `findOneBy` gives this.
pub answer_existing : Request → Option Key → Answer
answer_existing r none = vanished
answer_existing r (some x) =
    if not (x.request_hash == r.request_hash)
    then other_body
    else if x.in_progress
    then in_flight
    else replayed x.response_body

module _ (K : Table Key) where
  -- The insert of `acquire`: `none` is the unique violation.
  unfoldable pub try_claim : ℕ → ℕ → Request → K.Contents → Option K.Contents
  try_claim now fresh r s = elim (K.find_one (is_key r.key r.user) s) [
    | none ↦ some (K.insert (claimed now fresh r) s)
    | some _ ↦ none
  ]

  pub complete : ℕ → ℕ → ℕ → K.Contents → K.Contents
  complete i status body s = K.update (has_id i) (completed status body) s

  pub release : ℕ → K.Contents → K.Contents
  release i s = K.delete (has_id i) s

  pub cleanup : ℕ → K.Contents → K.Contents
  cleanup now s = K.delete (is_expired now) s

-- Where a request stands: before its insert; after a violation; with the handler running under the
-- row `i`; with the handler's body to be stored; with the row to be released; answered.
pub data Phase : Type 0 where
  begin collided : Phase
  running : ℕ → Phase
  storing : ℕ → ℕ → Phase
  releasing : ℕ → Phase
  answered : Answer → Phase

pub record World (K : Table Key) : Type 0 where
  pub keys : K.Contents
  pub phase : ℕ → Phase

abbrev pub at_phase : ℕ → Phase → (ℕ → Phase) → ℕ → Phase
at_phase r p f q = if q == r then p else f q

-- One access to the database, or one end of a handler. `requests` gives each request its content.
pub data Step (K : Table Key) (requests : ℕ → Request) (w : World K) : World K → Type 0 where
  -- The insert, under a row id that is not in use.
  acquires :
      (r now fresh : ℕ) (s : K.Contents)
      → w.phase r ≡ begin
      → count K (has_id fresh) w.keys ≡ 0
      → try_claim K now fresh (requests r) w.keys ≡ some s
      → Step K requests w (record { keys = s; phase = at_phase r (running fresh) w.phase })
  collides :
      (r now fresh : ℕ)
      → w.phase r ≡ begin
      → try_claim K now fresh (requests r) w.keys ≡ none
      → Step K requests w (record w { phase = at_phase r collided w.phase })
  -- The lookup after a violation, and the answer that it gives.
  rechecks :
      (r : ℕ)
      → w.phase r ≡ collided
      → Step K requests w (record w {
        phase =
            at_phase r
              (answered (
                answer_existing
                  (requests r)
                  (K.find_one (is_key (requests r).key (requests r).user) w.keys)))
              w.phase;
      })
  returns :
      (r i body : ℕ)
      → w.phase r ≡ running i
      → Step K requests w (record w { phase = at_phase r (storing i body) w.phase })
  throws :
      (r i : ℕ)
      → w.phase r ≡ running i
      → Step K requests w (record w { phase = at_phase r (releasing i) w.phase })
  stores :
      (r i status body : ℕ)
      → w.phase r ≡ storing i body
      → Step K requests w (record {
        keys = complete K i status body w.keys;
        phase = at_phase r (answered (served body)) w.phase;
      })
  frees :
      (r i : ℕ)
      → w.phase r ≡ releasing i
      → Step K requests w (record {
        keys = release K i w.keys;
        phase = at_phase r (answered handler_threw) w.phase;
      })
  -- The hourly cleanup.
  cleans : (now : ℕ) → Step K requests w (record w { keys = cleanup K now w.keys })

pub data Reach (K : Table Key) (requests : ℕ → Request) (w : World K) : World K → Type 0 where
  here : Reach K requests w w
  next : {v x : World K} → Reach K requests w v → Step K requests v x → Reach K requests w x
