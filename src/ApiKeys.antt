-- ===== src/ApiKeys.antt =====
-- backend/src/auth/api-key.service.ts: API keys are created, revoked and validated. bcrypt is a
-- parameter with what its documentation says of `compare`; a raw key is the list of its characters.
pub mod Created
pub mod Revoked
use paya_dev.Base.{
  ℕ, ◌+◌, ◌-◌, ◌≡◌, Bool, true, false, ◌&&◌, not, Option, none, some, List, [], ◌∷◌, ◌++◌, ltb,
  ◌==◌, if◌then◌else◌, is_some, take,
}
use paya_dev.Base.Action.{Action, pure, gets, or_throw, ◌>>=◌, ◌>>◌, throw_if, modify}
use paya_dev.Table.{Table}

pub record ApiKey : Type 0 where
  pub id : ℕ
  pub user_id : ℕ
  pub name : ℕ
  pub key_prefix : List ℕ
  pub key_hash : ℕ
  pub scopes : List ℕ
  pub expires_at : Option ℕ
  pub revoked_at : Option ℕ
  pub last_used_at : Option ℕ

pub record CreateApiKey : Type 0 where
  pub name : ℕ
  pub scopes : List ℕ
  pub expires_at : Option ℕ

pub data Error : Type 0 where
  not_found already_revoked invalid_format invalid_key revoked expired : Error

-- `bcrypt.hash` with its salt, and `bcrypt.compare`
pub record Bcrypt : Type 0 where
  pub hash : ℕ → List ℕ → ℕ
  pub compare : List ℕ → ℕ → Bool
  pub compare-hash : (salt : ℕ) (raw : List ℕ) → compare raw (hash salt raw) ≡ true

-- `LAST_USED_THROTTLE_MS`
abbrev pub last_used_throttle_ms : ℕ
last_used_throttle_ms = 60000

-- `KEY_PREFIX`, 'ia_'
abbrev pub key_start : List ℕ
key_start = 105 ∷ 97 ∷ 95 ∷ []

abbrev pub same_text : List ℕ → List ℕ → Bool
same_text [] [] = true
same_text [] (c ∷ cs) = false
same_text (c ∷ cs) [] = false
same_text (c ∷ cs) (d ∷ ds) = c == d && same_text cs ds

abbrev pub has_id : ℕ → ApiKey → Bool
has_id k a = a.id == k

-- `where: { id, userId }`
abbrev pub is_owned : ℕ → ℕ → ApiKey → Bool
is_owned k user a = a.id == k && a.user_id == user

abbrev pub has_prefix : List ℕ → ApiKey → Bool
has_prefix prefix a = same_text a.key_prefix prefix

abbrev pub starts_key : List ℕ → Bool
starts_key raw = same_text (take 3 raw) key_start

-- `rawKey.slice(0, 10)`
abbrev pub prefix_of : List ℕ → List ℕ
prefix_of raw = take 10 raw

-- `matched.expires_at && matched.expires_at < new Date()`
abbrev pub is_past : ℕ → Option ℕ → Bool
is_past now none = false
is_past now (some t) = ltb t now

module _ (B : Bcrypt) where
  -- `randomBytes(32).toString('hex')` is an argument.
  abbrev pub raw_key : List ℕ → List ℕ
  raw_key random = key_start ++ random

  pub new_key : ℕ → ℕ → List ℕ → ℕ → CreateApiKey → ApiKey
  new_key fresh salt random user dto = record {
    id = fresh;
    user_id = user;
    name = dto.name;
    key_prefix = prefix_of (raw_key random);
    key_hash = B.hash salt (raw_key random);
    scopes = dto.scopes;
    expires_at = dto.expires_at;
    revoked_at = none;
    last_used_at = none;
  }

  -- The loop of `validateKey`.
  abbrev pub first_match : List ℕ → List ApiKey → Option ApiKey
  first_match raw [] = none
  first_match raw (a ∷ rest) = if B.compare raw a.key_hash then some a else first_match raw rest

  module _ (K : Table ApiKey) where
    -- It returns the raw key.
    unfoldable pub create : ℕ → ℕ → List ℕ → ℕ → CreateApiKey → Action K.Contents Error (List ℕ)
    unfolding new_key
    create fresh salt random user dto = do
      modify (K.insert (new_key fresh salt random user dto))
      pure (raw_key random)

    unfoldable pub revoke : ℕ → ℕ → ℕ → Action K.Contents Error (Unit {0})
    revoke now k user = do
      found ← gets (K.find_one (is_owned k user))
      key ← or_throw found not_found
      throw_if (is_some key.revoked_at) already_revoked
      modify (K.update (has_id key.id) (λ a. record a { revoked_at = some now }))

    unfoldable pub validate_key : ℕ → List ℕ → Action K.Contents Error ApiKey
    validate_key now raw = do
      throw_if (not (starts_key raw)) invalid_format
      candidates ← gets (K.find (has_prefix (prefix_of raw)))
      matched ← or_throw (first_match raw candidates) invalid_key
      throw_if (is_some matched.revoked_at) revoked
      throw_if (is_past now matched.expires_at) expired
      pure matched

    pub touch_last_used : ℕ → ApiKey → K.Contents → K.Contents
    touch_last_used now key s =
        let last : ℕ = elim key.last_used_at [ none ↦ 0 | some t ↦ t ] in
        if ltb now (last + last_used_throttle_ms)
        then s
        else K.update (has_id key.id) (λ a. record a { last_used_at = some now }) s
