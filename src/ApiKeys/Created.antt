-- ===== src/ApiKeys/Created.antt =====
-- A key that was just created, when it is validated.
use paya_dev.Base.{
  ℕ, ◌+◌, ◌≤◌, ◌≡◌, refl, ap, Bool, true, false, ◌&&◌, not, Option, none, some, List, [], ◌∷◌, ◌==◌,
  if◌then◌else◌, arith, Bool-cases, inl, inr, weight, ==_iff, ==_refl, sum_of,
}
use paya_dev.Base.Action.{ok}
use paya_dev.Table.{Table, count}
use paya_dev.ApiKeys.{
  ApiKey, CreateApiKey, Bcrypt, same_text, raw_key, has_prefix, starts_key, prefix_of, is_past,
  new_key, first_match, create, validate_key,
}

same_text_refl : (cs : List ℕ) → same_text cs cs ≡ true
same_text_refl [] = refl
same_text_refl (c ∷ cs) = ground (arith, ==_refl c, same_text_refl cs)

same_text-≡ : (cs ds : List ℕ) → same_text cs ds ≡ true → cs ≡ ds
same_text-≡ [] [] e = refl
same_text-≡ [] (d ∷ ds) e = cc
same_text-≡ (c ∷ cs) [] e = cc
same_text-≡ (c ∷ cs) (d ∷ ds) e =
    let head : c ≡ d = ground (arith, e) in
    let tail : cs ≡ ds = same_text-≡ cs ds (ground (arith, e)) in cc

abbrev same_option : Option ℕ → Option ℕ → Bool
same_option none none = true
same_option none (some m) = false
same_option (some n) none = false
same_option (some n) (some m) = n == m

same_option_refl : (o : Option ℕ) → same_option o o ≡ true
same_option_refl none = refl
same_option_refl (some n) = ==_refl n

same_option-≡ : (o p : Option ℕ) → same_option o p ≡ true → o ≡ p
same_option-≡ none none e = refl
same_option-≡ none (some m) e = cc
same_option-≡ (some n) none e = cc
same_option-≡ (some n) (some m) e = ap some ((==_iff n m).0 e)

same_key : ApiKey → ApiKey → Bool
same_key a b =
    a.id == b.id
    && a.user_id == b.user_id
    && a.name == b.name
    && same_text a.key_prefix b.key_prefix
    && a.key_hash == b.key_hash
    && same_text a.scopes b.scopes
    && same_option a.expires_at b.expires_at
    && same_option a.revoked_at b.revoked_at
    && same_option a.last_used_at b.last_used_at

same_key_refl : (a : ApiKey) → same_key a a ≡ true
unfolding same_key
same_key_refl a =
    rw
      (
        ==_refl a.id,
        ==_refl a.user_id,
        ==_refl a.name,
        same_text_refl a.key_prefix,
        ==_refl a.key_hash,
        same_text_refl a.scopes,
        same_option_refl a.expires_at,
        same_option_refl a.revoked_at,
        same_option_refl a.last_used_at,
      )
      refl

same_key-≡ : (a b : ApiKey) → same_key a b ≡ true → a ≡ b
unfolding same_key
same_key-≡ a b e =
    let e1 : a.id ≡ b.id = ground (arith, e) in
    let e2 : a.user_id ≡ b.user_id = ground (arith, e) in
    let e3 : a.name ≡ b.name = ground (arith, e) in
    let e4 : a.key_prefix ≡ b.key_prefix =
      same_text-≡ a.key_prefix b.key_prefix (ground (arith, e)) in
    let e5 : a.key_hash ≡ b.key_hash = ground (arith, e) in
    let e6 : a.scopes ≡ b.scopes = same_text-≡ a.scopes b.scopes (ground (arith, e)) in
    let e7 : a.expires_at ≡ b.expires_at =
      same_option-≡ a.expires_at b.expires_at (ground (arith, e)) in
    let e8 : a.revoked_at ≡ b.revoked_at =
      same_option-≡ a.revoked_at b.revoked_at (ground (arith, e)) in
    let e9 : a.last_used_at ≡ b.last_used_at =
      same_option-≡ a.last_used_at b.last_used_at (ground (arith, e)) in
    cc

module _ (B : Bcrypt) where
  -- Where the only candidates that match are `a`, and there is one, it is the first match.
  first_match_only :
      (raw : List ℕ) (keys : List ApiKey) (a : ApiKey)
      → 1 ≤ sum_of (λ x. weight (B.compare raw x.key_hash)) keys
      → sum_of (λ x. weight (B.compare raw x.key_hash && not (same_key x a))) keys ≡ 0
      → first_match B raw keys ≡ some a
  first_match_only raw [] a one only = ground (arith, one)
  first_match_only raw (x ∷ keys) a one only = elim (Bool-cases (B.compare raw x.key_hash)) [
    | inl h ↦ rw h (ap some (same_key-≡ x a (ground (arith, only, h))))
    | inr h ↦ rw h (first_match_only raw keys a (ground (arith, one, h)) (ground (arith, only, h)))
  ]

  module _ (K : Table ApiKey) where
    validates :
        (now : ℕ) (raw : List ℕ) (a : ApiKey) (s : K.Contents)
        → starts_key raw ≡ true
        → first_match B raw (K.find (has_prefix (prefix_of raw)) s) ≡ some a
        → a.revoked_at ≡ none
        → is_past now a.expires_at ≡ false
        → validate_key B K now raw s ≡ (ok a, s)
    unfolding validate_key
    validates now raw a s h f g p = ground (arith, h, f, g, p)

    -- The raw key that `create` returns is validated against the very key that was created, as long as
    -- that has not expired, if the raw key matches the hash of no other key with its prefix.
    pub create_validates :
        (now fresh salt : ℕ) (random : List ℕ) (user : ℕ) (dto : CreateApiKey) (s : K.Contents)
        → count K
            (λ a.
              has_prefix (prefix_of (raw_key B random)) a
              && B.compare (raw_key B random) a.key_hash)
            s
          ≡ 0
        → is_past now dto.expires_at ≡ false
        → let (made, s') = create B K fresh salt random user dto s in
          (made ≡ ok (raw_key B random))
          × (validate_key B K now (raw_key B random) s'
              ≡ (ok (new_key B fresh salt random user dto), s'))
    unfolding create
    create_validates now fresh salt random user dto s unmatched unexpired =
        (refl, validates now raw row (K.insert row s) refl found unrevoked expires)
      where
        raw : List ℕ
        raw = raw_key B random

        row : ApiKey
        row = new_key B fresh salt random user dto

        keys : List ApiKey
        keys = K.find (has_prefix (prefix_of raw)) (K.insert row s)

        unrevoked : row.revoked_at ≡ none
        unrevoked = unfold new_key in refl

        expires : is_past now row.expires_at ≡ false
        expires = unfold new_key in unexpired

        prefixed : has_prefix (prefix_of raw) row ≡ true
        prefixed = unfold new_key in same_text_refl (prefix_of raw)

        compares : B.compare raw row.key_hash ≡ true
        compares = unfold new_key in B.compare-hash salt raw

        -- A number summed over the keys with the prefix.
        summed :
            (f : ApiKey → ℕ)
            → sum_of f keys
              ≡ f row + K.total (λ a. if has_prefix (prefix_of raw) a then f a else 0) s
        summed f = ground (
          arith,
          prefixed,
          K.sum_find f (has_prefix (prefix_of raw)) (K.insert row s),
          K.total_insert (λ a. if has_prefix (prefix_of raw) a then f a else 0) row s,
        )

        found : first_match B raw keys ≡ some row
        found =
            first_match_only raw keys row
              (ground (arith, compares, summed (λ x. weight (B.compare raw x.key_hash))))
              (ground (
                arith,
                compares,
                same_key_refl row,
                unmatched,
                summed (λ x. weight (B.compare raw x.key_hash && not (same_key x row))),
                K.total_mono
                    (λ a.
                      if has_prefix (prefix_of raw) a
                      then weight (B.compare raw a.key_hash && not (same_key a row))
                      else 0)
                    (λ a. weight (has_prefix (prefix_of raw) a && B.compare raw a.key_hash)) s
                    (λ a. ground arith),
              ))
