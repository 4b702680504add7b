-- ===== src/ApiKeys/Revoked.antt =====
-- What a validated key is, and what becomes of a revoked one.
use paya_dev.Base.{
  ℕ, ◌+◌, ◌≤◌, ◌≡◌, ◌≢◌, refl, ◌∙◌, Bool, true, false, ◌&&◌, not, none, some, List, [], ◌∷◌, ltb,
  if◌then◌else◌, is_some, arith, Bool-cases, Option-cases, inl, inr, weight, ==_iff, ==_refl,
  sum_of,
}
use paya_dev.Base.Action.{ok}
use paya_dev.Table.{Table, count}
use paya_dev.Table.Laws.{
  count-insert, count-update, count-update_same, found-count, count_none, count-update-le,
}
use paya_dev.ApiKeys.{
  ApiKey, CreateApiKey, Bcrypt, has_id, is_owned, has_prefix, starts_key, prefix_of, is_past,
  new_key, first_match, create, revoke, validate_key, touch_last_used, last_used_throttle_ms,
}

module _ (B : Bcrypt) where
  -- The first match is one of the candidates, and matches.
  first_match-stands :
      (raw : List ℕ) (keys : List ApiKey) (a : ApiKey) (f : ApiKey → ℕ)
      → first_match B raw keys ≡ some a
      → f a ≤ sum_of f keys
  first_match-stands raw [] a f e = cc
  first_match-stands raw (x ∷ keys) a f e = ground (arith, e, first_match-stands raw keys a f)

  first_match-compares :
      (raw : List ℕ) (keys : List ApiKey) (a : ApiKey)
      → first_match B raw keys ≡ some a
      → B.compare raw a.key_hash ≡ true
  first_match-compares raw [] a e = cc
  first_match-compares raw (x ∷ keys) a e = ground (arith, e, first_match-compares raw keys a)

  module _ (K : Table ApiKey) where
    -- What a key that is validated is.
    pub record Valid (now : ℕ) (raw : List ℕ) (s : K.Contents) (a : ApiKey) : Type 0 where
      pub starts : starts_key raw ≡ true
      pub compares : B.compare raw a.key_hash ≡ true
      pub unrevoked : a.revoked_at ≡ none
      pub unexpired : is_past now a.expires_at ≡ false
      pub stands :
          (f : ApiKey → ℕ) → f a ≤ K.total (λ x. if has_prefix (prefix_of raw) x then f x else 0) s

    accepted :
        (now : ℕ) (raw : List ℕ) (a : ApiKey) (s : K.Contents)
        → (validate_key B K now raw s).0 ≡ ok a
        → (starts_key raw ≡ true)
          × (first_match B raw (K.find (has_prefix (prefix_of raw)) s) ≡ some a)
          × (a.revoked_at ≡ none)
          × (is_past now a.expires_at ≡ false)
    unfolding validate_key
    accepted now raw a s e = elim (Bool-cases (starts_key raw)) [
      | inr h ↦ absurd (ground (arith, e, h))
      | inl h ↦ elim (Option-cases (first_match B raw (K.find (has_prefix (prefix_of raw)) s))) [
        | inl f ↦ absurd (ground (arith, e, h, f))
        | inr (x, f) ↦ elim (Option-cases x.revoked_at) [
          | inr (t, g) ↦ absurd (ground (arith, e, h, f, g))
          | inl g ↦ elim (Bool-cases (is_past now x.expires_at)) [
            | inl p ↦ absurd (ground (arith, e, h, f, g, p))
            | inr p ↦ let same : x ≡ a = ground (arith, e, h, f, g, p) in rw (← same) (h, f, g, p)
          ]
        ]
      ]
    ]

    -- A raw key is validated only against a stored key with its prefix and its hash that is neither
    -- revoked nor expired.
    pub validate_key-Valid :
        (now : ℕ) (raw : List ℕ) (a : ApiKey) (s : K.Contents)
        → (validate_key B K now raw s).0 ≡ ok a
        → Valid now raw s a
    validate_key-Valid now raw a s e =
        let (h, f, g, p) = accepted now raw a s e in
        record {
          starts = h;
          compares = first_match-compares raw _ a f;
          unrevoked = g;
          unexpired = p;
          stands = λ t.
              omega (
                arith,
                first_match-stands raw _ a t f,
                K.sum_find t (has_prefix (prefix_of raw)) s,
              );
        }

-- A request that writes: a new key gets an id in no use, and the last use is noted of a loaded key.
pub data Step (B : Bcrypt) (K : Table ApiKey) (s : K.Contents) : K.Contents → Type 0 where
  creates :
      (fresh salt : ℕ) (random : List ℕ) (user : ℕ) (dto : CreateApiKey)
      → count K (has_id fresh) s ≡ 0
      → Step B K s (create B K fresh salt random user dto s).1
  revokes : (now k user : ℕ) → Step B K s (revoke B K now k user s).1
  touches : (now : ℕ) (a : ApiKey) → Step B K s (touch_last_used B K now a s)

pub data Reach (B : Bcrypt) (K : Table ApiKey) (s : K.Contents) : K.Contents → Type 0 where
  here : Reach B K s s
  next : {t u : K.Contents} → Reach B K s t → Step B K t u → Reach B K s u

abbrev last_use : ApiKey → ℕ
last_use a = elim a.last_used_at [ none ↦ 0 | some t ↦ t ]

abbrev is_live : ApiKey → Bool
is_live a = not (is_some a.revoked_at)

module _ (B : Bcrypt) (K : Table ApiKey) where
  -- The key `k` is stored, and no row of it is unrevoked.
  IsRevoked : ℕ → K.Contents → Type 0
  IsRevoked k s = (1 ≤ count K (has_id k) s) × (count K (λ a. has_id k a && is_live a) s ≡ 0)

  -- A change of rows that keeps ids and revives no key.
  change-IsRevoked :
      (k j : ℕ) (g : ApiKey → ApiKey) (s : K.Contents)
      → ((a : ApiKey) → ((g a).id ≡ a.id) × (is_live (g a) ≡ true → is_live a ≡ true))
      → IsRevoked k s
      → IsRevoked k (K.update (has_id j) g s)
  unfolding IsRevoked
  change-IsRevoked k j g s h (there, dead) = (
    omega (arith, there, count-update_same K (has_id k) (has_id j) g s (λ a. ground (arith, h a))),
    omega (
      arith,
      dead,
      count-update-le K (λ a. has_id k a && is_live a) (has_id j) g s
          (λ a q p. ground (arith, h a, p)),
    ),
  )

  insert-IsRevoked :
      (k : ℕ) (a : ApiKey) (s : K.Contents)
      → (has_id k a ≡ true → count K (has_id k) s ≡ 0)
      → IsRevoked k s
      → IsRevoked k (K.insert a s)
  unfolding IsRevoked
  insert-IsRevoked k a s new (there, dead) = elim (Bool-cases (has_id k a)) [
    | inl e ↦ absurd (ground (arith, new e, there))
    | inr e ↦ (
      omega (arith, there, count-insert K (has_id k) a s),
      ground (arith, e, dead, count-insert K (λ x. has_id k x && is_live x) a s),
    )
  ]

  Step-IsRevoked : (k : ℕ) (s t : K.Contents) → Step B K s t → IsRevoked k s → IsRevoked k t
  unfolding create revoke touch_last_used IsRevoked
  Step-IsRevoked k s _ (creates fresh salt random user dto new) (there, dead) =
      insert-IsRevoked k (new_key B fresh salt random user dto) s
        (unfold new_key in λ e. let same : fresh ≡ k = (==_iff fresh k).0 e in rw (← same) new)
        (there, dead)
  Step-IsRevoked k s _ (revokes now j user) r =
      elim (Option-cases (K.find_one (is_owned j user) s)) [
        | inl e ↦ rw (revoke, e) r
        | inr (a, e) ↦ elim (Option-cases a.revoked_at) [
          | inr (t, g) ↦ rw (revoke, e, g) r
          | inl g ↦
              rw (revoke, e, g)
                (change-IsRevoked k a.id (λ x. record x { revoked_at = some now }) s
                  (λ x. (refl, λ p. ground (arith, p))) r)
        ]
      ]
  Step-IsRevoked k s _ (touches now a) r =
      elim (Bool-cases (ltb now (last_use a + last_used_throttle_ms))) [
        | inl e ↦ rw e r
        | inr e ↦ rw e (
            change-IsRevoked k a.id (λ x. record x { last_used_at = some now }) s
              (λ x. (refl, λ p. p)) r)
      ]

  Reach-IsRevoked : (k : ℕ) (s t : K.Contents) → IsRevoked k s → Reach B K s t → IsRevoked k t
  Reach-IsRevoked k s _ r here = r
  Reach-IsRevoked k s _ r (next p st) = Step-IsRevoked k _ _ st (Reach-IsRevoked k s _ r p)

  revoke-IsRevoked :
      (now k user : ℕ) (s : K.Contents)
      → (revoke B K now k user s).0 ≡ ok tt
      → IsRevoked k (revoke B K now k user s).1
  unfolding revoke IsRevoked
  revoke-IsRevoked now k user s e = elim (Option-cases (K.find_one (is_owned k user) s)) [
    | inl f ↦ absurd (ground (arith, e, f))
    | inr (a, f) ↦ elim (Option-cases a.revoked_at) [
      | inr (t, g) ↦ absurd (ground (arith, e, f, g))
      | inl g ↦
          let passes = K.find_one_passes (is_owned k user) s a f in
          let same : a.id ≡ k = ground (arith, passes) in
          let there = found-count K (has_id k) (is_owned k user) s a f (ground (arith, passes)) in
          rw (revoke, f, g, same)
            (
              omega (
                arith,
                there,
                count-update_same K (has_id k) (has_id k) (λ x. record x { revoked_at = some now })
                    s (λ x. refl),
              ),
              count-update K (λ x. has_id k x && is_live x) (has_id k)
                    (λ x. record x { revoked_at = some now }) s
                  ∙ count_none K _ s (λ x. ground arith),
            )
    ]
  ]

  -- A key that its owner revoked is never validated again: whatever keys are created, revoked and used
  -- afterwards, no raw key is validated against it, at any time.
  pub revoked_for_good :
      (now later k user : ℕ) (raw : List ℕ) (s t : K.Contents) (a : ApiKey)
      → (revoke B K now k user s).0 ≡ ok tt
      → Reach B K (revoke B K now k user s).1 t
      → (validate_key B K later raw t).0 ≡ ok a
      → a.id ≢ k
  unfolding IsRevoked
  revoked_for_good now later k user raw s t a e r v same =
      let v' = validate_key-Valid B K later raw a t v in
      let dead = (Reach-IsRevoked k _ t (revoke-IsRevoked now k user s e) r).1 in
      ground (
        arith,
        v'.unrevoked,
        dead,
        ==_refl k,
        same,
        v'.stands (λ x. weight (has_id k x && is_live x)),
        K.total_mono
            (λ x. if has_prefix (prefix_of raw) x then weight (has_id k x && is_live x) else 0)
            (λ x. weight (has_id k x && is_live x)) t (λ x. ground arith),
      )
