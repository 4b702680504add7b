-- ===== src/Seasons/Separate.antt =====
-- The overlap of active seasons of backend/src/seasons/seasons.service.ts.
use paya_dev.Base.{
  ℕ, ◌≤◌, ◌≡◌, refl, Bool, true, false, ◌&&◌, not, Option, none, some, ltb, ◌==◌, if◌then◌else◌,
  is_some, arith, Option-cases, inl, inr, weight, ==_iff,
}
use paya_dev.Base.Action.{is_ok}
use paya_dev.Entities.{User}
use paya_dev.Table.{Table, count}
use paya_dev.Table.Laws.{
  count-insert_le_one, count-update_same, count-update-le, count-delete-le, count_mono,
}
use paya_dev.Seasons.{
  Season, CreateSeason, Store, is_season, has_number, is_running, overlaps, new_season, synced,
  closed, create, sync, finalize, find_active,
}

module _ (S : Table Season) (U : Table User) where
  -- At any time at most one season is active, and no season number stands twice.
  pub record IsSeparate (s : Store S U) : Type 0 where
    pub single : (t : ℕ) → count S (is_running t) s.seasons ≤ 1
    pub numbered : (n : ℕ) → count S (has_number n) s.seasons ≤ 1

  -- What `create` and `finalize` do to the seasons, one access after the other.
  data Change (a : S.Contents) : S.Contents → Type 0 where
    same : Change a a
    add :
        (now fresh start end : ℕ) (dto : CreateSeason)
        → count S (overlaps start end) a ≡ 0
        → S.find_one (has_number dto.season_number) a ≡ none
        → Change a (S.insert (new_season now fresh start end dto) a)
    drop : {b : S.Contents} (k : ℕ) → Change a b → Change a (S.delete (is_season k) b)
    note :
        {b : S.Contents} (k chain_id tx : ℕ)
        → Change a b
        → Change a (S.update (is_season k) (synced chain_id tx) b)
    close :
        {b : S.Contents} (k : ℕ) (w : Option ℕ)
        → Change a b
        → Change a (S.update (is_season k) (closed w) b)

  Change-single :
      {a b : S.Contents}
      → Change a b
      → ((t : ℕ) → count S (is_running t) a ≤ 1)
      → (t : ℕ) → count S (is_running t) b ≤ 1
  Change-single same h t = h t
  Change-single {a} (add now fresh start end dto free _) h t =
      count-insert_le_one S (is_running t) (new_season now fresh start end dto) a (h t) (λ e.
        omega
          (arith, free, count_mono S (is_running t) (overlaps start end) a (λ r p. ground arith)))
  Change-single (drop {b} k c) h t =
      omega (arith, Change-single c h t, count-delete-le S (is_running t) (is_season k) b)
  Change-single (note {b} k chain_id tx c) h t = omega (
    arith,
    Change-single c h t,
    count-update_same S (is_running t) (is_season k) (synced chain_id tx) b (λ r. refl),
  )
  Change-single (close {b} k w c) h t = omega (
    arith,
    Change-single c h t,
    count-update-le S (is_running t) (is_season k) (closed w) b (λ r _ p. ground arith),
  )

  Change-numbered :
      {a b : S.Contents}
      → Change a b
      → ((n : ℕ) → count S (has_number n) a ≤ 1)
      → (n : ℕ) → count S (has_number n) b ≤ 1
  Change-numbered same h n = h n
  Change-numbered {a} (add now fresh start end dto _ free) h n =
      count-insert_le_one S (has_number n) (new_season now fresh start end dto) a (h n) (λ e.
        let same_number : dto.season_number ≡ n = (==_iff dto.season_number n).0 e in
        rw (← same_number) (S.find_one_none (has_number dto.season_number) a free))
  Change-numbered (drop {b} k c) h n =
      omega (arith, Change-numbered c h n, count-delete-le S (has_number n) (is_season k) b)
  Change-numbered (note {b} k chain_id tx c) h n = omega (
    arith,
    Change-numbered c h n,
    count-update_same S (has_number n) (is_season k) (synced chain_id tx) b (λ r. refl),
  )
  Change-numbered (close {b} k w c) h n = omega (
    arith,
    Change-numbered c h n,
    count-update_same S (has_number n) (is_season k) (closed w) b (λ r. refl),
  )

  from_if : (b : Bool) (a c : S.Contents) → (b ≡ true → Change a c) → Change a (if b then c else a)
  from_if true a c h = h refl
  from_if false a c h = same

  -- The seasons after `saved` was stored, and synced if that was asked for.
  abbrev stored : Bool → Option (ℕ × ℕ) → Season → S.Contents → S.Contents
  stored false reply saved a = S.insert saved a
  stored true none saved a = S.delete (is_season saved.id) (S.insert saved a)
  stored true (some (chain_id, tx)) saved a =
      S.update (is_season saved.id) (synced chain_id tx) (S.insert saved a)

  stored-Change :
      (wanted : Bool) (reply : Option (ℕ × ℕ)) (now fresh start end : ℕ) (dto : CreateSeason)
      (a : S.Contents)
      → Change a (S.insert (new_season now fresh start end dto) a)
      → Change a (stored wanted reply (new_season now fresh start end dto) a)
  stored-Change false reply now fresh start end dto a c = c
  stored-Change true none now fresh start end dto a c = drop fresh c
  stored-Change true (some (chain_id, tx)) now fresh start end dto a c = note fresh chain_id tx c

  create-Change :
      (now : ℕ) (reply : Option (ℕ × ℕ)) (fresh : ℕ) (dto : CreateSeason) (s : Store S U)
      → Change s.seasons (create now reply fresh dto s).1.seasons
  create-Change now reply fresh dto s = elim (Option-cases dto.start_time) [
    | inl e ↦ rw (unread_start e) same
    | inr (start, e) ↦ elim (Option-cases dto.end_time) [
      | inl f ↦ rw (unread_end start e f) same
      | inr (end, f) ↦ rw (read start end e f) (
          from_if _ s.seasons _ (λ h.
            stored-Change dto.sync_soroban reply now fresh start end dto s.seasons
              (add now fresh start end dto (ground arith) (ground arith))))
    ]
  ]
    where
      unread_start : dto.start_time ≡ none → (create now reply fresh dto s).1.seasons ≡ s.seasons
      unread_start e = unfold create in ground arith

      unread_end :
          (start : ℕ)
          → dto.start_time ≡ some start
          → dto.end_time ≡ none
          → (create now reply fresh dto s).1.seasons ≡ s.seasons
      unread_end start e f = unfold create in ground arith

      read :
          (start end : ℕ)
          → dto.start_time ≡ some start
          → dto.end_time ≡ some end
          → (create now reply fresh dto s).1.seasons ≡ (
              if ltb start end
                && not (is_some (S.find_one (has_number dto.season_number) s.seasons))
                && count S (overlaps start end) s.seasons == 0
              then stored dto.sync_soroban reply (new_season now fresh start end dto) s.seasons
              else s.seasons)
      read start end e f = unfold create sync in ground arith

  -- Where at any time at most one season is active and no season number stands twice, that is so after
  -- every request to create a season, accepted or refused, synced with the contract or not.
  pub create-IsSeparate :
      (now : ℕ) (reply : Option (ℕ × ℕ)) (fresh : ℕ) (dto : CreateSeason) (s : Store S U)
      → IsSeparate s
      → IsSeparate (create now reply fresh dto s).1
  create-IsSeparate now reply fresh dto s b = record {
    single = Change-single (create-Change now reply fresh dto s) b.single;
    numbered = Change-numbered (create-Change now reply fresh dto s) b.numbered;
  }

  finalize-Change :
      (sent : Bool) (id : ℕ) (s : Store S U) → Change s.seasons (finalize sent id s).1.seasons
  finalize-Change sent id s = elim (Option-cases (S.find_one (is_season id) s.seasons)) [
    | inl e ↦ rw (missing e) same
    | inr (r, e) ↦ rw (found r e) (from_if _ s.seasons _ (λ h. close r.id winner same))
  ]
    where
      winner : Option ℕ
      winner = elim (U.find_best (λ u. u.season_points) (λ u. true) s.users) [
        | none ↦ none
        | some u ↦ some u.id
      ]

      missing :
          S.find_one (is_season id) s.seasons ≡ none → (finalize sent id s).1.seasons ≡ s.seasons
      missing e = unfold finalize in ground arith

      found :
          (r : Season)
          → S.find_one (is_season id) s.seasons ≡ some r
          → (finalize sent id s).1.seasons ≡ (
              if not r.is_finalized
              then S.update (is_season r.id) (closed winner) s.seasons
              else s.seasons)
      found r e = unfold finalize in ground arith

  -- Finalizing a season keeps that too.
  pub finalize-IsSeparate :
      (sent : Bool) (id : ℕ) (s : Store S U) → IsSeparate s → IsSeparate (finalize sent id s).1
  finalize-IsSeparate sent id s b = record {
    single = Change-single (finalize-Change sent id s) b.single;
    numbered = Change-numbered (finalize-Change sent id s) b.numbered;
  }

  -- Where active seasons do not overlap, the active season that is found is the only one, and none is
  -- found only when there is none.
  pub find_active_only :
      (now : ℕ) (s : Store S U)
      → IsSeparate s
      → (count S (is_running now) s.seasons ≡ weight (is_ok (find_active now s)))
        × ((find_active now s).1 ≡ s)
  unfolding find_active
  find_active_only now s b =
      elim (Option-cases (S.find_best (λ r. r.starts_at) (is_running now) s.seasons)) [
        | inl e ↦
            (rw e (S.find_best_none (λ r. r.starts_at) (is_running now) s.seasons e), ground arith)
        | inr (r, e) ↦ (rw e (omega (arith, b.single now, one r e)), ground arith)
      ]
    where
      one :
          (r : Season)
          → S.find_best (λ r. r.starts_at) (is_running now) s.seasons ≡ some r
          → 1 ≤ count S (is_running now) s.seasons
      one r e = ground (
        arith,
        S.find_best_stands (λ r. r.starts_at) (is_running now) s.seasons r
            (λ x. weight (is_running now x)) e,
        S.find_best_passes (λ r. r.starts_at) (is_running now) s.seasons r e,
      )
