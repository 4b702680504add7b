-- ===== src/Moderation/Flagging.antt =====
-- The open flags of a user on a market, in backend/src/flags/flags.service.ts.
use paya_dev.Base.{
  ℕ, ◌≤◌, ◌≡◌, true, false, none, some, List, [], ◌∷◌, arith, Bool-cases, Option-cases, inl, inr,
}
use paya_dev.Entities.{User, Market, is_market}
use paya_dev.Table.{Table, count}
use paya_dev.Table.Laws.{count-insert_le_one, count-update-le}
use paya_dev.Moderation.{
  Flag, CreateFlag, ResolveFlag, Store, dismiss, remove_market, ban_user, is_open, has_id,
  is_pending, new_flag, settled, create_flag, resolve_flag, act,
}

-- The requests to the service: a user raises a flag, an admin resolves one.
pub data Request : Type 0 where
  raises : ℕ → ℕ → ℕ → CreateFlag → Request
  resolves : ℕ → ℕ → ResolveFlag → ℕ → Request

module _ (F : Table Flag) (M : Table Market) (U : Table User) where
  handle : Request → Store F M U → Store F M U
  handle (raises now fresh user_id dto) s = (create_flag now fresh user_id dto s).1
  handle (resolves now flag_id dto admin_id) s = (resolve_flag now flag_id dto admin_id s).1

  pub handle_all : List Request → Store F M U → Store F M U
  handle_all [] s = s
  handle_all (r ∷ rs) s = handle_all rs (handle r s)

  -- No user has two open flags on one market.
  abbrev pub IsSingle : F.Contents → Type 0
  IsSingle fs = (u m : ℕ) → count F (is_open u m) fs ≤ 1

  insert-IsSingle :
      (now fresh user_id : ℕ) (dto : CreateFlag) (fs : F.Contents)
      → IsSingle fs
      → F.find_one (is_open user_id dto.market_id) fs ≡ none
      → IsSingle (F.insert (new_flag now fresh user_id dto) fs)
  insert-IsSingle now fresh user_id dto fs h free u m =
      count-insert_le_one F (is_open u m) (new_flag now fresh user_id dto) fs (h u m) (λ e.
        let same_user : user_id ≡ u = ground arith in
        let same_market : dto.market_id ≡ m = ground arith in
        rw (← same_user, ← same_market) (F.find_one_none (is_open user_id dto.market_id) fs free))

  settle-IsSingle :
      (now k admin_id : ℕ) (dto : ResolveFlag) (fs : F.Contents)
      → IsSingle fs
      → IsSingle (F.update (has_id k) (settled now admin_id dto) fs)
  settle-IsSingle now k admin_id dto fs h u m = omega (
    arith,
    h u m,
    count-update-le F (is_open u m) (has_id k) (settled now admin_id dto) fs
        (λ r _ p. ground arith),
  )

  create_flag-IsSingle :
      (now fresh user_id : ℕ) (dto : CreateFlag) (s : Store F M U)
      → IsSingle s.flags
      → IsSingle (create_flag now fresh user_id dto s).1.flags
  create_flag-IsSingle now fresh user_id dto s h =
      elim (Option-cases (M.find_one (is_market dto.market_id) s.markets)) [
        | inl e ↦ rw (missing e) h
        | inr (m, e) ↦ elim (Option-cases (F.find_one (is_open user_id dto.market_id) s.flags)) [
          | inl f ↦ rw (stored m e f) (insert-IsSingle now fresh user_id dto s.flags h f)
          | inr (x, f) ↦ rw (taken m x e f) h
        ]
      ]
    where
      missing :
          M.find_one (is_market dto.market_id) s.markets ≡ none
          → (create_flag now fresh user_id dto s).1.flags ≡ s.flags
      missing e = unfold create_flag in ground arith

      stored :
          (m : Market)
          → M.find_one (is_market dto.market_id) s.markets ≡ some m
          → F.find_one (is_open user_id dto.market_id) s.flags ≡ none
          → (create_flag now fresh user_id dto s).1.flags
            ≡ F.insert (new_flag now fresh user_id dto) s.flags
      stored m e f = unfold create_flag in ground arith

      taken :
          (m : Market) (x : Flag)
          → M.find_one (is_market dto.market_id) s.markets ≡ some m
          → F.find_one (is_open user_id dto.market_id) s.flags ≡ some x
          → (create_flag now fresh user_id dto s).1.flags ≡ s.flags
      taken m x e f = unfold create_flag in ground arith

  resolve_flag-IsSingle :
      (now flag_id admin_id : ℕ) (dto : ResolveFlag) (s : Store F M U)
      → IsSingle s.flags
      → IsSingle (resolve_flag now flag_id dto admin_id s).1.flags
  resolve_flag-IsSingle now flag_id admin_id dto s h =
      elim (Option-cases (F.find_one (has_id flag_id) s.flags)) [
        | inl e ↦ rw (missing e) h
        | inr (f, e) ↦ elim (Bool-cases (is_pending f.status)) [
          | inl p ↦ rw (written f e p) (settle-IsSingle now f.id admin_id dto s.flags h)
          | inr p ↦ rw (refused f e p) h
        ]
      ]
    where
      missing :
          F.find_one (has_id flag_id) s.flags ≡ none
          → (resolve_flag now flag_id dto admin_id s).1.flags ≡ s.flags
      missing e = unfold resolve_flag in ground arith

      written :
          (f : Flag)
          → F.find_one (has_id flag_id) s.flags ≡ some f
          → is_pending f.status ≡ true
          → (resolve_flag now flag_id dto admin_id s).1.flags
            ≡ F.update (has_id f.id) (settled now admin_id dto) s.flags
      written f e p = elim dto.action [
        | dismiss ↦ unfold resolve_flag act in ground arith
        | remove_market ↦ unfold resolve_flag act in ground arith
        | ban_user ↦ unfold resolve_flag act in ground arith
      ]

      refused :
          (f : Flag)
          → F.find_one (has_id flag_id) s.flags ≡ some f
          → is_pending f.status ≡ false
          → (resolve_flag now flag_id dto admin_id s).1.flags ≡ s.flags
      refused f e p = unfold resolve_flag in ground arith

  handle_all-IsSingle :
      (rs : List Request) (s : Store F M U) → IsSingle s.flags → IsSingle (handle_all rs s).flags
  unfolding handle_all handle
  handle_all-IsSingle [] s h = h
  handle_all-IsSingle (raises now fresh user_id dto ∷ rs) s h =
      handle_all-IsSingle rs _ (create_flag-IsSingle now fresh user_id dto s h)
  handle_all-IsSingle (resolves now flag_id dto admin_id ∷ rs) s h =
      handle_all-IsSingle rs _ (resolve_flag-IsSingle now flag_id admin_id dto s h)

  -- However flags are raised and resolved, where no user has two open flags on one market, no user
  -- comes to have two.
  pub flags_stay_single :
      (rs : List Request) (s : Store F M U) (u m : ℕ)
      → IsSingle s.flags
      → count F (is_open u m) (handle_all rs s).flags ≤ 1
  flags_stay_single rs s u m h = handle_all-IsSingle rs s h u m
