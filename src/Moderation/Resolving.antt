-- ===== src/Moderation/Resolving.antt =====
-- `resolveFlag` of backend/src/flags/flags.service.ts: what a resolution does, and to whom.
use paya_dev.Base.{
  ℕ, ◌≡◌, ◌≢◌, refl, sym, ap, ◌∙◌, fun_ext, Bool, true, false, ◌&&◌, not, some, arith, Bool-cases,
  Option-cases, inl, inr, weight, ==_iff,
}
use paya_dev.Base.Action.{ok, err}
use paya_dev.Entities.{User, Market, is_market, is_user}
use paya_dev.Table.{Table, count}
use paya_dev.Table.Laws.{count-update, count_none, count-update_same}
use paya_dev.Moderation.{
  already_resolved, Flag, ResolutionAction, ResolveFlag, Store, dismiss, remove_market, ban_user,
  has_id, is_pending, settled, banned, removed, resolve_flag, act,
}

-- The tables after the `switch`.
abbrev users_after : (U : Table User) → ℕ → ℕ → Flag → ResolutionAction → U.Contents → U.Contents
users_after U now admin_id f ban_user us =
    U.update (is_user f.user) (banned now admin_id f.reason) us
users_after U now admin_id f dismiss us = us
users_after U now admin_id f remove_market us = us

abbrev markets_after : (M : Table Market) → Flag → ResolutionAction → M.Contents → M.Contents
markets_after M f remove_market ms = M.update (is_market f.market) removed ms
markets_after M f dismiss ms = ms
markets_after M f ban_user ms = ms

module _ (F : Table Flag) (M : Table Market) (U : Table User) where
  Resolves : ℕ → ℕ → ResolveFlag → ℕ → Flag → Store F M U → Store F M U → Type 0
  Resolves now flag_id dto admin_id r s t =
      (f : Flag) × (F.find_one (has_id flag_id) s.flags ≡ some f)
      × (r ≡ settled now admin_id dto f)
      × (t.flags ≡ F.update (has_id f.id) (settled now admin_id dto) s.flags)
      × (t.users ≡ users_after U now admin_id f dto.action s.users)
      × (t.markets ≡ markets_after M f dto.action s.markets)

  accepted :
      (now flag_id admin_id : ℕ) (dto : ResolveFlag) (s t : Store F M U) (r : Flag)
      → resolve_flag now flag_id dto admin_id s ≡ (ok r, t)
      → Resolves now flag_id dto admin_id r s t
  unfolding resolve_flag act Resolves
  accepted now flag_id admin_id dto s t r h =
      elim (Option-cases (F.find_one (has_id flag_id) s.flags)) [
        | inl e ↦ ground arith
        | inr (f, e) ↦ (f, e, ground arith, ground arith, ground arith, ground arith)
      ]

  still_open :
      (now id k admin_id : ℕ) (dto : ResolveFlag) (fs : F.Contents)
      → id ≡ k
      → count F
          (λ x. has_id id x && is_pending x.status)
          (F.update (has_id k) (settled now admin_id dto) fs)
        ≡ 0
  still_open now id k admin_id dto fs e =
      count-update F (λ x. has_id id x && is_pending x.status) (has_id k) (settled now admin_id dto)
        fs
      ∙ count_none F _ fs (λ x. ground arith)

  refused_again :
      (now flag_id admin_id : ℕ) (dto : ResolveFlag) (t : Store F M U) (x : Flag)
      → F.find_one (has_id flag_id) t.flags ≡ some x
      → is_pending x.status ≡ false
      → resolve_flag now flag_id dto admin_id t ≡ (err already_resolved, t)
  unfolding resolve_flag
  refused_again now flag_id admin_id dto t x e h = ground arith

  -- A flag is resolved once: after a resolution that succeeded, every further one of the same flag, by
  -- whichever admin and with whichever action, is refused and changes nothing.
  pub resolve_flag_once :
      (now later flag_id admin_id other : ℕ) (dto dto' : ResolveFlag) (s t : Store F M U) (r : Flag)
      → resolve_flag now flag_id dto admin_id s ≡ (ok r, t)
      → resolve_flag later flag_id dto' other t ≡ (err already_resolved, t)
  unfolding Resolves
  resolve_flag_once now later flag_id admin_id other dto dto' s t r h =
      let (f, e, er, ef, eu, em) = accepted now flag_id admin_id dto s t r h in
      let passes : has_id flag_id f ≡ true = F.find_one_passes (has_id flag_id) s.flags f e in
      let done : count F (λ x. has_id flag_id x && is_pending x.status) t.flags ≡ 0 =
        rw ef (
          still_open now flag_id f.id admin_id dto s.flags
            (sym ((==_iff f.id flag_id).0 passes))) in
      let there : count F (has_id flag_id) t.flags ≡ count F (has_id flag_id) s.flags = rw ef (
        count-update_same F (has_id flag_id) (has_id f.id) (settled now admin_id dto) s.flags
          (λ x. refl)) in
      elim (Option-cases (F.find_one (has_id flag_id) t.flags)) [
        | inl none_left ↦ absurd (
            ground (
              arith,
              there,
              F.find_one_none (has_id flag_id) t.flags none_left,
              F.find_one_stands (has_id flag_id) s.flags f (λ x. weight (has_id flag_id x)) e,
            ))
        | inr (x, found) ↦ refused_again later flag_id other dto' t x found (
            ground (
              arith,
              done,
              F.find_one_passes (has_id flag_id) t.flags x found,
              F.find_one_stands (has_id flag_id) t.flags x
                  (λ y. weight (has_id flag_id y && is_pending y.status)) found,
            ))
      ]

  ban_one :
      (now admin_id reason u k : ℕ) (us : U.Contents)
      → (count U
            (λ x. is_user u x && not x.is_banned)
            (U.update (is_user u) (banned now admin_id reason) us)
          ≡ 0)
        × ((k ≡ u → ⊥)
            → count U
                (λ x. is_user k x && x.is_banned)
                (U.update (is_user u) (banned now admin_id reason) us)
              ≡ count U (λ x. is_user k x && x.is_banned) us)
  ban_one now admin_id reason u k us = (
    count-update U (λ x. is_user u x && not x.is_banned) (is_user u) (banned now admin_id reason) us
        ∙ count_none U _ us (λ x. ground arith),
    λ differs.
        count-update U (λ x. is_user k x && x.is_banned) (is_user u) (banned now admin_id reason) us
        ∙ ap (λ (p : User → Bool). count U p us)
            (fun_ext (λ x. elim (Bool-cases (is_user u x)) [
              | inl here ↦ elim (Bool-cases (is_user k x)) [
                | inl there ↦ absurd (differs (ground arith))
                | inr away ↦ ground arith
              ]
              | inr away ↦ rw away refl
            ])),
  )

  -- The action that bans a user bans the one who raised the flag: afterwards the user of the flag is
  -- banned, every other user, the creator of the flagged market included, is banned only if that was
  -- so before, and no market changes.
  pub resolve_flag_bans_reporter :
      (now flag_id admin_id k : ℕ) (dto : ResolveFlag) (s t : Store F M U) (r : Flag)
      → resolve_flag now flag_id dto admin_id s ≡ (ok r, t)
      → dto.action ≡ ban_user
      → k ≢ r.user
      → (count U (λ x. is_user r.user x && not x.is_banned) t.users ≡ 0)
        × (count U (λ x. is_user k x && x.is_banned) t.users
            ≡ count U (λ x. is_user k x && x.is_banned) s.users)
        × (t.markets ≡ s.markets)
  unfolding Resolves
  resolve_flag_bans_reporter now flag_id admin_id k dto s t r h a differs =
      let (f, e, er, ef, eu, em) = accepted now flag_id admin_id dto s t r h in
      let reporter : r.user ≡ f.user = ap (λ (x : Flag). x.user) er in
      let written : t.users ≡ U.update (is_user f.user) (banned now admin_id f.reason) s.users =
        eu ∙ ap (λ act'. users_after U now admin_id f act' s.users) a in
      let (there, away) = ban_one now admin_id f.reason f.user k s.users in
      (
        rw (reporter, written) there,
        rw written (away (λ same. differs (same ∙ sym reporter))),
        em ∙ ap (λ act'. markets_after M f act' s.markets) a,
      )
