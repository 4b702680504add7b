-- ===== src/Markets/Changes.antt =====
-- The changes that one operation of backend/src/markets/markets.service.ts can make to the markets, as
-- a step relation.
use paya_dev.Base.{
  ℕ, ◌≡◌, refl, Bool, true, false, ◌&&◌, not, Option, none, some, leb, ◌==◌, if◌then◌else◌, is_some,
  includes, arith, Option-cases, inl, inr,
}
use paya_dev.Base.Action.{is_ok}
use paya_dev.Entities.{User, Market, is_market}
use paya_dev.Table.{Table}
use paya_dev.Markets.{
  Comment, Bookmark, Store, has_either_id, UpdateMarket, update, resolve, cancel, pause, resume,
  resolved, cancelled, paused, edited,
}

-- The operations on a stored market, with the contract's answer.
pub data Op : Type 0 where
  updates : ℕ → ℕ → ℕ → UpdateMarket → Op
  resolves : ℕ → Option (Unit {0}) → ℕ → ℕ → Op
  cancels : ℕ → Option ℕ → Bool → ℕ → User → Op
  pauses : Option ℕ → ℕ → User → Op
  resumes : ℕ → Option ℕ → ℕ → User → Op

module _ (M : Table Market) (C : Table Comment) (B : Table Bookmark) where
  pub perform : Op → Store M C B → Store M C B
  perform (updates now id user_id dto) s = (update now id user_id dto s).1
  perform (resolves now reply id outcome) s = (resolve now reply id outcome s).1
  perform (cancels now reply stored id user) s = (cancel now reply stored id user s).1
  perform (pauses reply id user) s = (pause reply id user s).1
  perform (resumes now reply id user) s = (resume now reply id user s).1

  -- What one operation can do to the markets: nothing, or a change of one found row.
  pub data Change (a : M.Contents) : M.Contents → Type 0 where
    same : Change a a
    edit : (m : Market) (dto : UpdateMarket) → Change a (M.update (is_market m.id) (edited dto) a)
    settle :
        (m : Market) (id outcome now : ℕ)
        → M.find_one (has_either_id id) a ≡ some m
        → m.is_resolved ≡ false
        → Change a (M.update (is_market m.id) (resolved outcome now) a)
    void : (m : Market) → Change a (M.update (is_market m.id) cancelled a)
    hold : (m : Market) (b : Bool) → Change a (M.update (is_market m.id) (paused b) a)

  from_if : (b : Bool) (a c : M.Contents) → (b ≡ true → Change a c) → Change a (if b then c else a)
  from_if true a c h = h refl
  from_if false a c h = same

  resolve-Change :
      (now : ℕ) (reply : Option (Unit {0})) (id outcome : ℕ) (s : Store M C B)
      → Change s.markets (resolve now reply id outcome s).1.markets
  resolve-Change now reply id outcome s =
      elim (Option-cases (M.find_one (has_either_id id) s.markets)) [
        | inl e ↦ rw (missing e) same
        | inr (m, e) ↦
            rw (found m e) (from_if _ s.markets _ (λ h. settle m id outcome now e (ground arith)))
      ]
    where
      missing :
          M.find_one (has_either_id id) s.markets ≡ none
          → (resolve now reply id outcome s).1.markets ≡ s.markets
      missing e = unfold resolve in ground arith

      found :
          (m : Market)
          → M.find_one (has_either_id id) s.markets ≡ some m
          → (resolve now reply id outcome s).1.markets ≡ (
              if not m.is_resolved && includes m.outcome_options outcome && is_some reply
              then M.update (is_market m.id) (resolved outcome now) s.markets
              else s.markets)
      found m e = unfold resolve in ground arith

  update-Change :
      (now id user_id : ℕ) (dto : UpdateMarket) (s : Store M C B)
      → Change s.markets (update now id user_id dto s).1.markets
  update-Change now id user_id dto s =
      elim (Option-cases (M.find_one (has_either_id id) s.markets)) [
        | inl e ↦ rw (missing e) same
        | inr (m, e) ↦ rw (found m e) (from_if _ s.markets _ (λ h. edit m dto))
      ]
    where
      missing :
          M.find_one (has_either_id id) s.markets ≡ none
          → (update now id user_id dto s).1.markets ≡ s.markets
      missing e = unfold update in ground arith

      found :
          (m : Market)
          → M.find_one (has_either_id id) s.markets ≡ some m
          → (update now id user_id dto s).1.markets ≡ (
              if m.creator == user_id && leb now m.end_time
              then M.update (is_market m.id) (edited dto) s.markets
              else s.markets)
      found m e = unfold update in ground arith

  cancel-Change :
      (now : ℕ) (reply : Option ℕ) (stored : Bool) (id : ℕ) (user : User) (s : Store M C B)
      → Change s.markets (cancel now reply stored id user s).1.markets
  cancel-Change now reply stored id user s =
      elim (Option-cases (M.find_one (has_either_id id) s.markets)) [
        | inl e ↦ rw (missing e) same
        | inr (m, e) ↦ rw (found m e) (from_if _ s.markets _ (λ h. void m))
      ]
    where
      missing :
          M.find_one (has_either_id id) s.markets ≡ none
          → (cancel now reply stored id user s).1.markets ≡ s.markets
      missing e = unfold cancel in ground arith

      found :
          (m : Market)
          → M.find_one (has_either_id id) s.markets ≡ some m
          → (cancel now reply stored id user s).1.markets ≡ (
              if is_ok (cancel now reply stored id user s)
              then M.update (is_market m.id) cancelled s.markets
              else s.markets)
      found m e = unfold cancel in ground arith

  pause-Change :
      (reply : Option ℕ) (id : ℕ) (user : User) (s : Store M C B)
      → Change s.markets (pause reply id user s).1.markets
  pause-Change reply id user s = elim (Option-cases (M.find_one (has_either_id id) s.markets)) [
    | inl e ↦ rw (missing e) same
    | inr (m, e) ↦ rw (found m e) (from_if _ s.markets _ (λ h. hold m true))
  ]
    where
      missing :
          M.find_one (has_either_id id) s.markets ≡ none
          → (pause reply id user s).1.markets ≡ s.markets
      missing e = unfold pause in ground arith

      found :
          (m : Market)
          → M.find_one (has_either_id id) s.markets ≡ some m
          → (pause reply id user s).1.markets ≡ (
              if is_ok (pause reply id user s)
              then M.update (is_market m.id) (paused true) s.markets
              else s.markets)
      found m e = unfold pause in ground arith

  resume-Change :
      (now : ℕ) (reply : Option ℕ) (id : ℕ) (user : User) (s : Store M C B)
      → Change s.markets (resume now reply id user s).1.markets
  resume-Change now reply id user s =
      elim (Option-cases (M.find_one (has_either_id id) s.markets)) [
        | inl e ↦ rw (missing e) same
        | inr (m, e) ↦ rw (found m e) (from_if _ s.markets _ (λ h. hold m false))
      ]
    where
      missing :
          M.find_one (has_either_id id) s.markets ≡ none
          → (resume now reply id user s).1.markets ≡ s.markets
      missing e = unfold resume in ground arith

      found :
          (m : Market)
          → M.find_one (has_either_id id) s.markets ≡ some m
          → (resume now reply id user s).1.markets ≡ (
              if is_ok (resume now reply id user s)
              then M.update (is_market m.id) (paused false) s.markets
              else s.markets)
      found m e = unfold resume in ground arith

  pub perform-Change : (op : Op) (s : Store M C B) → Change s.markets (perform op s).markets
  unfolding perform
  perform-Change (updates now id user_id dto) s = update-Change now id user_id dto s
  perform-Change (resolves now reply id outcome) s = resolve-Change now reply id outcome s
  perform-Change (cancels now reply stored id user) s = cancel-Change now reply stored id user s
  perform-Change (pauses reply id user) s = pause-Change reply id user s
  perform-Change (resumes now reply id user) s = resume-Change now reply id user s
