-- ===== src/Competitions/Joining.antt =====
-- What `joinCompetition`, `leave` and `update` do on each of their branches.
use paya_dev.Base.{
  ℕ, ◌+◌, ◌≤◌, ◌<◌, ◌≡◌, refl, none, some, arith, Option-cases, inl, inr, ==_iff, ==_refl,
}
use paya_dev.Base.Action.{Result, ok, err}
use paya_dev.Table.{Table, count}
use paya_dev.Table.Laws.{count-insert, found-count, count-delete_one}
use paya_dev.Competitions.{
  Error, Competition, Participant, Store, is_competition, is_in, is_member, join, leave,
}
use paya_dev.Competitions.Members.{
  IsCounted, joined, joined-IsCounted, left, left-IsCounted, has_id,
}

module _ (C : Table Competition) (R : Table Participant) where
  -- What joining has done: it is refused and changes nothing, or it has found the competition with a
  -- place left and no membership of the user, and writes one.
  abbrev pub JoinEffect : ℕ → ℕ → ℕ → Store C R → Result Error Participant × Store C R → Type 0
  JoinEffect fresh k u s (err e, t) = t ≡ s
  JoinEffect fresh k u s (ok p, t) =
      (c : Competition) × (C.find_one (is_competition k) s.competitions ≡ some c)
      × (R.find_one (is_member u k) s.participants ≡ none)
      × ((0 < c.max_participants → count R (is_in c.id) s.participants < c.max_participants))
      × (p.id ≡ fresh)
      × (p.user ≡ u)
      × (p.competition ≡ k)
      × (t ≡ joined C R p s)

  join-JoinEffect :
      (now fresh k u : ℕ) (s : Store C R) → JoinEffect fresh k u s (join now fresh k u s)
  join-JoinEffect now fresh k u s = go (join now fresh k u s) refl
    where
      go :
          (r : Result Error Participant × Store C R)
          → join now fresh k u s ≡ r
          → JoinEffect fresh k u s r
      go (err e, t) h = unfold join in ground arith
      go (ok p, t) h = elim (Option-cases (C.find_one (is_competition k) s.competitions)) [
        | inl e ↦ unfold join in ground arith
        | inr (c, e) ↦ (
          c,
          e,
          unfold join in ground arith,
          λ m. unfold join in ground arith,
          unfold join in ground arith,
          unfold join in ground arith,
          unfold join in ground arith,
          unfold join in ground arith,
        )
      ]

  -- Where the participant count of every competition is the number of its participants, ids are unique
  -- and nobody is in a competition twice, that is so after every request to join, accepted or refused,
  -- under a row id that is not in use.
  pub join-IsCounted :
      (now fresh k u : ℕ) (s : Store C R)
      → IsCounted C R s
      → count R (has_id fresh) s.participants ≡ 0
      → IsCounted C R (join now fresh k u s).1
  join-IsCounted now fresh k u s b new = go (join now fresh k u s) (join-JoinEffect now fresh k u s)
    where
      go : (r : Result Error Participant × Store C R) → JoinEffect fresh k u s r → IsCounted C R r.1
      go (err e, t) same = rw same b
      go (ok p, t) (c, found, free, room, i, eu, ek, same) = rw same (
          joined-IsCounted C R p s b
            (rw ek (
              found-count C (is_competition k) (is_competition k) s.competitions c found
                (C.find_one_passes (is_competition k) s.competitions c found)))
            (rw i new) (rw (eu, ek) (R.find_one_none (is_member u k) s.participants free)))

  -- Where a maximum is set, a request that is accepted leaves the competition within it, and adds
  -- exactly one participant.
  pub join_within_capacity :
      (now fresh k u : ℕ) (s t : Store C R) (c : Competition) (p : Participant)
      → C.find_one (is_competition k) s.competitions ≡ some c
      → join now fresh k u s ≡ (ok p, t)
      → 0 < c.max_participants
      → (count R (is_in k) t.participants ≡ count R (is_in k) s.participants + 1)
        × (count R (is_in k) t.participants ≤ c.max_participants)
  join_within_capacity now fresh k u s t c p found h m =
      let (c', found', _, room, _, _, ek, same) = rw h at (join-JoinEffect now fresh k u s) in
      let grown : count R (is_in k) t.participants ≡ count R (is_in k) s.participants + 1 =
        rw same (ground (arith, count-insert R (is_in k) p s.participants)) in
      let here : c.id ≡ k =
        (==_iff c.id k).0 (C.find_one_passes (is_competition k) s.competitions c found) in
      let eq : c' ≡ c = cc in (grown, omega (arith, grown, rw (eq, here) at room, m))

  abbrev pub LeaveEffect : ℕ → ℕ → Store C R → Result Error (Unit {0}) × Store C R → Type 0
  LeaveEffect k u s (err e, t) = t ≡ s
  LeaveEffect k u s (ok _, t) =
      (c : Competition) × (p : Participant) × (C.find_one (is_competition k) s.competitions
        ≡ some c)
      × (R.find_one (is_member u k) s.participants ≡ some p)
      × (t ≡ left C R k p s)

  leave-LeaveEffect : (now k u : ℕ) (s : Store C R) → LeaveEffect k u s (leave now k u s)
  leave-LeaveEffect now k u s = go (leave now k u s) refl
    where
      no_member :
          (t : Store C R)
          → R.find_one (is_member u k) s.participants ≡ none
          → leave now k u s ≡ (ok tt, t)
          → ⊥
      no_member t e h = unfold leave in ground arith

      go : (r : Result Error (Unit {0}) × Store C R) → leave now k u s ≡ r → LeaveEffect k u s r
      go (err e, t) h = unfold leave in ground arith
      go (ok _, t) h = elim (Option-cases (C.find_one (is_competition k) s.competitions)) [
        | inl e ↦ unfold leave in ground arith
        | inr (c, e) ↦ elim (Option-cases (R.find_one (is_member u k) s.participants)) [
          | inl f ↦ absurd (no_member t f h)
          | inr (p, f) ↦ (c, p, e, f, unfold leave in ground arith)
        ]
      ]

  -- Where the participant count of every competition is the number of its participants, ids are unique
  -- and nobody is in a competition twice, that is so after every request to leave.
  pub leave-IsCounted :
      (now k u : ℕ) (s : Store C R) → IsCounted C R s → IsCounted C R (leave now k u s).1
  leave-IsCounted now k u s b = go (leave now k u s) (leave-LeaveEffect now k u s)
    where
      go : (r : Result Error (Unit {0}) × Store C R) → LeaveEffect k u s r → IsCounted C R r.1
      go (err e, t) same = rw same b
      go (ok _, t) (c, p, ec, ep, same) = rw same (
          left-IsCounted C R u k p s b
            (found-count C (is_competition k) (is_competition k) s.competitions c ec
              (C.find_one_passes (is_competition k) s.competitions c ec))
            ep)

  -- After a request to leave that is accepted the user is not in the competition, which has one
  -- participant less, where the counts were right and no id and no membership stood twice.
  pub leave_removes :
      (now k u : ℕ) (s t : Store C R)
      → IsCounted C R s
      → leave now k u s ≡ (ok tt, t)
      → (count R (is_member u k) t.participants ≡ 0)
        × (count R (is_in k) t.participants + 1 ≡ count R (is_in k) s.participants)
  leave_removes now k u s t b h =
      let (c, p, ec, ep, same) = rw h at (leave-LeaveEffect now k u s) in
      let own = R.find_one_passes (is_member u k) s.participants p ep in
      rw same (
        ground (
          arith,
          b.single u k,
          count-delete_one R (is_member u k) (has_id p.id) (is_member u k) p s.participants
              (b.unique_ids p.id) ep (==_refl p.id),
          own,
        ),
        ground (
          arith,
          count-delete_one R (is_in k) (has_id p.id) (is_member u k) p s.participants
              (b.unique_ids p.id) ep (==_refl p.id),
          own,
        ),
      )
