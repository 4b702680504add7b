-- ===== src/Competitions/Members.antt =====
-- Joining and leaving a competition: the participant count, the capacity, and one membership each.
use paya_dev.Base.{ℕ, ◌+◌, ◌≤◌, ◌≡◌, refl, Bool, some, ◌==◌, if◌then◌else◌, arith, ==_refl}
use paya_dev.Base.Int.{ℤ, pos, negsuc, pos_part, neg_part, +ℤ_parts}
use paya_dev.Table.{Table, count}
use paya_dev.Table.Laws.{
  count-insert, count-insert_le_one, count-update_same, count-delete-le, count-delete_one,
  total-update_one,
}
use paya_dev.Competitions.{
  Competition, Participant, Store, is_competition, is_in, is_member, shift_count,
}

abbrev pub at : Bool → ℕ → ℕ
at b n = if b then n else 0

abbrev pub has_id : ℕ → Participant → Bool
has_id k p = p.id == k

module _ (C : Table Competition) (R : Table Participant) where
  -- The participant count of each competition is the number of its participants (its positive and
  -- its negative part are kept apart); ids are unique, and nobody is in a competition twice.
  pub record IsCounted (s : Store C R) : Type 0 where
    pub unique : (k : ℕ) → count C (is_competition k) s.competitions ≤ 1
    pub unique_ids : (k : ℕ) → count R (has_id k) s.participants ≤ 1
    pub single : (u k : ℕ) → count R (is_member u k) s.participants ≤ 1
    pub counted :
        (k : ℕ)
        → C.total (λ c. at (c.id == k) (pos_part c.participant_count)) s.competitions
          ≡ C.total (λ c. at (c.id == k) (neg_part c.participant_count)) s.competitions
            + count R (is_in k) s.participants

  shifted :
      (d : ℤ) (j k : ℕ) (s : C.Contents)
      → count C (is_competition j) s ≡ 1
      → let t = C.update (is_competition j) (shift_count d) s in
        C.total (λ c. at (c.id == k) (pos_part c.participant_count)) t
          + C.total (λ c. at (c.id == k) (neg_part c.participant_count)) s
          + at (j == k) (neg_part d)
        ≡ C.total (λ c. at (c.id == k) (neg_part c.participant_count)) t
          + C.total (λ c. at (c.id == k) (pos_part c.participant_count)) s
          + at (j == k) (pos_part d)
  shifted d j k s one =
      total-update_one C _ _ (at (j == k) (pos_part d)) (at (j == k) (neg_part d)) _ _ s one
        (λ c h. ground (arith, +ℤ_parts c.participant_count d))

  abbrev pub joined : Participant → Store C R → Store C R
  joined p s = record s {
    participants = R.insert p s.participants;
    competitions = C.update (is_competition p.competition) (shift_count (pos 1)) s.competitions;
  }

  pub joined-IsCounted :
      (p : Participant) (s : Store C R)
      → IsCounted s
      → 1 ≤ count C (is_competition p.competition) s.competitions
      → count R (has_id p.id) s.participants ≡ 0
      → count R (is_member p.user p.competition) s.participants ≡ 0
      → IsCounted (joined p s)
  joined-IsCounted p s b there new free = record {
    unique = λ k. omega (
      arith,
      b.unique k,
      count-update_same C (is_competition k) (is_competition p.competition) (shift_count (pos 1))
          s.competitions (λ c. refl),
    );
    unique_ids = λ k.
        count-insert_le_one R (has_id k) p s.participants (b.unique_ids k)
          (λ e. let i : p.id ≡ k = ground arith in rw (← i) new);
    single = λ u k. count-insert_le_one R (is_member u k) p s.participants (b.single u k) (λ e.
        let i : p.user ≡ u = ground arith in
        let j : p.competition ≡ k = ground arith in rw (← i, ← j) free);
    counted = λ k. ground (
      arith,
      b.counted k,
      shifted (pos 1) p.competition k s.competitions (one k),
      count-insert R (is_in k) p s.participants,
    );
  }
    where
      one : (k : ℕ) → count C (is_competition p.competition) s.competitions ≡ 1
      one k = omega (arith, there, b.unique p.competition)

  abbrev pub left : ℕ → Participant → Store C R → Store C R
  left k p s = record s {
    participants = R.delete (has_id p.id) s.participants;
    competitions = C.update (is_competition k) (shift_count (negsuc 0)) s.competitions;
  }

  pub left-IsCounted :
      (u j : ℕ) (p : Participant) (s : Store C R)
      → IsCounted s
      → 1 ≤ count C (is_competition j) s.competitions
      → R.find_one (is_member u j) s.participants ≡ some p
      → IsCounted (left j p s)
  left-IsCounted u j p s b there found = record {
    unique = λ k. omega (
      arith,
      b.unique k,
      count-update_same C (is_competition k) (is_competition j) (shift_count (negsuc 0))
          s.competitions (λ c. refl),
    );
    unique_ids = λ k.
        omega (arith, b.unique_ids k, count-delete-le R (has_id k) (has_id p.id) s.participants);
    single = λ v k.
        omega (arith, b.single v k, count-delete-le R (is_member v k) (has_id p.id) s.participants);
    counted = λ k. ground (
      arith,
      b.counted k,
      shifted (negsuc 0) j k s.competitions (omega (arith, there, b.unique j)),
      R.find_one_passes (is_member u j) s.participants p found,
      count-delete_one R (is_in k) (has_id p.id) (is_member u j) p s.participants
          (b.unique_ids p.id) found (==_refl p.id),
    );
  }
