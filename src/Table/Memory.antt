-- ===== src/Table/Memory.antt =====
-- A table held as a list of rows: an implementation of the interface, which shows that it can be
-- met, and on which tests and examples run.
use paya_dev.Base.{
  zero, suc, ltb, ◌&&◌, keep, take, sum_of, length, min, Option-cases, inl, inr, ℕ, ◌+◌, ◌≤◌, ◌≡◌,
  refl, Bool, true, Option, none, some, List, [], ◌∷◌, arith, if◌then◌else◌, weight,
}
use paya_dev.Table.{Table}

module _ {Row : Type 0} where
  abbrev pub total : (Row → ℕ) → List Row → ℕ
  total f [] = 0
  total f (r ∷ s) = f r + total f s

  abbrev pub find_one : (Row → Bool) → List Row → Option Row
  find_one p [] = none
  find_one p (r ∷ s) = if p r then some r else find_one p s

  abbrev pub find_best : (Row → ℕ) → (Row → Bool) → List Row → Option Row
  find_best key p [] = none
  find_best key p (r ∷ s) =
      let rest = find_best key p s in
      if p r
      then elim rest [ none ↦ some r | some b ↦ if ltb (key r) (key b) then some b else some r ]
      else rest

  abbrev pub find_limit : ℕ → (Row → Bool) → List Row → List Row
  find_limit n p s = take n (keep p s)

  abbrev pub update : (Row → Bool) → (Row → Row) → List Row → List Row
  update q g [] = []
  update q g (r ∷ s) = (if q r then g r else r) ∷ update q g s

  abbrev pub delete : (Row → Bool) → List Row → List Row
  delete q [] = []
  delete q (r ∷ s) = let rest = delete q s in if q r then rest else r ∷ rest

  pub find_one_passes :
      (p : Row → Bool) (s : List Row) (r : Row) → find_one p s ≡ some r → p r ≡ true
  find_one_passes p [] r e = cc
  find_one_passes p (x ∷ s) r e = ground (arith, find_one_passes p s r)

  pub find_one_stands :
      (p : Row → Bool) (s : List Row) (r : Row) (f : Row → ℕ)
      → find_one p s ≡ some r
      → f r ≤ total f s
  find_one_stands p [] r f e = cc
  find_one_stands p (x ∷ s) r f e = ground (arith, find_one_stands p s r f)

  pub find_one_none :
      (p : Row → Bool) (s : List Row) → find_one p s ≡ none → total (λ r. weight (p r)) s ≡ 0
  find_one_none p [] e = refl
  find_one_none p (x ∷ s) e = ground (arith, find_one_none p s)

  pub find_best_passes :
      (key : Row → ℕ) (p : Row → Bool) (s : List Row) (r : Row)
      → find_best key p s ≡ some r
      → p r ≡ true
  find_best_passes key p [] r e = cc
  find_best_passes key p (x ∷ s) r e = ground (arith, find_best_passes key p s r)

  pub find_best_stands :
      (key : Row → ℕ) (p : Row → Bool) (s : List Row) (r : Row) (f : Row → ℕ)
      → find_best key p s ≡ some r
      → f r ≤ total f s
  find_best_stands key p [] r f e = cc
  find_best_stands key p (x ∷ s) r f e = ground (arith, find_best_stands key p s r f)

  pub find_best_none :
      (key : Row → ℕ) (p : Row → Bool) (s : List Row)
      → find_best key p s ≡ none
      → total (λ r. weight (p r)) s ≡ 0
  find_best_none key p [] e = refl
  find_best_none key p (x ∷ s) e = ground (arith, find_best_none key p s)

  -- A greater bound leaves fewer rows above it.
  above_mono :
      (key : Row → ℕ) (p : Row → Bool) (s : List Row) (a b : ℕ)
      → a ≤ b
      → total (λ x. weight (p x && ltb b (key x))) s ≤ total (λ x. weight (p x && ltb a (key x))) s
  above_mono key p [] a b h = omega arith
  above_mono key p (x ∷ s) a b h = ground (arith, above_mono key p s a b h)

  above-le-count :
      (key : Row → ℕ) (p : Row → Bool) (s : List Row) (a : ℕ)
      → total (λ x. weight (p x && ltb a (key x))) s ≤ total (λ x. weight (p x)) s
  above-le-count key p [] a = omega arith
  above-le-count key p (x ∷ s) a = ground (arith, above-le-count key p s a)

  pub find_best_greatest :
      (key : Row → ℕ) (p : Row → Bool) (s : List Row) (r : Row)
      → find_best key p s ≡ some r
      → total (λ x. weight (p x && ltb (key r) (key x))) s ≡ 0
  find_best_greatest key p [] r e = cc
  find_best_greatest key p (x ∷ s) r e = elim (Option-cases (find_best key p s)) [
    | inl f ↦ ground (arith, find_best_none key p s f, above-le-count key p s (key r))
    | inr (b, f) ↦
        ground (arith, find_best_greatest key p s b f, above_mono key p s (key b) (key r))
  ]

  pub sum_find :
      (f : Row → ℕ) (p : Row → Bool) (s : List Row)
      → sum_of f (keep p s) ≡ total (λ r. if p r then f r else 0) s
  sum_find f p [] = refl
  sum_find f p (x ∷ s) = ground (arith, sum_find f p s)

  sum_take : (n : ℕ) (f : Row → ℕ) (s : List Row) → sum_of f (take n s) ≤ sum_of f s
  sum_take zero f s = omega arith
  sum_take (suc n) f [] = omega arith
  sum_take (suc n) f (x ∷ s) = omega (arith, sum_take n f s)

  length-take : (n : ℕ) (s : List Row) → length (take n s) ≡ min n (length s)
  length-take zero s = omega arith
  length-take (suc n) [] = omega arith
  length-take (suc n) (x ∷ s) = omega (arith, length-take n s)

  length-keep : (p : Row → Bool) (s : List Row) → length (keep p s) ≡ total (λ r. weight (p r)) s
  length-keep p [] = refl
  length-keep p (x ∷ s) = ground (arith, length-keep p s)

  pub sum_find_limit :
      (n : ℕ) (f : Row → ℕ) (p : Row → Bool) (s : List Row)
      → sum_of f (find_limit n p s) ≤ total (λ r. if p r then f r else 0) s
  sum_find_limit n f p s = omega (arith, sum_take n f (keep p s), sum_find f p s)

  pub length-find_limit :
      (n : ℕ) (p : Row → Bool) (s : List Row)
      → length (find_limit n p s) ≡ min n (total (λ r. weight (p r)) s)
  length-find_limit n p s = omega (arith, length-take n (keep p s), length-keep p s)

  pub total_update :
      (f : Row → ℕ) (q : Row → Bool) (g : Row → Row) (s : List Row)
      → total f (update q g s) ≡ total (λ r. if q r then f (g r) else f r) s
  total_update f q g [] = refl
  total_update f q g (x ∷ s) = ground (arith, total_update f q g s)

  pub total_delete :
      (f : Row → ℕ) (q : Row → Bool) (s : List Row)
      → total f (delete q s) ≡ total (λ r. if q r then 0 else f r) s
  total_delete f q [] = refl
  total_delete f q (x ∷ s) = ground (arith, total_delete f q s)

  pub total_add : (f g : Row → ℕ) (s : List Row) → total (λ r. f r + g r) s ≡ total f s + total g s
  total_add f g [] = omega arith
  total_add f g (x ∷ s) = omega (arith, total_add f g s)

  pub total_mono : (f g : Row → ℕ) (s : List Row) → ((r : Row) → f r ≤ g r) → total f s ≤ total g s
  total_mono f g [] h = omega arith
  total_mono f g (x ∷ s) h = omega (arith, h x, total_mono f g s h)

abbrev pub memory : (Row : Type 0) → Table Row
memory Row = record {
  Contents = List Row;
  total = total;
  find_one = find_one;
  insert = λ r s. r ∷ s;
  update = update;
  delete = delete;
  find_best = find_best;
  find = keep;
  find_limit = find_limit;
  find_best_passes = find_best_passes;
  find_best_stands = find_best_stands;
  find_best_greatest = find_best_greatest;
  find_best_none = find_best_none;
  sum_find = sum_find;
  sum_find_limit = sum_find_limit;
  length-find_limit = length-find_limit;
  find_one_passes = find_one_passes;
  find_one_stands = find_one_stands;
  find_one_none = find_one_none;
  total_insert = λ f r s. refl;
  total_update = total_update;
  total_delete = total_delete;
  total_add = total_add;
  total_mono = total_mono;
}
