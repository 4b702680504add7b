-- ===== src/Table/Single.antt =====
-- The one row that passes a test, for sums over the table.
use paya_dev.Base.{
  ℕ, ◌+◌, ◌≤◌, ◌≡◌, refl, sym, ap, ◌∙◌, fun_ext, Bool, true, some, List, [], ◌∷◌, ◌==◌,
  if◌then◌else◌, arith, weight, ==_refl, sum_of,
}
use paya_dev.Table.{Table, count}

module _ {Row : Type 0} (T : Table Row) where
  found_number : (p : Row → Bool) (s : T.Contents) → sum_of (λ _. 1) (T.find p s) ≡ count T p s
  found_number p s =
      T.sum_find (λ _. 1) p s ∙ ap (λ (j : Row → ℕ). T.total j s) (fun_ext (λ r. ground arith))

  -- No row passes, so no number is taken.
  pub total_of_none :
      (f : Row → ℕ) (p : Row → Bool) (s : T.Contents)
      → count T p s ≡ 0
      → T.total (λ r. if p r then f r else 0) s ≡ 0
  total_of_none f p s none_there =
      sym (T.sum_find f p s) ∙ sums (T.find p s) (found_number p s ∙ none_there)
    where
      sums : (xs : List Row) → sum_of (λ _. 1) xs ≡ 0 → sum_of f xs ≡ 0
      sums [] h = refl
      sums (x ∷ xs) h = ground (arith, h)

  -- A found row that is the only one to pass gives its number.
  pub total_of_one :
      (f : Row → ℕ) (p find : Row → Bool) (r : Row) (s : T.Contents)
      → count T p s ≤ 1
      → T.find_one find s ≡ some r
      → p r ≡ true
      → T.total (λ x. if p x then f x else 0) s ≡ f r
  total_of_one f p find r s few found h =
      sym (T.sum_find f p s) ∙ only (T.find p s) (found_number p s) (λ g. T.sum_find g p s)
    where
      -- What the found row is like, some row that passes is like.
      alike : (g : Row → ℕ) → g r ≤ T.total (λ x. if p x then g x else 0) s
      alike g = ground (arith, T.find_one_stands find s r (λ x. if p x then g x else 0) found)

      only :
          (xs : List Row)
          → sum_of (λ _. 1) xs ≡ count T p s
          → ((g : Row → ℕ) → sum_of g xs ≡ T.total (λ x. if p x then g x else 0) s)
          → sum_of f xs ≡ f r
      only [] n e = ground (arith, alike (λ _. 1), e (λ _. 1))
      only (x ∷ []) n e =
          let same : weight (f r == f r) ≤ weight (f x == f r) + 0 =
            omega (arith, alike (λ y. weight (f y == f r)), e (λ y. weight (f y == f r))) in
          ground (arith, same, ==_refl (f r))
      only (x ∷ y ∷ ys) n e = omega (arith, n, few)

  -- The one row that passes is set to a number, and passes still.
  pub total-update_to :
      (f : Row → ℕ) (n : ℕ) (p find : Row → Bool) (r : Row) (g : Row → Row) (s : T.Contents)
      → count T p s ≤ 1
      → T.find_one find s ≡ some r
      → p r ≡ true
      → ((x : Row) → p x ≡ true → (p (g x) ≡ true) × (f (g x) ≡ n))
      → T.total (λ x. if p x then f x else 0) (T.update p g s) ≡ n
  total-update_to f n p find r g s few found h k =
      T.total_update (λ x. if p x then f x else 0) p g s
      ∙ ap (λ (j : Row → ℕ). T.total j s) (fun_ext (λ x. ground (arith, k x)))
      ∙ total_of_one (λ _. n) p find r s few found h
