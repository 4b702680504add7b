-- ===== src/Table/Laws.antt =====
-- What follows from the interface of a table, for counts of rows.
use paya_dev.Base.{
  ℕ, zero, suc, ◌+◌, ◌*◌, ◌≤◌, ◌≡◌, refl, sym, ◌∙◌, ap, fun_ext, Bool, true, false, not, some,
  arith, if◌then◌else◌, weight, ◌&&◌,
}
use paya_dev.Table.{Table, count}

weight_mono : (a b : Bool) → (a ≡ true → b ≡ true) → weight a ≤ weight b
weight_mono a true h = ground arith
weight_mono true false h = let e : false ≡ true = h refl in cc
weight_mono false false h = ground arith

if_weight : (a b c : Bool) → (if a then weight b else weight c) ≡ weight (if a then b else c)
if_weight a b c = ground arith

module _ {Row : Type 0} (T : Table Row) where
  pub count-insert :
      (p : Row → Bool) (r : Row) (s : T.Contents)
      → count T p (T.insert r s) ≡ weight (p r) + count T p s
  count-insert p r s = T.total_insert (λ x. weight (p x)) r s

  -- Tests that agree on each row count the same.
  pub count_ext :
      (p q : Row → Bool) (s : T.Contents) → ((r : Row) → p r ≡ q r) → count T p s ≡ count T q s
  count_ext p q s h = ap (λ (f : Row → ℕ). T.total f s) (fun_ext (λ r. ap weight (h r)))

  pub count_mono :
      (p q : Row → Bool) (s : T.Contents)
      → ((r : Row) → p r ≡ true → q r ≡ true)
      → count T p s ≤ count T q s
  count_mono p q s h = T.total_mono _ _ s (λ r. weight_mono (p r) (q r) (h r))

  pub count-update :
      (p q : Row → Bool) (g : Row → Row) (s : T.Contents)
      → count T p (T.update q g s) ≡ count T (λ r. if q r then p (g r) else p r) s
  count-update p q g s =
      T.total_update (λ x. weight (p x)) q g s
      ∙ ap (λ (f : Row → ℕ). T.total f s) (fun_ext (λ r. if_weight (q r) (p (g r)) (p r)))

  -- A change that a test does not look at leaves its count.
  pub total-update_same :
      (f : Row → ℕ) (q : Row → Bool) (g : Row → Row) (s : T.Contents)
      → ((r : Row) → f (g r) ≡ f r)
      → T.total f (T.update q g s) ≡ T.total f s
  total-update_same f q g s h =
      T.total_update f q g s
      ∙ ap (λ (k : Row → ℕ). T.total k s) (fun_ext (λ r. ground (arith, h r)))

  pub count-update_same :
      (p q : Row → Bool) (g : Row → Row) (s : T.Contents)
      → ((r : Row) → p (g r) ≡ p r)
      → count T p (T.update q g s) ≡ count T p s
  count-update_same p q g s h = total-update_same (λ r. weight (p r)) q g s (λ r. ap weight (h r))

  pub count-update-le :
      (p q : Row → Bool) (g : Row → Row) (s : T.Contents)
      → ((r : Row) → q r ≡ true → p (g r) ≡ true → p r ≡ true)
      → count T p (T.update q g s) ≤ count T p s
  count-update-le p q g s h = omega (
    arith,
    count-update p q g s,
    count_mono (λ r. if q r then p (g r) else p r) p s (λ r. ground (arith, h r)),
  )

  pub count-delete :
      (p q : Row → Bool) (s : T.Contents)
      → count T p (T.delete q s) ≡ count T (λ r. if q r then false else p r) s
  count-delete p q s =
      T.total_delete (λ x. weight (p x)) q s
      ∙ ap (λ (f : Row → ℕ). T.total f s) (fun_ext (λ r. if_weight (q r) false (p r)))

  pub count-delete-le : (p q : Row → Bool) (s : T.Contents) → count T p (T.delete q s) ≤ count T p s
  count-delete-le p q s = omega (
    arith,
    count-delete p q s,
    count_mono (λ r. if q r then false else p r) p s (λ r. ground arith),
  )

  -- What no row fails, holds of a row that is found.
  pub found-passes :
      (P q : Row → Bool) (s : T.Contents) (r : Row)
      → count T (λ x. not (P x)) s ≡ 0
      → T.find_one q s ≡ some r
      → P r ≡ true
  found-passes P q s r h e = ground (arith, T.find_one_stands q s r (λ x. weight (not (P x))) e)

  -- A row that passes the search and a further test is counted.
  pub found-count :
      (p q : Row → Bool) (s : T.Contents) (r : Row)
      → T.find_one q s ≡ some r
      → p r ≡ true
      → 1 ≤ count T p s
  found-count p q s r e h = ground (arith, T.find_one_stands q s r (λ x. weight (p x)) e)

  -- After a search that found nothing one more row makes at most one.
  pub count-insert_le_one :
      (p : Row → Bool) (r : Row) (s : T.Contents)
      → count T p s ≤ 1
      → (p r ≡ true → count T p s ≡ 0)
      → count T p (T.insert r s) ≤ 1
  count-insert_le_one p r s h k = ground (arith, count-insert p r s)

  -- Sums of numbers that agree row by row agree.
  pub total_congr :
      (f g h k : Row → ℕ) (s : T.Contents)
      → ((r : Row) → f r + g r ≡ h r + k r)
      → T.total f s + T.total g s ≡ T.total h s + T.total k s
  total_congr f g h k s e =
      sym (T.total_add f g s) ∙ ap (λ (j : Row → ℕ). T.total j s) (fun_ext e) ∙ T.total_add h k s

  pub total-zero : (s : T.Contents) → T.total (λ _. 0) s ≡ 0
  total-zero s =
      let e : T.total (λ _. 0) s ≡ T.total (λ _. 0) s + T.total (λ _. 0) s =
        ap (λ (j : Row → ℕ). T.total j s) (fun_ext (λ _. omega arith))
        ∙ T.total_add (λ _. 0) (λ _. 0) s in
      omega arith

  -- A number taken from each row that passes a test is taken as often as the test counts.
  pub total_scale :
      (q : Row → Bool) (a : ℕ) (s : T.Contents)
      → T.total (λ r. if q r then a else 0) s ≡ a * count T q s
  total_scale q zero s =
      ap (λ (j : Row → ℕ). T.total j s) (fun_ext (λ r. ground arith)) ∙ total-zero s ∙ omega arith
  total_scale q (suc a) s =
      ap (λ (j : Row → ℕ). T.total j s) (fun_ext (λ r. split_suc (q r)))
      ∙ T.total_add (λ r. weight (q r)) (λ r. if q r then a else 0) s
      ∙ omega (arith, total_scale q a s)
    where
      split_suc : (b : Bool) → (if b then suc a else 0) ≡ weight b + (if b then a else 0)
      split_suc true = omega arith
      split_suc false = omega arith

  -- An update that moves the difference of two numbers by `a - b` in the rows that it changes moves
  -- the difference of their sums as often as it changes a row.
  pub total-update_balance :
      (f f' : Row → ℕ) (a b : ℕ) (q : Row → Bool) (g : Row → Row) (s : T.Contents)
      → ((r : Row) → q r ≡ true → f (g r) + f' r + b ≡ f' (g r) + f r + a)
      → T.total f (T.update q g s) + T.total f' s + b * count T q s
        ≡ T.total f' (T.update q g s) + T.total f s + a * count T q s
  total-update_balance f f' a b q g s e = omega (
    arith,
    T.total_update f q g s,
    T.total_update f' q g s,
    total_scale q a s,
    total_scale q b s,
    T.total_add (λ r. if q r then f (g r) else f r) f' s,
    T.total_add (λ r. if q r then f' (g r) else f' r) f s,
    total_congr (λ r. (if q r then f (g r) else f r) + f' r) (λ r. if q r then b else 0)
        (λ r. (if q r then f' (g r) else f' r) + f r) (λ r. if q r then a else 0) s
        (λ r. ground (arith, e r)),
  )

  -- The same for an update of one row.
  pub total-update_one :
      (f f' : Row → ℕ) (a b : ℕ) (q : Row → Bool) (g : Row → Row) (s : T.Contents)
      → count T q s ≡ 1
      → ((r : Row) → q r ≡ true → f (g r) + f' r + b ≡ f' (g r) + f r + a)
      → T.total f (T.update q g s) + T.total f' s + b
        ≡ T.total f' (T.update q g s) + T.total f s + a
  total-update_one f f' a b q g s one e =
      let law = rw one at (total-update_balance f f' a b q g s e) in omega (arith, law)

  -- An update of one row that adds `a` to a number of it.
  pub total-update_plus :
      (f : Row → ℕ) (a : ℕ) (q : Row → Bool) (g : Row → Row) (s : T.Contents)
      → count T q s ≡ 1
      → ((r : Row) → q r ≡ true → f (g r) ≡ f r + a)
      → T.total f (T.update q g s) ≡ T.total f s + a
  total-update_plus f a q g s one e = omega (
    arith,
    total-zero s,
    total-zero (T.update q g s),
    total-update_one f (λ _. 0) a 0 q g s one (λ r h. omega (arith, e r h)),
  )

  -- A test that no row can pass counts none.
  pub count_none : (p : Row → Bool) (s : T.Contents) → ((r : Row) → p r ≡ false) → count T p s ≡ 0
  count_none p s h =
      ap (λ (j : Row → ℕ). T.total j s) (fun_ext (λ r. ap weight (h r))) ∙ total-zero s

  pub count_split :
      (p q : Row → Bool) (s : T.Contents)
      → count T p s ≡ count T (λ r. p r && q r) s + count T (λ r. p r && not (q r)) s
  count_split p q s =
      ap (λ (j : Row → ℕ). T.total j s) (fun_ext (λ r. ground arith))
      ∙ T.total_add (λ r. weight (p r && q r)) (λ r. weight (p r && not (q r))) s

  -- An update loses no row from a count if the rows that it changes still pass.
  pub count-update-ge :
      (p q : Row → Bool) (g : Row → Row) (s : T.Contents)
      → ((r : Row) → q r ≡ true → p r ≡ true → p (g r) ≡ true)
      → count T p s ≤ count T p (T.update q g s)
  count-update-ge p q g s h = omega (
    arith,
    count-update p q g s,
    count_mono p (λ r. if q r then p (g r) else p r) s (λ r. ground (arith, h r)),
  )

  -- Where at most one row passes `q`, and a row that does fails `p`, no row passes both.
  pub count_exclusive :
      (p q find : Row → Bool) (r : Row) (s : T.Contents)
      → count T q s ≤ 1
      → T.find_one find s ≡ some r
      → q r ≡ true
      → p r ≡ false
      → count T (λ x. q x && p x) s ≡ 0
  count_exclusive p q find r s few e hq hp =
      omega
        (arith, count_split q p s, found-count (λ x. q x && not (p x)) find s r e (ground arith))

  -- Where at most one row passes `q`, deleting by it takes a found row out of every count.
  pub count-delete_one :
      (p q find : Row → Bool) (r : Row) (s : T.Contents)
      → count T q s ≤ 1
      → T.find_one find s ≡ some r
      → q r ≡ true
      → count T p (T.delete q s) + weight (p r) ≡ count T p s
  count-delete_one p q find r s few e hq =
      omega (arith, count-delete p q s, count_split p q s, rest, hit (p r) refl)
    where
      rest : count T (λ x. if q x then false else p x) s ≡ count T (λ x. p x && not (q x)) s
      rest = ap (λ (j : Row → ℕ). T.total j s) (fun_ext (λ x. ground arith))

      flip : count T (λ x. p x && q x) s ≡ count T (λ x. q x && p x) s
      flip = ap (λ (j : Row → ℕ). T.total j s) (fun_ext (λ x. ground arith))

      hit : (b : Bool) → p r ≡ b → count T (λ x. p x && q x) s ≡ weight b
      hit true h = omega (
        arith,
        found-count (λ x. p x && q x) find s r e (ground arith),
        count_mono (λ x. p x && q x) q s (λ x. ground arith),
      )
      hit false h = flip ∙ count_exclusive p q find r s few e hq h
