-- ===== src/Store/Tables/Sorting.antt =====
-- What a selection in an order keeps of its table.
use stripe_entitlements_fast.Base.{
  ℕ, ◌+◌, ◌≤◌, ◌≡◌, refl, List, [], ◌∷◌, Bool, not, true, Bool-cases, inl, inr, true, false, arith,
  if◌then◌else◌, select, sum_of, All,
}
use stripe_entitlements_fast.Store.Tables.{count, insert_by, order_by}

module _ {A : Type 0} where
  sum_of-insert_by :
      (w : A → ℕ) (le : A → A → Bool) (x : A) (rows : List A)
      → sum_of w (insert_by le x rows) ≡ w x + sum_of w rows
  sum_of-insert_by w le x [] = refl
  sum_of-insert_by w le x (y ∷ ys) = ground (arith, sum_of-insert_by w le x ys)

  pub sum_of-order_by :
      (w : A → ℕ) (le : A → A → Bool) (rows : List A) → sum_of w (order_by le rows) ≡ sum_of w rows
  sum_of-order_by w le [] = refl
  sum_of-order_by w le (x ∷ xs) =
      omega (arith, sum_of-insert_by w le x (order_by le xs), sum_of-order_by w le xs)

  count-insert_by :
      (p : A → Bool) (le : A → A → Bool) (x : A) (rows : List A)
      → count p (insert_by le x rows) ≡ count p (x ∷ rows)
  count-insert_by p le x [] = refl
  count-insert_by p le x (y ∷ ys) = ground (arith, count-insert_by p le x ys)

  pub count-order_by :
      (p : A → Bool) (le : A → A → Bool) (rows : List A) → count p (order_by le rows) ≡ count p rows
  count-order_by p le [] = refl
  count-order_by p le (x ∷ xs) =
      ground (arith, count-insert_by p le x (order_by le xs), count-order_by p le xs)

  All-if :
      (P : A → Type 0) (b : Bool) (xs ys : List A)
      → All P xs
      → All P ys
      → All P (if b then xs else ys)
  All-if P true xs ys h k = h
  All-if P false xs ys h k = k

  pub All-insert_by :
      (P : A → Type 0) (le : A → A → Bool) (x : A) (rows : List A)
      → P x
      → All P rows
      → All P (insert_by le x rows)
  All-insert_by P le x [] px h = (px, tt)
  All-insert_by P le x (y ∷ ys) px h =
      All-if P (le x y) (x ∷ y ∷ ys) (y ∷ insert_by le x ys) (px, h)
        (h.0, All-insert_by P le x ys px h.1)

  pub All-order_by :
      (P : A → Type 0) (le : A → A → Bool) (rows : List A) → All P rows → All P (order_by le rows)
  All-order_by P le [] h = tt
  All-order_by P le (x ∷ xs) h =
      All-insert_by P le x (order_by le xs) h.0 (All-order_by P le xs h.1)

  pub sum_of-select :
      (w : A → ℕ) (p : A → Bool) (rows : List A)
      → sum_of w (select p rows) ≡ sum_of (λ r. if p r then w r else 0) rows
  sum_of-select w p [] = refl
  sum_of-select w p (x ∷ xs) = ground (arith, sum_of-select w p xs)

  -- a selected row meets at most the rows that the table has under the condition
  pub count-select-le :
      (p q s : A → Bool) (rows : List A)
      → ((r : A) → s r ≡ true → p r ≡ q r)
      → count p (select s rows) ≤ count q rows
  count-select-le p q s [] h = omega arith
  count-select-le p q s (x ∷ xs) h = ground (arith, h x, count-select-le p q s xs h)

  pub sum_of-parts :
      (w : A → ℕ) (p : A → Bool) (rows : List A)
      → sum_of w (select p rows) + sum_of w (select (λ r. not (p r)) rows) ≡ sum_of w rows
  sum_of-parts w p [] = omega arith
  sum_of-parts w p (x ∷ xs) = ground (arith, sum_of-parts w p xs)

  pub All-selected : (p : A → Bool) (rows : List A) → All (λ r. p r ≡ true) (select p rows)
  All-selected p [] = tt
  All-selected p (x ∷ xs) = elim (Bool-cases (p x)) [
    | inl chosen ↦ rw chosen (chosen, All-selected p xs)
    | inr passed ↦ rw passed (All-selected p xs)
  ]
