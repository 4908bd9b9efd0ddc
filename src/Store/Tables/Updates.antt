-- ===== src/Store/Tables/Updates.antt =====
-- An update of a table by a key that at most one row has.
use stripe_entitlements_fast.Base.{
  ℕ, ◌+◌, ◌≤◌, ◌≡◌, refl, List, [], ◌∷◌, Bool, true, false, some, arith, find, exists, update,
  sum_of, select, not,
}
use mathlib.Core.Bool.{◌&&◌}
use stripe_entitlements_fast.Store.Tables.{count}

module _ {A : Type 0} where
  pub update-none :
      (p : A → Bool) (g : A → A) (rows : List A) → count p rows ≡ 0 → update p g rows ≡ rows
  update-none p g [] h = refl
  update-none p g (x ∷ xs) h = ground (arith, update-none p g xs)

  pub count-update :
      (p q : A → Bool) (g : A → A) (rows : List A)
      → ((r : A) → p (g r) ≡ p r)
      → count p (update q g rows) ≡ count p rows
  count-update p q g [] h = refl
  count-update p q g (x ∷ xs) h = ground (arith, h x, count-update p q g xs h)

  -- a row that the update does not meet is found as it was
  pub find-update :
      (p q : A → Bool) (g : A → A) (rows : List A)
      → ((r : A) → p (g r) ≡ p r)
      → ((r : A) → q r ≡ true → p r ≡ false)
      → find p (update q g rows) ≡ find p rows
  find-update p q g [] h apart = refl
  find-update p q g (x ∷ xs) h apart = ground (arith, h x, apart x, find-update p q g xs h apart)

  -- the row that the update meets is found as it became
  pub find-update_self :
      (p : A → Bool) (g : A → A) (rows : List A) (d : A)
      → ((r : A) → p (g r) ≡ p r)
      → find p rows ≡ some d
      → find p (update p g rows) ≡ some (g d)
  find-update_self p g [] d h e = ground arith
  find-update_self p g (x ∷ xs) d h e = ground (arith, h x, find-update_self p g xs d h)

  pub sum_of-update :
      (w : A → ℕ) (p : A → Bool) (g : A → A) (rows : List A) (d : A)
      → count p rows ≤ 1
      → find p rows ≡ some d
      → sum_of w (update p g rows) + w d ≡ sum_of w rows + w (g d)
  sum_of-update w p g [] d u e = ground arith
  sum_of-update w p g (x ∷ xs) d u e = ground (arith, sum_of-update w p g xs d, update-none p g xs)

  -- an update that adds to the weight of the row that it meets
  pub sum_of-update_adds :
      (w : A → ℕ) (p : A → Bool) (g : A → A) (rows : List A) (n : ℕ)
      → count p rows ≤ 1
      → ((r : A) → w (g r) ≡ w r + n)
      → sum_of w (update p g rows) ≤ sum_of w rows + n
  sum_of-update_adds w p g [] n u h = ground arith
  sum_of-update_adds w p g (x ∷ xs) n u h =
      ground (arith, h x, sum_of-update_adds w p g xs n, update-none p g xs)

  -- an update that changes no weight changes no sum
  pub sum_of-update_same :
      (w : A → ℕ) (p : A → Bool) (g : A → A) (rows : List A)
      → ((r : A) → p r ≡ true → w (g r) ≡ w r)
      → sum_of w (update p g rows) ≡ sum_of w rows
  sum_of-update_same w p g [] h = refl
  sum_of-update_same w p g (x ∷ xs) h = ground (arith, h x, sum_of-update_same w p g xs h)

  pub select-update_others :
      (p : A → Bool) (g : A → A) (rows : List A)
      → ((r : A) → p (g r) ≡ p r)
      → select (λ r. not (p r)) (update p g rows) ≡ select (λ r. not (p r)) rows
  select-update_others p g [] h = refl
  select-update_others p g (x ∷ xs) h = ground (arith, h x, select-update_others p g xs h)

  pub find-some : (p : A → Bool) (rows : List A) (d : A) → find p rows ≡ some d → p d ≡ true
  find-some p [] d e = ground arith
  find-some p (x ∷ xs) d e = ground (arith, find-some p xs d)

  -- A guarded update, `where key = ... and test`, of a row that passes the test.
  module _ (p q : A → Bool) (g : A → A) where
    count-guarded_none : (rows : List A) → count p rows ≡ 0 → count (λ r. p r && q r) rows ≡ 0
    count-guarded_none [] h = refl
    count-guarded_none (x ∷ xs) h = ground (arith, count-guarded_none xs)

    pub count-guarded :
        (rows : List A) (d : A)
        → count p rows ≤ 1
        → find p rows ≡ some d
        → q d ≡ true
        → count (λ r. p r && q r) rows ≡ 1
    count-guarded [] d u e t = ground arith
    count-guarded (x ∷ xs) d u e t = ground (arith, count-guarded xs d, count-guarded_none xs)

    update-guarded_none :
        (rows : List A) → count p rows ≡ 0 → update (λ r. p r && q r) g rows ≡ update p g rows
    update-guarded_none [] h = refl
    update-guarded_none (x ∷ xs) h = ground (arith, update-guarded_none xs)

    pub update-guarded :
        (rows : List A) (d : A)
        → count p rows ≤ 1
        → find p rows ≡ some d
        → q d ≡ true
        → update (λ r. p r && q r) g rows ≡ update p g rows
    update-guarded [] d u e t = ground arith
    update-guarded (x ∷ xs) d u e t = ground (arith, update-guarded xs d, update-guarded_none xs)

pub exists-update :
    {A : Type 0} (p q : A → Bool) (f : A → A) (rows : List A)
    → ((a : A) → p (f a) ≡ p a)
    → exists p (update q f rows) ≡ exists p rows
exists-update p q f [] same = refl
exists-update p q f (a ∷ rest) same = ground (arith, same a, exists-update p q f rest same)
