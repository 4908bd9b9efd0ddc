-- ===== src/Store/Tables/Appending.antt =====
-- An insert of a row that a condition has not met before.
use stripe_entitlements_fast.Base.{
  ◌+◌, ◌≡◌, refl, List, [], ◌∷◌, ◌++◌, Bool, true, false, some, arith, find, exists, ◌||◌,
  if◌then◌else◌,
}
use stripe_entitlements_fast.Store.Tables.{count}

module _ {A : Type 0} where
  pub find-append :
      (p : A → Bool) (rows : List A) (x : A)
      → exists p rows ≡ false
      → p x ≡ true
      → find p (rows ++ x ∷ []) ≡ some x
  find-append p [] x h e = ground (arith, e)
  find-append p (y ∷ ys) x h e = ground (arith, h, find-append p ys x)

  pub exists-append :
      (p : A → Bool) (rows : List A) (x : A) → p x ≡ true → exists p (rows ++ x ∷ []) ≡ true
  exists-append p [] x e = ground (arith, e)
  exists-append p (y ∷ ys) x e = ground (arith, e, exists-append p ys x)

  pub exists-append_left :
      (p : A → Bool) (rows : List A) (x : A)
      → exists p rows ≡ true
      → exists p (rows ++ x ∷ []) ≡ true
  exists-append_left p [] x e = absurd (ground (arith, e))
  exists-append_left p (y ∷ ys) x e = ground (arith, e, exists-append_left p ys x)

  pub count_of_exists : (p : A → Bool) (rows : List A) → exists p rows ≡ false → count p rows ≡ 0
  count_of_exists p [] h = refl
  count_of_exists p (y ∷ ys) h = ground (arith, h, count_of_exists p ys)

  pub count-append :
      (p : A → Bool) (rows : List A) (x : A)
      → count p (rows ++ x ∷ []) ≡ count p rows + (if p x then 1 else 0)
  count-append p [] x = ground arith
  count-append p (y ∷ ys) x = ground (arith, count-append p ys x)

  pub exists-or_former :
      (p q : A → Bool) (rows : List A)
      → exists (λ r. p r || q r) rows ≡ false
      → exists p rows ≡ false
  exists-or_former p q [] h = refl
  exists-or_former p q (y ∷ ys) h = ground (arith, h, exists-or_former p q ys)
