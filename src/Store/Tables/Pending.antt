-- ===== src/Store/Tables/Pending.antt =====
-- A snapshot of rows that are still in their table while the updates of a loop go through it, one row
-- at a time, by a key that at most one row has.
use stripe_entitlements_fast.Base.{
  ℕ, ◌≤◌, ◌≡◌, ◌≢◌, refl, sym, ◌∙◌, List, [], ◌∷◌, Bool, not, true, false, some, inl, inr, arith,
  if◌then◌else◌, find, update, select, All, Bool-cases,
}
use stripe_entitlements_fast.Store.Tables.{count, insert_by, order_by}
use stripe_entitlements_fast.Store.Tables.Updates.{count-update, find-update}
use stripe_entitlements_fast.Store.Tables.Sorting.{All-insert_by, All-order_by}

-- A key of a table: `hits k` is the condition of an update, and `key` the value it is given.
pub record IsKey {A : Type 0} (hits : ℕ → A → Bool) : Type 0 where
  pub apart : (j k : ℕ) (r : A) → hits j r ≡ true → hits k r ≡ true → j ≡ k

module _ {A : Type 0} (hits : ℕ → A → Bool) (key : A → ℕ) where
  abbrev pub IsUnique : List A → Type 0
  IsUnique rows = (k : ℕ) → count (hits k) rows ≤ 1

  abbrev pub IsPending : List A → List A → Type 0
  IsPending rows = All (λ d. find (hits (key d)) rows ≡ some d)

  abbrev pub IsDistinct : List A → Type 0
  IsDistinct [] = Unit
  IsDistinct (d ∷ ds) = All (λ e. key d ≢ key e) ds × IsDistinct ds

  module _ (k : ℕ) (g : A → A) (keeps : (j : ℕ) (r : A) → hits j (g r) ≡ hits j r) where
    pub update-IsUnique : (rows : List A) → IsUnique rows → IsUnique (update (hits k) g rows)
    update-IsUnique rows u j = omega (arith, count-update (hits j) (hits k) g rows (keeps j), u j)

    pub update-IsPending :
        (rows ds : List A)
        → IsKey hits
        → All (λ e. k ≢ key e) ds
        → IsPending rows ds
        → IsPending (update (hits k) g rows) ds
    update-IsPending rows [] one ne h = tt
    update-IsPending rows (e ∷ ds) one ne h = (
      find-update (hits (key e)) (hits k) g rows (keeps (key e)) (missed e ne.0) ∙ h.0,
      update-IsPending rows ds one ne.1 h.1,
    )
      where
        missed : (f : A) → k ≢ key f → (r : A) → hits k r ≡ true → hits (key f) r ≡ false
        missed f ne r hit = elim (Bool-cases (hits (key f) r)) [
          | inl both ↦ absurd (ne (one.apart k (key f) r hit both))
          | inr other ↦ other
        ]

  count_of_find : (p : A → Bool) (rows : List A) (d : A) → find p rows ≡ some d → 1 ≤ count p rows
  count_of_find p [] d e = ground arith
  count_of_find p (x ∷ xs) d e = ground (arith, count_of_find p xs d)

  IsPending-cons :
      (x : A) (xs ds : List A) → IsUnique (x ∷ xs) → IsPending xs ds → IsPending (x ∷ xs) ds
  IsPending-cons x xs [] u h = tt
  IsPending-cons x xs (d ∷ ds) u h = (
    ground (arith, h.0, u (key d), count_of_find (hits (key d)) xs d),
    IsPending-cons x xs ds u h.1,
  )

  IsUnique-tail : (x : A) (xs : List A) → IsUnique (x ∷ xs) → IsUnique xs
  IsUnique-tail x xs u k = ground (arith, u k)

  -- another pending row has another key
  other_keys :
      (x : A) (xs ds : List A)
      → hits (key x) x ≡ true
      → IsUnique (x ∷ xs)
      → IsPending xs ds
      → All (λ e. key x ≢ key e) ds
  other_keys x xs [] hit u h = tt
  other_keys x xs (d ∷ ds) hit u h = (
    λ e. ground (arith, e, u (key x), count_of_find (hits (key x)) xs d (rw e h.0)),
    other_keys x xs ds hit u h.1,
  )

  IsDistinct-if :
      (b : Bool) (xs ys : List A)
      → IsDistinct xs
      → IsDistinct ys
      → IsDistinct (if b then xs else ys)
  IsDistinct-if true xs ys h k = h
  IsDistinct-if false xs ys h k = k

  IsDistinct-insert_by :
      (le : A → A → Bool) (x : A) (ds : List A)
      → All (λ e. key x ≢ key e) ds
      → IsDistinct ds
      → IsDistinct (insert_by le x ds)
  IsDistinct-insert_by le x [] ne h = (tt, tt)
  IsDistinct-insert_by le x (d ∷ ds) ne h =
      IsDistinct-if (le x d) (x ∷ d ∷ ds) (d ∷ insert_by le x ds) (ne, h)
        (
          All-insert_by (λ e. key d ≢ key e) le x ds (λ e. ne.0 (sym e)) h.0,
          IsDistinct-insert_by le x ds ne.1 h.1,
        )

  IsDistinct-order_by :
      (le : A → A → Bool) (ds : List A) → IsDistinct ds → IsDistinct (order_by le ds)
  IsDistinct-order_by le [] h = tt
  IsDistinct-order_by le (x ∷ xs) h =
      IsDistinct-insert_by le x (order_by le xs) (All-order_by (λ e. key x ≢ key e) le xs h.0)
        (IsDistinct-order_by le xs h.1)

  module _ (s : A → Bool) (self : (d : A) → s d ≡ true → hits (key d) d ≡ true) where
    -- the selected rows of a table are pending in it, with distinct keys
    IsPending-select : (rows : List A) → IsUnique rows → IsPending rows (select s rows)
    IsPending-select [] u = tt
    IsPending-select (x ∷ xs) u =
        let rest =
          IsPending-cons x xs (select s xs) u (IsPending-select xs (IsUnique-tail x xs u)) in
        elim (Bool-cases (s x)) [
          | inl chosen ↦ rw chosen (rw (self x chosen) refl, rest)
          | inr passed ↦ rw passed rest
        ]

    IsDistinct-select : (rows : List A) → IsUnique rows → IsDistinct (select s rows)
    IsDistinct-select [] u = tt
    IsDistinct-select (x ∷ xs) u =
        let rest = IsDistinct-select xs (IsUnique-tail x xs u) in
        elim (Bool-cases (s x)) [
          | inl chosen ↦ rw chosen (
            other_keys x xs (select s xs) (self x chosen) u
                (IsPending-select xs (IsUnique-tail x xs u)),
            rest,
          )
          | inr passed ↦ rw passed rest
        ]

    pub IsPending-ordered :
        (le : A → A → Bool) (rows : List A)
        → IsUnique rows
        → IsPending rows (order_by le (select s rows))
    IsPending-ordered le rows u =
        All-order_by (λ d. find (hits (key d)) rows ≡ some d) le (select s rows)
          (IsPending-select rows u)

    pub IsDistinct-ordered :
        (le : A → A → Bool) (rows : List A)
        → IsUnique rows
        → IsDistinct (order_by le (select s rows))
    IsDistinct-ordered le rows u = IsDistinct-order_by le (select s rows) (IsDistinct-select rows u)

  -- A list that is split by a condition keeps its parts distinct, from themselves and from each other.
  module _ (p : A → Bool) where
    pub All-select {κ} : (P : A → Type κ) (ds : List A) → All P ds → All P (select p ds)
    All-select P [] h = tt
    All-select P (x ∷ xs) h = elim (Bool-cases (p x)) [
      | inl chosen ↦ rw chosen (h.0, All-select P xs h.1)
      | inr passed ↦ rw passed (All-select P xs h.1)
    ]

    pub IsDistinct-part : (ds : List A) → IsDistinct ds → IsDistinct (select p ds)
    IsDistinct-part [] h = tt
    IsDistinct-part (x ∷ xs) h = elim (Bool-cases (p x)) [
      | inl chosen ↦ rw chosen (All-select (λ e. key x ≢ key e) xs h.0, IsDistinct-part xs h.1)
      | inr passed ↦ rw passed (IsDistinct-part xs h.1)
    ]

  abbrev pub AreApart : List A → List A → Type 0
  AreApart ds es = All (λ d. All (λ e. key d ≢ key e) es) ds

  AreApart-cons :
      (x : A) (ds es : List A) → All (λ d. key x ≢ key d) ds → AreApart ds es → AreApart ds (x ∷ es)
  AreApart-cons x [] es h k = tt
  AreApart-cons x (d ∷ ds) es h k = ((λ e. h.0 (sym e), k.0), AreApart-cons x ds es h.1 k.1)

  pub AreApart-nil : (ds : List A) → AreApart ds []
  AreApart-nil [] = tt
  AreApart-nil (d ∷ ds) = (tt, AreApart-nil ds)

  pub AreApart-parts :
      (p : A → Bool) (ds : List A)
      → IsDistinct ds
      → AreApart (select p ds) (select (λ d. not (p d)) ds)
  AreApart-parts p [] h = tt
  AreApart-parts p (x ∷ xs) h =
      let rest = AreApart-parts p xs h.1 in
      elim (Bool-cases (p x)) [
        | inl chosen ↦ rw chosen (All-select (λ d. not (p d)) (λ e. key x ≢ key e) xs h.0, rest)
        | inr passed ↦ rw passed (
            AreApart-cons x (select p xs) (select (λ d. not (p d)) xs)
              (All-select p (λ e. key x ≢ key e) xs h.0) rest)
      ]
