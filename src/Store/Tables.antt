-- ===== src/Store/Tables.antt =====
-- The SQL that the services share: `select ... where`, `order by` on two columns, `update ... where`
-- with its row count.
pub mod Updates
pub mod Sorting
pub mod Pending
pub mod Appending
use stripe_entitlements_fast.Base.{
  ℕ, suc, List, [], ◌∷◌, Bool, ◌&&◌, ◌||◌, ltb, leb, ◌==◌, if◌then◌else◌,
}

module _ {ℓ} {A : Type ℓ} where
  -- `order by`: insertion sort by a Boolean order
  abbrev pub insert_by : (A → A → Bool) → A → List A → List A
  insert_by le x [] = x ∷ []
  insert_by le x (y ∷ ys) = if le x y then x ∷ y ∷ ys else y ∷ insert_by le x ys

  abbrev pub order_by : (A → A → Bool) → List A → List A
  order_by le [] = []
  order_by le (x ∷ xs) = insert_by le x (order_by le xs)

  -- The number of rows that a condition selects (`rowCount`).
  abbrev pub count : (A → Bool) → List A → ℕ
  count p [] = 0
  count p (x ∷ xs) = let rest = count p xs in if p x then suc rest else rest

-- The order of the pairs of two columns.
abbrev pub le_pair : ℕ → ℕ → ℕ → ℕ → Bool
le_pair a b a' b' = ltb a a' || ((a == a') && leb b b')
