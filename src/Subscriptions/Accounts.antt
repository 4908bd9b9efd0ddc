-- ===== src/Subscriptions/Accounts.antt =====
-- The account that `lockAccount` of typescript/src/event-processor.ts finds.
use stripe_entitlements_fast.Base.{
  ℕ, ◌≡◌, refl, List, [], ◌∷◌, Bool, true, Option, none, some, arith, find, exists, inl, inr,
  Bool-cases, ==_refl,
}
use stripe_entitlements_fast.Store.{Db, Account}
use stripe_entitlements_fast.PackEvents.{has_account_id, coalesce}
use stripe_entitlements_fast.Runtime.{
  StripeObject, Metadata, subscription_id, external_reference, find_account, or_account, account_by,
  has_external_ref, has_subscription_id, has_customer_id, lock_account,
}

find_of_exists :
    {A : Type 0} (p : A → Bool) (rows : List A)
    → exists p rows ≡ true
    → (d : A) × (find p rows ≡ some d)
find_of_exists p [] h = absurd (ground (arith, h))
find_of_exists p (x ∷ xs) h = elim (Bool-cases (p x)) [
  | inl here ↦ (x, rw here refl)
  | inr there ↦ let d = find_of_exists p xs (rw there at h) in (d.0, rw there d.1)
]

-- the id of a row that is found is the id of a row
find-has_id :
    (p : Account → Bool) (rows : List Account) (a : Account)
    → find p rows ≡ some a
    → exists (has_account_id a.id) rows ≡ true
find-has_id p [] a h = absurd (ground (arith, h))
find-has_id p (x ∷ xs) a h = ground (arith, h, ==_refl x.id, find-has_id p xs a)

HasRow : Db → Option Account → Type 0
HasRow db o = (a : Account) → o ≡ some a → exists (has_account_id a.id) db.accounts ≡ true

find_account-HasRow :
    (has : ℕ → Account → Bool) (k : Option ℕ) (db : Db) → HasRow db (find_account has k db)
unfolding HasRow
find_account-HasRow has none db a h = absurd (ground (arith, h))
find_account-HasRow has (some k) db a h = find-has_id (has k) db.accounts a h

or_account-HasRow :
    (db : Db) (o other : Option Account)
    → HasRow db o
    → HasRow db other
    → HasRow db (or_account o other)
or_account-HasRow db none other p q = q
or_account-HasRow db (some a) other p q = p

account_by-HasRow :
    (db : Db) (k : Option ℕ) (other : Option Account)
    → HasRow db other
    → HasRow db (account_by k other db)
unfolding HasRow
account_by-HasRow db none other p = p
account_by-HasRow db (some k) other p = find-has_id (has_account_id k) db.accounts

-- the account that an event locks is a row
pub lock_account-id :
    (o : StripeObject) (m : Metadata) (db : Db) (a : Account)
    → lock_account o m db ≡ some a
    → (d : Account) × (find (has_account_id a.id) db.accounts ≡ some d)
unfolding lock_account HasRow
lock_account-id o m db a h = find_of_exists (has_account_id a.id) db.accounts (
    account_by-HasRow db m.account_id _
      (or_account-HasRow db _ _ (find_account-HasRow has_external_ref (external_reference m o) db) (
        or_account-HasRow db _ _
          (find_account-HasRow has_subscription_id (coalesce (subscription_id o) o.id) db)
          (find_account-HasRow has_customer_id o.customer db)))
      a h)
