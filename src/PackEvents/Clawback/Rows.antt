-- ===== src/PackEvents/Clawback/Rows.antt =====
-- The rows that a clawback (typescript/src/credit-pack-events.ts) locks, and the account that it leaves.
use mathlib.Core.Path.{subst}
use stripe_entitlements_fast.Base.{
  ℕ, ◌≡◌, refl, sym, ap, ◌∙◌, true, Option, none, some, ◌==◌, inl, inr, arith, find, update,
  Bool-cases, Option-cases, ==_refl,
}
use stripe_entitlements_fast.Store.{Db, Account, Order}
use stripe_entitlements_fast.Store.Tables.Updates.{find-update_self}
use stripe_entitlements_fast.PackEvents.{
  nullable_matches, has_order_id, has_account_id, locked_order, adopt_if,
}

-- the rows that `#lockedOrder` finds
pub record Locked (order account : ℕ) (db : Db) (a : Account) (o : Order) : Type 0 where
  pub order_found : find (has_order_id order) db.orders ≡ some o
  pub account_found : find (has_account_id account) db.accounts ≡ some a
  pub owner : (o.account_id == account) ≡ true
  pub own : (o.account_id == a.id) ≡ true

pub locked_order-Locked :
    (order account : ℕ) (db : Db) (a : Account) (o : Order)
    → locked_order order account db ≡ some (a, o)
    → Locked order account db a o
unfolding locked_order
locked_order-Locked order account db a o h =
    elim (Option-cases (find (has_order_id order) db.orders)) [
      | inl missing ↦ absurd (ground (arith, missing))
      | inr (p, there) ↦ elim (Bool-cases (p.account_id == account)) [
        | inr other ↦ absurd (ground (arith, there, other))
        | inl owner ↦ elim (Option-cases (find (has_account_id account) db.accounts)) [
          | inl gone ↦ absurd (ground (arith, there, owner, gone))
          | inr (b, present) ↦ elim (Bool-cases (p.account_id == b.id)) [
            | inr other ↦ absurd (ground (arith, there, owner, present, other))
            | inl own ↦
                let same : (b ≡ a) × (p ≡ o) = ground (arith, there, owner, present, own) in
                record {
                  order_found = there ∙ ap some same.1;
                  account_found = present ∙ ap some same.0;
                  owner = ap (λ (r : Order). r.account_id == account) (sym same.1) ∙ owner;
                  own = ground (arith, same, own);
                }
          ]
        ]
      ]
    ]

pub Locked-locked_order :
    (order account : ℕ) (db : Db) (a : Account) (o : Order)
    → Locked order account db a o
    → locked_order order account db ≡ some (a, o)
unfolding locked_order
Locked-locked_order order account db a o l =
    rw (locked_order, l.order_found, l.owner, l.account_found, l.own) refl

-- the account that a clawback leaves
abbrev pub adopted_if : Option ℕ → Account → ℕ → Account
adopted_if none a customer = record a { customer_id = some customer }
adopted_if (some _) a customer = a

abbrev pub adopted : Account → ℕ → Account
adopted a = adopted_if a.customer_id a

pub adopt_if-found :
    (stored : Option ℕ) (a : Account) (account customer : ℕ) (db : Db)
    → account ≡ a.id
    → find (has_account_id account) db.accounts ≡ some a
    → find (has_account_id account) (adopt_if stored a.id customer db).accounts
      ≡ some (adopted_if stored a customer)
adopt_if-found none a account customer db same h =
    let set = λ (r : Account). record r { customer_id = some customer } in
    subst
      (λ k. find (has_account_id k) (update (has_account_id a.id) set db.accounts) ≡ some (set a))
      (sym same)
      (find-update_self (has_account_id a.id) set db.accounts a (λ r. refl)
        (subst (λ k. find (has_account_id k) db.accounts ≡ some a) same h))
adopt_if-found (some k) a account customer db same h = h

pub adopted-id :
    (stored : Option ℕ) (a : Account) (customer : ℕ) → (adopted_if stored a customer).id ≡ a.id
adopted-id none a customer = refl
adopted-id (some k) a customer = refl

-- the account has a customer
pub adopted-customer :
    (stored : Option ℕ) (a : Account) (customer : ℕ)
    → stored ≡ a.customer_id
    → (k : ℕ) × ((adopted_if stored a customer).customer_id ≡ some k)
adopted-customer none a customer e = (customer, refl)
adopted-customer (some k) a customer e = (k, sym e)

pub adopted-matches :
    (stored : Option ℕ) (a : Account) (customer : ℕ)
    → stored ≡ a.customer_id
    → nullable_matches a.customer_id (some customer) ≡ true
    → nullable_matches (adopted_if stored a customer).customer_id (some customer) ≡ true
adopted-matches none a customer e m = ==_refl customer
adopted-matches (some k) a customer e m = m
