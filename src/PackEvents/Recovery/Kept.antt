-- ===== src/PackEvents/Recovery/Kept.antt =====
-- The recovery of credits leaves the orders and the accounts alone
-- (typescript/src/credit-pack-events.ts).
use stripe_entitlements_fast.Base.{ℕ, ◌≡◌, List, ◌==◌, find, Bool}
use stripe_entitlements_fast.Store.{Db, Account, Order, Lot, PackDebt, Tx, modify}
use stripe_entitlements_fast.Store.Frames.{
  Preserves, bind-Preserves, pure-Preserves, raise-Preserves, get_db-Preserves, modify-Preserves,
  if-Preserves, or_raise-Preserves, option-Preserves,
}
use stripe_entitlements_fast.Refund.{checked_add_atoms}
use stripe_entitlements_fast.PackEvents.Contract.{Facts}
use stripe_entitlements_fast.PackEvents.Recovery.{refresh_lot, take_back, debt_of, owe, recover}

-- what changes of the lots and of the pack debts preserve, the recovery preserves
module _ (Kept : Db → Type 0)
    (lots-Kept : (rows : Db → List Lot)
      → Preserves Kept (modify (λ db. record db { lots = rows db })))
    (debts-Kept : (rows : Db → List PackDebt)
      → Preserves Kept (modify (λ db. record db { pack_debts = rows db }))) where
  abbrev Keeps : {A : Type 0} → Tx A → Type 0
  Keeps = Preserves Kept

  ruleset kept_rules = (
    bind-Preserves, pure-Preserves, raise-Preserves, get_db-Preserves, or_raise-Preserves,
    if-Preserves,
  )

  checked_add_atoms-Kept : (a b : ℕ) → Keeps (checked_add_atoms a b)
  unfolding checked_add_atoms
  checked_add_atoms-Kept a b = search (kept_rules)

  refresh_lot-Kept : (lot : Lot) → Keeps (refresh_lot lot)
  unfolding refresh_lot
  refresh_lot-Kept lot = search (kept_rules, lots-Kept) depth 16

  take_back-Kept :
      (terminal dispute : Bool) (n : ℕ) (lot : Lot) → Keeps (take_back terminal dispute n lot)
  unfolding take_back
  take_back-Kept terminal dispute n lot =
      search (kept_rules, lots-Kept, checked_add_atoms-Kept, refresh_lot-Kept) depth 12

  owe-Kept : (o : Order) (account n : ℕ) → Keeps (owe o account n)
  unfolding owe
  owe-Kept o account n = bind-Preserves Kept (get_db-Preserves Kept) (λ db.
      option-Preserves Kept (find (debt_of o.id) db.pack_debts) (debts-Kept _)
        (λ d. search (kept_rules, debts-Kept, checked_add_atoms-Kept) depth 12))

  pub recover-Preserves : (f : Facts) (o : Order) (account n : ℕ) → Keeps (recover f o account n)
  unfolding recover
  recover-Preserves f o account n = bind-Preserves Kept (get_db-Preserves Kept) (λ db.
      option-Preserves Kept (find (λ l. l.order_id == o.id) db.lots) (pure-Preserves Kept 0)
        (λ lot. search (kept_rules, take_back-Kept, owe-Kept) depth 12))

module _ (orders : List Order) (accounts : List Account) where
  -- the tables that stay as they were
  pub record Kept (db : Db) : Type 0 where
    pub orders_kept : db.orders ≡ orders
    pub accounts_kept : db.accounts ≡ accounts

  pub recover-Kept :
      (f : Facts) (o : Order) (account n : ℕ) → Preserves Kept (recover f o account n)
  recover-Kept =
      recover-Preserves Kept
        (λ rows.
          modify-Preserves Kept _
            (λ db k. record { orders_kept = k.orders_kept; accounts_kept = k.accounts_kept }))
        (λ rows.
          modify-Preserves Kept _
            (λ db k. record { orders_kept = k.orders_kept; accounts_kept = k.accounts_kept }))
