-- ===== src/Clawback.antt =====
-- typescript/src/clawbacks.ts: a debt of refunded subscription funding is collected from the
-- spendable balance of its own grant epoch, oldest debt first.
pub mod Rounds
pub mod Settlement
use stripe_entitlements_fast.Base.{
  ℕ, ◌+◌, ◌-◌, List, [], ◌∷◌, ◌++◌, Bool, some, none, ◌&&◌, ◌==◌, ltb, leb, if◌then◌else◌, smaller,
  select, find, update, sub_ℕ,
}
use stripe_entitlements_fast.Store.{
  Db, ClawbackDebt, EventTag, clawback_collection, Tx, pure, get_db, modify, or_raise,
  account_not_found, ◌>>=◌, ◌>>◌,
}
use stripe_entitlements_fast.Store.Tables.{order_by, le_pair}

module _ (account : ℕ) (epoch : ℕ) (event : EventTag) where
  -- the `where` clause of the selection
  abbrev pub is_outstanding : ClawbackDebt → Bool
  is_outstanding d = d.account_id == account && d.grant_epoch == epoch && ltb d.collected d.target

  -- `order by created_at,stripe_invoice_id`
  unfoldable pub outstanding_debts : Db → List ClawbackDebt
  outstanding_debts db =
      order_by (λ a b. le_pair a.created_at a.invoice b.created_at b.invoice)
        (select is_outstanding db.clawback_debts)

  -- the `where` clause of the update
  abbrev pub is_debt : ℕ → ClawbackDebt → Bool
  is_debt invoice d = d.account_id == account && d.grant_epoch == epoch && d.invoice == invoice

  abbrev pub collect : ℕ → ClawbackDebt → ClawbackDebt
  collect amount d = record d { collected = d.collected + amount }

  -- the two statements of a round: the debt's row, and the ledger entry
  unfoldable pub record_collection : ClawbackDebt → ℕ → ℕ → Db → Db
  record_collection debt amount balance db = record db {
    clawback_debts = update (is_debt debt.invoice) (collect amount) db.clawback_debts;
    ledger =
        db.ledger
        ++ record {
          account_id = account;
          delta = sub_ℕ 0 amount;
          balance_after = balance;
          entitlement_units = 0;
          reason = clawback_collection;
          grant_epoch = epoch;
          event = event;
          invoice = some debt.invoice;
          slot = none;
        }
          ∷ [];
  }

  -- The loop over the selected debts: the balance left, the amount collected, the database.
  unfoldable pub collect_debts : List ClawbackDebt → ℕ → ℕ → Db → ℕ × ℕ × Db
  collect_debts [] balance collected db = (balance, collected, db)
  collect_debts (debt ∷ debts) balance collected db =
      let amount = smaller (debt.target - debt.collected) balance in
      let rest =
        collect_debts debts (balance - amount) (collected + amount)
          (record_collection debt amount (balance - amount) db) in
      if leb amount 0 then (balance, collected, db) else rest

  abbrev pub set_balance : ℕ → Db → Db
  set_balance balance db = record db {
    accounts =
        update (λ a. a.id == account) (λ a. record a { credits_balance = balance }) db.accounts;
  }

  -- `collectClawbackDebts`
  unfoldable pub collect_clawback_debts : Tx ℕ
  collect_clawback_debts = do
    db ← get_db
    row ← or_raise (find (λ a. a.id == account) db.accounts) account_not_found
    let r = collect_debts (outstanding_debts db) row.credits_balance 0 db
    modify (λ _. if ltb 0 r.1 then set_balance r.0 r.2 else r.2)
    pure r.1
