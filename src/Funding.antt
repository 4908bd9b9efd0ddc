-- ===== src/Funding.antt =====
-- typescript/src/credit-pack-funding.ts: the balance of the credit packs, and the collection of pack
-- debts from a lot or from the subscription balance.
pub mod Lots
pub mod Rounds
pub mod Settles
pub mod FromLot
pub mod FromSubscription
pub mod Debits
use stripe_entitlements_fast.Base.{
  ℕ, suc, ◌+◌, ◌-◌, List, [], ◌∷◌, ◌++◌, Bool, true, false, none, ◌&&◌, ◌==◌, ltb, leb,
  if◌then◌else◌, smaller, select, find, exists, update, sum_of, sub_ℕ,
}
use stripe_entitlements_fast.Store.{
  Db, Lot, LotStatus, lot_active, PackDebt, Debit, debt_collection, Source, subscription,
  credit_pack, EventTag, pack_debt_collection, Tx, pure, raise, get_db, modify, or_raise,
  account_not_found, unique_violation, lot_changed, ◌>>=◌, ◌>>◌,
}
use stripe_entitlements_fast.Store.Tables.{order_by, le_pair, count}

abbrev pub is_lot_active : LotStatus → Bool
is_lot_active lot_active = true
is_lot_active _ = false

-- an active lot of the account that has not expired at the instant
abbrev pub is_spendable_lot : ℕ → ℕ → Lot → Bool
is_spendable_lot account as_of l =
    l.account_id == account && is_lot_active l.status && ltb as_of l.expires_at

-- `order by expires_at,id`
abbrev pub spendable_lots : ℕ → ℕ → Db → List Lot
spendable_lots account as_of db =
    order_by (λ a b. le_pair a.expires_at a.id b.expires_at b.id)
      (select (is_spendable_lot account as_of) db.lots)

-- `packBalanceAtoms`, at a given instant
unfoldable pub pack_balance_atoms : ℕ → ℕ → Db → ℕ
pack_balance_atoms account as_of db = sum_of (λ l. l.remaining) (spendable_lots account as_of db)

-- The insert of a debit row: its key is the primary key.
unfoldable pub insert_debit : Debit → Tx (Unit {0})
insert_debit d db =
    if exists (λ e. e.key == d.key) db.debits
    then raise unique_violation db
    else modify (λ db. record db { debits = db.debits ++ d ∷ [] }) db

-- The insert of an allocation row: its id is the next of the sequence.
unfoldable pub insert_allocation : ℕ → ℕ → Source → ℕ → Db → Db
insert_allocation key account source amount db = record db {
  allocations =
      db.allocations
      ++ record {
        id = db.next_allocation;
        debit_key = key;
        account_id = account;
        source = source;
        amount = amount;
        refunded_amount = 0;
      }
        ∷ [];
  next_allocation = suc db.next_allocation;
}

-- `recordDebtCollection`
unfoldable pub record_debt_collection : PackDebt → ℕ → ℕ → Source → Tx (Unit {0})
record_debt_collection debt amount epoch source = do
  db ← get_db
  let key = db.fresh_key db.drawn
  modify (λ db. record db { drawn = suc db.drawn })
  insert_debit (record {
    key = key;
    account_id = debt.account_id;
    amount = amount;
    grant_epoch = epoch;
    kind = debt_collection debt.order_id;
    restored = 0;
    created_at = db.started;
    refunded = false;
  })
  modify (insert_allocation key debt.account_id source amount)

-- the selection of the debts that are still to be collected, `order by created_at,order_id`
abbrev pub is_outstanding : ℕ → PackDebt → Bool
is_outstanding account d = d.account_id == account && ltb (d.collected + d.released) d.target

unfoldable pub outstanding_debts : ℕ → Db → List PackDebt
outstanding_debts account db =
    order_by (λ a b. le_pair a.created_at a.order_id b.created_at b.order_id)
      (select (is_outstanding account) db.pack_debts)

abbrev pub outstanding : PackDebt → ℕ
outstanding d = d.target - d.collected - d.released

unfoldable pub add_collected : ℕ → ℕ → Db → Db
add_collected order amount db = record db {
  pack_debts =
      update (λ d. d.order_id == order) (λ d. record d { collected = d.collected + amount })
        db.pack_debts;
}

-- the loop of `collectPackDebtsFromLot`: what remains of the available atoms
unfoldable pub collect_from_lot : ℕ → ℕ → List PackDebt → ℕ → Tx ℕ
collect_from_lot lot epoch [] remaining = pure remaining
collect_from_lot lot epoch (debt ∷ debts) remaining =
    let amount = smaller remaining (outstanding debt) in
    let rest = (do
      modify (add_collected debt.order_id amount)
      record_debt_collection debt amount epoch (credit_pack lot)
      collect_from_lot lot epoch debts (remaining - amount)) in
    if leb amount 0 then pure remaining else rest

-- the update of a lot that must still hold the amount
unfoldable pub take_from_lot : ℕ → ℕ → Tx (Unit {0})
take_from_lot lot amount db =
    let holds = λ (l : Lot). l.id == lot && leb amount l.remaining in
    if count holds db.lots == 1
    then modify
        (λ db. record db {
          lots = update holds (λ l. record l { remaining = l.remaining - amount }) db.lots;
        })
        db
    else raise lot_changed db

-- `collectPackDebtsFromLot`; its callers hand a non-negative amount
unfoldable pub collect_pack_debts_from_lot : ℕ → ℕ → ℕ → Tx ℕ
collect_pack_debts_from_lot account lot available = do
  db ← get_db
  row ← or_raise (find (λ a. a.id == account) db.accounts) account_not_found
  remaining ← collect_from_lot lot row.grant_epoch (outstanding_debts account db) available
  let collected = available - remaining
  if ltb 0 collected then take_from_lot lot collected else pure tt
  pure collected

abbrev pub set_balance : ℕ → ℕ → Db → Db
set_balance account balance db = record db {
  accounts =
      update (λ a. a.id == account) (λ a. record a { credits_balance = balance }) db.accounts;
}

-- the loop of `collectPackDebtsFromSubscription`: the balance left
unfoldable pub collect_from_balance : ℕ → ℕ → EventTag → List PackDebt → ℕ → Tx ℕ
collect_from_balance account epoch event [] balance = pure balance
collect_from_balance account epoch event (debt ∷ debts) balance =
    let amount = smaller balance (outstanding debt) in
    let rest = (do
      modify (add_collected debt.order_id amount)
      record_debt_collection debt amount epoch (subscription epoch)
      modify (λ db. record db {
        ledger =
            db.ledger
            ++ record {
              account_id = account;
              delta = sub_ℕ 0 amount;
              balance_after = balance - amount;
              entitlement_units = 0;
              reason = pack_debt_collection;
              grant_epoch = epoch;
              event = event;
              invoice = none;
              slot = none;
            }
              ∷ [];
      })
      collect_from_balance account epoch event debts (balance - amount)) in
    if leb amount 0 then pure balance else rest

-- `collectPackDebtsFromSubscription`
unfoldable pub collect_pack_debts_from_subscription : ℕ → ℕ → EventTag → Tx ℕ
collect_pack_debts_from_subscription account epoch event = do
  db ← get_db
  row ← or_raise (find (λ a. a.id == account) db.accounts) account_not_found
  balance ←
      collect_from_balance account epoch event (outstanding_debts account db) row.credits_balance
  if balance == row.credits_balance then pure tt else modify (set_balance account balance)
  pure (row.credits_balance - balance)
