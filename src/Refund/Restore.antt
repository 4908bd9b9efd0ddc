-- ===== src/Refund/Restore.antt =====
-- `#restoreAllocationEffect` of typescript/src/credits.ts. It calls itself through `#relievePackDebt`
-- along chains of collected debts; the fuel is the depth of the call stack, and running out of it is
-- the exception of a stack that overflows.
use stripe_entitlements_fast.Base.{
  ℕ, zero, suc, ◌+◌, ◌-◌, List, not, ◌&&◌, ◌==◌, leb, if◌then◌else◌, smaller, find, update,
}
use stripe_entitlements_fast.Store.{
  Db, Account, Lot, lot_active, lot_expired, Order, subscription, credit_pack, Tx, pure, raise,
  raise_if, get_db, modify, or_raise, lot_missing, order_missing, stack_overflow, row_missing,
  ◌>>=◌, ◌>>◌,
}
use stripe_entitlements_fast.Funding.{is_lot_active, collect_pack_debts_from_lot}
use stripe_entitlements_fast.Charge.{expire_lot}
use stripe_entitlements_fast.Refund.Collections.{
  checked_add_atoms, return_subscription_atoms, RestoreCall, relieve_pack_debt,
}

-- a lot that the instant has passed is expired first, and read again
unfoldable pub expire_now : Lot → ℕ → Tx Lot
expire_now lot as_of =
    if is_lot_active lot.status && leb lot.expires_at as_of
    then (do
      modify (λ db. record db { lots = update (λ l. l.id == lot.id) expire_lot db.lots })
      db ← get_db
      or_raise (find (λ l. l.id == lot.id) db.lots) row_missing)
    else pure lot

abbrev pub add_remaining : ℕ → ℕ → Db → Db
add_remaining lot amount db = record db {
  lots = update (λ l. l.id == lot) (λ l. record l { remaining = l.remaining + amount }) db.lots;
}

abbrev pub add_expired : ℕ → ℕ → Db → Db
add_expired lot amount db = record db {
  lots = update (λ l. l.id == lot) (λ l. record l { expired = l.expired + amount }) db.lots;
}

-- what goes back to the lot, by its status: the atoms that can be spent again
unfoldable pub return_to_lot : ℕ → Lot → Order → ℕ → Tx ℕ
return_to_lot account lot order restorable =
    let returned =
      smaller restorable (order.pack_credits - order.refunded_credits - lot.remaining) in
    let retired = smaller restorable (order.pack_credits - order.refunded_credits - lot.expired) in
    if leb restorable 0 then pure 0 else elim lot.status [
      | lot_active ↦ if leb returned 0 then pure returned else (do
        checked_add_atoms lot.remaining returned
        modify (add_remaining lot.id returned)
        collect_pack_debts_from_lot account lot.id returned
        pure returned)
      | lot_expired ↦ if leb retired 0 then pure 0 else (do
        checked_add_atoms lot.expired retired
        modify (add_expired lot.id retired)
        pure 0)
      | _ ↦ pure 0
    ]

-- the branch of a credit pack, over the call that `#relievePackDebt` makes
unfoldable pub restore_to_pack : RestoreCall → Account → ℕ → ℕ → List ℕ → ℕ → Tx ℕ
restore_to_pack restore account lot_id amount visiting as_of = do
  db ← get_db
  found ← or_raise (find (λ l. l.id == lot_id) db.lots) lot_missing
  raise_if (not (found.account_id == account.id)) lot_missing
  lot ← expire_now found as_of
  order ← or_raise (find (λ o. o.id == lot.order_id) db.orders) order_missing
  raise_if (not (order.account_id == account.id)) order_missing
  relief ← relieve_pack_debt restore account.id order.id amount visiting
  returned ← return_to_lot account.id lot order (amount - relief.0)
  pure (relief.1 + returned)

-- `#restoreAllocationEffect`
unfoldable pub restore_allocation_effect : ℕ → Account → ℕ → RestoreCall
restore_allocation_effect zero account as_of visiting a amount event reason = raise stack_overflow
restore_allocation_effect (suc fuel) account as_of visiting a amount event reason = elim a.source [
  | subscription epoch ↦
      if epoch == account.grant_epoch
      then return_subscription_atoms account amount event reason as_of
      else pure 0
  | credit_pack lot ↦
      restore_to_pack (restore_allocation_effect fuel account as_of) account lot amount visiting
        as_of
]
