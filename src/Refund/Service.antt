-- ===== src/Refund/Service.antt =====
-- `CreditService.refund` of typescript/src/credits.ts. The key has passed `validateIdempotencyKey`.
pub mod Terminal
pub mod Settled
pub mod Again
use stripe_entitlements_fast.Base.{
  ℕ, ◌+◌, ◌-◌, List, [], ◌∷◌, true, not, some, none, Option, ◌==◌, ltb, leb, if◌then◌else◌, select,
  find, update,
}
use stripe_entitlements_fast.Store.{
  Db, Account, Debit, Allocation, usage_refund, usage_refund_event, Tx, pure, raise_if, get_db,
  modify, or_raise, account_not_found, debit_not_found, owner_mismatch, restored_exceeds_amount,
  row_missing, ◌>>=◌, ◌>>◌,
}
use stripe_entitlements_fast.Store.Tables.{order_by}
use stripe_entitlements_fast.Spendable.{subscription_atoms}
use stripe_entitlements_fast.Funding.{pack_balance_atoms}
use stripe_entitlements_fast.Charge.{
  CreditResult, refunded, replayed, epoch_expired, expire_account_pack_lots, is_usage,
}
use stripe_entitlements_fast.Refund.Collections.{
  checked_add_atoms, return_subscription_atoms, add_refunded,
}
use stripe_entitlements_fast.Refund.Restore.{restore_allocation_effect}

-- the loop over the allocations of the debit: the atoms that were restored
unfoldable pub restore_allocations : ℕ → Account → ℕ → List Allocation → ℕ → Tx ℕ
restore_allocations fuel account key [] restored = pure restored
restore_allocations fuel account key (a ∷ as') restored =
    let pending = a.amount - a.refunded_amount in
    let restore = (do
      db ← get_db
      effect ←
          restore_allocation_effect fuel account db.clock (key ∷ []) a pending
            (usage_refund_event key) usage_refund
      add_refunded a.id pending
      pure effect) in
    do
      effect ← (if leb pending 0 then pure 0 else restore)
      restore_allocations fuel account key as' (restored + effect)

-- a debit without allocations came from the subscription alone
unfoldable pub restore_debit : ℕ → Account → Debit → List Allocation → Tx ℕ
restore_debit fuel account debit [] = do
  db ← get_db
  if debit.grant_epoch == account.grant_epoch
      then return_subscription_atoms account debit.amount (usage_refund_event debit.key)
          usage_refund db.clock
      else pure 0
restore_debit fuel account debit (a ∷ as') = restore_allocations fuel account debit.key (a ∷ as') 0

unfoldable pub allocations_of : ℕ → Db → List Allocation
allocations_of key db =
    order_by (λ a b. leb a.id b.id) (select (λ a. a.debit_key == key) db.allocations)

abbrev pub total_balance : Account → Db → ℕ
total_balance account db =
    subscription_atoms account db.clock + pack_balance_atoms account.id db.clock db

-- the terminal update of the debit, and the answer
unfoldable pub finish_refund : Account → Debit → ℕ → Tx CreditResult
finish_refund account debit restored = do
  persisted ← checked_add_atoms debit.restored restored
  raise_if (ltb debit.amount persisted) restored_exceeds_amount
  modify (λ db. record db {
    debits =
        update (λ d. d.key == debit.key) (λ d. record d { restored = persisted; refunded = true })
          db.debits;
  })
  db ← get_db
  refreshed ← or_raise (find (λ a. a.id == account.id) db.accounts) row_missing
  pure (record {
    outcome = if ltb 0 restored then refunded else epoch_expired;
    balance = total_balance refreshed db;
    requested = debit.amount;
    restored = persisted;
  })

-- `refund` once the account is known
unfoldable pub refund_for : ℕ → ℕ → ℕ → Tx CreditResult
refund_for fuel key account_id = do
  db ← get_db
  account ← or_raise (find (λ a. a.id == account_id) db.accounts) account_not_found
  expire_account_pack_lots account.id db.clock
  current ← get_db
  debit ← or_raise (find (λ d. d.key == key) current.debits) debit_not_found
  raise_if (not (debit.account_id == account.id)) owner_mismatch
  raise_if (not (is_usage debit.kind)) debit_not_found
  if debit.refunded
      then pure (record {
        outcome = replayed;
        balance = total_balance account current;
        requested = debit.amount;
        restored = debit.restored;
      })
      else (do
        restored ← restore_debit fuel account debit (allocations_of key current)
        finish_refund account debit restored)

-- `refund`, with the owner that the caller expects, or without
unfoldable pub refund : ℕ → ℕ → Option ℕ → Tx CreditResult
refund fuel key (some account_id) = refund_for fuel key account_id
refund fuel key none = do
  db ← get_db
  debit ← or_raise (find (λ d. d.key == key) db.debits) debit_not_found
  refund_for fuel key debit.account_id
