-- ===== src/Subscriptions/PaymentFailed.antt =====
-- `SubscriptionEventProjector.paymentFailed` of typescript/src/subscription-projector.ts: an Invoice of an
-- account could not be paid.
use stripe_entitlements_fast.Base.{
  ℕ, List, [], ◌∷◌, String, Bool, true, false, not, Option, none, some, ◌&&◌, ◌||◌, ◌==◌, leb,
  str_eq, if◌then◌else◌, select, exists, update,
}
use stripe_entitlements_fast.Store.{
  Db, Account, past_due, LedgerEntry, EffectiveMode, immediate, ChangeStatus, change_applying,
  change_applied, change_requires_action, change_completed, PlanChange, id_key, account_key,
  handled, ignored, replayed, payment_failed_customer_conflict,
  payment_failed_subscription_conflict, unexpected_payment_failed_reason,
  plan_change_payment_failed, unbound_plan_change_payment_failed, Tx, pure, get_db, modify, ◌>>=◌,
  ◌>>◌,
}
use stripe_entitlements_fast.Store.Tables.{order_by}
use stripe_entitlements_fast.PackEvents.{equals}
use stripe_entitlements_fast.Subscriptions.{
  on_account, no_reason, failed_customer, failed_subscription, unsupported_reason,
  settlement_granted, optional_change_failed, unbound_failure, older_or_weaker, SubscriptionResult,
  account_result, event_object, refuse_event, customer_fits, is_own_subscription, change_account,
}
use stripe_entitlements_fast.Runtime.{
  StripeObject, SubscriptionEvent, subscription_id, subscription_metadata, lock_account,
  event_wins_account, projected_cursor,
}

-- `PAID_REASONS`
abbrev pub is_paid_reason : Option String → Bool
is_paid_reason none = false
is_paid_reason (some r) =
    str_eq r "subscription_create"
    || str_eq r "subscription_cycle"
    || str_eq r "subscription_update"

abbrev pub is_update : Option String → Bool
is_update none = false
is_update (some r) = str_eq r "subscription_update"

abbrev pub is_immediate : EffectiveMode → Bool
is_immediate immediate = true
is_immediate _ = false

abbrev pub is_completed_change : ChangeStatus → Bool
is_completed_change change_completed = true
is_completed_change _ = false

abbrev pub is_in_flight : ChangeStatus → Bool
is_in_flight change_applying = true
is_in_flight change_applied = true
is_in_flight change_requires_action = true
is_in_flight _ = false

abbrev pub is_settled_by : Option ℕ → Option ℕ → Bool
is_settled_by none settlement = false
is_settled_by (some invoice) settlement = equals invoice settlement

-- the change of the account's subscription that an invoice settles
abbrev pub is_settlement : ℕ → Option ℕ → Option ℕ → PlanChange → Bool
is_settlement account subscription invoice c =
    c.account_id == account
    && is_settled_by subscription (some c.subscription_id)
    && is_settled_by invoice c.settlement_invoice
    && is_immediate c.effective_mode
    && (is_in_flight c.status || is_completed_change c.status)

abbrev pub is_newer : PlanChange → PlanChange → Bool
is_newer c d = leb d.created_at c.created_at

abbrev pub first : List PlanChange → Option PlanChange
first [] = none
first (c ∷ cs) = some c

-- the latest of them, `pending`
unfoldable pub pending_change : ℕ → Option ℕ → Option ℕ → Db → Option PlanChange
pending_change account subscription invoice db =
    first (order_by is_newer (select (is_settlement account subscription invoice) db.plan_changes))

abbrev pub is_first_grant : ℕ → Option ℕ → LedgerEntry → Bool
is_first_grant account invoice l =
    l.account_id == account && is_settled_by invoice l.invoice && equals 1 l.slot

abbrev pub has_change_id : ℕ → PlanChange → Bool
has_change_id k c = c.id == k

abbrev pub require_action : PlanChange → PlanChange
require_action c = record c { status = change_requires_action }

-- a failed payment of a change in flight: the paid entitlement is kept
unfoldable pub fail_change :
    SubscriptionEvent → StripeObject → Account → PlanChange → Tx SubscriptionResult
fail_change e i a c = do
  modify (λ db. record db {
    plan_changes = update (has_change_id c.id) require_action db.plan_changes;
  })
  refuse_event plan_change_payment_failed optional_change_failed e id_key i.id i.id a

-- the invoice is not that of a change in flight
unfoldable pub fail_unbound : SubscriptionEvent → StripeObject → Account → Tx SubscriptionResult
fail_unbound e i a =
    refuse_event unbound_plan_change_payment_failed unbound_failure e id_key i.id i.id a

unfoldable pub fail_completed : SubscriptionEvent → StripeObject → Account → Tx SubscriptionResult
fail_completed e i a = do
  db ← get_db
  if exists (is_first_grant a.id i.id) db.ledger
      then pure (account_result replayed settlement_granted a)
      else fail_unbound e i a

-- the branch of `subscription_update`
unfoldable pub fail_update : SubscriptionEvent → StripeObject → Account → Tx SubscriptionResult
fail_update e i a = do
  db ← get_db
  elim (pending_change a.id (subscription_id i) i.id db) [
    | none ↦ fail_unbound e i a
    | some c ↦ if is_completed_change c.status then fail_completed e i a else fail_change e i a c
  ]

abbrev pub fall_due : Account → SubscriptionEvent → Account → Account
fall_due a e row = record row { status = past_due; cursor = projected_cursor a e }

-- the end of the handler
unfoldable pub fail_cycle : SubscriptionEvent → Account → Tx SubscriptionResult
fail_cycle e a =
    if not (event_wins_account a e)
    then pure (account_result ignored older_or_weaker a)
    else (do modify (change_account a.id (fall_due a e)); pure (account_result handled no_reason a))

-- the statements on the account
unfoldable pub fail_payment : SubscriptionEvent → StripeObject → Account → Tx SubscriptionResult
fail_payment e i a =
    if not (customer_fits a i.customer)
    then refuse_event payment_failed_customer_conflict failed_customer e (account_key a.id) i.id
        i.id a
    else if not (is_own_subscription a (subscription_id i))
    then refuse_event payment_failed_subscription_conflict failed_subscription e (account_key a.id)
        i.id i.id a
    else if not (is_paid_reason i.billing_reason)
    then refuse_event unexpected_payment_failed_reason unsupported_reason e id_key i.id i.id a
    else if is_update i.billing_reason
    then fail_update e i a
    else fail_cycle e a

-- `paymentFailed`
unfoldable pub payment_failed : SubscriptionEvent → Tx SubscriptionResult
payment_failed e = do
  invoice ← event_object e
  db ← get_db
  on_account (lock_account invoice (subscription_metadata invoice) db) (fail_payment e invoice)
