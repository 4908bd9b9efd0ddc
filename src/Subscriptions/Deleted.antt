-- ===== src/Subscriptions/Deleted.antt =====
-- `SubscriptionEventProjector.subscriptionDeleted` of typescript/src/subscription-projector.ts: the
-- subscription of an account ends.
use stripe_entitlements_fast.Base.{
  ℕ, suc, [], ◌∷◌, ◌++◌, Bool, true, false, not, Option, none, some, ◌&&◌, ◌==◌, ltb, sub_ℕ,
  if◌then◌else◌, select, update,
}
use stripe_entitlements_fast.Store.{
  Db, Account, canceled, LedgerEntry, subscription_ended, EventTag, CheckoutClaim, ChangeStatus,
  change_completed, change_failed, PlanChange, ChangeError, SubscriptionIncidentKind,
  SubscriptionIncident, plan_change_payment_failed, unbound_plan_change_payment_failed,
  plan_change_recovery_required, account_key, handled, ignored, subscription_deleted_conflict,
  subscription_customer_conflict, Tx, pure, get_db, modify, or_raise, ◌>>=◌, ◌>>◌,
  event_without_identity,
}
use stripe_entitlements_fast.PackEvents.{equals, coalesce}
use stripe_entitlements_fast.Subscriptions.{
  on_account, no_reason, unbound_subscription, deleted_customer, older, SubscriptionResult,
  account_result, event_object, refuse_event, customer_fits, is_own_subscription, change_account,
}
use stripe_entitlements_fast.Runtime.{
  StripeObject, SubscriptionEvent, lock_account, event_wins_account, projected_cursor,
}

abbrev pub is_of_account : ℕ → CheckoutClaim → Bool
is_of_account k c = c.account_id == k

-- `delete from checkout_claims where account_id = ...`
abbrev pub drop_claims : ℕ → Db → Db
drop_claims k db = record db { claims = select (λ c. not (is_of_account k c)) db.claims }

abbrev pub end_account : Account → SubscriptionEvent → Account → Account
end_account a e row = record row {
  subscription_id = none;
  plan_key = "free";
  plan_interval = none;
  status = canceled;
  credits_balance = 0;
  grant_epoch = suc a.grant_epoch;
  cursor = projected_cursor a e;
  current_period_end = none;
  entitlement_period_end = none;
  credit_expires_at = none;
  entitlement_revoked = true;
  cancel_at_period_end = false;
  pending_free_at = none;
  annual_anchor = none;
  grants_issued = 0;
  grants_allowed = 12;
  funding_invoice = none;
}

abbrev pub ending_entry : Account → ℕ → LedgerEntry
ending_entry a event = record {
  account_id = a.id;
  delta = sub_ℕ 0 a.credits_balance;
  balance_after = 0;
  entitlement_units = 0;
  reason = subscription_ended;
  grant_epoch = suc a.grant_epoch;
  event = EventTag.stripe_event event;
  invoice = none;
  slot = none;
}

-- the entry of the ledger, where credits were left
unfoldable pub book_ending : SubscriptionEvent → Account → Tx (Unit {0})
book_ending e a =
    if ltb 0 a.credits_balance
    then (do
      event ← or_raise e.id event_without_identity
      modify (λ db. record db { ledger = db.ledger ++ ending_entry a event ∷ [] }))
    else pure tt

abbrev pub is_open_change : ChangeStatus → Bool
is_open_change change_completed = false
is_open_change change_failed = false
is_open_change _ = true

abbrev pub is_ended_change : ℕ → Option ℕ → PlanChange → Bool
is_ended_change account subscription c =
    c.account_id == account && equals c.subscription_id subscription && is_open_change c.status

abbrev pub fail_by_deletion : ℕ → PlanChange → PlanChange
fail_by_deletion now c = record c {
  status = change_failed;
  last_error = some ChangeError.subscription_deleted;
  completed_at = coalesce c.completed_at (some now);
  lease_token = none;
  lease_expires_at = none;
}

abbrev pub fail_changes : ℕ → Option ℕ → Db → Db
fail_changes account subscription db = record db {
  plan_changes =
      update (is_ended_change account subscription) (fail_by_deletion db.started) db.plan_changes;
}

abbrev pub is_change_kind : SubscriptionIncidentKind → Bool
is_change_kind plan_change_payment_failed = true
is_change_kind unbound_plan_change_payment_failed = true
is_change_kind plan_change_recovery_required = true
is_change_kind _ = false

abbrev pub is_change_incident : ℕ → SubscriptionIncident → Bool
is_change_incident k i = equals k i.account_id && not i.resolved && is_change_kind i.kind

abbrev pub close_incident : SubscriptionIncident → SubscriptionIncident
close_incident i = record i { resolved = true }

abbrev pub resolve_changes : ℕ → Db → Db
resolve_changes k db = record db {
  subscription_incidents = update (is_change_incident k) close_incident db.subscription_incidents;
}

-- the statements after the guards
unfoldable pub end_subscription : SubscriptionEvent → StripeObject → Account → Tx SubscriptionResult
end_subscription e s a = do
  modify (drop_claims a.id)
  modify (change_account a.id (end_account a e))
  book_ending e a
  modify (fail_changes a.id s.id)
  modify (resolve_changes a.id)
  pure (account_result handled no_reason a)

-- the guards
unfoldable pub delete_subscription :
    SubscriptionEvent → StripeObject → Account → Tx SubscriptionResult
delete_subscription e s a =
    if not (is_own_subscription a s.id)
    then refuse_event subscription_deleted_conflict unbound_subscription e (account_key a.id) s.id
        none a
    else if not (customer_fits a s.customer)
    then refuse_event subscription_customer_conflict deleted_customer e (account_key a.id) s.id none
        a
    else if not (event_wins_account a e)
    then pure (account_result ignored older a)
    else end_subscription e s a

-- `subscriptionDeleted`
unfoldable pub subscription_deleted : SubscriptionEvent → Tx SubscriptionResult
subscription_deleted e = do
  subscription ← event_object e
  db ← get_db
  on_account (lock_account subscription subscription.metadata db)
      (delete_subscription e subscription)
