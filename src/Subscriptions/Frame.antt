-- ===== src/Subscriptions/Frame.antt =====
-- What the handlers of typescript/src/subscription-projector.ts leave alone.
use stripe_entitlements_fast.Base.{ℕ, List, not, Option, none, some, find}
use stripe_entitlements_fast.Store.{
  Db, Account, LedgerEntry, CheckoutClaim, PlanChange, IncidentKey, SubscriptionIncident,
  SubscriptionIncidentKind, modify, event_without_object, object_without_identity,
}
use stripe_entitlements_fast.Store.Frames.{
  Preserves, bind-Preserves, pure-Preserves, get_db-Preserves, modify-Preserves, if-Preserves,
  option-Preserves, or_raise-Preserves, raise_if-Preserves,
}
use stripe_entitlements_fast.Runtime.{
  StripeObject, SubscriptionEvent, lock_account, subscription_metadata,
}
use stripe_entitlements_fast.Subscriptions.{SubscriptionReason, refuse_event, customer_fits}
use stripe_entitlements_fast.Subscriptions.Quiet.{
  pass_over-kept, update_subscription-kept, IsQuiet, changes-kept, incidents-kept,
  refuse_event-kept, fail_update-kept, on_account-kept,
}
use stripe_entitlements_fast.Subscriptions.PaymentFailed.{
  fail_update, fail_cycle, fail_payment, payment_failed,
}
use stripe_entitlements_fast.Subscriptions.Deleted.{
  book_ending, end_subscription, delete_subscription, subscription_deleted, is_of_account,
}
use stripe_entitlements_fast.Catalog.{Plan, Interval}
use stripe_entitlements_fast.Subscriptions.Items.{Runtime}
use stripe_entitlements_fast.Subscriptions.Updated.{
  Projection, use_claim, apply_update, authorized_update, subscription_updated,
}
use stripe_entitlements_fast.Subscriptions.Checkout.{
  bind_subscription, claim_checkout, complete_unclaimed, complete_subscription, complete_session,
  complete_bound, checkout_completed, checkout_expired,
}

-- a condition on a database that does not depend on the tables that the handlers write
pub record IsIndifferent (P : Db → Type 0) : Type 0 where
  pub quiet : IsQuiet P
  pub accounts : (rows : List Account) (db : Db) → P db → P (record db { accounts = rows })
  pub ledger : (rows : List LedgerEntry) (db : Db) → P db → P (record db { ledger = rows })
  pub claims : (rows : List CheckoutClaim) (db : Db) → P db → P (record db { claims = rows })

module _ (P : Db → Type 0) (free : IsIndifferent P) where
  accounts-kept :
      (rows : Db → List Account) → Preserves P (modify (λ db. record db { accounts = rows db }))
  accounts-kept rows = modify-Preserves P _ (λ db k. free.accounts (rows db) db k)

  ledger-kept :
      (rows : Db → List LedgerEntry) → Preserves P (modify (λ db. record db { ledger = rows db }))
  ledger-kept rows = modify-Preserves P _ (λ db k. free.ledger (rows db) db k)

  claims-kept :
      (rows : Db → List CheckoutClaim) → Preserves P (modify (λ db. record db { claims = rows db }))
  claims-kept rows = modify-Preserves P _ (λ db k. free.claims (rows db) db k)

  refused-kept :
      (kind : SubscriptionIncidentKind) (why : SubscriptionReason) (e : SubscriptionEvent)
      (key : ℕ → IncidentKey) (object invoice : Option ℕ) (a : Account)
      → Preserves P (refuse_event kind why e key object invoice a)
  refused-kept = refuse_event-kept P free.quiet

  changes_kept :
      (rows : Db → List PlanChange)
      → Preserves P (modify (λ db. record db { plan_changes = rows db }))
  changes_kept = changes-kept P free.quiet

  incidents_kept :
      (rows : Db → List SubscriptionIncident)
      → Preserves P (modify (λ db. record db { subscription_incidents = rows db }))
  incidents_kept = incidents-kept P free.quiet

  ruleset steps = (
    bind-Preserves, pure-Preserves, get_db-Preserves, or_raise-Preserves, if-Preserves,
    raise_if-Preserves, accounts-kept, ledger-kept, claims-kept, changes_kept, incidents_kept,
    refused-kept,
  )

  updated_kept :
      (e : SubscriptionEvent) (i : StripeObject) (a : Account) → Preserves P (fail_update e i a)
  updated_kept = fail_update-kept P free.quiet

  fail_payment-kept :
      (e : SubscriptionEvent) (i : StripeObject) (a : Account) → Preserves P (fail_payment e i a)
  unfolding fail_payment fail_cycle
  fail_payment-kept e i a = search (steps, updated_kept) depth 20

  pub payment_failed-Preserves : (e : SubscriptionEvent) → Preserves P (payment_failed e)
  unfolding payment_failed
  payment_failed-Preserves e =
      bind-Preserves P (or_raise-Preserves P e.object event_without_object) (λ i.
        bind-Preserves P (get_db-Preserves P) (λ db.
          on_account-kept P free.quiet (lock_account i (subscription_metadata i) db)
            (fail_payment-kept e i)))

  book_ending-kept : (e : SubscriptionEvent) (a : Account) → Preserves P (book_ending e a)
  unfolding book_ending
  book_ending-kept e a = search steps depth 12

  delete_subscription-kept :
      (e : SubscriptionEvent) (s : StripeObject) (a : Account)
      → Preserves P (delete_subscription e s a)
  unfolding delete_subscription end_subscription
  delete_subscription-kept e s a = search (steps, book_ending-kept) depth 24

  pub subscription_deleted-Preserves :
      (e : SubscriptionEvent) → Preserves P (subscription_deleted e)
  unfolding subscription_deleted
  subscription_deleted-Preserves e =
      bind-Preserves P (or_raise-Preserves P e.object event_without_object) (λ s.
        bind-Preserves P (get_db-Preserves P) (λ db.
          on_account-kept P free.quiet (lock_account s s.metadata db)
            (delete_subscription-kept e s)))

  claim_checkout-kept :
      (e : SubscriptionEvent) (s : StripeObject) (session subscription : ℕ) (a : Account)
      (c : CheckoutClaim)
      → Preserves P (claim_checkout e s session subscription a c)
  unfolding claim_checkout bind_subscription
  claim_checkout-kept e s session subscription a c = search steps depth 24

  complete_unclaimed-kept :
      (e : SubscriptionEvent) (session subscription : ℕ) (a : Account)
      → Preserves P (complete_unclaimed e session subscription a)
  unfolding complete_unclaimed
  complete_unclaimed-kept e session subscription a = search steps depth 12

  complete_subscription-kept :
      (e : SubscriptionEvent) (s : StripeObject) (session subscription : ℕ) (a : Account)
      (claim : Option CheckoutClaim)
      → Preserves P (complete_subscription e s session subscription a claim)
  unfolding complete_subscription
  complete_subscription-kept e s session subscription a claim =
      if-Preserves P (not (customer_fits a s.customer)) (refused-kept _ _ e _ _ _ a) (
        option-Preserves P claim (complete_unclaimed-kept e session subscription a)
          (claim_checkout-kept e s session subscription a))

  complete_bound-kept :
      (e : SubscriptionEvent) (s : StripeObject) (session : ℕ) (a : Account)
      (subscription : Option ℕ)
      → Preserves P (complete_bound e s session a subscription)
  unfolding complete_bound
  complete_bound-kept e s session a none = refused-kept _ _ e _ _ _ a
  complete_bound-kept e s session a (some subscription) =
      bind-Preserves P (get_db-Preserves P) (λ db.
        complete_subscription-kept e s session subscription a (find (is_of_account a.id) db.claims))

  complete_session-kept :
      (e : SubscriptionEvent) (s : StripeObject) (a : Account)
      → Preserves P (complete_session e s a)
  unfolding complete_session
  complete_session-kept e s a =
      bind-Preserves P (or_raise-Preserves P s.id object_without_identity)
        (λ session. complete_bound-kept e s session a s.direct_subscription)

  pub checkout_completed-Preserves : (e : SubscriptionEvent) → Preserves P (checkout_completed e)
  unfolding checkout_completed
  checkout_completed-Preserves e =
      bind-Preserves P (or_raise-Preserves P e.object event_without_object) (λ s.
        bind-Preserves P (get_db-Preserves P) (λ db.
          on_account-kept P free.quiet (lock_account s s.metadata db) (complete_session-kept e s)))

  pub checkout_expired-Preserves : (e : SubscriptionEvent) → Preserves P (checkout_expired e)
  unfolding checkout_expired
  checkout_expired-Preserves e = search steps depth 16

  use_claim-kept : (a : Account) (c : Option CheckoutClaim) → Preserves P (modify (use_claim a c))
  use_claim-kept a none = modify-Preserves P _ (λ db k. k)
  use_claim-kept a (some c) = claims-kept _

  apply_update-kept :
      (e : SubscriptionEvent) (s : StripeObject) (subscription : ℕ) (p : Projection) (a : Account)
      (claim : Option CheckoutClaim)
      → Preserves P (apply_update e s subscription p a claim)
  unfolding apply_update
  apply_update-kept e s subscription p a claim =
      search (steps, use_claim-kept, pass_over-kept P free.quiet) depth 20

  authorized_update-kept :
      (e : SubscriptionEvent) (s : StripeObject) (subscription : ℕ) (p : Projection) (a : Account)
      (parsed : Plan × Interval) (bound : Option ℕ)
      → Preserves P (authorized_update e s subscription p a parsed bound)
  unfolding authorized_update
  authorized_update-kept e s subscription p a parsed none =
      search (steps, apply_update-kept) depth 12
  authorized_update-kept e s subscription p a parsed (some bound) =
      apply_update-kept e s subscription p a none

  pub subscription_updated-Preserves :
      (r : Runtime) (e : SubscriptionEvent) → Preserves P (subscription_updated r e)
  unfolding subscription_updated
  subscription_updated-Preserves r e =
      bind-Preserves P (or_raise-Preserves P e.object event_without_object) (λ s.
        bind-Preserves P (get_db-Preserves P) (λ db.
          on_account-kept P free.quiet (lock_account s s.metadata db) (λ a.
            update_subscription-kept P free.quiet r e s a (λ subscription p parsed.
              authorized_update-kept e s subscription p a parsed a.subscription_id))))
