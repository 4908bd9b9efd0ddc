-- ===== src/Subscriptions/Quiet.antt =====
-- What the refusals of subscription events (typescript/src/subscription-projector.ts) leave alone.
use stripe_entitlements_fast.Base.{not, ℕ, List, Option, none, some}
use stripe_entitlements_fast.Store.{
  Result, ok, err, object_without_identity, Db, Account, PlanChange, IncidentKey,
  SubscriptionIncident, SubscriptionIncidentKind, Tx, modify, event_without_identity,
}
use stripe_entitlements_fast.Store.Frames.{
  Preserves, bind-Preserves, pure-Preserves, get_db-Preserves, modify-Preserves, if-Preserves,
  option-Preserves, or_raise-Preserves, raise-Preserves, raise_if-Preserves,
}
use stripe_entitlements_fast.Subscriptions.{
  on_account, SubscriptionReason, id_or_event, refuse_event, customer_fits, SubscriptionResult,
}
use stripe_entitlements_fast.Runtime.{
  StripeObject, SubscriptionEvent, report_incident, subscription_id,
}
use stripe_entitlements_fast.Catalog.{Plan, Interval}
use stripe_entitlements_fast.Subscriptions.Checkout.{is_free_for}
use stripe_entitlements_fast.Subscriptions.Items.{
  Runtime, subscription_plan, subscription_period_end,
}
use stripe_entitlements_fast.Subscriptions.Updated.{
  Projection, projection_of, pass_over, authorized_update, from_result, update_items, check_update,
  update_subscription,
}
use stripe_entitlements_fast.Subscriptions.PaymentFailed.{
  pending_change, fail_change, fail_unbound, fail_completed, fail_update,
}

-- a condition on a database that does not depend on the changes of plans and on the incidents
pub record IsQuiet (P : Db → Type 0) : Type 0 where
  pub changes : (rows : List PlanChange) (db : Db) → P db → P (record db { plan_changes = rows })
  pub incidents :
      (rows : List SubscriptionIncident) (db : Db)
      → P db
      → P (record db { subscription_incidents = rows })

module _ (P : Db → Type 0) (free : IsQuiet P) where
  pub changes-kept :
      (rows : Db → List PlanChange)
      → Preserves P (modify (λ db. record db { plan_changes = rows db }))
  changes-kept rows = modify-Preserves P _ (λ db k. free.changes (rows db) db k)

  pub incidents-kept :
      (rows : Db → List SubscriptionIncident)
      → Preserves P (modify (λ db. record db { subscription_incidents = rows db }))
  incidents-kept rows = modify-Preserves P _ (λ db k. free.incidents (rows db) db k)

  pub report_incident-kept :
      (kind : SubscriptionIncidentKind) (event : Option ℕ) (key : IncidentKey)
      (invoice account : Option ℕ)
      → Preserves P (modify (report_incident kind event key invoice account))
  unfolding report_incident
  report_incident-kept kind event key invoice account = incidents-kept _

  pub ruleset quiet_steps = (
    bind-Preserves, pure-Preserves, get_db-Preserves, or_raise-Preserves, if-Preserves,
    raise_if-Preserves, changes-kept, incidents-kept, report_incident-kept,
  )

  id_or_event-kept : (k : Option ℕ) (e : SubscriptionEvent) → Preserves P (id_or_event k e)
  id_or_event-kept none e = or_raise-Preserves P e.id event_without_identity
  id_or_event-kept (some k) e = pure-Preserves P k

  pub refuse_event-kept :
      (kind : SubscriptionIncidentKind) (why : SubscriptionReason) (e : SubscriptionEvent)
      (key : ℕ → IncidentKey) (object invoice : Option ℕ) (a : Account)
      → Preserves P (refuse_event kind why e key object invoice a)
  unfolding refuse_event
  refuse_event-kept kind why e key object invoice a =
      search (quiet_steps, id_or_event-kept) depth 12

  pub fail_update-kept :
      (e : SubscriptionEvent) (i : StripeObject) (a : Account) → Preserves P (fail_update e i a)
  unfolding fail_update fail_completed fail_change fail_unbound
  fail_update-kept e i a = bind-Preserves P (get_db-Preserves P) (λ db.
      option-Preserves P (pending_change a.id (subscription_id i) i.id db)
        (search refuse_event-kept depth 8) (λ c. search (quiet_steps, refuse_event-kept) depth 16))

  pub on_account-kept :
      (o : Option Account) {k : Account → Tx SubscriptionResult}
      → ((a : Account) → Preserves P (k a))
      → Preserves P (on_account o k)
  on_account-kept none p = pure-Preserves P _
  on_account-kept (some a) p = p a

  pub pass_over-kept : (e : SubscriptionEvent) (a : Account) → Preserves P (pass_over e a)
  unfolding pass_over
  pass_over-kept e a = search quiet_steps depth 12

  from_result-kept : {A : Type 0} (r : Result A) → Preserves P (from_result r)
  from_result-kept (ok a) = pure-Preserves P a
  from_result-kept (err e) = raise-Preserves P e

  -- an update whose last step leaves the condition
  pub update_subscription-kept :
      (r : Runtime) (e : SubscriptionEvent) (s : StripeObject) (a : Account)
      → ((subscription : ℕ) (p : Projection) (parsed : Plan × Interval)
          → Preserves P (authorized_update e s subscription p a parsed a.subscription_id))
      → Preserves P (update_subscription r e s a)
  unfolding update_subscription check_update update_items
  update_subscription-kept r e s a last =
      bind-Preserves P (or_raise-Preserves P s.id object_without_identity) (λ subscription.
        if-Preserves P (not (customer_fits a s.customer)) (refuse_event-kept _ _ e _ _ _ a) (
          option-Preserves P
            (projection_of s.status s.cancel_at_period_end (subscription_period_end s))
            (refuse_event-kept _ _ e _ _ _ a)
            (λ p.
              if-Preserves P (not (is_free_for subscription a)) (refuse_event-kept _ _ e _ _ _ a) (
                bind-Preserves P (from_result-kept (subscription_plan r s)) (λ plan.
                  option-Preserves P plan (refuse_event-kept _ _ e _ _ _ a)
                    (last subscription p))))))
