-- ===== src/Inbox/Projection.antt =====
-- `SubscriptionEventProjector` (typescript/src/subscription-projector.ts) as the projector of
-- `EventProcessor`, with the handlers of paid Invoices and of clawbacks as parameters.
use stripe_entitlements_fast.Base.{List}
use stripe_entitlements_fast.Store.{Db, InboxEvent, Tx, pure, ◌>>=◌}
use stripe_entitlements_fast.Store.Frames.{Preserves, bind-Preserves, pure-Preserves}
use stripe_entitlements_fast.Runtime.{SubscriptionEvent}
use stripe_entitlements_fast.Subscriptions.{SubscriptionResult}
use stripe_entitlements_fast.Subscriptions.PaymentFailed.{payment_failed}
use stripe_entitlements_fast.Subscriptions.Deleted.{subscription_deleted}
use stripe_entitlements_fast.Subscriptions.Items.{Runtime}
use stripe_entitlements_fast.Subscriptions.Updated.{subscription_updated}
use stripe_entitlements_fast.Subscriptions.Checkout.{checkout_completed, checkout_expired}
use stripe_entitlements_fast.Subscriptions.Frame.{
  IsIndifferent, payment_failed-Preserves, subscription_deleted-Preserves,
  subscription_updated-Preserves, checkout_completed-Preserves, checkout_expired-Preserves,
}
use stripe_entitlements_fast.Inbox.Shape.{WebhookEvent}
use stripe_entitlements_fast.Inbox.{EventResult, of_subscription, Projector}
use stripe_entitlements_fast.Inbox.Kept.{Kept}
use stripe_entitlements_fast.Inbox.Kept.Dispatch.{KeepsInbox}

abbrev pub subscription_result : SubscriptionResult → EventResult
subscription_result r = record {
  outcome = r.outcome;
  reason = of_subscription r.reason;
  account_id = r.account_id;
}

abbrev pub projected : (SubscriptionEvent → Tx SubscriptionResult) → WebhookEvent → Tx EventResult
projected handler e = do r ← handler e.subscription; pure (subscription_result r)

-- the handlers that are modelled, beside those of another projector
unfoldable pub subscription_projector : Runtime → Projector → Projector
subscription_projector r rest = record rest {
  payment_failed = projected payment_failed;
  subscription_updated = projected (subscription_updated r);
  subscription_deleted = projected subscription_deleted;
  checkout_completed = projected checkout_completed;
  checkout_expired = projected checkout_expired;
}

projected-Preserves :
    (P : Db → Type 0) (handler : SubscriptionEvent → Tx SubscriptionResult) (e : WebhookEvent)
    → Preserves P (handler e.subscription)
    → Preserves P (projected handler e)
projected-Preserves P handler e p =
    bind-Preserves P p (λ r. pure-Preserves P (subscription_result r))

Kept-IsIndifferent : (inbox : List InboxEvent) → IsIndifferent (Kept inbox)
Kept-IsIndifferent inbox = record {
  accounts = λ rows db k. k;
  ledger = λ rows db k. k;
  claims = λ rows db k. k;
  quiet = record { changes = λ rows db k. k; incidents = λ rows db k. k };
}

-- The projector keeps the law of the inbox, where the handlers that are parameters keep it.
pub subscription_projector-KeepsInbox :
    (r : Runtime) (rest : Projector) → KeepsInbox rest → KeepsInbox (subscription_projector r rest)
unfolding subscription_projector
subscription_projector-KeepsInbox r rest law = record {
  invoice_paid = law.invoice_paid;
  subscription_updated = λ inbox e.
      projected-Preserves (Kept inbox) (subscription_updated r) e
        (subscription_updated-Preserves (Kept inbox) (Kept-IsIndifferent inbox) r e.subscription);
  clawback = law.clawback;
  payment_failed = λ inbox e.
      projected-Preserves (Kept inbox) payment_failed e
        (payment_failed-Preserves (Kept inbox) (Kept-IsIndifferent inbox) e.subscription);
  subscription_deleted = λ inbox e.
      projected-Preserves (Kept inbox) subscription_deleted e
        (subscription_deleted-Preserves (Kept inbox) (Kept-IsIndifferent inbox) e.subscription);
  checkout_completed = λ inbox e.
      projected-Preserves (Kept inbox) checkout_completed e
        (checkout_completed-Preserves (Kept inbox) (Kept-IsIndifferent inbox) e.subscription);
  checkout_expired = λ inbox e.
      projected-Preserves (Kept inbox) checkout_expired e
        (checkout_expired-Preserves (Kept inbox) (Kept-IsIndifferent inbox) e.subscription);
}
