-- ===== src/Inbox/Kept/Dispatch.antt =====
-- `#dispatch` of typescript/src/event-processor.ts leaves the inbox alone where the projector does.
use stripe_entitlements_fast.Base.{List, Option, none, some}
use stripe_entitlements_fast.Store.{InboxEvent, Tx}
use stripe_entitlements_fast.Store.Frames.{bind-Preserves, pure-Preserves}
use stripe_entitlements_fast.PackEvents.{ProcessResult}
use stripe_entitlements_fast.Inbox.Kept.{Kept, Keeps}
use stripe_entitlements_fast.Inbox.Kept.Handlers.{
  payment_succeeded-Kept, clawback-Kept, checkout_event-Kept,
}
use stripe_entitlements_fast.Inbox.Shape.{
  EventType, payment_intent_succeeded, invoice_paid, invoice_payment_failed, subscription_updated,
  subscription_deleted, charge_refunded, dispute_created, checkout_completed, checkout_expired,
  other_type, WebhookEvent,
}
use stripe_entitlements_fast.Inbox.{EventResult, Projector, Processor, or_project, dispatch}

-- the law of a projector: it leaves the inbox to the processor
pub record KeepsInbox (p : Projector) : Type 0 where
  pub invoice_paid : (inbox : List InboxEvent) (e : WebhookEvent) → Keeps inbox (p.invoice_paid e)
  pub payment_failed :
      (inbox : List InboxEvent) (e : WebhookEvent) → Keeps inbox (p.payment_failed e)
  pub subscription_updated :
      (inbox : List InboxEvent) (e : WebhookEvent) → Keeps inbox (p.subscription_updated e)
  pub subscription_deleted :
      (inbox : List InboxEvent) (e : WebhookEvent) → Keeps inbox (p.subscription_deleted e)
  pub clawback : (inbox : List InboxEvent) (e : WebhookEvent) → Keeps inbox (p.clawback e)
  pub checkout_completed :
      (inbox : List InboxEvent) (e : WebhookEvent) → Keeps inbox (p.checkout_completed e)
  pub checkout_expired :
      (inbox : List InboxEvent) (e : WebhookEvent) → Keeps inbox (p.checkout_expired e)

or_project-Kept :
    (inbox : List InboxEvent) (r : Option ProcessResult) (m : Tx EventResult)
    → Keeps inbox m
    → Keeps inbox (or_project r m)
or_project-Kept inbox none m k = k
or_project-Kept inbox (some r) m k = pure-Preserves (Kept inbox) _

pub dispatch-Kept :
    (p : Processor) (law : KeepsInbox p.projector) (inbox : List InboxEvent) (t : EventType)
    (e : WebhookEvent)
    → Keeps inbox (dispatch p t e)
unfolding dispatch
dispatch-Kept p law inbox payment_intent_succeeded e =
    bind-Preserves (Kept inbox) (payment_succeeded-Kept inbox p.new_lot p.product_line e.payment)
      (λ r. pure-Preserves (Kept inbox) _)
dispatch-Kept p law inbox invoice_paid e = law.invoice_paid inbox e
dispatch-Kept p law inbox invoice_payment_failed e = law.payment_failed inbox e
dispatch-Kept p law inbox subscription_updated e = law.subscription_updated inbox e
dispatch-Kept p law inbox subscription_deleted e = law.subscription_deleted inbox e
dispatch-Kept p law inbox charge_refunded e =
    bind-Preserves (Kept inbox) (clawback-Kept inbox p.product_line e.refund)
      (λ r. or_project-Kept inbox r _ (law.clawback inbox e))
dispatch-Kept p law inbox dispute_created e =
    bind-Preserves (Kept inbox) (clawback-Kept inbox p.product_line e.refund)
      (λ r. or_project-Kept inbox r _ (law.clawback inbox e))
dispatch-Kept p law inbox checkout_completed e =
    bind-Preserves (Kept inbox) (checkout_event-Kept inbox p.product_line e.session)
      (λ r. or_project-Kept inbox r _ (law.checkout_completed inbox e))
dispatch-Kept p law inbox checkout_expired e =
    bind-Preserves (Kept inbox) (checkout_event-Kept inbox p.product_line e.session)
      (λ r. or_project-Kept inbox r _ (law.checkout_expired inbox e))
dispatch-Kept p law inbox other_type e = pure-Preserves (Kept inbox) _
