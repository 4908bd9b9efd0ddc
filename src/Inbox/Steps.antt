-- ===== src/Inbox/Steps.antt =====
-- The branches of `EventProcessor.process` (typescript/src/event-processor.ts) up to the claim.
use stripe_entitlements_fast.Base.{ℕ, ◌≡◌, refl, ap, ◌∙◌, true, false, some}
use stripe_entitlements_fast.Store.{Db, Tx}
use stripe_entitlements_fast.Inbox.Shape.{EventType, WebhookEvent}
use stripe_entitlements_fast.Inbox.{
  EventResult, Processor, has_committed_event, claim_current, if_identified, claim_event,
  checked_event, process_event, process,
}

module _ (p : Processor) (id : ℕ) (t : EventType) (e : WebhookEvent) where
  pub claimed-process_event :
      (db : Db)
      → claim_current e db ≡ true
      → has_committed_event id db ≡ false
      → process_event p id t e db ≡ checked_event p id t e (claim_event id e.livemode db)
  unfolding process_event
  claimed-process_event db current new = rw (current, new) refl

pub process-process_event :
    (p : Processor) (e : WebhookEvent) (db : Db) (id : ℕ) (t : EventType)
    → e.id ≡ some id
    → e.type ≡ some t
    → process p e db ≡ process_event p id t e db
unfolding process
process-process_event p e db id t has_id has_type =
    let run : ℕ → EventType → Tx EventResult = λ k u. process_event p k u e in
    ap (λ k. if_identified k e.type run db) has_id
    ∙ ap (λ u. if_identified (some id) u run db) has_type
