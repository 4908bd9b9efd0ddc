-- ===== src/Inbox/Seen.antt =====
-- What the inbox has seen, it keeps (`EventProcessor.process` of typescript/src/event-processor.ts).
use stripe_entitlements_fast.Base.{ℕ, ◌≡◌, refl, ◌∙◌, List, Bool, true, Option, none, some, ==_refl}
use stripe_entitlements_fast.Store.{
  Db, Outcome, ignored, InboxEvent, PackIncidentKind, Result, ok, err, Tx, modify, by_event,
  webhook_contract_mismatch, invalid_event_shape,
}
use stripe_entitlements_fast.Store.Tables.Appending.{exists-append, exists-append_left}
use stripe_entitlements_fast.Store.Frames.{
  Preserves, After, bind-Preserves, pure-Preserves, modify-Preserves, option-Preserves,
  get_db-Preserves, if-Preserves,
}
use stripe_entitlements_fast.PackEvents.{record_incident}
use stripe_entitlements_fast.Inbox.Kept.{Kept, Keeps, incident-Kept}
use stripe_entitlements_fast.Inbox.Kept.Dispatch.{KeepsInbox, dispatch-Kept}
use stripe_entitlements_fast.Store.Tables.Updates.{exists-update}
use stripe_entitlements_fast.Inbox.Shape.{EventType, WebhookEvent, event_shape_error}
use stripe_entitlements_fast.Inbox.{
  EventReason, EventResult, Processor, has_event_id, has_committed_event, contract_mismatch,
  ignore_event, if_identified, shape, claim_event, close_event, reject_event, handle_event,
  checked_event, process_event, process,
}

module _ (k : ℕ) where
  -- the inbox has the event
  abbrev pub Has : Db → Type 0
  Has db = has_committed_event k db ≡ true

  After-Has :
      {A : Type 0} (db : Db) (r : Result (A × Db)) → Has db → After (Kept db.inbox) r → After Has r
  unfolding has_committed_event
  After-Has db (ok (a, later)) h same = rw same h
  After-Has db (err e) h same = tt

  Keeps-Has :
      {A : Type 0} (m : Tx A) → ((inbox : List InboxEvent) → Keeps inbox m) → Preserves Has m
  Keeps-Has m kept = record {
    after = λ db h. After-Has db (m db) h ((kept db.inbox).after db refl);
  }

  pub claim_event-Has : (livemode : Option Bool) (db : Db) → Has (claim_event k livemode db)
  unfolding has_committed_event
  claim_event-Has livemode db = exists-append (has_event_id k) db.inbox _ (==_refl k)

  module _ (id : ℕ) where
    close_event-Has : (outcome : Outcome) → Preserves Has (modify (close_event id outcome))
    unfolding has_committed_event
    close_event-Has outcome =
        modify-Preserves Has (close_event id outcome)
          (λ db h. exists-update (has_event_id k) (has_event_id id) _ db.inbox (λ i. refl) ∙ h)

    claim-Has : (livemode : Option Bool) → Preserves Has (modify (claim_event id livemode))
    unfolding has_committed_event
    claim-Has livemode =
        modify-Preserves Has (claim_event id livemode)
          (λ db h. exists-append_left (has_event_id k) db.inbox _ h)

    reject_event-Has :
        (kind : PackIncidentKind) (reason : EventReason)
        → Preserves Has (reject_event id kind reason)
    unfolding reject_event
    reject_event-Has kind reason =
        bind-Preserves Has
          (Keeps-Has (modify (record_incident kind (some id) (by_event (some id)) none))
            (λ inbox. incident-Kept inbox kind (some id) (by_event (some id)) none))
          (λ _.
            bind-Preserves Has (close_event-Has ignored)
              (λ _. pure-Preserves Has (ignore_event reason)))

    module _ (p : Processor) (law : KeepsInbox p.projector) (t : EventType) (e : WebhookEvent) where
      handle_event-Has : Preserves Has (handle_event p id t e)
      unfolding handle_event
      handle_event-Has =
          bind-Preserves Has (Keeps-Has _ (λ inbox. dispatch-Kept p law inbox t e))
            (λ r. bind-Preserves Has (close_event-Has r.outcome) (λ _. pure-Preserves Has r))

      pub checked_event-Has : Preserves Has (checked_event p id t e)
      unfolding checked_event
      checked_event-Has =
          option-Preserves Has (event_shape_error e)
            (option-Preserves Has (contract_mismatch p e) handle_event-Has
              (reject_event-Has webhook_contract_mismatch))
            (λ error. reject_event-Has invalid_event_shape (shape error))

      process_event-Has : Preserves Has (process_event p id t e)
      unfolding process_event
      process_event-Has =
          search
            (
              bind-Preserves, get_db-Preserves, if-Preserves, pure-Preserves, claim-Has,
              checked_event-Has,
            )
            depth 16

  identified-Has :
      (id : Option ℕ) (t : Option EventType) {run : ℕ → EventType → Tx EventResult}
      → ((id : ℕ) (t : EventType) → Preserves Has (run id t))
      → Preserves Has (if_identified id t run)
  identified-Has none t h = pure-Preserves Has _
  identified-Has (some id) none h = pure-Preserves Has _
  identified-Has (some id) (some t) h = h id t

  pub process-Has :
      (p : Processor) (law : KeepsInbox p.projector) (e : WebhookEvent)
      → Preserves Has (process p e)
  unfolding process
  process-Has p law e = identified-Has e.id e.type (λ id t. process_event-Has id p law t e)
