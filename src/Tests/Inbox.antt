-- ===== src/Tests/Inbox.antt =====
-- Deliveries of an event of a subscription, and of one from another mode.
use stripe_entitlements_fast.Base.{◌≡◌, refl, [], ◌∷◌, true, false, some, none, inl, inr, update}
use stripe_entitlements_fast.Store.{Db, ok, handled, Tx, pure, modify, ◌>>◌}
use stripe_entitlements_fast.Store.Frames.{bind-Preserves, pure-Preserves, modify-Preserves}
use stripe_entitlements_fast.PackEvents.{has_account_id}
use stripe_entitlements_fast.Inbox.Shape.{
  subscription_updated, unguarded, WebhookEvent, event_shape_error,
}
use stripe_entitlements_fast.Inbox.{
  ignore_event, of_projector, EventResult, Projector, Processor, has_committed_event, claim_current,
  dispatch, contract_mismatch, handle_event, checked_event, process_event, process,
}
use stripe_entitlements_fast.Inbox.Kept.{Kept}
use stripe_entitlements_fast.Inbox.Kept.Dispatch.{KeepsInbox}
use stripe_entitlements_fast.Inbox.Once.{is_passed_over, process_twice}
use stripe_entitlements_fast.Inbox.Projection.{
  subscription_projector, subscription_projector-KeepsInbox,
}
use stripe_entitlements_fast.Inbox.History.{ExactlyOnce, deliver_events-ExactlyOnce}
use stripe_entitlements_fast.Inbox.Rejected.{Rejects, process-Rejects}
use stripe_entitlements_fast.Tests.Data.{alice, bob, shop}
use stripe_entitlements_fast.Tests.Packs.{half_refund, expiry}
use stripe_entitlements_fast.Tests.Subscriptions.{deletion}
use stripe_entitlements_fast.Tests.Updates.{runtime}

abbrev updated : EventResult
updated = record { outcome = handled; reason = of_projector 2; account_id = some 1 }

-- a projector that follows the updates of a subscription, and ignores the rest
abbrev follow : WebhookEvent → Tx EventResult
follow e = do
  modify (λ db. record db {
    accounts = update (has_account_id 1) (λ a. record a { plan_key = "team" }) db.accounts;
  })
  pure updated

abbrev skip_event : WebhookEvent → Tx EventResult
skip_event e = pure (ignore_event (of_projector 1))

abbrev projector : Projector
projector = record {
  invoice_paid = skip_event;
  payment_failed = skip_event;
  subscription_updated = follow;
  subscription_deleted = skip_event;
  clawback = skip_event;
  checkout_completed = skip_event;
  checkout_expired = skip_event;
}

projector-KeepsInbox : KeepsInbox projector
projector-KeepsInbox = record {
  invoice_paid = λ inbox e. pure-Preserves (Kept inbox) _;
  payment_failed = λ inbox e. pure-Preserves (Kept inbox) _;
  subscription_updated = λ inbox e.
      bind-Preserves (Kept inbox) (modify-Preserves (Kept inbox) _ (λ db k. k))
        (λ _. pure-Preserves (Kept inbox) updated);
  subscription_deleted = λ inbox e. pure-Preserves (Kept inbox) _;
  clawback = λ inbox e. pure-Preserves (Kept inbox) _;
  checkout_completed = λ inbox e. pure-Preserves (Kept inbox) _;
  checkout_expired = λ inbox e. pure-Preserves (Kept inbox) _;
}

abbrev processor : Processor
processor = record {
  product_line = "shop";
  expected_livemode = true;
  expected_api_version = some 4;
  projector = projector;
  new_lot = 41;
}

-- the modelled handlers of subscription events, beside those of `projector`
abbrev subscription_processor : Processor
subscription_processor = record processor { projector = subscription_projector runtime projector }

abbrev update_event : WebhookEvent
update_event = record {
  id = some 90;
  type = some subscription_updated;
  livemode = some true;
  api_version = some 4;
  created = some 9;
  has_data = true;
  has_object = true;
  has_object_id = true;
  remote_verified = false;
  guard = unguarded;
  payment = record { id = some 90; created = some 9; object = none };
  session = record expiry { object = none };
  refund = record half_refund { charge = none };
  subscription = deletion;
}

abbrev updated_db : Db
updated_db = record shop {
  accounts = record alice { plan_key = "team" } ∷ bob ∷ [];
  inbox = record { id = 90; livemode = true; outcome = some handled } ∷ [];
}

update_run : process processor update_event shop ≡ ok (updated, updated_db)
unfolding process process_event claim_current has_committed_event checked_event event_shape_error
    contract_mismatch handle_event dispatch
update_run = refl

process_twice_example :
    (again : EventResult) × (is_passed_over again.outcome ≡ true)
    × (process processor update_event updated_db ≡ ok (again, updated_db))
process_twice_example =
    process_twice processor projector-KeepsInbox update_event shop updated_db updated update_run

abbrev test_event : WebhookEvent
test_event = record update_event { livemode = some false }

process-Rejects_example : Rejects processor test_event 90 shop
unfolding claim_current has_committed_event
process-Rejects_example =
    process-Rejects processor test_event 90 subscription_updated shop refl refl refl refl
      (inr (record { unverified = refl; differs = inl (λ h. cc) }))

deliver_events-ExactlyOnce_example :
    ExactlyOnce subscription_processor (test_event ∷ update_event ∷ update_event ∷ []) shop
deliver_events-ExactlyOnce_example =
    deliver_events-ExactlyOnce subscription_processor
      (subscription_projector-KeepsInbox runtime projector projector-KeepsInbox)
      (test_event ∷ update_event ∷ update_event ∷ []) shop
