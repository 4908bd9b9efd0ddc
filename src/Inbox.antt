-- ===== src/Inbox.antt =====
-- `EventProcessor` of typescript/src/event-processor.ts: the inbox that commits each Stripe event once,
-- with what its event does. The projector of
-- subscription events is an interface in the source, and a parameter here.
pub mod Shape
pub mod Kept
pub mod Steps
pub mod Seen
pub mod Once
pub mod Rejected
pub mod History
pub mod Projection
use stripe_entitlements_fast.Base.{
  ℕ, [], ◌∷◌, ◌++◌, String, Bool, true, false, not, Option, none, some, ◌&&◌, ◌==◌, ltb,
  if◌then◌else◌, find, exists, update,
}
use stripe_entitlements_fast.Store.{
  Db, Order, Outcome, ignored, duplicate, InboxEvent, PackIncidentKind, invalid_event_shape,
  webhook_contract_mismatch, by_event, Tx, pure, get_db, modify, ◌>>=◌, ◌>>◌,
}
use stripe_entitlements_fast.Inbox.Shape.{
  EventType, payment_intent_succeeded, invoice_paid, invoice_payment_failed, subscription_updated,
  subscription_deleted, charge_refunded, dispute_created, checkout_completed, checkout_expired,
  other_type, unguarded, malformed, guarded, WebhookEvent, ShapeError, event_shape_error,
}
use stripe_entitlements_fast.Subscriptions.{SubscriptionReason}
use stripe_entitlements_fast.PackEvents.{PackReason, ProcessResult, has_account_id, record_incident}
use stripe_entitlements_fast.PackEvents.Clawback.{clawback}
use stripe_entitlements_fast.PackEvents.Payment.{payment_succeeded}
use stripe_entitlements_fast.PackEvents.Checkout.{checkout_event}

-- the reasons of the results; a projector may have its own
pub data EventReason : Type 0 where
  id_required type_required lease_lost already_committed : EventReason
  wrong_mode wrong_version out_of_contract : EventReason
  shape : ShapeError → EventReason
  of_pack : PackReason → EventReason
  of_subscription : SubscriptionReason → EventReason
  of_projector : ℕ → EventReason

pub record EventResult : Type 0 where
  pub outcome : Outcome
  pub reason : EventReason
  pub account_id : Option ℕ

abbrev pub ignore_event : EventReason → EventResult
ignore_event r = record { outcome = ignored; reason = r; account_id = none }

abbrev pub repeated : EventResult
repeated = record { outcome = duplicate; reason = already_committed; account_id = none }

abbrev pub pack_result : ProcessResult → EventResult
pack_result r = record { outcome = r.outcome; reason = of_pack r.reason; account_id = r.account_id }

-- `BillingEventProjector`
pub record Projector : Type 0 where
  pub invoice_paid : WebhookEvent → Tx EventResult
  pub payment_failed : WebhookEvent → Tx EventResult
  pub subscription_updated : WebhookEvent → Tx EventResult
  pub subscription_deleted : WebhookEvent → Tx EventResult
  pub clawback : WebhookEvent → Tx EventResult
  pub checkout_completed : WebhookEvent → Tx EventResult
  pub checkout_expired : WebhookEvent → Tx EventResult

-- What the processor is built with; `new_lot` is the id that a payment draws for its lot.
pub record Processor : Type 0 where
  pub product_line : String
  pub expected_livemode : Bool
  pub expected_api_version : Option ℕ
  pub projector : Projector
  pub new_lot : ℕ

abbrev pub has_event_id : ℕ → InboxEvent → Bool
has_event_id k i = i.id == k

-- `hasCommittedEvent` of a valid id
unfoldable pub has_committed_event : ℕ → Db → Bool
has_committed_event id db = exists (has_event_id id) db.inbox

abbrev pub equals_token : ℕ → Option ℕ → Bool
equals_token n none = false
equals_token n (some m) = m == n

abbrev pub is_later : ℕ → Option ℕ → Bool
is_later clock none = false
is_later clock (some t) = ltb clock t

abbrev pub is_leased : ℕ → ℕ → ℕ → ℕ → Order → Bool
is_leased order account token clock o =
    o.id == order
    && o.account_id == account
    && equals_token token o.reconcile_token
    && is_later clock o.reconcile_expires_at

abbrev pub owner_is : ℕ → Option Order → Bool
owner_is account none = false
owner_is account (some o) = o.account_id == account

-- `#creditPackReconcileClaimCurrent`
unfoldable pub claim_current : WebhookEvent → Db → Bool
claim_current e db = elim e.guard [
  | unguarded ↦ true
  | malformed ↦ false
  | guarded order account token ↦
      e.remote_verified
      && owner_is account (find (λ o. o.id == order) db.orders)
      && exists (has_account_id account) db.accounts
      && exists (is_leased order account token db.clock) db.orders
]

abbrev pub or_project : Option ProcessResult → Tx EventResult → Tx EventResult
or_project none project = project
or_project (some r) project = pure (pack_result r)

-- `#dispatch`
unfoldable pub dispatch : Processor → EventType → WebhookEvent → Tx EventResult
dispatch p payment_intent_succeeded e = do
  r ← payment_succeeded p.new_lot p.product_line e.payment
  pure (pack_result r)
dispatch p invoice_paid e = p.projector.invoice_paid e
dispatch p invoice_payment_failed e = p.projector.payment_failed e
dispatch p subscription_updated e = p.projector.subscription_updated e
dispatch p subscription_deleted e = p.projector.subscription_deleted e
dispatch p charge_refunded e = do
  r ← clawback p.product_line e.refund
  or_project r (p.projector.clawback e)
dispatch p dispute_created e = do
  r ← clawback p.product_line e.refund
  or_project r (p.projector.clawback e)
dispatch p checkout_completed e = do
  r ← checkout_event p.product_line e.session
  or_project r (p.projector.checkout_completed e)
dispatch p checkout_expired e = do
  r ← checkout_event p.product_line e.session
  or_project r (p.projector.checkout_expired e)
dispatch p other_type e = pure (ignore_event out_of_contract)

abbrev pub same_mode : Option Bool → Bool → Bool
same_mode none expected = false
same_mode (some true) expected = expected
same_mode (some false) expected = not expected

abbrev pub wrong_version_of : Option ℕ → Option ℕ → Bool
wrong_version_of none version = false
wrong_version_of (some n) version = not (equals_token n version)

-- `mismatch`, of an event that was not read from Stripe by the service itself
unfoldable pub contract_mismatch : Processor → WebhookEvent → Option EventReason
contract_mismatch p e =
    if e.remote_verified
    then none
    else if not (same_mode e.livemode p.expected_livemode)
    then some wrong_mode
    else if wrong_version_of p.expected_api_version e.api_version
    then some wrong_version
    else none

abbrev pub livemode_or_false : Option Bool → Bool
livemode_or_false none = false
livemode_or_false (some b) = b

abbrev pub claim_event : ℕ → Option Bool → Db → Db
claim_event id livemode db = record db {
  inbox =
      db.inbox ++ record { id = id; livemode = livemode_or_false livemode; outcome = none } ∷ [];
}

-- the update of the row with the outcome
abbrev pub close_event : ℕ → Outcome → Db → Db
close_event id outcome db = record db {
  inbox = update (has_event_id id) (λ i. record i { outcome = some outcome }) db.inbox;
}

-- an incident, and an ignored event
unfoldable pub reject_event : ℕ → PackIncidentKind → EventReason → Tx EventResult
reject_event id kind reason = do
  modify (record_incident kind (some id) (by_event (some id)) none)
  modify (close_event id ignored)
  pure (ignore_event reason)

unfoldable pub handle_event : Processor → ℕ → EventType → WebhookEvent → Tx EventResult
handle_event p id t e = do r ← dispatch p t e; modify (close_event id r.outcome); pure r

-- the statements after the claim
unfoldable pub checked_event : Processor → ℕ → EventType → WebhookEvent → Tx EventResult
checked_event p id t e = elim (event_shape_error e) [
  | some error ↦ reject_event id invalid_event_shape (shape error)
  | none ↦ elim (contract_mismatch p e) [
    | some reason ↦ reject_event id webhook_contract_mismatch reason
    | none ↦ handle_event p id t e
  ]
]

-- the transaction of `process`
unfoldable pub process_event : Processor → ℕ → EventType → WebhookEvent → Tx EventResult
process_event p id t e = do
  db ← get_db
  if not (claim_current e db)
      then pure (ignore_event lease_lost)
      else if has_committed_event id db
      then pure repeated
      else (do modify (claim_event id e.livemode); checked_event p id t e)

-- the guards on the id and on the type
abbrev pub if_identified :
    Option ℕ → Option EventType → (ℕ → EventType → Tx EventResult) → Tx EventResult
if_identified none t run = pure (ignore_event id_required)
if_identified (some id) none run = pure (ignore_event type_required)
if_identified (some id) (some t) run = run id t

-- `process`
unfoldable pub process : Processor → WebhookEvent → Tx EventResult
process p e = if_identified e.id e.type (λ id t. process_event p id t e)
