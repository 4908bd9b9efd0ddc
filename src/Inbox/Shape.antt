-- ===== src/Inbox/Shape.antt =====
-- What `EventProcessor` (typescript/src/event-processor.ts) reads in an event, and `eventShapeError` of
-- typescript/src/processor-primitives.ts.
use stripe_entitlements_fast.Base.{
  ℕ, Bool, true, false, not, Option, none, some, leb, if◌then◌else◌,
}
use stripe_entitlements_fast.Amount.{max_credit_atoms}
use stripe_entitlements_fast.PackEvents.Contract.{ClawbackEvent}
use stripe_entitlements_fast.PackEvents.Payment.{PaymentEvent}
use stripe_entitlements_fast.PackEvents.Checkout.{CheckoutEvent}
use stripe_entitlements_fast.Runtime.{SubscriptionEvent}

-- `SUPPORTED_EVENT_TYPES`, and any other type
pub data EventType : Type 0 where
  payment_intent_succeeded invoice_paid invoice_payment_failed subscription_updated : EventType
  subscription_deleted charge_refunded dispute_created : EventType
  checkout_completed checkout_expired other_type : EventType

-- `_credit_pack_reconcile_claim`: absent, malformed, or with its three ids
pub data ReconcileGuard : Type 0 where
  unguarded malformed : ReconcileGuard
  guarded : ℕ → ℕ → ℕ → ReconcileGuard

-- An event as it is read: `none` for an id or a type that is no valid identifier, and for a `livemode`
-- that is no Boolean; what the handlers of pack events and of subscription events read in it.
pub record WebhookEvent : Type 0 where
  pub id : Option ℕ
  pub type : Option EventType
  pub livemode : Option Bool
  pub api_version : Option ℕ
  pub created : Option ℕ
  pub has_data : Bool
  pub has_object : Bool
  pub has_object_id : Bool
  pub remote_verified : Bool
  pub guard : ReconcileGuard
  pub payment : PaymentEvent
  pub session : CheckoutEvent
  pub refund : ClawbackEvent
  pub subscription : SubscriptionEvent

pub data ShapeError : Type 0 where
  invalid_id invalid_type invalid_created invalid_livemode no_data no_object no_object_id :
      ShapeError

abbrev pub is_supported : EventType → Bool
is_supported other_type = false
is_supported _ = true

abbrev pub is_instant : Option ℕ → Bool
is_instant none = false
is_instant (some n) = leb n max_credit_atoms

abbrev pub is_boolean : Option Bool → Bool
is_boolean none = false
is_boolean (some _) = true

abbrev pub supported_shape_error : WebhookEvent → Option ShapeError
supported_shape_error e =
    if not (is_instant e.created)
    then some invalid_created
    else if not (is_boolean e.livemode)
    then some invalid_livemode
    else if not e.has_data
    then some no_data
    else if not e.has_object
    then some no_object
    else if not e.has_object_id
    then some no_object_id
    else none

abbrev pub shape_error_of : Option ℕ → Option EventType → Option ShapeError → Option ShapeError
shape_error_of none t later = some invalid_id
shape_error_of (some _) none later = some invalid_type
shape_error_of (some _) (some t) later = if is_supported t then later else none

-- `eventShapeError`
unfoldable pub event_shape_error : WebhookEvent → Option ShapeError
event_shape_error e = shape_error_of e.id e.type (supported_shape_error e)
