-- ===== src/Subscriptions.antt =====
-- What the handlers of `SubscriptionEventProjector` (typescript/src/subscription-projector.ts) share: their
-- results, and the refusals with an incident.
pub mod PaymentFailed
pub mod Deleted
pub mod Items
pub mod Updated
pub mod Checkout
pub mod Quiet
pub mod Frame
pub mod Order
pub mod Packs
pub mod Accounts
pub mod Ending
pub mod Binding
use stripe_entitlements_fast.Base.{ℕ, Bool, true, false, Option, none, some, ◌==◌, update}
use stripe_entitlements_fast.Store.{
  Db, Account, Outcome, ignored, SubscriptionIncidentKind, IncidentKey, Tx, pure, modify, or_raise,
  ◌>>=◌, ◌>>◌, event_without_identity, event_without_object,
}
use stripe_entitlements_fast.PackEvents.{equals, has_account_id}
use stripe_entitlements_fast.Runtime.{
  StripeObject, SubscriptionEvent, report_incident, subscription_id,
}

pub data SubscriptionReason : Type 0 where
  no_reason account_not_found : SubscriptionReason
  failed_customer failed_subscription unsupported_reason settlement_granted : SubscriptionReason
  optional_change_failed unbound_failure older_or_weaker : SubscriptionReason
  unbound_subscription deleted_customer older : SubscriptionReason
  updated_customer invalid_projection other_subscription ambiguous_items : SubscriptionReason
  without_authority : SubscriptionReason
  no_subscription_id checkout_customer already_bound claim_missing : SubscriptionReason
  claim_of_another different_subscription session_without_claim : SubscriptionReason

-- `ProcessResult`
pub record SubscriptionResult : Type 0 where
  pub outcome : Outcome
  pub reason : SubscriptionReason
  pub account_id : Option ℕ

abbrev pub unknown_account : SubscriptionResult
unknown_account = record { outcome = ignored; reason = account_not_found; account_id = none }

abbrev pub account_result : Outcome → SubscriptionReason → Account → SubscriptionResult
account_result o r a = record { outcome = o; reason = r; account_id = some a.id }

-- `eventObject`
abbrev pub event_object : SubscriptionEvent → Tx StripeObject
event_object e = or_raise e.object event_without_object

-- the handlers ignore an event of no account
abbrev pub on_account : Option Account → (Account → Tx SubscriptionResult) → Tx SubscriptionResult
on_account none handle = pure unknown_account
on_account (some a) handle = handle a

-- an id, or else the event's, as `requiredEventId` demands it
abbrev pub id_or_event : Option ℕ → SubscriptionEvent → Tx ℕ
id_or_event (some k) e = pure k
id_or_event none e = or_raise e.id event_without_identity

-- an incident of an account, whose key is made of an object's id or of the event's, and an ignored event
unfoldable pub refuse_event :
    SubscriptionIncidentKind
    → SubscriptionReason
    → SubscriptionEvent
    → (ℕ → IncidentKey)
    → Option ℕ
    → Option ℕ
    → Account
    → Tx SubscriptionResult
refuse_event kind reason e key object invoice a = do
  k ← id_or_event object e
  modify (report_incident kind e.id (key k) invoice (some a.id))
  pure (account_result ignored reason a)

-- the customer of an object is that of the account, where the account has one
abbrev pub customer_fits : Account → Option ℕ → Bool
customer_fits a none = false
customer_fits a (some c) = elim a.customer_id [ none ↦ true | some bound ↦ bound == c ]

abbrev pub is_own_subscription : Account → Option ℕ → Bool
is_own_subscription a none = false
is_own_subscription a (some s) = equals s a.subscription_id

abbrev pub change_account : ℕ → (Account → Account) → Db → Db
change_account k f db = record db { accounts = update (has_account_id k) f db.accounts }
