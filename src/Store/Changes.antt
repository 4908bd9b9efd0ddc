-- ===== src/Store/Changes.antt =====
-- The rows of checkout_claims and billing_plan_changes, and the incidents of subscription events, with the
-- columns that the queries of typescript/src/subscription-projector.ts name.
use stripe_entitlements_fast.Base.{ℕ, String, Bool, Option}
use stripe_entitlements_fast.Catalog.{Interval}

pub record CheckoutClaim : Type 0 where
  pub account_id : ℕ
  pub claim_token : ℕ
  pub session_id : Option ℕ
  pub plan_key : String
  pub plan_interval : Interval

pub data EffectiveMode : Type 0 where
  immediate period_end noop : EffectiveMode

pub data ChangeStatus : Type 0 where
  change_reserved change_previewed change_applying change_scheduled change_applied : ChangeStatus
  change_requires_action change_completed change_failed : ChangeStatus

pub data ChangeError : Type 0 where
  subscription_deleted : ChangeError
  other_error : ℕ → ChangeError

pub record PlanChange : Type 0 where
  pub id : ℕ
  pub account_id : ℕ
  pub subscription_id : ℕ
  pub settlement_invoice : Option ℕ
  pub effective_mode : EffectiveMode
  pub status : ChangeStatus
  pub last_error : Option ChangeError
  pub completed_at : Option ℕ
  pub lease_token : Option ℕ
  pub lease_expires_at : Option ℕ
  pub created_at : ℕ

-- `plan_change_recovery_required` is an incident of the plan changes.
pub data SubscriptionIncidentKind : Type 0 where
  payment_failed_customer_conflict payment_failed_subscription_conflict : SubscriptionIncidentKind
  unexpected_payment_failed_reason plan_change_payment_failed : SubscriptionIncidentKind
  unbound_plan_change_payment_failed plan_change_recovery_required : SubscriptionIncidentKind
  subscription_deleted_conflict subscription_customer_conflict : SubscriptionIncidentKind
  checkout_without_subscription checkout_customer_conflict : SubscriptionIncidentKind
  checkout_without_claim stale_checkout_completion multiple_subscriptions : SubscriptionIncidentKind
  invalid_subscription_projection subscription_identity_conflict : SubscriptionIncidentKind
  ambiguous_subscription_items subscription_without_authority : SubscriptionIncidentKind
  event_order_tie : SubscriptionIncidentKind

-- the text of a key: an id, or an account and an id with a colon between
-- them, or an account, a type, a time and a rank
pub data IncidentKey : Type 0 where
  id_key : ℕ → IncidentKey
  account_key : ℕ → ℕ → IncidentKey
  tie_key : ℕ → String → Option ℕ → ℕ → IncidentKey

pub record SubscriptionIncident : Type 0 where
  pub kind : SubscriptionIncidentKind
  pub dedupe_key : IncidentKey
  pub event_id : Option ℕ
  pub invoice : Option ℕ
  pub account_id : Option ℕ
  pub seen_count : ℕ
  pub resolved : Bool
