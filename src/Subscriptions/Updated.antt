-- ===== src/Subscriptions/Updated.antt =====
-- `SubscriptionEventProjector.subscriptionUpdated` of typescript/src/subscription-projector.ts: the status
-- and the period of a subscription, and its first binding to the account that a Checkout claims.
use stripe_entitlements_fast.Base.{
  ℕ, ◌*◌, String, Bool, false, not, Option, none, some, ◌&&◌, ◌||◌, ◌==◌, str_eq, if◌then◌else◌,
  find, exists, select,
}
use stripe_entitlements_fast.Catalog.{Interval, Plan, interval_text}
use stripe_entitlements_fast.Primitives.{project_subscription_status}
use stripe_entitlements_fast.Ordering.{rank_for}
use stripe_entitlements_fast.Store.{
  Db, Account, CheckoutClaim, Result, ok, err, account_key, tie_key, handled, ignored,
  subscription_customer_conflict, invalid_subscription_projection, subscription_identity_conflict,
  ambiguous_subscription_items, subscription_without_authority, event_order_tie, Tx, pure, get_db,
  modify, raise, or_raise, raise_if, ◌>>=◌, ◌>>◌, unique_violation, object_without_identity,
}
use stripe_entitlements_fast.PackEvents.{equals, coalesce}
use stripe_entitlements_fast.Subscriptions.{
  on_account, no_reason, updated_customer, invalid_projection, other_subscription, ambiguous_items,
  without_authority, older_or_weaker, SubscriptionResult, account_result, event_object,
  refuse_event, customer_fits, change_account,
}
use stripe_entitlements_fast.Runtime.{
  StripeObject, SubscriptionEvent, lock_account, event_wins_account, projected_cursor, or_zero,
  report_incident,
}
use stripe_entitlements_fast.Subscriptions.Deleted.{is_of_account}
use stripe_entitlements_fast.Subscriptions.Checkout.{is_free_for, has_ids}
use stripe_entitlements_fast.Subscriptions.Items.{
  Runtime, subscription_period_end, subscription_plan,
}

-- `SUBSCRIPTION_STATUSES`
abbrev pub is_known_status : String → Bool
is_known_status s =
    str_eq s "active"
    || str_eq s "canceled"
    || str_eq s "incomplete"
    || str_eq s "incomplete_expired"
    || str_eq s "past_due"
    || str_eq s "paused"
    || str_eq s "trialing"
    || str_eq s "unpaid"

-- what the event says of the subscription
pub record Projection : Type 0 where
  pub status : String
  pub cancels : Bool
  pub period_end : ℕ

abbrev pub projection_of : Option String → Option Bool → Option ℕ → Option Projection
projection_of (some status) (some cancels) (some period_end) =
    if is_known_status status
    then some (record { status = status; cancels = cancels; period_end = period_end })
    else none
projection_of _ _ _ = none

-- the claim of an account that a subscription of the plan may use
abbrev pub is_authority : StripeObject → Plan × Interval → CheckoutClaim → Bool
is_authority s parsed c =
    equals c.claim_token s.metadata.claim_token
    && str_eq c.plan_key (parsed.0).key
    && str_eq (interval_text c.plan_interval) (interval_text parsed.1)

abbrev pub is_tie : Account → SubscriptionEvent → Bool
is_tie a e =
    not e.remote_verified
    && a.cursor.created == or_zero e.created
    && a.cursor.rank == rank_for e.type

abbrev pub authorizes : StripeObject → Plan × Interval → Option CheckoutClaim → Bool
authorizes s parsed none = false
authorizes s parsed (some c) = is_authority s parsed c

-- an event that is not later than the account
unfoldable pub pass_over : SubscriptionEvent → Account → Tx SubscriptionResult
pass_over e a = do
  if is_tie a e
      then modify (
          report_incident event_order_tie e.id (tie_key a.id e.type e.created a.cursor.rank) none
            (some a.id))
      else pure tt
  pure (account_result ignored older_or_weaker a)

-- the instant of a number of seconds, in microseconds
abbrev pub to_timestamp : ℕ → ℕ
to_timestamp seconds = seconds * 1000000

abbrev pub project : Account → SubscriptionEvent → Option ℕ → ℕ → Projection → Account → Account
project a e customer subscription p row = record row {
  customer_id = coalesce row.customer_id customer;
  subscription_id = some subscription;
  status = project_subscription_status (some p.status);
  current_period_end = some (to_timestamp p.period_end);
  cancel_at_period_end = p.cancels;
  pending_free_at = if p.cancels then some (to_timestamp p.period_end) else none;
  cursor = projected_cursor a e;
}

abbrev pub is_claim : ℕ → ℕ → CheckoutClaim → Bool
is_claim account token c = is_of_account account c && c.claim_token == token

-- the claim that authorised the subscription is deleted
abbrev pub use_claim : Account → Option CheckoutClaim → Db → Db
use_claim a none db = db
use_claim a (some c) db = record db {
  claims = select (λ d. not (is_claim a.id c.claim_token d)) db.claims;
}

-- the statements after the guards
unfoldable pub apply_update :
    SubscriptionEvent
    → StripeObject
    → ℕ
    → Projection
    → Account
    → Option CheckoutClaim
    → Tx SubscriptionResult
apply_update e s subscription p a claim =
    if not (event_wins_account a e) then pass_over e a else (do
      db ← get_db
      raise_if (exists (has_ids a.id s.customer subscription) db.accounts) unique_violation
      modify (change_account a.id (project a e s.customer subscription p))
      modify (use_claim a claim)
      pure (account_result handled no_reason a))

-- the claim is needed where the account has no subscription yet
unfoldable pub authorized_update :
    SubscriptionEvent
    → StripeObject
    → ℕ
    → Projection
    → Account
    → Plan × Interval
    → Option ℕ
    → Tx SubscriptionResult
authorized_update e s subscription p a parsed (some bound) = apply_update e s subscription p a none
authorized_update e s subscription p a parsed none = do
  db ← get_db
  let claim = find (is_of_account a.id) db.claims
  if not (authorizes s parsed claim)
      then refuse_event subscription_without_authority without_authority e (account_key a.id)
          (some subscription) none a
      else apply_update e s subscription p a claim

abbrev pub from_result : {A : Type 0} → Result A → Tx A
from_result (ok a) = pure a
from_result (err e) = raise e

unfoldable pub update_items :
    Runtime → SubscriptionEvent → StripeObject → ℕ → Projection → Account → Tx SubscriptionResult
update_items r e s subscription p a = do
  plan ← from_result (subscription_plan r s)
  elim plan [
    | none ↦
        refuse_event ambiguous_subscription_items ambiguous_items e (account_key a.id)
          (some subscription) none a
    | some parsed ↦ authorized_update e s subscription p a parsed a.subscription_id
  ]

-- the guards on the customer, on the shape and on the subscription
unfoldable pub check_update :
    Runtime → SubscriptionEvent → StripeObject → Account → ℕ → Tx SubscriptionResult
check_update r e s a subscription =
    if not (customer_fits a s.customer)
    then refuse_event subscription_customer_conflict updated_customer e (account_key a.id)
        (some subscription) none a
    else elim (projection_of s.status s.cancel_at_period_end (subscription_period_end s)) [
      | none ↦
          refuse_event invalid_subscription_projection invalid_projection e (account_key a.id)
            (some subscription) none a
      | some p ↦
          if not (is_free_for subscription a)
          then refuse_event subscription_identity_conflict other_subscription e (account_key a.id)
              (some subscription) none a
          else update_items r e s subscription p a
    ]

unfoldable pub update_subscription :
    Runtime → SubscriptionEvent → StripeObject → Account → Tx SubscriptionResult
update_subscription r e s a = do
  subscription ← or_raise s.id object_without_identity
  check_update r e s a subscription

-- `subscriptionUpdated`
unfoldable pub subscription_updated : Runtime → SubscriptionEvent → Tx SubscriptionResult
subscription_updated r e = do
  subscription ← event_object e
  db ← get_db
  on_account (lock_account subscription subscription.metadata db)
      (update_subscription r e subscription)
