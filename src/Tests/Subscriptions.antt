-- ===== src/Tests/Subscriptions.antt =====
-- Subscription events of a small database: a claimed Checkout, a failed payment and a deletion.
use stripe_entitlements_fast.Base.{◌≡◌, refl, [], ◌∷◌, some, none, false}
use stripe_entitlements_fast.Store.{
  Db, Account, CheckoutClaim, PlanChange, immediate, change_applying, month, ok, handled,
}
use stripe_entitlements_fast.Runtime.{
  Metadata, StripeObject, SubscriptionEvent, subscription_id, lock_account, event_wins_account,
}
use stripe_entitlements_fast.Subscriptions.{no_reason, account_result}
use stripe_entitlements_fast.Ordering.{event_wins, rank_for}
use stripe_entitlements_fast.Subscriptions.Deleted.{subscription_deleted}
use stripe_entitlements_fast.Subscriptions.Ending.{
  IsEnding, HasEnded, subscription_deleted-HasEnded,
}
use stripe_entitlements_fast.Tests.Data.{alice, bob, shop}

abbrev pub no_metadata : Metadata
no_metadata = record { account_id = none; external_ref = none; claim_token = none }

-- the subscription of alice
abbrev pub ended : StripeObject
ended = record {
  id = some 7;
  customer = some 70;
  direct_subscription = none;
  parent_subscription = none;
  client_reference = none;
  metadata = no_metadata;
  parent_metadata = none;
  legacy_metadata = none;
  billing_reason = none;
  status = none;
  cancel_at_period_end = none;
  items = none;
  period_end = none;
}

abbrev pub deletion : SubscriptionEvent
deletion = record {
  id = some 91;
  type = "customer.subscription.deleted";
  created = some 8;
  remote_verified = false;
  expected = none;
  object = some ended;
}

abbrev change : PlanChange
change = record {
  id = 31;
  account_id = 1;
  subscription_id = 7;
  settlement_invoice = some 9;
  effective_mode = immediate;
  status = change_applying;
  last_error = none;
  completed_at = none;
  lease_token = some 3;
  lease_expires_at = some 20;
  created_at = 4;
}

abbrev claim : CheckoutClaim
claim = record {
  account_id = 1;
  claim_token = 77;
  session_id = some 60;
  plan_key = "pro";
  plan_interval = month;
}

abbrev pub neighbour : Account
neighbour = record bob { subscription_id = some 8; customer_id = some 80 }

abbrev pub subscribed : Db
subscribed = record shop {
  accounts = alice ∷ neighbour ∷ [];
  claims = claim ∷ [];
  plan_changes = change ∷ [];
}

deletion-IsEnding : IsEnding deletion ended alice subscribed
unfolding lock_account subscription_id event_wins_account event_wins rank_for
deletion-IsEnding = record {
  event_id = 91;
  identified = refl;
  object = refl;
  found = refl;
  own = refl;
  fits = refl;
  wins = refl;
}

subscription_deleted-HasEnded_example :
    (later : Db) × (subscription_deleted deletion subscribed
      ≡ ok (account_result handled no_reason alice, later))
    × HasEnded ended alice subscribed later
subscription_deleted-HasEnded_example =
    subscription_deleted-HasEnded deletion ended alice subscribed deletion-IsEnding

-- the Checkout that binds a new subscription to an account without one
abbrev newcomer : Account
newcomer = record alice { id = 3; external_ref = 300; subscription_id = none; customer_id = none }

abbrev paid_session : StripeObject
paid_session = record ended {
  id = some 60;
  customer = some 75;
  direct_subscription = some 17;
  metadata = record no_metadata { account_id = some 3 };
}

abbrev checkout : SubscriptionEvent
checkout = record deletion { type = "checkout.session.completed"; object = some paid_session }

abbrev own_claim : CheckoutClaim
own_claim = record claim { account_id = 3 }

abbrev claimed_db : Db
claimed_db = record shop { accounts = alice ∷ newcomer ∷ []; claims = own_claim ∷ [] }
