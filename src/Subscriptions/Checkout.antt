-- ===== src/Subscriptions/Checkout.antt =====
-- `SubscriptionEventProjector.checkoutCompleted` and `checkoutExpired` of
-- typescript/src/subscription-projector.ts: the Checkout that claims an account binds its subscription.
use stripe_entitlements_fast.Base.{
  ℕ, Bool, true, false, not, Option, none, some, ◌&&◌, ◌||◌, ◌==◌, if◌then◌else◌, find, exists,
  select,
}
use stripe_entitlements_fast.Store.{
  Db, Account, CheckoutClaim, account_key, handled, ignored, replayed,
  checkout_without_subscription, checkout_customer_conflict, checkout_without_claim,
  stale_checkout_completion, multiple_subscriptions, Tx, pure, get_db, modify, or_raise, raise_if,
  unique_violation, ◌>>=◌, ◌>>◌, object_without_identity,
}
use stripe_entitlements_fast.Ordering.{Cursor}
use stripe_entitlements_fast.PackEvents.{equals, coalesce}
use stripe_entitlements_fast.Subscriptions.{
  on_account, no_reason, no_subscription_id, checkout_customer, already_bound, claim_missing,
  claim_of_another, different_subscription, session_without_claim, SubscriptionResult,
  account_result, event_object, refuse_event, customer_fits, change_account,
}
use stripe_entitlements_fast.Runtime.{StripeObject, SubscriptionEvent, lock_account}
use stripe_entitlements_fast.Subscriptions.Deleted.{is_of_account}

-- a claim without a session, whose token the session's metadata carries
abbrev pub is_unattached : StripeObject → CheckoutClaim → Bool
is_unattached s c = elim c.session_id [
  | none ↦ equals c.claim_token s.metadata.claim_token
  | some _ ↦ false
]

-- the session is that of the claim
abbrev pub owns_claim : ℕ → StripeObject → CheckoutClaim → Bool
owns_claim session s c = equals session c.session_id || is_unattached s c

abbrev pub is_free_for : ℕ → Account → Bool
is_free_for subscription a = elim a.subscription_id [ none ↦ true | some s ↦ s == subscription ]

abbrev pub reset_unbound : Option ℕ → Cursor → Cursor
reset_unbound none c = record { created = 0; rank = 0 }
reset_unbound (some _) c = c

abbrev pub bind : Option ℕ → ℕ → Account → Account
bind customer subscription row = record row {
  customer_id = coalesce row.customer_id customer;
  cursor = reset_unbound row.subscription_id row.cursor;
  subscription_id = some subscription;
}

abbrev pub is_spent : ℕ → ℕ → ℕ → CheckoutClaim → Bool
is_spent account session token c =
    is_of_account account c && (equals session c.session_id || c.claim_token == token)

abbrev pub spend_claim : ℕ → ℕ → ℕ → Db → Db
spend_claim account session token db = record db {
  claims = select (λ c. not (is_spent account session token c)) db.claims;
}

-- another account has the customer or the subscription, whose columns are unique
abbrev pub has_ids : ℕ → Option ℕ → ℕ → Account → Bool
has_ids account customer subscription row =
    not (row.id == account)
    && (equals subscription row.subscription_id
        || elim customer [ none ↦ false | some c ↦ equals c row.customer_id ])

-- the statements after the guards
unfoldable pub bind_subscription :
    StripeObject → ℕ → ℕ → Account → CheckoutClaim → Tx SubscriptionResult
bind_subscription s session subscription a c = do
  db ← get_db
  raise_if (exists (has_ids a.id s.customer subscription) db.accounts) unique_violation
  modify (change_account a.id (bind s.customer subscription))
  modify (spend_claim a.id session c.claim_token)
  pure (account_result handled no_reason a)

unfoldable pub claim_checkout :
    SubscriptionEvent → StripeObject → ℕ → ℕ → Account → CheckoutClaim → Tx SubscriptionResult
claim_checkout e s session subscription a c =
    if not (owns_claim session s c)
    then refuse_event stale_checkout_completion claim_of_another e (account_key a.id) (some session)
        none a
    else if not (is_free_for subscription a)
    then refuse_event multiple_subscriptions different_subscription e (account_key a.id)
        (some subscription) none a
    else bind_subscription s session subscription a c

-- an account without a claim
unfoldable pub complete_unclaimed : SubscriptionEvent → ℕ → ℕ → Account → Tx SubscriptionResult
complete_unclaimed e session subscription a =
    if equals subscription a.subscription_id
    then pure (account_result replayed already_bound a)
    else refuse_event checkout_without_claim claim_missing e (account_key a.id) (some session) none
        a

unfoldable pub complete_subscription :
    SubscriptionEvent
    → StripeObject
    → ℕ
    → ℕ
    → Account
    → Option CheckoutClaim
    → Tx SubscriptionResult
complete_subscription e s session subscription a claim =
    if not (customer_fits a s.customer)
    then refuse_event checkout_customer_conflict checkout_customer e (account_key a.id)
        (some session) none a
    else elim claim [
      | none ↦ complete_unclaimed e session subscription a
      | some c ↦ claim_checkout e s session subscription a c
    ]

-- a session with its subscription
unfoldable pub complete_bound :
    SubscriptionEvent → StripeObject → ℕ → Account → Option ℕ → Tx SubscriptionResult
complete_bound e s session a none =
    refuse_event checkout_without_subscription no_subscription_id e (account_key a.id)
      (some session) none a
complete_bound e s session a (some subscription) = do
  db ← get_db
  complete_subscription e s session subscription a (find (is_of_account a.id) db.claims)

unfoldable pub complete_session : SubscriptionEvent → StripeObject → Account → Tx SubscriptionResult
complete_session e s a = do
  session ← or_raise s.id object_without_identity
  complete_bound e s session a s.direct_subscription

-- `checkoutCompleted`
unfoldable pub checkout_completed : SubscriptionEvent → Tx SubscriptionResult
checkout_completed e = do
  session ← event_object e
  db ← get_db
  on_account (lock_account session session.metadata db) (complete_session e session)

abbrev pub is_held : ℕ → CheckoutClaim → Bool
is_held session c = equals session c.session_id

abbrev pub release_claims : ℕ → Db → Db
release_claims session db = record db { claims = select (λ c. not (is_held session c)) db.claims }

abbrev pub released : Option CheckoutClaim → SubscriptionResult
released none = record { outcome = ignored; reason = session_without_claim; account_id = none }
released (some c) = record { outcome = handled; reason = no_reason; account_id = some c.account_id }

-- `checkoutExpired`: the claim that the session holds is deleted
unfoldable pub checkout_expired : SubscriptionEvent → Tx SubscriptionResult
checkout_expired e = do
  object ← event_object e
  session ← or_raise object.id object_without_identity
  db ← get_db
  modify (release_claims session)
  pure (released (find (is_held session) db.claims))
