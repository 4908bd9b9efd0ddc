-- ===== src/Runtime.antt =====
-- What `ProcessorRuntime` of typescript/src/event-processor.ts offers the projector of subscription
-- events: the account of an event, the test of its order, and the incidents; and the objects that are
-- read in such an event.
use stripe_entitlements_fast.Base.{
  ℕ, ℤ, suc, String, str_eq, List, [], ◌∷◌, ◌++◌, Bool, true, false, not, Option, none, some, ◌&&◌,
  ◌==◌, if◌then◌else◌, find, exists, update,
}
use stripe_entitlements_fast.Value.{Value}
use stripe_entitlements_fast.Ordering.{Cursor, event_wins, rank_for, projection_order}
use stripe_entitlements_fast.Store.{
  Db, Account, SubscriptionIncidentKind, IncidentKey, id_key, account_key, tie_key,
  SubscriptionIncident, payment_failed_customer_conflict, payment_failed_subscription_conflict,
  unexpected_payment_failed_reason, plan_change_payment_failed, unbound_plan_change_payment_failed,
  plan_change_recovery_required, subscription_deleted_conflict, subscription_customer_conflict,
  checkout_without_subscription, checkout_customer_conflict, checkout_without_claim,
  stale_checkout_completion, multiple_subscriptions, invalid_subscription_projection,
  subscription_identity_conflict, ambiguous_subscription_items, subscription_without_authority,
  event_order_tie,
}
use stripe_entitlements_fast.PackEvents.{equals, same_id, coalesce, has_account_id}

-- The metadata of an object. `external_ref` is none where it is null or undefined, and some none where
-- it is no text or an empty one.
pub record Metadata : Type 0 where
  pub account_id : Option ℕ
  pub external_ref : Option (Option ℕ)
  pub claim_token : Option ℕ

-- An item of a Subscription. An end is none where it is null or undefined, and some none where it is no
-- integer that is not negative.
pub record SubscriptionItem : Type 0 where
  pub quantity : Option ℤ
  pub lookup_key : Option String
  pub resolved_price : Value
  pub price_id : Option String
  pub period_end : Option (Option ℕ)

-- `items`: whether `has_more` is false or absent, and the array, with none for an item that is no record
pub record ItemList : Type 0 where
  pub is_complete : Bool
  pub items : Option (List (Option SubscriptionItem))

-- An Invoice, a Subscription or a Checkout Session: its ids by `asStripeId`, and the metadata that the
-- parents of an Invoice carry where they are not empty.
pub record StripeObject : Type 0 where
  pub id : Option ℕ
  pub customer : Option ℕ
  pub direct_subscription : Option ℕ
  pub parent_subscription : Option ℕ
  pub client_reference : Option ℕ
  pub metadata : Metadata
  pub parent_metadata : Option Metadata
  pub legacy_metadata : Option Metadata
  pub billing_reason : Option String
  pub status : Option String
  pub cancel_at_period_end : Option Bool
  pub items : Option ItemList
  pub period_end : Option (Option ℕ)

-- `_expected_account`; its subscription is none where it is neither a text nor null, and its time is read
-- from a text of digits
pub record ExpectedAccount : Type 0 where
  pub subscription : Option (Option ℕ)
  pub created : Option ℕ
  pub rank : Option ℕ

-- `created` is none where it is no safe integer that is not negative.
pub record SubscriptionEvent : Type 0 where
  pub id : Option ℕ
  pub type : String
  pub created : Option ℕ
  pub remote_verified : Bool
  pub expected : Option ExpectedAccount
  pub object : Option StripeObject

-- `subscriptionId` of typescript/src/processor-primitives.ts
unfoldable pub subscription_id : StripeObject → Option ℕ
subscription_id o = coalesce o.direct_subscription o.parent_subscription

-- `subscriptionMetadata` of the same file
abbrev pub metadata_or : Option Metadata → Metadata → Metadata
metadata_or none m = m
metadata_or (some first) m = first

unfoldable pub subscription_metadata : StripeObject → Metadata
subscription_metadata o = metadata_or o.parent_metadata (metadata_or o.legacy_metadata o.metadata)

abbrev pub has_external_ref : ℕ → Account → Bool
has_external_ref k a = a.external_ref == k

abbrev pub has_subscription_id : ℕ → Account → Bool
has_subscription_id k a = equals k a.subscription_id

abbrev pub has_customer_id : ℕ → Account → Bool
has_customer_id k a = equals k a.customer_id

abbrev pub external_reference : Metadata → StripeObject → Option ℕ
external_reference m o = elim m.external_ref [ none ↦ o.client_reference | some r ↦ r ]

abbrev pub find_account : (ℕ → Account → Bool) → Option ℕ → Db → Option Account
find_account has none db = none
find_account has (some k) db = find (has k) db.accounts

abbrev pub or_account : Option Account → Option Account → Option Account
or_account none other = other
or_account (some a) other = some a

-- the account by the id that the metadata names; else by reference, subscription or customer
abbrev pub account_by : Option ℕ → Option Account → Db → Option Account
account_by none other db = other
account_by (some k) other db = find (has_account_id k) db.accounts

-- the account by reference, by subscription or by customer
abbrev pub other_account : StripeObject → Metadata → Db → Option Account
other_account o m db =
    let by_customer = find_account has_customer_id o.customer db in
    let by_subscription = find_account has_subscription_id (coalesce (subscription_id o) o.id) db in
    let by_reference = find_account has_external_ref (external_reference m o) db in
    or_account by_reference (or_account by_subscription by_customer)

-- `lockAccount`
unfoldable pub lock_account : StripeObject → Metadata → Db → Option Account
lock_account o m db = account_by m.account_id (other_account o m db) db

abbrev pub is_expected_subscription : Option ℕ → Option (Option ℕ) → Bool
is_expected_subscription stored none = false
is_expected_subscription stored (some expected) = same_id stored expected

abbrev pub is_expected_account : Account → Option ExpectedAccount → Bool
is_expected_account a none = false
is_expected_account a (some x) =
    is_expected_subscription a.subscription_id x.subscription
    && equals a.cursor.created x.created
    && equals a.cursor.rank x.rank

abbrev pub created_wins : Cursor → Option ℕ → String → Bool
created_wins current none type = false
created_wins current (some n) type =
    event_wins current (record { created = n; rank = rank_for type })

-- `eventWinsAccount`
unfoldable pub event_wins_account : Account → SubscriptionEvent → Bool
event_wins_account a e =
    if e.remote_verified
    then is_expected_account a e.expected
    else created_wins a.cursor e.created e.type

abbrev pub or_zero : Option ℕ → ℕ
or_zero none = 0
or_zero (some n) = n

-- `projectedCursor`
unfoldable pub projected_cursor : Account → SubscriptionEvent → Cursor
projected_cursor a e =
    projection_order a.cursor (record { created = or_zero e.created; type = e.type })

abbrev pub same_incident_kind : SubscriptionIncidentKind → SubscriptionIncidentKind → Bool
same_incident_kind payment_failed_customer_conflict payment_failed_customer_conflict = true
same_incident_kind payment_failed_subscription_conflict payment_failed_subscription_conflict = true
same_incident_kind unexpected_payment_failed_reason unexpected_payment_failed_reason = true
same_incident_kind plan_change_payment_failed plan_change_payment_failed = true
same_incident_kind unbound_plan_change_payment_failed unbound_plan_change_payment_failed = true
same_incident_kind plan_change_recovery_required plan_change_recovery_required = true
same_incident_kind subscription_deleted_conflict subscription_deleted_conflict = true
same_incident_kind subscription_customer_conflict subscription_customer_conflict = true
same_incident_kind checkout_without_subscription checkout_without_subscription = true
same_incident_kind checkout_customer_conflict checkout_customer_conflict = true
same_incident_kind checkout_without_claim checkout_without_claim = true
same_incident_kind stale_checkout_completion stale_checkout_completion = true
same_incident_kind multiple_subscriptions multiple_subscriptions = true
same_incident_kind invalid_subscription_projection invalid_subscription_projection = true
same_incident_kind subscription_identity_conflict subscription_identity_conflict = true
same_incident_kind ambiguous_subscription_items ambiguous_subscription_items = true
same_incident_kind subscription_without_authority subscription_without_authority = true
same_incident_kind event_order_tie event_order_tie = true
same_incident_kind _ _ = false

abbrev pub same_incident_key : IncidentKey → IncidentKey → Bool
same_incident_key (id_key m) (id_key n) = m == n
same_incident_key (account_key a m) (account_key b n) = a == b && m == n
same_incident_key (tie_key a type created rank) (tie_key b other instant r) =
    a == b && str_eq type other && same_id created instant && rank == r
same_incident_key _ _ = false

abbrev pub is_open_incident : SubscriptionIncidentKind → IncidentKey → SubscriptionIncident → Bool
is_open_incident kind key i =
    same_incident_kind i.kind kind && same_incident_key i.dedupe_key key && not i.resolved

abbrev pub seen_again : Option ℕ → Option ℕ → Option ℕ → SubscriptionIncident → SubscriptionIncident
seen_again event invoice account i = record i {
  event_id = event;
  invoice = coalesce invoice i.invoice;
  account_id = coalesce account i.account_id;
  seen_count = suc i.seen_count;
}

-- `recordIncident`
unfoldable pub report_incident :
    SubscriptionIncidentKind → Option ℕ → IncidentKey → Option ℕ → Option ℕ → Db → Db
report_incident kind event key invoice account db = record db {
  subscription_incidents =
      if exists (is_open_incident kind key) db.subscription_incidents
      then update (is_open_incident kind key) (seen_again event invoice account)
          db.subscription_incidents
      else db.subscription_incidents
        ++ record {
          kind = kind;
          dedupe_key = key;
          event_id = event;
          invoice = invoice;
          account_id = account;
          seen_count = 1;
          resolved = false;
        }
          ∷ [];
}
