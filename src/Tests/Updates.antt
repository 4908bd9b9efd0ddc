-- ===== src/Tests/Updates.antt =====
-- An update of a subscription of a small database, and events that come late.
use stripe_entitlements_fast.Base.{none, inr, pos, true, ◌≡◌, refl, [], ◌∷◌, some, false}
use stripe_entitlements_fast.Store.{Account, Db, ok, handled}
use stripe_entitlements_fast.Store.Frames.{After}
use stripe_entitlements_fast.Runtime.{
  StripeObject, SubscriptionEvent, subscription_id, lock_account, subscription_metadata,
  event_wins_account, projected_cursor,
}
use stripe_entitlements_fast.Subscriptions.{no_reason, account_result}
use stripe_entitlements_fast.Ordering.{event_wins, rank_for, projection_order}
use stripe_entitlements_fast.Subscriptions.PaymentFailed.{payment_failed}
use stripe_entitlements_fast.Subscriptions.Deleted.{subscription_deleted}
use stripe_entitlements_fast.Subscriptions.Checkout.{checkout_completed, checkout_expired}
use stripe_entitlements_fast.Subscriptions.Packs.{SameTables, subscription_events-SameTables}
use stripe_entitlements_fast.Subscriptions.Items.{
  Runtime, only_item, subscription_period_end, catalog_line_matches, subscription_plan,
}
use stripe_entitlements_fast.Subscriptions.Updated.{
  authorized_update, apply_update, update_items, check_update, update_subscription,
  subscription_updated,
}
use stripe_entitlements_fast.Subscriptions.Order.{
  DoesNotWin, SameStanding, IsPowerless, powerless_events-SameStanding,
}
use stripe_entitlements_fast.Catalog.{lookup_key, parse_lookup_key}
use stripe_entitlements_fast.PricePolicy.{
  catalog_price_matches, catalog_identity_matches, currency_options_match,
}
use stripe_entitlements_fast.Primitives.{project_subscription_status}
use stripe_entitlements_fast.Tests.Annual.{shop_catalog, price}
use stripe_entitlements_fast.Tests.Data.{alice, shop}
use stripe_entitlements_fast.Tests.Subscriptions.{
  no_metadata, neighbour, subscribed, ended, deletion,
}

abbrev pub runtime : Runtime
runtime = record { catalog = shop_catalog; product_line = "shop" }

subscription_events-SameTables_example :
    After (SameTables subscribed) (payment_failed deletion subscribed)
    × After (SameTables subscribed) (subscription_deleted deletion subscribed)
    × After (SameTables subscribed) (subscription_updated runtime deletion subscribed)
    × After (SameTables subscribed) (checkout_completed deletion subscribed)
    × After (SameTables subscribed) (checkout_expired deletion subscribed)
subscription_events-SameTables_example = subscription_events-SameTables runtime deletion subscribed

-- the subscription of alice is renewed and will end
abbrev renewed : StripeObject
renewed = record ended {
  status = some "active";
  cancel_at_period_end = some true;
  items = some (record {
    is_complete = true;
    items = some (
        some (record {
          quantity = some (pos 1);
          lookup_key = some "shop_pro_year";
          resolved_price = price;
          price_id = some "price_1";
          period_end = some (some 90);
        })
        ∷ []);
  });
}

abbrev renewal : SubscriptionEvent
renewal = record deletion { type = "customer.subscription.updated"; object = some renewed }

abbrev renewed_db : Db
renewed_db = record subscribed {
  accounts =
      record alice {
        current_period_end = some 90000000;
        cancel_at_period_end = true;
        pending_free_at = some 90000000;
        cursor = record { created = 8; rank = 20 };
      }
      ∷ neighbour
      ∷ [];
}

renewal_run :
    subscription_updated runtime renewal subscribed
    ≡ ok (account_result handled no_reason alice, renewed_db)
unfolding subscription_updated lock_account subscription_id update_subscription check_update
    subscription_period_end only_item update_items subscription_plan catalog_line_matches
    parse_lookup_key lookup_key catalog_price_matches catalog_identity_matches
    currency_options_match authorized_update apply_update project_subscription_status
    event_wins_account event_wins rank_for projected_cursor projection_order
renewal_run = refl

abbrev late_deletion : SubscriptionEvent
late_deletion = record deletion { created = some 5; type = "customer.subscription.updated" }

abbrev solo : Account
solo = record alice { subscription_id = none }

abbrev unclaimed : Db
unclaimed = record shop { accounts = solo ∷ [] }

late_locked : lock_account ended no_metadata unclaimed ≡ some solo
unfolding lock_account subscription_id
late_locked = refl

late_loses : event_wins_account solo late_deletion ≡ false
unfolding event_wins_account event_wins rank_for
late_loses = refl

late_deletion-DoesNotWin : DoesNotWin (λ o. o.metadata) late_deletion unclaimed
late_deletion-DoesNotWin o a here found = cc (late_locked, late_loses)

late_invoice-DoesNotWin : DoesNotWin subscription_metadata late_deletion unclaimed
unfolding subscription_metadata
late_invoice-DoesNotWin o a here found = cc (late_locked, late_loses)

-- an update of another subscription of alice, before she has one
abbrev foreign : StripeObject
foreign = record renewed { id = some 19 }

abbrev stranger : SubscriptionEvent
stranger = record renewal { object = some foreign }

foreign_locked : lock_account foreign no_metadata unclaimed ≡ some solo
unfolding lock_account subscription_id
foreign_locked = refl

stranger-IsPowerless :
    (o : StripeObject) (a : Account)
    → stranger.object ≡ some o
    → lock_account o o.metadata unclaimed ≡ some a
    → IsPowerless stranger o a a.subscription_id unclaimed
stranger-IsPowerless o a here found = inr (cc foreign_locked, λ parsed. refl)

powerless_events-SameStanding_example :
    After (SameStanding unclaimed) (payment_failed late_deletion unclaimed)
    × After (SameStanding unclaimed) (subscription_deleted late_deletion unclaimed)
    × After (SameStanding unclaimed) (subscription_updated runtime stranger unclaimed)
powerless_events-SameStanding_example =
    powerless_events-SameStanding runtime late_deletion stranger unclaimed late_invoice-DoesNotWin
      late_deletion-DoesNotWin stranger-IsPowerless
