-- ===== src/Subscriptions/Items.antt =====
-- `#subscriptionPlan` and `#subscriptionPeriodEnd` of typescript/src/subscription-projector.ts: what the
-- only item of a subscription says.
use stripe_entitlements_fast.Base.{
  ℕ, ℤ, ◌*◌, String, List, [], ◌∷◌, Bool, true, false, not, Option, none, some, pos, eq_ℤ,
  if◌then◌else◌,
}
use stripe_entitlements_fast.Value.{is_record}
use stripe_entitlements_fast.Catalog.{
  Interval, month, year, Plan, Catalog, lookup_key, parse_lookup_key,
}
use stripe_entitlements_fast.PricePolicy.{catalog_price_matches}
use stripe_entitlements_fast.Store.{Result, ok, err, plan_unknown}
use stripe_entitlements_fast.Runtime.{StripeObject, SubscriptionItem}

-- the catalog and the product line of `ProcessorRuntime`
pub record Runtime : Type 0 where
  pub catalog : Catalog
  pub product_line : String

abbrev pub list_price : Plan → Interval → ℕ
list_price p month = p.month_usd
list_price p year = p.year_usd

-- `catalogLineMatches` of typescript/src/event-processor.ts; it throws where the catalog lacks the plan
unfoldable pub catalog_line_matches : Runtime → SubscriptionItem → Plan → Interval → Result Bool
catalog_line_matches r i p interval = elim i.price_id [
  | none ↦ ok false
  | some price_id ↦
      if not (is_record i.resolved_price)
      then ok false
      else elim (lookup_key r.catalog p.key interval) [
        | none ↦ err plan_unknown
        | some key ↦ ok (
            catalog_price_matches i.resolved_price (record {
              currency = p.currency;
              unit_amount = list_price p interval * 100;
              interval = interval;
              product_line = r.product_line;
              plan_key = p.key;
              lookup_key = some key;
              price_id = some price_id;
              require_active = false;
            }))
      ]
]

abbrev pub single : Option (List (Option SubscriptionItem)) → Option SubscriptionItem
single (some (i ∷ [])) = i
single _ = none

-- the only item of a list that is complete
unfoldable pub only_item : StripeObject → Option SubscriptionItem
only_item s = elim s.items [
  | none ↦ none
  | some list ↦ if list.is_complete then single list.items else none
]

abbrev pub is_one : Option ℤ → Bool
is_one none = false
is_one (some n) = eq_ℤ n (pos 1)

abbrev pub if_matches : Result Bool → Plan × Interval → Result (Option (Plan × Interval))
if_matches (err e) parsed = err e
if_matches (ok true) parsed = ok (some parsed)
if_matches (ok false) parsed = ok none

-- `#subscriptionPlan`
unfoldable pub subscription_plan : Runtime → StripeObject → Result (Option (Plan × Interval))
subscription_plan r s = elim (only_item s) [
  | none ↦ ok none
  | some i ↦
      if not (is_one i.quantity) then ok none else elim (parse_lookup_key r.catalog i.lookup_key) [
        | none ↦ ok none
        | some (p, interval) ↦ if_matches (catalog_line_matches r i p interval) (p, interval)
      ]
]

abbrev pub period_end_of : Option SubscriptionItem → Option (Option ℕ)
period_end_of none = none
period_end_of (some i) = i.period_end

abbrev pub end_or : Option (Option ℕ) → Option (Option ℕ) → Option ℕ
end_or (some e) other = e
end_or none (some e) = e
end_or none none = none

-- `#subscriptionPeriodEnd`
unfoldable pub subscription_period_end : StripeObject → Option ℕ
subscription_period_end s = end_or (period_end_of (only_item s)) s.period_end
