-- ===== src/Annual/Matching.antt =====
-- The checks of `grantDue` (typescript/src/annual.ts) on the account and on the remote subscription.
use stripe_entitlements_fast.Base.{
  ℕ, ◌*◌, String, Bool, true, false, Option, none, some, ◌&&◌, ◌||◌, not, ◌==◌, ltb, str_eq,
  if◌then◌else◌,
}
use stripe_entitlements_fast.Catalog.{Interval, year, Plan, Catalog, lookup_key, parse_lookup_key}
use stripe_entitlements_fast.Value.{Value}
use stripe_entitlements_fast.PricePolicy.{catalog_price_matches}
use stripe_entitlements_fast.Spendable.{is_active}
use stripe_entitlements_fast.Store.{Account}

-- `SubscriptionSnapshot` of types.ts
pub record Snapshot : Type 0 where
  pub subscription_id : ℕ
  pub status : String
  pub lookup_key : Option String
  pub current_period_end : Option ℕ
  pub resolved_price : Option Value
  pub quantity : Option ℕ
  pub items_complete : Bool

pub data Reason : Type 0 where
  account_missing not_active_annual revoked period_ended subscription_changed : Reason
  remote_inactive plans_differ slot_already_granted invoice_missing invoice_closed : Reason

-- `ProcessResult`: a handled one names the slot that was granted
pub data Outcome : Type 0 where
  ignored replayed : Reason → Outcome
  handled : ℕ → Outcome

abbrev pub is_some_eq : Option ℕ → Option ℕ → Bool
is_some_eq (some a) (some b) = a == b
is_some_eq _ _ = false

abbrev pub same_option : Option ℕ → Option ℕ → Bool
same_option none none = true
same_option a b = is_some_eq a b

abbrev pub is_yearly : Option Interval → Bool
is_yearly (some year) = true
is_yearly _ = false

abbrev pub ends_after : Option ℕ → ℕ → Bool
ends_after none now = false
ends_after (some t) now = ltb now t

-- the first checks of `grantDue`, in their order
unfoldable pub early_refusal : Account → Snapshot → ℕ → Option Reason
early_refusal account snapshot now =
    if not (is_active account.status) || not (is_yearly account.plan_interval)
    then some not_active_annual
    else if account.entitlement_revoked
    then some revoked
    else if not (ends_after account.entitlement_period_end now)
    then some period_ended
    else if not (is_some_eq (some snapshot.subscription_id) account.subscription_id)
    then some subscription_changed
    else if not (str_eq snapshot.status "active") && not (str_eq snapshot.status "trialing")
    then some remote_inactive
    else none

abbrev pub period_matches : Account → Snapshot → Bool
period_matches account snapshot =
    is_some_eq snapshot.current_period_end account.entitlement_period_end
    && is_some_eq snapshot.current_period_end account.current_period_end

module _ (catalog : Catalog) (product_line : String) where
  abbrev pub price_matches : Snapshot → Plan → Bool
  price_matches snapshot plan =
      snapshot.items_complete
      && is_some_eq snapshot.quantity (some 1)
      && (elim snapshot.resolved_price [
        | none ↦ false
        | some price ↦ catalog_price_matches price (record {
          currency = plan.currency;
          unit_amount = plan.year_usd * 100;
          interval = year;
          product_line = product_line;
          plan_key = plan.key;
          lookup_key = lookup_key catalog plan.key year;
          price_id = none;
          require_active = false;
        })
      ])

  abbrev pub plan_matches : Account → Snapshot → Plan × Interval → Bool
  plan_matches account snapshot (plan, interval) =
      str_eq plan.key account.plan_key
      && is_yearly (some interval)
      && period_matches account snapshot
      && price_matches snapshot plan

  -- the plan of the snapshot, where it is the plan of the account
  unfoldable pub matched_plan : Account → Snapshot → Option Plan
  matched_plan account snapshot = elim (parse_lookup_key catalog snapshot.lookup_key) [
    | none ↦ none
    | some (plan, interval) ↦
        if plan_matches account snapshot (plan, interval) then some plan else none
  ]
