-- ===== src/Tests/Annual.antt =====
-- An annual plan in its third month of thirty days, with one slot issued.
use stripe_entitlements_fast.Base.{
  ℕ, String, ◌+◌, ◌*◌, ◌-◌, ◌≤◌, ◌≡◌, ◌⊎◌, refl, [], ◌∷◌, pos, some, none, true, false, arith,
}
use stripe_entitlements_fast.Catalog.{Plan, Catalog, year, lookup_key, parse_lookup_key}
use stripe_entitlements_fast.Catalog.LookupKeys.{parse_lookup_key-lookup_key}
use stripe_entitlements_fast.Value.{Value, text, integer, object, field, end_fields}
use stripe_entitlements_fast.PricePolicy.{
  Expectation, PackExpectation, catalog_price_matches, catalog_one_time_price_matches,
  catalog_identity_matches, currency_options_match,
}
use stripe_entitlements_fast.PricePolicy.Acceptance.{catalog_price_matches-exclusive}
use stripe_entitlements_fast.Store.{Account, Db, ok}
use stripe_entitlements_fast.Annual.{
  Snapshot, handled, replayed, slot_already_granted, early_refusal, matched_plan, target_slot,
  grant_due,
}
use stripe_entitlements_fast.Annual.Grants.Slots.{IsMonotone, target_slot-begins}
use stripe_entitlements_fast.Annual.Grants.Booking.{Grants}
use stripe_entitlements_fast.Annual.Grants.Once.{IsDue, grant_due-Grants, grant_due_twice}
use stripe_entitlements_fast.Funding.Rounds.{IsFresh}
use stripe_entitlements_fast.Tests.Data.{alice, bob, pack_indebted}

abbrev pro : Plan
pro = record {
  key = "pro";
  currency = "usd";
  rank = 2;
  monthly_credits = 500;
  month_usd = 29;
  year_usd = 290;
  features = "export" ∷ [];
  limits = ("seats", 5) ∷ [];
}

abbrev pub shop_catalog : Catalog
shop_catalog = record { lookup_prefix = "shop"; plans = pro ∷ [] }

abbrev months : ℕ → ℕ → ℕ
months t k = t + 30 * k

months-IsMonotone : IsMonotone months
months-IsMonotone a j k le = omega arith

abbrev carol : Account
carol = record alice {
  plan_interval = some year;
  annual_anchor = some 0;
  grants_issued = 1;
  current_period_end = some 360;
  entitlement_period_end = some 360;
}

abbrev pub price : Value
price = object (
    field "lookup_key" (text "shop_pro_year") (
      field "currency" (text "usd") (
        field "unit_amount" (integer (pos 29000)) (
          field "recurring" (object (field "interval" (text "year") end_fields))
            (field "product" (object end_fields) (field "id" (text "price_1") end_fields))))))

abbrev snapshot : Snapshot
snapshot = record {
  subscription_id = 7;
  status = "active";
  lookup_key = some "shop_pro_year";
  current_period_end = some 360;
  resolved_price = some price;
  quantity = some 1;
  items_complete = true;
}

abbrev yearly : Db
yearly = record pack_indebted {
  accounts = carol ∷ bob ∷ [];
  invoices = record { id = 9; fully_refunded = false; disputed = false; grants_issued = 1 } ∷ [];
}

yearly-IsFresh : IsFresh yearly
yearly-IsFresh = record { unused = λ j le. refl; apart = λ i j lt e. omega arith }

grant-IsDue : IsDue months shop_catalog "line" carol pro snapshot 65 yearly
unfolding early_refusal matched_plan target_slot parse_lookup_key lookup_key catalog_price_matches
    catalog_identity_matches currency_options_match
grant-IsDue = record {
  found = refl;
  admitted = refl;
  matched = refl;
  due = omega arith;
  funded = record {
    invoice = 9;
    state = record { id = 9; fully_refunded = false; disputed = false; grants_issued = 1 };
    funds = refl;
    known = refl;
    still_open = refl;
  };
  new = refl;
  fresh = yearly-IsFresh;
  unique = λ k. ground arith;
}

grant_due-Grants_example :
    (later : Db) × (grant_due months shop_catalog "line" 1 (some 65) snapshot yearly
      ≡ ok (handled (target_slot months carol 65), later))
    × Grants months carol pro (target_slot months carol 65) yearly later
grant_due-Grants_example =
    grant_due-Grants months shop_catalog "line" carol pro snapshot (some 65) yearly grant-IsDue

grant_due_twice_example :
    (later final : Db) × (grant_due months shop_catalog "line" 1 (some 65) snapshot yearly
      ≡ ok (handled (target_slot months carol 65), later))
    × (grant_due months shop_catalog "line" 1 (some 65) snapshot later
        ≡ ok (replayed slot_already_granted, final))
    × (final.accounts ≡ later.accounts)
    × (final.ledger ≡ later.ledger)
grant_due_twice_example =
    grant_due_twice months shop_catalog "line" carol pro snapshot 65 yearly grant-IsDue

target_slot-begins_example :
    let t = target_slot months carol 65 in (t ≤ 12) × (t ≤ 12) × ((t ≤ 1) ⊎ (months 0 (t - 1) ≤ 65))
target_slot-begins_example = target_slot-begins months carol 0 65 months-IsMonotone refl

target_slot_run : target_slot months carol 65 ≡ 3
unfolding target_slot
target_slot_run = refl

parse_lookup_key-lookup_key_example :
    (k : String) × (lookup_key shop_catalog "pro" year ≡ some k)
    × (parse_lookup_key shop_catalog (some k) ≡ some (pro, year))
parse_lookup_key-lookup_key_example =
    parse_lookup_key-lookup_key shop_catalog "pro" pro year (refl, (refl, (refl, (refl, tt))))
      (refl, (refl, (refl, tt))) refl

abbrev expected : Expectation
expected = record {
  currency = "usd";
  unit_amount = 29000;
  interval = year;
  product_line = "line";
  plan_key = "pro";
  lookup_key = some "shop_pro_year";
  price_id = none;
  require_active = false;
}

abbrev expected_pack : PackExpectation
expected_pack = record {
  currency = "usd";
  unit_amount = 29000;
  product_line = "line";
  pack_key = "small";
  lookup_key = "shop_pro_year";
  require_active = false;
}

price_accepted : catalog_price_matches price expected ≡ true
unfolding catalog_price_matches catalog_identity_matches currency_options_match
price_accepted = refl

catalog_price_matches-exclusive_example : catalog_one_time_price_matches price expected_pack ≡ false
catalog_price_matches-exclusive_example =
    catalog_price_matches-exclusive price expected expected_pack price_accepted
