-- ===== src/PricePolicy.antt =====
-- typescript/src/price-policy.ts: whether a Stripe price is the one that the catalog expects. Currencies
-- are taken as ASCII, where `toLowerCase` changes the letters A to Z alone.
pub mod Acceptance
use Prim.Native.Char.{code}
use Prim.Native.String.{[] as empty, ◌∷◌ as ◌<∷◌}
use stripe_entitlements_fast.Base.{
  ℕ, ℤ, pos, String, Bool, true, false, Option, none, some, ◌&&◌, ◌||◌, not, leb, str_eq,
  if◌then◌else◌,
}
use stripe_entitlements_fast.Catalog.{Interval, interval_text}
use stripe_entitlements_fast.Value.{
  Value, Fields, end_fields, field, undefined, boolean, integer, text, object, is_record, is_absent,
  get, own_or, is_text, is_true, is_integer,
}

abbrev pub is_lower_case : String → Bool
is_lower_case empty = true
is_lower_case (c <∷ s) = not (leb b'A' (code c) && leb (code c) b'Z') && is_lower_case s

abbrev pub absent_or_unspecified : Value → Bool
absent_or_unspecified v = is_absent v || is_text "unspecified" v

-- the option of the one currency
abbrev pub option_matches : ℕ → Value → Bool
option_matches amount o =
    is_record o
    && is_integer (pos amount) (get o "unit_amount")
    && is_absent (get o "custom_unit_amount")
    && absent_or_unspecified (get o "tax_behavior")

abbrev pub options_match : Fields → String → ℕ → Bool
options_match end_fields currency amount = true
options_match (field name v end_fields) currency amount =
    str_eq name currency && option_matches amount v
options_match (field _ _ (field _ _ _)) currency amount = false

-- `currencyOptionsMatch`
unfoldable pub currency_options_match : Value → String → ℕ → Bool
currency_options_match (object fs) currency amount = options_match fs currency amount
currency_options_match v currency amount = is_absent v

abbrev pub absent_or : String → Value → Bool
absent_or s v = is_absent v || is_text s v

abbrev pub metadata_matches : String → String → Value → Bool
metadata_matches line plan m =
    is_absent m
    || (is_record m && absent_or line (get m "product_line") && absent_or plan (get m "plan"))

-- `catalogIdentityMatches`
unfoldable pub catalog_identity_matches : Value → Value → String → String → Bool
catalog_identity_matches price product line plan =
    metadata_matches line plan (get price "metadata")
    && metadata_matches line plan (get product "metadata")

-- `CatalogPriceExpectation`; its amount is a safe integer that is not negative
pub record Expectation : Type 0 where
  pub currency : String
  pub unit_amount : ℕ
  pub interval : Interval
  pub product_line : String
  pub plan_key : String
  pub lookup_key : Option String
  pub price_id : Option String
  pub require_active : Bool

abbrev pub is_expected : Option String → Value → Bool
is_expected none v = true
is_expected (some s) v = is_text s v

-- the tests on the amount and the shape that both kinds of price share
abbrev pub is_plain_amount : Value → String → ℕ → Bool
is_plain_amount price currency amount =
    is_lower_case currency
    && is_text currency (get price "currency")
    && is_integer (pos amount) (get price "unit_amount")
    && is_text "per_unit" (own_or price "billing_scheme" (text "per_unit"))
    && is_absent (get price "tiers_mode")
    && is_absent (get price "transform_quantity")
    && is_absent (get price "custom_unit_amount")
    && currency_options_match (get price "currency_options") currency amount
    && absent_or_unspecified (get price "tax_behavior")

abbrev pub is_plain_recurrence : Value → Value → Interval → Bool
is_plain_recurrence price recurring interval =
    is_text (interval_text interval) (get recurring "interval")
    && is_integer (pos 1) (own_or recurring "interval_count" (integer (pos 1)))
    && is_text "licensed" (own_or recurring "usage_type" (text "licensed"))
    && is_text "recurring" (own_or price "type" (text "recurring"))

-- `catalogPriceMatches`
unfoldable pub catalog_price_matches : Value → Expectation → Bool
catalog_price_matches price e =
    let recurring = get price "recurring" in
    let product = get price "product" in
    is_record price
    && is_record recurring
    && is_record product
    && (not e.require_active
        || (is_true (own_or price "active" (boolean true))
            && is_true (own_or product "active" (boolean true))))
    && catalog_identity_matches price product e.product_line e.plan_key
    && is_expected e.lookup_key (get price "lookup_key")
    && is_expected e.price_id (get price "id")
    && is_plain_recurrence price recurring e.interval
    && is_plain_amount price e.currency e.unit_amount

-- `CatalogOneTimePriceExpectation`
pub record PackExpectation : Type 0 where
  pub currency : String
  pub unit_amount : ℕ
  pub product_line : String
  pub pack_key : String
  pub lookup_key : String
  pub require_active : Bool

abbrev pub pack_metadata_matches : String → String → Value → Bool
pack_metadata_matches line pack m =
    is_absent m
    || (is_record m
        && absent_or line (get m "product_line")
        && absent_or pack (get m "credit_pack")
        && is_absent (get m "plan"))

-- `catalogOneTimePriceMatches`
unfoldable pub catalog_one_time_price_matches : Value → PackExpectation → Bool
catalog_one_time_price_matches price e =
    let product = get price "product" in
    is_record price
    && is_record product
    && pack_metadata_matches e.product_line e.pack_key (get price "metadata")
    && pack_metadata_matches e.product_line e.pack_key (get product "metadata")
    && (not e.require_active || (is_true (get price "active") && is_true (get product "active")))
    && is_text e.lookup_key (get price "lookup_key")
    && is_text "one_time" (own_or price "type" (text "one_time"))
    && is_absent (get price "recurring")
    && is_plain_amount price e.currency e.unit_amount
