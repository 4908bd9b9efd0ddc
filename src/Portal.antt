-- ===== src/Portal.antt =====
-- `portalConfigurationIsSafe` of typescript/src/portal-policy.ts: whether a configuration of the Stripe
-- Portal leaves plan changes to the service.
pub mod Benign
pub mod Safety
pub mod Ids
use stripe_entitlements_fast.Base.{String, Bool, true, false, ◌&&◌, ◌||◌}
use stripe_entitlements_fast.Value.{Value, is_record, get, is_text, is_true, is_false}

-- `PortalConfigurationExpectation`
pub record PortalExpectation : Type 0 where
  pub expected_livemode : Bool
  pub expected_product_line : String

-- `=== expected`
abbrev pub equals_boolean : Bool → Value → Bool
equals_boolean true v = is_true v
equals_boolean false v = is_false v

-- `cancellationIsSafe`
abbrev pub cancellation_is_safe : Value → Bool
cancellation_is_safe cancel =
    is_false (get cancel "enabled")
    || (is_true (get cancel "enabled") && is_text "at_period_end" (get cancel "mode"))

-- the tests on `features`
abbrev pub features_are_safe : Value → Bool
features_are_safe features =
    is_record features
    && is_record (get features "subscription_cancel")
    && is_record (get features "subscription_update")
    && is_false (get (get features "subscription_update") "enabled")
    && cancellation_is_safe (get features "subscription_cancel")

-- `portalConfigurationIsSafe`
unfoldable pub portal_configuration_is_safe : Value → PortalExpectation → Bool
portal_configuration_is_safe config e =
    is_record config
    && is_record (get config "metadata")
    && features_are_safe (get config "features")
    && is_true (get config "active")
    && equals_boolean e.expected_livemode (get config "livemode")
    && is_text e.expected_product_line (get (get config "metadata") "product_line")
