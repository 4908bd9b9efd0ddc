-- ===== src/Tests/Portal.antt =====
-- A safe configuration of the Portal, and one with more features.
use stripe_entitlements_fast.Base.{◌↔◌, some, ◌≡◌, refl, true, false}
use stripe_entitlements_fast.Value.{Fields, text, boolean, object, field, end_fields}
use stripe_entitlements_fast.Portal.Ids.{portal_configuration_id_is_usable, is_configuration_id}
use stripe_entitlements_fast.Portal.{PortalExpectation, portal_configuration_is_safe}
use stripe_entitlements_fast.Portal.Safety.{IsSafe, portal_configuration_is_safe-IsSafe}
use stripe_entitlements_fast.Portal.Benign.{portal_configuration_is_safe-benign}

abbrev features : Fields
features =
    field "subscription_cancel"
      (object (field "enabled" (boolean true) (field "mode" (text "at_period_end") end_fields)))
      (field "subscription_update" (object (field "enabled" (boolean false) end_fields)) end_fields)

abbrev more_features : Fields
more_features =
    field "invoice_history" (object (field "enabled" (boolean true) end_fields)) features

abbrev configuration : Fields → Fields
configuration fs = field "active" (boolean true) (
    field "livemode" (boolean false) (
      field "features" (object fs)
        (field "metadata" (object (field "product_line" (text "shop") end_fields)) end_fields)))

abbrev expected : PortalExpectation
expected = record { expected_livemode = false; expected_product_line = "shop" }

portal_configuration_is_safe_run :
    portal_configuration_is_safe (object (configuration more_features)) expected
    ≡ portal_configuration_is_safe (object (configuration features)) expected
portal_configuration_is_safe_run =
    portal_configuration_is_safe-benign (configuration more_features) (configuration features)
      more_features features expected (refl, (refl, (refl, tt))) refl refl (refl, (refl, tt))

portal_configuration_is_safe-IsSafe_example :
    (portal_configuration_is_safe (object (configuration more_features)) expected ≡ true)
    ↔ IsSafe (object (configuration more_features)) expected
portal_configuration_is_safe-IsSafe_example =
    portal_configuration_is_safe-IsSafe (object (configuration more_features)) expected

usable_id : portal_configuration_id_is_usable (some "bpc_1Nq8Ab") ≡ true
unfolding portal_configuration_id_is_usable is_configuration_id
usable_id = refl

placeholder_id : portal_configuration_id_is_usable (some "bpc_ChangeMe") ≡ false
unfolding portal_configuration_id_is_usable is_configuration_id
placeholder_id = refl
