-- ===== src/Portal/Benign.antt =====
-- "Other Portal capabilities and future feature keys are deliberately benign"
-- (typescript/src/portal-policy.ts).
use stripe_entitlements_fast.Base.{String, ◌≡◌, refl, List, [], ◌∷◌, All}
use stripe_entitlements_fast.Value.{Fields, object, get}
use stripe_entitlements_fast.Portal.{
  PortalExpectation, features_are_safe, portal_configuration_is_safe,
}

-- two objects have the same values under these names
abbrev pub Agree : List String → Fields → Fields → Type 0
Agree names cs ds = All (λ n. get (object cs) n ≡ get (object ds) n) names

features_are_safe-benign :
    (fs gs : Fields)
    → Agree ("subscription_cancel" ∷ "subscription_update" ∷ []) fs gs
    → features_are_safe (object fs) ≡ features_are_safe (object gs)
features_are_safe-benign fs gs (cancel, (update, _)) = rw (cancel, update) refl

-- Two Portal configurations with the same metadata, activity and mode, whose features have the same
-- cancellation and the same update, are both safe or both not, whatever else they and their features
-- hold.
pub portal_configuration_is_safe-benign :
    (cs ds fs gs : Fields) (e : PortalExpectation)
    → Agree ("metadata" ∷ "active" ∷ "livemode" ∷ []) cs ds
    → get (object cs) "features" ≡ object fs
    → get (object ds) "features" ≡ object gs
    → Agree ("subscription_cancel" ∷ "subscription_update" ∷ []) fs gs
    → portal_configuration_is_safe (object cs) e ≡ portal_configuration_is_safe (object ds) e
unfolding portal_configuration_is_safe
portal_configuration_is_safe-benign cs ds fs gs e (metadata, (active, (livemode, _))) f g features =
    rw (f, g, features_are_safe-benign fs gs features, metadata, active, livemode) refl
