-- ===== src/Portal/Safety.antt =====
-- What `portalConfigurationIsSafe` of typescript/src/portal-policy.ts lets through: a configuration whose
-- customers cannot change their plan past the service.
use mathlib.Core.Bool.{true≢false}
use mathlib.Core.Path.{subst}
use stripe_entitlements_fast.Base.{
  String, ◌≡◌, ◌↔◌, refl, sym, ap, ◌∙◌, Bool, true, false, ◌&&◌, ◌||◌, inl, inr, Bool-cases, former,
  latter, both, str_eq, eq_iff,
}
use stripe_entitlements_fast.Value.{
  Value, Fields, undefined, null, inexact, exotic, boolean, integer, text, array, object, is_record,
  is_true, is_false, is_text, get,
}
use stripe_entitlements_fast.Portal.{
  PortalExpectation, equals_boolean, cancellation_is_safe, portal_configuration_is_safe,
}

-- a subscription cannot be canceled, or it is canceled at the end of the period
pub data Cancels (cancel : Value) : Type 0 where
  never : get cancel "enabled" ≡ boolean false → Cancels cancel
  at_period_end :
      get cancel "enabled" ≡ boolean true
      → get cancel "mode" ≡ text "at_period_end"
      → Cancels cancel

-- A configuration that leaves plan changes to the service.
pub record IsSafe (config : Value) (e : PortalExpectation) : Type 0 where
  pub features : Fields
  pub metadata : Fields
  pub cancel : Fields
  pub update : Fields
  pub has_features : get config "features" ≡ object features
  pub has_metadata : get config "metadata" ≡ object metadata
  pub has_cancel : get (object features) "subscription_cancel" ≡ object cancel
  pub has_update : get (object features) "subscription_update" ≡ object update
  pub is_active : get config "active" ≡ boolean true
  pub in_mode : get config "livemode" ≡ boolean e.expected_livemode
  pub of_product : get (object metadata) "product_line" ≡ text e.expected_product_line
  pub no_update : get (object update) "enabled" ≡ boolean false
  pub cancels : Cancels (object cancel)

is_record-object : (v : Value) → is_record v ≡ true → (fs : Fields) × (v ≡ object fs)
is_record-object (object fs) h = (fs, refl)
is_record-object undefined h = absurd (true≢false (sym h))
is_record-object null h = absurd (true≢false (sym h))
is_record-object inexact h = absurd (true≢false (sym h))
is_record-object exotic h = absurd (true≢false (sym h))
is_record-object (boolean b) h = absurd (true≢false (sym h))
is_record-object (integer n) h = absurd (true≢false (sym h))
is_record-object (text t) h = absurd (true≢false (sym h))
is_record-object (array vs) h = absurd (true≢false (sym h))

equals_boolean-boolean : (b : Bool) (v : Value) → equals_boolean b v ≡ true → v ≡ boolean b
equals_boolean-boolean true (boolean true) h = refl
equals_boolean-boolean true (boolean false) h = absurd (true≢false (sym h))
equals_boolean-boolean true _ h = absurd (true≢false (sym h))
equals_boolean-boolean false (boolean false) h = refl
equals_boolean-boolean false (boolean true) h = absurd (true≢false (sym h))
equals_boolean-boolean false _ h = absurd (true≢false (sym h))

is_text-text : (s : String) (v : Value) → is_text s v ≡ true → v ≡ text s
is_text-text s (text t) h = ap text ((eq_iff t s).0 h)
is_text-text s _ h = absurd (true≢false (sym h))

str_eq-same : (s : String) → str_eq s s ≡ true
str_eq-same s = (eq_iff s s).1 refl

equals_boolean-same : (b : Bool) → equals_boolean b (boolean b) ≡ true
equals_boolean-same true = refl
equals_boolean-same false = refl

cancellation_is_safe-Cancels :
    (cancel : Value) → cancellation_is_safe cancel ≡ true → Cancels cancel
cancellation_is_safe-Cancels cancel h = elim (Bool-cases (is_false (get cancel "enabled"))) [
  | inl off ↦ never (equals_boolean-boolean false _ off)
  | inr on ↦
      let rest : (is_true (get cancel "enabled") && is_text "at_period_end" (get cancel "mode"))
          ≡ true =
        ap
          (λ b.
            b || (is_true (get cancel "enabled") && is_text "at_period_end" (get cancel "mode")))
          (sym on)
        ∙ h in
      at_period_end (equals_boolean-boolean true _ (former _ _ rest))
        (is_text-text _ _ (latter (is_true (get cancel "enabled")) _ rest))
]

Cancels-cancellation_is_safe :
    (cancel : Value) → Cancels cancel → cancellation_is_safe cancel ≡ true
Cancels-cancellation_is_safe cancel (never off) = rw off refl
Cancels-cancellation_is_safe cancel (at_period_end on mode) =
    rw (on, mode) (str_eq-same "at_period_end")

-- the parts of a configuration that the code has found safe
accepted-IsSafe :
    (config : Value) (e : PortalExpectation)
    → portal_configuration_is_safe config e ≡ true
    → IsSafe config e
unfolding portal_configuration_is_safe
accepted-IsSafe config e h =
    let features_safe = latter _ _ (former _ _ (former _ _ (former _ _ h))) in
    let (features, has_features) =
      is_record-object _ (former _ _ (former _ _ (former _ _ (former _ _ features_safe)))) in
    let (metadata, has_metadata) =
      is_record-object _ (latter _ _ (former _ _ (former _ _ (former _ _ (former _ _ h))))) in
    let (cancel, has_cancel) =
      is_record-object _ (latter _ _ (former _ _ (former _ _ (former _ _ features_safe)))) in
    let (update, has_update) =
      is_record-object _ (latter _ _ (former _ _ (former _ _ features_safe))) in
    record {
      features = features;
      metadata = metadata;
      cancel = cancel;
      update = update;
      has_features = has_features;
      has_metadata = has_metadata;
      has_cancel = ap (λ v. get v "subscription_cancel") (sym has_features) ∙ has_cancel;
      has_update = ap (λ v. get v "subscription_update") (sym has_features) ∙ has_update;
      is_active = equals_boolean-boolean true _ (latter _ _ (former _ _ (former _ _ h)));
      in_mode = equals_boolean-boolean e.expected_livemode _ (latter _ _ (former _ _ h));
      of_product =
          ap (λ v. get v "product_line") (sym has_metadata) ∙ is_text-text _ _ (latter _ _ h);
      no_update =
          ap (λ v. get v "enabled") (sym has_update)
          ∙ equals_boolean-boolean false _ (latter _ _ (former _ _ features_safe));
      cancels =
          subst Cancels has_cancel (cancellation_is_safe-Cancels _ (latter _ _ features_safe));
    }

active-is_record : (config : Value) → get config "active" ≡ boolean true → is_record config ≡ true
active-is_record (object fs) h = refl
active-is_record undefined h = ap is_true h
active-is_record null h = ap is_true h
active-is_record inexact h = ap is_true h
active-is_record exotic h = ap is_true h
active-is_record (boolean b) h = ap is_true h
active-is_record (integer n) h = ap is_true h
active-is_record (text t) h = ap is_true h
active-is_record (array vs) h = ap is_true h

IsSafe-accepted :
    (config : Value) (e : PortalExpectation)
    → IsSafe config e
    → portal_configuration_is_safe config e ≡ true
unfolding portal_configuration_is_safe
IsSafe-accepted config e s =
    rw
      (
        active-is_record config s.is_active,
        s.has_features,
        s.has_metadata,
        s.has_cancel,
        s.has_update,
        s.is_active,
        s.in_mode,
        s.of_product,
        s.no_update,
        equals_boolean-same e.expected_livemode,
        str_eq-same e.expected_product_line,
      )
      (both _ _ (both _ _ (both _ _ (Cancels-cancellation_is_safe _ s.cancels) refl) refl) refl)

-- A configuration is accepted exactly when its metadata, its features and their cancellation and update
-- are objects that say this: plan changes are off, a cancellation is off or takes effect at the end of the period, and the configuration is active, of the expected mode and
-- of the expected product line. Nothing else that it holds counts.
pub portal_configuration_is_safe-IsSafe :
    (config : Value) (e : PortalExpectation)
    → (portal_configuration_is_safe config e ≡ true) ↔ IsSafe config e
portal_configuration_is_safe-IsSafe config e = (accepted-IsSafe config e, IsSafe-accepted config e)
