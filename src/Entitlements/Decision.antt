-- ===== src/Entitlements/Decision.antt =====
-- What the decision of `EntitlementService.check` (typescript/src/entitlements.ts) says: an owner is
-- allowed exactly what the catalog gives to the plan of an account whose credits can be spent.
use stripe_entitlements_fast.Base.{ℕ, String, ◌≤◌, ◌≡◌, List, Bool, true, some, exists, All, str_eq}
use stripe_entitlements_fast.Store.{Db, Account}
use stripe_entitlements_fast.Catalog.{Catalog, Plan, plan_of}
use stripe_entitlements_fast.Spendable.{credits_are_spendable}
use stripe_entitlements_fast.Entitlements.{EntitlementCheck, limit_in, account_check}

-- the plan has the feature, and the plan's limit covers the request
abbrev pub HasFeature : Plan → String → Type 0
HasFeature p f = exists (λ g. str_eq g f) p.features ≡ true

abbrev pub Covers : Plan → String × ℕ → Type 0
Covers p (key, requested) =
    (maximum : ℕ) × (limit_in p.limits key ≡ some maximum) × (requested ≤ maximum)

-- What an account is entitled to.
pub record Entitles (catalog : Catalog) (db : Db) (a : Account) (features : List String)
    (limits : List (String × ℕ)) : Type 0 where
  pub plan : Plan
  pub has_plan_row : plan_of a.plan_key catalog ≡ some plan
  pub spendable : credits_are_spendable a db.clock ≡ true
  pub features_held : All (HasFeature plan) features
  pub limits_covered : All (Covers plan) limits

module _ (catalog : Catalog) (db : Db) (fs : List String) (ls : List (String × ℕ))
    (a : Account) where
  abbrev answer : EntitlementCheck
  answer = account_check catalog db fs ls a
