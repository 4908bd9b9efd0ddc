-- ===== src/Entitlements.antt =====
-- `EntitlementService` of typescript/src/entitlements.ts: the decision of `check`, and the credit
-- operations of an owner. An owner's reference and a key have passed their validation, and are naturals.
pub mod Requirements
pub mod Decision
pub mod Credits
use stripe_entitlements_fast.Base.{
  ℕ, ◌+◌, ℤ, String, List, [], ◌∷◌, map, Bool, true, false, not, Option, none, some, ◌&&◌, ◌==◌,
  str_eq, ltb, leb, if◌then◌else◌, select, find, exists, sum_of,
}
use stripe_entitlements_fast.Store.{
  Db, Account, Status, no_subscription, Interval, Lot, Error, account_not_found, key_reused,
  debit_not_found, owner_mismatch, invalid_credit_amount, owner_not_found, operation_not_found,
  idempotency_conflict, Result, ok, err, Tx,
}
use stripe_entitlements_fast.Catalog.{Catalog, Plan, plan_of}
use stripe_entitlements_fast.Spendable.{credits_are_spendable, subscription_atoms}
use stripe_entitlements_fast.Amount.{text, credit_atoms}
use stripe_entitlements_fast.Funding.{is_spendable_lot}
use stripe_entitlements_fast.Charge.{CreditResult, charge}
use stripe_entitlements_fast.Refund.{refund}
use stripe_entitlements_fast.Entitlements.Requirements.{validate_requirements}

pub record LimitDecision : Type 0 where
  pub key : String
  pub requested : ℕ
  pub maximum : Option ℕ
  pub allowed : Bool

-- `EntitlementReason`; `owner_unknown` is its "owner_not_found", here the name of an error
pub data EntitlementReason : Type 0 where
  allowed owner_unknown entitlement_not_enforceable feature_not_available limit_not_available
        limit_exceeded :
      EntitlementReason

pub record EntitlementCheck : Type 0 where
  pub allowed : Bool
  pub reason : EntitlementReason
  pub entitlements_enforceable : Bool
  pub plan_key : String
  pub plan_interval : Option Interval
  pub subscription_status : Status
  pub credits_spendable : Bool
  pub credit_balance : ℕ
  pub credit_expires_at : Option ℕ
  pub features : List (String × Bool)
  pub limits : List LimitDecision

-- a lot that the query sums
abbrev pub is_funding_lot : ℕ → ℕ → Lot → Bool
is_funding_lot account now l = is_spendable_lot account now l && ltb 0 l.remaining

-- `least` and `min` pass over null
abbrev pub least : Option ℕ → Option ℕ → Option ℕ
least none b = b
least (some a) none = some a
least (some a) (some b) = some (if ltb b a then b else a)

abbrev pub first_expiry : List Lot → Option ℕ
first_expiry [] = none
first_expiry (l ∷ ls) = least (some l.expires_at) (first_expiry ls)

-- the columns `pack_balance` and `next_pack_expiry`
unfoldable pub pack_balance : ℕ → Db → ℕ
pack_balance account db =
    sum_of (λ l. l.remaining) (select (is_funding_lot account db.clock) db.lots)

unfoldable pub next_pack_expiry : ℕ → Db → Option ℕ
next_pack_expiry account db = first_expiry (select (is_funding_lot account db.clock) db.lots)

-- `nextFundingExpiry`
abbrev pub next_funding_expiry : Account → ℕ → ℕ → Option ℕ → Option ℕ
next_funding_expiry a subscription packs pack_expiry =
    if ltb 0 subscription && ltb 0 packs
    then least a.credit_expires_at pack_expiry
    else if ltb 0 subscription
    then a.credit_expires_at
    else if ltb 0 packs
    then pack_expiry
    else none

-- `plan.features.has`
abbrev pub has_feature : Option Plan → String → Bool
has_feature none f = false
has_feature (some p) f = exists (λ g. str_eq g f) p.features

-- `plan.limits[key] ?? null`
abbrev pub limit_in : List (String × ℕ) → String → Option ℕ
limit_in [] key = none
limit_in ((k, n) ∷ rest) key = if str_eq k key then some n else limit_in rest key

-- `plan?.limits[key]`; the catalog makes the limits an object without a prototype
abbrev pub limit_of : Option Plan → String → Option ℕ
limit_of none key = none
limit_of (some p) key = limit_in p.limits key

abbrev pub within : ℕ → Option ℕ → Bool
within requested none = false
within requested (some maximum) = leb requested maximum

abbrev pub decide_feature : Bool → Option Plan → String → String × Bool
decide_feature enforceable plan f = (f, enforceable && has_feature plan f)

abbrev pub decide_limit : Bool → Option Plan → String × ℕ → LimitDecision
decide_limit enforceable plan (key, requested) = record {
  key = key;
  requested = requested;
  maximum = limit_of plan key;
  allowed = enforceable && within requested (limit_of plan key);
}

abbrev pub is_refused : String × Bool → Bool
is_refused (f, granted) = not granted

abbrev pub is_unlimited : LimitDecision → Bool
is_unlimited d = elim d.maximum [ none ↦ true | some _ ↦ false ]

-- the chain that sets `reason` and `allowed`
unfoldable pub decide : Bool → List (String × Bool) → List LimitDecision → EntitlementReason × Bool
decide enforceable features limits =
    if not enforceable
    then (EntitlementReason.entitlement_not_enforceable, enforceable)
    else if exists is_refused features
    then (EntitlementReason.feature_not_available, false)
    else if exists is_unlimited limits
    then (EntitlementReason.limit_not_available, false)
    else if exists (λ d. not d.allowed) limits
    then (EntitlementReason.limit_exceeded, false)
    else (EntitlementReason.allowed, enforceable)

abbrev pub has_plan : Option Plan → Bool
has_plan none = false
has_plan (some p) = true

-- the answer for an owner that has no account
unfoldable pub unknown_owner : List String → List (String × ℕ) → EntitlementCheck
unknown_owner features limits = record {
  allowed = false;
  reason = EntitlementReason.owner_unknown;
  entitlements_enforceable = false;
  plan_key = "free";
  plan_interval = none;
  subscription_status = no_subscription;
  credits_spendable = false;
  credit_balance = 0;
  credit_expires_at = none;
  features = map (λ f. (f, false)) features;
  limits = map (decide_limit false none) limits;
}

-- the answer for an account
unfoldable pub account_check :
    Catalog → Db → List String → List (String × ℕ) → Account → EntitlementCheck
account_check catalog db features limits a =
    let plan = plan_of a.plan_key catalog in
    let enforceable = has_plan plan && credits_are_spendable a db.clock in
    let subscription = subscription_atoms a db.clock in
    let packs = pack_balance a.id db in
    let granted = map (decide_feature enforceable plan) features in
    let decided = map (decide_limit enforceable plan) limits in
    let decision = decide enforceable granted decided in
    record {
      allowed = decision.1;
      reason = decision.0;
      entitlements_enforceable = enforceable;
      plan_key = a.plan_key;
      plan_interval = a.plan_interval;
      subscription_status = a.status;
      credits_spendable = ltb 0 (subscription + packs);
      credit_balance = subscription + packs;
      credit_expires_at = next_funding_expiry a subscription packs (next_pack_expiry a.id db);
      features = granted;
      limits = decided;
    }

abbrev pub is_owner : ℕ → Account → Bool
is_owner ref a = a.external_ref == ref

-- `check`
unfoldable pub check :
    Catalog → ℕ → List String → List (String × Option ℤ) → Db → Result EntitlementCheck
check catalog owner features limits db = elim (validate_requirements features limits) [
  | err e ↦ err e
  | ok (fs, ls) ↦ elim (find (is_owner owner) db.accounts) [
    | none ↦ ok (unknown_owner fs ls)
    | some a ↦ ok (account_check catalog db fs ls a)
  ]
]

-- a call whose errors are translated by a `catch`
abbrev pub rescue : {A : Type 0} → (Error → Error) → Tx A → Tx A
rescue f m db = elim (m db) [ ok r ↦ ok r | err e ↦ err (f e) ]

unfoldable pub charge_error : Error → Error
charge_error account_not_found = owner_not_found
charge_error key_reused = idempotency_conflict
charge_error e = e

unfoldable pub refund_error : Error → Error
refund_error owner_mismatch = operation_not_found
refund_error debit_not_found = operation_not_found
refund_error account_not_found = operation_not_found
refund_error e = e

-- `CreditAmount.parse` of a text, in the `try` of `charge`
abbrev pub parsed_amount : Result ℕ → Result ℕ
parsed_amount (ok n) = ok n
parsed_amount (err e) = err invalid_credit_amount

-- `charge`
unfoldable pub charge_owner : ℕ → List ℕ → ℕ → Tx CreditResult
charge_owner owner amount key db = elim (parsed_amount (credit_atoms false (text amount))) [
  | err e ↦ err e
  | ok atoms ↦ elim (find (is_owner owner) db.accounts) [
    | none ↦ err owner_not_found
    | some a ↦ rescue charge_error (charge a.id atoms key) db
  ]
]

-- `refund`
unfoldable pub refund_owner : ℕ → ℕ → ℕ → Tx CreditResult
refund_owner fuel owner key db = elim (find (is_owner owner) db.accounts) [
  | none ↦ err operation_not_found
  | some a ↦ rescue refund_error (refund fuel key (some a.id)) db
]
