-- ===== src/Spendable.antt =====
-- typescript/src/subscription-state.ts on a stored account: whether its subscription credits can be
-- spent at an instant, and how many. The balance is the exact bigint of the row. An instant outside
-- the years that `timestampMicros` reads is not modelled.
use stripe_entitlements_fast.Base.{
  ℕ, Bool, true, false, Option, none, some, not, ◌&&◌, ltb, leb, if◌then◌else◌,
}
pub use stripe_entitlements_fast.Amount.{max_credit_atoms}
use stripe_entitlements_fast.Store.{Account, Status, active}

abbrev pub is_active : Status → Bool
is_active active = true
is_active _ = false

abbrev pub is_after : Option ℕ → ℕ → Bool
is_after none as_of = false
is_after (some expires_at) as_of = ltb as_of expires_at

-- `subscriptionCreditsAreSpendable`
unfoldable pub credits_are_spendable : Account → ℕ → Bool
credits_are_spendable a as_of =
    is_active a.status && not a.entitlement_revoked && is_after a.credit_expires_at as_of

-- `spendableSubscriptionAtoms`
unfoldable pub subscription_atoms : Account → ℕ → ℕ
subscription_atoms a as_of =
    if credits_are_spendable a as_of && leb a.credits_balance max_credit_atoms
    then a.credits_balance
    else 0
