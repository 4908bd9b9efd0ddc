-- ===== src/Primitives.antt =====
-- The arithmetic of typescript/src/processor-primitives.ts: the share of a refund, rounded up, the
-- slots of an annual plan that a refund leaves, and the projection of Stripe's subscription status.
pub mod Rounding
pub mod Slots
use stripe_entitlements_fast.Base.{
  ℕ, ℤ, pos, negsuc, ltb_ℤ, leb_ℤ, ◌+◌, ◌-◌, ◌*◌, ◌/◌, Bool, ◌||◌, ltb, leb, if◌then◌else◌, Option,
  none, some, String, str_eq,
}
use stripe_entitlements_fast.Store.{
  Status, active, past_due, canceled, no_subscription, Result, ok, err, Error, slots_out_of_range,
}

-- the magnitude of a `bigint` that the code has found positive
abbrev pub magnitude : ℤ → ℕ
magnitude (pos n) = n
magnitude (negsuc n) = 0

-- `ceilRatio`: the ratio of the units, rounded up, that never exceeds them
unfoldable pub ceil_ratio : ℤ → ℤ → ℤ → ℤ
ceil_ratio units numerator denominator =
    if leb_ℤ units (pos 0) || leb_ℤ numerator (pos 0)
    then pos 0
    else if leb_ℤ denominator (pos 0) || leb_ℤ denominator numerator
    then units
    else pos (
        (magnitude units * magnitude numerator + magnitude denominator - 1) / magnitude denominator)

-- what of the amount was not refunded
abbrev pub unrefunded : ℕ → ℤ → ℕ
unrefunded amount refunded =
    if ltb_ℤ refunded (pos 0)
    then amount
    else if ltb_ℤ (pos amount) refunded
    then 0
    else amount - magnitude refunded

-- the twelfths of the amount that were not refunded, to the nearest
abbrev pub rounded_slots : ℕ → ℤ → ℕ
rounded_slots amount refunded = (24 * unrefunded amount refunded + amount) / (2 * amount)

-- `annualSlotsAllowed`, for an integral minimum
unfoldable pub annual_slots_allowed : ℤ → ℤ → ℤ → Result ℕ
annual_slots_allowed amount refunded minimum =
    if ltb_ℤ minimum (pos 0) || ltb_ℤ (pos 12) minimum
    then err slots_out_of_range
    else if leb_ℤ amount (pos 0)
    then ok (magnitude minimum)
    else let rounded = rounded_slots (magnitude amount) refunded in
      ok (
        if ltb rounded (magnitude minimum)
        then magnitude minimum
        else if ltb 12 rounded
        then 12
        else rounded)

-- `projectSubscriptionStatus`; a value that is no string is `none`
unfoldable pub project_subscription_status : Option String → Status
project_subscription_status none = no_subscription
project_subscription_status (some s) =
    if str_eq s "active" || str_eq s "trialing"
    then active
    else if str_eq s "past_due" || str_eq s "unpaid" || str_eq s "paused"
    then past_due
    else if str_eq s "canceled" || str_eq s "incomplete_expired"
    then canceled
    else no_subscription
