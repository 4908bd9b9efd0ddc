-- ===== src/Primitives/Slots.antt =====
-- The slots of an annual plan (`annualSlotsAllowed` of typescript/src/processor-primitives.ts).
use Prim.Native.Nat.{max}
use stripe_entitlements_fast.Base.{ℕ, suc, ℤ, pos, ◌≤ℤ◌, ◌+◌, ◌-◌, ◌*◌, ◌/◌, ◌≤◌, ◌<◌, ◌≡◌, arith}
use mathlib.Core.Path.{subst}
use native.Mathlib.Nat.{div-lt_iff_lt-mul, lt-div-mul-add, div-mul-le_self}
use stripe_entitlements_fast.Store.{ok}
use stripe_entitlements_fast.Primitives.{unrefunded, rounded_slots, annual_slots_allowed}

unrefunded_le : (amount : ℕ) (refunded : ℤ) → unrefunded amount refunded ≤ amount
unrefunded_le amount refunded = ground arith

unrefunded_antitone : (amount : ℕ) (r s : ℤ) → r ≤ℤ s → unrefunded amount s ≤ unrefunded amount r
unrefunded_antitone amount r s le = ground arith

module _ (amount : ℕ) (p : 0 < amount) where
  unrefunded_part :
      (refunded : ℕ) → refunded ≤ amount → unrefunded amount (pos refunded) ≡ amount - refunded
  unrefunded_part refunded le = ground arith

  -- the nearest to the twelfths that were not refunded, a half rounded up
  rounded_slots_nearest :
      (refunded : ℤ)
      → let s = rounded_slots amount refunded in
        let left = 24 * unrefunded amount refunded in
        (left < 2 * amount * s + amount) × (2 * amount * s ≤ left + amount)
  rounded_slots_nearest refunded =
      let n = 24 * unrefunded amount refunded + amount in
      (
        omega (arith, lt-div-mul-add {a = n} {b = 2 * amount} (omega arith)),
        omega (arith, div-mul-le_self n (2 * amount)),
      )

  rounded_slots_le : (refunded : ℤ) → rounded_slots amount refunded ≤ 12
  rounded_slots_le refunded =
      let n = 24 * unrefunded amount refunded + amount in
      omega (
        arith,
        (div-lt_iff_lt-mul {k = 2 * amount} {x = n} {y = 13} (omega arith)).1
            (omega (arith, unrefunded_le amount refunded)),
      )

  rounded_slots_antitone : (r s : ℤ) → r ≤ℤ s → rounded_slots amount s ≤ rounded_slots amount r
  rounded_slots_antitone r s le =
      let n = 24 * unrefunded amount s + amount in
      let k = 24 * unrefunded amount r + amount in
      omega (
        arith,
        (div-lt_iff_lt-mul {k = 2 * amount} {x = n} {y = suc (k / (2 * amount))} (omega arith)).1 (
            omega (
              arith,
              unrefunded_antitone amount r s le,
              lt-div-mul-add {a = k} {b = 2 * amount} (omega arith),
            )),
      )

  annual_slots_allowed-max :
      (refunded : ℤ) (m : ℕ)
      → m ≤ 12
      → annual_slots_allowed (pos amount) refunded (pos m)
        ≡ ok (max m (rounded_slots amount refunded))
  unfolding annual_slots_allowed
  annual_slots_allowed-max refunded m le = ground (arith, rounded_slots_le refunded)

  -- For a paid amount and a minimum of at most twelve, the slots lie between the minimum and twelve,
  -- and a larger refund never allows more of them.
  pub annual_slots_allowed_antitone :
      (r s : ℤ) (m : ℕ)
      → m ≤ 12
      → r ≤ℤ s
      → (more less : ℕ) × (annual_slots_allowed (pos amount) r (pos m) ≡ ok more)
        × (annual_slots_allowed (pos amount) s (pos m) ≡ ok less)
        × (m ≤ less)
        × (less ≤ more)
        × (more ≤ 12)
  annual_slots_allowed_antitone r s m le later = (
    max m (rounded_slots amount r),
    max m (rounded_slots amount s),
    annual_slots_allowed-max r m le,
    annual_slots_allowed-max s m le,
    omega arith,
    omega (arith, rounded_slots_antitone r s later),
    omega (arith, rounded_slots_le r),
  )

  -- For a paid amount, a refund of at most the amount and a minimum of at most twelve, the slots are
  -- the larger of the minimum and of the whole number that is nearest to the twelfths of the amount that
  -- were kept, where a half is rounded up.
  pub annual_slots_allowed_nearest :
      (refunded m : ℕ)
      → m ≤ 12
      → refunded ≤ amount
      → (nearest : ℕ) × (24 * (amount - refunded) < 2 * amount * nearest + amount)
        × (2 * amount * nearest ≤ 24 * (amount - refunded) + amount)
        × (annual_slots_allowed (pos amount) (pos refunded) (pos m) ≡ ok (max m nearest))
  annual_slots_allowed_nearest refunded m le part =
      let kept = unrefunded_part refunded part in
      let near = rounded_slots_nearest (pos refunded) in
      (
        rounded_slots amount (pos refunded),
        subst (λ u. 24 * u < 2 * amount * rounded_slots amount (pos refunded) + amount) kept near.0,
        subst (λ u. 2 * amount * rounded_slots amount (pos refunded) ≤ 24 * u + amount) kept near.1,
        annual_slots_allowed-max (pos refunded) m le,
      )
