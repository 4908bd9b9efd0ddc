-- ===== src/Tests/Numbers.antt =====
-- Amounts, refunds of 250 of 1000 cents, and the shares that they leave.
use stripe_entitlements_fast.Base.{
  ℕ, pos, ◌+◌, ◌-◌, ◌*◌, ◌≤◌, ◌<◌, ◌≡◌, refl, List, [], ◌∷◌, true, false, arith,
}
use Prim.Native.Nat.{min, max}
use stripe_entitlements_fast.Store.{ok}
use stripe_entitlements_fast.Amount.{
  text, credit_atoms, credit_decimal, max_credit_atoms, decimal, plain_decimal_text, text_atoms,
  plain_decimal, match_atoms,
}
use stripe_entitlements_fast.Amount.RoundTrip.{credit_atoms-credit_decimal}
use stripe_entitlements_fast.Amount.Range.{credit_atoms-InRange}
use stripe_entitlements_fast.Primitives.{ceil_ratio, annual_slots_allowed}
use stripe_entitlements_fast.Primitives.Rounding.{IsCeiling, ceil_ratio-IsCeiling}
use stripe_entitlements_fast.Primitives.Slots.{
  annual_slots_allowed_antitone, annual_slots_allowed_nearest,
}

-- "12.5"
abbrev twelve_and_a_half : List ℕ
twelve_and_a_half = 49 ∷ 50 ∷ 46 ∷ 53 ∷ []

credit_decimal_run : credit_decimal (pos 12500000) ≡ ok twelve_and_a_half
unfolding credit_decimal decimal
credit_decimal_run = refl

credit_atoms_run : credit_atoms true (text twelve_and_a_half) ≡ ok 12500000
unfolding credit_atoms plain_decimal_text text_atoms plain_decimal match_atoms
credit_atoms_run = refl

credit_atoms-credit_decimal_example :
    (t : List ℕ) × (credit_decimal (pos 12500000) ≡ ok t)
    × (credit_atoms true (text t) ≡ ok 12500000)
credit_atoms-credit_decimal_example = credit_atoms-credit_decimal 12500000 (omega arith)

credit_atoms-InRange_example : (12500000 ≤ max_credit_atoms) × ((true ≡ false) → 0 < 12500000)
credit_atoms-InRange_example =
    credit_atoms-InRange true (text twelve_and_a_half) 12500000 credit_atoms_run

ceil_ratio-IsCeiling_example :
    (c : ℕ) × (ceil_ratio (pos 100) (pos 1) (pos 3) ≡ pos c) × IsCeiling 100 (min 1 3) 3 c
ceil_ratio-IsCeiling_example = ceil_ratio-IsCeiling 100 1 3 (omega arith)

annual_slots_allowed_run :
    (more less : ℕ) × (annual_slots_allowed (pos 1000) (pos 250) (pos 1) ≡ ok more)
    × (annual_slots_allowed (pos 1000) (pos 500) (pos 1) ≡ ok less)
    × (1 ≤ less)
    × (less ≤ more)
    × (more ≤ 12)
annual_slots_allowed_run =
    annual_slots_allowed_antitone 1000 (omega arith) (pos 250) (pos 500) 1 (omega arith)
      (omega arith)

annual_slots_allowed_nearest_example :
    (nearest : ℕ) × (24 * (1000 - 250) < 2 * 1000 * nearest + 1000)
    × (2 * 1000 * nearest ≤ 24 * (1000 - 250) + 1000)
    × (annual_slots_allowed (pos 1000) (pos 250) (pos 1) ≡ ok (max 1 nearest))
annual_slots_allowed_nearest_example =
    annual_slots_allowed_nearest 1000 (omega arith) 250 1 (omega arith) (omega arith)
