-- ===== src/Tests/Entitlements.antt =====
-- Questions about an owner, and a charge of the owner.
use stripe_entitlements_fast.Base.{ℕ, ◌≤◌, ◌↔◌, refl, [], ◌∷◌, List, arith}
use stripe_entitlements_fast.Amount.{
  credit_atoms, plain_decimal_text, text_atoms, plain_decimal, match_atoms,
}
use stripe_entitlements_fast.Charge.Expiry.{HasUniqueLots}
use stripe_entitlements_fast.Entitlements.{account_check}
use stripe_entitlements_fast.Entitlements.Credits.{Answered, charge_owner-check}
use stripe_entitlements_fast.Tests.Data.{alice, shop}
use stripe_entitlements_fast.Tests.Annual.{shop_catalog}

-- fifty atoms, "0.00005"
abbrev fifty : List ℕ
fifty = b'0' ∷ b'.' ∷ b'0' ∷ b'0' ∷ b'0' ∷ b'0' ∷ b'5' ∷ []

shop-HasUniqueLots : HasUniqueLots shop
shop-HasUniqueLots k = ground arith

charge_owner-check_example :
    Answered shop_catalog 100 77 50 fifty shop alice [] []
    ↔ (50 ≤ (account_check shop_catalog shop [] [] alice).credit_balance)
unfolding credit_atoms plain_decimal_text text_atoms plain_decimal match_atoms
charge_owner-check_example =
    charge_owner-check shop_catalog 100 77 50 fifty shop alice [] [] shop-HasUniqueLots refl refl
      (omega arith) refl refl
