-- ===== src/PackEvents/Contract/Share.antt =====
-- The credits that a refund of cash takes back (typescript/src/credit-pack-events.ts): the share of the
-- pack, rounded up as `ceilRatio` of processor-primitives.ts rounds, and never more than the pack.
use stripe_entitlements_fast.Base.{
  pos, ◌+◌, ◌-◌, ◌*◌, ◌/◌, ◌<◌, ◌≡◌, ap, ◌∙◌, true, false, inl, inr, arith, leb, leb→le, sym,
  Bool-cases,
}
use stripe_entitlements_fast.Store.{Order}
use stripe_entitlements_fast.Primitives.{ceil_ratio}
use stripe_entitlements_fast.Primitives.Rounding.{ceil_ratio-whole, ceil_ratio-part}
use stripe_entitlements_fast.PackEvents.Contract.{Facts, target_cash, target_atoms}

whole_share :
    (f : Facts) (o : Order)
    → leb f.amount (target_cash f o) ≡ true
    → target_atoms f o ≡ o.pack_credits
unfolding target_atoms target_cash
whole_share f o e = ground (arith, e)

-- a dispute counts as a refund of the amount
part_undisputed :
    (f : Facts) (o : Order) → leb f.amount (target_cash f o) ≡ false → f.dispute ≡ false
unfolding target_cash
part_undisputed f o e = elim (Bool-cases f.dispute) [
  | inl d ↦ absurd (ground (arith, e, d))
  | inr d ↦ d
]

part_share :
    (f : Facts) (o : Order)
    → leb f.amount (target_cash f o) ≡ false
    → target_atoms f o ≡ (o.pack_credits * target_cash f o + f.amount - 1) / f.amount
unfolding target_atoms target_cash
part_share f o e = ground (arith, e, part_undisputed f o e)

-- For an order of a positive pack and a positive refund of a positive amount, the credits that are taken
-- back are `ceilRatio` of the pack by the cash that was refunded of the amount.
pub target_atoms-ceil_ratio :
    (f : Facts) (o : Order)
    → 0 < o.pack_credits
    → 0 < f.amount
    → 0 < target_cash f o
    → pos (target_atoms f o)
      ≡ ceil_ratio (pos o.pack_credits) (pos (target_cash f o)) (pos f.amount)
target_atoms-ceil_ratio f o pack amount cash = elim (Bool-cases (leb f.amount (target_cash f o))) [
  | inl whole ↦
      ap pos (whole_share f o whole)
      ∙ sym (
          ceil_ratio-whole o.pack_credits (target_cash f o) f.amount cash amount
            (leb→le f.amount (target_cash f o) whole))
  | inr part ↦
      ap pos (part_share f o part)
      ∙ sym (
          ceil_ratio-part o.pack_credits (target_cash f o) f.amount pack cash
            (ground (arith, part)))
]
