-- ===== src/Tests/Debts.antt =====
-- Two pack debts of 90 in all, collected from a lot of 40 and from a balance of 100.
use stripe_entitlements_fast.Base.{ℕ, ◌≡◌, refl, arith}
use stripe_entitlements_fast.Store.{Db, ok, stripe_event}
use stripe_entitlements_fast.Store.Tables.Pending.{IsUnique}
use stripe_entitlements_fast.Funding.{
  collect_pack_debts_from_lot, collect_pack_debts_from_subscription,
}
use stripe_entitlements_fast.Funding.Lots.{has_id, lot_id}
use stripe_entitlements_fast.Funding.Rounds.{of_order, order_of, IsFresh}
use stripe_entitlements_fast.Funding.FromLot.{
  CollectsFromLot, collect_pack_debts_from_lot-CollectsFromLot,
}
use stripe_entitlements_fast.Funding.FromSubscription.{
  CollectsFromBalance, collect_pack_debts_from_subscription-CollectsFromBalance,
}
use stripe_entitlements_fast.Tests.Data.{alice, lot, pack_indebted}

pack_indebted-IsFresh : IsFresh pack_indebted
pack_indebted-IsFresh = record { unused = λ j le. refl; apart = λ i j lt e. omega arith }

order-IsUnique : IsUnique of_order order_of pack_indebted.pack_debts
order-IsUnique k = ground arith

id-IsUnique : IsUnique has_id lot_id pack_indebted.lots
id-IsUnique k = ground arith

collect_pack_debts_from_lot-CollectsFromLot_example :
    (collected : ℕ) × (later : Db) × (collect_pack_debts_from_lot 1 11 40 pack_indebted
      ≡ ok (collected, later))
    × CollectsFromLot 1 (lot 11 40 90) 40 pack_indebted collected later
collect_pack_debts_from_lot-CollectsFromLot_example =
    collect_pack_debts_from_lot-CollectsFromLot 1 (lot 11 40 90) 40 pack_indebted alice
      pack_indebted-IsFresh order-IsUnique id-IsUnique refl refl (omega arith)

collect_pack_debts_from_subscription-CollectsFromBalance_example :
    (collected : ℕ) × (later : Db) × (collect_pack_debts_from_subscription 1 3
        (stripe_event 4)
        pack_indebted
      ≡ ok (collected, later))
    × CollectsFromBalance 1 3 (stripe_event 4) alice pack_indebted collected later
collect_pack_debts_from_subscription-CollectsFromBalance_example =
    collect_pack_debts_from_subscription-CollectsFromBalance 1 3 (stripe_event 4) pack_indebted
      alice pack_indebted-IsFresh order-IsUnique refl
