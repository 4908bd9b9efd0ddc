-- ===== src/Tests/Credits.antt =====
-- Charges, refunds and collections over the small database.
use stripe_entitlements_fast.Base.{
  ℕ, ◌≡◌, ◌≢◌, All, find, ◌-◌, refl, [], ◌∷◌, Option, none, arith, map,
}
use stripe_entitlements_fast.Store.{Db, Lot, Error, Result, Tx, ok, err, stripe_event, committed}
use stripe_entitlements_fast.Clawback.{collect_clawback_debts, collect_debts}
use stripe_entitlements_fast.Clawback.Rounds.{HasUniqueDebts}
use stripe_entitlements_fast.Clawback.Settlement.{Collects, collect_clawback_debts-Collects}
use stripe_entitlements_fast.Charge.{
  expire_account_pack_lots, charge_claimed, consume, consume_lots, consume_lot,
  consume_subscription, book_subscription, replay_charge, CreditResult, charged, replayed, charge,
  refusal,
}
use stripe_entitlements_fast.Spendable.{subscription_atoms, credits_are_spendable}
use stripe_entitlements_fast.Charge.Expiry.{HasUniqueLots, credits_of, expired_db}
use stripe_entitlements_fast.Charge.Booking.{Charges}
use stripe_entitlements_fast.Charge.Lots.{has_id}
use stripe_entitlements_fast.Charge.Order.{IsByExpiry, Takes, consume_lots-IsByExpiry}
use stripe_entitlements_fast.Charge.Conservation.{charge-Charges}
use stripe_entitlements_fast.Charge.Refusal.{Refuses, charge-Refuses}
use stripe_entitlements_fast.Charge.Replay.{charge_twice}
use stripe_entitlements_fast.Funding
use stripe_entitlements_fast.Clawback
use stripe_entitlements_fast.Funding.{
  spendable_lots, take_from_lot, insert_allocation, collect_pack_debts_from_lot, collect_from_lot,
  collect_pack_debts_from_subscription, collect_from_balance, pack_balance_atoms,
}
use stripe_entitlements_fast.Refund.{
  refund, refund_for, restore_debit, restore_allocations, allocations_of, finish_refund,
  restore_allocation_effect, restore_to_pack, expire_now, relieve_pack_debt, return_to_lot,
  checked_add_atoms, return_subscription_atoms,
}
use stripe_entitlements_fast.Tests.Data.{alice, shop, indebted}

abbrev answer : {A : Type 0} → Result (CreditResult × A) → ℕ
answer (ok (r, _)) = r.balance
answer (err _) = 999

run_charge : ℕ → ℕ → ℕ → Tx CreditResult
unfolding charge expire_account_pack_lots charge_claimed credits_are_spendable consume consume_lots
    consume_lot take_from_lot consume_subscription book_subscription insert_allocation replay_charge
    subscription_atoms refusal
run_charge = charge

run_refund : ℕ → ℕ → Option ℕ → Tx CreditResult
unfolding refund refund_for expire_account_pack_lots restore_debit restore_allocations
    allocations_of finish_refund restore_allocation_effect restore_to_pack expire_now
    relieve_pack_debt return_to_lot checked_add_atoms return_subscription_atoms
    collect_pack_debts_from_lot collect_from_lot Funding.outstanding_debts
    collect_pack_debts_from_subscription collect_from_balance collect_clawback_debts collect_debts
    Clawback.outstanding_debts credits_are_spendable subscription_atoms pack_balance_atoms
run_refund = refund

-- the lot that expires first is emptied first, then the subscription is used
charge_run : answer (run_charge 1 50 77 shop) ≡ 120
unfolding run_charge
charge_run = refl

lots_after :
    map (λ (l : Lot). l.remaining) (committed (run_charge 1 50 77) shop).lots ≡ 40 ∷ 0 ∷ 0 ∷ []
unfolding run_charge
lots_after = refl

-- a refund of that charge puts everything back
refund_run : answer (run_refund 5 77 none (committed (run_charge 1 50 77) shop)) ≡ 170
unfolding run_charge run_refund
refund_run = refl

shop-HasUniqueLots : HasUniqueLots shop
shop-HasUniqueLots k = ground arith

charge-Charges_example :
    (db' : Db) × (charge 1 50 77 shop
      ≡ ok (
        record {
          outcome = charged;
          balance = credits_of alice shop - 50;
          requested = 50;
          restored = 0;
        },
        db',
      ))
    × Charges 1 50 77 alice shop db'
unfolding pack_balance_atoms credits_are_spendable
charge-Charges_example =
    charge-Charges 1 50 77 shop alice shop-HasUniqueLots refl refl (omega arith) (omega arith)
      (omega arith)

charge_twice_example :
    (db' : Db) × (charge 1 50 77 shop
      ≡ ok (
        record {
          outcome = charged;
          balance = credits_of alice shop - 50;
          requested = 50;
          restored = 0;
        },
        db',
      ))
    × (charge 1 50 77 db'
        ≡ ok (
          record {
            outcome = replayed;
            balance = credits_of alice shop - 50;
            requested = 50;
            restored = 0;
          },
          expired_db 1 db',
        ))
unfolding pack_balance_atoms credits_are_spendable
charge_twice_example =
    charge_twice 1 50 77 shop alice shop-HasUniqueLots refl refl (omega arith) (omega arith)
      (omega arith) (omega arith)

charge-Refuses_example : (e : Error) × (charge 1 171 77 shop ≡ err e) × Refuses alice shop e
unfolding pack_balance_atoms credits_are_spendable
charge-Refuses_example = charge-Refuses 1 171 77 shop alice refl refl (omega arith) (omega arith)

indebted-HasUniqueDebts : HasUniqueDebts 1 3 (stripe_event 4) indebted
indebted-HasUniqueDebts k = ground arith

collect_clawback_debts-Collects_example :
    (collected : ℕ) × (db' : Db) × (collect_clawback_debts 1 3 (stripe_event 4) indebted
      ≡ ok (collected, db'))
    × Collects 1 3 (stripe_event 4) indebted alice collected db'
collect_clawback_debts-Collects_example =
    collect_clawback_debts-Collects 1 3 (stripe_event 4) indebted alice indebted-HasUniqueDebts refl

consume_lots-IsByExpiry_example :
    IsByExpiry (spendable_lots 1 10 shop)
    × ((left : ℕ) × (later : Db) × (consume_lots 77 1 (spendable_lots 1 10 shop) 50 shop
          ≡ ok (left, later))
        × Takes (spendable_lots 1 10 shop) 50 later.lots
        × ((k : ℕ)
            → All (λ e. k ≢ e.id) (spendable_lots 1 10 shop)
            → find (has_id k) later.lots ≡ find (has_id k) shop.lots))
consume_lots-IsByExpiry_example = consume_lots-IsByExpiry 77 1 10 50 shop shop-HasUniqueLots
