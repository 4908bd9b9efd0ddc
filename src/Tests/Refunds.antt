-- ===== src/Tests/Refunds.antt =====
-- A charge of 50 without allocations, refunded twice.
use stripe_entitlements_fast.Base.{◌≡◌, ◌≢◌, refl, arith, [], ◌∷◌, some, false, find, ◌==◌}
use stripe_entitlements_fast.Store.{
  Db, Account, Debit, usage, debt_collection, credit_pack, ok, err, stack_overflow, committed,
}
use stripe_entitlements_fast.Store.Tables.Pending.{IsUnique}
use stripe_entitlements_fast.Funding.Rounds.{of_order, order_of}
use stripe_entitlements_fast.Refund.Load.Enough.{refund_for-enough_fuel}
use stripe_entitlements_fast.Spendable.{subscription_atoms, credits_are_spendable}
use stripe_entitlements_fast.Funding
use stripe_entitlements_fast.Clawback
use stripe_entitlements_fast.Clawback.{collect_clawback_debts, collect_debts}
use stripe_entitlements_fast.Funding.{
  collect_pack_debts_from_subscription, collect_from_balance, pack_balance_atoms,
}
use stripe_entitlements_fast.Charge.{CreditResult, refunded, replayed, expire_account_pack_lots}
use stripe_entitlements_fast.Charge.Expiry.{expired_db}
use stripe_entitlements_fast.Refund.{
  refund_for, restore_debit, allocations_of, finish_refund, checked_add_atoms,
  return_subscription_atoms, total_balance,
}
use stripe_entitlements_fast.Refund.Service.Again.{refund_twice}
use stripe_entitlements_fast.Tests.Data.{shop}

abbrev old_debit : Debit
old_debit = record {
  key = 77;
  account_id = 1;
  amount = 50;
  grant_epoch = 3;
  kind = usage;
  restored = 0;
  created_at = 4;
  refunded = false;
}

abbrev used_shop : Db
used_shop = record shop { debits = old_debit ∷ [] }

abbrev refunded_shop : Db
refunded_shop = committed (refund_for 5 77 1) used_shop

abbrev first_refund : CreditResult
first_refund = record { outcome = refunded; balance = 220; requested = 50; restored = 50 }

refund_run : refund_for 5 77 1 used_shop ≡ ok (first_refund, refunded_shop)
unfolding refund_for expire_account_pack_lots restore_debit allocations_of finish_refund
    checked_add_atoms return_subscription_atoms collect_pack_debts_from_subscription
    collect_from_balance Funding.outstanding_debts collect_clawback_debts collect_debts
    Clawback.outstanding_debts credits_are_spendable subscription_atoms pack_balance_atoms
refund_run = refl

refund_twice_example :
    (row : Account) × (find (λ a. a.id == 1) refunded_shop.accounts ≡ some row)
    × (refund_for 9 77 1 refunded_shop
        ≡ ok (
          record {
            outcome = replayed;
            balance = total_balance row (expired_db row.id refunded_shop);
            requested = 50;
            restored = 50;
          },
          expired_db row.id refunded_shop,
        ))
refund_twice_example = refund_twice 77 1 5 9 used_shop refunded_shop first_refund refund_run

-- a charge of 20 from lot 11, whose order has a debt of 30 that was collected from lot 12
abbrev chained_shop : Db
chained_shop = record shop {
  debits =
      record old_debit { amount = 20 }
      ∷ record old_debit { key = 90; amount = 30; kind = debt_collection 11 }
      ∷ [];
  allocations =
      record {
        id = 1;
        debit_key = 77;
        account_id = 1;
        source = credit_pack 11;
        amount = 20;
        refunded_amount = 0;
      }
      ∷ record {
        id = 2;
        debit_key = 90;
        account_id = 1;
        source = credit_pack 12;
        amount = 30;
        refunded_amount = 0;
      }
      ∷ [];
  pack_debts =
      record {
        order_id = 11;
        account_id = 1;
        target = 30;
        collected = 30;
        released = 0;
        created_at = 5;
      }
      ∷ [];
}

chained-IsUnique : IsUnique of_order order_of chained_shop.pack_debts
chained-IsUnique k = ground arith

refund_for-enough_fuel_example : refund_for 200 77 1 chained_shop ≢ err stack_overflow
unfolding allocations_of
refund_for-enough_fuel_example =
    refund_for-enough_fuel 200 77 1 chained_shop chained-IsUnique (omega arith)
