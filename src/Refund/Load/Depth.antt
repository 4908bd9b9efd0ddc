-- ===== src/Refund/Load/Depth.antt =====
-- A refund (typescript/src/credits.ts) calls itself along chains of collected debts no deeper than there
-- are atoms that were collected, in the balance of the account, or still to be restored.
use stripe_entitlements_fast.Base.{
  ℕ, zero, suc, ◌+◌, ◌-◌, ◌<◌, refl, ap, List, not, arith, ◌==◌, leb, smaller, find,
}
use stripe_entitlements_fast.Store.{
  Db, Account, Lot, LotStatus, lot_active, lot_expired, lot_refunded, lot_disputed, Order,
  Allocation, Source, subscription, credit_pack, EventTag, Reason, Tx, modify, pure, lot_missing,
  order_missing,
}
use stripe_entitlements_fast.Store.Runs.{
  Runs, read-Runs, found-Runs, bind-Runs, pure-Runs, raise_if-Runs, if-Runs, adjust-Runs,
}
use stripe_entitlements_fast.Funding.{collect_pack_debts_from_lot}
use stripe_entitlements_fast.Refund.{
  RestoreCall, add_remaining, add_expired, return_to_lot, restore_to_pack,
  restore_allocation_effect,
}
use stripe_entitlements_fast.Refund.Quiet.{
  IsOther, Quiet, lots-Quiet, checked_add_atoms-Quiet, expire_now-Quiet,
}
use stripe_entitlements_fast.Refund.Load.{
  collected_of, cash_of, At, Load, Quiet-Load, Load-weaken, collect_pack_debts_from_lot-Runs,
}
use stripe_entitlements_fast.Refund.Load.Balance.{Load-At}
use stripe_entitlements_fast.Refund.Load.Returns.{return_subscription_atoms-Runs}
use stripe_entitlements_fast.Refund.Load.Relief.{IsSafe, relieve_pack_debt-Runs}

add_remaining-Quiet : (lot amount : ℕ) → Quiet (modify (add_remaining lot amount))
add_remaining-Quiet lot amount = lots-Quiet _

add_expired-Quiet : (lot amount : ℕ) → Quiet (modify (add_expired lot amount))
add_expired-Quiet lot amount = lots-Quiet _

module _ (owner : ℕ) where
  -- the debts that a lot pays add no more than what the lot may give
  pay_debts-Runs :
      (k lot amount : ℕ)
      → Runs IsOther
          (Load owner k)
          (λ _. Load owner (k + amount))
          (collect_pack_debts_from_lot owner lot amount)
  pay_debts-Runs k lot amount = record {
    ends = λ db h.
        (adjust-Runs IsOther (λ d l. l)
            (λ _ d (l : At db.accounts (collected_of db.pack_debts + amount) d). record {
              unique = l.unique;
              total = omega (arith, l.total, h.total, ap (cash_of owner) l.same);
            })
            (collect_pack_debts_from_lot-Runs db.accounts lot owner amount
              (collected_of db.pack_debts))).ends
          db (Load-At owner k db h);
  }

  status-Runs :
      {P : Db → Type 0} {Q : ℕ → Db → Type 0} (s : LotStatus) {m n : Tx ℕ}
      → Runs IsOther P Q m
      → Runs IsOther P Q n
      → Runs IsOther P Q (pure 0)
      → Runs IsOther P Q (elim s [ lot_active ↦ m | lot_expired ↦ n | _ ↦ pure 0 ])
  status-Runs lot_active p q r = p
  status-Runs lot_expired p q r = q
  status-Runs lot_refunded p q r = r
  status-Runs lot_disputed p q r = r

  return_to_lot-Runs :
      (k : ℕ) (lot : Lot) (order : Order) (restorable : ℕ)
      → Runs IsOther
          (Load owner k)
          (λ _. Load owner (k + restorable))
          (return_to_lot owner lot order restorable)
  unfolding return_to_lot
  return_to_lot-Runs k lot order restorable =
      let returned =
        smaller restorable (order.pack_credits - order.refunded_credits - lot.remaining) in
      let retired =
        smaller restorable (order.pack_credits - order.refunded_credits - lot.expired) in
      let more : (db : Db) → Load owner k db → Load owner (k + restorable) db =
        Load-weaken owner k (k + restorable) (omega arith) in
      if-Runs IsOther (leb restorable 0) (λ _. pure-Runs IsOther 0 more)
        (λ _.
          status-Runs lot.status
            (if-Runs IsOther (leb returned 0) (λ _. pure-Runs IsOther returned more)
              (λ _.
                bind-Runs IsOther
                  (Quiet-Load owner k _ (checked_add_atoms-Quiet lot.remaining returned))
                  (λ _.
                    bind-Runs IsOther (Quiet-Load owner k _ (add_remaining-Quiet lot.id returned))
                      (λ _. bind-Runs IsOther (pay_debts-Runs k lot.id returned) (λ _.
                        pure-Runs IsOther returned
                          (Load-weaken owner (k + returned) (k + restorable) (ground arith)))))))
            (if-Runs IsOther (leb retired 0) (λ _. pure-Runs IsOther 0 more)
              (λ _.
                bind-Runs IsOther
                  (Quiet-Load owner k _ (checked_add_atoms-Quiet lot.expired retired))
                  (λ _.
                    bind-Runs IsOther (Quiet-Load owner k _ (add_expired-Quiet lot.id retired))
                      (λ _. pure-Runs IsOther 0 more))))
            (pure-Runs IsOther 0 more))

-- the branch of a pack
restore_to_pack-Runs :
    (restore : RestoreCall) (account : Account) (k lot amount : ℕ) (visiting : List ℕ) (as_of : ℕ)
    → IsSafe account.id k restore
    → Runs IsOther
        (Load account.id k)
        (λ _. Load account.id (k + amount))
        (restore_to_pack restore account lot amount visiting as_of)
unfolding restore_to_pack
restore_to_pack-Runs restore account k lot_id amount visiting as_of safe =
    read-Runs IsOther (λ _. Load account.id k) (λ db h. h)
      (λ d h. found-Runs IsOther (find (λ l. l.id == lot_id) d.lots) lot_missing refl (λ found _.
        bind-Runs IsOther
          (raise_if-Runs IsOther (not (found.account_id == account.id)) lot_missing refl)
          (λ _. bind-Runs IsOther (Quiet-Load account.id k _ (expire_now-Quiet found as_of)) (λ lot.
            found-Runs IsOther (find (λ o. o.id == lot.order_id) d.orders) order_missing refl
              (λ order _.
                bind-Runs IsOther
                  (raise_if-Runs IsOther (not (order.account_id == account.id)) order_missing refl)
                  (λ _.
                    bind-Runs IsOther
                      (relieve_pack_debt-Runs account.id k restore safe account.id order.id visiting
                        amount)
                      (λ relief.
                        bind-Runs IsOther
                          (return_to_lot-Runs account.id k lot order (amount - relief.0))
                          (λ returned.
                            pure-Runs IsOther (relief.1 + returned)
                              (Load-weaken account.id _ (k + amount) (omega arith))))))))))

source-Runs :
    {P : Db → Type 0} {Q : ℕ → Db → Type 0} (s : Source) {m n : ℕ → Tx ℕ}
    → ((epoch : ℕ) → Runs IsOther P Q (m epoch))
    → ((lot : ℕ) → Runs IsOther P Q (n lot))
    → Runs IsOther P Q (elim s [ subscription epoch ↦ m epoch | credit_pack lot ↦ n lot ])
source-Runs (subscription epoch) p q = p epoch
source-Runs (credit_pack lot) p q = q lot

-- with more fuel than the bound, the call never runs out of it
pub restore_allocation_effect-Runs :
    (fuel : ℕ) (account : Account) (as_of k : ℕ)
    → k < fuel
    → (visiting : List ℕ) (a : Allocation) (amount : ℕ) (event : EventTag) (reason : Reason)
    → Runs IsOther
        (Load account.id k)
        (λ _. Load account.id (k + amount))
        (restore_allocation_effect fuel account as_of visiting a amount event reason)
unfolding restore_allocation_effect
restore_allocation_effect-Runs zero account as_of k lt visiting a amount event reason =
    absurd (omega (arith, lt))
restore_allocation_effect-Runs (suc fuel) account as_of k lt visiting a amount event reason =
    source-Runs a.source
      (λ epoch.
        if-Runs IsOther (epoch == account.grant_epoch)
          (λ _. return_subscription_atoms-Runs account amount event reason as_of k)
          (λ _. pure-Runs IsOther 0 (Load-weaken account.id k (k + amount) (omega arith))))
      (λ lot.
        restore_to_pack-Runs (restore_allocation_effect fuel account as_of) account k lot amount
          visiting as_of
          (λ i less. restore_allocation_effect-Runs fuel account as_of i (omega (arith, lt, less))))
