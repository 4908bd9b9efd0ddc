-- ===== src/Refund/Load/Returns.antt =====
-- A return of atoms to the subscription balance (typescript/src/credits.ts), by the bound on the depth of
-- a refund.
use stripe_entitlements_fast.Base.{
  ℕ, ◌+◌, ◌-◌, ◌≡◌, refl, not, none, pos, arith, ◌||◌, ◌==◌, ltb, find,
}
use stripe_entitlements_fast.Store.{
  Db, Account, EventTag, Reason, LedgerEntry, account_not_found, bigint_out_of_range,
}
use stripe_entitlements_fast.Store.Runs.{
  Runs, read-Runs, found-Runs, bind-Runs, pure-Runs, raise-Runs, modify-Runs, if-Runs,
}
use stripe_entitlements_fast.Amount.{max_credit_atoms}
use stripe_entitlements_fast.Spendable.{credits_are_spendable}
use stripe_entitlements_fast.Funding.{set_balance}
use stripe_entitlements_fast.Refund.{checked_add_atoms, return_subscription_atoms}
use stripe_entitlements_fast.Refund.Quiet.{IsOther}
use stripe_entitlements_fast.Refund.Load.{Quiet-Load, Load-weaken, collected_of, At, Load}
use stripe_entitlements_fast.Refund.Load.Balance.{
  ledger-Quiet, cash_of-found, set_balance-Load, Load-At, collect_pack_debts_from_subscription-Runs,
}
use stripe_entitlements_fast.Refund.Load.Clawbacks.{collect_clawback_debts-Runs}

abbrev return_entry : Account → ℕ → EventTag → Reason → ℕ → LedgerEntry
return_entry account amount event reason balance = record {
  account_id = account.id;
  delta = pos amount;
  balance_after = balance;
  entitlement_units = 0;
  reason = reason;
  grant_epoch = account.grant_epoch;
  event = event;
  invoice = none;
  slot = none;
}

pub checked_add_atoms-Runs :
    (P : Db → Type 0) (a b : ℕ)
    → Runs IsOther P (λ r db. P db × (r ≡ a + b)) (checked_add_atoms a b)
unfolding checked_add_atoms
checked_add_atoms-Runs P a b =
    if-Runs IsOther (ltb max_credit_atoms a || ltb max_credit_atoms b)
      (λ _. raise-Runs IsOther bigint_out_of_range refl)
      (λ _.
        if-Runs IsOther (ltb (max_credit_atoms - b) a)
          (λ _. raise-Runs IsOther bigint_out_of_range refl)
          (λ _. pure-Runs IsOther (a + b) (λ db h. (h, refl))))

-- the return itself, and the collections after it
pub return_subscription_atoms-Runs :
    (account : Account) (amount : ℕ) (event : EventTag) (reason : Reason) (as_of k : ℕ)
    → Runs IsOther
        (Load account.id k)
        (λ _. Load account.id (k + amount))
        (return_subscription_atoms account amount event reason as_of)
unfolding return_subscription_atoms
return_subscription_atoms-Runs account amount event reason as_of k =
    let epoch = account.grant_epoch in
    if-Runs IsOther (not (credits_are_spendable account as_of))
      (λ _. pure-Runs IsOther 0 (Load-weaken account.id k (k + amount) (omega arith)))
      (λ _.
        read-Runs IsOther (λ d. At d.accounts (collected_of d.pack_debts)) (Load-At account.id k)
          (λ d h.
            found-Runs IsOther (find (λ a. a.id == account.id) d.accounts) account_not_found refl
              (λ row found.
                bind-Runs IsOther (checked_add_atoms-Runs _ row.credits_balance amount) (λ balance.
                  bind-Runs IsOther
                    (modify-Runs IsOther (set_balance account.id balance) (λ db l.
                      set_balance-Load account.id d.accounts row found balance _ (k + amount) db
                        (omega (arith, h.total, l.1, cash_of-found account.id d.accounts row found))
                        l.0))
                    (λ _.
                      bind-Runs IsOther
                        (Quiet-Load account.id (k + amount) _
                          (ledger-Quiet (return_entry account amount event reason balance)))
                        (λ _.
                          bind-Runs IsOther
                            (collect_clawback_debts-Runs account.id epoch event (k + amount))
                            (λ _.
                              bind-Runs IsOther
                                (collect_pack_debts_from_subscription-Runs account.id epoch event
                                  (k + amount))
                                (λ _. pure-Runs IsOther amount (λ db l. l)))))))))
