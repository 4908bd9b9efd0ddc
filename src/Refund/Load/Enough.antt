-- ===== src/Refund/Load/Enough.antt =====
-- The fuel of a refund (typescript/src/credits.ts), the depth of its call stack, is enough.
use mathlib.Core.Bool.{true≢false}
use stripe_entitlements_fast.Base.{
  ℕ, ◌+◌, ◌-◌, ◌<◌, ◌≡◌, ◌≢◌, refl, sym, ap, ◌∙◌, List, [], ◌∷◌, Bool, true, not, arith, ◌==◌, leb,
  find, sum_of, ==_iff,
}
use stripe_entitlements_fast.Store.{
  Db, Account, Debit, Allocation, Result, ok, err, modify, ◌>>=◌, account_not_found,
  debit_not_found, owner_mismatch, stack_overflow, usage_refund, usage_refund_event,
}
use stripe_entitlements_fast.Store.Runs.{
  Runs, Ends, read-Runs, found-Runs, bind-Runs, pure-Runs, raise_if-Runs, if-Runs, adjust-Runs,
}
use stripe_entitlements_fast.Store.Tables.Updates.{find-some}
use stripe_entitlements_fast.Store.Tables.Pending.{IsUnique}
use stripe_entitlements_fast.Funding.Rounds.{of_order, order_of}
use stripe_entitlements_fast.Charge.{CreditResult, replayed, expire_account_pack_lots, is_usage}
use stripe_entitlements_fast.Refund.{
  restore_allocations, restore_debit, allocations_of, finish_refund, refund_for, total_balance,
}
use stripe_entitlements_fast.Refund.Quiet.{
  is_other, IsOther, Quiet, quiet_rules, modify-Quiet, checked_add_atoms-Quiet, add_refunded-Quiet,
}
use stripe_entitlements_fast.Refund.Load.{collected_of, cash_of, Load, Load-weaken, Quiet-Load}
use stripe_entitlements_fast.Refund.Load.Returns.{return_subscription_atoms-Runs}
use stripe_entitlements_fast.Refund.Load.Depth.{restore_allocation_effect-Runs}

-- what an allocation has still to restore
abbrev pub pending_of : Allocation → ℕ
pending_of a = a.amount - a.refunded_amount

-- the bound is known
abbrev Bounded : ℕ → {A : Type 0} → A → Db → Type 0
Bounded owner _ db = (k : ℕ) × Load owner k db

abbrev Any : {A : Type 0} → A → Db → Type 0
Any _ _ = Unit {0}

debits-Quiet : (rows : Db → List Debit) → Quiet (modify (λ db. record db { debits = rows db }))
debits-Quiet rows = modify-Quiet _ (λ db. refl) (λ db. refl)

finish_refund-Quiet :
    (account : Account) (debit : Debit) (restored : ℕ)
    → Quiet (finish_refund account debit restored)
unfolding finish_refund
finish_refund-Quiet account debit restored =
    search (quiet_rules, checked_add_atoms-Quiet, debits-Quiet) depth 16

module _ (fuel : ℕ) (account : Account) where
  restore_allocations-Runs :
      (key : ℕ) (as' : List Allocation) (restored k : ℕ)
      → k + sum_of pending_of as' < fuel
      → Runs IsOther
          (Load account.id k)
          (Bounded account.id)
          (restore_allocations fuel account key as' restored)
  unfolding restore_allocations
  restore_allocations-Runs key [] restored k lt = pure-Runs IsOther restored (λ db l. (k, l))
  restore_allocations-Runs key (a ∷ as') restored k lt =
      let pending = pending_of a in
      bind-Runs IsOther
        (if-Runs IsOther (leb pending 0)
          (λ _. pure-Runs IsOther 0 (Load-weaken account.id k (k + pending) (omega arith)))
          (λ _.
            read-Runs IsOther (λ _. Load account.id k) (λ db h. h)
              (λ d h.
                bind-Runs IsOther
                  (restore_allocation_effect-Runs fuel account d.clock k (omega (arith, lt))
                    (key ∷ []) a pending (usage_refund_event key) usage_refund)
                  (λ effect.
                    bind-Runs IsOther
                      (Quiet-Load account.id (k + pending) _ (add_refunded-Quiet a.id pending))
                      (λ _. pure-Runs IsOther effect (λ db l. l))))))
        (λ effect.
          restore_allocations-Runs key as' (restored + effect) (k + pending) (omega (arith, lt)))

  restore_debit-Runs :
      (debit : Debit) (as' : List Allocation) (k : ℕ)
      → k + sum_of pending_of as' < fuel
      → Runs IsOther (Load account.id k) (Bounded account.id) (restore_debit fuel account debit as')
  unfolding restore_debit
  restore_debit-Runs debit [] k lt =
      read-Runs IsOther (λ _. Load account.id k) (λ db h. h)
        (λ d h.
          if-Runs IsOther (debit.grant_epoch == account.grant_epoch)
            (λ _.
              adjust-Runs IsOther (λ db l. l) (λ _ db l. (k + debit.amount, l))
                (return_subscription_atoms-Runs account debit.amount (usage_refund_event debit.key)
                  usage_refund d.clock k))
            (λ _. pure-Runs IsOther 0 (λ db l. (k, l))))
  restore_debit-Runs debit (a ∷ as') k lt = restore_allocations-Runs debit.key (a ∷ as') 0 k lt

  finish_refund-Runs :
      (debit : Debit) (restored : ℕ)
      → Runs IsOther (Bounded account.id restored) Any (finish_refund account debit restored)
  finish_refund-Runs debit restored = record {
    ends = λ db l.
        (adjust-Runs IsOther (λ d x. x) (λ _ d x. tt)
            (Quiet-Load account.id l.0 _ (finish_refund-Quiet account debit restored))).ends
          db l.1;
  }

  -- what holds once the account is known
  abbrev Starts : ℕ → List Allocation → Db → Type 0
  Starts k allocations db = Load account.id k db × (db.allocations ≡ allocations)

  expire-Runs :
      (k : ℕ) (allocations : List Allocation) (as_of : ℕ)
      → Runs IsOther
          (Starts k allocations)
          (λ _. Starts k allocations)
          (expire_account_pack_lots account.id as_of)
  unfolding expire_account_pack_lots
  expire-Runs k allocations as_of = record {
    ends = λ db h. (record { unique = h.0.unique; total = h.0.total }, h.1);
  }

pending-same :
    (key : ℕ) (current db : Db)
    → current.allocations ≡ db.allocations
    → sum_of pending_of (allocations_of key current) ≡ sum_of pending_of (allocations_of key db)
unfolding allocations_of
pending-same key current db same = rw same refl

abbrev replay : Account → Db → Debit → CreditResult
replay account current debit = record {
  outcome = replayed;
  balance = total_balance account current;
  requested = debit.amount;
  restored = debit.restored;
}

-- the bound for a debit of the account
abbrev pub depth_bound : ℕ → ℕ → Db → ℕ
depth_bound owner key db =
    collected_of db.pack_debts
    + cash_of owner db.accounts
    + sum_of pending_of (allocations_of key db)

module _ (fuel key owner : ℕ) (db : Db) (enough : depth_bound owner key db < fuel) where
  abbrev atoms : ℕ
  atoms = collected_of db.pack_debts + cash_of owner db.accounts

  abbrev HasStarted : Db → Type 0
  HasStarted d = Load owner atoms d × (d.allocations ≡ db.allocations)

  owner_of : (account : Account) → (account.id == owner) ≡ true → account.id ≡ owner
  owner_of account h = (==_iff account.id owner).0 h

  refund_debit-Runs :
      (account : Account) (debit : Debit) (current : Db)
      → current.allocations ≡ db.allocations
      → Runs IsOther (Starts fuel account atoms db.allocations) Any (do
        restored ← restore_debit fuel account debit (allocations_of key current)
        finish_refund account debit restored)
  refund_debit-Runs account debit current same =
      bind-Runs IsOther
        (adjust-Runs IsOther (λ d l. l.0) (λ _ d l. l)
          (restore_debit-Runs fuel account debit (allocations_of key current) atoms
            (omega (arith, enough, pending-same key current db same))))
        (λ restored. finish_refund-Runs fuel account debit restored)

  refund_for-Runs :
      IsUnique of_order order_of db.pack_debts
      → Runs IsOther (λ d. d ≡ db) Any (refund_for fuel key owner)
  unfolding refund_for
  refund_for-Runs unique =
      read-Runs IsOther (λ _. HasStarted)
        (λ d e. rw e (record { unique = unique; total = omega arith }, refl))
        (λ d e.
          found-Runs IsOther (find (λ a. a.id == owner) d.accounts) account_not_found refl
            (λ account found.
              adjust-Runs IsOther
                (λ x h. (rw (owner_of account (find-some _ d.accounts account found)) h.0, h.1))
                (λ _ x l. l)
                (bind-Runs IsOther (expire-Runs fuel account atoms db.allocations d.clock) (λ _.
                  read-Runs IsOther (λ _. Starts fuel account atoms db.allocations) (λ x h. h)
                    (λ current h.
                      found-Runs IsOther (find (λ r. r.key == key) current.debits) debit_not_found
                        refl
                        (λ debit _.
                          bind-Runs IsOther
                            (raise_if-Runs IsOther (not (debit.account_id == account.id))
                              owner_mismatch refl)
                            (λ _.
                              bind-Runs IsOther
                                (raise_if-Runs IsOther (not (is_usage debit.kind)) debit_not_found
                                  refl)
                                (λ _.
                                  if-Runs IsOther debit.refunded
                                    (λ _.
                                      pure-Runs IsOther (replay account current debit) (λ x l. tt))
                                    (λ _. refund_debit-Runs account debit current h.1)))))))))

abbrev has_fuel : {A : Type 0} → Result A → Bool
has_fuel (ok _) = true
has_fuel (err e) = is_other e

Ends-other : {A : Type 0} (r : Result (A × Db)) → Ends IsOther Any r → r ≢ err stack_overflow
Ends-other (ok x) h same = true≢false (ap has_fuel same)
Ends-other (err e) h same = true≢false (sym h ∙ ap has_fuel same)

-- Where at most one pack debt has an order, a refund of an account with more fuel than the atoms that were
-- collected of pack debts, the balance of the account and what the allocations of the debit have still
-- to restore does not run out of fuel: its recursion along chains of collected debts ends, with a result
-- or with another error.
pub refund_for-enough_fuel :
    (fuel key owner : ℕ) (db : Db)
    → IsUnique of_order order_of db.pack_debts
    → depth_bound owner key db < fuel
    → refund_for fuel key owner db ≢ err stack_overflow
refund_for-enough_fuel fuel key owner db unique enough =
    Ends-other (refund_for fuel key owner db)
      ((refund_for-Runs fuel key owner db enough unique).ends db refl)
