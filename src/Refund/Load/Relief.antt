-- ===== src/Refund/Load/Relief.antt =====
-- The relief of a debt (`#relievePackDebt` of typescript/src/credits.ts) adds nothing to what bounds the
-- depth of a refund, where the call that it makes adds no more than what it returns; and that call
-- starts from less.
use stripe_entitlements_fast.Base.{
  ℕ, ◌+◌, ◌-◌, ◌≤◌, ◌<◌, refl, List, [], ◌∷◌, not, arith, ◌||◌, ◌==◌, ltb, leb, smaller, find,
  exists,
}
use stripe_entitlements_fast.Store.{
  PackDebt, Allocation, EventTag, Reason, debt_release_event, pack_debt_refund, get_db, raise_if,
  ◌>>=◌, ◌>>◌, pure, debt_of_another_account, collection_cycle, collection_of_another_account,
  collection_inconsistent, no_reversible_allocation,
}
use stripe_entitlements_fast.Store.Runs.{
  Runs, read-Runs, bind-Runs, pure-Runs, raise_if-Runs, if-Runs, option-Runs, adjust-Runs,
}
use stripe_entitlements_fast.Refund.{
  Collection, RestoreCall, reverse_collection, reverse_collections, relieve_debt, relieve_pack_debt,
  collections,
}
use stripe_entitlements_fast.Refund.Quiet.{IsOther, add_refunded-Quiet, checked_add_atoms-Quiet}
use stripe_entitlements_fast.Refund.Load.{Load, Quiet-Load, Load-weaken}
use stripe_entitlements_fast.Refund.Load.Release.{
  move_to_released-Runs, set_restored-Runs, release-Runs,
}

module _ (owner k : ℕ) where
  -- what is asked of the call: from less than the bound, it adds at most its amount
  abbrev pub IsSafe : RestoreCall → Type 0
  IsSafe restore =
      (i : ℕ)
      → i < k
      → (visiting : List ℕ) (a : Allocation) (amount : ℕ) (event : EventTag) (reason : Reason)
      → Runs IsOther (Load owner i) (λ _. Load owner (i + amount))
          (restore visiting a amount event reason)

  module _ (restore : RestoreCall) (safe : IsSafe restore) (account order : ℕ)
      (visiting : List ℕ) where
    -- a positive part of a collection that is reversed
    reverse-Runs :
        (c : Collection) (amount : ℕ)
        → 1 ≤ amount
        → Runs IsOther
            (λ db. (amount ≤ k) × Load owner (k - amount) db)
            (λ _. Load owner k)
            (restore
              (c.debit.key ∷ visiting)
              c.allocation
              amount
              (debt_release_event c.debit.key)
              pack_debt_refund)
    reverse-Runs c amount positive = record {
      ends = λ db h.
          (adjust-Runs IsOther (λ d l. l) (λ _. Load-weaken owner _ k (omega (arith, h.0)))
              (safe (k - amount) (omega (arith, h.0, positive)) (c.debit.key ∷ visiting)
                c.allocation amount (debt_release_event c.debit.key) pack_debt_refund)).ends
            db h.1;
    }

    reverse_collection-Runs :
        (c : Collection) (remaining : ℕ)
        → Runs IsOther
            (Load owner k)
            (λ _. Load owner k)
            (reverse_collection restore account order visiting c remaining)
    unfolding reverse_collection
    reverse_collection-Runs c remaining =
        let reversing = smaller remaining (c.allocation.amount - c.allocation.refunded_amount) in
        bind-Runs IsOther
          (raise_if-Runs IsOther (exists (λ j. j == c.debit.key) visiting) collection_cycle refl)
          (λ _.
            bind-Runs IsOther
              (raise_if-Runs IsOther
                (not (c.debit.account_id == account) || not (c.allocation.account_id == account))
                collection_of_another_account refl)
              (λ _.
                bind-Runs IsOther
                  (raise_if-Runs IsOther (not (c.debit.amount == c.allocation.amount))
                    collection_inconsistent refl)
                  (λ _.
                    if-Runs IsOther (leb reversing 0) (λ _. pure-Runs IsOther (0, 0) (λ db l. l))
                      (λ some_atoms.
                        bind-Runs IsOther (move_to_released-Runs owner k order reversing) (λ _.
                          bind-Runs IsOther (reverse-Runs c reversing (ground (arith, some_atoms)))
                            (λ restored.
                              bind-Runs IsOther
                                (Quiet-Load owner k _
                                  (checked_add_atoms-Quiet c.debit.restored restored))
                                (λ total.
                                  bind-Runs IsOther
                                    (Quiet-Load owner k _
                                      (add_refunded-Quiet c.allocation.id reversing))
                                    (λ _.
                                      bind-Runs IsOther
                                        (set_restored-Runs owner k c.debit.key total)
                                        (λ _.
                                          pure-Runs IsOther (reversing, restored)
                                            (λ db l. l))))))))))

    reverse_collections-Runs :
        (cs : List Collection) (remaining recovered : ℕ)
        → Runs IsOther
            (Load owner k)
            (λ _. Load owner k)
            (reverse_collections restore account order visiting cs remaining recovered)
    unfolding reverse_collections
    reverse_collections-Runs [] remaining recovered =
        pure-Runs IsOther (remaining, recovered) (λ db l. l)
    reverse_collections-Runs (c ∷ cs) remaining recovered =
        if-Runs IsOther (leb remaining 0)
          (λ _. pure-Runs IsOther (remaining, recovered) (λ db l. l))
          (λ _.
            bind-Runs IsOther (reverse_collection-Runs c remaining)
              (λ step. reverse_collections-Runs cs (remaining - step.0) (recovered + step.1)))

    -- what was collected is reversed
    reversed-Runs :
        (relief reverse_collected : ℕ)
        → Runs IsOther {A = ℕ × ℕ}
            (Load owner k)
            (λ _. Load owner k)
            (do
              now ← get_db
              result ←
                  reverse_collections restore account order visiting
                    (collections order now)
                    reverse_collected
                    0
              raise_if (not (result.0 == 0)) no_reversible_allocation
              pure (relief, result.1))
    reversed-Runs relief reverse_collected =
        read-Runs IsOther (λ _. Load owner k) (λ db h. h)
          (λ now h.
            bind-Runs IsOther (reverse_collections-Runs (collections order now) reverse_collected 0)
              (λ result.
                bind-Runs IsOther
                  (raise_if-Runs IsOther (not (result.0 == 0)) no_reversible_allocation refl)
                  (λ _. pure-Runs IsOther (relief, result.1) (λ db l. l))))

    relieve_debt-Runs :
        (amount : ℕ) (debt : PackDebt)
        → Runs IsOther
            (Load owner k)
            (λ _. Load owner k)
            (relieve_debt restore account order amount visiting debt)
    unfolding relieve_debt
    relieve_debt-Runs amount debt =
        let active_debt = debt.target - debt.released in
        let relief = smaller amount active_debt in
        let uncollected = smaller relief (active_debt - debt.collected) in
        if-Runs IsOther (leb amount 0) (λ _. pure-Runs IsOther (0, 0) (λ db l. l))
          (λ _.
            bind-Runs IsOther
              (raise_if-Runs IsOther (not (debt.account_id == account)) debt_of_another_account
                refl)
              (λ _.
                if-Runs IsOther (leb relief 0) (λ _. pure-Runs IsOther (0, 0) (λ db l. l))
                  (λ _.
                    bind-Runs IsOther
                      (if-Runs IsOther (ltb 0 uncollected)
                        (λ _. release-Runs owner k order uncollected)
                        (λ _. pure-Runs IsOther tt (λ db l. l)))
                      (λ _.
                        if-Runs IsOther (leb (relief - uncollected) 0)
                          (λ _. pure-Runs IsOther (relief, 0) (λ db l. l))
                          (λ _. reversed-Runs relief (relief - uncollected))))))

    pub relieve_pack_debt-Runs :
        (amount : ℕ)
        → Runs IsOther
            (Load owner k)
            (λ _. Load owner k)
            (relieve_pack_debt restore account order amount visiting)
    unfolding relieve_pack_debt
    relieve_pack_debt-Runs amount =
        read-Runs IsOther (λ _. Load owner k) (λ db h. h)
          (λ db h.
            option-Runs IsOther (find (λ d. d.order_id == order) db.pack_debts)
              (pure-Runs IsOther (0, 0) (λ d l. l)) (relieve_debt-Runs amount))
