-- ===== src/Refund/Load/Balance.antt =====
-- The collection of pack debts from a balance (typescript/src/credit-pack-funding.ts), by the bound on
-- the depth of a refund.
use stripe_entitlements_fast.Base.{
  ℕ, ◌+◌, ◌-◌, ◌≤◌, ◌≡◌, refl, ap, ◌∙◌, List, [], ◌∷◌, ◌++◌, none, some, sub_ℕ, arith, ◌==◌, leb,
  smaller, if◌then◌else◌, find,
}
use stripe_entitlements_fast.Store.{
  Db, Account, PackDebt, subscription, pack_debt_collection, EventTag, LedgerEntry,
  account_not_found, modify, pure,
}
use stripe_entitlements_fast.Store.Runs.{
  Runs, read-Runs, found-Runs, bind-Runs, pure-Runs, modify-Runs, if-Runs, adjust-Runs,
}
use stripe_entitlements_fast.Store.Tables.Updates.{find-update_self}
use stripe_entitlements_fast.Funding.{
  outstanding, outstanding_debts, add_collected, set_balance, collect_from_balance,
  collect_pack_debts_from_subscription,
}
use stripe_entitlements_fast.Refund.Quiet.{
  IsOther, Quiet, modify-Quiet, record_debt_collection-Quiet,
}
use stripe_entitlements_fast.Refund.Load.{
  collected_of, balance_in, cash_of, At, Load, Quiet-At, add_collected-At, Leaves, Leaves-stop,
  Leaves-step, smaller-le,
}

pub ledger-Quiet :
    (e : LedgerEntry) → Quiet (modify (λ db. record db { ledger = db.ledger ++ e ∷ [] }))
ledger-Quiet e = modify-Quiet _ (λ db. refl) (λ db. refl)

module _ (accounts : List Account) (account epoch : ℕ) (event : EventTag) where
  abbrev collection_entry : PackDebt → ℕ → ℕ → LedgerEntry
  collection_entry d balance amount = record {
    account_id = account;
    delta = sub_ℕ 0 amount;
    balance_after = balance - amount;
    entitlement_units = 0;
    reason = pack_debt_collection;
    grant_epoch = epoch;
    event = event;
    invoice = none;
    slot = none;
  }

  collect_from_balance-Runs :
      (debts : List PackDebt) (balance n : ℕ)
      → Runs IsOther
          (At accounts n)
          (Leaves accounts n balance)
          (collect_from_balance account epoch event debts balance)
  unfolding collect_from_balance
  collect_from_balance-Runs [] balance n =
      pure-Runs IsOther balance (Leaves-stop accounts n balance)
  collect_from_balance-Runs (d ∷ ds) balance n =
      let amount = smaller balance (outstanding d) in
      if-Runs IsOther (leb amount 0)
        (λ _. pure-Runs IsOther balance (Leaves-stop accounts n balance))
        (λ _.
          bind-Runs IsOther
            (modify-Runs IsOther (add_collected d.order_id amount)
              (add_collected-At accounts n d.order_id amount))
            (λ _.
              bind-Runs IsOther
                (Quiet-At accounts (n + amount) _
                  (record_debt_collection-Quiet d amount epoch (subscription epoch)))
                (λ _.
                  bind-Runs IsOther
                    (Quiet-At accounts (n + amount) _
                      (ledger-Quiet (collection_entry d balance amount)))
                    (λ _.
                      adjust-Runs IsOther (λ db h. h)
                        (λ left db.
                          Leaves-step accounts n balance amount left db (smaller-le balance _))
                        (collect_from_balance-Runs ds (balance - amount) (n + amount))))))

-- the balance of an account whose row is found
pub cash_of-found :
    (owner : ℕ) (accounts : List Account) (a : Account)
    → find (λ r. r.id == owner) accounts ≡ some a
    → cash_of owner accounts ≡ a.credits_balance
cash_of-found owner accounts a found = ap balance_in found

module _ (owner : ℕ) (accounts : List Account) (row : Account)
    (found : find (λ a. a.id == owner) accounts ≡ some row) where
  -- a balance that is written over
  pub set_balance-Load :
      (balance n k : ℕ) (db : Db)
      → n + balance ≤ k
      → At accounts n db
      → Load owner k (set_balance owner balance db)
  set_balance-Load balance n k db le h = record {
    unique = h.unique;
    total = omega (
      arith,
      h.total,
      le,
      cash_of-found owner (set_balance owner balance db).accounts
          (record row { credits_balance = balance })
          (find-update_self (λ a. a.id == owner) (λ a. record a { credits_balance = balance })
            db.accounts row (λ r. refl) (ap (find (λ a. a.id == owner)) h.same ∙ found)),
    );
  }

  pub kept-Load :
      (n k : ℕ) (db : Db) → n + row.credits_balance ≤ k → At accounts n db → Load owner k db
  kept-Load n k db le h = record {
    unique = h.unique;
    total = omega (
      arith,
      h.total,
      le,
      cash_of-found owner db.accounts row (ap (find (λ a. a.id == owner)) h.same ∙ found),
    );
  }

  -- the balance that the loop leaves
  leave_balance-Runs :
      (n k left : ℕ)
      → n + row.credits_balance ≤ k
      → Runs IsOther
          (Leaves accounts n row.credits_balance left)
          (λ _. Load owner k)
          (if left == row.credits_balance then pure tt else modify (set_balance owner left))
  leave_balance-Runs n k left le =
      if-Runs IsOther (left == row.credits_balance)
        (λ e.
          pure-Runs IsOther tt (λ db l. kept-Load _ k db (ground (arith, e, le, l.bounded)) l.rest))
        (λ _.
          modify-Runs IsOther (set_balance owner left)
            (λ db l. set_balance-Load left _ k db (omega (arith, l.bounded, le)) l.rest))

-- the two tables are those of a database with this bound
pub Load-At :
    (owner k : ℕ) (db : Db) → Load owner k db → At db.accounts (collected_of db.pack_debts) db
Load-At owner k db h = record { unique = h.unique; same = refl; total = omega arith }

module _ (owner epoch : ℕ) (event : EventTag) (k : ℕ) where
  pub collect_pack_debts_from_subscription-Runs :
      Runs IsOther
        (Load owner k)
        (λ _. Load owner k)
        (collect_pack_debts_from_subscription owner epoch event)
  unfolding collect_pack_debts_from_subscription
  collect_pack_debts_from_subscription-Runs =
      read-Runs IsOther (λ d. At d.accounts (collected_of d.pack_debts)) (Load-At owner k)
        (λ d h.
          found-Runs IsOther (find (λ a. a.id == owner) d.accounts) account_not_found refl
            (λ row found.
              bind-Runs IsOther
                (collect_from_balance-Runs d.accounts owner epoch event (outstanding_debts owner d)
                  row.credits_balance (collected_of d.pack_debts))
                (λ left.
                  bind-Runs IsOther
                    (leave_balance-Runs owner d.accounts row found (collected_of d.pack_debts) k
                      left (omega (arith, h.total, cash_of-found owner d.accounts row found)))
                    (λ _. pure-Runs IsOther (row.credits_balance - left) (λ db l. l)))))
