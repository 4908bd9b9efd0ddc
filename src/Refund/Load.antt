-- ===== src/Refund/Load.antt =====
-- The bound on the depth of a refund (typescript/src/credits.ts and credit-pack-funding.ts): the atoms
-- that were collected of pack debts and the balance of the account. A collection moves atoms within this
-- sum, and only a return of atoms adds to it.
pub mod Balance
pub mod Clawbacks
pub mod Returns
pub mod Release
pub mod Relief
pub mod Depth
pub mod Enough
use stripe_entitlements_fast.Base.{
  ℕ, ◌+◌, ◌-◌, ◌≤◌, ◌≡◌, refl, List, [], ◌∷◌, Option, none, some, arith, ◌==◌, ltb, leb, smaller,
  if◌then◌else◌, find, sum_of,
}
use stripe_entitlements_fast.Store.{
  Db, Account, PackDebt, credit_pack, Result, ok, err, account_not_found, Tx, pure,
}
use stripe_entitlements_fast.Store.Runs.{
  Runs, Ends, read-Runs, found-Runs, bind-Runs, pure-Runs, modify-Runs, if-Runs, adjust-Runs,
}
use stripe_entitlements_fast.Store.Tables.Updates.{sum_of-update_adds}
use stripe_entitlements_fast.Store.Tables.Pending.{IsUnique, update-IsUnique}
use stripe_entitlements_fast.Funding.{
  outstanding, outstanding_debts, add_collected, collect_from_lot, take_from_lot,
  collect_pack_debts_from_lot,
}
use stripe_entitlements_fast.Funding.Rounds.{of_order, order_of}
use stripe_entitlements_fast.Refund.Quiet.{
  IsOther, Rows, Quiet, record_debt_collection-Quiet, take_from_lot-Quiet,
}

abbrev pub collected_of : List PackDebt → ℕ
collected_of debts = sum_of (λ d. d.collected) debts

abbrev pub balance_in : Option Account → ℕ
balance_in none = 0
balance_in (some a) = a.credits_balance

abbrev pub cash_of : ℕ → List Account → ℕ
cash_of owner accounts = balance_in (find (λ a. a.id == owner) accounts)

-- the accounts are these, and at most so many atoms are collected
pub record At (accounts : List Account) (n : ℕ) (db : Db) : Type 0 where
  pub unique : IsUnique of_order order_of db.pack_debts
  pub same : db.accounts ≡ accounts
  pub total : collected_of db.pack_debts ≤ n

-- the sum is at most so many atoms
pub record Load (owner : ℕ) (n : ℕ) (db : Db) : Type 0 where
  pub unique : IsUnique of_order order_of db.pack_debts
  pub total : collected_of db.pack_debts + cash_of owner db.accounts ≤ n

pub Load-weaken : (owner m n : ℕ) → m ≤ n → (db : Db) → Load owner m db → Load owner n db
Load-weaken owner m n le db h = record { unique = h.unique; total = omega (arith, h.total) }

-- a step that is quiet keeps what is said of the two tables
module _ (P : List PackDebt → List Account → Type 0) where
  abbrev Of : Db → Type 0
  Of db = P db.pack_debts db.accounts

  Ends-Of :
      {A : Type 0} (db : Db) (r : Result (A × Db))
      → Of db
      → Ends IsOther (λ _. Rows db.pack_debts db.accounts) r
      → Ends IsOther (λ _. Of) r
  Ends-Of db (ok (a, later)) h same = rw (same.0, same.1) h
  Ends-Of db (err e) h other = other

  pub Quiet-Of : {A : Type 0} (m : Tx A) → Quiet m → Runs IsOther Of (λ _. Of) m
  Quiet-Of m q = record {
    ends = λ db h. Ends-Of db (m db) h ((q.quiet db.pack_debts db.accounts).ends db (refl, refl));
  }

abbrev IsAt : List Account → ℕ → List PackDebt → List Account → Type 0
IsAt accounts n debts now =
    IsUnique of_order order_of debts × (now ≡ accounts) × (collected_of debts ≤ n)

module _ (accounts : List Account) (n : ℕ) where
  pub Quiet-At :
      {A : Type 0} (m : Tx A) → Quiet m → Runs IsOther (At accounts n) (λ _. At accounts n) m
  Quiet-At m q =
      adjust-Runs IsOther (λ db h. (h.unique, h.same, h.total))
        (λ a db h. record { unique = h.0; same = h.1; total = h.2 })
        (Quiet-Of (IsAt accounts n) m q)

abbrev IsLoad : ℕ → ℕ → List PackDebt → List Account → Type 0
IsLoad owner n debts accounts =
    IsUnique of_order order_of debts × (collected_of debts + cash_of owner accounts ≤ n)

pub Quiet-Load :
    (owner n : ℕ) {A : Type 0} (m : Tx A)
    → Quiet m
    → Runs IsOther (Load owner n) (λ _. Load owner n) m
Quiet-Load owner n m q =
    adjust-Runs IsOther (λ db h. (h.unique, h.total))
      (λ a db h. record { unique = h.0; total = h.1 }) (Quiet-Of (IsLoad owner n) m q)

pub add_collected-At :
    (accounts : List Account) (n order amount : ℕ) (db : Db)
    → At accounts n db
    → At accounts (n + amount) (add_collected order amount db)
unfolding add_collected
add_collected-At accounts n order amount db h =
    let g = λ (d : PackDebt). record d { collected = d.collected + amount } in
    record {
      unique = update-IsUnique of_order order_of order g (λ j r. refl) db.pack_debts h.unique;
      same = h.same;
      total = omega (
        arith,
        h.total,
        sum_of-update_adds (λ d. d.collected) (of_order order) g db.pack_debts amount
            (h.unique order) (λ r. refl),
      );
    }

-- what remains of the available atoms has not been collected
pub record Leaves (accounts : List Account) (n available left : ℕ) (db : Db) : Type 0 where
  pub bounded : left ≤ available
  pub rest : At accounts (n + (available - left)) db

At-weaken :
    (accounts : List Account) (m n : ℕ) (db : Db) → m ≤ n → At accounts m db → At accounts n db
At-weaken accounts m n db le h = record {
  unique = h.unique;
  same = h.same;
  total = omega (arith, h.total);
}

module _ (accounts : List Account) (n available : ℕ) where
  pub Leaves-stop : (db : Db) → At accounts n db → Leaves accounts n available available db
  Leaves-stop db h = record {
    bounded = omega arith;
    rest = At-weaken accounts n _ db (omega arith) h;
  }

  pub Leaves-step :
      (amount left : ℕ) (db : Db)
      → amount ≤ available
      → Leaves accounts (n + amount) (available - amount) left db
      → Leaves accounts n available left db
  Leaves-step amount left db le h = record {
    bounded = omega (arith, h.bounded);
    rest = At-weaken accounts _ _ db (omega (arith, h.bounded)) h.rest;
  }

pub smaller-le : (a b : ℕ) → smaller a b ≤ a
smaller-le a b = ground arith

module _ (accounts : List Account) (lot : ℕ) where
  collect_from_lot-Runs :
      (epoch : ℕ) (debts : List PackDebt) (available n : ℕ)
      → Runs IsOther
          (At accounts n)
          (Leaves accounts n available)
          (collect_from_lot lot epoch debts available)
  unfolding collect_from_lot
  collect_from_lot-Runs epoch [] available n =
      pure-Runs IsOther available (Leaves-stop accounts n available)
  collect_from_lot-Runs epoch (d ∷ ds) available n =
      let amount = smaller available (outstanding d) in
      if-Runs IsOther (leb amount 0)
        (λ _. pure-Runs IsOther available (Leaves-stop accounts n available))
        (λ _.
          bind-Runs IsOther
            (modify-Runs IsOther (add_collected d.order_id amount)
              (add_collected-At accounts n d.order_id amount))
            (λ _.
              bind-Runs IsOther
                (Quiet-At accounts (n + amount) _
                  (record_debt_collection-Quiet d amount epoch (credit_pack lot)))
                (λ _.
                  adjust-Runs IsOther (λ db h. h)
                    (λ left db.
                      Leaves-step accounts n available amount left db (smaller-le available _))
                    (collect_from_lot-Runs epoch ds (available - amount) (n + amount)))))

  take_collected-Runs :
      (available n left : ℕ)
      → Runs IsOther
          (Leaves accounts n available left)
          (λ _. At accounts (n + available))
          (if ltb 0 (available - left) then take_from_lot lot (available - left) else pure tt)
  take_collected-Runs available n left =
      let cover : (db : Db) → Leaves accounts n available left db → At accounts (n + available) db =
        λ db l. At-weaken accounts _ _ db (omega arith) l.rest in
      if-Runs IsOther (ltb 0 (available - left))
        (λ _.
          adjust-Runs IsOther cover (λ _ db l. l)
            (Quiet-At accounts (n + available) _ (take_from_lot-Quiet lot (available - left))))
        (λ _. pure-Runs IsOther tt cover)

  pub collect_pack_debts_from_lot-Runs :
      (account available n : ℕ)
      → Runs IsOther
          (At accounts n)
          (λ _. At accounts (n + available))
          (collect_pack_debts_from_lot account lot available)
  unfolding collect_pack_debts_from_lot
  collect_pack_debts_from_lot-Runs account available n =
      read-Runs IsOther (λ _. At accounts n) (λ db h. h)
        (λ d h.
          found-Runs IsOther (find (λ a. a.id == account) d.accounts) account_not_found refl
            (λ row _.
              bind-Runs IsOther
                (collect_from_lot-Runs row.grant_epoch (outstanding_debts account d) available n)
                (λ left.
                  bind-Runs IsOther (take_collected-Runs available n left)
                    (λ _. pure-Runs IsOther (available - left) (λ db l. l)))))
