-- ===== src/Funding/FromSubscription.antt =====
-- What `collectPackDebtsFromSubscription` (typescript/src/credit-pack-funding.ts) collects, and what it
-- leaves alone.
use Prim.Native.Nat.{min}
use stripe_entitlements_fast.Base.{
  ℕ, ◌+◌, ◌-◌, ◌≤◌, ◌≡◌, ◌≢◌, refl, ap, ◌∙◌, List, [], ◌∷◌, ◌++◌, false, some, none, inl, inr,
  arith, ◌==◌, leb, smaller, if◌then◌else◌, find, sum_of, Bool-cases, sub_ℕ,
}
use stripe_entitlements_fast.Store.{
  Db, Account, PackDebt, EventTag, subscription, pack_debt_collection, ok, pure, modify, ◌>>=◌,
  ◌>>◌,
}
use stripe_entitlements_fast.Store.Tables.Updates.{find-update, find-update_self}
use stripe_entitlements_fast.Store.Tables.Pending.{IsUnique}
use stripe_entitlements_fast.Funding.{
  outstanding_debts, outstanding, add_collected, set_balance, collect_from_balance,
  collect_pack_debts_from_subscription,
}
use stripe_entitlements_fast.Funding.Rounds.{
  of_order, order_of, IsFresh, owed, Round, recorded_db, record_debt_collection_lem,
}
use stripe_entitlements_fast.Funding.Settles.{
  Settles, Awaits, Awaits-rest, Settles-step, Settles-stop, Settles-nil, outstanding_debts-Awaits,
  sum_of-outstanding_debts,
}
use stripe_entitlements_fast.Funding.FromLot.{paid-IsFresh, recorded-Round}

module _ (account epoch : ℕ) (event : EventTag) where
  -- a round ends with its ledger entry
  abbrev posted : ℕ → ℕ → Db → Db
  posted amount balance db = record db {
    ledger =
        db.ledger
        ++ record {
          account_id = account;
          delta = sub_ℕ 0 amount;
          balance_after = balance;
          entitlement_units = 0;
          reason = pack_debt_collection;
          grant_epoch = epoch;
          event = event;
          invoice = none;
          slot = none;
        }
          ∷ [];
  }

  abbrev balance_round : PackDebt → ℕ → ℕ → Db → Db
  balance_round d amount balance db =
      posted amount (balance - amount)
        (recorded_db d amount epoch (subscription epoch) (add_collected d.order_id amount db))

  posted-Round :
      (d : PackDebt) (amount balance : ℕ) (db later : Db)
      → Round d amount epoch db later
      → Round d amount epoch db (posted amount balance later)
  posted-Round d amount balance db later r = record {
    debts = r.debts;
    debits = r.debits;
    drawn = r.drawn;
    keys = r.keys;
    accounts = r.accounts;
    lots = r.lots;
  }

  collect_from_balance-step :
      (d : PackDebt) (ds : List PackDebt) (n left : ℕ) (db later : Db)
      → IsFresh db
      → let amount = smaller n (outstanding d) in
        leb amount 0 ≡ false
        → collect_from_balance account epoch event ds (n - amount) (balance_round d amount n db)
          ≡ ok (left, later)
        → collect_from_balance account epoch event (d ∷ ds) n db ≡ ok (left, later)
  unfolding collect_from_balance
  collect_from_balance-step d ds n left db later f e r =
      let amount = smaller n (outstanding d) in
      rw
        (
          e,
          record_debt_collection_lem d amount epoch (subscription epoch)
              (add_collected d.order_id amount db) (paid-IsFresh d.order_id amount db f),
          ◌>>=◌,
        )
        r

  collect_from_balance-Settles :
      (ds : List PackDebt) (n : ℕ) (db : Db)
      → Awaits account ds db
      → (left : ℕ) × (later : Db) × (collect_from_balance account epoch event ds n db
          ≡ ok (left, later))
        × Settles account ds n db left later
  unfolding collect_from_balance
  collect_from_balance-Settles [] n db a = (n, db, refl, Settles-nil account n db)
  collect_from_balance-Settles (d ∷ ds) n db a =
      let amount = smaller n (outstanding d) in
      let between = balance_round d amount n db in
      let round =
        posted-Round d amount (n - amount) db
          (recorded_db d amount epoch (subscription epoch) (add_collected d.order_id amount db))
          (recorded-Round d amount epoch (subscription epoch) db) in
      elim (Bool-cases (leb amount 0)) [
        | inl nothing ↦ (n, db, rw nothing refl, Settles-stop account d ds n db a.owing nothing)
        | inr pays ↦
            let rest =
              collect_from_balance-Settles ds (n - amount) between
                (Awaits-rest account d ds amount epoch db between round a) in
            (
              rest.0,
              rest.1,
              collect_from_balance-step d ds n rest.0 db rest.1 a.fresh pays rest.2,
              Settles-step account d ds n epoch rest.0 db between rest.1 a round rest.3,
            )
      ]

  -- A collection from the balance that ended well.
  pub record CollectsFromBalance (row : Account) (db : Db) (collected : ℕ) (later : Db)
      : Type 0 where
    pub amount : collected ≡ min row.credits_balance (owed account db)
    pub debts : owed account later + collected ≡ owed account db
    pub recorded :
        sum_of (λ d. d.amount) later.debits ≡ sum_of (λ d. d.amount) db.debits + collected
    pub balance :
        find (λ a. a.id == account) later.accounts
        ≡ some (record row { credits_balance = row.credits_balance - collected })
    pub others :
        (j : ℕ)
        → j ≢ account
        → find (λ a. a.id == j) later.accounts ≡ find (λ a. a.id == j) db.accounts
    pub lots : later.lots ≡ db.lots

  -- the last statement, which the code runs where the balance changed
  abbrev settled : Account → ℕ → Db → Db
  settled row left db = if left == row.credits_balance then db else set_balance account left db

  settled-balance :
      (row : Account) (left : ℕ) (db : Db)
      → find (λ a. a.id == account) db.accounts ≡ some row
      → left ≤ row.credits_balance
      → find (λ a. a.id == account) (settled row left db).accounts
        ≡ some (record row { credits_balance = row.credits_balance - (row.credits_balance - left) })
  settled-balance row left db found le = elim (Bool-cases (left == row.credits_balance)) [
    | inl same ↦
        rw same (found ∙ ap (λ n. some (record row { credits_balance = n })) (ground (arith, same)))
    | inr changed ↦ rw changed (
        find-update_self (λ (a : Account). a.id == account)
          (λ a. record a { credits_balance = left }) db.accounts row (λ r. refl) found
        ∙ ap (λ n. some (record row { credits_balance = n })) (omega arith))
  ]

  settled-others :
      (row : Account) (left j : ℕ) (db : Db)
      → j ≢ account
      → find (λ a. a.id == j) (settled row left db).accounts ≡ find (λ a. a.id == j) db.accounts
  settled-others row left j db ne = elim (Bool-cases (left == row.credits_balance)) [
    | inl same ↦ rw same refl
    | inr changed ↦ rw changed (
        find-update (λ (a : Account). a.id == j) (λ a. a.id == account)
          (λ a. record a { credits_balance = left }) db.accounts (λ r. refl) (λ r h. ground arith))
  ]

  settled_lem :
      (row : Account) (left collected : ℕ) (db : Db)
      → ((if left == row.credits_balance then pure tt else modify (set_balance account left))
            >> pure collected)
          db
        ≡ ok (collected, settled row left db)
  settled_lem row left collected db = elim (Bool-cases (left == row.credits_balance)) [
    | inl same ↦ rw same refl
    | inr changed ↦ rw changed refl
  ]

  settled-CollectsFromBalance :
      (row : Account) (left : ℕ) (db later : Db)
      → find (λ a. a.id == account) db.accounts ≡ some row
      → sum_of outstanding (outstanding_debts account db) ≡ owed account db
      → Settles account (outstanding_debts account db) row.credits_balance db left later
      → CollectsFromBalance row db (row.credits_balance - left) (settled row left later)
  settled-CollectsFromBalance row left db later found total s = record {
    amount = omega (arith, s.left_over, total);
    debts = ground (arith, s.left_over, s.reduced, total);
    recorded = ground (arith, s.left_over, s.recorded, total);
    balance =
        settled-balance row left later (ap (find (λ a. a.id == account)) s.accounts ∙ found)
          (omega (arith, s.left_over));
    others = λ j ne. settled-others row left j later ne ∙ ap (find (λ a. a.id == j)) s.accounts;
    lots = ground (arith, s.lots);
  }

  -- Where the account exists, the orders of debts are unique and the keys to be drawn are new, the
  -- collection never fails: it takes the smaller of the balance and of what the account owes for its
  -- packs, lowers both by it, records it in debits, and touches no other account and no lot.
  pub collect_pack_debts_from_subscription-CollectsFromBalance :
      (db : Db) (row : Account)
      → IsFresh db
      → IsUnique of_order order_of db.pack_debts
      → find (λ r. r.id == account) db.accounts ≡ some row
      → (collected : ℕ) × (later : Db) × (collect_pack_debts_from_subscription account epoch event
            db
          ≡ ok (collected, later))
        × CollectsFromBalance row db collected later
  unfolding collect_pack_debts_from_subscription
  collect_pack_debts_from_subscription-CollectsFromBalance db row f u found =
      let rest =
        collect_from_balance-Settles (outstanding_debts account db) row.credits_balance db
          (outstanding_debts-Awaits account db f u) in
      let s = rest.3 in
      (
        row.credits_balance - rest.0,
        settled row rest.0 rest.1,
        rw (found, ◌>>=◌, rest.2) (settled_lem row rest.0 (row.credits_balance - rest.0) rest.1),
        settled-CollectsFromBalance row rest.0 db rest.1 found
            (sum_of-outstanding_debts account db f u) s,
      )
