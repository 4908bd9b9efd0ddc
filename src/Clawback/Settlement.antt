-- ===== src/Clawback/Settlement.antt =====
-- What `collectClawbackDebts` (typescript/src/clawbacks.ts) collects, and what it leaves alone.
use Prim.Native.Nat.{min}
use stripe_entitlements_fast.Base.{
  ℕ, ◌+◌, ◌-◌, ◌≡◌, ◌≢◌, refl, ap, ◌∙◌, List, some, inl, inr, arith, ◌==◌, ltb, if◌then◌else◌, find,
  update, sum_of, Bool-cases,
}
use stripe_entitlements_fast.Store.{Db, Account, EventTag, ok}
use stripe_entitlements_fast.Store.Tables.Updates.{find-update, find-update_self}
use stripe_entitlements_fast.Clawback.{
  outstanding_debts, collect_debts, set_balance, collect_clawback_debts,
}
use stripe_entitlements_fast.Clawback.Rounds.{
  owes, owed, HasUniqueDebts, Settles, collect-Settles, outstanding-owed,
}

module _ (account epoch : ℕ) (event : EventTag) where
  -- A collection that ended well: it took as much as the balance and the debts allow.
  pub record Collects (db : Db) (row : Account) (collected : ℕ) (db' : Db) : Type 0 where
    pub amount : collected ≡ min row.credits_balance (owed account epoch event db)
    pub debts : owed account epoch event db' + collected ≡ owed account epoch event db
    pub balance :
        find (λ a. a.id == account) db'.accounts
        ≡ some (record row { credits_balance = row.credits_balance - collected })
    pub others :
        (j : ℕ)
        → j ≢ account
        → find (λ a. a.id == j) db'.accounts ≡ find (λ a. a.id == j) db.accounts

  -- the database after the last statement
  abbrev settled : Db → ℕ → Db
  settled db balance =
      let r =
        collect_debts account epoch event (outstanding_debts account epoch event db) balance 0 db in
      if ltb 0 r.1 then set_balance account epoch event r.0 r.2 else r.2

  find-set_balance :
      (balance : ℕ) (rows : List Account) (row : Account)
      → find (λ a. a.id == account) rows ≡ some row
      → find
          (λ a. a.id == account)
          (update (λ a. a.id == account) (λ a. record a { credits_balance = balance }) rows)
        ≡ some (record row { credits_balance = balance })
  find-set_balance balance rows row =
      find-update_self (λ (a : Account). a.id == account)
        (λ a. record a { credits_balance = balance }) rows row (λ r. refl)

  find-set_balance_other :
      (balance j : ℕ) (rows : List Account)
      → j ≢ account
      → find
          (λ a. a.id == j)
          (update (λ a. a.id == account) (λ a. record a { credits_balance = balance }) rows)
        ≡ find (λ a. a.id == j) rows
  find-set_balance_other balance j rows ne =
      find-update (λ (a : Account). a.id == j) (λ a. a.id == account)
        (λ a. record a { credits_balance = balance }) rows (λ r. refl) (λ r h. ground arith)

  settled-Collects :
      (db : Db) (row : Account) (r : ℕ × ℕ × Db)
      → find (λ a. a.id == account) db.accounts ≡ some row
      → sum_of owes (outstanding_debts account epoch event db) ≡ owed account epoch event db
      → Settles account epoch event db
          (outstanding_debts account epoch event db)
          row.credits_balance
          0
          r
      → Collects db row r.1 (if ltb 0 r.1 then set_balance account epoch event r.0 r.2 else r.2)
  settled-Collects db row (b, c, d) found total s = elim (Bool-cases (ltb 0 c)) [
    | inl some_paid ↦ rw some_paid (record {
      amount = omega (arith, s.paid, total);
      debts = omega (arith, s.paid, s.reduced, total);
      balance =
          find-set_balance b d.accounts row (rw s.accounts found)
          ∙ ap (λ n. some (record row { credits_balance = n })) (omega (arith, s.left, s.paid));
      others =
          λ j ne. find-set_balance_other b j d.accounts ne ∙ ap (find (λ a. a.id == j)) s.accounts;
    })
    | inr none_paid ↦ rw none_paid (record {
      amount = omega (arith, s.paid, total);
      debts = omega (arith, s.paid, s.reduced, total);
      balance =
          rw s.accounts (
            found
            ∙ ap (λ n. some (record row { credits_balance = n })) (ground (arith, none_paid)));
      others = λ j ne. ap (find (λ a. a.id == j)) s.accounts;
    })
  ]

  -- Where the account exists and no two debts of the epoch share an invoice, the collection never
  -- fails: it takes the smaller of the balance and what the epoch owes, lowers both by that, and
  -- leaves every other account as it was.
  pub collect_clawback_debts-Collects :
      (db : Db) (row : Account)
      → HasUniqueDebts account epoch event db
      → find (λ a. a.id == account) db.accounts ≡ some row
      → (collected : ℕ) × (db' : Db) × (collect_clawback_debts account epoch event db
          ≡ ok (collected, db'))
        × Collects db row collected db'
  unfolding collect_clawback_debts
  collect_clawback_debts-Collects db row u found =
      let r =
        collect_debts account epoch event (outstanding_debts account epoch event db)
          row.credits_balance 0 db in
      let s = collect-Settles account epoch event db u row.credits_balance in
      (
        r.1,
        settled db row.credits_balance,
        rw found refl,
        settled-Collects db row r found (outstanding-owed account epoch event db u) s,
      )
