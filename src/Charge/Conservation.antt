-- ===== src/Charge/Conservation.antt =====
-- `CreditService.charge` of typescript/src/credits.ts as a whole: it succeeds exactly when the spendable
-- credits cover the amount, and then it lowers them by the amount.
use stripe_entitlements_fast.Base.{
  ℕ, ◌+◌, ◌-◌, ◌≤◌, ◌<◌, ◌≡◌, ap, ◌∙◌, true, false, some, arith, ◌==◌, ltb, lt→ltb, if◌then◌else◌,
  find, exists, sum_of,
}
use stripe_entitlements_fast.Store.{Db, Account, ok, err, ◌>>=◌}
use stripe_entitlements_fast.Spendable.{max_credit_atoms, credits_are_spendable}
use stripe_entitlements_fast.Charge.{charged, charge, charge_claimed, book_subscription, refusal}
use stripe_entitlements_fast.Charge.Payment.{consume-Pays}
use stripe_entitlements_fast.Charge.Expiry.{
  HasUniqueLots, balance_of, credits_of, expired_db, spendable_lots-AreChargeable, lots_of,
  claimed_db, pack_window_expired, charge-new, lots_of-sum, expired_db_unique,
}
use stripe_entitlements_fast.Charge.Booking.{Charges, book-Charges}

-- A charge with a new key that the spendable credits do not cover fails with the error of `refusal`.
pub charge-refused :
    (account_id amount key : ℕ) (db : Db) (row : Account)
    → find (λ a. a.id == account_id) db.accounts ≡ some row
    → exists (λ d. d.key == key) db.debits ≡ false
    → amount ≤ max_credit_atoms
    → credits_of row db < amount
    → charge account_id amount key db
      ≡ err (
          refusal row
            (credits_are_spendable row db.clock)
            (credits_of row db)
            (lots_of row db)
            (pack_window_expired row.id db))
unfolding charge_claimed
charge-refused account_id amount key db row found new fits short =
    let sum = lots_of-sum row db in
    let too_little : ltb (balance_of row db + sum_of (λ l. l.remaining) (lots_of row db)) amount
        ≡ true =
      rw sum (lt→ltb _ _ short) in
    charge-new account_id amount key db row found new (omega arith) fits
    ∙ rw too_little (
        ap
          (λ n. err (
            refusal row (credits_are_spendable row db.clock) (balance_of row db + n)
              (lots_of row db) (pack_window_expired row.id db)))
          sum)

-- A charge with a new key that the spendable credits cover succeeds, whatever the sources are. It
-- answers with the credits that are left, and lowers the credits by exactly the amount.
pub charge-Charges :
    (account_id amount key : ℕ) (db : Db) (row : Account)
    → HasUniqueLots db
    → find (λ a. a.id == account_id) db.accounts ≡ some row
    → exists (λ d. d.key == key) db.debits ≡ false
    → 0 < amount
    → amount ≤ max_credit_atoms
    → amount ≤ credits_of row db
    → (db' : Db) × (charge account_id amount key db
        ≡ ok (
          record {
            outcome = charged;
            balance = credits_of row db - amount;
            requested = amount;
            restored = 0;
          },
          db',
        ))
      × Charges account_id amount key row db db'
unfolding charge_claimed
charge-Charges account_id amount key db row u found new pos fits cover =
    let usable = credits_are_spendable row db.clock in
    let lots = lots_of row db in
    let sum = lots_of-sum row db in
    let start = claimed_db row amount key db in
    let chargeable =
      spendable_lots-AreChargeable row.id db.clock (expired_db row.id db)
        (expired_db_unique row db u) in
    let (share, db1, run, le, _, pays) =
      consume-Pays key db.clock row (balance_of row db) usable lots amount start
        (record {
          unique = chargeable.unique;
          pending = chargeable.pending;
          distinct = chargeable.distinct;
          spendable = chargeable.spendable;
        })
        (rw sum cover) in
    let enough : ltb (balance_of row db + sum_of (λ l. l.remaining) lots) amount ≡ false =
      rw sum (ground arith) in
    let db' = book_subscription key row (balance_of row db) share db1 in
    (
      db',
      charge-new account_id amount key db row found new pos fits
          ∙ rw enough (
              rw (run, if◌then◌else◌, ◌>>=◌)
                (ap
                  (λ n. ok (
                    record {
                      outcome = charged;
                      balance = balance_of row db + n - amount;
                      requested = amount;
                      restored = 0;
                    },
                    db',
                  ))
                  sum)),
      book-Charges account_id amount key row share db db1 found new le pays,
    )
