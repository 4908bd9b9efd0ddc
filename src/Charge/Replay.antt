-- ===== src/Charge/Replay.antt =====
-- A key that was charged before (`charge` of typescript/src/credits.ts).
use stripe_entitlements_fast.Base.{
  ℕ, ◌+◌, ◌-◌, ◌≤◌, ◌<◌, ◌≡◌, refl, ap, ◌∙◌, ==_refl, List, [], ◌∷◌, Bool, true, false, not, some,
  ◌&&◌, ◌||◌, arith, ◌==◌, ltb, if◌then◌else◌, find, exists, sum_of,
}
use stripe_entitlements_fast.Store.{
  Db, Account, Debit, key_reused, Error, raise_if, pure, Tx, ok, err, ◌>>=◌, ◌>>◌,
}
use stripe_entitlements_fast.Spendable.{max_credit_atoms, subscription_atoms}
use stripe_entitlements_fast.Funding.{pack_balance_atoms}
use stripe_entitlements_fast.Charge.{
  CreditResult, charged, replayed, is_usage, expire_account_pack_lots, replay_charge, charge,
}
use stripe_entitlements_fast.Charge.Expiry.{
  HasUniqueLots, balance_of, credits_of, expired_db, lots_of, lots_of-sum,
}
use stripe_entitlements_fast.Charge.Booking.{Charges, booked}
use stripe_entitlements_fast.Charge.Conservation.{charge-Charges}

exists_of_find :
    (key : ℕ) (rows : List Debit) (d : Debit)
    → find (λ e. e.key == key) rows ≡ some d
    → exists (λ e. e.key == key) rows ≡ true
exists_of_find key [] d e = ground arith
exists_of_find key (x ∷ xs) d e = ground (arith, exists_of_find key xs d)

raise_unless :
    {A : Type 0} (x y z : Bool) (e : Error) (m : Tx A) (db : Db)
    → (raise_if (not x || not y || not z) e >> m) db ≡ (if x && y && z then m db else err e)
raise_unless false y z e m db = refl
raise_unless true false z e m db = refl
raise_unless true true false e m db = refl
raise_unless true true true e m db = refl

-- A key that is in the table is answered from its debit: with the same account, amount and kind by a
-- replay, which changes nothing but what has expired, and else by an error.
pub charge-replays :
    (account_id amount key : ℕ) (db : Db) (row : Account) (d : Debit)
    → find (λ a. a.id == account_id) db.accounts ≡ some row
    → find (λ e. e.key == key) db.debits ≡ some d
    → 0 < amount
    → amount ≤ max_credit_atoms
    → charge account_id amount key db ≡ (
        if d.account_id == row.id && (d.amount == amount) && is_usage d.kind
        then ok (
          record {
            outcome = replayed;
            balance = subscription_atoms row db.clock + pack_balance_atoms row.id db.clock db;
            requested = amount;
            restored = d.restored;
          },
          expired_db row.id db,
        )
        else err key_reused)
unfolding charge expire_account_pack_lots replay_charge
charge-replays account_id amount key db row d found taken pos fits =
    let positive : (amount == 0) ≡ false = ground arith in
    let in_range : ltb max_credit_atoms amount ≡ false = ground arith in
    let answer : ℕ → CreditResult = λ n. record {
      outcome = replayed;
      balance = subscription_atoms row db.clock + n;
      requested = amount;
      restored = d.restored;
    } in
    let present = exists_of_find key db.debits d taken in
    rw positive (
      rw in_range (
        rw (found, ◌>>=◌)
          (rw (present, if◌then◌else◌)
            (rw (taken, ◌>>=◌)
              (raise_unless (d.account_id == row.id) (d.amount == amount) (is_usage d.kind)
                  key_reused (pure (answer (sum_of (λ l. l.remaining) (lots_of row db))))
                  (expired_db row.id db)
                ∙ ap
                    (λ n.
                      if d.account_id == row.id && (d.amount == amount) && is_usage d.kind
                      then ok (answer n, expired_db row.id db)
                      else err key_reused)
                    (lots_of-sum row db))))))

subscription_atoms-balance_of :
    (row : Account) (db : Db)
    → row.credits_balance ≤ max_credit_atoms
    → subscription_atoms row db.clock ≡ balance_of row db
unfolding subscription_atoms
subscription_atoms-balance_of row db h = ground arith

-- A charge that is repeated with its key is a replay with the balance of the first, and charges nothing: it leaves
-- the database of the first, with the account's lots that have expired by its clock marked so.
charge-charge :
    (account_id amount key : ℕ) (db db' : Db) (row : Account)
    → row.credits_balance ≤ max_credit_atoms
    → 0 < amount
    → amount ≤ max_credit_atoms
    → Charges account_id amount key row db db'
    → charge account_id amount key db'
      ≡ ok (
        record {
          outcome = replayed;
          balance = credits_of row db - amount;
          requested = amount;
          restored = 0;
        },
        expired_db row.id db',
      )
charge-charge account_id amount key db db' row range pos fits c =
    charge-replays account_id amount key db' (booked row c.share) _ c.account c.debit pos fits
    ∙ rw (==_refl row.id) (
        rw (==_refl amount) (
          ap
            (λ n. ok (
              record { outcome = replayed; balance = n; requested = amount; restored = 0 },
              expired_db row.id db',
            ))
            (omega (
              arith,
              c.credits,
              subscription_atoms-balance_of (booked row c.share) db' (omega arith),
            ))))

-- Where ids of lots are unique and the balance is in the range of a bigint, a charge with a new key that
-- the credits cover, sent twice at one instant, is charged once: the first
-- answer has the outcome `charged` and the second `replayed`, both show the same balance, amount and
-- restored credits, and the second leaves the tables of the first but for the marks of expired lots.
pub charge_twice :
    (account_id amount key : ℕ) (db : Db) (row : Account)
    → HasUniqueLots db
    → find (λ a. a.id == account_id) db.accounts ≡ some row
    → exists (λ d. d.key == key) db.debits ≡ false
    → row.credits_balance ≤ max_credit_atoms
    → 0 < amount
    → amount ≤ max_credit_atoms
    → amount ≤ credits_of row db
    → (db' : Db) × (charge account_id amount key db
        ≡ ok (
          record {
            outcome = charged;
            balance = credits_of row db - amount;
            requested = amount;
            restored = 0;
          },
          db',
        ))
      × (charge account_id amount key db'
          ≡ ok (
            record {
              outcome = replayed;
              balance = credits_of row db - amount;
              requested = amount;
              restored = 0;
            },
            expired_db row.id db',
          ))
charge_twice account_id amount key db row u found new range pos fits cover =
    let (db', run, c) = charge-Charges account_id amount key db row u found new pos fits cover in
    (db', run, charge-charge account_id amount key db db' row range pos fits c)
