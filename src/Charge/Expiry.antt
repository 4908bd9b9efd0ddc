-- ===== src/Charge/Expiry.antt =====
-- What the lazy expiry of a charge leaves to spend (`#expireAccountPackLots` and the selection of the lots
-- in `charge`, typescript/src/credits.ts).
use stripe_entitlements_fast.Base.{
  ℕ, ◌+◌, ◌≤◌, ◌<◌, ◌≡◌, refl, sym, ◌∙◌, List, Bool, true, false, some, ◌&&◌, ◌||◌, arith, ◌==◌,
  ltb, if◌then◌else◌, find, exists, update, select, sum_of,
}
use stripe_entitlements_fast.Store.{Db, Account, Lot, ◌>>=◌}
use stripe_entitlements_fast.Store.Tables.{le_pair}
use stripe_entitlements_fast.Store.Tables.Updates.{count-update, sum_of-update_same}
use stripe_entitlements_fast.Store.Tables.Sorting.{
  sum_of-order_by, sum_of-select, All-order_by, All-selected,
}
use stripe_entitlements_fast.Store.Tables.Pending.{IsUnique, IsPending-ordered, IsDistinct-ordered}
use stripe_entitlements_fast.Spendable.{max_credit_atoms, credits_are_spendable}
use stripe_entitlements_fast.Funding.{is_spendable_lot, spendable_lots, pack_balance_atoms}
use stripe_entitlements_fast.Charge.{
  is_lot_expired, expires_now, expire_lot, expire_account_pack_lots, charge, charge_claimed,
  claim_key,
}
use stripe_entitlements_fast.Charge.Lots.{has_id, lot_id, worth}
use stripe_entitlements_fast.Charge.Payment.{AreChargeable}

abbrev pub HasUniqueLots : Db → Type 0
HasUniqueLots db = IsUnique has_id lot_id db.lots

-- the spendable subscription balance
abbrev pub balance_of : Account → Db → ℕ
balance_of row db = if credits_are_spendable row db.clock then row.credits_balance else 0

-- all the credits that the account can spend at the clock
abbrev pub credits_of : Account → Db → ℕ
credits_of row db = balance_of row db + pack_balance_atoms row.id db.clock db

pub pack_balance-worth :
    (account as_of : ℕ) (db : Db)
    → pack_balance_atoms account as_of db ≡ sum_of (worth account as_of) db.lots
unfolding pack_balance_atoms
pack_balance-worth account as_of db =
    sum_of-order_by (λ l. l.remaining) (λ a b. le_pair a.expires_at a.id b.expires_at b.id)
      (select (is_spendable_lot account as_of) db.lots)
    ∙ sum_of-select (λ l. l.remaining) (is_spendable_lot account as_of) db.lots

-- the database after the lazy expiry
abbrev pub expired_db : ℕ → Db → Db
expired_db account db = record db {
  lots = update (expires_now account db.clock) expire_lot db.lots;
}

abbrev pub pack_window_expired : ℕ → Db → Bool
pack_window_expired account db =
    exists (expires_now account db.clock) db.lots
    || exists (λ l. l.account_id == account && is_lot_expired l.status) db.lots

-- expiry takes nothing that could still be spent
pub expired_db-worth :
    (account : ℕ) (db : Db)
    → sum_of (worth account db.clock) (expired_db account db).lots
      ≡ sum_of (worth account db.clock) db.lots
expired_db-worth account db =
    sum_of-update_same (worth account db.clock) (expires_now account db.clock) expire_lot db.lots
      (λ r h. ground arith)

pub spendable_lots-AreChargeable :
    (account as_of : ℕ) (db : Db)
    → HasUniqueLots db
    → AreChargeable account as_of db (spendable_lots account as_of db)
spendable_lots-AreChargeable account as_of db u =
    let le = λ (a b : Lot). le_pair a.expires_at a.id b.expires_at b.id in
    let s = is_spendable_lot account as_of in
    record {
      unique = u;
      pending = IsPending-ordered has_id lot_id s (λ d h. ground arith) le db.lots u;
      distinct = IsDistinct-ordered has_id lot_id s (λ d h. ground arith) le db.lots u;
      spendable = All-order_by (λ d. s d ≡ true) le (select s db.lots) (All-selected s db.lots);
    }

-- the lots that a charge of the account works with
abbrev pub lots_of : Account → Db → List Lot
lots_of row db = spendable_lots row.id db.clock (expired_db row.id db)

-- the database after the claim of the key
abbrev pub claimed_db : Account → ℕ → ℕ → Db → Db
claimed_db row amount key db = claim_key row amount key (expired_db row.id db)

-- A charge with a new key goes on to its sources.
pub charge-new :
    (account_id amount key : ℕ) (db : Db) (row : Account)
    → find (λ a. a.id == account_id) db.accounts ≡ some row
    → exists (λ d. d.key == key) db.debits ≡ false
    → 0 < amount
    → amount ≤ max_credit_atoms
    → charge account_id amount key db
      ≡ charge_claimed row
          (lots_of row db)
          (pack_window_expired row.id db)
          amount
          key
          (claimed_db row amount key db)
unfolding charge expire_account_pack_lots
charge-new account_id amount key db row found new pos fits =
    let positive : (amount == 0) ≡ false = ground arith in
    let in_range : ltb max_credit_atoms amount ≡ false = ground arith in
    rw positive (rw in_range (rw (found, ◌>>=◌) (rw (new, if◌then◌else◌))))

pub lots_of-sum :
    (row : Account) (db : Db)
    → sum_of (λ l. l.remaining) (lots_of row db) ≡ pack_balance_atoms row.id db.clock db
unfolding pack_balance_atoms
lots_of-sum row db =
    pack_balance-worth row.id db.clock (expired_db row.id db)
    ∙ expired_db-worth row.id db
    ∙ sym (pack_balance-worth row.id db.clock db)

pub expired_db_unique :
    (row : Account) (db : Db) → HasUniqueLots db → HasUniqueLots (expired_db row.id db)
expired_db_unique row db u k = omega (
  arith,
  count-update (has_id k) (expires_now row.id db.clock) expire_lot db.lots (λ r. refl),
  u k,
)
