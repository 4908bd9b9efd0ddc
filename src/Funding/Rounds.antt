-- ===== src/Funding/Rounds.antt =====
-- A round of the two collection loops of typescript/src/credit-pack-funding.ts: a debt is paid in
-- full or as far as the atoms at hand go, and a debit with a fresh key records it.
use stripe_entitlements_fast.Base.{
  ℕ, suc, ◌+◌, ◌≤◌, ◌<◌, ◌≡◌, ◌≢◌, refl, List, [], ◌∷◌, ◌++◌, Bool, false, arith, ◌==◌,
  if◌then◌else◌, exists, update, sum_of, ==_of_ne,
}
use stripe_entitlements_fast.Store.{Db, Debit, PackDebt, Source, ok, debt_collection, ◌>>=◌}
use stripe_entitlements_fast.Store.Tables.Pending.{IsKey}
use stripe_entitlements_fast.Funding.{
  insert_debit, insert_allocation, record_debt_collection, outstanding,
}

abbrev pub of_order : ℕ → PackDebt → Bool
of_order order d = d.order_id == order

abbrev pub order_of : PackDebt → ℕ
order_of d = d.order_id

abbrev pub add : ℕ → PackDebt → PackDebt
add amount d = record d { collected = d.collected + amount }

pub debt-IsKey : IsKey of_order
debt-IsKey = record { apart = λ j k r p q. ground arith }

-- The keys that are still to be drawn are new, and differ from each other.
pub record IsFresh (db : Db) : Type 0 where
  pub unused : (j : ℕ) → db.drawn ≤ j → exists (λ e. e.key == db.fresh_key j) db.debits ≡ false
  pub apart : (i j : ℕ) → i < j → db.fresh_key i ≢ db.fresh_key j

exists-snoc :
    (p : Debit → Bool) (xs : List Debit) (x : Debit)
    → exists p xs ≡ false
    → p x ≡ false
    → exists p (xs ++ x ∷ []) ≡ false
exists-snoc p [] x h k = ground (arith, k)
exists-snoc p (y ∷ ys) x h k = ground (arith, k, exists-snoc p ys x)

-- what the account owes for its packs
abbrev pub owed : ℕ → Db → ℕ
owed account db = sum_of (λ d. if d.account_id == account then outstanding d else 0) db.pack_debts

-- the debit that a round writes
abbrev pub debt_debit : PackDebt → ℕ → ℕ → Db → Debit
debt_debit debt amount epoch db = record {
  key = db.fresh_key db.drawn;
  account_id = debt.account_id;
  amount = amount;
  grant_epoch = epoch;
  kind = debt_collection debt.order_id;
  restored = 0;
  created_at = db.started;
  refunded = false;
}

-- the database after a round, up to the ledger and the allocations
pub record Round (debt : PackDebt) (amount epoch : ℕ) (db later : Db) : Type 0 where
  pub debts : later.pack_debts ≡ update (of_order debt.order_id) (add amount) db.pack_debts
  pub debits : later.debits ≡ db.debits ++ debt_debit debt amount epoch db ∷ []
  pub drawn : later.drawn ≡ suc db.drawn
  pub keys : later.fresh_key ≡ db.fresh_key
  pub accounts : later.accounts ≡ db.accounts
  pub lots : later.lots ≡ db.lots

pub Round-IsFresh :
    (debt : PackDebt) (amount epoch : ℕ) (db later : Db)
    → Round debt amount epoch db later
    → IsFresh db
    → IsFresh later
Round-IsFresh debt amount epoch db later r f = record {
  unused = λ j le.
      rw (r.keys, r.debits)
        (exists-snoc (λ e. e.key == db.fresh_key j) db.debits (debt_debit debt amount epoch db)
          (f.unused j (omega (arith, r.drawn)))
          (==_of_ne (db.fresh_key db.drawn) (db.fresh_key j)
            (f.apart db.drawn j (omega (arith, r.drawn)))));
  apart = λ i j lt. rw r.keys (f.apart i j lt);
}

-- the statements of `recordDebtCollection`, where the next key is new
abbrev pub recorded_db : PackDebt → ℕ → ℕ → Source → Db → Db
recorded_db debt amount epoch source db =
    insert_allocation (db.fresh_key db.drawn) debt.account_id source amount (record db {
      drawn = suc db.drawn;
      debits = db.debits ++ debt_debit debt amount epoch db ∷ [];
    })

pub record_debt_collection_lem :
    (debt : PackDebt) (amount epoch : ℕ) (source : Source) (db : Db)
    → IsFresh db
    → record_debt_collection debt amount epoch source db
      ≡ ok (tt, recorded_db debt amount epoch source db)
unfolding record_debt_collection insert_debit
record_debt_collection_lem debt amount epoch source db f =
    rw (f.unused db.drawn (omega arith), if◌then◌else◌, ◌>>=◌) refl
