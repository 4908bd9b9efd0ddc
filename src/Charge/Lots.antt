-- ===== src/Charge/Lots.antt =====
-- `consumeLot` of typescript/src/credits.ts over a list of lots: it takes from each in turn what is
-- left, and never fails on lots that stand in the table.
use Prim.Native.Nat.{min}
use stripe_entitlements_fast.Base.{
  ℕ, ◌+◌, ◌-◌, ◌≤◌, ◌<◌, ◌≡◌, ◌≢◌, refl, List, [], ◌∷◌, true, false, some, arith, ◌==◌, ltb, leb,
  ltb→lt, inl, inr, smaller, if◌then◌else◌, find, update, sum_of, sum_of-snoc, All, Bool-cases,
}
use stripe_entitlements_fast.Store.{Db, Lot, Source, ok, credit_pack, ◌>>=◌}
use stripe_entitlements_fast.Store.Tables.Updates.{sum_of-update}
use stripe_entitlements_fast.Store.Tables.Pending.{
  IsUnique, IsPending, IsDistinct, update-IsUnique, update-IsPending,
}
use stripe_entitlements_fast.Funding.{is_spendable_lot, insert_allocation}
pub use stripe_entitlements_fast.Funding.Lots.{has_id, lot_id, lot-IsKey, spend, take_from_lot_lem}
use stripe_entitlements_fast.Charge.{consume_lot, consume_lots}

-- what a lot adds to the spendable credits of an account
abbrev pub worth : ℕ → ℕ → Lot → ℕ
worth account as_of l = if is_spendable_lot account as_of l then l.remaining else 0

-- The consumption of a list of lots: what is left to charge, and what became of the database.
pub record Consumes (account as_of : ℕ) (ds : List Lot) (n : ℕ) (db : Db) (left : ℕ) (db' : Db)
    : Type 0 where
  pub left_over : left ≡ n - min n (sum_of (λ l. l.remaining) ds)
  pub spent :
      sum_of (worth account as_of) db'.lots + min n (sum_of (λ l. l.remaining) ds)
      ≡ sum_of (worth account as_of) db.lots
  pub allocated :
      sum_of (λ a. a.amount) db'.allocations
      ≡ sum_of (λ a. a.amount) db.allocations + min n (sum_of (λ l. l.remaining) ds)
  pub unique : IsUnique has_id lot_id db'.lots
  pub pending :
      (es : List Lot)
      → All (λ d. All (λ e. d.id ≢ e.id) es) ds
      → IsPending has_id lot_id db.lots es
      → IsPending has_id lot_id db'.lots es
  pub accounts : db'.accounts ≡ db.accounts
  pub debits : db'.debits ≡ db.debits
  pub clock : db'.clock ≡ db.clock

pub allocated-insert :
    (key account : ℕ) (source : Source) (amount : ℕ) (db : Db)
    → sum_of (λ a. a.amount) (insert_allocation key account source amount db).allocations
      ≡ sum_of (λ a. a.amount) db.allocations + amount
unfolding insert_allocation
allocated-insert key account source amount db = sum_of-snoc (λ a. a.amount) db.allocations _

module _ (key account as_of : ℕ) where
  -- one lot, taken in full or as far as is needed
  abbrev pub after_lot : Lot → ℕ → Db → Db
  after_lot d used db =
      insert_allocation key account (credit_pack d.id) used
        (record db { lots = update (has_id d.id) (spend used) db.lots })

  pub consume_lot-spends :
      (d : Lot) (n : ℕ) (db : Db)
      → IsUnique has_id lot_id db.lots
      → find (has_id d.id) db.lots ≡ some d
      → 0 < smaller n d.remaining
      → consume_lot key account d n db
        ≡ ok (n - smaller n d.remaining, after_lot d (smaller n d.remaining) db)
  unfolding consume_lot
  consume_lot-spends d n db u p pos =
      let some_left : (n == 0) ≡ false = ground arith in
      let some_used : leb (smaller n d.remaining) 0 ≡ false = ground arith in
      rw some_left (
        rw some_used (
          rw (
            take_from_lot_lem d (smaller n d.remaining) db u p (ground arith),
            if◌then◌else◌,
            ◌>>=◌,
          )))

  pub consume_lot-skips :
      (d : Lot) (n : ℕ) (db : Db)
      → smaller n d.remaining ≡ 0
      → consume_lot key account d n db ≡ ok (n, db)
  unfolding consume_lot
  consume_lot-skips d n db e = ground (arith, e)

  abbrev AreSpendable : List Lot → Type 0
  AreSpendable = All (λ d. is_spendable_lot account as_of d ≡ true)

  after_lot-worth :
      (d : Lot) (used : ℕ) (db : Db)
      → IsUnique has_id lot_id db.lots
      → find (has_id d.id) db.lots ≡ some d
      → is_spendable_lot account as_of d ≡ true
      → used ≤ d.remaining
      → sum_of (worth account as_of) (after_lot d used db).lots + used
        ≡ sum_of (worth account as_of) db.lots
  unfolding insert_allocation
  after_lot-worth d used db u p s le = ground (
    arith,
    s,
    sum_of-update (worth account as_of) (has_id d.id) (spend used) db.lots d (u d.id) p,
  )

  -- a lot that gives nothing, because nothing is left to charge or nothing is left in it
  Consumes-skip :
      (d : Lot) (ds : List Lot) (n left : ℕ) (db db' : Db)
      → smaller n d.remaining ≡ 0
      → Consumes account as_of ds n db left db'
      → Consumes account as_of (d ∷ ds) n db left db'
  Consumes-skip d ds n left db db' e c = record {
    left_over = ground (arith, e, c.left_over);
    spent = ground (arith, e, c.spent);
    allocated = ground (arith, e, c.allocated);
    unique = c.unique;
    pending = λ es h. c.pending es h.1;
    accounts = c.accounts;
    debits = c.debits;
    clock = c.clock;
  }

  Consumes-step :
      (d : Lot) (ds : List Lot) (n left : ℕ) (db db' : Db)
      → IsUnique has_id lot_id db.lots
      → find (has_id d.id) db.lots ≡ some d
      → is_spendable_lot account as_of d ≡ true
      → let used = smaller n d.remaining in
        Consumes account as_of ds (n - used) (after_lot d used db) left db'
        → Consumes account as_of (d ∷ ds) n db left db'
  unfolding insert_allocation
  Consumes-step d ds n left db db' u p s c =
      let used = smaller n d.remaining in
      let worths = after_lot-worth d used db u p s (ground arith) in
      record {
        left_over = ground (arith, c.left_over);
        spent = ground (arith, c.spent, worths);
        allocated =
            ground (arith, c.allocated, allocated-insert key account (credit_pack d.id) used db);
        unique = c.unique;
        pending = λ es h q. c.pending es h.1 (
            update-IsPending has_id lot_id d.id (spend used) (λ j r. refl) db.lots es lot-IsKey h.0
              q);
        accounts = c.accounts;
        debits = c.debits;
        clock = c.clock;
      }

  pub consume_lots-cons :
      (d : Lot) (ds : List Lot) (n m left : ℕ) (db between db' : Db)
      → consume_lot key account d n db ≡ ok (m, between)
      → consume_lots key account ds m between ≡ ok (left, db')
      → consume_lots key account (d ∷ ds) n db ≡ ok (left, db')
  unfolding consume_lots
  consume_lots-cons d ds n m left db between db' e r = rw (e, ◌>>=◌) r

  -- The loop over lots that stand in the table never fails, and takes the smaller of the amount and of
  -- what the lots hold.
  pub consume_lots-Consumes :
      (ds : List Lot) (n : ℕ) (db : Db)
      → IsUnique has_id lot_id db.lots
      → IsPending has_id lot_id db.lots ds
      → IsDistinct has_id lot_id ds
      → AreSpendable ds
      → (left : ℕ) × (db' : Db) × (consume_lots key account ds n db ≡ ok (left, db'))
        × Consumes account as_of ds n db left db'
  unfolding consume_lots insert_allocation
  consume_lots-Consumes [] n db u p ne s = (
    n,
    db,
    refl,
    record {
      left_over = omega arith;
      spent = omega arith;
      allocated = omega arith;
      unique = u;
      pending = λ es h q. q;
      accounts = refl;
      debits = refl;
      clock = refl;
    },
  )
  consume_lots-Consumes (d ∷ ds) n db u p ne s =
      let used = smaller n d.remaining in
      let skip = consume_lots-Consumes ds n db u p.1 ne.1 s.1 in
      let step =
        consume_lots-Consumes ds (n - used) (after_lot d used db)
          (update-IsUnique has_id lot_id d.id (spend used) (λ j r. refl) db.lots u)
          (update-IsPending has_id lot_id d.id (spend used) (λ j r. refl) db.lots ds lot-IsKey ne.0
            p.1)
          ne.1 s.1 in
      elim (Bool-cases (ltb 0 used)) [
        | inl takes ↦ (
          step.0,
          step.1,
          consume_lots-cons d ds n (n - used) step.0 db (after_lot d used db) step.1
              (consume_lot-spends d n db u p.0 (ltb→lt 0 used takes)) step.2,
          Consumes-step d ds n step.0 db step.1 u p.0 s.0 step.3,
        )
        | inr skips ↦
            let none_used : used ≡ 0 = ground arith in
            (
              skip.0,
              skip.1,
              consume_lots-cons d ds n n skip.0 db db skip.1 (consume_lot-skips d n db none_used)
                  skip.2,
              Consumes-skip d ds n skip.0 db skip.1 none_used skip.3,
            )
      ]
