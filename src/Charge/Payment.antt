-- ===== src/Charge/Payment.antt =====
-- A charge that its sources cover is paid in full (`charge` of typescript/src/credits.ts, after the key
-- is claimed).
use Prim.Native.Nat.{min}
use stripe_entitlements_fast.Base.{
  ℕ, ◌+◌, ◌-◌, ◌≤◌, ◌≡◌, refl, ap, ◌∙◌, List, Bool, true, some, arith, find, sum_of, All,
}
use stripe_entitlements_fast.Store.{Db, Account, Lot, ok}
use stripe_entitlements_fast.Store.Tables.Pending.{IsUnique, IsPending, IsDistinct}
use stripe_entitlements_fast.Funding.{is_spendable_lot}
use stripe_entitlements_fast.Charge.{consume, book_subscription}
use stripe_entitlements_fast.Charge.Lots.{has_id, lot_id, worth, Consumes, consume_lots-Consumes}
use stripe_entitlements_fast.Charge.Sources.{
  earlier, others, Pays, after_share, consume_subscription_lem, after_share-allocated,
  after_share-rest, parts-sum, parts-apart, parts-IsDistinct, parts-All, consume-chain,
}

-- The lots that a charge works with: rows of the table, each once, and all spendable.
pub record AreChargeable (account as_of : ℕ) (db : Db) (lots : List Lot) : Type 0 where
  pub unique : IsUnique has_id lot_id db.lots
  pub pending : IsPending has_id lot_id db.lots lots
  pub distinct : IsDistinct has_id lot_id lots
  pub spendable : All (λ d. is_spendable_lot account as_of d ≡ true) lots

module _ (key as_of : ℕ) (account : Account) (available : ℕ) (usable : Bool) (lots : List Lot) where
  -- the figures of the three steps add up
  Pays-sum :
      (amount left last : ℕ) (db db1 db2 db3 : Db)
      → let expires = account.credit_expires_at in
        let share = min left available in
        amount ≤ available + sum_of (λ l. l.remaining) lots
        → db2 ≡ after_share key as_of account available left db1
        → Consumes account.id as_of (earlier usable expires lots) amount db left db1
        → Consumes account.id as_of (others usable expires lots) (left - share) db2 last db3
        → (last ≡ 0) × (share ≤ amount) × Pays account.id as_of amount share db db3
  Pays-sum amount left last db db1 db2 db3 cover e c d =
      let total = parts-sum key as_of account available usable lots in
      let shared = after_share-allocated key as_of account available left db1 in
      let same = after_share-rest key as_of account available left db1 in
      let lots_same : db2.lots ≡ db1.lots = rw e same.0 in
      let allocs : sum_of (λ a. a.amount) db2.allocations
          ≡ sum_of (λ a. a.amount) db1.allocations + min left available =
        rw e shared in
      (
        omega (arith, c.left_over, d.left_over, total),
        omega (arith, c.left_over),
        record {
          spent = omega (
            arith,
            c.left_over,
            d.left_over,
            total,
            c.spent,
            d.spent,
            ap (sum_of (worth account.id as_of)) lots_same,
          );
          allocated =
              omega (arith, c.left_over, d.left_over, total, c.allocated, d.allocated, allocs);
          accounts = d.accounts ∙ rw e same.1 ∙ c.accounts;
          debits = d.debits ∙ rw e same.2 ∙ c.debits;
          clock = d.clock ∙ rw e same.3 ∙ c.clock;
        },
      )

  -- Sources that cover an amount pay it in full: no statement of the consumption fails.
  pub consume-Pays :
      (amount : ℕ) (db : Db)
      → AreChargeable account.id as_of db lots
      → amount ≤ available + sum_of (λ l. l.remaining) lots
      → (share : ℕ) × (db' : Db) × (consume key account usable lots available amount db
          ≡ ok (tt, book_subscription key account available share db'))
        × (share ≤ available)
        × (share ≤ amount)
        × Pays account.id as_of amount share db db'
  consume-Pays amount db h cover =
      let expires = account.credit_expires_at in
      let ds = earlier usable expires lots in
      let es = others usable expires lots in
      let distinct = parts-IsDistinct key as_of account available usable lots h.distinct in
      let spendable =
        parts-All key as_of account available (λ d. is_spendable_lot account.id as_of d ≡ true)
          usable lots h.spendable in
      let pending =
        parts-All key as_of account available (λ d. find (has_id d.id) db.lots ≡ some d) usable lots
          h.pending in
      let (left, db1, run1, c) =
        consume_lots-Consumes key account.id as_of ds amount db h.unique pending.0 distinct.0
          spendable.0 in
      let db2 = after_share key as_of account available left db1 in
      let same = after_share-rest key as_of account available left db1 in
      let apart = parts-apart key as_of account available usable lots h.distinct in
      let (last, db3, run3, d) =
        consume_lots-Consumes key account.id as_of es (left - min left available) db2
          (rw same.0 c.unique) (rw same.0 (c.pending es apart pending.1)) distinct.1 spendable.1 in
      let sums = Pays-sum amount left last db db1 db2 db3 cover refl c d in
      (
        min left available,
        db3,
        consume-chain key as_of account available usable lots amount left (min left available) db
            db1 db2 db3 run1 (consume_subscription_lem key as_of account available left db1)
            (run3 ∙ ap (λ n. ok (n, db3)) sums.0),
        omega arith,
        sums.1,
        sums.2,
      )
