-- ===== src/Funding/Settles.antt =====
-- What a collection loop of typescript/src/credit-pack-funding.ts rests on, and what its rounds add up
-- to.
use Prim.Native.Nat.{min}
use stripe_entitlements_fast.Base.{
  ℕ, ◌+◌, ◌-◌, ◌≤◌, ◌<◌, ◌≡◌, refl, ◌∙◌, List, [], ◌∷◌, Bool, true, inl, inr, arith, ◌==◌, leb,
  smaller, if◌then◌else◌, select, sum_of, sum_of-snoc, All, Bool-cases,
}
use stripe_entitlements_fast.Store.{Db, PackDebt}
use stripe_entitlements_fast.Store.Tables.{le_pair}
use stripe_entitlements_fast.Store.Tables.Updates.{sum_of-update}
use stripe_entitlements_fast.Store.Tables.Sorting.{sum_of-order_by, All-order_by}
use stripe_entitlements_fast.Store.Tables.Pending.{
  IsUnique, IsPending, IsDistinct, update-IsUnique, update-IsPending, IsPending-ordered,
  IsDistinct-ordered,
}
use stripe_entitlements_fast.Funding.{is_outstanding, outstanding_debts, outstanding}
use stripe_entitlements_fast.Funding.Rounds.{
  of_order, order_of, add, debt-IsKey, IsFresh, owed, debt_debit, Round, Round-IsFresh,
}

-- A collection from n atoms: what is left of them, what the account owes and what the debits record.
pub record Settles (account : ℕ) (ds : List PackDebt) (n : ℕ) (db : Db) (left : ℕ) (later : Db)
    : Type 0 where
  pub left_over : left ≡ n - min n (sum_of outstanding ds)
  pub reduced : owed account later + min n (sum_of outstanding ds) ≡ owed account db
  pub recorded :
      sum_of (λ d. d.amount) later.debits
      ≡ sum_of (λ d. d.amount) db.debits + min n (sum_of outstanding ds)
  pub accounts : later.accounts ≡ db.accounts
  pub lots : later.lots ≡ db.lots

module _ (account : ℕ) where
  abbrev pub AllOwing : List PackDebt → Type 0
  AllOwing = All (λ d. (d.account_id ≡ account) × (d.collected + d.released < d.target))

  -- what the loop rests on
  pub record Awaits (ds : List PackDebt) (db : Db) : Type 0 where
    pub fresh : IsFresh db
    pub unique : IsUnique of_order order_of db.pack_debts
    pub pending : IsPending of_order order_of db.pack_debts ds
    pub distinct : IsDistinct of_order order_of ds
    pub owing : AllOwing ds

  pub Awaits-rest :
      (d : PackDebt) (ds : List PackDebt) (amount epoch : ℕ) (db later : Db)
      → Round d amount epoch db later
      → Awaits (d ∷ ds) db
      → Awaits ds later
  Awaits-rest d ds amount epoch db later r a = record {
    fresh = Round-IsFresh d amount epoch db later r a.fresh;
    unique = rw r.debts (
        update-IsUnique of_order order_of d.order_id (add amount) (λ j e. refl) db.pack_debts
          a.unique);
    pending = rw r.debts (
        update-IsPending of_order order_of d.order_id (add amount) (λ j e. refl) db.pack_debts ds
          debt-IsKey a.distinct.0 a.pending.1);
    distinct = a.distinct.1;
    owing = a.owing.1;
  }

  Round-owed :
      (d : PackDebt) (ds : List PackDebt) (amount epoch : ℕ) (db later : Db)
      → Round d amount epoch db later
      → Awaits (d ∷ ds) db
      → amount ≤ outstanding d
      → owed account later + amount ≡ owed account db
  Round-owed d ds amount epoch db later r a le =
      let mine = a.owing.0.0 in
      rw r.debts (
        ground (
          arith,
          mine,
          sum_of-update (λ e. if e.account_id == account then outstanding e else 0)
              (of_order d.order_id) (add amount) db.pack_debts d (a.unique d.order_id) a.pending.0,
        ))

  pub Settles-step :
      (d : PackDebt) (ds : List PackDebt) (n epoch left : ℕ) (db between later : Db)
      → Awaits (d ∷ ds) db
      → let amount = smaller n (outstanding d) in
        Round d amount epoch db between
        → Settles account ds (n - amount) between left later
        → Settles account (d ∷ ds) n db left later
  Settles-step d ds n epoch left db between later a r s =
      let amount = smaller n (outstanding d) in
      let paid = Round-owed d ds amount epoch db between r a (ground arith) in
      let written : sum_of (λ e. e.amount) between.debits
          ≡ sum_of (λ e. e.amount) db.debits + amount =
        rw r.debits (sum_of-snoc (λ e. e.amount) db.debits (debt_debit d amount epoch db)) in
      record {
        left_over = ground (arith, s.left_over);
        reduced = ground (arith, s.reduced, paid);
        recorded = ground (arith, s.recorded, written);
        accounts = s.accounts ∙ r.accounts;
        lots = s.lots ∙ r.lots;
      }

  -- nothing is left to pay with
  pub Settles-stop :
      (d : PackDebt) (ds : List PackDebt) (n : ℕ) (db : Db)
      → AllOwing (d ∷ ds)
      → leb (smaller n (outstanding d)) 0 ≡ true
      → Settles account (d ∷ ds) n db n db
  Settles-stop d ds n db o e =
      let lt = o.0.1 in
      let none_left : n ≡ 0 = ground (arith, e, lt) in
      record {
        left_over = omega arith;
        reduced = omega arith;
        recorded = omega arith;
        accounts = refl;
        lots = refl;
      }

  pub Settles-nil : (n : ℕ) (db : Db) → Settles account [] n db n db
  Settles-nil n db = record {
    left_over = omega arith;
    reduced = omega arith;
    recorded = omega arith;
    accounts = refl;
    lots = refl;
  }

  -- the selected debts
  module _ (db : Db) (f : IsFresh db) (u : IsUnique of_order order_of db.pack_debts) where
    is_own : (d : PackDebt) → is_outstanding account d ≡ true → of_order d.order_id d ≡ true
    is_own d h = ground arith

    AllOwing-select : (rows : List PackDebt) → AllOwing (select (is_outstanding account) rows)
    AllOwing-select [] = tt
    AllOwing-select (x ∷ xs) = elim (Bool-cases (is_outstanding account x)) [
      | inl chosen ↦ rw chosen ((ground arith, ground arith), AllOwing-select xs)
      | inr passed ↦ rw passed (AllOwing-select xs)
    ]

    sum_of-selected :
        (rows : List PackDebt)
        → sum_of outstanding (select (is_outstanding account) rows)
          ≡ sum_of (λ d. if d.account_id == account then outstanding d else 0) rows
    sum_of-selected [] = refl
    sum_of-selected (x ∷ xs) = ground (arith, sum_of-selected xs)

    abbrev order : PackDebt → PackDebt → Bool
    order a b = le_pair a.created_at a.order_id b.created_at b.order_id

    pub outstanding_debts-Awaits : Awaits (outstanding_debts account db) db
    unfolding outstanding_debts
    outstanding_debts-Awaits = record {
      fresh = f;
      unique = u;
      pending =
          IsPending-ordered of_order order_of (is_outstanding account) is_own order db.pack_debts u;
      distinct =
          IsDistinct-ordered of_order order_of (is_outstanding account) is_own order db.pack_debts
            u;
      owing =
          All-order_by (λ d. (d.account_id ≡ account) × (d.collected + d.released < d.target)) order
            (select (is_outstanding account) db.pack_debts) (AllOwing-select db.pack_debts);
    }

    pub sum_of-outstanding_debts :
        sum_of outstanding (outstanding_debts account db) ≡ owed account db
    unfolding outstanding_debts
    sum_of-outstanding_debts =
        sum_of-order_by outstanding order (select (is_outstanding account) db.pack_debts)
        ∙ sum_of-selected db.pack_debts
