-- ===== src/Funding/FromLot.antt =====
-- What `collectPackDebtsFromLot` (typescript/src/credit-pack-funding.ts) collects, and what it leaves
-- alone.
use Prim.Native.Nat.{min}
use stripe_entitlements_fast.Base.{
  ℕ, ◌+◌, ◌-◌, ◌≤◌, ◌≡◌, refl, ap, ◌∙◌, List, [], ◌∷◌, false, some, inl, inr, arith, ◌==◌, ltb, leb,
  smaller, if◌then◌else◌, find, update, sum_of, Bool-cases,
}
use stripe_entitlements_fast.Store.{
  Db, Account, Lot, PackDebt, Source, credit_pack, ok, pure, ◌>>=◌,
}
use stripe_entitlements_fast.Store.Tables.Updates.{find-update_self}
use stripe_entitlements_fast.Store.Tables.Pending.{IsUnique}
use stripe_entitlements_fast.Funding.{
  insert_allocation, outstanding_debts, outstanding, add_collected, collect_from_lot, take_from_lot,
  collect_pack_debts_from_lot,
}
use stripe_entitlements_fast.Funding.Lots.{has_id, lot_id, spend, take_from_lot_lem}
use stripe_entitlements_fast.Funding.Rounds.{
  of_order, order_of, IsFresh, owed, Round, recorded_db, record_debt_collection_lem,
}
use stripe_entitlements_fast.Funding.Settles.{
  Settles, Awaits, Awaits-rest, Settles-step, Settles-stop, Settles-nil, outstanding_debts-Awaits,
  sum_of-outstanding_debts,
}

pub paid-IsFresh :
    (order amount : ℕ) (db : Db) → IsFresh db → IsFresh (add_collected order amount db)
unfolding add_collected
paid-IsFresh order amount db f = record { unused = f.unused; apart = f.apart }

pub recorded-Round :
    (d : PackDebt) (amount epoch : ℕ) (source : Source) (db : Db)
    → Round d amount epoch db
        (recorded_db d amount epoch source (add_collected d.order_id amount db))
unfolding add_collected insert_allocation
recorded-Round d amount epoch source db = record {
  debts = refl;
  debits = refl;
  drawn = refl;
  keys = refl;
  accounts = refl;
  lots = refl;
}

module _ (account epoch lot : ℕ) where
  abbrev lot_round : PackDebt → ℕ → Db → Db
  lot_round d amount db =
      recorded_db d amount epoch (credit_pack lot) (add_collected d.order_id amount db)

  collect_from_lot-step :
      (d : PackDebt) (ds : List PackDebt) (n left : ℕ) (db later : Db)
      → IsFresh db
      → let amount = smaller n (outstanding d) in
        leb amount 0 ≡ false
        → collect_from_lot lot epoch ds (n - amount) (lot_round d amount db) ≡ ok (left, later)
        → collect_from_lot lot epoch (d ∷ ds) n db ≡ ok (left, later)
  unfolding collect_from_lot
  collect_from_lot-step d ds n left db later f e r =
      let amount = smaller n (outstanding d) in
      rw
        (
          e,
          record_debt_collection_lem d amount epoch (credit_pack lot)
              (add_collected d.order_id amount db) (paid-IsFresh d.order_id amount db f),
          ◌>>=◌,
        )
        r

  collect_from_lot-Settles :
      (ds : List PackDebt) (n : ℕ) (db : Db)
      → Awaits account ds db
      → (left : ℕ) × (later : Db) × (collect_from_lot lot epoch ds n db ≡ ok (left, later))
        × Settles account ds n db left later
  unfolding collect_from_lot
  collect_from_lot-Settles [] n db a = (n, db, refl, Settles-nil account n db)
  collect_from_lot-Settles (d ∷ ds) n db a =
      let amount = smaller n (outstanding d) in
      let round = recorded-Round d amount epoch (credit_pack lot) db in
      elim (Bool-cases (leb amount 0)) [
        | inl nothing ↦ (n, db, rw nothing refl, Settles-stop account d ds n db a.owing nothing)
        | inr pays ↦
            let rest =
              collect_from_lot-Settles ds (n - amount) (lot_round d amount db)
                (Awaits-rest account d ds amount epoch db (lot_round d amount db) round a) in
            (
              rest.0,
              rest.1,
              collect_from_lot-step d ds n rest.0 db rest.1 a.fresh pays rest.2,
              Settles-step account d ds n epoch rest.0 db (lot_round d amount db) rest.1 a round
                  rest.3,
            )
      ]

module _ (account : ℕ) (row : Lot) where
  -- A collection from a lot that ended well.
  pub record CollectsFromLot (available : ℕ) (db : Db) (collected : ℕ) (later : Db) : Type 0 where
    pub amount : collected ≡ min available (owed account db)
    pub debts : owed account later + collected ≡ owed account db
    pub recorded :
        sum_of (λ d. d.amount) later.debits ≡ sum_of (λ d. d.amount) db.debits + collected
    pub funded :
        find (has_id row.id) later.lots
        ≡ some (record row { remaining = row.remaining - collected })
    pub accounts : later.accounts ≡ db.accounts

  abbrev lowered : ℕ → Db → Db
  lowered amount db = record db { lots = update (has_id row.id) (spend amount) db.lots }

  -- the last statement, which the code runs where it collected
  abbrev settled : ℕ → Db → Db
  settled amount db = if ltb 0 amount then lowered amount db else db

  settled-funded :
      (amount : ℕ) (db : Db)
      → find (has_id row.id) db.lots ≡ some row
      → find (has_id row.id) (settled amount db).lots
        ≡ some (record row { remaining = row.remaining - amount })
  settled-funded amount db found = elim (Bool-cases (ltb 0 amount)) [
    | inl pays ↦
        rw pays (find-update_self (has_id row.id) (spend amount) db.lots row (λ r. refl) found)
    | inr nothing ↦
        rw nothing (found ∙ ap (λ n. some (record row { remaining = n })) (ground (arith, nothing)))
  ]

  settled-CollectsFromLot :
      (available left : ℕ) (db later : Db)
      → find (has_id row.id) db.lots ≡ some row
      → sum_of outstanding (outstanding_debts account db) ≡ owed account db
      → Settles account (outstanding_debts account db) available db left later
      → CollectsFromLot available db (available - left) (settled (available - left) later)
  settled-CollectsFromLot available left db later found total s = record {
    amount = omega (arith, s.left_over, total);
    debts = ground (arith, s.left_over, s.reduced, total);
    recorded = ground (arith, s.left_over, s.recorded, total);
    funded = settled-funded (available - left) later (ap (find (has_id row.id)) s.lots ∙ found);
    accounts = ground (arith, s.accounts);
  }

  take_from_lot-settled :
      (amount : ℕ) (db : Db)
      → IsUnique has_id lot_id db.lots
      → find (has_id row.id) db.lots ≡ some row
      → amount ≤ row.remaining
      → (if ltb 0 amount then take_from_lot row.id amount else pure tt) db
        ≡ ok (tt, settled amount db)
  take_from_lot-settled amount db u found le = elim (Bool-cases (ltb 0 amount)) [
    | inl pays ↦ rw pays (take_from_lot_lem row amount db u found le)
    | inr nothing ↦ rw nothing refl
  ]

  -- Where the account and the lot exist, the ids of lots and the orders of debts are unique, the keys to
  -- be drawn are new and the lot holds what is available, the collection never fails: it takes the
  -- smaller of what is available and of what the account owes, lowers the lot and the debts by it,
  -- and records it in debits.
  pub collect_pack_debts_from_lot-CollectsFromLot :
      (available : ℕ) (db : Db) (a : Account)
      → IsFresh db
      → IsUnique of_order order_of db.pack_debts
      → IsUnique has_id lot_id db.lots
      → find (λ r. r.id == account) db.accounts ≡ some a
      → find (has_id row.id) db.lots ≡ some row
      → available ≤ row.remaining
      → (collected : ℕ) × (later : Db) × (collect_pack_debts_from_lot account row.id available db
          ≡ ok (collected, later))
        × CollectsFromLot available db collected later
  unfolding collect_pack_debts_from_lot
  collect_pack_debts_from_lot-CollectsFromLot available db a f u ul found lot_found le =
      let rest =
        collect_from_lot-Settles account a.grant_epoch row.id (outstanding_debts account db)
          available db (outstanding_debts-Awaits account db f u) in
      let s = rest.3 in
      let collected = available - rest.0 in
      (
        collected,
        settled collected rest.1,
        rw
            (
              found,
              ◌>>=◌,
              rest.2,
              take_from_lot-settled collected rest.1 (rw s.lots ul)
                  (ap (find (has_id row.id)) s.lots ∙ lot_found) (omega arith),
            )
            refl,
        settled-CollectsFromLot available rest.0 db rest.1 lot_found
            (sum_of-outstanding_debts account db f u) s,
      )
