-- ===== src/PackEvents/Recovery/Totals.antt =====
-- Where the credits of a clawback come from (typescript/src/credit-pack-events.ts): what the lot of the
-- order gives and what is owed for it add up to what is taken back.
use Prim.Native.Nat.{min}
use stripe_entitlements_fast.Base.{
  ℕ, ◌+◌, ◌-◌, ◌≤◌, ◌≡◌, refl, ap, List, [], ◌∷◌, ◌++◌, Option, none, some, ◌||◌, ◌==◌, inl, inr,
  arith, ltb, if◌then◌else◌, find, update, sum_of, sum_of-snoc, Bool-cases,
}
use stripe_entitlements_fast.Store.{Db, Lot, Order, PackDebt, ok, pure, ◌>>=◌}
use stripe_entitlements_fast.Store.Tables.{count}
use stripe_entitlements_fast.Store.Tables.Updates.{sum_of-update}
use stripe_entitlements_fast.Amount.{max_credit_atoms}
use stripe_entitlements_fast.PackEvents.Contract.{Facts, target_atoms}
use stripe_entitlements_fast.PackEvents.Recovery.{
  has_lot_id, take_back, debt_of, new_debt, owe, recover,
}
use stripe_entitlements_fast.PackEvents.Recovery.Lots.{
  held, clawed, IsSound, checked_add_atoms_lem, TakesBack, take_back-TakesBack,
}

-- what is owed for the orders, collected or not
abbrev pub claimed : PackDebt → ℕ
claimed d = d.target

abbrev with_debts : List PackDebt → Db → Db
with_debts rows db = record db { pack_debts = rows }

-- the table after a debt was made or raised
abbrev raised : ℕ → ℕ → ℕ → ℕ → List PackDebt → List PackDebt
raised order account missing clock rows = elim (find (debt_of order) rows) [
  | none ↦ rows ++ new_debt order account missing clock ∷ []
  | some d ↦ update (debt_of order) (λ e. record e { target = d.target + missing }) rows
]

-- A debt can be raised by an amount.
pub record CanOwe (order amount : ℕ) (rows : List PackDebt) : Type 0 where
  pub once : count (debt_of order) rows ≤ 1
  pub in_range :
      (d : PackDebt) → find (debt_of order) rows ≡ some d → d.target + amount ≤ max_credit_atoms

module _ (o : Order) (account : ℕ) where
  owe_lem :
      (missing : ℕ) (db : Db) (found : Option PackDebt)
      → find (debt_of o.id) db.pack_debts ≡ found
      → CanOwe o.id missing db.pack_debts
      → owe o account missing db
        ≡ ok (tt, with_debts (raised o.id account missing db.clock db.pack_debts) db)
  unfolding owe
  owe_lem missing db none e c = rw (owe, ◌>>=◌, e, raised) refl
  owe_lem missing db (some d) e c =
      rw (owe, ◌>>=◌, e, raised, checked_add_atoms_lem d.target missing db (c.in_range d e)) refl

  raised-claimed :
      (missing clock : ℕ) (rows : List PackDebt) (found : Option PackDebt)
      → find (debt_of o.id) rows ≡ found
      → count (debt_of o.id) rows ≤ 1
      → sum_of claimed (raised o.id account missing clock rows) ≡ sum_of claimed rows + missing
  raised-claimed missing clock rows none e u =
      rw (e, raised) (sum_of-snoc claimed rows (new_debt o.id account missing clock))
  raised-claimed missing clock rows (some d) e u =
      rw (e, raised)
        (omega (
          arith,
          sum_of-update claimed (debt_of o.id) (λ r. record r { target = d.target + missing }) rows
              d u e,
        ))

  -- The credits of a clawback: taken from what the lots hold, or owed.
  pub record Recovers (delta : ℕ) (lot : Lot) (db : Db) (removed : ℕ) (later : Db) : Type 0 where
    pub amount : removed ≡ min delta (held lot)
    pub given : sum_of held later.lots + removed ≡ sum_of held db.lots
    pub booked : sum_of clawed later.lots ≡ sum_of clawed db.lots + removed
    pub owed : sum_of claimed later.pack_debts + removed ≡ sum_of claimed db.pack_debts + delta
    pub rest : later ≡ record db { lots = later.lots; pack_debts = later.pack_debts }

  abbrev owes : ℕ → Db → Db
  owes missing db =
      if ltb 0 missing
      then with_debts (raised o.id account missing db.clock db.pack_debts) db
      else db

  owe-owes :
      (missing : ℕ) (db : Db)
      → CanOwe o.id missing db.pack_debts
      → (if ltb 0 missing then owe o account missing else pure tt) db ≡ ok (tt, owes missing db)
  owe-owes missing db c = elim (Bool-cases (ltb 0 missing)) [
    | inl more ↦ rw more (owe_lem missing db (find (debt_of o.id) db.pack_debts) refl c)
    | inr enough ↦ rw enough refl
  ]

  owes-claimed :
      (missing : ℕ) (db : Db)
      → count (debt_of o.id) db.pack_debts ≤ 1
      → sum_of claimed (owes missing db).pack_debts ≡ sum_of claimed db.pack_debts + missing
  owes-claimed missing db u = elim (Bool-cases (ltb 0 missing)) [
    | inl more ↦
        rw more
          (raised-claimed missing db.clock db.pack_debts (find (debt_of o.id) db.pack_debts) refl u)
    | inr enough ↦ rw enough (ground (arith, enough))
  ]

  owes-lots : (missing : ℕ) (db : Db) → (owes missing db).lots ≡ db.lots
  owes-lots missing db = elim (Bool-cases (ltb 0 missing)) [
    | inl more ↦ rw more refl
    | inr enough ↦ rw enough refl
  ]

  owes-TakesBack :
      (missing : ℕ) (lot : Lot) (db mid : Db) (removed delta : ℕ)
      → TakesBack delta lot db removed mid
      → owes missing mid
        ≡ record db { lots = (owes missing mid).lots; pack_debts = (owes missing mid).pack_debts }
  owes-TakesBack missing lot db mid removed delta t = elim (Bool-cases (ltb 0 missing)) [
    | inl more ↦
        rw more (ap (with_debts (raised o.id account missing mid.clock mid.pack_debts)) t.rest)
    | inr enough ↦ rw enough (cc t.rest)
  ]

  CanOwe-less : (m n : ℕ) (rows : List PackDebt) → m ≤ n → CanOwe o.id n rows → CanOwe o.id m rows
  CanOwe-less m n rows le c = record {
    once = c.once;
    in_range = λ d e. omega (arith, c.in_range d e);
  }

  recover-step :
      (f : Facts) (delta removed : ℕ) (lot : Lot) (db mid : Db)
      → find (λ l. l.order_id == o.id) db.lots ≡ some lot
      → take_back (f.dispute || target_atoms f o == o.pack_credits) f.dispute delta lot db
        ≡ ok (removed, mid)
      → CanOwe o.id (delta - removed) mid.pack_debts
      → recover f o account delta db ≡ ok (removed, owes (delta - removed) mid)
  unfolding recover
  recover-step f delta removed lot db mid found e c =
      rw (found, recover, e, ◌>>=◌, owe-owes (delta - removed) mid c) refl

  -- Where the order has a lot that is sound and found by its id, the clawback of some credits never
  -- fails: the lot gives what it holds, up to the amount, and the rest is owed.
  pub recover-Recovers :
      (f : Facts) (delta : ℕ) (lot : Lot) (db : Db)
      → find (λ l. l.order_id == o.id) db.lots ≡ some lot
      → find (has_lot_id lot.id) db.lots ≡ some lot
      → count (has_lot_id lot.id) db.lots ≤ 1
      → IsSound lot
      → CanOwe o.id delta db.pack_debts
      → (removed : ℕ) × (later : Db) × (recover f o account delta db ≡ ok (removed, later))
        × Recovers delta lot db removed later
  recover-Recovers f delta lot db found same u s c =
      let terminal = f.dispute || target_atoms f o == o.pack_credits in
      let taking = take_back-TakesBack terminal f.dispute delta lot db s u same in
      let removed = taking.0 in
      let mid = taking.1 in
      let t = taking.3 in
      let debts : mid.pack_debts ≡ db.pack_debts = ap (λ d. d.pack_debts) t.rest in
      let can : CanOwe o.id (delta - removed) mid.pack_debts =
        rw debts (CanOwe-less (delta - removed) delta db.pack_debts (omega arith) c) in
      (
        removed,
        owes (delta - removed) mid,
        recover-step f delta removed lot db mid found taking.2 can,
        record {
          amount = t.amount;
          given = rw (owes-lots (delta - removed) mid) t.given;
          booked = rw (owes-lots (delta - removed) mid) t.booked;
          owed = omega (
            arith,
            t.amount,
            ap (sum_of claimed) debts,
            owes-claimed (delta - removed) mid can.once,
          );
          rest = owes-TakesBack (delta - removed) lot db mid removed delta t;
        },
      )
