-- ===== src/PackEvents/Recovery.antt =====
-- How a clawback of typescript/src/credit-pack-events.ts takes credits back: from the lot of the order,
-- and what the lot no longer has as a debt.
pub mod Lots
pub mod Totals
pub mod Kept
use stripe_entitlements_fast.Base.{
  ℕ, ◌+◌, ◌-◌, [], ◌∷◌, ◌++◌, Bool, not, none, some, ◌&&◌, ◌||◌, ◌==◌, ltb, if◌then◌else◌, smaller,
  find, exists, update,
}
use stripe_entitlements_fast.Store.{
  Order, Lot, LotStatus, lot_refunded, lot_disputed, PackDebt, Tx, pure, get_db, modify, ◌>>=◌,
  ◌>>◌, or_raise, row_missing,
}
use stripe_entitlements_fast.Funding.{is_lot_active}
use stripe_entitlements_fast.Charge.{expire_lot}
use stripe_entitlements_fast.Refund.{checked_add_atoms}
use stripe_entitlements_fast.PackEvents.Contract.{Facts, target_atoms}

abbrev pub has_lot_id : ℕ → Lot → Bool
has_lot_id k l = l.id == k

abbrev pub is_current : ℕ → ℕ → Lot → Bool
is_current lot clock l = l.id == lot && ltb clock l.expires_at

-- an active lot that has expired is closed before it is read again
unfoldable pub refresh_lot : Lot → Tx Lot
refresh_lot lot = do
  db ← get_db
  if is_lot_active lot.status && not (exists (is_current lot.id db.clock) db.lots)
      then (do
        modify (λ db. record db { lots = update (has_lot_id lot.id) expire_lot db.lots })
        now ← get_db
        or_raise (find (has_lot_id lot.id) now.lots) row_missing)
      else pure lot

unfoldable pub remaining_removed : ℕ → Lot → ℕ
remaining_removed delta l = if is_lot_active l.status then smaller delta l.remaining else 0

unfoldable pub expired_removed : ℕ → Lot → ℕ
unfolding remaining_removed
expired_removed delta l = smaller (delta - remaining_removed delta l) l.expired

abbrev pub closing_status : Bool → LotStatus
closing_status dispute = if dispute then lot_disputed else lot_refunded

abbrev pub taken_back : Bool → Bool → ℕ → ℕ → ℕ → Lot → Lot
taken_back terminal dispute remaining expired clawed_back l = record l {
  remaining = l.remaining - remaining;
  expired = l.expired - expired;
  clawed_back = clawed_back;
  status = if terminal then closing_status dispute else l.status;
}

-- the lot gives what it still has, active credits before expired ones
unfoldable pub take_back : Bool → Bool → ℕ → Lot → Tx ℕ
unfolding remaining_removed expired_removed
take_back terminal dispute delta lot = do
  l ← refresh_lot lot
  let remaining = remaining_removed delta l
  let expired = expired_removed delta l
  clawed_back ← checked_add_atoms l.clawed_back (remaining + expired)
  modify (λ db. record db {
    lots =
        update (has_lot_id l.id) (taken_back terminal dispute remaining expired clawed_back)
          db.lots;
  })
  pure (remaining + expired)

abbrev pub debt_of : ℕ → PackDebt → Bool
debt_of order d = d.order_id == order

abbrev pub new_debt : ℕ → ℕ → ℕ → ℕ → PackDebt
new_debt order account missing clock = record {
  order_id = order;
  account_id = account;
  target = missing;
  collected = 0;
  released = 0;
  created_at = clock;
}

-- what the lot could not give is owed
unfoldable pub owe : Order → ℕ → ℕ → Tx (Unit {0})
owe o account missing = do
  db ← get_db
  elim (find (debt_of o.id) db.pack_debts) [
    | none ↦ modify (λ db. record db {
      pack_debts = db.pack_debts ++ new_debt o.id account missing db.clock ∷ [];
    })
    | some d ↦ do
      target ← checked_add_atoms d.target missing
      modify (λ db. record db {
        pack_debts = update (debt_of o.id) (λ e. record e { target = target }) db.pack_debts;
      })
  ]

-- the lot's part, and the debt where there is a lot that gives too little
unfoldable pub recover : Facts → Order → ℕ → ℕ → Tx ℕ
unfolding target_atoms
recover f o account delta = do
  db ← get_db
  elim (find (λ l. l.order_id == o.id) db.lots) [
    | none ↦ pure 0
    | some lot ↦ do
      removed ← take_back (f.dispute || target_atoms f o == o.pack_credits) f.dispute delta lot
      if ltb 0 (delta - removed) then owe o account (delta - removed) else pure tt
      pure removed
  ]
