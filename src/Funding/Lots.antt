-- ===== src/Funding/Lots.antt =====
-- The update of a lot by its id, where the lot holds the amount (typescript/src/credit-pack-funding.ts
-- and credits.ts).
use stripe_entitlements_fast.Base.{
  ℕ, ◌-◌, ◌≤◌, ◌≡◌, Bool, some, arith, leb, le→leb, ◌==◌, find, update,
}
use stripe_entitlements_fast.Store.{Db, Lot, ok}
use stripe_entitlements_fast.Store.Tables.Updates.{count-guarded, update-guarded}
use stripe_entitlements_fast.Store.Tables.Pending.{IsKey, IsUnique}
use stripe_entitlements_fast.Funding.{take_from_lot}

abbrev pub has_id : ℕ → Lot → Bool
has_id k l = l.id == k

abbrev pub lot_id : Lot → ℕ
lot_id l = l.id

pub lot-IsKey : IsKey has_id
lot-IsKey = record { apart = λ j k r p q. ground arith }

abbrev pub spend : ℕ → Lot → Lot
spend amount l = record l { remaining = l.remaining - amount }

-- the update finds its row, and changes no other
pub take_from_lot_lem :
    (d : Lot) (used : ℕ) (db : Db)
    → IsUnique has_id lot_id db.lots
    → find (has_id d.id) db.lots ≡ some d
    → used ≤ d.remaining
    → take_from_lot d.id used db
      ≡ ok (tt, record db { lots = update (has_id d.id) (spend used) db.lots })
unfolding take_from_lot
take_from_lot_lem d used db u p le =
    let test = le→leb used d.remaining le in
    rw
      (count-guarded (has_id d.id) (λ l. leb used l.remaining) (spend used) db.lots d (u d.id) p
        test)
      (rw (
        update-guarded (has_id d.id) (λ l. leb used l.remaining) (spend used) db.lots d (u d.id) p
          test))
