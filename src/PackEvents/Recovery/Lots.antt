-- ===== src/PackEvents/Recovery/Lots.antt =====
-- What a clawback takes from the lot of an order (typescript/src/credit-pack-events.ts).
use Prim.Native.Nat.{min}
use stripe_entitlements_fast.Base.{
  ℕ, ◌+◌, ◌≤◌, ◌≡◌, refl, ap, ◌∙◌, List, Bool, true, false, not, some, ◌&&◌, inl, inr, arith,
  if◌then◌else◌, find, exists, update, sum_of, Bool-cases,
}
use stripe_entitlements_fast.Store.{Db, Lot, ok, ◌>>=◌}
use stripe_entitlements_fast.Store.Tables.{count}
use stripe_entitlements_fast.Store.Tables.Updates.{find-update_self, sum_of-update, count-update}
use stripe_entitlements_fast.Amount.{max_credit_atoms}
use stripe_entitlements_fast.Funding.{is_lot_active}
use stripe_entitlements_fast.Charge.{expire_lot}
use stripe_entitlements_fast.Refund.{checked_add_atoms}
use stripe_entitlements_fast.PackEvents.Recovery.{
  has_lot_id, is_current, refresh_lot, remaining_removed, expired_removed, taken_back, take_back,
}

-- the credits that a lot has not given away, and those that were clawed back from it
abbrev pub held : Lot → ℕ
held l = l.remaining + l.expired

abbrev pub clawed : Lot → ℕ
clawed l = l.clawed_back

-- What the schema checks of a lot: one that is not active has no credits left to spend, and its parts
-- are in the range of a bigint.
pub record IsSound (l : Lot) : Type 0 where
  pub closed : is_lot_active l.status ≡ false → l.remaining ≡ 0
  pub bounded : held l + l.clawed_back ≤ max_credit_atoms

pub checked_add_atoms_lem :
    (m n : ℕ) (db : Db) → m + n ≤ max_credit_atoms → checked_add_atoms m n db ≡ ok (m + n, db)
unfolding checked_add_atoms
checked_add_atoms_lem m n db le = ground arith

-- the lot as it is read again
abbrev refreshed : Bool → Lot → Lot
refreshed due l = if due then expire_lot l else l

abbrev with_lots : List Lot → Db → Db
with_lots rows db = record db { lots = rows }

abbrev refreshed_rows : Bool → Lot → List Lot → List Lot
refreshed_rows due l rows = if due then update (has_lot_id l.id) expire_lot rows else rows

abbrev is_due : Lot → Db → Bool
is_due l db = is_lot_active l.status && not (exists (is_current l.id db.clock) db.lots)

module _ (lot : Lot) where
  refresh_lot_lem :
      (db : Db) (due : Bool)
      → is_due lot db ≡ due
      → find (has_lot_id lot.id) db.lots ≡ some lot
      → refresh_lot lot db ≡ ok (refreshed due lot, with_lots (refreshed_rows due lot db.lots) db)
  unfolding refresh_lot
  refresh_lot_lem db true e found =
      rw (e, find-update_self (has_lot_id lot.id) expire_lot db.lots lot (λ r. refl) found) refl
  refresh_lot_lem db false e found = rw e refl

  refreshed-found :
      (due : Bool) (rows : List Lot)
      → find (has_lot_id lot.id) rows ≡ some lot
      → find (has_lot_id lot.id) (refreshed_rows due lot rows) ≡ some (refreshed due lot)
  refreshed-found true rows found =
      find-update_self (has_lot_id lot.id) expire_lot rows lot (λ r. refl) found
  refreshed-found false rows found = found

  refreshed-count :
      (due : Bool) (rows : List Lot)
      → count (has_lot_id lot.id) (refreshed_rows due lot rows) ≡ count (has_lot_id lot.id) rows
  refreshed-count true rows =
      count-update (has_lot_id lot.id) (has_lot_id lot.id) expire_lot rows (λ r. refl)
  refreshed-count false rows = refl

  -- the second reading changes no total
  refreshed-sum :
      (w : Lot → ℕ) (due : Bool) (rows : List Lot)
      → w (expire_lot lot) ≡ w lot
      → count (has_lot_id lot.id) rows ≤ 1
      → find (has_lot_id lot.id) rows ≡ some lot
      → sum_of w (refreshed_rows due lot rows) ≡ sum_of w rows
  refreshed-sum w true rows same u found =
      omega (arith, same, sum_of-update w (has_lot_id lot.id) expire_lot rows lot u found)
  refreshed-sum w false rows same u found = refl

  refreshed-IsSound : (due : Bool) → IsSound lot → IsSound (refreshed due lot)
  refreshed-IsSound true s = record { closed = λ e. refl; bounded = omega (arith, s.bounded) }
  refreshed-IsSound false s = s

  refreshed-held : (due : Bool) → held (refreshed due lot) ≡ held lot
  refreshed-held true = omega arith
  refreshed-held false = refl

  refreshed-id : (due : Bool) → (refreshed due lot).id ≡ lot.id
  refreshed-id true = refl
  refreshed-id false = refl

abbrev taken : ℕ → Lot → ℕ
taken delta l = remaining_removed delta l + expired_removed delta l

taken-min : (delta : ℕ) (l : Lot) → IsSound l → taken delta l ≡ min delta (held l)
unfolding remaining_removed expired_removed
taken-min delta l s = elim (Bool-cases (is_lot_active l.status)) [
  | inl open_lot ↦ rw open_lot (ground arith)
  | inr shut ↦ rw shut (ground (arith, s.closed shut))
]

remaining_removed-le : (delta : ℕ) (l : Lot) → remaining_removed delta l ≤ l.remaining
unfolding remaining_removed
remaining_removed-le delta l = ground arith

expired_removed-le : (delta : ℕ) (l : Lot) → expired_removed delta l ≤ l.expired
unfolding expired_removed
expired_removed-le delta l = ground arith

-- What a clawback took from the lots of the database.
pub record TakesBack (delta : ℕ) (lot : Lot) (db : Db) (removed : ℕ) (later : Db) : Type 0 where
  pub amount : removed ≡ min delta (held lot)
  pub given : sum_of held later.lots + removed ≡ sum_of held db.lots
  pub booked : sum_of clawed later.lots ≡ sum_of clawed db.lots + removed
  pub rest : later ≡ with_lots later.lots db

module _ (terminal dispute : Bool) (delta : ℕ) (l : Lot) where
  abbrev given_lot : Lot → Lot
  given_lot =
      taken_back terminal dispute (remaining_removed delta l) (expired_removed delta l)
        (l.clawed_back + taken delta l)

  given-held : held (given_lot l) + taken delta l ≡ held l
  given-held = omega (arith, remaining_removed-le delta l, expired_removed-le delta l)

  -- the statements after the lot is read again
  take_back-step :
      (lot : Lot) (db mid : Db)
      → refresh_lot lot db ≡ ok (l, mid)
      → l.clawed_back + taken delta l ≤ max_credit_atoms
      → take_back terminal dispute delta lot db
        ≡ ok (taken delta l, with_lots (update (has_lot_id l.id) given_lot mid.lots) mid)
  unfolding take_back
  take_back-step lot db mid e le =
      rw (e, ◌>>=◌, checked_add_atoms_lem l.clawed_back (taken delta l) mid le) refl

-- A lot of a sound table gives what it holds, up to what is asked for, and no other row changes.
pub take_back-TakesBack :
    (terminal dispute : Bool) (delta : ℕ) (lot : Lot) (db : Db)
    → IsSound lot
    → count (has_lot_id lot.id) db.lots ≤ 1
    → find (has_lot_id lot.id) db.lots ≡ some lot
    → (removed : ℕ) × (later : Db) × (take_back terminal dispute delta lot db ≡ ok (removed, later))
      × TakesBack delta lot db removed later
take_back-TakesBack terminal dispute delta lot db s u found =
    let due = is_due lot db in
    let l = refreshed due lot in
    let rows = refreshed_rows due lot db.lots in
    let sound = refreshed-IsSound lot due s in
    let same : l.id ≡ lot.id = refreshed-id lot due in
    let here : find (has_lot_id l.id) rows ≡ some l =
      rw same (refreshed-found lot due db.lots found) in
    let once : count (has_lot_id l.id) rows ≤ 1 =
      rw same (omega (arith, refreshed-count lot due db.lots)) in
    let amount : taken delta l ≡ min delta (held lot) =
      taken-min delta l sound ∙ ap (min delta) (refreshed-held lot due) in
    let given = given_lot terminal dispute delta l in
    let all_held = refreshed-sum lot held due db.lots (omega arith) u found in
    let all_clawed = refreshed-sum lot clawed due db.lots refl u found in
    (
      taken delta l,
      with_lots (update (has_lot_id l.id) given rows) db,
      take_back-step terminal dispute delta l lot db (with_lots rows db)
          (refresh_lot_lem lot db due refl found)
          (omega (arith, sound.bounded, given-held terminal dispute delta l)),
      record {
        amount = amount;
        given = omega (
          arith,
          all_held,
          given-held terminal dispute delta l,
          sum_of-update held (has_lot_id l.id) given rows l once here,
        );
        booked =
            omega
              (arith, all_clawed, sum_of-update clawed (has_lot_id l.id) given rows l once here);
        rest = refl;
      },
    )
