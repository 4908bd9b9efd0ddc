-- ===== src/Charge/Order.antt =====
-- The order in which a charge empties the lots (`charge` and `consumeLot` of typescript/src/credits.ts).
use stripe_entitlements_fast.Base.{
  ℕ, ◌-◌, ◌≡◌, ◌≢◌, refl, ap, ◌∙◌, List, [], ◌∷◌, Bool, true, false, some, arith, ltb, ltb→lt, inl,
  inr, smaller, find, update, select, All, Bool-cases,
}
use mathlib.Core.Path.{subst}
use stripe_entitlements_fast.Store.{Db, Lot, ok}
use stripe_entitlements_fast.Store.Tables.{insert_by, order_by, le_pair}
use stripe_entitlements_fast.Store.Tables.Sorting.{All-insert_by}
use stripe_entitlements_fast.Store.Tables.Updates.{find-update, find-update_self}
use stripe_entitlements_fast.Store.Tables.Pending.{
  IsUnique, IsPending, IsDistinct, update-IsUnique, update-IsPending, IsPending-ordered,
  IsDistinct-ordered,
}
use stripe_entitlements_fast.Funding.{is_spendable_lot, spendable_lots, insert_allocation}
use stripe_entitlements_fast.Charge.{consume_lots}
use stripe_entitlements_fast.Charge.Lots.{
  has_id, lot_id, lot-IsKey, spend, after_lot, consume_lot-spends, consume_lot-skips,
  consume_lots-cons,
}

-- Each lot of the list gives what the lots before it could not, as far as it reaches.
abbrev pub Takes : List Lot → ℕ → List Lot → Type 0
Takes [] n rows = Unit
Takes (d ∷ ds) n rows =
    (find (has_id d.id) rows ≡ some (spend (smaller n d.remaining) d))
    × Takes ds (n - smaller n d.remaining) rows

-- A list stands in the order of expiry, and of ids among lots that expire together.
abbrev pub IsByExpiry : List Lot → Type 0
IsByExpiry [] = Unit
IsByExpiry (d ∷ ds) =
    All (λ e. le_pair d.expires_at d.id e.expires_at e.id ≡ true) ds × IsByExpiry ds

abbrev by_expiry : Lot → Lot → Bool
by_expiry a b = le_pair a.expires_at a.id b.expires_at b.id

by_expiry_trans : (a b c : Lot) → by_expiry a b ≡ true → by_expiry b c ≡ true → by_expiry a c ≡ true
by_expiry_trans a b c p q = ground arith

by_expiry_total : (a b : Lot) → by_expiry a b ≡ false → by_expiry b a ≡ true
by_expiry_total a b p = ground arith

All-after :
    (a b : Lot) (ds : List Lot)
    → by_expiry a b ≡ true
    → All (λ e. by_expiry b e ≡ true) ds
    → All (λ e. by_expiry a e ≡ true) ds
All-after a b [] p h = tt
All-after a b (d ∷ ds) p h = (by_expiry_trans a b d p h.0, All-after a b ds p h.1)

insert_by-IsByExpiry :
    (x : Lot) (ds : List Lot) → IsByExpiry ds → IsByExpiry (insert_by by_expiry x ds)
insert_by-IsByExpiry x [] h = (tt, tt)
insert_by-IsByExpiry x (d ∷ ds) h = elim (Bool-cases (by_expiry x d)) [
  | inl first ↦ rw first ((first, All-after x d ds first h.0), h)
  | inr later ↦ rw later (
    All-insert_by (λ e. by_expiry d e ≡ true) by_expiry x ds (by_expiry_total x d later) h.0,
    insert_by-IsByExpiry x ds h.1,
  )
]

order_by-IsByExpiry : (ds : List Lot) → IsByExpiry (order_by by_expiry ds)
order_by-IsByExpiry [] = tt
order_by-IsByExpiry (d ∷ ds) =
    insert_by-IsByExpiry d (order_by by_expiry ds) (order_by-IsByExpiry ds)

module _ (key account as_of : ℕ) where
  -- what a loop over lots leaves: each gave in its turn, and no other changed
  record InOrder (ds : List Lot) (n : ℕ) (rows : List Lot) (later : List Lot) : Type 0 where
    pub takes : Takes ds n later
    pub others : (k : ℕ) → All (λ e. k ≢ e.id) ds → find (has_id k) later ≡ find (has_id k) rows

  InOrder-spends :
      (d : Lot) (ds : List Lot) (n : ℕ) (rows later : List Lot)
      → find (has_id d.id) rows ≡ some d
      → All (λ e. d.id ≢ e.id) ds
      → InOrder ds
          (n - smaller n d.remaining)
          (update (has_id d.id) (spend (smaller n d.remaining)) rows)
          later
      → InOrder (d ∷ ds) n rows later
  InOrder-spends d ds n rows later p ne s =
      let used = smaller n d.remaining in
      record {
        takes = (
          s.others d.id ne ∙ find-update_self (has_id d.id) (spend used) rows d (λ r. refl) p,
          s.takes,
        );
        others = λ k h.
            s.others k h.1
            ∙ find-update (has_id k) (has_id d.id) (spend used) rows (λ r. refl)
                (λ r e. ground (arith, h.0));
      }

  InOrder-skips :
      (d : Lot) (ds : List Lot) (n : ℕ) (rows later : List Lot)
      → find (has_id d.id) rows ≡ some d
      → All (λ e. d.id ≢ e.id) ds
      → smaller n d.remaining ≡ 0
      → InOrder ds n rows later
      → InOrder (d ∷ ds) n rows later
  InOrder-skips d ds n rows later p ne z s = record {
    takes = (
      s.others d.id ne ∙ p ∙ ap (λ m. some (record d { remaining = m })) (omega (arith, z)),
      subst (λ m. Takes ds m later) (omega (arith, z)) s.takes,
    );
    others = λ k h. s.others k h.1;
  }

  consume_lots-InOrder :
      (ds : List Lot) (n : ℕ) (db : Db)
      → IsUnique has_id lot_id db.lots
      → IsPending has_id lot_id db.lots ds
      → IsDistinct has_id lot_id ds
      → (left : ℕ) × (later : Db) × (consume_lots key account ds n db ≡ ok (left, later))
        × InOrder ds n db.lots later.lots
  unfolding consume_lots insert_allocation
  consume_lots-InOrder [] n db u p ne = (n, db, refl, record { takes = tt; others = λ k h. refl })
  consume_lots-InOrder (d ∷ ds) n db u p ne =
      let used = smaller n d.remaining in
      let skip = consume_lots-InOrder ds n db u p.1 ne.1 in
      let step =
        consume_lots-InOrder ds (n - used) (after_lot key account as_of d used db)
          (update-IsUnique has_id lot_id d.id (spend used) (λ j r. refl) db.lots u)
          (update-IsPending has_id lot_id d.id (spend used) (λ j r. refl) db.lots ds lot-IsKey ne.0
            p.1)
          ne.1 in
      elim (Bool-cases (ltb 0 used)) [
        | inl gives ↦ (
          step.0,
          step.1,
          consume_lots-cons key account as_of d ds n (n - used) step.0 db
              (after_lot key account as_of d used db) step.1
              (consume_lot-spends key account as_of d n db u p.0 (ltb→lt 0 used gives)) step.2,
          InOrder-spends d ds n db.lots step.1.lots p.0 ne.0 step.3,
        )
        | inr nothing ↦
            let none_used : used ≡ 0 = ground arith in
            (
              skip.0,
              skip.1,
              consume_lots-cons key account as_of d ds n n skip.0 db db skip.1
                  (consume_lot-skips key account as_of d n db none_used) skip.2,
              InOrder-skips d ds n db.lots skip.1.lots p.0 ne.0 none_used skip.3,
            )
      ]

  own_id : (l : Lot) → is_spendable_lot account as_of l ≡ true → has_id l.id l ≡ true
  own_id l h = ground arith

  -- Where the ids of lots are unique, the consumption of an account's spendable lots never fails, and
  -- it goes by their expiry: the lots stand in the order of expiry, each gives what those before it
  -- could not, as far as it reaches, and no other lot changes.
  pub consume_lots-IsByExpiry :
      (n : ℕ) (db : Db)
      → IsUnique has_id lot_id db.lots
      → IsByExpiry (spendable_lots account as_of db)
        × ((left : ℕ) × (later : Db) × (consume_lots key account
                (spendable_lots account as_of db)
                n
                db
              ≡ ok (left, later))
            × Takes (spendable_lots account as_of db) n later.lots
            × ((k : ℕ)
                → All (λ e. k ≢ e.id) (spendable_lots account as_of db)
                → find (has_id k) later.lots ≡ find (has_id k) db.lots))
  consume_lots-IsByExpiry n db u =
      let r =
        consume_lots-InOrder (spendable_lots account as_of db) n db u
          (IsPending-ordered has_id lot_id (is_spendable_lot account as_of) own_id by_expiry db.lots
            u)
          (IsDistinct-ordered has_id lot_id (is_spendable_lot account as_of) own_id by_expiry
            db.lots u) in
      (
        order_by-IsByExpiry (select (is_spendable_lot account as_of) db.lots),
        (r.0, r.1, r.2, r.3.takes, r.3.others),
      )
