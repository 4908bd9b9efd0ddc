-- ===== src/Charge/Sources.antt =====
-- The consumption of all sources by a charge of typescript/src/credits.ts: packs that expire before
-- the subscription, the subscription, the other packs.
use Prim.Native.Nat.{min}
use stripe_entitlements_fast.Base.{
  ℕ, ◌+◌, ◌-◌, ◌≡◌, refl, ap, ◌∙◌, List, [], Bool, true, false, not, Option, ◌&&◌, arith, ltb,
  smaller, if◌then◌else◌, select, sum_of, All, Bool-cases, inl, inr,
}
use stripe_entitlements_fast.Store.{Db, Account, Lot, subscription, ok, ◌>>=◌}
use stripe_entitlements_fast.Store.Tables.Sorting.{sum_of-parts}
use stripe_entitlements_fast.Store.Tables.Pending.{
  IsDistinct, All-select, IsDistinct-part, AreApart, AreApart-nil, AreApart-parts,
}
use stripe_entitlements_fast.Funding.{insert_allocation}
use stripe_entitlements_fast.Charge.{
  consume_lots, consume_subscription, consume, book_subscription, is_before_subscription,
}
use stripe_entitlements_fast.Charge.Lots.{has_id, lot_id, worth, allocated-insert}

-- the lots that are consumed before the subscription, and after it
abbrev pub earlier : Bool → Option ℕ → List Lot → List Lot
earlier usable expires lots = if usable then select (is_before_subscription expires) lots else lots

abbrev pub others : Bool → Option ℕ → List Lot → List Lot
others usable expires lots =
    if usable then select (λ l. not (is_before_subscription expires l)) lots else []

-- What the consumption of an amount leaves behind: `share` is the subscription's part.
pub record Pays (account as_of amount share : ℕ) (db db' : Db) : Type 0 where
  pub spent :
      sum_of (worth account as_of) db'.lots + amount ≡ sum_of (worth account as_of) db.lots + share
  pub allocated :
      sum_of (λ a. a.amount) db'.allocations ≡ sum_of (λ a. a.amount) db.allocations + amount
  pub accounts : db'.accounts ≡ db.accounts
  pub debits : db'.debits ≡ db.debits
  pub clock : db'.clock ≡ db.clock

module _ (key as_of : ℕ) (account : Account) (available : ℕ) where
  -- the database after the subscription's share
  abbrev pub after_share : ℕ → Db → Db
  after_share left db =
      if ltb 0 left && ltb 0 available
      then insert_allocation key account.id (subscription account.grant_epoch)
          (smaller left available) db
      else db

  pub consume_subscription_lem :
      (left : ℕ) (db : Db)
      → consume_subscription key account available left db
        ≡ ok (min left available, after_share left db)
  unfolding consume_subscription
  consume_subscription_lem left db = elim (Bool-cases (ltb 0 left && ltb 0 available)) [
    | inl both ↦
        rw (both, if◌then◌else◌)
          (ap
            (λ n. ok (
              n,
              insert_allocation key account.id (subscription account.grant_epoch)
                  (smaller left available) db,
            ))
            (ground arith))
    | inr one_empty ↦
        rw (one_empty, if◌then◌else◌) (ap (λ n. ok (n, db)) (ground (arith, one_empty)))
  ]

  pub after_share-allocated :
      (left : ℕ) (db : Db)
      → sum_of (λ a. a.amount) (after_share left db).allocations
        ≡ sum_of (λ a. a.amount) db.allocations + min left available
  after_share-allocated left db = elim (Bool-cases (ltb 0 left && ltb 0 available)) [
    | inl both ↦ rw both (
        allocated-insert key account.id (subscription account.grant_epoch) (smaller left available)
          db
        ∙ ap (λ n. sum_of (λ a. a.amount) db.allocations + n) (ground arith))
    | inr one_empty ↦ rw one_empty (ground (arith, one_empty))
  ]

  pub after_share-rest :
      (left : ℕ) (db : Db)
      → ((after_share left db).lots ≡ db.lots)
        × ((after_share left db).accounts ≡ db.accounts)
        × ((after_share left db).debits ≡ db.debits)
        × ((after_share left db).clock ≡ db.clock)
  unfolding insert_allocation
  after_share-rest left db = elim (Bool-cases (ltb 0 left && ltb 0 available)) [
    | inl both ↦ rw both (refl, refl, refl, refl)
    | inr one_empty ↦ rw one_empty (refl, refl, refl, refl)
  ]

  pub parts-sum :
      (usable : Bool) (lots : List Lot)
      → sum_of (λ l. l.remaining) (earlier usable account.credit_expires_at lots)
          + sum_of (λ l. l.remaining) (others usable account.credit_expires_at lots)
        ≡ sum_of (λ l. l.remaining) lots
  parts-sum true lots =
      sum_of-parts (λ l. l.remaining) (is_before_subscription account.credit_expires_at) lots
  parts-sum false lots = omega arith

  pub parts-apart :
      (usable : Bool) (lots : List Lot)
      → IsDistinct has_id lot_id lots
      → AreApart has_id lot_id
          (earlier usable account.credit_expires_at lots)
          (others usable account.credit_expires_at lots)
  parts-apart true lots h =
      AreApart-parts has_id lot_id (is_before_subscription account.credit_expires_at) lots h
  parts-apart false lots h = AreApart-nil has_id lot_id lots

  pub parts-IsDistinct :
      (usable : Bool) (lots : List Lot)
      → IsDistinct has_id lot_id lots
      → IsDistinct has_id lot_id (earlier usable account.credit_expires_at lots)
        × IsDistinct has_id lot_id (others usable account.credit_expires_at lots)
  parts-IsDistinct true lots h = (
    IsDistinct-part has_id lot_id (is_before_subscription account.credit_expires_at) lots h,
    IsDistinct-part has_id lot_id (λ l. not (is_before_subscription account.credit_expires_at l))
        lots h,
  )
  parts-IsDistinct false lots h = (h, tt)

  pub parts-All :
      (P : Lot → Type 0) (usable : Bool) (lots : List Lot)
      → All P lots
      → All P (earlier usable account.credit_expires_at lots)
        × All P (others usable account.credit_expires_at lots)
  parts-All P true lots h = (
    All-select has_id lot_id (is_before_subscription account.credit_expires_at) P lots h,
    All-select has_id lot_id (λ l. not (is_before_subscription account.credit_expires_at l)) P lots
        h,
  )
  parts-All P false lots h = (h, tt)

  -- the statements of `consume`, once each part is known to succeed
  pub consume-chain :
      (usable : Bool) (lots : List Lot) (amount left share : ℕ) (db db1 db2 db3 : Db)
      → consume_lots key account.id (earlier usable account.credit_expires_at lots) amount db
        ≡ ok (left, db1)
      → consume_subscription key account available left db1 ≡ ok (share, db2)
      → consume_lots key account.id
          (others usable account.credit_expires_at lots)
          (left - share)
          db2
        ≡ ok (0, db3)
      → consume key account usable lots available amount db
        ≡ ok (tt, book_subscription key account available share db3)
  unfolding consume
  consume-chain usable lots amount left share db db1 db2 db3 e f g =
      rw (e, ◌>>=◌) (rw (f, ◌>>=◌) (rw (g, ◌>>=◌)))
