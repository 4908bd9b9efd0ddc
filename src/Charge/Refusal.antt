-- ===== src/Charge/Refusal.antt =====
-- The error of a charge that the spendable credits do not cover (`charge` of
-- typescript/src/credits.ts), described by the rows of the account alone.
use mathlib.Core.Path.{subst}
use stripe_entitlements_fast.Base.{
  ℕ, ◌≤◌, ◌<◌, ◌≡◌, refl, sym, ap, ◌∙◌, List, [], ◌∷◌, Bool, true, false, not, some, ◌&&◌, ◌||◌,
  arith, ◌==◌, ltb, if◌then◌else◌, find, exists, update, select, length, sum_of, inl, inr,
  Bool-cases,
}
use stripe_entitlements_fast.Store.{
  Db, Account, Lot, Error, err, subscription_not_active, entitlement_revoked, credit_window_expired,
  insufficient_credits,
}
use stripe_entitlements_fast.Store.Tables.{le_pair}
use stripe_entitlements_fast.Store.Tables.Sorting.{sum_of-order_by, sum_of-select}
use stripe_entitlements_fast.Spendable.{max_credit_atoms, is_active, credits_are_spendable}
use stripe_entitlements_fast.Funding.{is_lot_active, is_spendable_lot, pack_balance_atoms}
use stripe_entitlements_fast.Charge.{charge, refusal, is_lot_expired, expires_now, expire_lot}
use stripe_entitlements_fast.Charge.Expiry.{
  credits_of, lots_of, lots_of-sum, expired_db, pack_window_expired,
}
use stripe_entitlements_fast.Charge.Conservation.{charge-refused}

-- an open lot of the account, and a lot of the account that is over by the clock
abbrev pub is_open : Account → ℕ → Lot → Bool
is_open row clock l = l.account_id == row.id && is_lot_active l.status && ltb clock l.expires_at

abbrev pub is_over : Account → ℕ → Lot → Bool
is_over row clock l =
    l.account_id == row.id
    && (is_lot_expired l.status || (is_lot_active l.status && not (ltb clock l.expires_at)))

-- the account has a subscription to spend or an open lot, or a lot that is over
abbrev pub has_funding : Account → Db → Bool
has_funding row db = credits_are_spendable row db.clock || exists (is_open row db.clock) db.lots

abbrev pub has_lost_pack : Account → Db → Bool
has_lost_pack row db = exists (is_over row db.clock) db.lots

-- The error that an account is refused with.
pub data Refuses (row : Account) (db : Db) : Error → Type 0 where
  insufficient : has_funding row db ≡ true → Refuses row db insufficient_credits
  lapsed :
      has_funding row db ≡ false
      → has_lost_pack row db ≡ true
      → Refuses row db credit_window_expired
  inactive :
      has_funding row db ≡ false
      → has_lost_pack row db ≡ false
      → is_active row.status ≡ false
      → Refuses row db subscription_not_active
  revoked :
      has_funding row db ≡ false
      → has_lost_pack row db ≡ false
      → is_active row.status ≡ true
      → row.entitlement_revoked ≡ true
      → Refuses row db entitlement_revoked
  ended :
      has_funding row db ≡ false
      → has_lost_pack row db ≡ false
      → is_active row.status ≡ true
      → row.entitlement_revoked ≡ false
      → Refuses row db credit_window_expired

length-sum_of : (rows : List Lot) → length rows ≡ sum_of (λ l. 1) rows
length-sum_of [] = refl
length-sum_of (l ∷ rows) = omega (arith, length-sum_of rows)

-- a charge finds a lot exactly where an open one stands, since expiry takes none of them
open_lots :
    (row : Account) (clock : ℕ) (rows : List Lot)
    → (sum_of
          (λ l. if is_spendable_lot row.id clock l then 1 else 0)
          (update (expires_now row.id clock) expire_lot rows)
        == 0)
      ≡ not (exists (is_open row clock) rows)
open_lots row clock [] = refl
open_lots row clock (l ∷ rows) = ground (arith, open_lots row clock rows)

lots_of-open :
    (row : Account) (db : Db)
    → (length (lots_of row db) == 0) ≡ not (exists (is_open row db.clock) db.lots)
lots_of-open row db =
    ap (λ n. n == 0)
      (length-sum_of (lots_of row db)
        ∙ sum_of-order_by (λ l. 1) (λ a b. le_pair a.expires_at a.id b.expires_at b.id)
            (select (is_spendable_lot row.id db.clock) (expired_db row.id db).lots)
        ∙ sum_of-select (λ l. 1) (is_spendable_lot row.id db.clock) (expired_db row.id db).lots)
    ∙ open_lots row db.clock db.lots

lost_packs :
    (row : Account) (clock : ℕ) (rows : List Lot)
    → (exists (expires_now row.id clock) rows
        || exists (λ l. l.account_id == row.id && is_lot_expired l.status) rows)
      ≡ exists (is_over row clock) rows
lost_packs row clock [] = refl
lost_packs row clock (l ∷ rows) = ground (arith, lost_packs row clock rows)

sum_of-empty : (rows : List Lot) → (length rows == 0) ≡ true → sum_of (λ l. l.remaining) rows ≡ 0
sum_of-empty [] h = refl
sum_of-empty (l ∷ rows) h = absurd (ground (arith, h))

some_funding : (z e u : Bool) → (u || e) ≡ true → (z && not e && not u) ≡ false
some_funding z e u h = ground (arith, h)

no_usable : (u e : Bool) → (u || e) ≡ false → u ≡ false
no_usable u e h = ground (arith, h)

no_open : (u e : Bool) → (u || e) ≡ false → e ≡ false
no_open u e h = ground (arith, h)

module _ (row : Account) (db : Db) where
  usable : Bool
  usable = credits_are_spendable row db.clock

  -- the error of the code
  error : Error
  error = refusal row usable (credits_of row db) (lots_of row db) (pack_window_expired row.id db)

  refusal-funded : has_funding row db ≡ true → error ≡ insufficient_credits
  unfolding error usable refusal
  refusal-funded h = rw (lots_of-open row db, some_funding (credits_of row db == 0) _ _ h) refl

  credits_of-unfunded : has_funding row db ≡ false → (credits_of row db == 0) ≡ true
  credits_of-unfunded h =
      let none_open : (length (lots_of row db) == 0) ≡ true =
        lots_of-open row db ∙ ap not (no_open _ _ h) in
      let no_packs : pack_balance_atoms row.id db.clock db ≡ 0 =
        sym (lots_of-sum row db) ∙ sum_of-empty (lots_of row db) none_open in
      rw (no_usable (credits_are_spendable row db.clock) _ h, no_packs) refl

  refusal-unfunded :
      has_funding row db ≡ false
      → error ≡ (
          if not (is_active row.status) && not (has_lost_pack row db)
          then subscription_not_active
          else if row.entitlement_revoked && not (has_lost_pack row db)
          then entitlement_revoked
          else credit_window_expired)
  unfolding error usable refusal
  refusal-unfunded h =
      rw
        (
          lots_of-open row db,
          credits_of-unfunded h,
          no_usable (credits_are_spendable row db.clock) _ h,
          no_open (credits_are_spendable row db.clock) _ h,
          lost_packs row db.clock db.lots,
        )
        refl

  unfunded-Refuses :
      has_funding row db ≡ false
      → (a r l : Bool) → is_active row.status ≡ a
      → row.entitlement_revoked ≡ r
      → has_lost_pack row db ≡ l
      → Refuses row db (
          if not a && not l
          then subscription_not_active
          else if r && not l
          then entitlement_revoked
          else credit_window_expired)
  unfunded-Refuses u true true true on taken lost = lapsed u lost
  unfunded-Refuses u true false true on taken lost = lapsed u lost
  unfunded-Refuses u false true true on taken lost = lapsed u lost
  unfunded-Refuses u false false true on taken lost = lapsed u lost
  unfunded-Refuses u true true false on taken lost = revoked u lost on taken
  unfunded-Refuses u true false false on taken lost = ended u lost on taken
  unfunded-Refuses u false r false on taken lost = inactive u lost on

  refusal-Refuses : Refuses row db error
  refusal-Refuses = elim (Bool-cases (has_funding row db)) [
    | inl funded ↦ subst (Refuses row db) (sym (refusal-funded funded)) (insufficient funded)
    | inr unfunded ↦ subst (Refuses row db) (sym (refusal-unfunded unfunded)) (
        unfunded-Refuses unfunded (is_active row.status) row.entitlement_revoked
          (has_lost_pack row db) refl refl refl)
  ]

-- A charge of an account that exists, with a new key and an amount in the range of a bigint that the
-- spendable credits do not cover, fails, and the error says why: credits
-- are insufficient where the subscription can be spent or a lot is open; else the window has expired
-- where some pack of the account is over; else it is the subscription, which is not active, is revoked,
-- or has ended.
pub charge-Refuses :
    (account_id amount key : ℕ) (db : Db) (row : Account)
    → find (λ a. a.id == account_id) db.accounts ≡ some row
    → exists (λ d. d.key == key) db.debits ≡ false
    → amount ≤ max_credit_atoms
    → credits_of row db < amount
    → (e : Error) × (charge account_id amount key db ≡ err e) × Refuses row db e
unfolding error usable
charge-Refuses account_id amount key db row found new fits short = (
  error row db,
  charge-refused account_id amount key db row found new fits short,
  refusal-Refuses row db,
)
