-- ===== src/Annual/Grants/Booking.antt =====
-- The grant of one slot: the account, the ledger, and the pack debts that it pays (`grantDue` of
-- typescript/src/annual.ts).
use Prim.Native.Nat.{min}
use stripe_entitlements_fast.Base.{
  ℕ, suc, ◌-◌, ◌+◌, ◌≡◌, ◌≢◌, refl, ap, ◌∙◌, [], ◌∷◌, ◌++◌, false, some, arith, ◌==◌, ltb, find,
  exists, update, if◌then◌else◌,
}
use stripe_entitlements_fast.Catalog.{Plan}
use stripe_entitlements_fast.Store.{Db, Account, ok, pack_debt_event, ◌>>=◌}
use stripe_entitlements_fast.Store.Tables.Updates.{find-update, find-update_self}
use stripe_entitlements_fast.Store.Tables.Pending.{IsUnique}
use stripe_entitlements_fast.Funding.Rounds.{of_order, order_of, IsFresh, owed}
use stripe_entitlements_fast.Funding.FromSubscription.{
  CollectsFromBalance, collect_pack_debts_from_subscription-CollectsFromBalance,
}
use stripe_entitlements_fast.Annual.Matching.{handled}
use stripe_entitlements_fast.Annual.Incidents.{resolve_failure}
use stripe_entitlements_fast.Annual.Grants.{
  least, slot_end, granted, is_slot, grant_entry, grant_slot,
}

module _ (add_months : ℕ → ℕ → ℕ) where
  -- the ledger and the invoices after a grant
  abbrev booked : Account → Plan → ℕ → ℕ → Db → Db
  booked a plan invoice slot db = record db {
    accounts = update (λ r. r.id == a.id) (granted add_months plan slot) db.accounts;
    ledger = db.ledger ++ grant_entry add_months a plan invoice slot ∷ [];
    invoices =
        update (λ i. i.id == invoice)
          (λ i. record i {
            grants_issued = if ltb i.grants_issued slot then slot else i.grants_issued;
          })
          db.invoices;
  }

  booked-IsFresh :
      (a : Account) (plan : Plan) (invoice slot : ℕ) (db : Db)
      → IsFresh db
      → IsFresh (booked a plan invoice slot db)
  booked-IsFresh a plan invoice slot db f = record { unused = f.unused; apart = f.apart }

  -- What a grant leaves: the slot is counted, and what the pack debts leave of the month's credits is
  -- the new balance.
  pub record Grants (a : Account) (plan : Plan) (slot : ℕ) (db later : Db) : Type 0 where
    pub account :
        find (λ r. r.id == a.id) later.accounts
        ≡ some (record a {
          credits_balance = plan.monthly_credits - min plan.monthly_credits (owed a.id db);
          grant_epoch = suc a.grant_epoch;
          grants_issued = slot;
          credit_expires_at =
              least add_months a.entitlement_period_end (slot_end add_months a.annual_anchor slot);
        })
    pub debts : owed a.id later + min plan.monthly_credits (owed a.id db) ≡ owed a.id db
    pub others :
        (j : ℕ)
        → j ≢ a.id
        → find (λ r. r.id == j) later.accounts ≡ find (λ r. r.id == j) db.accounts

  settled-Grants :
      (a : Account) (plan : Plan) (invoice slot : ℕ) (db : Db) (collected : ℕ) (later : Db)
      → CollectsFromBalance a.id
          (suc a.grant_epoch)
          (pack_debt_event invoice slot)
          (granted add_months plan slot a)
          (booked a plan invoice slot db)
          collected
          later
      → Grants a plan slot db (resolve_failure a.id later)
  unfolding resolve_failure
  settled-Grants a plan invoice slot db collected later c = record {
    account =
        c.balance
        ∙ ap
            (λ n. some (record (granted add_months plan slot a) {
              credits_balance = plan.monthly_credits - n;
            }))
            c.amount;
    debts = omega (arith, c.debts, c.amount);
    others = λ j ne.
        c.others j ne
        ∙ find-update (λ (r : Account). r.id == j) (λ r. r.id == a.id)
            (granted add_months plan slot) db.accounts (λ r. refl) (λ r h. ground arith);
  }

  pub grant_slot-Grants :
      (a : Account) (plan : Plan) (invoice slot : ℕ) (db : Db)
      → find (λ r. r.id == a.id) db.accounts ≡ some a
      → IsFresh db
      → IsUnique of_order order_of db.pack_debts
      → exists (is_slot add_months invoice slot) db.ledger ≡ false
      → (later : Db) × (grant_slot add_months a plan invoice slot db ≡ ok (handled slot, later))
        × Grants a plan slot db later
  unfolding grant_slot
  grant_slot-Grants a plan invoice slot db found f u new =
      let row = granted add_months plan slot a in
      let mid = booked a plan invoice slot db in
      let mid_found : find (λ r. r.id == a.id) mid.accounts ≡ some row =
        find-update_self (λ (r : Account). r.id == a.id) (granted add_months plan slot) db.accounts
          a (λ r. refl) found in
      let c =
        collect_pack_debts_from_subscription-CollectsFromBalance a.id (suc a.grant_epoch)
          (pack_debt_event invoice slot) mid row (booked-IsFresh a plan invoice slot db f) u
          mid_found in
      (
        resolve_failure a.id c.1,
        rw (new, ◌>>=◌, c.2) refl,
        settled-Grants a plan invoice slot db c.0 c.1 c.3,
      )
