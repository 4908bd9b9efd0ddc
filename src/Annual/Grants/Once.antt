-- ===== src/Annual/Grants/Once.antt =====
-- A slot of an annual plan is granted once (`grantDue` of typescript/src/annual.ts).
use Prim.Native.Nat.{min}
use stripe_entitlements_fast.Base.{
  ℕ, ◌-◌, ◌≤◌, ◌<◌, ◌≡◌, refl, String, true, false, Option, some, none, arith, ◌==◌, leb, le→leb,
  ◌||◌, find, exists,
}
use stripe_entitlements_fast.Catalog.{Catalog, Plan}
use stripe_entitlements_fast.Store.{Db, Account, InvoiceState, Result, ok}
use stripe_entitlements_fast.Store.Tables.Pending.{IsUnique}
use stripe_entitlements_fast.Funding.Rounds.{of_order, order_of, IsFresh, owed}
use stripe_entitlements_fast.Annual.Matching.{
  Snapshot, Outcome, handled, replayed, slot_already_granted, early_refusal, matched_plan,
}
use stripe_entitlements_fast.Annual.Incidents.{resolve_mismatch, resolve_failure}
use stripe_entitlements_fast.Annual.Grants.{
  time_or, target_slot, granted, is_slot, grant_slot, grant_funded, grant_matched, grant_due,
}
use stripe_entitlements_fast.Annual.Grants.Booking.{Grants, grant_slot-Grants}

module _ (add_months : ℕ → ℕ → ℕ) where
  -- The invoice that funds the slots is known and open.
  pub record IsFunded (a : Account) (db : Db) : Type 0 where
    pub invoice : ℕ
    pub state : InvoiceState
    pub funds : a.funding_invoice ≡ some invoice
    pub known : find (λ i. i.id == invoice) db.invoices ≡ some state
    pub still_open : (state.fully_refunded || state.disputed) ≡ false

  -- A grant is due: the account and the remote subscription agree, the next slot has not been issued,
  -- and the ledger holds no entry of the slot.
  pub record IsDue (catalog : Catalog) (line : String) (a : Account) (plan : Plan) (s : Snapshot)
      (now : ℕ) (db : Db) : Type 0 where
    pub found : find (λ r. r.id == a.id) db.accounts ≡ some a
    pub admitted : early_refusal a s now ≡ none
    pub matched : matched_plan catalog line a s ≡ some plan
    pub due : a.grants_issued < target_slot add_months a now
    pub funded : IsFunded a db
    pub new :
        exists (is_slot add_months funded.invoice (target_slot add_months a now)) db.ledger ≡ false
    pub fresh : IsFresh db
    pub unique : IsUnique of_order order_of db.pack_debts

  module _ (catalog : Catalog) (line : String) (a : Account) (plan : Plan) (s : Snapshot) where
    -- where a grant is due, the call comes down to the grant of the slot
    grant_due-due :
        (requested : Option ℕ) (db : Db)
        → let now = time_or requested db.clock in
          (d : IsDue catalog line a plan s now db) (r : Result (Outcome × Db))
          → grant_slot add_months a plan d.funded.invoice
              (target_slot add_months a now)
              (resolve_mismatch a db)
            ≡ r
          → grant_due add_months catalog line a.id requested s db ≡ r
    unfolding resolve_mismatch grant_due grant_matched grant_funded
    grant_due-due requested db d r e =
        let now = time_or requested db.clock in
        let not_issued : leb (target_slot add_months a now) a.grants_issued ≡ false =
          ground (arith, d.due) in
        rw
          (
            grant_due, d.found, d.admitted, d.matched, grant_matched, not_issued, grant_funded,
            d.funded.funds, d.funded.known, d.funded.still_open,
          )
          e

    -- Where a grant is due, the call succeeds and grants the slot that it aims at: the account counts it,
    -- its balance is the credits of the month less the smaller of them and of its pack debts, these
    -- fall by the same amount, and no other account changes.
    pub grant_due-Grants :
        (requested : Option ℕ) (db : Db)
        → let now = time_or requested db.clock in
          IsDue catalog line a plan s now db
          → (later : Db) × (grant_due add_months catalog line a.id requested s db
              ≡ ok (handled (target_slot add_months a now), later))
            × Grants add_months a plan (target_slot add_months a now) db later
    unfolding resolve_mismatch
    grant_due-Grants requested db d =
        let now = time_or requested db.clock in
        let slot = target_slot add_months a now in
        let mid = resolve_mismatch a db in
        let g =
          grant_slot-Grants add_months a plan d.funded.invoice slot mid d.found
            (record { unused = d.fresh.unused; apart = d.fresh.apart }) d.unique d.new in
        (
          g.0,
          grant_due-due requested db d (ok (handled slot, g.0)) g.1,
          record { account = g.2.account; debts = g.2.debts; others = g.2.others },
        )

    -- an account whose target slot has been issued
    grant_due-replayed :
        (requested : Option ℕ) (db : Db) (b : Account)
        → b.id ≡ a.id
        → find (λ r. r.id == a.id) db.accounts ≡ some b
        → early_refusal b s (time_or requested db.clock) ≡ none
        → matched_plan catalog line b s ≡ some plan
        → target_slot add_months b (time_or requested db.clock) ≤ b.grants_issued
        → (final : Db) × (grant_due add_months catalog line a.id requested s db
            ≡ ok (replayed slot_already_granted, final))
          × (final.accounts ≡ db.accounts)
          × (final.ledger ≡ db.ledger)
    unfolding grant_due grant_matched resolve_mismatch resolve_failure
    grant_due-replayed requested db b same found admitted matched le =
        let now = time_or requested db.clock in
        let issued : leb (target_slot add_months b now) b.grants_issued ≡ true =
          le→leb (target_slot add_months b now) b.grants_issued le in
        (
          resolve_failure b.id (resolve_mismatch b db),
          rw (grant_due, found, admitted, matched, grant_matched, issued) refl,
          refl,
          refl,
        )

    -- Where a grant is due, a second call for the same instant replays: it finds the slot granted and
    -- changes neither an account nor the ledger.
    pub grant_due_twice :
        (now : ℕ) (db : Db)
        → IsDue catalog line a plan s now db
        → (later final : Db) × (grant_due add_months catalog line a.id (some now) s db
            ≡ ok (handled (target_slot add_months a now), later))
          × (grant_due add_months catalog line a.id (some now) s later
              ≡ ok (replayed slot_already_granted, final))
          × (final.accounts ≡ later.accounts)
          × (final.ledger ≡ later.ledger)
    unfolding early_refusal matched_plan target_slot
    grant_due_twice now db d =
        let g = grant_due-Grants (some now) db d in
        let slot = target_slot add_months a now in
        let b = record (granted add_months plan slot a) {
          credits_balance = plan.monthly_credits - min plan.monthly_credits (owed a.id db);
        } in
        let again =
          grant_due-replayed (some now) g.0 b refl g.2.account d.admitted d.matched (omega arith) in
        (g.0, again.0, g.1, again.1, again.2, again.3)
