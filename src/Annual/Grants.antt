-- ===== src/Annual/Grants.antt =====
-- The slots of an annual plan and their grant (`grantDue` of typescript/src/annual.ts).
pub mod Slots
pub mod Booking
pub mod Once
use stripe_entitlements_fast.Base.{
  ℕ, zero, suc, ◌+◌, ◌*◌, String, List, [], ◌∷◌, ◌++◌, Bool, true, false, Option, none, some, ◌&&◌,
  ◌||◌, not, ◌==◌, ltb, leb, smaller, str_eq, if◌then◌else◌, find, exists, update, sub_ℕ,
}
use stripe_entitlements_fast.Catalog.{
  Interval, month, year, Plan, Catalog, lookup_key, parse_lookup_key,
}
use stripe_entitlements_fast.Store.{
  Db, Account, LedgerEntry, EventTag, annual_event, pack_debt_event, subscription_grant, Tx, pure,
  get_db, modify, raise_if, unique_violation, ◌>>=◌, ◌>>◌,
}
use stripe_entitlements_fast.Funding.{collect_pack_debts_from_subscription}
use stripe_entitlements_fast.Annual.Matching.{
  Snapshot, Reason, account_missing, plans_differ, slot_already_granted, invoice_missing,
  invoice_closed, Outcome, ignored, replayed, handled, is_some_eq, early_refusal, matched_plan,
}
use stripe_entitlements_fast.Annual.Incidents.{record_mismatch, resolve_mismatch, resolve_failure}

-- `coalesce(requested, clock_timestamp())`
abbrev pub time_or : Option ℕ → ℕ → ℕ
time_or none clock = clock
time_or (some t) clock = t

module _ (add_months : ℕ → ℕ → ℕ) where
  -- `max(slot)` of the slots up to k that begin at the instant or before, 0 where there is none
  abbrev pub last_begun : ℕ → ℕ → ℕ → ℕ
  last_begun anchor now zero = 0
  last_begun anchor now (suc k) =
      let rest = last_begun anchor now k in
      if leb (add_months anchor (suc k)) now then suc k else rest

  abbrev pub begun : Option ℕ → ℕ → ℕ
  begun none now = 0
  begun (some anchor) now = last_begun anchor now 12

  -- `least(coalesce(max(slot),0)+1, allowed, 12)`
  unfoldable pub target_slot : Account → ℕ → ℕ
  target_slot a now = smaller (smaller (suc (begun a.annual_anchor now)) a.grants_allowed) 12

  -- `least`, which ignores nulls
  abbrev pub least : Option ℕ → Option ℕ → Option ℕ
  least none b = b
  least a none = a
  least (some a) (some b) = some (smaller a b)

  abbrev pub slot_end : Option ℕ → ℕ → Option ℕ
  slot_end none slot = none
  slot_end (some anchor) slot = some (add_months anchor slot)

  abbrev pub granted : Plan → ℕ → Account → Account
  granted plan slot a = record a {
    credits_balance = plan.monthly_credits;
    grant_epoch = suc a.grant_epoch;
    grants_issued = slot;
    credit_expires_at = least a.entitlement_period_end (slot_end a.annual_anchor slot);
  }

  abbrev pub is_slot : ℕ → ℕ → LedgerEntry → Bool
  is_slot invoice slot e = is_some_eq e.invoice (some invoice) && is_some_eq e.slot (some slot)

  abbrev pub grant_entry : Account → Plan → ℕ → ℕ → LedgerEntry
  grant_entry account plan invoice slot = record {
    account_id = account.id;
    delta = sub_ℕ plan.monthly_credits account.credits_balance;
    balance_after = plan.monthly_credits;
    entitlement_units = plan.monthly_credits;
    reason = subscription_grant;
    grant_epoch = suc account.grant_epoch;
    event = annual_event invoice slot;
    invoice = some invoice;
    slot = some slot;
  }

  -- the grant of a slot, with the unique index on an invoice and a slot of the ledger
  unfoldable pub grant_slot : Account → Plan → ℕ → ℕ → Tx Outcome
  grant_slot account plan invoice slot = do
    modify (λ db. record db {
      accounts = update (λ a. a.id == account.id) (granted plan slot) db.accounts;
    })
    current ← get_db
    raise_if (exists (is_slot invoice slot) current.ledger) unique_violation
    modify (λ db. record db {
      ledger = db.ledger ++ grant_entry account plan invoice slot ∷ [];
      invoices =
          update (λ i. i.id == invoice)
            (λ i. record i {
              grants_issued = if ltb i.grants_issued slot then slot else i.grants_issued;
            })
            db.invoices;
    })
    collected ←
        collect_pack_debts_from_subscription account.id (suc account.grant_epoch)
          (pack_debt_event invoice slot)
    modify (resolve_failure account.id)
    pure (handled slot)

  abbrev pub stop_grants : ℕ → Db → Db
  stop_grants account db = record db {
    accounts =
        update (λ a. a.id == account) (λ a. record a { grants_allowed = a.grants_issued })
          db.accounts;
  }

  -- the checks of the funding invoice before a slot is granted
  unfoldable pub grant_funded : Account → Plan → ℕ → Tx Outcome
  grant_funded account plan slot db = elim account.funding_invoice [
    | none ↦ pure (ignored invoice_missing) db
    | some invoice ↦ elim (find (λ i. i.id == invoice) db.invoices) [
      | none ↦ pure (ignored invoice_missing) db
      | some i ↦
          if i.fully_refunded || i.disputed
          then pure (ignored invoice_closed) (stop_grants account.id db)
          else grant_slot account plan invoice slot db
    ]
  ]

  -- what follows once the remote plan matches
  unfoldable pub grant_matched : Account → Plan → ℕ → Tx Outcome
  grant_matched account plan now db =
      let slot = target_slot account now in
      let matched = resolve_mismatch account db in
      if leb slot account.grants_issued
      then pure (replayed slot_already_granted) (resolve_failure account.id matched)
      else grant_funded account plan slot matched

  -- `grantDue`; without a requested time the clock of the database counts
  unfoldable pub grant_due : Catalog → String → ℕ → Option ℕ → Snapshot → Tx Outcome
  grant_due catalog product_line account_id requested snapshot db =
      let now = time_or requested db.clock in
      elim (find (λ a. a.id == account_id) db.accounts) [
        | none ↦ pure (ignored account_missing) db
        | some account ↦ elim (early_refusal account snapshot now) [
          | some reason ↦ pure (ignored reason) db
          | none ↦ elim (matched_plan catalog product_line account snapshot) [
            | none ↦ pure (ignored plans_differ) (record_mismatch account db)
            | some plan ↦ grant_matched account plan now db
          ]
        ]
      ]
