-- ===== src/Refund/Service/Settled.antt =====
-- A refund is terminal (`refund` of typescript/src/credits.ts): once it has succeeded, its debit says so.
use stripe_entitlements_fast.Base.{
  ℕ, ◌+◌, ◌-◌, ◌≡◌, refl, ap, sym, ◌∙◌, List, true, some, ◌||◌, arith, ◌==◌, ltb, if◌then◌else◌,
  find, update, inl, inr, Bool-cases, Option-cases, ==_iff,
}
use mathlib.Core.Path.{subst}
use stripe_entitlements_fast.Store.{
  Db, Account, Debit, Result, ok, err, pure, or_raise, row_missing, ◌>>=◌,
}
use stripe_entitlements_fast.Store.Frames.{After}
use stripe_entitlements_fast.Store.Tables.Updates.{find-some, find-update_self}
use stripe_entitlements_fast.Spendable.{max_credit_atoms}
use stripe_entitlements_fast.Charge.{CreditResult, refunded, epoch_expired, is_usage}
use stripe_entitlements_fast.Funding.Debits.{Holds}
use stripe_entitlements_fast.Refund.Collections.{checked_add_atoms}
use stripe_entitlements_fast.Refund.Service.{total_balance, finish_refund}

module _ (key account_id : ℕ) where
  -- The debit of the key is a charge of the account, and its refund is terminal.
  pub record IsSettled (r : CreditResult) (later : Db) : Type 0 where
    pub row : Account
    pub debit : Debit
    pub account : find (λ a. a.id == account_id) later.accounts ≡ some row
    pub found : find (λ d. d.key == key) later.debits ≡ some debit
    pub owner : (debit.account_id == row.id) ≡ true
    pub charge : is_usage debit.kind ≡ true
    pub terminal : debit.refunded ≡ true
    pub amount : r.requested ≡ debit.amount
    pub restored : r.restored ≡ debit.restored

  -- what is known of an outcome of the refund
  abbrev pub Settles : Result (CreditResult × Db) → Type 0
  Settles (ok (r, later)) = IsSettled r later
  Settles (err e) = Unit

  find_by_id :
      (a b : Account) (rows : List Account)
      → a.id ≡ account_id
      → find (λ r. r.id == a.id) rows ≡ some b
      → (find (λ r. r.id == account_id) rows ≡ some b) × (b.id ≡ account_id)
  find_by_id a b rows e h =
      let moved = subst (λ n. find (λ r. r.id == n) rows ≡ some b) e h in
      (moved, (==_iff b.id account_id).0 (find-some (λ r. r.id == account_id) rows b moved))

  module _ (account : Account) (debit : Debit) (id : account.id ≡ account_id) (k : debit.key ≡ key)
      (own : (debit.account_id == account.id) ≡ true)
      (usage_kind : is_usage debit.kind ≡ true) where
    -- the terminal update
    abbrev terminal_db : ℕ → Db → Db
    terminal_db persisted db = record db {
      debits =
          update (λ d. d.key == debit.key) (λ d. record d { restored = persisted; refunded = true })
            db.debits;
    }

    finished :
        (n persisted : ℕ) (db : Db)
        → Holds key debit.account_id debit.amount debit.kind db
        → Settles (
            (or_raise (find (λ a. a.id == account.id) db.accounts) row_missing >>= (λ refreshed.
                pure (record {
                  outcome = if ltb 0 n then refunded else epoch_expired;
                  balance = total_balance refreshed (terminal_db persisted db);
                  requested = debit.amount;
                  restored = persisted;
                })))
              (terminal_db persisted db))
    finished n persisted db h = elim (Option-cases (find (λ a. a.id == account.id) db.accounts)) [
      | inl missing ↦ rw missing tt
      | inr (refreshed, there) ↦
          let row = find_by_id account refreshed db.accounts id there in
          let e : (h.debit.account_id == refreshed.id) ≡ true =
            ground (arith, own, h.owner, id, row.1) in
          rw there (record {
            row = refreshed;
            debit = record h.debit { restored = persisted; refunded = true };
            account = row.0;
            found = rw k (
                find-update_self (λ (d : Debit). d.key == key)
                  (λ d. record d { restored = persisted; refunded = true }) db.debits h.debit
                  (λ r. refl) h.found);
            owner = e;
            charge = ap is_usage h.sort ∙ usage_kind;
            terminal = refl;
            amount = sym h.sum;
            restored = refl;
          })
    ]

    finish_refund-Settles :
        (n : ℕ) (db : Db)
        → Holds key debit.account_id debit.amount debit.kind db
        → Settles (finish_refund account debit n db)
    unfolding finish_refund checked_add_atoms
    finish_refund-Settles n db h =
        elim (Bool-cases (ltb max_credit_atoms debit.restored || ltb max_credit_atoms n)) [
          | inl beyond ↦ rw beyond tt
          | inr each_fits ↦
              rw each_fits (elim (Bool-cases (ltb (max_credit_atoms - n) debit.restored)) [
                | inl beyond ↦ rw beyond tt
                | inr sum_fits ↦
                    rw sum_fits (elim (Bool-cases (ltb debit.amount (debit.restored + n))) [
                      | inl too_much ↦ rw too_much tt
                      | inr fits ↦ rw fits (finished n (debit.restored + n) db h)
                    ])
              ])
        ]

    -- a restoration that ended well comes to the terminal update
    pub restored-Settles :
        (r : Result (ℕ × Db))
        → After (Holds key debit.account_id debit.amount debit.kind) r
        → Settles (elim r [ ok (n, db) ↦ finish_refund account debit n db | err e ↦ err e ])
    restored-Settles (ok (n, db)) h = finish_refund-Settles n db h
    restored-Settles (err e) h = tt
