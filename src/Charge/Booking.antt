-- ===== src/Charge/Booking.antt =====
-- What a charge that has been paid leaves in the tables (`charge` of typescript/src/credits.ts).
use mathlib.Core.Path.{ap₂, subst}
use stripe_entitlements_fast.Base.{
  ℕ, ◌+◌, ◌-◌, ◌≤◌, ◌≡◌, refl, sym, ap, ◌∙◌, ==_iff, List, [], ◌∷◌, ◌++◌, false, some, arith, ◌==◌,
  ltb, if◌then◌else◌, find, exists, update, sum_of, Bool-cases, inl, inr,
}
use stripe_entitlements_fast.Store.{Db, Account, Lot, Debit, usage}
use stripe_entitlements_fast.Store.Tables.Updates.{find-some, find-update_self}
use stripe_entitlements_fast.Spendable.{credits_are_spendable}
use stripe_entitlements_fast.Funding.{pack_balance_atoms}
use stripe_entitlements_fast.Charge.{book_subscription}
use stripe_entitlements_fast.Charge.Lots.{worth}
use stripe_entitlements_fast.Charge.Sources.{Pays}
use stripe_entitlements_fast.Charge.Expiry.{
  balance_of, credits_of, pack_balance-worth, expired_db-worth, claimed_db,
}

-- the account's row after its share is booked
abbrev pub booked : Account → ℕ → Account
booked row share = record row { credits_balance = row.credits_balance - share }

find-append :
    (key : ℕ) (rows : List Debit) (d : Debit)
    → exists (λ e. e.key == key) rows ≡ false
    → d.key ≡ key
    → find (λ e. e.key == key) (rows ++ d ∷ []) ≡ some d
find-append key [] d new e = ground arith
find-append key (x ∷ xs) d new e = ground (arith, find-append key xs d)

-- What a charge has done: the account keeps everything but its balance, its credits are lower by the
-- amount, the allocations are higher by it, and the key is taken by the debit.
pub record Charges (account_id amount key : ℕ) (row : Account) (db db' : Db) : Type 0 where
  pub share : ℕ
  pub account : find (λ a. a.id == account_id) db'.accounts ≡ some (booked row share)
  pub credits : credits_of (booked row share) db' + amount ≡ credits_of row db
  pub allocated :
      sum_of (λ a. a.amount) db'.allocations ≡ sum_of (λ a. a.amount) db.allocations + amount
  pub debit :
      find (λ d. d.key == key) db'.debits
      ≡ some (record {
        key = key;
        account_id = row.id;
        amount = amount;
        grant_epoch = row.grant_epoch;
        kind = usage;
        restored = 0;
        created_at = db.started;
        refunded = false;
      })
  pub clock : db'.clock ≡ db.clock

module _ (account_id amount key : ℕ) (row : Account) where
  -- booking the share changes neither the lots nor the debits
  book-keeps :
      (available share : ℕ) (db1 : Db)
      → let b = book_subscription key row available share db1 in
        (b.lots ≡ db1.lots)
        × (b.allocations ≡ db1.allocations)
        × (b.debits ≡ db1.debits)
        × (b.clock ≡ db1.clock)
  unfolding book_subscription
  book-keeps available share db1 = elim (Bool-cases (ltb 0 share)) [
    | inl some_share ↦ rw some_share (refl, refl, refl, refl)
    | inr no_share ↦ rw no_share (refl, refl, refl, refl)
  ]

  book-account :
      (share : ℕ) (db db1 : Db)
      → find (λ a. a.id == account_id) db1.accounts ≡ some row
      → share ≤ balance_of row db
      → find
          (λ a. a.id == account_id)
          (book_subscription key row (balance_of row db) share db1).accounts
        ≡ some (booked row share)
  unfolding book_subscription
  book-account share db db1 found le = elim (Bool-cases (ltb 0 share)) [
    | inl some_share ↦
        let same_id : row.id ≡ account_id =
          (==_iff row.id account_id).0
            (find-some (λ (a : Account). a.id == account_id) db1.accounts row found) in
        let full : balance_of row db - share ≡ row.credits_balance - share = ground arith in
        let found' : find (λ a. a.id == row.id) db1.accounts ≡ some row =
          subst (λ k. find (λ a. a.id == k) db1.accounts ≡ some row) (sym same_id) found in
        let after =
          update (λ (a : Account). a.id == row.id)
            (λ a. record a { credits_balance = balance_of row db - share }) db1.accounts in
        rw some_share (
          subst (λ k. find (λ a. a.id == k) after ≡ some (booked row share)) same_id
            (find-update_self (λ (a : Account). a.id == row.id)
                (λ a. record a { credits_balance = balance_of row db - share }) db1.accounts row
                (λ r. refl) found'
              ∙ ap (λ n. some (record row { credits_balance = n })) full))
    | inr no_share ↦
        rw no_share
          (found ∙ ap (λ n. some (record row { credits_balance = n })) (ground (arith, no_share)))
  ]

  booked-balance :
      (share : ℕ) (db : Db)
      → share ≤ balance_of row db
      → balance_of (booked row share) db + share ≡ balance_of row db
  unfolding credits_are_spendable
  booked-balance share db le = ground arith

  pub book-Charges :
      (share : ℕ) (db db1 : Db)
      → find (λ a. a.id == account_id) db.accounts ≡ some row
      → exists (λ d. d.key == key) db.debits ≡ false
      → share ≤ balance_of row db
      → Pays row.id db.clock amount share (claimed_db row amount key db) db1
      → Charges account_id amount key row db
          (book_subscription key row (balance_of row db) share db1)
  book-Charges share db db1 found new le p =
      let b = book_subscription key row (balance_of row db) share db1 in
      let keeps = book-keeps (balance_of row db) share db1 in
      let clock : b.clock ≡ db.clock = keeps.3 ∙ p.clock in
      let packs : pack_balance_atoms row.id b.clock b ≡ sum_of (worth row.id db.clock) db1.lots =
        pack_balance-worth row.id b.clock b
        ∙ ap₂ (λ c (l : List Lot). sum_of (worth row.id c) l) clock keeps.0 in
      let balance : balance_of (booked row share) b ≡ balance_of (booked row share) db =
        ap
          (λ c.
            if credits_are_spendable (booked row share) c then row.credits_balance - share else 0)
          clock in
      record {
        share = share;
        account = book-account share db db1 (rw p.accounts found) le;
        credits = omega (
          arith,
          packs,
          balance,
          booked-balance share db le,
          p.spent,
          expired_db-worth row.id db,
          pack_balance-worth row.id db.clock db,
        );
        allocated = ap (λ l. sum_of (λ a. a.amount) l) keeps.1 ∙ p.allocated;
        debit =
            ap (find (λ d. d.key == key)) (keeps.2 ∙ p.debits)
            ∙ find-append key db.debits _ new refl;
        clock = clock;
      }
