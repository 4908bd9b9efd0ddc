-- ===== src/Refund/Quiet.antt =====
-- The steps of a refund (typescript/src/credits.ts and credit-pack-funding.ts) that touch neither a pack
-- debt nor an account, and that never run out of fuel.
use stripe_entitlements_fast.Base.{
  ℕ, ◌+◌, ◌≡◌, refl, ◌∙◌, List, [], ◌∷◌, Bool, true, false, Option, none, some, inl, inr, arith,
  ◌&&◌, ◌==◌, ltb, leb, if◌then◌else◌, find, exists, update, Bool-cases,
}
use stripe_entitlements_fast.Store.{
  Db, Account, PackDebt, Debit, Lot, Source, Error, stack_overflow, Tx, pure, raise, raise_if,
  get_db, modify, or_raise, ◌>>=◌,
}
use stripe_entitlements_fast.Store.Runs.{
  Runs, bind-Runs, pure-Runs, raise-Runs, raise_if-Runs, modify-Runs,
}
use stripe_entitlements_fast.Funding.{
  insert_debit, insert_allocation, record_debt_collection, take_from_lot,
}
use stripe_entitlements_fast.Refund.{checked_add_atoms, add_refunded, expire_now}

-- the errors other than that of the fuel
abbrev pub is_other : Error → Bool
is_other stack_overflow = false
is_other _ = true

abbrev pub IsOther : Error → Type 0
IsOther e = is_other e ≡ true

-- the tables of pack debts and of accounts
abbrev pub Rows : List PackDebt → List Account → Db → Type 0
Rows debts accounts db = (db.pack_debts ≡ debts) × (db.accounts ≡ accounts)

pub record Quiet {A : Type 0} (m : Tx A) : Type 0 where
  pub quiet :
      (debts : List PackDebt) (accounts : List Account)
      → Runs IsOther (Rows debts accounts) (λ _. Rows debts accounts) m

pub bind-Quiet :
    {A B : Type 0} {m : Tx A} {k : A → Tx B} → Quiet m → ((a : A) → Quiet (k a)) → Quiet (m >>= k)
bind-Quiet p f = record {
  quiet = λ ds as'. bind-Runs IsOther (p.quiet ds as') (λ a. (f a).quiet ds as');
}

pub pure-Quiet : {A : Type 0} (a : A) → Quiet (pure a)
pure-Quiet a = record { quiet = λ ds as'. pure-Runs IsOther a (λ db h. h) }

pub raise-Quiet : {A : Type 0} (e : Error) → IsOther e → Quiet (raise {A = A} e)
raise-Quiet e h = record { quiet = λ ds as'. raise-Runs IsOther e h }

pub get_db-Quiet : Quiet get_db
get_db-Quiet = record { quiet = λ ds as'. record { ends = λ db h. h } }

pub modify-Quiet :
    (f : Db → Db)
    → ((db : Db) → (f db).pack_debts ≡ db.pack_debts)
    → ((db : Db) → (f db).accounts ≡ db.accounts)
    → Quiet (modify f)
modify-Quiet f debts accounts = record {
  quiet = λ ds as'. modify-Runs IsOther f (λ db h. (debts db ∙ h.0, accounts db ∙ h.1));
}

pub if-Quiet : {A : Type 0} (b : Bool) {m n : Tx A} → Quiet m → Quiet n → Quiet (if b then m else n)
if-Quiet true p q = p
if-Quiet false p q = q

-- a guarded update that finds its row, or fails
guarded-Quiet :
    (test : Db → Bool) (f : Db → Db) (e : Error)
    → IsOther e
    → ((db : Db) → (f db).pack_debts ≡ db.pack_debts)
    → ((db : Db) → (f db).accounts ≡ db.accounts)
    → Quiet (λ db. if test db then modify f db else raise e db)
guarded-Quiet test f e other debts accounts = record {
  quiet = λ ds as'. record {
    ends = λ db h. elim (Bool-cases (test db)) [
      | inl holds ↦ rw holds (debts db ∙ h.0, accounts db ∙ h.1)
      | inr fails ↦ rw fails other
    ];
  };
}

insert_debit-Quiet : (d : Debit) → Quiet (insert_debit d)
unfolding insert_debit
insert_debit-Quiet d = record {
  quiet = λ ds as'. record {
    ends = λ db h. elim (Bool-cases (exists (λ e. e.key == d.key) db.debits)) [
      | inl taken ↦ rw taken refl
      | inr unused ↦ rw unused h
    ];
  };
}

drawn-Quiet : (n : Db → ℕ) → Quiet (modify (λ db. record db { drawn = n db }))
drawn-Quiet n = modify-Quiet _ (λ db. refl) (λ db. refl)

pub lots-Quiet : (rows : Db → List Lot) → Quiet (modify (λ db. record db { lots = rows db }))
lots-Quiet rows = modify-Quiet _ (λ db. refl) (λ db. refl)

insert_allocation-Quiet :
    (key account : ℕ) (source : Source) (amount : ℕ)
    → Quiet (modify (insert_allocation key account source amount))
unfolding insert_allocation
insert_allocation-Quiet key account source amount = modify-Quiet _ (λ db. refl) (λ db. refl)

pub or_raise-Quiet : {A : Type 0} (o : Option A) (e : Error) → IsOther e → Quiet (or_raise o e)
or_raise-Quiet none e h = record { quiet = λ ds as'. record { ends = λ db r. h } }
or_raise-Quiet (some a) e h = record { quiet = λ ds as'. record { ends = λ db r. r } }

pub raise_if-Quiet : (b : Bool) (e : Error) → IsOther e → Quiet (raise_if b e)
raise_if-Quiet b e h = record { quiet = λ ds as'. raise_if-Runs IsOther b e h }

pub ruleset quiet_rules = (
  bind-Quiet, pure-Quiet, raise-Quiet, raise_if-Quiet, get_db-Quiet, if-Quiet, or_raise-Quiet,
  lots-Quiet, refl,
)

pub record_debt_collection-Quiet :
    (d : PackDebt) (amount epoch : ℕ) (source : Source)
    → Quiet (record_debt_collection d amount epoch source)
unfolding record_debt_collection
record_debt_collection-Quiet d amount epoch source =
    search (quiet_rules, drawn-Quiet, insert_debit-Quiet, insert_allocation-Quiet) depth 16

pub take_from_lot-Quiet : (lot amount : ℕ) → Quiet (take_from_lot lot amount)
unfolding take_from_lot
take_from_lot-Quiet lot amount = guarded-Quiet _ _ _ refl (λ db. refl) (λ db. refl)

pub add_refunded-Quiet : (allocation amount : ℕ) → Quiet (add_refunded allocation amount)
add_refunded-Quiet allocation amount = guarded-Quiet _ _ _ refl (λ db. refl) (λ db. refl)

pub checked_add_atoms-Quiet : (a b : ℕ) → Quiet (checked_add_atoms a b)
unfolding checked_add_atoms
checked_add_atoms-Quiet a b = search (quiet_rules) depth 12

pub expire_now-Quiet : (lot : Lot) (as_of : ℕ) → Quiet (expire_now lot as_of)
unfolding expire_now
expire_now-Quiet lot as_of = search (quiet_rules) depth 16
