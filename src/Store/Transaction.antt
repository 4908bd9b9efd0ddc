-- ===== src/Store/Transaction.antt =====
-- A transaction: it commits its last state, or it throws, and then the database is rolled back, so
-- that an error carries no state (`Database.transaction` of typescript/src/database.ts).
use stripe_entitlements_fast.Base.{Bool, true, false, Option, none, some}
use stripe_entitlements_fast.Store.Rows.{Db}

-- The errors that the services throw, and the unique violation of an insert.
pub data Error : Type 0 where
  account_not_found debit_not_found owner_mismatch : Error
  slots_out_of_range amount_negative amount_not_decimal amount_not_positive amount_out_of_range
        bigint_out_of_range :
      Error
  key_reused debit_disappeared unique_violation : Error
  subscription_not_active entitlement_revoked credit_window_expired insufficient_credits : Error
  lot_changed allocation_unsatisfied allocation_changed debt_changed : Error
  debt_of_another_account collection_cycle collection_of_another_account : Error
  collection_inconsistent no_reversible_allocation : Error
  lot_missing order_missing restored_exceeds_amount stack_overflow : Error
  row_missing : Error
  invalid_features invalid_limits invalid_credit_amount : Error
  owner_not_found operation_not_found idempotency_conflict : Error
  plan_unknown event_without_object event_without_identity object_without_identity : Error

pub data Result (A : Type 0) : Type 0 where
  ok : A → Result A
  err : Error → Result A

abbrev pub Tx : Type 0 → Type 0
Tx A = Db → Result (A × Db)

infixl 5 ◌>>=◌ ◌>>◌
abbrev pub ◌>>=◌ : {A B : Type 0} → Tx A → (A → Tx B) → Tx B
◌>>=◌ m f db = elim (m db) [ ok (a, db') ↦ f a db' | err e ↦ err e ]

abbrev pub ◌>>◌ : {A B : Type 0} → Tx A → Tx B → Tx B
m >> k = m >>= λ _. k

abbrev pub pure : {A : Type 0} → A → Tx A
pure a db = ok (a, db)

abbrev pub raise : {A : Type 0} → Error → Tx A
raise e db = err e

abbrev pub raise_if : Bool → Error → Tx (Unit {0})
raise_if c e db = elim c [ true ↦ err e | false ↦ ok (tt, db) ]

abbrev pub get_db : Tx Db
get_db db = ok (db, db)

abbrev pub modify : (Db → Db) → Tx (Unit {0})
modify f db = ok (tt, f db)

abbrev pub or_raise : {A : Type 0} → Option A → Error → Tx A
or_raise none e db = err e
or_raise (some a) e db = ok (a, db)

-- The database after a call: what it committed, or what it was.
abbrev pub committed : {A : Type 0} → Tx A → Db → Db
committed m db = elim (m db) [ ok (_, db') ↦ db' | err _ ↦ db ]
