-- ===== src/Store/Frames.antt =====
-- What a transaction preserves, however it branches: the invariants of the database that it keeps when
-- it commits.
use stripe_entitlements_fast.Base.{◌≡◌, refl, Bool, true, false, Option, none, some, if◌then◌else◌}
use stripe_entitlements_fast.Store.Rows.{Db}
use stripe_entitlements_fast.Store.Transaction.{
  Tx, Result, ok, err, Error, pure, raise, raise_if, get_db, modify, or_raise, ◌>>=◌,
}

-- a call that succeeds, and what follows
pub bind-ok :
    {A B : Type 0} (m : Tx A) (k : A → Tx B) (db later : Db) (a : A)
    → m db ≡ ok (a, later)
    → (m >>= k) db ≡ k a later
bind-ok m k db later a h = rw (◌>>=◌, h) refl

module _ (P : Db → Type 0) where
  -- the invariant of what a call commits
  abbrev pub After : {A : Type 0} → Result (A × Db) → Type 0
  After (ok (a, db)) = P db
  After (err e) = Unit

  pub record Preserves {A : Type 0} (m : Tx A) : Type 0 where
    pub after : (db : Db) → P db → After (m db)

  After-bind :
      {A B : Type 0} (r : Result (A × Db)) (k : A → Tx B)
      → After r
      → ((a : A) → Preserves (k a))
      → After (elim r [ ok (a, db) ↦ k a db | err e ↦ err e ])
  After-bind (ok (a, db)) k h f = (f a).after db h
  After-bind (err e) k h f = tt

  pub bind-Preserves :
      {A B : Type 0} {m : Tx A} {k : A → Tx B}
      → Preserves m
      → ((a : A) → Preserves (k a))
      → Preserves (m >>= k)
  bind-Preserves {m = m} {k = k} p f = record {
    after = λ db h. After-bind (m db) k (p.after db h) f;
  }

  pub pure-Preserves : {A : Type 0} (a : A) → Preserves (pure a)
  pure-Preserves a = record { after = λ db h. h }

  pub raise-Preserves : {A : Type 0} (e : Error) → Preserves (raise {A = A} e)
  raise-Preserves e = record { after = λ db h. tt }

  pub raise_if-Preserves : (b : Bool) (e : Error) → Preserves (raise_if b e)
  raise_if-Preserves true e = record { after = λ db h. tt }
  raise_if-Preserves false e = record { after = λ db h. h }

  pub get_db-Preserves : Preserves get_db
  get_db-Preserves = record { after = λ db h. h }

  pub or_raise-Preserves : {A : Type 0} (o : Option A) (e : Error) → Preserves (or_raise o e)
  or_raise-Preserves none e = record { after = λ db h. tt }
  or_raise-Preserves (some a) e = record { after = λ db h. h }

  pub modify-Preserves : (f : Db → Db) → ((db : Db) → P db → P (f db)) → Preserves (modify f)
  modify-Preserves f h = record { after = h }

  pub if-Preserves :
      {A : Type 0} (b : Bool) {m n : Tx A}
      → Preserves m
      → Preserves n
      → Preserves (if b then m else n)
  if-Preserves true p q = p
  if-Preserves false p q = q

  -- a transaction that reads the database that it is given
  pub reads-Preserves :
      {A : Type 0} {m : Db → Tx A} → ((db : Db) → Preserves (m db)) → Preserves (λ db. m db db)
  reads-Preserves p = record { after = λ db h. (p db).after db h }

  pub option-Preserves :
      {A B : Type 0} (o : Option A) {m : Tx B} {k : A → Tx B}
      → Preserves m
      → ((a : A) → Preserves (k a))
      → Preserves (elim o [ none ↦ m | some a ↦ k a ])
  option-Preserves none p q = p
  option-Preserves (some a) p q = q a
