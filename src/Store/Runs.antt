-- ===== src/Store/Runs.antt =====
-- What a transaction leads to, from a condition on the database: a condition on what it commits and on
-- its result, or an error that is allowed.
use stripe_entitlements_fast.Base.{◌≡◌, refl, Bool, true, false, Option, none, some, if◌then◌else◌}
use stripe_entitlements_fast.Store.Rows.{Db}
use stripe_entitlements_fast.Store.Transaction.{
  Tx, Result, ok, err, Error, pure, raise, raise_if, get_db, modify, or_raise, ◌>>=◌,
}

module _ (Allowed : Error → Type 0) where
  -- a commit that meets the condition, or an allowed error
  abbrev pub Ends : {A : Type 0} → (A → Db → Type 0) → Result (A × Db) → Type 0
  Ends Q (ok (a, db)) = Q a db
  Ends Q (err e) = Allowed e

  pub record Runs {A : Type 0} (P : Db → Type 0) (Q : A → Db → Type 0) (m : Tx A) : Type 0 where
    pub ends : (db : Db) → P db → Ends Q (m db)

  Ends-bind :
      {A B : Type 0} (Q : A → Db → Type 0) (R : B → Db → Type 0) (r : Result (A × Db))
      (k : A → Tx B)
      → Ends Q r
      → ((a : A) → Runs (Q a) R (k a))
      → Ends R (elim r [ ok (a, db) ↦ k a db | err e ↦ err e ])
  Ends-bind Q R (ok (a, db)) k h f = (f a).ends db h
  Ends-bind Q R (err e) k h f = h

  pub bind-Runs :
      {A B : Type 0} {P : Db → Type 0} {Q : A → Db → Type 0} {R : B → Db → Type 0} {m : Tx A}
      {k : A → Tx B}
      → Runs P Q m
      → ((a : A) → Runs (Q a) R (k a))
      → Runs P R (m >>= k)
  bind-Runs {Q = Q} {R = R} {m = m} {k = k} p f = record {
    ends = λ db h. Ends-bind Q R (m db) k (p.ends db h) f;
  }

  pub pure-Runs :
      {A : Type 0} {P : Db → Type 0} {Q : A → Db → Type 0} (a : A)
      → ((db : Db) → P db → Q a db)
      → Runs P Q (pure a)
  pure-Runs a h = record { ends = h }

  pub raise-Runs :
      {A : Type 0} {P : Db → Type 0} {Q : A → Db → Type 0} (e : Error)
      → Allowed e
      → Runs P Q (raise e)
  raise-Runs e h = record { ends = λ db p. h }

  pub raise_if-Runs :
      {P : Db → Type 0} (b : Bool) (e : Error) → Allowed e → Runs P (λ _. P) (raise_if b e)
  raise_if-Runs true e h = record { ends = λ db p. h }
  raise_if-Runs false e h = record { ends = λ db p. p }

  pub get_db-Runs : {P : Db → Type 0} → Runs P (λ d db. P db × (d ≡ db)) get_db
  get_db-Runs = record { ends = λ db p. (p, refl) }

  pub or_raise-Runs :
      {A : Type 0} {P : Db → Type 0} (o : Option A) (e : Error)
      → Allowed e
      → Runs P (λ a db. P db × (o ≡ some a)) (or_raise o e)
  or_raise-Runs none e h = record { ends = λ db p. h }
  or_raise-Runs (some a) e h = record { ends = λ db p. (p, refl) }

  pub modify-Runs :
      {P : Db → Type 0} {Q : Unit {0} → Db → Type 0} (f : Db → Db)
      → ((db : Db) → P db → Q tt (f db))
      → Runs P Q (modify f)
  modify-Runs f h = record { ends = h }

  pub if-Runs :
      {A : Type 0} {P : Db → Type 0} {Q : A → Db → Type 0} (b : Bool) {m n : Tx A}
      → (b ≡ true → Runs P Q m)
      → (b ≡ false → Runs P Q n)
      → Runs P Q (if b then m else n)
  if-Runs true p q = p refl
  if-Runs false p q = q refl

  pub option-Runs :
      {A B : Type 0} {P : Db → Type 0} {Q : B → Db → Type 0} (o : Option A) {m : Tx B}
      {k : A → Tx B}
      → Runs P Q m
      → ((a : A) → Runs P Q (k a))
      → Runs P Q (elim o [ none ↦ m | some a ↦ k a ])
  option-Runs none p q = p
  option-Runs (some a) p q = q a

  Ends-weaken :
      {A : Type 0} (Q R : A → Db → Type 0) (r : Result (A × Db))
      → ((a : A) (db : Db) → Q a db → R a db)
      → Ends Q r
      → Ends R r
  Ends-weaken Q R (ok (a, db)) h e = h a db e
  Ends-weaken Q R (err x) h e = e

  -- a stronger condition before, a weaker one after
  pub adjust-Runs :
      {A : Type 0} {P S : Db → Type 0} {Q R : A → Db → Type 0} {m : Tx A}
      → ((db : Db) → S db → P db)
      → ((a : A) (db : Db) → Q a db → R a db)
      → Runs P Q m
      → Runs S R m
  adjust-Runs {Q = Q} {R = R} {m = m} f g p = record {
    ends = λ db s. Ends-weaken Q R (m db) g (p.ends db (f db s));
  }

  -- a read, and what is known of the database from then on
  pub read-Runs :
      {A : Type 0} {P : Db → Type 0} {Q : A → Db → Type 0} (S : Db → Db → Type 0) {k : Db → Tx A}
      → ((db : Db) → P db → S db db)
      → ((db : Db) → P db → Runs (S db) Q (k db))
      → Runs P Q (get_db >>= k)
  read-Runs S start h = record { ends = λ db p. (h db p).ends db (start db p) }

  -- a row that must be found
  pub found-Runs :
      {A B : Type 0} {P : Db → Type 0} {Q : B → Db → Type 0} (o : Option A) (e : Error)
      {k : A → Tx B}
      → Allowed e
      → ((a : A) → o ≡ some a → Runs P Q (k a))
      → Runs P Q (or_raise o e >>= k)
  found-Runs none e h f = record { ends = λ db p. h }
  found-Runs (some a) e h f = record { ends = (f a refl).ends }
