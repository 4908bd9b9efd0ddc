-- ===== src/Funding/Debits.antt =====
-- The collections of pack debts keep every debit: its owner, amount and kind stay
-- (typescript/src/credit-pack-funding.ts).
use stripe_entitlements_fast.Base.{
  ℕ, ◌++◌, ◌≡◌, refl, List, [], ◌∷◌, Bool, some, arith, ◌==◌, inl, inr, Bool-cases, if◌then◌else◌,
  find, exists,
}
use stripe_entitlements_fast.Store.{
  Db, Debit, PackDebt, Kind, modify, raise, Error, EventTag, Source,
}
use stripe_entitlements_fast.Store.Frames.{
  After, Preserves, bind-Preserves, pure-Preserves, raise-Preserves, raise_if-Preserves,
  get_db-Preserves, or_raise-Preserves, modify-Preserves, if-Preserves, reads-Preserves,
}
use stripe_entitlements_fast.Funding.{
  insert_debit, insert_allocation, record_debt_collection, add_collected, collect_from_lot,
  take_from_lot, collect_pack_debts_from_lot, collect_from_balance,
  collect_pack_debts_from_subscription,
}

find-append :
    {A : Type 0} (p : A → Bool) (xs ys : List A) (x : A)
    → find p xs ≡ some x
    → find p (xs ++ ys) ≡ some x
find-append p [] ys x h = ground (arith, h)
find-append p (z ∷ zs) ys x h = ground (arith, h, find-append p zs ys x)

module _ (key : ℕ) (account amount : ℕ) (kind : Kind) where
  pub kept_by_allocation :
      (k a : ℕ) (s : Source) (n : ℕ) (db : Db) → (insert_allocation k a s n db).debits ≡ db.debits
  unfolding insert_allocation
  kept_by_allocation k a s n db = refl

  -- the debit of the key is in the table
  pub record Holds (db : Db) : Type 0 where
    pub debit : Debit
    pub found : find (λ d. d.key == key) db.debits ≡ some debit
    pub owner : debit.account_id ≡ account
    pub sum : debit.amount ≡ amount
    pub sort : debit.kind ≡ kind

  pub Holds-append :
      (db later : Db) (d : Debit) → later.debits ≡ db.debits ++ d ∷ [] → Holds db → Holds later
  Holds-append db later d e h = record {
    debit = h.debit;
    found = rw e (find-append (λ r. r.key == key) db.debits (d ∷ []) h.debit h.found);
    owner = h.owner;
    sum = h.sum;
    sort = h.sort;
  }

  pub Holds-same : (db later : Db) → later.debits ≡ db.debits → Holds db → Holds later
  Holds-same db later e h = record {
    debit = h.debit;
    found = rw e h.found;
    owner = h.owner;
    sum = h.sum;
    sort = h.sort;
  }

  -- a statement that leaves the debits alone
  pub elsewhere-Preserves :
      (f : Db → Db) → ((db : Db) → (f db).debits ≡ db.debits) → Preserves Holds (modify f)
  elsewhere-Preserves f e = modify-Preserves Holds f (λ db. Holds-same db (f db) (e db))

  insert_debit-Preserves : (d : Debit) → Preserves Holds (insert_debit d)
  unfolding insert_debit
  insert_debit-Preserves d = record {
    after = λ db h. elim (Bool-cases (exists (λ e. e.key == d.key) db.debits)) [
      | inl taken ↦ rw taken tt
      | inr new ↦ rw new (Holds-append db (record db { debits = db.debits ++ d ∷ [] }) d refl h)
    ];
  }

  pub ruleset frames = (
    bind-Preserves, pure-Preserves, raise-Preserves, raise_if-Preserves, get_db-Preserves,
    or_raise-Preserves, if-Preserves, reads-Preserves,
  )

  record_debt_collection-Preserves :
      (d : PackDebt) (n epoch : ℕ) (s : Source)
      → Preserves Holds (record_debt_collection d n epoch s)
  unfolding record_debt_collection
  record_debt_collection-Preserves d n epoch s =
      search (frames, elsewhere-Preserves, insert_debit-Preserves, kept_by_allocation)

  -- an update that is guarded by a test of the rows, away from the debits
  pub guarded-Preserves :
      (test : Db → Bool) (f : Db → Db) (e : Error)
      → ((db : Db) → (f db).debits ≡ db.debits)
      → Preserves Holds (λ db. if test db then modify f db else raise e db)
  guarded-Preserves test f e same = record {
    after = λ db h. elim (Bool-cases (test db)) [
      | inl holds ↦ rw holds ((elsewhere-Preserves f same).after db h)
      | inr fails ↦ rw fails tt
    ];
  }

  collect_from_lot-Preserves :
      (lot epoch : ℕ) (ds : List PackDebt) (n : ℕ)
      → Preserves Holds (collect_from_lot lot epoch ds n)
  unfolding collect_from_lot add_collected
  collect_from_lot-Preserves lot epoch [] n = pure-Preserves Holds n
  collect_from_lot-Preserves lot epoch (d ∷ ds) n = search (
    frames,
    elsewhere-Preserves,
    record_debt_collection-Preserves,
    collect_from_lot-Preserves lot epoch ds,
  )

  take_from_lot-Preserves : (lot n : ℕ) → Preserves Holds (take_from_lot lot n)
  unfolding take_from_lot
  take_from_lot-Preserves lot n = guarded-Preserves _ _ _ (λ db. refl)

  pub collect_pack_debts_from_lot-Preserves :
      (owner lot n : ℕ) → Preserves Holds (collect_pack_debts_from_lot owner lot n)
  unfolding collect_pack_debts_from_lot
  collect_pack_debts_from_lot-Preserves owner lot n =
      search (frames, take_from_lot-Preserves, collect_from_lot-Preserves) depth 12

  collect_from_balance-Preserves :
      (owner epoch : ℕ) (event : EventTag) (ds : List PackDebt) (n : ℕ)
      → Preserves Holds (collect_from_balance owner epoch event ds n)
  unfolding collect_from_balance add_collected
  collect_from_balance-Preserves owner epoch event [] n = pure-Preserves Holds n
  collect_from_balance-Preserves owner epoch event (d ∷ ds) n = search (
    frames,
    elsewhere-Preserves,
    record_debt_collection-Preserves,
    collect_from_balance-Preserves owner epoch event ds,
  )

  pub collect_pack_debts_from_subscription-Preserves :
      (owner epoch : ℕ) (event : EventTag)
      → Preserves Holds (collect_pack_debts_from_subscription owner epoch event)
  unfolding collect_pack_debts_from_subscription
  collect_pack_debts_from_subscription-Preserves owner epoch event =
      search (frames, elsewhere-Preserves, collect_from_balance-Preserves) depth 12
