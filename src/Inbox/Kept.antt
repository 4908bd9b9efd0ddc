-- ===== src/Inbox/Kept.antt =====
-- The collections and recoveries that the handlers of pack events make
-- (typescript/src/credit-pack-events.ts and credit-pack-funding.ts) leave the inbox alone.
pub mod Handlers
pub mod Dispatch
use stripe_entitlements_fast.Base.{
  ℕ, ◌≡◌, List, [], ◌∷◌, ◌==◌, ◌&&◌, leb, exists, none, some, Option, inl, inr, Bool-cases,
}
use stripe_entitlements_fast.Store.{
  Db, Account, Order, Lot, Source, PackDebt, Debit, InboxEvent, PackIncidentKind, DedupeKey, Tx,
  modify,
}
use stripe_entitlements_fast.Store.Tables.{count}
use stripe_entitlements_fast.Store.Frames.{
  Preserves, bind-Preserves, pure-Preserves, raise-Preserves, get_db-Preserves, modify-Preserves,
  if-Preserves, or_raise-Preserves,
}
use stripe_entitlements_fast.Funding.{
  insert_debit, insert_allocation, record_debt_collection, add_collected, collect_from_lot,
  take_from_lot, collect_pack_debts_from_lot,
}
use stripe_entitlements_fast.PackEvents.{record_incident, adopt_if, adopt_customer}
use stripe_entitlements_fast.PackEvents.Contract.{Facts}
use stripe_entitlements_fast.PackEvents.Recovery.{recover}
use stripe_entitlements_fast.PackEvents.Recovery.Kept.{recover-Preserves}

module _ (inbox : List InboxEvent) where
  -- the inbox is as it was
  abbrev pub Kept : Db → Type 0
  Kept db = db.inbox ≡ inbox

  abbrev pub Keeps : {A : Type 0} → Tx A → Type 0
  Keeps = Preserves Kept

  pub ruleset kept_rules = (
    bind-Preserves, pure-Preserves, raise-Preserves, get_db-Preserves, or_raise-Preserves,
    if-Preserves,
  )

  pub lots-Kept : (rows : Db → List Lot) → Keeps (modify (λ db. record db { lots = rows db }))
  lots-Kept rows = modify-Preserves Kept _ (λ db k. k)

  pub debts-Kept :
      (rows : Db → List PackDebt) → Keeps (modify (λ db. record db { pack_debts = rows db }))
  debts-Kept rows = modify-Preserves Kept _ (λ db k. k)

  pub orders-Kept : (rows : Db → List Order) → Keeps (modify (λ db. record db { orders = rows db }))
  orders-Kept rows = modify-Preserves Kept _ (λ db k. k)

  drawn-Kept : (n : Db → ℕ) → Keeps (modify (λ db. record db { drawn = n db }))
  drawn-Kept n = modify-Preserves Kept _ (λ db k. k)

  insert_debit-Kept : (d : Debit) → Keeps (insert_debit d)
  unfolding insert_debit
  insert_debit-Kept d = record {
    after = λ db k. elim (Bool-cases (exists (λ e. e.key == d.key) db.debits)) [
      | inl taken ↦ rw taken tt
      | inr unused ↦ rw unused k
    ];
  }

  insert_allocation-Kept :
      (key account : ℕ) (source : Source) (amount : ℕ)
      → Keeps (modify (insert_allocation key account source amount))
  unfolding insert_allocation
  insert_allocation-Kept key account source amount = modify-Preserves Kept _ (λ db k. k)

  add_collected-Kept : (order amount : ℕ) → Keeps (modify (add_collected order amount))
  unfolding add_collected
  add_collected-Kept order amount = modify-Preserves Kept _ (λ db k. k)

  record_debt_collection-Kept :
      (d : PackDebt) (amount epoch : ℕ) (source : Source)
      → Keeps (record_debt_collection d amount epoch source)
  unfolding record_debt_collection
  record_debt_collection-Kept d amount epoch source =
      search (kept_rules, drawn-Kept, insert_debit-Kept, insert_allocation-Kept) depth 16

  collect_from_lot-Kept :
      (lot epoch : ℕ) (debts : List PackDebt) (n : ℕ) → Keeps (collect_from_lot lot epoch debts n)
  unfolding collect_from_lot
  collect_from_lot-Kept lot epoch [] n = pure-Preserves Kept n
  collect_from_lot-Kept lot epoch (d ∷ ds) n =
      search
        (
          kept_rules,
          add_collected-Kept,
          record_debt_collection-Kept,
          collect_from_lot-Kept lot epoch ds,
        )
        depth 12

  take_from_lot-Kept : (lot amount : ℕ) → Keeps (take_from_lot lot amount)
  unfolding take_from_lot
  take_from_lot-Kept lot amount = record {
    after = λ db k.
        elim (Bool-cases (count (λ l. l.id == lot && leb amount l.remaining) db.lots == 1)) [
          | inl one ↦ rw one k
          | inr changed ↦ rw changed tt
        ];
  }

  pub collect_pack_debts_from_lot-Kept :
      (account lot n : ℕ) → Keeps (collect_pack_debts_from_lot account lot n)
  unfolding collect_pack_debts_from_lot
  collect_pack_debts_from_lot-Kept account lot n =
      search (kept_rules, collect_from_lot-Kept, take_from_lot-Kept) depth 16

  pub recover-Kept : (f : Facts) (o : Order) (account n : ℕ) → Keeps (recover f o account n)
  recover-Kept = recover-Preserves Kept lots-Kept debts-Kept

  pub incident-Kept :
      (kind : PackIncidentKind) (event : Option ℕ) (key : DedupeKey) (account : Option ℕ)
      → Keeps (modify (record_incident kind event key account))
  unfolding record_incident
  incident-Kept kind event key account = modify-Preserves Kept _ (λ db k. k)

  adopt_if-Kept :
      (stored : Option ℕ) (account customer : ℕ) → Keeps (modify (adopt_if stored account customer))
  adopt_if-Kept none account customer = modify-Preserves Kept _ (λ db k. k)
  adopt_if-Kept (some c) account customer = modify-Preserves Kept _ (λ db k. k)

  pub adopt_customer-Kept :
      (a : Account) (customer : ℕ) → Keeps (modify (adopt_customer a customer))
  unfolding adopt_customer
  adopt_customer-Kept a customer = adopt_if-Kept a.customer_id a.id customer
