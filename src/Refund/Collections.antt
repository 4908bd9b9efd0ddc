-- ===== src/Refund/Collections.antt =====
-- `#returnSubscriptionAtoms` and `#relievePackDebt` of typescript/src/credits.ts. The second calls
-- `#restoreAllocationEffect`, which calls it again: here it takes that call as an argument.
use stripe_entitlements_fast.Base.{
  ℕ, ◌+◌, ◌-◌, List, [], ◌∷◌, ◌++◌, Bool, false, not, some, none, ◌&&◌, ◌||◌, ◌==◌, ltb, leb,
  if◌then◌else◌, smaller, select, find, exists, update, pos, map,
}
use stripe_entitlements_fast.Store.{
  Db, Account, PackDebt, Debit, usage, debt_collection, Allocation, Reason, EventTag,
  debt_release_event, pack_debt_refund, Tx, pure, raise, raise_if, get_db, modify, or_raise,
  account_not_found, bigint_out_of_range, debt_of_another_account, collection_cycle,
  collection_of_another_account, collection_inconsistent, debt_changed, allocation_changed,
  no_reversible_allocation, ◌>>=◌, ◌>>◌,
}
use stripe_entitlements_fast.Store.Tables.{order_by, count}
use stripe_entitlements_fast.Spendable.{max_credit_atoms, credits_are_spendable}
use stripe_entitlements_fast.Clawback.{collect_clawback_debts}
use stripe_entitlements_fast.Funding.{set_balance, collect_pack_debts_from_subscription}

-- `checkedAddAtoms` of credit-amount.ts
unfoldable pub checked_add_atoms : ℕ → ℕ → Tx ℕ
checked_add_atoms left right =
    if ltb max_credit_atoms left || ltb max_credit_atoms right
    then raise bigint_out_of_range
    else if ltb (max_credit_atoms - right) left
    then raise bigint_out_of_range
    else pure (left + right)

-- `#returnSubscriptionAtoms`: the balance is read again, the validity is that of the row at hand.
unfoldable pub return_subscription_atoms : Account → ℕ → EventTag → Reason → ℕ → Tx ℕ
return_subscription_atoms account amount event reason as_of =
    if not (credits_are_spendable account as_of) then pure 0 else (do
      db ← get_db
      row ← or_raise (find (λ a. a.id == account.id) db.accounts) account_not_found
      balance ← checked_add_atoms row.credits_balance amount
      modify (set_balance account.id balance)
      modify (λ db. record db {
        ledger =
            db.ledger
            ++ record {
              account_id = account.id;
              delta = pos amount;
              balance_after = balance;
              entitlement_units = 0;
              reason = reason;
              grant_epoch = account.grant_epoch;
              event = event;
              invoice = none;
              slot = none;
            }
              ∷ [];
      })
      collect_clawback_debts account.id account.grant_epoch event
      collect_pack_debts_from_subscription account.id account.grant_epoch event
      pure amount)

-- a row of the join of the collections of an order with their allocations
pub record Collection : Type 0 where
  pub debit : Debit
  pub allocation : Allocation

abbrev pub collects : ℕ → Debit → Bool
collects order d = elim d.kind [ usage ↦ false | debt_collection o ↦ o == order ]

abbrev pub is_reversible : ℕ → Allocation → Bool
is_reversible key a = a.debit_key == key && ltb a.refunded_amount a.amount

-- `order by d.created_at,d.idempotency_key,a.id`
abbrev pub le_collection : Collection → Collection → Bool
le_collection x y =
    ltb x.debit.created_at y.debit.created_at
    || ((x.debit.created_at == y.debit.created_at)
        && (ltb x.debit.key y.debit.key
            || ((x.debit.key == y.debit.key) && leb x.allocation.id y.allocation.id)))

abbrev pub join_collections : List Debit → List Allocation → List Collection
join_collections [] allocations = []
join_collections (d ∷ ds) allocations =
    map (λ a. record { debit = d; allocation = a }) (select (is_reversible d.key) allocations)
    ++ join_collections ds allocations

unfoldable pub collections : ℕ → Db → List Collection
collections order db =
    order_by le_collection (join_collections (select (collects order) db.debits) db.allocations)

-- the update that must find one row
abbrev pub move_to_released : ℕ → ℕ → Tx (Unit {0})
move_to_released order amount db =
    let holds = λ (d : PackDebt). d.order_id == order && leb amount d.collected in
    if count holds db.pack_debts == 1
    then modify
        (λ db. record db {
          pack_debts =
              update holds
                (λ d. record d { collected = d.collected - amount; released = d.released + amount })
                db.pack_debts;
        })
        db
    else raise debt_changed db

abbrev pub add_refunded : ℕ → ℕ → Tx (Unit {0})
add_refunded allocation amount db =
    let fits =
      λ (a : Allocation). a.id == allocation && leb (a.refunded_amount + amount) a.amount in
    if count fits db.allocations == 1
    then modify
        (λ db. record db {
          allocations =
              update fits (λ a. record a { refunded_amount = a.refunded_amount + amount })
                db.allocations;
        })
        db
    else raise allocation_changed db

-- a collection's debit is refunded once none of its allocations is left to reverse
abbrev pub set_restored : ℕ → ℕ → Db → Db
set_restored key restored db = record db {
  debits =
      update (λ d. d.key == key)
        (λ d. record d {
          restored = restored;
          refunded = d.refunded || not (exists (is_reversible key) db.allocations);
        })
        db.debits;
}

-- `#restoreAllocationEffect` on the keys that are being visited
abbrev pub RestoreCall : Type 0
RestoreCall = List ℕ → Allocation → ℕ → EventTag → Reason → Tx ℕ

module _ (restore : RestoreCall) (account : ℕ) (order : ℕ) (visiting : List ℕ) where
  -- one collection: what it reverses, and what that recovered
  unfoldable pub reverse_collection : Collection → ℕ → Tx (ℕ × ℕ)
  reverse_collection c remaining =
      let key = c.debit.key in
      let reversing = smaller remaining (c.allocation.amount - c.allocation.refunded_amount) in
      do
        raise_if (exists (λ k. k == key) visiting) collection_cycle
        raise_if (not (c.debit.account_id == account) || not (c.allocation.account_id == account))
            collection_of_another_account
        raise_if (not (c.debit.amount == c.allocation.amount)) collection_inconsistent
        if leb reversing 0 then pure (0, 0) else (do
          move_to_released order reversing
          restored ←
              restore (key ∷ visiting) c.allocation reversing (debt_release_event key)
                pack_debt_refund
          new_restored ← checked_add_atoms c.debit.restored restored
          add_refunded c.allocation.id reversing
          modify (set_restored key new_restored)
          pure (reversing, restored))

  -- the loop: what remains to be reversed, and what was recovered
  unfoldable pub reverse_collections : List Collection → ℕ → ℕ → Tx (ℕ × ℕ)
  reverse_collections [] remaining recovered = pure (remaining, recovered)
  reverse_collections (c ∷ cs) remaining recovered =
      let rest = (do
        step ← reverse_collection c remaining
        reverse_collections cs (remaining - step.0) (recovered + step.1)) in
      if leb remaining 0 then pure (remaining, recovered) else rest

abbrev pub no_relief : Tx (ℕ × ℕ)
no_relief = pure (0, 0)

abbrev pub release : ℕ → ℕ → Db → Db
release order amount db = record db {
  pack_debts =
      update (λ d. d.order_id == order) (λ d. record d { released = d.released + amount })
        db.pack_debts;
}

-- the relief of a debt that is found
unfoldable pub relieve_debt : RestoreCall → ℕ → ℕ → ℕ → List ℕ → PackDebt → Tx (ℕ × ℕ)
relieve_debt restore account order amount visiting debt =
    let active_debt = debt.target - debt.released in
    let relief = smaller amount active_debt in
    let release_uncollected = smaller relief (active_debt - debt.collected) in
    let reverse_collected = relief - release_uncollected in
    if leb amount 0
    then no_relief
    else (raise_if (not (debt.account_id == account)) debt_of_another_account
        >> (if leb relief 0 then no_relief else (do
          if ltb 0 release_uncollected then modify (release order release_uncollected) else pure tt
          if leb reverse_collected 0 then pure (relief, 0) else (do
            now ← get_db
            result ←
                reverse_collections restore account order visiting (collections order now)
                  reverse_collected 0
            raise_if (not (result.0 == 0)) no_reversible_allocation
            pure (relief, result.1)))))

-- `#relievePackDebt`: the relief, and what it recovered
unfoldable pub relieve_pack_debt : RestoreCall → ℕ → ℕ → ℕ → List ℕ → Tx (ℕ × ℕ)
relieve_pack_debt restore account order amount visiting = do
  db ← get_db
  elim (find (λ d. d.order_id == order) db.pack_debts) [
    | none ↦ no_relief
    | some debt ↦ relieve_debt restore account order amount visiting debt
  ]
