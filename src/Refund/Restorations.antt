-- ===== src/Refund/Restorations.antt =====
-- The release of pack debts and the restoration of allocations keep every debit
-- (typescript/src/credits.ts).
use stripe_entitlements_fast.Base.{ℕ, zero, suc, refl, List, [], ◌∷◌, ◌==◌, leb, find}
use stripe_entitlements_fast.Store.{
  Account, Source, Lot, LotStatus, Order, Debit, Allocation, Kind, EventTag, Reason, lot_active,
  lot_expired, lot_refunded, lot_disputed, subscription, credit_pack, Tx, PackDebt, modify,
}
use stripe_entitlements_fast.Store.Frames.{
  bind-Preserves, pure-Preserves, raise-Preserves, get_db-Preserves, modify-Preserves, if-Preserves,
  option-Preserves,
}
use stripe_entitlements_fast.Funding.Debits.{
  Holds, frames, elsewhere-Preserves, guarded-Preserves, collect_pack_debts_from_lot-Preserves,
}
use stripe_entitlements_fast.Refund.Collections.{
  Collection, RestoreCall, add_refunded, set_restored, move_to_released, reverse_collection,
  reverse_collections, relieve_debt, relieve_pack_debt,
}
use stripe_entitlements_fast.Refund.Restore.{
  expire_now, return_to_lot, restore_to_pack, restore_allocation_effect,
}
use stripe_entitlements_fast.Refund.Service.{restore_allocations, restore_debit}
use stripe_entitlements_fast.Refund.Debits.{
  Kept, set_restored-Holds, checked_add_atoms-Kept, return_subscription_atoms-Kept,
}

module _ (key : ℕ) (account amount : ℕ) (kind : Kind) where
  abbrev Keeps : {A : Type 0} → Tx A → Type 0
  Keeps = Kept key account amount kind

  move_to_released-Kept : (order n : ℕ) → Keeps (move_to_released order n)
  move_to_released-Kept order n = guarded-Preserves key account amount kind _ _ _ (λ db. refl)

  add_refunded-Kept : (allocation n : ℕ) → Keeps (add_refunded allocation n)
  add_refunded-Kept allocation n = guarded-Preserves key account amount kind _ _ _ (λ db. refl)

  set_restored-Kept : (k restored : ℕ) → Keeps (modify (set_restored k restored))
  set_restored-Kept k restored =
      modify-Preserves (Holds key account amount kind) (set_restored k restored)
        (set_restored-Holds key account amount kind k restored)

  -- the restoration that a release of debts calls
  abbrev KeptCall : RestoreCall → Type 0
  KeptCall restore =
      (visiting : List ℕ) (a : Allocation) (n : ℕ) (event : EventTag) (reason : Reason)
      → Keeps (restore visiting a n event reason)

  module _ (restore : RestoreCall) (r : KeptCall restore) (owner order : ℕ)
      (visiting : List ℕ) where
    reverse_collection-Kept :
        (c : Collection) (n : ℕ) → Keeps (reverse_collection restore owner order visiting c n)
    unfolding reverse_collection
    reverse_collection-Kept c n =
        search
          (
            frames, r, move_to_released-Kept, add_refunded-Kept, set_restored-Kept,
            checked_add_atoms-Kept,
          )
          depth 20

    reverse_collections-Kept :
        (cs : List Collection) (n m : ℕ)
        → Keeps (reverse_collections restore owner order visiting cs n m)
    unfolding reverse_collections
    reverse_collections-Kept [] n m = pure-Preserves (Holds key account amount kind) (n, m)
    reverse_collections-Kept (c ∷ cs) n m =
        search (frames, reverse_collection-Kept, reverse_collections-Kept cs) depth 12

    relieve_debt-Kept :
        (n : ℕ) (debt : PackDebt) → Keeps (relieve_debt restore owner order n visiting debt)
    unfolding relieve_debt
    relieve_debt-Kept n debt =
        search (frames, elsewhere-Preserves, reverse_collections-Kept) depth 20

    relieve_pack_debt-Kept : (n : ℕ) → Keeps (relieve_pack_debt restore owner order n visiting)
    unfolding relieve_pack_debt
    relieve_pack_debt-Kept n =
        bind-Preserves (Holds key account amount kind)
          (get_db-Preserves (Holds key account amount kind))
          (λ db.
            option-Preserves (Holds key account amount kind)
              (find (λ d. d.order_id == order) db.pack_debts)
              (pure-Preserves (Holds key account amount kind) (0, 0))
              (λ debt. relieve_debt-Kept n debt))

  expire_now-Kept : (lot : Lot) (as_of : ℕ) → Keeps (expire_now lot as_of)
  unfolding expire_now
  expire_now-Kept lot as_of = search (frames, elsewhere-Preserves) depth 12

  status-Kept :
      {A : Type 0} (s : LotStatus) {m n p : Tx A}
      → Keeps m
      → Keeps n
      → Keeps p
      → Keeps (elim s [ lot_active ↦ m | lot_expired ↦ n | _ ↦ p ])
  status-Kept lot_active p q r = p
  status-Kept lot_expired p q r = q
  status-Kept lot_refunded p q r = r
  status-Kept lot_disputed p q r = r

  return_to_lot-Kept :
      (owner : ℕ) (lot : Lot) (order : Order) (n : ℕ) → Keeps (return_to_lot owner lot order n)
  unfolding return_to_lot
  return_to_lot-Kept owner lot order n =
      if-Preserves (Holds key account amount kind) (leb n 0)
        (pure-Preserves (Holds key account amount kind) 0)
        (status-Kept lot.status
          (search
            (
              frames, elsewhere-Preserves, checked_add_atoms-Kept,
              collect_pack_debts_from_lot-Preserves,
            )
            depth 16)
          (search (frames, elsewhere-Preserves, checked_add_atoms-Kept) depth 16)
          (pure-Preserves (Holds key account amount kind) 0))

  restore_to_pack-Kept :
      (restore : RestoreCall) (r : KeptCall restore) (a : Account) (lot n : ℕ) (visiting : List ℕ)
      (as_of : ℕ)
      → Keeps (restore_to_pack restore a lot n visiting as_of)
  unfolding restore_to_pack
  restore_to_pack-Kept restore r a lot n visiting as_of =
      search (frames, expire_now-Kept, return_to_lot-Kept, relieve_pack_debt-Kept restore r) depth
        24

  source-Kept :
      {A : Type 0} (s : Source) {k m : ℕ → Tx A}
      → ((n : ℕ) → Keeps (k n))
      → ((n : ℕ) → Keeps (m n))
      → Keeps (elim s [ subscription n ↦ k n | credit_pack n ↦ m n ])
  source-Kept (subscription n) p q = p n
  source-Kept (credit_pack n) p q = q n

  -- by the depth of the call stack
  restore_allocation_effect-Kept :
      (fuel : ℕ) (a : Account) (as_of : ℕ) → KeptCall (restore_allocation_effect fuel a as_of)
  unfolding restore_allocation_effect
  restore_allocation_effect-Kept zero a as_of visiting b n event reason =
      raise-Preserves (Holds key account amount kind) _
  restore_allocation_effect-Kept (suc fuel) a as_of visiting b n event reason =
      source-Kept b.source
        (λ epoch.
          if-Preserves (Holds key account amount kind) (epoch == a.grant_epoch)
            (return_subscription_atoms-Kept key account amount kind a n event reason as_of)
            (pure-Preserves (Holds key account amount kind) 0))
        (λ lot.
          restore_to_pack-Kept (restore_allocation_effect fuel a as_of)
            (restore_allocation_effect-Kept fuel a as_of) a lot n visiting as_of)

  restore_allocations-Kept :
      (fuel : ℕ) (a : Account) (k : ℕ) (as' : List Allocation) (n : ℕ)
      → Keeps (restore_allocations fuel a k as' n)
  unfolding restore_allocations
  restore_allocations-Kept fuel a k [] n = pure-Preserves (Holds key account amount kind) n
  restore_allocations-Kept fuel a k (b ∷ bs) n =
      search
        (
          frames,
          add_refunded-Kept,
          restore_allocation_effect-Kept,
          restore_allocations-Kept fuel a k bs,
        )
        depth 16

  pub restore_debit-Kept :
      (fuel : ℕ) (a : Account) (d : Debit) (as' : List Allocation)
      → Keeps (restore_debit fuel a d as')
  unfolding restore_debit
  restore_debit-Kept fuel a d [] = search (frames, return_subscription_atoms-Kept) depth 8
  restore_debit-Kept fuel a d (b ∷ bs) = restore_allocations-Kept fuel a d.key (b ∷ bs) 0
