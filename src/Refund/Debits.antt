-- ===== src/Refund/Debits.antt =====
-- A refund keeps every debit: its owner, amount and kind stay (typescript/src/credits.ts).
use stripe_entitlements_fast.Base.{
  ℕ, ◌-◌, ◌≡◌, refl, List, [], ◌∷◌, Bool, not, some, ◌||◌, arith, ◌==◌, leb, ltb, if◌then◌else◌,
  inl, inr, Bool-cases, Option-cases, update, find, exists, smaller,
}
use stripe_entitlements_fast.Store.{Db, Account, Debit, Kind, EventTag, Reason, Tx, ClawbackDebt}
use stripe_entitlements_fast.Store.Frames.{Preserves}
use stripe_entitlements_fast.Clawback.{
  collect_clawback_debts, collect_debts, record_collection, outstanding_debts, set_balance,
}
use stripe_entitlements_fast.Funding.Debits.{
  Holds, Holds-same, frames, elsewhere-Preserves, collect_pack_debts_from_subscription-Preserves,
}
use stripe_entitlements_fast.Refund.Collections.{
  checked_add_atoms, return_subscription_atoms, set_restored, is_reversible,
}

find-update_either :
    {A : Type 0} (p q : A → Bool) (g : A → A) (rows : List A) (d : A)
    → ((r : A) → p (g r) ≡ p r)
    → find p rows ≡ some d
    → find p (update q g rows) ≡ some (if q d then g d else d)
find-update_either p q g [] d h e = ground arith
find-update_either p q g (x ∷ xs) d h e = ground (arith, h x, find-update_either p q g xs d h)

module _ (key : ℕ) (account amount : ℕ) (kind : Kind) where
  abbrev pub Kept : {A : Type 0} → Tx A → Type 0
  Kept = Preserves (Holds key account amount kind)

  -- an update of the collected debits, by their keys
  pub set_restored-Holds :
      (k restored : ℕ) (db : Db)
      → Holds key account amount kind db
      → Holds key account amount kind (set_restored k restored db)
  set_restored-Holds k restored db h =
      let g : Debit → Debit = λ d. record d {
        restored = restored;
        refunded = d.refunded || not (exists (is_reversible k) db.allocations);
      } in
      record {
        debit = if h.debit.key == k then g h.debit else h.debit;
        found =
            find-update_either (λ (d : Debit). d.key == key) (λ d. d.key == k) g db.debits h.debit
              (λ r. refl) h.found;
        owner = ground (arith, h.owner);
        sum = ground (arith, h.sum);
        sort = ground (arith, h.sort);
      }

  pub checked_add_atoms-Kept : (a b : ℕ) → Kept (checked_add_atoms a b)
  unfolding checked_add_atoms
  checked_add_atoms-Kept a b = search (frames)

  collect_debts-kept :
      (owner epoch : ℕ) (event : EventTag) (ds : List ClawbackDebt) (b c : ℕ) (db : Db)
      → (collect_debts owner epoch event ds b c db).2.debits ≡ db.debits
  unfolding collect_debts record_collection
  collect_debts-kept owner epoch event [] b c db = refl
  collect_debts-kept owner epoch event (d ∷ ds) b c db =
      elim (Bool-cases (leb (smaller (d.target - d.collected) b) 0)) [
        | inl stops ↦ rw stops refl
        | inr pays ↦ rw pays (collect_debts-kept owner epoch event ds _ _ _)
      ]

  settled-kept :
      (owner epoch : ℕ) (event : EventTag) (b : ℕ) (db : Db)
      → let r = collect_debts owner epoch event (outstanding_debts owner epoch event db) b 0 db in
        (if ltb 0 r.1 then set_balance owner epoch event r.0 r.2 else r.2).debits ≡ db.debits
  settled-kept owner epoch event b db =
      let ds = outstanding_debts owner epoch event db in
      let r = collect_debts owner epoch event ds b 0 db in
      elim (Bool-cases (ltb 0 r.1)) [
        | inl pays ↦ rw pays (collect_debts-kept owner epoch event ds b 0 db)
        | inr nothing ↦ rw nothing (collect_debts-kept owner epoch event ds b 0 db)
      ]

  collect_clawback_debts-Kept :
      (owner epoch : ℕ) (event : EventTag) → Kept (collect_clawback_debts owner epoch event)
  unfolding collect_clawback_debts
  collect_clawback_debts-Kept owner epoch event = record {
    after = λ db h. elim (Option-cases (find (λ a. a.id == owner) db.accounts)) [
      | inl missing ↦ rw missing tt
      | inr (row, found) ↦ rw found (
          Holds-same key account amount kind db _
            (settled-kept owner epoch event row.credits_balance db) h)
    ];
  }

  pub return_subscription_atoms-Kept :
      (a : Account) (n : ℕ) (event : EventTag) (reason : Reason) (as_of : ℕ)
      → Kept (return_subscription_atoms a n event reason as_of)
  unfolding return_subscription_atoms
  return_subscription_atoms-Kept a n event reason as_of =
      search
        (
          frames, elsewhere-Preserves, checked_add_atoms-Kept, collect_clawback_debts-Kept,
          collect_pack_debts_from_subscription-Preserves,
        )
        depth 16
