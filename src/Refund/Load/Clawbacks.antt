-- ===== src/Refund/Load/Clawbacks.antt =====
-- The collection of clawback debts (typescript/src/clawbacks.ts), by the bound on the depth of a refund.
use stripe_entitlements_fast.Base.{
  ℕ, ◌+◌, ◌-◌, ◌≤◌, ◌≡◌, refl, List, [], ◌∷◌, Bool, true, false, some, inl, inr, arith, ◌==◌, ltb,
  leb, smaller, if◌then◌else◌, find, Bool-cases,
}
use stripe_entitlements_fast.Store.{Db, Account, ClawbackDebt, EventTag, account_not_found}
use stripe_entitlements_fast.Store.Runs.{
  Runs, read-Runs, found-Runs, bind-Runs, pure-Runs, modify-Runs,
}
use stripe_entitlements_fast.Clawback.{collect_debts, record_collection, collect_clawback_debts}
use stripe_entitlements_fast.Clawback
use stripe_entitlements_fast.Funding.{set_balance}
use stripe_entitlements_fast.Refund.Quiet.{IsOther}
use stripe_entitlements_fast.Refund.Load.{collected_of, At, Load}
use stripe_entitlements_fast.Refund.Load.Balance.{cash_of-found, set_balance-Load, kept-Load}

module _ (owner epoch : ℕ) (event : EventTag) (k : ℕ) where
  -- the loop over clawback debts leaves these tables, and at most the balance
  record Takes (balance : ℕ) (db : Db) (r : ℕ × ℕ × Db) : Type 0 where
    debts : r.2.pack_debts ≡ db.pack_debts
    accounts : r.2.accounts ≡ db.accounts
    bounded : r.0 ≤ balance

  either-Takes :
      (balance : ℕ) (db : Db) (b : Bool) (x y : ℕ × ℕ × Db)
      → Takes balance db x
      → Takes balance db y
      → Takes balance db (if b then x else y)
  either-Takes balance db true x y p q = p
  either-Takes balance db false x y p q = q

  collect_debts-Takes :
      (debts : List ClawbackDebt) (balance collected : ℕ) (db : Db)
      → Takes balance db (collect_debts owner epoch event debts balance collected db)
  unfolding collect_debts record_collection
  collect_debts-Takes [] balance collected db = record {
    debts = refl;
    accounts = refl;
    bounded = omega arith;
  }
  collect_debts-Takes (d ∷ ds) balance collected db =
      let amount = smaller (d.target - d.collected) balance in
      let after = record_collection owner epoch event d amount (balance - amount) db in
      let rest = collect_debts-Takes ds (balance - amount) (collected + amount) after in
      either-Takes balance db (leb amount 0) _ _
        (record { debts = refl; accounts = refl; bounded = omega arith })
        (record {
          debts = rest.debts;
          accounts = rest.accounts;
          bounded = omega (arith, rest.bounded);
        })

  settled-Load :
      (b : Bool) (d : Db) (row : Account) (r : ℕ × ℕ × Db)
      → Load owner k d
      → find (λ a. a.id == owner) d.accounts ≡ some row
      → Takes row.credits_balance d r
      → Load owner k (if b then set_balance owner r.0 r.2 else r.2)
  settled-Load b d row r h found t =
      let n = collected_of d.pack_debts in
      let at_rest : At d.accounts n r.2 = record {
        unique = rw (t.debts) h.unique;
        same = t.accounts;
        total = rw (t.debts) (omega arith);
      } in
      let le : n + row.credits_balance ≤ k =
        omega (arith, h.total, cash_of-found owner d.accounts row found) in
      elim (Bool-cases b) [
        | inl lowered ↦ rw lowered (
            set_balance-Load owner d.accounts row found r.0 n k r.2 (omega (arith, le, t.bounded))
              at_rest)
        | inr unchanged ↦ rw unchanged (kept-Load owner d.accounts row found n k r.2 le at_rest)
      ]

  pub collect_clawback_debts-Runs :
      Runs IsOther (Load owner k) (λ _. Load owner k) (collect_clawback_debts owner epoch event)
  unfolding collect_clawback_debts
  collect_clawback_debts-Runs =
      read-Runs IsOther (λ _. Load owner k) (λ db h. h)
        (λ d h.
          found-Runs IsOther (find (λ a. a.id == owner) d.accounts) account_not_found refl
            (λ row found.
              let r =
                collect_debts owner epoch event (Clawback.outstanding_debts owner epoch event d)
                  row.credits_balance 0 d in
              let t =
                collect_debts-Takes (Clawback.outstanding_debts owner epoch event d)
                  row.credits_balance 0 d in
              bind-Runs IsOther
                (modify-Runs IsOther (λ _. if ltb 0 r.1 then set_balance owner r.0 r.2 else r.2)
                  (λ _ _. settled-Load (ltb 0 r.1) d row r h found t))
                (λ _. pure-Runs IsOther r.1 (λ db l. l))))
