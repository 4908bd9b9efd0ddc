-- ===== src/Clawback/Rounds.antt =====
-- The loop of `collectClawbackDebts` (typescript/src/clawbacks.ts), round by round.
use Prim.Native.Nat.{min}
use stripe_entitlements_fast.Base.{
  ℕ, ◌+◌, ◌-◌, ◌≤◌, ◌<◌, ◌≡◌, ◌≢◌, refl, ◌∙◌, List, [], ◌∷◌, Bool, true, false, some, inl, inr,
  ◌&&◌, arith, ◌==◌, leb, smaller, if◌then◌else◌, find, update, select, sum_of, All, Bool-cases,
}
use stripe_entitlements_fast.Store.{Db, ClawbackDebt, EventTag}
use stripe_entitlements_fast.Store.Tables.{order_by, le_pair}
use stripe_entitlements_fast.Store.Tables.Updates.{sum_of-update}
use stripe_entitlements_fast.Store.Tables.Sorting.{sum_of-order_by, All-order_by}
use stripe_entitlements_fast.Store.Tables.Pending.{
  IsKey, IsUnique, IsPending, IsDistinct, update-IsUnique, update-IsPending, IsPending-ordered,
  IsDistinct-ordered,
}
use stripe_entitlements_fast.Clawback.{
  is_outstanding, outstanding_debts, is_debt, collect, record_collection, collect_debts,
}

-- what a row still owes
abbrev pub owes : ClawbackDebt → ℕ
owes d = d.target - d.collected

module _ (account epoch : ℕ) (event : EventTag) where
  -- what the epoch still owes
  abbrev pub owed : Db → ℕ
  owed db =
      sum_of (λ d. if d.account_id == account && d.grant_epoch == epoch then owes d else 0)
        db.clawback_debts

  abbrev hits : ℕ → ClawbackDebt → Bool
  hits = is_debt account epoch event

  debt-IsKey : IsKey hits
  debt-IsKey = record { apart = λ j k r p q. ground arith }

  -- at most one debt of the epoch has an invoice
  abbrev pub HasUniqueDebts : Db → Type 0
  HasUniqueDebts db = IsUnique hits (λ d. d.invoice) db.clawback_debts

  abbrev AllOwing : List ClawbackDebt → Type 0
  AllOwing =
      All (λ d. (d.account_id ≡ account) × (d.grant_epoch ≡ epoch) × (d.collected < d.target))

  pub record Settles (db : Db) (ds : List ClawbackDebt) (balance collected : ℕ) (r : ℕ × ℕ × Db)
      : Type 0 where
    pub paid : r.1 ≡ collected + min balance (sum_of owes ds)
    pub left : r.0 ≡ balance - min balance (sum_of owes ds)
    pub reduced : owed r.2 + min balance (sum_of owes ds) ≡ owed db
    pub accounts : r.2.accounts ≡ db.accounts

  -- a round keeps what the loop rests on, and lowers what is owed
  module _ (d : ClawbackDebt) (amount : ℕ) (rows : List ClawbackDebt) where
    abbrev paid_rows : List ClawbackDebt
    paid_rows = update (hits d.invoice) (collect account epoch event amount) rows

    abbrev weight : ClawbackDebt → ℕ
    weight e = if e.account_id == account && e.grant_epoch == epoch then owes e else 0

    paid_rows-IsUnique :
        IsUnique hits (λ e. e.invoice) rows → IsUnique hits (λ e. e.invoice) paid_rows
    paid_rows-IsUnique =
        update-IsUnique hits (λ e. e.invoice) d.invoice (collect account epoch event amount)
          (λ j r. refl) rows

    paid_rows-IsPending :
        (ds : List ClawbackDebt)
        → All (λ e. d.invoice ≢ e.invoice) ds
        → IsPending hits (λ e. e.invoice) rows ds
        → IsPending hits (λ e. e.invoice) paid_rows ds
    paid_rows-IsPending ds =
        update-IsPending hits (λ e. e.invoice) d.invoice (collect account epoch event amount)
          (λ j r. refl) rows ds debt-IsKey

    paid_rows-owed :
        IsUnique hits (λ e. e.invoice) rows
        → find (hits d.invoice) rows ≡ some d
        → d.account_id ≡ account
        → d.grant_epoch ≡ epoch
        → amount ≤ owes d
        → sum_of weight paid_rows + amount ≡ sum_of weight rows
    paid_rows-owed u p a e le = ground (
      arith,
      u d.invoice,
      sum_of-update weight (hits d.invoice) (collect account epoch event amount) rows d
          (u d.invoice) p,
    )

  Settles-step :
      (d : ClawbackDebt) (ds : List ClawbackDebt) (balance collected : ℕ) (db later : Db)
      (r : ℕ × ℕ × Db) (stop : Bool)
      → let amount = smaller (owes d) balance in
        leb amount 0 ≡ stop
        → d.collected < d.target
        → owed later + amount ≡ owed db
        → later.accounts ≡ db.accounts
        → Settles later ds (balance - amount) (collected + amount) r
        → Settles db (d ∷ ds) balance collected (if stop then (balance, collected, db) else r)
  Settles-step d ds balance collected db later r true e lt o same h = record {
    paid = ground arith;
    left = ground arith;
    reduced = ground arith;
    accounts = refl;
  }
  Settles-step d ds balance collected db later r false e lt o same h = record {
    paid = ground (arith, h.paid);
    left = ground (arith, h.left);
    reduced = ground (arith, h.reduced);
    accounts = h.accounts ∙ same;
  }

  collect_debts-Settles :
      (ds : List ClawbackDebt) (balance collected : ℕ) (db : Db)
      → HasUniqueDebts db
      → IsPending hits (λ d. d.invoice) db.clawback_debts ds
      → IsDistinct hits (λ d. d.invoice) ds
      → AllOwing ds
      → Settles db ds balance collected (collect_debts account epoch event ds balance collected db)
  unfolding collect_debts record_collection
  collect_debts-Settles [] balance collected db u p n o = record {
    paid = omega arith;
    left = omega arith;
    reduced = omega arith;
    accounts = refl;
  }
  collect_debts-Settles (d ∷ ds) balance collected db u p n o =
      let amount = smaller (owes d) balance in
      let later = record_collection account epoch event d amount (balance - amount) db in
      let rest : Settles later ds (balance - amount) (collected + amount)
          (collect_debts account epoch event ds (balance - amount) (collected + amount) later) =
        collect_debts-Settles ds (balance - amount) (collected + amount) later
          (paid_rows-IsUnique d amount db.clawback_debts u)
          (paid_rows-IsPending d amount db.clawback_debts ds n.0 p.1) n.1 o.1 in
      Settles-step d ds balance collected db later
        (collect_debts account epoch event ds (balance - amount) (collected + amount) later)
        (leb amount 0) refl o.0.2
        (paid_rows-owed d amount db.clawback_debts u p.0 o.0.0 o.0.1 (ground arith)) refl rest

  -- the selected debts are pending, distinct and owing
  module _ (db : Db) (u : HasUniqueDebts db) where
    selected_is_key :
        (d : ClawbackDebt) → is_outstanding account epoch event d ≡ true → hits d.invoice d ≡ true
    selected_is_key d h = ground arith

    AllOwing-select :
        (rows : List ClawbackDebt) → AllOwing (select (is_outstanding account epoch event) rows)
    AllOwing-select [] = tt
    AllOwing-select (x ∷ xs) = elim (Bool-cases (is_outstanding account epoch event x)) [
      | inl chosen ↦ rw chosen ((ground arith, ground arith, ground arith), AllOwing-select xs)
      | inr passed ↦ rw passed (AllOwing-select xs)
    ]

    sum_of-outstanding :
        (rows : List ClawbackDebt)
        → sum_of owes (select (is_outstanding account epoch event) rows)
          ≡ sum_of
              (λ d. if d.account_id == account && d.grant_epoch == epoch then owes d else 0)
              rows
    sum_of-outstanding [] = refl
    sum_of-outstanding (x ∷ xs) = ground (arith, sum_of-outstanding xs)

    pub collect-Settles :
        (balance : ℕ)
        → Settles db (outstanding_debts account epoch event db) balance 0 (
            collect_debts account epoch event
              (outstanding_debts account epoch event db)
              balance
              0
              db)
    unfolding outstanding_debts
    collect-Settles balance =
        let le = λ (a b : ClawbackDebt). le_pair a.created_at a.invoice b.created_at b.invoice in
        let chosen = select (is_outstanding account epoch event) db.clawback_debts in
        collect_debts-Settles (order_by le chosen) balance 0 db u
          (IsPending-ordered hits (λ d. d.invoice) (is_outstanding account epoch event)
            selected_is_key le db.clawback_debts u)
          (IsDistinct-ordered hits (λ d. d.invoice) (is_outstanding account epoch event)
            selected_is_key le db.clawback_debts u)
          (All-order_by
            (λ d. (d.account_id ≡ account) × (d.grant_epoch ≡ epoch) × (d.collected < d.target)) le
            chosen (AllOwing-select db.clawback_debts))

    pub outstanding-owed : sum_of owes (outstanding_debts account epoch event db) ≡ owed db
    unfolding outstanding_debts
    outstanding-owed =
        sum_of-order_by owes (λ a b. le_pair a.created_at a.invoice b.created_at b.invoice)
          (select (is_outstanding account epoch event) db.clawback_debts)
        ∙ sum_of-outstanding db.clawback_debts
