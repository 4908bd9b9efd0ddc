-- ===== src/PackEvents/Clawback/Advance.antt =====
-- The rows of an order and of its account after a clawback (typescript/src/credit-pack-events.ts).
use stripe_entitlements_fast.Base.{
  ℕ, ◌≡◌, refl, ap, ◌∙◌, Bool, true, false, not, Option, none, some, ◌||◌, ◌==◌, inl, inr, arith,
  ltb, leb, le→leb, find, update, Bool-cases, ==_refl, Option-cases, ◌-◌,
}
use stripe_entitlements_fast.Store.{
  Db, Account, Order, PaymentStatus, Result, ok, err, pure, modify, ◌>>◌,
}
use stripe_entitlements_fast.Store.Tables.Updates.{find-update_self}
use stripe_entitlements_fast.PackEvents.{
  nullable_matches, coalesce, has_order_id, adopt_customer, change_order, ProcessResult, handled,
  clawback_removed,
}
use stripe_entitlements_fast.PackEvents.Contract.{Facts, target_cash, target_atoms, cash_status}
use stripe_entitlements_fast.PackEvents.Clawback.{
  with_cash, same_status, dispute_spent_lot, advance_cash, advance_credits, advance,
}
use stripe_entitlements_fast.Store.Frames.{After}
use stripe_entitlements_fast.PackEvents.Recovery.{recover}
use stripe_entitlements_fast.PackEvents.Recovery.Kept.{Kept, recover-Kept}

-- an order of which only what a clawback writes has changed
abbrev pub moved : Order → Option ℕ → Option ℕ → Option ℕ → Option ℕ → ℕ → ℕ → PaymentStatus → Order
moved o payment charge customer paid cash credits status = record o {
  payment_intent_id = payment;
  charge_id = charge;
  customer_id = customer;
  amount_paid = paid;
  amount_refunded = cash;
  refunded_credits = credits;
  payment_status = status;
}

-- the test that makes a clawback without new credits write
abbrev pub has_news : Facts → Order → Bool
has_news f o =
    ltb o.amount_refunded (target_cash f o) || not (same_status (cash_status f o) o.payment_status)

-- The row of an order on which the facts have nothing left to do.
pub record Advanced (f : Facts) (o : Order) : Type 0 where
  pub payment : Option ℕ
  pub charge : Option ℕ
  pub customer : Option ℕ
  pub paid : Option ℕ
  pub cash : ℕ
  pub credits : ℕ
  pub status : PaymentStatus
  pub row : Order
  pub is_row : row ≡ moved o payment charge customer paid cash credits status
  pub same_payment :
      nullable_matches o.payment_intent_id (some f.payment_intent) ≡ true
      → nullable_matches payment (some f.payment_intent) ≡ true
  pub same_charge :
      nullable_matches o.charge_id (some f.charge) ≡ true
      → nullable_matches charge (some f.charge) ≡ true
  pub same_customer :
      nullable_matches o.customer_id (some f.customer) ≡ true
      → nullable_matches customer (some f.customer) ≡ true
  pub quiet : has_news f row ≡ false
  pub enough : leb (target_atoms f row) row.refunded_credits ≡ true

coalesce-matches :
    (stored : Option ℕ) (n : ℕ)
    → nullable_matches stored (some n) ≡ true
    → nullable_matches (coalesce stored (some n)) (some n) ≡ true
coalesce-matches none n h = ==_refl n
coalesce-matches (some m) n h = h

same_status_refl : (s : PaymentStatus) → same_status s s ≡ true
same_status_refl PaymentStatus.pending = refl
same_status_refl PaymentStatus.paid = refl
same_status_refl PaymentStatus.partially_refunded = refl
same_status_refl PaymentStatus.refunded = refl
same_status_refl PaymentStatus.disputed = refl

module _ (f : Facts) (o : Order) where
  -- the totals depend on the order by its cash and its credits
  target_cash-again :
      (row : Order) → row.amount_refunded ≡ target_cash f o → target_cash f row ≡ target_cash f o
  unfolding target_cash
  target_cash-again row e = ground arith

  cash_status-again :
      (row : Order) → target_cash f row ≡ target_cash f o → cash_status f row ≡ cash_status f o
  unfolding cash_status
  cash_status-again row e = rw e refl

  target_atoms-again :
      (row : Order)
      → row.pack_credits ≡ o.pack_credits
      → target_cash f row ≡ target_cash f o
      → target_atoms f row ≡ target_atoms f o
  unfolding target_atoms
  target_atoms-again row p e = rw (e, p) refl

  written-quiet :
      (row : Order)
      → row.amount_refunded ≡ target_cash f o
      → row.payment_status ≡ cash_status f o
      → has_news f row ≡ false
  written-quiet row c s =
      let cash = target_cash-again row c in
      rw (cash, cash_status-again row cash, c, s, same_status_refl (cash_status f o)) (ground arith)

  -- the row that the clawback writes, with a total of refunded credits that is enough
  written-Advanced : (credits : ℕ) → leb (target_atoms f o) credits ≡ true → Advanced f o
  written-Advanced credits h =
      let row = record (with_cash f o o) { refunded_credits = credits } in
      record {
        payment = row.payment_intent_id;
        charge = row.charge_id;
        customer = row.customer_id;
        paid = row.amount_paid;
        cash = row.amount_refunded;
        credits = credits;
        status = row.payment_status;
        row = row;
        is_row = refl;
        same_payment = coalesce-matches o.payment_intent_id f.payment_intent;
        same_charge = coalesce-matches o.charge_id f.charge;
        same_customer = coalesce-matches o.customer_id f.customer;
        quiet = written-quiet row refl refl;
        enough = rw (target_atoms-again row refl (target_cash-again row refl)) h;
      }

  -- the row that has nothing to be written
  unchanged-Advanced :
      has_news f o ≡ false → leb (target_atoms f o) o.refunded_credits ≡ true → Advanced f o
  unchanged-Advanced q h = record {
    payment = o.payment_intent_id;
    charge = o.charge_id;
    customer = o.customer_id;
    paid = o.amount_paid;
    cash = o.amount_refunded;
    credits = o.refunded_credits;
    status = o.payment_status;
    row = o;
    is_row = refl;
    same_payment = λ m. m;
    same_charge = λ m. m;
    same_customer = λ m. m;
    quiet = q;
    enough = h;
  }

-- The database after a clawback whose contract matched.
pub record Ended (f : Facts) (a : Account) (o : Order) (db later : Db) : Type 0 where
  pub advanced : Advanced f o
  pub found : find (has_order_id o.id) later.orders ≡ some advanced.row
  pub accounts : later.accounts ≡ (adopt_customer a f.customer db).accounts

module _ (f : Facts) (a : Account) (o : Order) (db : Db) where
  abbrev pub Ends : Result (ProcessResult × Db) → Type 0
  Ends (ok (r, later)) = Ended f a o db later
  Ends (err e) = Unit

  adopt_customer-orders : (customer : ℕ) → (adopt_customer a customer db).orders ≡ db.orders
  unfolding adopt_customer
  adopt_customer-orders customer = elim (Option-cases a.customer_id) [
    | inl first ↦ rw first refl
    | inr (c, known) ↦ rw known refl
  ]

  dispute_spent_lot-orders : (mid : Db) → (dispute_spent_lot f o.id mid).orders ≡ mid.orders
  dispute_spent_lot-orders mid = elim (Bool-cases f.dispute) [
    | inl e ↦ rw e refl
    | inr e ↦ rw e refl
  ]

  dispute_spent_lot-accounts : (mid : Db) → (dispute_spent_lot f o.id mid).accounts ≡ mid.accounts
  dispute_spent_lot-accounts mid = elim (Bool-cases f.dispute) [
    | inl e ↦ rw e refl
    | inr e ↦ rw e refl
  ]

  module _ (mid : Db) (here : find (has_order_id o.id) mid.orders ≡ some o)
      (same : mid.accounts ≡ (adopt_customer a f.customer db).accounts) where
    -- the row of the order is written over
    written-Ended :
        (credits : ℕ) (h : leb (target_atoms f o) credits ≡ true) (g : Order → Order) (later : Db)
        → g o ≡ record (with_cash f o o) { refunded_credits = credits }
        → ((r : Order) → (g r).id ≡ r.id)
        → later.orders ≡ update (has_order_id o.id) g mid.orders
        → later.accounts ≡ mid.accounts
        → Ended f a o db later
    unfolding written-Advanced
    written-Ended credits h g later e id orders accounts = record {
      advanced = written-Advanced f o credits h;
      found =
          ap (find (has_order_id o.id)) orders
          ∙ find-update_self (has_order_id o.id) g mid.orders o (λ r. ap (λ k. k == o.id) (id r))
              here
          ∙ ap some e;
      accounts = accounts ∙ same;
    }

    advance_cash-Ends :
        leb (target_atoms f o) o.refunded_credits ≡ true → Ends (advance_cash f o a.id mid)
    unfolding advance_cash unchanged-Advanced
    advance_cash-Ends h = elim (Bool-cases (has_news f o)) [
      | inl news ↦ rw news (
          written-Ended o.refunded_credits h (with_cash f o) _ refl (λ r. refl)
            (dispute_spent_lot-orders _) (dispute_spent_lot-accounts _))
      | inr quiet ↦
          rw quiet
            (record { advanced = unchanged-Advanced f o quiet h; found = here; accounts = same })
    ]

    -- a recovery that ended well comes to the update of the order
    recovered-Ends :
        (r : Result (ℕ × Db))
        → After (Kept mid.orders mid.accounts) r
        → Ends (elim r [
          | ok (removed, db') ↦
              (do
                modify (
                    change_order o.id
                      (λ r. record (with_cash f o r) { refunded_credits = target_atoms f o }))
                pure (record {
                  outcome = handled;
                  reason = clawback_removed removed;
                  account_id = some a.id;
                }))
                db'
          | err e ↦ err e
        ])
    recovered-Ends (ok (removed, db')) k =
        written-Ended (target_atoms f o) (le→leb _ _ (omega arith))
          (λ r. record (with_cash f o r) { refunded_credits = target_atoms f o }) _ refl (λ r. refl)
          (ap (update (has_order_id o.id) _) k.orders_kept) k.accounts_kept
    recovered-Ends (err e) k = tt

    advance_credits-Ends : Ends (advance_credits f o a.id mid)
    unfolding advance_credits
    advance_credits-Ends =
        recovered-Ends (recover f o a.id (target_atoms f o - o.refunded_credits) mid) (
          (recover-Kept mid.orders mid.accounts f o a.id
              (target_atoms f o - o.refunded_credits)).after
            mid (record { orders_kept = refl; accounts_kept = refl }))

  pub advance-Ends : find (has_order_id o.id) db.orders ≡ some o → Ends (advance f a o db)
  unfolding advance
  advance-Ends here =
      let mid = adopt_customer a f.customer db in
      let found : find (has_order_id o.id) mid.orders ≡ some o =
        ap (find (has_order_id o.id)) (adopt_customer-orders f.customer) ∙ here in
      elim (Bool-cases (leb (target_atoms f o) o.refunded_credits)) [
        | inl enough ↦ rw enough (advance_cash-Ends mid found refl enough)
        | inr more ↦ rw more (advance_credits-Ends mid found refl)
      ]
