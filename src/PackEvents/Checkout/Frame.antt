-- ===== src/PackEvents/Checkout/Frame.antt =====
-- A Checkout event moves no money and no credits (typescript/src/credit-pack-events.ts: "payment webhook
-- remains authoritative").
use mathlib.Core.Path.{subst}
use stripe_entitlements_fast.Base.{
  ℕ, String, ◌≡◌, refl, ◌∙◌, ap, List, [], ◌∷◌, map, Bool, Option, none, some, inl, inr, not, find,
  update, Bool-cases,
}
use stripe_entitlements_fast.Store.{
  Db, Account, Lot, InboxEvent, PackDebt, ClawbackDebt, Debit, Allocation, LedgerEntry, Order,
  PaymentStatus, PackIncidentKind, DedupeKey, ok, Tx, modify,
}
use stripe_entitlements_fast.Store.Frames.{
  Preserves, After, bind-Preserves, pure-Preserves, get_db-Preserves, modify-Preserves,
  if-Preserves, option-Preserves,
}
use stripe_entitlements_fast.PackEvents.{
  PackReason, nullable_matches, ProcessResult, ignore, order_missing, has_order_id, has_account_id,
  record_incident, adopt_if, adopt_customer,
}
use stripe_entitlements_fast.PackEvents.Checkout.{
  Session, CheckoutEvent, bound, bind_if, bind_session, is_pending, lapsed, can_complete, completed,
  refuse, payment_fits, advance_checkout, session_matches, expire_checkout, record_checkout,
  complete_checkout, check_out, account_of, snapshot, named_checkout, session_event, checkout_event,
}

-- what an order says of its payment, and an account of its credits
pub record Money : Type 0 where
  pub status : PaymentStatus
  pub paid : Option ℕ
  pub refunded : ℕ
  pub credits : ℕ

abbrev pub money_of : Order → Money
money_of o = record {
  status = o.payment_status;
  paid = o.amount_paid;
  refunded = o.amount_refunded;
  credits = o.refunded_credits;
}

abbrev pub credits_of : Account → ℕ
credits_of a = a.credits_balance

-- the lots, debts, debits, allocations, the ledger and the inbox, with the money of the orders and the
-- credits of the accounts
pub record Funds : Type 0 where
  pub lots : List Lot
  pub events : List InboxEvent
  pub debts : List PackDebt
  pub clawback_debts : List ClawbackDebt
  pub debits : List Debit
  pub allocations : List Allocation
  pub ledger : List LedgerEntry
  pub payments : List Money
  pub balances : List ℕ

abbrev pub funds_of : Db → Funds
funds_of db = record {
  lots = db.lots;
  events = db.inbox;
  debts = db.pack_debts;
  clawback_debts = db.clawback_debts;
  debits = db.debits;
  allocations = db.allocations;
  ledger = db.ledger;
  payments = map money_of db.orders;
  balances = map credits_of db.accounts;
}

-- The funds of two databases and their inboxes are the same.
abbrev pub SameFunds : Db → Db → Type 0
SameFunds before db = funds_of db ≡ funds_of before

map-update :
    {A B : Type 0} (w : A → B) (p : A → Bool) (g : A → A) (rows : List A)
    → ((r : A) → w (g r) ≡ w r)
    → map w (update p g rows) ≡ map w rows
map-update w p g [] h = refl
map-update w p g (x ∷ xs) h = elim (Bool-cases (p x)) [
  | inl hit ↦ rw (hit, h x, map-update w p g xs h) refl
  | inr miss ↦ rw (miss, map-update w p g xs h) refl
]

module _ (before : Db) where
  abbrev pub Keeps : {A : Type 0} → Tx A → Type 0
  Keeps = Preserves (SameFunds before)

  ruleset frame = (bind-Preserves, pure-Preserves, get_db-Preserves, if-Preserves)

  -- an update of orders that leaves what they say of money
  orders-Keeps :
      (p : Order → Bool) (g : Order → Order)
      → ((o : Order) → money_of (g o) ≡ money_of o)
      → Keeps (modify (λ db. record db { orders = update p g db.orders }))
  orders-Keeps p g h = modify-Preserves (SameFunds before) _ (λ db k.
      ap (λ rows. record (funds_of db) { payments = rows }) (map-update money_of p g db.orders h)
      ∙ k)

  incident-Keeps :
      (kind : PackIncidentKind) (event : Option ℕ) (key : DedupeKey) (account : Option ℕ)
      → Keeps (modify (record_incident kind event key account))
  unfolding record_incident
  incident-Keeps kind event key account = modify-Preserves (SameFunds before) _ (λ db k. k)

  adopt_if-Keeps :
      (stored : Option ℕ) (account customer : ℕ) → Keeps (modify (adopt_if stored account customer))
  adopt_if-Keeps none account customer = modify-Preserves (SameFunds before) _ (λ db k.
      ap (λ rows. record (funds_of db) { balances = rows })
        (map-update credits_of (has_account_id account)
          (λ r. record r { customer_id = some customer }) db.accounts (λ r. refl))
      ∙ k)
  adopt_if-Keeps (some c) account customer = modify-Preserves (SameFunds before) _ (λ db k. k)

  adopt_customer-Keeps : (a : Account) (customer : ℕ) → Keeps (modify (adopt_customer a customer))
  unfolding adopt_customer
  adopt_customer-Keeps a customer = adopt_if-Keeps a.customer_id a.id customer

  bind_if-Keeps :
      (stored : Option ℕ) (session order : ℕ) → Keeps (modify (bind_if stored session order))
  bind_if-Keeps none session order = orders-Keeps (has_order_id order) (bound session) (λ r. refl)
  bind_if-Keeps (some c) session order = modify-Preserves (SameFunds before) _ (λ db k. k)

  bind_session-Keeps : (session : ℕ) (o : Order) → Keeps (modify (bind_session session o))
  bind_session-Keeps session o = bind_if-Keeps o.session_id session o.id

  expire_checkout-Keeps : (a : Account) (o : Order) → Keeps (expire_checkout a o)
  unfolding expire_checkout
  expire_checkout-Keeps a o =
      bind-Preserves (SameFunds before)
        (if-Preserves (SameFunds before) (is_pending o.payment_status)
          (orders-Keeps (has_order_id o.id) lapsed (λ r. refl))
          (pure-Preserves (SameFunds before) tt))
        (λ _. search (frame))

  completed-Keeps :
      (order payment customer : ℕ)
      → Keeps (
          modify (λ db. record db {
            orders = update (can_complete order payment) (completed payment customer) db.orders;
          }))
  completed-Keeps order payment customer =
      orders-Keeps (can_complete order payment) (completed payment customer) (λ r. refl)

  record_checkout-Keeps :
      (payment customer : ℕ) (a : Account) (o : Order)
      → Keeps (record_checkout payment customer a o)
  unfolding record_checkout
  record_checkout-Keeps payment customer a o = search (frame, completed-Keeps, adopt_customer-Keeps)

  refuse-Keeps :
      (event : Option ℕ) (session account : ℕ) (reason : PackReason)
      → Keeps (refuse event session account reason)
  unfolding refuse
  refuse-Keeps event session account reason = search (frame, incident-Keeps)

  complete_checkout-Keeps :
      (event : Option ℕ) (session : ℕ) (s : Session) (customer : ℕ) (a : Account) (o : Order)
      → Keeps (complete_checkout event session s customer a o)
  unfolding complete_checkout
  complete_checkout-Keeps event session s customer a o =
      if-Preserves (SameFunds before) (not (payment_fits s a o)) (refuse-Keeps event session a.id _)
        (option-Preserves (SameFunds before) s.payment_intent (refuse-Keeps event session a.id _)
          (λ payment. record_checkout-Keeps payment customer a o))

  advance_checkout-Keeps :
      (e : CheckoutEvent) (session : ℕ) (s : Session) (a : Account) (o : Order) (customer : ℕ)
      → Keeps (advance_checkout e session s a o customer)
  unfolding advance_checkout
  advance_checkout-Keeps e session s a o customer =
      search (frame, bind_session-Keeps, expire_checkout-Keeps, complete_checkout-Keeps)

  check_out-Keeps :
      (line : String) (e : CheckoutEvent) (session : ℕ) (s : Session) (a : Account) (o : Order)
      → Keeps (check_out line e session s a o)
  unfolding check_out
  check_out-Keeps line e session s a o =
      if-Preserves (SameFunds before) (not (nullable_matches o.session_id (some session)))
        (pure-Preserves (SameFunds before) _)
        (if-Preserves (SameFunds before) (not (session_matches line e.is_expiry s a o))
          (refuse-Keeps e.id session a.id _)
          (option-Preserves (SameFunds before) s.customer (refuse-Keeps e.id session a.id _)
            (advance_checkout-Keeps e session s a o)))

  named_checkout-Keeps :
      (line : String) (e : CheckoutEvent) (session : ℕ) (s : Session) (o : Order)
      → Keeps (named_checkout line e session s o)
  unfolding named_checkout
  named_checkout-Keeps line e session s o =
      bind-Preserves (SameFunds before) (get_db-Preserves (SameFunds before)) (λ db.
        option-Preserves (SameFunds before) (account_of o db) (pure-Preserves (SameFunds before) _)
          (λ a.
            option-Preserves (SameFunds before) (find (has_order_id o.id) db.orders)
              (pure-Preserves (SameFunds before) _)
              (λ row. check_out-Keeps line e session s a row)))

  snapshot-Keeps :
      {A : Type 0} (found : Option (Option Order)) {m n : Tx A} {k : Order → Tx A}
      → Keeps m
      → Keeps n
      → ((o : Order) → Keeps (k o))
      → Keeps (elim found [ none ↦ m | some none ↦ n | some (some o) ↦ k o ])
  snapshot-Keeps none p q r = p
  snapshot-Keeps (some none) p q r = q
  snapshot-Keeps (some (some o)) p q r = r o

  session_event-Keeps :
      (line : String) (e : CheckoutEvent) (s : Session) (session : ℕ)
      → Keeps (session_event line e s session)
  unfolding session_event
  session_event-Keeps line e s session =
      bind-Preserves (SameFunds before) (get_db-Preserves (SameFunds before)) (λ db.
        snapshot-Keeps (snapshot line session s db) (pure-Preserves (SameFunds before) none)
          (pure-Preserves (SameFunds before) (some (ignore order_missing)))
          (λ o. search (frame, named_checkout-Keeps)))

  pub checkout_event-Keeps : (line : String) (e : CheckoutEvent) → Keeps (checkout_event line e)
  unfolding checkout_event
  checkout_event-Keeps line e =
      option-Preserves (SameFunds before) e.object (pure-Preserves (SameFunds before) none) (λ s.
        option-Preserves (SameFunds before) s.id (pure-Preserves (SameFunds before) none)
          (λ session. session_event-Keeps line e s session))

-- Whatever a Checkout event holds, it leaves every lot, debt, debit, allocation and ledger entry, the
-- inbox, what each order says of its payment and refunds, and the balance of each account.
pub checkout_event-SameFunds :
    (line : String) (e : CheckoutEvent) (db : Db) (r : Option ProcessResult) (later : Db)
    → checkout_event line e db ≡ ok (r, later)
    → SameFunds db later
checkout_event-SameFunds line e db r later h =
    subst (After (SameFunds db)) h ((checkout_event-Keeps db line e).after db refl)
