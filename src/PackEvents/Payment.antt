-- ===== src/PackEvents/Payment.antt =====
-- `CreditPackEventProcessor.paymentSucceeded` of typescript/src/credit-pack-events.ts: a payment of an
-- order makes its lot. An instant is in microseconds, and a day of `make_interval` has 24 hours.
pub mod Funds
use stripe_entitlements_fast.Base.{
  ℕ, ◌+◌, ◌-◌, ◌*◌, [], ◌∷◌, ◌++◌, String, Bool, true, false, not, Option, none, some, ◌&&◌, ◌||◌,
  ◌==◌, ltb, leb, str_eq, if◌then◌else◌, exists,
}
use stripe_entitlements_fast.Store.{
  Account, Order, CheckoutStatus, PaymentStatus, Lot, LotStatus, lot_active, lot_expired,
  lot_refunded, lot_disputed, payment_metadata_invalid, payment_identity_conflict,
  payment_contract_mismatch, by_payment, Tx, pure, raise, get_db, modify, unique_violation, ◌>>=◌,
  ◌>>◌,
}
use stripe_entitlements_fast.Funding.{collect_pack_debts_from_lot}
use stripe_entitlements_fast.PackEvents.{
  PaymentIntent, handled, replayed, payment_not_authorized, order_conflicting, payment_mismatch,
  no_creation_time, lot_exists, funding_granted, ProcessResult, ignore, equals_text, equals,
  is_some, nullable_matches, coalesce, Identity, order_metadata, metadata_matches_order,
  locked_order, record_incident, adopt_customer, change_order,
}

-- The event: its id, its creation time in seconds, and the PaymentIntent in it.
pub record PaymentEvent : Type 0 where
  pub id : Option ℕ
  pub created : Option ℕ
  pub object : Option PaymentIntent

abbrev pub of_seconds : ℕ → ℕ
of_seconds s = s * 1000000

abbrev pub of_days : ℕ → ℕ
of_days d = d * 86400000000

-- the ids of a payment that matches its order
pub record Paid : Type 0 where
  pub payment_intent : ℕ
  pub charge : ℕ
  pub customer : ℕ
  pub amount : ℕ

abbrev pub paid_of : ℕ → Option ℕ → Option ℕ → Option ℕ → Option Paid
paid_of payment (some charge) (some customer) (some amount) =
    some
      (record { payment_intent = payment; charge = charge; customer = customer; amount = amount })
paid_of payment _ _ _ = none

-- `shapeMatches`, with the ids that the later statements use
unfoldable pub matched_payment : String → PaymentIntent → ℕ → String → Account → Order → Option Paid
matched_payment line p payment pack_key a o =
    if p.is_payment_intent
      && p.is_succeeded
      && is_some p.customer
      && is_some p.latest_charge
      && equals o.price_amount p.amount
      && equals o.price_amount p.amount_received
      && equals_text o.currency p.currency
      && str_eq pack_key o.pack_key
      && metadata_matches_order line p.metadata o
      && nullable_matches o.payment_intent_id (some payment)
      && nullable_matches o.charge_id p.latest_charge
      && nullable_matches o.request_customer_id p.customer
      && nullable_matches o.customer_id p.customer
      && nullable_matches a.customer_id p.customer
    then paid_of payment p.latest_charge p.customer p.amount_received
    else none

-- `paymentStatus`
abbrev pub paid_status : PaymentStatus → PaymentStatus
paid_status PaymentStatus.pending = PaymentStatus.paid
paid_status s = s

abbrev pub completed_status : Option ℕ → CheckoutStatus → CheckoutStatus
completed_status none s = s
completed_status (some _) CheckoutStatus.expired = CheckoutStatus.expired
completed_status (some _) s = CheckoutStatus.completed

-- the update of the order
abbrev pub paid_order : Paid → ℕ → Order → Order → Order
paid_order p created seen o = record o {
  payment_intent_id = some p.payment_intent;
  charge_id = coalesce o.charge_id (some p.charge);
  customer_id = some p.customer;
  amount_paid = some p.amount;
  payment_status = paid_status seen.payment_status;
  paid_at = coalesce o.paid_at (some (of_seconds created));
  checkout_status = completed_status o.session_id o.checkout_status;
}

abbrev pub is_disputed : PaymentStatus → Bool
is_disputed PaymentStatus.disputed = true
is_disputed _ = false

-- `fundingTerminal`
abbrev pub is_terminal : Order → Bool
is_terminal o = o.refunded_credits == o.pack_credits || is_disputed (paid_status o.payment_status)

abbrev pub expiry : Order → ℕ → ℕ
expiry o created = of_seconds created + of_days o.expires_days

-- `financially_expired`
abbrev pub is_past : Order → ℕ → ℕ → Bool
is_past o created clock = not (is_terminal o) && leb (expiry o created) clock

abbrev pub terminal_status : Order → LotStatus
terminal_status o =
    if is_disputed (paid_status o.payment_status) then lot_disputed else lot_refunded

-- the row of the new lot
unfoldable pub funded_lot : ℕ → Order → Account → ℕ → ℕ → Lot
funded_lot lot o a created clock =
    let remaining = o.pack_credits - o.refunded_credits in
    record {
      id = lot;
      order_id = o.id;
      account_id = a.id;
      original = o.pack_credits;
      remaining = if is_terminal o || is_past o created clock then 0 else remaining;
      expired = if is_past o created clock then remaining else 0;
      clawed_back = o.refunded_credits;
      expires_at = expiry o created;
      status =
          if is_terminal o
          then terminal_status o
          else if is_past o created clock
          then lot_expired
          else lot_active;
    }

-- the insert of a lot: its id and its order are unique
unfoldable pub insert_lot : Lot → Tx (Unit {0})
insert_lot l db =
    if exists (λ r. r.id == l.id || r.order_id == l.order_id) db.lots
    then raise unique_violation db
    else modify (λ db. record db { lots = db.lots ++ l ∷ [] }) db

-- the new lot, and the debts that it pays
unfoldable pub fund : ℕ → Order → Account → ℕ → Tx ProcessResult
unfolding funded_lot
fund lot o a created = do
  db ← get_db
  insert_lot (funded_lot lot o a created db.clock)
  let remaining = o.pack_credits - o.refunded_credits
  if not (is_terminal o) && not (is_past o created db.clock) && ltb 0 remaining
      then (do collected ← collect_pack_debts_from_lot a.id lot remaining; pure tt)
      else pure tt
  pure (record { outcome = handled; reason = funding_granted; account_id = some a.id })

-- the statements after the shape is found to match; `lot` is the id that `randomUUID` draws
unfoldable pub take_payment : ℕ → Paid → ℕ → Account → Order → Tx ProcessResult
take_payment lot p created a o = do
  db ← get_db
  modify (change_order o.id (paid_order p created o))
  modify (adopt_customer a p.customer)
  if exists (λ l. l.order_id == o.id) db.lots
      then pure (record { outcome = replayed; reason = lot_exists; account_id = some a.id })
      else fund lot o a created

unfoldable pub pay_order :
    ℕ → String → PaymentEvent → PaymentIntent → ℕ → Identity → Account → Order → Tx ProcessResult
pay_order lot line e p payment identity a o =
    elim (matched_payment line p payment identity.pack_key a o) [
      | none ↦ do
        modify (record_incident payment_contract_mismatch e.id (by_payment payment) (some a.id))
        pure (ignore payment_mismatch)
      | some paid ↦ elim e.created [
        | none ↦ pure (ignore no_creation_time)
        | some created ↦ take_payment lot paid created a o
      ]
    ]

-- a payment that names no order of this product line, yet claims to be one of a pack
unfoldable pub unnamed_payment : PaymentEvent → PaymentIntent → Tx ProcessResult
unnamed_payment e p = elim p.id [
  | none ↦ pure (ignore payment_not_authorized)
  | some payment ↦ do
    if equals_text "credit_pack" p.metadata.billing_kind
        then modify (record_incident payment_metadata_invalid e.id (by_payment payment) none)
        else pure tt
    pure (ignore payment_not_authorized)
]

unfoldable pub named_payment :
    ℕ → String → PaymentEvent → PaymentIntent → Identity → ℕ → Tx ProcessResult
named_payment lot line e p identity payment = do
  db ← get_db
  elim (locked_order identity.order identity.account db) [
    | none ↦ do
      modify (record_incident payment_identity_conflict e.id (by_payment payment) none)
      pure (ignore order_conflicting)
    | some (a, o) ↦ pay_order lot line e p payment identity a o
  ]

-- `paymentSucceeded`
unfoldable pub payment_succeeded : ℕ → String → PaymentEvent → Tx ProcessResult
payment_succeeded lot line e = elim e.object [
  | none ↦ pure (ignore payment_not_authorized)
  | some p ↦ elim (order_metadata line p.metadata) [
    | none ↦ unnamed_payment e p
    | some identity ↦ elim p.id [
      | none ↦ pure (ignore payment_not_authorized)
      | some payment ↦ named_payment lot line e p identity payment
    ]
  ]
]
