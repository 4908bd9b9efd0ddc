-- ===== src/PackEvents/Checkout.antt =====
-- `CreditPackEventProcessor.checkoutEvent` of typescript/src/credit-pack-events.ts: a Checkout Session of
-- an order is completed or expires. It never funds the order.
pub mod Frame
use stripe_entitlements_fast.Base.{
  ℕ, String, Bool, true, false, not, Option, none, some, ◌&&◌, ◌||◌, ◌==◌, str_eq, if◌then◌else◌,
  find, update,
}
use stripe_entitlements_fast.Store.{
  Db, Account, Order, CheckoutStatus, PaymentStatus, checkout_contract_mismatch, by_session, Tx,
  pure, get_db, modify, ◌>>=◌, ◌>>◌,
}
use stripe_entitlements_fast.PackEvents.{
  IdText, PackMetadata, PackReason, handled, order_missing, session_conflicting,
  contract_conflicting, checkout_expired, identity_conflicting, checkout_recorded, ProcessResult,
  ignore, equals_text, equals, equals_id, is_some, nullable_matches, coalesce, Identity,
  order_metadata, metadata_matches_order, has_order_id, has_account_id, record_incident,
  adopt_customer, change_order,
}

-- A Checkout Session, as it is read.
pub record Session : Type 0 where
  pub id : Option ℕ
  pub is_session : Bool
  pub is_payment_mode : Bool
  pub status : Option String
  pub payment_status : Option String
  pub client_reference : Option IdText
  pub amount_total : Option ℕ
  pub currency : Option String
  pub customer : Option ℕ
  pub payment_intent : Option ℕ
  pub metadata : PackMetadata

-- The event, and whether its type is `checkout.session.expired`.
pub record CheckoutEvent : Type 0 where
  pub id : Option ℕ
  pub is_expiry : Bool
  pub object : Option Session

abbrev pub has_session : ℕ → Order → Bool
has_session session o = equals session o.session_id

abbrev pub is_named : Identity → Order → Bool
is_named i o = o.id == i.order && o.account_id == i.account

-- `snapshot`, by the session or else by the metadata: none where the event is not about a pack, and
-- some none where its order is missing
unfoldable pub snapshot : String → ℕ → Session → Db → Option (Option Order)
snapshot line session s db = elim (find (has_session session) db.orders) [
  | some o ↦ some (some o)
  | none ↦ elim (order_metadata line s.metadata) [
    | none ↦ none
    | some i ↦ some (find (is_named i) db.orders)
  ]
]

abbrev pub names_order : Option Identity → Account → Order → Bool
names_order none a o = false
names_order (some i) a o = i.order == o.id && i.account == a.id && str_eq i.pack_key o.pack_key

-- `sessionContractMatches`
unfoldable pub session_matches : String → Bool → Session → Account → Order → Bool
session_matches line expiry s a o =
    s.is_session
    && s.is_payment_mode
    && equals_text (if expiry then "expired" else "complete") s.status
    && (if expiry
        then equals_text "unpaid" s.payment_status
        else equals_text "paid" s.payment_status || equals_text "unpaid" s.payment_status)
    && equals_id a.id s.client_reference
    && equals o.price_amount s.amount_total
    && equals_text o.currency s.currency
    && names_order (order_metadata line s.metadata) a o
    && metadata_matches_order line s.metadata o
    && is_some s.customer
    && nullable_matches o.request_customer_id s.customer

abbrev pub bound : ℕ → Order → Order
bound session o = record o {
  session_id = some session;
  checkout_status = CheckoutStatus.session_created;
}

abbrev pub bind_if : Option ℕ → ℕ → ℕ → Db → Db
bind_if none session order db = change_order order (bound session) db
bind_if (some _) session order db = db

-- the order keeps the first session that it is given
abbrev pub bind_session : ℕ → Order → Db → Db
bind_session session o db = bind_if o.session_id session o.id db

abbrev pub is_pending : PaymentStatus → Bool
is_pending PaymentStatus.pending = true
is_pending _ = false

abbrev pub lapsed : Order → Order
lapsed o = record o { checkout_status = CheckoutStatus.expired }

-- the branch of an expired session
unfoldable pub expire_checkout : Account → Order → Tx ProcessResult
expire_checkout a o = do
  if is_pending o.payment_status then modify (change_order o.id lapsed) else pure tt
  pure (record { outcome = handled; reason = checkout_expired; account_id = some a.id })

abbrev pub payment_fits : Session → Account → Order → Bool
payment_fits s a o =
    is_some s.payment_intent
    && nullable_matches o.payment_intent_id s.payment_intent
    && nullable_matches o.customer_id s.customer
    && nullable_matches a.customer_id s.customer

abbrev pub can_complete : ℕ → ℕ → Order → Bool
can_complete order payment o = o.id == order && nullable_matches o.payment_intent_id (some payment)

abbrev pub completed : ℕ → ℕ → Order → Order
completed payment customer o = record o {
  checkout_status = CheckoutStatus.completed;
  payment_intent_id = coalesce o.payment_intent_id (some payment);
  customer_id = coalesce o.customer_id (some customer);
}

-- the branch of a completed session whose ids fit
unfoldable pub record_checkout : ℕ → ℕ → Account → Order → Tx ProcessResult
record_checkout payment customer a o = do
  modify (λ db. record db {
    orders = update (can_complete o.id payment) (completed payment customer) db.orders;
  })
  modify (adopt_customer a customer)
  pure (record { outcome = handled; reason = checkout_recorded; account_id = some a.id })

-- an incident, and the reason of the refusal
unfoldable pub refuse : Option ℕ → ℕ → ℕ → PackReason → Tx ProcessResult
refuse event session account reason = do
  modify (record_incident checkout_contract_mismatch event (by_session session) (some account))
  pure (ignore reason)

unfoldable pub complete_checkout : Option ℕ → ℕ → Session → ℕ → Account → Order → Tx ProcessResult
complete_checkout event session s customer a o =
    if not (payment_fits s a o)
    then refuse event session a.id identity_conflicting
    else elim s.payment_intent [
      | none ↦ refuse event session a.id identity_conflicting
      | some payment ↦ record_checkout payment customer a o
    ]

unfoldable pub advance_checkout :
    CheckoutEvent → ℕ → Session → Account → Order → ℕ → Tx ProcessResult
advance_checkout e session s a o customer = do
  modify (bind_session session o)
  if e.is_expiry then expire_checkout a o else complete_checkout e.id session s customer a o

-- the statements on the locked rows
unfoldable pub check_out : String → CheckoutEvent → ℕ → Session → Account → Order → Tx ProcessResult
check_out line e session s a o =
    if not (nullable_matches o.session_id (some session))
    then pure (ignore session_conflicting)
    else if not (session_matches line e.is_expiry s a o)
    then refuse e.id session a.id contract_conflicting
    else elim s.customer [
      | none ↦ refuse e.id session a.id contract_conflicting
      | some customer ↦ advance_checkout e session s a o customer
    ]

abbrev pub account_of : Order → Db → Option Account
account_of o db = find (has_account_id o.account_id) db.accounts

unfoldable pub named_checkout : String → CheckoutEvent → ℕ → Session → Order → Tx ProcessResult
named_checkout line e session s o = do
  db ← get_db
  elim (account_of o db) [
    | none ↦ pure (ignore order_missing)
    | some a ↦ elim (find (has_order_id o.id) db.orders) [
      | none ↦ pure (ignore order_missing)
      | some row ↦ check_out line e session s a row
    ]
  ]

unfoldable pub session_event : String → CheckoutEvent → Session → ℕ → Tx (Option ProcessResult)
session_event line e s session = do
  db ← get_db
  elim (snapshot line session s db) [
    | none ↦ pure none
    | some none ↦ pure (some (ignore order_missing))
    | some (some o) ↦ do r ← named_checkout line e session s o; pure (some r)
  ]

-- `checkoutEvent`; none where the event is not about a pack
unfoldable pub checkout_event : String → CheckoutEvent → Tx (Option ProcessResult)
checkout_event line e = elim e.object [
  | none ↦ pure none
  | some s ↦ elim s.id [ none ↦ pure none | some session ↦ session_event line e s session ]
]
