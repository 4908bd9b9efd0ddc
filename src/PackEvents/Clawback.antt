-- ===== src/PackEvents/Clawback.antt =====
-- `CreditPackEventProcessor.clawback` of typescript/src/credit-pack-events.ts: a refund or a dispute of
-- the charge of a pack takes its credits back, first from the lot, then as a debt.
pub mod Advance
pub mod Rows
pub mod Matching
pub mod Replay
use stripe_entitlements_fast.Base.{
  ℕ, ◌-◌, String, Bool, true, false, not, Option, none, some, ◌&&◌, ◌||◌, ◌==◌, ltb, leb,
  if◌then◌else◌, update,
}
use stripe_entitlements_fast.Store.{
  Db, Account, Order, Lot, lot_disputed, PaymentStatus, clawback_contract_mismatch, DedupeKey,
  by_charge, by_event, Tx, pure, modify, ◌>>=◌, ◌>>◌,
}
use stripe_entitlements_fast.PackEvents.{
  PaymentIntent, handled, replayed, clawback_order_missing, clawback_mismatch, cash_facts_advanced,
  facts_not_advanced, clawback_removed, ProcessResult, ignore, same_id, is_some, coalesce, Identity,
  order_metadata, locked_order, record_incident, adopt_customer, change_order,
}
use stripe_entitlements_fast.PackEvents.Contract.{
  ChargeObject, ClawbackEvent, Facts, matched_facts, target_cash, target_atoms, cash_status,
}
use stripe_entitlements_fast.PackEvents.Recovery.{recover}

abbrev pub same_status : PaymentStatus → PaymentStatus → Bool
same_status PaymentStatus.pending PaymentStatus.pending = true
same_status PaymentStatus.paid PaymentStatus.paid = true
same_status PaymentStatus.partially_refunded PaymentStatus.partially_refunded = true
same_status PaymentStatus.refunded PaymentStatus.refunded = true
same_status PaymentStatus.disputed PaymentStatus.disputed = true
same_status _ _ = false

-- the order with the cash facts, and with a total of refunded credits
abbrev pub with_cash : Facts → Order → Order → Order
with_cash f seen o = record o {
  payment_intent_id = coalesce o.payment_intent_id (some f.payment_intent);
  charge_id = coalesce o.charge_id (some f.charge);
  customer_id = coalesce o.customer_id (some f.customer);
  amount_paid = some f.amount;
  amount_refunded = target_cash f seen;
  payment_status = cash_status f seen;
}

abbrev pub is_spent_lot_of : ℕ → Lot → Bool
is_spent_lot_of order l = l.order_id == order && l.remaining == 0

abbrev pub dispute_spent_lot : Facts → ℕ → Db → Db
dispute_spent_lot f order db =
    if f.dispute
    then record db {
      lots = update (is_spent_lot_of order) (λ l. record l { status = lot_disputed }) db.lots;
    }
    else db

-- the branch in which no more credits are to be taken back
unfoldable pub advance_cash : Facts → Order → ℕ → Tx ProcessResult
unfolding target_cash cash_status
advance_cash f o account =
    if ltb o.amount_refunded (target_cash f o)
      || not (same_status (cash_status f o) o.payment_status)
    then (do
      modify (change_order o.id (with_cash f o))
      modify (dispute_spent_lot f o.id)
      pure (record { outcome = handled; reason = cash_facts_advanced; account_id = some account }))
    else pure
        (record { outcome = replayed; reason = facts_not_advanced; account_id = some account })

-- the branch in which credits are taken back
unfoldable pub advance_credits : Facts → Order → ℕ → Tx ProcessResult
unfolding target_atoms
advance_credits f o account = do
  removed ← recover f o account (target_atoms f o - o.refunded_credits)
  modify (change_order o.id (λ r. record (with_cash f o r) { refunded_credits = target_atoms f o }))
  pure (record { outcome = handled; reason = clawback_removed removed; account_id = some account })

-- the statements after the contract is found to match
unfoldable pub advance : Facts → Account → Order → Tx ProcessResult
unfolding target_atoms
advance f a o = do
  modify (adopt_customer a f.customer)
  if leb (target_atoms f o) o.refunded_credits
      then advance_cash f o a.id
      else advance_credits f o a.id

abbrev pub dedupe_charge : Option ℕ → Option ℕ → DedupeKey
dedupe_charge (some charge) event = by_charge charge
dedupe_charge none event = by_event event

unfoldable pub claw_back_order :
    String
    → ClawbackEvent
    → ChargeObject
    → PaymentIntent
    → ℕ
    → Identity
    → Account
    → Order
    → Tx ProcessResult
claw_back_order line e c p payment identity a o =
    elim (matched_facts line e.dispute c p payment identity.pack_key a o) [
      | none ↦ do
        modify
            (record_incident clawback_contract_mismatch e.id (dedupe_charge c.id e.id) (some a.id))
        pure (ignore clawback_mismatch)
      | some f ↦ advance f a o
    ]

-- the PaymentIntent of the charge, where the resolved object is the same
abbrev pub agreed_payment : ChargeObject → PaymentIntent → Option ℕ
agreed_payment c p =
    if is_some c.payment_intent && same_id c.payment_intent p.id then c.payment_intent else none

unfoldable pub claw_back_payment :
    String → ClawbackEvent → ChargeObject → PaymentIntent → Tx (Option ProcessResult)
claw_back_payment line e c p db = elim (order_metadata line p.metadata) [
  | none ↦ pure none db
  | some identity ↦ elim (agreed_payment c p) [
    | none ↦ pure none db
    | some payment ↦ elim (locked_order identity.order identity.account db) [
      | none ↦ pure (some (ignore clawback_order_missing)) db
      | some (a, o) ↦ (do r ← claw_back_order line e c p payment identity a o; pure (some r)) db
    ]
  ]
]

-- `clawback`; none where the event is not about a pack
unfoldable pub clawback : String → ClawbackEvent → Tx (Option ProcessResult)
clawback line e db = elim e.charge [
  | none ↦ pure none db
  | some c ↦ elim e.payment_intent [
    | none ↦ pure none db
    | some p ↦ claw_back_payment line e c p db
  ]
]
