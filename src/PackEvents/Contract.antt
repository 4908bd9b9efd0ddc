-- ===== src/PackEvents/Contract.antt =====
-- The contract of a clawback in typescript/src/credit-pack-events.ts: the charge, its PaymentIntent and
-- its dispute as they are read, their tests against the order, and the totals that follow from them.
pub mod Share
use stripe_entitlements_fast.Base.{
  ℕ, ◌+◌, ◌-◌, ◌*◌, ◌/◌, String, Bool, true, false, not, Option, none, some, ◌&&◌, ◌||◌, ltb, leb,
  str_eq, if◌then◌else◌,
}
use stripe_entitlements_fast.Store.{Account, Order, PaymentStatus}
use stripe_entitlements_fast.PackEvents.{
  PaymentIntent, equals_text, equals, same_id, is_some, nullable_matches, metadata_matches_order,
}

-- A Charge, as it is read; `refunded` and `disputed` are `none` where they are no Booleans.
pub record ChargeObject : Type 0 where
  pub id : Option ℕ
  pub payment_intent : Option ℕ
  pub is_charge : Bool
  pub is_paid : Bool
  pub customer : Option ℕ
  pub amount : Option ℕ
  pub amount_refunded : Option ℕ
  pub refunded : Option Bool
  pub disputed : Option Bool
  pub currency : Option String

pub record Dispute : Type 0 where
  pub id : Option ℕ
  pub is_dispute : Bool
  pub charge : Option ℕ
  pub amount : Option ℕ
  pub currency : Option String

-- The event: its dispute where its type is `charge.dispute.created`, the charge and the PaymentIntent
-- that were resolved for it, where they are plain records.
pub record ClawbackEvent : Type 0 where
  pub id : Option ℕ
  pub dispute : Option Dispute
  pub charge : Option ChargeObject
  pub payment_intent : Option PaymentIntent

abbrev pub at_most : Option ℕ → Option ℕ → Bool
at_most (some m) (some n) = leb m n
at_most _ _ = false

abbrev pub is_positive : Option ℕ → Bool
is_positive none = false
is_positive (some n) = ltb 0 n

-- `charge.refunded === (amount_refunded === amount)`
abbrev pub refunded_agrees : Option Bool → Option ℕ → Option ℕ → Bool
refunded_agrees (some true) m n = same_id m n
refunded_agrees (some false) m n = not (same_id m n)
refunded_agrees none m n = false

-- `amountRefunded`: a dispute counts as a refund of the whole amount.
abbrev pub counted_refund : Option Dispute → ChargeObject → Option ℕ
counted_refund none c = c.amount_refunded
counted_refund (some _) c = c.amount

abbrev pub is_disputed_flag : Option Bool → Bool
is_disputed_flag none = false
is_disputed_flag (some b) = b

-- `disputeContractMatches`
unfoldable pub dispute_matches : Option Dispute → ChargeObject → Order → Bool
dispute_matches none c o = true
dispute_matches (some d) c o =
    is_some d.id
    && d.is_dispute
    && same_id d.charge c.id
    && is_positive d.amount
    && at_most d.amount c.amount
    && equals_text o.currency d.currency
    && is_disputed_flag c.disputed

abbrev pub charge_matches : Option Dispute → ChargeObject → Order → Bool
charge_matches dispute c o =
    is_some c.id
    && is_some c.customer
    && c.is_charge
    && c.is_paid
    && equals o.price_amount c.amount
    && at_most (counted_refund dispute c) c.amount
    && at_most c.amount_refunded c.amount
    && (is_some dispute || is_positive (counted_refund dispute c))
    && refunded_agrees c.refunded c.amount_refunded c.amount
    && is_some c.disputed
    && equals_text o.currency c.currency

abbrev pub payment_matches : String → ChargeObject → PaymentIntent → Order → Bool
payment_matches line c p o =
    p.is_payment_intent
    && p.is_succeeded
    && same_id p.customer c.customer
    && same_id p.latest_charge c.id
    && same_id p.amount c.amount
    && same_id p.amount_received c.amount
    && equals_text o.currency p.currency
    && metadata_matches_order line p.metadata o

abbrev pub identities_match : Account → Order → Option ℕ → Option ℕ → Option ℕ → Bool
identities_match a o payment charge customer =
    nullable_matches o.payment_intent_id payment
    && nullable_matches o.charge_id charge
    && nullable_matches o.request_customer_id customer
    && nullable_matches o.customer_id customer
    && nullable_matches a.customer_id customer

-- What the handler knows of a clawback that matches its order.
pub record Facts : Type 0 where
  pub payment_intent : ℕ
  pub charge : ℕ
  pub customer : ℕ
  pub amount : ℕ
  pub refunded : ℕ
  pub dispute : Bool

abbrev pub facts_of : Bool → ℕ → Option ℕ → Option ℕ → Option ℕ → Option ℕ → Option Facts
facts_of dispute payment (some charge) (some customer) (some amount) (some refunded) =
    some (record {
      payment_intent = payment;
      charge = charge;
      customer = customer;
      amount = amount;
      refunded = refunded;
      dispute = dispute;
    })
facts_of dispute payment _ _ _ _ = none

-- `contractMatches`, with the facts that the later statements use
unfoldable pub matched_facts :
    String
    → Option Dispute
    → ChargeObject
    → PaymentIntent
    → ℕ
    → String
    → Account
    → Order
    → Option Facts
matched_facts line dispute c p payment pack_key a o =
    if charge_matches dispute c o
      && payment_matches line c p o
      && dispute_matches dispute c o
      && str_eq pack_key o.pack_key
      && identities_match a o (some payment) c.id c.customer
    then facts_of (is_some dispute) payment c.id c.customer c.amount (counted_refund dispute c)
    else none

-- `targetCash`, `targetAtoms` and `cashStatus`
unfoldable pub target_cash : Facts → Order → ℕ
target_cash f o =
    if f.dispute
    then f.amount
    else if ltb f.refunded o.amount_refunded
    then o.amount_refunded
    else f.refunded

unfoldable pub target_atoms : Facts → Order → ℕ
unfolding target_cash
target_atoms f o =
    if f.dispute || leb f.amount (target_cash f o)
    then o.pack_credits
    else (o.pack_credits * target_cash f o + f.amount - 1) / f.amount

unfoldable pub cash_status : Facts → Order → PaymentStatus
unfolding target_cash
cash_status f o =
    if f.dispute
    then PaymentStatus.disputed
    else if leb f.amount (target_cash f o)
    then PaymentStatus.refunded
    else PaymentStatus.partially_refunded
