-- ===== src/Store/Rows.antt =====
-- The rows: `BillingAccountRow` of db-types.ts, `FundingLotRow`, `DebitRow`, `AllocationRow`,
-- `PackDebtRow`, `PackOrderRow` of credits.ts, `ClawbackDebtRow` of clawbacks.ts, `InvoiceStateRow` of
-- annual.ts, `LockedOrder` of credit-pack-events.ts, with the columns that their queries name.
use stripe_entitlements_fast.Base.{ℕ, ℤ, String, Bool, Option, List}
use stripe_entitlements_fast.Ordering.{Cursor}
use stripe_entitlements_fast.Store.Changes.{CheckoutClaim, PlanChange, SubscriptionIncident}
pub use stripe_entitlements_fast.Catalog.{Interval, month, year}

pub data Status : Type 0 where
  no_subscription active past_due canceled : Status

pub record Account : Type 0 where
  pub id : ℕ
  pub external_ref : ℕ
  pub subscription_id : Option ℕ
  pub customer_id : Option ℕ
  pub plan_key : String
  pub plan_interval : Option Interval
  pub status : Status
  pub credits_balance : ℕ
  pub grant_epoch : ℕ
  pub current_period_end : Option ℕ
  pub annual_anchor : Option ℕ
  pub grants_issued : ℕ
  pub grants_allowed : ℕ
  pub funding_invoice : Option ℕ
  pub entitlement_period_end : Option ℕ
  pub credit_expires_at : Option ℕ
  pub entitlement_revoked : Bool
  pub cursor : Cursor
  pub cancel_at_period_end : Bool
  pub pending_free_at : Option ℕ

pub data LotStatus : Type 0 where
  lot_active lot_expired lot_refunded lot_disputed : LotStatus

pub record Lot : Type 0 where
  pub id : ℕ
  pub order_id : ℕ
  pub account_id : ℕ
  pub original : ℕ
  pub remaining : ℕ
  pub expired : ℕ
  pub clawed_back : ℕ
  pub expires_at : ℕ
  pub status : LotStatus

pub data CheckoutStatus : Type 0 where
  reserved session_created completed expired : CheckoutStatus

pub data PaymentStatus : Type 0 where
  pending paid partially_refunded refunded disputed : PaymentStatus

pub record Order : Type 0 where
  pub id : ℕ
  pub account_id : ℕ
  pub pack_key : String
  pub pack_credits : ℕ
  pub price_amount : ℕ
  pub currency : String
  pub expires_days : ℕ
  pub lookup_key : String
  pub request_customer_id : Option ℕ
  pub session_id : Option ℕ
  pub payment_intent_id : Option ℕ
  pub charge_id : Option ℕ
  pub customer_id : Option ℕ
  pub checkout_status : CheckoutStatus
  pub payment_status : PaymentStatus
  pub amount_paid : Option ℕ
  pub amount_refunded : ℕ
  pub refunded_credits : ℕ
  pub paid_at : Option ℕ
  pub reconcile_token : Option ℕ
  pub reconcile_expires_at : Option ℕ

pub record PackDebt : Type 0 where
  pub order_id : ℕ
  pub account_id : ℕ
  pub target : ℕ
  pub collected : ℕ
  pub released : ℕ
  pub created_at : ℕ

pub record ClawbackDebt : Type 0 where
  pub account_id : ℕ
  pub grant_epoch : ℕ
  pub invoice : ℕ
  pub target : ℕ
  pub collected : ℕ
  pub created_at : ℕ

-- A debit of kind 'usage', or of kind 'credit_pack_debt_collection' with its clawback order.
pub data Kind : Type 0 where
  usage : Kind
  debt_collection : ℕ → Kind

pub record Debit : Type 0 where
  pub key : ℕ
  pub account_id : ℕ
  pub amount : ℕ
  pub grant_epoch : ℕ
  pub kind : Kind
  pub restored : ℕ
  pub created_at : ℕ
  pub refunded : Bool

-- `source_type` with the column that it makes non-null
pub data Source : Type 0 where
  subscription : ℕ → Source
  credit_pack : ℕ → Source

pub record Allocation : Type 0 where
  pub id : ℕ
  pub debit_key : ℕ
  pub account_id : ℕ
  pub source : Source
  pub amount : ℕ
  pub refunded_amount : ℕ

pub data Reason : Type 0 where
  usage_charge usage_refund clawback_collection pack_debt_collection pack_debt_refund : Reason
  subscription_grant subscription_ended : Reason

-- The `stripe_event_id` of a ledger entry, by the prefix that the services give it.
pub data EventTag : Type 0 where
  stripe_event usage_event usage_refund_event debt_release_event : ℕ → EventTag
  annual_event : ℕ → ℕ → EventTag
  pack_debt_event : ℕ → ℕ → EventTag

pub record LedgerEntry : Type 0 where
  pub account_id : ℕ
  pub delta : ℤ
  pub balance_after : ℕ
  pub entitlement_units : ℕ
  pub reason : Reason
  pub grant_epoch : ℕ
  pub event : EventTag
  pub invoice : Option ℕ
  pub slot : Option ℕ

pub record InvoiceState : Type 0 where
  pub id : ℕ
  pub fully_refunded : Bool
  pub disputed : Bool
  pub grants_issued : ℕ

pub data IncidentKind : Type 0 where
  annual_grant_failed annual_plan_mismatch : IncidentKind

-- A row of billing_incidents, without its detail and times: the key of deduplication is the account
-- and its subscription.
pub record Incident : Type 0 where
  pub kind : IncidentKind
  pub account_id : ℕ
  pub subscription_id : Option ℕ
  pub invoice : Option ℕ
  pub seen_count : ℕ
  pub resolved : Bool

-- The incidents of the event inbox and of the pack events, which are rows of the same table under other
-- kinds, with the text that their key of deduplication is made of.
pub data PackIncidentKind : Type 0 where
  payment_metadata_invalid payment_identity_conflict payment_contract_mismatch : PackIncidentKind
  checkout_contract_mismatch clawback_contract_mismatch : PackIncidentKind
  invalid_event_shape webhook_contract_mismatch : PackIncidentKind

pub data DedupeKey : Type 0 where
  by_payment by_session by_charge : ℕ → DedupeKey
  by_event : Option ℕ → DedupeKey

pub record PackIncident : Type 0 where
  pub kind : PackIncidentKind
  pub dedupe_key : DedupeKey
  pub event_id : Option ℕ
  pub account_id : Option ℕ
  pub seen_count : ℕ
  pub resolved : Bool

-- `outcome` of a result, and of a row of stripe_webhook_events; a row that is claimed has none.
pub data Outcome : Type 0 where
  handled ignored replayed duplicate : Outcome

pub record InboxEvent : Type 0 where
  pub id : ℕ
  pub livemode : Bool
  pub outcome : Option Outcome

-- The tables, the transaction's `now()`, the clock that it samples, and the supply of fresh names:
-- the id sequence of the allocations, and the keys `pack-debt:<uuid>` that `randomUUID` yields.
pub record Db : Type 0 where
  pub accounts : List Account
  pub lots : List Lot
  pub orders : List Order
  pub pack_debts : List PackDebt
  pub clawback_debts : List ClawbackDebt
  pub debits : List Debit
  pub allocations : List Allocation
  pub ledger : List LedgerEntry
  pub invoices : List InvoiceState
  pub incidents : List Incident
  pub pack_incidents : List PackIncident
  pub subscription_incidents : List SubscriptionIncident
  pub claims : List CheckoutClaim
  pub plan_changes : List PlanChange
  pub inbox : List InboxEvent
  pub started : ℕ
  pub clock : ℕ
  pub next_allocation : ℕ
  pub fresh_key : ℕ → ℕ
  pub drawn : ℕ
