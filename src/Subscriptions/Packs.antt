-- ===== src/Subscriptions/Packs.antt =====
-- Subscription events (typescript/src/subscription-projector.ts) and the tables that are not theirs.
use stripe_entitlements_fast.Base.{◌≡◌, refl, List}
use stripe_entitlements_fast.Store.{
  Db, Lot, Order, PackDebt, ClawbackDebt, Debit, Allocation, InvoiceState, PackIncident, InboxEvent,
}
use stripe_entitlements_fast.Store.Frames.{After}
use stripe_entitlements_fast.Runtime.{SubscriptionEvent}
use stripe_entitlements_fast.Subscriptions.PaymentFailed.{payment_failed}
use stripe_entitlements_fast.Subscriptions.Deleted.{subscription_deleted}
use stripe_entitlements_fast.Subscriptions.Items.{Runtime}
use stripe_entitlements_fast.Subscriptions.Updated.{subscription_updated}
use stripe_entitlements_fast.Subscriptions.Checkout.{checkout_completed, checkout_expired}
use stripe_entitlements_fast.Subscriptions.Frame.{
  IsIndifferent, payment_failed-Preserves, subscription_deleted-Preserves,
  subscription_updated-Preserves, checkout_completed-Preserves, checkout_expired-Preserves,
}

-- the packs with their orders, the debts, the debits, the invoices and the inbox
pub record OtherTables : Type 0 where
  pub lots : List Lot
  pub orders : List Order
  pub pack_debts : List PackDebt
  pub clawback_debts : List ClawbackDebt
  pub debits : List Debit
  pub allocations : List Allocation
  pub invoices : List InvoiceState
  pub pack_incidents : List PackIncident
  pub inbox : List InboxEvent

abbrev pub other_tables : Db → OtherTables
other_tables db = record {
  lots = db.lots;
  orders = db.orders;
  pack_debts = db.pack_debts;
  clawback_debts = db.clawback_debts;
  debits = db.debits;
  allocations = db.allocations;
  invoices = db.invoices;
  pack_incidents = db.pack_incidents;
  inbox = db.inbox;
}

abbrev pub SameTables : Db → Db → Type 0
SameTables before db = other_tables db ≡ other_tables before

SameTables-IsIndifferent : (before : Db) → IsIndifferent (SameTables before)
SameTables-IsIndifferent before = record {
  accounts = λ rows db k. k;
  ledger = λ rows db k. k;
  claims = λ rows db k. k;
  quiet = record { changes = λ rows db k. k; incidents = λ rows db k. k };
}

-- Whatever the events hold, a failed payment, the end and the update of a subscription, and a completed
-- and an expired Checkout of a subscription leave every lot, order, debt, debit, allocation and invoice,
-- the incidents of the packs and the inbox as they were.
pub subscription_events-SameTables :
    (r : Runtime) (e : SubscriptionEvent) (db : Db)
    → After (SameTables db) (payment_failed e db)
      × After (SameTables db) (subscription_deleted e db)
      × After (SameTables db) (subscription_updated r e db)
      × After (SameTables db) (checkout_completed e db)
      × After (SameTables db) (checkout_expired e db)
subscription_events-SameTables r e db =
    let free = SameTables-IsIndifferent db in
    (
      (payment_failed-Preserves (SameTables db) free e).after db refl,
      (subscription_deleted-Preserves (SameTables db) free e).after db refl,
      (subscription_updated-Preserves (SameTables db) free r e).after db refl,
      (checkout_completed-Preserves (SameTables db) free e).after db refl,
      (checkout_expired-Preserves (SameTables db) free e).after db refl,
    )
