-- ===== src/Tests/Data.antt =====
-- A small database: one paying account, three lots (one expires before the subscription), two debts.
use stripe_entitlements_fast.Base.{ℕ, ◌+◌, [], ◌∷◌, some, none, false}
use stripe_entitlements_fast.Store.{
  Db, Account, active, month, Lot, lot_active, ClawbackDebt, Order, PackDebt, CheckoutStatus,
  PaymentStatus,
}

abbrev pub alice : Account
alice = record {
  id = 1;
  external_ref = 100;
  subscription_id = some 7;
  customer_id = some 70;
  plan_key = "pro";
  plan_interval = some month;
  status = active;
  credits_balance = 100;
  grant_epoch = 3;
  current_period_end = some 50;
  annual_anchor = none;
  grants_issued = 0;
  grants_allowed = 12;
  funding_invoice = some 9;
  entitlement_period_end = some 50;
  credit_expires_at = some 50;
  entitlement_revoked = false;
  cursor = record { created = 5; rank = 20 };
  cancel_at_period_end = false;
  pending_free_at = none;
}

abbrev pub bob : Account
bob = record alice { id = 2; external_ref = 200; credits_balance = 5; credit_expires_at = none }

abbrev pub lot : ℕ → ℕ → ℕ → Lot
lot id remaining expires_at = record {
  id = id;
  order_id = id;
  account_id = 1;
  original = 500;
  remaining = remaining;
  expired = 0;
  clawed_back = 0;
  expires_at = expires_at;
  status = lot_active;
}

abbrev pub pack_order : ℕ → Order
pack_order id = record {
  id = id;
  account_id = 1;
  pack_key = "small";
  pack_credits = 500;
  price_amount = 900;
  currency = "usd";
  expires_days = 30;
  lookup_key = "shop_small";
  request_customer_id = none;
  session_id = some 60;
  payment_intent_id = some 61;
  charge_id = some 62;
  customer_id = some 70;
  checkout_status = CheckoutStatus.completed;
  payment_status = PaymentStatus.paid;
  amount_paid = some 900;
  amount_refunded = 0;
  refunded_credits = 0;
  paid_at = some 1;
  reconcile_token = none;
  reconcile_expires_at = none;
}

abbrev pub shop : Db
shop = record {
  accounts = alice ∷ bob ∷ [];
  lots = lot 11 40 90 ∷ lot 12 30 20 ∷ lot 13 8 5 ∷ [];
  orders = pack_order 11 ∷ pack_order 12 ∷ pack_order 13 ∷ [];
  pack_debts = [];
  clawback_debts = [];
  debits = [];
  allocations = [];
  ledger = [];
  invoices = [];
  incidents = [];
  pack_incidents = [];
  subscription_incidents = [];
  claims = [];
  plan_changes = [];
  inbox = [];
  started = 10;
  clock = 10;
  next_allocation = 1;
  fresh_key = λ n. n + 1000;
  drawn = 0;
}

abbrev pub invoice_debt : ℕ → ℕ → ClawbackDebt
invoice_debt invoice target = record {
  account_id = 1;
  grant_epoch = 3;
  invoice = invoice;
  target = target;
  collected = 0;
  created_at = invoice;
}

abbrev pub indebted : Db
indebted = record shop { clawback_debts = invoice_debt 9 70 ∷ invoice_debt 8 60 ∷ [] }

abbrev pub pack_debt : ℕ → ℕ → PackDebt
pack_debt order target = record {
  order_id = order;
  account_id = 1;
  target = target;
  collected = 0;
  released = 0;
  created_at = order;
}

-- alice owes 90 for two packs that were refunded
abbrev pub pack_indebted : Db
pack_indebted = record shop { pack_debts = pack_debt 22 60 ∷ pack_debt 21 30 ∷ [] }
