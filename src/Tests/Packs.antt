-- ===== src/Tests/Packs.antt =====
-- The events of one credit pack: a payment, a refund of half the price, a Checkout that expires.
use stripe_entitlements_fast.Base.{ℕ, pos, ◌≡◌, refl, [], ◌∷◌, true, false, some, none, arith}
use stripe_entitlements_fast.Store.{Db, Order, ok, CheckoutStatus, PaymentStatus}
use stripe_entitlements_fast.Store.Tables.Pending.{IsUnique}
use stripe_entitlements_fast.Primitives.{ceil_ratio}
use stripe_entitlements_fast.Funding.Lots.{has_id, lot_id}
use stripe_entitlements_fast.Funding.Rounds.{of_order, order_of, IsFresh}
use stripe_entitlements_fast.PackEvents.{
  PackMetadata, PaymentIntent, ProcessResult, handled, replayed, clawback_removed, order_metadata,
  locked_order, metadata_matches_order, adopt_customer, checkout_expired,
}
use stripe_entitlements_fast.PackEvents.Contract.{
  ClawbackEvent, Facts, target_cash, target_atoms, cash_status, matched_facts, dispute_matches,
}
use stripe_entitlements_fast.PackEvents.Contract.Share.{target_atoms-ceil_ratio}
use stripe_entitlements_fast.PackEvents.Recovery.{recover, take_back, refresh_lot, owe}
use stripe_entitlements_fast.PackEvents.Recovery.Totals.{Recovers, recover-Recovers}
use stripe_entitlements_fast.PackEvents.Clawback.{
  clawback, claw_back_payment, claw_back_order, advance, advance_credits,
}
use stripe_entitlements_fast.Refund.{checked_add_atoms}
use stripe_entitlements_fast.PackEvents.Clawback.Replay.{clawback_twice}
use stripe_entitlements_fast.PackEvents.Payment.{fund}
use stripe_entitlements_fast.PackEvents.Payment.Funds.{Funds, fund-Funds}
use stripe_entitlements_fast.PackEvents.Checkout.{
  CheckoutEvent, checkout_event, session_event, snapshot, named_checkout, check_out,
  session_matches, advance_checkout, expire_checkout,
}
use stripe_entitlements_fast.PackEvents.Checkout.Frame.{SameFunds, checkout_event-SameFunds}
use stripe_entitlements_fast.Tests.Data.{alice, lot, pack_order, shop, pack_indebted}

abbrev metadata_for : ℕ → PackMetadata
metadata_for order = record {
  billing_kind = some "credit_pack";
  schema_version = some "1";
  product_line = some "shop";
  order_id = some (record { id = order; is_canonical = true });
  account_id = some (record { id = 1; is_canonical = true });
  pack_key = some "small";
  pack_credits = some 500;
  price_amount = some 900;
  currency = some "usd";
  expires_days = some 30;
  lookup_key = some "shop_small";
}

abbrev payment_for : ℕ → PaymentIntent
payment_for order = record {
  id = some 61;
  is_payment_intent = true;
  is_succeeded = true;
  customer = some 70;
  latest_charge = some 62;
  amount = some 900;
  amount_received = some 900;
  currency = some "usd";
  metadata = metadata_for order;
}

abbrev pub half_refund : ClawbackEvent
half_refund = record {
  id = some 80;
  dispute = none;
  charge = some (record {
    id = some 62;
    payment_intent = some 61;
    is_charge = true;
    is_paid = true;
    customer = some 70;
    amount = some 900;
    amount_refunded = some 450;
    refunded = some false;
    disputed = some false;
    currency = some "usd";
  });
  payment_intent = some (payment_for 11);
}

abbrev half_facts : Facts
half_facts = record {
  payment_intent = 61;
  charge = 62;
  customer = 70;
  amount = 900;
  refunded = 450;
  dispute = false;
}

-- half of the pack is 250 credits, of which the lot still has 40
half_refund_db : Db
half_refund_db = record shop {
  lots = record (lot 11 40 90) { remaining = 0; clawed_back = 40 } ∷ lot 12 30 20 ∷ lot 13 8 5 ∷ [];
  orders =
      record (pack_order 11) {
        payment_status = PaymentStatus.partially_refunded;
        amount_refunded = 450;
        refunded_credits = 250;
      }
      ∷ pack_order 12
      ∷ pack_order 13
      ∷ [];
  pack_debts =
      record {
        order_id = 11;
        account_id = 1;
        target = 210;
        collected = 0;
        released = 0;
        created_at = 10;
      }
      ∷ [];
}

abbrev half_reply : ProcessResult
half_reply = record { outcome = handled; reason = clawback_removed 40; account_id = some 1 }

half_refund_run : clawback "shop" half_refund shop ≡ ok (some half_reply, half_refund_db)
unfolding clawback half_refund_db claw_back_payment order_metadata locked_order claw_back_order
    matched_facts metadata_matches_order dispute_matches advance advance_credits recover
    adopt_customer take_back refresh_lot checked_add_atoms owe cash_status
half_refund_run = refl

clawback_twice_example :
    (reply : ProcessResult) × (reply.outcome ≡ replayed)
    × (clawback "shop" half_refund half_refund_db ≡ ok (some reply, half_refund_db))
clawback_twice_example =
    clawback_twice "shop" half_refund shop half_reply half_refund_db half_refund_run (λ e. cc)

recover-Recovers_example :
    (removed : ℕ) × (later : Db) × (recover half_facts (pack_order 11) 1 250 shop
      ≡ ok (removed, later))
    × Recovers (pack_order 11) 1 250 (lot 11 40 90) shop removed later
recover-Recovers_example =
    recover-Recovers (pack_order 11) 1 half_facts 250 (lot 11 40 90) shop refl refl (omega arith)
      (record { closed = λ e. cc; bounded = omega arith })
      (record { once = omega arith; in_range = λ d e. cc })

target_atoms-ceil_ratio_example :
    pos (target_atoms half_facts (pack_order 11))
    ≡ ceil_ratio (pos 500) (pos (target_cash half_facts (pack_order 11))) (pos 900)
unfolding target_cash
target_atoms-ceil_ratio_example =
    target_atoms-ceil_ratio half_facts (pack_order 11) (omega arith) (omega arith) (omega arith)

-- a new order of alice, who owes 90 credits for two packs
abbrev new_order : Order
new_order = record (pack_order 31) {
  session_id = some 81;
  payment_intent_id = none;
  charge_id = none;
  customer_id = none;
  checkout_status = CheckoutStatus.session_created;
  payment_status = PaymentStatus.pending;
  amount_paid = none;
  paid_at = none;
}

abbrev awaiting : Db
awaiting = record pack_indebted { orders = new_order ∷ pack_indebted.orders }

awaiting-IsFresh : IsFresh awaiting
awaiting-IsFresh = record { unused = λ j le. refl; apart = λ i j lt e. omega arith }

order-IsUnique : IsUnique of_order order_of awaiting.pack_debts
order-IsUnique k = ground arith

lot-IsUnique : IsUnique has_id lot_id awaiting.lots
lot-IsUnique k = ground arith

fund-Funds_example :
    (r : ProcessResult) × (later : Db) × (fund 41 new_order alice 2 awaiting ≡ ok (r, later))
    × Funds 41 new_order alice 2 awaiting r later
fund-Funds_example =
    fund-Funds 41 new_order alice 2 awaiting refl alice awaiting-IsFresh order-IsUnique lot-IsUnique
      refl

abbrev pub expiry : CheckoutEvent
expiry = record {
  id = some 82;
  is_expiry = true;
  object = some (record {
    id = some 81;
    is_session = true;
    is_payment_mode = true;
    status = some "expired";
    payment_status = some "unpaid";
    client_reference = some (record { id = 1; is_canonical = true });
    amount_total = some 900;
    currency = some "usd";
    customer = some 70;
    payment_intent = none;
    metadata = metadata_for 31;
  });
}

expired_db : Db
expired_db = record awaiting {
  orders = record new_order { checkout_status = CheckoutStatus.expired } ∷ pack_indebted.orders;
}

abbrev expiry_reply : ProcessResult
expiry_reply = record { outcome = handled; reason = checkout_expired; account_id = some 1 }

expiry_run : checkout_event "shop" expiry awaiting ≡ ok (some expiry_reply, expired_db)
unfolding checkout_event expired_db session_event snapshot named_checkout check_out session_matches
    order_metadata metadata_matches_order advance_checkout expire_checkout
expiry_run = refl

checkout_event-SameFunds_example : SameFunds awaiting expired_db
checkout_event-SameFunds_example =
    checkout_event-SameFunds "shop" expiry awaiting (some expiry_reply) expired_db expiry_run
