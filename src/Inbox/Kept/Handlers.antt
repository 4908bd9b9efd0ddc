-- ===== src/Inbox/Kept/Handlers.antt =====
-- The handlers of pack events (typescript/src/credit-pack-events.ts) leave the inbox alone.
use stripe_entitlements_fast.Base.{
  ℕ, String, ◌≡◌, ◌∙◌, ap, refl, List, Option, none, some, exists, ◌==◌, ◌||◌, inl, inr, Bool-cases,
}
use stripe_entitlements_fast.Store.{
  Db, Account, Order, Lot, InboxEvent, Result, ok, err, Tx, modify,
}
use stripe_entitlements_fast.Store.Frames.{
  After, bind-Preserves, pure-Preserves, get_db-Preserves, option-Preserves,
}
use stripe_entitlements_fast.PackEvents.{PaymentIntent, Identity, order_metadata, locked_order}
use stripe_entitlements_fast.PackEvents.Contract.{ChargeObject, ClawbackEvent, Facts, matched_facts}
use stripe_entitlements_fast.PackEvents.Clawback.{
  dispute_spent_lot, advance_cash, advance_credits, advance, claw_back_order, agreed_payment,
  claw_back_payment, clawback,
}
use stripe_entitlements_fast.PackEvents.Payment.{
  PaymentEvent, Paid, matched_payment, insert_lot, fund, take_payment, pay_order, unnamed_payment,
  named_payment, payment_succeeded,
}
use stripe_entitlements_fast.PackEvents.Checkout.{CheckoutEvent, checkout_event}
use stripe_entitlements_fast.PackEvents.Checkout.Frame.{SameFunds, checkout_event-Keeps}
use stripe_entitlements_fast.Inbox.Kept.{
  Kept, Keeps, kept_rules, orders-Kept, collect_pack_debts_from_lot-Kept, recover-Kept,
  incident-Kept, adopt_customer-Kept,
}

module _ (inbox : List InboxEvent) where
  insert_lot-Kept : (l : Lot) → Keeps inbox (insert_lot l)
  unfolding insert_lot
  insert_lot-Kept l = record {
    after = λ db k.
        elim (Bool-cases (exists (λ r. r.id == l.id || r.order_id == l.order_id) db.lots)) [
          | inl taken ↦ rw taken tt
          | inr unused ↦ rw unused k
        ];
  }

  fund-Kept : (lot : ℕ) (o : Order) (a : Account) (created : ℕ) → Keeps inbox (fund lot o a created)
  unfolding fund
  fund-Kept lot o a created =
      search (kept_rules, insert_lot-Kept, collect_pack_debts_from_lot-Kept) depth 16

  take_payment-Kept :
      (lot : ℕ) (p : Paid) (created : ℕ) (a : Account) (o : Order)
      → Keeps inbox (take_payment lot p created a o)
  unfolding take_payment
  take_payment-Kept lot p created a o =
      search (kept_rules, orders-Kept, adopt_customer-Kept, fund-Kept) depth 16

  pay_order-Kept :
      (lot : ℕ) (line : String) (e : PaymentEvent) (p : PaymentIntent) (payment : ℕ) (i : Identity)
      (a : Account) (o : Order)
      → Keeps inbox (pay_order lot line e p payment i a o)
  unfolding pay_order
  pay_order-Kept lot line e p payment i a o =
      option-Preserves (Kept inbox) (matched_payment line p payment i.pack_key a o)
        (search (kept_rules, incident-Kept) depth 12)
        (λ paid.
          option-Preserves (Kept inbox) e.created (pure-Preserves (Kept inbox) _)
            (λ created. take_payment-Kept lot paid created a o))

  unnamed_payment-Kept : (e : PaymentEvent) (p : PaymentIntent) → Keeps inbox (unnamed_payment e p)
  unfolding unnamed_payment
  unnamed_payment-Kept e p =
      option-Preserves (Kept inbox) p.id (pure-Preserves (Kept inbox) _)
        (λ payment. search (kept_rules, incident-Kept) depth 12)

  -- the rows that `#lockedOrder` finds
  rows-Kept :
      {A : Type 0} (rows : Option (Account × Order)) {m : Tx A} {k : Account → Order → Tx A}
      → Keeps inbox m
      → ((a : Account) (o : Order) → Keeps inbox (k a o))
      → Keeps inbox (elim rows [ none ↦ m | some (a, o) ↦ k a o ])
  rows-Kept none p q = p
  rows-Kept (some (a, o)) p q = q a o

  named_payment-Kept :
      (lot : ℕ) (line : String) (e : PaymentEvent) (p : PaymentIntent) (i : Identity) (payment : ℕ)
      → Keeps inbox (named_payment lot line e p i payment)
  unfolding named_payment
  named_payment-Kept lot line e p i payment =
      bind-Preserves (Kept inbox) (get_db-Preserves (Kept inbox)) (λ db.
        rows-Kept (locked_order i.order i.account db) (search (kept_rules, incident-Kept) depth 12)
          (pay_order-Kept lot line e p payment i))

  pub payment_succeeded-Kept :
      (lot : ℕ) (line : String) (e : PaymentEvent) → Keeps inbox (payment_succeeded lot line e)
  unfolding payment_succeeded
  payment_succeeded-Kept lot line e =
      option-Preserves (Kept inbox) e.object (pure-Preserves (Kept inbox) _) (λ p.
        option-Preserves (Kept inbox) (order_metadata line p.metadata) (unnamed_payment-Kept e p)
          (λ i.
            option-Preserves (Kept inbox) p.id (pure-Preserves (Kept inbox) _)
              (named_payment-Kept lot line e p i)))

  dispute_spent_lot-Kept :
      (f : Facts) (order : ℕ) → Keeps inbox (modify (dispute_spent_lot f order))
  dispute_spent_lot-Kept f order = record {
    after = λ db k. elim (Bool-cases f.dispute) [
      | inl disputed ↦ rw disputed k
      | inr refunded ↦ rw refunded k
    ];
  }

  advance-Kept : (f : Facts) (a : Account) (o : Order) → Keeps inbox (advance f a o)
  unfolding advance advance_cash advance_credits
  advance-Kept f a o =
      search (kept_rules, orders-Kept, adopt_customer-Kept, dispute_spent_lot-Kept, recover-Kept)
        depth 20

  claw_back_order-Kept :
      (line : String) (e : ClawbackEvent) (c : ChargeObject) (p : PaymentIntent) (payment : ℕ)
      (i : Identity) (a : Account) (o : Order)
      → Keeps inbox (claw_back_order line e c p payment i a o)
  unfolding claw_back_order
  claw_back_order-Kept line e c p payment i a o =
      option-Preserves (Kept inbox) (matched_facts line e.dispute c p payment i.pack_key a o)
        (search (kept_rules, incident-Kept) depth 12) (λ f. advance-Kept f a o)

  -- the end of a transaction that branches on an option
  After-option :
      {A B : Type 0} (x : Option A) (r : Result (B × Db)) (k : A → Result (B × Db))
      → After (Kept inbox) r
      → ((a : A) → After (Kept inbox) (k a))
      → After (Kept inbox) (elim x [ none ↦ r | some a ↦ k a ])
  After-option none r k p q = p
  After-option (some a) r k p q = q a

  claw_back_payment-Kept :
      (line : String) (e : ClawbackEvent) (c : ChargeObject) (p : PaymentIntent)
      → Keeps inbox (claw_back_payment line e c p)
  unfolding claw_back_payment
  claw_back_payment-Kept line e c p = record {
    after = λ db k. After-option (order_metadata line p.metadata) _ _ k (λ i.
        After-option (agreed_payment c p) _ _ k (λ payment.
          After-option (locked_order i.order i.account db) _ _ k (λ rows.
            (bind-Preserves (Kept inbox) (claw_back_order-Kept line e c p payment i rows.0 rows.1)
                (λ r. pure-Preserves (Kept inbox) (some r))).after
              db k)));
  }

  pub clawback-Kept : (line : String) (e : ClawbackEvent) → Keeps inbox (clawback line e)
  unfolding clawback
  clawback-Kept line e = record {
    after = λ db k. After-option e.charge _ _ k (λ c.
        After-option e.payment_intent _ _ k (λ p. (claw_back_payment-Kept line e c p).after db k));
  }

  events-Kept :
      {A : Type 0} (db : Db) (r : Result (A × Db))
      → db.inbox ≡ inbox
      → After (SameFunds db) r
      → After (Kept inbox) r
  events-Kept db (ok (a, later)) k s = ap (λ f. f.events) s ∙ k
  events-Kept db (err e) k s = tt

  pub checkout_event-Kept :
      (line : String) (e : CheckoutEvent) → Keeps inbox (checkout_event line e)
  checkout_event-Kept line e = record {
    after = λ db k.
        events-Kept db (checkout_event line e db) k
          ((checkout_event-Keeps db line e).after db refl);
  }
