-- ===== src/PackEvents/Clawback/Replay.antt =====
-- A clawback that is delivered again (typescript/src/credit-pack-events.ts).
use mathlib.Core.Path.{subst}
use stripe_entitlements_fast.Base.{
  ℕ, String, ◌≡◌, refl, sym, ap, ◌∙◌, true, false, some, inl, inr, arith, leb, find, Option-cases,
  ==_iff, ◌≢◌,
}
use stripe_entitlements_fast.Store.{Db, Account, Order, ok, err, pure, Result, ◌>>=◌}
use stripe_entitlements_fast.Store.Tables.Updates.{find-some}
use stripe_entitlements_fast.PackEvents.{
  PaymentIntent, ignored, replayed, facts_not_advanced, ProcessResult, nullable_matches, Identity,
  order_metadata, has_order_id, has_account_id, locked_order, adopt_customer,
}
use stripe_entitlements_fast.PackEvents.Contract.{
  ChargeObject, ClawbackEvent, Facts, matched_facts, target_atoms,
}
use stripe_entitlements_fast.PackEvents.Clawback.{
  advance_cash, advance, claw_back_order, agreed_payment, claw_back_payment, clawback,
}
use stripe_entitlements_fast.PackEvents.Clawback.Advance.{has_news, Ended, Ends, advance-Ends}
use stripe_entitlements_fast.PackEvents.Clawback.Matching.{matched-again, matched-customer}
use stripe_entitlements_fast.PackEvents.Clawback.Rows.{
  Locked, locked_order-Locked, Locked-locked_order, adopted, adopt_if-found, adopted-id,
  adopted-customer, adopted-matches,
}

-- What the handler found in an event that it did not ignore.
record Concerns (line : String) (e : ClawbackEvent) (db : Db) : Type 0 where
  pub c : ChargeObject
  pub p : PaymentIntent
  pub identity : Identity
  pub payment : ℕ
  pub a : Account
  pub o : Order
  pub f : Facts
  pub has_charge : e.charge ≡ some c
  pub has_payment : e.payment_intent ≡ some p
  pub named : order_metadata line p.metadata ≡ some identity
  pub agreed : agreed_payment c p ≡ some payment
  pub locked : Locked identity.order identity.account db a o
  pub matched : matched_facts line e.dispute c p payment identity.pack_key a o ≡ some f

Concerns-clawback :
    {line : String} {e : ClawbackEvent} {db : Db} (x : Concerns line e db)
    → clawback line e db ≡ (do r ← advance x.f x.a x.o; pure (some r)) db
unfolding clawback claw_back_payment claw_back_order
Concerns-clawback {line} {e} {db} x =
    rw
      (
        x.has_charge,
        x.has_payment,
        claw_back_payment,
        x.named,
        x.agreed,
        Locked-locked_order x.identity.order x.identity.account db x.a x.o x.locked,
        ◌>>=◌,
        claw_back_order,
        x.matched,
      )
      refl

-- an advance that ended, as the result of the handler
advance-inversion :
    (x : Result (ProcessResult × Db)) (r : ProcessResult) (later : Db)
    → (do q ← (λ (d : Db). x); pure (some q)) later ≡ ok (some r, later)
    → x ≡ ok (r, later)
advance-inversion (ok (q, d)) r later h = ground (arith, h)
advance-inversion (err e) r later h = absurd (ground (arith, h))

-- an advance that has nothing left to do
advance_settled :
    (f : Facts) (a : Account) (o : Order) (db : Db) (k : ℕ)
    → a.customer_id ≡ some k
    → leb (target_atoms f o) o.refunded_credits ≡ true
    → has_news f o ≡ false
    → advance f a o db
      ≡ ok (record { outcome = replayed; reason = facts_not_advanced; account_id = some a.id }, db)
unfolding advance advance_cash adopt_customer
advance_settled f a o db k known enough quiet = rw (known, ◌>>=◌, enough, quiet) refl

-- What the handler found in an event that it did not ignore.
concerns :
    (line : String) (e : ClawbackEvent) (db : Db) (r : ProcessResult) (later : Db)
    → clawback line e db ≡ ok (some r, later)
    → r.outcome ≢ ignored
    → Concerns line e db
unfolding clawback claw_back_payment claw_back_order
concerns line e db r later h n = elim (Option-cases e.charge) [
  | inl none_charge ↦ absurd (ground (arith, h, none_charge))
  | inr (c, has_charge) ↦ elim (Option-cases e.payment_intent) [
    | inl no_payment ↦ absurd (ground (arith, h, has_charge, no_payment))
    | inr (p, has_payment) ↦ elim (Option-cases (order_metadata line p.metadata)) [
      | inl unnamed ↦ absurd (ground (arith, h, has_charge, has_payment, unnamed))
      | inr (identity, named) ↦ elim (Option-cases (agreed_payment c p)) [
        | inl apart ↦ absurd (ground (arith, h, has_charge, has_payment, named, apart))
        | inr (payment, agreed) ↦
            elim (Option-cases (locked_order identity.order identity.account db)) [
              | inl gone ↦
                  absurd (n (ground (arith, h, has_charge, has_payment, named, agreed, gone)))
              | inr (rows, locked) ↦
                  elim (Option-cases
                    (matched_facts line e.dispute c p payment identity.pack_key rows.0 rows.1)) [
                      | inl unmatched ↦ absurd (
                          n (
                            ground (
                              arith, h, has_charge, has_payment, named, agreed, locked, unmatched,
                            )))
                      | inr (f, matched) ↦ record {
                        c = c;
                        p = p;
                        identity = identity;
                        payment = payment;
                        a = rows.0;
                        o = rows.1;
                        f = f;
                        has_charge = has_charge;
                        has_payment = has_payment;
                        named = named;
                        agreed = agreed;
                        locked =
                            locked_order-Locked identity.order identity.account db rows.0 rows.1
                              locked;
                        matched = matched;
                      }
                    ]
            ]
      ]
    ]
  ]
]

-- the second delivery comes to the same facts, on the rows that the first one left
clawback-again :
    (line : String) (e : ClawbackEvent) (db later : Db) (x : Concerns line e db)
    (t : Ended x.f x.a x.o db later)
    → clawback line e later
      ≡ (do r ← advance x.f (adopted x.a x.f.customer) t.advanced.row; pure (some r)) later
unfolding adopt_customer
clawback-again line e db later x t =
    let v = t.advanced in
    let b = adopted x.a x.f.customer in
    let key : x.o.id ≡ x.identity.order =
      (==_iff _ _).0
        (find-some (has_order_id x.identity.order) db.orders x.o x.locked.order_found) in
    let own : x.identity.account ≡ x.a.id = sym (
      (==_iff _ _).0
        (find-some (has_account_id x.identity.account) db.accounts x.a x.locked.account_found)) in
    let id = adopted-id x.a.customer_id x.a x.f.customer in
    let customer : nullable_matches b.customer_id (some x.f.customer) ≡ true =
      adopted-matches x.a.customer_id x.a x.f.customer refl (
        matched-customer line e.dispute x.c x.p x.payment x.identity.pack_key x.f x.a x.o
          x.matched) in
    Concerns-clawback (record {
      c = x.c;
      p = x.p;
      identity = x.identity;
      payment = x.payment;
      a = b;
      o = v.row;
      f = x.f;
      has_charge = x.has_charge;
      has_payment = x.has_payment;
      named = x.named;
      agreed = x.agreed;
      locked = record {
        order_found = subst (λ k. find (has_order_id k) later.orders ≡ some v.row) key t.found;
        account_found =
            ap (find (has_account_id x.identity.account)) t.accounts
            ∙ adopt_if-found x.a.customer_id x.a x.identity.account x.f.customer db own
                x.locked.account_found;
        owner = rw v.is_row x.locked.owner;
        own = rw (v.is_row, id) x.locked.own;
      };
      matched =
          matched-again line e.dispute x.c x.p x.payment x.identity.pack_key x.f x.a b x.o v
            customer x.matched;
    })

-- A clawback that a delivery did not ignore is done: delivered again, it is answered by a replay and
-- changes nothing.
pub clawback_twice :
    (line : String) (e : ClawbackEvent) (db : Db) (r : ProcessResult) (later : Db)
    → clawback line e db ≡ ok (some r, later)
    → r.outcome ≢ ignored
    → (reply : ProcessResult) × (reply.outcome ≡ replayed)
      × (clawback line e later ≡ ok (some reply, later))
clawback_twice line e db r later h n =
    let x = concerns line e db r later h n in
    let key : x.o.id ≡ x.identity.order =
      (==_iff _ _).0
        (find-some (has_order_id x.identity.order) db.orders x.o x.locked.order_found) in
    let here : find (has_order_id x.o.id) db.orders ≡ some x.o =
      subst (λ k. find (has_order_id k) db.orders ≡ some x.o) (sym key) x.locked.order_found in
    let first : advance x.f x.a x.o db ≡ ok (r, later) =
      advance-inversion _ r later (sym (Concerns-clawback x) ∙ h) in
    let t : Ended x.f x.a x.o db later =
      subst (Ends x.f x.a x.o db) first (advance-Ends x.f x.a x.o db here) in
    let known = adopted-customer x.a.customer_id x.a x.f.customer refl in
    let done =
      advance_settled x.f (adopted x.a x.f.customer) t.advanced.row later known.0 known.1
        t.advanced.enough t.advanced.quiet in
    let reply : ProcessResult = record {
      outcome = replayed;
      reason = facts_not_advanced;
      account_id = some (adopted x.a x.f.customer).id;
    } in
    (reply, refl, clawback-again line e db later x t ∙ rw (◌>>=◌, done) refl)
