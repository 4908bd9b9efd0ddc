-- ===== src/PackEvents/Clawback/Matching.antt =====
-- The contract of a clawback (typescript/src/credit-pack-events.ts) matches the rows that the clawback
-- leaves.
use stripe_entitlements_fast.Base.{
  ℕ, String, ◌≡◌, refl, Bool, true, Option, none, some, ◌&&◌, inl, inr, arith, str_eq, Bool-cases,
  former, latter, both,
}
use stripe_entitlements_fast.Store.{Account, Order}
use stripe_entitlements_fast.PackEvents.{
  PaymentIntent, is_some, nullable_matches, metadata_matches_order,
}
use stripe_entitlements_fast.PackEvents.Contract.{
  ChargeObject, Dispute, Facts, facts_of, counted_refund, charge_matches, payment_matches,
  dispute_matches, identities_match, matched_facts,
}
use stripe_entitlements_fast.PackEvents.Clawback.Advance.{Advanced}

-- the facts of a match are what was read
pub facts_of-eq_some :
    (dispute : Bool) (payment : ℕ) (charge customer amount refunded : Option ℕ) (f : Facts)
    → facts_of dispute payment charge customer amount refunded ≡ some f
    → (f.payment_intent ≡ payment) × (charge ≡ some f.charge) × (customer ≡ some f.customer)
facts_of-eq_some d p none customer amount refunded f h = absurd (ground (arith, h))
facts_of-eq_some d p (some c) none amount refunded f h = absurd (ground (arith, h))
facts_of-eq_some d p (some c) (some k) none refunded f h = absurd (ground (arith, h))
facts_of-eq_some d p (some c) (some k) (some n) none f h = absurd (ground (arith, h))
facts_of-eq_some d p (some c) (some k) (some n) (some m) f h = ground (arith, h)

pub dispute_matches-moved :
    (dispute : Option Dispute) (c : ChargeObject) (o : Order) (f : Facts) (v : Advanced f o)
    → dispute_matches dispute c v.row ≡ dispute_matches dispute c o
unfolding dispute_matches
dispute_matches-moved none c o f v = refl
dispute_matches-moved (some d) c o f v = rw v.is_row refl

module _ (line : String) (dispute : Option Dispute) (c : ChargeObject) (p : PaymentIntent)
    (payment : ℕ) (pack_key : String) (f : Facts) where
  -- the tests that do not read what a clawback writes
  abbrev pub contract : Order → Bool
  contract o =
      charge_matches dispute c o
      && payment_matches line c p o
      && dispute_matches dispute c o
      && str_eq pack_key o.pack_key

  abbrev pub read_facts : Option Facts
  read_facts =
      facts_of (is_some dispute) payment c.id c.customer c.amount (counted_refund dispute c)

  abbrev pub fits : Account → Order → Bool
  fits a o = contract o && identities_match a o (some payment) c.id c.customer

  pub matched_facts-fits :
      (a : Account) (o : Order)
      → matched_facts line dispute c p payment pack_key a o ≡ some f
      → (fits a o ≡ true) × (read_facts ≡ some f)
  unfolding matched_facts
  matched_facts-fits a o h = elim (Bool-cases (fits a o)) [
    | inl yes_fits ↦ (yes_fits, ground (arith, h, yes_fits))
    | inr no_fit ↦ absurd (ground (arith, h, no_fit))
  ]

  pub fits-matched_facts :
      (a : Account) (o : Order)
      → fits a o ≡ true
      → read_facts ≡ some f
      → matched_facts line dispute c p payment pack_key a o ≡ some f
  unfolding matched_facts
  fits-matched_facts a o h r = rw (h, r) refl

  pub identities-again :
      (a b : Account) (o : Order) (v : Advanced f o)
      → nullable_matches b.customer_id (some f.customer) ≡ true
      → identities_match a o (some f.payment_intent) (some f.charge) (some f.customer) ≡ true
      → identities_match b v.row (some f.payment_intent) (some f.charge) (some f.customer) ≡ true
  identities-again a b o v k h =
      let h4 = former _ _ h in
      let h3 = former _ _ h4 in
      let h2 = former _ _ h3 in
      rw v.is_row (
        both _ _
          (both _ _
            (both _ _ (both _ _ (v.same_payment (former _ _ h2)) (v.same_charge (latter _ _ h2)))
              (latter _ _ h3))
            (v.same_customer (latter _ _ h4)))
          k)

  -- the contract matches the rows that a clawback leaves
  pub matched-again :
      (a b : Account) (o : Order) (v : Advanced f o)
      → nullable_matches b.customer_id (some f.customer) ≡ true
      → matched_facts line dispute c p payment pack_key a o ≡ some f
      → matched_facts line dispute c p payment pack_key b v.row ≡ some f
  unfolding metadata_matches_order
  matched-again a b o v k h =
      let m = matched_facts-fits a o h in
      let r =
        facts_of-eq_some (is_some dispute) payment c.id c.customer c.amount
          (counted_refund dispute c) f m.1 in
      let before : identities_match a o (some f.payment_intent) (some f.charge) (some f.customer)
          ≡ true =
        rw (r.0, ← r.1, ← r.2) (latter _ _ m.0) in
      let after : identities_match b v.row (some payment) c.id c.customer ≡ true =
        rw (← r.0, r.1, r.2) (identities-again a b o v k before) in
      let same : contract v.row ≡ true =
        rw (dispute_matches-moved dispute c o f v, v.is_row) (former (contract o) _ m.0) in
      fits-matched_facts b v.row (both _ _ same after) m.1

  pub matched-customer :
      (a : Account) (o : Order)
      → matched_facts line dispute c p payment pack_key a o ≡ some f
      → nullable_matches a.customer_id (some f.customer) ≡ true
  matched-customer a o h =
      let m = matched_facts-fits a o h in
      let r =
        facts_of-eq_some (is_some dispute) payment c.id c.customer c.amount
          (counted_refund dispute c) f m.1 in
      rw (← r.2) (latter _ _ (latter (contract o) _ m.0))
