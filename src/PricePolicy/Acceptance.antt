-- ===== src/PricePolicy/Acceptance.antt =====
-- What a price that typescript/src/price-policy.ts accepts is known to be.
use mathlib.Core.Bool.{true≢false}
use stripe_entitlements_fast.Base.{
  true, false, ◌≡◌, refl, sym, ◌∙◌, arith, inl, inr, Bool-cases, former, latter,
}
use stripe_entitlements_fast.Value.{
  Value, undefined, null, inexact, exotic, boolean, integer, text, array, object, get, is_record,
  is_absent,
}
use stripe_entitlements_fast.PricePolicy.{
  Expectation, PackExpectation, catalog_price_matches, catalog_one_time_price_matches,
}

record-present : (v : Value) → is_record v ≡ true → is_absent v ≡ false
record-present (object fs) h = refl
record-present undefined h = ground (arith, h)
record-present null h = ground (arith, h)
record-present inexact h = refl
record-present exotic h = refl
record-present (boolean b) h = refl
record-present (integer n) h = refl
record-present (text s) h = refl
record-present (array xs) h = refl

has_recurring :
    (price : Value) (e : Expectation)
    → catalog_price_matches price e ≡ true
    → is_record (get price "recurring") ≡ true
unfolding catalog_price_matches
has_recurring price e h =
    latter _ _
      (former _ _ (former _ _ (former _ _ (former _ _ (former _ _ (former _ _ (former _ _ h)))))))

has_no_recurring :
    (price : Value) (o : PackExpectation)
    → catalog_one_time_price_matches price o ≡ true
    → is_absent (get price "recurring") ≡ true
unfolding catalog_one_time_price_matches
has_no_recurring price o h = latter _ _ (former _ _ h)

-- No price is both an expected recurring price and an expected price of a credit pack.
pub catalog_price_matches-exclusive :
    (price : Value) (e : Expectation) (o : PackExpectation)
    → catalog_price_matches price e ≡ true
    → catalog_one_time_price_matches price o ≡ false
catalog_price_matches-exclusive price e o h =
    let present = record-present (get price "recurring") (has_recurring price e h) in
    elim (Bool-cases (catalog_one_time_price_matches price o)) [
      | inl accepted ↦ absurd (true≢false (sym (has_no_recurring price o accepted) ∙ present))
      | inr refused ↦ refused
    ]
