-- ===== src/Calendar/Fractions.antt =====
-- What follows the seconds of a timestamp, as `TIMESTAMP` of
-- typescript/src/subscription-state.ts has it: a fraction and a timezone.
use mathlib.Core.Path.{subst}
use stripe_entitlements_fast.Base.{
  ℕ, ◌≡◌, refl, sym, ap, List, [], ◌∷◌, ◌++◌, true, false, ◌==◌, inl, inr, Bool-cases, arith,
  former, latter, both,
}
use stripe_entitlements_fast.Amount.{is_digit, span_digits, point}
use stripe_entitlements_fast.Amount.Digits.{AllDigits}
use stripe_entitlements_fast.Calendar.{is_timezone, begins_with, tail_of, is_tail}
use stripe_entitlements_fast.Calendar.Zones.{SameZone}

span_digits-append : (t : List ℕ) → t ≡ (span_digits t).0 ++ (span_digits t).1
span_digits-append [] = refl
span_digits-append (c ∷ cs) = elim (Bool-cases (is_digit c)) [
  | inl met ↦ rw met (ap (λ xs. c ∷ xs) (span_digits-append cs))
  | inr unmet ↦ rw unmet refl
]

span_digits-AllDigits : (t : List ℕ) → AllDigits (span_digits t).0
span_digits-AllDigits [] = tt
span_digits-AllDigits (c ∷ cs) = elim (Bool-cases (is_digit c)) [
  | inl met ↦ rw met (met, span_digits-AllDigits cs)
  | inr unmet ↦ rw unmet tt
]

-- The text before the timezone stands before another timezone as well.
pub record Front (t n : List ℕ) : Type 0 where
  pub front : List ℕ
  pub before : t ≡ front ++ (tail_of t).1
  pub tail : tail_of (front ++ n) ≡ ((tail_of t).0, n)
  pub matched : is_tail (front ++ n) ≡ true

pub is_tail-is_timezone : (t : List ℕ) → is_tail t ≡ true → is_timezone (tail_of t).1 ≡ true
is_tail-is_timezone t h = latter _ _ h

no_fraction : (t z n : List ℕ) → begins_with point t ≡ false → SameZone z n → Front t n
no_fraction t z n unmet same = record {
  front = [];
  before = rw unmet refl;
  tail = rw (same.no_point, unmet) refl;
  matched = rw same.no_point same.normal;
}

some_fraction :
    (cs z n : List ℕ) → is_tail (point ∷ cs) ≡ true → SameZone z n → Front (point ∷ cs) n
some_fraction cs z n h same =
    let kept = same.ended (span_digits cs).0 (span_digits-AllDigits cs) in
    record {
      front = point ∷ (span_digits cs).0;
      before = ap (λ xs. point ∷ xs) (span_digits-append cs);
      tail = kept;
      matched = rw kept (both _ _ (former _ _ h) same.normal);
    }

pub front_of : (t z n : List ℕ) → is_tail t ≡ true → SameZone z n → Front t n
front_of [] z n h same = no_fraction [] z n refl same
front_of (c ∷ cs) z n h same = elim (Bool-cases (c == point)) [
  | inl met ↦
      subst (λ x. is_tail (x ∷ cs) ≡ true → Front (x ∷ cs) n) (sym (ground (arith, met)))
        (λ k. some_fraction cs z n k same) h
  | inr unmet ↦ no_fraction (c ∷ cs) z n unmet same
]
