-- ===== src/Amount/Digits.antt =====
-- The digits of a number and the number of its digits (typescript/src/credit-amount.ts).
use stripe_entitlements_fast.Base.{
  ℕ, zero, suc, ◌+◌, ◌-◌, ◌*◌, ◌/◌, ◌%◌, ◌^◌, ◌≤◌, ◌<◌, ◌≡◌, refl, ap, ◌∙◌, List, [], ◌∷◌, ◌++◌,
  true, false, arith, ◌==◌, ltb, length, All, inl, inr, Bool-cases, ltb→lt,
}
use stripe_entitlements_fast.Amount.{
  zero_digit, is_digit, value_from, value, digits, decimal, is_whole,
}

abbrev pub AllDigits : List ℕ → Type 0
AllDigits = All (λ c. is_digit c ≡ true)

pub value-snoc :
    (acc : ℕ) (xs : List ℕ) (c : ℕ)
    → value_from acc (xs ++ c ∷ []) ≡ value_from acc xs * 10 + (c - zero_digit)
value-snoc acc [] c = refl
value-snoc acc (x ∷ xs) c = value-snoc (acc * 10 + (x - zero_digit)) xs c

pub AllDigits-append : (xs ys : List ℕ) → AllDigits xs → AllDigits ys → AllDigits (xs ++ ys)
AllDigits-append [] ys p q = q
AllDigits-append (x ∷ xs) ys p q = (p.0, AllDigits-append xs ys p.1 q)

-- the two ends of the code
module _ (f n : ℕ) where
  digits-one : ltb n 10 ≡ true → digits (suc f) n ≡ (zero_digit + n) ∷ []
  digits-one small = rw (digits, small) refl

  digits-more :
      ltb n 10 ≡ false → digits (suc f) n ≡ digits f (n / 10) ++ (zero_digit + n % 10) ∷ []
  digits-more large = rw (digits, large) refl

pub value-digits : (f n : ℕ) → n < f → value (digits f n) ≡ n
value-digits zero n lt = omega arith
value-digits (suc f) n lt = elim (Bool-cases (ltb n 10)) [
  | inl small ↦ rw (digits-one f n small) (omega arith)
  | inr large ↦ rw (digits-more f n large) (
      value-snoc 0 (digits f (n / 10)) (zero_digit + n % 10)
      ∙ omega (arith, value-digits f (n / 10) (ground (arith, large))))
]

is_digit-remainder : (r : ℕ) → r < 10 → is_digit (zero_digit + r) ≡ true
is_digit-remainder r lt = ground arith

pub digits-AllDigits : (f n : ℕ) → AllDigits (digits f n)
digits-AllDigits zero n = tt
digits-AllDigits (suc f) n = elim (Bool-cases (ltb n 10)) [
  | inl small ↦ rw (digits-one f n small) (is_digit-remainder n (ltb→lt n 10 small), tt)
  | inr large ↦ rw (digits-more f n large) (
      AllDigits-append (digits f (n / 10)) ((zero_digit + n % 10) ∷ [])
        (digits-AllDigits f (n / 10)) (is_digit-remainder (n % 10) (omega arith), tt))
]

length-snoc : (xs : List ℕ) (c : ℕ) → length (xs ++ c ∷ []) ≡ suc (length xs)
length-snoc [] c = refl
length-snoc (x ∷ xs) c = ap suc (length-snoc xs c)

length-rest :
    (f n k : ℕ)
    → n < 10 ^ suc k
    → ltb n 10 ≡ false
    → ((j : ℕ) → n / 10 < 10 ^ suc j → length (digits f (n / 10)) ≤ suc j)
    → suc (length (digits f (n / 10))) ≤ suc k
length-rest f n zero lt large ih = ground (arith, large)
length-rest f n (suc k) lt large ih = omega (arith, ih k (omega arith))

pub length-digits_le : (f n k : ℕ) → n < 10 ^ suc k → length (digits f n) ≤ suc k
length-digits_le zero n k lt = omega arith
length-digits_le (suc f) n k lt = elim (Bool-cases (ltb n 10)) [
  | inl small ↦ rw (digits-one f n small) (omega arith)
  | inr large ↦
      rw (digits-more f n large, length-snoc (digits f (n / 10)) (zero_digit + n % 10))
        (length-rest f n k lt large (λ j. length-digits_le f (n / 10) j))
]

-- A number that is not 0 has a first digit, and that is not '0'.
abbrev Leads : List ℕ → Type 0
Leads xs = (c : ℕ) × (cs : List ℕ) × (xs ≡ c ∷ cs) × ((c == zero_digit) ≡ false)

Leads-append : (xs ys : List ℕ) → Leads xs → Leads (xs ++ ys)
Leads-append xs ys (c, cs, e, ne) = (c, cs ++ ys, ap (λ zs. zs ++ ys) e, ne)

not_lt_zero : {n : ℕ} → n < 0 → ⊥
not_lt_zero lt = omega arith

digits-Leads : (f n : ℕ) → n < f → 0 < n → Leads (digits f n)
digits-Leads zero n lt p = absurd (not_lt_zero lt)
digits-Leads (suc f) n lt p = elim (Bool-cases (ltb n 10)) [
  | inl small ↦ rw (digits-one f n small) (zero_digit + n, [], refl, ground arith)
  | inr large ↦ rw (digits-more f n large) (
      Leads-append (digits f (n / 10)) ((zero_digit + n % 10) ∷ [])
        (digits-Leads f (n / 10) (ground (arith, large)) (ground (arith, large))))
]

is_whole-cons : (c : ℕ) (cs : List ℕ) → (c == zero_digit) ≡ false → is_whole (c ∷ cs) ≡ true
is_whole-cons c [] ne = refl
is_whole-cons c (d ∷ ds) ne = rw ne refl

Leads-is_whole : (xs : List ℕ) → Leads xs → is_whole xs ≡ true
Leads-is_whole xs (c, cs, e, ne) = rw e (is_whole-cons c cs ne)

pub decimal-is_whole : (n : ℕ) → is_whole (decimal n) ≡ true
unfolding decimal
decimal-is_whole zero = refl
decimal-is_whole (suc n) =
    Leads-is_whole (digits (suc (suc n)) (suc n))
      (digits-Leads (suc (suc n)) (suc n) (omega arith) (omega arith))

pub value-decimal : (n : ℕ) → value (decimal n) ≡ n
unfolding decimal
value-decimal n = value-digits (suc n) n (omega arith)

pub decimal-AllDigits : (n : ℕ) → AllDigits (decimal n)
unfolding decimal
decimal-AllDigits n = digits-AllDigits (suc n) n

pub length-decimal_le : (n k : ℕ) → n < 10 ^ suc k → length (decimal n) ≤ suc k
unfolding decimal
length-decimal_le n k = length-digits_le (suc n) n k
