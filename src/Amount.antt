-- ===== src/Amount.antt =====
-- typescript/src/credit-amount.ts: an amount of credits as a decimal text with at most six
-- fractional digits, and as an exact number of atoms, the millionths of a credit. A text is the list
-- of its code points.
pub mod Digits
pub mod Padding
pub mod Range
pub mod RoundTrip
use stripe_entitlements_fast.Base.{
  ℕ, zero, suc, ℤ, pos, negsuc, ◌+◌, ◌-◌, ◌*◌, ◌/◌, ◌%◌, List, [], ◌∷◌, ◌++◌, Bool, true, false,
  not, ◌&&◌, ◌||◌, Option, none, some, ◌==◌, ltb, leb, if◌then◌else◌, length,
}
use stripe_entitlements_fast.Store.{
  Result, ok, err, Error, amount_not_positive, amount_out_of_range, amount_negative,
  amount_not_decimal,
}

-- `CREDIT_SCALE`, the bounds `POSTGRES_BIGINT_MAX` of bounds.ts and `MAX_WHOLE_CREDITS`
abbrev pub credit_scale : ℕ
credit_scale = 1000000

abbrev pub max_credit_atoms : ℕ
max_credit_atoms = 9223372036854775807

abbrev pub max_whole_credits : ℕ
max_whole_credits = max_credit_atoms / credit_scale

-- the code points of '0' and '.'
abbrev pub zero_digit : ℕ
zero_digit = b'0'

abbrev pub point : ℕ
point = b'.'

abbrev pub is_digit : ℕ → Bool
is_digit c = leb zero_digit c && leb c b'9'

-- `BigInt(text)` of a text of digits
abbrev pub value_from : ℕ → List ℕ → ℕ
value_from acc [] = acc
value_from acc (c ∷ cs) = value_from (acc * 10 + (c - zero_digit)) cs

abbrev pub value : List ℕ → ℕ
value = value_from 0

-- `toString()` of a bigint: the digits of a number, on fuel
abbrev pub digits : ℕ → ℕ → List ℕ
digits zero n = []
digits (suc f) n = elim (ltb n 10) [
  | true ↦ (zero_digit + n) ∷ []
  | false ↦ digits f (n / 10) ++ (zero_digit + n % 10) ∷ []
]

unfoldable pub decimal : ℕ → List ℕ
decimal n = digits (suc n) n

abbrev pub zeros : ℕ → List ℕ
zeros zero = []
zeros (suc n) = zero_digit ∷ zeros n

-- `padEnd(width, "0")` and `padStart(width, "0")`
abbrev pub pad_end : ℕ → List ℕ → List ℕ
pad_end width xs = xs ++ zeros (width - length xs)

abbrev pub pad_start : ℕ → List ℕ → List ℕ
pad_start width xs = zeros (width - length xs) ++ xs

-- `replace(/0+$/u, "")`
abbrev pub strip_zeros : List ℕ → List ℕ
strip_zeros [] = []
strip_zeros (c ∷ cs) = elim (strip_zeros cs) [
  | [] ↦ if c == zero_digit then [] else c ∷ []
  | d ∷ ds ↦ c ∷ d ∷ ds
]

-- The longest prefix of digits, with what follows it.
abbrev pub span_digits : List ℕ → List ℕ × List ℕ
span_digits [] = ([], [])
span_digits (c ∷ cs) =
    let rest = span_digits cs in if is_digit c then (c ∷ rest.0, rest.1) else ([], c ∷ cs)

-- `0|[1-9][0-9]*` on a text of digits
abbrev pub is_whole : List ℕ → Bool
is_whole [] = false
is_whole (c ∷ []) = true
is_whole (c ∷ cs) = not (c == zero_digit)

abbrev pub is_fraction : List ℕ × List ℕ → Bool
is_fraction (ds, []) = ltb 0 (length ds) && leb (length ds) 6
is_fraction (ds, _ ∷ _) = false

-- `PLAIN_DECIMAL.exec`: the digits of the whole part, and those of the fraction.
unfoldable pub plain_decimal : List ℕ → Option (List ℕ × List ℕ)
plain_decimal text =
    let parts = span_digits text in
    if not (is_whole parts.0) then none else elim parts.1 [
      | [] ↦ some (parts.0, [])
      | c ∷ cs ↦ if c == point && is_fraction (span_digits cs) then some (parts.0, cs) else none
    ]

-- What `creditAtoms` can be given: a bigint, a number that is a safe integer, a text, or a value that
-- it refuses.
pub data Input : Type 0 where
  bigint safe_integer : ℤ → Input
  text : List ℕ → Input
  other : Input

-- `plainDecimalText`
unfoldable pub plain_decimal_text : Input → Result (List ℕ)
plain_decimal_text (bigint (pos n)) = ok (decimal n)
plain_decimal_text (bigint (negsuc n)) = err amount_negative
plain_decimal_text (safe_integer (pos n)) = ok (decimal n)
plain_decimal_text (safe_integer (negsuc n)) = err amount_negative
plain_decimal_text (text t) = ok t
plain_decimal_text other = err amount_not_decimal

-- the checks of `creditAtoms` on the digits of a match
unfoldable pub match_atoms : Bool → List ℕ × List ℕ → Result ℕ
match_atoms allow_zero (whole, fraction) =
    let atoms = value whole * credit_scale + value (pad_end 6 fraction) in
    if ltb max_whole_credits (value whole) || ltb max_credit_atoms atoms
    then err amount_out_of_range
    else if not allow_zero && (atoms == 0)
    then err amount_not_positive
    else ok atoms

unfoldable pub text_atoms : Bool → List ℕ → Result ℕ
text_atoms allow_zero t = elim (plain_decimal t) [
  | none ↦ err amount_not_decimal
  | some m ↦ match_atoms allow_zero m
]

-- `creditAtoms`
unfoldable pub credit_atoms : Bool → Input → Result ℕ
credit_atoms allow_zero input = elim (plain_decimal_text input) [
  | ok t ↦ text_atoms allow_zero t
  | err e ↦ err e
]

-- `creditDecimal`
unfoldable pub credit_decimal : ℤ → Result (List ℕ)
credit_decimal (negsuc n) = err amount_negative
credit_decimal (pos atoms) =
    let whole = decimal (atoms / credit_scale) in
    let fractional = atoms % credit_scale in
    ok (
      if fractional == 0
      then whole
      else whole ++ point ∷ strip_zeros (pad_start 6 (decimal fractional)))
