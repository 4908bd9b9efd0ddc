-- ===== src/Amount/Padding.antt =====
-- `padStart`, `padEnd` and the removal of trailing zeros in typescript/src/credit-amount.ts.
use stripe_entitlements_fast.Base.{
  ℕ, zero, suc, ◌+◌, ◌-◌, ◌≤◌, ◌<◌, ◌≡◌, refl, sym, ap, ◌∙◌, List, [], ◌∷◌, ◌++◌, true, arith, ◌==◌,
  length, inl, inr, Bool-cases, if◌then◌else◌, ==_iff,
}
use stripe_entitlements_fast.Amount.{
  zero_digit, is_digit, value, zeros, pad_end, pad_start, strip_zeros,
}
use stripe_entitlements_fast.Amount.Digits.{AllDigits, AllDigits-append}

pub length-zeros : (n : ℕ) (xs : List ℕ) → length (zeros n ++ xs) ≡ n + length xs
length-zeros zero xs = omega arith
length-zeros (suc n) xs = omega (arith, length-zeros n xs)

pub value-zeros : (n : ℕ) (xs : List ℕ) → value (zeros n ++ xs) ≡ value xs
value-zeros zero xs = refl
value-zeros (suc n) xs = value-zeros n xs

zeros-AllDigits : (n : ℕ) → AllDigits (zeros n)
zeros-AllDigits zero = tt
zeros-AllDigits (suc n) = (refl, zeros-AllDigits n)

pub pad_start-AllDigits : (width : ℕ) (xs : List ℕ) → AllDigits xs → AllDigits (pad_start width xs)
pad_start-AllDigits width xs d =
    AllDigits-append (zeros (width - length xs)) xs (zeros-AllDigits (width - length xs)) d

pub length-pad_start :
    (width : ℕ) (xs : List ℕ) → length xs ≤ width → length (pad_start width xs) ≡ width
length-pad_start width xs le = omega (arith, length-zeros (width - length xs) xs)

-- A text is what the removal of its trailing zeros leaves, then some zeros.
record Strips (xs ys : List ℕ) : Type 0 where
  pub removed : ℕ
  pub counted : length ys + removed ≡ length xs
  pub padded : ys ++ zeros removed ≡ xs

strip-step :
    (c : ℕ) (cs ys : List ℕ)
    → Strips cs ys
    → Strips
        (c ∷ cs)
        (elim ys [ [] ↦ if c == zero_digit then [] else c ∷ [] | d ∷ ds ↦ c ∷ d ∷ ds ])
strip-step c cs [] s = elim (Bool-cases (c == zero_digit)) [
  | inl is_zero ↦ rw is_zero (record {
    removed = suc s.removed;
    counted = omega (arith, s.counted);
    padded =
        ap (λ z. z ∷ zeros s.removed) (sym ((==_iff c zero_digit).0 is_zero))
        ∙ ap (λ zs. c ∷ zs) s.padded;
  })
  | inr other ↦ rw other (record {
    removed = s.removed;
    counted = omega (arith, s.counted);
    padded = ap (λ zs. c ∷ zs) s.padded;
  })
]
strip-step c cs (d ∷ ds) s = record {
  removed = s.removed;
  counted = omega (arith, s.counted);
  padded = ap (λ zs. c ∷ zs) s.padded;
}

strip_zeros-Strips : (xs : List ℕ) → Strips xs (strip_zeros xs)
strip_zeros-Strips [] = record { removed = 0; counted = refl; padded = refl }
strip_zeros-Strips (c ∷ cs) = strip-step c cs (strip_zeros cs) (strip_zeros-Strips cs)

-- Padding a text of the width again restores the zeros that were removed.
pub pad_end-strip_zeros : (xs : List ℕ) → pad_end (length xs) (strip_zeros xs) ≡ xs
pad_end-strip_zeros xs =
    let s = strip_zeros-Strips xs in
    let e : length xs - length (strip_zeros xs) ≡ s.removed = omega (arith, s.counted) in
    ap (λ n. strip_zeros xs ++ zeros n) e ∙ s.padded

pub length-strip_zeros_le : (xs : List ℕ) → length (strip_zeros xs) ≤ length xs
length-strip_zeros_le xs = omega (arith, (strip_zeros-Strips xs).counted)

strip-digits :
    (c : ℕ) (ys : List ℕ)
    → is_digit c ≡ true
    → AllDigits ys
    → AllDigits (elim ys [ [] ↦ if c == zero_digit then [] else c ∷ [] | d ∷ ds ↦ c ∷ d ∷ ds ])
strip-digits c [] p q = elim (Bool-cases (c == zero_digit)) [
  | inl is_zero ↦ rw is_zero tt
  | inr other ↦ rw other (p, tt)
]
strip-digits c (d ∷ ds) p q = (p, q)

pub strip_zeros-AllDigits : (xs : List ℕ) → AllDigits xs → AllDigits (strip_zeros xs)
strip_zeros-AllDigits [] d = tt
strip_zeros-AllDigits (c ∷ cs) d =
    strip-digits c (strip_zeros cs) d.0 (strip_zeros-AllDigits cs d.1)

value-padding : (n : ℕ) → value (zeros n) ≡ 0
value-padding zero = refl
value-padding (suc n) = value-padding n

-- A text of digits that is not all zeros keeps one.
pub length-strip_zeros_pos : (xs : List ℕ) → 0 < value xs → 0 < length (strip_zeros xs)
length-strip_zeros_pos xs p = go (strip_zeros xs) (pad_end-strip_zeros xs)
  where
    go : (ys : List ℕ) → pad_end (length xs) ys ≡ xs → 0 < length ys
    go [] e = omega (arith, ap value e, value-padding (length xs - 0))
    go (y ∷ ys) e = omega arith
