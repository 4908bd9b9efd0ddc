-- ===== src/Amount/RoundTrip.antt =====
-- `creditAtoms` reads what `creditDecimal` prints (typescript/src/credit-amount.ts).
use mathlib.Core.Path.{subst}
use stripe_entitlements_fast.Base.{
  ℕ, pos, ◌+◌, ◌-◌, ◌*◌, ◌/◌, ◌%◌, ◌≤◌, ◌<◌, ◌≡◌, refl, sym, ap, ◌∙◌, List, [], ◌∷◌, ◌++◌, true,
  false, some, arith, ◌==◌, ltb, leb, length, inl, inr, Bool-cases,
}
use stripe_entitlements_fast.Store.{ok}
use stripe_entitlements_fast.Amount.{
  point, credit_scale, max_credit_atoms, max_whole_credits, value, decimal, pad_end, pad_start,
  strip_zeros, span_digits, is_whole, plain_decimal, text, match_atoms, text_atoms, credit_atoms,
  credit_decimal, plain_decimal_text,
}
use stripe_entitlements_fast.Amount.Digits.{
  AllDigits, decimal-is_whole, decimal-AllDigits, value-decimal, length-decimal_le,
}
use stripe_entitlements_fast.Amount.Padding.{
  value-zeros, pad_start-AllDigits, length-pad_start, pad_end-strip_zeros, length-strip_zeros_le,
  strip_zeros-AllDigits, length-strip_zeros_pos,
}

span_digits-end : (ds : List ℕ) → AllDigits ds → span_digits ds ≡ (ds, [])
span_digits-end [] p = refl
span_digits-end (d ∷ ds) p = rw (p.0, span_digits-end ds p.1) refl

span_digits-point :
    (ds cs : List ℕ) → AllDigits ds → span_digits (ds ++ point ∷ cs) ≡ (ds, point ∷ cs)
span_digits-point [] cs p = refl
span_digits-point (d ∷ ds) cs p = rw (p.0, span_digits-point ds cs p.1) refl

plain_decimal-whole :
    (ds : List ℕ) → AllDigits ds → is_whole ds ≡ true → plain_decimal ds ≡ some (ds, [])
unfolding plain_decimal
plain_decimal-whole ds p w = rw (span_digits-end ds p, w, span_digits-end ds p) refl

plain_decimal-point :
    (ds fs : List ℕ)
    → AllDigits ds
    → is_whole ds ≡ true
    → AllDigits fs
    → 0 < length fs
    → length fs ≤ 6
    → plain_decimal (ds ++ point ∷ fs) ≡ some (ds, fs)
unfolding plain_decimal
plain_decimal-point ds fs p w q nonempty short =
    let l : ltb 0 (length fs) ≡ true = ground arith in
    let s : leb (length fs) 6 ≡ true = ground arith in
    rw (span_digits-point ds fs p, w, span_digits-end fs q, l, s, span_digits-point ds fs p) refl

match_atoms-exact :
    (whole fraction : List ℕ) (atoms : ℕ)
    → atoms ≤ max_credit_atoms
    → value whole ≡ atoms / credit_scale
    → value (pad_end 6 fraction) ≡ atoms % credit_scale
    → match_atoms true (whole, fraction) ≡ ok atoms
unfolding match_atoms
match_atoms-exact whole fraction atoms le w f =
    let whole_fits : ltb max_whole_credits (value whole) ≡ false = ground (arith, w) in
    let sum_eq : value whole * credit_scale + value (pad_end 6 fraction) ≡ atoms =
      omega (arith, w, f) in
    let fits : ltb max_credit_atoms atoms ≡ false = ground arith in
    rw (sum_eq, whole_fits, fits) refl

-- the two forms of the text
module _ (atoms : ℕ) (le : atoms ≤ max_credit_atoms) where
  abbrev whole_text : List ℕ
  whole_text = decimal (atoms / credit_scale)

  abbrev padded : List ℕ
  padded = pad_start 6 (decimal (atoms % credit_scale))

  length-padded : length padded ≡ 6
  length-padded =
      length-pad_start 6 (decimal (atoms % credit_scale))
        (length-decimal_le (atoms % credit_scale) 5 (omega arith))

  restored : pad_end 6 (strip_zeros padded) ≡ padded
  restored =
      subst (λ n. pad_end n (strip_zeros padded) ≡ padded) length-padded
        (pad_end-strip_zeros padded)

  value-padded : value padded ≡ atoms % credit_scale
  value-padded =
      value-zeros (6 - length (decimal (atoms % credit_scale))) (decimal (atoms % credit_scale))
      ∙ value-decimal (atoms % credit_scale)

  padded-AllDigits : AllDigits padded
  padded-AllDigits =
      pad_start-AllDigits 6 (decimal (atoms % credit_scale))
        (decimal-AllDigits (atoms % credit_scale))

  whole-reads : atoms % credit_scale ≡ 0 → text_atoms true whole_text ≡ ok atoms
  unfolding text_atoms
  whole-reads z =
      rw
        (
          text_atoms,
          plain_decimal-whole whole_text (decimal-AllDigits (atoms / credit_scale))
              (decimal-is_whole (atoms / credit_scale)),
        )
        (match_atoms-exact whole_text [] atoms le (value-decimal (atoms / credit_scale)) (sym z))

  point-reads :
      0 < atoms % credit_scale
      → text_atoms true (whole_text ++ point ∷ strip_zeros padded) ≡ ok atoms
  unfolding text_atoms
  point-reads nz =
      rw
        (
          text_atoms,
          plain_decimal-point whole_text (strip_zeros padded)
              (decimal-AllDigits (atoms / credit_scale)) (decimal-is_whole (atoms / credit_scale))
              (strip_zeros-AllDigits padded padded-AllDigits)
              (length-strip_zeros_pos padded (omega (arith, value-padded)))
              (omega (arith, length-strip_zeros_le padded, length-padded)),
        )
        (match_atoms-exact whole_text (strip_zeros padded) atoms le
          (value-decimal (atoms / credit_scale)) (ap value restored ∙ value-padded))

-- What `creditDecimal` prints for atoms in the range of a PostgreSQL bigint, `creditAtoms` reads back
-- as the same atoms.
pub credit_atoms-credit_decimal :
    (atoms : ℕ)
    → atoms ≤ max_credit_atoms
    → (t : List ℕ) × (credit_decimal (pos atoms) ≡ ok t) × (credit_atoms true (text t) ≡ ok atoms)
unfolding credit_decimal credit_atoms plain_decimal_text
credit_atoms-credit_decimal atoms le = elim (Bool-cases ((atoms % credit_scale) == 0)) [
  | inl whole ↦ (_, rw whole refl, whole-reads atoms le (ground (arith, whole)))
  | inr part ↦ (_, rw part refl, point-reads atoms le (ground (arith, part)))
]
