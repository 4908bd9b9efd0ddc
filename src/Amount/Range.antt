-- ===== src/Amount/Range.antt =====
-- The range of the amounts that `creditAtoms` accepts (typescript/src/credit-amount.ts).
use stripe_entitlements_fast.Base.{ℕ, ◌≤◌, ◌<◌, ◌≡◌, List, Bool, Option, false, some, none, arith}
use stripe_entitlements_fast.Store.{Result, ok, err, amount_not_decimal}
use stripe_entitlements_fast.Amount.{
  Input, max_credit_atoms, plain_decimal, plain_decimal_text, match_atoms, text_atoms, credit_atoms,
}

-- A result, if there is one, is an amount in the range.
abbrev InRange : Bool → ℕ → Type 0
InRange allow_zero atoms = (atoms ≤ max_credit_atoms) × ((allow_zero ≡ false) → 0 < atoms)

match_atoms-InRange :
    (allow_zero : Bool) (m : List ℕ × List ℕ) (atoms : ℕ)
    → match_atoms allow_zero m ≡ ok atoms
    → InRange allow_zero atoms
unfolding match_atoms
match_atoms-InRange allow_zero m atoms e = (ground arith, λ f. ground arith)

text_atoms-InRange :
    (allow_zero : Bool) (t : List ℕ) (atoms : ℕ)
    → text_atoms allow_zero t ≡ ok atoms
    → InRange allow_zero atoms
unfolding text_atoms
text_atoms-InRange allow_zero t atoms e = go (plain_decimal t) e
  where
    go :
        (o : Option (List ℕ × List ℕ))
        → (elim o [ none ↦ err amount_not_decimal | some m ↦ match_atoms allow_zero m ]) ≡ ok atoms
        → InRange allow_zero atoms
    go none e = (ground arith, λ f. ground arith)
    go (some m) e = match_atoms-InRange allow_zero m atoms e

-- Whatever `creditAtoms` accepts is in the range of a PostgreSQL bigint, and positive where zero is
-- not allowed.
pub credit_atoms-InRange :
    (allow_zero : Bool) (input : Input) (atoms : ℕ)
    → credit_atoms allow_zero input ≡ ok atoms
    → (atoms ≤ max_credit_atoms) × ((allow_zero ≡ false) → 0 < atoms)
unfolding credit_atoms
credit_atoms-InRange allow_zero input atoms e = go (plain_decimal_text input) e
  where
    go :
        (o : Result (List ℕ))
        → (elim o [ ok t ↦ text_atoms allow_zero t | err e ↦ err e ]) ≡ ok atoms
        → InRange allow_zero atoms
    go (err r) e = (ground arith, λ f. ground arith)
    go (ok t) e = text_atoms-InRange allow_zero t atoms e
