-- ===== src/Calendar/Zones.antt =====
-- `normalizedTimezone` of typescript/src/subscription-state.ts.
use mathlib.Core.Path.{subst}
use stripe_entitlements_fast.Base.{
  ℕ, ◌≡◌, refl, sym, List, [], ◌∷◌, ◌++◌, true, false, ◌||◌, ◌==◌, arith,
}
use stripe_entitlements_fast.Amount.{is_digit, span_digits, point}
use stripe_entitlements_fast.Amount.Digits.{AllDigits}
use stripe_entitlements_fast.Calendar.{
  is_timezone, begins_with, offset_seconds, normalized_timezone,
}

-- the forms of a timezone
data Zone : List ℕ → Type 0 where
  utc : Zone (b'Z' ∷ [])
  hours :
      (s a b : ℕ)
      → is_digit a ≡ true
      → is_digit b ≡ true
      → ((s == b'+') || (s == b'-')) ≡ true
      → Zone (s ∷ a ∷ b ∷ [])
  compact :
      (s a b c d : ℕ)
      → is_digit a ≡ true
      → is_digit b ≡ true
      → is_digit c ≡ true
      → is_digit d ≡ true
      → ((s == b'+') || (s == b'-')) ≡ true
      → Zone (s ∷ a ∷ b ∷ c ∷ d ∷ [])
  full :
      (s a b c d : ℕ)
      → is_digit a ≡ true
      → is_digit b ≡ true
      → is_digit c ≡ true
      → is_digit d ≡ true
      → ((s == b'+') || (s == b'-')) ≡ true
      → Zone (s ∷ a ∷ b ∷ b':' ∷ c ∷ d ∷ [])

is_timezone-Zone : (t : List ℕ) → is_timezone t ≡ true → Zone t
unfolding is_timezone
is_timezone-Zone [] h = absurd (ground arith)
is_timezone-Zone (s ∷ []) h = subst (λ c. Zone (c ∷ [])) (sym (ground arith)) utc
is_timezone-Zone (s ∷ a ∷ []) h = absurd (ground arith)
is_timezone-Zone (s ∷ a ∷ b ∷ []) h = hours s a b (ground arith) (ground arith) (ground arith)
is_timezone-Zone (s ∷ a ∷ b ∷ c ∷ []) h = absurd (ground arith)
is_timezone-Zone (s ∷ a ∷ b ∷ c ∷ d ∷ []) h =
    compact s a b c d (ground arith) (ground arith) (ground arith) (ground arith) (ground arith)
is_timezone-Zone (s ∷ a ∷ b ∷ c ∷ d ∷ e ∷ []) h =
    let colon : c ≡ b':' = ground arith in
    subst (λ x. Zone (s ∷ a ∷ b ∷ x ∷ d ∷ e ∷ [])) (sym colon)
      (full s a b d e (ground arith) (ground arith) (ground arith) (ground arith) (ground arith))
is_timezone-Zone (s ∷ a ∷ b ∷ c ∷ d ∷ e ∷ f ∷ g) h = absurd (ground arith)

digit-no_colon : (c : ℕ) → is_digit c ≡ true → (c == b':') ≡ false
digit-no_colon c h = ground arith

sign-no_colon : (s : ℕ) → ((s == b'+') || (s == b'-')) ≡ true → (s == b':') ≡ false
sign-no_colon s h = ground arith

sign-no_zulu : (s : ℕ) → ((s == b'+') || (s == b'-')) ≡ true → (s == b'Z') ≡ false
sign-no_zulu s h = ground arith

-- what a timezone and its normal form share
pub record SameZone (z n : List ℕ) : Type 0 where
  pub normal : is_timezone n ≡ true
  pub offset : offset_seconds n ≡ offset_seconds z
  pub ended : (ds : List ℕ) → AllDigits ds → span_digits (ds ++ n) ≡ (ds, n)
  pub no_point : begins_with point n ≡ false
  pub kept : normalized_timezone n ≡ n

span_digits-before :
    (ds : List ℕ) (c : ℕ) (cs : List ℕ)
    → AllDigits ds
    → is_digit c ≡ false
    → span_digits (ds ++ c ∷ cs) ≡ (ds, c ∷ cs)
span_digits-before [] c cs p h = rw h refl
span_digits-before (d ∷ ds) c cs p h = rw (p.0, span_digits-before ds c cs p.1 h) refl

sign-no_digit : (s : ℕ) → ((s == b'+') || (s == b'-')) ≡ true → is_digit s ≡ false
sign-no_digit s h = ground arith

sign-no_point : (s : ℕ) → ((s == b'+') || (s == b'-')) ≡ true → (s == point) ≡ false
sign-no_point s h = ground arith

-- a sign, the digits of the hours, and those of the minutes
module _ (s a b : ℕ) (p : is_digit a ≡ true) (q : is_digit b ≡ true)
    (r : ((s == b'+') || (s == b'-')) ≡ true) where
  full_zone :
      (z : List ℕ) (c d : ℕ)
      → is_digit c ≡ true
      → is_digit d ≡ true
      → offset_seconds (s ∷ a ∷ b ∷ b':' ∷ c ∷ d ∷ []) ≡ offset_seconds z
      → SameZone z (s ∷ a ∷ b ∷ b':' ∷ c ∷ d ∷ [])
  unfolding normalized_timezone is_timezone
  full_zone z c d u v same = record {
    normal = ground arith;
    offset = same;
    ended = λ ds all. span_digits-before ds s (a ∷ b ∷ b':' ∷ c ∷ d ∷ []) all (sign-no_digit s r);
    no_point = sign-no_point s r;
    kept = rw (sign-no_zulu s r, sign-no_colon s r, digit-no_colon a p, digit-no_colon b q) refl;
  }

  hours_offset :
      offset_seconds (s ∷ a ∷ b ∷ b':' ∷ b'0' ∷ b'0' ∷ []) ≡ offset_seconds (s ∷ a ∷ b ∷ [])
  unfolding offset_seconds
  hours_offset = rw (digit-no_colon a p, digit-no_colon b q) refl

  minutes_offset :
      (c d : ℕ)
      → is_digit c ≡ true
      → is_digit d ≡ true
      → offset_seconds (s ∷ a ∷ b ∷ b':' ∷ c ∷ d ∷ []) ≡ offset_seconds (s ∷ a ∷ b ∷ c ∷ d ∷ [])
  unfolding offset_seconds
  minutes_offset c d u v =
      rw (digit-no_colon a p, digit-no_colon b q, digit-no_colon c u, digit-no_colon d v) refl

zulu_zone : SameZone (b'Z' ∷ []) (b'Z' ∷ [])
unfolding normalized_timezone is_timezone
zulu_zone = record {
  normal = refl;
  offset = refl;
  ended = λ ds all. span_digits-before ds b'Z' [] all refl;
  no_point = refl;
  kept = refl;
}

Zone-same : (z : List ℕ) → Zone z → SameZone z (normalized_timezone z)
unfolding normalized_timezone
Zone-same _ utc = zulu_zone
Zone-same _ (hours s a b p q r) =
    rw (sign-no_zulu s r, sign-no_colon s r, digit-no_colon a p, digit-no_colon b q)
      (full_zone s a b p q r (s ∷ a ∷ b ∷ []) b'0' b'0' refl refl (hours_offset s a b p q r))
Zone-same _ (compact s a b c d p q u v r) =
    rw
      (
        sign-no_zulu s r,
        sign-no_colon s r,
        digit-no_colon a p,
        digit-no_colon b q,
        digit-no_colon c u,
        digit-no_colon d v,
      )
      (full_zone s a b p q r (s ∷ a ∷ b ∷ c ∷ d ∷ []) c d u v (minutes_offset s a b p q r c d u v))
Zone-same _ (full s a b c d p q u v r) =
    rw (sign-no_zulu s r, sign-no_colon s r, digit-no_colon a p, digit-no_colon b q)
      (full_zone s a b p q r (s ∷ a ∷ b ∷ b':' ∷ c ∷ d ∷ []) c d u v refl)

pub normalized_timezone-SameZone :
    (z : List ℕ) → is_timezone z ≡ true → SameZone z (normalized_timezone z)
normalized_timezone-SameZone z h = Zone-same z (is_timezone-Zone z h)
