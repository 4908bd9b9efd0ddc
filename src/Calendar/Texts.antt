-- ===== src/Calendar/Texts.antt =====
-- The date and the time of a timestamp, character by character, and the text that `rfc3339Timestamp`
-- of typescript/src/subscription-state.ts makes of it.
use stripe_entitlements_fast.Base.{
  ℕ, zero, suc, ◌≡◌, ◌≤◌, ◌+◌, ◌-◌, refl, ◌∙◌, ap, List, [], ◌∷◌, ◌++◌, true, ◌==◌, arith, length,
  former, some,
}
use stripe_entitlements_fast.Calendar.{
  take, drop, slice, are_digits, is_date, is_time, is_separated, is_tail, tail_of, Match,
  match_timestamp, normal_text, normalized_timezone,
}

length-take_le : (n : ℕ) (t : List ℕ) → length (take n t) ≤ length t
length-take_le zero t = omega arith
length-take_le (suc n) [] = omega arith
length-take_le (suc n) (c ∷ t) = omega (arith, length-take_le n t)

length-drop : (n : ℕ) (t : List ℕ) → length (drop n t) ≡ length t - n
length-drop zero t = omega arith
length-drop (suc n) [] = omega arith
length-drop (suc n) (c ∷ t) = omega (arith, length-drop n t)

take-append : (xs ys : List ℕ) → take (length xs) (xs ++ ys) ≡ xs
take-append [] ys = refl
take-append (x ∷ xs) ys = ap (λ zs. x ∷ zs) (take-append xs ys)

length-joined : (xs ys : List ℕ) → length (xs ++ ys) ≡ length xs + length ys
length-joined [] ys = omega arith
length-joined (x ∷ xs) ys = omega (arith, length-joined xs ys)

pub is_time-length : (t : List ℕ) → is_time t ≡ true → 19 ≤ length t
unfolding is_time
is_time-length t h =
    let two : length (slice 17 2 t) ≡ 2 =
      ground
        (arith, former (length (slice 17 2 t) == 2) _ (former (are_digits 2 (slice 17 2 t)) _ h)) in
    omega (arith, two, length-take_le 2 (drop 17 t), length-drop 17 t)

-- a text of nineteen characters and more
pub data Long : List ℕ → Type 0 where
  long :
      (y3 y2 y1 y0 d1 n1 n0 d2 e1 e0 s h1 h0 c1 m1 m0 c2 s1 s0 : ℕ) (rest : List ℕ)
      → Long (
          y3 ∷ y2 ∷ y1 ∷ y0 ∷ d1 ∷ n1 ∷ n0 ∷ d2 ∷ e1 ∷ e0 ∷ s ∷ h1 ∷ h0 ∷ c1 ∷ m1 ∷ m0 ∷ c2 ∷ s1
          ∷ s0 ∷ rest)

pub length-Long : (t : List ℕ) → 19 ≤ length t → Long t
length-Long [] h = absurd (omega (arith, h))
length-Long (y3 ∷ []) h = absurd (omega (arith, h))
length-Long (y3 ∷ y2 ∷ []) h = absurd (omega (arith, h))
length-Long (y3 ∷ y2 ∷ y1 ∷ []) h = absurd (omega (arith, h))
length-Long (y3 ∷ y2 ∷ y1 ∷ y0 ∷ []) h = absurd (omega (arith, h))
length-Long (y3 ∷ y2 ∷ y1 ∷ y0 ∷ d1 ∷ []) h = absurd (omega (arith, h))
length-Long (y3 ∷ y2 ∷ y1 ∷ y0 ∷ d1 ∷ n1 ∷ []) h = absurd (omega (arith, h))
length-Long (y3 ∷ y2 ∷ y1 ∷ y0 ∷ d1 ∷ n1 ∷ n0 ∷ []) h = absurd (omega (arith, h))
length-Long (y3 ∷ y2 ∷ y1 ∷ y0 ∷ d1 ∷ n1 ∷ n0 ∷ d2 ∷ []) h = absurd (omega (arith, h))
length-Long (y3 ∷ y2 ∷ y1 ∷ y0 ∷ d1 ∷ n1 ∷ n0 ∷ d2 ∷ e1 ∷ []) h = absurd (omega (arith, h))
length-Long (y3 ∷ y2 ∷ y1 ∷ y0 ∷ d1 ∷ n1 ∷ n0 ∷ d2 ∷ e1 ∷ e0 ∷ []) h = absurd (omega (arith, h))
length-Long (y3 ∷ y2 ∷ y1 ∷ y0 ∷ d1 ∷ n1 ∷ n0 ∷ d2 ∷ e1 ∷ e0 ∷ s ∷ []) h = absurd (omega (arith, h))
length-Long (y3 ∷ y2 ∷ y1 ∷ y0 ∷ d1 ∷ n1 ∷ n0 ∷ d2 ∷ e1 ∷ e0 ∷ s ∷ h1 ∷ []) h =
    absurd (omega (arith, h))
length-Long (y3 ∷ y2 ∷ y1 ∷ y0 ∷ d1 ∷ n1 ∷ n0 ∷ d2 ∷ e1 ∷ e0 ∷ s ∷ h1 ∷ h0 ∷ []) h =
    absurd (omega (arith, h))
length-Long (y3 ∷ y2 ∷ y1 ∷ y0 ∷ d1 ∷ n1 ∷ n0 ∷ d2 ∷ e1 ∷ e0 ∷ s ∷ h1 ∷ h0 ∷ c1 ∷ []) h =
    absurd (omega (arith, h))
length-Long (y3 ∷ y2 ∷ y1 ∷ y0 ∷ d1 ∷ n1 ∷ n0 ∷ d2 ∷ e1 ∷ e0 ∷ s ∷ h1 ∷ h0 ∷ c1 ∷ m1 ∷ []) h =
    absurd (omega (arith, h))
length-Long (y3 ∷ y2 ∷ y1 ∷ y0 ∷ d1 ∷ n1 ∷ n0 ∷ d2 ∷ e1 ∷ e0 ∷ s ∷ h1 ∷ h0 ∷ c1 ∷ m1 ∷ m0 ∷ []) h =
    absurd (omega (arith, h))
length-Long (y3 ∷ y2 ∷ y1 ∷ y0 ∷ d1 ∷ n1 ∷ n0 ∷ d2 ∷ e1 ∷ e0 ∷ s ∷ h1 ∷ h0 ∷ c1 ∷ m1 ∷ m0 ∷ c2 ∷ [])
      h =
    absurd (omega (arith, h))
length-Long
      (y3 ∷ y2 ∷ y1 ∷ y0 ∷ d1 ∷ n1 ∷ n0 ∷ d2 ∷ e1 ∷ e0 ∷ s ∷ h1 ∷ h0 ∷ c1 ∷ m1 ∷ m0 ∷ c2 ∷ s1 ∷ [])
      h =
    absurd (omega (arith, h))
length-Long
      (y3 ∷ y2 ∷ y1 ∷ y0 ∷ d1 ∷ n1 ∷ n0 ∷ d2 ∷ e1 ∷ e0 ∷ s ∷ h1 ∷ h0 ∷ c1 ∷ m1 ∷ m0 ∷ c2 ∷ s1 ∷ s0
        ∷ rest)
      h =
    long y3 y2 y1 y0 d1 n1 n0 d2 e1 e0 s h1 h0 c1 m1 m0 c2 s1 s0 rest

module _ (y3 y2 y1 y0 d1 n1 n0 d2 e1 e0 h1 h0 c1 m1 m0 c2 s1 s0 : ℕ) where
  abbrev pub text_of : ℕ → List ℕ → List ℕ
  text_of s rest =
      y3 ∷ y2 ∷ y1 ∷ y0 ∷ d1 ∷ n1 ∷ n0 ∷ d2 ∷ e1 ∷ e0 ∷ s ∷ h1 ∷ h0 ∷ c1 ∷ m1 ∷ m0 ∷ c2 ∷ s1 ∷ s0
      ∷ rest

  abbrev pub groups : List ℕ × List ℕ → Match
  groups parts = record {
    year = y3 ∷ y2 ∷ y1 ∷ y0 ∷ [];
    month = n1 ∷ n0 ∷ [];
    day = e1 ∷ e0 ∷ [];
    hour = h1 ∷ h0 ∷ [];
    minute = m1 ∷ m0 ∷ [];
    second = s1 ∷ s0 ∷ [];
    fraction = parts.0;
    timezone = parts.1;
  }

  pub match_timestamp-text_of :
      (s : ℕ) (rest : List ℕ)
      → is_date (text_of s rest) ≡ true
      → is_time (text_of s rest) ≡ true
      → is_separated (text_of s rest) ≡ true
      → is_tail rest ≡ true
      → match_timestamp (text_of s rest) ≡ some (groups (tail_of rest))
  unfolding match_timestamp
  match_timestamp-text_of s rest date time separated tail = rw (date, time, separated, tail) refl

  length-text_of :
      (s : ℕ) (front z : List ℕ)
      → length (text_of s (front ++ z)) - length z - 11
        ≡ suc (suc (suc (suc (suc (suc (suc (suc (length front))))))))
  length-text_of s front z = omega (arith, length-joined front z)

  slice-text_of :
      (s : ℕ) (front z : List ℕ)
      → slice 11 (length (text_of s (front ++ z)) - length z - 11) (text_of s (front ++ z))
        ≡ h1 ∷ h0 ∷ c1 ∷ m1 ∷ m0 ∷ c2 ∷ s1 ∷ s0 ∷ front
  slice-text_of s front z =
      ap (λ k. take k (drop 11 (text_of s (front ++ z)))) (length-text_of s front z)
      ∙ ap (λ r. h1 ∷ h0 ∷ c1 ∷ m1 ∷ m0 ∷ c2 ∷ s1 ∷ s0 ∷ r) (take-append front z)

  pub normal_text-text_of :
      (s : ℕ) (rest front : List ℕ)
      → rest ≡ front ++ (tail_of rest).1
      → normal_text (text_of s rest) (groups (tail_of rest))
        ≡ text_of b'T' (front ++ normalized_timezone (tail_of rest).1)
  normal_text-text_of s rest front before =
      let z = (tail_of rest).1 in
      ap
        (λ xs.
          y3 ∷ y2 ∷ y1 ∷ y0 ∷ d1 ∷ n1 ∷ n0 ∷ d2 ∷ e1 ∷ e0 ∷ b'T' ∷ (xs ++ normalized_timezone z))
        (ap (λ r. slice 11 (length (text_of s r) - length z - 11) (text_of s r)) before
          ∙ slice-text_of s front z)

  pub same_date :
      (s r : ℕ) (rest other : List ℕ) → is_date (text_of s rest) ≡ is_date (text_of r other)
  unfolding is_date
  same_date s r rest other = refl

  pub same_time :
      (s r : ℕ) (rest other : List ℕ) → is_time (text_of s rest) ≡ is_time (text_of r other)
  unfolding is_time
  same_time s r rest other = refl
