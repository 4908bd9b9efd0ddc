-- ===== src/Calendar.antt =====
-- The calendar of typescript/src/subscription-state.ts: the number of a day, the microseconds of a
-- PostgreSQL timestamp, and its normal form for public JSON. A text is the list of its code points; a
-- value that is no text is not modelled, it has no microseconds.
pub mod Days
pub mod Zones
pub mod Fractions
pub mod Texts
pub mod Normal
use stripe_entitlements_fast.Amount.{is_digit, value, point, pad_end, span_digits}
use stripe_entitlements_fast.Base.{
  ℕ, ◌+◌, ◌-◌, ◌*◌, ◌/◌, ◌%◌, ◌^◌, ℤ, pos, ◌+ℤ◌, ◌-ℤ◌, sub_ℕ, pos_part, neg_part, suc, List, [],
  ◌∷◌, ◌++◌, length, zero, true, false, Bool, not, Option, none, some, ◌&&◌, ◌||◌, ◌==◌, ltb, leb,
  if◌then◌else◌,
}

-- `isLeapYear`
abbrev pub is_leap_year : ℕ → Bool
is_leap_year year = (year % 4 == 0) && (not (year % 100 == 0) || (year % 400 == 0))

-- `lengths[month - 1] ?? 0`
abbrev pub length_of : List ℕ → ℕ → ℕ
length_of [] month = 0
length_of (n ∷ ns) month = let rest = length_of ns (month - 1) in if month == 1 then n else rest

-- `daysInMonth`
unfoldable pub days_in_month : ℕ → ℕ → ℕ
days_in_month year month =
    length_of
      (31
        ∷ (if is_leap_year year then 29 else 28)
        ∷ 31
        ∷ 30
        ∷ 31
        ∷ 30
        ∷ 31
        ∷ 31
        ∷ 30
        ∷ 31
        ∷ 30
        ∷ 31
        ∷ [])
      month

-- the days of the years of an era before a year that begins in March
abbrev pub days_of_years : ℕ → ℕ
days_of_years year_of_era = year_of_era * 365 + year_of_era / 4 - year_of_era / 100

-- `daysFromCivil` before its last subtraction, of a year from 1 and a day from 1
unfoldable pub civil_day : ℕ → ℕ → ℕ → ℕ
civil_day year month day =
    let adjusted = year - (if leb month 2 then 1 else 0) in
    let era = adjusted / 400 in
    let year_of_era = adjusted - era * 400 in
    let shifted = if ltb 2 month then month - 3 else month + 9 in
    let day_of_year = (153 * shifted + 2) / 5 + day - 1 in
    era * 146097 + (days_of_years year_of_era + day_of_year)

-- `daysFromCivil`
unfoldable pub days_from_civil : ℕ → ℕ → ℕ → ℤ
days_from_civil year month day = sub_ℕ (civil_day year month day) 719468

-- `SECONDS_PER_DAY` and `MICROS_PER_SECOND`
abbrev pub seconds_per_day : ℕ
seconds_per_day = 86400

abbrev pub micros_per_second : ℕ
micros_per_second = 1000000

abbrev pub scale : ℤ → ℕ → ℤ
scale a n = sub_ℕ (pos_part a * n) (neg_part a * n)

abbrev pub take {ℓ} : {A : Type ℓ} → ℕ → List A → List A
take zero xs = []
take (suc n) [] = []
take (suc n) (x ∷ xs) = x ∷ take n xs

abbrev pub drop {ℓ} : {A : Type ℓ} → ℕ → List A → List A
drop zero xs = xs
drop (suc n) [] = []
drop (suc n) (x ∷ xs) = drop n xs

-- `text.slice(from, from + count)`
abbrev pub slice : ℕ → ℕ → List ℕ → List ℕ
slice from count t = take count (drop from t)

-- The characters of a text are some digits, `count` of them.
abbrev pub all_digits : List ℕ → Bool
all_digits [] = true
all_digits (c ∷ cs) = is_digit c && all_digits cs

abbrev pub are_digits : ℕ → List ℕ → Bool
are_digits count t = (length t == count) && all_digits t

abbrev pub begins_with : ℕ → List ℕ → Bool
begins_with c [] = false
begins_with c (d ∷ ds) = d == c

abbrev pub rest_of : List ℕ → List ℕ
rest_of [] = []
rest_of (c ∷ cs) = cs

-- `Z|[+-]\d{2}(?::?\d{2})?`
unfoldable pub is_timezone : List ℕ → Bool
is_timezone [] = false
is_timezone (c ∷ cs) =
    let minutes = drop 2 cs in
    ((c == b'Z') && (length cs == 0))
    || (((c == b'+') || (c == b'-'))
        && are_digits 2 (take 2 cs)
        && ((length minutes == 0)
            || are_digits 2 (if begins_with b':' minutes then rest_of minutes else minutes)))

-- the groups of a match; a fraction that is missing is empty, as `match[7] ?? ""`
pub record Match : Type 0 where
  pub year : List ℕ
  pub month : List ℕ
  pub day : List ℕ
  pub hour : List ℕ
  pub minute : List ℕ
  pub second : List ℕ
  pub fraction : List ℕ
  pub timezone : List ℕ

-- the parts of the text after its seconds: a fraction and a timezone
abbrev pub tail_of : List ℕ → List ℕ × List ℕ
tail_of t = if begins_with point t then span_digits (rest_of t) else ([], t)

abbrev pub is_tail : List ℕ → Bool
is_tail t =
    let parts = tail_of t in
    (not (begins_with point t) || (leb 1 (length parts.0) && leb (length parts.0) 6))
    && is_timezone parts.1

-- the date and the time of `TIMESTAMP`, up to the seconds
unfoldable pub is_date : List ℕ → Bool
is_date t =
    are_digits 4 (slice 0 4 t)
    && begins_with b'-' (drop 4 t)
    && are_digits 2 (slice 5 2 t)
    && begins_with b'-' (drop 7 t)
    && are_digits 2 (slice 8 2 t)

unfoldable pub is_time : List ℕ → Bool
is_time t =
    are_digits 2 (slice 17 2 t)
    && (are_digits 2 (slice 11 2 t)
        && begins_with b':' (drop 13 t)
        && are_digits 2 (slice 14 2 t)
        && begins_with b':' (drop 16 t))

abbrev pub is_separated : List ℕ → Bool
is_separated t = begins_with b'T' (drop 10 t) || begins_with b' ' (drop 10 t)

-- `TIMESTAMP.exec`
unfoldable pub match_timestamp : List ℕ → Option Match
match_timestamp t =
    if is_date t && is_time t && is_separated t && is_tail (drop 19 t)
    then some (record {
      year = slice 0 4 t;
      month = slice 5 2 t;
      day = slice 8 2 t;
      hour = slice 11 2 t;
      minute = slice 14 2 t;
      second = slice 17 2 t;
      fraction = (tail_of (drop 19 t)).0;
      timezone = (tail_of (drop 19 t)).1;
    })
    else none

-- `replace(":", "")`, of the first colon
abbrev pub without_colon : List ℕ → List ℕ
without_colon [] = []
without_colon (c ∷ cs) = let rest = without_colon cs in if c == b':' then cs else c ∷ rest

-- `offsetSeconds`, or nothing where its hours or minutes are out of range
unfoldable pub offset_seconds : List ℕ → Option ℤ
offset_seconds timezone =
    let compact = without_colon (rest_of timezone) in
    let hours = value (take 2 compact) in
    let minutes = if length compact == 4 then value (drop 2 compact) else 0 in
    let seconds = hours * 3600 + minutes * 60 in
    if begins_with b'Z' timezone
    then some (pos 0)
    else if ltb 23 hours || ltb 59 minutes
    then none
    else some (if begins_with b'+' timezone then pos seconds else sub_ℕ 0 seconds)

-- the bounds of the date and of the time
abbrev pub in_range : Match → Bool
in_range m = not (
    ltb (value m.year) 1
    || ltb 9999 (value m.year)
    || ltb (value m.month) 1
    || ltb 12 (value m.month)
    || ltb (value m.day) 1
    || ltb (days_in_month (value m.year) (value m.month)) (value m.day)
    || ltb 23 (value m.hour)
    || ltb 59 (value m.minute)
    || ltb 59 (value m.second))

-- the microseconds of a match whose timezone has an offset
unfoldable pub micros_at : Match → ℤ → ℤ
micros_at m offset =
    let days = days_from_civil (value m.year) (value m.month) (value m.day) in
    let time = value m.hour * 3600 + value m.minute * 60 + value m.second in
    let local_seconds = scale days seconds_per_day +ℤ pos time in
    scale (local_seconds -ℤ offset) micros_per_second +ℤ pos (value (pad_end 6 m.fraction))

unfoldable pub match_micros : Match → Option ℤ
match_micros m =
    if in_range m
    then elim (offset_seconds m.timezone) [ none ↦ none | some offset ↦ some (micros_at m offset) ]
    else none

-- `timestampMicros` of what `exec` returns, and of a text
abbrev pub micros_of : Option Match → Option ℤ
micros_of none = none
micros_of (some m) = match_micros m

unfoldable pub timestamp_micros : List ℕ → Option ℤ
timestamp_micros t = micros_of (match_timestamp t)

abbrev pub has_colon : List ℕ → Bool
has_colon [] = false
has_colon (c ∷ cs) = (c == b':') || has_colon cs

-- `normalizedTimezone`
unfoldable pub normalized_timezone : List ℕ → List ℕ
normalized_timezone timezone =
    if begins_with b'Z' timezone || has_colon timezone
    then timezone
    else if length timezone == 3
    then timezone ++ b':' ∷ b'0' ∷ b'0' ∷ []
    else take 3 timezone ++ b':' ∷ drop 3 timezone

-- the text with its normal timezone and a T before the time
abbrev pub normal_text : List ℕ → Match → List ℕ
normal_text t m =
    take 10 t
    ++ b'T' ∷ slice 11 (length t - length m.timezone - 11) t
    ++ normalized_timezone m.timezone

-- `rfc3339Timestamp`, which throws a `TypeError` for a text with no microseconds
abbrev pub text_unless : Option ℤ → List ℕ → Option (List ℕ)
text_unless none u = none
text_unless (some _) u = some u

abbrev pub normal_of : List ℕ → Option Match → Option (List ℕ)
normal_of t none = none
normal_of t (some m) = text_unless (match_micros m) (normal_text t m)

unfoldable pub rfc3339_timestamp : List ℕ → Option (List ℕ)
rfc3339_timestamp t = normal_of t (match_timestamp t)
