-- ===== src/Tests/Calendar.antt =====
-- The end of a February, and timestamps with a fraction and with an offset.
use stripe_entitlements_fast.Base.{
  ℕ, ℤ, none, ◌⊎◌, ◌≡◌, refl, pos, ◌+ℤ◌, ◌-ℤ◌, List, [], ◌∷◌, some, arith,
}
use stripe_entitlements_fast.Calendar.{
  is_date, is_time, days_from_civil, timestamp_micros, rfc3339_timestamp, match_timestamp,
  match_micros, micros_at, offset_seconds, is_timezone, civil_day, days_in_month,
  normalized_timezone,
}
use stripe_entitlements_fast.Calendar.Normal.{rfc3339_timestamp-SameInstant}
use stripe_entitlements_fast.Calendar.Days.{Date, IsDate, next_day, days_from_civil-next_day}

-- "2024-02-29 23:59:59.5+0530"
abbrev with_offset : List ℕ
with_offset =
    50 ∷ 48 ∷ 50 ∷ 52 ∷ 45 ∷ 48 ∷ 50 ∷ 45 ∷ 50 ∷ 57 ∷ 32 ∷ 50 ∷ 51 ∷ 58 ∷ 53 ∷ 57 ∷ 58 ∷ 53 ∷ 57
    ∷ 46 ∷ 53 ∷ 43 ∷ 48 ∷ 53 ∷ 51 ∷ 48 ∷ []

-- "2024-02-29T23:59:59.5+05:30"
abbrev normal : List ℕ
normal =
    50 ∷ 48 ∷ 50 ∷ 52 ∷ 45 ∷ 48 ∷ 50 ∷ 45 ∷ 50 ∷ 57 ∷ 84 ∷ 50 ∷ 51 ∷ 58 ∷ 53 ∷ 57 ∷ 58 ∷ 53 ∷ 57
    ∷ 46 ∷ 53 ∷ 43 ∷ 48 ∷ 53 ∷ 58 ∷ 51 ∷ 48 ∷ []

timestamp_micros_run : timestamp_micros with_offset ≡ some (pos 1709231399500000)
unfolding timestamp_micros is_date is_time match_timestamp match_micros micros_at offset_seconds
    is_timezone days_from_civil civil_day days_in_month ◌+ℤ◌ ◌-ℤ◌
timestamp_micros_run = refl

rfc3339_timestamp_run : rfc3339_timestamp with_offset ≡ some normal
unfolding is_date is_time rfc3339_timestamp match_timestamp match_micros micros_at offset_seconds
    is_timezone days_from_civil civil_day days_in_month normalized_timezone
rfc3339_timestamp_run = refl

abbrev leap_day : Date
leap_day = record { year = 2024; month = 2; day = 29 }

leap_day-IsDate : IsDate leap_day
unfolding days_in_month
leap_day-IsDate = record {
  from_year = omega arith;
  from_month = omega arith;
  to_month = omega arith;
  from_day = omega arith;
  to_day = omega arith;
}

days_from_civil-next_day_example :
    (days_from_civil 1970 1 1 ≡ pos 0)
    × IsDate (next_day leap_day)
    × (days_from_civil (next_day leap_day).year (next_day leap_day).month (next_day leap_day).day
        ≡ days_from_civil 2024 2 29 +ℤ pos 1)
days_from_civil-next_day_example = days_from_civil-next_day leap_day leap_day-IsDate

rfc3339_timestamp-SameInstant_example :
    ((timestamp_micros with_offset ≡ none) × (rfc3339_timestamp with_offset ≡ none))
    ⊎ ((a : ℤ) × (u : List ℕ) × (timestamp_micros with_offset ≡ some a)
        × (rfc3339_timestamp with_offset ≡ some u)
        × (timestamp_micros u ≡ some a)
        × (rfc3339_timestamp u ≡ some u))
rfc3339_timestamp-SameInstant_example = rfc3339_timestamp-SameInstant with_offset
