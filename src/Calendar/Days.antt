-- ===== src/Calendar/Days.antt =====
-- `daysFromCivil` of typescript/src/subscription-state.ts counts days.
use stripe_entitlements_fast.Base.{
  ℕ, zero, suc, ◌+◌, ◌-◌, ◌*◌, ◌/◌, ◌≤◌, ◌≡◌, refl, ◌∙◌, sym, ap, pos, ◌+ℤ◌, sub_ℕ, int_laws, inl,
  inr, arith, ltb, if◌then◌else◌, Bool-cases,
}
use stripe_entitlements_fast.Calendar.{
  is_leap_year, days_in_month, days_of_years, civil_day, days_from_civil,
}

-- the days before the first of March of a year
march : ℕ → ℕ
march y = (y / 400) * 146097 + days_of_years (y - y / 400 * 400)

march-suc : (y : ℕ) → march (suc y) ≡ march y + (if is_leap_year (suc y) then 366 else 365)
unfolding march
march-suc y = ground arith

-- the lengths of the months from March on, as the formula has them
late_length :
    (y m : ℕ)
    → 3 ≤ m
    → m ≤ 11
    → (153 * (m - 3) + 2) / 5 + days_in_month y m ≡ (153 * (m - 2) + 2) / 5
unfolding days_in_month
late_length y m low high = ground arith

-- the first day of a month follows the last of the month before
first_of_late_month :
    (y m : ℕ) → 3 ≤ m → m ≤ 11 → civil_day y (suc m) 1 ≡ suc (civil_day y m (days_in_month y m))
unfolding civil_day
first_of_late_month y m low high = ground (arith, late_length y m low high)

first_of_march :
    (y : ℕ) → civil_day (suc y) 3 1 ≡ suc (civil_day (suc y) 2 (days_in_month (suc y) 2))
unfolding civil_day days_in_month march
first_of_march y = ground (arith, march-suc y)

first_of_february : (y : ℕ) → civil_day y 2 1 ≡ suc (civil_day y 1 (days_in_month y 1))
unfolding civil_day days_in_month
first_of_february y = omega arith

first_of_year : (y : ℕ) → civil_day (suc y) 1 1 ≡ suc (civil_day y 12 (days_in_month y 12))
unfolding civil_day days_in_month
first_of_year y = omega arith

pub record Date : Type 0 where
  pub year : ℕ
  pub month : ℕ
  pub day : ℕ

-- a date that `timestampMicros` takes, of any year from 1
pub record IsDate (d : Date) : Type 0 where
  pub from_year : 1 ≤ d.year
  pub from_month : 1 ≤ d.month
  pub to_month : d.month ≤ 12
  pub from_day : 1 ≤ d.day
  pub to_day : d.day ≤ days_in_month d.year d.month

-- the date of the next day
pub next_day : Date → Date
next_day d =
    if ltb d.day (days_in_month d.year d.month)
    then record d { day = suc d.day }
    else if ltb d.month 12
    then record d { month = suc d.month; day = 1 }
    else record { year = suc d.year; month = 1; day = 1 }

civil_day-suc : (y m d : ℕ) → 1 ≤ d → civil_day y m (suc d) ≡ suc (civil_day y m d)
unfolding civil_day
civil_day-suc y m d h = ground arith

first_of_month :
    (y m : ℕ)
    → 1 ≤ y
    → 1 ≤ m
    → m ≤ 11
    → civil_day y (suc m) 1 ≡ suc (civil_day y m (days_in_month y m))
first_of_month y zero h low high = absurd (omega (arith, low))
first_of_month y (suc zero) h low high = first_of_february y
first_of_month zero (suc (suc zero)) h low high = absurd (omega (arith, h))
first_of_month (suc y) (suc (suc zero)) h low high = first_of_march y
first_of_month y (suc (suc (suc m))) h low high =
    first_of_late_month y (suc (suc (suc m))) (omega arith) high

days_of : Date → ℕ
days_of d = civil_day d.year d.month d.day

days_of-next_day : (d : Date) → IsDate d → days_of (next_day d) ≡ suc (days_of d)
unfolding days_of next_day
days_of-next_day d h = elim (Bool-cases (ltb d.day (days_in_month d.year d.month))) [
  | inl within ↦ rw within (civil_day-suc d.year d.month d.day h.from_day)
  | inr last ↦
      let is_last : d.day ≡ days_in_month d.year d.month = ground (arith, last, h.to_day) in
      let same_day = ap (λ n. suc (civil_day d.year d.month n)) (sym is_last) in
      elim (Bool-cases (ltb d.month 12)) [
        | inl before ↦
            rw (last, before)
              (first_of_month d.year d.month h.from_year h.from_month (ground (arith, before))
                ∙ same_day)
        | inr december ↦
            let twelve : d.month ≡ 12 = ground (arith, december, h.to_month) in
            rw (last, december)
              (first_of_year d.year
                ∙ ap (λ m. suc (civil_day d.year m (days_in_month d.year m))) (sym twelve)
                ∙ same_day)
      ]
]

days_in_month-positive : (y m : ℕ) → 1 ≤ m → m ≤ 12 → 1 ≤ days_in_month y m
unfolding days_in_month
days_in_month-positive y m low high = ground arith

next_day-IsDate : (d : Date) → IsDate d → IsDate (next_day d)
unfolding next_day
next_day-IsDate d h = elim (Bool-cases (ltb d.day (days_in_month d.year d.month))) [
  | inl within ↦ rw within record {
    from_year = h.from_year;
    from_month = h.from_month;
    to_month = h.to_month;
    from_day = omega arith;
    to_day = ground (arith, within);
  }
  | inr last ↦ elim (Bool-cases (ltb d.month 12)) [
    | inl before ↦
        rw (last, before)
          record {
            from_year = h.from_year;
            from_month = omega arith;
            to_month = ground (arith, before);
            from_day = omega arith;
            to_day =
                days_in_month-positive d.year (suc d.month) (omega arith) (ground (arith, before));
          }
    | inr december ↦
        rw (last, december)
          record {
            from_year = omega arith;
            from_month = omega arith;
            to_month = omega arith;
            from_day = omega arith;
            to_day = days_in_month-positive (suc d.year) 1 (omega arith) (omega arith);
          }
  ]
]

sub_ℕ-suc : (a b : ℕ) → sub_ℕ (suc a) b ≡ sub_ℕ a b +ℤ pos 1
sub_ℕ-suc a b = grind int_laws

-- The epoch has the number 0, and the day after a day has the next number: `daysFromCivil` counts the
-- days of the calendar that `daysInMonth` describes, over all months and leap years. The date of the
-- next day is again a date.
pub days_from_civil-next_day :
    (d : Date)
    → IsDate d
    → (days_from_civil 1970 1 1 ≡ pos 0)
      × IsDate (next_day d)
      × (days_from_civil (next_day d).year (next_day d).month (next_day d).day
          ≡ days_from_civil d.year d.month d.day +ℤ pos 1)
unfolding days_from_civil days_of civil_day
days_from_civil-next_day d h = (
  refl,
  next_day-IsDate d h,
  ap (λ n. sub_ℕ n 719468) (days_of-next_day d h) ∙ sub_ℕ-suc (days_of d) 719468,
)
