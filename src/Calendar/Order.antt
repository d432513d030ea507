-- ===== src/Calendar/Order.antt =====
-- apps/api/src/policy/zoned-time.ts: the order of date texts is the order of days.
use homeparentcontrol.Prelude.{ℕ, zero, suc, ◌+◌, ◌-◌, ◌≤◌, ◌<◌, ◌≡◌, List, [], ◌∷◌, arith, leb, ap}
use homeparentcontrol.Calendar.{
  LocalDate, days_in_year, month_lengths, year_span, month_span, day_number, date_leb,
}
use homeparentcontrol.Calendar.RoundTrip.{IsDate, month_length, month_span-lt, sum-month_lengths}

year_span-lt : (n m y z : ℕ) → y + n ≡ z → n < m → year_span y n + days_in_year z ≤ year_span y m
unfolding year_span
year_span-lt n zero y z e h = absurd (omega arith)
year_span-lt zero (suc m) y z e h =
    let same : days_in_year y ≡ days_in_year z = ap days_in_year (omega arith) in omega arith
year_span-lt (suc n) (suc m) y z e h =
    omega (arith, year_span-lt n m (y + 1) z (omega arith) (omega arith))

month_span_next :
    (ls : List ℕ) (n m : ℕ) → n < m → month_span ls n + month_length ls n ≤ month_span ls m
unfolding month_span
month_span_next [] n m h = omega arith
month_span_next (l ∷ ls) n zero h = absurd (omega arith)
month_span_next (l ∷ ls) zero (suc m) h = omega arith
month_span_next (l ∷ ls) (suc n) (suc m) h = omega (arith, month_span_next ls n m (omega arith))

-- The day within its year of a date, from 0.
day_in_year : LocalDate → ℕ
day_in_year d = month_span (month_lengths d.year) (d.month - 1) + (d.day - 1)

day_in_year-lt : (d : LocalDate) → IsDate d → day_in_year d < days_in_year d.year
unfolding day_in_year
day_in_year-lt d h = omega (
  arith,
  sum-month_lengths d.year,
  month_span-lt (month_lengths d.year) (d.month - 1) (d.day - 1) (omega (arith, h.day_to)),
)

day_number_parts : (d : LocalDate) → day_number d ≡ year_span 1970 (d.year - 1970) + day_in_year d
unfolding day_number day_in_year
day_number_parts d = omega arith

year_earlier :
    (a b : LocalDate) → IsDate a → IsDate b → a.year < b.year → day_number a < day_number b
year_earlier a b ha hb h = omega (
  arith,
  day_number_parts a,
  day_number_parts b,
  day_in_year-lt a ha,
  year_span-lt (a.year - 1970) (b.year - 1970) 1970 a.year (omega arith) (omega arith),
)

month_earlier :
    (a b : LocalDate)
    → IsDate a
    → IsDate b
    → a.year ≡ b.year
    → a.month < b.month
    → day_number a < day_number b
unfolding day_number
month_earlier a b ha hb e h = rw (← e) (
    omega (
      arith,
      ha.day_to,
      month_span_next (month_lengths a.year) (a.month - 1) (b.month - 1) (omega (arith, ha, hb)),
    ))

day_no_later :
    (a b : LocalDate)
    → IsDate a
    → IsDate b
    → a.year ≡ b.year
    → a.month ≡ b.month
    → leb a.day b.day ≡ leb (day_number a) (day_number b)
unfolding day_number
day_no_later a b ha hb e f = rw (e, f) (ground arith)

-- Comparing two existing dates as texts compares their days: `date >= today && date <= end` in the
-- compiler is a test on days.
date_leb-day_number :
    (a b : LocalDate) → IsDate a → IsDate b → date_leb a b ≡ leb (day_number a) (day_number b)
unfolding date_leb
date_leb-day_number a b ha hb = ground (
  arith,
  year_earlier a b ha hb,
  year_earlier b a hb ha,
  month_earlier a b ha hb,
  month_earlier b a hb ha,
  day_no_later a b ha hb,
)
