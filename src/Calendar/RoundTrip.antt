-- ===== src/Calendar/RoundTrip.antt =====
-- apps/api/src/policy/zoned-time.ts: dates and day numbers, there and back, and in order.
use homeparentcontrol.Prelude.{
  ℕ, zero, suc, ◌+◌, ◌-◌, ◌≤◌, ◌<◌, ◌≡◌, refl, List, [], ◌∷◌, arith, ltb, ltb→lt, length, sum,
  Bool-cases, inl, inr,
}
use homeparentcontrol.Prelude.Int.{ℤ, shift}
use homeparentcontrol.Calendar.{
  LocalDate, days_in_year, month_lengths, year_span, month_span, day_number, find_year, find_month,
  date_of, add_days,
}

days_in_year_bounds : (y : ℕ) → (365 ≤ days_in_year y) × (days_in_year y ≤ 366)
unfolding days_in_year
days_in_year_bounds y = ground arith

-- The length of a month, 0 where there is no such month.
abbrev pub month_length : List ℕ → ℕ → ℕ
month_length [] n = 0
month_length (l ∷ ls) zero = l
month_length (l ∷ ls) (suc n) = month_length ls n

-- A date that exists, from 1970 on.
pub record IsDate (d : LocalDate) : Type 0 where
  pub year_from : 1970 ≤ d.year
  pub month_from : 1 ≤ d.month
  pub month_to : d.month ≤ 12
  pub day_from : 1 ≤ d.day
  pub day_to : d.day ≤ month_length (month_lengths d.year) (d.month - 1)

-- The year loop on the days of `n` whole years and `r` more.
find_year-span :
    (fuel n y z r total : ℕ)
    → y + n ≡ z
    → total ≡ year_span y n + r
    → total < fuel
    → r < days_in_year z
    → find_year fuel y total ≡ (z, r)
unfolding find_year year_span
find_year-span zero n y z r total e t h k = absurd (omega arith)
find_year-span (suc fuel) zero y z r total e t h k =
    let same : y ≡ z = omega arith in let k' : r < days_in_year y = rw same k in ground arith
find_year-span (suc fuel) (suc n) y z r total e t h k =
    let ih =
      find_year-span fuel n (y + 1) z r (total - days_in_year y) (omega arith) (omega arith)
        (omega (arith, days_in_year_bounds y)) k in
    ground (arith, days_in_year_bounds y, ih)

-- What the year loop has found, for a day `total` from the start of the year `y`.
record IsYearOf (y total z r : ℕ) : Type 0 where
  years : ℕ
  later : y + years ≡ z
  whole : total ≡ year_span y years + r
  within : r < days_in_year z

IsYearOf-more :
    {y total z r : ℕ}
    → IsYearOf (y + 1) (total - days_in_year y) z r
    → days_in_year y ≤ total
    → IsYearOf y total z r
unfolding year_span
IsYearOf-more {y} {total} {z} {r} h k = record {
  years = suc h.years;
  later = omega (arith, h.later);
  whole = omega (arith, h.whole);
  within = h.within;
}

find_year_lem :
    (fuel y total : ℕ)
    → total < fuel
    → IsYearOf y total (find_year fuel y total).0 (find_year fuel y total).1
unfolding find_year year_span
find_year_lem zero y total h = absurd (omega arith)
find_year_lem (suc fuel) y total h = elim (Bool-cases (ltb total (days_in_year y))) [
  | inl e ↦
      rw (e, find_year)
        (record { years = 0; later = omega arith; whole = omega arith; within = ltb→lt _ _ e })
  | inr e ↦
      let le : days_in_year y ≤ total = ground arith in
      rw (e, find_year)
        (IsYearOf-more
          (find_year_lem fuel (y + 1) (total - days_in_year y)
            (omega (arith, days_in_year_bounds y)))
          le)
]

find_month-span :
    (ls : List ℕ) (n m p r total : ℕ)
    → m + n ≡ p
    → total ≡ month_span ls n + r
    → r < month_length ls n
    → find_month ls m total ≡ (p, r)
unfolding find_month month_span
find_month-span [] n m p r total e t h = absurd (omega arith)
find_month-span (l ∷ ls) zero m p r total e t h = ground arith
find_month-span (l ∷ ls) (suc n) m p r total e t h =
    ground (arith, find_month-span ls n (m + 1) p r (total - l))

-- What the month loop has found.
record IsMonthOf (ls : List ℕ) (m total p r : ℕ) : Type 0 where
  months : ℕ
  later : m + months ≡ p
  fewer : months < length ls
  whole : total ≡ month_span ls months + r
  within : r < month_length ls months

find_month_lem :
    (ls : List ℕ) (m total : ℕ)
    → total < sum ls
    → IsMonthOf ls m total (find_month ls m total).0 (find_month ls m total).1
unfolding find_month month_span
find_month_lem [] m total h = absurd (omega arith)
find_month_lem (l ∷ ls) m total h = elim (Bool-cases (ltb total l)) [
  | inl e ↦
      rw (e, find_month)
        (record {
          months = 0;
          later = omega arith;
          fewer = omega arith;
          whole = omega arith;
          within = ltb→lt _ _ e;
        })
  | inr e ↦
      let le : l ≤ total = ground arith in
      let ih = find_month_lem ls (m + 1) (total - l) (omega arith) in
      rw (e, find_month)
        (record {
          months = suc ih.months;
          later = omega (arith, ih.later);
          fewer = omega (arith, ih.fewer);
          whole = omega (arith, ih.whole);
          within = ih.within;
        })
]

pub sum-month_lengths : (y : ℕ) → sum (month_lengths y) ≡ days_in_year y
unfolding month_lengths days_in_year
sum-month_lengths y = ground arith

pub month_span-lt : (ls : List ℕ) (n r : ℕ) → r < month_length ls n → month_span ls n + r < sum ls
unfolding month_span
month_span-lt [] n r h = absurd (omega arith)
month_span-lt (l ∷ ls) zero r h = omega arith
month_span-lt (l ∷ ls) (suc n) r h = omega (arith, month_span-lt ls n r h)

-- A date that exists is found again from its day number.
pub date_of-day_number : (d : LocalDate) → IsDate d → date_of (day_number d) ≡ d
unfolding date_of day_number
date_of-day_number d h =
    let ls = month_lengths d.year in
    let in_year = month_span ls (d.month - 1) + (d.day - 1) in
    let fits : in_year < days_in_year d.year =
      rw (← sum-month_lengths d.year)
        (month_span-lt ls (d.month - 1) (d.day - 1) (omega (arith, h.day_to, h.day_from))) in
    let year_found =
      find_year-span (suc (day_number d)) (d.year - 1970) 1970 d.year in_year (day_number d)
        (omega (arith, h.year_from)) (omega arith) (omega arith) fits in
    let month_found =
      find_month-span ls (d.month - 1) 1 d.month (d.day - 1) in_year (omega (arith, h.month_from))
        refl (omega (arith, h.day_to, h.day_from)) in
    rw (year_found, month_found) (ground arith)

-- Every day number is that of the date made from it, and that date exists.
date_of_IsYearOf :
    (n : ℕ) → IsYearOf 1970 n (find_year (suc n) 1970 n).0 (find_year (suc n) 1970 n).1
date_of_IsYearOf n = find_year_lem (suc n) 1970 n (omega arith)

date_of_IsMonthOf :
    (z r : ℕ)
    → r < days_in_year z
    → IsMonthOf
        (month_lengths z)
        1
        r
        (find_month (month_lengths z) 1 r).0
        (find_month (month_lengths z) 1 r).1
date_of_IsMonthOf z r h = find_month_lem (month_lengths z) 1 r (omega (arith, sum-month_lengths z))

day_number_of_parts :
    (n z r p q : ℕ)
    → IsYearOf 1970 n z r
    → IsMonthOf (month_lengths z) 1 r p q
    → day_number (record { year = z; month = p; day = q + 1 }) ≡ n
unfolding day_number
day_number_of_parts n z r p q yl ml =
    let years : z - 1970 ≡ yl.years = omega (arith, yl.later) in
    let months : p - 1 ≡ ml.months = omega (arith, ml.later) in
    rw (years, months) (omega (arith, yl.whole, ml.whole))

pub day_number-date_of : (n : ℕ) → day_number (date_of n) ≡ n
unfolding date_of
day_number-date_of n =
    let f = find_year (suc n) 1970 n in
    let yl = date_of_IsYearOf n in
    day_number_of_parts n f.0 f.1 _ _ yl (date_of_IsMonthOf f.0 f.1 yl.within)

pub length-month_lengths : (y : ℕ) → length (month_lengths y) ≡ 12
unfolding month_lengths
length-month_lengths y = refl

IsDate-of_parts :
    (n z r p q : ℕ)
    → IsYearOf 1970 n z r
    → IsMonthOf (month_lengths z) 1 r p q
    → IsDate (record { year = z; month = p; day = q + 1 })
IsDate-of_parts n z r p q yl ml =
    let months : p - 1 ≡ ml.months = omega (arith, ml.later) in
    record {
      year_from = omega (arith, yl.later);
      month_from = omega (arith, ml.later);
      month_to = omega (arith, ml.later, ml.fewer, length-month_lengths z);
      day_from = omega arith;
      day_to = rw months (omega (arith, ml.within));
    }

pub date_of-IsDate : (n : ℕ) → IsDate (date_of n)
unfolding date_of
date_of-IsDate n =
    let f = find_year (suc n) 1970 n in
    let yl = date_of_IsYearOf n in
    IsDate-of_parts n f.0 f.1 _ _ yl (date_of_IsMonthOf f.0 f.1 yl.within)

-- `addDays` lands on an existing date, as many days on as it was asked for, the sum not falling
-- before 1970: its day number is the shifted one, so steps add up and undo each other.
day_number-add_days :
    (d : LocalDate) (n : ℤ)
    → IsDate (add_days d n) × (day_number (add_days d n) ≡ shift (day_number d) n)
unfolding add_days
day_number-add_days d n =
    (date_of-IsDate (shift (day_number d) n), day_number-date_of (shift (day_number d) n))
