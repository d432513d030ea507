-- ===== src/Calendar.antt =====
-- apps/api/src/policy/zoned-time.ts: calendar dates, wall-clock times and UTC instants.
-- A calendar date is the text YYYY-MM-DD, held as its three numbers; an instant is a number of
-- milliseconds since 1970-01-01T00:00Z, and no date before 1970 is meant. `Date.UTC` and the UTC
-- getters of JavaScript are those of ECMAScript: days are counted from 1970-01-01.
-- The zone data inside `Intl` is a parameter: `Tzdb` gives the offset of a zone from UTC at an instant.
pub mod RoundTrip
pub mod Order
pub mod Week
pub mod Zone
mod Tests
use homeparentcontrol.Prelude.{
  ℕ, zero, suc, ◌+◌, ◌-◌, ◌*◌, ◌/◌, ◌%◌, String, Bool, true, false, ◌&&◌, ◌||◌, not, List, [], ◌∷◌,
  ltb, leb, ◌==◌, if◌then◌else◌,
}
use homeparentcontrol.Prelude.Int.{ℤ, pos, negsuc, shift, shift_back, sub_ℕ}

pub record LocalDate : Type 0 where
  pub year : ℕ
  pub month : ℕ
  pub day : ℕ

-- A wall-clock time HH:MM.
pub record HhMm : Type 0 where
  pub hour : ℕ
  pub minute : ℕ

-- The offset from UTC, in milliseconds, of a named zone at an instant.
abbrev pub Tzdb : Type 0
Tzdb = String → ℕ → ℤ

abbrev pub day_ms : ℕ
day_ms = 86400000

abbrev pub is_leap : ℕ → Bool
is_leap y = (y % 4 == 0) && (not (y % 100 == 0) || (y % 400 == 0))

unfoldable pub days_in_year : ℕ → ℕ
days_in_year y = if is_leap y then 366 else 365

unfoldable pub month_lengths : ℕ → List ℕ
month_lengths y =
    31 ∷ (if is_leap y then 29 else 28) ∷ 31 ∷ 30 ∷ 31 ∷ 30 ∷ 31 ∷ 31 ∷ 30 ∷ 31 ∷ 30 ∷ 31 ∷ []

-- The days of `n` years from the year `y` on.
unfoldable pub year_span : ℕ → ℕ → ℕ
year_span y zero = 0
year_span y (suc n) = days_in_year y + year_span (y + 1) n

-- The days of the first `n` months.
unfoldable pub month_span : List ℕ → ℕ → ℕ
month_span [] n = 0
month_span (l ∷ ls) zero = 0
month_span (l ∷ ls) (suc n) = l + month_span ls n

-- `Date.UTC(y, m - 1, d)`, in days.
unfoldable pub day_number : LocalDate → ℕ
day_number d =
    year_span 1970 (d.year - 1970) + month_span (month_lengths d.year) (d.month - 1) + (d.day - 1)

-- The year of a day, and the day within that year. `fuel` above the number of days is enough.
unfoldable pub find_year : ℕ → ℕ → ℕ → ℕ × ℕ
find_year zero y rem = (y, rem)
find_year (suc fuel) y rem = elim (ltb rem (days_in_year y)) [
  | true ↦ (y, rem)
  | false ↦ find_year fuel (y + 1) (rem - days_in_year y)
]

-- The month of a day within its year, counted from 1, and the day within that month, from 0.
unfoldable pub find_month : List ℕ → ℕ → ℕ → ℕ × ℕ
find_month [] m rem = (m, rem)
find_month (l ∷ ls) m rem = elim (ltb rem l) [
  | true ↦ (m, rem)
  | false ↦ find_month ls (m + 1) (rem - l)
]

-- `toISOString().slice(0, 10)` of the midnight that begins a day.
unfoldable pub date_of : ℕ → LocalDate
date_of n =
    let (y, in_year) = find_year (suc n) 1970 n in
    let (m, in_month) = find_month (month_lengths y) 1 in_year in
    record { year = y; month = m; day = in_month + 1 }

unfoldable pub add_days : LocalDate → ℤ → LocalDate
add_days d n = date_of (shift (day_number d) n)

abbrev pub weekdays : List String
weekdays = "mon" ∷ "tue" ∷ "wed" ∷ "thu" ∷ "fri" ∷ "sat" ∷ "sun" ∷ []

unfoldable pub weekday_at : List String → ℕ → String
weekday_at [] i = ""
weekday_at (w ∷ ws) zero = w
weekday_at (w ∷ ws) (suc i) = weekday_at ws i

-- `getUTCDay` is (day number + 4) % 7, with Sunday 0.
unfoldable pub weekday_of : LocalDate → String
weekday_of d = let dow = (day_number d + 4) % 7 in weekday_at weekdays ((dow + 6) % 7)

-- The order of the texts YYYY-MM-DD.
unfoldable pub date_leb : LocalDate → LocalDate → Bool
date_leb a b =
    ltb a.year b.year
    || (a.year == b.year) && (ltb a.month b.month || (a.month == b.month) && leb a.day b.day)

-- `a === b` on two dates.
unfoldable pub date_eq : LocalDate → LocalDate → Bool
date_eq a b = (a.year == b.year) && (a.month == b.month) && (a.day == b.day)

module _ (tz : Tzdb) where
  -- The local fields that `Intl` prints for an instant, read back as if they were UTC, less the
  -- instant: the printed fields drop the milliseconds.
  unfoldable pub offset_at : ℕ → String → ℤ
  offset_at utc_ms zone =
      let local = shift utc_ms (tz zone utc_ms) in sub_ℕ (local / 1000 * 1000) utc_ms

  unfoldable pub zoned_to_instant : LocalDate → HhMm → String → ℕ
  zoned_to_instant d t zone =
      let naive = day_number d * day_ms + t.hour * 3600000 + t.minute * 60000 in
      let first_pass = shift_back naive (offset_at naive zone) in
      shift_back naive (offset_at first_pass zone)

  unfoldable pub date_in_zone : ℕ → String → LocalDate
  date_in_zone instant zone = date_of (shift instant (tz zone instant) / day_ms)

  unfoldable pub time_in_zone : ℕ → String → HhMm
  time_in_zone instant zone =
      let in_day = shift instant (tz zone instant) % day_ms in
      record { hour = in_day / 3600000; minute = in_day % 3600000 / 60000 }
