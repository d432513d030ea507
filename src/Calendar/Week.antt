-- ===== src/Calendar/Week.antt =====
-- apps/api/src/policy/zoned-time.ts: weekdays.
use homeparentcontrol.Prelude.{◌+◌, ◌-◌, ◌%◌, ◌≡◌, arith}
use homeparentcontrol.Prelude.Int.{pos}
use homeparentcontrol.Calendar.{LocalDate, day_number, add_days, weekday_of}
use homeparentcontrol.Calendar.RoundTrip.{day_number-date_of}

-- The weekday of a date is that of the date a week later.
weekday_of-add_days : (d : LocalDate) → weekday_of (add_days d (pos 7)) ≡ weekday_of d
unfolding weekday_of add_days
weekday_of-add_days d =
    let n = day_number d in
    let same : ((n + 7 - 0 + 4) % 7 + 6) % 7 ≡ ((n + 4) % 7 + 6) % 7 = omega arith in
    rw (day_number-date_of (n + 7 - 0), same)
