-- ===== src/Calendar/Tests.antt =====
-- apps/api/src/policy/zoned-time.ts: runs on concrete dates.
use homeparentcontrol.Prelude.{ℕ, ◌≡◌, refl, arith}
use homeparentcontrol.Prelude.Int.{pos}
use homeparentcontrol.Calendar.{
  find_year, find_month, year_span, month_lengths, days_in_year, month_span, LocalDate, HhMm, Tzdb,
  day_number, date_of, add_days, zoned_to_instant, date_in_zone, time_in_zone,
}
use homeparentcontrol.Calendar.RoundTrip.{IsDate}
use homeparentcontrol.Calendar.Zone.{IsOffset, date_in_zone-zoned_to_instant}

abbrev leap_day : LocalDate
leap_day = record { year = 2024; month = 2; day = 29 }

abbrev march_first : LocalDate
march_first = record { year = 2024; month = 3; day = 1 }

abbrev bedtime : HhMm
bedtime = record { hour = 21; minute = 30 }

-- An hour ahead of UTC all year.
abbrev one_ahead : Tzdb
one_ahead z t = pos 3600000

leap_day-IsDate : IsDate leap_day
unfolding month_lengths
leap_day-IsDate = record {
  year_from = omega arith;
  month_from = omega arith;
  month_to = omega arith;
  day_from = omega arith;
  day_to = omega arith;
}

march_first-IsDate : IsDate march_first
unfolding month_lengths
march_first-IsDate = record {
  year_from = omega arith;
  month_from = omega arith;
  month_to = omega arith;
  day_from = omega arith;
  day_to = omega arith;
}

one_ahead-IsOffset : (t : ℕ) → IsOffset (one_ahead "Europe/Oslo" t)
one_ahead-IsOffset t = record {
  ahead = omega arith;
  behind = omega arith;
  whole_ahead = refl;
  whole_behind = refl;
}

leap_day_next : add_days leap_day (pos 1) ≡ march_first
unfolding add_days day_number date_of find_year find_month year_span month_lengths days_in_year
    month_span
leap_day_next = refl

date_in_zone-zoned_to_instant_example :
    (date_in_zone one_ahead
        (zoned_to_instant one_ahead leap_day bedtime "Europe/Oslo")
        "Europe/Oslo"
      ≡ leap_day)
    × (time_in_zone one_ahead
          (zoned_to_instant one_ahead leap_day bedtime "Europe/Oslo")
          "Europe/Oslo"
        ≡ bedtime)
unfolding day_number
date_in_zone-zoned_to_instant_example =
    date_in_zone-zoned_to_instant one_ahead "Europe/Oslo" one_ahead-IsOffset leap_day bedtime
      leap_day-IsDate (record { hours = omega arith; minutes = omega arith }) (omega arith) refl
