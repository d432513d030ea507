-- ===== src/Restriction/Tests.antt =====
-- apps/api/src/lib/restriction.ts: runs on a document of one bedtime.
use homeparentcontrol.Prelude.{ℕ, ◌≡◌, refl, [], ◌∷◌, none, some, true, ◌⊎◌}
use homeparentcontrol.Prelude.Int.{pos}
use homeparentcontrol.Calendar.{
  Tzdb, weekday_of, weekday_at, day_number, year_span, date_in_zone, date_of, find_year,
  days_in_year, month_span, month_lengths, add_days, date_eq, find_month, offset_at,
  zoned_to_instant,
}
use homeparentcontrol.Restriction.{
  DocumentWindow, DocumentOverride, RestrictionDocument, extend, restriction_at, visit_windows,
  visit_window, visit_between, hh_mm_of, visit_days, days_back, visit_day, applies, is_watched,
  night_of, relax, visit_night, watch_end,
}
use homeparentcontrol.Restriction.Result.{
  AnswersEnforced, AnswersWatch, AnswersNone, restriction_at_cases,
}
use homeparentcontrol.Restriction.Relax.{is_enforced, restriction_at_relaxed}

abbrev utc : Tzdb
utc z t = pos 0

-- 21:30 to 06:30 on a Thursday, watched until 08:00.
abbrev school_night : DocumentWindow
school_night = record {
  id = "w1";
  label = some "School night";
  days = some ("thu" ∷ []);
  restricted_from = some (b'2' ∷ b'1' ∷ b':' ∷ b'3' ∷ b'0' ∷ []);
  restricted_until = some (b'0' ∷ b'6' ∷ b':' ∷ b'3' ∷ b'0' ∷ []);
  watch_until = some (b'0' ∷ b'8' ∷ b':' ∷ b'0' ∷ b'0' ∷ []);
  action = none;
  shutdown_grace_s = none;
}

-- Half an hour later on the first night.
abbrev half_hour : DocumentOverride
half_hour = record {
  type = extend;
  window_id = none;
  minutes = some 30;
  effective_date = some (record { year = 1970; month = 1; day = 8 });
  expires_at = some (some 691200000);
}

abbrev one_window : RestrictionDocument
one_window = record { timezone = none; windows = some (school_night ∷ []); overrides = none }

-- 22:00 on Thursday, 8 January 1970.
abbrev ten_at_night : ℕ
ten_at_night = 684000000

restriction_at_cases_example :
    AnswersEnforced utc one_window ten_at_night
    ⊎ AnswersWatch utc one_window ten_at_night
    ⊎ AnswersNone utc one_window ten_at_night
restriction_at_cases_example = restriction_at_cases utc one_window ten_at_night

enforced_late :
    is_enforced
      (restriction_at utc (record one_window { overrides = some (half_hour ∷ []) }) ten_at_night)
    ≡ true
unfolding restriction_at visit_windows visit_window visit_between hh_mm_of visit_days days_back
    visit_day weekday_of weekday_at day_number year_span date_in_zone date_of find_year days_in_year
    month_span month_lengths add_days date_eq find_month offset_at zoned_to_instant applies
    is_watched night_of relax visit_night watch_end
enforced_late = refl

restriction_at_relaxed_example :
    is_enforced (restriction_at utc (record one_window { overrides = some [] }) ten_at_night) ≡ true
restriction_at_relaxed_example =
    restriction_at_relaxed utc ten_at_night one_window [] [] half_hour enforced_late
