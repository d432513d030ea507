-- ===== src/Policy/Tests.antt =====
-- apps/api/src/policy/compile.ts: runs on a household of two windows, with a day treated as a weekend.
use homeparentcontrol.Prelude.{
  ◌≡◌, ◌<◌, refl, arith, List, [], ◌∷◌, ◌++◌, none, some, true, false, Bool, All, leb, length,
}
use mathlib.Core.List.{Perm}
use homeparentcontrol.Prelude.Int.{pos}
use homeparentcontrol.Prelude.Sort.{IsOrder}
use homeparentcontrol.Calendar.{
  LocalDate, Tzdb, date_leb, date_eq, add_days, date_of, find_year, day_number, year_span,
  month_span, month_lengths, days_in_year, find_month,
}
use homeparentcontrol.Policy.{
  Text, hh_mm, WindowInput, PolicySetInput, ExceptionInput, dismiss_holiday, CompilerInput,
  to_minutes, clock_of,
}
use homeparentcontrol.Policy.Synthesise.{synthesise, in_horizon, weekend_window, latest_start}
use homeparentcontrol.Policy.Document.{compile_policy}
use homeparentcontrol.Policy.Relaxations.{IsWindow, IsRelaxation, synthesise-IsRelaxation}
use homeparentcontrol.Policy.Precedence.{synthesise_dismissed}
use homeparentcontrol.Policy.Order.{
  live_grants, live_relaxations, IsInOrder, compile_policy-overrides,
}

abbrev pub utc : Tzdb
utc z t = pos 0

-- A stand-in for the digest: the first of its parts.
abbrev pub first_part : List Text → Text
first_part [] = []
first_part (p ∷ ps) = p

-- By length.
abbrev pub no_longer : Text → Text → Bool
no_longer a b = leb (length a) (length b)

abbrev school_night : WindowInput
school_night = record {
  id = "w1";
  label = "School night";
  days = "mon" ∷ "tue" ∷ "wed" ∷ "thu" ∷ [];
  restricted_from = hh_mm 21 30;
  restricted_until = hh_mm 6 30;
  watch_until = none;
  crosses_midnight = true;
  action = "lock";
  shutdown_grace_s = 300;
  escalate_after_failures = 3;
  sort_order = 0;
  warnings = [];
}

abbrev weekend_night : WindowInput
weekend_night = record school_night {
  id = "w2";
  days = "fri" ∷ "sat" ∷ [];
  restricted_from = hh_mm 23 0;
  sort_order = 1;
}

abbrev pub basic_set : PolicySetInput
basic_set = record {
  id = "s1";
  agent_log_level = "info";
  diagnostics_retention_days = 30;
  poll_base_interval_s = 60;
  poll_boundary_interval_s = 15;
  poll_boundary_lead_s = 900;
  override_enabled = true;
  override_allowed_minutes = 15 ∷ 30 ∷ [];
  override_max_minutes_per_day = 60;
  override_max_grants_per_day = 2;
  telemetry_enabled = true;
  telemetry_sample_interval_s = 60;
  telemetry_flush_interval_s = 300;
  telemetry_collect = [];
  telemetry_max_queue_events = 1000;
  telemetry_max_queue_bytes = 1000000;
  telemetry_max_queue_age_days = 30;
  telemetry_audit_retention_days = 365;
  staleness_warn_after_s = 86400;
}

abbrev holiday : LocalDate
holiday = record { year = 1970; month = 1; day = 8 }

abbrev dismissal : ExceptionInput
dismissal = record {
  id = "x1";
  day = holiday;
  effect = dismiss_holiday;
  extend_minutes = none;
  window_id = none;
  note = none;
}

abbrev pub household : CompilerInput
household = record {
  now = 600000000;
  device_id = "d1";
  child_id = "c1";
  display_name = "Ivy";
  child_timezone = none;
  household_timezone = "UTC";
  policy_set = basic_set;
  windows = school_night ∷ weekend_night ∷ [];
  expected_online = [];
  exceptions = dismissal ∷ [];
  grants = [];
  holidays = record { date = holiday; name = "Epiphany" } ∷ [];
  next_version = 1;
}

windows-IsWindow : All IsWindow household.windows
unfolding to_minutes clock_of
windows-IsWindow = (
  record { from = omega arith; until_ = omega arith; wraps = refl },
  (record { from = omega arith; until_ = omega arith; wraps = refl }, tt),
)

no_longer-IsOrder : IsOrder no_longer
no_longer-IsOrder = record { total = λ a b. ground arith; trans = λ a b c p q. ground arith }

weekend_is_late : weekend_window household.windows ≡ some weekend_night
unfolding weekend_window latest_start
weekend_is_late = refl

synthesise-IsRelaxation_example :
    All
      (λ o. (in_horizon holiday o.effective_date ≡ true) × IsRelaxation o.effective_date o)
      (synthesise utc first_part "UTC" household holiday)
synthesise-IsRelaxation_example =
    synthesise-IsRelaxation utc first_part "UTC" household holiday windows-IsWindow

synthesise_dismissed_example :
    All
      (λ o. date_eq holiday o.effective_date ≡ false)
      (synthesise utc first_part "UTC" household holiday)
unfolding in_horizon date_leb add_days date_of find_year day_number year_span month_span
    month_lengths days_in_year find_month date_eq
synthesise_dismissed_example =
    synthesise_dismissed utc first_part "UTC" household holiday holiday refl refl

compile_policy-overrides_example :
    Perm (compile_policy utc first_part no_longer household).overrides (
      live_grants utc first_part no_longer household
      ++ live_relaxations utc first_part no_longer household)
    × IsInOrder no_longer (compile_policy utc first_part no_longer household).overrides
    × All
        (λ d. household.now < d.expires_at)
        (compile_policy utc first_part no_longer household).overrides
compile_policy-overrides_example =
    compile_policy-overrides utc first_part no_longer household no_longer-IsOrder
