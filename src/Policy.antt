-- ===== src/Policy.antt =====
-- apps/api/src/policy/types.ts: what the policy compiler may see, and its time texts.
-- A column of Postgres type `time` arrives as HH:MM:SS, a fixture as HH:MM: `TimeText` has both
-- forms. Ids of overrides are texts of code points; those of rows are strings.
pub mod Synthesise
pub mod Canonical
pub mod Document
pub mod Relaxations
pub mod Precedence
pub mod Order
pub mod Publish
mod Tests
use Prim.Native.Char.{code}
use homeparentcontrol.Prelude.{
  ℕ, ◌+◌, ◌-◌, ◌*◌, ◌/◌, ◌%◌, String, Bool, true, false, ◌||◌, List, [], ◌∷◌, ◌++◌, Option, none,
  some, any, str_eq, filter,
}
use homeparentcontrol.Prelude.Int.{ℤ}
use homeparentcontrol.Calendar.{LocalDate, HhMm, weekdays}

abbrev pub Text : Type 0
Text = List ℕ

-- The code points of a string.
abbrev pub codes : String → Text
codes String.[] = []
codes (String.◌∷◌ c s) = code c ∷ codes s

pub data TimeText : Type 0 where
  hh_mm : ℕ → ℕ → TimeText
  hh_mm_ss : ℕ → ℕ → ℕ → TimeText

-- `time.slice(0, 5)`.
unfoldable pub to_hh_mm : TimeText → TimeText
to_hh_mm (hh_mm h m) = hh_mm h m
to_hh_mm (hh_mm_ss h m s) = hh_mm h m

-- The hour and the minute of `time.split(":").map(Number)`.
unfoldable pub clock_of : TimeText → HhMm
clock_of (hh_mm h m) = record { hour = h; minute = m }
clock_of (hh_mm_ss h m s) = record { hour = h; minute = m }

unfoldable pub to_minutes : TimeText → ℕ
to_minutes t = (clock_of t).hour * 60 + (clock_of t).minute

-- Two decimal digits.
abbrev pub two_digits : ℕ → Text
two_digits n = (b'0' + n / 10) ∷ (b'0' + n % 10) ∷ []

unfoldable pub text_of : TimeText → Text
text_of (hh_mm h m) = two_digits h ++ (b':' ∷ two_digits m)
text_of (hh_mm_ss h m s) = two_digits h ++ (b':' ∷ (two_digits m ++ (b':' ∷ two_digits s)))

unfoldable pub date_text : LocalDate → Text
date_text d =
    two_digits (d.year / 100)
    ++ (two_digits (d.year % 100) ++ (b'-' ∷ (two_digits d.month ++ (b'-' ∷ two_digits d.day))))

pub record PolicySetInput : Type 0 where
  pub id : String
  pub agent_log_level : String
  pub diagnostics_retention_days : ℕ
  pub poll_base_interval_s : ℕ
  pub poll_boundary_interval_s : ℕ
  pub poll_boundary_lead_s : ℕ
  pub override_enabled : Bool
  pub override_allowed_minutes : List ℕ
  pub override_max_minutes_per_day : ℕ
  pub override_max_grants_per_day : ℕ
  pub telemetry_enabled : Bool
  pub telemetry_sample_interval_s : ℕ
  pub telemetry_flush_interval_s : ℕ
  pub telemetry_collect : List String
  pub telemetry_max_queue_events : ℕ
  pub telemetry_max_queue_bytes : ℕ
  pub telemetry_max_queue_age_days : ℕ
  pub telemetry_audit_retention_days : ℕ
  pub staleness_warn_after_s : ℕ

pub record WarningInput : Type 0 where
  pub lead_minutes : ℕ
  pub channel : String

pub record WindowInput : Type 0 where
  pub id : String
  pub label : String
  pub days : List String
  pub restricted_from : TimeText
  pub restricted_until : TimeText
  pub watch_until : Option TimeText
  pub crosses_midnight : Bool
  pub action : String
  pub shutdown_grace_s : ℕ
  pub escalate_after_failures : ℕ
  pub sort_order : ℕ
  pub warnings : List WarningInput

pub record ExpectedOnlineInput : Type 0 where
  pub days : List String
  pub from_time : TimeText
  pub until_time : TimeText

-- The values of the `effect` column, with the texts that the compiler does not know.
pub data Effect : Type 0 where
  no_bedtime custom treat_as_weekend dismiss_holiday : Effect
  unknown : String → Effect

pub record ExceptionInput : Type 0 where
  pub id : String
  pub day : LocalDate
  pub effect : Effect
  pub extend_minutes : Option ℤ
  pub window_id : Option String
  pub note : Option String

pub record GrantInput : Type 0 where
  pub id : Text
  pub type : String
  pub window_id : Option String
  pub minutes : Option ℤ
  pub effective_date : LocalDate
  pub expires_at : ℕ
  pub granted_by : Option String
  pub granted_via : String
  pub reason : Option String

pub record HolidayHit : Type 0 where
  pub date : LocalDate
  pub name : String

pub record CompilerInput : Type 0 where
  pub now : ℕ
  pub device_id : String
  pub child_id : String
  pub display_name : String
  pub child_timezone : Option String
  pub household_timezone : String
  pub policy_set : PolicySetInput
  pub windows : List WindowInput
  pub expected_online : List ExpectedOnlineInput
  pub exceptions : List ExceptionInput
  pub grants : List GrantInput
  pub holidays : List HolidayHit
  pub next_version : ℕ

-- An override on its way into the document.
pub record OverrideDraft : Type 0 where
  pub id : Text
  pub type : String
  pub window_id : Option String
  pub minutes : Option ℤ
  pub effective_date : LocalDate
  pub expires_at : ℕ
  pub granted_by : Option String
  pub granted_via : String
  pub reason : Option Text

-- The weekdays that are present, in the canonical order.
unfoldable pub canonical_days : List String → List String
canonical_days days = filter (λ d. any (str_eq d) days) weekdays
