-- ===== src/History.antt =====
-- apps/api/src/lib/history.ts: the rows of the log and what the parent reads of them.
-- An instant is in milliseconds. The detail of a row is given by what the code reads in it. A line
-- stands for its wording: its constructor is the text, with what the text mentions.
pub mod Story
pub mod Device
pub mod Timeline
pub mod Bedtime
pub mod Tones
pub mod Nights
pub mod Order
mod Tests
use homeparentcontrol.Prelude.{
  ℕ, ◌+◌, ◌/◌, String, Bool, List, [], ◌∷◌, Option, none, some, leb, str_eq, if◌then◌else◌, max,
}
use homeparentcontrol.Prelude.Int.{ℤ}
use homeparentcontrol.Calendar.{Tzdb}
use homeparentcontrol.Restriction.{Restriction, RestrictionDocument, restriction_at}

pub data HistoryTone : Type 0 where
  alarm plain : HistoryTone

-- HISTORY_TEXT, and the texts that mention something: minutes, a rule, a zone.
pub data Line : Type 0 where
  turned_on shut_down shut_down_at_bedtime started restarted stopped removed registered : Line
  clock_right clock_put_right network_time_off time_zone_changed : Line
  rules_enrol rules_schedule_edit rules_restore rules_override rules_calendar rules_other : Line
  turned_on_during unlocked_during used_after_waking_during : String → Line
  clock_set clock_was : Option ℤ → Line
  time_zone_changed_to : String → Line
  used_in_bedtime : String → Option String → Line
  asleep_for : ℕ → Line
  unreported_during : ℕ → String → Line
  as_logged : String → Line

pub record HistoryRow : Type 0 where
  pub at : ℕ
  pub kind : String
  pub summary : Line
  pub device_id : ℕ
  pub policy_version : Option ℕ
  pub tone : HistoryTone

-- What `field` reads in a detail. `boot_time` and `to_time` are `none` where they are not a time.
-- `offset_s` is `none` where it is missing, and `some none` where it is not a number.
pub record Fields : Type 0 where
  pub action : Option String
  pub boot_time : Option ℕ
  pub enrolled : Bool
  pub from : Option String
  pub offset_s : Option (Option ℤ)
  pub zone : Option String
  pub to_time : Option ℕ
  pub label : Option String
  pub asleep_s : Option ℕ
  pub window_id : Option String

pub record RawHistoryRow : Type 0 where
  pub device_id : ℕ
  pub kind : String
  pub summary : Line
  pub occurred_at : ℕ
  pub policy_version : Option ℕ
  pub detail : Fields

pub record DeviceContext : Type 0 where
  pub has_history_before : Bool
  pub version_before : Option ℕ
  pub removed : Bool
  pub last_boot_ms : Option ℕ

pub record PolicyReason : Type 0 where
  pub reason : String
  pub by_parent : Bool

abbrev pub RestrictionLookup : Type 0
RestrictionLookup = ℕ → ℕ → Option Restriction

abbrev pub stop_episode_ms : ℕ
stop_episode_ms = 120000

abbrev pub boot_launch_ms : ℕ
boot_launch_ms = 900000

abbrev pub same_boot_ms : ℕ
same_boot_ms = 120000

abbrev pub gap_probe_ms : ℕ
gap_probe_ms = 300000

abbrev pub clock_right_s : ℕ
clock_right_s = 60

abbrev pub clock_incident_ms : ℕ
clock_incident_ms = 900000

abbrev pub bedtime_use_slack_ms : ℕ
bedtime_use_slack_ms = 120000

abbrev pub bedtime_probe_ms : ℕ
bedtime_probe_ms = 60000

abbrev pub bedtime_probe_cap_ms : ℕ
bedtime_probe_cap_ms = 86400000

-- The minutes that `span` prints.
abbrev pub span_minutes : ℕ → ℕ
span_minutes seconds = max 1 ((seconds + 30) / 60)

-- A document given to a device, and from when.
pub record GivenDocument : Type 0 where
  pub from : ℕ
  pub document : RestrictionDocument

-- The last of the documents, oldest first, that is in force.
unfoldable pub in_force :
    ℕ → List GivenDocument → Option RestrictionDocument → Option RestrictionDocument
in_force at [] found = found
in_force at (d ∷ ds) found =
    let rest = in_force at ds (some d.document) in if leb d.from at then rest else found

abbrev pub restriction_by : Tzdb → Option RestrictionDocument → ℕ → Option Restriction
restriction_by tz none at = none
restriction_by tz (some d) at = restriction_at tz d at

abbrev pub lookup_in : Tzdb → (ℕ → List GivenDocument) → RestrictionLookup
lookup_in tz documents device_id at = restriction_by tz (in_force at (documents device_id) none) at
