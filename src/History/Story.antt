-- ===== src/History/Story.antt =====
-- apps/api/src/lib/history.ts: the variables of `presentDevice`, and what it reads in a row.
use homeparentcontrol.Prelude.{
  ℕ, ◌+◌, ◌-◌, String, Bool, true, false, ◌&&◌, ◌||◌, not, List, Option, none, some, leb, ltb, ◌==◌,
  str_eq, if◌then◌else◌,
}
use homeparentcontrol.Prelude.Int.{ℤ, abs}
use homeparentcontrol.Restriction.{Restriction, enforced, watch}
use homeparentcontrol.History.{
  Line, HistoryRow, RawHistoryRow, PolicyReason, RestrictionLookup, time_zone_changed, rules_enrol,
  rules_schedule_edit, rules_restore, rules_override, rules_calendar, rules_other, unlocked_during,
  used_after_waking_during, time_zone_changed_to, same_boot_ms, clock_right_s,
}

pub record Sequenced : Type 0 where
  pub row : HistoryRow
  pub seq : ℕ

-- A stop that nothing has explained yet.
pub record Stop : Type 0 where
  pub at : ℕ
  pub last_at : ℕ
  pub last_seq : ℕ
  pub bedtime : Bool

-- The variables of `presentDevice`.
pub record Story : Type 0 where
  pub out : List Sequenced
  pub seq : ℕ
  pub seen_any : Bool
  pub last_version : Option ℕ
  pub last_boot : Option ℕ
  pub stop : Option Stop
  pub last_clock_alarm : Option ℕ

abbrev pub set_seen : Story → Story
set_seen s = record s { seen_any = true }

abbrev pub drop_stop : Story → Story
drop_stop s = record s { stop = none }

abbrev pub is_shutdown : Option String → Bool
is_shutdown none = false
is_shutdown (some a) = str_eq a "shutdown"

abbrev pub is_stop_part : RawHistoryRow → Bool
is_stop_part r =
    str_eq r.kind "agent_stopping" || (str_eq r.kind "action_taken" && is_shutdown r.detail.action)

abbrev pub if_watch : Option Restriction → Option Restriction
if_watch none = none
if_watch (some r) = elim r.phase [ enforced ↦ none | watch ↦ some r ]

abbrev pub is_within : ℕ → Option ℕ → ℕ → Bool
is_within at none ms = false
is_within at (some t) ms = leb at (t + ms)

-- A clock this close to the real time is right. Not a number is not close.
abbrev pub is_right : Option ℤ → Bool
is_right none = false
is_right (some z) = leb (abs z) clock_right_s

abbrev pub zone_text : String → Line
zone_text z = if str_eq z "" then time_zone_changed else time_zone_changed_to z

abbrev pub unlock_text : Option String → String → Line
unlock_text none label = unlocked_during label
unlock_text (some from) label =
    if str_eq from "asleep" then used_after_waking_during label else unlocked_during label

abbrev pub text_of_reason : String → Line
text_of_reason r =
    if str_eq r "enrol"
    then rules_enrol
    else if str_eq r "schedule_edit"
    then rules_schedule_edit
    else if str_eq r "restore"
    then rules_restore
    else if str_eq r "override"
    then rules_override
    else if str_eq r "calendar"
    then rules_calendar
    else rules_other

abbrev pub rules_text : Option PolicyReason → Line
rules_text none = rules_other
rules_text (some why) = text_of_reason why.reason

-- The nightly top-up of the schedule.
abbrev pub is_top_up : Option PolicyReason → Bool
is_top_up none = false
is_top_up (some why) = str_eq why.reason "calendar" && not why.by_parent

abbrev pub is_known_boot : ℕ → Option ℕ → Bool
is_known_boot at none = false
is_known_boot at (some b) = ltb ((at - b) + (b - at)) same_boot_ms

abbrev pub same_version : Option ℕ → Option ℕ → Bool
same_version (some v) (some w) = v == w
same_version _ _ = false

-- The watch rule that a moment falls in.
abbrev pub watching : RestrictionLookup → ℕ → ℕ → Option Restriction
watching restriction device_id at = if_watch (restriction device_id at)
