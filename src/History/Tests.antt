-- ===== src/History/Tests.antt =====
-- apps/api/src/lib/history.ts: an evening on which the Mac is turned on during the watch hours.
use homeparentcontrol.Prelude.{
  ℕ, refl, String, false, List, [], ◌∷◌, Option, none, some, arith, All,
}
use mathlib.Core.List.{Memᴰ}
use homeparentcontrol.Restriction.{enforced, watch}
use homeparentcontrol.History.{
  as_logged, Fields, RawHistoryRow, DeviceContext, PolicyReason, RestrictionLookup,
}
use homeparentcontrol.History.Timeline.{present_history}
use homeparentcontrol.History.Bedtime.{UnlockedSpan, uses_from}
use homeparentcontrol.History.Tones.Pushes.{IsRedFor}
use homeparentcontrol.History.Tones.{present_history_red}
use homeparentcontrol.History.Nights.{IsReported, uses_from_lem}

-- Watched at all times.
abbrev always_watched : RestrictionLookup
always_watched device_id at = some (record {
  phase = watch;
  window_id = "w";
  label = "Weekdays";
  enforced_from = none;
  action = none;
  grace_s = none;
})

-- Locked from the start.
abbrev locked : RestrictionLookup
locked device_id at = some (record {
  phase = enforced;
  window_id = "w";
  label = "Weekdays";
  enforced_from = some 0;
  action = some "lock";
  grace_s = none;
})

abbrev no_fields : Fields
no_fields = record {
  action = none;
  boot_time = none;
  enrolled = false;
  from = none;
  offset_s = none;
  zone = none;
  to_time = none;
  label = none;
  asleep_s = none;
  window_id = none;
}

abbrev row_at : ℕ → String → RawHistoryRow
row_at at kind = record {
  device_id = 1;
  kind = kind;
  summary = as_logged kind;
  occurred_at = at;
  policy_version = none;
  detail = no_fields;
}

abbrev night : List RawHistoryRow
night =
    row_at 1000 "agent_stopping" ∷ row_at 600000 "power_on" ∷ row_at 700000 "session_unlocked" ∷ []

abbrev empty_context : ℕ → DeviceContext
empty_context d = record {
  has_history_before = false;
  version_before = none;
  removed = false;
  last_boot_ms = none;
}

abbrev no_reasons : ℕ → ℕ → Option PolicyReason
no_reasons d v = none

present_history_red_example :
    All
      (IsRedFor always_watched night)
      (present_history empty_context no_reasons always_watched night)
present_history_red_example = present_history_red empty_context no_reasons always_watched night

abbrev evening : List UnlockedSpan
evening =
    record { device_id = 1; started_at = 0; ended_at = some 300000 }
    ∷ record { device_id = 1; started_at = 400000; ended_at = none }
    ∷ []

abbrev first_stretch : UnlockedSpan
first_stretch = record { device_id = 1; started_at = 0; ended_at = some 300000 }

uses_from_lem_example : IsReported locked first_stretch 180000 (uses_from locked 900000 [] evening)
uses_from_lem_example =
    uses_from_lem locked 900000 3 first_stretch evening (Memᴰ.head refl) (omega arith) refl
