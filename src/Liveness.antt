-- ===== src/Liveness.antt =====
-- apps/api/src/jobs/liveness.ts: the health of every device, once a minute.
-- The database is explicit: a query is a search of a table's rows, and an update maps over them.
-- Instants are in milliseconds; a difference that would be negative is 0, which the code's tests
-- treat alike. `ORDER BY … DESC LIMIT 1` takes the first of the rows with the greatest key.
pub mod Verdicts
pub mod Intervals
pub mod Notices
pub mod History
pub mod Sweep
mod Tests
use homeparentcontrol.Prelude.{
  ℕ, zero, suc, ◌+◌, ◌-◌, ◌*◌, ◌≤◌, ◌<◌, String, Bool, true, false, ◌&&◌, ◌||◌, not, List, [], ◌∷◌,
  Option, none, some, map, ltb, leb, ◌==◌, str_eq, if◌then◌else◌, get_or, is_some, any, filter,
}
use homeparentcontrol.Prelude.Query.{latest_by}
use homeparentcontrol.Calendar.{HhMm, Tzdb, weekday_of, date_in_zone, time_in_zone}

pub data HealthState : Type 0 where
  unenrolled healthy degraded expected_offline unexpected_silence silent_too_long : HealthState

pub data Status : Type 0 where
  pending enrolled active revoked decommissioned : Status

pub record Device : Type 0 where
  pub id : ℕ
  pub status : Status
  pub last_sync_at : Option ℕ
  pub system_boot_time : Option ℕ
  pub self_reported_reason : Option String
  pub away_until : Option ℕ
  pub policy_set_id : Option ℕ
  pub health_state : HealthState
  pub health_reason : Option String
  pub health_since : Option ℕ
  pub child_timezone : Option String
  pub household_timezone : String

-- A row of agent_status_intervals.
pub record Interval : Type 0 where
  pub id : ℕ
  pub device_id : ℕ
  pub state : HealthState
  pub reason : Option String
  pub entered_at : ℕ
  pub exited_at : Option ℕ
  pub notified_at : Option ℕ
  pub reclassified_from : Option HealthState

-- The columns of `events` that this job reads.
pub record Event : Type 0 where
  pub device_id : ℕ
  pub type : String
  pub ts : ℕ
  pub received_at : ℕ

pub record ExpectedOnlineWindow : Type 0 where
  pub policy_set_id : ℕ
  pub days : List String
  pub from_time : HhMm
  pub until_time : HhMm

pub record Db : Type 0 where
  pub devices : List Device
  pub intervals : List Interval
  pub events : List Event
  pub windows : List ExpectedOnlineWindow
  pub next_interval : ℕ

pub record Verdict : Type 0 where
  pub state : HealthState
  pub reason : Option String

abbrev pub healthy_within_ms : ℕ
healthy_within_ms = 180000

abbrev pub unexpected_silence_ms : ℕ
unexpected_silence_ms = 600000

abbrev pub silent_too_long_ms : ℕ
silent_too_long_ms = 129600000

abbrev pub silence_notify_after_ms : ℕ
silence_notify_after_ms = 3600000

abbrev pub degraded_evaluations_before_notify : ℕ
degraded_evaluations_before_notify = 3

abbrev pub is_away : Option ℕ → ℕ → Bool
is_away none now = false
is_away (some until_) now = ltb now until_

unfoldable pub stopped_cleanly : List Event → ℕ → ℕ → Bool
stopped_cleanly events device_id since =
    let cutoff = since - 5 * 60000 in
    let is_stop = λ (e : Event).
      (e.device_id == device_id) && str_eq e.type "agent.stopping" && leb cutoff e.received_at in
    elim (latest_by is_stop (λ e. e.ts) events) [
      | none ↦ false
      | some stop ↦ not (
          any (λ e. (e.device_id == device_id) && str_eq e.type "agent.started" && ltb stop.ts e.ts)
            events)
    ]

-- The order of the texts HH:MM.
abbrev pub time_ltb : HhMm → HhMm → Bool
time_ltb a b = ltb a.hour b.hour || ((a.hour == b.hour) && ltb a.minute b.minute)

unfoldable pub is_inside_expected_online :
    Tzdb → List ExpectedOnlineWindow → Option ℕ → ℕ → String → Bool
is_inside_expected_online tz all_windows none now zone = true
is_inside_expected_online tz all_windows (some set) now zone =
    elim (filter (λ w. w.policy_set_id == set) all_windows) [
      | [] ↦ true
      | w ∷ ws ↦
          let today = weekday_of (date_in_zone tz now zone) in
          let at = time_in_zone tz now zone in
          any
            (λ x.
              any (str_eq today) x.days
              && not (time_ltb at x.from_time)
              && time_ltb at x.until_time)
            (w ∷ ws)
    ]

-- A text that JavaScript takes for true.
abbrev pub is_truthy : Option String → Bool
is_truthy none = false
is_truthy (some s) = not (str_eq s "")

-- `decide` for a device that has ticked at `last`, and is not away.
unfoldable pub decide_silence : Device → ℕ → ℕ → Bool → Bool → Verdict
decide_silence device last now inside_window stopped =
    let silent_ms = now - last in
    if leb silent_ms healthy_within_ms
    then if is_truthy device.self_reported_reason
      then record { state = degraded; reason = device.self_reported_reason }
      else record { state = healthy; reason = none }
    else if leb silent_too_long_ms silent_ms
    then record { state = silent_too_long; reason = some "silent_36h" }
    else if stopped
    then record { state = expected_offline; reason = some "agent_stopping" }
    else if not inside_window
    then record { state = expected_offline; reason = some "outside_expected_online" }
    else if leb unexpected_silence_ms silent_ms
    then record { state = unexpected_silence; reason = some "silent_10m" }
    else record { state = device.health_state; reason = device.self_reported_reason }

unfoldable pub decide : List Event → Device → ℕ → Bool → Verdict
decide events device now inside_window = elim device.last_sync_at [
  | none ↦ record { state = unenrolled; reason = none }
  | some last ↦
      if is_away device.away_until now
      then record { state = expected_offline; reason = some "away" }
      else decide_silence device last now inside_window (stopped_cleanly events device.id last)
]

abbrev pub is_open : Interval → Bool
is_open i = not (is_some i.exited_at)

-- Close the open interval of the device.
abbrev pub close : ℕ → ℕ → Interval → Interval
close device_id now i =
    if (i.device_id == device_id) && is_open i then record i { exited_at = some now } else i

abbrev pub set_health : ℕ → Verdict → ℕ → Device → Device
set_health device_id v now d =
    if d.id == device_id
    then record d { health_state = v.state; health_reason = v.reason; health_since = some now }
    else d

-- `transition`: close the open interval, open a new one, and set the device's health.
unfoldable pub transition : Device → Verdict → ℕ → Db → Db
transition device v now db = record db {
  intervals =
      record {
        id = db.next_interval;
        device_id = device.id;
        state = v.state;
        reason = v.reason;
        entered_at = now;
        exited_at = none;
        notified_at = none;
        reclassified_from = none;
      }
      ∷ map (close device.id now) db.intervals;
  devices = map (set_health device.id v now) db.devices;
  next_interval = db.next_interval + 1;
}

abbrev pub is_open_of : ℕ → Interval → Bool
is_open_of device_id i = (i.device_id == device_id) && is_open i

unfoldable pub is_due : HealthState → Bool → ℕ → Bool
is_due degraded inside_window in_state_ms =
    leb (degraded_evaluations_before_notify * 60000) in_state_ms
is_due unexpected_silence inside_window in_state_ms =
    inside_window && leb silence_notify_after_ms in_state_ms
is_due silent_too_long inside_window in_state_ms = true
is_due _ inside_window in_state_ms = false

abbrev pub mark_notified : ℕ → ℕ → Interval → Interval
mark_notified id now i = if i.id == id then record i { notified_at = some now } else i

unfoldable pub maybe_notify : Device → Verdict → ℕ → Bool → Db → Db × Bool
maybe_notify device v now inside_window db =
    elim (latest_by (is_open_of device.id) (λ i. i.entered_at) db.intervals) [
      | none ↦ (db, false)
      | some i ↦
          if is_some i.notified_at || not (is_due v.state inside_window (now - i.entered_at))
          then (db, false)
          else (record db { intervals = map (mark_notified i.id now) db.intervals }, true)
    ]

abbrev pub is_silence : HealthState → Bool
is_silence unexpected_silence = true
is_silence silent_too_long = true
is_silence _ = false

-- The boot landed inside the silence: entered < boot ≤ exited.
abbrev pub boot_inside : ℕ → ℕ → Option ℕ → Bool
boot_inside boot entered none = false
boot_inside boot entered (some exited) = ltb entered boot && leb boot exited

abbrev pub is_explained : ℕ → ℕ → Interval → Bool
is_explained device_id boot i =
    (i.device_id == device_id)
    && not (is_some i.reclassified_from)
    && is_silence i.state
    && boot_inside boot i.entered_at i.exited_at

abbrev pub mark_off : ℕ → HealthState → Interval → Interval
mark_off id was i =
    if i.id == id
    then record i {
      state = expected_offline;
      reason = some "machine_was_off";
      reclassified_from = some was;
    }
    else i

unfoldable pub reclassify_if_machine_was_off : Device → Db → Db × Bool
reclassify_if_machine_was_off device db = elim device.system_boot_time [
  | none ↦ (db, false)
  | some boot ↦ elim (latest_by (is_explained device.id boot) (λ i. i.entered_at) db.intervals) [
    | none ↦ (db, false)
    | some i ↦ (record db { intervals = map (mark_off i.id i.state) db.intervals }, true)
  ]
]

pub HealthState-discrete : Discrete HealthState
HealthState-discrete = hlevel

abbrev pub state_eq : HealthState → HealthState → Bool
state_eq unenrolled unenrolled = true
state_eq healthy healthy = true
state_eq degraded degraded = true
state_eq expected_offline expected_offline = true
state_eq unexpected_silence unexpected_silence = true
state_eq silent_too_long silent_too_long = true
state_eq _ _ = false

pub record LivenessResult : Type 0 where
  pub evaluated : ℕ
  pub changed : ℕ
  pub reclassified : ℕ
  pub notified : ℕ

abbrev pub add_if : Bool → ℕ → ℕ
add_if b n = if b then n + 1 else n

abbrev pub is_decommissioned : Status → Bool
is_decommissioned decommissioned = true
is_decommissioned _ = false

module _ (tz : Tzdb) (now : ℕ) where
  unfoldable pub online_of : Device → Db → Bool
  online_of device db =
      is_inside_expected_online tz db.windows device.policy_set_id now
        (get_or device.child_timezone device.household_timezone)

  -- One round of the sweep: the verdict, and a transition if it is another state.
  unfoldable pub settle : Device → Db → Db × Bool
  settle device db =
      let v = decide db.events device now (online_of device db) in
      if state_eq v.state device.health_state
      then (db, false)
      else (transition device v now db, true)

  unfoldable pub evaluate_device : Device → Db × LivenessResult → Db × LivenessResult
  evaluate_device device (db, r) =
      let v = decide db.events device now (online_of device db) in
      let (settled, changed) = settle device db in
      let (told, notified) = maybe_notify device v now (online_of device db) settled in
      let (final, reclassified) = reclassify_if_machine_was_off device told in
      (
        final,
        record {
          evaluated = r.evaluated + 1;
          changed = add_if changed r.changed;
          reclassified = add_if reclassified r.reclassified;
          notified = add_if notified r.notified;
        },
      )

  unfoldable pub evaluate_devices : List Device → Db × LivenessResult → Db × LivenessResult
  evaluate_devices [] s = s
  evaluate_devices (d ∷ ds) s = evaluate_devices ds (evaluate_device d s)

  -- The rows are read once, before the loop.
  unfoldable pub evaluate_liveness : Db → Db × LivenessResult
  evaluate_liveness db =
      evaluate_devices (filter (λ d. not (is_decommissioned d.status)) db.devices)
        (db, record { evaluated = 0; changed = 0; reclassified = 0; notified = 0 })
