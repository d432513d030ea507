-- ===== src/Projection/Daily.antt =====
-- apps/api/src/jobs/project.ts: the roll-up of the hours of a local day, and the nightly pass.
use homeparentcontrol.Prelude.{
  ℕ, ◌+◌, ◌-◌, ◌*◌, String, Bool, false, ◌&&◌, List, [], ◌∷◌, none, some, leb, ◌==◌, str_eq, filter,
  find, length, get_or, or_else, any,
}
use homeparentcontrol.Prelude.Upsert.{upsert_by}
use homeparentcontrol.Calendar.{LocalDate, Tzdb, date_eq, date_in_zone}
use homeparentcontrol.Projection.{Payload, UsageHourly, ProjectedDevice, Store, ProjectionResult}
use homeparentcontrol.Projection.Buckets.{project_events}

pub record UsageDaily : Type 0 where
  pub device_id : ℕ
  pub child_id : ℕ
  pub household_id : ℕ
  pub local_day : LocalDate
  pub bundle_id : String
  pub foreground_s : ℕ
  pub active_s : ℕ

-- The zone of a device: the child's wins over the household's.
abbrev pub zone_of : List ProjectedDevice → ℕ → String
zone_of devices id = elim (find (λ d. d.id == id) devices) [
  | none ↦ "UTC"
  | some d ↦ get_or (or_else d.timezone d.household_timezone) "UTC"
]

abbrev pub has_device : List ProjectedDevice → ℕ → Bool
has_device devices id = any (λ d. d.id == id) devices

abbrev pub is_day_of : UsageDaily → UsageDaily → Bool
is_day_of a b =
    (a.device_id == b.device_id)
    && (date_eq a.local_day b.local_day && str_eq a.bundle_id b.bundle_id)

abbrev pub set_day : UsageDaily → UsageDaily → UsageDaily
set_day row r = record r { foreground_s = row.foreground_s; active_s = row.active_s }

unfoldable pub write_days : List UsageDaily → List UsageDaily → List UsageDaily
write_days [] table = table
write_days (row ∷ rows) table =
    write_days rows (upsert_by (λ r. is_day_of r row) (set_day row) row table)

module _ (tz : Tzdb) (devices : List ProjectedDevice) where
  -- One hour, as the row of its local day.
  abbrev pub day_row : UsageHourly → UsageDaily
  day_row h = record {
    device_id = h.device_id;
    child_id = h.child_id;
    household_id = h.household_id;
    local_day = date_in_zone tz h.bucket_start (zone_of devices h.device_id);
    bundle_id = h.bundle_id;
    foreground_s = h.foreground_s;
    active_s = h.active_s;
  }

  abbrev pub add_hour : UsageDaily → UsageDaily → UsageDaily
  add_hour row acc = record acc {
    foreground_s = acc.foreground_s + row.foreground_s;
    active_s = acc.active_s + row.active_s;
  }

  unfoldable pub daily_from : List UsageDaily → List UsageHourly → List UsageDaily
  daily_from acc [] = acc
  daily_from acc (h ∷ hs) =
      let row = day_row h in daily_from (upsert_by (λ r. is_day_of r row) (add_hour row) row acc) hs

  -- The hours that the roll-up reads.
  abbrev pub hours_since : ℕ → List UsageHourly → List UsageHourly
  hours_since since hours =
      filter (λ h. leb since h.bucket_start && has_device devices h.device_id) hours

  unfoldable pub daily_of : ℕ → List UsageHourly → List UsageDaily
  daily_of since hours = daily_from [] (hours_since since hours)

  unfoldable pub roll_up_daily : ℕ → ℕ → List UsageHourly → List UsageDaily → List UsageDaily × ℕ
  roll_up_daily now since_days hours table =
      let daily = daily_of (now - since_days * 86400000) hours in
      (write_days daily table, length daily)

-- The nightly pass: the last 48 hours again, with the watermark left alone, and the roll-up.
module _ (tz : Tzdb) (summarise : String → Payload → String)
    (collate : String → String → Bool) where
  unfoldable pub reproject_trailing_48h :
      ℕ → Store → List UsageDaily → (Store × List UsageDaily) × ProjectionResult
  reproject_trailing_48h now db daily =
      let (db', result) =
        project_events summarise collate (some ((now - 48 * 3600000) * 1000)) false db in
      ((db', (roll_up_daily tz db'.devices now 3 db'.usage_hourly daily).0), result)
