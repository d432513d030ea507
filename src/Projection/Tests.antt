-- ===== src/Projection/Tests.antt =====
-- apps/api/src/jobs/project.ts: passes over the events of one evening.
use homeparentcontrol.Prelude.{
  ℕ, ap, length, ◌≡◌, ◌≢◌, refl, String, Bool, true, List, [], ◌∷◌, none, some, map, arith,
}
use mathlib.Core.List.{Memᴰ}
use homeparentcontrol.Prelude.Int.{pos}
use homeparentcontrol.Prelude.Sort.{sort, insert_sorted}
use homeparentcontrol.Calendar.{Tzdb}
use homeparentcontrol.Projection.{
  SessionState, awake, locked, Payload, Event, ProjectedDevice, UsageHourly, Store, Bucket, scan,
  usable_of, pass_over, last_of, before_last_group, pass,
}
use homeparentcontrol.Projection.Buckets.{recompute_bucket}
use homeparentcontrol.Projection.Daily.{UsageDaily, day_row, hours_since, roll_up_daily}
use homeparentcontrol.Projection.Watermark.{pass_skips_none, IsProjected}
use homeparentcontrol.Projection.Sums.{roll_up_daily_lem, active_at, active_in, over}
use homeparentcontrol.Projection.Idempotence.{recompute_bucket_again}

abbrev worded : String → Payload → String
worded kind p = kind

abbrev as_stored : String → String → Bool
as_stored a b = true

abbrev session_of : SessionState → Payload
session_of s = record {
  usage = none;
  session = some (record { state = s; console_user = none });
  policy_version = none;
}

abbrev event_at : ℕ → ℕ → ℕ → String → Payload → Event
event_at id ts received type p = record {
  device_id = 1;
  event_id = id;
  type = type;
  ts = ts;
  received_at = received;
  boot_id = "b";
  seq = pos id;
  payload = p;
}

abbrev evening : List Event
evening =
    event_at 1 7200000 7200000000 "session.state" (session_of locked)
    ∷ event_at 2 7260000 7260000000 "session.state" (session_of awake)
    ∷ event_at 3 7300000 7300000000 "policy.applied"
        (record { usage = none; session = none; policy_version = some 4 })
    ∷ []

abbrev mac : ProjectedDevice
mac = record { id = 1; household_id = 1; child_id = 1; timezone = none; household_timezone = none }

abbrev evening_store : Store
evening_store = record {
  events = evening;
  devices = mac ∷ [];
  usage_hourly = [];
  enforcement_log = [];
  session_spans = [];
  watermark = none;
}

abbrev evening_hour : Bucket
evening_hour = record { device_id = 1; hour = 7200000 }

recompute_bucket_again_example :
    (recompute_bucket worded as_stored evening_hour
      (recompute_bucket worded as_stored evening_hour evening_store).0).0
    ≡ (recompute_bucket worded as_stored evening_hour evening_store).0
recompute_bucket_again_example =
    recompute_bucket_again worded as_stored evening_hour evening_store
      (((λ e. ground arith), ((λ e. ground arith), tt)), (((λ e. ground arith), tt), (tt, tt)))

one_ne_zero : ◌≢◌ {A = ℕ} 1 0
one_ne_zero h = omega (arith, h)

-- Two rows fill the batch: the second, its last group, waits for the next pass.
pass_skips_none_example :
    IsProjected
      (recompute_bucket worded as_stored)
      (event_at 1 7200000 7200000000 "session.state" (session_of locked))
      evening_store
      (pass (recompute_bucket worded as_stored) 2 none true evening_store).0
unfolding pass pass_over scan usable_of before_last_group last_of recompute_bucket sort
    insert_sorted
pass_skips_none_example =
    pass_skips_none (recompute_bucket worded as_stored) 2 evening_store 7200000000
      (event_at 1 7200000 7200000000 "session.state" (session_of locked)) (Memᴰ.head refl)
      (ground arith) (ground arith) (λ e n. one_ne_zero (ap length n)) refl

abbrev utc : Tzdb
utc zone at = pos 0

abbrev seconds_of : ℕ → ℕ → UsageHourly
seconds_of start active = record {
  device_id = 1;
  child_id = 1;
  household_id = 1;
  bucket_start = start;
  bundle_id = "a.app";
  foreground_s = active;
  active_s = active;
  cpu_pct_avg = 0;
  sample_count = 1;
}

abbrev hours_of_day : List UsageHourly
hours_of_day = seconds_of 0 1800 ∷ seconds_of 3600000 900 ∷ seconds_of 7200000 600 ∷ []

abbrev day_before : UsageDaily
day_before = day_row utc (mac ∷ []) (seconds_of 0 2700)

-- Three days on, the first two hours are out of the window, and the day has what is left.
roll_up_daily_lem_example :
    active_at day_before (roll_up_daily utc (mac ∷ []) 262800000 3 hours_of_day (day_before ∷ [])).0
    ≡ over
        (active_in day_before
          (map (day_row utc (mac ∷ [])) (hours_since utc (mac ∷ []) 3600000 hours_of_day)))
        (active_at day_before (day_before ∷ []))
roll_up_daily_lem_example =
    roll_up_daily_lem utc (mac ∷ []) day_before 262800000 3 hours_of_day (day_before ∷ [])
