-- ===== src/Projection.antt =====
-- apps/api/src/jobs/project.ts: the tables of the projector, and which events a pass projects.
-- `ts` is in milliseconds and `received_at`, which the code carries as text, in microseconds. The
-- payload of an event is given by what the contract's schemas read in it. The measures of a sample,
-- floats in the code, are whole thousandths.
pub mod Buckets
pub mod Daily
pub mod Watermark
pub mod Sums
pub mod Idempotence
mod Tests
use homeparentcontrol.Prelude.{
  ℕ, ◌+◌, ◌-◌, ◌*◌, ◌/◌, ◌≤◌, String, Bool, true, false, ◌&&◌, not, List, [], ◌∷◌, ◌++◌, Option,
  none, some, map, leb, ltb, ◌==◌, if◌then◌else◌, any, filter, length, take,
}
use homeparentcontrol.Prelude.Int.{ℤ}
use homeparentcontrol.Prelude.Sort.{sort}

-- `appUsageSample` of packages/contract/src/telemetry.ts.
pub record AppUsageSample : Type 0 where
  pub bundle_id : String
  pub foreground : Option ℕ
  pub active : Option ℕ
  pub cpu_pct : Option ℕ

pub data SessionState : Type 0 where
  awake active locked asleep : SessionState

pub record SessionStateSample : Type 0 where
  pub state : SessionState
  pub console_user : Option String

-- A column of JSON: what each schema, and `readInt`, reads in it.
pub record Payload : Type 0 where
  pub usage : Option AppUsageSample
  pub session : Option SessionStateSample
  pub policy_version : Option ℕ

pub record Event : Type 0 where
  pub device_id : ℕ
  pub event_id : ℕ
  pub type : String
  pub ts : ℕ
  pub received_at : ℕ
  pub boot_id : String
  pub seq : ℤ
  pub payload : Payload

pub record ProjectedDevice : Type 0 where
  pub id : ℕ
  pub household_id : ℕ
  pub child_id : ℕ
  pub timezone : Option String
  pub household_timezone : Option String

pub record UsageHourly : Type 0 where
  pub device_id : ℕ
  pub child_id : ℕ
  pub household_id : ℕ
  pub bucket_start : ℕ
  pub bundle_id : String
  pub foreground_s : ℕ
  pub active_s : ℕ
  pub cpu_pct_avg : ℕ
  pub sample_count : ℕ

-- The detail of a log row: the payload as it came, or the two states of an unlock.
pub data Detail : Type 0 where
  as_sent : Payload → Detail
  unlocked : SessionState → SessionState → Detail

pub record EnforcementRow : Type 0 where
  pub device_id : ℕ
  pub child_id : ℕ
  pub household_id : ℕ
  pub event_id : ℕ
  pub kind : String
  pub occurred_at : ℕ
  pub policy_version : Option ℕ
  pub summary : String
  pub detail : Detail

pub record SessionSpan : Type 0 where
  pub device_id : ℕ
  pub child_id : ℕ
  pub household_id : ℕ
  pub kind : SessionState
  pub started_at : ℕ
  pub ended_at : Option ℕ
  pub boot_id : String
  pub console_user : Option String
  pub end_inferred : Bool

pub record Store : Type 0 where
  pub events : List Event
  pub devices : List ProjectedDevice
  pub usage_hourly : List UsageHourly
  pub enforcement_log : List EnforcementRow
  pub session_spans : List SessionSpan
  pub watermark : Option ℕ

-- A device-hour, the unit of recomputation.
pub record Bucket : Type 0 where
  pub device_id : ℕ
  pub hour : ℕ

pub record Tally : Type 0 where
  pub usage_rows : ℕ
  pub enforcement_rows : ℕ
  pub session_spans : ℕ
  pub unprojectable : ℕ

pub record ProjectionResult : Type 0 where
  pub scanned : ℕ
  pub dirty_buckets : ℕ
  pub tally : Tally

abbrev pub batch_limit : ℕ
batch_limit = 50000

abbrev pub hour_ms : ℕ
hour_ms = 3600000

-- `date_trunc('hour', ts)`, in a zone of whole hours.
abbrev pub hour_of : ℕ → ℕ
hour_of ts = ts / hour_ms * hour_ms

abbrev pub by_received_at : Event → Event → Bool
by_received_at a b = leb a.received_at b.received_at

-- `received_at > watermark ORDER BY received_at LIMIT …`.
unfoldable pub scan : ℕ → ℕ → List Event → List Event
scan limit watermark events =
    take limit (sort by_received_at (filter (λ e. ltb watermark e.received_at) events))

-- `receivedAt.getTime()`, in milliseconds.
abbrev pub received_ms : Event → ℕ
received_ms e = e.received_at / 1000

unfoldable pub last_of : Event → List Event → Event
last_of e [] = e
last_of e (x ∷ xs) = last_of x xs

-- The rows that do not share the last row's millisecond.
unfoldable pub before_last_group : List Event → List Event
before_last_group [] = []
before_last_group (e ∷ es) =
    let last_ms = received_ms (last_of e es) in
    filter (λ r. not (received_ms r == last_ms)) (e ∷ es)

abbrev pub or_whole : List Event → List Event → List Event
or_whole scanned [] = scanned
or_whole scanned (e ∷ es) = e ∷ es

-- A full batch is cut before its last group, unless it is one group.
unfoldable pub usable_of : ℕ → List Event → List Event
usable_of limit scanned =
    if length scanned == limit then or_whole scanned (before_last_group scanned) else scanned

abbrev pub same_bucket : Bucket → Bucket → Bool
same_bucket a b = (a.device_id == b.device_id) && (a.hour == b.hour)

abbrev pub bucket_of : Event → Bucket
bucket_of e = record { device_id = e.device_id; hour = hour_of e.ts }

-- The distinct buckets, in the order in which they are first met.
unfoldable pub dirty_from : List Bucket → List Event → List Bucket
dirty_from found [] = found
dirty_from found (e ∷ es) =
    dirty_from
      (if any (same_bucket (bucket_of e)) found then found else found ++ (bucket_of e ∷ [])) es

abbrev pub dirty_of : List Event → List Bucket
dirty_of usable = dirty_from [] usable

-- The newest row that was seen.
abbrev pub newest : List Event → Option ℕ
newest [] = none
newest (e ∷ es) = some (last_of e es).received_at

-- Only the forward pass moves the watermark.
abbrev pub advanced : Bool → Option ℕ → Option ℕ → Option ℕ
advanced true (some w) old = some w
advanced true none old = old
advanced false w old = old

abbrev pub add_tally : Tally → Tally → Tally
add_tally a b = record {
  usage_rows = a.usage_rows + b.usage_rows;
  enforcement_rows = a.enforcement_rows + b.enforcement_rows;
  session_spans = a.session_spans + b.session_spans;
  unprojectable = a.unprojectable + b.unprojectable;
}

abbrev pub no_tally : Tally
no_tally = record { usage_rows = 0; enforcement_rows = 0; session_spans = 0; unprojectable = 0 }

-- The watermark a pass starts from: the caller's, the stored one, or the epoch.
abbrev pub start_of : Option ℕ → Option ℕ → ℕ
start_of (some since) stored = since
start_of none (some w) = w
start_of none none = 0

module _ (recompute : Bucket → Store → Store × Tally) where
  unfoldable pub recompute_all : List Bucket → Store × Tally → Store × Tally
  recompute_all [] s = s
  recompute_all (b ∷ bs) (db, t) =
      let (db', t') = recompute b db in recompute_all bs (db', add_tally t t')

  -- What is done with a scan. One that finds nothing leaves all as it is.
  unfoldable pub pass_over : ℕ → List Event → Bool → Store → Store × ProjectionResult
  pass_over limit [] advance db = (db, record { scanned = 0; dirty_buckets = 0; tally = no_tally })
  pass_over limit (e ∷ es) advance db =
      let usable = usable_of limit (e ∷ es) in
      let dirty = dirty_of usable in
      let (db', t) = recompute_all dirty (db, no_tally) in
      (
        record db' { watermark = advanced advance (newest usable) db'.watermark },
        record { scanned = length usable; dirty_buckets = length dirty; tally = t },
      )

  -- One pass of the projector.
  unfoldable pub pass : ℕ → Option ℕ → Bool → Store → Store × ProjectionResult
  pass limit since advance db =
      pass_over limit (scan limit (start_of since db.watermark) db.events) advance db
