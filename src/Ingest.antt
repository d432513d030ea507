-- ===== src/Ingest.antt =====
-- apps/api/src/routes/events.ts and packages/contract/src/events.ts: a batch of telemetry is stored. An
-- event is given by what the schema reads in each of its fields, nothing where it does not read; the
-- counters of the log line are left out.
pub mod Durable
pub mod Again
mod Tests
use homeparentcontrol.Prelude.{
  ℕ, ◌≡◌, String, Bool, true, false, ◌&&◌, ◌||◌, not, List, [], ◌∷◌, Option, none, some, map, ltb,
  ◌==◌, str_eq, if◌then◌else◌, find, any, is_some, length, get_or, ◌>>=◌,
}
use homeparentcontrol.Prelude.Int.{ℤ}
use homeparentcontrol.Projection.{Event, Payload}
use homeparentcontrol.Access.{AccessDevice, AccessDb, is_decommissioned}
use homeparentcontrol.Access.Problems.{
  Problem, problem, by_status, Answer, answered, refused, malformed, scope_violation,
  payload_too_large,
}
use homeparentcontrol.Access.Ending.{disable_keys_of}

pub data EventClass : Type 0 where
  sample audit : EventClass

-- The fields of an event that is an object. `raw_id` is the text that stands for an id.
pub record RawFields : Type 0 where
  pub raw_id : Option String
  pub event_id : Option ℕ
  pub type : Option String
  pub version_reads : Bool
  pub class : Option EventClass
  pub ts : Option ℕ
  pub seq : Option ℤ
  pub boot_id : Option (Option String)
  pub payload : Option Payload

pub data RawEvent : Type 0 where
  no_object : RawEvent
  fields : RawFields → RawEvent

pub record EventEnvelope : Type 0 where
  pub event_id : ℕ
  pub type : String
  pub class : EventClass
  pub ts : ℕ
  pub seq : ℤ
  pub boot_id : Option String
  pub payload : Payload

-- A row of `events`.
pub record StoredEvent : Type 0 where
  pub household_id : ℕ
  pub class : EventClass
  pub event : Event

pub record RejectedEvent : Type 0 where
  pub event_id : String
  pub reason : String
  pub retryable : Bool

pub record EventsResponse : Type 0 where
  pub accepted_event_ids : List ℕ
  pub rejected_events : List RejectedEvent

-- The header of a batch.
pub record Batch : Type 0 where
  pub device_id : ℕ
  pub boot_id : String
  pub events : List RawEvent

pub record IngestDb : Type 0 where
  pub events : List StoredEvent
  pub access : AccessDb

abbrev pub max_batch_events : ℕ
max_batch_events = 2000

-- `eventEnvelope.safeParse`: an envelope, if all fields read.
abbrev pub parse_fields : RawFields → Option EventEnvelope
parse_fields f = do
  id ← f.event_id
  type ← f.type
  class ← f.class
  ts ← f.ts
  seq ← f.seq
  boot ← f.boot_id
  payload ← f.payload
  if f.version_reads
      then some (record {
        event_id = id;
        type = type;
        class = class;
        ts = ts;
        seq = seq;
        boot_id = boot;
        payload = payload;
      })
      else none

unfoldable pub parse_event : RawEvent → Option EventEnvelope
parse_event no_object = none
parse_event (fields f) = parse_fields f

-- Which event was refused and why.
unfoldable pub classify_rejection : RawEvent → RejectedEvent
classify_rejection no_object = record { event_id = ""; reason = "schema"; retryable = false }
classify_rejection (fields f) = record {
  event_id = get_or f.raw_id "";
  reason =
      if not (is_some f.event_id)
      then "bad_event_id_format"
      else if not (is_some f.class)
      then "bad_event_class"
      else "schema";
  retryable = false;
}

module _ (device_id household_id now : ℕ) where
  abbrev pub row_of : String → EventEnvelope → StoredEvent
  row_of batch_boot e = record {
    household_id = household_id;
    class = e.class;
    event = record {
      device_id = device_id;
      event_id = e.event_id;
      type = e.type;
      ts = e.ts;
      received_at = now;
      boot_id = get_or e.boot_id batch_boot;
      seq = e.seq;
      payload = e.payload;
    };
  }

-- The loop over a batch: the envelopes that read, and what was refused.
pub record Sorted : Type 0 where
  pub accepted : List EventEnvelope
  pub rejected : List RejectedEvent

abbrev pub sort_in : RawEvent → Option EventEnvelope → Sorted → Sorted
sort_in raw none s = record s { rejected = classify_rejection raw ∷ s.rejected }
sort_in raw (some e) s = record s { accepted = e ∷ s.accepted }

unfoldable pub sort_events : List RawEvent → Sorted
sort_events [] = record { accepted = []; rejected = [] }
sort_events (raw ∷ raws) = sort_in raw (parse_event raw) (sort_events raws)

-- The key of a row is its device and its id.
abbrev pub is_same_event : StoredEvent → StoredEvent → Bool
is_same_event a b =
    (a.event.device_id == b.event.device_id) && (a.event.event_id == b.event.event_id)

-- `ON CONFLICT DO NOTHING`, also between the rows of one statement.
abbrev pub insert_event : StoredEvent → List StoredEvent → List StoredEvent
insert_event row rows = if any (is_same_event row) rows then rows else row ∷ rows

unfoldable pub insert_events : List StoredEvent → List StoredEvent → List StoredEvent
insert_events [] rows = rows
insert_events (new ∷ news) rows = insert_events news (insert_event new rows)

abbrev pub retire_device : Option AccessDevice → AccessDb → AccessDb
retire_device none db = db
retire_device (some d) db =
    if is_decommissioned d.status then record db { keys = disable_keys_of d db.keys } else db

-- Never a live device's credentials.
unfoldable pub retire_if_decommissioned : ℕ → AccessDb → AccessDb
retire_if_decommissioned device_id db = retire_device (find (λ d. d.id == device_id) db.devices) db

module _ (device_id household_id now : ℕ) where
  abbrev pub store_batch : Batch → IngestDb → IngestDb × Answer EventsResponse
  store_batch b db =
      let s = sort_events b.events in
      (
        record {
          events =
              insert_events (map (row_of device_id household_id now b.boot_id) s.accepted)
                db.events;
          access =
              if any (λ e. str_eq e.type "agent.decommissioned") s.accepted
              then retire_if_decommissioned device_id db.access
              else db.access;
        },
        answered (record {
          accepted_event_ids = map (λ e. e.event_id) s.accepted;
          rejected_events = s.rejected;
        }),
      )

  -- handleEvents, for the device that the credential was resolved to, on a batch if the body is one.
  unfoldable pub handle_events : Option Batch → IngestDb → IngestDb × Answer EventsResponse
  handle_events none db = (db, refused (problem malformed by_status))
  handle_events (some b) db =
      if not (b.device_id == device_id)
      then (db, refused (problem scope_violation by_status))
      else if ltb max_batch_events (length b.events)
      then (db, refused (problem payload_too_large by_status))
      else store_batch b db
