-- ===== src/Ingest/Tests.antt =====
-- A batch of two events, one of which does not read.
use homeparentcontrol.Prelude.{◌≡◌, refl, String, Bool, true, [], ◌∷◌, none, some, map}
use homeparentcontrol.Prelude.Int.{pos}
use homeparentcontrol.Projection.{Payload, Bucket, Store}
use homeparentcontrol.Projection.Buckets.{recompute_bucket}
use homeparentcontrol.Ingest.{audit, RawFields, fields, Batch, IngestDb, handle_events}
use homeparentcontrol.Ingest.Durable.{IsHonest, handle_events-IsHonest}
use homeparentcontrol.Ingest.Again.{
  Sent, after_batches, handle_events_again, after_batches-recompute_bucket,
}

abbrev started : RawFields
started = record {
  raw_id = some "018f0000-0000-7000-8000-000000000001";
  event_id = some 1;
  type = some "agent.started";
  version_reads = true;
  class = some audit;
  ts = some 500;
  seq = some (pos 1);
  boot_id = some none;
  payload = some (record { usage = none; session = none; policy_version = none });
}

abbrev both : Batch
both = record {
  device_id = 1;
  boot_id = "boot";
  events = fields started ∷ fields (record started { event_id = none }) ∷ [];
}

abbrev no_events : IngestDb
no_events = record {
  events = [];
  access = record {
    enrollments = [];
    devices = [];
    households = [];
    children = [];
    child_sets = [];
    desired = [];
    keys = [];
    tripwires = [];
    tables = record { devices = []; versions = [] };
  };
}

handle_events-IsHonest_example :
    IsHonest 1 (some both) no_events (handle_events 1 1 900 (some both) no_events)
handle_events-IsHonest_example = handle_events-IsHonest 1 1 900 (some both) no_events

handle_events_again_example :
    let first = handle_events 1 1 900 (some both) no_events in
    let second = handle_events 1 1 950 (some both) first.0 in
    (second.0.events ≡ first.0.events) × (second.1 ≡ first.1)
handle_events_again_example = handle_events_again 1 1 900 950 (some both) no_events

abbrev one_word : String → Payload → String
one_word type payload = type

abbrev in_order : String → String → Bool
in_order a b = true

abbrev bucket : Bucket
bucket = record { device_id = 1; hour = 0 }

abbrev empty_store : Store
empty_store = record {
  events = [];
  devices =
      (record {
        id = 1;
        household_id = 1;
        child_id = 1;
        timezone = none;
        household_timezone = none;
      })
      ∷ [];
  usage_hourly = [];
  enforcement_log = [];
  session_spans = [];
  watermark = none;
}

abbrev sent : Sent
sent = record { device_id = 1; household_id = 1; now = 900; batch = some both }

after_batches-recompute_bucket_example :
    let projected : Store = record empty_store {
      events = map (λ r. r.event) (after_batches (sent ∷ sent ∷ []) no_events).events;
    } in
    (recompute_bucket one_word in_order bucket
      (recompute_bucket one_word in_order bucket projected).0).0
    ≡ (recompute_bucket one_word in_order bucket projected).0
after_batches-recompute_bucket_example =
    after_batches-recompute_bucket one_word in_order bucket (sent ∷ sent ∷ []) no_events empty_store
      refl
