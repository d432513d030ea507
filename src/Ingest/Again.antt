-- ===== src/Ingest/Again.antt =====
-- apps/api/src/routes/events.ts and apps/api/src/jobs/project.ts: a batch that is sent again, and the
-- projection of what batches stored.
use homeparentcontrol.Prelude.{
  ℕ, ◌≡◌, refl, String, Bool, true, not, List, [], ◌∷◌, Option, none, some, map, ltb, ◌==◌, length,
  inl, inr, Bool-cases, All,
}
use homeparentcontrol.Projection.{Payload, Bucket, Store}
use homeparentcontrol.Projection.Buckets.{recompute_bucket}
use homeparentcontrol.Projection.Idempotence.{recompute_bucket_again}
use homeparentcontrol.Projection.Idempotence.Ids.{HaveDistinctIds}
use homeparentcontrol.Ingest.{
  EventEnvelope, StoredEvent, Batch, IngestDb, sort_events, row_of, max_batch_events, insert_events,
  store_batch, handle_events,
}
use homeparentcontrol.Ingest.Durable.{
  is_stored, insert_events-stores, insert_events-HaveDistinctIds,
}

insert_events_again :
    (news rows : List StoredEvent)
    → All (λ n. is_stored n.event.device_id n.event.event_id rows ≡ true) news
    → insert_events news rows ≡ rows
unfolding insert_events
insert_events_again [] rows h = refl
insert_events_again (new ∷ news) rows h = rw (h.0) (insert_events_again news rows h.1)

module _ (device_id household_id : ℕ) where
  -- The same envelopes at another time have the same keys.
  rows_at :
      (now later : ℕ) (boot : String) (rows : List StoredEvent) (es : List EventEnvelope)
      → All
          (λ n. is_stored n.event.device_id n.event.event_id rows ≡ true)
          (map (row_of device_id household_id now boot) es)
      → All
          (λ n. is_stored n.event.device_id n.event.event_id rows ≡ true)
          (map (row_of device_id household_id later boot) es)
  rows_at now later boot rows [] h = tt
  rows_at now later boot rows (e ∷ es) h = (h.0, rows_at now later boot rows es h.1)

  store_batch_again :
      (now later : ℕ) (b : Batch) (db : IngestDb)
      → (store_batch device_id household_id later b
          (store_batch device_id household_id now b db).0).0.events
        ≡ (store_batch device_id household_id now b db).0.events
  store_batch_again now later b db =
      let es = (sort_events b.events).accepted in
      insert_events_again (map (row_of device_id household_id later b.boot_id) es) _ (
        rows_at now later b.boot_id _ es
          (insert_events-stores (map (row_of device_id household_id now b.boot_id) es) db.events))

  -- A batch that an agent sends a second time, because it did not hear the answer, stores nothing more,
  -- and gets the same answer, whatever the time.
  pub handle_events_again :
      (now later : ℕ) (b : Option Batch) (db : IngestDb)
      → let first = handle_events device_id household_id now b db in
        let second = handle_events device_id household_id later b first.0 in
        (second.0.events ≡ first.0.events) × (second.1 ≡ first.1)
  unfolding handle_events
  handle_events_again now later none db = (refl, refl)
  handle_events_again now later (some b) db = elim (Bool-cases (not (b.device_id == device_id))) [
    | inl e ↦ rw e (refl, refl)
    | inr e ↦ elim (Bool-cases (ltb max_batch_events (length b.events))) [
      | inl f ↦ rw (e, f) (refl, refl)
      | inr f ↦ rw (e, f) (store_batch_again now later b db, refl)
    ]
  ]

  handle_events-HaveDistinctIds :
      (now : ℕ) (b : Option Batch) (db : IngestDb)
      → HaveDistinctIds (map (λ r. r.event) db.events)
      → HaveDistinctIds
          (map (λ r. r.event) (handle_events device_id household_id now b db).0.events)
  unfolding handle_events
  handle_events-HaveDistinctIds now none db h = h
  handle_events-HaveDistinctIds now (some b) db h =
      elim (Bool-cases (not (b.device_id == device_id))) [
        | inl e ↦ rw e h
        | inr e ↦ elim (Bool-cases (ltb max_batch_events (length b.events))) [
          | inl f ↦ rw (e, f) h
          | inr f ↦ rw (e, f) (insert_events-HaveDistinctIds _ db.events h)
        ]
      ]

-- A batch for a device, of a household, at a time.
pub record Sent : Type 0 where
  pub device_id : ℕ
  pub household_id : ℕ
  pub now : ℕ
  pub batch : Option Batch

-- The table after batches, the last of them first.
unfoldable pub after_batches : List Sent → IngestDb → IngestDb
after_batches [] db = db
after_batches (s ∷ ss) db =
    (handle_events s.device_id s.household_id s.now s.batch (after_batches ss db)).0

after_batches-HaveDistinctIds :
    (ss : List Sent) (db : IngestDb)
    → db.events ≡ []
    → HaveDistinctIds (map (λ r. r.event) (after_batches ss db).events)
unfolding after_batches
after_batches-HaveDistinctIds [] db e = rw e tt
after_batches-HaveDistinctIds (s ∷ ss) db e =
    handle_events-HaveDistinctIds s.device_id s.household_id s.now s.batch _
      (after_batches-HaveDistinctIds ss db e)

-- Whatever batches were sent to a table without events, the projection of a bucket over what they stored
-- is the same when it is done a second time.
pub after_batches-recompute_bucket :
    (summarise : String → Payload → String) (collate : String → String → Bool) (b : Bucket)
    (ss : List Sent) (db : IngestDb) (store : Store)
    → db.events ≡ []
    → let projected = record store { events = map (λ r. r.event) (after_batches ss db).events } in
      (recompute_bucket summarise collate b (recompute_bucket summarise collate b projected).0).0
      ≡ (recompute_bucket summarise collate b projected).0
after_batches-recompute_bucket summarise collate b ss db store e =
    recompute_bucket_again summarise collate b _ (after_batches-HaveDistinctIds ss db e)
