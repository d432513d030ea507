-- ===== src/Ingest/Durable.antt =====
-- apps/api/src/routes/events.ts: what a batch leaves in the table of events.
use homeparentcontrol.Prelude.{
  ℕ, suc, ◌+◌, ◌≡◌, ◌≢◌, refl, ap, Bool, true, false, ◌&&◌, not, List, [], ◌∷◌, Option, none, some,
  map, arith, ltb, ◌==◌, any, length, inl, inr, Bool-cases, All, All-map_imp,
}
use mathlib.Core.List.{Memᴰ}
use homeparentcontrol.Prelude.Members.{All-map}
use homeparentcontrol.Projection.Idempotence.Ids.{HaveDistinctIds}
use homeparentcontrol.Access.Problems.{Answer, answered, refused}
use homeparentcontrol.Ingest.{
  RawEvent, EventEnvelope, StoredEvent, EventsResponse, Batch, IngestDb, Sorted, sort_in,
  sort_events, parse_event, classify_rejection, RejectedEvent, is_same_event, row_of,
  max_batch_events, insert_event, insert_events, store_batch, handle_events,
}

-- An event of a device is in the table.
abbrev pub is_stored : ℕ → ℕ → List StoredEvent → Bool
is_stored device_id id rows =
    any (λ r. (device_id == r.event.device_id) && (id == r.event.event_id)) rows

insert_event-keeps :
    (device_id id : ℕ) (new : StoredEvent) (rows : List StoredEvent)
    → is_stored device_id id rows ≡ true
    → is_stored device_id id (insert_event new rows) ≡ true
insert_event-keeps device_id id new rows h = elim (Bool-cases (any (is_same_event new) rows)) [
  | inl e ↦ rw e h
  | inr e ↦ rw (e, h) (ground arith)
]

same_self : (a b : ℕ) → ((a == a) && (b == b)) ≡ true
same_self a b = ground arith

insert_event-stores :
    (new : StoredEvent) (rows : List StoredEvent)
    → is_stored new.event.device_id new.event.event_id (insert_event new rows) ≡ true
insert_event-stores new rows = elim (Bool-cases (any (is_same_event new) rows)) [
  | inl e ↦ rw e e
  | inr e ↦ rw (e, same_self new.event.device_id new.event.event_id) refl
]

insert_events-keeps :
    (device_id id : ℕ) (news rows : List StoredEvent)
    → is_stored device_id id rows ≡ true
    → is_stored device_id id (insert_events news rows) ≡ true
unfolding insert_events
insert_events-keeps device_id id [] rows h = h
insert_events-keeps device_id id (new ∷ news) rows h =
    insert_events-keeps device_id id news _ (insert_event-keeps device_id id new rows h)

pub insert_events-stores :
    (news rows : List StoredEvent)
    → All (λ n. is_stored n.event.device_id n.event.event_id (insert_events news rows) ≡ true) news
unfolding insert_events
insert_events-stores [] rows = tt
insert_events-stores (new ∷ news) rows = (
  insert_events-keeps new.event.device_id new.event.event_id news _ (insert_event-stores new rows),
  insert_events-stores news _,
)

-- Every event of a batch is accepted or refused.
sort_in-length :
    (raw : RawEvent) (o : Option EventEnvelope) (s : Sorted) (n : ℕ)
    → length s.accepted + length s.rejected ≡ n
    → length (sort_in raw o s).accepted + length (sort_in raw o s).rejected ≡ suc n
sort_in-length raw none s n h = omega arith
sort_in-length raw (some e) s n h = omega arith

sort_events-length :
    (raws : List RawEvent)
    → length (sort_events raws).accepted + length (sort_events raws).rejected ≡ length raws
unfolding sort_events
sort_events-length [] = refl
sort_events-length (raw ∷ raws) = sort_in-length raw _ _ _ (sort_events-length raws)

All-unmap :
    {A B : Type 0} (P : B → Type 0) (f : A → B) (xs : List A)
    → All P (map f xs)
    → All (λ x. P (f x)) xs
All-unmap P f [] h = tt
All-unmap P f (x ∷ xs) h = (h.0, All-unmap P f xs h.1)

length-map : {A B : Type 0} (f : A → B) (xs : List A) → length (map f xs) ≡ length xs
length-map f [] = refl
length-map f (x ∷ xs) = ap (λ n. suc n) (length-map f xs)

none_same :
    (new : StoredEvent) (rows : List StoredEvent)
    → any (is_same_event new) rows ≡ false
    → All
        (λ r. new.event.device_id ≡ r.event.device_id → new.event.event_id ≢ r.event.event_id)
        rows
none_same new [] h = tt
none_same new (r ∷ rows) h = elim (Bool-cases (is_same_event new r)) [
  | inl e ↦ absurd (ground (arith, e, h))
  | inr e ↦ ((λ p q. ground (arith, e, p, q)), none_same new rows (ground (arith, e, h)))
]

insert_event-HaveDistinctIds :
    (new : StoredEvent) (rows : List StoredEvent)
    → HaveDistinctIds (map (λ r. r.event) rows)
    → HaveDistinctIds (map (λ r. r.event) (insert_event new rows))
insert_event-HaveDistinctIds new rows h = elim (Bool-cases (any (is_same_event new) rows)) [
  | inl e ↦ rw e h
  | inr e ↦ rw e (All-map _ (λ r. r.event) rows (none_same new rows e), h)
]

pub insert_events-HaveDistinctIds :
    (news rows : List StoredEvent)
    → HaveDistinctIds (map (λ r. r.event) rows)
    → HaveDistinctIds (map (λ r. r.event) (insert_events news rows))
unfolding insert_events
insert_events-HaveDistinctIds [] rows h = h
insert_events-HaveDistinctIds (new ∷ news) rows h =
    insert_events-HaveDistinctIds news _ (insert_event-HaveDistinctIds new rows h)

-- An event is accepted under its id if it reads, and refused for its own reason if not.
abbrev pub IsAnswered : RawEvent → Option EventEnvelope → List ℕ → List RejectedEvent → Type 0
IsAnswered raw (some e) ids rejected = Memᴰ e.event_id ids
IsAnswered raw none ids rejected = Memᴰ (classify_rejection raw) rejected

abbrev ids_of : List EventEnvelope → List ℕ
ids_of es = map (λ e. e.event_id) es

sort_in-IsAnswered :
    (raw : RawEvent) (o : Option EventEnvelope) (s : Sorted)
    → IsAnswered raw o (ids_of (sort_in raw o s).accepted) (sort_in raw o s).rejected
sort_in-IsAnswered raw none s = Memᴰ.head refl
sort_in-IsAnswered raw (some e) s = Memᴰ.head refl

sort_in-keeps :
    (raw other : RawEvent) (o p : Option EventEnvelope) (s : Sorted)
    → IsAnswered other p (ids_of s.accepted) s.rejected
    → IsAnswered other p (ids_of (sort_in raw o s).accepted) (sort_in raw o s).rejected
sort_in-keeps raw other none none s h = Memᴰ.tail h
sort_in-keeps raw other none (some e) s h = h
sort_in-keeps raw other (some e) none s h = h
sort_in-keeps raw other (some e) (some f) s h = Memᴰ.tail h

sort_events-IsAnswered :
    (raws : List RawEvent)
    → All
        (λ raw.
          IsAnswered raw
            (parse_event raw)
            (ids_of (sort_events raws).accepted)
            (sort_events raws).rejected)
        raws
unfolding sort_events
sort_events-IsAnswered [] = tt
sort_events-IsAnswered (raw ∷ raws) = (
  sort_in-IsAnswered raw (parse_event raw) (sort_events raws),
  All-map_imp (λ other h. sort_in-keeps raw other (parse_event raw) (parse_event other) _ h) raws
      (sort_events-IsAnswered raws),
)

-- What an answer says of the table: every accepted id is stored, and each event of the batch is in one
-- of the two lists, by whether it reads. A refusal has changed nothing.
abbrev pub IsHonest : ℕ → Option Batch → IngestDb → IngestDb × Answer EventsResponse → Type 0
IsHonest device_id none before (after, a) = after ≡ before
IsHonest device_id (some b) before (after, refused p) = after ≡ before
IsHonest device_id (some b) before (after, answered r) =
    All (λ id. is_stored device_id id after.events ≡ true) r.accepted_event_ids
    × All (λ raw. IsAnswered raw (parse_event raw) r.accepted_event_ids r.rejected_events) b.events
    × (length r.accepted_event_ids + length r.rejected_events ≡ length b.events)

module _ (device_id household_id now : ℕ) where
  store_batch-IsHonest :
      (b : Batch) (db : IngestDb)
      → IsHonest device_id (some b) db (store_batch device_id household_id now b db)
  store_batch-IsHonest b db =
      let s = sort_events b.events in
      let news = map (row_of device_id household_id now b.boot_id) s.accepted in
      (
        All-map (λ id. is_stored device_id id (insert_events news db.events) ≡ true)
            (λ e. e.event_id) s.accepted
            (All-unmap _ (row_of device_id household_id now b.boot_id) s.accepted
              (insert_events-stores news db.events)),
        sort_events-IsAnswered b.events,
        rw (length-map (λ (e : EventEnvelope). e.event_id) s.accepted)
            (sort_events-length b.events),
      )

  -- Every event of a batch is accepted or refused by itself: one that reads is accepted, one that does
  -- not is refused with its own reason, whatever the others are, and there is one answer for each. An
  -- accepted event is in the table, whether it was new or not. A batch that is refused as a whole
  -- changes nothing.
  pub handle_events-IsHonest :
      (b : Option Batch) (db : IngestDb)
      → IsHonest device_id b db (handle_events device_id household_id now b db)
  unfolding handle_events
  handle_events-IsHonest none db = refl
  handle_events-IsHonest (some b) db = elim (Bool-cases (not (b.device_id == device_id))) [
    | inl e ↦ rw e refl
    | inr e ↦ elim (Bool-cases (ltb max_batch_events (length b.events))) [
      | inl f ↦ rw (e, f) refl
      | inr f ↦ rw (e, f) (store_batch-IsHonest b db)
    ]
  ]
