-- ===== src/Projection/Idempotence.antt =====
-- apps/api/src/jobs/project.ts: to recompute a bucket again is to recompute it once.
pub mod Rows
pub mod Spans
pub mod Ids
pub mod Writes
use homeparentcontrol.Prelude.{
  ℕ, ◌+◌, ◌≡◌, ◌≢◌, refl, sym, ◌∙◌, ap, eq_iff, String, Bool, true, false, ◌&&◌, not, List, [], ◌∷◌,
  ◌++◌, Option, none, some, map, arith, filter, find, All, All-map_imp, All-append, All-filter,
  All-filter_self, All-filter_imp, All_of_Memᴰ, inl, inr, Bool-cases, Option-cases, ◌==◌, ltb,
  is_some, if_same,
}
use mathlib.Core.List.{Memᴰ, append-nil, map-append}
use homeparentcontrol.Prelude.Sort.{sort, insert_sorted, sort-All, insert_sorted-All}
use homeparentcontrol.Prelude.Upsert.{
  upsert_by, upsert_by-twice, upsert_by-settled, upsert_by-append, upsert_by-All,
}
use homeparentcontrol.Prelude.Members.{
  filter-append_again, filter-append, filter-All, filter_none, filter-map, map_again, All-zip,
  All-Memᴰ,
}
use homeparentcontrol.Projection.{
  no_tally, hour_ms, Event, Payload, ProjectedDevice, EnforcementRow, SessionSpan, Store, Bucket,
  SessionState,
}
use homeparentcontrol.Projection.Buckets.{
  event_write, LogWrite, rewrite_row, write_row, write_rows, writes_of, unlocks_of, unlock_if,
  was_out, is_in, kind_of, kind_in, is_session, same_span, rewrite_span, write_spans, per_bundle,
  state_before, first_from, spans_of, close_span, close_at, in_hour, bucket_rows, recompute_for,
  recompute_bucket, usage_row, BundleUsage, by_ts, by_seq,
}
use homeparentcontrol.Projection.Idempotence.Rows.{AreApart, write_rows_again}
use homeparentcontrol.Projection.Idempotence.Spans.{IsOf, respan_again}
use homeparentcontrol.Projection.Idempotence.Ids.{
  HaveDistinctIds, AreNew, filter-AreNew, sort-AreNew, of_device-AreNew, Memᴰ_eq,
}
use homeparentcontrol.Projection.Idempotence.Writes.{
  IsSession, writes_of-All, writes_of-AreApart, AreApart-append, unlocks_of-All,
  unlocks_of-AreApart, kind_of-session,
}

-- The rows of a bucket, seen as by the recomputation.
module _ (summarise : String → Payload → String) (collate : String → String → Bool)
    (d : ProjectedDevice) (b : Bucket) where
  abbrev transitions_of : List Event → List Event
  transitions_of rows = sort by_ts (filter is_session rows)

  transitions_of-All :
      (P : Event → Type 0) (rows : List Event) → All P rows → All P (transitions_of rows)
  transitions_of-All P rows h =
      sort-All by_ts P (filter is_session rows) (All-filter P is_session rows h)

  transitions_of-IsSession : (rows : List Event) → All IsSession (transitions_of rows)
  transitions_of-IsSession rows =
      sort-All by_ts IsSession (filter is_session rows) (All-filter_self is_session rows)

  unlocks_AreNew :
      (rows : List Event) (previous : Option SessionState) (e : Event) (k : String)
      → AreNew rows
      → Memᴰ e rows
      → kind_of e.type ≡ some k
      → All (λ v. e.event_id ≢ v.row.event_id) (unlocks_of d b previous (transitions_of rows))
  unlocks_AreNew rows previous e k h m q =
      unlocks_of-All d b (λ v. e.event_id ≢ v.row.event_id) (λ f. IsSession f × Memᴰ f rows)
        (λ f v g r t. ground (
          arith,
          kind_of-session f g.0,
          ap (λ x. kind_of x.type) (Memᴰ_eq rows e f h m g.1 (t ∙ r)),
          q,
        ))
        (transitions_of rows) previous
        (All-zip IsSession (λ f. Memᴰ f rows) (transitions_of rows) (transitions_of-IsSession rows)
          (transitions_of-All (λ f. Memᴰ f rows) rows (All-Memᴰ rows)))

  log_AreApart :
      (rows : List Event) (previous : Option SessionState)
      → AreNew rows
      → AreApart
          (writes_of summarise collate d b rows ++ unlocks_of d b previous (transitions_of rows))
  log_AreApart rows previous h =
      let unlocks = unlocks_of d b previous (transitions_of rows) in
      AreApart-append (writes_of summarise collate d b rows) unlocks
        (writes_of-AreApart summarise collate d b rows h)
        (unlocks_of-AreApart d b (transitions_of rows) previous
          (sort-AreNew by_ts (filter is_session rows) (filter-AreNew is_session rows h)))
        (writes_of-All summarise collate d b
          (λ w. All (λ v. w.row.event_id ≢ v.row.event_id) unlocks) (λ e. Memᴰ e rows)
          (λ e k m q. unlocks_AreNew rows previous e k h m q) rows (All-Memᴰ rows))

  spans_of-IsOf :
      (after : Option ℕ) (es : List Event)
      → All (λ e. in_hour b e.ts ≡ true) es
      → All (IsOf b) (spans_of d b after es)
  unfolding spans_of
  spans_of-IsOf after [] h = tt
  spans_of-IsOf after (e ∷ es) h = elim (Option-cases e.payload.session) [
    | inl n ↦ rw (n, spans_of) (spans_of-IsOf after es h.1)
    | inr (s, q) ↦ rw (q, spans_of) (ground (arith, h.0), spans_of-IsOf after es h.1)
  ]

  bucket_rows-AreNew :
      (events : List Event)
      → HaveDistinctIds events
      → AreNew (bucket_rows summarise collate b events)
  unfolding bucket_rows
  bucket_rows-AreNew events h =
      sort-AreNew (by_seq summarise collate) _ (of_device-AreNew b (λ e. in_hour b e.ts) events h)

  bucket_rows-in_hour :
      (events : List Event)
      → All (λ e. in_hour b e.ts ≡ true) (bucket_rows summarise collate b events)
  unfolding bucket_rows
  bucket_rows-in_hour events = sort-All (by_seq summarise collate) _ _ (
      All-filter_imp _ (λ e. (e.device_id == b.device_id) && in_hour b e.ts) events
        (λ e q. ground (arith, q)))

  usage_row-replaced :
      (accs : List BundleUsage)
      → All
          (λ u. not ((u.device_id == b.device_id) && (u.bucket_start == b.hour)) ≡ false)
          (map (usage_row d b) accs)
  usage_row-replaced [] = tt
  usage_row-replaced (a ∷ accs) = (ground arith, usage_row-replaced accs)

  recompute_for_again :
      (db : Store)
      → HaveDistinctIds db.events
      → (recompute_for summarise collate d b (recompute_for summarise collate d b db).0).0
        ≡ (recompute_for summarise collate d b db).0
  unfolding recompute_for
  recompute_for_again db h =
      let rows = bucket_rows summarise collate b db.events in
      let transitions = transitions_of rows in
      let writes =
        writes_of summarise collate d b rows
        ++ unlocks_of d b (state_before b.device_id db.events transitions) transitions in
      let spans = spans_of d b (first_from b.device_id (b.hour + hour_ms) db.events) transitions in
      rw
        (
          filter-append_again
              (λ u. not ((u.device_id == b.device_id) && (u.bucket_start == b.hour)))
              db.usage_hourly (map (usage_row d b) (per_bundle rows []))
              (usage_row-replaced (per_bundle rows [])),
          write_rows_again writes db.enforcement_log (
              log_AreApart rows (state_before b.device_id db.events transitions)
                (bucket_rows-AreNew db.events h)),
          respan_again b db.events spans db.session_spans (
              spans_of-IsOf (first_from b.device_id (b.hour + hour_ms) db.events) transitions (
                transitions_of-All (λ e. in_hour b e.ts ≡ true) rows
                  (bucket_rows-in_hour db.events))),
        )
        refl

module _ (summarise : String → Payload → String) (collate : String → String → Bool)
    (b : Bucket) where
  abbrev device_of : Store → Option ProjectedDevice
  device_of db = find (λ d. d.id == b.device_id) db.devices

  recompute_bucket-none :
      (db : Store) → device_of db ≡ none → recompute_bucket summarise collate b db ≡ (db, no_tally)
  unfolding recompute_bucket
  recompute_bucket-none db n = rw (n, recompute_bucket) refl

  recompute_bucket-some :
      (db : Store) (d : ProjectedDevice)
      → device_of db ≡ some d
      → recompute_bucket summarise collate b db ≡ recompute_for summarise collate d b db
  unfolding recompute_bucket
  recompute_bucket-some db d q = rw (q, recompute_bucket) refl

  recompute_for-devices :
      (db : Store) (d : ProjectedDevice)
      → (recompute_for summarise collate d b db).0.devices ≡ db.devices
  unfolding recompute_for
  recompute_for-devices db d = refl

-- Recomputing a bucket a second time changes nothing: not the usage of the hour, not the log, not
-- the spans, when the events of a device have different ids.
pub recompute_bucket_again :
    (summarise : String → Payload → String) (collate : String → String → Bool) (b : Bucket)
    (db : Store)
    → HaveDistinctIds db.events
    → (recompute_bucket summarise collate b (recompute_bucket summarise collate b db).0).0
      ≡ (recompute_bucket summarise collate b db).0
recompute_bucket_again summarise collate b db h =
    elim (Option-cases (device_of summarise collate b db)) [
      | inl n ↦
          let same = ap (λ r. r.0) (recompute_bucket-none summarise collate b db n) in
          ap (λ x. (recompute_bucket summarise collate b x).0) same
      | inr (d, q) ↦
          let once = recompute_bucket-some summarise collate b db d q in
          let again =
            recompute_bucket-some summarise collate b (recompute_for summarise collate d b db).0 d (
              ap (find (λ x. x.id == b.device_id)) (recompute_for-devices summarise collate b db d)
              ∙ q) in
          rw (once, again) (recompute_for_again summarise collate d b db h)
    ]
