-- ===== src/Projection/Buckets.antt =====
-- apps/api/src/jobs/project.ts: what one device-hour produces, recomputed from its events.
-- `summarise`, the wording of a line of the log, and `collate`, the database's order of texts, are
-- parameters.
use homeparentcontrol.Prelude.{
  ℕ, ◌+◌, ◌*◌, ◌/◌, String, Bool, true, false, ◌&&◌, ◌||◌, not, List, [], ◌∷◌, ◌++◌, Option, none,
  some, map, leb, ltb, ◌==◌, str_eq, if◌then◌else◌, filter, find, length, get_or, is_some, min,
}
use homeparentcontrol.Prelude.Int.{pos_part, neg_part}
use homeparentcontrol.Prelude.Sort.{sort}
use homeparentcontrol.Prelude.Query.{latest_by}
use homeparentcontrol.Prelude.Upsert.{upsert_by}
use homeparentcontrol.Projection.{
  AppUsageSample, SessionState, awake, active, locked, asleep, SessionStateSample, Payload, Event,
  ProjectedDevice, UsageHourly, as_sent, unlocked, EnforcementRow, SessionSpan, Store, Bucket,
  Tally, no_tally, hour_ms, pass, ProjectionResult, batch_limit,
}

-- ENFORCEMENT_LOG_KINDS of packages/contract/src/telemetry.ts.
abbrev pub enforcement_log_kinds : List (String × String)
enforcement_log_kinds =
    ("enforcement.warning_shown", "warning_shown")
    ∷ ("enforcement.warning_failed", "warning_failed")
    ∷ ("enforcement.action_taken", "action_taken")
    ∷ ("enforcement.action_failed", "action_failed")
    ∷ ("policy.applied", "policy_applied")
    ∷ ("policy.rejected", "policy_rejected")
    ∷ ("agent.degraded", "degraded")
    ∷ ("agent.started", "agent_started")
    ∷ ("agent.stopping", "agent_stopping")
    ∷ ("clock.stepped", "clock_stepped")
    ∷ ("clock.corrected", "clock_corrected")
    ∷ ("clock.network_time_off", "network_time_off")
    ∷ ("clock.timezone_changed", "timezone_changed")
    ∷ ("override.granted", "override_granted")
    ∷ ("override.expired", "override_expired")
    ∷ ("queue.evicted", "queue_evicted")
    ∷ ("agent.kill_switch_present", "kill_switch_present")
    ∷ []

unfoldable pub kind_in : String → List (String × String) → Option String
kind_in type [] = none
kind_in type ((t, k) ∷ ts) = if str_eq type t then some k else kind_in type ts

abbrev pub kind_of : String → Option String
kind_of type = kind_in type enforcement_log_kinds

-- `Math.round` of thousandths.
abbrev pub round_thousandths : ℕ → ℕ
round_thousandths n = (n + 500) / 1000

-- What is gathered of one bundle.
pub record BundleUsage : Type 0 where
  pub bundle_id : String
  pub foreground_s : ℕ
  pub active_s : ℕ
  pub cpu_total : ℕ
  pub n : ℕ

abbrev pub add_to : AppUsageSample → BundleUsage → BundleUsage
add_to d acc = record acc {
  foreground_s = acc.foreground_s + round_thousandths (get_or d.foreground 0);
  active_s = acc.active_s + round_thousandths (get_or d.active 0);
  cpu_total = acc.cpu_total + get_or d.cpu_pct 0;
  n = acc.n + 1;
}

abbrev pub no_usage : String → BundleUsage
no_usage bundle = record {
  bundle_id = bundle;
  foreground_s = 0;
  active_s = 0;
  cpu_total = 0;
  n = 0;
}

unfoldable pub add_sample : AppUsageSample → List BundleUsage → List BundleUsage
add_sample d accs =
    upsert_by (λ a. str_eq a.bundle_id d.bundle_id) (add_to d) (add_to d (no_usage d.bundle_id))
      accs

abbrev pub is_usage : Event → Bool
is_usage e = str_eq e.type "app.usage_sample"

abbrev pub is_session : Event → Bool
is_session e = str_eq e.type "session.state"

abbrev pub add_parsed : Option AppUsageSample → List BundleUsage → List BundleUsage
add_parsed none accs = accs
add_parsed (some d) accs = add_sample d accs

unfoldable pub per_bundle : List Event → List BundleUsage → List BundleUsage
per_bundle [] accs = accs
per_bundle (e ∷ es) accs =
    per_bundle es (if is_usage e then add_parsed e.payload.usage accs else accs)

abbrev pub usage_row : ProjectedDevice → Bucket → BundleUsage → UsageHourly
usage_row d b acc = record {
  device_id = b.device_id;
  child_id = d.child_id;
  household_id = d.household_id;
  bucket_start = b.hour;
  bundle_id = acc.bundle_id;
  foreground_s = acc.foreground_s;
  active_s = acc.active_s;
  cpu_pct_avg = if ltb 0 acc.n then (acc.cpu_total + 5 * acc.n) / (10 * acc.n) else 0;
  sample_count = min acc.n 32767;
}

abbrev pub in_hour : Bucket → ℕ → Bool
in_hour b t = leb b.hour t && ltb t (b.hour + hour_ms)

abbrev pub by_ts : Event → Event → Bool
by_ts a b = leb a.ts b.ts

-- A write to the enforcement log: the row to insert, and whether a conflict sets the kind too.
pub record LogWrite : Type 0 where
  pub row : EnforcementRow
  pub sets_kind : Bool

abbrev pub rewrite_row : LogWrite → EnforcementRow → EnforcementRow
rewrite_row w r =
    if w.sets_kind
    then record r { kind = w.row.kind; summary = w.row.summary; detail = w.row.detail }
    else record r { summary = w.row.summary; detail = w.row.detail }

abbrev pub write_row : LogWrite → List EnforcementRow → List EnforcementRow
write_row w log = upsert_by (λ r. r.event_id == w.row.event_id) (rewrite_row w) w.row log

unfoldable pub write_rows : List LogWrite → List EnforcementRow → List EnforcementRow
write_rows [] log = log
write_rows (w ∷ ws) log = write_rows ws (write_row w log)

abbrev pub state_eq : SessionState → SessionState → Bool
state_eq awake awake = true
state_eq active active = true
state_eq locked locked = true
state_eq asleep asleep = true
state_eq _ _ = false

abbrev pub same_span : SessionSpan → SessionSpan → Bool
same_span a b =
    (a.device_id == b.device_id) && (state_eq a.kind b.kind && (a.started_at == b.started_at))

abbrev pub rewrite_span : SessionSpan → SessionSpan → SessionSpan
rewrite_span s r = record r { ended_at = s.ended_at; console_user = s.console_user }

unfoldable pub write_spans : List SessionSpan → List SessionSpan → List SessionSpan
write_spans [] table = table
write_spans (s ∷ ss) table =
    write_spans ss (upsert_by (λ r. same_span r s) (rewrite_span s) s table)

-- The time of the next transition: in this hour, or the first after it.
abbrev pub next_of : List Event → Option ℕ → Option ℕ
next_of [] after = after
next_of (e ∷ es) after = some e.ts

abbrev pub span_of : ProjectedDevice → Bucket → Event → Option ℕ → SessionStateSample → SessionSpan
span_of d b e ended s = record {
  device_id = b.device_id;
  child_id = d.child_id;
  household_id = d.household_id;
  kind = s.state;
  started_at = e.ts;
  ended_at = ended;
  boot_id = e.boot_id;
  console_user = s.console_user;
  end_inferred = false;
}

unfoldable pub spans_of : ProjectedDevice → Bucket → Option ℕ → List Event → List SessionSpan
spans_of d b after [] = []
spans_of d b after (e ∷ es) = elim e.payload.session [
  | none ↦ spans_of d b after es
  | some s ↦ span_of d b e (next_of es after) s ∷ spans_of d b after es
]

-- The first transition of the device at or after `t`.
abbrev pub first_from : ℕ → ℕ → List Event → Option ℕ
first_from device_id t [] = none
first_from device_id t (e ∷ es) =
    let rest = first_from device_id t es in
    if (e.device_id == device_id) && is_session e && leb t e.ts
    then some (elim rest [ none ↦ e.ts | some r ↦ min e.ts r ])
    else rest

abbrev pub was_out : Option SessionState → Bool
was_out (some locked) = true
was_out (some asleep) = true
was_out _ = false

abbrev pub is_in : SessionState → Bool
is_in awake = true
is_in active = true
is_in _ = false

abbrev pub unlock_summary : SessionState → String
unlock_summary locked = "Mac unlocked"
unlock_summary _ = "Mac used after waking"

abbrev pub unlock_write : ProjectedDevice → Bucket → Event → SessionState → SessionState → LogWrite
unlock_write d b e from to = record {
  row = record {
    device_id = b.device_id;
    child_id = d.child_id;
    household_id = d.household_id;
    event_id = e.event_id;
    kind = "session_unlocked";
    occurred_at = e.ts;
    policy_version = none;
    summary = unlock_summary from;
    detail = unlocked from to;
  };
  sets_kind = false;
}

-- From out of use into use.
abbrev pub unlock_if :
    ProjectedDevice → Bucket → Event → Option SessionState → SessionState → List LogWrite
unlock_if d b e none to = []
unlock_if d b e (some from) to =
    if was_out (some from) && is_in to then unlock_write d b e from to ∷ [] else []

unfoldable pub unlocks_of :
    ProjectedDevice → Bucket → Option SessionState → List Event → List LogWrite
unlocks_of d b previous [] = []
unlocks_of d b previous (e ∷ es) = elim e.payload.session [
  | none ↦ unlocks_of d b previous es
  | some s ↦ unlock_if d b e previous s.state ++ unlocks_of d b (some s.state) es
]

abbrev pub state_of : Option Event → Option SessionState
state_of none = none
state_of (some e) = elim e.payload.session [ none ↦ none | some s ↦ some s.state ]

-- The state before the first transition.
abbrev pub state_before : ℕ → List Event → List Event → Option SessionState
state_before device_id events [] = none
state_before device_id events (t ∷ ts) = state_of (
    latest_by (λ e. (e.device_id == device_id) && is_session e && ltb e.ts t.ts) (λ e. e.ts) events)

-- The first transition of the device after `t`.
abbrev pub close_at : ℕ → ℕ → List Event → Option ℕ
close_at device_id t events = first_from device_id (t + 1) events

-- A span that an earlier hour left open ends at the first transition after it.
abbrev pub close_span : Bucket → List Event → SessionSpan → SessionSpan
close_span b events s =
    if (s.device_id == b.device_id) && not (is_some s.ended_at) && ltb s.started_at b.hour
    then record s { ended_at = close_at s.device_id s.started_at events }
    else s

-- Rows that neither schema reads.
unfoldable pub unprojectable_of : List Event → List Event → ℕ
unprojectable_of rows transitions =
    length (filter (λ e. is_usage e && not (is_some e.payload.usage)) rows)
    + length (filter (λ e. not (is_some e.payload.session)) transitions)

module _ (summarise : String → Payload → String) (collate : String → String → Bool) where
  -- `ORDER BY boot_id, seq, ts`.
  abbrev pub by_seq : Event → Event → Bool
  by_seq a b =
      let lt = pos_part a.seq + neg_part b.seq in
      let gt = pos_part b.seq + neg_part a.seq in
      if str_eq a.boot_id b.boot_id
      then (ltb lt gt || ((lt == gt) && leb a.ts b.ts))
      else collate a.boot_id b.boot_id

  unfoldable pub bucket_rows : Bucket → List Event → List Event
  bucket_rows b events =
      sort by_seq (filter (λ e. (e.device_id == b.device_id) && in_hour b e.ts) events)

  abbrev pub event_write : ProjectedDevice → Bucket → Event → String → LogWrite
  event_write d b e kind = record {
    row = record {
      device_id = b.device_id;
      child_id = d.child_id;
      household_id = d.household_id;
      event_id = e.event_id;
      kind = kind;
      occurred_at = e.ts;
      policy_version = e.payload.policy_version;
      summary = summarise kind e.payload;
      detail = as_sent e.payload;
    };
    sets_kind = true;
  }

  unfoldable pub writes_of : ProjectedDevice → Bucket → List Event → List LogWrite
  writes_of d b [] = []
  writes_of d b (e ∷ es) = elim (kind_of e.type) [
    | none ↦ writes_of d b es
    | some kind ↦ event_write d b e kind ∷ writes_of d b es
  ]

  unfoldable pub recompute_for : ProjectedDevice → Bucket → Store → Store × Tally
  recompute_for d b db =
      let rows = bucket_rows b db.events in
      let transitions = sort by_ts (filter is_session rows) in
      let bundles = per_bundle rows [] in
      let spans = spans_of d b (first_from b.device_id (b.hour + hour_ms) db.events) transitions in
      let writes = writes_of d b rows in
      let unlocks = unlocks_of d b (state_before b.device_id db.events transitions) transitions in
      (
        record db {
          usage_hourly =
              filter (λ u. not ((u.device_id == b.device_id) && (u.bucket_start == b.hour)))
                db.usage_hourly
              ++ map (usage_row d b) bundles;
          enforcement_log = write_rows (writes ++ unlocks) db.enforcement_log;
          session_spans = map (close_span b db.events) (
              write_spans spans (
                filter (λ s. not ((s.device_id == b.device_id) && in_hour b s.started_at))
                  db.session_spans));
        },
        record {
          usage_rows = length bundles;
          enforcement_rows = length (writes ++ unlocks);
          session_spans = length spans;
          unprojectable = unprojectable_of rows transitions;
        },
      )

  unfoldable pub recompute_bucket : Bucket → Store → Store × Tally
  recompute_bucket b db = elim (find (λ d. d.id == b.device_id) db.devices) [
    | none ↦ (db, no_tally)
    | some d ↦ recompute_for d b db
  ]

  unfoldable pub project_events : Option ℕ → Bool → Store → Store × ProjectionResult
  project_events since advance db = pass recompute_bucket batch_limit since advance db
