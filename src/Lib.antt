-- ===== src/Lib.antt =====
-- The verification library of homeparentcontrol's control plane: the server that compiles each
-- Mac's bedtime policy, answers its ticks, judges whether it is alive, and tells the
-- parent what happened; it sets up the Macs and takes in their telemetry.
--
-- The parts, and the files that model them (paths from the repository's root):
--   * Calendar.antt: apps/api/src/policy/zoned-time.ts. Dates are records, counted in days from
--     1970-01-01; an instant is a number of milliseconds. The time zone database behind `Intl` is
--     the parameter `tz`, the offset in force at an instant. A date before 1970 is out of range.
--   * Restriction.antt: apps/api/src/lib/restriction.ts. `restriction_at` is `restrictionAt`, its
--     two nested loops as `visit_windows` and `visit_days`, with every `continue` as a branch.
--   * Liveness.antt: apps/api/src/jobs/liveness.ts. `evaluate_liveness` is a sweep over the table
--     of devices that threads the tables it writes; `decide`, `transition`, `maybe_notify` and
--     `reclassify_if_machine_was_off` are the functions of the same names.
--   * Policy.antt and Policy/Synthesise, Policy/Canonical, Policy/Document:
--     apps/api/src/policy/types.ts, compile.ts and canonical.ts. `compile_policy` is
--     `compilePolicy` without its last step, the check against the contract's schema.
--     `localeCompare` and the digest behind the ids are parameters.
--   * Policy/Publish.antt and Policy/Publish/Recompile.antt: apps/api/src/policy/publish.ts and
--     apps/api/src/jobs/recompile.ts. Gathering, the schema's check, the hash of a document and
--     signing are parameters; an exception is the result `failed`, and leaves the tables alone.
--   * Sync.antt, its tables and its request in Sync/Data: apps/api/src/routes/sync.ts,
--     packages/contract/src/sync.ts, apps/api/src/db/schema.ts, apps/api/src/lib/tripwires.ts and
--     apps/api/src/lib/capabilities.ts. `handle_sync` is the whole handler, from the parsed request
--     and the tables to the tables and the answer.
--   * Projection.antt, Projection/Buckets, Projection/Daily: apps/api/src/jobs/project.ts, with the
--     kinds and samples of packages/contract/src/telemetry.ts. `pass` is `projectEvents` for a given
--     recomputation of a bucket, `recompute_bucket` is `recomputeBucket`, and `roll_up_daily` is
--     `rollUpDaily`. `summarise`, the wording of a log line, and `collate`, the database's order of
--     boot ids, are parameters. The measures of a sample are whole thousandths; a time of receipt,
--     which the code carries as text, is in microseconds.
--   * History.antt, History/Story, History/Device, History/Timeline and History/Bedtime:
--     apps/api/src/lib/history.ts. The variables of `presentDevice` are the record `Story`, and each
--     branch of its loop is a function on it; `bedtime_use` is `bedtimeUse`. A line stands for its
--     wording: its constructor is the text. The offset of a clock is in whole seconds.
--   * Reports.antt: apps/api/src/lib/report-query.ts. `fold` is `fold`, and `buckets_of` and
--     `totals_of` are the buckets and the totals of `reportQuery`, from the rows that it reads. The
--     order of texts and the time that a bucket's text stands for are parameters.
--   * Scheduler.antt: apps/api/src/lib/scheduler.ts. The two tables of the module, with the runs that
--     are under way, and a step relation: `Step` is a start, a tick, the end of a run or a stop.
--   * Access.antt: a device's identity and credential. Access/Codes: apps/api/src/lib/enrolment-codes.ts;
--     Access/Keys: apps/api/src/lib/device-keys.ts; Access/Problems: apps/api/src/lib/problem.ts and
--     packages/contract/src/problem.ts; Access/Enrol: apps/api/src/routes/enroll.ts, `enroll` the whole
--     handler; Access/Rotation: apps/api/src/routes/credential.ts; Access/Resolver:
--     apps/api/src/routes/agent.ts; Access/Setup and Access/Ending: the routes of
--     apps/api/src/routes/parent-setup.ts and apps/api/src/routes/parent-devices.ts that write devices
--     and codes. Access/Lifecycle/Observing: what a tick (apps/api/src/routes/sync.ts) writes of those
--     columns, and the writes that spare them. Access/Lifecycle/Steps is the step relation of all of
--     these. The plugin that creates keys is the parameter `create`, the publication of a policy
--     `publish`, the digest of a code `hash`, and the capitals of a character `upper`. A transaction
--     that throws is the result `rolled_back`, with what was written outside of it.
--   * Ingest.antt: apps/api/src/routes/events.ts and packages/contract/src/events.ts. `handle_events` is
--     the whole handler, on what the schema reads in each field of an event.
--   * Grants.antt: apps/api/src/routes/parent-overrides.ts. `grant_override` and `revoke_override` are
--     the handlers that write. The hour that `Intl` prints is the parameter `printed_hour`.
--
-- How they meet: the compiler's document is what publication stores, what a tick is answered with,
-- and what `restriction_at` reads back; a tick writes the columns that the liveness sweep judges by.
-- The projector writes the log and the spans that the history presents, and the history judges them
-- by `restriction_at` on the document in force (`lookup_in`). The events that a batch stores are those
-- that the projector reads. A device that the resolver refuses never reaches a handler.
--
-- A table is a list of rows, newest first where rows are inserted; a unique key is an update in
-- place. `ORDER BY … DESC LIMIT 1` is `latest_by` (Prelude/Query). Numbers are natural numbers where
-- the code has whole numbers that are not negative, and integers elsewhere. Uptime is kept in
-- nanoseconds. Two clock readings within one request are one reading.
--
-- The loops that find a date from a day number run on fuel, one more than the day number, which is
-- enough as every year that is skipped takes a day at least. The probes of a gap and of an unlocked
-- stretch run on fuel, one more than the number of whole steps within it, which is enough as every
-- probe takes a step.
--
-- Not modelled: logging, the opaque detail of a log row that a tick writes, the wording of log lines,
-- the queries that gather the rows of the history and of a report, the wait for runs at shutdown,
-- the authentication of a session, the parent's other routes, the web application, and the agent,
-- which is written in Swift.
pub mod Prelude
pub mod Calendar
pub mod Restriction
pub mod Liveness
pub mod Policy
pub mod Sync
pub mod Projection
pub mod History
pub mod Reports
pub mod Scheduler
pub mod Access
pub mod Ingest
pub mod Grants
