-- ===== src/Sync.antt =====
-- apps/api/src/routes/sync.ts, apps/api/src/lib/tripwires.ts and apps/api/src/lib/capabilities.ts:
-- the tick of an agent, and what the server records and answers.
-- `Date.now()` and the database's `now()` are one argument, in milliseconds. The uptime, a float of
-- seconds in the code, is kept as the nanoseconds that the agent sends, so that nothing is rounded.
-- A request that the contract's schema refuses is `none`.
mod Data
pub mod Poll
pub mod Health
pub mod Records
pub mod Tick
pub mod Envelope
mod Tests
pub use Data.*
use homeparentcontrol.Prelude.{
  ℕ, zero, suc, ◌+◌, ◌-◌, ◌*◌, ◌/◌, ◌≤◌, ◌<◌, String, Bool, true, false, ◌&&◌, ◌||◌, not, List, [],
  ◌∷◌, ◌++◌, Option, none, some, map, ltb, leb, ◌==◌, str_eq, if◌then◌else◌, get_or, is_some, any,
  filter, find, min, max,
}
use homeparentcontrol.Prelude.Int.{ℤ, abs, distance}
use homeparentcontrol.Prelude.Query.{latest_by}

abbrev pub clock_skew_limit_ms : ℕ
clock_skew_limit_ms = 60000

abbrev pub min_poll_ms : ℕ
min_poll_ms = 1000

abbrev pub max_poll_ms : ℕ
max_poll_ms = 300000

abbrev pub attended_interval_ms : ℕ
attended_interval_ms = 5000

abbrev pub second_ns : ℕ
second_ns = 1000000000

abbrev pub reboot_slack_ns : ℕ
reboot_slack_ns = 5 * second_ns

abbrev pub gap_min_ns : ℕ
gap_min_ns = 600 * second_ns

abbrev pub asleep_min_ns : ℕ
asleep_min_ns = 120 * second_ns

abbrev pub eval_failures_limit : ℕ
eval_failures_limit = 3

abbrev pub enforcer_heartbeat_limit_s : ℕ
enforcer_heartbeat_limit_s = 180

-- `value === false`, and `value === true`, on a field that may be missing.
abbrev pub is_false : Option Bool → Bool
is_false none = false
is_false (some b) = not b

abbrev pub is_true : Option Bool → Bool
is_true none = false
is_true (some b) = b

abbrev pub is_truthy : Option String → Bool
is_truthy none = false
is_truthy (some s) = not (str_eq s "")

-- What the agent reports as impaired: the gravest reason wins.
unfoldable pub self_reported_reason : SyncRequest → Option String
self_reported_reason b =
    if b.kill_switch
    then some "kill_switch_present"
    else if is_false b.signature_valid
    then some "signature_invalid"
    else if is_true b.using_lkg
    then some "policy_corrupt"
    else if not (is_some b.etag) && not (is_some b.policy_version) && not (is_truthy b.source)
    then some "policy_missing"
    else if leb eval_failures_limit (get_or b.consecutive_eval_failures 0)
    then some "enforcement_failed"
    else if ltb enforcer_heartbeat_limit_s b.enforcer_health_age_s
    then some "enforcer_heartbeat_missing"
    else if not b.using_network_time || ltb clock_skew_limit_ms (abs b.skew_estimate_ms)
    then some "clock_untrusted"
    else none

unfoldable pub clamp_poll : ℕ → ℕ
clamp_poll ms = min max_poll_ms (max min_poll_ms ms)

pub data Cadence : Type 0 where
  base boundary attended : Cadence

-- The intervals of a policy set, in milliseconds.
pub record Intervals : Type 0 where
  pub base_ms : ℕ
  pub boundary_ms : ℕ
  pub lead_ms : ℕ

unfoldable pub intervals_of : Option ℕ → List PolicySet → Intervals
intervals_of set sets = elim set [
  | none ↦ record { base_ms = 60000; boundary_ms = 15000; lead_ms = 900000 }
  | some id ↦ elim (find (λ s. s.id == id) sets) [
    | none ↦ record { base_ms = 60000; boundary_ms = 15000; lead_ms = 900000 }
    | some s ↦ record {
      base_ms = s.poll_base_interval_s * 1000;
      boundary_ms = s.poll_boundary_interval_s * 1000;
      lead_ms = s.poll_boundary_lead_s * 1000;
    }
  ]
]

abbrev pub is_after : Option ℕ → ℕ → Bool
is_after none now = false
is_after (some t) now = ltb now t

-- The boundary lies ahead, no further than the lead.
abbrev pub is_near : Option ℕ → ℕ → ℕ → Bool
is_near none now lead = false
is_near (some t) now lead = ltb now t && leb (t - now) lead

unfoldable pub next_poll : SyncRequest → SyncDevice → List PolicySet → ℕ → ℕ × Cadence
unfolding clamp_poll
next_poll b d sets now =
    let i = intervals_of d.policy_set_id sets in
    if is_after d.attended_until now
    then (clamp_poll attended_interval_ms, attended)
    else if is_near b.next_boundary_at now i.lead_ms
    then (clamp_poll i.boundary_ms, boundary)
    else (clamp_poll i.base_ms, base)

-- Uptime only falls across a reboot.
abbrev pub has_rebooted : SyncRequest → Option ℕ → Bool
has_rebooted b none = false
has_rebooted b (some last) = ltb (b.continuous_ns + reboot_slack_ns) last

unfoldable pub record_power_on : SyncRequest → SyncDevice → List LogRow → List LogRow
record_power_on b d log =
    if has_rebooted b d.last_uptime_ns
    then record {
      device_id = d.id;
      child_id = d.child_id;
      kind = power_on;
      occurred_at = b.system_boot_time;
      to = none;
    }
      ∷ log
    else log

-- The time asleep within a silence of `wall` nanoseconds, the uptime having gone from `last` to `up`.
abbrev pub asleep_ns : ℕ → ℕ → ℕ → ℕ
asleep_ns wall up last = wall - (up - last)

-- The row of a silence that began at `from`.
abbrev pub gap_row : SyncDevice → ℕ → ℕ → ℕ → LogRow
gap_row d from wall slept =
    if leb asleep_min_ns slept
    then record {
      device_id = d.id;
      child_id = d.child_id;
      kind = asleep;
      occurred_at = from;
      to = some (from + slept / 1000000);
    }
    else record {
      device_id = d.id;
      child_id = d.child_id;
      kind = unreported;
      occurred_at = from;
      to = some (from + wall / 1000000);
    }

unfoldable pub record_gap : SyncRequest → SyncDevice → ℕ → List LogRow → List LogRow
record_gap b d now log = elim d.last_sync_at [
  | none ↦ log
  | some from ↦ elim d.last_uptime_ns [
    | none ↦ log
    | some last ↦
        let wall = (now - from) * 1000000 in
        if ltb (b.continuous_ns + reboot_slack_ns) last
        then log
        else if ltb wall gap_min_ns
        then log
        else gap_row d from wall (asleep_ns wall b.continuous_ns last) ∷ log
  ]
]

abbrev pub kind_no : TripwireKind → ℕ
kind_no hardware_uuid_mismatch = 0
kind_no network_time_disabled = 1
kind_no clock_skew = 2
kind_no timezone_mismatch = 3
kind_no signature_invalid = 4
kind_no kill_switch_present = 5
kind_no policy_version_regression = 6
kind_no agent_stopped_while_up = 7
kind_no unexpected_source_ip = 8
kind_no concurrent_boot_ids = 9

abbrev pub kind_eq : TripwireKind → TripwireKind → Bool
kind_eq a b = kind_no a == kind_no b

-- Insert, or on conflict of the device and kind count one more.
unfoldable pub raise_tripwire : ℕ → ℕ → TripwireKind → List Tripwire → List Tripwire
raise_tripwire now device_id kind [] =
    record {
      device_id = device_id;
      kind = kind;
      occurrences = 1;
      first_seen_at = now;
      last_seen_at = now;
    }
    ∷ []
raise_tripwire now device_id kind (t ∷ ts) =
    if (t.device_id == device_id) && kind_eq t.kind kind
    then record t { occurrences = t.occurrences + 1; last_seen_at = now } ∷ ts
    else t ∷ raise_tripwire now device_id kind ts

abbrev pub kind_if : Bool → TripwireKind → List TripwireKind
kind_if b k = if b then k ∷ [] else []

abbrev pub differs : Option String → String → Bool
differs none s = false
differs (some k) s = not (str_eq k "") && not (str_eq k s)

abbrev pub regressed : Option ℕ → Option ℕ → Bool
regressed none was = false
regressed (some v) none = false
regressed (some v) (some was) = ltb v was

abbrev pub same_time : Option ℕ → ℕ → Bool
same_time none t = false
same_time (some s) t = s == t

-- The tripwires that a request sets off, in the order in which they are raised.
unfoldable pub tripped : SyncRequest → SyncDevice → ℕ → List TripwireKind
tripped b d now =
    kind_if (differs d.hardware_uuid b.hardware_uuid) hardware_uuid_mismatch
    ++ (kind_if (not b.using_network_time) network_time_disabled
        ++ (kind_if (ltb clock_skew_limit_ms (distance b.local_utc now)) clock_skew
            ++ (kind_if (not (str_eq b.system_timezone b.policy_timezone)) timezone_mismatch
                ++ (kind_if (is_false b.signature_valid) signature_invalid
                    ++ (kind_if b.kill_switch kill_switch_present
                        ++ (kind_if (regressed b.policy_version d.applied_policy_version)
                              policy_version_regression
                            ++ kind_if
                                (b.clean_exit_previous_run
                                  && same_time d.system_boot_time b.system_boot_time)
                                agent_stopped_while_up))))))

unfoldable pub raise_all : ℕ → ℕ → List TripwireKind → List Tripwire → List Tripwire
raise_all now device_id [] ts = ts
raise_all now device_id (k ∷ ks) ts = raise_all now device_id ks (raise_tripwire now device_id k ts)

-- A report of `unsupported` is terminal; any other claim is ignored.
abbrev pub mark_unsupported : ℕ → ℕ × String → DesiredItem → DesiredItem
mark_unsupported device_id (id, status) i =
    if str_eq status "unsupported" && ((i.id == id) && (i.device_id == device_id))
    then record i { status = item_unsupported }
    else i

abbrev pub is_pending : ItemStatus → Bool
is_pending item_pending = true
is_pending _ = false

abbrev pub is_version : Option String → String → Bool
is_version none v = false
is_version (some s) v = str_eq s v

-- The server's own observation.
abbrev pub observe : SyncRequest → ℕ → DesiredItem → DesiredItem
observe b device_id i =
    if (i.device_id == device_id)
      && str_eq i.kind "agent_version"
      && is_pending i.status
      && is_version i.spec_version b.agent_version
    then record i { status = item_converged }
    else i

unfoldable pub apply_reports : ℕ → List (ℕ × String) → List DesiredItem → List DesiredItem
apply_reports device_id [] items = items
apply_reports device_id (r ∷ rs) items =
    apply_reports device_id rs (map (mark_unsupported device_id r) items)

unfoldable pub apply_convergence : SyncRequest → ℕ → List DesiredItem → List DesiredItem
unfolding apply_reports
apply_convergence b device_id items =
    map (observe b device_id) (apply_reports device_id b.converged items)

unfoldable pub pending_desired : ℕ → List DesiredItem → List DesiredItem
pending_desired device_id items =
    filter (λ i. (i.device_id == device_id) && is_pending i.status) items

pub data PolicyEnvelope : Type 0 where
  no_policy : PolicyEnvelope
  unchanged : String → ℕ → PolicyEnvelope
  signed : String → ℕ → String → PolicyEnvelope
  unsigned : String → ℕ → String → PolicyEnvelope

abbrev pub is_in_force : ℕ → ℕ → VersionRow → Bool
is_in_force device_id now r = (r.device_id == device_id) && leb r.not_before now

abbrev pub same_etag : Option String → String → Bool
same_etag none e = false
same_etag (some r) e = not (str_eq r "") && str_eq r e

unfoldable pub policy_envelope : ℕ → Option String → ℕ → List VersionRow → PolicyEnvelope
policy_envelope device_id reported now rows =
    elim (latest_by (is_in_force device_id now) (λ r. r.version) rows) [
      | none ↦ no_policy
      | some r ↦
          if same_etag reported r.etag
          then unchanged r.etag r.version
          else if is_truthy r.jws
          then signed r.etag r.version (get_or r.jws "")
          else unsigned r.etag r.version r.document
    ]

abbrev pub is_enrolled : DeviceStatus → Bool
is_enrolled enrolled = true
is_enrolled _ = false

-- The update of the device's row: observations only.
unfoldable pub observe_device : SyncRequest → ℕ → SyncDevice → SyncDevice
observe_device b now d = record d {
  last_sync_at = some now;
  last_tick_seq = b.tick_seq;
  last_boot_id = b.boot_id;
  system_boot_time = some b.system_boot_time;
  last_uptime_ns = some b.continuous_ns;
  agent_version = b.agent_version;
  os_version = b.os_version;
  arch = b.arch;
  applied_policy_version = b.policy_version;
  self_reported_reason = self_reported_reason b;
  status = if is_enrolled d.status then active else d.status;
}

pub data Problem : Type 0 where
  malformed scope_violation : Problem

pub record SyncResponse : Type 0 where
  pub server_time : ℕ
  pub device_status : DeviceStatus
  pub policy : PolicyEnvelope
  pub desired : List DesiredItem
  pub next_poll_after_ms : ℕ
  pub server_capabilities : List String

pub data Answer : Type 0 where
  ok : SyncResponse → Answer
  refused : Problem → Answer

-- What the server can do; a signature only if a signing key is configured.
unfoldable pub server_capabilities_of : Bool → List String
server_capabilities_of has_key =
    "policy.v1"
    ∷ "policy.overrides"
    ∷ ((if has_key then "policy.signature.ed25519" ∷ [] else []) ++ ("desired.agent_version" ∷ []))

unfoldable pub negotiate : Bool → List String → List String
negotiate has_key advertised =
    filter (λ c. any (str_eq c) advertised) (server_capabilities_of has_key)

-- What the handler writes for a request of a known device.
unfoldable pub record_tick : SyncRequest → SyncDevice → ℕ → SyncDb → SyncDb
record_tick b d now db = record db {
  tripwires = raise_all now d.id (tripped b d now) db.tripwires;
  log = record_gap b d now (record_power_on b d db.log);
  items = apply_convergence b d.id db.items;
  devices = map (λ x. if x.id == d.id then observe_device b now x else x) db.devices;
}

module _ (has_key : Bool) where
  unfoldable pub answer_tick : SyncRequest → SyncDevice → ℕ → SyncDb → SyncResponse
  answer_tick b d now db = record {
    server_time = now;
    device_status = if is_enrolled d.status then active else d.status;
    policy = policy_envelope d.id b.etag now db.versions;
    desired = pending_desired d.id db.items;
    next_poll_after_ms = (next_poll b d db.sets now).0;
    server_capabilities = negotiate has_key b.capabilities;
  }

  -- `device_id` is that of the credential which authenticated the request.
  unfoldable pub handle_sync : ℕ → Option SyncRequest → ℕ → SyncDb → SyncDb × Answer
  handle_sync device_id request now db = elim request [
    | none ↦ (db, refused malformed)
    | some b ↦
        if not (b.device_id == device_id)
        then (db, refused scope_violation)
        else elim (find (λ d. d.id == device_id) db.devices) [
          | none ↦ (db, refused scope_violation)
          | some d ↦ let after = record_tick b d now db in (after, ok (answer_tick b d now after))
        ]
  ]
