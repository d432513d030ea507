-- ===== src/Sync/Tests.antt =====
-- apps/api/src/routes/sync.ts: runs on a device that comes back after an hour.
use homeparentcontrol.Prelude.{◌≡◌, ◌≤◌, ◌+◌, [], ◌∷◌, none, some, true, false, ◌⊎◌, map, All}
use mathlib.Core.List.{Memᴰ}
use homeparentcontrol.Prelude.Int.{pos}
use homeparentcontrol.Sync.{
  SyncRequest, SyncDevice, SyncDb, active, VersionRow, DesiredItem, item_pending,
  kill_switch_present, power_on, LogRow, no_policy, policy_envelope, is_in_force, record_gap,
  record_power_on, has_rebooted, next_poll, is_after, raise_all, tripped, apply_convergence,
  handle_sync,
}
use homeparentcontrol.Sync.Records.{IsGap, HasNoGap, record_tick_log}
use homeparentcontrol.Sync.Poll.{next_poll_bounds}
use homeparentcontrol.Sync.Envelope.{Conveys, policy_envelope_greatest}
use homeparentcontrol.Sync.Tick.{
  occurrences_of, one_if, is_tripped, settled, IsSameFor, tripwires_once, apply_convergence_once,
  handle_sync_others,
}

abbrev one_tick : SyncRequest
one_tick = record {
  device_id = 1;
  boot_id = "b1";
  hardware_uuid = "h1";
  agent_version = "1.2.0";
  os_version = "15.0";
  arch = "arm64";
  system_boot_time = 1000000;
  tick_seq = 7;
  clean_exit_previous_run = false;
  kill_switch = true;
  enforcer_health_age_s = 30;
  capabilities = "policy.v1" ∷ [];
  local_utc = 9000000;
  system_timezone = "UTC";
  policy_timezone = "UTC";
  using_network_time = true;
  continuous_ns = 5000000000000;
  skew_estimate_ms = pos 0;
  etag = some "e1";
  policy_version = some 1;
  source = none;
  signature_valid = some true;
  using_lkg = none;
  next_boundary_at = none;
  consecutive_eval_failures = none;
  converged = (3, "unsupported") ∷ [];
}

abbrev mac : SyncDevice
mac = record {
  id = 1;
  child_id = 1;
  status = active;
  policy_set_id = none;
  hardware_uuid = some "h1";
  system_boot_time = some 1000000;
  applied_policy_version = some 1;
  attended_until = none;
  last_uptime_ns = some 4900000000000;
  last_sync_at = some 5400000;
  last_tick_seq = 6;
  last_boot_id = "b1";
  agent_version = "1.1.0";
  os_version = "15.0";
  arch = "arm64";
  self_reported_reason = none;
}

abbrev first_version : VersionRow
first_version = record {
  device_id = 1;
  version = 1;
  etag = "e1";
  not_before = 0;
  jws = none;
  document = "{}";
}

abbrev upgrade : DesiredItem
upgrade = record {
  id = 3;
  device_id = 1;
  kind = "agent_version";
  spec_version = some "1.2.0";
  status = item_pending;
}

abbrev one_mac : SyncDb
one_mac = record {
  devices = mac ∷ [];
  log = [];
  tripwires = [];
  items = upgrade ∷ [];
  sets = [];
  versions = first_version ∷ [];
}

record_tick_log_example :
    (has_rebooted one_tick mac.last_uptime_ns ≡ true)
      × ((r : LogRow) × (record_gap one_tick mac 9000000 (record_power_on one_tick mac []) ≡ r ∷ [])
          × (r.kind ≡ power_on)
          × (r.occurred_at ≡ one_tick.system_boot_time))
    ⊎ (has_rebooted one_tick mac.last_uptime_ns ≡ false)
      × (HasNoGap mac 9000000
            × (record_gap one_tick mac 9000000 (record_power_on one_tick mac []) ≡ [])
          ⊎ ((r : LogRow) × (record_gap one_tick mac 9000000 (record_power_on one_tick mac [])
                ≡ r ∷ [])
              × IsGap one_tick mac 9000000 r))
record_tick_log_example = record_tick_log one_tick mac 9000000 []

next_poll_bounds_example :
    (1000 ≤ (next_poll one_tick mac [] 9000000).0)
    × ((next_poll one_tick mac [] 9000000).0 ≤ 300000)
    × (is_after mac.attended_until 9000000 ≡ true → (next_poll one_tick mac [] 9000000).0 ≡ 5000)
next_poll_bounds_example = next_poll_bounds one_tick mac [] 9000000

policy_envelope_greatest_example :
    (policy_envelope 1 (some "e1") 9000000 one_mac.versions ≡ no_policy)
      × All (λ r. is_in_force 1 9000000 r ≡ false) one_mac.versions
    ⊎ ((r : VersionRow) × Memᴰ r one_mac.versions
        × (is_in_force 1 9000000 r ≡ true)
        × All (λ x. is_in_force 1 9000000 x ≡ true → x.version ≤ r.version) one_mac.versions
        × Conveys (some "e1") r (policy_envelope 1 (some "e1") 9000000 one_mac.versions))
policy_envelope_greatest_example = policy_envelope_greatest 1 (some "e1") 9000000 one_mac.versions

tripwires_once_example :
    occurrences_of 1 kill_switch_present (raise_all 9000000 1 (tripped one_tick mac 9000000) [])
    ≡ one_if (is_tripped one_tick mac 9000000 kill_switch_present)
      + occurrences_of 1 kill_switch_present []
tripwires_once_example = tripwires_once one_tick mac 9000000 kill_switch_present []

apply_convergence_once_example :
    apply_convergence one_tick 1 one_mac.items ≡ map (settled one_tick 1) one_mac.items
apply_convergence_once_example = apply_convergence_once one_tick 1 one_mac.items

handle_sync_others_example :
    IsSameFor 2 one_mac (handle_sync true 1 (some one_tick) 9000000 one_mac).0
handle_sync_others_example = handle_sync_others true 1 2 (some one_tick) 9000000 one_mac (λ e. cc)
