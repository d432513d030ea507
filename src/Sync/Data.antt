-- ===== src/Sync/Data.antt =====
-- apps/api/src/routes/sync.ts: the request of a tick, and the rows of the tables that it touches
-- (packages/contract/src/sync.ts and apps/api/src/db/schema.ts).
use homeparentcontrol.Prelude.{ℕ, String, Bool, List, Option}
use homeparentcontrol.Prelude.Int.{ℤ}

-- The fields of the request that the handler reads.
pub record SyncRequest : Type 0 where
  pub device_id : ℕ
  pub boot_id : String
  pub hardware_uuid : String
  pub agent_version : String
  pub os_version : String
  pub arch : String
  pub system_boot_time : ℕ
  pub tick_seq : ℕ
  pub clean_exit_previous_run : Bool
  pub kill_switch : Bool
  pub enforcer_health_age_s : ℕ
  pub capabilities : List String
  pub local_utc : ℕ
  pub system_timezone : String
  pub policy_timezone : String
  pub using_network_time : Bool
  pub continuous_ns : ℕ
  pub skew_estimate_ms : ℤ
  pub etag : Option String
  pub policy_version : Option ℕ
  pub source : Option String
  pub signature_valid : Option Bool
  pub using_lkg : Option Bool
  pub next_boundary_at : Option ℕ
  pub consecutive_eval_failures : Option ℕ
  pub converged : List (ℕ × String)

pub data DeviceStatus : Type 0 where
  enrolled active other_status : DeviceStatus

pub record SyncDevice : Type 0 where
  pub id : ℕ
  pub child_id : ℕ
  pub status : DeviceStatus
  pub policy_set_id : Option ℕ
  pub hardware_uuid : Option String
  pub system_boot_time : Option ℕ
  pub applied_policy_version : Option ℕ
  pub attended_until : Option ℕ
  pub last_uptime_ns : Option ℕ
  pub last_sync_at : Option ℕ
  pub last_tick_seq : ℕ
  pub last_boot_id : String
  pub agent_version : String
  pub os_version : String
  pub arch : String
  pub self_reported_reason : Option String

-- A row that the server itself writes to enforcement_log.
pub data LogKind : Type 0 where
  power_on asleep unreported : LogKind

pub record LogRow : Type 0 where
  pub device_id : ℕ
  pub child_id : ℕ
  pub kind : LogKind
  pub occurred_at : ℕ
  pub to : Option ℕ

pub data TripwireKind : Type 0 where
  hardware_uuid_mismatch network_time_disabled clock_skew timezone_mismatch signature_invalid
        kill_switch_present policy_version_regression agent_stopped_while_up unexpected_source_ip
        concurrent_boot_ids :
      TripwireKind

pub record Tripwire : Type 0 where
  pub device_id : ℕ
  pub kind : TripwireKind
  pub occurrences : ℕ
  pub first_seen_at : ℕ
  pub last_seen_at : ℕ

pub data ItemStatus : Type 0 where
  item_pending item_converged item_unsupported : ItemStatus

pub record DesiredItem : Type 0 where
  pub id : ℕ
  pub device_id : ℕ
  pub kind : String
  pub spec_version : Option String
  pub status : ItemStatus

pub record PolicySet : Type 0 where
  pub id : ℕ
  pub poll_base_interval_s : ℕ
  pub poll_boundary_interval_s : ℕ
  pub poll_boundary_lead_s : ℕ

pub record VersionRow : Type 0 where
  pub device_id : ℕ
  pub version : ℕ
  pub etag : String
  pub not_before : ℕ
  pub jws : Option String
  pub document : String

pub record SyncDb : Type 0 where
  pub devices : List SyncDevice
  pub log : List LogRow
  pub tripwires : List Tripwire
  pub items : List DesiredItem
  pub sets : List PolicySet
  pub versions : List VersionRow
