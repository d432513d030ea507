-- ===== src/Access.antt =====
-- The tables that a device's identity and credential stand in (apps/api/src/db/schema.ts), and the
-- answers of the agent's routes. An id is a number. The metadata of a key is its device and household.
pub mod Problems
pub mod Codes
pub mod Keys
pub mod Enrol
pub mod Ending
pub mod Setup
pub mod Rotation
pub mod Resolver
pub mod Lifecycle
mod Tests
use homeparentcontrol.Prelude.{
  ℕ, String, Bool, true, false, ◌&&◌, ◌||◌, not, List, [], ◌∷◌, Option, none, some, map, ◌==◌,
  if◌then◌else◌, filter,
}
use homeparentcontrol.Policy.{Text}
use homeparentcontrol.Policy.Publish.{Tables}
use homeparentcontrol.Sync.{Tripwire}

-- The administrative states of a device.
pub data DeviceStatus : Type 0 where
  pending enrolled active revoked decommissioned : DeviceStatus

pub record AccessDevice : Type 0 where
  pub id : ℕ
  pub household_id : ℕ
  pub child_id : ℕ
  pub policy_set_id : Option ℕ
  pub label : String
  pub status : DeviceStatus
  pub hardware_uuid : Option String
  pub api_key_id : Option ℕ
  pub previous_api_key_id : Option ℕ
  pub previous_expires_at : Option ℕ
  pub hostname : Option String
  pub model : Option String
  pub os_version : Option String
  pub arch : Option String
  pub agent_version : Option String

-- A row of `children` and one of `policy_sets`: what the pages of a parent read of them.
pub record AccessChild : Type 0 where
  pub id : ℕ
  pub household_id : ℕ
  pub archived_at : Option ℕ

pub record ChildSet : Type 0 where
  pub id : ℕ
  pub child_id : ℕ
  pub household_id : ℕ

-- A row of `desired_items`: what it is for is left out.
pub record DesiredRow : Type 0 where
  pub id : ℕ
  pub device_id : ℕ

pub record Household : Type 0 where
  pub id : ℕ
  pub service_user_id : Option ℕ

-- A row of `apikeys`: the columns that are written and read.
pub record ApiKey : Type 0 where
  pub id : ℕ
  pub user_id : ℕ
  pub enabled : Bool
  pub rate_limit_enabled : Bool
  pub last_request : Option ℕ
  pub expires_at : Option ℕ
  pub permissions : Option (List String)
  pub device_id : ℕ
  pub household_id : ℕ

-- A row of `enrollments`.
pub record Enrolment : Type 0 where
  pub id : ℕ
  pub device_id : ℕ
  pub code_hash : Text
  pub expires_at : ℕ
  pub consumed_at : Option ℕ
  pub consumed_ip : Option String
  pub consumed_hardware_uuid : Option String
  pub reissue_count : ℕ
  pub attempts : ℕ

pub record AccessDb : Type 0 where
  pub enrollments : List Enrolment
  pub devices : List AccessDevice
  pub households : List Household
  pub children : List AccessChild
  pub child_sets : List ChildSet
  pub desired : List DesiredRow
  pub keys : List ApiKey
  pub tripwires : List Tripwire
  pub tables : Tables

abbrev pub is_pending : DeviceStatus → Bool
is_pending pending = true
is_pending enrolled = false
is_pending active = false
is_pending revoked = false
is_pending decommissioned = false

abbrev pub is_decommissioned : DeviceStatus → Bool
is_decommissioned decommissioned = true
is_decommissioned pending = false
is_decommissioned enrolled = false
is_decommissioned active = false
is_decommissioned revoked = false

-- The answer of a parent's route: a value, a failure with its status, or an error.
pub data ParentAnswer (A : Type 0) : Type 0 where
  done : A → ParentAnswer A
  fail : ℕ → ParentAnswer A
  crashed : ParentAnswer A

-- `ON DELETE SET NULL` of the columns that refer to a key.
abbrev pub clear_key : ℕ → Option ℕ → Option ℕ
clear_key id none = none
clear_key id (some k) = if k == id then none else some k

abbrev pub forget_key : ℕ → AccessDevice → AccessDevice
forget_key id d = record d {
  api_key_id = clear_key id d.api_key_id;
  previous_api_key_id = clear_key id d.previous_api_key_id;
}
