-- ===== src/Access/Rotation.antt =====
-- apps/api/src/routes/credential.ts: a device exchanges its credential, and the old one stays valid for
-- a day. `create` is the plugin that creates keys. The key is minted before the transaction.
pub mod Overlap
pub mod Closing
use homeparentcontrol.Prelude.{
  ℕ, ◌+◌, String, Bool, false, ◌&&◌, List, [], ◌∷◌, Option, none, some, map, ltb, ◌==◌,
  if◌then◌else◌, filter, find, is_some, length,
}
use homeparentcontrol.Access.{AccessDevice, ApiKey, AccessDb}
use homeparentcontrol.Access.Problems.{
  problem, unexpected, by_status, chosen, backoff, Answer, answered, refused, scope_violation,
  rotation_in_progress,
}
use homeparentcontrol.Access.Keys.{CreateApiKey, MintedDeviceKey, mint_device_key}
use homeparentcontrol.Access.Ending.{disable_key}

abbrev pub overlap_ms : ℕ
overlap_ms = 86400000

abbrev pub rotate_after_ms : ℕ
rotate_after_ms = 7776000000

pub record RotationResponse : Type 0 where
  pub token : String
  pub key_id : ℕ
  pub issued_at : ℕ
  pub rotate_after : ℕ
  pub previous_credential_valid_until : ℕ

abbrev pub set_expiry : ℕ → ℕ → ApiKey → ApiKey
set_expiry id at k = if k.id == id then record k { expires_at = some at } else k

abbrev pub rotate_row : ℕ → ℕ → ℕ → ℕ → AccessDevice → AccessDevice
rotate_row device_id key_id previous_id at d =
    if d.id == device_id
    then record d {
      api_key_id = some key_id;
      previous_api_key_id = some previous_id;
      previous_expires_at = some at;
    }
    else d

-- Whether an overlap has not ended.
abbrev pub is_after : Option ℕ → ℕ → Bool
is_after none now = false
is_after (some at) now = ltb now at

abbrev pub is_overlapping : ℕ → AccessDevice → Bool
is_overlapping now d = is_some d.previous_api_key_id && is_after d.previous_expires_at now

module _ (create : CreateApiKey) (now : ℕ) where
  abbrev pub rotate_minted :
      ℕ → ℕ → Option (MintedDeviceKey × List ApiKey) → AccessDb → AccessDb × Answer RotationResponse
  rotate_minted device_id previous_id none db = (db, refused unexpected)
  rotate_minted device_id previous_id (some (m, keys)) db = (
    record db {
      keys = map (set_expiry previous_id (now + overlap_ms)) keys;
      devices = map (rotate_row device_id m.key_id previous_id (now + overlap_ms)) db.devices;
    },
    answered (record {
      token = m.token;
      key_id = m.key_id;
      issued_at = now;
      rotate_after = now + rotate_after_ms;
      previous_credential_valid_until = now + overlap_ms;
    }),
  )

  abbrev pub rotate_key :
      ℕ → ℕ → AccessDevice → Option ℕ → AccessDb → AccessDb × Answer RotationResponse
  rotate_key household_id user_id d none db = (db, refused (problem scope_violation by_status))
  rotate_key household_id user_id d (some previous_id) db =
      if is_overlapping now d
      then (db, refused (problem rotation_in_progress (chosen (some backoff))))
      else rotate_minted d.id previous_id
          (mint_device_key create user_id d.id household_id d.label db.keys) db

  abbrev pub rotate_device :
      ℕ → ℕ → Option AccessDevice → AccessDb → AccessDb × Answer RotationResponse
  rotate_device household_id user_id none db = (db, refused (problem scope_violation by_status))
  rotate_device household_id user_id (some d) db = rotate_key household_id user_id d d.api_key_id db

  -- handleCredentialRotate, for the device that the credential was resolved to.
  unfoldable pub rotate : ℕ → ℕ → ℕ → Bool → AccessDb → AccessDb × Answer RotationResponse
  rotate device_id household_id user_id is_service db =
      if is_service
      then rotate_device household_id user_id (find (λ d. d.id == device_id) db.devices) db
      else (db, refused (problem scope_violation by_status))

abbrev pub is_before : Option ℕ → ℕ → Bool
is_before none now = false
is_before (some at) now = ltb at now

abbrev pub is_stale : ℕ → AccessDevice → Bool
is_stale now d = is_some d.previous_api_key_id && is_before d.previous_expires_at now

abbrev pub close_row : ℕ → AccessDevice → AccessDevice
close_row id d =
    if d.id == id then record d { previous_api_key_id = none; previous_expires_at = none } else d

unfoldable pub close_rows : List AccessDevice → AccessDb → AccessDb
close_rows [] db = db
close_rows (row ∷ rows) db = close_rows rows (record db {
  keys = map (disable_key row.previous_api_key_id) db.keys;
  devices = map (close_row row.id) db.devices;
})

-- closeExpiredRotations, with how many it closed.
unfoldable pub close_expired_rotations : ℕ → AccessDb → AccessDb × ℕ
close_expired_rotations now db =
    let stale = filter (is_stale now) db.devices in (close_rows stale db, length stale)
