-- ===== src/Access/Enrol.antt =====
-- apps/api/src/routes/enroll.ts: a one-time code exchanged for a credential. `create` is the plugin
-- that creates keys, `publish` the publication of a device's policy, and `hash` the digest of a code.
-- The schema's check of a body is `parse_body`. A key is minted outside of the transaction: it stays
-- when the transaction rolls back, unless the handler revokes it. The schema's check of the code is
-- left out: `normalise_enrolment_code` gives codes that pass it.
pub mod Leaving
pub mod Errors
pub mod Single
pub mod Once
use homeparentcontrol.Prelude.{
  ℕ, ◌+◌, ◌≤◌, String, Bool, true, false, ◌&&◌, ◌||◌, not, List, [], ◌∷◌, Option, none, some, map,
  leb, ltb, ◌==◌, str_eq, if◌then◌else◌, filter, find, any, is_some,
}
use homeparentcontrol.Policy.{Text}
use homeparentcontrol.Policy.Publish.{Tables, PublishResult, unchanged, published, failed, text_eq}
use homeparentcontrol.Sync.{hardware_uuid_mismatch, raise_tripwire}
use homeparentcontrol.Access.{
  DeviceStatus, pending, enrolled, active, revoked, decommissioned, AccessDevice, Household, ApiKey,
  Enrolment, AccessDb, forget_key,
}
use homeparentcontrol.Access.Problems.{
  ProblemKey, Problem, problem, unexpected, by_status, Answer, answered, refused, enrol_invalid,
  enrol_code_unknown, enrol_code_expired, enrol_code_consumed, device_already_registered,
}
use homeparentcontrol.Access.Codes.{normalise_enrolment_code}
use homeparentcontrol.Access.Keys.{CreateApiKey, MintedDeviceKey, mint_device_key}

pub record IssueBody : Type 0 where
  pub hardware_uuid : String
  pub hostname : Option String
  pub model : Option String
  pub os_version : Option String
  pub arch : Option String
  pub agent_version : Option String

pub record EnrolmentResponse : Type 0 where
  pub device_id : ℕ
  pub token : String
  pub key_id : ℕ
  pub issued_at : ℕ

abbrev pub max_enrolment_attempts : ℕ
max_enrolment_attempts = 5

-- LIVE_STATUSES.
abbrev pub is_live : DeviceStatus → Bool
is_live enrolled = true
is_live active = true
is_live pending = false
is_live revoked = false
is_live decommissioned = false

abbrev pub is_hardware : Option String → String → Bool
is_hardware none uuid = false
is_hardware (some h) uuid = str_eq h uuid

-- Another live registration of the same Mac.
abbrev pub is_holder : ℕ → String → AccessDevice → Bool
is_holder device_id uuid d =
    is_hardware d.hardware_uuid uuid && (not (d.id == device_id) && is_live d.status)

-- The conditional update that claims a code.
abbrev pub is_claimable : ℕ → Text → Enrolment → Bool
is_claimable now h e =
    text_eq e.code_hash h && (not (is_some e.consumed_at) && ltb now e.expires_at)

abbrev pub consume : ℕ → Option String → String → Enrolment → Enrolment
consume now ip uuid e = record e {
  consumed_at = some now;
  consumed_ip = ip;
  consumed_hardware_uuid = some uuid;
}

abbrev pub claim_row : ℕ → Text → Option String → String → Enrolment → Enrolment
claim_row now h ip uuid e = if is_claimable now h e then consume now ip uuid e else e

abbrev pub count_attempt : ℕ → Enrolment → Enrolment
count_attempt id e = if e.id == id then record e { attempts = e.attempts + 1 } else e

abbrev pub count_reissue : ℕ → Enrolment → Enrolment
count_reissue id e = if e.id == id then record e { reissue_count = e.reissue_count + 1 } else e

abbrev pub register : ℕ → ℕ → IssueBody → AccessDevice → AccessDevice
register device_id key_id body d =
    if d.id == device_id
    then record d {
      status = enrolled;
      hardware_uuid = some body.hardware_uuid;
      api_key_id = some key_id;
      hostname = body.hostname;
      model = body.model;
      os_version = body.os_version;
      arch = body.arch;
      agent_version = body.agent_version;
    }
    else d

-- The stored hardware is that of another machine. An empty text is no hardware.
abbrev pub has_moved : Option String → String → Bool
has_moved none uuid = false
has_moved (some h) uuid = not (str_eq h "") && not (str_eq h uuid)

-- Why a transaction threw, with the table of keys as the minting left it and the key, if any.
pub record Rollback : Type 0 where
  pub reason : Problem
  pub keys : List ApiKey
  pub minted : Option ℕ

pub data Issued : Type 0 where
  committed : AccessDb → EnrolmentResponse → Issued
  rolled_back : Rollback → Issued

abbrev pub is_failed : PublishResult → Bool
is_failed failed = true
is_failed (unchanged v e) = false
is_failed (published v e h) = false

abbrev pub throw : ProblemKey → AccessDb → Issued
throw key db =
    rolled_back (record { reason = problem key by_status; keys = db.keys; minted = none })

-- A registered key, on the table of keys.
abbrev pub is_key : Option ℕ → ApiKey → Bool
is_key none k = false
is_key (some id) k = k.id == id

abbrev pub never_used : ApiKey → Bool
never_used k = not (is_some k.last_request)

module _ (create : CreateApiKey) (publish : ℕ → Tables → Tables × PublishResult) (now : ℕ) where
  -- The writes after the key is minted.
  abbrev pub issue_published :
      AccessDevice → IssueBody → MintedDeviceKey → AccessDb → Tables × PublishResult → Issued
  issue_published d body m db (tables, result) =
      if is_failed result
      then rolled_back (record { reason = unexpected; keys = db.keys; minted = some m.key_id })
      else committed
          (record db { tables = tables; devices = map (register d.id m.key_id body) db.devices })
          (record { device_id = d.id; token = m.token; key_id = m.key_id; issued_at = now })

  abbrev pub issue_minted :
      AccessDevice → IssueBody → AccessDb → Option (MintedDeviceKey × List ApiKey) → Issued
  issue_minted d body db none =
      rolled_back (record { reason = unexpected; keys = db.keys; minted = none })
  issue_minted d body db (some (m, keys)) =
      issue_published d body m (record db { keys = keys }) (publish d.id db.tables)

  abbrev pub issue_to : AccessDevice → IssueBody → Option Household → AccessDb → Issued
  issue_to d body none db =
      rolled_back (record { reason = unexpected; keys = db.keys; minted = none })
  issue_to d body (some h) db = elim h.service_user_id [
    | none ↦ rolled_back (record { reason = unexpected; keys = db.keys; minted = none })
    | some user ↦
        issue_minted d body
          (record db {
            tripwires =
                if has_moved d.hardware_uuid body.hardware_uuid
                then raise_tripwire now d.id hardware_uuid_mismatch db.tripwires
                else db.tripwires;
          })
          (mint_device_key create user d.id d.household_id d.label db.keys)
  ]

  abbrev pub issue_device : Option AccessDevice → IssueBody → AccessDb → Issued
  issue_device none body db = throw enrol_code_unknown db
  issue_device (some d) body db =
      if any (is_holder d.id body.hardware_uuid) db.devices
      then throw device_already_registered db
      else issue_to d body (find (λ h. h.id == d.household_id) db.households) db

  -- Inside of a transaction.
  unfoldable pub issue : ℕ → IssueBody → AccessDb → Issued
  issue device_id body db = issue_device (find (λ d. d.id == device_id) db.devices) body db

  -- The first transaction: whatever throws rolls the claim back, and the key is revoked.
  abbrev pub revoke_minted : Option ℕ → List ApiKey → List ApiKey
  revoke_minted none keys = keys
  revoke_minted (some id) keys = filter (λ k. not (k.id == id)) keys

  abbrev pub after_claim : AccessDb → Issued → AccessDb × Answer EnrolmentResponse
  after_claim db (committed db' response) = (db', answered response)
  after_claim db (rolled_back r) =
      (record db { keys = revoke_minted r.minted r.keys }, refused r.reason)

  -- The second deletes the key that was never stored. The one that was minted stays.
  abbrev pub after_reissue : ApiKey → AccessDb → Issued → AccessDb × Answer EnrolmentResponse
  after_reissue key db (committed db' response) =
      (record db' { keys = filter (λ k. not (k.id == key.id)) db'.keys }, answered response)
  after_reissue key db (rolled_back r) = (record db { keys = r.keys }, refused r.reason)

  unfoldable pub reissue :
      Enrolment → ApiKey → IssueBody → AccessDb → AccessDb × Answer EnrolmentResponse
  reissue row key body db = after_reissue key db (
      issue row.device_id body (record db {
        devices = map (forget_key key.id) db.devices;
        enrollments = map (count_reissue row.id) db.enrollments;
      }))

  abbrev pub problem_answer : ProblemKey → AccessDb → AccessDb × Answer EnrolmentResponse
  problem_answer key db = (db, refused (problem key by_status))

  -- The key that the device refers to.
  abbrev pub key_of : Option AccessDevice → List ApiKey → Option ApiKey
  key_of none keys = none
  key_of (some d) keys = find (is_key d.api_key_id) keys

  abbrev pub device_key : ℕ → AccessDb → Option ApiKey
  device_key device_id db = key_of (find (λ d. d.id == device_id) db.devices) db.keys

  abbrev pub reissue_if :
      Enrolment → IssueBody → Option ApiKey → AccessDb → AccessDb × Answer EnrolmentResponse
  reissue_if row body none db = problem_answer enrol_code_consumed db
  reissue_if row body (some key) db =
      if is_hardware row.consumed_hardware_uuid body.hardware_uuid
        && (ltb now row.expires_at && never_used key)
      then reissue row key body db
      else problem_answer enrol_code_consumed db

  -- A row that was not claimed. The attempt counts whatever the answer is.
  abbrev pub reject_row :
      Option Enrolment → IssueBody → AccessDb → AccessDb × Answer EnrolmentResponse
  reject_row none body db = problem_answer enrol_code_unknown db
  reject_row (some row) body db =
      let counted = record db { enrollments = map (count_attempt row.id) db.enrollments } in
      if leb max_enrolment_attempts (row.attempts + 1)
      then problem_answer enrol_code_consumed counted
      else if leb row.expires_at now
      then problem_answer enrol_code_expired counted
      else if not (is_some row.consumed_at)
      then problem_answer enrol_code_consumed counted
      else reissue_if row body (device_key row.device_id counted) counted

  unfoldable pub reject_or_reissue :
      Text → IssueBody → AccessDb → AccessDb × Answer EnrolmentResponse
  reject_or_reissue h body db =
      reject_row (find (λ e. text_eq e.code_hash h) db.enrollments) body db

  abbrev pub enroll_claimed :
      Option Enrolment
      → Text
      → Option String
      → IssueBody
      → AccessDb
      → AccessDb × Answer EnrolmentResponse
  enroll_claimed none h ip body db = reject_or_reissue h body db
  enroll_claimed (some row) h ip body db = after_claim db (
      issue row.device_id body
        (record db { enrollments = map (claim_row now h ip body.hardware_uuid) db.enrollments }))

  -- A request with the digest of a code.
  unfoldable pub enroll_code :
      Text → Option String → IssueBody → AccessDb → AccessDb × Answer EnrolmentResponse
  enroll_code h ip body db = enroll_claimed (find (is_claimable now h) db.enrollments) h ip body db

  module _ (upper : ℕ → Text) (hash : Text → Text) where
    abbrev pub enroll_normalised :
        Option Text
        → Option IssueBody
        → Option String
        → AccessDb
        → AccessDb × Answer EnrolmentResponse
    enroll_normalised none parsed ip db = problem_answer enrol_invalid db
    enroll_normalised (some code) none ip db = problem_answer enrol_invalid db
    enroll_normalised (some code) (some body) ip db = enroll_code (hash code) ip body db

    abbrev pub enroll_raw :
        Option Text
        → Option IssueBody
        → Option String
        → AccessDb
        → AccessDb × Answer EnrolmentResponse
    enroll_raw none parsed ip db = problem_answer enrol_invalid db
    enroll_raw (some typed) parsed ip db =
        enroll_normalised (normalise_enrolment_code upper typed) parsed ip db

    -- The handler. The body is what is read of its code, if that is a text, and of the rest.
    unfoldable pub enroll :
        Option (Option Text × Option IssueBody)
        → Option String
        → AccessDb
        → AccessDb × Answer EnrolmentResponse
    enroll none ip db = problem_answer enrol_invalid db
    enroll (some (typed, parsed)) ip db = enroll_raw typed parsed ip db
