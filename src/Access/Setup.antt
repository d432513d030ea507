-- ===== src/Access/Setup.antt =====
-- apps/api/src/routes/parent-setup.ts: a Mac is registered and gets a one-time code. The ids of new rows
-- and the random bytes are arguments. `upper` and `hash` are as for the codes.
use homeparentcontrol.Prelude.{
  ℕ, ◌+◌, ◌*◌, String, Bool, ◌&&◌, not, List, ◌∷◌, Option, none, some, ◌==◌, if◌then◌else◌, find,
}
use homeparentcontrol.Policy.{Text}
use homeparentcontrol.Access.{
  pending, AccessDevice, AccessChild, ChildSet, Enrolment, AccessDb, is_pending, ParentAnswer, done,
  fail, crashed,
}
use homeparentcontrol.Access.Codes.{generate_enrolment_code, normalise_enrolment_code}
use homeparentcontrol.Access.Ending.{is_child_of, is_device_of, drop_open_codes}

abbrev pub enrolment_ttl_minutes : ℕ
enrolment_ttl_minutes = 60

pub record CodeIssued : Type 0 where
  pub device_id : ℕ
  pub code : Text
  pub expires_at : ℕ

abbrev pub new_enrolment : ℕ → ℕ → Text → ℕ → Enrolment
new_enrolment id device_id code_hash expires_at = record {
  id = id;
  device_id = device_id;
  code_hash = code_hash;
  expires_at = expires_at;
  consumed_at = none;
  consumed_ip = none;
  consumed_hardware_uuid = none;
  reissue_count = 0;
  attempts = 0;
}

abbrev pub new_device : ℕ → ℕ → ℕ → ℕ → String → AccessDevice
new_device id household_id child_id set_id label = record {
  id = id;
  household_id = household_id;
  child_id = child_id;
  policy_set_id = some set_id;
  label = label;
  status = pending;
  hardware_uuid = none;
  api_key_id = none;
  previous_api_key_id = none;
  previous_expires_at = none;
  hostname = none;
  model = none;
  os_version = none;
  arch = none;
  agent_version = none;
}

abbrev pub is_set_of : ℕ → ℕ → ChildSet → Bool
is_set_of child_id household_id s = (s.child_id == child_id) && (s.household_id == household_id)

module _ (upper : ℕ → Text) (hash : Text → Text) (now : ℕ) where
  abbrev pub issue_normalised :
      ℕ → ℕ → Text → Option Text → AccessDb → AccessDb × ParentAnswer CodeIssued
  issue_normalised id device_id code none db = (db, crashed)
  issue_normalised id device_id code (some normalised) db =
      let expires_at = now + enrolment_ttl_minutes * 60000 in
      (
        record db {
          enrollments = new_enrolment id device_id (hash normalised) expires_at ∷ db.enrollments;
        },
        done (record { device_id = device_id; code = code; expires_at = expires_at }),
      )

  -- issueCode.
  unfoldable pub issue_code : ℕ → List ℕ → ℕ → AccessDb → AccessDb × ParentAnswer CodeIssued
  issue_code id bytes device_id db =
      let code = generate_enrolment_code bytes in
      issue_normalised id device_id code (normalise_enrolment_code upper code) db

  abbrev pub create_in_set :
      ℕ
      → ℕ
      → List ℕ
      → ℕ
      → ℕ
      → String
      → Option ChildSet
      → AccessDb
      → AccessDb × ParentAnswer CodeIssued
  create_in_set device_id id bytes household_id child_id label none db = (db, fail 409)
  create_in_set device_id id bytes household_id child_id label (some s) db =
      issue_code id bytes device_id
        (record db { devices = new_device device_id household_id child_id s.id label ∷ db.devices })

  abbrev pub create_for_child :
      ℕ
      → ℕ
      → List ℕ
      → ℕ
      → String
      → Option AccessChild
      → AccessDb
      → AccessDb × ParentAnswer CodeIssued
  create_for_child device_id id bytes household_id label none db = (db, fail 404)
  create_for_child device_id id bytes household_id label (some c) db =
      create_in_set device_id id bytes household_id c.id label
        (find (is_set_of c.id household_id) db.child_sets) db

  -- handleCreateDevice: a child and a label, if the body is one.
  unfoldable pub create_device :
      ℕ → ℕ → List ℕ → ℕ → Option (ℕ × String) → AccessDb → AccessDb × ParentAnswer CodeIssued
  create_device device_id id bytes household_id none db = (db, fail 400)
  create_device device_id id bytes household_id (some (child_id, label)) db =
      create_for_child device_id id bytes household_id label
        (find (is_child_of child_id household_id) db.children) db

  abbrev pub reissue_found :
      ℕ → List ℕ → Option AccessDevice → AccessDb → AccessDb × ParentAnswer CodeIssued
  reissue_found id bytes none db = (db, fail 404)
  reissue_found id bytes (some d) db =
      if not (is_pending d.status)
      then (db, fail 409)
      else issue_code id bytes d.id
          (record db { enrollments = drop_open_codes d.id db.enrollments })

  -- handleReissueCode.
  unfoldable pub reissue_code :
      ℕ → List ℕ → ℕ → Option ℕ → AccessDb → AccessDb × ParentAnswer CodeIssued
  reissue_code id bytes household_id none db = (db, fail 400)
  reissue_code id bytes household_id (some device_id) db =
      reissue_found id bytes (find (is_device_of device_id household_id) db.devices) db
