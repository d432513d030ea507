-- ===== src/Access/Ending.antt =====
-- apps/api/src/routes/parent-devices.ts and apps/api/src/routes/parent-setup.ts: a device is revoked or
-- decommissioned, or removed with its child. A parent is known by the household.
use homeparentcontrol.Prelude.{
  ℕ, String, Bool, true, false, ◌&&◌, not, List, [], ◌∷◌, Option, none, some, map, ◌==◌, str_eq,
  if◌then◌else◌, filter, find, is_some, length,
}
use homeparentcontrol.Access.{
  DeviceStatus, revoked, decommissioned, AccessDevice, ApiKey, AccessChild, Enrolment, AccessDb,
  is_decommissioned, ParentAnswer, done, fail,
}

pub record EndOptions : Type 0 where
  pub status : DeviceStatus
  pub drop_desired : Bool
  pub keep_credential : Bool

-- What the two routes do to a device.
abbrev pub decommission_options : EndOptions
decommission_options = record {
  status = decommissioned;
  drop_desired = true;
  keep_credential = true;
}

abbrev pub revoke_options : EndOptions
revoke_options = record { status = revoked; drop_desired = false; keep_credential = false }

abbrev pub disable_key : Option ℕ → ApiKey → ApiKey
disable_key none k = k
disable_key (some id) k = if k.id == id then record k { enabled = false } else k

abbrev pub disable_keys_of : AccessDevice → List ApiKey → List ApiKey
disable_keys_of d keys =
    map (disable_key d.previous_api_key_id) (map (disable_key d.api_key_id) keys)

abbrev pub end_row : ℕ → EndOptions → AccessDevice → AccessDevice
end_row id opts d =
    if d.id == id
    then if opts.keep_credential
      then record d { status = opts.status }
      else record d { status = opts.status; previous_api_key_id = none; previous_expires_at = none }
    else d

-- A code that nobody used, of a device.
abbrev pub is_open_code : ℕ → Enrolment → Bool
is_open_code device_id e = (e.device_id == device_id) && not (is_some e.consumed_at)

abbrev pub drop_open_codes : ℕ → List Enrolment → List Enrolment
drop_open_codes device_id rows = filter (λ e. not (is_open_code device_id e)) rows

unfoldable pub end_device : EndOptions → AccessDevice → AccessDb → AccessDb
end_device opts d db = record db {
  keys = if opts.keep_credential then db.keys else disable_keys_of d db.keys;
  devices = map (end_row d.id opts) db.devices;
  enrollments = drop_open_codes d.id db.enrollments;
  desired =
      if opts.drop_desired then filter (λ i. not (i.device_id == d.id)) db.desired else db.desired;
}

pub data EndAction : Type 0 where
  revoke_action decommission_action : EndAction

abbrev pub confirm_word : EndAction → String
confirm_word revoke_action = "REVOKE"
confirm_word decommission_action = "DECOMMISSION"

abbrev pub options_of : EndAction → EndOptions
options_of revoke_action = revoke_options
options_of decommission_action = decommission_options

pub record Ended : Type 0 where
  pub device_id : ℕ
  pub status : DeviceStatus
  pub stops_enforcement : Bool

abbrev pub stops_enforcement_by : EndAction → Bool
stops_enforcement_by revoke_action = false
stops_enforcement_by decommission_action = true

abbrev pub end_found : EndAction → Option AccessDevice → AccessDb → AccessDb × ParentAnswer Ended
end_found action none db = (db, fail 404)
end_found action (some d) db = (
  end_device (options_of action) d db,
  done (record {
    device_id = d.id;
    status = (options_of action).status;
    stops_enforcement = stops_enforcement_by action;
  }),
)

abbrev pub is_device_of : ℕ → ℕ → AccessDevice → Bool
is_device_of device_id household_id d = (d.id == device_id) && (d.household_id == household_id)

abbrev pub end_confirmed :
    EndAction → ℕ → ℕ → Option String → AccessDb → AccessDb × ParentAnswer Ended
end_confirmed action household_id device_id none db = (db, fail 422)
end_confirmed action household_id device_id (some confirm) db =
    if str_eq confirm (confirm_word action)
    then end_found action (find (is_device_of device_id household_id) db.devices) db
    else (db, fail 422)

-- The body is the word that was typed, if it is one.
unfoldable pub end_credential :
    EndAction → ℕ → Option ℕ → Option String → AccessDb → AccessDb × ParentAnswer Ended
end_credential action household_id none confirm db = (db, fail 400)
end_credential action household_id (some device_id) confirm db =
    end_confirmed action household_id device_id confirm db

-- One after another, as the rows were read.
unfoldable pub end_devices : List AccessDevice → AccessDb → AccessDb
end_devices [] db = db
end_devices (d ∷ ds) db = end_devices ds (end_device decommission_options d db)

abbrev pub archive : ℕ → ℕ → AccessChild → AccessChild
archive now id c = if c.id == id then record c { archived_at = some now } else c

abbrev pub is_child_of : ℕ → ℕ → AccessChild → Bool
is_child_of child_id household_id c =
    (c.id == child_id) && ((c.household_id == household_id) && not (is_some c.archived_at))

-- The devices that removing a child ends.
abbrev pub devices_of_child : ℕ → List AccessDevice → List AccessDevice
devices_of_child child_id ds =
    filter (λ d. (d.child_id == child_id) && not (is_decommissioned d.status)) ds

abbrev pub remove_found : ℕ → Option AccessChild → AccessDb → AccessDb × ParentAnswer ℕ
remove_found now none db = (db, fail 404)
remove_found now (some c) db =
    let live = devices_of_child c.id db.devices in
    let ended = end_devices live db in
    (record ended { children = map (archive now c.id) ended.children }, done (length live))

-- Whether the body holds the word is `confirmed`. The answer is how many devices were removed.
unfoldable pub remove_child : ℕ → ℕ → Option ℕ → Bool → AccessDb → AccessDb × ParentAnswer ℕ
remove_child now household_id none confirmed db = (db, fail 400)
remove_child now household_id (some child_id) confirmed db =
    if confirmed
    then remove_found now (find (is_child_of child_id household_id) db.children) db
    else (db, fail 422)
