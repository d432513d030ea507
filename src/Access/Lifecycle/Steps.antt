-- ===== src/Access/Lifecycle/Steps.antt =====
-- apps/api/src/routes/enroll.ts, apps/api/src/routes/parent-setup.ts,
-- apps/api/src/routes/parent-devices.ts, apps/api/src/routes/credential.ts and
-- apps/api/src/routes/sync.ts: every call that writes a column of devices or codes that the rules on them
-- read, as a step, and any write of the other columns (the policy set, the health, the hours away and
-- attended), as one more.
use homeparentcontrol.Prelude.{ℕ, ◌≡◌, String, Bool, List, [], map, Option}
use homeparentcontrol.Policy.{Text}
use homeparentcontrol.Policy.Publish.{Tables, PublishResult}
use homeparentcontrol.Access.{AccessDevice, AccessDb}
use homeparentcontrol.Access.Keys.{CreateApiKey}
use homeparentcontrol.Access.Enrol.{IssueBody, enroll}
use homeparentcontrol.Access.Ending.{EndAction, end_credential, remove_child}
use homeparentcontrol.Access.Setup.{create_device, reissue_code}
use homeparentcontrol.Access.Rotation.{rotate, close_expired_rotations}
use homeparentcontrol.Access.Lifecycle.Committing.{IsLawful}
use homeparentcontrol.Access.Lifecycle.Enrolling.{enroll-IsLawful}
use homeparentcontrol.Access.Lifecycle.Managing.{end_credential-IsLawful, remove_child-IsLawful}
use homeparentcontrol.Access.Lifecycle.Renewing.{
  IsFresh, create_device-IsLawful, reissue_code-IsLawful,
}
use homeparentcontrol.Access.Lifecycle.Rotating.{rotate-IsLawful, close_expired_rotations-IsLawful}
use homeparentcontrol.Access.Lifecycle.Observing.{
  tick_device, tick_device-IsLawful, IsSparing, sparing-IsLawful,
}

module _ (create : CreateApiKey) (publish : ℕ → Tables → Tables × PublishResult) (upper : ℕ → Text)
    (hash : Text → Text) where
  -- One call, at its own time.
  pub data Step (db : AccessDb) : AccessDb → Type 0 where
    device_created :
        (now device_id id : ℕ) (bytes : List ℕ) (household_id : ℕ) (body : Option (ℕ × String))
        → IsFresh device_id db
        → Step db (create_device upper hash now device_id id bytes household_id body db).0
    code_reissued :
        (now id : ℕ) (bytes : List ℕ) (household_id : ℕ) (device_id : Option ℕ)
        → Step db (reissue_code upper hash now id bytes household_id device_id db).0
    enrolment_requested :
        (now : ℕ) (request : Option (Option Text × Option IssueBody)) (ip : Option String)
        → Step db (enroll create publish now upper hash request ip db).0
    device_ended :
        (action : EndAction) (household_id : ℕ) (device_id : Option ℕ) (confirm : Option String)
        → Step db (end_credential action household_id device_id confirm db).0
    child_removed :
        (now household_id : ℕ) (child_id : Option ℕ) (confirmed : Bool)
        → Step db (remove_child now household_id child_id confirmed db).0
    rotation_requested :
        (now device_id household_id user_id : ℕ) (is_service : Bool)
        → Step db (rotate create now device_id household_id user_id is_service db).0
    rotations_closed : (now : ℕ) → Step db (close_expired_rotations now db).0
    device_ticked :
        (device_id : ℕ) (agent os machine : String)
        → Step db (tick_device device_id agent os machine db)
    others_written :
        (f : AccessDevice → AccessDevice) (after : AccessDb)
        → IsSparing f
        → after.devices ≡ map f db.devices
        → after.enrollments ≡ db.enrollments
        → Step db after

  -- What calls lead to, from a table without devices and codes.
  pub data Reachable : AccessDb → Type 0 where
    fresh_tables : (db : AccessDb) → db.devices ≡ [] → db.enrollments ≡ [] → Reachable db
    after_step : (before after : AccessDb) → Reachable before → Step before after → Reachable after

  Step-IsLawful : (db after : AccessDb) → IsLawful db → Step db after → IsLawful after
  Step-IsLawful db after l (device_created now device_id id bytes household_id body n) =
      create_device-IsLawful upper hash now device_id id bytes household_id body db n l
  Step-IsLawful db after l (code_reissued now id bytes household_id device_id) =
      reissue_code-IsLawful upper hash now id bytes household_id device_id db l
  Step-IsLawful db after l (enrolment_requested now request ip) =
      enroll-IsLawful create publish now upper hash request ip db l
  Step-IsLawful db after l (device_ended action household_id device_id confirm) =
      end_credential-IsLawful action household_id device_id confirm db l
  Step-IsLawful db after l (child_removed now household_id child_id confirmed) =
      remove_child-IsLawful now household_id child_id confirmed db l
  Step-IsLawful db after l (rotation_requested now device_id household_id user_id is_service) =
      rotate-IsLawful create now device_id household_id user_id is_service db l
  Step-IsLawful db after l (rotations_closed now) = close_expired_rotations-IsLawful now db l
  Step-IsLawful db after l (device_ticked device_id agent os machine) =
      tick_device-IsLawful device_id agent os machine db l
  Step-IsLawful db _ l (others_written f after s d e) = sparing-IsLawful f db after s d e l

  -- Whatever steps were taken, in any order and at any time, from tables without devices and codes: a
  -- device created, with an id that no device and no unused code has; a code issued again; an
  -- enrolment; a device revoked or decommissioned, or a child removed; a rotation, and the close of
  -- those that ended; a tick, which makes an enrolled device active; and writes that leave the ids,
  -- states, hardware and credentials of the devices and the codes alone. Then rows of devices with one
  -- id are equal, two live devices with the same hardware have one id, and a code that nobody used is
  -- the only one of its device and can only be for a device that is pending, which has no credential.
  pub Reachable-AreLawful : (db : AccessDb) → Reachable db → IsLawful db
  Reachable-AreLawful _ (fresh_tables db d e) =
      rw (d, e) (record { one_row = tt; fit = tt; one_mac = tt })
  Reachable-AreLawful _ (after_step before after r s) =
      Step-IsLawful before after (Reachable-AreLawful before r) s
