-- ===== src/Access/Lifecycle/Observing.antt =====
-- apps/api/src/routes/sync.ts, apps/api/src/jobs/liveness.ts, apps/api/src/policy/publish.ts and
-- apps/api/src/routes/parent-devices.ts: the writes to a device's row that are no part of its enrolment:
-- what a tick observed, and columns that no rule on devices reads.
use homeparentcontrol.Prelude.{
  ℕ, ◌==◌, ◌≡◌, refl, sym, subst, ◌∙◌, ap, if◌then◌else◌, String, true, List, some, ◌≤◌, map, inl,
  inr, Bool-cases,
}
use homeparentcontrol.Access.{
  DeviceStatus, pending, enrolled, active, revoked, decommissioned, AccessDevice, AccessDb,
  Enrolment, is_pending,
}
use homeparentcontrol.Access.Enrol.{is_live}
use homeparentcontrol.Access.Lifecycle.Codes.{open_codes}
use homeparentcontrol.Access.Lifecycle.Devices.{IsFit, IsQuiet, AreLawful-map}
use homeparentcontrol.Access.Lifecycle.Committing.{IsLawful}

-- "`active` means it has actually ticked".
unfoldable pub ticked_status : DeviceStatus → DeviceStatus
ticked_status enrolled = active
ticked_status status = status

-- The row that a tick updates.
abbrev pub tick_row : ℕ → String → String → String → AccessDevice → AccessDevice
tick_row device_id agent os machine d =
    if d.id == device_id
    then record d {
      status = ticked_status d.status;
      agent_version = some agent;
      os_version = some os;
      arch = some machine;
    }
    else d

unfoldable pub tick_device : ℕ → String → String → String → AccessDb → AccessDb
tick_device device_id agent os machine db = record db {
  devices = map (tick_row device_id agent os machine) db.devices;
}

ticked_status-is_live : (s : DeviceStatus) → is_live (ticked_status s) ≡ true → is_live s ≡ true
unfolding ticked_status
ticked_status-is_live enrolled l = refl
ticked_status-is_live active l = l
ticked_status-is_live pending l = l
ticked_status-is_live revoked l = l
ticked_status-is_live decommissioned l = l

ticked_status-is_pending : (s : DeviceStatus) → is_pending (ticked_status s) ≡ is_pending s
unfolding ticked_status
ticked_status-is_pending enrolled = refl
ticked_status-is_pending active = refl
ticked_status-is_pending pending = refl
ticked_status-is_pending revoked = refl
ticked_status-is_pending decommissioned = refl

module _ (device_id : ℕ) (agent os machine : String) where
  tick_row-IsQuiet : IsQuiet (tick_row device_id agent os machine)
  tick_row-IsQuiet = record {
    id = λ d. elim (Bool-cases (d.id == device_id)) [ inl e ↦ rw e refl | inr e ↦ rw e refl ];
    hardware = λ d. elim (Bool-cases (d.id == device_id)) [ inl e ↦ rw e refl | inr e ↦ rw e refl ];
    live = λ d. elim (Bool-cases (d.id == device_id)) [
      | inl e ↦ rw e (ticked_status-is_live d.status)
      | inr e ↦ rw e (λ l. l)
    ];
  }

  tick_row-IsFit :
      (rows : List Enrolment) (d : AccessDevice)
      → IsFit rows d
      → IsFit rows (tick_row device_id agent os machine d)
  tick_row-IsFit rows d f = elim (Bool-cases (d.id == device_id)) [
    | inl e ↦
        let same = ticked_status-is_pending d.status in
        rw e (record {
          unused = λ p. f.unused (sym same ∙ p);
          single = f.single;
          bare = λ p. f.bare (sym same ∙ p);
        })
    | inr e ↦ rw e f
  ]

  pub tick_device-IsLawful :
      (db : AccessDb) → IsLawful db → IsLawful (tick_device device_id agent os machine db)
  unfolding tick_device
  tick_device-IsLawful db l =
      AreLawful-map db.enrollments db.enrollments (tick_row device_id agent os machine) db.devices
        tick_row-IsQuiet (tick_row-IsFit db.enrollments) l

-- A write that leaves a device's id, status, hardware and credentials as they are.
pub record IsSparing (f : AccessDevice → AccessDevice) : Type 0 where
  pub id : (d : AccessDevice) → (f d).id ≡ d.id
  pub status : (d : AccessDevice) → (f d).status ≡ d.status
  pub hardware : (d : AccessDevice) → (f d).hardware_uuid ≡ d.hardware_uuid
  pub key : (d : AccessDevice) → (f d).api_key_id ≡ d.api_key_id
  pub previous : (d : AccessDevice) → (f d).previous_api_key_id ≡ d.previous_api_key_id

IsSparing-IsQuiet : (f : AccessDevice → AccessDevice) → IsSparing f → IsQuiet f
IsSparing-IsQuiet f s = record {
  id = s.id;
  hardware = s.hardware;
  live = λ d l. sym (ap (λ t. is_live t) (s.status d)) ∙ l;
}

IsSparing-IsFit :
    (f : AccessDevice → AccessDevice) (rows : List Enrolment)
    → IsSparing f
    → (d : AccessDevice) → IsFit rows d
    → IsFit rows (f d)
IsSparing-IsFit f rows s d h =
    let same = ap (λ t. is_pending t) (s.status d) in
    record {
      unused = λ p. ap (λ i. open_codes i rows) (s.id d) ∙ h.unused (sym same ∙ p);
      single = subst (λ i. open_codes i rows ≤ 1) (sym (s.id d)) h.single;
      bare = λ p. let bare = h.bare (sym same ∙ p) in (s.key d ∙ bare.0, s.previous d ∙ bare.1);
    }

pub sparing-IsLawful :
    (f : AccessDevice → AccessDevice) (db after : AccessDb)
    → IsSparing f
    → after.devices ≡ map f db.devices
    → after.enrollments ≡ db.enrollments
    → IsLawful db
    → IsLawful after
sparing-IsLawful f db after s d e l =
    rw (d, e)
      (AreLawful-map db.enrollments db.enrollments f db.devices (IsSparing-IsQuiet f s)
        (IsSparing-IsFit f db.enrollments s) l)
