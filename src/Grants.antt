-- ===== src/Grants.antt =====
-- apps/api/src/routes/parent-overrides.ts: a parent grants more time tonight, or takes it back.
-- `printed_hour` is the hour that `Intl` prints for an hour of the day, and `publish` the publication of
-- a device's policy from the grants of the table; it is not in a transaction with the write.
pub mod Caps
mod Tests
use homeparentcontrol.Prelude.{
  ℕ, ◌+◌, ◌*◌, String, Bool, true, false, ◌&&◌, ◌||◌, not, List, [], ◌∷◌, Option, none, some, map,
  filter, find, length, sum, leb, ltb, ◌==◌, if◌then◌else◌, is_some, get_or, ◌>>=◌,
}
use homeparentcontrol.Calendar.{
  Tzdb, LocalDate, day_number, day_ms, offset_at, date_in_zone, time_in_zone, date_eq,
}
use homeparentcontrol.Prelude.Int.{shift_back}
use homeparentcontrol.Policy.Publish.{Tables, PublishResult, unchanged, published, failed}
use homeparentcontrol.Access.{DeviceStatus, is_decommissioned, ParentAnswer, done, fail, crashed}

pub data GrantType : Type 0 where
  extend suspend : GrantType

-- A row of `overrides` that the page writes.
pub record GrantRow : Type 0 where
  pub id : ℕ
  pub household_id : ℕ
  pub child_id : ℕ
  pub device_id : Option ℕ
  pub type : GrantType
  pub minutes : Option ℕ
  pub effective_date : LocalDate
  pub expires_at : ℕ
  pub granted_by : ℕ
  pub reason : Option String
  pub revoked_at : Option ℕ
  pub revoked_by : Option ℕ

-- A device with its child's zone.
pub record GrantDevice : Type 0 where
  pub id : ℕ
  pub household_id : ℕ
  pub child_id : ℕ
  pub policy_set_id : Option ℕ
  pub timezone : Option String
  pub status : DeviceStatus

pub record OverrideCaps : Type 0 where
  pub set_id : ℕ
  pub max_minutes_per_day : ℕ
  pub max_grants_per_day : ℕ

pub record GrantBody : Type 0 where
  pub device_id : ℕ
  pub type : GrantType
  pub minutes : Option ℕ
  pub reason : Option String

pub record GrantDb : Type 0 where
  pub overrides : List GrantRow
  pub devices : List GrantDevice
  pub caps : List OverrideCaps
  pub tables : Tables

pub record GrantSent : Type 0 where
  pub override_id : ℕ
  pub expires_at : ℕ
  pub awaiting_policy_version : ℕ

-- The grants of a child's day that were not taken back.
abbrev pub is_of_day : ℕ → LocalDate → GrantRow → Bool
is_of_day child_id date r =
    (r.child_id == child_id) && (date_eq r.effective_date date && not (is_some r.revoked_at))

unfoldable pub grants_today : ℕ → LocalDate → List GrantRow → List GrantRow
grants_today child_id date rows = filter (is_of_day child_id date) rows

abbrev pub minutes_used : List GrantRow → ℕ
minutes_used rows = sum (map (λ r. get_or r.minutes 0) rows)

abbrev pub override_caps : Option ℕ → List OverrideCaps → Option OverrideCaps
override_caps none caps = none
override_caps (some id) caps = find (λ c. c.set_id == id) caps

abbrev pub needs_minutes : GrantBody → Bool
needs_minutes b = elim b.type [ extend ↦ not (is_some b.minutes) | suspend ↦ false ]

-- Whether a cap forbids a grant.
abbrev pub over_minutes : OverrideCaps → Option ℕ → ℕ → Bool
over_minutes c none used = false
over_minutes c (some m) used = ltb c.max_minutes_per_day (used + m)

unfoldable pub is_over_caps : Option OverrideCaps → Option ℕ → List GrantRow → Bool
is_over_caps none minutes used = false
is_over_caps (some c) minutes used =
    leb c.max_grants_per_day (length used) || over_minutes c minutes (minutes_used used)

abbrev pub stored_minutes : GrantType → Option ℕ → Option ℕ
stored_minutes extend m = m
stored_minutes suspend m = none

module _ (tz : Tzdb) (printed_hour : ℕ → ℕ) where
  -- 06:00 of the night that a moment belongs to. The offset is that of the wall clock read as UTC.
  unfoldable pub end_of_night : ℕ → String → ℕ
  end_of_night at zone =
      let today = day_number (date_in_zone tz at zone) in
      let same_night = ltb (printed_hour (time_in_zone tz at zone).hour) 6 in
      let guess = (if same_night then today else today + 1) * day_ms + 6 * 3600000 in
      shift_back guess (offset_at tz guess zone)

  module _ (publish : ℕ → List GrantRow → Tables → Tables × PublishResult) (now : ℕ) where
    abbrev pub grant_published :
        ℕ → ℕ → GrantDb → Tables × PublishResult → GrantDb × ParentAnswer GrantSent
    grant_published id at db (t, failed) = (db, crashed)
    grant_published id at db (t, unchanged v e) = (
      record db { tables = t },
      done (record { override_id = id; expires_at = at; awaiting_policy_version = v }),
    )
    grant_published id at db (t, published v e h) = (
      record db { tables = t },
      done (record { override_id = id; expires_at = at; awaiting_policy_version = v }),
    )

    abbrev pub grant_row : ℕ → ℕ → ℕ → GrantBody → GrantDevice → LocalDate → ℕ → GrantRow
    grant_row id household_id user_id b d date at = record {
      id = id;
      household_id = household_id;
      child_id = d.child_id;
      device_id = some d.id;
      type = b.type;
      minutes = stored_minutes b.type b.minutes;
      effective_date = date;
      expires_at = at;
      granted_by = user_id;
      reason = b.reason;
      revoked_at = none;
      revoked_by = none;
    }

    abbrev pub grant_device :
        ℕ → ℕ → ℕ → GrantBody → Option GrantDevice → GrantDb → GrantDb × ParentAnswer GrantSent
    grant_device id household_id user_id b none db = (db, fail 404)
    grant_device id household_id user_id b (some d) db =
        let zone = get_or d.timezone "UTC" in
        let date = date_in_zone tz now zone in
        let at = end_of_night now zone in
        let row = grant_row id household_id user_id b d date at in
        if is_decommissioned d.status
        then (db, fail 409)
        else if is_over_caps (override_caps d.policy_set_id db.caps) b.minutes
            (grants_today d.child_id date db.overrides)
        then (db, fail 422)
        else grant_published id at (record db { overrides = row ∷ db.overrides })
            (publish d.id (row ∷ db.overrides) db.tables)

    -- handleGrantOverride.
    unfoldable pub grant_override :
        ℕ → ℕ → ℕ → Option GrantBody → GrantDb → GrantDb × ParentAnswer GrantSent
    grant_override id household_id user_id none db = (db, fail 400)
    grant_override id household_id user_id (some b) db =
        if needs_minutes b
        then (db, fail 422)
        else grant_device id household_id user_id b
            (find (λ d. (d.id == b.device_id) && (d.household_id == household_id)) db.devices) db

abbrev pub take_back : ℕ → ℕ → ℕ → GrantRow → GrantRow
take_back now user_id id r =
    if r.id == id then record r { revoked_at = some now; revoked_by = some user_id } else r

module _ (publish : ℕ → List GrantRow → Tables → Tables × PublishResult) (now : ℕ) where
  abbrev pub revoke_published : GrantDb → Tables × PublishResult → GrantDb × ParentAnswer Bool
  revoke_published db (t, failed) = (db, crashed)
  revoke_published db (t, unchanged v e) = (record db { tables = t }, done true)
  revoke_published db (t, published v e h) = (record db { tables = t }, done true)

  abbrev pub revoke_for : Option ℕ → GrantDb → GrantDb × ParentAnswer Bool
  revoke_for none db = (db, done true)
  revoke_for (some device_id) db = revoke_published db (publish device_id db.overrides db.tables)

  abbrev pub revoke_found : ℕ → Option GrantRow → GrantDb → GrantDb × ParentAnswer Bool
  revoke_found user_id none db = (db, fail 404)
  revoke_found user_id (some r) db =
      revoke_for r.device_id
        (record db { overrides = map (take_back now user_id r.id) db.overrides })

  -- handleRevokeOverride.
  unfoldable pub revoke_override : ℕ → ℕ → Option ℕ → GrantDb → GrantDb × ParentAnswer Bool
  revoke_override household_id user_id none db = (db, fail 400)
  revoke_override household_id user_id (some id) db =
      revoke_found user_id
        (find (λ r. (r.id == id) && (r.household_id == household_id)) db.overrides) db
