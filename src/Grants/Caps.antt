-- ===== src/Grants/Caps.antt =====
-- apps/api/src/routes/parent-overrides.ts: what a day's grants come to.
use homeparentcontrol.Prelude.{
  ℕ, ◌+◌, ◌≤◌, ◌<◌, max, ◌≡◌, refl, true, false, ◌&&◌, List, ◌∷◌, Option, none, some, find, length,
  ltb, arith, ◌==◌, get_or, inl, inr, Bool-cases, subst,
}
use homeparentcontrol.Calendar.{Tzdb, LocalDate, date_in_zone, date_eq}
use homeparentcontrol.Policy.Publish.{Tables, PublishResult, unchanged, published, failed}
use homeparentcontrol.Access.{is_decommissioned, ParentAnswer, done, fail, crashed}
use homeparentcontrol.Grants.{
  GrantType, extend, suspend, GrantRow, GrantDevice, OverrideCaps, GrantBody, GrantDb, GrantSent,
  is_of_day, grants_today, minutes_used, override_caps, needs_minutes, is_over_caps, stored_minutes,
  grant_published, grant_row, grant_device, grant_override,
}

-- The caps of the device's policy set bound the grants of its child's day: their number, and their
-- minutes unless they were over before.
pub record IsCapped (household_id : ℕ) (date : GrantDevice → LocalDate) (b : GrantBody)
    (before after : GrantDb) : Type 0 where
  pub device : GrantDevice
  pub found :
      find (λ d. (d.id == b.device_id) && (d.household_id == household_id)) before.devices
      ≡ some device
  pub caps :
      (c : OverrideCaps)
      → override_caps device.policy_set_id before.caps ≡ some c
      → (length (grants_today device.child_id (date device) after.overrides) ≤ c.max_grants_per_day)
        × (minutes_used (grants_today device.child_id (date device) after.overrides)
            ≤ max c.max_minutes_per_day
                (minutes_used (grants_today device.child_id (date device) before.overrides)))

date_eq_self : (d : LocalDate) → date_eq d d ≡ true
unfolding date_eq
date_eq_self d = ground arith

own_child : (a : ℕ) → ((a == a) && true) ≡ true
own_child a = ground arith

own_day :
    (date : LocalDate) (row : GrantRow)
    → row.effective_date ≡ date
    → row.revoked_at ≡ none
    → is_of_day row.child_id date row ≡ true
own_day date row e r = rw (e, r, date_eq_self date) (own_child row.child_id)

grants_today-cons :
    (date : LocalDate) (row : GrantRow) (rows : List GrantRow)
    → row.effective_date ≡ date
    → row.revoked_at ≡ none
    → grants_today row.child_id date (row ∷ rows) ≡ row ∷ grants_today row.child_id date rows
unfolding grants_today
grants_today-cons date row rows e r = rw (own_day date row e r) refl

fits_count :
    (c : OverrideCaps) (m : Option ℕ) (used : List GrantRow)
    → is_over_caps (some c) m used ≡ false
    → length used < c.max_grants_per_day
unfolding is_over_caps
fits_count c m used h = ground (arith, h)

fits_minutes :
    (c : OverrideCaps) (t : GrantType) (m : Option ℕ) (used : List GrantRow)
    → is_over_caps (some c) m used ≡ false
    → get_or (stored_minutes t m) 0 + minutes_used used
      ≤ max c.max_minutes_per_day (minutes_used used)
unfolding is_over_caps
fits_minutes c suspend m used h = omega arith
fits_minutes c extend none used h = omega arith
fits_minutes c extend (some m) used h =
    let q : ltb c.max_minutes_per_day (minutes_used used + m) ≡ false = ground (arith, h) in
    ground (arith, q)

-- What a grant leaves: nothing where it fails, and else a day within the caps, also where no policy could
-- be published after the write.
abbrev pub Caps :
    ℕ
    → (GrantDevice → LocalDate)
    → Option GrantBody
    → GrantDb
    → GrantDb × ParentAnswer GrantSent
    → Type 0
Caps household_id date none before (after, a) = after ≡ before
Caps household_id date (some b) before (after, fail n) = after ≡ before
Caps household_id date (some b) before (after, done sent) =
    IsCapped household_id date b before after
Caps household_id date (some b) before (after, crashed) = IsCapped household_id date b before after

module _ (tz : Tzdb) (printed_hour : ℕ → ℕ)
    (publish : ℕ → List GrantRow → Tables → Tables × PublishResult) (now : ℕ) where
  -- The day that a grant counts for.
  abbrev pub granted_day : GrantDevice → LocalDate
  granted_day d = date_in_zone tz now (get_or d.timezone "UTC")

  module _ (id household_id user_id : ℕ) (b : GrantBody) where
    grant_published-Caps :
        (at : ℕ) (before after : GrantDb) (r : Tables × PublishResult)
        → IsCapped household_id granted_day b before after
        → Caps household_id granted_day
            (some b)
            before
            (grant_published tz printed_hour publish now id at after r)
    grant_published-Caps at before after (t, failed) c = c
    grant_published-Caps at before after (t, unchanged v e) c = record {
      device = c.device;
      found = c.found;
      caps = c.caps;
    }
    grant_published-Caps at before after (t, published v e h) c = record {
      device = c.device;
      found = c.found;
      caps = c.caps;
    }

    granted-IsCapped :
        (d : GrantDevice) (at : ℕ) (db : GrantDb)
        → find (λ d. (d.id == b.device_id) && (d.household_id == household_id)) db.devices ≡ some d
        → is_over_caps
            (override_caps d.policy_set_id db.caps)
            b.minutes
            (grants_today d.child_id (granted_day d) db.overrides)
          ≡ false
        → IsCapped household_id granted_day b db (record db {
          overrides =
              grant_row tz printed_hour publish now id household_id user_id b d (granted_day d) at
              ∷ db.overrides;
        })
    granted-IsCapped d at db e h =
        let row =
          grant_row tz printed_hour publish now id household_id user_id b d (granted_day d) at in
        let used = grants_today d.child_id (granted_day d) db.overrides in
        record {
          device = d;
          found = e;
          caps = λ c o.
              let q : is_over_caps (some c) b.minutes used ≡ false =
                subst (λ x. is_over_caps x b.minutes used ≡ false) o h in
              let n = fits_count c b.minutes used q in
              let m = fits_minutes c b.type b.minutes used q in
              rw (grants_today-cons (granted_day d) row db.overrides refl refl) (n, m);
        }

    grant_device-Caps :
        (o : Option GrantDevice) (db : GrantDb)
        → find (λ d. (d.id == b.device_id) && (d.household_id == household_id)) db.devices ≡ o
        → Caps household_id granted_day
            (some b)
            db
            (grant_device tz printed_hour publish now id household_id user_id b o db)
    grant_device-Caps none db e = refl
    grant_device-Caps (some d) db e = elim (Bool-cases (is_decommissioned d.status)) [
      | inl x ↦ rw x refl
      | inr x ↦
          elim (Bool-cases (
            is_over_caps (override_caps d.policy_set_id db.caps) b.minutes
              (grants_today d.child_id (granted_day d) db.overrides))) [
                | inl y ↦ rw (x, y) refl
                | inr y ↦ rw (x, y) (grant_published-Caps _ db _ _ (granted-IsCapped d _ db e y))
              ]
    ]

  -- A grant that fails leaves the grants as they were. One that is recorded was for a device of the
  -- household, and keeps the caps of its policy set: the grants of the child's day that were not taken
  -- back are no more than the cap, and their minutes are no more than the cap, or than before. This holds
  -- also where the publication fails after the write.
  pub grant_override-Caps :
      (id household_id user_id : ℕ) (body : Option GrantBody) (db : GrantDb)
      → Caps household_id granted_day body db
          (grant_override tz printed_hour publish now id household_id user_id body db)
  unfolding grant_override
  grant_override-Caps id household_id user_id none db = refl
  grant_override-Caps id household_id user_id (some b) db = elim (Bool-cases (needs_minutes b)) [
    | inl x ↦ rw x refl
    | inr x ↦ rw x (grant_device-Caps id household_id user_id b _ db refl)
  ]
