-- ===== src/Grants/Tests.antt =====
-- Half an hour on an evening of the first day, in a zone that is at UTC.
use homeparentcontrol.Prelude.{ℕ, List, [], ◌∷◌, none, some, ◌*◌}
use homeparentcontrol.Prelude.Int.{pos}
use homeparentcontrol.Calendar.{Tzdb}
use homeparentcontrol.Policy.Publish.{Tables, PublishResult, unchanged}
use homeparentcontrol.Access.{active}
use homeparentcontrol.Grants.{extend, GrantRow, GrantBody, GrantDb, grant_override}
use homeparentcontrol.Grants.Caps.{Caps, granted_day, grant_override-Caps}

abbrev utc : Tzdb
utc zone at = pos 0

abbrev as_is : ℕ → ℕ
as_is h = h

abbrev no_change : ℕ → List GrantRow → Tables → Tables × PublishResult
no_change id rows t = (t, unchanged 4 [])

abbrev evening : ℕ
evening = 21 * 3600000

abbrev half_an_hour : GrantBody
half_an_hour = record { device_id = 1; type = extend; minutes = some 30; reason = none }

abbrev no_grants : GrantDb
no_grants = record {
  overrides = [];
  devices =
      (record {
        id = 1;
        household_id = 1;
        child_id = 1;
        policy_set_id = some 1;
        timezone = none;
        status = active;
      })
      ∷ [];
  caps = (record { set_id = 1; max_minutes_per_day = 60; max_grants_per_day = 1 }) ∷ [];
  tables = record { devices = []; versions = [] };
}

grant_override-Caps_example :
    Caps 1
      (granted_day utc as_is no_change evening)
      (some half_an_hour)
      no_grants
      (grant_override utc as_is no_change evening 1 1 9 (some half_an_hour) no_grants)
grant_override-Caps_example =
    grant_override-Caps utc as_is no_change evening 1 1 9 (some half_an_hour) no_grants
