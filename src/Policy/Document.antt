-- ===== src/Policy/Document.antt =====
-- apps/api/src/policy/compile.ts: the document that `compilePolicy` assembles for a device.
-- The last step of the code, `policyDocument.parse`, checks the document against the contract's
-- schema; it is applied where the document is published. `localeCompare` is a parameter: a test
-- whether one text comes no later than another. Instants stay in milliseconds.
use homeparentcontrol.Prelude.{
  ℕ, ◌+◌, String, Bool, false, ◌&&◌, ◌||◌, List, [], ◌∷◌, ◌++◌, Option, none, some, map, ltb, leb,
  ◌==◌, str_eq, if◌then◌else◌, get_or, filter,
}
use homeparentcontrol.Prelude.Sort.{sort}
use homeparentcontrol.Calendar.{LocalDate, Tzdb, date_leb, date_eq, date_in_zone, weekdays}
use homeparentcontrol.Policy.{
  Text, codes, TimeText, to_hh_mm, clock_of, WarningInput, WindowInput, ExpectedOnlineInput,
  GrantInput, CompilerInput, OverrideDraft, canonical_days,
}
use homeparentcontrol.Policy.Synthesise.{synthesise}

pub record DocumentWindow : Type 0 where
  pub id : String
  pub label : String
  pub days : List String
  pub restricted_from : TimeText
  pub restricted_until : TimeText
  pub watch_until : Option TimeText
  pub action : String
  pub shutdown_grace_s : ℕ
  pub escalate_after_failures : ℕ
  pub warnings : List WarningInput

pub record ExpectedOnline : Type 0 where
  pub days : List String
  pub from : TimeText
  pub until_ : TimeText

pub record Poll : Type 0 where
  pub base_interval_s : ℕ
  pub boundary_interval_s : ℕ
  pub boundary_lead_s : ℕ

pub record OverridePolicy : Type 0 where
  pub enabled : Bool
  pub allowed_minutes : List ℕ
  pub max_minutes_per_day : ℕ
  pub max_grants_per_day : ℕ

pub record Telemetry : Type 0 where
  pub enabled : Bool
  pub sample_interval_s : ℕ
  pub flush_interval_s : ℕ
  pub collect : List String
  pub max_queue_events : ℕ
  pub max_queue_bytes : ℕ
  pub max_queue_age_days : ℕ
  pub audit_retention_days : ℕ

pub record PolicyDocument : Type 0 where
  pub policy_version : ℕ
  pub issued_at : ℕ
  pub not_before : ℕ
  pub device_id : String
  pub child_id : String
  pub display_name : String
  pub timezone : String
  pub confirm_immediate_effect : Bool
  pub poll : Poll
  pub log_level : String
  pub diagnostics_retention_days : ℕ
  pub windows : List DocumentWindow
  pub overrides : List OverrideDraft
  pub override_policy : OverridePolicy
  pub expected_online : List ExpectedOnline
  pub telemetry : Telemetry
  pub warn_after_s : ℕ

-- `b.leadMinutes - a.leadMinutes`: the longest lead first.
abbrev pub by_lead : WarningInput → WarningInput → Bool
by_lead a b = leb b.lead_minutes a.lead_minutes

unfoldable pub document_window : WindowInput → DocumentWindow
document_window w = record {
  id = w.id;
  label = w.label;
  days = canonical_days w.days;
  restricted_from = to_hh_mm w.restricted_from;
  restricted_until = to_hh_mm w.restricted_until;
  watch_until = elim w.watch_until [ none ↦ none | some t ↦ some (to_hh_mm t) ];
  action = w.action;
  shutdown_grace_s = w.shutdown_grace_s;
  escalate_after_failures = w.escalate_after_failures;
  warnings = sort by_lead w.warnings;
}

unfoldable pub granted_draft : GrantInput → OverrideDraft
granted_draft g = record {
  id = g.id;
  type = g.type;
  window_id = g.window_id;
  minutes = g.minutes;
  effective_date = g.effective_date;
  expires_at = g.expires_at;
  granted_by = g.granted_by;
  granted_via = g.granted_via;
  reason = elim g.reason [ none ↦ none | some r ↦ some (codes r) ];
}

unfoldable pub expected_online_of : ExpectedOnlineInput → ExpectedOnline
expected_online_of w = record {
  days = canonical_days w.days;
  from = to_hh_mm w.from_time;
  until_ = to_hh_mm w.until_time;
}

-- `WEEKDAYS.indexOf(days[0])`, plus one: 0 where there is no such weekday.
unfoldable pub index_from : ℕ → String → List String → ℕ
index_from i s [] = 0
index_from i s (d ∷ ds) = if str_eq d s then i else index_from (i + 1) s ds

abbrev pub first_day : List String → ℕ
first_day [] = 0
first_day (d ∷ ds) = index_from 1 d weekdays

-- The order of the texts HH:MM.
abbrev pub time_leb : TimeText → TimeText → Bool
time_leb a b =
    let x = clock_of a in
    let y = clock_of b in ltb x.hour y.hour || ((x.hour == y.hour) && leb x.minute y.minute)

abbrev pub by_first_day : ExpectedOnline → ExpectedOnline → Bool
by_first_day a b =
    ltb (first_day a.days) (first_day b.days)
    || ((first_day a.days == first_day b.days) && time_leb a.from b.from)

-- The policy's zone wins.
abbrev pub zone_of : CompilerInput → String
zone_of input = get_or input.child_timezone input.household_timezone

abbrev pub today_of : Tzdb → CompilerInput → LocalDate
today_of tz input = date_in_zone tz input.now (zone_of input)

module _ (collate : Text → Text → Bool) where
  abbrev pub by_sort_order : WindowInput → WindowInput → Bool
  by_sort_order a b =
      ltb a.sort_order b.sort_order
      || ((a.sort_order == b.sort_order) && collate (codes a.id) (codes b.id))

  abbrev pub by_date : OverrideDraft → OverrideDraft → Bool
  by_date a b =
      if date_eq a.effective_date b.effective_date
      then collate a.id b.id
      else date_leb a.effective_date b.effective_date

module _ (tz : Tzdb) (uuid : List Text → Text) (collate : Text → Text → Bool) where
  -- Every relaxation must still be live.
  unfoldable pub overrides_of : CompilerInput → List OverrideDraft
  overrides_of input = sort (by_date collate) (
      filter (λ o. ltb input.now o.expires_at)
        (map granted_draft input.grants
          ++ synthesise tz uuid (zone_of input) input (today_of tz input)))

  unfoldable pub compile_policy : CompilerInput → PolicyDocument
  compile_policy input = record {
    policy_version = input.next_version;
    issued_at = input.now;
    not_before = input.now;
    device_id = input.device_id;
    child_id = input.child_id;
    display_name = input.display_name;
    timezone = zone_of input;
    confirm_immediate_effect = false;
    poll = record {
      base_interval_s = input.policy_set.poll_base_interval_s;
      boundary_interval_s = input.policy_set.poll_boundary_interval_s;
      boundary_lead_s = input.policy_set.poll_boundary_lead_s;
    };
    log_level = input.policy_set.agent_log_level;
    diagnostics_retention_days = input.policy_set.diagnostics_retention_days;
    windows = map document_window (sort (by_sort_order collate) input.windows);
    overrides = overrides_of input;
    override_policy = record {
      enabled = input.policy_set.override_enabled;
      allowed_minutes = input.policy_set.override_allowed_minutes;
      max_minutes_per_day = input.policy_set.override_max_minutes_per_day;
      max_grants_per_day = input.policy_set.override_max_grants_per_day;
    };
    expected_online = sort by_first_day (map expected_online_of input.expected_online);
    telemetry = record {
      enabled = input.policy_set.telemetry_enabled;
      sample_interval_s = input.policy_set.telemetry_sample_interval_s;
      flush_interval_s = input.policy_set.telemetry_flush_interval_s;
      collect = input.policy_set.telemetry_collect;
      max_queue_events = input.policy_set.telemetry_max_queue_events;
      max_queue_bytes = input.policy_set.telemetry_max_queue_bytes;
      max_queue_age_days = input.policy_set.telemetry_max_queue_age_days;
      audit_retention_days = input.policy_set.telemetry_audit_retention_days;
    };
    warn_after_s = input.policy_set.staleness_warn_after_s;
  }
