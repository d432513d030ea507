-- ===== src/History/Bedtime.antt =====
-- apps/api/src/lib/history.ts: the use of a Mac during bedtime, found by probing each minute of the
-- stretches in which it was unlocked.
use homeparentcontrol.Prelude.{
  ℕ, zero, suc, ◌+◌, ◌-◌, ◌*◌, ◌/◌, String, Bool, false, ◌&&◌, List, [], ◌∷◌, ◌++◌, Option, none,
  some, leb, ◌==◌, str_eq, if◌then◌else◌, get_or, any, min, map,
}
use homeparentcontrol.Restriction.{Restriction, enforced, watch}
use homeparentcontrol.History.{
  RawHistoryRow, RestrictionLookup, used_in_bedtime, bedtime_use_slack_ms, bedtime_probe_ms,
  bedtime_probe_cap_ms,
}

pub record UnlockedSpan : Type 0 where
  pub device_id : ℕ
  pub started_at : ℕ
  pub ended_at : Option ℕ

-- A rule's night, as an offence against it names it.
pub record Offence : Type 0 where
  pub window_id : String
  pub label : String
  pub action : Option String
  pub enforced_from : ℕ

abbrev pub is_action : String → Option String → Bool
is_action a none = false
is_action a (some b) = str_eq b a

-- From when use is not allowed: the lock, or the shutdown after its grace, and the slack.
abbrev pub due : Restriction → ℕ → ℕ
due r enforced_from =
    enforced_from
    + (if is_action "shutdown" r.action then get_or r.grace_s 300 * 1000 else 0)
    + bedtime_use_slack_ms

abbrev pub offence_from : ℕ → Restriction → Option ℕ → Option Offence
offence_from t r none = none
offence_from t r (some enforced_from) =
    if is_action "warn_only" r.action
    then none
    else if leb (due r enforced_from) t
    then some (record {
      window_id = r.window_id;
      label = r.label;
      action = r.action;
      enforced_from = enforced_from;
    })
    else none

-- What the use of the Mac at `t` offends against.
abbrev pub offence_at : ℕ → Option Restriction → Option Offence
offence_at t none = none
offence_at t (some r) = elim r.phase [ enforced ↦ offence_from t r r.enforced_from | watch ↦ none ]

-- A use that is reported.
pub record Use : Type 0 where
  pub device_id : ℕ
  pub at : ℕ
  pub offence : Offence

-- Of one device, rule and night.
abbrev pub same_night : Use → Use → Bool
same_night a b =
    (a.device_id == b.device_id)
    && (str_eq a.offence.window_id b.offence.window_id
        && (a.offence.enforced_from == b.offence.enforced_from))

abbrev pub row_of : Use → RawHistoryRow
row_of u = record {
  device_id = u.device_id;
  kind = "used_in_bedtime";
  summary = used_in_bedtime u.offence.label (some (get_or u.offence.action "lock"));
  occurred_at = u.at;
  policy_version = none;
  detail = record {
    action = u.offence.action;
    boot_time = none;
    enrolled = false;
    from = none;
    offset_s = none;
    zone = none;
    to_time = none;
    label = some u.offence.label;
    asleep_s = none;
    window_id = some u.offence.window_id;
  };
}

abbrev pub add_use : Option Use → List Use → List Use
add_use none uses = uses
add_use (some u) uses = if any (same_night u) uses then uses else uses ++ (u ∷ [])

abbrev pub span_end : ℕ → UnlockedSpan → ℕ
span_end now s = min (get_or s.ended_at now) (s.started_at + bedtime_probe_cap_ms)

module _ (restriction : RestrictionLookup) where
  abbrev pub offence_of : ℕ → ℕ → Option Offence
  offence_of device_id t = offence_at t (restriction device_id t)

  abbrev pub use_or : ℕ → ℕ → Option Offence → Option Use → Option Use
  use_or device_id t none rest = rest
  use_or device_id t (some o) rest = some (record { device_id = device_id; at = t; offence = o })

  -- The first offending probe. `fuel` above the number of probes is enough.
  unfoldable pub first_use : ℕ → ℕ → ℕ → ℕ → Option Use
  first_use zero device_id t end_ = none
  first_use (suc fuel) device_id t end_ =
      let rest = first_use fuel device_id (t + bedtime_probe_ms) end_ in
      if leb t end_ then use_or device_id t (offence_of device_id t) rest else none

  abbrev pub use_in : ℕ → UnlockedSpan → Option Use
  use_in now s =
      let end_ = span_end now s in
      first_use (suc ((end_ - s.started_at) / bedtime_probe_ms)) s.device_id s.started_at end_

  unfoldable pub uses_from : ℕ → List Use → List UnlockedSpan → List Use
  uses_from now uses [] = uses
  uses_from now uses (s ∷ ss) = uses_from now (add_use (use_in now s) uses) ss

  unfoldable pub bedtime_use : List UnlockedSpan → ℕ → List RawHistoryRow
  bedtime_use spans now = map row_of (uses_from now [] spans)
