-- ===== src/History/Device.antt =====
-- apps/api/src/lib/history.ts: the rows of one device, in order, as the lines of its history.
use homeparentcontrol.Prelude.{
  ℕ, zero, suc, ◌+◌, ◌-◌, ◌/◌, String, Bool, false, ◌&&◌, ◌||◌, not, List, [], ◌∷◌, ◌++◌, Option,
  none, some, leb, ltb, str_eq, if◌then◌else◌, get_or, or_else, is_some,
}
use homeparentcontrol.Prelude.Int.{ℤ, pos}
use homeparentcontrol.Restriction.{Restriction}
use homeparentcontrol.History.{
  HistoryTone, alarm, plain, Line, RawHistoryRow, DeviceContext, PolicyReason, RestrictionLookup,
  turned_on, shut_down, shut_down_at_bedtime, started, restarted, stopped, removed, registered,
  clock_right, clock_put_right, network_time_off, turned_on_during, clock_set, clock_was,
  used_in_bedtime, asleep_for, unreported_during, stop_episode_ms, boot_launch_ms, gap_probe_ms,
  clock_incident_ms, span_minutes,
}
use homeparentcontrol.History.Story.{
  Sequenced, Stop, Story, set_seen, drop_stop, is_shutdown, is_stop_part, is_within, is_right,
  zone_text, unlock_text, rules_text, is_top_up, is_known_boot, same_version, watching,
}

module _ (device_id : ℕ) (reasons : ℕ → ℕ → Option PolicyReason)
    (restriction : RestrictionLookup) where
  abbrev pub push_at : ℕ → String → Line → HistoryTone → ℕ → Option ℕ → Story → Story
  push_at at kind summary tone seq version s = record s {
    out =
        s.out
        ++ (record {
          row = record {
            at = at;
            kind = kind;
            summary = summary;
            device_id = device_id;
            policy_version = version;
            tone = tone;
          };
          seq = seq;
        }
            ∷ []);
  }

  abbrev pub push : ℕ → String → Line → HistoryTone → Story → Story
  push at kind summary tone s = push_at at kind summary tone s.seq none s

  abbrev pub turn_on_as : ℕ → Option Restriction → Story → Story
  turn_on_as at none s = push at "power_on" turned_on plain s
  turn_on_as at (some w) s = push at "power_on" (turned_on_during w.label) alarm s

  unfoldable pub turn_on : ℕ → Story → Story
  turn_on at s =
      turn_on_as at (watching restriction device_id at) (record s { last_boot = some at })

  abbrev pub shut_down_from : Option Stop → Story → Story
  shut_down_from none s = s
  shut_down_from (some st) s = drop_stop (
      push_at st.at "power_off" (if st.bedtime then shut_down_at_bedtime else shut_down) plain
        st.last_seq none s)

  unfoldable pub shut_off : Story → Story
  shut_off s = shut_down_from s.stop s

  abbrev pub unexplained_from : Option Stop → Story → Story
  unexplained_from none s = s
  unexplained_from (some st) s =
      if st.bedtime
      then shut_off s
      else drop_stop (push_at st.at "agent_stopped" stopped plain st.last_seq none s)

  unfoldable pub unexplained_stop : Story → Story
  unexplained_stop s = unexplained_from s.stop s

  -- The stop that a row is part of: the one so far, or a new one.
  abbrev pub join_stop : RawHistoryRow → ℕ → Option Stop → Stop
  join_stop r seq none = record {
    at = r.occurred_at;
    last_at = r.occurred_at;
    last_seq = seq;
    bedtime = is_shutdown r.detail.action;
  }
  join_stop r seq (some st) = record st {
    last_at = r.occurred_at;
    last_seq = seq;
    bedtime = is_shutdown r.detail.action || st.bedtime;
  }

  abbrev pub is_over : ℕ → Option Stop → Bool
  is_over at none = false
  is_over at (some st) = ltb (st.last_at + stop_episode_ms) at

  abbrev pub stopping : RawHistoryRow → Story → Story
  stopping r s =
      let t = if is_over r.occurred_at s.stop then unexplained_stop s else s in
      set_seen (record t { stop = some (join_stop r t.seq t.stop) })

  abbrev pub powered_on : RawHistoryRow → Story → Story
  powered_on r s =
      let t = shut_off s in
      set_seen (if is_known_boot r.occurred_at t.last_boot then t else turn_on r.occurred_at t)

  -- A launch in a boot that is known.
  abbrev pub relaunched : RawHistoryRow → ℕ → Story → Story
  relaunched r boot s =
      if ltb (boot + boot_launch_ms) r.occurred_at
      then push r.occurred_at "agent_restarted" restarted plain (drop_stop s)
      else drop_stop s

  -- A launch that says its boot.
  abbrev pub launched_in : RawHistoryRow → ℕ → Story → Story
  launched_in r boot s =
      if is_known_boot boot s.last_boot
      then relaunched r boot s
      else if not s.seen_any && not (is_some s.last_boot)
      then push r.occurred_at "agent_started" started plain (record s { last_boot = some boot })
      else turn_on boot (shut_off s)

  -- A launch of an older agent, that does not.
  abbrev pub launched_by : RawHistoryRow → Option Stop → Story → Story
  launched_by r none s =
      if s.seen_any
      then push r.occurred_at "agent_restarted" restarted plain s
      else push r.occurred_at "agent_started" started plain s
  launched_by r (some st) s =
      if st.bedtime
      then turn_on r.occurred_at (shut_off s)
      else push r.occurred_at "agent_restarted" restarted plain (drop_stop s)

  abbrev pub launched : RawHistoryRow → Option ℕ → Story → Story
  launched r (some boot) s = launched_in r boot s
  launched r none s =
      if is_within r.occurred_at s.last_boot boot_launch_ms
      then drop_stop s
      else launched_by r s.stop s

  abbrev pub agent_started : RawHistoryRow → Story → Story
  agent_started r s = set_seen (
      if r.detail.enrolled
      then push r.occurred_at "registered" registered plain s
      else launched r r.detail.boot_time s)

  abbrev pub unlocked_in : RawHistoryRow → Option Restriction → Story → Story
  unlocked_in r none s = set_seen s
  unlocked_in r (some w) s =
      set_seen (push r.occurred_at "session_unlocked" (unlock_text r.detail.from w.label) alarm s)

  abbrev pub clock_stepped_by : RawHistoryRow → Option (Option ℤ) → Story → Story
  clock_stepped_by r none s = s
  clock_stepped_by r (some none) s = s
  clock_stepped_by r (some (some z)) s =
      if is_right (some z)
      then push r.occurred_at "clock_right" clock_right plain s
      else record (push r.occurred_at "clock_changed" (clock_set (some z)) alarm s) {
        last_clock_alarm = some r.occurred_at;
      }

  abbrev pub clock_corrected : RawHistoryRow → Story → Story
  clock_corrected r s =
      let offset = get_or r.detail.offset_s (some (pos 0)) in
      if is_right offset || is_within r.occurred_at s.last_clock_alarm clock_incident_ms
      then push r.occurred_at "clock_corrected" clock_put_right plain s
      else push r.occurred_at "clock_corrected" (clock_was offset) alarm s

  -- The first watch rule among the probes of a gap. `fuel` above the number of probes is enough.
  unfoldable pub probe_gap : ℕ → ℕ → ℕ → Option Restriction
  probe_gap zero t end_ = none
  probe_gap (suc fuel) t end_ =
      let rest = probe_gap fuel (t + gap_probe_ms) end_ in
      if leb t end_ then or_else (watching restriction device_id t) rest else none

  abbrev pub gap_watch : ℕ → ℕ → Option Restriction
  gap_watch start end_ =
      or_else (probe_gap (suc ((end_ - start) / gap_probe_ms)) start end_)
        (watching restriction device_id end_)

  abbrev pub unreported_in : RawHistoryRow → ℕ → Option Restriction → Story → Story
  unreported_in r end_ none s = s
  unreported_in r end_ (some w) s =
      push r.occurred_at "unreported"
        (unreported_during (span_minutes ((end_ - r.occurred_at) / 1000)) w.label) alarm s

  unfoldable pub unreported : RawHistoryRow → Story → Story
  unreported r s =
      let end_ = get_or r.detail.to_time r.occurred_at in
      unreported_in r end_ (gap_watch r.occurred_at end_) s

  abbrev pub reason_of : Option ℕ → Option PolicyReason
  reason_of none = none
  reason_of (some v) = reasons device_id v

  abbrev pub applied : RawHistoryRow → Story → Story
  applied r s =
      let t = record (set_seen s) { last_version = or_else r.policy_version s.last_version } in
      if same_version r.policy_version s.last_version
      then set_seen s
      else if is_top_up (reason_of r.policy_version)
      then t
      else push_at r.occurred_at "policy_applied" (rules_text (reason_of r.policy_version)) plain
          t.seq r.policy_version t

  -- The rows of no special kind, and those that are told as they are.
  unfoldable pub told : RawHistoryRow → Story → Story
  told r s =
      if str_eq r.kind "network_time_off"
      then push r.occurred_at "network_time_off" network_time_off alarm s
      else if str_eq r.kind "timezone_changed"
      then push r.occurred_at "timezone_changed" (zone_text (get_or r.detail.zone "")) alarm s
      else if str_eq r.kind "used_in_bedtime"
      then push r.occurred_at "used_in_bedtime"
          (used_in_bedtime (get_or r.detail.label "Bedtime") r.detail.action) alarm s
      else if str_eq r.kind "asleep"
      then push r.occurred_at "asleep" (asleep_for (span_minutes (get_or r.detail.asleep_s 0)))
          plain s
      else if str_eq r.kind "unreported"
      then unreported r s
      else if str_eq r.kind "policy_applied"
      then applied r s
      else set_seen (push_at r.occurred_at r.kind r.summary plain s.seq r.policy_version s)

  -- One row of the story.
  unfoldable pub present_row : RawHistoryRow → Story → Story
  present_row r s0 =
      let s = record s0 { seq = s0.seq + 1 } in
      if is_stop_part r
      then stopping r s
      else if str_eq r.kind "power_on"
      then powered_on r s
      else if str_eq r.kind "agent_started"
      then agent_started r s
      else if str_eq r.kind "session_unlocked"
      then unlocked_in r (watching restriction device_id r.occurred_at) s
      else if str_eq r.kind "clock_stepped"
      then clock_stepped_by r r.detail.offset_s s
      else if str_eq r.kind "clock_corrected"
      then clock_corrected r s
      else told r s

  unfoldable pub present_rows : List RawHistoryRow → Story → Story
  present_rows [] s = s
  present_rows (r ∷ rs) s = present_rows rs (present_row r s)

  abbrev pub first_story : DeviceContext → Story
  first_story c = record {
    out = [];
    seq = 0;
    seen_any = c.has_history_before;
    last_version = c.version_before;
    last_boot = c.last_boot_ms;
    stop = none;
    last_clock_alarm = none;
  }

  -- A stop with nothing after it.
  abbrev pub settle_from : Bool → Option Stop → Story → Story
  settle_from is_removed none s = s
  settle_from is_removed (some st) s =
      if is_removed
      then drop_stop (push_at st.at "agent_removed" removed plain st.last_seq none s)
      else unexplained_stop s

  unfoldable pub settle_stop : Bool → Story → Story
  settle_stop is_removed s = settle_from is_removed s.stop s

  unfoldable pub present_device : DeviceContext → List RawHistoryRow → List Sequenced
  present_device c rows = (settle_stop c.removed (present_rows rows (first_story c))).out
