-- ===== src/History/Tones/Branches.antt =====
-- apps/api/src/lib/history.ts: the rows that stops, launches, unlocks and clocks add.
use homeparentcontrol.Prelude.{
  if-holds, ℕ, ◌+◌, ◌≡◌, refl, ◌&&◌, ◌||◌, not, List, Option, none, some, is_some, ltb, get_or,
}
use homeparentcontrol.Prelude.Int.{ℤ, pos}
use homeparentcontrol.Restriction.{Restriction}
use homeparentcontrol.History.{
  RawHistoryRow, PolicyReason, RestrictionLookup, clock_incident_ms, boot_launch_ms,
}
use homeparentcontrol.History.Device.{
  shut_off, stopping, is_over, powered_on, launched_in, launched_by, launched, agent_started,
  unlocked_in, clock_stepped_by, clock_corrected,
}
use homeparentcontrol.History.Story.{Stop, Story, watching, is_known_boot, is_right, is_within}
use homeparentcontrol.History.Tones.Pushes.{
  Holds, plain-Holds, trick-Holds, watched-Holds, turn_on-Holds, shut_off-Holds,
  unexplained_stop-Holds,
}

module _ (device_id : ℕ) (reasons : ℕ → ℕ → Option PolicyReason) (restriction : RestrictionLookup)
    (raw : List RawHistoryRow) where
  pub stopping-Holds :
      (r : RawHistoryRow) (s : Story)
      → Holds device_id reasons restriction raw s
      → Holds device_id reasons restriction raw (stopping device_id reasons restriction r s)
  stopping-Holds r s h =
      if-holds (Holds device_id reasons restriction raw)
        (is_over device_id reasons restriction r.occurred_at s.stop)
        (unexplained_stop-Holds device_id reasons restriction raw s h) h

  pub powered_on-Holds :
      (r : RawHistoryRow) (s : Story)
      → Holds device_id reasons restriction raw s
      → Holds device_id reasons restriction raw (powered_on device_id reasons restriction r s)
  powered_on-Holds r s h =
      let t = shut_off device_id reasons restriction s in
      let k = shut_off-Holds device_id reasons restriction raw s h in
      if-holds (Holds device_id reasons restriction raw) (is_known_boot r.occurred_at t.last_boot) k
        (turn_on-Holds device_id reasons restriction raw r.occurred_at t k)

  pub launched_in-Holds :
      (r : RawHistoryRow) (boot : ℕ) (s : Story)
      → Holds device_id reasons restriction raw s
      → Holds device_id reasons restriction raw (launched_in device_id reasons restriction r boot s)
  launched_in-Holds r boot s h =
      if-holds (Holds device_id reasons restriction raw) (is_known_boot boot s.last_boot)
        (if-holds (Holds device_id reasons restriction raw)
          (ltb (boot + boot_launch_ms) r.occurred_at)
          (plain-Holds device_id reasons restriction raw r.occurred_at "agent_restarted" _ s.seq
            none s h)
          h)
        (if-holds (Holds device_id reasons restriction raw)
          (not s.seen_any && not (is_some s.last_boot))
          (plain-Holds device_id reasons restriction raw r.occurred_at "agent_started" _ s.seq none
            s h)
          (turn_on-Holds device_id reasons restriction raw boot
            (shut_off device_id reasons restriction s)
            (shut_off-Holds device_id reasons restriction raw s h)))

  pub launched_by-Holds :
      (r : RawHistoryRow) (o : Option Stop) (s : Story)
      → Holds device_id reasons restriction raw s
      → Holds device_id reasons restriction raw (launched_by device_id reasons restriction r o s)
  launched_by-Holds r none s h =
      if-holds (Holds device_id reasons restriction raw) s.seen_any
        (plain-Holds device_id reasons restriction raw r.occurred_at "agent_restarted" _ s.seq none
          s h)
        (plain-Holds device_id reasons restriction raw r.occurred_at "agent_started" _ s.seq none s
          h)
  launched_by-Holds r (some st) s h =
      if-holds (Holds device_id reasons restriction raw) st.bedtime
        (turn_on-Holds device_id reasons restriction raw r.occurred_at
          (shut_off device_id reasons restriction s)
          (shut_off-Holds device_id reasons restriction raw s h))
        (plain-Holds device_id reasons restriction raw r.occurred_at "agent_restarted" _ s.seq none
          s h)

  pub launched-Holds :
      (r : RawHistoryRow) (o : Option ℕ) (s : Story)
      → Holds device_id reasons restriction raw s
      → Holds device_id reasons restriction raw (launched device_id reasons restriction r o s)
  launched-Holds r (some boot) s h = launched_in-Holds r boot s h
  launched-Holds r none s h =
      if-holds (Holds device_id reasons restriction raw)
        (is_within r.occurred_at s.last_boot boot_launch_ms) h (launched_by-Holds r s.stop s h)

  pub agent_started-Holds :
      (r : RawHistoryRow) (s : Story)
      → Holds device_id reasons restriction raw s
      → Holds device_id reasons restriction raw (agent_started device_id reasons restriction r s)
  agent_started-Holds r s h =
      if-holds (Holds device_id reasons restriction raw) r.detail.enrolled
        (plain-Holds device_id reasons restriction raw r.occurred_at "registered" _ s.seq none s h)
        (launched-Holds r r.detail.boot_time s h)

  pub unlocked_in-Holds :
      (r : RawHistoryRow) (o : Option Restriction) (s : Story)
      → watching restriction device_id r.occurred_at ≡ o
      → Holds device_id reasons restriction raw s
      → Holds device_id reasons restriction raw (unlocked_in device_id reasons restriction r o s)
  unlocked_in-Holds r none s q h = h
  unlocked_in-Holds r (some w) s q h =
      watched-Holds device_id reasons restriction raw "session_unlocked" r.occurred_at _ w s refl q
        h

  pub clock_stepped_by-Holds :
      (r : RawHistoryRow) (o : Option (Option ℤ)) (s : Story)
      → Holds device_id reasons restriction raw s
      → Holds device_id reasons restriction raw
          (clock_stepped_by device_id reasons restriction r o s)
  clock_stepped_by-Holds r none s h = h
  clock_stepped_by-Holds r (some none) s h = h
  clock_stepped_by-Holds r (some (some z)) s h =
      if-holds (Holds device_id reasons restriction raw) (is_right (some z))
        (plain-Holds device_id reasons restriction raw r.occurred_at "clock_right" _ s.seq none s h)
        (trick-Holds device_id reasons restriction raw r.occurred_at "clock_changed" _ s.seq none s
          refl h)

  pub clock_corrected-Holds :
      (r : RawHistoryRow) (s : Story)
      → Holds device_id reasons restriction raw s
      → Holds device_id reasons restriction raw (clock_corrected device_id reasons restriction r s)
  clock_corrected-Holds r s h =
      if-holds (Holds device_id reasons restriction raw)
        (is_right (get_or r.detail.offset_s (some (pos 0)))
          || is_within r.occurred_at s.last_clock_alarm clock_incident_ms)
        (plain-Holds device_id reasons restriction raw r.occurred_at "clock_corrected" _ s.seq none
          s h)
        (trick-Holds device_id reasons restriction raw r.occurred_at "clock_corrected" _ s.seq none
          s refl h)
