-- ===== src/History/Tones.antt =====
-- apps/api/src/lib/history.ts: which rows of the history are red.
pub mod Pushes
pub mod Branches
use homeparentcontrol.Prelude.{
  ℕ, ◌≤◌, ==_iff, All-map_imp, All-filter, All-filter_self, leb→le, zero, suc, ◌+◌, ◌-◌, ◌/◌, ◌≡◌,
  refl, String, Bool, true, false, ◌&&◌, ◌||◌, not, List, [], ◌∷◌, Option, none, some, arith,
  if◌then◌else◌, All, All-append, All-flat_map, filter, inl, inr, ◌⊎◌, str_eq, if-holds, is_some,
  or_else, leb, ltb, ◌==◌, get_or, any,
}
use homeparentcontrol.Prelude.Int.{ℤ, pos}
use homeparentcontrol.Prelude.Sort.{sort-All}
use homeparentcontrol.Prelude.Members.{All-map, All-zip, All-Memᴰ}
use mathlib.Core.List.{Memᴰ}
use homeparentcontrol.Restriction.{Restriction}
use homeparentcontrol.History.{
  alarm, plain, Line, HistoryRow, RawHistoryRow, DeviceContext, PolicyReason, RestrictionLookup,
  gap_probe_ms, clock_incident_ms, boot_launch_ms,
}
use homeparentcontrol.History.Device.{
  push_at, turn_on, turn_on_as, shut_off, shut_down_from, unexplained_stop, unexplained_from,
  stopping, is_over, powered_on, launched_in, launched_by, launched, agent_started, unlocked_in,
  clock_stepped_by, clock_corrected, probe_gap, gap_watch, unreported_in, unreported, applied, told,
  present_row, present_rows, first_story, settle_from, settle_stop, present_device, reason_of,
}
use homeparentcontrol.History.Story.{
  Stop, Story, watching, is_known_boot, is_right, is_within, is_stop_part, same_version, is_top_up,
}
use homeparentcontrol.History.Timeline.{newer, lines_of, devices_from, present_history}
use homeparentcontrol.History.Tones.Pushes.{
  tricks, is_trick, IsWatched, IsSilence, IsRedFor, Holds, plain-Holds, trick-Holds, watched-Holds,
  turn_on_as-Holds, turn_on-Holds, shut_down_from-Holds, shut_off-Holds, unexplained_from-Holds,
  unexplained_stop-Holds, settle_from-Holds, settle_stop-Holds,
}
use homeparentcontrol.History.Tones.Branches.{
  stopping-Holds, powered_on-Holds, launched_in-Holds, launched_by-Holds, launched-Holds,
  agent_started-Holds, unlocked_in-Holds, clock_stepped_by-Holds, clock_corrected-Holds,
}

if-holds_by {ℓ κ} :
    {A : Type ℓ} (P : A → Type κ) (c : Bool) {x y : A}
    → (c ≡ true → P x)
    → P y
    → P (if c then x else y)
if-holds_by P true p q = p refl
if-holds_by P false p q = q

of_device :
    (d : ℕ) (rows : List RawHistoryRow)
    → All (λ r. Memᴰ r rows × (r.device_id ≡ d)) (filter (λ r. r.device_id == d) rows)
of_device d rows =
    All-map_imp (λ r h. (h.0, (==_iff r.device_id d).0 h.1)) (filter (λ r. r.device_id == d) rows)
      (All-zip (λ r. Memᴰ r rows) (λ r. (r.device_id == d) ≡ true)
        (filter (λ r. r.device_id == d) rows)
        (All-filter (λ r. Memᴰ r rows) (λ r. r.device_id == d) rows (All-Memᴰ rows))
        (All-filter_self (λ r. r.device_id == d) rows))

module _ (device_id : ℕ) (reasons : ℕ → ℕ → Option PolicyReason) (restriction : RestrictionLookup)
    (raw : List RawHistoryRow) where
  -- A watch rule that is that of some moment of a silence, if any is found.
  record IsSeen (start end_ : ℕ) (w : Restriction) : Type 0 where
    moment : ℕ
    inside : (start ≤ moment) × (moment ≤ end_) ⊎ (moment ≡ end_)
    seen : watching restriction device_id moment ≡ some w

  abbrev Seen : ℕ → ℕ → Option Restriction → Type 0
  Seen start end_ none = Unit
  Seen start end_ (some w) = IsSeen start end_ w

  Seen-by :
      (start end_ t : ℕ) (o : Option Restriction)
      → (start ≤ t) × (t ≤ end_) ⊎ (t ≡ end_)
      → watching restriction device_id t ≡ o
      → Seen start end_ o
  Seen-by start end_ t none i q = tt
  Seen-by start end_ t (some w) i q = record { moment = t; inside = i; seen = q }

  or_else-Seen :
      (start end_ : ℕ) (a b : Option Restriction)
      → Seen start end_ a
      → Seen start end_ b
      → Seen start end_ (or_else a b)
  or_else-Seen start end_ none b p q = q
  or_else-Seen start end_ (some w) b p q = p

  probe_gap-Seen :
      (fuel start t end_ : ℕ)
      → start ≤ t
      → Seen start end_ (probe_gap device_id reasons restriction fuel t end_)
  unfolding probe_gap
  probe_gap-Seen zero start t end_ h = tt
  probe_gap-Seen (suc fuel) start t end_ h =
      if-holds_by (Seen start end_) (leb t end_)
        (λ e.
          or_else-Seen start end_ (watching restriction device_id t) _
            (Seen-by start end_ t _ (inl (h, leb→le t end_ e)) refl)
            (probe_gap-Seen fuel start (t + gap_probe_ms) end_ (omega arith)))
        tt

  gap_watch-Seen :
      (start end_ : ℕ) → Seen start end_ (gap_watch device_id reasons restriction start end_)
  gap_watch-Seen start end_ =
      or_else-Seen start end_
        (probe_gap device_id reasons restriction (suc ((end_ - start) / gap_probe_ms)) start end_)
        (watching restriction device_id end_)
        (probe_gap-Seen (suc ((end_ - start) / gap_probe_ms)) start start end_ (omega arith))
        (Seen-by start end_ end_ _ (inr refl) refl)

  -- A row of the history of this device.
  abbrev IsOf : RawHistoryRow → Type 0
  IsOf r = Memᴰ r raw × (r.device_id ≡ device_id)

  unreported_in-Holds :
      (r : RawHistoryRow) (o : Option Restriction) (s : Story)
      → IsOf r
      → str_eq r.kind "unreported" ≡ true
      → Seen r.occurred_at (get_or r.detail.to_time r.occurred_at) o
      → Holds device_id reasons restriction raw s
      → Holds device_id reasons restriction raw (
          unreported_in device_id reasons restriction r (get_or r.detail.to_time r.occurred_at) o s)
  unreported_in-Holds r none s m k q h = h
  unreported_in-Holds r (some w) s m k q h = All-append _ s.out _ h (
    (λ e. inr (
        inr (record {
          kind = refl;
          source = r;
          given = m.0;
          told_as = k;
          device = m.1;
          begins = refl;
          moment = q.moment;
          inside = q.inside;
          watched = rw (q.seen) refl;
        }))),
    tt,
  )

  unreported-Holds :
      (r : RawHistoryRow) (s : Story)
      → IsOf r
      → str_eq r.kind "unreported" ≡ true
      → Holds device_id reasons restriction raw s
      → Holds device_id reasons restriction raw (unreported device_id reasons restriction r s)
  unfolding unreported
  unreported-Holds r s m k h =
      let end_ = get_or r.detail.to_time r.occurred_at in
      unreported_in-Holds r (gap_watch device_id reasons restriction r.occurred_at end_) s m k
        (gap_watch-Seen r.occurred_at end_) h

  applied-Holds :
      (r : RawHistoryRow) (s : Story)
      → Holds device_id reasons restriction raw s
      → Holds device_id reasons restriction raw (applied device_id reasons restriction r s)
  applied-Holds r s h =
      if-holds (Holds device_id reasons restriction raw)
        (same_version r.policy_version s.last_version) h
        (if-holds (Holds device_id reasons restriction raw)
          (is_top_up (reason_of device_id reasons restriction r.policy_version)) h
          (plain-Holds device_id reasons restriction raw r.occurred_at "policy_applied" _ s.seq
            r.policy_version s h))

  told-Holds :
      (r : RawHistoryRow) (s : Story)
      → IsOf r
      → Holds device_id reasons restriction raw s
      → Holds device_id reasons restriction raw (told device_id reasons restriction r s)
  unfolding told
  told-Holds r s m h =
      if-holds (Holds device_id reasons restriction raw) (str_eq r.kind "network_time_off")
        (trick-Holds device_id reasons restriction raw r.occurred_at "network_time_off" _ s.seq none
          s refl h)
        (if-holds (Holds device_id reasons restriction raw) (str_eq r.kind "timezone_changed")
          (trick-Holds device_id reasons restriction raw r.occurred_at "timezone_changed" _ s.seq
            none s refl h)
          (if-holds (Holds device_id reasons restriction raw) (str_eq r.kind "used_in_bedtime")
            (trick-Holds device_id reasons restriction raw r.occurred_at "used_in_bedtime" _ s.seq
              none s refl h)
            (if-holds (Holds device_id reasons restriction raw) (str_eq r.kind "asleep")
              (plain-Holds device_id reasons restriction raw r.occurred_at "asleep" _ s.seq none s
                h)
              (if-holds_by (Holds device_id reasons restriction raw) (str_eq r.kind "unreported")
                (λ k. unreported-Holds r s m k h)
                (if-holds (Holds device_id reasons restriction raw) (str_eq r.kind "policy_applied")
                  (applied-Holds r s h)
                  (plain-Holds device_id reasons restriction raw r.occurred_at r.kind r.summary
                    s.seq r.policy_version s h))))))

  present_row-Holds :
      (r : RawHistoryRow) (s : Story)
      → IsOf r
      → Holds device_id reasons restriction raw s
      → Holds device_id reasons restriction raw (present_row device_id reasons restriction r s)
  unfolding present_row
  present_row-Holds r s0 m h =
      let s = record s0 { seq = s0.seq + 1 } in
      if-holds (Holds device_id reasons restriction raw) (is_stop_part r)
        (stopping-Holds device_id reasons restriction raw r s h)
        (if-holds (Holds device_id reasons restriction raw) (str_eq r.kind "power_on")
          (powered_on-Holds device_id reasons restriction raw r s h)
          (if-holds (Holds device_id reasons restriction raw) (str_eq r.kind "agent_started")
            (agent_started-Holds device_id reasons restriction raw r s h)
            (if-holds (Holds device_id reasons restriction raw) (str_eq r.kind "session_unlocked")
              (unlocked_in-Holds device_id reasons restriction raw r
                (watching restriction device_id r.occurred_at) s refl h)
              (if-holds (Holds device_id reasons restriction raw) (str_eq r.kind "clock_stepped")
                (clock_stepped_by-Holds device_id reasons restriction raw r r.detail.offset_s s h)
                (if-holds (Holds device_id reasons restriction raw)
                  (str_eq r.kind "clock_corrected")
                  (clock_corrected-Holds device_id reasons restriction raw r s h)
                  (told-Holds r s m h))))))

  present_rows-Holds :
      (rows : List RawHistoryRow) (s : Story)
      → All IsOf rows
      → Holds device_id reasons restriction raw s
      → Holds device_id reasons restriction raw (present_rows device_id reasons restriction rows s)
  unfolding present_rows
  present_rows-Holds [] s m h = h
  present_rows-Holds (r ∷ rs) s m h =
      present_rows-Holds rs (present_row device_id reasons restriction r s) m.1
        (present_row-Holds r s m.0 h)

  present_device-Red :
      (c : DeviceContext) (rows : List RawHistoryRow)
      → All IsOf rows
      → All
          (λ x. IsRedFor restriction raw x.row)
          (present_device device_id reasons restriction c rows)
  unfolding present_device
  present_device-Red c rows m =
      settle_stop-Holds device_id reasons restriction raw c.removed
        (present_rows device_id reasons restriction rows
          (first_story device_id reasons restriction c))
        (present_rows-Holds rows (first_story device_id reasons restriction c) m tt)

module _ (contexts : ℕ → DeviceContext) (reasons : ℕ → ℕ → Option PolicyReason)
    (restriction : RestrictionLookup) where
  -- A red row of the history is of a trick around the rules, or it is of a Mac that was turned on
  -- or unlocked at a moment that a rule watches, or it tells of a silence that is among the rows given,
  -- of the same Mac and from the same time on, in which some moment is watched by a rule.
  pub present_history_red :
      (rows : List RawHistoryRow)
      → All (IsRedFor restriction rows) (present_history contexts reasons restriction rows)
  unfolding present_history lines_of
  present_history_red rows = All-map _ _ _ (
      sort-All newer (λ x. IsRedFor restriction rows x.row)
        (lines_of contexts reasons restriction rows)
        (All-flat_map _ _
          (λ d.
            present_device-Red d reasons restriction rows (contexts d)
              (filter (λ r. r.device_id == d) rows) (of_device d rows))
          (devices_from [] rows)))
