-- ===== src/History/Tones/Pushes.antt =====
-- apps/api/src/lib/history.ts: what makes a row red, and the rows that each change of the story adds.
use homeparentcontrol.Prelude.{
  if-holds, get_or, ℕ, ◌≤◌, ◌≡◌, refl, String, Bool, true, List, [], ◌∷◌, Option, none, some, arith,
  All, All-append, inl, inr, ◌⊎◌, str_eq, is_some, any,
}
use mathlib.Core.List.{Memᴰ}
use homeparentcontrol.Restriction.{Restriction}
use homeparentcontrol.History.{
  alarm, plain, Line, HistoryRow, RawHistoryRow, PolicyReason, RestrictionLookup,
}
use homeparentcontrol.History.Device.{
  push_at, turn_on, turn_on_as, shut_off, shut_down_from, unexplained_stop, unexplained_from,
  settle_from, settle_stop,
}
use homeparentcontrol.History.Story.{Stop, Story, watching}

-- The kinds of the tricks around the rules, red at any hour.
abbrev pub tricks : List String
tricks =
    "clock_changed" ∷ "clock_corrected" ∷ "network_time_off" ∷ "timezone_changed"
    ∷ "used_in_bedtime" ∷ []

abbrev pub is_trick : String → Bool
is_trick kind = any (str_eq kind) tricks

-- Turned on or unlocked at a moment that a rule watches.
abbrev pub IsWatched : RestrictionLookup → HistoryRow → Type 0
IsWatched restriction r =
    (any (str_eq r.kind) ("power_on" ∷ "session_unlocked" ∷ []) ≡ true)
    × (is_some (watching restriction r.device_id r.at) ≡ true)

-- On without reporting: one of the rows that the history is made of tells of the silence that begins
-- then on that device, and a rule watches some moment of it, its end included.
pub record IsSilence (restriction : RestrictionLookup) (raw : List RawHistoryRow) (r : HistoryRow)
    : Type 0 where
  pub kind : str_eq r.kind "unreported" ≡ true
  pub source : RawHistoryRow
  pub given : Memᴰ source raw
  pub told_as : str_eq source.kind "unreported" ≡ true
  pub device : source.device_id ≡ r.device_id
  pub begins : source.occurred_at ≡ r.at
  pub moment : ℕ
  pub inside :
      (source.occurred_at ≤ moment) × (moment ≤ get_or source.detail.to_time source.occurred_at)
      ⊎ (moment ≡ get_or source.detail.to_time source.occurred_at)
  pub watched : is_some (watching restriction r.device_id moment) ≡ true

abbrev pub IsRedFor : RestrictionLookup → List RawHistoryRow → HistoryRow → Type 0
IsRedFor restriction raw r =
    r.tone ≡ alarm
    → (is_trick r.kind ≡ true) ⊎ (IsWatched restriction r ⊎ IsSilence restriction raw r)

module _ (device_id : ℕ) (reasons : ℕ → ℕ → Option PolicyReason) (restriction : RestrictionLookup)
    (raw : List RawHistoryRow) where
  abbrev pub Holds : Story → Type 0
  Holds s = All (λ x. IsRedFor restriction raw x.row) s.out

  -- A row that is not red is added.
  pub plain-Holds :
      (at : ℕ) (kind : String) (line : Line) (seq : ℕ) (version : Option ℕ) (s : Story)
      → Holds s
      → Holds (push_at device_id reasons restriction at kind line plain seq version s)
  plain-Holds at kind line seq version s h =
      All-append _ s.out _ h ((λ e. absurd (ground (arith, e))), tt)

  -- A row of a trick.
  pub trick-Holds :
      (at : ℕ) (kind : String) (line : Line) (seq : ℕ) (version : Option ℕ) (s : Story)
      → is_trick kind ≡ true
      → Holds s
      → Holds (push_at device_id reasons restriction at kind line alarm seq version s)
  trick-Holds at kind line seq version s k h = All-append _ s.out _ h ((λ e. inl k), tt)

  -- A row of a moment that is watched.
  pub watched-Holds :
      (kind : String) (at : ℕ) (line : Line) (w : Restriction) (s : Story)
      → any (str_eq kind) ("power_on" ∷ "session_unlocked" ∷ []) ≡ true
      → watching restriction device_id at ≡ some w
      → Holds s
      → Holds (push_at device_id reasons restriction at kind line alarm s.seq none s)
  watched-Holds kind at line w s k q h =
      All-append _ s.out _ h ((λ e. inr (inl (k, rw q refl))), tt)

  pub turn_on_as-Holds :
      (at : ℕ) (o : Option Restriction) (s : Story)
      → watching restriction device_id at ≡ o
      → Holds s
      → Holds (turn_on_as device_id reasons restriction at o s)
  turn_on_as-Holds at none s q h = plain-Holds at "power_on" _ s.seq none s h
  turn_on_as-Holds at (some w) s q h = watched-Holds "power_on" at _ w s refl q h

  pub turn_on-Holds :
      (at : ℕ) (s : Story) → Holds s → Holds (turn_on device_id reasons restriction at s)
  unfolding turn_on
  turn_on-Holds at s h =
      turn_on_as-Holds at (watching restriction device_id at) (record s { last_boot = some at })
        refl h

  pub shut_down_from-Holds :
      (o : Option Stop) (s : Story)
      → Holds s
      → Holds (shut_down_from device_id reasons restriction o s)
  shut_down_from-Holds none s h = h
  shut_down_from-Holds (some st) s h = plain-Holds st.at "power_off" _ st.last_seq none s h

  pub shut_off-Holds : (s : Story) → Holds s → Holds (shut_off device_id reasons restriction s)
  unfolding shut_off
  shut_off-Holds s h = shut_down_from-Holds s.stop s h

  pub unexplained_from-Holds :
      (o : Option Stop) (s : Story)
      → Holds s
      → Holds (unexplained_from device_id reasons restriction o s)
  unexplained_from-Holds none s h = h
  unexplained_from-Holds (some st) s h =
      if-holds Holds st.bedtime (shut_off-Holds s h)
        (plain-Holds st.at "agent_stopped" _ st.last_seq none s h)

  pub unexplained_stop-Holds :
      (s : Story) → Holds s → Holds (unexplained_stop device_id reasons restriction s)
  unfolding unexplained_stop
  unexplained_stop-Holds s h = unexplained_from-Holds s.stop s h

  pub settle_from-Holds :
      (r : Bool) (o : Option Stop) (s : Story)
      → Holds s
      → Holds (settle_from device_id reasons restriction r o s)
  settle_from-Holds r none s h = h
  settle_from-Holds r (some st) s h =
      if-holds Holds r (plain-Holds st.at "agent_removed" _ st.last_seq none s h)
        (unexplained_stop-Holds s h)

  pub settle_stop-Holds :
      (r : Bool) (s : Story) → Holds s → Holds (settle_stop device_id reasons restriction r s)
  unfolding settle_stop
  settle_stop-Holds r s h = settle_from-Holds r s.stop s h
