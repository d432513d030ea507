-- ===== src/Restriction.antt =====
-- apps/api/src/lib/restriction.ts: was a moment restricted, and enforced or only watched?
-- A document's texts of times are lists of code points, as the regular expression reads them. A
-- missing field is `none`. An instant is in milliseconds. The expiry of an override is `none` where
-- it is missing or empty, and `some none` where `Date` cannot read it: NaN compares false.
pub mod Nights
pub mod Search
pub mod Result
pub mod Relax
mod Tests
use homeparentcontrol.Prelude.{
  ℕ, zero, suc, ◌+◌, ◌-◌, ◌*◌, ◌≤◌, ◌<◌, String, Bool, true, false, ◌&&◌, ◌||◌, not, List, [], ◌∷◌,
  Option, none, some, ltb, leb, ◌==◌, str_eq, if◌then◌else◌, get_or, or_else, is_some, any, min,
}
use homeparentcontrol.Prelude.Int.{ℤ, pos, negsuc}
use homeparentcontrol.Calendar.{
  LocalDate, HhMm, Tzdb, add_days, weekday_of, date_eq, zoned_to_instant, date_in_zone,
}

abbrev pub Text : Type 0
Text = List ℕ

pub record DocumentWindow : Type 0 where
  pub id : String
  pub label : Option String
  pub days : Option (List String)
  pub restricted_from : Option Text
  pub restricted_until : Option Text
  pub watch_until : Option Text
  pub action : Option String
  pub shutdown_grace_s : Option ℕ

-- The kinds of an override's `type`.
pub data OverrideType : Type 0 where
  suspend extend other_type : OverrideType

pub record DocumentOverride : Type 0 where
  pub type : OverrideType
  pub window_id : Option String
  pub minutes : Option ℕ
  pub effective_date : Option LocalDate
  pub expires_at : Option (Option ℕ)

pub record RestrictionDocument : Type 0 where
  pub timezone : Option String
  pub windows : Option (List DocumentWindow)
  pub overrides : Option (List DocumentOverride)

pub data Phase : Type 0 where
  enforced watch : Phase

pub record Restriction : Type 0 where
  pub phase : Phase
  pub window_id : String
  pub label : String
  pub enforced_from : Option ℕ
  pub action : Option String
  pub grace_s : Option ℕ

abbrev is_digit : ℕ → Bool
is_digit c = leb b'0' c && leb c b'9'

-- `HHMM`, ^(\d{2}):(\d{2})$, with the two numbers that it captures; `none` stands for NaN.
unfoldable pub hh_mm_of : Text → Option HhMm
hh_mm_of (a ∷ b ∷ c ∷ d ∷ e ∷ []) =
    if is_digit a && is_digit b && (c == b':') && is_digit d && is_digit e
    then some
        (record { hour = 10 * (a - b'0') + (b - b'0'); minute = 10 * (d - b'0') + (e - b'0') })
    else none
hh_mm_of _ = none

abbrev pub minutes_of : HhMm → ℕ
minutes_of t = t.hour * 60 + t.minute

-- `override.window_id && override.window_id !== window.id`, negated.
abbrev pub covers_window : Option String → String → Bool
covers_window none id = true
covers_window (some w) id = str_eq w "" || str_eq w id

abbrev pub is_on : Option LocalDate → LocalDate → Bool
is_on none day = false
is_on (some d) day = date_eq d day

-- An override that is not skipped for its expiry.
abbrev pub is_live : Option (Option ℕ) → ℕ → Bool
is_live none t = false
is_live (some none) t = true
is_live (some (some e)) t = ltb t e

unfoldable pub applies : DocumentOverride → String → LocalDate → ℕ → Bool
applies o id day t =
    is_live o.expires_at t && covers_window o.window_id id && is_on o.effective_date day

-- The bedtime of one window on one date, with the relaxations that apply to it.
pub record Night : Type 0 where
  pub start : ℕ
  pub end_ : ℕ
  pub suspended : Bool

-- An extension moves the start, never past the end.
abbrev extend_start : Option ℕ → Night → Night
extend_start none n = n
extend_start (some m) n =
    if ltb 0 m then record n { start = min (n.start + m * 60000) n.end_ } else n

abbrev relax_by : OverrideType → Option ℕ → Night → Night
relax_by suspend m n = record n { suspended = true }
relax_by extend m n = extend_start m n
relax_by other_type m n = n

-- The loop over the document's overrides.
unfoldable pub relax : List DocumentOverride → String → LocalDate → ℕ → Night → Night
relax [] id day t n = n
relax (o ∷ os) id day t n =
    relax os id day t (if applies o id day t then relax_by o.type o.minutes n else n)

abbrev pub effective_from : Night → ℕ
effective_from n = if n.suspended then n.end_ else n.start

abbrev pub name_of : DocumentWindow → String
name_of w = if str_eq (get_or w.label "") "" then "Bedtime" else get_or w.label ""

-- A restriction that was found, and when its bedtime ends.
pub record Hit : Type 0 where
  pub restriction : Restriction
  pub end_ : ℕ

pub record Found : Type 0 where
  pub enforced_hit : Option Hit
  pub watched_hit : Option Hit

-- `!best || until > best.until`.
abbrev pub beats : ℕ → Option Hit → Bool
beats u none = true
beats u (some h) = ltb h.end_ u

abbrev pub enforced_restriction : DocumentWindow → Night → Restriction
enforced_restriction w n = record {
  phase = enforced;
  window_id = w.id;
  label = name_of w;
  enforced_from = some (effective_from n);
  action = some (get_or w.action "lock");
  grace_s = some (get_or w.shutdown_grace_s 300);
}

abbrev pub watch_restriction : DocumentWindow → Restriction
watch_restriction w = record {
  phase = watch;
  window_id = w.id;
  label = name_of w;
  enforced_from = none;
  action = none;
  grace_s = none;
}

abbrev pub time_of : Option Text → Option HhMm
time_of none = none
time_of (some text) = hh_mm_of text

-- `enforced?.restriction ?? watched?.restriction ?? null`.
abbrev pub answer : Found → Option Restriction
answer f = elim f.enforced_hit [
  | some h ↦ some h.restriction
  | none ↦ elim f.watched_hit [ some h ↦ some h.restriction | none ↦ none ]
]

module _ (tz : Tzdb) (document : RestrictionDocument) (at : ℕ) where
  abbrev pub zone_of : String
  zone_of = get_or document.timezone "UTC"

  abbrev pub overrides_of : List DocumentOverride
  overrides_of = get_or document.overrides []

  -- Two days back as well as today.
  unfoldable pub days_back : List LocalDate
  days_back =
      let today = date_in_zone tz at zone_of in
      add_days today (negsuc 1) ∷ add_days today (negsuc 0) ∷ today ∷ []

  -- The start and end of a window on a date, with the live relaxations.
  unfoldable pub night_of : DocumentWindow → HhMm → HhMm → LocalDate → Night
  night_of w from until_ day =
      let end_day =
        if leb (minutes_of until_) (minutes_of from) then add_days day (pos 1) else day in
      relax overrides_of w.id day at (record {
        start = zoned_to_instant tz day from zone_of;
        end_ = zoned_to_instant tz end_day until_ zone_of;
        suspended = false;
      })

  -- `[effectiveFrom, until)` holds the moment.
  abbrev pub is_inside : Night → Bool
  is_inside n = leb (effective_from n) at && ltb at n.end_

  -- When the watch period after a bedtime ends: the first such time of day after the bedtime's end.
  unfoldable pub watch_end : ℕ → HhMm → ℕ
  watch_end end_ t =
      let end_date = date_in_zone tz end_ zone_of in
      let same_day = zoned_to_instant tz end_date t zone_of in
      if leb same_day end_
      then zoned_to_instant tz (add_days end_date (pos 1)) t zone_of
      else same_day

  -- The moment lies in the watch period after a night's bedtime.
  unfoldable pub is_watched : DocumentWindow → Night → Bool
  is_watched w n = elim w.watch_until [
    | none ↦ false
    | some text ↦ elim (hh_mm_of text) [
      | none ↦ false
      | some t ↦ not n.suspended && leb n.end_ at && ltb at (watch_end n.end_ t)
    ]
  ]

  -- One round of the loop over the days, for a window that has both its times.
  unfoldable pub visit_night : DocumentWindow → Night → Found → Found
  visit_night w n f =
      if is_inside n
      then if beats n.end_ f.enforced_hit
        then record f {
          enforced_hit = some (record { restriction = enforced_restriction w n; end_ = n.end_ });
        }
        else f
      else if is_watched w n && beats n.end_ f.watched_hit
      then record f {
        watched_hit = some (record { restriction = watch_restriction w; end_ = n.end_ });
      }
      else f

  unfoldable pub visit_day : DocumentWindow → HhMm → HhMm → LocalDate → Found → Found
  visit_day w from until_ day f =
      if any (str_eq (weekday_of day)) (get_or w.days [])
      then visit_night w (night_of w from until_ day) f
      else f

  unfoldable pub visit_days : DocumentWindow → HhMm → HhMm → List LocalDate → Found → Found
  visit_days w from until_ [] f = f
  visit_days w from until_ (d ∷ ds) f = visit_days w from until_ ds (visit_day w from until_ d f)

  -- A window is looked at if both its times can be read.
  unfoldable pub visit_between : DocumentWindow → Option HhMm → Option HhMm → Found → Found
  visit_between w (some from) (some until_) f = visit_days w from until_ days_back f
  visit_between w (some from) none f = f
  visit_between w none until_ f = f

  unfoldable pub visit_window : DocumentWindow → Found → Found
  visit_window w f = visit_between w (time_of w.restricted_from) (time_of w.restricted_until) f

  unfoldable pub visit_windows : List DocumentWindow → Found → Found
  visit_windows [] f = f
  visit_windows (w ∷ ws) f = visit_windows ws (visit_window w f)

  unfoldable pub restriction_at : Option Restriction
  restriction_at = answer (
      visit_windows (get_or document.windows [])
        (record { enforced_hit = none; watched_hit = none }))
