-- ===== src/Policy/Synthesise.antt =====
-- apps/api/src/policy/compile.ts: the overrides that holidays and calendar exceptions become.
use homeparentcontrol.Prelude.{
  ℕ, ◌+◌, ◌-◌, String, Bool, true, false, ◌&&◌, ◌||◌, not, List, [], ◌∷◌, ◌++◌, Option, none, some,
  map, ltb, leb, str_eq, if◌then◌else◌, get_or, any, filter, find, flat_map,
}
use homeparentcontrol.Prelude.Int.{ℤ, pos, negsuc, pos_part, neg_part, sub_ℕ}
use homeparentcontrol.Calendar.{
  LocalDate, Tzdb, add_days, weekday_of, date_leb, date_eq, zoned_to_instant,
}
use homeparentcontrol.Policy.{
  Text, codes, clock_of, to_minutes, date_text, WindowInput, Effect, no_bedtime, custom,
  treat_as_weekend, dismiss_holiday, unknown, ExceptionInput, HolidayHit, CompilerInput,
  OverrideDraft,
}

abbrev pub horizon_days : ℕ
horizon_days = 21

unfoldable pub applies_on : WindowInput → LocalDate → Bool
applies_on w date = any (str_eq (weekday_of date)) w.days

-- The smaller of two integers.
abbrev pub min_ℤ : ℤ → ℤ → ℤ
min_ℤ a b = if leb (pos_part a + neg_part b) (pos_part b + neg_part a) then a else b

-- How long the window restricts for, in minutes, wrap included.
unfoldable pub window_duration : WindowInput → ℤ
window_duration w =
    let from = to_minutes w.restricted_from in
    let until_ = to_minutes w.restricted_until in
    if w.crosses_midnight then sub_ℕ (1440 + until_) from else sub_ℕ until_ from

-- The latest start wins, the first of several.
unfoldable pub latest_start : WindowInput → List WindowInput → WindowInput
latest_start best [] = best
latest_start best (w ∷ ws) =
    latest_start
      (if ltb (to_minutes best.restricted_from) (to_minutes w.restricted_from) then w else best) ws

abbrev pub is_weekend : WindowInput → Bool
is_weekend w = any (str_eq "sat") w.days || any (str_eq "sun") w.days

abbrev pub reduce_latest : List WindowInput → Option WindowInput
reduce_latest [] = none
reduce_latest (w ∷ ws) = some (latest_start w ws)

unfoldable pub weekend_window : List WindowInput → Option WindowInput
weekend_window windows = reduce_latest (filter is_weekend windows)

-- The text of an effect.
abbrev pub effect_text : Effect → String
effect_text no_bedtime = "no_bedtime"
effect_text custom = "custom"
effect_text treat_as_weekend = "treat_as_weekend"
effect_text dismiss_holiday = "dismiss_holiday"
effect_text (unknown s) = s

abbrev pub is_dismiss : Effect → Bool
is_dismiss dismiss_holiday = true
is_dismiss _ = false

abbrev pub same_day : List LocalDate → LocalDate → Bool
same_day days d = any (date_eq d) days

abbrev pub window_by_id : Option String → List WindowInput → Option WindowInput
window_by_id none windows = none
window_by_id (some id) windows = if str_eq id "" then none else find (λ w. str_eq w.id id) windows

-- The window that an exception names, if it names one that exists.
unfoldable pub target_of : ExceptionInput → List WindowInput → Option WindowInput
target_of e windows = window_by_id e.window_id windows

abbrev pub one_of : Option WindowInput → List WindowInput → List WindowInput
one_of none ws = ws
one_of (some w) ws = w ∷ []

abbrev pub is_positive : Option ℤ → Bool
is_positive none = false
is_positive (some (pos n)) = ltb 0 n
is_positive (some (negsuc n)) = false

unfoldable pub in_horizon : LocalDate → LocalDate → Bool
in_horizon today date = date_leb today date && date_leb date (add_days today (pos horizon_days))

abbrev pub days_of : List ExceptionInput → List LocalDate
days_of es = map (λ e. e.day) es

module _ (tz : Tzdb) (uuid : List Text → Text) (zone : String) where
  unfoldable pub window_end : WindowInput → LocalDate → ℕ
  window_end w date =
      let end_date = if w.crosses_midnight then add_days date (pos 1) else date in
      zoned_to_instant tz end_date (clock_of w.restricted_until) zone

  -- Local midnight that ends a date.
  unfoldable pub end_of_day : LocalDate → ℕ
  end_of_day date =
      zoned_to_instant tz (add_days date (pos 1)) (record { hour = 0; minute = 0 }) zone

  -- One round of the loop of `treatAsWeekend`.
  unfoldable pub borrow : LocalDate → ℕ → Text → List Text → WindowInput → List OverrideDraft
  borrow date weekend_start reason id_parts w =
      let from = to_minutes w.restricted_from in
      if not (applies_on w date)
      then []
      else if leb weekend_start from
      then []
      else record {
        id = uuid (id_parts ++ (codes w.id ∷ date_text date ∷ []));
        type = "extend";
        window_id = some w.id;
        minutes = some (min_ℤ (pos (weekend_start - from)) (window_duration w));
        effective_date = date;
        expires_at = window_end w date;
        granted_by = none;
        granted_via = "calendar";
        reason = some reason;
      }
        ∷ []

  unfoldable pub treat_as_weekend_on :
      LocalDate → List WindowInput → Text → List Text → List OverrideDraft
  treat_as_weekend_on date windows reason id_parts = elim (weekend_window windows) [
    | none ↦ []
    | some weekend ↦
        flat_map (borrow date (to_minutes weekend.restricted_from) reason id_parts) windows
  ]

  abbrev pub expiry_of : Option WindowInput → LocalDate → ℕ
  expiry_of none day = end_of_day day
  expiry_of (some w) day = window_end w day

  abbrev pub whole_draft :
      String → Option ℤ → ExceptionInput → List WindowInput → Text → OverrideDraft
  whole_draft type minutes e windows reason = record {
    id =
        uuid (
          codes "exception" ∷ codes e.id ∷ codes (get_or e.window_id "all") ∷ date_text e.day ∷ []);
    type = type;
    window_id = e.window_id;
    minutes = minutes;
    effective_date = e.day;
    expires_at = expiry_of (target_of e windows) e.day;
    granted_by = none;
    granted_via = "calendar";
    reason = some reason;
  }

  -- The `switch` of `fromException`.
  unfoldable pub from_effect :
      Effect → ExceptionInput → List WindowInput → Text → List OverrideDraft
  from_effect no_bedtime e windows reason = whole_draft "suspend" none e windows reason ∷ []
  from_effect custom e windows reason =
      if is_positive e.extend_minutes
      then whole_draft "extend" e.extend_minutes e windows reason ∷ []
      else []
  from_effect treat_as_weekend e windows reason =
      treat_as_weekend_on e.day (one_of (target_of e windows) windows) reason
        (codes "exception" ∷ codes e.id ∷ [])
  from_effect _ e windows reason = []

  unfoldable pub from_exception : List WindowInput → ExceptionInput → List OverrideDraft
  from_exception windows e =
      from_effect e.effect e windows (elim e.note [
        | some n ↦ codes n
        | none ↦ codes "calendar: " ++ codes (effect_text e.effect)
      ])

  -- The library's holiday for a date that the parent has not spoken about.
  unfoldable pub from_holiday :
      CompilerInput → LocalDate → List ExceptionInput → HolidayHit → List OverrideDraft
  from_holiday input today exceptions h =
      if not (in_horizon today h.date)
      then []
      else if same_day (days_of (filter (λ e. not (is_dismiss e.effect)) exceptions)) h.date
          || same_day (days_of (filter (λ e. is_dismiss e.effect) exceptions)) h.date
      then []
      else treat_as_weekend_on h.date input.windows (codes "calendar: " ++ codes h.name)
          (codes "holiday" ∷ codes input.child_id ∷ date_text h.date ∷ [])

  unfoldable pub synthesise : CompilerInput → LocalDate → List OverrideDraft
  synthesise input today =
      let exceptions = filter (λ e. in_horizon today e.day) input.exceptions in
      flat_map (from_exception input.windows) (filter (λ e. not (is_dismiss e.effect)) exceptions)
      ++ flat_map (from_holiday input today exceptions) input.holidays
