-- ===== src/Policy/Relaxations.antt =====
-- apps/api/src/policy/compile.ts: what a synthesised override can do.
use homeparentcontrol.Prelude.{
  ℕ, suc, ◌+◌, ◌-◌, ◌≤◌, ◌<◌, ◌≡◌, refl, true, not, List, [], ◌∷◌, Option, none, some, arith,
  String, ◌⊎◌, inl, inr, All, All-append, All-flat_map, All-map_imp, All-filter_self, Any, leb,
  filter, Bool-cases, Option-cases, if◌then◌else◌, str_eq, Any-flat_map, All-find, subst, sym, ◌||◌,
  All-flat_map_on, zero, All-filter,
}
use homeparentcontrol.Prelude.Int.{ℤ, pos, negsuc}
use homeparentcontrol.Calendar.{LocalDate, Tzdb}
use homeparentcontrol.Policy.{
  Text, to_minutes, WindowInput, Effect, no_bedtime, custom, treat_as_weekend, dismiss_holiday,
  unknown, ExceptionInput, HolidayHit, CompilerInput, OverrideDraft,
}
use homeparentcontrol.Policy.Synthesise.{
  applies_on, min_ℤ, window_duration, weekend_window, borrow, treat_as_weekend_on, is_dismiss,
  from_effect, from_exception, is_positive, one_of, target_of, window_by_id, in_horizon,
  from_holiday, synthesise, same_day, days_of,
}

-- The two times lie within a day, and the stored column says whether the night wraps.
pub record IsWindow (w : WindowInput) : Type 0 where
  pub from : to_minutes w.restricted_from < 1440
  pub until_ : to_minutes w.restricted_until < 1440
  pub wraps :
      w.crosses_midnight ≡ leb (to_minutes w.restricted_until) (to_minutes w.restricted_from)

-- A well-formed window restricts for a minute at least and a whole day at most.
window_duration_bounds :
    (w : WindowInput) → IsWindow w → (n : ℕ) × (window_duration w ≡ pos (suc n)) × (n < 1440)
unfolding window_duration
window_duration_bounds w h =
    let f = to_minutes w.restricted_from in
    let u = to_minutes w.restricted_until in
    elim (Bool-cases (leb u f)) [
      | inl wrap ↦ (1440 + u - f - 1, rw (h.wraps, wrap) (ground arith), ground arith)
      | inr same ↦ (u - f - 1, rw (h.wraps, same) (ground arith), ground arith)
    ]

-- A relaxation of the window `w` towards the start `weekend_start`: at least a minute, never past
-- that start, and never longer than the window.
pub record IsBorrowed (date : LocalDate) (weekend_start : ℕ) (o : OverrideDraft) (w : WindowInput)
    : Type 0 where
  pub minutes : ℕ
  pub extends : o.type ≡ "extend"
  pub of_window : o.window_id ≡ some w.id
  pub on_date : o.effective_date ≡ date
  pub applies : applies_on w date ≡ true
  pub amount : o.minutes ≡ some (pos (suc minutes))
  pub no_later : to_minutes w.restricted_from + suc minutes ≤ weekend_start
  pub no_longer : (n : ℕ) → window_duration w ≡ pos n → suc minutes ≤ n

min_pos : (a b : ℕ) → min_ℤ (pos a) (pos b) ≡ pos (if leb a b then a else b)
min_pos a b = ground arith

module _ (tz : Tzdb) (uuid : List Text → Text) (zone : String) where
  borrow-IsBorrowed :
      (date : LocalDate) (start : ℕ) (reason : Text) (parts : List Text) (w : WindowInput)
      → IsWindow w
      → All (λ o. IsBorrowed date start o w) (borrow tz uuid zone date start reason parts w)
  unfolding borrow
  borrow-IsBorrowed date start reason parts w h = elim (Bool-cases (applies_on w date)) [
    | inr e ↦ rw e tt
    | inl e ↦ elim (Bool-cases (leb start (to_minutes w.restricted_from))) [
      | inl late ↦ rw (e, late) tt
      | inr early ↦
          let (n, len, below) = window_duration_bounds w h in
          let delta = start - to_minutes w.restricted_from in
          rw (e, early)
            (
              record {
                minutes = (if leb delta (suc n) then delta else suc n) - 1;
                extends = refl;
                of_window = refl;
                on_date = refl;
                applies = e;
                amount = rw (len, min_pos delta (suc n)) (ground arith);
                no_later = ground arith;
                no_longer = λ m q. ground arith;
              },
              tt,
            )
    ]
  ]

  -- "Treat this day like a weekend", where the windows are well-formed and some covers a weekend
  -- day, extends only windows that apply on the date, each by a minute at least, no further than the
  -- weekend's start and by no more than the window's own length.
  treat_as_weekend_on-IsBorrowed :
      (date : LocalDate) (windows : List WindowInput) (reason : Text) (parts : List Text)
      (weekend : WindowInput)
      → All IsWindow windows
      → weekend_window windows ≡ some weekend
      → All
          (λ o. Any (IsBorrowed date (to_minutes weekend.restricted_from) o) windows)
          (treat_as_weekend_on tz uuid zone date windows reason parts)
  unfolding treat_as_weekend_on
  treat_as_weekend_on-IsBorrowed date windows reason parts weekend h e =
      let start = to_minutes weekend.restricted_from in
      rw (e, treat_as_weekend_on)
        (Any-flat_map (IsBorrowed date start) (borrow tz uuid zone date start reason parts) windows
          (All-map_imp (λ w p. borrow-IsBorrowed date start reason parts w p) windows h))

-- The override suspends, or extends by a positive number of minutes, on a date.
abbrev pub IsRelaxation : LocalDate → OverrideDraft → Type 0
IsRelaxation date o =
    (o.effective_date ≡ date)
    × ((o.type ≡ "suspend") × (o.minutes ≡ none)
        ⊎ (o.type ≡ "extend") × ((m : ℕ) × (o.minutes ≡ some (pos (suc m)))))

IsRelaxation-of_borrowed :
    (date : LocalDate) (start : ℕ) (o : OverrideDraft) (ws : List WindowInput)
    → Any (IsBorrowed date start o) ws
    → IsRelaxation date o
IsRelaxation-of_borrowed date start o [] h = absurd h
IsRelaxation-of_borrowed date start o (w ∷ ws) (inl b) =
    (b.on_date, inr (b.extends, (b.minutes, b.amount)))
IsRelaxation-of_borrowed date start o (w ∷ ws) (inr h) = IsRelaxation-of_borrowed date start o ws h

positive_minutes : (m : Option ℤ) → is_positive m ≡ true → (n : ℕ) × (m ≡ some (pos (suc n)))
positive_minutes none h = cc
positive_minutes (some (pos (suc n))) h = (n, refl)
positive_minutes (some (pos zero)) h = cc
positive_minutes (some (negsuc n)) h = cc

found-IsWindow :
    (id : Option String) (windows : List WindowInput) (w : WindowInput)
    → All IsWindow windows
    → window_by_id id windows ≡ some w
    → IsWindow w
found-IsWindow none windows w h e = cc
found-IsWindow (some id) windows w h e = elim (Bool-cases (str_eq id "")) [
  | inl empty ↦ absurd (ground arith)
  | inr _ ↦ (All-find IsWindow (λ v. str_eq v.id id) windows w h (ground arith)).1
]

target_windows :
    (e : ExceptionInput) (windows : List WindowInput)
    → All IsWindow windows
    → All IsWindow (one_of (target_of e windows) windows)
unfolding target_of
target_windows e windows h = elim (Option-cases (window_by_id e.window_id windows)) [
  | inl n ↦ rw n h
  | inr (w, s) ↦ rw s (found-IsWindow e.window_id windows w h s, tt)
]

module _ (tz : Tzdb) (uuid : List Text → Text) (zone : String) where
  weekend_relaxations :
      (date : LocalDate) (windows : List WindowInput) (reason : Text) (parts : List Text)
      → All IsWindow windows
      → All (IsRelaxation date) (treat_as_weekend_on tz uuid zone date windows reason parts)
  weekend_relaxations date windows reason parts h = elim (Option-cases (weekend_window windows)) [
    | inl e ↦ unfold treat_as_weekend_on in rw (e, treat_as_weekend_on) tt
    | inr (w, e) ↦
        All-map_imp
          (λ o b. IsRelaxation-of_borrowed date (to_minutes w.restricted_from) o windows b) _
          (treat_as_weekend_on-IsBorrowed tz uuid zone date windows reason parts w h e)
  ]

  effect_relaxations :
      (f : Effect) (e : ExceptionInput) (windows : List WindowInput) (reason : Text)
      → All IsWindow windows
      → All (IsRelaxation e.day) (from_effect tz uuid zone f e windows reason)
  unfolding from_effect
  effect_relaxations no_bedtime e windows reason h = ((refl, inl (refl, refl)), tt)
  effect_relaxations custom e windows reason h = elim (Bool-cases (is_positive e.extend_minutes)) [
    | inl p ↦ rw p ((refl, inr (refl, positive_minutes e.extend_minutes p)), tt)
    | inr p ↦ rw p tt
  ]
  effect_relaxations treat_as_weekend e windows reason h =
      weekend_relaxations e.day _ reason _ (target_windows e windows h)
  effect_relaxations dismiss_holiday e windows reason h = tt
  effect_relaxations (unknown s) e windows reason h = tt

  exception_relaxations :
      (today : LocalDate) (windows : List WindowInput) (e : ExceptionInput)
      → All IsWindow windows
      → in_horizon today e.day ≡ true
      → All
          (λ o. (in_horizon today o.effective_date ≡ true) × IsRelaxation o.effective_date o)
          (from_exception tz uuid zone windows e)
  unfolding from_exception
  exception_relaxations today windows e h inside =
      All-map_imp (λ o r. (subst (λ d. in_horizon today d ≡ true) (sym r.0) inside, (refl, r.1))) _
        (effect_relaxations e.effect e windows _ h)

  holiday_relaxations :
      (input : CompilerInput) (today : LocalDate) (es : List ExceptionInput) (hit : HolidayHit)
      → All IsWindow input.windows
      → All
          (λ o. (in_horizon today o.effective_date ≡ true) × IsRelaxation o.effective_date o)
          (from_holiday tz uuid zone input today es hit)
  unfolding from_holiday
  holiday_relaxations input today es hit h = elim (Bool-cases (in_horizon today hit.date)) [
    | inr out ↦ rw out tt
    | inl inside ↦
        elim (Bool-cases (
          same_day (days_of (filter (λ e. not (is_dismiss e.effect)) es)) hit.date
          || same_day (days_of (filter (λ e. is_dismiss e.effect) es)) hit.date)) [
            | inl spoken ↦ rw (inside, spoken) tt
            | inr silent ↦
                rw (inside, silent)
                  (All-map_imp
                    (λ o r. (subst (λ d. in_horizon today d ≡ true) (sym r.0) inside, (refl, r.1)))
                    _ (weekend_relaxations hit.date input.windows _ _ h))
          ]
  ]

  -- Whatever the calendar says, every synthesised override is for a date within the horizon, and
  -- either suspends a bedtime or extends by a positive number of minutes: none makes a bedtime
  -- earlier. The windows must be well-formed.
  pub synthesise-IsRelaxation :
      (input : CompilerInput) (today : LocalDate)
      → All IsWindow input.windows
      → All
          (λ o. (in_horizon today o.effective_date ≡ true) × IsRelaxation o.effective_date o)
          (synthesise tz uuid zone input today)
  unfolding synthesise
  synthesise-IsRelaxation input today h =
      All-append _ _ _
        (All-flat_map_on _ (from_exception tz uuid zone input.windows) _ (
          All-map_imp (λ e inside. exception_relaxations today input.windows e h inside) _
            (All-filter _ (λ e. not (is_dismiss e.effect)) _
              (All-filter_self (λ e. in_horizon today e.day) input.exceptions))))
        (All-flat_map _ (from_holiday tz uuid zone input today _)
          (λ hit. holiday_relaxations input today _ hit h) input.holidays)
