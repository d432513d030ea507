-- ===== src/Policy/Precedence.antt =====
-- apps/api/src/policy/compile.ts: the parent's word comes before the holiday library.
use homeparentcontrol.Prelude.{
  ℕ, ◌≤◌, ◌≡◌, refl, sym, ◌∙◌, Bool, true, false, not, ◌||◌, List, [], ◌∷◌, some, arith, String,
  inl, inr, All, All-map_imp, All-flat_map, All-append, All-flat_map_on, Bool-cases, Option-cases,
  any, filter, leb, ltb, All-filter_self, subst,
}
use mathlib.Core.Bool.{false≢true}
use homeparentcontrol.Calendar.{LocalDate, Tzdb, date_eq}
use homeparentcontrol.Policy.{
  Text, to_minutes, WindowInput, Effect, no_bedtime, custom, treat_as_weekend, dismiss_holiday,
  unknown, ExceptionInput, HolidayHit, CompilerInput,
}
use homeparentcontrol.Policy.Synthesise.{
  latest_start, is_weekend, weekend_window, reduce_latest, treat_as_weekend_on, is_dismiss,
  in_horizon, from_holiday, same_day, days_of, borrow, applies_on, from_effect, from_exception,
  synthesise, is_positive,
}

latest_start_nil : (best : WindowInput) → latest_start best [] ≡ best
unfolding latest_start
latest_start_nil best = refl

latest_start_later :
    (best w : WindowInput) (ws : List WindowInput)
    → ltb (to_minutes best.restricted_from) (to_minutes w.restricted_from) ≡ true
    → latest_start best (w ∷ ws) ≡ latest_start w ws
unfolding latest_start
latest_start_later best w ws e = rw (e, latest_start)

latest_start_kept :
    (best w : WindowInput) (ws : List WindowInput)
    → ltb (to_minutes best.restricted_from) (to_minutes w.restricted_from) ≡ false
    → latest_start best (w ∷ ws) ≡ latest_start best ws
unfolding latest_start
latest_start_kept best w ws e = rw (e, latest_start)

-- No window of the list starts later than `z`.
abbrev pub IsLatest : List WindowInput → WindowInput → Type 0
IsLatest ws z = All (λ w. to_minutes w.restricted_from ≤ to_minutes z.restricted_from) ws

-- What the reduction over the weekend's windows keeps.
latest_start_lem :
    (best : WindowInput) (ws : List WindowInput) → IsLatest (best ∷ ws) (latest_start best ws)
latest_start_lem best [] =
    subst (IsLatest (best ∷ [])) (sym (latest_start_nil best)) (omega arith, tt)
latest_start_lem best (w ∷ ws) =
    elim (Bool-cases (ltb (to_minutes best.restricted_from) (to_minutes w.restricted_from))) [
      | inl later ↦
          let ih = latest_start_lem w ws in
          subst (IsLatest (best ∷ w ∷ ws)) (sym (latest_start_later best w ws later))
            (ground (arith, ih.0), ih)
      | inr kept ↦
          let ih = latest_start_lem best ws in
          subst (IsLatest (best ∷ w ∷ ws)) (sym (latest_start_kept best w ws kept))
            (ih.0, (ground (arith, ih.0), ih.1))
    ]

latest_start_All :
    (P : WindowInput → Type 0) (best : WindowInput) (ws : List WindowInput)
    → P best
    → All P ws
    → P (latest_start best ws)
unfolding latest_start
latest_start_All P best [] p h = p
latest_start_All P best (w ∷ ws) p h =
    elim (Bool-cases (ltb (to_minutes best.restricted_from) (to_minutes w.restricted_from))) [
      | inl later ↦ rw (later, latest_start) (latest_start_All P w ws h.0 h.1)
      | inr kept ↦ rw (kept, latest_start) (latest_start_All P best ws p h.1)
    ]

reduce_latest_lem :
    (P : WindowInput → Type 0) (ws : List WindowInput) (w : WindowInput)
    → All P ws
    → reduce_latest ws ≡ some w
    → P w × IsLatest ws w
reduce_latest_lem P [] w h e = cc
reduce_latest_lem P (v ∷ vs) w h e =
    let same : latest_start v vs ≡ w = ground arith in
    let best = latest_start_lem v vs in
    (subst P same (latest_start_All P v vs h.0 h.1), subst (IsLatest (v ∷ vs)) same best)

-- The window that a weekend's bedtime is borrowed from, if there is one, covers Saturday or Sunday,
-- and no window that does starts later.
weekend_window_lem :
    (windows : List WindowInput) (w : WindowInput)
    → weekend_window windows ≡ some w
    → (is_weekend w ≡ true) × IsLatest (filter is_weekend windows) w
unfolding weekend_window
weekend_window_lem windows w e =
    reduce_latest_lem (λ v. is_weekend v ≡ true) (filter is_weekend windows) w
      (All-filter_self is_weekend windows) e

date_eq_sound : (a b : LocalDate) → date_eq a b ≡ true → a ≡ b
unfolding date_eq
date_eq_sound a b h = ground arith

any-false :
    (p : LocalDate → Bool) (es : List ExceptionInput)
    → any p (days_of es) ≡ false
    → All (λ e. p e.day ≡ false) es
any-false p [] h = tt
any-false p (e ∷ es) h = (ground arith, any-false p es (ground arith))

module _ (tz : Tzdb) (uuid : List Text → Text) (zone : String) where
  borrow_date :
      (date : LocalDate) (start : ℕ) (reason : Text) (parts : List Text) (w : WindowInput)
      → All (λ o. o.effective_date ≡ date) (borrow tz uuid zone date start reason parts w)
  unfolding borrow
  borrow_date date start reason parts w = elim (Bool-cases (applies_on w date)) [
    | inr e ↦ rw e tt
    | inl e ↦ elim (Bool-cases (leb start (to_minutes w.restricted_from))) [
      | inl late ↦ rw (e, late) tt
      | inr early ↦ rw (e, early) (refl, tt)
    ]
  ]

  weekend_date :
      (date : LocalDate) (windows : List WindowInput) (reason : Text) (parts : List Text)
      → All
          (λ o. o.effective_date ≡ date)
          (treat_as_weekend_on tz uuid zone date windows reason parts)
  unfolding treat_as_weekend_on
  weekend_date date windows reason parts = elim (Option-cases (weekend_window windows)) [
    | inl e ↦ rw (e, treat_as_weekend_on) tt
    | inr (w, e) ↦
        rw (e, treat_as_weekend_on)
          (All-flat_map _ _ (borrow_date date (to_minutes w.restricted_from) reason parts) windows)
  ]

  effect_date :
      (f : Effect) (e : ExceptionInput) (windows : List WindowInput) (reason : Text)
      → All (λ o. o.effective_date ≡ e.day) (from_effect tz uuid zone f e windows reason)
  unfolding from_effect
  effect_date no_bedtime e windows reason = (refl, tt)
  effect_date custom e windows reason = elim (Bool-cases (is_positive e.extend_minutes)) [
    | inl p ↦ rw p (refl, tt)
    | inr p ↦ rw p tt
  ]
  effect_date treat_as_weekend e windows reason = weekend_date e.day _ reason _
  effect_date dismiss_holiday e windows reason = tt
  effect_date (unknown s) e windows reason = tt

  module _ (input : CompilerInput) (today : LocalDate) where
    abbrev heard : List ExceptionInput
    heard = filter (λ e. in_horizon today e.day) input.exceptions

    -- The days within the horizon that the parent has dismissed, and those of every other exception.
    abbrev pub dismissed_days : List LocalDate
    dismissed_days = days_of (filter (λ e. is_dismiss e.effect) heard)

    abbrev pub manual_days : List LocalDate
    manual_days = days_of (filter (λ e. not (is_dismiss e.effect)) heard)

    -- A holiday's override is never for a date that the parent has spoken about.
    holiday_silent :
        (hit : HolidayHit)
        → All
            (λ o.
              (same_day manual_days o.effective_date ≡ false)
              × (same_day dismissed_days o.effective_date ≡ false))
            (from_holiday tz uuid zone input today heard hit)
    unfolding from_holiday
    holiday_silent hit = elim (Bool-cases (in_horizon today hit.date)) [
      | inr out ↦ rw out tt
      | inl inside ↦
          elim (Bool-cases (same_day manual_days hit.date || same_day dismissed_days hit.date)) [
            | inl spoken ↦ rw (inside, spoken) tt
            | inr silent ↦
                let both : (same_day manual_days hit.date ≡ false)
                    × (same_day dismissed_days hit.date ≡ false) =
                  ground arith in
                rw (inside, silent)
                  (All-map_imp
                    (λ o d.
                      subst
                        (λ x.
                          (same_day manual_days x ≡ false) × (same_day dismissed_days x ≡ false))
                        (sym d) both)
                    _ (weekend_date hit.date input.windows _ _))
          ]
    ]

    -- Where the parent has dismissed a day within the horizon and said nothing else of it, no
    -- override is made for that day, whatever the holiday library says.
    pub synthesise_dismissed :
        (d : LocalDate)
        → same_day dismissed_days d ≡ true
        → same_day manual_days d ≡ false
        → All (λ o. date_eq d o.effective_date ≡ false) (synthesise tz uuid zone input today)
    unfolding synthesise from_exception
    synthesise_dismissed d gone free =
        All-append _ _ _
          (All-flat_map_on _ (from_exception tz uuid zone input.windows) _ (
            All-map_imp
              (λ e other.
                All-map_imp (λ o q. subst (λ x. date_eq d x ≡ false) (sym q) other) _
                  (effect_date e.effect e input.windows _))
              _ (any-false (date_eq d) _ free)))
          (All-flat_map _ (from_holiday tz uuid zone input today heard)
            (λ hit.
              All-map_imp
                (λ o q. elim (Bool-cases (date_eq d o.effective_date)) [
                  | inr apart ↦ apart
                  | inl same ↦ absurd (
                      false≢true (
                        sym (
                          subst (λ x. same_day dismissed_days x ≡ false)
                            (sym (date_eq_sound d o.effective_date same)) q.1)
                        ∙ gone))
                ])
                _ (holiday_silent hit))
            input.holidays)
