-- ===== src/Restriction/Nights.antt =====
-- apps/api/src/lib/restriction.ts: the bedtimes that the two nested loops look at, as one list.
use homeparentcontrol.Prelude.{
  ℕ, ◌≡◌, refl, sym, ◌∙◌, List, [], ◌∷◌, ◌++◌, Option, none, some, get_or, any, str_eq,
  if◌then◌else◌, flat_map, Bool-cases, inl, inr,
}
use homeparentcontrol.Calendar.{LocalDate, HhMm, Tzdb, weekday_of}
use homeparentcontrol.Restriction.{
  DocumentWindow, RestrictionDocument, Night, Found, night_of, visit_night, visit_day, visit_days,
  visit_between, visit_window, visit_windows, time_of, days_back,
}

module _ (tz : Tzdb) (document : RestrictionDocument) (at : ℕ) where
  -- A window's bedtime on a date, if the window applies to that weekday.
  abbrev pub nights_on :
      DocumentWindow → HhMm → HhMm → List LocalDate → List (DocumentWindow × Night)
  nights_on w from until_ [] = []
  nights_on w from until_ (d ∷ ds) =
      if any (str_eq (weekday_of d)) (get_or w.days [])
      then (w, night_of tz document at w from until_ d) ∷ nights_on w from until_ ds
      else nights_on w from until_ ds

  abbrev pub nights_between :
      DocumentWindow → Option HhMm → Option HhMm → List (DocumentWindow × Night)
  nights_between w (some from) (some until_) = nights_on w from until_ (days_back tz document at)
  nights_between w (some from) none = []
  nights_between w none until_ = []

  -- The bedtimes of a window on the three days, if both its times can be read.
  abbrev pub nights_of : DocumentWindow → List (DocumentWindow × Night)
  nights_of w = nights_between w (time_of w.restricted_from) (time_of w.restricted_until)

  abbrev pub nights : List DocumentWindow → List (DocumentWindow × Night)
  nights ws = flat_map nights_of ws

  abbrev pub visit_all : List (DocumentWindow × Night) → Found → Found
  visit_all [] f = f
  visit_all (wn ∷ ns) f = visit_all ns (visit_night tz document at wn.0 wn.1 f)

  visit_all-append :
      (xs ys : List (DocumentWindow × Night)) (f : Found)
      → visit_all (xs ++ ys) f ≡ visit_all ys (visit_all xs f)
  visit_all-append [] ys f = refl
  visit_all-append (x ∷ xs) ys f = visit_all-append xs ys (visit_night tz document at x.0 x.1 f)

  visit_days_lem :
      (w : DocumentWindow) (from until_ : HhMm) (ds : List LocalDate) (f : Found)
      → visit_days tz document at w from until_ ds f ≡ visit_all (nights_on w from until_ ds) f
  unfolding visit_days visit_day
  visit_days_lem w from until_ [] f = refl
  visit_days_lem w from until_ (d ∷ ds) f =
      elim (Bool-cases (any (str_eq (weekday_of d)) (get_or w.days []))) [
        | inl e ↦ rw e (
            visit_days_lem w from until_ ds
              (visit_night tz document at w (night_of tz document at w from until_ d) f))
        | inr e ↦ rw e (visit_days_lem w from until_ ds f)
      ]

  visit_between_lem :
      (w : DocumentWindow) (from until_ : Option HhMm) (f : Found)
      → visit_between tz document at w from until_ f ≡ visit_all (nights_between w from until_) f
  unfolding visit_between
  visit_between_lem w (some from) (some until_) f =
      visit_days_lem w from until_ (days_back tz document at) f
  visit_between_lem w (some from) none f = refl
  visit_between_lem w none until_ f = refl

  visit_window_lem :
      (w : DocumentWindow) (f : Found) → visit_window tz document at w f ≡ visit_all (nights_of w) f
  unfolding visit_window
  visit_window_lem w f =
      visit_between_lem w (time_of w.restricted_from) (time_of w.restricted_until) f

  -- The loops visit exactly these bedtimes, in order.
  pub visit_windows_lem :
      (ws : List DocumentWindow) (f : Found)
      → visit_windows tz document at ws f ≡ visit_all (nights ws) f
  unfolding visit_windows
  visit_windows_lem [] f = refl
  visit_windows_lem (w ∷ ws) f = rw (visit_window_lem w f) (
      visit_windows_lem ws (visit_all (nights_of w) f)
      ∙ sym (visit_all-append (nights_of w) (nights ws) f))
