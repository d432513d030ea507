-- ===== src/Projection/Sums.antt =====
-- apps/api/src/jobs/project.ts: what the daily roll-up leaves in the table.
use homeparentcontrol.Prelude.{
  ℕ, ◌+◌, ◌-◌, ◌*◌, ◌≡◌, refl, sym, ◌∙◌, ap, true, false, List, [], ◌∷◌, Option, none, some, map,
  arith, if◌then◌else◌, All, All-map_imp, inl, inr, Bool-cases, eq_iff,
}
use homeparentcontrol.Prelude.Upsert.{upsert_by, upsert_by-All}
use homeparentcontrol.Calendar.{Tzdb, date_eq}
use homeparentcontrol.Projection.{ProjectedDevice, UsageHourly}
use homeparentcontrol.Projection.Daily.{
  UsageDaily, is_day_of, set_day, write_days, day_row, add_hour, daily_from, hours_since, daily_of,
  roll_up_daily,
}

-- Two optional counts together, and the first of two that is there.
abbrev pub plus : Option ℕ → Option ℕ → Option ℕ
plus none b = b
plus (some a) none = some a
plus (some a) (some b) = some (a + b)

abbrev pub over : Option ℕ → Option ℕ → Option ℕ
over none b = b
over (some a) b = some a

-- The active seconds of the first row of a day and bundle.
unfoldable pub active_at : UsageDaily → List UsageDaily → Option ℕ
active_at k [] = none
active_at k (r ∷ rs) = if is_day_of r k then some r.active_s else active_at k rs

-- The active seconds of all rows of a day and bundle together.
unfoldable pub active_in : UsageDaily → List UsageDaily → Option ℕ
active_in k [] = none
active_in k (r ∷ rs) = plus (if is_day_of r k then some r.active_s else none) (active_in k rs)

plus_assoc : (a b c : Option ℕ) → plus (plus a b) c ≡ plus a (plus b c)
plus_assoc a b c = ground arith

-- Rows of one day and bundle are alike to any other.
is_day_of-congr : (x row k : UsageDaily) → is_day_of x row ≡ true → is_day_of x k ≡ is_day_of row k
unfolding date_eq
is_day_of-congr x row k h = ground (arith, eq_iff x.bundle_id row.bundle_id)

is_day_of_refl : (r : UsageDaily) → is_day_of r r ≡ true
unfolding date_eq
is_day_of_refl r = ground (arith, eq_iff r.bundle_id r.bundle_id)

is_day_of_comm : (x y : UsageDaily) → is_day_of x y ≡ is_day_of y x
unfolding date_eq
is_day_of_comm x y = ground (arith, eq_iff x.bundle_id y.bundle_id, eq_iff y.bundle_id x.bundle_id)

not_alike :
    (x row k : UsageDaily)
    → is_day_of x row ≡ false
    → is_day_of x k ≡ true
    → is_day_of row k ≡ false
not_alike x row k e c = is_day_of_comm row k ∙ sym (is_day_of-congr x k row c) ∙ e

others : (s r k : UsageDaily) → is_day_of r k ≡ true → is_day_of s r ≡ false → is_day_of s k ≡ false
others s r k q e = is_day_of_comm s k ∙ sym (is_day_of-congr r k s q) ∙ is_day_of_comm r s ∙ e

plus-none : (a : Option ℕ) → plus a none ≡ a
plus-none none = refl
plus-none (some a) = refl

-- No two rows are of one day and bundle.
abbrev AreDistinct : List UsageDaily → Type 0
AreDistinct [] = Unit
AreDistinct (r ∷ rs) = All (λ s. is_day_of s r ≡ false) rs × AreDistinct rs

module _ (tz : Tzdb) (devices : List ProjectedDevice) where
  active_at-add :
      (k row : UsageDaily) (acc : List UsageDaily)
      → active_at k (upsert_by (λ r. is_day_of r row) (add_hour tz devices row) row acc)
        ≡ plus (active_at k acc) (if is_day_of row k then some row.active_s else none)
  unfolding active_at upsert_by
  active_at-add k row [] = ground arith
  active_at-add k row (x ∷ xs) = elim (Bool-cases (is_day_of x row)) [
    | inl e ↦
        let alike = is_day_of-congr x row k e in
        elim (Bool-cases (is_day_of row k)) [
          | inl q ↦ rw (e, alike ∙ q, q) refl
          | inr q ↦ rw (e, alike ∙ q, q) (sym (plus-none (active_at k xs)))
        ]
    | inr e ↦ elim (Bool-cases (is_day_of x k)) [
      | inl c ↦ rw (e, c, not_alike x row k e c) refl
      | inr c ↦ rw (e, c) (active_at-add k row xs)
    ]
  ]

  active_at-daily_from :
      (k : UsageDaily) (hs : List UsageHourly) (acc : List UsageDaily)
      → active_at k (daily_from tz devices acc hs)
        ≡ plus (active_at k acc) (active_in k (map (day_row tz devices) hs))
  unfolding daily_from active_in
  active_at-daily_from k [] acc = ground arith
  active_at-daily_from k (h ∷ hs) acc =
      let row = day_row tz devices h in
      let acc' = upsert_by (λ r. is_day_of r row) (add_hour tz devices row) row acc in
      active_at-daily_from k hs acc'
      ∙ ap (λ o. plus o (active_in k (map (day_row tz devices) hs))) (active_at-add k row acc)
      ∙ plus_assoc (active_at k acc) (if is_day_of row k then some row.active_s else none)
          (active_in k (map (day_row tz devices) hs))

  add_hour-AreDistinct :
      (row : UsageDaily) (acc : List UsageDaily)
      → AreDistinct acc
      → AreDistinct (upsert_by (λ r. is_day_of r row) (add_hour tz devices row) row acc)
  unfolding upsert_by
  add_hour-AreDistinct row [] h = (tt, tt)
  add_hour-AreDistinct row (x ∷ xs) h = elim (Bool-cases (is_day_of x row)) [
    | inl e ↦ rw e h
    | inr e ↦ rw e (
      upsert_by-All _ _ row (λ s. is_day_of s x ≡ false) (λ s q p. p) (is_day_of_comm row x ∙ e) xs
          h.0,
      add_hour-AreDistinct row xs h.1,
    )
  ]

  daily_from-AreDistinct :
      (hs : List UsageHourly) (acc : List UsageDaily)
      → AreDistinct acc
      → AreDistinct (daily_from tz devices acc hs)
  unfolding daily_from
  daily_from-AreDistinct [] acc h = h
  daily_from-AreDistinct (x ∷ hs) acc h =
      daily_from-AreDistinct hs
        (upsert_by (λ r. is_day_of r (day_row tz devices x))
          (add_hour tz devices (day_row tz devices x)) (day_row tz devices x) acc)
        (add_hour-AreDistinct (day_row tz devices x) acc h)

active_at-set :
    (k row : UsageDaily) (table : List UsageDaily)
    → active_at k (upsert_by (λ r. is_day_of r row) (set_day row) row table)
      ≡ (if is_day_of row k then some row.active_s else active_at k table)
unfolding active_at upsert_by
active_at-set k row [] = refl
active_at-set k row (x ∷ xs) = elim (Bool-cases (is_day_of x row)) [
  | inl e ↦
      let alike = is_day_of-congr x row k e in
      elim (Bool-cases (is_day_of row k)) [
        | inl q ↦ rw (e, alike ∙ q, q) refl
        | inr q ↦ rw (e, alike ∙ q, q) refl
      ]
  | inr e ↦ elim (Bool-cases (is_day_of x k)) [
    | inl c ↦ rw (e, c, not_alike x row k e c) refl
    | inr c ↦ rw (e, c) (active_at-set k row xs)
  ]
]

-- None of the rows is of the day and bundle.
active_at-none :
    (k : UsageDaily) (rows : List UsageDaily)
    → All (λ s. is_day_of s k ≡ false) rows
    → active_at k rows ≡ none
unfolding active_at
active_at-none k [] h = refl
active_at-none k (r ∷ rs) h = rw (h.0) (active_at-none k rs h.1)

active_at-write_days :
    (k : UsageDaily) (rows table : List UsageDaily)
    → AreDistinct rows
    → active_at k (write_days rows table) ≡ over (active_at k rows) (active_at k table)
unfolding write_days active_at
active_at-write_days k [] table h = refl
active_at-write_days k (r ∷ rs) table h =
    active_at-write_days k rs (upsert_by (λ s. is_day_of s r) (set_day r) r table) h.1
    ∙ ap (over (active_at k rs)) (active_at-set k r table)
    ∙ elim (Bool-cases (is_day_of r k))
        as (λ _.
          over (active_at k rs) (if is_day_of r k then some r.active_s else active_at k table)
          ≡ over (if is_day_of r k then some r.active_s else active_at k rs) (active_at k table)) [
            | inl q ↦
                rw (q, active_at-none k rs (All-map_imp (λ s p. others s r k q p) rs h.0)) refl
            | inr q ↦ rw q refl
          ]

module _ (tz : Tzdb) (devices : List ProjectedDevice) where
  -- After a roll-up the row of a day and bundle has the active seconds of those of its hours that
  -- begin within the window, whatever it had before; where no such hour does, it is as it was.
  pub roll_up_daily_lem :
      (k : UsageDaily) (now days : ℕ) (hours : List UsageHourly) (table : List UsageDaily)
      → active_at k (roll_up_daily tz devices now days hours table).0
        ≡ over
            (active_in k
              (map (day_row tz devices) (hours_since tz devices (now - days * 86400000) hours)))
            (active_at k table)
  unfolding roll_up_daily daily_of active_at
  roll_up_daily_lem k now days hours table =
      let found = hours_since tz devices (now - days * 86400000) hours in
      active_at-write_days k (daily_from tz devices [] found) table
        (daily_from-AreDistinct tz devices found [] tt)
      ∙ ap (λ o. over o (active_at k table)) (active_at-daily_from tz devices k found [])
