-- ===== src/Calendar/Zone.antt =====
-- apps/api/src/policy/zoned-time.ts: wall-clock times as instants, and back.
use homeparentcontrol.Prelude.{ℕ, ◌+◌, ◌-◌, ◌*◌, ◌/◌, ◌%◌, ◌≤◌, ◌<◌, ◌≡◌, arith, String, suc}
use homeparentcontrol.Prelude.Int.{ℤ, pos, negsuc, pos_part, neg_part, shift, shift_back, sub_ℕ}
use homeparentcontrol.Calendar.{
  LocalDate, HhMm, Tzdb, day_ms, day_number, offset_at, zoned_to_instant, date_in_zone,
  time_in_zone,
}
use homeparentcontrol.Calendar.RoundTrip.{IsDate, date_of-day_number}

-- A time of day that exists.
pub record IsTime (t : HhMm) : Type 0 where
  pub hours : t.hour < 24
  pub minutes : t.minute < 60

-- Offsets as the zone database has them: whole seconds, less than a day, and the instant late
-- enough after 1970 that nothing is negative.
pub record IsOffset (o : ℤ) : Type 0 where
  pub ahead : pos_part o < day_ms
  pub behind : neg_part o < day_ms
  pub whole_ahead : pos_part o % 1000 ≡ 0
  pub whole_behind : neg_part o % 1000 ≡ 0

whole_seconds :
    (t : ℕ) (o : ℤ) → t % 1000 ≡ 0 → day_ms ≤ t → IsOffset o → sub_ℕ (shift t o / 1000 * 1000) t ≡ o
whole_seconds t (pos n) w late h =
    let same : (t + n - 0) / 1000 * 1000 ≡ t + n = omega arith in rw same (ground arith)
whole_seconds t (negsuc n) w late h =
    let same : (t + 0 - suc n) / 1000 * 1000 ≡ t - suc n = omega arith in rw same (ground arith)

-- The date and time read as if the zone were UTC.
abbrev pub naive_of : LocalDate → HhMm → ℕ
naive_of d t = day_number d * day_ms + t.hour * 3600000 + t.minute * 60000

shift-shift_back : (n : ℕ) (o : ℤ) → 2 * day_ms ≤ n → IsOffset o → shift (shift_back n o) o ≡ n
shift-shift_back n o late h = omega arith

module _ (tz : Tzdb) (zone : String) (sane : (t : ℕ) → IsOffset (tz zone t)) where
  offset_at_whole : (t : ℕ) → t % 1000 ≡ 0 → day_ms ≤ t → offset_at tz t zone ≡ tz zone t
  unfolding offset_at
  offset_at_whole t w late = whole_seconds t (tz zone t) w late (sane t)

  -- Both passes read the zone's own offset: the result is the naive time less the offset in force
  -- at the first guess.
  zoned_to_instant_lem :
      (d : LocalDate) (t : HhMm)
      → 3 ≤ day_number d
      → zoned_to_instant tz d t zone
        ≡ shift_back (naive_of d t) (tz zone (shift_back (naive_of d t) (tz zone (naive_of d t))))
  unfolding zoned_to_instant
  zoned_to_instant_lem d t late =
      let n = naive_of d t in
      let o = tz zone n in
      rw (offset_at_whole n (omega arith) (omega arith))
        (rw (offset_at_whole (shift_back n o) (omega (arith, sane n)) (omega (arith, sane n))))

  -- Resolving a date and a time that exist, at the earliest three days after 1970-01-01, gives an
  -- instant that reads as that date and time in the zone, provided that the zone's offsets are whole
  -- seconds below a day and that the offset at the result is the one at the first guess (everywhere
  -- but beside a clock change).
  pub date_in_zone-zoned_to_instant :
      (d : LocalDate) (t : HhMm)
      → IsDate d
      → IsTime t
      → 3 ≤ day_number d
      → tz zone (zoned_to_instant tz d t zone)
        ≡ tz zone (shift_back (naive_of d t) (tz zone (naive_of d t)))
      → (date_in_zone tz (zoned_to_instant tz d t zone) zone ≡ d)
        × (time_in_zone tz (zoned_to_instant tz d t zone) zone ≡ t)
  unfolding date_in_zone time_in_zone
  date_in_zone-zoned_to_instant d t hd ht late settled =
      let n = naive_of d t in
      let first = shift_back n (tz zone n) in
      let back : shift (zoned_to_instant tz d t zone) (tz zone (zoned_to_instant tz d t zone)) ≡ n =
        rw (settled, zoned_to_instant_lem d t late)
          (shift-shift_back n (tz zone first) (omega arith) (sane first)) in
      let days : n / day_ms ≡ day_number d = omega (arith, ht) in
      (rw (back, days) (date_of-day_number d hd), rw back (ground (arith, ht)))
