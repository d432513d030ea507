-- ===== src/Reports/Tests.antt =====
-- apps/api/src/lib/report-query.ts: a report of two days, one app to each.
use homeparentcontrol.Prelude.{ℕ, String, Bool, true, List, [], ◌∷◌, some, All}
use homeparentcontrol.Reports.{UsageRow, Range, day, buckets_of}
use homeparentcontrol.Reports.Sums.{IsTold, buckets_of-IsTold}

abbrev in_order : String → String → Bool
in_order a b = true

abbrev midnight : String → ℕ
midnight text = 86400000

abbrev used : String → String → ℕ → UsageRow
used bucket app seconds = record {
  bucket = bucket;
  bundle_id = app;
  foreground_s = seconds;
  active_s = seconds;
}

abbrev two_days : List UsageRow
two_days =
    used "2026-10-01" "a" 60
    ∷ used "2026-10-01" "b" 90
    ∷ used "2026-10-01" "c" 30
    ∷ used "2026-10-02" "a" 20
    ∷ []

abbrev one_day : List Range
one_day = record { from = 86400000; to = 90000000 } ∷ []

-- The tail of two apps is folded into one.
buckets_of-IsTold_example :
    All (IsTold 1) (buckets_of in_order midnight two_days (some 1) one_day day)
buckets_of-IsTold_example = buckets_of-IsTold in_order midnight two_days (some 1) one_day day
