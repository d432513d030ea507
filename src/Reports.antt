-- ===== src/Reports.antt =====
-- apps/api/src/lib/report-query.ts: the buckets of a report. `collate` is the order of the texts that
-- name the buckets, and `instant` the time, in milliseconds, that such a text stands for.
pub mod Sums
mod Tests
use homeparentcontrol.Prelude.{
  ℕ, ◌+◌, String, Bool, true, false, ◌&&◌, ◌||◌, not, List, [], ◌∷◌, ◌++◌, Option, none, some, map,
  leb, ltb, ◌==◌, str_eq, if◌then◌else◌, filter, length, take, drop, sum, any, get_or,
}
use homeparentcontrol.Prelude.Sort.{sort}
use homeparentcontrol.Prelude.Upsert.{upsert_by}

pub data Grain : Type 0 where
  hour day : Grain

-- A row of usage, of an hour or of a day.
pub record UsageRow : Type 0 where
  pub bucket : String
  pub bundle_id : String
  pub foreground_s : ℕ
  pub active_s : ℕ

pub record AppUsage : Type 0 where
  pub bundle_id : String
  pub foreground_s : ℕ
  pub active_s : ℕ

pub record UsageBucket : Type 0 where
  pub bucket : String
  pub foreground_s : ℕ
  pub active_s : ℕ
  pub apps : List AppUsage
  pub reported : Bool

pub record ReportTotals : Type 0 where
  pub foreground_s : ℕ
  pub active_s : ℕ
  pub reported_buckets : ℕ
  pub gap_buckets : ℕ

abbrev pub default_top_apps : ℕ
default_top_apps = 8

abbrev pub empty_bucket : String → UsageBucket
empty_bucket bucket = record {
  bucket = bucket;
  foreground_s = 0;
  active_s = 0;
  apps = [];
  reported = false;
}

abbrev pub app_of : UsageRow → AppUsage
app_of r = record { bundle_id = r.bundle_id; foreground_s = r.foreground_s; active_s = r.active_s }

abbrev pub add_row : UsageRow → UsageBucket → UsageBucket
add_row r b = record b {
  foreground_s = b.foreground_s + r.foreground_s;
  active_s = b.active_s + r.active_s;
  apps = b.apps ++ (app_of r ∷ []);
}

unfoldable pub by_bucket : List UsageBucket → List UsageRow → List UsageBucket
by_bucket buckets [] = buckets
by_bucket buckets (r ∷ rs) =
    by_bucket
      (upsert_by (λ b. str_eq b.bucket r.bucket) (add_row r) (add_row r (empty_bucket r.bucket))
        buckets)
      rs

-- The most used first.
abbrev pub busier : AppUsage → AppUsage → Bool
busier a b =
    ltb b.active_s a.active_s || ((a.active_s == b.active_s) && leb b.foreground_s a.foreground_s)

abbrev pub other_of : List AppUsage → AppUsage
other_of tail = record {
  bundle_id = "other";
  foreground_s = sum (map (λ a. a.foreground_s) tail);
  active_s = sum (map (λ a. a.active_s) tail);
}

-- The tail of a sorted list, folded into one.
abbrev pub fold_tail : ℕ → List AppUsage → List AppUsage
fold_tail top apps =
    if ltb top (length apps) then take top apps ++ (other_of (drop top apps) ∷ []) else apps

abbrev pub cap_apps : ℕ → UsageBucket → UsageBucket
cap_apps top b = record b { apps = fold_tail top (sort busier b.apps) }

-- A stretch in which the device was known to report.
pub record Range : Type 0 where
  pub from : ℕ
  pub to : ℕ

abbrev pub length_of : Grain → ℕ
length_of hour = 3600000
length_of day = 86400000

abbrev pub range_of : ℕ → (ℕ × Option ℕ) → Range
range_of now (entered, exited) = record { from = entered; to = get_or exited now }

abbrev pub reported_ranges : ℕ → ℕ → List (ℕ × Option ℕ) → List Range
reported_ranges now from rows = filter (λ r. ltb from r.to) (map (range_of now) rows)

module _ (collate : String → String → Bool) (instant : String → ℕ) where
  unfoldable pub fold : List UsageRow → ℕ → List UsageBucket
  fold rows top = sort (λ a b. collate a.bucket b.bucket) (map (cap_apps top) (by_bucket [] rows))

  abbrev pub covers_any : List Range → String → Grain → Bool
  covers_any ranges bucket grain =
      let start = instant bucket in
      any (λ r. ltb r.from (start + length_of grain) && ltb start r.to) ranges

  abbrev pub mark : List Range → Grain → UsageBucket → UsageBucket
  mark ranges grain b = record b { reported = covers_any ranges b.bucket grain }

  -- The buckets of a report, each marked by whether the device reported through it.
  unfoldable pub buckets_of : List UsageRow → Option ℕ → List Range → Grain → List UsageBucket
  buckets_of rows top ranges grain =
      map (mark ranges grain) (fold rows (get_or top default_top_apps))

abbrev pub totals_of : List UsageBucket → ReportTotals
totals_of buckets = record {
  foreground_s = sum (map (λ b. b.foreground_s) buckets);
  active_s = sum (map (λ b. b.active_s) buckets);
  reported_buckets = length (filter (λ b. b.reported) buckets);
  gap_buckets = length (filter (λ b. not b.reported) buckets);
}
