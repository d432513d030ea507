-- ===== src/Reports/Sums.antt =====
-- apps/api/src/lib/report-query.ts: the apps of a bucket add up to its bar, and the bars to the rows.
use homeparentcontrol.Prelude.{
  ℕ, zero, suc, ◌+◌, ◌≤◌, ◌≡◌, refl, ◌∙◌, String, Bool, not, List, [], ◌∷◌, ◌++◌, Option, map, ltb,
  arith, filter, length, length-append, take, drop, sum, All, All-map_imp, inl, inr, Bool-cases,
  str_eq, get_or,
}
use homeparentcontrol.Prelude.Sort.{sort, insert_sorted, sort-All}
use homeparentcontrol.Prelude.Upsert.{upsert_by-sum, upsert_by-All}
use homeparentcontrol.Prelude.Members.{All-map, length-take-le}
use homeparentcontrol.Reports.{
  UsageRow, AppUsage, UsageBucket, Grain, Range, empty_bucket, app_of, add_row, by_bucket, busier,
  other_of, fold_tail, cap_apps, fold, mark, buckets_of, totals_of, default_top_apps,
}

module _ {ℓ} {A : Type ℓ} (m : A → ℕ) where
  sum-append : (xs ys : List A) → sum (map m (xs ++ ys)) ≡ sum (map m xs) + sum (map m ys)
  sum-append [] ys = omega arith
  sum-append (x ∷ xs) ys = omega (arith, sum-append xs ys)

  sum-take-drop :
      (n : ℕ) (xs : List A) → sum (map m (take n xs)) + sum (map m (drop n xs)) ≡ sum (map m xs)
  sum-take-drop zero xs = omega arith
  sum-take-drop (suc n) [] = omega arith
  sum-take-drop (suc n) (x ∷ xs) = omega (arith, sum-take-drop n xs)

  sum-insert_sorted :
      (le : A → A → Bool) (x : A) (xs : List A)
      → sum (map m (insert_sorted le x xs)) ≡ m x + sum (map m xs)
  unfolding insert_sorted
  sum-insert_sorted le x [] = refl
  sum-insert_sorted le x (y ∷ ys) = elim (Bool-cases (le x y)) [
    | inl e ↦ rw e refl
    | inr e ↦ rw e (omega (arith, sum-insert_sorted le x ys))
  ]

  sum-sort : (le : A → A → Bool) (xs : List A) → sum (map m (sort le xs)) ≡ sum (map m xs)
  unfolding sort
  sum-sort le [] = refl
  sum-sort le (x ∷ xs) = omega (arith, sum-insert_sorted le x (sort le xs), sum-sort le xs)

-- The apps add up to the bar above them.
pub record AddsUp (b : UsageBucket) : Type 0 where
  pub foreground : sum (map (λ a. a.foreground_s) b.apps) ≡ b.foreground_s
  pub active : sum (map (λ a. a.active_s) b.apps) ≡ b.active_s

add_row-AddsUp : (r : UsageRow) (b : UsageBucket) → AddsUp b → AddsUp (add_row r b)
add_row-AddsUp r b h = record {
  foreground = omega (arith, sum-append (λ a. a.foreground_s) b.apps (app_of r ∷ []), h.foreground);
  active = omega (arith, sum-append (λ a. a.active_s) b.apps (app_of r ∷ []), h.active);
}

by_bucket-AddsUp :
    (rows : List UsageRow) (buckets : List UsageBucket)
    → All AddsUp buckets
    → All AddsUp (by_bucket buckets rows)
unfolding by_bucket
by_bucket-AddsUp [] buckets h = h
by_bucket-AddsUp (r ∷ rs) buckets h = by_bucket-AddsUp rs _ (
    upsert_by-All (λ b. str_eq b.bucket r.bucket) (add_row r) (add_row r (empty_bucket r.bucket))
      AddsUp (λ b e p. add_row-AddsUp r b p)
      (add_row-AddsUp r (empty_bucket r.bucket) (record { foreground = refl; active = refl }))
      buckets h)

-- To fold the tail leaves any sum as it is that the folded tail has.
sum-fold_tail :
    (m : AppUsage → ℕ)
    → ((tail : List AppUsage) → m (other_of tail) ≡ sum (map m tail))
    → (top : ℕ) (apps : List AppUsage) → sum (map m (fold_tail top apps)) ≡ sum (map m apps)
sum-fold_tail m f top apps = elim (Bool-cases (ltb top (length apps))) [
  | inr e ↦ rw e refl
  | inl e ↦ rw e (
      omega (
        arith,
        sum-append m (take top apps) (other_of (drop top apps) ∷ []),
        f (drop top apps),
        sum-take-drop m top apps,
      ))
]

length-fold_tail : (top : ℕ) (apps : List AppUsage) → length (fold_tail top apps) ≤ top + 1
length-fold_tail top apps = elim (Bool-cases (ltb top (length apps))) [
  | inr e ↦ rw e (ground arith)
  | inl e ↦ rw e (
      omega (
        arith,
        length-append (take top apps) (other_of (drop top apps) ∷ []),
        length-take-le top apps,
      ))
]

abbrev pub IsTold : ℕ → UsageBucket → Type 0
IsTold top b = AddsUp b × (length b.apps ≤ top + 1)

cap_apps-IsTold : (top : ℕ) (b : UsageBucket) → AddsUp b → IsTold top (cap_apps top b)
cap_apps-IsTold top b h = (
  record {
    foreground =
        sum-fold_tail (λ a. a.foreground_s) (λ t. refl) top (sort busier b.apps)
        ∙ sum-sort (λ a. a.foreground_s) busier b.apps
        ∙ h.foreground;
    active =
        sum-fold_tail (λ a. a.active_s) (λ t. refl) top (sort busier b.apps)
        ∙ sum-sort (λ a. a.active_s) busier b.apps
        ∙ h.active;
  },
  length-fold_tail top (sort busier b.apps),
)

-- The bars add up to the rows.
by_bucket-sum :
    (m : UsageBucket → ℕ) (k : UsageRow → ℕ)
    → ((r : UsageRow) (b : UsageBucket) → m (add_row r b) ≡ m b + k r)
    → ((r : UsageRow) → m (add_row r (empty_bucket r.bucket)) ≡ k r)
    → (rows : List UsageRow) (buckets : List UsageBucket)
    → sum (map m (by_bucket buckets rows)) ≡ sum (map m buckets) + sum (map k rows)
unfolding by_bucket
by_bucket-sum m k f g [] buckets = omega arith
by_bucket-sum m k f g (r ∷ rs) buckets =
    by_bucket-sum m k f g rs _
    ∙ omega (
      arith,
      upsert_by-sum (λ b. str_eq b.bucket r.bucket) (add_row r) (add_row r (empty_bucket r.bucket))
          m (k r) (λ b e. f r b) (g r) buckets,
    )

-- An update that leaves the measure alone.
sum-map {ℓ} :
    {A : Type ℓ} (m : A → ℕ) (f : A → A)
    → ((x : A) → m (f x) ≡ m x)
    → (xs : List A) → sum (map m (map f xs)) ≡ sum (map m xs)
sum-map m f h [] = refl
sum-map m f h (x ∷ xs) = omega (arith, h x, sum-map m f h xs)

length-partition :
    (bs : List UsageBucket)
    → length (filter (λ b. b.reported) bs) + length (filter (λ b. not b.reported) bs) ≡ length bs
length-partition [] = refl
length-partition (b ∷ bs) = elim (Bool-cases b.reported) [
  | inl e ↦ rw e (omega (arith, length-partition bs))
  | inr e ↦ rw e (omega (arith, length-partition bs))
]

module _ (collate : String → String → Bool) (instant : String → ℕ) where
  -- In every bucket of a report the apps that are listed, the folded tail among them, add up to the
  -- bucket's own seconds, and are at most one more than the cap.
  pub buckets_of-IsTold :
      (rows : List UsageRow) (top : Option ℕ) (ranges : List Range) (grain : Grain)
      → All
          (IsTold (get_or top default_top_apps))
          (buckets_of collate instant rows top ranges grain)
  unfolding buckets_of fold
  buckets_of-IsTold rows top ranges grain =
      let n = get_or top default_top_apps in
      All-map (IsTold n) (mark collate instant ranges grain) (fold collate instant rows n) (
        All-map_imp (λ b h. (record { foreground = h.0.foreground; active = h.0.active }, h.1))
          (fold collate instant rows n)
          (sort-All _ (IsTold n) (map (cap_apps n) (by_bucket [] rows)) (
            All-map (IsTold n) (cap_apps n) (by_bucket [] rows)
              (All-map_imp (cap_apps-IsTold n) (by_bucket [] rows) (by_bucket-AddsUp rows [] tt)))))

  fold-sum :
      (m : UsageBucket → ℕ) (k : UsageRow → ℕ)
      → ((r : UsageRow) (b : UsageBucket) → m (add_row r b) ≡ m b + k r)
      → ((r : UsageRow) → m (add_row r (empty_bucket r.bucket)) ≡ k r)
      → ((top : ℕ) (b : UsageBucket) → m (cap_apps top b) ≡ m b)
      → (rows : List UsageRow) (top : ℕ)
      → sum (map m (fold collate instant rows top)) ≡ sum (map k rows)
  unfolding fold
  fold-sum m k f g c rows top =
      sum-sort m _ (map (cap_apps top) (by_bucket [] rows))
      ∙ sum-map m (cap_apps top) (c top) (by_bucket [] rows)
      ∙ by_bucket-sum m k f g rows []
      ∙ omega arith

  -- The totals of a report are the seconds of all of the rows, and each bucket is either one that
  -- was reported through or a gap.
  totals_of-buckets_of :
      (rows : List UsageRow) (top : Option ℕ) (ranges : List Range) (grain : Grain)
      → let t = totals_of (buckets_of collate instant rows top ranges grain) in
        (t.foreground_s ≡ sum (map (λ r. r.foreground_s) rows))
        × ((t.active_s ≡ sum (map (λ r. r.active_s) rows))
            × (t.reported_buckets + t.gap_buckets
                ≡ length (buckets_of collate instant rows top ranges grain)))
  unfolding buckets_of
  totals_of-buckets_of rows top ranges grain =
      let n = get_or top default_top_apps in
      (
        sum-map (λ b. b.foreground_s) (mark collate instant ranges grain) (λ b. refl)
              (fold collate instant rows n)
            ∙ fold-sum (λ b. b.foreground_s) (λ r. r.foreground_s) (λ r b. refl) (λ r. omega arith)
                (λ t b. refl) rows n,
        (
          sum-map (λ b. b.active_s) (mark collate instant ranges grain) (λ b. refl)
                (fold collate instant rows n)
              ∙ fold-sum (λ b. b.active_s) (λ r. r.active_s) (λ r b. refl) (λ r. omega arith)
                  (λ t b. refl) rows n,
          length-partition (buckets_of collate instant rows top ranges grain),
        ),
      )
