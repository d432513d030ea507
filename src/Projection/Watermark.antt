-- ===== src/Projection/Watermark.antt =====
-- apps/api/src/jobs/project.ts: what lies behind the watermark has been projected.
use homeparentcontrol.Prelude.{
  if_same, ℕ, ◌≤◌, ◌<◌, ◌≡◌, ◌≢◌, refl, ==_iff, sym, subst, ◌∙◌, ap, true, not, List, [], ◌∷◌, ◌++◌,
  Option, none, some, ltb, ◌==◌, if◌then◌else◌, filter, length, take, drop, All, All_of_Memᴰ,
  All-map_imp, All-filter_self, All-filter, inl, inr, ◌⊎◌, arith, leb→le, Bool-cases, any,
  any-append,
}
use mathlib.Core.List.{Memᴰ}
use homeparentcontrol.Prelude.Sort.{sort, IsOrder, IsSorted, sort-IsSorted}
use homeparentcontrol.Prelude.Members.{
  take-drop-Memᴰ, filter-Memᴰ, drop-short, length-take-le, All-zip, sort-Memᴰ, IsSorted-take,
  IsSorted-split,
}
use homeparentcontrol.Projection.{
  pass_over, recompute_all, no_tally, advanced, pass, start_of, Tally, Event, Store, by_received_at,
  scan, received_ms, last_of, before_last_group, or_whole, usable_of, newest, Bucket, same_bucket,
  bucket_of, dirty_from, dirty_of,
}

by_received_at-IsOrder : IsOrder by_received_at
by_received_at-IsOrder = record { total = λ a b. ground arith; trans = λ a b c p q. ground arith }

last_of-Memᴰ : (e : Event) (es : List Event) → Memᴰ (last_of e es) (e ∷ es)
unfolding last_of
last_of-Memᴰ e [] = Memᴰ.head refl
last_of-Memᴰ e (x ∷ xs) = Memᴰ.tail (last_of-Memᴰ x xs)

-- The last of a sorted list was received last.
last_of-IsLast :
    (e : Event) (es : List Event)
    → IsSorted by_received_at (e ∷ es)
    → All (λ t. t.received_at ≤ (last_of e es).received_at) (e ∷ es)
unfolding last_of
last_of-IsLast e [] h = (omega arith, tt)
last_of-IsLast e (x ∷ xs) h = let ih = last_of-IsLast x xs h.1 in (ground (arith, h.0.0, ih.0), ih)

-- The last group of a full batch was cut off, or the batch was not full.
abbrev pub IsCut : ℕ → List Event → Type 0
IsCut limit scanned = length scanned ≡ limit → before_last_group scanned ≢ []

in_scan :
    (limit w : ℕ) (events : List Event) {e : Event}
    → Memᴰ e events
    → w < e.received_at
    → Memᴰ e (scan limit w events)
      ⊎ ((length (scan limit w events) ≡ limit)
          × All (λ t. t.received_at ≤ e.received_at) (scan limit w events))
unfolding scan
in_scan limit w events {e} m h =
    let found = filter (λ x. ltb w x.received_at) events in
    let sorted = sort by_received_at found in
    elim (take-drop-Memᴰ limit sorted
      (sort-Memᴰ by_received_at found (filter-Memᴰ _ events m (ground arith)))) [
        | inl here ↦ inl here
        | inr beyond ↦ elim (Bool-cases (length (take limit sorted) == limit)) [
          | inl full ↦ inr (
            (==_iff _ limit).0 full,
            All_of_Memᴰ _ (drop limit sorted)
                (All-map_imp (λ d p. All-map_imp (λ t q. leb→le _ _ q) (take limit sorted) p)
                  (drop limit sorted)
                  (IsSorted-split by_received_at limit sorted
                    (sort-IsSorted by_received_at-IsOrder found)))
                beyond,
          )
          | inr short ↦
              let few : length (take limit sorted) < limit =
                ground (arith, length-take-le limit sorted) in
              elim (subst (λ l. Memᴰ e l) (drop-short limit sorted few) beyond) [ ]
        ]
      ]

newest-Memᴰ :
    (l : List Event) (w : ℕ) → newest l ≡ some w → (u : Event) × Memᴰ u l × (u.received_at ≡ w)
newest-Memᴰ [] w h = absurd (ground arith)
newest-Memᴰ (e ∷ es) w h = (last_of e es, last_of-Memᴰ e es, ground arith)

usable_full :
    (limit : ℕ) (sc : List Event)
    → length sc ≡ limit
    → before_last_group sc ≢ []
    → usable_of limit sc ≡ before_last_group sc
unfolding usable_of
usable_full limit sc full cut = rw ((==_iff _ limit).1 full) (whole (before_last_group sc) cut)
  where
    whole : (l : List Event) → l ≢ [] → or_whole sc l ≡ l
    whole [] n = absurd (n refl)
    whole (x ∷ xs) n = refl

-- What is kept was received in an earlier millisecond than the last of the batch.
before_last_group-IsEarlier :
    (x : Event) (xs : List Event)
    → IsSorted by_received_at (x ∷ xs)
    → All (λ u. received_ms u < received_ms (last_of x xs)) (before_last_group (x ∷ xs))
unfolding before_last_group
before_last_group-IsEarlier x xs h =
    let test = λ (r : Event). not (received_ms r == received_ms (last_of x xs)) in
    All-map_imp (λ u p. ground arith) _
      (All-zip _ _ (filter test (x ∷ xs)) (All-filter _ test (x ∷ xs) (last_of-IsLast x xs h))
        (All-filter_self test (x ∷ xs)))

cut_lem :
    (limit : ℕ) (x : Event) (xs : List Event) (w' : ℕ) (e : Event)
    → IsSorted by_received_at (x ∷ xs)
    → newest (before_last_group (x ∷ xs)) ≡ some w'
    → Memᴰ e (x ∷ xs)
      ⊎ ((length (x ∷ xs) ≡ limit) × All (λ t. t.received_at ≤ e.received_at) (x ∷ xs))
    → e.received_at ≤ w'
    → Memᴰ e (before_last_group (x ∷ xs))
unfolding before_last_group
cut_lem limit x xs w' e sorted new found le =
    let (u, m, same) = newest-Memᴰ (before_last_group (x ∷ xs)) w' new in
    let early : received_ms u < received_ms (last_of x xs) =
      All_of_Memᴰ _ (before_last_group (x ∷ xs)) (before_last_group-IsEarlier x xs sorted) m in
    elim found [
      | inl here ↦
          filter-Memᴰ (λ r. not (received_ms r == received_ms (last_of x xs))) (x ∷ xs) here
            (ground arith)
      | inr (_, later) ↦
          let after : (last_of x xs).received_at ≤ e.received_at =
            All_of_Memᴰ _ (x ∷ xs) later (last_of-Memᴰ x xs) in
          absurd (omega arith)
    ]

cut_nonempty :
    (limit : ℕ) (sc : List Event) (w' : ℕ) (e : Event)
    → IsSorted by_received_at sc
    → before_last_group sc ≢ []
    → newest (before_last_group sc) ≡ some w'
    → Memᴰ e sc ⊎ ((length sc ≡ limit) × All (λ t. t.received_at ≤ e.received_at) sc)
    → e.received_at ≤ w'
    → Memᴰ e (before_last_group sc)
unfolding before_last_group
cut_nonempty limit [] w' e sorted cut new found le = absurd (cut refl)
cut_nonempty limit (x ∷ xs) w' e sorted cut new found le =
    cut_lem limit x xs w' e sorted new found le

usable_lem :
    (limit : ℕ) (sc : List Event) (w' : ℕ) (e : Event)
    → IsSorted by_received_at sc
    → IsCut limit sc
    → newest (usable_of limit sc) ≡ some w'
    → Memᴰ e sc ⊎ ((length sc ≡ limit) × All (λ t. t.received_at ≤ e.received_at) sc)
    → e.received_at ≤ w'
    → Memᴰ e (usable_of limit sc)
unfolding usable_of
usable_lem limit sc w' e sorted cut new found le = elim (Bool-cases (length sc == limit)) [
  | inr short ↦ elim found [ inl m ↦ rw short m | inr (full, _) ↦ absurd (ground arith) ]
  | inl full ↦
      let len = (==_iff (length sc) limit).0 full in
      let same = usable_full limit sc len (cut len) in
      subst (λ l. Memᴰ e l) (sym same)
        (cut_nonempty limit sc w' e sorted (cut len) (sym (ap newest same) ∙ new) found le)
]

abbrev found_with : List Bucket → Event → List Bucket
found_with found e =
    if any (same_bucket (bucket_of e)) found then found else found ++ (bucket_of e ∷ [])

found_with-keeps :
    (b : Bucket) (found : List Bucket) (e : Event)
    → any (same_bucket b) found ≡ true
    → any (same_bucket b) (found_with found e) ≡ true
found_with-keeps b found e h = ground (arith, any-append (same_bucket b) found (bucket_of e ∷ []))

found_with_self :
    (found : List Bucket) (e : Event) → any (same_bucket (bucket_of e)) (found_with found e) ≡ true
found_with_self found e =
    ground (arith, any-append (same_bucket (bucket_of e)) found (bucket_of e ∷ []))

dirty_from-keeps :
    (b : Bucket) (es : List Event) (found : List Bucket)
    → any (same_bucket b) found ≡ true
    → any (same_bucket b) (dirty_from found es) ≡ true
unfolding dirty_from
dirty_from-keeps b [] found h = h
dirty_from-keeps b (e ∷ es) found h =
    dirty_from-keeps b es (found_with found e) (found_with-keeps b found e h)

dirty_from-any :
    (es : List Event) (found : List Bucket) (e : Event)
    → Memᴰ e es
    → any (same_bucket (bucket_of e)) (dirty_from found es) ≡ true
unfolding dirty_from
dirty_from-any [] found e m = elim m [ ]
dirty_from-any (x ∷ xs) found e (Memᴰ.tail m) = dirty_from-any xs (found_with found x) e m
dirty_from-any (x ∷ xs) found e (Memᴰ.head q) =
    dirty_from-keeps (bucket_of e) xs (found_with found x) (
      subst (λ y. any (same_bucket (bucket_of e)) (found_with found y) ≡ true) q
        (found_with_self found e))

scan-IsSorted : (limit w : ℕ) (events : List Event) → IsSorted by_received_at (scan limit w events)
unfolding scan
scan-IsSorted limit w events =
    IsSorted-take by_received_at limit _ (sort-IsSorted by_received_at-IsOrder _)

newest-some : (l : List Event) → l ≢ [] → (n : ℕ) × (newest l ≡ some n)
newest-some [] h = absurd (h refl)
newest-some (e ∷ es) h = ((last_of e es).received_at, refl)

usable_of-ne-nil : (limit : ℕ) (x : Event) (xs : List Event) → usable_of limit (x ∷ xs) ≢ []
unfolding usable_of
usable_of-ne-nil limit x xs = elim (Bool-cases (length (x ∷ xs) == limit)) [
  | inl full ↦ rw full (whole (before_last_group (x ∷ xs)))
  | inr short ↦ rw short (λ e. cc)
]
  where
    whole : (l : List Event) → or_whole (x ∷ xs) l ≢ []
    whole [] e = cc
    whole (y ∷ ys) e = cc

-- What a pass leaves as the watermark, by what it scanned.
abbrev left_by : ℕ → List Event → Option ℕ → Option ℕ → Option ℕ
left_by limit [] old new = old
left_by limit (x ∷ xs) old new = advanced true (newest (usable_of limit (x ∷ xs))) new

left_by_cases :
    (limit : ℕ) (sc : List Event) (old new : Option ℕ) (w' : ℕ)
    → left_by limit sc old new ≡ some w'
    → (newest (usable_of limit sc) ≡ some w') ⊎ (old ≡ some w')
left_by_cases limit [] old new w' h = inr h
left_by_cases limit (x ∷ xs) old new w' h =
    let (n, e) = newest-some (usable_of limit (x ∷ xs)) (usable_of-ne-nil limit x xs) in
    inl (e ∙ (sym (ap (λ o. advanced true o new) e) ∙ h))

abbrev with_watermark : Option ℕ → Store → Store
with_watermark w db = record db { watermark = w }

usable-nil : (limit : ℕ) → usable_of limit [] ≡ []
unfolding usable_of before_last_group
usable-nil limit = if_same (length {0} {A = Event} [] == limit) []

module _ (recompute : Bucket → Store → Store × Tally) where
  pass_over-watermark :
      (limit : ℕ) (sc : List Event) (db : Store)
      → (pass_over recompute limit sc true db).0.watermark
        ≡ left_by limit sc db.watermark
            (recompute_all recompute (dirty_of (usable_of limit sc)) (db, no_tally)).0.watermark
  unfolding pass_over
  pass_over-watermark limit [] db = refl
  pass_over-watermark limit (x ∷ xs) db = refl

  -- The store after some buckets were recomputed, one after another.
  abbrev pub after_buckets : List Bucket → Store → Store
  after_buckets [] db = db
  after_buckets (b ∷ bs) db = after_buckets bs (recompute b db).0

  recompute_all-after_buckets :
      (bs : List Bucket) (db : Store) (t : Tally)
      → (recompute_all recompute bs (db, t)).0 ≡ after_buckets bs db
  unfolding recompute_all
  recompute_all-after_buckets [] db t = refl
  recompute_all-after_buckets (b ∷ bs) db t = recompute_all-after_buckets bs (recompute b db).0 _

  -- The bucket of an event was recomputed by a pass, between others, and after that only the watermark
  -- was written.
  pub record IsProjected (e : Event) (before after : Store) : Type 0 where
    pub earlier : List Bucket
    pub bucket : Bucket
    pub later : List Bucket
    pub same : same_bucket (bucket_of e) bucket ≡ true
    pub store :
        after ≡ record (after_buckets later (recompute bucket (after_buckets earlier before)).0) {
          watermark = after.watermark;
        }

  after_buckets-append :
      (bs cs : List Bucket) (db : Store)
      → after_buckets (bs ++ cs) db ≡ after_buckets cs (after_buckets bs db)
  after_buckets-append [] cs db = refl
  after_buckets-append (b ∷ bs) cs db = after_buckets-append bs cs (recompute b db).0

  -- A list with a bucket in it, cut there.
  pub record IsCutAt (b : Bucket) (bs : List Bucket) : Type 0 where
    pub earlier : List Bucket
    pub bucket : Bucket
    pub later : List Bucket
    pub same : same_bucket b bucket ≡ true
    pub whole : bs ≡ earlier ++ (bucket ∷ later)

  cut_at : (b : Bucket) (bs : List Bucket) → any (same_bucket b) bs ≡ true → IsCutAt b bs
  cut_at b [] h = absurd (ground (arith, h))
  cut_at b (x ∷ xs) h = elim (Bool-cases (same_bucket b x)) [
    | inl q ↦ record { earlier = []; bucket = x; later = xs; same = q; whole = refl }
    | inr q ↦
        let c = cut_at b xs (sym (rw q refl) ∙ h) in
        record {
          earlier = x ∷ c.earlier;
          bucket = c.bucket;
          later = c.later;
          same = c.same;
          whole = ap (λ l. x ∷ l) c.whole;
        }
  ]

  pass_over-store :
      (limit : ℕ) (sc : List Event) (db : Store)
      → (pass_over recompute limit sc true db).0
        ≡ record (after_buckets (dirty_of (usable_of limit sc)) db) {
          watermark = (pass_over recompute limit sc true db).0.watermark;
        }
  unfolding pass_over dirty_from
  pass_over-store limit [] db = rw (usable-nil limit) refl
  pass_over-store limit (x ∷ xs) db =
      rw (recompute_all-after_buckets (dirty_of (usable_of limit (x ∷ xs))) db no_tally) refl

  pass_over-IsProjected :
      (limit : ℕ) (sc : List Event) (db : Store) (e : Event)
      → any (same_bucket (bucket_of e)) (dirty_of (usable_of limit sc)) ≡ true
      → IsProjected e db (pass_over recompute limit sc true db).0
  pass_over-IsProjected limit sc db e hit =
      let c = cut_at (bucket_of e) (dirty_of (usable_of limit sc)) hit in
      let cut_store =
        ap (λ bs. after_buckets bs db) c.whole
        ∙ after_buckets-append c.earlier (c.bucket ∷ c.later) db in
      record {
        earlier = c.earlier;
        bucket = c.bucket;
        later = c.later;
        same = c.same;
        store =
            pass_over-store limit sc db
            ∙ ap (with_watermark (pass_over recompute limit sc true db).0.watermark) cut_store;
      }

  -- Every event that a forward pass puts behind the watermark has its bucket recomputed by that pass:
  -- the store that it leaves is that of before, with buckets recomputed one after another, that bucket
  -- among them, and the watermark written. A full batch must be more than one millisecond's group.
  pub pass_skips_none :
      (limit : ℕ) (db : Store) (w' : ℕ) (e : Event)
      → Memᴰ e db.events
      → start_of none db.watermark < e.received_at
      → e.received_at ≤ w'
      → IsCut limit (scan limit (start_of none db.watermark) db.events)
      → (pass recompute limit none true db).0.watermark ≡ some w'
      → IsProjected e db (pass recompute limit none true db).0
  unfolding pass
  pass_skips_none limit db w' e m after behind cut h =
      let w = start_of none db.watermark in
      let sc = scan limit w db.events in
      elim (left_by_cases limit sc db.watermark _ w' (sym (pass_over-watermark limit sc db) ∙ h)) [
        | inl new ↦ pass_over-IsProjected limit sc db e (
            dirty_from-any (usable_of limit sc) [] e (
              usable_lem limit sc w' e (scan-IsSorted limit w db.events) cut new
                (in_scan limit w db.events m after) behind))
        | inr old ↦ absurd (ground arith)
      ]
