-- ===== src/Projection/Idempotence/Spans.antt =====
-- apps/api/src/jobs/project.ts: the spans of an hour, put in the place of what the hour had.
use homeparentcontrol.Prelude.{
  ◌≡◌, refl, sym, ◌∙◌, ap, Bool, true, false, ◌&&◌, not, List, [], ◌∷◌, ◌++◌, map, arith, filter,
  All, All-map_imp, All-filter_self, inl, inr, Bool-cases, Option-cases, ◌==◌, ltb, is_some,
  if_same,
}
use mathlib.Core.List.{append-nil, map-append}
use homeparentcontrol.Prelude.Upsert.{upsert_by, upsert_by-append, upsert_by-All}
use homeparentcontrol.Prelude.Members.{
  filter-append, filter-All, filter_none, filter-map, map_again,
}
use homeparentcontrol.Projection.{Event, SessionSpan, Bucket}
use homeparentcontrol.Projection.Buckets.{
  same_span, rewrite_span, write_spans, close_span, close_at, in_hour,
}

-- Spans: those of the bucket are put in the place of what it had.
abbrev is_elsewhere : Bucket → SessionSpan → Bool
is_elsewhere b s = not ((s.device_id == b.device_id) && in_hour b s.started_at)

abbrev pub IsOf : Bucket → SessionSpan → Type 0
IsOf b s = is_elsewhere b s ≡ false

same_span-false :
    (b : Bucket) (x s : SessionSpan) → is_elsewhere b x ≡ true → IsOf b s → same_span x s ≡ false
same_span-false b x s p q = ground arith

write_spans-append :
    (b : Bucket) (ss xs ys : List SessionSpan)
    → All (IsOf b) ss
    → All (λ x. is_elsewhere b x ≡ true) xs
    → write_spans ss (xs ++ ys) ≡ xs ++ write_spans ss ys
unfolding write_spans
write_spans-append b [] xs ys h k = refl
write_spans-append b (s ∷ ss) xs ys h k =
    ap (write_spans ss) (
      upsert_by-append (λ r. same_span r s) (rewrite_span s) s xs ys
        (All-map_imp (λ x p. same_span-false b x s p h.0) xs k))
    ∙ write_spans-append b ss xs (upsert_by (λ r. same_span r s) (rewrite_span s) s ys) h.1 k

write_spans-All :
    (b : Bucket) (ss ys : List SessionSpan)
    → All (IsOf b) ss
    → All (IsOf b) ys
    → All (IsOf b) (write_spans ss ys)
unfolding write_spans
write_spans-All b [] ys h k = k
write_spans-All b (s ∷ ss) ys h k =
    write_spans-All b ss _ h.1
      (upsert_by-All (λ r. same_span r s) (rewrite_span s) s (IsOf b) (λ x e p. p) h.0 ys k)

close_span_again :
    (b : Bucket) (events : List Event) (s : SessionSpan)
    → close_span b events (close_span b events s) ≡ close_span b events s
close_span_again b events s =
    elim (Bool-cases
      ((s.device_id == b.device_id) && not (is_some s.ended_at) && ltb s.started_at b.hour)) [
        | inr other ↦ rw (other, other) refl
        | inl mine ↦ elim (Option-cases (close_at s.device_id s.started_at events)) [
          | inl e ↦ rw (mine, e) (if_same _ _)
          | inr (t, e) ↦ rw (mine, e) (if_same _ _)
        ]
      ]

close_span-elsewhere :
    (b : Bucket) (events : List Event) (s : SessionSpan)
    → is_elsewhere b (close_span b events s) ≡ is_elsewhere b s
close_span-elsewhere b events s = ground arith

-- What the recomputation makes of the table of spans.
abbrev respan : Bucket → List Event → List SessionSpan → List SessionSpan → List SessionSpan
respan b events ss table =
    map (close_span b events) (write_spans ss (filter (is_elsewhere b) table))

respan_split :
    (b : Bucket) (events : List Event) (ss table : List SessionSpan)
    → All (IsOf b) ss
    → respan b events ss table
      ≡ map (close_span b events) (filter (is_elsewhere b) table)
        ++ map (close_span b events) (write_spans ss [])
respan_split b events ss table h =
    let kept = filter (is_elsewhere b) table in
    ap (λ l. map (close_span b events) (write_spans ss l)) (sym (append-nil kept))
    ∙ ap (map (close_span b events))
        (write_spans-append b ss kept [] h (All-filter_self (is_elsewhere b) table))
    ∙ map-append (close_span b events) kept (write_spans ss [])

-- Outside the bucket the table is as before, but for the spans that end.
elsewhere_again :
    (b : Bucket) (events : List Event) (ss table : List SessionSpan)
    → All (IsOf b) ss
    → filter (is_elsewhere b) (respan b events ss table)
      ≡ map (close_span b events) (filter (is_elsewhere b) table)
elsewhere_again b events ss table h =
    let kept = filter (is_elsewhere b) table in
    let close = close_span b events in
    let same = close_span-elsewhere b events in
    ap (filter (is_elsewhere b)) (respan_split b events ss table h)
    ∙ filter-append (is_elsewhere b) (map close kept) (map close (write_spans ss []))
    ∙ ap (λ l. l ++ filter (is_elsewhere b) (map close (write_spans ss [])))
        (filter-map (is_elsewhere b) close same kept
          ∙ ap (map close)
              (filter-All (is_elsewhere b) kept (All-filter_self (is_elsewhere b) table)))
    ∙ ap (λ l. map close kept ++ l)
        (filter-map (is_elsewhere b) close same (write_spans ss [])
          ∙ ap (map close)
              (filter_none (is_elsewhere b) (write_spans ss []) (write_spans-All b ss [] h tt)))
    ∙ append-nil (map close kept)

pub respan_again :
    (b : Bucket) (events : List Event) (ss table : List SessionSpan)
    → All (IsOf b) ss
    → respan b events ss (respan b events ss table) ≡ respan b events ss table
respan_again b events ss table h =
    let once = respan b events ss table in
    respan_split b events ss once h
    ∙ ap (λ l. map (close_span b events) l ++ map (close_span b events) (write_spans ss []))
        (elsewhere_again b events ss table h)
    ∙ ap (λ l. l ++ map (close_span b events) (write_spans ss []))
        (map_again (close_span b events) (close_span_again b events)
          (filter (is_elsewhere b) table))
    ∙ sym (respan_split b events ss table h)
