-- ===== src/Restriction/Result.antt =====
-- apps/api/src/lib/restriction.ts: what `restrictionAt` answers, in terms of the bedtimes.
use homeparentcontrol.Prelude.{
  ℕ, ◌≤◌, ◌≡◌, refl, ◌∙◌, ap, Bool, true, false, ◌&&◌, not, List, [], ◌∷◌, Option, none, some,
  arith, get_or, All, Any, ◌⊎◌, inl, inr, Any-map_imp, All-map_imp, subst,
}
use homeparentcontrol.Calendar.{Tzdb}
use homeparentcontrol.Restriction.{
  RestrictionDocument, Hit, Found, is_inside, is_watched, enforced_restriction, watch_restriction,
  visit_night, answer, restriction_at,
}
use homeparentcontrol.Restriction.Nights.{nights, visit_all, visit_windows_lem}
use homeparentcontrol.Restriction.Search.{
  Candidate, latest, next_best, Tops, latest-Tops, latest_source,
}

abbrev nothing : Found
nothing = record { enforced_hit = none; watched_hit = none }

module _ (tz : Tzdb) (document : RestrictionDocument) (at : ℕ) where
  -- The bedtime holds the moment.
  abbrev pub inside : Candidate → Bool
  inside c = is_inside tz document at c.1

  -- The watch period after the bedtime holds the moment, and the bedtime does not.
  abbrev pub watched : Candidate → Bool
  watched c = not (is_inside tz document at c.1) && is_watched tz document at c.0 c.1

  abbrev enforced_of : Candidate → Hit
  enforced_of c = record { restriction = enforced_restriction c.0 c.1; end_ = c.1.end_ }

  abbrev watch_of : Candidate → Hit
  watch_of c = record { restriction = watch_restriction c.0; end_ = c.1.end_ }

  visit_night_lem :
      (c : Candidate) (f : Found)
      → visit_night tz document at c.0 c.1 f ≡ record {
        enforced_hit = next_best inside enforced_of c f.enforced_hit;
        watched_hit = next_best watched watch_of c f.watched_hit;
      }
  unfolding visit_night
  visit_night_lem c f = ground arith

  visit_all_lem :
      (cs : List Candidate) (f : Found)
      → visit_all tz document at cs f ≡ record {
        enforced_hit = latest inside enforced_of cs f.enforced_hit;
        watched_hit = latest watched watch_of cs f.watched_hit;
      }
  visit_all_lem [] f = refl
  visit_all_lem (c ∷ cs) f =
      ap (visit_all tz document at cs) (visit_night_lem c f)
      ∙ visit_all_lem cs (record {
        enforced_hit = next_best inside enforced_of c f.enforced_hit;
        watched_hit = next_best watched watch_of c f.watched_hit;
      })

  abbrev pub all_nights : List Candidate
  all_nights = nights tz document at (get_or document.windows [])

  best_enforced : Option Hit
  best_enforced = latest inside enforced_of all_nights none

  best_watched : Option Hit
  best_watched = latest watched watch_of all_nights none

  restriction_at_lem :
      restriction_at tz document at
      ≡ answer (record { enforced_hit = best_enforced; watched_hit = best_watched })
  unfolding restriction_at best_enforced best_watched
  restriction_at_lem = ap answer (
      visit_windows_lem tz document at (get_or document.windows []) nothing
      ∙ visit_all_lem all_nights nothing)

  -- A bedtime that passes the test, and none that passes it ends later.
  abbrev pub IsLast : (Candidate → Bool) → Candidate → Type 0
  IsLast test c = (test c ≡ true) × All (λ o. test o ≡ true → o.1.end_ ≤ c.1.end_) all_nights

  -- The moment is enforced, and the answer is the restriction of a bedtime that holds it.
  abbrev pub AnswersEnforced : Type 0
  AnswersEnforced =
      Any
        (λ c.
          IsLast inside c × (restriction_at tz document at ≡ some (enforced_restriction c.0 c.1)))
        all_nights

  -- No bedtime holds the moment, and the answer is that of a watch period which does.
  abbrev pub AnswersWatch : Type 0
  AnswersWatch =
      All (λ c. inside c ≡ false) all_nights
      × Any (λ c. IsLast watched c × (restriction_at tz document at ≡ some (watch_restriction c.0)))
          all_nights

  -- Neither a bedtime nor a watch period holds the moment, and there is no restriction.
  abbrev pub AnswersNone : Type 0
  AnswersNone =
      All (λ c. inside c ≡ false) all_nights
      × All (λ c. watched c ≡ false) all_nights
      × (restriction_at tz document at ≡ none)

  best_lem :
      (test : Candidate → Bool) (make : Candidate → Hit)
      → ((c : Candidate) → (make c).end_ ≡ c.1.end_)
      → (latest test make all_nights none ≡ none) × All (λ c. test c ≡ false) all_nights
        ⊎ Any (λ c. IsLast test c × (latest test make all_nights none ≡ some (make c))) all_nights
  best_lem test make ends = elim (latest_source test make all_nights none) [
    | inl e ↦ inl (
      e,
      subst (λ b. All (Tops test make b) all_nights) e (latest-Tops test make all_nights none),
    )
    | inr found ↦ inr (
        Any-map_imp
          (λ c p. (
            (
              p.0,
              All-map_imp (λ o q t. omega (arith, q t, ends o, ends c)) all_nights
                  (subst (λ b. All (Tops test make b) all_nights) p.1
                    (latest-Tops test make all_nights none)),
            ),
            p.1,
          ))
          all_nights found)
  ]

  -- `restrictionAt` answers an enforced restriction exactly when some bedtime holds the moment, a
  -- watch one exactly when none does and some watch period holds it, and nothing otherwise; of
  -- several the one whose bedtime ends last names it.
  pub restriction_at_cases : AnswersEnforced ⊎ AnswersWatch ⊎ AnswersNone
  unfolding best_enforced best_watched
  restriction_at_cases = elim (best_lem inside enforced_of (λ c. refl)) [
    | inr hit ↦ inl (Any-map_imp (λ c p. (p.0, restriction_at_lem ∙ rw p.1 refl)) all_nights hit)
    | inl (no_hit, outside) ↦ elim (best_lem watched watch_of (λ c. refl)) [
      | inr hit ↦ inr (
          inl (
            outside,
            Any-map_imp (λ c p. (p.0, restriction_at_lem ∙ rw (no_hit, p.1) refl)) all_nights hit,
          ))
      | inl (no_watch, unwatched) ↦
          inr (inr (outside, unwatched, restriction_at_lem ∙ rw (no_hit, no_watch) refl))
    ]
  ]
