-- ===== src/Restriction/Relax.antt =====
-- apps/api/src/lib/restriction.ts: an override can only relax.
use homeparentcontrol.Prelude.{
  ℕ, ◌≤◌, ◌≡◌, refl, sym, ◌∙◌, Bool, true, false, List, [], ◌∷◌, ◌++◌, Option, none, some, arith,
  get_or, All, Any, inl, inr, any, min, any-append, Any-map_imp, Bool-cases, String, if◌then◌else◌,
}
use homeparentcontrol.Calendar.{LocalDate, HhMm, Tzdb}
use homeparentcontrol.Restriction.{
  DocumentWindow, DocumentOverride, OverrideType, suspend, extend, other_type, RestrictionDocument,
  Restriction, enforced, watch, Night, is_inside, enforced_restriction, watch_restriction,
  restriction_at, relax, relax_by, applies, night_of, time_of, days_back,
}
use homeparentcontrol.Restriction.Nights.{nights, nights_on, nights_between, nights_of}
use homeparentcontrol.Restriction.Search.{Candidate}
use homeparentcontrol.Restriction.Result.{all_nights, inside, restriction_at_cases}

-- The second night is the first one relaxed: it ends as the first does, and holds no more moments.
record IsRelaxed (n m : Night) : Type 0 where
  end_ : n.end_ ≡ m.end_
  start : min n.start n.end_ ≤ min m.start m.end_
  suspended : n.suspended ≡ true → m.suspended ≡ true

relax_by-IsRelaxed : (k : OverrideType) (m : Option ℕ) (n : Night) → IsRelaxed n (relax_by k m n)
relax_by-IsRelaxed suspend m n = ground arith
relax_by-IsRelaxed extend none n = ground arith
relax_by-IsRelaxed extend (some m) n = ground arith
relax_by-IsRelaxed other_type m n = ground arith

relax_by_mono :
    (k : OverrideType) (o : Option ℕ) (n m : Night)
    → IsRelaxed n m
    → IsRelaxed (relax_by k o n) (relax_by k o m)
relax_by_mono suspend o n m h = ground arith
relax_by_mono extend none n m h = h
relax_by_mono extend (some k) n m h = ground arith
relax_by_mono other_type o n m h = h

IsRelaxed-trans : (n m l : Night) → IsRelaxed n m → IsRelaxed m l → IsRelaxed n l
IsRelaxed-trans n m l h k = ground arith

module _ (id : String) (day : LocalDate) (t : ℕ) where
  step_mono :
      (o : DocumentOverride) (n m : Night)
      → IsRelaxed n m
      → IsRelaxed
          (if applies o id day t then relax_by o.type o.minutes n else n)
          (if applies o id day t then relax_by o.type o.minutes m else m)
  step_mono o n m h = elim (Bool-cases (applies o id day t)) [
    | inl e ↦ rw e (relax_by_mono o.type o.minutes n m h)
    | inr e ↦ rw e h
  ]

  relax_mono :
      (os : List DocumentOverride) (n m : Night)
      → IsRelaxed n m
      → IsRelaxed (relax os id day t n) (relax os id day t m)
  unfolding relax
  relax_mono [] n m h = h
  relax_mono (o ∷ os) n m h = relax_mono os _ _ (step_mono o n m h)

  -- One override more, anywhere in the list.
  relax-insert :
      (xs ys : List DocumentOverride) (o : DocumentOverride) (n : Night)
      → IsRelaxed (relax (xs ++ ys) id day t n) (relax (xs ++ o ∷ ys) id day t n)
  unfolding relax
  relax-insert [] ys o n = relax_mono ys _ _ (elim (Bool-cases (applies o id day t)) [
    | inl e ↦ rw e (relax_by-IsRelaxed o.type o.minutes n)
    | inr e ↦ rw e (ground arith)
  ])
  relax-insert (x ∷ xs) ys o n = relax-insert xs ys o _

abbrev pub is_enforced : Option Restriction → Bool
is_enforced none = false
is_enforced (some r) = elim r.phase [ enforced ↦ true | watch ↦ false ]

any_of_Any :
    (p : Candidate → Bool) (Q : Candidate → Type 0) (cs : List Candidate)
    → Any (λ c. (p c ≡ true) × Q c) cs
    → any p cs ≡ true
any_of_Any p Q [] h = absurd h
any_of_Any p Q (c ∷ cs) (inl h) = ground arith
any_of_Any p Q (c ∷ cs) (inr h) = ground (arith, any_of_Any p Q cs h)

any_of_All :
    (p : Candidate → Bool) (cs : List Candidate) → All (λ c. p c ≡ false) cs → any p cs ≡ false
any_of_All p [] h = refl
any_of_All p (c ∷ cs) h = ground (arith, any_of_All p cs h.1)

Any-enforced :
    (cs : List Candidate) (R : Candidate → Type 0) (r : Option Restriction)
    → Any (λ c. R c × (r ≡ some (enforced_restriction c.0 c.1))) cs
    → is_enforced r ≡ true
Any-enforced [] R r h = absurd h
Any-enforced (c ∷ cs) R r (inl h) = rw h.1 refl
Any-enforced (c ∷ cs) R r (inr h) = Any-enforced cs R r h

Any-watch :
    (cs : List Candidate) (R : Candidate → Type 0) (r : Option Restriction)
    → Any (λ c. R c × (r ≡ some (watch_restriction c.0))) cs
    → is_enforced r ≡ false
Any-watch [] R r h = absurd h
Any-watch (c ∷ cs) R r (inl h) = rw h.1 refl
Any-watch (c ∷ cs) R r (inr h) = Any-watch cs R r h

module _ (tz : Tzdb) (at : ℕ) where
  pub is_enforced-restriction_at :
      (document : RestrictionDocument)
      → is_enforced (restriction_at tz document at)
        ≡ any (inside tz document at) (all_nights tz document at)
  is_enforced-restriction_at document =
      let ns = all_nights tz document at in
      elim (restriction_at_cases tz document at) [
        | inl hit ↦
            Any-enforced ns _ _ hit
            ∙ sym
                (any_of_Any (inside tz document at) _ ns (Any-map_imp (λ c p. (p.0.0, tt)) ns hit))
        | inr (inl (outside, hit)) ↦
            Any-watch ns _ _ hit ∙ sym (any_of_All (inside tz document at) ns outside)
        | inr (inr (outside, _, e)) ↦ rw e (sym (any_of_All (inside tz document at) ns outside))
      ]

  module _ (document : RestrictionDocument) (xs ys : List DocumentOverride)
      (o : DocumentOverride) where
    abbrev before : RestrictionDocument
    before = record document { overrides = some (xs ++ ys) }

    abbrev after : RestrictionDocument
    after = record document { overrides = some (xs ++ o ∷ ys) }

    night_of-IsRelaxed :
        (w : DocumentWindow) (from until_ : HhMm) (day : LocalDate)
        → IsRelaxed
            (night_of tz before at w from until_ day)
            (night_of tz after at w from until_ day)
    unfolding night_of
    night_of-IsRelaxed w from until_ day = relax-insert w.id day at xs ys o _

    inside_of_relaxed :
        (n m : Night)
        → IsRelaxed n m
        → is_inside tz after at m ≡ true
        → is_inside tz before at n ≡ true
    inside_of_relaxed n m h = ground arith

    nights_on_relaxed :
        (w : DocumentWindow) (from until_ : HhMm) (ds : List LocalDate)
        → any (inside tz after at) (nights_on tz after at w from until_ ds) ≡ true
        → any (inside tz before at) (nights_on tz before at w from until_ ds) ≡ true
    nights_on_relaxed w from until_ [] h = h
    nights_on_relaxed w from until_ (d ∷ ds) h = ground (
      arith,
      nights_on_relaxed w from until_ ds,
      inside_of_relaxed (night_of tz before at w from until_ d)
          (night_of tz after at w from until_ d) (night_of-IsRelaxed w from until_ d),
    )

    days_back_same : days_back tz after at ≡ days_back tz before at
    unfolding days_back
    days_back_same = refl

    nights_between_relaxed :
        (w : DocumentWindow) (from until_ : Option HhMm)
        → any (inside tz after at) (nights_between tz after at w from until_) ≡ true
        → any (inside tz before at) (nights_between tz before at w from until_) ≡ true
    nights_between_relaxed w (some from) (some until_) h =
        nights_on_relaxed w from until_ (days_back tz before at) (rw days_back_same at h)
    nights_between_relaxed w (some from) none h = h
    nights_between_relaxed w none until_ h = h

    nights_relaxed :
        (ws : List DocumentWindow)
        → any (inside tz after at) (nights tz after at ws) ≡ true
        → any (inside tz before at) (nights tz before at ws) ≡ true
    nights_relaxed [] h = h
    nights_relaxed (w ∷ ws) h = ground (
      arith,
      nights_relaxed ws,
      nights_between_relaxed w (time_of w.restricted_from) (time_of w.restricted_until),
      any-append (inside tz after at) (nights_of tz after at w) (nights tz after at ws),
      any-append (inside tz before at) (nights_of tz before at w) (nights tz before at ws),
    )

    -- A moment that is enforced under a document with one override more, at any place in its list,
    -- is enforced without it: no override makes a bedtime earlier or longer.
    pub restriction_at_relaxed :
        is_enforced (restriction_at tz after at) ≡ true
        → is_enforced (restriction_at tz before at) ≡ true
    restriction_at_relaxed h =
        is_enforced-restriction_at before
        ∙ nights_relaxed (get_or document.windows []) (sym (is_enforced-restriction_at after) ∙ h)
