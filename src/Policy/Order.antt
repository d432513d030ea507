-- ===== src/Policy/Order.antt =====
-- apps/api/src/policy/compile.ts: the overrides of a compiled document.
use homeparentcontrol.Prelude.{
  ℕ, ◌<◌, ◌≡◌, refl, ap, subst, Bool, true, Bool-cases, inl, inr, List, [], ◌∷◌, ◌++◌, map, arith,
  All, All-map_imp, All-filter_self, filter, ltb, ltb→lt, ◌⊎◌,
}
use mathlib.Core.List.{Perm}
use homeparentcontrol.Prelude.Sort.{sort, sort-perm, sort-IsSorted, sort-All, IsSorted, IsOrder}
use homeparentcontrol.Calendar.{Tzdb, LocalDate, date_leb, date_eq}
use homeparentcontrol.Policy.{Text, CompilerInput, GrantInput, OverrideDraft}
use homeparentcontrol.Policy.Synthesise.{synthesise}
use homeparentcontrol.Policy.Document.{
  overrides_of, compile_policy, by_date, granted_draft, zone_of, today_of,
}

module _ (collate : Text → Text → Bool) (o : IsOrder collate) where
  by_date-total :
      (a b : OverrideDraft) → (by_date collate a b ≡ true) ⊎ (by_date collate b a ≡ true)
  unfolding date_leb date_eq
  by_date-total a b = ground (arith, o.total a.id b.id)

  by_date_trans :
      (a b c : OverrideDraft)
      → by_date collate a b ≡ true
      → by_date collate b c ≡ true
      → by_date collate a c ≡ true
  unfolding date_leb date_eq
  by_date_trans a b c p q = ground (arith, o.trans a.id b.id c.id)

  by_date-IsOrder : IsOrder (by_date collate)
  by_date-IsOrder = record { total = by_date-total; trans = by_date_trans }

-- One day is before another.
abbrev pub IsBefore : LocalDate → LocalDate → Type 0
IsBefore a b =
    (a.year < b.year)
    ⊎ (a.year ≡ b.year) × (a.month < b.month)
    ⊎ (a.year ≡ b.year) × (a.month ≡ b.month) × (a.day < b.day)

-- One override stands before another by its day, or on the same day by its id.
abbrev pub Precedes : (Text → Text → Bool) → OverrideDraft → OverrideDraft → Type 0
Precedes collate a b =
    IsBefore a.effective_date b.effective_date
    ⊎ (a.effective_date.year ≡ b.effective_date.year)
      × (a.effective_date.month ≡ b.effective_date.month)
      × (a.effective_date.day ≡ b.effective_date.day)
      × (collate a.id b.id ≡ true)

-- Each stands before all that follow.
abbrev pub IsInOrder : (Text → Text → Bool) → List OverrideDraft → Type 0
IsInOrder collate [] = Unit
IsInOrder collate (x ∷ xs) = All (Precedes collate x) xs × IsInOrder collate xs

by_date-Precedes :
    (collate : Text → Text → Bool) (a b : OverrideDraft)
    → by_date collate a b ≡ true
    → Precedes collate a b
unfolding date_leb date_eq
by_date-Precedes collate a b h = ground (arith, h)

IsSorted-IsInOrder :
    (collate : Text → Text → Bool) (xs : List OverrideDraft)
    → IsSorted (by_date collate) xs
    → IsInOrder collate xs
IsSorted-IsInOrder collate [] h = tt
IsSorted-IsInOrder collate (x ∷ xs) h =
    (All-map_imp (λ y p. by_date-Precedes collate x y p) xs h.0, IsSorted-IsInOrder collate xs h.1)

module _ (tz : Tzdb) (uuid : List Text → Text) (collate : Text → Text → Bool) where
  -- The grants that have not expired, and the relaxations that have not.
  abbrev pub live_grants : CompilerInput → List OverrideDraft
  live_grants input = map granted_draft (filter (λ g. ltb input.now g.expires_at) input.grants)

  abbrev pub live_relaxations : CompilerInput → List OverrideDraft
  live_relaxations input =
      filter (λ d. ltb input.now d.expires_at)
        (synthesise tz uuid (zone_of input) input (today_of tz input))

  live-append :
      (now : ℕ) (grants : List GrantInput) (made : List OverrideDraft)
      → filter (λ d. ltb now d.expires_at) (map granted_draft grants ++ made)
        ≡ map granted_draft (filter (λ g. ltb now g.expires_at) grants)
          ++ filter (λ d. ltb now d.expires_at) made
  unfolding granted_draft
  live-append now [] made = refl
  live-append now (g ∷ grants) made = elim (Bool-cases (ltb now g.expires_at)) [
    | inl e ↦ rw e (ap (λ t. granted_draft g ∷ t) (live-append now grants made))
    | inr e ↦ rw e (live-append now grants made)
  ]

  -- The overrides of a document are the grants that have not expired and the synthesised overrides
  -- that have not, each as often as it was made. The earlier day stands first, and on one day the
  -- lesser id; and all of them end in the future. `localeCompare` orders texts.
  pub compile_policy-overrides :
      (input : CompilerInput)
      → IsOrder collate
      → Perm
          (compile_policy tz uuid collate input).overrides
          (live_grants input ++ live_relaxations input)
        × IsInOrder collate (compile_policy tz uuid collate input).overrides
        × All (λ d. input.now < d.expires_at) (compile_policy tz uuid collate input).overrides
  unfolding compile_policy overrides_of
  compile_policy-overrides input o =
      let made = synthesise tz uuid (zone_of input) input (today_of tz input) in
      let live =
        filter (λ d. ltb input.now d.expires_at) (map granted_draft input.grants ++ made) in
      (
        subst (λ l. Perm (sort (by_date collate) live) l) (live-append input.now input.grants made)
            (sort-perm (by_date collate) live),
        IsSorted-IsInOrder collate (sort (by_date collate) live)
            (sort-IsSorted (by_date-IsOrder collate o) live),
        sort-All (by_date collate) _ live (
            All-map_imp (λ d e. ltb→lt input.now d.expires_at e) live
              (All-filter_self (λ d. ltb input.now d.expires_at) _)),
      )
