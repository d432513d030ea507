-- ===== src/Restriction/Search.antt =====
-- apps/api/src/lib/restriction.ts: what the search over the bedtimes finds.
use homeparentcontrol.Prelude.{
  ◌≤◌, ◌≡◌, refl, ◌∙◌, Bool, true, false, ◌&&◌, List, [], ◌∷◌, Option, none, some, arith, All, Any,
  ◌⊎◌, inl, inr, if◌then◌else◌,
}
use homeparentcontrol.Restriction.{DocumentWindow, Night, Hit, beats}

-- A search for the hit that ends last, the first of several.
abbrev pub Candidate : Type 0
Candidate = DocumentWindow × Night

module _ (test : Candidate → Bool) (make : Candidate → Hit) where
  abbrev pub latest : List Candidate → Option Hit → Option Hit
  latest [] best = best
  latest (c ∷ cs) best =
      latest cs (if test c && beats (make c).end_ best then some (make c) else best)

  -- `c` does not beat the hit.
  abbrev pub Tops : Option Hit → Candidate → Type 0
  Tops none c = test c ≡ false
  Tops (some h) c = test c ≡ true → (make c).end_ ≤ h.end_

  abbrev Le : Option Hit → Option Hit → Type 0
  Le none b = Unit
  Le (some h) none = ⊥
  Le (some h) (some k) = h.end_ ≤ k.end_

  Le-refl : (a : Option Hit) → Le a a
  Le-refl none = tt
  Le-refl (some h) = omega arith

  Le-trans : (a b c : Option Hit) → Le a b → Le b c → Le a c
  Le-trans none b c p q = tt
  Le-trans (some h) none c p q = absurd p
  Le-trans (some h) (some k) none p q = q
  Le-trans (some h) (some k) (some l) p q = omega arith

  Tops-Le : (a b : Option Hit) (c : Candidate) → Le a b → Tops a c → Tops b c
  Tops-Le none none c p t = t
  Tops-Le none (some k) c p t = λ e. cc
  Tops-Le (some h) none c p t = absurd p
  Tops-Le (some h) (some k) c p t = λ e. ground (arith, t e)

  abbrev pub next_best : Candidate → Option Hit → Option Hit
  next_best c best = if test c && beats (make c).end_ best then some (make c) else best

  next_best-Le : (c : Candidate) (best : Option Hit) → Le best (next_best c best)
  next_best-Le c none = tt
  next_best-Le c (some h) = ground arith

  next_best-Tops : (c : Candidate) (best : Option Hit) → Tops (next_best c best) c
  next_best-Tops c none = ground arith
  next_best-Tops c (some h) = ground arith

  latest-Le : (cs : List Candidate) (best : Option Hit) → Le best (latest cs best)
  latest-Le [] best = Le-refl best
  latest-Le (c ∷ cs) best =
      Le-trans best (next_best c best) (latest cs (next_best c best)) (next_best-Le c best)
        (latest-Le cs (next_best c best))

  pub latest-Tops : (cs : List Candidate) (best : Option Hit) → All (Tops (latest cs best)) cs
  latest-Tops [] best = tt
  latest-Tops (c ∷ cs) best = (
    Tops-Le (next_best c best) (latest cs (next_best c best)) c (latest-Le cs (next_best c best))
        (next_best-Tops c best),
    latest-Tops cs (next_best c best),
  )

  next_best_source :
      (c : Candidate) (best : Option Hit)
      → (next_best c best ≡ best) ⊎ (test c ≡ true) × (next_best c best ≡ some (make c))
  next_best_source c best = ground arith

  pub latest_source :
      (cs : List Candidate) (best : Option Hit)
      → (latest cs best ≡ best) ⊎ Any (λ c. (test c ≡ true) × (latest cs best ≡ some (make c))) cs
  latest_source [] best = inl refl
  latest_source (c ∷ cs) best = elim (latest_source cs (next_best c best)) [
    | inr later ↦ inr (inr later)
    | inl same ↦ elim (next_best_source c best) [
      | inl kept ↦ inl (same ∙ kept)
      | inr found ↦ inr (inl (found.0, same ∙ found.1))
    ]
  ]
