-- ===== src/Access/Codes/RoundTrip.antt =====
-- apps/api/src/lib/enrolment-codes.ts: a code that is shown is read back as it is.
use homeparentcontrol.Prelude.{
  ℕ, suc, ◌*◌, ◌%◌, ◌<◌, ◌≡◌, refl, ◌∙◌, ap, true, false, not, List, [], ◌∷◌, ◌++◌, none, some, map,
  arith, ◌==◌, if◌then◌else◌, filter, length, take, drop, all, flat_map, All, inl, inr, Bool-cases,
  subst, ◌-◌,
}
use homeparentcontrol.Prelude.Members.{All-take, All-drop}
use homeparentcontrol.Policy.{Text}
use homeparentcontrol.Access.Codes.{
  alphabet, groups, group_len, char_at, display, generate_enrolment_code, is_dropped, strip_prefix,
  fold_char, is_crockford, folded, normalise_enrolment_code,
}

abbrev group : ℕ → Text → Text
group i cs = take group_len (drop (i * group_len) cs)

groups-append : (cs : Text) → length cs ≡ 12 → group 0 cs ++ (group 1 cs ++ group 2 cs) ≡ cs
groups-append [] h = absurd (ground arith)
groups-append (c0 ∷ []) h = absurd (ground arith)
groups-append (c0 ∷ c1 ∷ []) h = absurd (ground arith)
groups-append (c0 ∷ c1 ∷ c2 ∷ []) h = absurd (ground arith)
groups-append (c0 ∷ c1 ∷ c2 ∷ c3 ∷ []) h = absurd (ground arith)
groups-append (c0 ∷ c1 ∷ c2 ∷ c3 ∷ c4 ∷ []) h = absurd (ground arith)
groups-append (c0 ∷ c1 ∷ c2 ∷ c3 ∷ c4 ∷ c5 ∷ []) h = absurd (ground arith)
groups-append (c0 ∷ c1 ∷ c2 ∷ c3 ∷ c4 ∷ c5 ∷ c6 ∷ []) h = absurd (ground arith)
groups-append (c0 ∷ c1 ∷ c2 ∷ c3 ∷ c4 ∷ c5 ∷ c6 ∷ c7 ∷ []) h = absurd (ground arith)
groups-append (c0 ∷ c1 ∷ c2 ∷ c3 ∷ c4 ∷ c5 ∷ c6 ∷ c7 ∷ c8 ∷ []) h = absurd (ground arith)
groups-append (c0 ∷ c1 ∷ c2 ∷ c3 ∷ c4 ∷ c5 ∷ c6 ∷ c7 ∷ c8 ∷ c9 ∷ []) h = absurd (ground arith)
groups-append (c0 ∷ c1 ∷ c2 ∷ c3 ∷ c4 ∷ c5 ∷ c6 ∷ c7 ∷ c8 ∷ c9 ∷ c10 ∷ []) h = absurd (ground arith)
groups-append (c0 ∷ c1 ∷ c2 ∷ c3 ∷ c4 ∷ c5 ∷ c6 ∷ c7 ∷ c8 ∷ c9 ∷ c10 ∷ c11 ∷ []) h = refl
groups-append (c0 ∷ c1 ∷ c2 ∷ c3 ∷ c4 ∷ c5 ∷ c6 ∷ c7 ∷ c8 ∷ c9 ∷ c10 ∷ c11 ∷ c12 ∷ cs) h =
    absurd (ground arith)

crockford_kept : (c : ℕ) → is_crockford c ≡ true → is_dropped c ≡ false
crockford_kept c h = ground (arith, h)

crockford_folded : (c : ℕ) → is_crockford c ≡ true → fold_char c ≡ c
crockford_folded c h = ground (arith, h)

map-fold_char : (cs : Text) → All (λ c. is_crockford c ≡ true) cs → map fold_char cs ≡ cs
map-fold_char [] h = refl
map-fold_char (c ∷ cs) h = rw (crockford_folded c h.0, map-fold_char cs h.1) refl

all-is_crockford : (cs : Text) → All (λ c. is_crockford c ≡ true) cs → all is_crockford cs ≡ true
all-is_crockford [] h = refl
all-is_crockford (c ∷ cs) h = rw (h.0) (all-is_crockford cs h.1)

char_at-is_crockford :
    (cs : Text) (i : ℕ)
    → i < length cs
    → all is_crockford cs ≡ true
    → is_crockford (char_at cs i) ≡ true
char_at-is_crockford [] i h a = absurd (omega arith)
char_at-is_crockford (c ∷ cs) i h a = elim (Bool-cases (i == 0)) [
  | inl e ↦ rw e (ground (arith, a))
  | inr e ↦ rw e (char_at-is_crockford cs (i - 1) (ground arith) (ground (arith, a)))
]

drawable : (i : ℕ) → i < 32 → is_crockford (char_at alphabet i) ≡ true
drawable i h = char_at-is_crockford alphabet i h refl

All-is_crockford : (cs : Text) → all is_crockford cs ≡ true → All (λ c. is_crockford c ≡ true) cs
All-is_crockford [] a = tt
All-is_crockford (c ∷ cs) a = (ground (arith, a), All-is_crockford cs (ground (arith, a)))

drawn :
    (bytes : List ℕ) → All (λ c. is_crockford c ≡ true) (map (λ b. char_at alphabet (b % 32)) bytes)
drawn [] = tt
drawn (b ∷ bytes) = (drawable (b % 32) (omega arith), drawn bytes)

length-drawn : (bytes : List ℕ) → length (map (λ b. char_at alphabet (b % 32)) bytes) ≡ length bytes
length-drawn [] = refl
length-drawn (b ∷ bytes) = ap (λ n. suc n) (length-drawn bytes)

twelve : (n : ℕ) → (n == 12) ≡ true → n ≡ 12
twelve n h = ground arith

module _ (upper : ℕ → Text) (plain : (c : ℕ) → is_crockford c ≡ true → upper c ≡ c ∷ [])
    (dash : upper b'-' ≡ b'-' ∷ []) where
  abbrev kept : Text → Text
  kept cs = filter (λ c. not (is_dropped c)) (flat_map upper cs)

  -- What is kept of characters of the alphabet that something follows.
  kept-append :
      (cs ds : Text) → All (λ c. is_crockford c ≡ true) cs → kept (cs ++ ds) ≡ cs ++ kept ds
  kept-append [] ds h = refl
  kept-append (c ∷ cs) ds h = rw (plain c h.0, crockford_kept c h.0, kept-append cs ds h.1) refl

  kept_dash : (ds : Text) → kept (b'-' ∷ ds) ≡ kept ds
  kept_dash ds = rw dash refl

  kept-All : (cs : Text) → All (λ c. is_crockford c ≡ true) cs → kept cs ≡ cs
  kept-All [] h = refl
  kept-All (c ∷ cs) h = rw (plain c h.0, crockford_kept c h.0, kept-All cs h.1) refl

  group-All :
      (i : ℕ) (cs : Text)
      → All (λ c. is_crockford c ≡ true) cs
      → All (λ c. is_crockford c ≡ true) (group i cs)
  group-All i cs h =
      All-take _ group_len (drop (i * group_len) cs) (All-drop _ (i * group_len) cs h)

  kept-groups :
      (cs : Text)
      → All (λ c. is_crockford c ≡ true) cs
      → length cs ≡ 12
      → kept (group 0 cs ++ (b'-' ∷ (group 1 cs ++ (b'-' ∷ group 2 cs)))) ≡ cs
  kept-groups cs h l =
      kept-append (group 0 cs) _ (group-All 0 cs h)
      ∙ (ap (λ t. group 0 cs ++ t)
            (kept_dash _
              ∙ (kept-append (group 1 cs) _ (group-All 1 cs h)
                  ∙ ap (λ t. group 1 cs ++ t)
                      (kept_dash (group 2 cs) ∙ kept-All (group 2 cs) (group-All 2 cs h))))
          ∙ groups-append cs l)

  kept-display :
      (cs : Text)
      → All (λ c. is_crockford c ≡ true) cs
      → length cs ≡ 12
      → kept (display cs) ≡ b'H' ∷ b'P' ∷ b'C' ∷ cs
  kept-display cs h l =
      rw (plain b'H' refl, plain b'P' refl, plain b'C' refl, dash)
        (ap (λ t. b'H' ∷ b'P' ∷ b'C' ∷ t) (kept-groups cs h l))

  folded-display :
      (cs : Text)
      → All (λ c. is_crockford c ≡ true) cs
      → length cs ≡ 12
      → folded upper (display cs) ≡ cs
  folded-display cs h l =
      ap (λ t. map fold_char (strip_prefix t)) (kept-display cs h l) ∙ map-fold_char cs h

  -- Where the conversion to capitals leaves the alphabet and the dash alone, twelve characters of the
  -- alphabet are shown as a code that is read back as it is.
  normalise-display :
      (cs : Text)
      → All (λ c. is_crockford c ≡ true) cs
      → length cs ≡ 12
      → normalise_enrolment_code upper (display cs) ≡ some (display cs)
  unfolding normalise_enrolment_code
  normalise-display cs h l = rw (folded-display cs h l, l, all-is_crockford cs h) refl

  -- Where the conversion to capitals leaves the alphabet and the dash alone, a code that is made from
  -- twelve bytes is read as itself.
  pub normalise-generate :
      (bytes : List ℕ)
      → length bytes ≡ 12
      → normalise_enrolment_code upper (generate_enrolment_code bytes)
        ≡ some (generate_enrolment_code bytes)
  unfolding generate_enrolment_code
  normalise-generate bytes l =
      normalise-display (map (λ b. char_at alphabet (b % 32)) bytes) (drawn bytes)
        (length-drawn bytes ∙ l)

  read_again :
      (cs code : Text)
      → (if not (length cs == groups * group_len)
          then none
          else if all is_crockford cs
          then some (display cs)
          else none)
        ≡ some code
      → normalise_enrolment_code upper code ≡ some code
  read_again cs code = elim (Bool-cases (length cs == 12)) [
    | inl l ↦ elim (Bool-cases (all is_crockford cs)) [
      | inl a ↦
          rw (l, a)
            (λ e.
              let same : display cs ≡ code = ground (arith, e) in
              subst (λ t. normalise_enrolment_code upper t ≡ some t) same
                (normalise-display cs (All-is_crockford cs a) (twelve (length cs) l)))
      | inr a ↦ rw (l, a) (λ e. ground (arith, e))
    ]
    | inr l ↦ rw l (λ e. ground (arith, e))
  ]

  read :
      (input code : Text)
      → normalise_enrolment_code upper input ≡ some code
      → (if not (length (folded upper input) == groups * group_len)
          then none
          else if all is_crockford (folded upper input)
          then some (display (folded upper input))
          else none)
        ≡ some code
  unfolding normalise_enrolment_code
  read input code e = e

  -- Where the conversion to capitals leaves the alphabet and the dash alone, the code that is read of any
  -- text is read as itself.
  pub normalise_again :
      (input code : Text)
      → normalise_enrolment_code upper input ≡ some code
      → normalise_enrolment_code upper code ≡ some code
  normalise_again input code e = read_again (folded upper input) code (read input code e)
