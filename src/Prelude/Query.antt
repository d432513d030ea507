-- ===== src/Prelude/Query.antt =====
-- `ORDER BY … DESC LIMIT 1` over the rows of a table that pass a test: the first of those with the
-- greatest key; and updates that leave the key alone.
use Prim.Native.Nat.{ℕ, ◌≤◌}
use mathlib.Core.Path.{◌≡◌, refl, subst}
use mathlib.Core.Logic.{inl, inr}
use mathlib.Core.Bool.{Bool, true, false, ◌&&◌}
use mathlib.Core.Option
use mathlib.Core.Option.{Option, none, some}
use mathlib.Core.List.{List, [], ◌∷◌, map, Memᴰ}
use native.Mathlib.Omega.{arith}
use homeparentcontrol.Prelude.Tests.{leb, if◌then◌else◌, Bool-cases, Option-cases}
use homeparentcontrol.Prelude.Lists.{All, All-map_imp}

-- `ORDER BY key DESC LIMIT 1` over the rows that pass.
unfoldable pub latest_by {ℓ} : {A : Type ℓ} → (A → Bool) → (A → ℕ) → List A → Option A
latest_by test key [] = none
latest_by test key (x ∷ xs) = elim (latest_by test key xs) [
  | none ↦ if test x then some x else none
  | some y ↦ if test x && leb (key y) (key x) then some x else some y
]

map_if {ℓ} :
    {A : Type ℓ} (f : A → A) (b : Bool) (x : A) (y : Option A)
    → (if b then some (f x) else Option.map f y) ≡ Option.map f (if b then some x else y)
map_if f true x y = refl
map_if f false x y = refl

module _ {ℓ} {A : Type ℓ} (test : A → Bool) (key : A → ℕ) where
  pub latest_by-none : (xs : List A) → latest_by test key xs ≡ none → All (λ x. test x ≡ false) xs
  unfolding latest_by
  latest_by-none [] e = tt
  latest_by-none (x ∷ xs) e = elim (Option-cases (latest_by test key xs)) [
    | inl n ↦ (ground arith, latest_by-none xs n)
    | inr (y, s) ↦ absurd (ground arith)
  ]

  abbrev Bounds : A → A → Type 0
  Bounds a x = test x ≡ true → key x ≤ key a

  Bounds-trans : (a b : A) → key a ≤ key b → (xs : List A) → All (Bounds a) xs → All (Bounds b) xs
  Bounds-trans a b h xs = All-map_imp (λ x p t. omega (arith, p t)) xs

  -- The row found passes, and no row that passes has a greater key.
  pub latest_by-some :
      (xs : List A) (a : A) → latest_by test key xs ≡ some a → (test a ≡ true) × All (Bounds a) xs
  unfolding latest_by
  latest_by-some [] a e = cc
  latest_by-some (x ∷ xs) a e = elim (Option-cases (latest_by test key xs)) [
    | inl n ↦
        let at_head : (test x ≡ true) × (x ≡ a) = ground arith in
        (
          subst (λ b. test b ≡ true) at_head.1 at_head.0,
          (
            subst (λ b. Bounds b x) at_head.1 (λ t. omega arith),
            All-map_imp (λ y p t. cc) xs (latest_by-none xs n),
          ),
        )
    | inr (y, s) ↦
        let ih = latest_by-some xs y s in
        elim (Bool-cases (test x && leb (key y) (key x))) [
          | inl newer ↦
              let same : x ≡ a = ground arith in
              let le : key y ≤ key x = ground arith in
              (
                subst (λ b. test b ≡ true) same (ground arith),
                (
                  subst (λ b. Bounds b x) same (λ t. omega arith),
                  subst (λ b. All (Bounds b) xs) same (Bounds-trans y x le xs ih.1),
                ),
              )
          | inr older ↦
              let same : y ≡ a = ground arith in
              (
                subst (λ b. test b ≡ true) same ih.0,
                (
                  subst (λ b. Bounds b x) same (λ t. ground arith),
                  subst (λ b. All (Bounds b) xs) same ih.1,
                ),
              )
        ]
  ]

  pub latest_by-mem : (xs : List A) (a : A) → latest_by test key xs ≡ some a → Memᴰ a xs
  unfolding latest_by
  latest_by-mem [] a e = absurd (ground arith)
  latest_by-mem (x ∷ xs) a e = elim (Option-cases (latest_by test key xs)) [
    | inl n ↦ Memᴰ.head (ground arith)
    | inr (y, s) ↦ elim (Bool-cases (test x && leb (key y) (key x))) [
      | inl newer ↦ Memᴰ.head (ground arith)
      | inr older ↦
          let same : y ≡ a = ground arith in
          Memᴰ.tail (subst (λ b. Memᴰ b xs) same (latest_by-mem xs y s))
    ]
  ]

  -- An update that keeps the test and the key of every row finds the updated row.
  pub latest_by-map :
      (f : A → A)
      → ((a : A) → test (f a) ≡ test a)
      → ((a : A) → key (f a) ≡ key a)
      → (xs : List A) → latest_by test key (map f xs) ≡ Option.map f (latest_by test key xs)
  unfolding latest_by
  latest_by-map f t k [] = refl
  latest_by-map f t k (x ∷ xs) = elim (Option-cases (latest_by test key xs)) [
    | inl e ↦ rw (latest_by-map f t k xs, e, t x) (map_if f (test x) x none)
    | inr (y, e) ↦
        rw (latest_by-map f t k xs, e, t x, k x, k y)
          (map_if f (test x && leb (key y) (key x)) x (some y))
  ]
