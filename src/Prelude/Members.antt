-- ===== src/Prelude/Members.antt =====
-- Members of lists that are cut, filtered and sorted.
use Prim.Native.Nat.{ℕ, zero, suc, ◌≤◌, ◌<◌}
use mathlib.Core.Path.{◌≡◌, refl, subst, ap}
use mathlib.Core.Logic.{◌⊎◌, inl, inr}
use mathlib.Core.Bool.{Bool, true, false}
use mathlib.Core.List.{List, [], ◌∷◌, ◌++◌, map, Memᴰ, append-nil}
use native.Mathlib.Omega.{arith}
use homeparentcontrol.Prelude.Tests.{Bool-cases}
use homeparentcontrol.Prelude.Lists.{
  length, take, drop, filter, All, All-of_forall, All-filter_self, All-map_imp,
}
use homeparentcontrol.Prelude.Sort.{insert_sorted, sort, IsSorted}

module _ {ℓ} {A : Type ℓ} where
  -- An element of a list is among the first `n` or after them.
  pub take-drop-Memᴰ :
      (n : ℕ) (xs : List A) {a : A} → Memᴰ a xs → Memᴰ a (take n xs) ⊎ Memᴰ a (drop n xs)
  take-drop-Memᴰ zero xs m = inr m
  take-drop-Memᴰ (suc n) [] m = elim m [ ]
  take-drop-Memᴰ (suc n) (x ∷ xs) (Memᴰ.head e) = inl (Memᴰ.head e)
  take-drop-Memᴰ (suc n) (x ∷ xs) (Memᴰ.tail m) = elim (take-drop-Memᴰ n xs m) [
    | inl p ↦ inl (Memᴰ.tail p)
    | inr p ↦ inr p
  ]

  pub filter-Memᴰ :
      (p : A → Bool) (xs : List A) {a : A} → Memᴰ a xs → p a ≡ true → Memᴰ a (filter p xs)
  filter-Memᴰ p [] m h = elim m [ ]
  filter-Memᴰ p (x ∷ xs) (Memᴰ.head e) h = rw (subst (λ y. p y ≡ true) e h) (Memᴰ.head e)
  filter-Memᴰ p (x ∷ xs) (Memᴰ.tail m) h = elim (Bool-cases (p x)) [
    | inl e ↦ rw e (Memᴰ.tail (filter-Memᴰ p xs m h))
    | inr e ↦ rw e (filter-Memᴰ p xs m h)
  ]

  pub drop-short : (n : ℕ) (xs : List A) → length (take n xs) < n → drop n xs ≡ []
  drop-short zero xs h = absurd (omega arith)
  drop-short (suc n) [] h = refl
  drop-short (suc n) (x ∷ xs) h = drop-short n xs (omega arith)

  pub length-take-le : (n : ℕ) (xs : List A) → length (take n xs) ≤ n
  length-take-le zero xs = omega arith
  length-take-le (suc n) [] = omega arith
  length-take-le (suc n) (x ∷ xs) = omega (arith, length-take-le n xs)

  pub All-take {κ} : (P : A → Type κ) (n : ℕ) (xs : List A) → All P xs → All P (take n xs)
  All-take P zero xs h = tt
  All-take P (suc n) [] h = tt
  All-take P (suc n) (x ∷ xs) h = (h.0, All-take P n xs h.1)

  pub All-drop {κ} : (P : A → Type κ) (n : ℕ) (xs : List A) → All P xs → All P (drop n xs)
  All-drop P zero xs h = h
  All-drop P (suc n) [] h = tt
  All-drop P (suc n) (x ∷ xs) h = All-drop P n xs h.1

pub All-zip {ℓ κ μ} :
    {A : Type ℓ} (P : A → Type κ) (Q : A → Type μ) (xs : List A)
    → All P xs
    → All Q xs
    → All (λ a. P a × Q a) xs
All-zip P Q [] h k = tt
All-zip P Q (x ∷ xs) h k = ((h.0, k.0), All-zip P Q xs h.1 k.1)

module _ {ℓ} {A : Type ℓ} (le : A → A → Bool) where
  pub insert_sorted-Memᴰ :
      (x : A) (xs : List A) {a : A} → Memᴰ a (x ∷ xs) → Memᴰ a (insert_sorted le x xs)
  unfolding insert_sorted
  insert_sorted-Memᴰ x [] m = m
  insert_sorted-Memᴰ x (y ∷ ys) (Memᴰ.head e) = elim (Bool-cases (le x y)) [
    | inl c ↦ rw c (Memᴰ.head e)
    | inr c ↦ rw c (Memᴰ.tail (insert_sorted-Memᴰ x ys (Memᴰ.head e)))
  ]
  insert_sorted-Memᴰ x (y ∷ ys) (Memᴰ.tail (Memᴰ.head e)) = elim (Bool-cases (le x y)) [
    | inl c ↦ rw c (Memᴰ.tail (Memᴰ.head e))
    | inr c ↦ rw c (Memᴰ.head e)
  ]
  insert_sorted-Memᴰ x (y ∷ ys) (Memᴰ.tail (Memᴰ.tail m)) = elim (Bool-cases (le x y)) [
    | inl c ↦ rw c (Memᴰ.tail (Memᴰ.tail m))
    | inr c ↦ rw c (Memᴰ.tail (insert_sorted-Memᴰ x ys (Memᴰ.tail m)))
  ]

  pub sort-Memᴰ : (xs : List A) {a : A} → Memᴰ a xs → Memᴰ a (sort le xs)
  unfolding sort
  sort-Memᴰ [] m = m
  sort-Memᴰ (x ∷ xs) (Memᴰ.head e) = insert_sorted-Memᴰ x (sort le xs) (Memᴰ.head e)
  sort-Memᴰ (x ∷ xs) (Memᴰ.tail m) = insert_sorted-Memᴰ x (sort le xs) (Memᴰ.tail (sort-Memᴰ xs m))

  pub IsSorted-take : (n : ℕ) (xs : List A) → IsSorted le xs → IsSorted le (take n xs)
  IsSorted-take zero xs h = tt
  IsSorted-take (suc n) [] h = tt
  IsSorted-take (suc n) (x ∷ xs) h = (All-take _ n xs h.0, IsSorted-take n xs h.1)

  -- What is taken comes before what is left.
  pub IsSorted-split :
      (n : ℕ) (xs : List A)
      → IsSorted le xs
      → All (λ d. All (λ t. le t d ≡ true) (take n xs)) (drop n xs)
  IsSorted-split zero xs h = All-of_forall _ (λ d. tt) xs
  IsSorted-split (suc n) [] h = tt
  IsSorted-split (suc n) (x ∷ xs) h =
      All-zip _ _ (drop n xs) (All-drop _ n xs h.0) (IsSorted-split n xs h.1)

module _ {ℓ} {A : Type ℓ} (p : A → Bool) where
  pub filter-append : (xs ys : List A) → filter p (xs ++ ys) ≡ filter p xs ++ filter p ys
  filter-append [] ys = refl
  filter-append (x ∷ xs) ys = ground (arith, filter-append xs ys)

  pub filter-All : (xs : List A) → All (λ x. p x ≡ true) xs → filter p xs ≡ xs
  filter-All [] h = refl
  filter-All (x ∷ xs) h = rw (h.0) (ap (λ t. x ∷ t) (filter-All xs h.1))

  pub filter_none : (xs : List A) → All (λ x. p x ≡ false) xs → filter p xs ≡ []
  filter_none [] h = refl
  filter_none (x ∷ xs) h = rw (h.0) (filter_none xs h.1)

  -- To put new rows of a kind in the place of the old ones, twice, is to do it once.
  pub filter-append_again :
      (xs new : List A)
      → All (λ x. p x ≡ false) new
      → filter p (filter p xs ++ new) ++ new ≡ filter p xs ++ new
  filter-append_again xs new h =
      rw
        (
          filter-append (filter p xs) new,
          filter-All (filter p xs) (All-filter_self p xs),
          filter_none new h,
        )
        (ap (λ t. t ++ new) (append-nil (filter p xs)))

  -- Updates that leave the test alone.
  pub filter-map :
      (f : A → A)
      → ((x : A) → p (f x) ≡ p x)
      → (xs : List A) → filter p (map f xs) ≡ map f (filter p xs)
  filter-map f h [] = refl
  filter-map f h (x ∷ xs) = elim (Bool-cases (p x)) [
    | inl e ↦ rw (h x, e) (ap (λ t. f x ∷ t) (filter-map f h xs))
    | inr e ↦ rw (h x, e) (filter-map f h xs)
  ]

pub map_again {ℓ} :
    {A : Type ℓ} (f : A → A)
    → ((x : A) → f (f x) ≡ f x)
    → (xs : List A) → map f (map f xs) ≡ map f xs
map_again f h [] = refl
map_again f h (x ∷ xs) = rw (h x) (ap (λ t. f x ∷ t) (map_again f h xs))

pub All-Memᴰ {ℓ} : {A : Type ℓ} (xs : List A) → All (λ x. Memᴰ x xs) xs
All-Memᴰ [] = tt
All-Memᴰ (x ∷ xs) = (Memᴰ.head refl, All-map_imp (λ a m. Memᴰ.tail m) xs (All-Memᴰ xs))

pub All-map {ℓ κ μ} :
    {A : Type ℓ} {B : Type κ} (P : B → Type μ) (f : A → B) (xs : List A)
    → All (λ x. P (f x)) xs
    → All P (map f xs)
All-map P f [] h = tt
All-map P f (x ∷ xs) h = (h.0, All-map P f xs h.1)
