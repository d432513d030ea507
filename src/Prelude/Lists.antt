-- ===== src/Prelude/Lists.antt =====
-- Lists measured by native numbers, Boolean tests over lists, and predicates over their elements.
use Prim.Native.Nat.{ℕ, zero, suc, ◌+◌, ◌≤◌}
use mathlib.Core.Path.{◌≡◌, refl, sym, subst}
use mathlib.Core.Logic.{◌⊎◌, inl, inr}
use mathlib.Core.Bool.{Bool, true, false, ◌&&◌, ◌||◌}
use mathlib.Core.List.{List, [], ◌∷◌, ◌++◌, Memᴰ}
use mathlib.Core.Option.{Option, none, some}
use native.Mathlib.Omega.{arith}
use homeparentcontrol.Prelude.Tests.{if◌then◌else◌, Bool-cases}

module _ {ℓ} {A : Type ℓ} where
  abbrev pub length : List A → ℕ
  length [] = 0
  length (x ∷ xs) = suc (length xs)

  abbrev pub take : ℕ → List A → List A
  take zero xs = []
  take (suc n) [] = []
  take (suc n) (x ∷ xs) = x ∷ take n xs

  abbrev pub drop : ℕ → List A → List A
  drop zero xs = xs
  drop (suc n) [] = []
  drop (suc n) (x ∷ xs) = drop n xs

  abbrev pub any : (A → Bool) → List A → Bool
  any p [] = false
  any p (x ∷ xs) = p x || any p xs

  abbrev pub all : (A → Bool) → List A → Bool
  all p [] = true
  all p (x ∷ xs) = p x && all p xs

  -- The JavaScript `filter`: by a Boolean test.
  abbrev pub filter : (A → Bool) → List A → List A
  filter p [] = []
  filter p (x ∷ xs) = if p x then x ∷ filter p xs else filter p xs

  abbrev pub find : (A → Bool) → List A → Option A
  find p [] = none
  find p (x ∷ xs) = if p x then some x else find p xs

  pub length-append : (xs ys : List A) → length (xs ++ ys) ≡ length xs + length ys
  length-append [] ys = omega arith
  length-append (x ∷ xs) ys = omega (arith, length-append xs ys)

  pub length-filter-le : (p : A → Bool) (xs : List A) → length (filter p xs) ≤ length xs
  length-filter-le p [] = omega arith
  length-filter-le p (x ∷ xs) = ground (arith, length-filter-le p xs)

abbrev pub sum : List ℕ → ℕ
sum [] = 0
sum (x ∷ xs) = x + sum xs

abbrev pub flat_map {ℓ κ} : {A : Type ℓ} {B : Type κ} → (A → List B) → List A → List B
flat_map f [] = []
flat_map f (x ∷ xs) = f x ++ flat_map f xs

-- A predicate that holds of every element, and one that holds of some.
abbrev pub All {ℓ κ} : {A : Type ℓ} → (A → Type κ) → List A → Type κ
All P [] = Unit
All P (x ∷ xs) = P x × All P xs

abbrev pub Any {ℓ} : {A : Type ℓ} → (A → Type 0) → List A → Type 0
Any P [] = ⊥
Any P (x ∷ xs) = P x ⊎ Any P xs

module _ {ℓ κ} {A : Type ℓ} (P : A → Type κ) where
  pub All-append : (xs ys : List A) → All P xs → All P ys → All P (xs ++ ys)
  All-append [] ys hx hy = hy
  All-append (x ∷ xs) ys hx hy = (hx.0, All-append xs ys hx.1 hy)

  pub All-filter : (p : A → Bool) (xs : List A) → All P xs → All P (filter p xs)
  All-filter p [] h = tt
  All-filter p (x ∷ xs) h = elim (Bool-cases (p x)) [
    | inl e ↦ rw e (h.0, All-filter p xs h.1)
    | inr e ↦ rw e (All-filter p xs h.1)
  ]

  pub All-of_forall : ((a : A) → P a) → (xs : List A) → All P xs
  All-of_forall h [] = tt
  All-of_forall h (x ∷ xs) = (h x, All-of_forall h xs)

  pub All_of_Memᴰ : {a : A} (xs : List A) → All P xs → Memᴰ a xs → P a
  All_of_Memᴰ [] h m = elim m [ ]
  All_of_Memᴰ (x ∷ xs) h (Memᴰ.head e) = subst P (sym e) h.0
  All_of_Memᴰ (x ∷ xs) h (Memᴰ.tail m) = All_of_Memᴰ xs h.1 m

module _ {ℓ κ μ} {A : Type ℓ} {P : A → Type κ} {Q : A → Type μ} where
  pub All-map_imp : ((a : A) → P a → Q a) → (xs : List A) → All P xs → All Q xs
  All-map_imp f [] h = tt
  All-map_imp f (x ∷ xs) h = (f x h.0, All-map_imp f xs h.1)

pub Any-map_imp {ℓ} :
    {A : Type ℓ} {P Q : A → Type 0} → ((a : A) → P a → Q a) → (xs : List A) → Any P xs → Any Q xs
Any-map_imp f [] h = h
Any-map_imp f (x ∷ xs) (inl p) = inl (f x p)
Any-map_imp f (x ∷ xs) (inr h) = inr (Any-map_imp f xs h)

-- Every element that passes the test passes it.
pub All-filter_self {ℓ} :
    {A : Type ℓ} (p : A → Bool) (xs : List A) → All (λ a. p a ≡ true) (filter p xs)
All-filter_self p [] = tt
All-filter_self p (x ∷ xs) = elim (Bool-cases (p x)) [
  | inl e ↦ rw e (e, All-filter_self p xs)
  | inr e ↦ rw e (All-filter_self p xs)
]

pub any-append {ℓ} :
    {A : Type ℓ} (p : A → Bool) (xs ys : List A) → any p (xs ++ ys) ≡ (any p xs || any p ys)
any-append p [] ys = refl
any-append p (x ∷ xs) ys = ground (arith, any-append p xs ys)

pub All-flat_map {ℓ κ μ} :
    {A : Type ℓ} {B : Type κ} (P : B → Type μ) (f : A → List B)
    → ((a : A) → All P (f a))
    → (xs : List A) → All P (flat_map f xs)
All-flat_map P f h [] = tt
All-flat_map P f h (x ∷ xs) = All-append P (f x) (flat_map f xs) (h x) (All-flat_map P f h xs)

pub All-flat_map_on {ℓ κ μ} :
    {A : Type ℓ} {B : Type κ} (P : B → Type μ) (f : A → List B) (xs : List A)
    → All (λ a. All P (f a)) xs
    → All P (flat_map f xs)
All-flat_map_on P f [] h = tt
All-flat_map_on P f (x ∷ xs) h = All-append P (f x) (flat_map f xs) h.0 (All-flat_map_on P f xs h.1)

pub All-find {ℓ κ} :
    {A : Type ℓ} (P : A → Type κ) (p : A → Bool) (xs : List A) (a : A)
    → All P xs
    → find p xs ≡ some a
    → (p a ≡ true) × P a
All-find P p [] a h e = absurd (ground arith)
All-find P p (x ∷ xs) a h e = elim (Bool-cases (p x)) [
  | inl hit ↦
      let same : x ≡ a = ground arith in (subst (λ y. p y ≡ true) same hit, subst P same h.0)
  | inr miss ↦ All-find P p xs a h.1 (ground arith)
]

-- What is made from each element, said of the element.
pub Any-flat_map {ℓ κ} :
    {A : Type ℓ} {B : Type κ} (Q : B → A → Type 0) (f : A → List B) (xs : List A)
    → All (λ a. All (λ b. Q b a) (f a)) xs
    → All (λ b. Any (Q b) xs) (flat_map f xs)
Any-flat_map Q f [] h = tt
Any-flat_map Q f (x ∷ xs) h =
    All-append _ (f x) (flat_map f xs) (All-map_imp (λ b q. inl q) (f x) h.0)
      (All-map_imp (λ b q. inr q) (flat_map f xs) (Any-flat_map Q f xs h.1))

pub All-filter_imp {ℓ κ} :
    {A : Type ℓ} (P : A → Type κ) (p : A → Bool) (xs : List A)
    → ((a : A) → p a ≡ true → P a)
    → All P (filter p xs)
All-filter_imp P p xs f = All-map_imp f (filter p xs) (All-filter_self p xs)
