-- ===== src/Prelude/Upsert.antt =====
-- `INSERT … ON CONFLICT DO UPDATE`, and `map.set(key, f(map.get(key) ?? new))`: the first row that
-- passes a test is updated in place, and a new one goes to the end where there is none.
use Prim.Native.Nat.{ℕ, ◌+◌}
use mathlib.Core.Path.{◌≡◌, refl, ap}
use mathlib.Core.Logic.{inl, inr}
use mathlib.Core.Bool.{Bool, true, false}
use mathlib.Core.List.{List, [], ◌∷◌, ◌++◌, map}
use native.Mathlib.Omega.{arith}
use homeparentcontrol.Prelude.Tests.{if◌then◌else◌, Bool-cases}
use homeparentcontrol.Prelude.Lists.{sum, All}

unfoldable pub upsert_by {ℓ} : {A : Type ℓ} → (A → Bool) → (A → A) → A → List A → List A
upsert_by test f new [] = new ∷ []
upsert_by test f new (x ∷ xs) = if test x then f x ∷ xs else x ∷ upsert_by test f new xs

module _ {ℓ} {A : Type ℓ} (test : A → Bool) (f : A → A) (new : A) where
  -- A measure that the update raises by `k`, and that is `k` on a new row.
  pub upsert_by-sum :
      (m : A → ℕ) (k : ℕ)
      → ((x : A) → test x ≡ true → m (f x) ≡ m x + k)
      → m new ≡ k
      → (xs : List A) → sum (map m (upsert_by test f new xs)) ≡ sum (map m xs) + k
  unfolding upsert_by
  upsert_by-sum m k h n [] = omega (arith, n)
  upsert_by-sum m k h n (x ∷ xs) = elim (Bool-cases (test x)) [
    | inl e ↦ rw e (omega (arith, h x e))
    | inr e ↦ rw e (omega (arith, upsert_by-sum m k h n xs))
  ]

  pub upsert_by-All {κ} :
      (P : A → Type κ)
      → ((x : A) → test x ≡ true → P x → P (f x))
      → P new
      → (xs : List A) → All P xs
      → All P (upsert_by test f new xs)
  unfolding upsert_by
  upsert_by-All P h n [] q = (n, tt)
  upsert_by-All P h n (x ∷ xs) q = elim (Bool-cases (test x)) [
    | inl e ↦ rw e (h x e q.0, q.1)
    | inr e ↦ rw e (q.0, upsert_by-All P h n xs q.1)
  ]

  -- Rows that do not pass stay in front.
  pub upsert_by-append :
      (xs ys : List A)
      → All (λ x. test x ≡ false) xs
      → upsert_by test f new (xs ++ ys) ≡ xs ++ upsert_by test f new ys
  unfolding upsert_by
  upsert_by-append [] ys h = refl
  upsert_by-append (x ∷ xs) ys h = rw (h.0) (ap (λ t. x ∷ t) (upsert_by-append xs ys h.1))

  -- Writing the same row again changes nothing.
  pub upsert_by-twice :
      ((x : A) → test x ≡ true → test (f x) ≡ true)
      → test new ≡ true
      → ((x : A) → f (f x) ≡ f x)
      → f new ≡ new
      → (xs : List A) → upsert_by test f new (upsert_by test f new xs) ≡ upsert_by test f new xs
  unfolding upsert_by
  upsert_by-twice k n i j [] = rw n (ap (λ t. t ∷ []) j)
  upsert_by-twice k n i j (x ∷ xs) = elim (Bool-cases (test x)) [
    | inl e ↦ rw (e, k x e) (ap (λ t. t ∷ xs) (i x))
    | inr e ↦ rw (e, e) (ap (λ t. x ∷ t) (upsert_by-twice k n i j xs))
  ]

  settled_tail :
      (x : A) (xs : List A)
      → upsert_by test f new (x ∷ xs) ≡ x ∷ xs
      → test x ≡ false
      → upsert_by test f new xs ≡ xs
  unfolding upsert_by
  settled_tail x xs h e = ground arith

  settled_head :
      (x : A) (xs : List A) → upsert_by test f new (x ∷ xs) ≡ x ∷ xs → test x ≡ true → f x ≡ x
  unfolding upsert_by
  settled_head x xs h e = ground arith

  -- A row that stands as written stands so after a write of another.
  pub upsert_by-settled :
      (other : A → Bool) (g : A → A) (row : A)
      → ((x : A) → other x ≡ true → test x ≡ false)
      → ((x : A) → other x ≡ true → test (g x) ≡ false)
      → test row ≡ false
      → (xs : List A) → upsert_by test f new xs ≡ xs
      → upsert_by test f new (upsert_by other g row xs) ≡ upsert_by other g row xs
  unfolding upsert_by
  upsert_by-settled other g row d k r [] h = absurd (nil_not h)
    where
      nil_not : new ∷ [] ≡ [] → ⊥
      nil_not e = cc
  upsert_by-settled other g row d k r (x ∷ xs) h = elim (Bool-cases (other x)) [
    | inl o ↦ rw (o, k x o) (ap (λ t. g x ∷ t) (settled_tail x xs h (d x o)))
    | inr o ↦ elim (Bool-cases (test x)) [
      | inl e ↦ rw (o, e) (ap (λ t. t ∷ upsert_by other g row xs) (settled_head x xs h e))
      | inr e ↦
          rw (o, e)
            (ap (λ t. x ∷ t) (upsert_by-settled other g row d k r xs (settled_tail x xs h e)))
    ]
  ]
