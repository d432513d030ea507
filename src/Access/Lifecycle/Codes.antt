-- ===== src/Access/Lifecycle/Codes.antt =====
-- apps/api/src/routes/enroll.ts and apps/api/src/routes/parent-setup.ts: how many codes of a device
-- nobody has used, and what the writes to the table of codes do to that number.
use homeparentcontrol.Prelude.{
  ℕ, ◌+◌, ◌≤◌, ◌<◌, ◌≡◌, refl, Bool, true, false, ◌&&◌, List, [], ◌∷◌, Option, some, map, arith,
  ◌==◌, find, inl, inr, Bool-cases, subst, String,
}
use homeparentcontrol.Policy.{Text}
use homeparentcontrol.Access.{Enrolment}
use homeparentcontrol.Access.Enrol.{is_claimable, claim_row}
use homeparentcontrol.Access.Ending.{is_open_code, drop_open_codes}

abbrev one_if : Bool → ℕ
one_if true = 1
one_if false = 0

unfoldable pub open_codes : ℕ → List Enrolment → ℕ
open_codes id [] = 0
open_codes id (e ∷ es) = one_if (is_open_code id e) + open_codes id es

one_if_le : (a b : Bool) → (a ≡ true → b ≡ true) → one_if a ≤ one_if b
one_if_le true b h = rw (h refl) (omega arith)
one_if_le false b h = omega arith

-- A write that opens no code.
pub open_codes-map :
    (id : ℕ) (f : Enrolment → Enrolment)
    → ((e : Enrolment) → is_open_code id (f e) ≡ true → is_open_code id e ≡ true)
    → (es : List Enrolment) → open_codes id (map f es) ≤ open_codes id es
unfolding open_codes
open_codes-map id f h [] = omega arith
open_codes-map id f h (e ∷ es) =
    let a = one_if_le (is_open_code id (f e)) (is_open_code id e) (h e) in
    let b = open_codes-map id f h es in omega arith

pub open_codes-drop :
    (id other : ℕ) (es : List Enrolment)
    → open_codes id (drop_open_codes other es) ≤ open_codes id es
unfolding open_codes
open_codes-drop id other [] = omega arith
open_codes-drop id other (e ∷ es) = elim (Bool-cases (is_open_code other e)) [
  | inl h ↦ rw h (let b = open_codes-drop id other es in omega arith)
  | inr h ↦ rw h (let b = open_codes-drop id other es in omega arith)
]

pub open_codes-drop_own : (id : ℕ) (es : List Enrolment) → open_codes id (drop_open_codes id es) ≡ 0
unfolding open_codes
open_codes-drop_own id [] = refl
open_codes-drop_own id (e ∷ es) = elim (Bool-cases (is_open_code id e)) [
  | inl h ↦ rw h (open_codes-drop_own id es)
  | inr h ↦ rw (h, h) (let b = open_codes-drop_own id es in omega arith)
]

and_false : (a : Bool) → (a && false) ≡ false
and_false true = refl
and_false false = refl

claim_row-opens :
    (id now : ℕ) (h : Text) (ip : Option String) (uuid : String) (e : Enrolment)
    → is_open_code id (claim_row now h ip uuid e) ≡ true
    → is_open_code id e ≡ true
claim_row-opens id now h ip uuid e = elim (Bool-cases (is_claimable now h e)) [
  | inl c ↦ rw (c, and_false (e.device_id == id)) (λ o. ground (arith, o))
  | inr c ↦ rw c (λ o. o)
]

pub open_codes-claim :
    (id now : ℕ) (h : Text) (ip : Option String) (uuid : String) (es : List Enrolment)
    → open_codes id (map (claim_row now h ip uuid) es) ≤ open_codes id es
open_codes-claim id now h ip uuid es = open_codes-map id _ (claim_row-opens id now h ip uuid) es

claimable-open :
    (now : ℕ) (h : Text) (e : Enrolment)
    → is_claimable now h e ≡ true
    → is_open_code e.device_id e ≡ true
claimable-open now h e c = ground (arith, c)

-- A claimed code was open and is no more.
pub open_codes-claimed :
    (now : ℕ) (h : Text) (ip : Option String) (uuid : String) (es : List Enrolment)
    (row : Enrolment)
    → find (is_claimable now h) es ≡ some row
    → open_codes row.device_id (map (claim_row now h ip uuid) es) < open_codes row.device_id es
unfolding open_codes
open_codes-claimed now h ip uuid [] row e = absurd (ground arith)
open_codes-claimed now h ip uuid (a ∷ es) row e = elim (Bool-cases (is_claimable now h a)) [
  | inl c ↦
      let same : a ≡ row = ground arith in
      let b = open_codes-claim row.device_id now h ip uuid es in
      let o = subst (λ r. is_open_code r.device_id a ≡ true) same (claimable-open now h a c) in
      rw (c, o, and_false (a.device_id == row.device_id)) (omega arith)
  | inr c ↦ let b = open_codes-claimed now h ip uuid es row (ground arith) in rw c (omega arith)
]
