-- ===== src/Access/Enrol/Single.antt =====
-- apps/api/src/routes/enroll.ts: a code is used by one Mac.
use homeparentcontrol.Prelude.{
  ℕ, ◌+◌, ◌≡◌, refl, ap, subst, String, Bool, true, false, List, [], ◌∷◌, Option, none, some, arith,
  str_eq, eq_iff, leb, ◌==◌, find, any, is_some, inl, inr, Bool-cases, Option-cases, All, All-find,
}
use homeparentcontrol.Policy.{Text}
use homeparentcontrol.Policy.Publish.{Tables, PublishResult, text_eq}
use homeparentcontrol.Access.{AccessDevice, Household, ApiKey, Enrolment, AccessDb}
use homeparentcontrol.Access.Problems.{Answer, answered, refused}
use homeparentcontrol.Access.Keys.{CreateApiKey, MintedDeviceKey}
use homeparentcontrol.Access.Enrol.{
  IssueBody, EnrolmentResponse, max_enrolment_attempts, is_claimable, claim_row, count_attempt,
  count_reissue, is_holder, Issued, committed, rolled_back, is_failed, issue_published,
  issue_minted, issue_to, issue_device, issue, reissue_if, reject_row, reject_or_reissue,
  enroll_code, is_hardware,
}

-- The rows of a code are used, by one hardware.
abbrev pub IsUsed : Text → String → Enrolment → Type 0
IsUsed h uuid e =
    text_eq e.code_hash h ≡ true
    → (is_some e.consumed_at ≡ true) × (e.consumed_hardware_uuid ≡ some uuid)

-- The unique index on the digests: the rows of a code are one row.
abbrev pub IsUnique : Text → List Enrolment → Type 0
IsUnique h rows =
    All (λ a. All (λ b. text_eq a.code_hash h ≡ true → text_eq b.code_hash h ≡ true → a ≡ b) rows)
      rows

abbrev pub is_refused : AccessDb × Answer EnrolmentResponse → Bool
is_refused (db, answered r) = false
is_refused (db, refused p) = true

-- What a transaction commits has the rows it began with.
abbrev pub KeepsRows : List Enrolment → Issued → Type 0
KeepsRows rows (committed db r) = db.enrollments ≡ rows
KeepsRows rows (rolled_back r) = Unit

pub count_reissue-IsUsed :
    (h : Text) (uuid : String) (id : ℕ) (e : Enrolment)
    → IsUsed h uuid e
    → IsUsed h uuid (count_reissue id e)
count_reissue-IsUsed h uuid id e u = elim (Bool-cases (e.id == id)) [
  | inl c ↦ rw c u
  | inr c ↦ rw c u
]

pub count_attempt-IsUsed :
    (h : Text) (uuid : String) (id : ℕ) (e : Enrolment)
    → IsUsed h uuid e
    → IsUsed h uuid (count_attempt id e)
count_attempt-IsUsed h uuid id e u = elim (Bool-cases (e.id == id)) [
  | inl c ↦ rw c u
  | inr c ↦ rw c u
]

pub claim_row-IsUsed :
    (now : ℕ) (h : Text) (ip : Option String) (uuid : String) (row e : Enrolment)
    → is_claimable now h row ≡ true
    → (text_eq e.code_hash h ≡ true → row ≡ e)
    → IsUsed h uuid (claim_row now h ip uuid e)
claim_row-IsUsed now h ip uuid row e c same = elim (Bool-cases (is_claimable now h e)) [
  | inl d ↦ rw d (λ t. (refl, refl))
  | inr d ↦ rw d (λ t.
      let c' : is_claimable now h e ≡ true = subst (λ x. is_claimable now h x ≡ true) (same t) c in
      absurd (ground (arith, c', d)))
]

pub same_hardware : (o : Option String) (uuid : String) → is_hardware o uuid ≡ true → o ≡ some uuid
same_hardware none uuid h = absurd (ground (arith, h))
same_hardware (some x) uuid h = ap some (ground (arith, eq_iff x uuid))

used-unclaimable :
    (now : ℕ) (h : Text) (uuid : String) (es : List Enrolment)
    → All (IsUsed h uuid) es
    → find (is_claimable now h) es ≡ none
used-unclaimable now h uuid [] u = refl
used-unclaimable now h uuid (e ∷ es) u = elim (Bool-cases (is_claimable now h e)) [
  | inl c ↦ absurd (let s = (u.0 (ground (arith, c))).0 in ground (arith, c, s))
  | inr c ↦ rw c (used-unclaimable now h uuid es u.1)
]

module _ (create : CreateApiKey) (publish : ℕ → Tables → Tables × PublishResult) (now : ℕ) where
  issue_published-KeepsRows :
      (d : AccessDevice) (body : IssueBody) (m : MintedDeviceKey) (db : AccessDb)
      (r : Tables × PublishResult)
      → KeepsRows db.enrollments (issue_published create publish now d body m db r)
  issue_published-KeepsRows d body m db (tables, result) = elim (Bool-cases (is_failed result)) [
    | inl f ↦ rw f tt
    | inr f ↦ rw f refl
  ]

  issue_minted-KeepsRows :
      (d : AccessDevice) (body : IssueBody) (db : AccessDb)
      (o : Option (MintedDeviceKey × List ApiKey))
      → KeepsRows db.enrollments (issue_minted create publish now d body db o)
  issue_minted-KeepsRows d body db none = tt
  issue_minted-KeepsRows d body db (some (m, keys)) =
      issue_published-KeepsRows d body m (record db { keys = keys }) (publish d.id db.tables)

  issue_to-KeepsRows :
      (d : AccessDevice) (body : IssueBody) (household : Option Household) (db : AccessDb)
      → KeepsRows db.enrollments (issue_to create publish now d body household db)
  issue_to-KeepsRows d body none db = tt
  issue_to-KeepsRows d body (some household) db = elim (Option-cases household.service_user_id) [
    | inl e ↦ rw e tt
    | inr (user, e) ↦ rw e (issue_minted-KeepsRows d body _ _)
  ]

  issue_device-KeepsRows :
      (x : Option AccessDevice) (body : IssueBody) (db : AccessDb)
      → KeepsRows db.enrollments (issue_device create publish now x body db)
  issue_device-KeepsRows none body db = tt
  issue_device-KeepsRows (some d) body db =
      elim (Bool-cases (any (is_holder d.id body.hardware_uuid) db.devices)) [
        | inl h ↦ rw h tt
        | inr h ↦ rw h (issue_to-KeepsRows d body _ db)
      ]

  pub issue-KeepsRows :
      (id : ℕ) (body : IssueBody) (db : AccessDb)
      → KeepsRows db.enrollments (issue create publish now id body db)
  unfolding issue
  issue-KeepsRows id body db = issue_device-KeepsRows _ body db

  -- Other hardware is refused.
  module _ (h : Text) (uuid : String) (body : IssueBody)
      (other : str_eq uuid body.hardware_uuid ≡ false) where
    reissue_if-refuses :
        (row : Enrolment) (o : Option ApiKey) (db : AccessDb)
        → row.consumed_hardware_uuid ≡ some uuid
        → is_refused (reissue_if create publish now row body o db) ≡ true
    reissue_if-refuses row none db e = refl
    reissue_if-refuses row (some key) db e = rw (e, other) refl

    reject_row-refuses :
        (o : Option Enrolment) (rows : List Enrolment) (db : AccessDb)
        → find (λ r. text_eq r.code_hash h) rows ≡ o
        → All (IsUsed h uuid) rows
        → is_refused (reject_row create publish now o body db) ≡ true
    reject_row-refuses none rows db e u = refl
    reject_row-refuses (some row) rows db e u =
        let hit = All-find (IsUsed h uuid) (λ r. text_eq r.code_hash h) rows row u e in
        let used = hit.1 hit.0 in
        elim (Bool-cases (leb max_enrolment_attempts (row.attempts + 1))) [
          | inl a ↦ rw a refl
          | inr a ↦ elim (Bool-cases (leb row.expires_at now)) [
            | inl b ↦ rw (a, b) refl
            | inr b ↦ rw (a, b, used.0) (reissue_if-refuses row _ _ used.1)
          ]
        ]

    pub enroll_code-refuses :
        (ip : Option String) (db : AccessDb)
        → All (IsUsed h uuid) db.enrollments
        → is_refused (enroll_code create publish now h ip body db) ≡ true
    unfolding enroll_code reject_or_reissue
    enroll_code-refuses ip db u =
        rw (used-unclaimable now h uuid db.enrollments u)
          (reject_row-refuses _ db.enrollments db refl u)
