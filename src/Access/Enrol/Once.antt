-- ===== src/Access/Enrol/Once.antt =====
-- apps/api/src/routes/enroll.ts: what an answer leaves, and the next request with the same code.
use homeparentcontrol.Prelude.{
  ℕ, ◌+◌, ◌≡◌, refl, subst, String, true, false, ◌&&◌, List, Option, none, some, map, arith, str_eq,
  leb, ltb, find, is_some, inl, inr, Bool-cases, All, All-find, All-map_imp,
}
use homeparentcontrol.Prelude.Members.{All-map}
use homeparentcontrol.Policy.{Text}
use homeparentcontrol.Policy.Publish.{Tables, PublishResult, text_eq}
use homeparentcontrol.Access.{ApiKey, Enrolment, AccessDb}
use homeparentcontrol.Access.Problems.{Answer, answered, refused}
use homeparentcontrol.Access.Keys.{CreateApiKey}
use homeparentcontrol.Access.Enrol.{
  IssueBody, EnrolmentResponse, max_enrolment_attempts, is_claimable, claim_row, count_attempt,
  count_reissue, Issued, committed, rolled_back, after_claim, after_reissue, reissue, reissue_if,
  reject_row, reject_or_reissue, enroll_claimed, enroll_code, is_hardware, never_used,
}
use homeparentcontrol.Access.Enrol.Single.{
  IsUsed, IsUnique, is_refused, KeepsRows, count_reissue-IsUsed, count_attempt-IsUsed,
  claim_row-IsUsed, same_hardware, issue-KeepsRows, enroll_code-refuses,
}

module _ (create : CreateApiKey) (publish : ℕ → Tables → Tables × PublishResult) (now : ℕ) where
  -- What an answer leaves: the rows of the code are used by the hardware.
  abbrev LeavesUsed : Text → String → AccessDb × Answer EnrolmentResponse → Type 0
  LeavesUsed h uuid (db, answered r) = All (IsUsed h uuid) db.enrollments
  LeavesUsed h uuid (db, refused p) = Unit

  module _ (h : Text) (body : IssueBody) where
    after_claim-LeavesUsed :
        (db : AccessDb) (rows : List Enrolment) (i : Issued)
        → KeepsRows rows i
        → All (IsUsed h body.hardware_uuid) rows
        → LeavesUsed h body.hardware_uuid (after_claim create publish now db i)
    after_claim-LeavesUsed db rows (committed after r) k u = rw k u
    after_claim-LeavesUsed db rows (rolled_back r) k u = tt

    after_reissue-LeavesUsed :
        (key : ApiKey) (db : AccessDb) (rows : List Enrolment) (i : Issued)
        → KeepsRows rows i
        → All (IsUsed h body.hardware_uuid) rows
        → LeavesUsed h body.hardware_uuid (after_reissue create publish now key db i)
    after_reissue-LeavesUsed key db rows (committed after r) k u = rw k u
    after_reissue-LeavesUsed key db rows (rolled_back r) k u = tt

    reissue_if-LeavesUsed :
        (row : Enrolment) (o : Option ApiKey) (db : AccessDb)
        → (row.consumed_hardware_uuid ≡ some body.hardware_uuid
            → All (IsUsed h body.hardware_uuid) db.enrollments)
        → LeavesUsed h body.hardware_uuid (reissue_if create publish now row body o db)
    unfolding reissue
    reissue_if-LeavesUsed row none db u = tt
    reissue_if-LeavesUsed row (some key) db u =
        elim (Bool-cases (
          is_hardware row.consumed_hardware_uuid body.hardware_uuid
          && (ltb now row.expires_at && never_used key))) [
            | inl c ↦
                let hw =
                  same_hardware row.consumed_hardware_uuid body.hardware_uuid (ground (arith, c)) in
                rw c (
                  after_reissue-LeavesUsed key db (map (count_reissue row.id) db.enrollments) _
                    (issue-KeepsRows create publish now row.device_id body _)
                    (All-map (IsUsed h body.hardware_uuid) (count_reissue row.id) db.enrollments (
                      All-map_imp (λ e x. count_reissue-IsUsed h body.hardware_uuid row.id e x)
                        db.enrollments (u hw))))
            | inr c ↦ rw c tt
          ]

    -- The row of a code that was consumed by the hardware.
    row-IsUsed :
        (row : Enrolment) (rows : List Enrolment)
        → text_eq row.code_hash h ≡ true
        → All (λ b. text_eq row.code_hash h ≡ true → text_eq b.code_hash h ≡ true → row ≡ b) rows
        → is_some row.consumed_at ≡ true
        → row.consumed_hardware_uuid ≡ some body.hardware_uuid
        → All (IsUsed h body.hardware_uuid) rows
    row-IsUsed row rows t same c e =
        All-map_imp
          (λ b s x.
            let q = s t x in
            (
              subst (λ r. is_some r.consumed_at ≡ true) q c,
              subst (λ r. r.consumed_hardware_uuid ≡ some body.hardware_uuid) q e,
            ))
          rows same

    reject_row-LeavesUsed :
        (o : Option Enrolment) (db : AccessDb)
        → find (λ r. text_eq r.code_hash h) db.enrollments ≡ o
        → IsUnique h db.enrollments
        → LeavesUsed h body.hardware_uuid (reject_row create publish now o body db)
    reject_row-LeavesUsed none db e u = tt
    reject_row-LeavesUsed (some row) db e u =
        let hit = All-find _ (λ r. text_eq r.code_hash h) db.enrollments row u e in
        elim (Bool-cases (leb max_enrolment_attempts (row.attempts + 1))) [
          | inl a ↦ rw a tt
          | inr a ↦ elim (Bool-cases (leb row.expires_at now)) [
            | inl b ↦ rw (a, b) tt
            | inr b ↦ elim (Bool-cases (is_some row.consumed_at)) [
              | inl c ↦
                  rw (a, b, c)
                    (reissue_if-LeavesUsed row _ _ (λ x.
                      All-map (IsUsed h body.hardware_uuid) (count_attempt row.id) db.enrollments (
                        All-map_imp (λ e y. count_attempt-IsUsed h body.hardware_uuid row.id e y)
                          db.enrollments (row-IsUsed row db.enrollments hit.0 hit.1 c x))))
              | inr c ↦ rw (a, b, c) tt
            ]
          ]
        ]

    enroll_claimed-LeavesUsed :
        (o : Option Enrolment) (ip : Option String) (db : AccessDb)
        → find (is_claimable now h) db.enrollments ≡ o
        → IsUnique h db.enrollments
        → LeavesUsed h body.hardware_uuid (enroll_claimed create publish now o h ip body db)
    unfolding reject_or_reissue
    enroll_claimed-LeavesUsed none ip db e u = reject_row-LeavesUsed _ db refl u
    enroll_claimed-LeavesUsed (some row) ip db e u =
        let hit = All-find _ (is_claimable now h) db.enrollments row u e in
        let t : text_eq row.code_hash h ≡ true = ground (arith, hit.0) in
        after_claim-LeavesUsed db (map (claim_row now h ip body.hardware_uuid) db.enrollments) _
          (issue-KeepsRows create publish now row.device_id body _)
          (All-map (IsUsed h body.hardware_uuid) (claim_row now h ip body.hardware_uuid)
            db.enrollments
            (All-map_imp
              (λ b s. claim_row-IsUsed now h ip body.hardware_uuid row b hit.0 (λ x. s t x))
              db.enrollments hit.1))

    enroll_code-LeavesUsed :
        (ip : Option String) (db : AccessDb)
        → IsUnique h db.enrollments
        → LeavesUsed h body.hardware_uuid (enroll_code create publish now h ip body db)
    unfolding enroll_code
    enroll_code-LeavesUsed ip db u = enroll_claimed-LeavesUsed _ ip db refl u

refuses_after :
    (create : CreateApiKey) (publish : ℕ → Tables → Tables × PublishResult) (now : ℕ) (h : Text)
    (body other : IssueBody) (later : ℕ) (ip : Option String)
    (r : AccessDb × Answer EnrolmentResponse)
    → LeavesUsed create publish now h body.hardware_uuid r
    → is_refused r ≡ false
    → str_eq body.hardware_uuid other.hardware_uuid ≡ false
    → is_refused (enroll_code create publish later h ip other r.0) ≡ true
refuses_after create publish now h body other later ip (db, answered r) u a o =
    enroll_code-refuses create publish later h body.hardware_uuid other o ip db u
refuses_after create publish now h body other later ip (db, refused p) u a o =
    absurd (ground (arith, a))

-- Once a request with a code was answered for a Mac, a request with that code for other hardware is
-- refused, at any time. The digest of the code stands in one row of the table.
pub enroll_code_once :
    (create : CreateApiKey) (publish : ℕ → Tables → Tables × PublishResult) (now later : ℕ)
    (h : Text) (ip other_ip : Option String) (body other : IssueBody) (db : AccessDb)
    → IsUnique h db.enrollments
    → is_refused (enroll_code create publish now h ip body db) ≡ false
    → str_eq body.hardware_uuid other.hardware_uuid ≡ false
    → is_refused (
        enroll_code create publish later h other_ip other
          (enroll_code create publish now h ip body db).0)
      ≡ true
enroll_code_once create publish now later h ip other_ip body other db u a o =
    refuses_after create publish now h body other later other_ip _
      (enroll_code-LeavesUsed create publish now h body ip db u) a o
