-- ===== src/Access/Lifecycle/Enrolling.antt =====
-- apps/api/src/routes/enroll.ts: a request for a credential keeps the tables lawful.
use homeparentcontrol.Prelude.{
  ◌≢◌, ℕ, ◌+◌, ◌≤◌, ◌<◌, ◌≡◌, refl, subst, String, true, ◌&&◌, not, List, [], ◌∷◌, Option, none,
  some, map, arith, leb, ltb, ◌==◌, if-holds, find, is_some, inl, inr, Bool-cases, All-find,
}
use homeparentcontrol.Policy.{Text}
use homeparentcontrol.Policy.Publish.{Tables, PublishResult, text_eq}
use homeparentcontrol.Access.{
  AccessDevice, ApiKey, Enrolment, AccessDb, is_pending, clear_key, forget_key,
}
use homeparentcontrol.Access.Problems.{enrol_code_consumed}
use homeparentcontrol.Access.Keys.{CreateApiKey}
use homeparentcontrol.Access.Enrol.{
  IssueBody, max_enrolment_attempts, is_claimable, count_attempt, count_reissue, Issued, committed,
  rolled_back, is_key, issue_device, issue, after_claim, after_reissue, reissue, key_of, device_key,
  reissue_if, reject_row, reject_or_reissue, problem_answer, enroll_claimed, enroll_code,
  enroll_normalised, enroll_raw, enroll, is_hardware, never_used,
}
use homeparentcontrol.Access.Ending.{is_open_code}
use homeparentcontrol.Access.Lifecycle.Codes.{
  open_codes, open_codes-map, open_codes-claim, open_codes-claimed,
}
use homeparentcontrol.Access.Lifecycle.Devices.{
  IsFit, IsFit-fewer, IsQuiet, AreLawful, AreLawful-map, AreLawful-fewer,
}
use homeparentcontrol.Access.Lifecycle.Committing.{
  IsLawful, Commits, issue-Commits, issue_device-Commits,
}

find-none_key : (keys : List ApiKey) (key : ApiKey) → find (is_key none) keys ≢ some key
find-none_key [] key e = ground (arith, e)
find-none_key (k ∷ keys) key e = find-none_key keys key e

count_reissue-opens :
    (id other : ℕ) (e : Enrolment)
    → is_open_code id (count_reissue other e) ≡ true
    → is_open_code id e ≡ true
count_reissue-opens id other e = elim (Bool-cases (e.id == other)) [
  | inl c ↦ rw c (λ o. o)
  | inr c ↦ rw c (λ o. o)
]

count_attempt-opens :
    (id other : ℕ) (e : Enrolment)
    → is_open_code id (count_attempt other e) ≡ true
    → is_open_code id e ≡ true
count_attempt-opens id other e = elim (Bool-cases (e.id == other)) [
  | inl c ↦ rw c (λ o. o)
  | inr c ↦ rw c (λ o. o)
]

clear_none : (id : ℕ) (k : Option ℕ) → k ≡ none → clear_key id k ≡ none
clear_none id k e = rw e refl

forget_key-IsQuiet : (id : ℕ) → IsQuiet (forget_key id)
forget_key-IsQuiet id = record { id = λ d. refl; hardware = λ d. refl; live = λ d l. l }

forget_key-IsFit :
    (id : ℕ) (rows : List Enrolment) (d : AccessDevice)
    → IsFit rows d
    → IsFit rows (forget_key id d)
forget_key-IsFit id rows d f = record {
  unused = f.unused;
  single = f.single;
  bare = λ p.
      let q = f.bare p in (clear_none id d.api_key_id q.0, clear_none id d.previous_api_key_id q.1);
}

module _ (create : CreateApiKey) (publish : ℕ → Tables → Tables × PublishResult) (now : ℕ) where
  after_claim-IsLawful :
      (db : AccessDb) (i : Issued)
      → IsLawful db
      → Commits i
      → IsLawful (after_claim create publish now db i).0
  after_claim-IsLawful db (committed after response) l c = c
  after_claim-IsLawful db (rolled_back r) l c = l

  after_reissue-IsLawful :
      (key : ApiKey) (db : AccessDb) (i : Issued)
      → IsLawful db
      → Commits i
      → IsLawful (after_reissue create publish now key db i).0
  after_reissue-IsLawful key db (committed after response) l c = c
  after_reissue-IsLawful key db (rolled_back r) l c = l

  -- A device that has a credential has no open code.
  keyed-open :
      (x : Option AccessDevice) (id : ℕ) (db : AccessDb) (key : ApiKey)
      → find (λ d. d.id == id) db.devices ≡ x
      → key_of create publish now x db.keys ≡ some key
      → IsLawful db
      → open_codes id db.enrollments ≡ 0
  keyed-open none id db key e k l = absurd (ground arith)
  keyed-open (some d) id db key e k l =
      let hit = All-find (IsFit db.enrollments) (λ d. d.id == id) db.devices d l.fit e in
      let same : d.id ≡ id = ground (arith, hit.0) in
      elim (Bool-cases (is_pending d.status)) [
        | inl p ↦
            let q : find (is_key none) db.keys ≡ some key =
              subst (λ t. find (is_key t) db.keys ≡ some key) (hit.1.bare p).0 k in
            absurd (find-none_key db.keys key q)
        | inr p ↦ subst (λ t. open_codes t db.enrollments ≡ 0) same (hit.1.unused p)
      ]

  reissue-IsLawful :
      (row : Enrolment) (key : ApiKey) (body : IssueBody) (db : AccessDb)
      → open_codes row.device_id db.enrollments ≡ 0
      → IsLawful db
      → IsLawful (reissue create publish now row key body db).0
  unfolding reissue
  reissue-IsLawful row key body db o l =
      let fewer = λ (id : ℕ).
        open_codes-map id (count_reissue row.id) (count_reissue-opens id row.id) db.enrollments in
      let o' : open_codes row.device_id (map (count_reissue row.id) db.enrollments) ≡ 0 =
        let a = fewer row.device_id in omega arith in
      after_reissue-IsLawful key db _ l (
        issue-Commits create publish now row.device_id body _ o' (
          AreLawful-map db.enrollments _ (forget_key key.id) db.devices (forget_key-IsQuiet key.id)
            (λ d f. forget_key-IsFit key.id _ d (IsFit-fewer db.enrollments _ fewer d f)) l))

  reissue_if-IsLawful :
      (row : Enrolment) (body : IssueBody) (x : Option ApiKey) (db : AccessDb)
      → device_key create publish now row.device_id db ≡ x
      → IsLawful db
      → IsLawful (reissue_if create publish now row body x db).0
  reissue_if-IsLawful row body none db e l = l
  reissue_if-IsLawful row body (some key) db e l =
      if-holds (λ r. IsLawful r.0)
        (is_hardware row.consumed_hardware_uuid body.hardware_uuid
          && (ltb now row.expires_at && never_used key))
        {x = reissue create publish now row key body db}
        {y = problem_answer create publish now enrol_code_consumed db}
        (reissue-IsLawful row key body db (keyed-open _ row.device_id db key refl e l) l) l

  reject_row-IsLawful :
      (x : Option Enrolment) (body : IssueBody) (db : AccessDb)
      → IsLawful db
      → IsLawful (reject_row create publish now x body db).0
  reject_row-IsLawful none body db l = l
  reject_row-IsLawful (some row) body db l =
      let counted : AccessDb = record db {
        enrollments = map (count_attempt row.id) db.enrollments;
      } in
      let lawful : IsLawful counted =
        AreLawful-fewer db.enrollments _ db.devices
          (λ id.
            open_codes-map id (count_attempt row.id) (count_attempt-opens id row.id) db.enrollments)
          l in
      elim (Bool-cases (leb max_enrolment_attempts (row.attempts + 1))) [
        | inl a ↦ rw a lawful
        | inr a ↦ elim (Bool-cases (leb row.expires_at now)) [
          | inl b ↦ rw (a, b) lawful
          | inr b ↦ elim (Bool-cases (not (is_some row.consumed_at))) [
            | inl c ↦ rw (a, b, c) lawful
            | inr c ↦ rw (a, b, c) (reissue_if-IsLawful row body _ counted refl lawful)
          ]
        ]
      ]

  claimed-Commits :
      (x : Option AccessDevice) (id : ℕ) (body : IssueBody) (rows : List Enrolment) (db : AccessDb)
      → find (λ d. d.id == id) db.devices ≡ x
      → open_codes id rows < open_codes id db.enrollments
      → AreLawful rows db.devices
      → IsLawful db
      → Commits (issue_device create publish now x body (record db { enrollments = rows }))
  claimed-Commits none id body rows db e o l' l = tt
  claimed-Commits (some d) id body rows db e o l' l =
      let hit = All-find (IsFit db.enrollments) (λ d. d.id == id) db.devices d l.fit e in
      let same : d.id ≡ id = ground (arith, hit.0) in
      let one : open_codes id db.enrollments ≤ 1 =
        subst (λ t. open_codes t db.enrollments ≤ 1) same hit.1.single in
      issue_device-Commits create publish now (some d) body id (record db { enrollments = rows }) e
        (omega arith) l'

  enroll_claimed-IsLawful :
      (x : Option Enrolment) (h : Text) (ip : Option String) (body : IssueBody) (db : AccessDb)
      → find (is_claimable now h) db.enrollments ≡ x
      → IsLawful db
      → IsLawful (enroll_claimed create publish now x h ip body db).0
  unfolding reject_or_reissue issue
  enroll_claimed-IsLawful none h ip body db e l =
      reject_row-IsLawful (find (λ r. text_eq r.code_hash h) db.enrollments) body db l
  enroll_claimed-IsLawful (some row) h ip body db e l = after_claim-IsLawful db _ l (
      claimed-Commits _ row.device_id body _ db refl
        (open_codes-claimed now h ip body.hardware_uuid db.enrollments row e)
        (AreLawful-fewer db.enrollments _ db.devices
          (λ id. open_codes-claim id now h ip body.hardware_uuid db.enrollments) l)
        l)

  module _ (upper : ℕ → Text) (hash : Text → Text) where
    enroll_normalised-IsLawful :
        (x : Option Text) (parsed : Option IssueBody) (ip : Option String) (db : AccessDb)
        → IsLawful db
        → IsLawful (enroll_normalised create publish now upper hash x parsed ip db).0
    unfolding enroll_code
    enroll_normalised-IsLawful none parsed ip db l = l
    enroll_normalised-IsLawful (some code) none ip db l = l
    enroll_normalised-IsLawful (some code) (some body) ip db l =
        enroll_claimed-IsLawful _ (hash code) ip body db refl l

    enroll_raw-IsLawful :
        (x : Option Text) (parsed : Option IssueBody) (ip : Option String) (db : AccessDb)
        → IsLawful db
        → IsLawful (enroll_raw create publish now upper hash x parsed ip db).0
    enroll_raw-IsLawful none parsed ip db l = l
    enroll_raw-IsLawful (some typed) parsed ip db l = enroll_normalised-IsLawful _ parsed ip db l

    pub enroll-IsLawful :
        (request : Option (Option Text × Option IssueBody)) (ip : Option String) (db : AccessDb)
        → IsLawful db
        → IsLawful (enroll create publish now upper hash request ip db).0
    unfolding enroll
    enroll-IsLawful none ip db l = l
    enroll-IsLawful (some (typed, parsed)) ip db l = enroll_raw-IsLawful typed parsed ip db l
