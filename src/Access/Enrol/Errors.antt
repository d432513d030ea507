-- ===== src/Access/Enrol/Errors.antt =====
-- apps/api/src/routes/enroll.ts: what a refused request leaves behind.
use homeparentcontrol.Prelude.{
  ◌+◌, if-holds, ℕ, ◌≡◌, ◌≢◌, refl, String, Bool, true, false, ◌&&◌, not, List, ◌∷◌, Option, none,
  some, map, arith, leb, ltb, ◌==◌, if◌then◌else◌, filter, find, All, All-map_imp, inl, inr, ◌⊎◌,
  is_some,
}
use homeparentcontrol.Prelude.Members.{filter-All}
use homeparentcontrol.Policy.{Text}
use homeparentcontrol.Policy.Publish.{Tables, PublishResult, text_eq}
use homeparentcontrol.Access.{ApiKey, Enrolment, AccessDb}
use homeparentcontrol.Access.Problems.{
  is_pre_credential, enrol_code_consumed, enrol_code_expired, ProblemKey, Problem, problem,
  unexpected, by_status, Answer, answered, refused,
}
use homeparentcontrol.Access.Keys.{CreateApiKey, Creates}
use homeparentcontrol.Access.Enrol.Leaving.{
  IsEnrolProblem, crash, expected, as_before, one_more, Leaves, issue-Leaves,
}
use homeparentcontrol.Access.Enrol.{
  IssueBody, EnrolmentResponse, max_enrolment_attempts, count_attempt, Issued, committed,
  rolled_back, after_claim, after_reissue, reissue, device_key, reissue_if, reject_row,
  reject_or_reissue, problem_answer, enroll_claimed, enroll_code, enroll_normalised, enroll_raw,
  enroll, is_hardware, never_used,
}

-- A refusal leaves all as it was, but for the count of attempts of one code and, where the answer is
-- an unexpected error, at most one key.
pub record IsUntouched (p : Problem) (before after : AccessDb) : Type 0 where
  pub reason : IsEnrolProblem p
  pub devices : after.devices ≡ before.devices
  pub households : after.households ≡ before.households
  pub children : after.children ≡ before.children
  pub child_sets : after.child_sets ≡ before.child_sets
  pub desired : after.desired ≡ before.desired
  pub tripwires : after.tripwires ≡ before.tripwires
  pub tables : after.tables ≡ before.tables
  pub enrollments :
      (after.enrollments ≡ before.enrollments)
      ⊎ ((id : ℕ) × (after.enrollments ≡ map (count_attempt id) before.enrollments))
  pub keys :
      (after.keys ≡ before.keys)
      ⊎ ((p ≡ unexpected) × ((k : ApiKey) × (after.keys ≡ k ∷ before.keys)))

abbrev pub Spares : AccessDb → AccessDb × Answer EnrolmentResponse → Type 0
Spares before (after, answered r) = Unit
Spares before (after, refused p) = IsUntouched p before after

abbrev count_attempt_of : ℕ → AccessDb → AccessDb
count_attempt_of id db = record db { enrollments = map (count_attempt id) db.enrollments }

other_key : (a b : ℕ) → a ≢ b → not (a == b) ≡ true
other_key a b n = ground (arith, n)

same_key : (a : ℕ) → not (a == a) ≡ false
same_key a = ground arith

filter-minted :
    (k : ApiKey) (keys : List ApiKey)
    → All (λ x. x.id ≢ k.id) keys
    → filter (λ x. not (x.id == k.id)) (k ∷ keys) ≡ keys
filter-minted k keys n =
    rw (same_key k.id) (filter-All _ keys (All-map_imp (λ x h. other_key x.id k.id h) keys n))

module _ (create : CreateApiKey) (publish : ℕ → Tables → Tables × PublishResult) (now : ℕ)
    (law : Creates create) where
  after_claim-Spares :
      (db : AccessDb) (i : Issued)
      → Leaves db.keys i
      → Spares db (after_claim create publish now db i)
  after_claim-Spares db (committed after response) l = tt
  after_claim-Spares db (rolled_back r) (as_before q e m) = record {
    reason = q;
    devices = refl;
    households = refl;
    children = refl;
    child_sets = refl;
    desired = refl;
    tripwires = refl;
    tables = refl;
    enrollments = inl refl;
    keys = inl (rw m e);
  }
  after_claim-Spares db (rolled_back r) (one_more k u e m n) = record {
    reason = rw u crash;
    devices = refl;
    households = refl;
    children = refl;
    child_sets = refl;
    desired = refl;
    tripwires = refl;
    tables = refl;
    enrollments = inl refl;
    keys = inl (rw (m, e) (filter-minted k db.keys n));
  }

  refused-Spares :
      (key : ProblemKey) (before after : AccessDb)
      → IsUntouched (problem key by_status) before after
      → Spares before (problem_answer create publish now key after)
  refused-Spares key before after u = u

  same : (p : Problem) (db : AccessDb) → IsEnrolProblem p → IsUntouched p db db
  same p db q = record {
    reason = q;
    devices = refl;
    households = refl;
    children = refl;
    child_sets = refl;
    desired = refl;
    tripwires = refl;
    tables = refl;
    enrollments = inl refl;
    keys = inl refl;
  }

  counted :
      (p : Problem) (id : ℕ) (db : AccessDb)
      → IsEnrolProblem p
      → IsUntouched p db (count_attempt_of id db)
  counted p id db q = record {
    reason = q;
    devices = refl;
    households = refl;
    children = refl;
    child_sets = refl;
    desired = refl;
    tripwires = refl;
    tables = refl;
    enrollments = inr (id, refl);
    keys = inl refl;
  }

  after_reissue-Spares :
      (id : ℕ) (key : ApiKey) (db : AccessDb) (i : Issued)
      → Leaves db.keys i
      → Spares db (after_reissue create publish now key (count_attempt_of id db) i)
  after_reissue-Spares id key db (committed after response) l = tt
  after_reissue-Spares id key db (rolled_back r) (as_before q e m) = record {
    reason = q;
    devices = refl;
    households = refl;
    children = refl;
    child_sets = refl;
    desired = refl;
    tripwires = refl;
    tables = refl;
    enrollments = inr (id, refl);
    keys = inl e;
  }
  after_reissue-Spares id key db (rolled_back r) (one_more k u e m n) = record {
    reason = rw u crash;
    devices = refl;
    households = refl;
    children = refl;
    child_sets = refl;
    desired = refl;
    tripwires = refl;
    tables = refl;
    enrollments = inr (id, refl);
    keys = inr (u, (k, e));
  }

  reissue-Spares :
      (row : Enrolment) (key : ApiKey) (body : IssueBody) (id : ℕ) (db : AccessDb)
      → Spares db (reissue create publish now row key body (count_attempt_of id db))
  unfolding reissue
  reissue-Spares row key body id db =
      after_reissue-Spares id key db _ (issue-Leaves create publish now law row.device_id body _)

  reissue_if-Spares :
      (row : Enrolment) (body : IssueBody) (o : Option ApiKey) (id : ℕ) (db : AccessDb)
      → Spares db (reissue_if create publish now row body o (count_attempt_of id db))
  unfolding is_pre_credential
  reissue_if-Spares row body none id db = counted _ id db (expected enrol_code_consumed refl)
  reissue_if-Spares row body (some key) id db =
      if-holds (Spares db)
        (is_hardware row.consumed_hardware_uuid body.hardware_uuid
          && (ltb now row.expires_at && never_used key))
        {x = reissue create publish now row key body (count_attempt_of id db)}
        {y = problem_answer create publish now enrol_code_consumed (count_attempt_of id db)}
        (reissue-Spares row key body id db)
        (counted (problem enrol_code_consumed by_status) id db (expected _ refl))

  -- What is refused after the attempt is counted, or else done.
  unless-Spares :
      (c : Bool) (key : ProblemKey) (id : ℕ) (db : AccessDb)
      (r : AccessDb × Answer EnrolmentResponse)
      → is_pre_credential key ≡ true
      → Spares db r
      → Spares db (if c then problem_answer create publish now key (count_attempt_of id db) else r)
  unless-Spares c key id db r q h =
      if-holds (Spares db) c {x = problem_answer create publish now key (count_attempt_of id db)}
        (counted (problem key by_status) id db (expected key q)) h

  reject_row-Spares :
      (o : Option Enrolment) (body : IssueBody) (db : AccessDb)
      → Spares db (reject_row create publish now o body db)
  unfolding is_pre_credential
  reject_row-Spares none body db = same _ db (expected _ refl)
  reject_row-Spares (some row) body db =
      let o = device_key create publish now row.device_id (count_attempt_of row.id db) in
      let r = reissue_if create publish now row body o (count_attempt_of row.id db) in
      let last =
        if not (is_some row.consumed_at)
        then problem_answer create publish now enrol_code_consumed (count_attempt_of row.id db)
        else r in
      unless-Spares (leb max_enrolment_attempts (row.attempts + 1)) enrol_code_consumed row.id db
        (if leb row.expires_at now
          then problem_answer create publish now enrol_code_expired (count_attempt_of row.id db)
          else last)
        refl
        (unless-Spares (leb row.expires_at now) enrol_code_expired row.id db last refl (
          unless-Spares (not (is_some row.consumed_at)) enrol_code_consumed row.id db r refl
            (reissue_if-Spares row body o row.id db)))

  enroll_claimed-Spares :
      (o : Option Enrolment) (h : Text) (ip : Option String) (body : IssueBody) (db : AccessDb)
      → Spares db (enroll_claimed create publish now o h ip body db)
  unfolding reject_or_reissue
  enroll_claimed-Spares none h ip body db =
      reject_row-Spares (find (λ e. text_eq e.code_hash h) db.enrollments) body db
  enroll_claimed-Spares (some row) h ip body db =
      after_claim-Spares db _ (issue-Leaves create publish now law row.device_id body _)

  module _ (upper : ℕ → Text) (hash : Text → Text) where
    enroll_normalised-Spares :
        (o : Option Text) (parsed : Option IssueBody) (ip : Option String) (db : AccessDb)
        → Spares db (enroll_normalised create publish now upper hash o parsed ip db)
    unfolding enroll_code is_pre_credential
    enroll_normalised-Spares none parsed ip db = same _ db (expected _ refl)
    enroll_normalised-Spares (some code) none ip db = same _ db (expected _ refl)
    enroll_normalised-Spares (some code) (some body) ip db =
        enroll_claimed-Spares _ (hash code) ip body db

    enroll_raw-Spares :
        (o : Option Text) (parsed : Option IssueBody) (ip : Option String) (db : AccessDb)
        → Spares db (enroll_raw create publish now upper hash o parsed ip db)
    unfolding is_pre_credential
    enroll_raw-Spares none parsed ip db = same _ db (expected _ refl)
    enroll_raw-Spares (some typed) parsed ip db = enroll_normalised-Spares _ parsed ip db

    -- Where the plugin gives each key a row and an id of its own, a request that is refused leaves the
    -- devices, the households, the tripwires and the tables of policies as they were, and the codes too
    -- but for the count of attempts of one of them. The keys are those of before, and where the answer
    -- is an unexpected error possibly one key more. It is refused with a problem of enrolment, or that error.
    pub enroll-IsUntouched :
        (request : Option (Option Text × Option IssueBody)) (ip : Option String) (db : AccessDb)
        → Spares db (enroll create publish now upper hash request ip db)
    unfolding enroll is_pre_credential
    enroll-IsUntouched none ip db = same _ db (expected _ refl)
    enroll-IsUntouched (some (typed, parsed)) ip db = enroll_raw-Spares typed parsed ip db
