-- ===== src/Access/Enrol/Leaving.antt =====
-- apps/api/src/routes/enroll.ts: what a transaction leaves in the table of keys when it rolls back.
use homeparentcontrol.Prelude.{
  ℕ, ◌≡◌, ◌≢◌, refl, sym, ap, true, List, ◌∷◌, Option, none, some, any, All, inl, inr, Bool-cases,
  Option-cases,
}
use homeparentcontrol.Policy.Publish.{Tables, PublishResult}
use homeparentcontrol.Access.{AccessDevice, Household, ApiKey, AccessDb}
use homeparentcontrol.Access.Problems.{
  enrol_code_unknown, device_already_registered, is_pre_credential, ProblemKey, Problem, problem,
  unexpected, by_status,
}
use homeparentcontrol.Access.Keys.{CreateApiKey, MintedDeviceKey, mint_device_key, Creates}
use homeparentcontrol.Access.Enrol.{
  IssueBody, is_holder, Rollback, Issued, committed, rolled_back, is_failed, issue_published,
  issue_minted, issue_to, issue_device, issue,
}

-- The problems that a request can be refused with: those of enrolment, or an unexpected error.
pub data IsEnrolProblem : Problem → Type 0 where
  crash : IsEnrolProblem unexpected
  expected :
      (key : ProblemKey) → is_pre_credential key ≡ true → IsEnrolProblem (problem key by_status)

-- The keys that a transaction leaves which rolls back: those of before, and the minted one if any.
pub data KeysLeft (keys : List ApiKey) (r : Rollback) : Type 0 where
  as_before : IsEnrolProblem r.reason → r.keys ≡ keys → r.minted ≡ none → KeysLeft keys r
  one_more :
      (k : ApiKey)
      → r.reason ≡ unexpected
      → r.keys ≡ k ∷ keys
      → r.minted ≡ some k.id
      → All (λ x. x.id ≢ k.id) keys
      → KeysLeft keys r

abbrev pub Leaves : List ApiKey → Issued → Type 0
Leaves keys (committed db r) = Unit
Leaves keys (rolled_back r) = KeysLeft keys r

module _ (create : CreateApiKey) (publish : ℕ → Tables → Tables × PublishResult) (now : ℕ)
    (law : Creates create) where
  issue_published-Leaves :
      (d : AccessDevice) (body : IssueBody) (m : MintedDeviceKey) (db : AccessDb)
      (keys : List ApiKey) (k : ApiKey)
      → k.id ≡ m.key_id
      → db.keys ≡ k ∷ keys
      → All (λ x. x.id ≢ k.id) keys
      → (r : Tables × PublishResult)
      → Leaves keys (issue_published create publish now d body m db r)
  issue_published-Leaves d body m db keys k i e n (tables, result) =
      elim (Bool-cases (is_failed result)) [
        | inl f ↦ rw f (one_more k refl e (ap some (sym i)) n)
        | inr f ↦ rw f tt
      ]

  issue_minted-Leaves :
      (d : AccessDevice) (body : IssueBody) (db : AccessDb) (user : ℕ)
      (o : Option (MintedDeviceKey × List ApiKey))
      → mint_device_key create user d.id d.household_id d.label db.keys ≡ o
      → Leaves db.keys (issue_minted create publish now d body db o)
  unfolding mint_device_key
  issue_minted-Leaves d body db user none e = as_before crash refl refl
  issue_minted-Leaves d body db user (some (m, keys)) e =
      issue_published-Leaves d body m (record db { keys = keys }) db.keys _ refl
        (law.row _ db.keys m keys e) (law.fresh _ db.keys m keys e) (publish d.id db.tables)

  issue_to-Leaves :
      (d : AccessDevice) (body : IssueBody) (h : Option Household) (db : AccessDb)
      → Leaves db.keys (issue_to create publish now d body h db)
  issue_to-Leaves d body none db = as_before crash refl refl
  issue_to-Leaves d body (some h) db = elim (Option-cases h.service_user_id) [
    | inl e ↦ rw e (as_before crash refl refl)
    | inr (user, e) ↦ rw e (issue_minted-Leaves d body _ user _ refl)
  ]

  issue_device-Leaves :
      (o : Option AccessDevice) (body : IssueBody) (db : AccessDb)
      → Leaves db.keys (issue_device create publish now o body db)
  unfolding is_pre_credential
  issue_device-Leaves none body db = as_before (expected enrol_code_unknown refl) refl refl
  issue_device-Leaves (some d) body db =
      elim (Bool-cases (any (is_holder d.id body.hardware_uuid) db.devices)) [
        | inl e ↦ rw e (as_before (expected device_already_registered refl) refl refl)
        | inr e ↦ rw e (issue_to-Leaves d body _ db)
      ]

  pub issue-Leaves :
      (id : ℕ) (body : IssueBody) (db : AccessDb)
      → Leaves db.keys (issue create publish now id body db)
  unfolding issue
  issue-Leaves id body db = issue_device-Leaves _ body db
