-- ===== src/Access/Lifecycle/Committing.antt =====
-- apps/api/src/routes/enroll.ts: what a transaction commits is lawful.
use homeparentcontrol.Prelude.{
  ℕ, ◌≡◌, refl, subst, false, List, Option, none, some, arith, ◌==◌, find, any, inl, inr,
  Bool-cases, Option-cases, All-find,
}
use homeparentcontrol.Policy.Publish.{Tables, PublishResult}
use homeparentcontrol.Access.{AccessDevice, Household, ApiKey, AccessDb}
use homeparentcontrol.Access.Keys.{CreateApiKey, MintedDeviceKey}
use homeparentcontrol.Access.Enrol.{
  IssueBody, is_holder, Issued, committed, rolled_back, is_failed, issue_published, issue_minted,
  issue_to, issue_device, issue,
}
use homeparentcontrol.Access.Lifecycle.Codes.{open_codes}
use homeparentcontrol.Access.Lifecycle.Devices.{IsFit, AreLawful}
use homeparentcontrol.Access.Lifecycle.Registration.{register-AreLawful}

abbrev pub IsLawful : AccessDb → Type 0
IsLawful db = AreLawful db.enrollments db.devices

-- What a transaction commits is lawful.
abbrev pub Commits : Issued → Type 0
Commits (committed db response) = IsLawful db
Commits (rolled_back r) = Unit

module _ (create : CreateApiKey) (publish : ℕ → Tables → Tables × PublishResult) (now : ℕ) where
  issue_published-Commits :
      (d : AccessDevice) (body : IssueBody) (m : MintedDeviceKey) (db : AccessDb)
      → open_codes d.id db.enrollments ≡ 0
      → any (is_holder d.id body.hardware_uuid) db.devices ≡ false
      → IsLawful db
      → (r : Tables × PublishResult) → Commits (issue_published create publish now d body m db r)
  issue_published-Commits d body m db o h l (tables, result) =
      elim (Bool-cases (is_failed result)) [
        | inl f ↦ rw f tt
        | inr f ↦ rw f (register-AreLawful d.id m.key_id body db.enrollments db.devices o h l)
      ]

  issue_minted-Commits :
      (d : AccessDevice) (body : IssueBody) (db : AccessDb)
      → open_codes d.id db.enrollments ≡ 0
      → any (is_holder d.id body.hardware_uuid) db.devices ≡ false
      → IsLawful db
      → (o : Option (MintedDeviceKey × List ApiKey))
      → Commits (issue_minted create publish now d body db o)
  issue_minted-Commits d body db o h l none = tt
  issue_minted-Commits d body db o h l (some (m, keys)) =
      issue_published-Commits d body m (record db { keys = keys }) o h l (publish d.id db.tables)

  issue_to-Commits :
      (d : AccessDevice) (body : IssueBody) (household : Option Household) (db : AccessDb)
      → open_codes d.id db.enrollments ≡ 0
      → any (is_holder d.id body.hardware_uuid) db.devices ≡ false
      → IsLawful db
      → Commits (issue_to create publish now d body household db)
  issue_to-Commits d body none db o h l = tt
  issue_to-Commits d body (some household) db o h l =
      elim (Option-cases household.service_user_id) [
        | inl e ↦ rw e tt
        | inr (user, e) ↦ rw e (issue_minted-Commits d body _ o h l _)
      ]

  pub issue_device-Commits :
      (x : Option AccessDevice) (body : IssueBody) (id : ℕ) (db : AccessDb)
      → find (λ d. d.id == id) db.devices ≡ x
      → open_codes id db.enrollments ≡ 0
      → IsLawful db
      → Commits (issue_device create publish now x body db)
  issue_device-Commits none body id db e o l = tt
  issue_device-Commits (some d) body id db e o l =
      elim (Bool-cases (any (is_holder d.id body.hardware_uuid) db.devices)) [
        | inl h ↦ rw h tt
        | inr h ↦
            let hit = (All-find (IsFit db.enrollments) (λ d. d.id == id) db.devices d l.fit e).0 in
            let same : id ≡ d.id = ground arith in
            rw h (
              issue_to-Commits d body _ db (subst (λ t. open_codes t db.enrollments ≡ 0) same o) h
                l)
      ]

  pub issue-Commits :
      (id : ℕ) (body : IssueBody) (db : AccessDb)
      → open_codes id db.enrollments ≡ 0
      → IsLawful db
      → Commits (issue create publish now id body db)
  unfolding issue
  issue-Commits id body db o l = issue_device-Commits _ body id db refl o l
