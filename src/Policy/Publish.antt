-- ===== src/Policy/Publish.antt =====
-- apps/api/src/policy/publish.ts and apps/api/src/jobs/recompile.ts: compile a device's policy and
-- store it, unless nothing changed.
-- `createHash` over the canonical JSON of a document is the parameter `digest`; the schema check that
-- ends `compilePolicy` is `parse`, and signing, if a key is configured, is `sign`. What
-- `gatherCompilerInput` reads is an argument, `none` where it throws. A transaction that throws
-- leaves the tables as they were.
pub mod Versions
pub mod Recompile
mod Tests
use homeparentcontrol.Prelude.{
  ℕ, ◌+◌, ◌≤◌, ◌<◌, String, Bool, true, false, not, ◌&&◌, List, [], ◌∷◌, Option, none, some, map,
  ◌==◌, if◌then◌else◌, str_eq, any,
}
use homeparentcontrol.Prelude.Query.{latest_by}
use homeparentcontrol.Policy.{Text, CompilerInput, PolicySetInput}
use homeparentcontrol.Policy.Canonical.{etag_for}
use homeparentcontrol.Policy.Document.{PolicyDocument}

pub data PublishReason : Type 0 where
  schedule_edit override calendar restore enrol : PublishReason

-- A row of policy_versions.
pub record PolicyVersion : Type 0 where
  pub device_id : ℕ
  pub version : ℕ
  pub document : PolicyDocument
  pub document_hash : Text
  pub jws : Option Text
  pub etag : Text
  pub issued_at : ℕ
  pub not_before : ℕ
  pub published_by : Option String
  pub publish_reason : PublishReason

-- The columns of `devices` that are read and written here.
pub record PublishDevice : Type 0 where
  pub id : ℕ
  pub policy_set_id : Option String

pub record Tables : Type 0 where
  pub devices : List PublishDevice
  pub versions : List PolicyVersion

pub data PublishResult : Type 0 where
  unchanged : ℕ → Text → PublishResult
  published : ℕ → Text → Text → PublishResult
  failed : PublishResult

-- The three fields of the envelope, which are not hashed.
unfoldable pub content : PolicyDocument → PolicyDocument
content doc = record doc { policy_version = 0; issued_at = 0; not_before = 0 }

abbrev pub set_policy_set : ℕ → String → PublishDevice → PublishDevice
set_policy_set id set d = if d.id == id then record d { policy_set_id = some set } else d

unfoldable pub text_eq : Text → Text → Bool
text_eq [] [] = true
text_eq (a ∷ xs) (b ∷ ys) = (a == b) && text_eq xs ys
text_eq _ _ = false

-- The device's current version: the row with the greatest version.
abbrev pub current_of : ℕ → List PolicyVersion → Option PolicyVersion
current_of device_id rows = latest_by (λ r. r.device_id == device_id) (λ r. r.version) rows

abbrev pub version_or_zero : Option PolicyVersion → ℕ
version_or_zero none = 0
version_or_zero (some r) = r.version

abbrev pub has_hash : Option PolicyVersion → Text → Bool
has_hash none hash = false
has_hash (some r) hash = text_eq r.document_hash hash

abbrev pub etag_of : Option PolicyVersion → Text
etag_of none = []
etag_of (some r) = r.etag

module _ (compile : CompilerInput → PolicyDocument) (parse : PolicyDocument → Option PolicyDocument)
    (digest : PolicyDocument → Text) (sign : PolicyDocument → Option Text) where
  unfoldable pub content_hash : PolicyDocument → Text
  content_hash doc = digest (content doc)

  -- The insert, and the update of the device's row.
  unfoldable pub store :
      ℕ
      → PublishReason
      → Option String
      → CompilerInput
      → PolicyDocument
      → ℕ
      → Tables
      → Tables × PublishResult
  store device_id reason by input doc version db =
      let hash = content_hash doc in
      let etag = etag_for hash version in
      (
        record {
          versions =
              record {
                device_id = device_id;
                version = version;
                document = doc;
                document_hash = hash;
                jws = sign doc;
                etag = etag;
                issued_at = input.now;
                not_before = input.now;
                published_by = by;
                publish_reason = reason;
              }
              ∷ db.versions;
          devices = map (set_policy_set device_id input.policy_set.id) db.devices;
        },
        published version etag hash,
      )

  -- A compiled document, against the current version.
  unfoldable pub publish_document :
      ℕ
      → PublishReason
      → Option String
      → CompilerInput
      → PolicyDocument
      → Tables
      → Tables × PublishResult
  publish_document device_id reason by input doc db =
      let current = current_of device_id db.versions in
      if has_hash current (content_hash doc)
      then (db, unchanged (version_or_zero current) (etag_of current))
      else store device_id reason by input doc (version_or_zero current + 1) db

  unfoldable pub publish_policy :
      ℕ → PublishReason → Option String → Option CompilerInput → Tables → Tables × PublishResult
  publish_policy device_id reason by gathered db =
      if any (λ d. d.id == device_id) db.devices
      then elim gathered [
        | none ↦ (db, failed)
        | some input ↦ elim (parse (compile input)) [
          | none ↦ (db, failed)
          | some doc ↦ publish_document device_id reason by input doc db
        ]
      ]
      else (db, failed)
