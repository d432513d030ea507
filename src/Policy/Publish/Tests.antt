-- ===== src/Policy/Publish/Tests.antt =====
-- apps/api/src/policy/publish.ts and apps/api/src/jobs/recompile.ts: runs on one device.
use homeparentcontrol.Prelude.{
  ℕ, ◌≡◌, ◌+◌, ◌<◌, refl, List, [], ◌∷◌, Option, none, some, true, false, All,
}
use homeparentcontrol.Prelude.Query.{latest_by}
use homeparentcontrol.Policy.Synthesise.{synthesise, from_holiday}
use homeparentcontrol.Policy.{Text, CompilerInput}
use homeparentcontrol.Policy.Tests.{utc, first_part, no_longer, household}
use homeparentcontrol.Policy.Canonical.{etag_for}
use homeparentcontrol.Policy.Document.{PolicyDocument, compile_policy, overrides_of}
use homeparentcontrol.Policy.Publish.{
  PublishResult, schedule_edit, override, Tables, PolicyVersion, published, unchanged, content,
  current_of, version_or_zero, etag_of, publish_policy, publish_document, store, content_hash,
}
use homeparentcontrol.Policy.Publish.Versions.{publish, publish_new_version, publish_again}
use homeparentcontrol.Policy.Publish.Recompile.{RecompileDevice}

abbrev compile : CompilerInput → PolicyDocument
compile input = compile_policy utc first_part no_longer input

-- Every document passes the schema.
abbrev parse : PolicyDocument → Option PolicyDocument
parse doc = some doc

abbrev digest : PolicyDocument → Text
digest doc = doc.warn_after_s ∷ []

abbrev sign : PolicyDocument → Option Text
sign doc = none

abbrev gather : ℕ → Tables → Option CompilerInput
gather id db = some household

abbrev one_device : Tables
one_device = record { devices = record { id = 1; policy_set_id = none } ∷ []; versions = [] }

abbrev first_etag : Text
first_etag = etag_for (86400 ∷ []) 1

abbrev retired : List RecompileDevice
retired = record { id = 1; decommissioned = true } ∷ record { id = 2; decommissioned = false } ∷ []

abbrev first_run : Tables × PublishResult
first_run = publish compile parse digest sign 1 schedule_edit none (some household) one_device

first_version : first_run.1 ≡ published 1 first_etag (86400 ∷ [])
unfolding publish_policy publish_document latest_by store content_hash content compile_policy
first_version = refl

publish_new_version_example :
    (1 ≡ version_or_zero (current_of 1 one_device.versions) + 1)
    × All (λ r. r.device_id ≡ 1 → r.version < 1) one_device.versions
    × (version_or_zero (current_of 1 first_run.0.versions) ≡ 1)
    × ((r : PolicyVersion) × (first_run.0.versions ≡ r ∷ one_device.versions)
        × (r.device_id ≡ 1)
        × (r.etag ≡ etag_for r.document_hash 1))
publish_new_version_example =
    publish_new_version compile parse digest sign 1 schedule_edit none (some household) one_device 1
      first_etag (86400 ∷ []) first_version

publish_again_example :
    let after =
      (publish compile parse digest sign 1 schedule_edit none (some household) one_device).0 in
    publish compile parse digest sign 1 override none
      (some (record household { next_version = 2 }))
      after
    ≡ (
      after,
      unchanged
          (version_or_zero (current_of 1 after.versions))
          (etag_of (current_of 1 after.versions)),
    )
unfolding content compile_policy overrides_of synthesise from_holiday
publish_again_example =
    publish_again compile parse digest sign 1 schedule_edit override none none household
      (record household { next_version = 2 }) (compile household)
      (compile (record household { next_version = 2 })) one_device refl refl refl refl
