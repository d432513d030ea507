-- ===== src/Access/Resolver.antt =====
-- apps/api/src/routes/agent.ts: which device a credential is, and what that device may do. The session
-- is the key that the request was authenticated with. The permissions of a key are the scopes that its
-- column lists, none where the column does not read, and absent where there is no column.
pub mod Decommission
use homeparentcontrol.Prelude.{
  ℕ, ◌≡◌, ◌≢◌, String, Bool, true, false, ◌&&◌, ◌||◌, not, List, [], ◌∷◌, Option, none, some, leb,
  ◌==◌, str_eq, if◌then◌else◌, find, filter, any, is_some,
}
use homeparentcontrol.Policy.{Text}
use homeparentcontrol.Policy.Publish.{Tables, PolicyVersion, current_of, text_eq}
use homeparentcontrol.Access.{DeviceStatus, AccessDevice, ApiKey, AccessDb, is_decommissioned}
use homeparentcontrol.Access.Problems.{
  Problem, problem, by_status, chosen, decommission, Answer, answered, refused, scope_violation,
  unauthorized, device_revoked, policy_not_found,
}
use homeparentcontrol.Access.Enrol.{is_key}
use homeparentcontrol.Access.Rotation.{is_after}

abbrev pub has_permission : Option (List String) → String → Bool
has_permission none needed = true
has_permission (some scopes) needed = any (λ s. str_eq s needed) scopes

pub record ResolverOptions : Type 0 where
  pub allow_decommissioned : Bool
  pub permission : Option String

-- The four resolvers.
abbrev pub require_device : ResolverOptions
require_device = record { allow_decommissioned = false; permission = none }

abbrev pub require_sync_scope : ResolverOptions
require_sync_scope = record { allow_decommissioned = false; permission = some "sync" }

abbrev pub require_policy_scope : ResolverOptions
require_policy_scope = record { allow_decommissioned = false; permission = some "policy:read" }

abbrev pub require_device_for_telemetry : ResolverOptions
require_device_for_telemetry = record {
  allow_decommissioned = true;
  permission = some "events:write";
}

abbrev pub is_some_id : Option ℕ → ℕ → Bool
is_some_id none id = false
is_some_id (some k) id = k == id

-- The current key, or the one before inside of its overlap.
unfoldable pub is_bound : ℕ → ℕ → AccessDevice → Bool
is_bound now key_id d =
    is_some_id d.api_key_id key_id
    || (is_some_id d.previous_api_key_id key_id && is_after d.previous_expires_at now)

-- The device and the household that a handler gets.
pub record Resolved : Type 0 where
  pub device_id : ℕ
  pub household_id : ℕ

abbrev pub lacks_permission : ResolverOptions → ApiKey → Bool
lacks_permission opts key = elim opts.permission [
  | none ↦ false
  | some needed ↦ not (has_permission key.permissions needed)
]

abbrev pub admit : ResolverOptions → ApiKey → Option AccessDevice → Answer Resolved
admit opts key none = refused (problem scope_violation by_status)
admit opts key (some d) =
    if lacks_permission opts key
    then refused (problem scope_violation by_status)
    else if is_decommissioned d.status && not opts.allow_decommissioned
    then refused (problem device_revoked (chosen (some decommission)))
    else answered (record { device_id = d.id; household_id = d.household_id })

abbrev pub resolve_key : ℕ → ResolverOptions → Option ApiKey → AccessDb → Answer Resolved
resolve_key now opts none db = refused (problem scope_violation by_status)
resolve_key now opts (some key) db = admit opts key (find (is_bound now key.id) db.devices)

-- deviceResolver.
unfoldable pub resolve_device : ℕ → ResolverOptions → Option ℕ → AccessDb → Answer Resolved
resolve_device now opts none db = refused (problem unauthorized by_status)
resolve_device now opts (some session_id) db =
    resolve_key now opts (find (is_key (some session_id)) db.keys) db

-- `GET /policy`: not modified, or the version.
pub data PolicyAnswer : Type 0 where
  not_modified : Text → PolicyAnswer
  policy_of : PolicyVersion → PolicyAnswer

abbrev pub is_match : Option Text → Text → Bool
is_match none etag = false
is_match (some t) etag = text_eq t etag

abbrev pub policy_if : Option Text → Option PolicyVersion → Answer PolicyAnswer
policy_if if_none_match none = refused (problem policy_not_found by_status)
policy_if if_none_match (some v) =
    answered (if is_match if_none_match v.etag then not_modified v.etag else policy_of v)

unfoldable pub get_policy : ℕ → ℕ → Option Text → Tables → Answer PolicyAnswer
get_policy now device_id if_none_match t =
    policy_if if_none_match (current_of device_id (filter (λ v. leb v.not_before now) t.versions))
