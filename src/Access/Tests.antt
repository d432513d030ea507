-- ===== src/Access/Tests.antt =====
-- A household with one child, whose Mac is set up with a code, on a plugin that gives each key a number.
use homeparentcontrol.Prelude.{
  ℕ, map, ap, sym, ◌∙◌, subst, get_or, ◌+◌, ◌-◌, ◌≤◌, ◌<◌, ◌≡◌, ◌≢◌, refl, String, Bool, true,
  false, ◌&&◌, List, [], ◌∷◌, Option, none, some, arith, leb, if◌then◌else◌, All, All-map_imp,
}
use homeparentcontrol.Policy.{Text}
use homeparentcontrol.Policy.Publish.{Tables, PublishResult, unchanged, failed, text_eq}
use homeparentcontrol.Access.{
  active, decommissioned, enrolled, pending, AccessDevice, ApiKey, Enrolment, AccessDb,
}
use homeparentcontrol.Access.Codes.{
  is_crockford, display, generate_enrolment_code, normalise_enrolment_code,
}
use homeparentcontrol.Access.Codes.RoundTrip.{normalise-generate, normalise_again}
use homeparentcontrol.Access.Keys.{
  KeyRequest, MintedDeviceKey, CreateApiKey, key_row, Creates, mint_device_key, device_permissions,
}
use homeparentcontrol.Access.Problems.{refused, problem, device_revoked, chosen, decommission}
use homeparentcontrol.Access.Enrol.{
  IssueBody, enroll, enroll_code, reject_or_reissue, reissue, issue,
}
use homeparentcontrol.Access.Ending.{revoke_action, end_credential, end_device}
use homeparentcontrol.Access.Enrol.Errors.{Spares, enroll-IsUntouched}
use homeparentcontrol.Access.Enrol.Single.{is_refused}
use homeparentcontrol.Access.Enrol.Once.{enroll_code_once}
use homeparentcontrol.Access.Resolver.{require_sync_scope, resolve_device, is_bound}
use homeparentcontrol.Access.Resolver.Decommission.{
  Stops, IsDecommissioned, resolve_device-Stops, Waits, enroll_hpc_action,
}
use homeparentcontrol.Access.Rotation.{rotate, close_expired_rotations, close_rows}
use homeparentcontrol.Access.Rotation.Overlap.{Overlaps, rotate-Overlaps}
use homeparentcontrol.Access.Rotation.Closing.{AreClosed, close_expired_rotations-AreClosed}
use homeparentcontrol.Access.Setup.{create_device, issue_code}
use homeparentcontrol.Access.Lifecycle.Codes.{open_codes}
use homeparentcontrol.Access.Lifecycle.Committing.{IsLawful}
use homeparentcontrol.Access.Lifecycle.Renewing.{IsFresh}
use homeparentcontrol.Access.Lifecycle.Observing.{tick_device, ticked_status}
use homeparentcontrol.Access.Lifecycle.Steps.{
  device_created, enrolment_requested, device_ticked, fresh_tables, after_step, Reachable-AreLawful,
}

-- A number that no key has.
abbrev next_key : List ApiKey → ℕ
next_key [] = 1
next_key (k ∷ keys) = k.id + next_key keys

abbrev numbered : CreateApiKey
numbered r keys =
    some
      (record { token = "hpc_dk_secret"; key_id = next_key keys }, key_row r (next_key keys) ∷ keys)

next_key-above : (keys : List ApiKey) → All (λ k. k.id < next_key keys) keys × (1 ≤ next_key keys)
next_key-above [] = (tt, omega arith)
next_key-above (k ∷ keys) =
    let rest = next_key-above keys in
    let above = rest.1 in ((omega arith, All-map_imp (λ x h. omega arith) keys rest.0), omega arith)

less-ne : (a b : ℕ) → a < b → a ≢ b
less-ne a b h = ground (arith, h)

made :
    (r : KeyRequest) (keys : List ApiKey) (m : MintedDeviceKey) (after : List ApiKey)
    → numbered r keys ≡ some (m, after)
    → (next_key keys ≡ m.key_id) × (key_row r (next_key keys) ∷ keys ≡ after)
made r keys m after e = (
  ap (λ o. (get_or {A = MintedDeviceKey × List ApiKey} o (m, after)).0.key_id) e,
  ap (λ o. (get_or {A = MintedDeviceKey × List ApiKey} o (m, after)).1) e,
)

numbered-Creates : Creates numbered
numbered-Creates = record {
  row = λ r keys m after e.
      sym (made r keys m after e).1 ∙ ap (λ i. key_row r i ∷ keys) (made r keys m after e).0;
  fresh = λ r keys m after e.
      subst (λ i. All (λ k. k.id ≢ i) keys) (made r keys m after e).0
        (All-map_imp (λ k h. less-ne k.id (next_key keys) h) keys (next_key-above keys).0);
}

-- No policy can be published, and one that did not change.
abbrev publish_fails : ℕ → Tables → Tables × PublishResult
publish_fails id t = (t, failed)

abbrev publish_unchanged : ℕ → Tables → Tables × PublishResult
publish_unchanged id t = (t, unchanged 1 [])

-- The capitals of English letters, and a digest that keeps the code.
abbrev capital : ℕ → Text
capital c = if leb 97 c && leb c 122 then (c - 32) ∷ [] else c ∷ []

abbrev same_text : Text → Text
same_text t = t

not_small : (c : ℕ) → is_crockford c ≡ true → (leb 97 c && leb c 122) ≡ false
not_small c h = ground (arith, h)

capital-plain : (c : ℕ) → is_crockford c ≡ true → capital c ≡ c ∷ []
capital-plain c h = rw (not_small c h) refl

abbrev twelve_bytes : List ℕ
twelve_bytes = 20 ∷ 7 ∷ 22 ∷ 19 ∷ 255 ∷ 128 ∷ 64 ∷ 33 ∷ 1 ∷ 0 ∷ 9 ∷ 31 ∷ []

abbrev the_code : Text
the_code = generate_enrolment_code twelve_bytes

normalise-generate_example :
    normalise_enrolment_code capital (generate_enrolment_code twelve_bytes)
    ≡ some (generate_enrolment_code twelve_bytes)
normalise-generate_example = normalise-generate capital capital-plain refl twelve_bytes refl

-- `hpc-k7qm-3ztd 9f2o`, with a letter for the zero.
abbrev typed : Text
typed =
    b'h' ∷ b'p' ∷ b'c' ∷ b'-' ∷ b'k' ∷ b'7' ∷ b'q' ∷ b'm' ∷ b'-' ∷ b'3' ∷ b'z' ∷ b't' ∷ b'd' ∷ b' '
    ∷ b'9' ∷ b'f' ∷ b'2' ∷ b'o' ∷ []

abbrev read_code : Text
read_code =
    display (b'K' ∷ b'7' ∷ b'Q' ∷ b'M' ∷ b'3' ∷ b'Z' ∷ b'T' ∷ b'D' ∷ b'9' ∷ b'F' ∷ b'2' ∷ b'0' ∷ [])

typed_reads : normalise_enrolment_code capital typed ≡ some read_code
unfolding normalise_enrolment_code
typed_reads = refl

normalise_again_example : normalise_enrolment_code capital read_code ≡ some read_code
normalise_again_example = normalise_again capital capital-plain refl typed read_code typed_reads

abbrev mac : AccessDevice
mac = record {
  id = 1;
  household_id = 1;
  child_id = 1;
  policy_set_id = none;
  label = "the mini";
  status = pending;
  hardware_uuid = none;
  api_key_id = none;
  previous_api_key_id = none;
  previous_expires_at = none;
  hostname = none;
  model = none;
  os_version = none;
  arch = none;
  agent_version = none;
}

abbrev code_row : Enrolment
code_row = record {
  id = 1;
  device_id = 1;
  code_hash = read_code;
  expires_at = 1000;
  consumed_at = none;
  consumed_ip = none;
  consumed_hardware_uuid = none;
  reissue_count = 0;
  attempts = 0;
}

abbrev home : AccessDb
home = record {
  enrollments = code_row ∷ [];
  devices = mac ∷ [];
  households = (record { id = 1; service_user_id = some 9 }) ∷ [];
  children = (record { id = 1; household_id = 1; archived_at = none }) ∷ [];
  child_sets = (record { id = 1; child_id = 1; household_id = 1 }) ∷ [];
  desired = [];
  keys = [];
  tripwires = [];
  tables = record { devices = []; versions = [] };
}

abbrev body_of : String → IssueBody
body_of uuid = record {
  hardware_uuid = uuid;
  hostname = some "mini";
  model = none;
  os_version = none;
  arch = none;
  agent_version = none;
}

abbrev request : Option (Option Text × Option IssueBody)
request = some (some typed, some (body_of "A"))

enroll-IsUntouched_example :
    Spares home (enroll numbered publish_fails 100 capital same_text request none home)
enroll-IsUntouched_example =
    enroll-IsUntouched numbered publish_fails 100 numbered-Creates capital same_text request none
      home

enroll_hpc_action_example :
    Waits (enroll numbered publish_fails 100 capital same_text request none home)
enroll_hpc_action_example =
    enroll_hpc_action numbered publish_fails 100 numbered-Creates capital same_text request none
      home

first_answered :
    is_refused (enroll_code numbered publish_unchanged 100 read_code none (body_of "A") home)
    ≡ false
unfolding enroll_code issue mint_device_key text_eq
first_answered = refl

enroll_code_once_example :
    is_refused (
      enroll_code numbered publish_unchanged 200 read_code none
        (body_of "B")
        (enroll_code numbered publish_unchanged 100 read_code none (body_of "A") home).0)
    ≡ true
enroll_code_once_example =
    enroll_code_once numbered publish_unchanged 100 200 read_code none none (body_of "A")
      (body_of "B") home (((λ _ _. refl), tt), tt) first_answered refl

-- The Mac after it left, still with its key.
abbrev its_key : KeyRequest
its_key = record {
  name = "the mini";
  prefix = "hpc_dk_";
  user_id = 9;
  rate_limit_enabled = false;
  device_id = 1;
  household_id = 1;
  permissions = device_permissions;
}

abbrev left_home : AccessDb
left_home = record home {
  devices = (record mac { status = decommissioned; api_key_id = some 7 }) ∷ [];
  keys = key_row its_key 7 ∷ [];
}

left_home_answer :
    resolve_device 100 require_sync_scope (some 7) left_home
    ≡ refused (problem device_revoked (chosen (some decommission)))
unfolding resolve_device is_bound
left_home_answer = refl

resolve_device-Stops_example :
    Stops
      (IsDecommissioned 100 7 require_sync_scope left_home)
      (resolve_device 100 require_sync_scope (some 7) left_home)
resolve_device-Stops_example = resolve_device-Stops 100 require_sync_scope left_home 7

-- A household without devices.
abbrev empty_home : AccessDb
empty_home = record home { enrollments = []; devices = [] }

empty_home-IsFresh : IsFresh 1 empty_home
unfolding open_codes
empty_home-IsFresh = record { devices = tt; codes = refl }

-- A Mac is set up, enrols with its code and ticks.
abbrev created_home : AccessDb
created_home =
    (create_device capital same_text 50 1 1 twelve_bytes 1 (some (1, "the mini")) empty_home).0

abbrev enrolled_home : AccessDb
enrolled_home =
    (enroll numbered publish_unchanged 100 capital same_text
      (some (some the_code, some (body_of "A"))) none created_home).0

abbrev ticked_home : AccessDb
ticked_home = tick_device 1 "1.2.0" "15.0" "arm64" enrolled_home

ticked_is_active : map (λ d. d.status) ticked_home.devices ≡ active ∷ []
unfolding create_device enroll enroll_code issue mint_device_key text_eq reject_or_reissue reissue
    tick_device normalise_enrolment_code generate_enrolment_code issue_code ticked_status
ticked_is_active = refl

Reachable-AreLawful_example : IsLawful ticked_home
Reachable-AreLawful_example = Reachable-AreLawful numbered publish_unchanged capital same_text _ (
    after_step enrolled_home _
      (after_step created_home _
        (after_step empty_home _ (fresh_tables empty_home refl refl)
          (device_created 50 1 1 twelve_bytes 1 (some (1, "the mini")) empty_home-IsFresh))
        (enrolment_requested 100 (some (some the_code, some (body_of "A"))) none))
      (device_ticked 1 "1.2.0" "15.0" "arm64"))

abbrev set_up_home : AccessDb
set_up_home = (enroll_code numbered publish_unchanged 100 read_code none (body_of "A") home).0

-- A request again whose policy cannot be published leaves its key, beside the one of before.
left_key :
    map {B = ℕ × Bool}
      (λ k. (k.id, k.enabled))
      (enroll_code numbered publish_fails 200 read_code none (body_of "A") set_up_home).0.keys
    ≡ (2, true) ∷ (1, true) ∷ []
unfolding enroll_code issue mint_device_key text_eq reject_or_reissue reissue
left_key = refl

-- A Mac that was revoked before it was ever seen comes back with the code that it used.
revoked_comes_back :
    map
      (λ d. d.status)
      (enroll_code numbered publish_unchanged 200 read_code none
        (body_of "A")
        (end_credential revoke_action 1 (some 1) (some "REVOKE") set_up_home).0).0.devices
    ≡ enrolled ∷ []
unfolding enroll_code issue mint_device_key text_eq reject_or_reissue reissue end_credential
    end_device
revoked_comes_back = refl

rotate-Overlaps_example : Overlaps 1 300 set_up_home (rotate numbered 300 1 1 9 true set_up_home)
rotate-Overlaps_example = rotate-Overlaps numbered 300 1 1 9 true set_up_home

-- A day and more after a rotation.
abbrev rotated_home : AccessDb
rotated_home = (rotate numbered 300 1 1 9 true set_up_home).0

rotated_home_keys :
    map {B = ℕ × Bool}
      (λ k. (k.id, k.enabled))
      (close_expired_rotations 90000000 rotated_home).0.keys
    ≡ (2, true) ∷ (1, false) ∷ []
unfolding enroll_code issue mint_device_key text_eq rotate close_expired_rotations close_rows
rotated_home_keys = refl

close_expired_rotations-AreClosed_example :
    AreClosed 90000000 rotated_home (close_expired_rotations 90000000 rotated_home).0
close_expired_rotations-AreClosed_example = close_expired_rotations-AreClosed 90000000 rotated_home
