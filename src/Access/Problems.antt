-- ===== src/Access/Problems.antt =====
-- apps/api/src/lib/problem.ts and packages/contract/src/problem.ts: every problem that an agent's
-- route can answer, and what it tells the agent to do. The text of a detail is left out.
use homeparentcontrol.Prelude.{
  ℕ, ◌≢◌, String, Bool, true, false, Option, none, some, ◌==◌, if◌then◌else◌, arith,
}

pub data HpcAction : Type 0 where
  drop_batch halt_sync_keep_enforcing reenroll decommission halve_batch drop_event upgrade_required
        backoff :
      HpcAction

-- ACTION_BY_STATUS.
unfoldable pub action_by_status : ℕ → Option HpcAction
action_by_status s =
    if s == 400
    then some drop_batch
    else if s == 401
    then some halt_sync_keep_enforcing
    else if s == 403
    then some halt_sync_keep_enforcing
    else if s == 409
    then some reenroll
    else if s == 410
    then some decommission
    else if s == 413
    then some halve_batch
    else if s == 422
    then some drop_event
    else if s == 426
    then some upgrade_required
    else if s == 429
    then some backoff
    else none

pub data ProblemKey : Type 0 where
  enrol_code_unknown enrol_code_expired enrol_code_consumed enrol_invalid
        device_already_registered :
      ProblemKey
  unauthorized device_revoked scope_violation policy_not_found malformed payload_too_large
        rate_limited rotation_in_progress internal :
      ProblemKey

-- PROBLEMS.
abbrev pub slug_of : ProblemKey → String
slug_of enrol_code_unknown = "enrolment-code-unknown"
slug_of enrol_code_expired = "enrolment-code-expired"
slug_of enrol_code_consumed = "enrolment-code-consumed"
slug_of enrol_invalid = "enrolment-invalid"
slug_of device_already_registered = "device-already-registered"
slug_of unauthorized = "device-unauthorized"
slug_of device_revoked = "device-revoked"
slug_of scope_violation = "scope-violation"
slug_of policy_not_found = "policy-not-found"
slug_of malformed = "malformed-request"
slug_of payload_too_large = "batch-too-large"
slug_of rate_limited = "rate-limited"
slug_of rotation_in_progress = "rotation-in-progress"
slug_of internal = "internal-error"

unfoldable pub status_of : ProblemKey → ℕ
status_of enrol_code_unknown = 404
status_of enrol_code_expired = 410
status_of enrol_code_consumed = 409
status_of enrol_invalid = 400
status_of device_already_registered = 409
status_of unauthorized = 401
status_of device_revoked = 401
status_of scope_violation = 403
status_of policy_not_found = 404
status_of malformed = 400
status_of payload_too_large = 413
status_of rate_limited = 429
status_of rotation_in_progress = 409
status_of internal = 500

-- PRE_CREDENTIAL_PROBLEMS.
unfoldable pub is_pre_credential : ProblemKey → Bool
is_pre_credential enrol_code_unknown = true
is_pre_credential enrol_code_expired = true
is_pre_credential enrol_code_consumed = true
is_pre_credential enrol_invalid = true
is_pre_credential device_already_registered = true
is_pre_credential _ = false

-- What a handler asks for: what the status says, or an action (or none) of its own.
pub data ActionChoice : Type 0 where
  by_status : ActionChoice
  chosen : Option HpcAction → ActionChoice

-- `ProblemError`; an error of any other kind is `unexpected`.
pub data Problem : Type 0 where
  problem : ProblemKey → ActionChoice → Problem
  unexpected : Problem

pub record ProblemDocument : Type 0 where
  pub slug : String
  pub status : ℕ
  pub hpc_action : Option HpcAction

unfoldable pub action_of : ProblemKey → ActionChoice → Option HpcAction
action_of key (chosen a) = a
action_of key by_status = if is_pre_credential key then none else action_by_status (status_of key)

unfoldable pub build_problem : ProblemKey → ActionChoice → ProblemDocument
build_problem key choice = record {
  slug = slug_of key;
  status = status_of key;
  hpc_action = action_of key choice;
}

-- The handler of errors of both agent instances.
unfoldable pub agent_on_error : Problem → ProblemDocument
agent_on_error (problem key choice) = build_problem key choice
agent_on_error unexpected = build_problem internal (chosen (some backoff))

-- A value, or a problem.
pub data Answer (A : Type 0) : Type 0 where
  answered : A → Answer A
  refused : Problem → Answer A

-- No problem carries `decommission` unless its handler chose it.
pub action_by_status-ne-decommission :
    (key : ProblemKey) → action_of key by_status ≢ some decommission
unfolding action_of is_pre_credential action_by_status status_of
action_by_status-ne-decommission enrol_code_unknown = λ e. ground (arith, e)
action_by_status-ne-decommission _ = λ e. ground (arith, e)
