-- ===== src/Access/Resolver/Decommission.antt =====
-- apps/api/src/routes/agent.ts and apps/api/src/lib/problem.ts: who can be told to stop enforcing.
use homeparentcontrol.Prelude.{
  ℕ, ◌≡◌, refl, subst, String, true, false, ◌&&◌, not, Option, none, some, arith, find, inl, inr,
  ◌⊎◌, Bool-cases, All-find,
}
use mathlib.Core.List.{Memᴰ}
use homeparentcontrol.Policy.{Text}
use homeparentcontrol.Policy.Publish.{Tables, PublishResult}
use homeparentcontrol.Prelude.Members.{All-Memᴰ}
use homeparentcontrol.Access.{AccessDevice, ApiKey, AccessDb, is_decommissioned}
use homeparentcontrol.Access.Problems.{
  decommission, backoff, ProblemKey, Problem, problem, unexpected, by_status, Answer, answered,
  refused, agent_on_error, build_problem, action_of, scope_violation,
  action_by_status-ne-decommission,
}
use homeparentcontrol.Access.Keys.{CreateApiKey, Creates}
use homeparentcontrol.Access.Enrol.{IssueBody, EnrolmentResponse, is_key, enroll}
use homeparentcontrol.Access.Enrol.Leaving.{IsEnrolProblem, crash, expected}
use homeparentcontrol.Access.Enrol.Errors.{Spares, enroll-IsUntouched}
use homeparentcontrol.Access.Resolver.{
  ResolverOptions, Resolved, is_bound, lacks_permission, admit, resolve_key, resolve_device,
}

-- A device that the session is bound to was decommissioned, where the route asks for one that is not.
pub record IsDecommissioned (now session_id : ℕ) (opts : ResolverOptions) (db : AccessDb)
    : Type 0 where
  pub device : AccessDevice
  pub stored : Memᴰ device db.devices
  pub bound : is_bound now session_id device ≡ true
  pub ended : is_decommissioned device.status ≡ true
  pub strict : opts.allow_decommissioned ≡ false

-- What an answer that stops enforcement needs.
abbrev pub Stops : Type 0 → Answer Resolved → Type 0
Stops reason (answered r) = Unit
Stops reason (refused p) = (agent_on_error p).hpc_action ≡ some decommission → reason

by_status-Stops :
    (reason : Type 0) (key : ProblemKey) → Stops reason (refused (problem key by_status))
unfolding agent_on_error build_problem
by_status-Stops reason key e = absurd (action_by_status-ne-decommission key e)

module _ (now : ℕ) (opts : ResolverOptions) (db : AccessDb) where
  admit-Stops :
      (key : ApiKey) (o : Option AccessDevice)
      → find (is_bound now key.id) db.devices ≡ o
      → Stops (IsDecommissioned now key.id opts db) (admit opts key o)
  admit-Stops key none e = by_status-Stops _ scope_violation
  admit-Stops key (some d) e = elim (Bool-cases (lacks_permission opts key)) [
    | inl p ↦ rw p (by_status-Stops _ scope_violation)
    | inr p ↦ elim (Bool-cases (is_decommissioned d.status && not opts.allow_decommissioned)) [
      | inl q ↦
          let hit =
            All-find (λ x. Memᴰ x db.devices) (is_bound now key.id) db.devices d
              (All-Memᴰ db.devices) e in
          rw (p, q)
            (λ a. record {
              device = d;
              stored = hit.1;
              bound = hit.0;
              ended = ground (arith, q);
              strict = ground (arith, q);
            })
      | inr q ↦ rw (p, q) tt
    ]
  ]

  resolve_key-Stops :
      (session_id : ℕ) (o : Option ApiKey)
      → find (is_key (some session_id)) db.keys ≡ o
      → Stops (IsDecommissioned now session_id opts db) (resolve_key now opts o db)
  resolve_key-Stops session_id none e = by_status-Stops _ scope_violation
  resolve_key-Stops session_id (some key) e =
      let hit =
        All-find (λ k. Memᴰ k db.keys) (is_key (some session_id)) db.keys key (All-Memᴰ db.keys)
          e in
      let same : key.id ≡ session_id = ground (arith, hit.0) in
      subst (λ t. Stops (IsDecommissioned now t opts db) (resolve_key now opts (some key) db)) same
        (admit-Stops key _ refl)

  -- A route that resolves the device tells an agent to decommission itself only if the session is bound
  -- to a device, by its key or the one before inside of the overlap, that was decommissioned, and only
  -- where the route does not admit such a device. No status code alone says so.
  pub resolve_device-Stops :
      (session_id : ℕ)
      → Stops
          (IsDecommissioned now session_id opts db)
          (resolve_device now opts (some session_id) db)
  unfolding resolve_device
  resolve_device-Stops session_id = resolve_key-Stops session_id _ refl

-- What a refused request for a credential tells the agent to do: nothing, or to wait after an error.
abbrev pub Waits : AccessDb × Answer EnrolmentResponse → Type 0
Waits (after, answered r) = Unit
Waits (after, refused p) =
    ((agent_on_error p).hpc_action ≡ none)
    ⊎ ((p ≡ unexpected) × ((agent_on_error p).hpc_action ≡ some backoff))

problem-Waits :
    (p : Problem)
    → IsEnrolProblem p
    → ((agent_on_error p).hpc_action ≡ none)
      ⊎ ((p ≡ unexpected) × ((agent_on_error p).hpc_action ≡ some backoff))
unfolding agent_on_error build_problem action_of
problem-Waits _ crash = inr (refl, refl)
problem-Waits _ (expected key q) = inl (rw q refl)

Spares-Waits : (db : AccessDb) (r : AccessDb × Answer EnrolmentResponse) → Spares db r → Waits r
Spares-Waits db (after, answered r) s = tt
Spares-Waits db (after, refused p) s = problem-Waits p s.reason

-- Where the plugin gives each key a row and an id of its own, a request for a credential that is refused
-- tells the agent to do nothing, or, after an unexpected error, to back off.
pub enroll_hpc_action :
    (create : CreateApiKey) (publish : ℕ → Tables → Tables × PublishResult) (now : ℕ)
    (law : Creates create) (upper : ℕ → Text) (hash : Text → Text)
    (request : Option (Option Text × Option IssueBody)) (ip : Option String) (db : AccessDb)
    → Waits (enroll create publish now upper hash request ip db)
enroll_hpc_action create publish now law upper hash request ip db =
    Spares-Waits db _ (enroll-IsUntouched create publish now law upper hash request ip db)
