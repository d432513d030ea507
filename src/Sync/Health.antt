-- ===== src/Sync/Health.antt =====
-- apps/api/src/routes/sync.ts: what counts as an impairment.
use homeparentcontrol.Prelude.{
  ◌≤◌, ◌<◌, ◌≡◌, true, false, none, some, arith, ◌↔◌, ◌⊎◌, ◌≢◌, get_or, is_some, Bool-cases, inl,
  inr,
}
use homeparentcontrol.Prelude.Int.{abs}
use homeparentcontrol.Sync.{SyncRequest, self_reported_reason, is_truthy}

-- Nothing is reported as impaired.
pub record IsSound (b : SyncRequest) : Type 0 where
  pub no_kill_switch : b.kill_switch ≡ false
  pub not_invalid : b.signature_valid ≢ some false
  pub not_last_known : b.using_lkg ≢ some true
  pub has_policy :
      (is_some b.etag ≡ true) ⊎ (is_some b.policy_version ≡ true) ⊎ (is_truthy b.source ≡ true)
  pub evaluates : get_or b.consecutive_eval_failures 0 < 3
  pub beats : b.enforcer_health_age_s ≤ 180
  pub network_time : b.using_network_time ≡ true
  pub clock_right : abs b.skew_estimate_ms ≤ 60000

reason_none-IsSound : (b : SyncRequest) → self_reported_reason b ≡ none → IsSound b
unfolding self_reported_reason
reason_none-IsSound b h = record {
  no_kill_switch = ground arith;
  not_invalid = ground arith;
  not_last_known = ground arith;
  has_policy = elim (Bool-cases (is_some b.etag)) [
    | inl e ↦ inl e
    | inr e ↦ elim (Bool-cases (is_some b.policy_version)) [
      | inl v ↦ inr (inl v)
      | inr v ↦ inr (inr (ground arith))
    ]
  ];
  evaluates = ground arith;
  beats = ground arith;
  network_time = ground arith;
  clock_right = ground arith;
}

IsSound-reason_none : (b : SyncRequest) → IsSound b → self_reported_reason b ≡ none
unfolding self_reported_reason
IsSound-reason_none b h = elim h.has_policy [
  | inl e ↦ ground arith
  | inr (inl e) ↦ ground arith
  | inr (inr e) ↦ ground arith
]

-- A device is not degraded exactly when no kill switch is present, its signature is not known to be
-- bad, it runs on no last-known-good copy, it has a policy, fewer than three evaluations failed in
-- a row, the enforcer was heard of within three minutes, and its clock is set by the network and
-- within a minute of right.
self_reported_reason_none : (b : SyncRequest) → (self_reported_reason b ≡ none) ↔ IsSound b
self_reported_reason_none b = (reason_none-IsSound b, IsSound-reason_none b)
