-- ===== src/Sync/Poll.antt =====
-- apps/api/src/routes/sync.ts: how soon the agent is asked to come back.
use homeparentcontrol.Prelude.{ℕ, ◌≤◌, ◌≡◌, true, List, arith, Bool-cases, inl, inr}
use homeparentcontrol.Sync.{
  SyncRequest, SyncDevice, PolicySet, next_poll, clamp_poll, intervals_of, is_after, is_near,
}

clamp_poll_bounds : (ms : ℕ) → (1000 ≤ clamp_poll ms) × (clamp_poll ms ≤ 300000)
unfolding clamp_poll
clamp_poll_bounds ms = omega arith

-- Whatever the policy set and the request say, the answer is between one second and five minutes,
-- and while the parent has the device page open it is five seconds.
pub next_poll_bounds :
    (b : SyncRequest) (d : SyncDevice) (sets : List PolicySet) (now : ℕ)
    → (1000 ≤ (next_poll b d sets now).0)
      × ((next_poll b d sets now).0 ≤ 300000)
      × (is_after d.attended_until now ≡ true → (next_poll b d sets now).0 ≡ 5000)
unfolding next_poll
next_poll_bounds b d sets now =
    let i = intervals_of d.policy_set_id sets in
    elim (Bool-cases (is_after d.attended_until now)) [
      | inl e ↦ rw e (omega arith, omega arith, λ _. omega arith)
      | inr e ↦ elim (Bool-cases (is_near b.next_boundary_at now i.lead_ms)) [
        | inl n ↦
            rw (e, n)
              ((clamp_poll_bounds i.boundary_ms).0, (clamp_poll_bounds i.boundary_ms).1, λ q. cc)
        | inr n ↦
            rw (e, n) ((clamp_poll_bounds i.base_ms).0, (clamp_poll_bounds i.base_ms).1, λ q. cc)
      ]
    ]
