-- ===== src/Sync/Envelope.antt =====
-- apps/api/src/routes/sync.ts: which policy a tick is answered with.
use homeparentcontrol.Prelude.{
  ℕ, ◌≤◌, ◌≡◌, refl, true, false, String, List, Option, some, arith, ◌⊎◌, inl, inr, All, get_or,
  Bool-cases, Option-cases, if◌then◌else◌,
}
use mathlib.Core.List.{Memᴰ}
use homeparentcontrol.Prelude.Query.{latest_by, latest_by-none, latest_by-some, latest_by-mem}
use homeparentcontrol.Sync.{
  PolicyEnvelope, VersionRow, no_policy, unchanged, signed, unsigned, policy_envelope, is_in_force,
  same_etag, is_truthy,
}

-- Text and signature are withheld exactly when the agent has reported the tag of the row.
abbrev pub Conveys : Option String → VersionRow → PolicyEnvelope → Type 0
Conveys reported r e =
    (same_etag reported r.etag ≡ true) × (e ≡ unchanged r.etag r.version)
    ⊎ (same_etag reported r.etag ≡ false)
      × (r.jws ≡ some (get_or r.jws ""))
      × (e ≡ signed r.etag r.version (get_or r.jws ""))
    ⊎ (same_etag reported r.etag ≡ false)
      × (is_truthy r.jws ≡ false)
      × (e ≡ unsigned r.etag r.version r.document)

conveys :
    (reported : Option String) (r : VersionRow)
    → Conveys reported r (
        if same_etag reported r.etag
        then unchanged r.etag r.version
        else if is_truthy r.jws
        then signed r.etag r.version (get_or r.jws "")
        else unsigned r.etag r.version r.document)
conveys reported r = elim (Bool-cases (same_etag reported r.etag)) [
  | inl e ↦ inl (e, rw e refl)
  | inr e ↦ elim (Bool-cases (is_truthy r.jws)) [
    | inl t ↦ inr (inl (e, ground arith, rw (e, t) refl))
    | inr t ↦ inr (inr (e, t, rw (e, t) refl))
  ]
]

-- The answer is `no_policy` only when no version of the device is in force yet; otherwise it is
-- about a version that is in force and that no version in force exceeds, as a bare `unchanged` if
-- the agent reported its tag, and with its signature, or its document if it has none, if not.
pub policy_envelope_greatest :
    (device_id : ℕ) (reported : Option String) (now : ℕ) (rows : List VersionRow)
    → (policy_envelope device_id reported now rows ≡ no_policy)
        × All (λ r. is_in_force device_id now r ≡ false) rows
      ⊎ ((r : VersionRow) × Memᴰ r rows
          × (is_in_force device_id now r ≡ true)
          × All (λ x. is_in_force device_id now x ≡ true → x.version ≤ r.version) rows
          × Conveys reported r (policy_envelope device_id reported now rows))
unfolding policy_envelope
policy_envelope_greatest device_id reported now rows =
    let test = is_in_force device_id now in
    elim (Option-cases (latest_by test (λ r. r.version) rows)) [
      | inl e ↦ inl (rw (policy_envelope, e) refl, latest_by-none test (λ r. r.version) rows e)
      | inr (r, e) ↦
          let best = latest_by-some test (λ r. r.version) rows r e in
          inr (
            r,
            latest_by-mem test (λ r. r.version) rows r e,
            best.0,
            best.1,
            rw (policy_envelope, e) (conveys reported r),
          )
    ]
