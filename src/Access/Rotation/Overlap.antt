-- ===== src/Access/Rotation/Overlap.antt =====
-- apps/api/src/routes/credential.ts and apps/api/src/routes/agent.ts: the credentials of a device around
-- a rotation.
use homeparentcontrol.Prelude.{
  ℕ, ◌+◌, ◌≤◌, ◌<◌, ◌≡◌, ◌≢◌, refl, sym, subst, Bool, true, false, List, Option, none, some, arith,
  ◌==◌, find, inl, inr, Bool-cases, All, All-map_imp, All-find,
}
use homeparentcontrol.Prelude.Members.{All-map, All-Memᴰ}
use homeparentcontrol.Access.{AccessDevice, ApiKey, AccessDb}
use homeparentcontrol.Access.Problems.{Answer, answered, refused}
use homeparentcontrol.Access.Keys.{CreateApiKey, MintedDeviceKey, mint_device_key}
use homeparentcontrol.Access.Rotation.{
  overlap_ms, set_expiry, rotate_row, is_overlapping, RotationResponse, rotate_minted, rotate_key,
  rotate_device, rotate,
}
use homeparentcontrol.Access.Resolver.{is_bound}

-- Until its time the old key binds the device beside the new one, and then no more.
abbrev pub HasOverlap : ℕ → ℕ → ℕ → ℕ → AccessDevice → Type 0
HasOverlap device_id new old until d =
    d.id ≡ device_id
    → (t : ℕ)
    → (is_bound t new d ≡ true)
      × ((t < until → is_bound t old d ≡ true) × (until ≤ t → new ≢ old → is_bound t old d ≡ false))

-- What an answered rotation leaves: the overlap of every row of the device, whose current key is the old
-- one before, and that key with its end.
pub record IsOverlap (device_id now : ℕ) (before after : AccessDb) (r : RotationResponse)
    : Type 0 where
  pub old : ℕ
  pub device : AccessDevice
  pub found : find (λ d. d.id == device_id) before.devices ≡ some device
  pub current : device.api_key_id ≡ some old
  pub until : r.previous_credential_valid_until ≡ now + overlap_ms
  pub devices : All (HasOverlap device_id r.key_id old (now + overlap_ms)) after.devices
  pub keys : All (λ k. k.id ≡ old → k.expires_at ≡ some (now + overlap_ms)) after.keys

abbrev pub Overlaps : ℕ → ℕ → AccessDb → AccessDb × Answer RotationResponse → Type 0
Overlaps device_id now before (after, answered r) = IsOverlap device_id now before after r
Overlaps device_id now before (after, refused p) = after ≡ before

rotate_row-HasOverlap :
    (id new old until : ℕ) (d : AccessDevice)
    → HasOverlap id new old until (rotate_row id new old until d)
unfolding is_bound
rotate_row-HasOverlap id new old until d = elim (Bool-cases (d.id == id)) [
  | inl e ↦
      rw e (λ same t. (ground arith, ((λ h. ground (arith, h)), (λ h n. ground (arith, h, n)))))
  | inr e ↦ rw e (λ same t. absurd (ground (arith, e, same)))
]

set_expiry-set :
    (old at : ℕ) (k : ApiKey)
    → (set_expiry old at k).id ≡ old
    → (set_expiry old at k).expires_at ≡ some at
set_expiry-set old at k = elim (Bool-cases (k.id == old)) [
  | inl e ↦ rw e (λ h. refl)
  | inr e ↦ rw e (λ h. absurd (ground (arith, e, h)))
]

module _ (create : CreateApiKey) (now : ℕ) where
  rotate_minted-Overlaps :
      (id old : ℕ) (d : AccessDevice) (o : Option (MintedDeviceKey × List ApiKey)) (db : AccessDb)
      → find (λ x. x.id == id) db.devices ≡ some d
      → d.api_key_id ≡ some old
      → Overlaps id now db (rotate_minted create now id old o db)
  rotate_minted-Overlaps id old d none db e k = refl
  rotate_minted-Overlaps id old d (some (m, keys)) db e k = record {
    old = old;
    device = d;
    found = e;
    current = k;
    until = refl;
    devices =
        All-map (HasOverlap id m.key_id old (now + overlap_ms))
          (rotate_row id m.key_id old (now + overlap_ms)) db.devices
          (All-map_imp (λ x m'. rotate_row-HasOverlap id m.key_id old (now + overlap_ms) x)
            db.devices (All-Memᴰ db.devices));
    keys =
        All-map (λ x. x.id ≡ old → x.expires_at ≡ some (now + overlap_ms))
          (set_expiry old (now + overlap_ms)) keys
          (All-map_imp (λ x m' h. set_expiry-set old (now + overlap_ms) x h) keys (All-Memᴰ keys));
  }

  rotate_key-Overlaps :
      (id household_id user_id : ℕ) (d : AccessDevice) (o : Option ℕ) (db : AccessDb)
      → find (λ x. x.id == id) db.devices ≡ some d
      → d.api_key_id ≡ o
      → Overlaps id now db (rotate_key create now household_id user_id d o db)
  rotate_key-Overlaps id household_id user_id d none db e k = refl
  rotate_key-Overlaps id household_id user_id d (some old) db e k =
      elim (Bool-cases (is_overlapping now d)) [
        | inl x ↦ rw x refl
        | inr x ↦
            let hit =
              (All-find (λ y. y ≡ y) (λ y. y.id == id) db.devices d
                (All-map_imp (λ y m. refl) db.devices (All-Memᴰ db.devices)) e).0 in
            let same : id ≡ d.id = ground (arith, hit) in
            rw x (
              subst
                (λ i. Overlaps i now db (
                  rotate_minted create now d.id old
                    (mint_device_key create user_id d.id household_id d.label db.keys) db))
                (sym same)
                (rotate_minted-Overlaps d.id old d _ db
                  (subst (λ i. find (λ y. y.id == i) db.devices ≡ some d) same e) k))
      ]

  rotate_device-Overlaps :
      (id household_id user_id : ℕ) (o : Option AccessDevice) (db : AccessDb)
      → find (λ x. x.id == id) db.devices ≡ o
      → Overlaps id now db (rotate_device create now household_id user_id o db)
  rotate_device-Overlaps id household_id user_id none db e = refl
  rotate_device-Overlaps id household_id user_id (some d) db e =
      rotate_key-Overlaps id household_id user_id d _ db e refl

  -- After an answered rotation a device is bound by its new key at any time, by the key of before until a
  -- day has passed, and then no more if the keys differ, and that key gets this end too. A rotation that
  -- is refused changes nothing.
  pub rotate-Overlaps :
      (id household_id user_id : ℕ) (is_service : Bool) (db : AccessDb)
      → Overlaps id now db (rotate create now id household_id user_id is_service db)
  unfolding rotate
  rotate-Overlaps id household_id user_id true db =
      rotate_device-Overlaps id household_id user_id _ db refl
  rotate-Overlaps id household_id user_id false db = refl
