-- ===== src/Access/Lifecycle/Rotating.antt =====
-- apps/api/src/routes/credential.ts: a rotation, and the close of those that ended, keep the tables
-- lawful.
use homeparentcontrol.Prelude.{
  ℕ, ◌+◌, ◌≡◌, refl, Bool, true, false, List, [], ◌∷◌, Option, none, some, arith, ◌==◌, find,
  filter, inl, inr, Bool-cases, All, All-find,
}
use homeparentcontrol.Prelude.Members.{All-map}
use homeparentcontrol.Access.{AccessDevice, ApiKey, Enrolment, AccessDb, is_pending}
use homeparentcontrol.Access.Keys.{CreateApiKey, MintedDeviceKey}
use homeparentcontrol.Access.Rotation.{
  rotate_row, is_overlapping, overlap_ms, rotate_minted, rotate_key, rotate_device, rotate,
  close_row, close_rows, close_expired_rotations, is_stale,
}
use homeparentcontrol.Access.Lifecycle.Devices.{
  IsFit, IsQuiet, IsRow, AreLawful-map, All-row, All-zip_with, IsRow-map, Agree-map,
}
use homeparentcontrol.Access.Lifecycle.Committing.{IsLawful}

module _ (id key_id previous_id at : ℕ) where
  rotate_row-IsQuiet : IsQuiet (rotate_row id key_id previous_id at)
  rotate_row-IsQuiet = record {
    id = λ d. elim (Bool-cases (d.id == id)) [ inl e ↦ rw e refl | inr e ↦ rw e refl ];
    hardware = λ d. elim (Bool-cases (d.id == id)) [ inl e ↦ rw e refl | inr e ↦ rw e refl ];
    live = λ d. elim (Bool-cases (d.id == id)) [ inl e ↦ rw e (λ l. l) | inr e ↦ rw e (λ l. l) ];
  }

  rotate_row-IsFit :
      (rows : List Enrolment) (d : AccessDevice)
      → (id ≡ d.id → is_pending d.status ≡ false)
      → IsFit rows d
      → IsFit rows (rotate_row id key_id previous_id at d)
  rotate_row-IsFit rows d p f = elim (Bool-cases (d.id == id)) [
    | inl e ↦
        let q : is_pending d.status ≡ false = p (ground arith) in
        rw e (record {
          unused = f.unused;
          single = f.single;
          bare = λ x. absurd (ground (arith, x, q));
        })
    | inr e ↦ rw e f
  ]

close_row-IsQuiet : (id : ℕ) → IsQuiet (close_row id)
close_row-IsQuiet id = record {
  id = λ d. elim (Bool-cases (d.id == id)) [ inl e ↦ rw e refl | inr e ↦ rw e refl ];
  hardware = λ d. elim (Bool-cases (d.id == id)) [ inl e ↦ rw e refl | inr e ↦ rw e refl ];
  live = λ d. elim (Bool-cases (d.id == id)) [ inl e ↦ rw e (λ l. l) | inr e ↦ rw e (λ l. l) ];
}

close_row-IsFit :
    (id : ℕ) (rows : List Enrolment) (d : AccessDevice) → IsFit rows d → IsFit rows (close_row id d)
close_row-IsFit id rows d f = elim (Bool-cases (d.id == id)) [
  | inl e ↦ rw e (record { unused = f.unused; single = f.single; bare = λ x. ((f.bare x).0, refl) })
  | inr e ↦ rw e f
]

module _ (create : CreateApiKey) (now : ℕ) where
  rotate_minted-IsLawful :
      (id previous_id : ℕ) (o : Option (MintedDeviceKey × List ApiKey)) (db : AccessDb)
      → All (λ b. id ≡ b.id → is_pending b.status ≡ false) db.devices
      → IsLawful db
      → IsLawful (rotate_minted create now id previous_id o db).0
  rotate_minted-IsLawful id previous_id none db p l = l
  rotate_minted-IsLawful id previous_id (some (m, keys)) db p l =
      let f = rotate_row id m.key_id previous_id (now + overlap_ms) in
      let q = rotate_row-IsQuiet id m.key_id previous_id (now + overlap_ms) in
      record {
        one_row = IsRow-map f db.devices q.id l.one_row;
        fit = All-map (IsFit db.enrollments) f db.devices (
            All-zip_with db.devices
              (λ d x y.
                rotate_row-IsFit id m.key_id previous_id (now + overlap_ms) db.enrollments d x y)
              p l.fit);
        one_mac = Agree-map f db.devices q l.one_mac;
      }

  -- A device with a credential is not pending.
  keyed_pending :
      (rows : List Enrolment) (d : AccessDevice) (k : ℕ)
      → d.api_key_id ≡ some k
      → IsFit rows d
      → is_pending d.status ≡ false
  keyed_pending rows d k e f = elim (Bool-cases (is_pending d.status)) [
    | inl p ↦ absurd (let q = (f.bare p).0 in ground (arith, q, e))
    | inr p ↦ p
  ]

  rotate_key-IsLawful :
      (household_id user_id : ℕ) (d : AccessDevice) (o : Option ℕ) (db : AccessDb)
      → d.api_key_id ≡ o
      → All (IsRow d) db.devices × IsFit db.enrollments d
      → IsLawful db
      → IsLawful (rotate_key create now household_id user_id d o db).0
  rotate_key-IsLawful household_id user_id d none db e h l = l
  rotate_key-IsLawful household_id user_id d (some k) db e h l =
      elim (Bool-cases (is_overlapping now d)) [
        | inl x ↦ rw x l
        | inr x ↦ rw x (
            rotate_minted-IsLawful d.id k _ db
              (All-row (λ b. is_pending b.status ≡ false) d db.devices h.0
                (keyed_pending db.enrollments d k e h.1))
              l)
      ]

  rotate_device-IsLawful :
      (id household_id user_id : ℕ) (o : Option AccessDevice) (db : AccessDb)
      → find (λ d. d.id == id) db.devices ≡ o
      → IsLawful db
      → IsLawful (rotate_device create now household_id user_id o db).0
  rotate_device-IsLawful id household_id user_id none db e l = l
  rotate_device-IsLawful id household_id user_id (some d) db e l =
      rotate_key-IsLawful household_id user_id d _ db refl
        (
          (All-find (λ a. All (IsRow a) db.devices) _ db.devices d l.one_row e).1,
          (All-find (IsFit db.enrollments) _ db.devices d l.fit e).1,
        )
        l

  pub rotate-IsLawful :
      (id household_id user_id : ℕ) (is_service : Bool) (db : AccessDb)
      → IsLawful db
      → IsLawful (rotate create now id household_id user_id is_service db).0
  unfolding rotate
  rotate-IsLawful id household_id user_id true db l =
      rotate_device-IsLawful id household_id user_id _ db refl l
  rotate-IsLawful id household_id user_id false db l = l

close_rows-IsLawful :
    (rows : List AccessDevice) (db : AccessDb) → IsLawful db → IsLawful (close_rows rows db)
unfolding close_rows
close_rows-IsLawful [] db l = l
close_rows-IsLawful (row ∷ rows) db l = close_rows-IsLawful rows _ (
    AreLawful-map db.enrollments db.enrollments (close_row row.id) db.devices
      (close_row-IsQuiet row.id) (λ d f. close_row-IsFit row.id db.enrollments d f) l)

pub close_expired_rotations-IsLawful :
    (now : ℕ) (db : AccessDb) → IsLawful db → IsLawful (close_expired_rotations now db).0
unfolding close_expired_rotations
close_expired_rotations-IsLawful now db l =
    close_rows-IsLawful (filter (is_stale now) db.devices) db l
