-- ===== src/Access/Lifecycle/Renewing.antt =====
-- apps/api/src/routes/parent-setup.ts and apps/api/src/routes/credential.ts: a new device, a new code
-- and a rotation keep the tables lawful.
use homeparentcontrol.Prelude.{
  ℕ, ◌+◌, ◌*◌, ◌≡◌, ◌≢◌, refl, sym, subst, String, Bool, true, false, not, List, ◌∷◌, Option, none,
  some, arith, ◌==◌, find, inl, inr, Bool-cases, All, All-find, All-map_imp,
}
use homeparentcontrol.Policy.{Text}
use homeparentcontrol.Access.{AccessDevice, AccessChild, ChildSet, Enrolment, AccessDb, is_pending}
use homeparentcontrol.Access.Enrol.{is_live}
use homeparentcontrol.Access.Ending.{drop_open_codes, is_device_of}
use homeparentcontrol.Access.Setup.{
  new_enrolment, new_device, issue_normalised, issue_code, create_in_set, create_for_child,
  create_device, reissue_found, reissue_code, enrolment_ttl_minutes,
}
use homeparentcontrol.Access.Lifecycle.Codes.{open_codes, open_codes-drop, open_codes-drop_own}
use homeparentcontrol.Access.Lifecycle.Devices.{
  IsFit, IsRow, Agree, Pairs-cons, AreLawful, AreLawful-fewer, All-row, All-zip_with,
}
use homeparentcontrol.Access.Lifecycle.Committing.{IsLawful}

-- The id of a new row: no device has it and no code is for it.
pub record IsFresh (id : ℕ) (db : AccessDb) : Type 0 where
  pub devices : All (λ d. id ≢ d.id) db.devices
  pub codes : open_codes id db.enrollments ≡ 0

module _ (id device_id expires_at : ℕ) (h : Text) (rows : List Enrolment) where
  new_code-IsFit :
      (d : AccessDevice)
      → open_codes device_id rows ≡ 0
      → (device_id ≡ d.id → is_pending d.status ≡ true)
      → IsFit rows d
      → IsFit (new_enrolment id device_id h expires_at ∷ rows) d
  unfolding open_codes
  new_code-IsFit d o p f = elim (Bool-cases (device_id == d.id)) [
    | inl e ↦
        let z : open_codes d.id rows ≡ 0 = subst (λ t. open_codes t rows ≡ 0) (ground arith) o in
        let q = p (ground arith) in
        record {
          unused = λ u. absurd (ground (arith, u, q));
          single = rw (e, z) (omega arith);
          bare = f.bare;
        }
    | inr e ↦ record {
      unused = λ u. rw e (let a = f.unused u in omega arith);
      single = rw e (let a = f.single in omega arith);
      bare = f.bare;
    }
  ]

  new_code-AreLawful :
      (ds : List AccessDevice)
      → open_codes device_id rows ≡ 0
      → All (λ d. device_id ≡ d.id → is_pending d.status ≡ true) ds
      → AreLawful rows ds
      → AreLawful (new_enrolment id device_id h expires_at ∷ rows) ds
  new_code-AreLawful ds o p l = record {
    one_row = l.one_row;
    fit = All-zip_with ds (λ d q f. new_code-IsFit d o q f) p l.fit;
    one_mac = l.one_mac;
  }

new_device-AreLawful :
    (d : AccessDevice) (db : AccessDb)
    → IsFresh d.id db
    → is_live d.status ≡ false
    → (d.api_key_id ≡ none) × (d.previous_api_key_id ≡ none)
    → IsLawful db
    → AreLawful db.enrollments (d ∷ db.devices)
new_device-AreLawful d db n q k l = record {
  one_row =
      Pairs-cons IsRow d db.devices (λ e. refl)
        (All-map_imp (λ b x. ((λ e. absurd (x e)), (λ e. absurd (x (sym e))))) db.devices n.devices)
        l.one_row;
  fit =
      (record { unused = λ u. n.codes; single = rw (n.codes) (omega arith); bare = λ p. k }, l.fit);
  one_mac =
      Pairs-cons Agree d db.devices (λ la lb uuid xa xb. refl)
        (All-map_imp
          (λ b x. (
            (λ la lb uuid xa xb. absurd (ground (arith, la, q))),
            (λ la lb uuid xa xb. absurd (ground (arith, lb, q))),
          ))
          db.devices n.devices)
        l.one_mac;
}

module _ (upper : ℕ → Text) (hash : Text → Text) (now : ℕ) where
  issue_normalised-IsLawful :
      (id device_id : ℕ) (code : Text) (o : Option Text) (db : AccessDb)
      → open_codes device_id db.enrollments ≡ 0
      → All (λ d. device_id ≡ d.id → is_pending d.status ≡ true) db.devices
      → IsLawful db
      → IsLawful (issue_normalised upper hash now id device_id code o db).0
  issue_normalised-IsLawful id device_id code none db o p l = l
  issue_normalised-IsLawful id device_id code (some n) db o p l =
      new_code-AreLawful id device_id (now + enrolment_ttl_minutes * 60000) (hash n) db.enrollments
        db.devices o p l

  create_in_set-IsLawful :
      (device_id id : ℕ) (bytes : List ℕ) (household_id child_id : ℕ) (label : String)
      (o : Option ChildSet) (db : AccessDb)
      → IsFresh device_id db
      → IsLawful db
      → IsLawful
          (create_in_set upper hash now device_id id bytes household_id child_id label o db).0
  unfolding issue_code
  create_in_set-IsLawful device_id id bytes household_id child_id label none db n l = l
  create_in_set-IsLawful device_id id bytes household_id child_id label (some s) db n l =
      issue_normalised-IsLawful id device_id _ _ _ n.codes
        ((λ e. refl), All-map_imp (λ b x e. absurd (x e)) db.devices n.devices)
        (new_device-AreLawful (new_device device_id household_id child_id s.id label) db n refl
          (refl, refl) l)

  create_for_child-IsLawful :
      (device_id id : ℕ) (bytes : List ℕ) (household_id : ℕ) (label : String)
      (o : Option AccessChild) (db : AccessDb)
      → IsFresh device_id db
      → IsLawful db
      → IsLawful (create_for_child upper hash now device_id id bytes household_id label o db).0
  create_for_child-IsLawful device_id id bytes household_id label none db n l = l
  create_for_child-IsLawful device_id id bytes household_id label (some c) db n l =
      create_in_set-IsLawful device_id id bytes household_id c.id label _ db n l

  pub create_device-IsLawful :
      (device_id id : ℕ) (bytes : List ℕ) (household_id : ℕ) (body : Option (ℕ × String))
      (db : AccessDb)
      → IsFresh device_id db
      → IsLawful db
      → IsLawful (create_device upper hash now device_id id bytes household_id body db).0
  unfolding create_device
  create_device-IsLawful device_id id bytes household_id none db n l = l
  create_device-IsLawful device_id id bytes household_id (some (child_id, label)) db n l =
      create_for_child-IsLawful device_id id bytes household_id label _ db n l

  reissue_found-IsLawful :
      (id : ℕ) (bytes : List ℕ) (p : AccessDevice → Bool) (o : Option AccessDevice) (db : AccessDb)
      → find p db.devices ≡ o
      → IsLawful db
      → IsLawful (reissue_found upper hash now id bytes o db).0
  unfolding issue_code
  reissue_found-IsLawful id bytes p none db e l = l
  reissue_found-IsLawful id bytes p (some d) db e l =
      elim (Bool-cases (not (is_pending d.status))) [
        | inl x ↦ rw x l
        | inr x ↦
            let own = (All-find (λ a. All (IsRow a) db.devices) p db.devices d l.one_row e).1 in
            rw x (
              issue_normalised-IsLawful id d.id _ _
                (record db { enrollments = drop_open_codes d.id db.enrollments })
                (open_codes-drop_own d.id db.enrollments)
                (All-row (λ b. is_pending b.status ≡ true) d db.devices own (ground arith))
                (AreLawful-fewer db.enrollments _ db.devices
                  (λ i. open_codes-drop i d.id db.enrollments) l))
      ]

  pub reissue_code-IsLawful :
      (id : ℕ) (bytes : List ℕ) (household_id : ℕ) (device_id : Option ℕ) (db : AccessDb)
      → IsLawful db
      → IsLawful (reissue_code upper hash now id bytes household_id device_id db).0
  unfolding reissue_code
  reissue_code-IsLawful id bytes household_id none db l = l
  reissue_code-IsLawful id bytes household_id (some device_id) db l =
      reissue_found-IsLawful id bytes (is_device_of device_id household_id) _ db refl l
