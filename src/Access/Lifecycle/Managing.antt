-- ===== src/Access/Lifecycle/Managing.antt =====
-- apps/api/src/routes/parent-setup.ts, apps/api/src/routes/parent-devices.ts and
-- apps/api/src/routes/credential.ts: what a parent does and a rotation keep the tables lawful.
use homeparentcontrol.Prelude.{
  ℕ, ◌≡◌, refl, subst, String, Bool, true, false, List, [], ◌∷◌, Option, none, some, arith, str_eq,
  ◌==◌, if-holds, find, inl, inr, Bool-cases,
}
use homeparentcontrol.Access.{AccessDevice, AccessChild, Enrolment, AccessDb, is_pending, fail}
use homeparentcontrol.Access.Enrol.{is_live}
use homeparentcontrol.Access.Ending.{
  EndOptions, end_row, end_device, EndAction, revoke_action, decommission_action, options_of,
  decommission_options, confirm_word, end_found, end_confirmed, end_credential, end_devices,
  drop_open_codes, is_device_of, is_child_of, remove_found, remove_child,
}
use homeparentcontrol.Access.Lifecycle.Codes.{open_codes, open_codes-drop, open_codes-drop_own}
use homeparentcontrol.Access.Lifecycle.Devices.{IsFit, IsFit-fewer, IsQuiet, AreLawful-map}
use homeparentcontrol.Access.Lifecycle.Committing.{IsLawful}

-- The end of a device.
module _ (opts : EndOptions) (quiet : is_live opts.status ≡ false)
    (settled : is_pending opts.status ≡ false) where
  end_row-IsQuiet : (id : ℕ) → IsQuiet (end_row id opts)
  end_row-IsQuiet id = record {
    id = λ d. elim (Bool-cases (d.id == id)) [
      | inl e ↦ elim (Bool-cases opts.keep_credential) [
        | inl k ↦ rw (e, k) refl
        | inr k ↦ rw (e, k) refl
      ]
      | inr e ↦ rw e refl
    ];
    hardware = λ d. elim (Bool-cases (d.id == id)) [
      | inl e ↦ elim (Bool-cases opts.keep_credential) [
        | inl k ↦ rw (e, k) refl
        | inr k ↦ rw (e, k) refl
      ]
      | inr e ↦ rw e refl
    ];
    live = λ d. elim (Bool-cases (d.id == id)) [
      | inl e ↦ elim (Bool-cases opts.keep_credential) [
        | inl k ↦ rw (e, k) (λ l. ground (arith, l, quiet))
        | inr k ↦ rw (e, k) (λ l. ground (arith, l, quiet))
      ]
      | inr e ↦ rw e (λ l. l)
    ];
  }

  ended :
      (id : ℕ) (rows : List Enrolment) (d : AccessDevice)
      → open_codes d.id rows ≡ 0
      → d.status ≡ opts.status
      → IsFit rows d
  ended id rows d o s = record {
    unused = λ p. o;
    single = omega arith;
    bare = λ p. absurd (let q = subst (λ t. is_pending t ≡ true) s p in ground (arith, q, settled));
  }

  end_row-IsFit :
      (id : ℕ) (rows : List Enrolment) (d : AccessDevice)
      → IsFit rows d
      → IsFit (drop_open_codes id rows) (end_row id opts d)
  end_row-IsFit id rows d f = elim (Bool-cases (d.id == id)) [
    | inl e ↦
        let same : id ≡ d.id = ground arith in
        let o =
          subst (λ t. open_codes t (drop_open_codes id rows) ≡ 0) same
            (open_codes-drop_own id rows) in
        elim (Bool-cases opts.keep_credential) [
          | inl k ↦ rw (e, k) (ended id _ _ o refl)
          | inr k ↦ rw (e, k) (ended id _ _ o refl)
        ]
    | inr e ↦ rw e (IsFit-fewer rows _ (λ i. open_codes-drop i id rows) d f)
  ]

  end_device-IsLawful :
      (d : AccessDevice) (db : AccessDb) → IsLawful db → IsLawful (end_device opts d db)
  unfolding end_device
  end_device-IsLawful d db l =
      AreLawful-map db.enrollments _ (end_row d.id opts) db.devices (end_row-IsQuiet d.id)
        (λ b f. end_row-IsFit d.id db.enrollments b f) l

end_found-IsLawful :
    (action : EndAction) (o : Option AccessDevice) (db : AccessDb)
    → IsLawful db
    → IsLawful (end_found action o db).0
end_found-IsLawful action none db l = l
end_found-IsLawful revoke_action (some d) db l =
    end_device-IsLawful (options_of revoke_action) refl refl d db l
end_found-IsLawful decommission_action (some d) db l =
    end_device-IsLawful (options_of decommission_action) refl refl d db l

end_confirmed-IsLawful :
    (action : EndAction) (household_id device_id : ℕ) (confirm : Option String) (db : AccessDb)
    → IsLawful db
    → IsLawful (end_confirmed action household_id device_id confirm db).0
end_confirmed-IsLawful action household_id device_id none db l = l
end_confirmed-IsLawful action household_id device_id (some word) db l =
    let o = find (is_device_of device_id household_id) db.devices in
    if-holds (λ r. IsLawful r.0) (str_eq word (confirm_word action)) {x = end_found action o db}
      {y = (db, fail 422)} (end_found-IsLawful action o db l) l

pub end_credential-IsLawful :
    (action : EndAction) (household_id : ℕ) (device_id : Option ℕ) (confirm : Option String)
    (db : AccessDb)
    → IsLawful db
    → IsLawful (end_credential action household_id device_id confirm db).0
unfolding end_credential
end_credential-IsLawful action household_id none confirm db l = l
end_credential-IsLawful action household_id (some device_id) confirm db l =
    end_confirmed-IsLawful action household_id device_id confirm db l

end_devices-IsLawful :
    (ds : List AccessDevice) (db : AccessDb) → IsLawful db → IsLawful (end_devices ds db)
unfolding end_devices
end_devices-IsLawful [] db l = l
end_devices-IsLawful (d ∷ ds) db l =
    end_devices-IsLawful ds _ (end_device-IsLawful decommission_options refl refl d db l)

remove_found-IsLawful :
    (now : ℕ) (o : Option AccessChild) (db : AccessDb)
    → IsLawful db
    → IsLawful (remove_found now o db).0
remove_found-IsLawful now none db l = l
remove_found-IsLawful now (some c) db l = end_devices-IsLawful _ db l

pub remove_child-IsLawful :
    (now household_id : ℕ) (child_id : Option ℕ) (confirmed : Bool) (db : AccessDb)
    → IsLawful db
    → IsLawful (remove_child now household_id child_id confirmed db).0
unfolding remove_child
remove_child-IsLawful now household_id none confirmed db l = l
remove_child-IsLawful now household_id (some child_id) confirmed db l =
    let o = find (is_child_of child_id household_id) db.children in
    if-holds (λ r. IsLawful r.0) confirmed {x = remove_found now o db} {y = (db, fail 422)}
      (remove_found-IsLawful now o db l) l
