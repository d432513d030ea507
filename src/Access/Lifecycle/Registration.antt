-- ===== src/Access/Lifecycle/Registration.antt =====
-- apps/api/src/routes/enroll.ts: the write that gives a device its hardware and its credential.
use homeparentcontrol.Prelude.{
  ℕ, ◌≡◌, refl, sym, subst, String, Bool, true, false, List, [], ◌∷◌, map, arith, ◌==◌, eq_iff, any,
  inl, inr, Bool-cases, All, All-map_imp,
}
use homeparentcontrol.Prelude.Members.{All-map}
use homeparentcontrol.Access.{AccessDevice, Enrolment}
use homeparentcontrol.Access.Enrol.{IssueBody, is_live, is_hardware, is_holder, register}
use homeparentcontrol.Access.Lifecycle.Codes.{open_codes}
use homeparentcontrol.Access.Lifecycle.Devices.{
  IsFit, Agree, Pairs-map, IsRow-map, All-zip_with, AreLawful,
}

-- The registration of a Mac that no other live device holds.
clash :
    (i : ℕ) (uuid : String) (b : AccessDevice)
    → is_holder i uuid b ≡ false
    → (b.id == i) ≡ false
    → is_live b.status ≡ true
    → is_hardware b.hardware_uuid uuid ≡ true
    → (x y : ℕ) → x ≡ y
clash i uuid b h e l u x y = absurd (ground (arith, h, e, l, u))

any-none :
    (p : AccessDevice → Bool) (ds : List AccessDevice)
    → any p ds ≡ false
    → All (λ d. p d ≡ false) ds
any-none p [] h = tt
any-none p (d ∷ ds) h = elim (Bool-cases (p d)) [
  | inl e ↦ absurd (ground (arith, e))
  | inr e ↦ (e, any-none p ds (ground (arith, e)))
]

module _ (i key_id : ℕ) (body : IssueBody) where
  register-Agree :
      (a b : AccessDevice)
      → is_holder i body.hardware_uuid a ≡ false
      → is_holder i body.hardware_uuid b ≡ false
      → Agree a b
      → Agree (register i key_id body a) (register i key_id body b)
  register-Agree a b ha hb r = elim (Bool-cases (a.id == i)) [
    | inl ea ↦ elim (Bool-cases (b.id == i)) [
      | inl eb ↦ rw (ea, eb) (λ la lb uuid xa xb. ground arith)
      | inr eb ↦
          rw (ea, eb)
            (λ la lb uuid xa xb.
              let same : body.hardware_uuid ≡ uuid =
                ground (arith, eq_iff body.hardware_uuid uuid) in
              clash i body.hardware_uuid b hb eb lb
                (subst (λ t. is_hardware b.hardware_uuid t ≡ true) (sym same) xb) a.id b.id)
    ]
    | inr ea ↦ elim (Bool-cases (b.id == i)) [
      | inl eb ↦
          rw (ea, eb)
            (λ la lb uuid xa xb.
              let same : body.hardware_uuid ≡ uuid =
                ground (arith, eq_iff body.hardware_uuid uuid) in
              clash i body.hardware_uuid a ha ea la
                (subst (λ t. is_hardware a.hardware_uuid t ≡ true) (sym same) xa) a.id b.id)
      | inr eb ↦ rw (ea, eb) r
    ]
  ]

  register-id : (d : AccessDevice) → (register i key_id body d).id ≡ d.id
  register-id d = elim (Bool-cases (d.id == i)) [ inl e ↦ rw e refl | inr e ↦ rw e refl ]

  register-IsFit :
      (rows : List Enrolment) (d : AccessDevice)
      → open_codes i rows ≡ 0
      → IsFit rows d
      → IsFit rows (register i key_id body d)
  register-IsFit rows d o f = elim (Bool-cases (d.id == i)) [
    | inl e ↦
        let z : open_codes d.id rows ≡ 0 = subst (λ t. open_codes t rows ≡ 0) (ground arith) o in
        rw e
          (record { unused = λ _. z; single = omega arith; bare = λ p. absurd (ground (arith, p)) })
    | inr e ↦ rw e f
  ]

  pub register-AreLawful :
      (rows : List Enrolment) (ds : List AccessDevice)
      → open_codes i rows ≡ 0
      → any (is_holder i body.hardware_uuid) ds ≡ false
      → AreLawful rows ds
      → AreLawful rows (map (register i key_id body) ds)
  register-AreLawful rows ds o h l =
      let free = any-none (is_holder i body.hardware_uuid) ds h in
      record {
        one_row = IsRow-map (register i key_id body) ds register-id l.one_row;
        fit =
            All-map (IsFit rows) (register i key_id body) ds
              (All-map_imp (λ d f. register-IsFit rows d o f) ds l.fit);
        one_mac =
            Pairs-map
              (λ a b.
                (is_holder i body.hardware_uuid a ≡ false)
                × ((is_holder i body.hardware_uuid b ≡ false) × Agree a b))
              Agree (register i key_id body) ds (λ a b t. register-Agree a b t.0 t.1.0 t.1.1)
              (All-zip_with ds (λ a p q. All-zip_with ds (λ b s r. (p, (s, r))) free q) free
                l.one_mac);
      }
