-- ===== src/Policy/Publish/Versions.antt =====
-- apps/api/src/policy/publish.ts: the sequence of versions of a device.
use homeparentcontrol.Prelude.{
  ℕ, ◌+◌, ◌≤◌, ◌<◌, ◌≡◌, ◌≢◌, refl, true, List, [], ◌∷◌, Option, none, some, arith, String, ◌==◌,
  All, All-map_imp, map, any, sym, ap, subst, ◌∙◌, inl, inr, Bool-cases, Option-cases, ◌⊎◌,
}
use homeparentcontrol.Prelude.Query.{latest_by, latest_by-some}
use homeparentcontrol.Policy.{Text, CompilerInput}
use homeparentcontrol.Policy.Canonical.{etag_for}
use homeparentcontrol.Policy.Document.{PolicyDocument}
use homeparentcontrol.Policy.Publish.{
  PublishReason, PolicyVersion, PublishDevice, Tables, PublishResult, unchanged, published, failed,
  content, current_of, version_or_zero, has_hash, etag_of, text_eq, content_hash, store,
  publish_document, publish_policy, set_policy_set,
}

-- No version of the device is above `n`.
abbrev pub IsAtMost : ℕ → ℕ → List PolicyVersion → Type 0
IsAtMost device_id n rows = All (λ r. r.device_id ≡ device_id → r.version ≤ n) rows

text_eq_refl : (t : Text) → text_eq t t ≡ true
unfolding text_eq
text_eq_refl [] = refl
text_eq_refl (a ∷ xs) = ground (arith, text_eq_refl xs)

latest_by-none_of :
    (device_id : ℕ) (rows : List PolicyVersion)
    → current_of device_id rows ≡ none
    → All (λ r. r.device_id ≢ device_id) rows
unfolding latest_by
latest_by-none_of device_id [] e = tt
latest_by-none_of device_id (r ∷ rs) e = elim (Option-cases (current_of device_id rs)) [
  | inl n ↦ ((λ q. ground arith), latest_by-none_of device_id rs n)
  | inr (y, q) ↦ absurd (ground arith)
]

-- Before: the current version is the greatest one of the device.
current_of-IsAtMost :
    (device_id : ℕ) (rows : List PolicyVersion)
    → IsAtMost device_id (version_or_zero (current_of device_id rows)) rows
current_of-IsAtMost device_id rows = elim (Option-cases (current_of device_id rows)) [
  | inl e ↦ rw e (All-map_imp (λ r p q. absurd (p q)) rows (latest_by-none_of device_id rows e))
  | inr (c, e) ↦ rw e (
      All-map_imp (λ r p q. p (ground arith)) rows
        (latest_by-some (λ r. r.device_id == device_id) (λ r. r.version) rows c e).1)
]

-- The newest row is the current one, if it is numbered above the others of its device.
current_of-cons :
    (r : PolicyVersion) (rows : List PolicyVersion)
    → version_or_zero (current_of r.device_id rows) < r.version
    → current_of r.device_id (r ∷ rows) ≡ some r
unfolding latest_by
current_of-cons r rows h = ground arith

module _ (compile : CompilerInput → PolicyDocument) (parse : PolicyDocument → Option PolicyDocument)
    (digest : PolicyDocument → Text) (sign : PolicyDocument → Option Text) where
  abbrev pub publish :
      ℕ → PublishReason → Option String → Option CompilerInput → Tables → Tables × PublishResult
  publish = publish_policy compile parse digest sign

  publish_cases :
      (id : ℕ) (reason : PublishReason) (by : Option String) (gathered : Option CompilerInput)
      (db : Tables)
      → (publish id reason by gathered db ≡ (db, failed))
        ⊎ ((input : CompilerInput) × (doc : PolicyDocument) × (gathered ≡ some input)
            × (parse (compile input) ≡ some doc)
            × (any (λ d. d.id == id) db.devices ≡ true)
            × (publish id reason by gathered db
                ≡ publish_document compile parse digest sign id reason by input doc db))
  unfolding publish_policy
  publish_cases id reason by gathered db = elim (Bool-cases (any (λ d. d.id == id) db.devices)) [
    | inr gone ↦ inl (rw gone refl)
    | inl here ↦ elim (Option-cases gathered) [
      | inl n ↦ inl (rw (here, n) refl)
      | inr (input, g) ↦ elim (Option-cases (parse (compile input))) [
        | inl n ↦ inl (rw (here, g, n) refl)
        | inr (doc, p) ↦ inr (input, doc, g, p, here, rw (here, g, p) refl)
      ]
    ]
  ]

  document_cases :
      (id : ℕ) (reason : PublishReason) (by : Option String) (input : CompilerInput)
      (doc : PolicyDocument) (db : Tables)
      → (has_hash (current_of id db.versions) (content_hash compile parse digest sign doc) ≡ true)
          × (publish_document compile parse digest sign id reason by input doc db ≡ (
            db,
            unchanged
                (version_or_zero (current_of id db.versions))
                (etag_of (current_of id db.versions)),
          ))
        ⊎ (publish_document compile parse digest sign id reason by input doc db
            ≡ store compile parse digest sign id reason by input doc
                (version_or_zero (current_of id db.versions) + 1)
                db)
  unfolding publish_document
  document_cases id reason by input doc db =
      elim (Bool-cases
        (has_hash (current_of id db.versions) (content_hash compile parse digest sign doc))) [
          | inl same ↦ inl (same, rw same refl)
          | inr other ↦ inr (rw other refl)
        ]

  -- A version that is published is one above the device's current one and above every earlier one,
  -- and becomes the current one; the rows of before stay.
  pub publish_new_version :
      (id : ℕ) (reason : PublishReason) (by : Option String) (gathered : Option CompilerInput)
      (db : Tables) (v : ℕ) (etag hash : Text)
      → (publish id reason by gathered db).1 ≡ published v etag hash
      → (v ≡ version_or_zero (current_of id db.versions) + 1)
        × All (λ r. r.device_id ≡ id → r.version < v) db.versions
        × (version_or_zero (current_of id (publish id reason by gathered db).0.versions) ≡ v)
        × ((r : PolicyVersion) × ((publish id reason by gathered db).0.versions ≡ r ∷ db.versions)
            × (r.device_id ≡ id)
            × (r.etag ≡ etag_for r.document_hash v))
  unfolding store
  publish_new_version id reason by gathered db v etag hash e =
      elim (publish_cases id reason by gathered db) [
        | inl failure ↦ absurd (ground arith)
        | inr (input, doc, _, _, _, done) ↦ elim (document_cases id reason by input doc db) [
          | inl (_, same) ↦ absurd (ground arith)
          | inr stored ↦
              let next = version_or_zero (current_of id db.versions) + 1 in
              let h = content_hash compile parse digest sign doc in
              let row : PolicyVersion = record {
                device_id = id;
                version = next;
                document = doc;
                document_hash = h;
                jws = sign doc;
                etag = etag_for h next;
                issued_at = input.now;
                not_before = input.now;
                published_by = by;
                publish_reason = reason;
              } in
              let is_next : v ≡ next = ground arith in
              let current = current_of-cons row db.versions (omega arith) in
              (
                is_next,
                All-map_imp (λ r p q. omega (arith, p q)) db.versions
                    (current_of-IsAtMost id db.versions),
                rw (done, stored) (rw current (sym is_next)),
                (row, rw (done, stored) refl, refl, ap (etag_for h) (sym is_next)),
              )
        ]
      ]

  any-set_policy_set :
      (id other : ℕ) (set : String) (ds : List PublishDevice)
      → any (λ d. d.id == id) (map (set_policy_set other set) ds) ≡ any (λ d. d.id == id) ds
  any-set_policy_set id other set [] = refl
  any-set_policy_set id other set (d ∷ ds) = ground (arith, any-set_policy_set id other set ds)

  publish_parsed :
      (id : ℕ) (reason : PublishReason) (by : Option String) (input : CompilerInput)
      (doc : PolicyDocument) (db : Tables)
      → parse (compile input) ≡ some doc
      → any (λ d. d.id == id) db.devices ≡ true
      → publish id reason by (some input) db
        ≡ publish_document compile parse digest sign id reason by input doc db
  unfolding publish_policy
  publish_parsed id reason by input doc db p here = rw (here, p) refl

  -- After a document was published, or found unchanged, the device's current row has its hash.
  document_hash :
      (id : ℕ) (reason : PublishReason) (by : Option String) (input : CompilerInput)
      (doc : PolicyDocument) (db : Tables)
      → let after = (publish_document compile parse digest sign id reason by input doc db).0 in
        (has_hash (current_of id after.versions) (content_hash compile parse digest sign doc)
          ≡ true)
        × (any (λ d. d.id == id) after.devices ≡ any (λ d. d.id == id) db.devices)
  unfolding store
  document_hash id reason by input doc db = elim (document_cases id reason by input doc db) [
    | inl (same, kept) ↦ rw kept (same, refl)
    | inr stored ↦
        let next = version_or_zero (current_of id db.versions) + 1 in
        let h = content_hash compile parse digest sign doc in
        let row : PolicyVersion = record {
          device_id = id;
          version = next;
          document = doc;
          document_hash = h;
          jws = sign doc;
          etag = etag_for h next;
          issued_at = input.now;
          not_before = input.now;
          published_by = by;
          publish_reason = reason;
        } in
        let current = current_of-cons row db.versions (omega arith) in
        rw stored
          (rw current (text_eq_refl h), any-set_policy_set id id input.policy_set.id db.devices)
  ]

  -- Publishing a second time for a device that exists, where both documents pass the schema and have
  -- the same content, whatever the clock, the version and the reason, changes no table: the answer is
  -- the version that the first time left.
  pub publish_again :
      (id : ℕ) (reason reason' : PublishReason) (by by' : Option String)
      (input input' : CompilerInput) (doc doc' : PolicyDocument) (db : Tables)
      → any (λ d. d.id == id) db.devices ≡ true
      → parse (compile input) ≡ some doc
      → parse (compile input') ≡ some doc'
      → content doc ≡ content doc'
      → let after = (publish id reason by (some input) db).0 in
        publish id reason' by' (some input') after ≡ (
          after,
          unchanged
              (version_or_zero (current_of id after.versions))
              (etag_of (current_of id after.versions)),
        )
  unfolding publish_document content_hash
  publish_again id reason reason' by by' input input' doc doc' db here p p' same =
      let after = (publish_document compile parse digest sign id reason by input doc db).0 in
      let first = publish_parsed id reason by input doc db p here in
      let hash = document_hash id reason by input doc db in
      let known : has_hash (current_of id after.versions) (digest (content doc')) ≡ true =
        subst (λ c. has_hash (current_of id after.versions) (digest c) ≡ true) same hash.0 in
      rw (first, publish_parsed id reason' by' input' doc' after p' (hash.1 ∙ here)) (rw known refl)
