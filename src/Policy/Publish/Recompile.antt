-- ===== src/Policy/Publish/Recompile.antt =====
-- apps/api/src/jobs/recompile.ts: the nightly recompile of every device's policy.
use homeparentcontrol.Prelude.{
  ℕ, ◌+◌, ◌≡◌, ◌≢◌, refl, ◌∙◌, Bool, false, not, List, [], ◌∷◌, Option, none, arith, ◌==◌, All,
  filter, length, inl, inr, Bool-cases,
}
use homeparentcontrol.Policy.{Text, CompilerInput}
use homeparentcontrol.Policy.Document.{PolicyDocument}
use homeparentcontrol.Policy.Publish.{
  calendar, PolicyVersion, Tables, PublishResult, unchanged, published, failed, publish_policy,
  publish_document, store,
}

pub record RecompileResult : Type 0 where
  pub considered : ℕ
  pub published_count : ℕ
  pub unchanged_count : ℕ
  pub failed_count : ℕ

-- A device's id, and whether it is decommissioned.
pub record RecompileDevice : Type 0 where
  pub id : ℕ
  pub decommissioned : Bool

-- The counter that an outcome of `publishPolicy` adds to; `failed` is the `catch`.
unfoldable pub tally : PublishResult → RecompileResult → RecompileResult
tally (published v e h) r = record r { published_count = r.published_count + 1 }
tally (unchanged v e) r = record r { unchanged_count = r.unchanged_count + 1 }
tally failed r = record r { failed_count = r.failed_count + 1 }

-- The rows of a device.
abbrev pub rows_of : ℕ → List PolicyVersion → List PolicyVersion
rows_of id rows = filter (λ r. r.device_id == id) rows

module _ (compile : CompilerInput → PolicyDocument) (parse : PolicyDocument → Option PolicyDocument)
    (digest : PolicyDocument → Text) (sign : PolicyDocument → Option Text)
    (gather : ℕ → Tables → Option CompilerInput) where
  unfoldable pub recompile_devices :
      List RecompileDevice → Tables × RecompileResult → Tables × RecompileResult
  recompile_devices [] s = s
  recompile_devices (d ∷ ds) (db, r) =
      let (db', outcome) =
        publish_policy compile parse digest sign d.id calendar none (gather d.id db) db in
      recompile_devices ds (db', tally outcome r)

  unfoldable pub recompile_horizons : List RecompileDevice → Tables → Tables × RecompileResult
  unfolding recompile_devices
  recompile_horizons devices db =
      let active = filter (λ d. not d.decommissioned) devices in
      recompile_devices active (
        db,
        record {
          considered = length active;
          published_count = 0;
          unchanged_count = 0;
          failed_count = 0;
        },
      )

  abbrev pub outcomes : RecompileResult → ℕ
  outcomes r = r.published_count + r.unchanged_count + r.failed_count

  tally-outcomes : (o : PublishResult) (r : RecompileResult) → outcomes (tally o r) ≡ outcomes r + 1
  unfolding tally
  tally-outcomes (published v e h) r = omega arith
  tally-outcomes (unchanged v e) r = omega arith
  tally-outcomes failed r = omega arith

  tally-considered :
      (o : PublishResult) (r : RecompileResult) → (tally o r).considered ≡ r.considered
  unfolding tally
  tally-considered (published v e h) r = refl
  tally-considered (unchanged v e) r = refl
  tally-considered failed r = refl

  recompile_devices_lem :
      (ds : List RecompileDevice) (db : Tables) (r : RecompileResult)
      → (outcomes (recompile_devices ds (db, r)).1 ≡ outcomes r + length ds)
        × ((recompile_devices ds (db, r)).1.considered ≡ r.considered)
  unfolding recompile_devices
  recompile_devices_lem [] db r = (omega arith, refl)
  recompile_devices_lem (d ∷ ds) db r =
      let p = publish_policy compile parse digest sign d.id calendar none (gather d.id db) db in
      let ih = recompile_devices_lem ds p.0 (tally p.1 r) in
      (omega (arith, ih.0, tally-outcomes p.1 r), ih.1 ∙ tally-considered p.1 r)

  -- One device's publish leaves the rows of every other device as they are.
  publish_policy-rows :
      (id other : ℕ) (gathered : Option CompilerInput) (db : Tables)
      → id ≢ other
      → rows_of other
          (publish_policy compile parse digest sign id calendar none gathered db).0.versions
        ≡ rows_of other db.versions
  unfolding publish_policy publish_document store
  publish_policy-rows id other gathered db h = ground arith

  -- The nightly pass counts each device that is not decommissioned once: as published, as unchanged,
  -- or as failed.
  recompile_horizons_counts :
      (devices : List RecompileDevice) (db : Tables)
      → (outcomes (recompile_horizons devices db).1 ≡ (recompile_horizons devices db).1.considered)
        × ((recompile_horizons devices db).1.considered
            ≡ length (filter (λ d. not d.decommissioned) devices))
  unfolding recompile_horizons
  recompile_horizons_counts devices db =
      let lem = recompile_devices_lem (filter (λ d. not d.decommissioned) devices) db _ in
      (omega (arith, lem.0, lem.1), lem.1)

  recompile_devices-rows :
      (other : ℕ) (ds : List RecompileDevice) (db : Tables) (r : RecompileResult)
      → All (λ d. d.id ≢ other) ds
      → rows_of other (recompile_devices ds (db, r)).0.versions ≡ rows_of other db.versions
  unfolding recompile_devices
  recompile_devices-rows other [] db r h = refl
  recompile_devices-rows other (d ∷ ds) db r h =
      let p = publish_policy compile parse digest sign d.id calendar none (gather d.id db) db in
      recompile_devices-rows other ds p.0 (tally p.1 r) h.1
      ∙ publish_policy-rows d.id other (gather d.id db) db h.0

  active_ids :
      (other : ℕ) (ds : List RecompileDevice)
      → All (λ d. d.decommissioned ≡ false → d.id ≢ other) ds
      → All (λ d. d.id ≢ other) (filter (λ d. not d.decommissioned) ds)
  active_ids other [] h = tt
  active_ids other (d ∷ ds) h = elim (Bool-cases d.decommissioned) [
    | inl retired ↦ rw retired (active_ids other ds h.1)
    | inr active ↦ rw active (h.0 active, active_ids other ds h.1)
  ]

  -- A device that is not among those in service gets no new policy from the nightly pass: its
  -- versions are as they were before.
  recompile_horizons-rows :
      (other : ℕ) (devices : List RecompileDevice) (db : Tables)
      → All (λ d. d.decommissioned ≡ false → d.id ≢ other) devices
      → rows_of other (recompile_horizons devices db).0.versions ≡ rows_of other db.versions
  unfolding recompile_horizons
  recompile_horizons-rows other devices db h =
      recompile_devices-rows other _ db _ (active_ids other devices h)
