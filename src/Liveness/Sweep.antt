-- ===== src/Liveness/Sweep.antt =====
-- apps/api/src/jobs/liveness.ts: a whole sweep over the devices.
use homeparentcontrol.Prelude.{
  ℕ, ◌+◌, ◌≤◌, ◌≡◌, refl, not, List, [], ◌∷◌, arith, filter, length, inl, inr, Bool-cases,
}
use homeparentcontrol.Calendar.{Tzdb}
use homeparentcontrol.Liveness.{
  Device, Db, LivenessResult, settle, decide, online_of, state_eq, evaluate_device,
  evaluate_devices, evaluate_liveness, is_decommissioned, maybe_notify,
}
use homeparentcontrol.Liveness.Intervals.{
  IsConsistent, transition-IsConsistent, maybe_notify-IsConsistent, reclassify-IsConsistent,
}
use homeparentcontrol.Liveness.History.{
  Extends, Extends-refl, Extends-trans, transition-Extends, maybe_notify-Extends,
  reclassify-Extends,
}

module _ (tz : Tzdb) (now : ℕ) where
  settle-IsConsistent :
      (d : Device) (db : Db) → IsConsistent db → IsConsistent (settle tz now d db).0
  unfolding settle
  settle-IsConsistent d db h =
      let v = decide db.events d now (online_of tz now d db) in
      elim (Bool-cases (state_eq v.state d.health_state)) [
        | inl same ↦ rw same h
        | inr other ↦ rw other (transition-IsConsistent d v now db h)
      ]

  settle-Extends : (d : Device) (db : Db) → Extends db.intervals (settle tz now d db).0.intervals
  unfolding settle
  settle-Extends d db =
      let v = decide db.events d now (online_of tz now d db) in
      elim (Bool-cases (state_eq v.state d.health_state)) [
        | inl same ↦ rw same (Extends-refl db.intervals)
        | inr other ↦ rw other (transition-Extends d v now db)
      ]

  -- One device: the invariant is kept, nothing observed is lost, and the evaluation is counted.
  evaluate_device_lem :
      (d : Device) (db : Db) (r : LivenessResult)
      → (IsConsistent db → IsConsistent (evaluate_device tz now d (db, r)).0)
        × Extends db.intervals (evaluate_device tz now d (db, r)).0.intervals
        × ((evaluate_device tz now d (db, r)).1.evaluated ≡ r.evaluated + 1)
        × (((evaluate_device tz now d (db, r)).1).changed ≤ r.changed + 1)
  unfolding evaluate_device
  evaluate_device_lem d db r =
      let v = decide db.events d now (online_of tz now d db) in
      let s = settle tz now d db in
      let m = maybe_notify d v now (online_of tz now d db) s.0 in
      (
        λ h. reclassify-IsConsistent d m.0 (
            maybe_notify-IsConsistent d v now (online_of tz now d db) s.0
              (settle-IsConsistent d db h)),
        Extends-trans (settle-Extends d db) (
            Extends-trans (maybe_notify-Extends d v now (online_of tz now d db) s.0)
              (reclassify-Extends d m.0)),
        refl,
        ground arith,
      )

  evaluate_devices_lem :
      (ds : List Device) (db : Db) (r : LivenessResult)
      → (IsConsistent db → IsConsistent (evaluate_devices tz now ds (db, r)).0)
        × Extends db.intervals (evaluate_devices tz now ds (db, r)).0.intervals
        × ((evaluate_devices tz now ds (db, r)).1.evaluated ≡ r.evaluated + length ds)
  unfolding evaluate_devices
  evaluate_devices_lem [] db r = (λ h. h, Extends-refl db.intervals, omega arith)
  evaluate_devices_lem (d ∷ ds) db r =
      let one = evaluate_device_lem d db r in
      let next = evaluate_device tz now d (db, r) in
      let rest = evaluate_devices_lem ds next.0 next.1 in
      (λ h. rest.0 (one.0 h), Extends-trans one.1 rest.1, omega (arith, one.2, rest.2))

  -- If every device has at most one open interval, in the health state that the device shows, and the
  -- intervals' ids are distinct and below the next one to be given, then so it is after a sweep.
  pub evaluate_liveness-IsConsistent :
      (db : Db) → IsConsistent db → IsConsistent (evaluate_liveness tz now db).0
  unfolding evaluate_liveness
  evaluate_liveness-IsConsistent db h = (evaluate_devices_lem _ db _).0 h

  -- A sweep only adds to the history: every interval keeps its id, its device, when it was entered
  -- and, once it is over, when it was left, whatever is reclassified or notified.
  pub evaluate_liveness-Extends :
      (db : Db) → Extends db.intervals (evaluate_liveness tz now db).0.intervals
  unfolding evaluate_liveness
  evaluate_liveness-Extends db = (evaluate_devices_lem _ db _).1

  -- A sweep counts as evaluated the devices that are not decommissioned.
  evaluate_liveness-evaluated :
      (db : Db)
      → (evaluate_liveness tz now db).1.evaluated
        ≡ length (filter (λ d. not (is_decommissioned d.status)) db.devices)
  unfolding evaluate_liveness
  evaluate_liveness-evaluated db = omega (arith, (evaluate_devices_lem _ db _).2)
