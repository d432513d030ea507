-- ===== src/Liveness/History.antt =====
-- apps/api/src/jobs/liveness.ts: what was observed stays observed.
use homeparentcontrol.Prelude.{
  ℕ, ◌-◌, ◌≡◌, refl, ◌∙◌, Bool, ◌||◌, not, List, [], ◌∷◌, some, map, arith, inl, inr, is_some,
  Bool-cases, Option-cases,
}
use homeparentcontrol.Prelude.Query.{latest_by}
use homeparentcontrol.Liveness.{
  Device, Interval, Db, Verdict, close, mark_notified, mark_off, transition, maybe_notify, is_due,
  reclassify_if_machine_was_off, is_open_of, is_explained,
}

-- A later version of an interval: of the same device, entered and, if it was over, left when it was.
pub record IsKept (i j : Interval) : Type 0 where
  pub id : j.id ≡ i.id
  pub device : j.device_id ≡ i.device_id
  pub entered : j.entered_at ≡ i.entered_at
  pub exited : (t : ℕ) → i.exited_at ≡ some t → j.exited_at ≡ some t

-- A later version of the table: every interval is kept, in order, and new ones stand among them.
pub data Extends : List Interval → List Interval → Type 0 where
  nil : Extends [] []
  keep :
      {i j : Interval} {is js : List Interval}
      → IsKept i j
      → Extends is js
      → Extends (i ∷ is) (j ∷ js)
  new : {is js : List Interval} (j : Interval) → Extends is js → Extends is (j ∷ js)

IsKept-trans : (i j k : Interval) → IsKept i j → IsKept j k → IsKept i k
IsKept-trans i j k p q = record {
  id = q.id ∙ p.id;
  device = q.device ∙ p.device;
  entered = q.entered ∙ p.entered;
  exited = λ t e. q.exited t (p.exited t e);
}

pub Extends-trans : {is js ks : List Interval} → Extends is js → Extends js ks → Extends is ks
Extends-trans e (new k f) = new k (Extends-trans e f)
Extends-trans nil nil = nil
Extends-trans (keep {i} {j} p e) (keep {j = k} q f) =
    keep (IsKept-trans i j k p q) (Extends-trans e f)
Extends-trans (new j e) (keep q f) = new _ (Extends-trans e f)

Extends-map :
    (f : Interval → Interval)
    → ((i : Interval) → IsKept i (f i))
    → (is : List Interval) → Extends is (map f is)
Extends-map f k [] = nil
Extends-map f k (i ∷ is) = keep (k i) (Extends-map f k is)

pub Extends-refl : (is : List Interval) → Extends is is
Extends-refl [] = nil
Extends-refl (i ∷ is) =
    keep (record { id = refl; device = refl; entered = refl; exited = λ t e. e }) (Extends-refl is)

close-IsKept : (d now : ℕ) (i : Interval) → IsKept i (close d now i)
close-IsKept d now i = record {
  id = ground arith;
  device = ground arith;
  entered = ground arith;
  exited = λ t e. ground arith;
}

pub transition-Extends :
    (d : Device) (v : Verdict) (now : ℕ) (db : Db)
    → Extends db.intervals (transition d v now db).intervals
unfolding transition
transition-Extends d v now db =
    new _ (Extends-map (close d.id now) (close-IsKept d.id now) db.intervals)

pub maybe_notify-Extends :
    (d : Device) (v : Verdict) (now : ℕ) (inside : Bool) (db : Db)
    → Extends db.intervals (maybe_notify d v now inside db).0.intervals
unfolding maybe_notify
maybe_notify-Extends d v now inside db =
    elim (Option-cases (latest_by (is_open_of d.id) (λ i. i.entered_at) db.intervals)) [
      | inl e ↦ rw (e, maybe_notify) (Extends-refl db.intervals)
      | inr (i, e) ↦
          elim (Bool-cases
            (is_some i.notified_at || not (is_due v.state inside (now - i.entered_at)))) [
              | inl quiet ↦ rw (e, maybe_notify) (rw quiet (Extends-refl db.intervals))
              | inr loud ↦
                  rw (e, maybe_notify)
                    (rw loud (
                      Extends-map (mark_notified i.id now)
                        (λ j. record {
                          id = ground arith;
                          device = ground arith;
                          entered = ground arith;
                          exited = λ t q. ground arith;
                        })
                        db.intervals))
            ]
    ]

pub reclassify-Extends :
    (d : Device) (db : Db) → Extends db.intervals (reclassify_if_machine_was_off d db).0.intervals
unfolding reclassify_if_machine_was_off
reclassify-Extends d db = elim (Option-cases d.system_boot_time) [
  | inl e ↦ rw e (Extends-refl db.intervals)
  | inr (boot, e) ↦
      elim (Option-cases (latest_by (is_explained d.id boot) (λ i. i.entered_at) db.intervals)) [
        | inl n ↦ rw (e, reclassify_if_machine_was_off) (rw n (Extends-refl db.intervals))
        | inr (i, s) ↦
            rw (e, reclassify_if_machine_was_off)
              (rw s (
                Extends-map (mark_off i.id i.state)
                  (λ j. record {
                    id = ground arith;
                    device = ground arith;
                    entered = ground arith;
                    exited = λ t q. ground arith;
                  })
                  db.intervals))
      ]
]
