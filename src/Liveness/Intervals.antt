-- ===== src/Liveness/Intervals.antt =====
-- apps/api/src/jobs/liveness.ts: the open interval of a device is its health state.
use homeparentcontrol.Prelude.{
  ℕ, ◌+◌, ◌≡◌, ◌≢◌, refl, sym, ◌∙◌, Bool, true, false, not, List, [], ◌∷◌, map, arith, All,
  All-map_imp, All_of_Memᴰ, ◌<◌, ◌-◌, ◌||◌, subst, ap, ◌⊎◌, inl, inr, ◌==◌, if◌then◌else◌, is_some,
  Bool-cases, Option-cases,
}
use mathlib.Core.List.{Memᴰ}
use homeparentcontrol.Liveness.{
  HealthState, Device, Interval, Db, Verdict, close, is_open, set_health, transition, mark_notified,
  mark_off, maybe_notify, is_due, reclassify_if_machine_was_off, is_open_of, is_explained,
}
use homeparentcontrol.Prelude.Query.{latest_by, latest_by-some, latest_by-mem}

-- The states of the open intervals of a device.
abbrev pub open_states : ℕ → List Interval → List HealthState
open_states id [] = []
open_states id (i ∷ is) = if is_open_of id i then i.state ∷ open_states id is else open_states id is

-- A device has either no interval yet or one open interval, in the state that the device shows.
abbrev pub Agrees : List Interval → Device → Type 0
Agrees is d = (open_states d.id is ≡ []) ⊎ (open_states d.id is ≡ d.health_state ∷ [])

-- No two intervals have the same id, which is their primary key.
abbrev pub HaveDistinctIds : List Interval → Type 0
HaveDistinctIds [] = Unit
HaveDistinctIds (i ∷ is) = All (λ j. j.id ≢ i.id) is × HaveDistinctIds is

pub record IsConsistent (db : Db) : Type 0 where
  pub agrees : All (Agrees db.intervals) db.devices
  pub numbered : All (λ i. i.id < db.next_interval) db.intervals
  pub distinct : HaveDistinctIds db.intervals

open_states-close_self :
    (id now : ℕ) (is : List Interval) → open_states id (map (close id now) is) ≡ []
open_states-close_self id now [] = refl
open_states-close_self id now (i ∷ is) = ground (arith, open_states-close_self id now is)

open_states-close_other :
    (id now other : ℕ) (is : List Interval)
    → other ≢ id
    → open_states other (map (close id now) is) ≡ open_states other is
open_states-close_other id now other [] h = refl
open_states-close_other id now other (i ∷ is) h =
    ground (arith, open_states-close_other id now other is h)

-- After a transition the device has exactly one open interval, in the new state, entered now; those
-- of the other devices are as they were.
transition-open_states :
    (d : Device) (v : Verdict) (now other : ℕ) (db : Db)
    → open_states other (transition d v now db).intervals
      ≡ (if d.id == other then v.state ∷ [] else open_states other db.intervals)
unfolding transition
transition-open_states d v now other db = ground (
  arith,
  open_states-close_self d.id now db.intervals,
  open_states-close_other d.id now other db.intervals,
)

Agrees-set_health :
    (d : Device) (v : Verdict) (now : ℕ) (db : Db) (e : Device)
    → Agrees db.intervals e
    → Agrees (transition d v now db).intervals (set_health d.id v now e)
Agrees-set_health d v now db e h = elim (Bool-cases (e.id == d.id)) [
  | inl same ↦ inr (ground (arith, transition-open_states d v now e.id db))
  | inr other ↦ ground (arith, transition-open_states d v now e.id db)
]

All-set_health :
    (d : Device) (v : Verdict) (now : ℕ) (db : Db) (es : List Device)
    → All (Agrees db.intervals) es
    → All (Agrees (transition d v now db).intervals) (map (set_health d.id v now) es)
All-set_health d v now db [] h = tt
All-set_health d v now db (e ∷ es) h =
    (Agrees-set_health d v now db e h.0, All-set_health d v now db es h.1)

module _ (f : Interval → Interval) (keeps : (i : Interval) → (f i).id ≡ i.id) where
  ids_below-map :
      (n : ℕ) (is : List Interval) → All (λ i. i.id < n) is → All (λ i. i.id < n) (map f is)
  ids_below-map n [] h = tt
  ids_below-map n (i ∷ is) h = (omega (arith, h.0, keeps i), ids_below-map n is h.1)

  ids_ne-map :
      (n : ℕ) (is : List Interval) → All (λ i. i.id ≢ n) is → All (λ i. i.id ≢ n) (map f is)
  ids_ne-map n [] h = tt
  ids_ne-map n (i ∷ is) h = (λ e. h.0 (sym (keeps i) ∙ e), ids_ne-map n is h.1)

  HaveDistinctIds-map : (is : List Interval) → HaveDistinctIds is → HaveDistinctIds (map f is)
  HaveDistinctIds-map [] h = tt
  HaveDistinctIds-map (i ∷ is) h =
      (rw (keeps i) (ids_ne-map i.id is h.0), HaveDistinctIds-map is h.1)

ids_next : (n : ℕ) (is : List Interval) → All (λ i. i.id < n) is → All (λ i. i.id < n + 1) is
ids_next n is h = All-map_imp (λ i p. omega arith) is h

ids_new : (n : ℕ) (is : List Interval) → All (λ i. i.id < n) is → All (λ i. i.id ≢ n) is
ids_new n is h = All-map_imp (λ i p. omega arith) is h

pub transition-IsConsistent :
    (d : Device) (v : Verdict) (now : ℕ) (db : Db)
    → IsConsistent db
    → IsConsistent (transition d v now db)
unfolding transition
transition-IsConsistent d v now db h =
    let closed =
      ids_below-map (close d.id now) (λ i. ground arith) db.next_interval db.intervals h.numbered in
    record {
      agrees = All-set_health d v now db db.devices h.agrees;
      numbered = (omega arith, ids_next db.next_interval _ closed);
      distinct = (
        ids_new db.next_interval _ closed,
        HaveDistinctIds-map (close d.id now) (λ i. ground arith) db.intervals h.distinct,
      );
    }

open_states-mark_notified :
    (id now other : ℕ) (is : List Interval)
    → open_states other (map (mark_notified id now) is) ≡ open_states other is
open_states-mark_notified id now other [] = refl
open_states-mark_notified id now other (i ∷ is) =
    ground (arith, open_states-mark_notified id now other is)

Agrees-of_same :
    (is js : List Interval)
    → ((id : ℕ) → open_states id js ≡ open_states id is)
    → (ds : List Device) → All (Agrees is) ds
    → All (Agrees js) ds
Agrees-of_same is js same ds h = All-map_imp (λ d p. rw (same d.id) p) ds h

-- An update of the intervals that keeps their ids and what is open keeps the invariant.
update-IsConsistent :
    (db : Db) (f : Interval → Interval)
    → ((i : Interval) → (f i).id ≡ i.id)
    → ((id : ℕ) → open_states id (map f db.intervals) ≡ open_states id db.intervals)
    → IsConsistent db
    → IsConsistent (record db { intervals = map f db.intervals })
update-IsConsistent db f ids same h = record {
  agrees = Agrees-of_same db.intervals (map f db.intervals) same db.devices h.agrees;
  numbered = ids_below-map f ids db.next_interval db.intervals h.numbered;
  distinct = HaveDistinctIds-map f ids db.intervals h.distinct;
}

pub maybe_notify-IsConsistent :
    (d : Device) (v : Verdict) (now : ℕ) (inside : Bool) (db : Db)
    → IsConsistent db
    → IsConsistent (maybe_notify d v now inside db).0
unfolding maybe_notify
maybe_notify-IsConsistent d v now inside db h =
    elim (Option-cases (latest_by (is_open_of d.id) (λ i. i.entered_at) db.intervals)) [
      | inl e ↦ rw (e, maybe_notify) h
      | inr (i, e) ↦
          elim (Bool-cases
            (is_some i.notified_at || not (is_due v.state inside (now - i.entered_at)))) [
              | inl quiet ↦ rw (e, maybe_notify) (rw quiet h)
              | inr loud ↦
                  rw (e, maybe_notify)
                    (rw loud (
                      update-IsConsistent db (mark_notified i.id now) (λ j. ground arith)
                        (λ id. open_states-mark_notified i.id now id db.intervals) h))
            ]
    ]

open_states-mark_off :
    (id other : ℕ) (was : HealthState) (is : List Interval)
    → All (λ j. j.id ≡ id → is_open j ≡ false) is
    → open_states other (map (mark_off id was) is) ≡ open_states other is
open_states-mark_off id other was [] h = refl
open_states-mark_off id other was (i ∷ is) h =
    ground (arith, h.0, open_states-mark_off id other was is h.1)

-- Where ids are distinct, all that has the id of a closed interval is closed.
closed_of_id :
    (i : Interval) (is : List Interval)
    → HaveDistinctIds is
    → Memᴰ i is
    → is_open i ≡ false
    → All (λ j. j.id ≡ i.id → is_open j ≡ false) is
closed_of_id i [] h m c = tt
closed_of_id i (j ∷ js) h (Memᴰ.head e) c = (
  λ _. subst (λ k. is_open k ≡ false) e c,
  All-map_imp (λ k p q. absurd (p (q ∙ ap (λ (l : Interval). l.id) e))) js h.0,
)
closed_of_id i (j ∷ js) h (Memᴰ.tail m) c =
    (λ e. absurd (All_of_Memᴰ (λ k. k.id ≢ j.id) js h.0 m (sym e)), closed_of_id i js h.1 m c)

closed_of_explained :
    (id boot : ℕ) (i : Interval) → is_explained id boot i ≡ true → is_open i ≡ false
closed_of_explained id boot i h = ground arith

pub reclassify-IsConsistent :
    (d : Device) (db : Db) → IsConsistent db → IsConsistent (reclassify_if_machine_was_off d db).0
unfolding reclassify_if_machine_was_off
reclassify-IsConsistent d db h = elim (Option-cases d.system_boot_time) [
  | inl e ↦ rw e h
  | inr (boot, e) ↦
      elim (Option-cases (latest_by (is_explained d.id boot) (λ i. i.entered_at) db.intervals)) [
        | inl n ↦ rw (e, reclassify_if_machine_was_off) (rw n h)
        | inr (i, s) ↦
            let found =
              latest_by-some (is_explained d.id boot) (λ i. i.entered_at) db.intervals i s in
            let closed =
              closed_of_id i db.intervals h.distinct
                (latest_by-mem (is_explained d.id boot) (λ i. i.entered_at) db.intervals i s)
                (closed_of_explained d.id boot i found.0) in
            rw (e, reclassify_if_machine_was_off)
              (rw s (
                update-IsConsistent db (mark_off i.id i.state) (λ j. ground arith)
                  (λ id. open_states-mark_off i.id id i.state db.intervals closed) h))
      ]
]
