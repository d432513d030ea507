-- ===== src/Liveness/Notices.antt =====
-- apps/api/src/jobs/liveness.ts: who is told, and how often.
use homeparentcontrol.Prelude.{
  ℕ, ◌-◌, ◌==◌, ◌≤◌, ◌≡◌, refl, sym, subst, ◌∙◌, ap, Bool, true, false, not, ◌||◌, List, [], ◌∷◌,
  Option, some, is_some, map, arith, ◌⊎◌, inl, inr, Option-cases, Bool-cases, All,
}
use mathlib.Core.Option
use homeparentcontrol.Liveness.{
  HealthState, degraded, unexpected_silence, silent_too_long, Device, Interval, Db, Verdict,
  mark_notified, maybe_notify, is_due, is_open_of, transition, close,
}
use homeparentcontrol.Prelude.Query.{latest_by, latest_by-map, latest_by-some}

-- A device's open interval has been notified of.
record IsTold (id : ℕ) (db : Db) : Type 0 where
  interval : Interval
  found : latest_by (is_open_of id) (λ i. i.entered_at) db.intervals ≡ some interval
  notified : is_some interval.notified_at ≡ true

IsTold-marked :
    (id j t : ℕ) (db : Db)
    → IsTold id db
    → IsTold id (record db { intervals = map (mark_notified j t) db.intervals })
IsTold-marked id j t db h =
    let told = h.notified in
    record {
      interval = mark_notified j t h.interval;
      found =
          latest_by-map (is_open_of id) (λ i. i.entered_at) (mark_notified j t) (λ i. ground arith)
            (λ i. ground arith) db.intervals
          ∙ ap (λ o. Option.map (mark_notified j t) o) h.found;
      notified = ground (arith, told);
    }

IsTold-maybe_notify :
    (id : ℕ) (d : Device) (v : Verdict) (now : ℕ) (inside : Bool) (db : Db)
    → IsTold id db
    → IsTold id (maybe_notify d v now inside db).0
unfolding maybe_notify
IsTold-maybe_notify id d v now inside db h =
    elim (Option-cases (latest_by (is_open_of d.id) (λ i. i.entered_at) db.intervals)) [
      | inl e ↦ rw (maybe_notify, e) h
      | inr (i, e) ↦
          elim (Bool-cases
            (is_some i.notified_at || not (is_due v.state inside (now - i.entered_at)))) [
              | inl quiet ↦ rw (maybe_notify, e, quiet) h
              | inr loud ↦ rw (maybe_notify, e, loud) (IsTold-marked id i.id now db h)
            ]
    ]

first_passed :
    (id : ℕ) (x i : Interval) (xs : List Interval)
    → is_open_of id x ≡ false
    → latest_by (is_open_of id) (λ i. i.entered_at) xs ≡ some i
    → latest_by (is_open_of id) (λ i. i.entered_at) (x ∷ xs) ≡ some i
unfolding latest_by
first_passed id x i xs e h = rw (h, e) refl

IsTold-transition :
    (id : ℕ) (d : Device) (v : Verdict) (now : ℕ) (db : Db)
    → (d.id == id) ≡ false
    → IsTold id db
    → IsTold id (transition d v now db)
unfolding transition
IsTold-transition id d v now db n h =
    let told = h.notified in
    let open_still : close d.id now h.interval ≡ h.interval =
      let mine =
        (latest_by-some (is_open_of id) (λ i. i.entered_at) db.intervals h.interval h.found).0 in
      ground (arith, mine, n) in
    record {
      interval = h.interval;
      found = first_passed id _ h.interval _ (ground (arith, n)) (
          latest_by-map (is_open_of id) (λ i. i.entered_at) (close d.id now)
            (λ i. ground (arith, n)) (λ i. ground arith) db.intervals
          ∙ (ap (λ o. Option.map (close d.id now) o) h.found ∙ ap (λ i. some i) open_still));
      notified = told;
    }

-- What happens in the sweeps that follow: somebody may be told, or a device changes its state.
pub data Evaluation : Type 0 where
  notice : Device → Verdict → ℕ → Bool → Evaluation
  change : Device → Verdict → ℕ → Evaluation

abbrev pub is_change_of : ℕ → Evaluation → Bool
is_change_of id (notice d v now inside) = false
is_change_of id (change d v now) = d.id == id

abbrev pub evaluated : Evaluation → Db → Db
evaluated (notice d v now inside) db = (maybe_notify d v now inside db).0
evaluated (change d v now) db = transition d v now db

abbrev pub evaluated_all : List Evaluation → Db → Db
evaluated_all [] db = db
evaluated_all (e ∷ es) db = evaluated_all es (evaluated e db)

IsTold-evaluated :
    (id : ℕ) (e : Evaluation) (db : Db)
    → is_change_of id e ≡ false
    → IsTold id db
    → IsTold id (evaluated e db)
IsTold-evaluated id (notice d v now inside) db n h = IsTold-maybe_notify id d v now inside db h
IsTold-evaluated id (change d v now) db n h = IsTold-transition id d v now db n h

IsTold-evaluated_all :
    (id : ℕ) (es : List Evaluation) (db : Db)
    → All (λ e. is_change_of id e ≡ false) es
    → IsTold id db
    → IsTold id (evaluated_all es db)
IsTold-evaluated_all id [] db n h = h
IsTold-evaluated_all id (e ∷ es) db n h =
    IsTold-evaluated_all id es (evaluated e db) n.1 (IsTold-evaluated id e db n.0 h)

IsTold-quiet :
    (d : Device) (v : Verdict) (now : ℕ) (inside : Bool) (db : Db)
    → IsTold d.id db
    → (maybe_notify d v now inside db).1 ≡ false
unfolding maybe_notify
IsTold-quiet d v now inside db h =
    let found = h.found in let told = h.notified in rw (maybe_notify, found, told) refl

due_lem :
    (s : HealthState) (inside : Bool) (ms : ℕ)
    → is_due s inside ms ≡ true
    → (s ≡ degraded) × (180000 ≤ ms)
      ⊎ (s ≡ unexpected_silence) × (inside ≡ true) × (3600000 ≤ ms)
      ⊎ (s ≡ silent_too_long)
unfolding is_due
due_lem s inside ms e = ground arith

module _ (d : Device) (v : Verdict) (now : ℕ) (inside : Bool) (db : Db) where
  abbrev current : Option Interval
  current = latest_by (is_open_of d.id) (λ i. i.entered_at) db.intervals

  notice_of :
      (maybe_notify d v now inside db).1 ≡ true
      → (i : Interval) × (current ≡ some i)
        × (is_due v.state inside (now - i.entered_at) ≡ true)
        × ((maybe_notify d v now inside db).0
            ≡ record db { intervals = map (mark_notified i.id now) db.intervals })
  unfolding maybe_notify
  notice_of h = elim (Option-cases current) [
    | inl e ↦ absurd (ground arith)
    | inr (i, e) ↦ (i, e, ground arith, ground arith)
  ]

  after_notice :
      (maybe_notify d v now inside db).1 ≡ true → IsTold d.id (maybe_notify d v now inside db).0
  after_notice h =
      let (i, found, due, after) = notice_of h in
      rw after (record {
        interval = mark_notified i.id now i;
        found =
            latest_by-map (is_open_of d.id) (λ i. i.entered_at) (mark_notified i.id now)
              (λ j. ground arith) (λ j. ground arith) db.intervals
            ∙ ap (λ o. Option.map (mark_notified i.id now) o) found;
        notified = ground arith;
      })

  -- Who has been told of a device's state is not told again before its state changes: once a notice
  -- went out, no later evaluation of the device sends another, however many evaluations of any
  -- devices, with or without a notice, and changes of the state of others lie between the two.
  pub maybe_notify_once :
      (es : List Evaluation) (d' : Device) (v' : Verdict) (later : ℕ) (inside' : Bool)
      → (maybe_notify d v now inside db).1 ≡ true
      → All (λ e. is_change_of d.id e ≡ false) es
      → d'.id ≡ d.id
      → (maybe_notify d' v' later inside' (evaluated_all es (maybe_notify d v now inside db).0)).1
        ≡ false
  maybe_notify_once es d' v' later inside' h others same =
      let kept = IsTold-evaluated_all d.id es _ others (after_notice h) in
      IsTold-quiet d' v' later inside' _ (
        subst (λ id. IsTold id (evaluated_all es (maybe_notify d v now inside db).0)) (sym same)
          kept)

  -- A notice is sent of a degraded device after three minutes, of an unexpected silence after an
  -- hour and only while the device should be online, and of a silence of 36 hours; of nothing else.
  maybe_notify_reason :
      (maybe_notify d v now inside db).1 ≡ true
      → (i : Interval) × (current ≡ some i)
        × ((v.state ≡ degraded) × (180000 ≤ now - i.entered_at)
            ⊎ (v.state ≡ unexpected_silence) × (inside ≡ true) × (3600000 ≤ now - i.entered_at)
            ⊎ (v.state ≡ silent_too_long))
  maybe_notify_reason h =
      let (i, found, due, after) = notice_of h in
      (i, found, due_lem v.state inside (now - i.entered_at) due)
