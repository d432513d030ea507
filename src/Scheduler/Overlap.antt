-- ===== src/Scheduler/Overlap.antt =====
-- apps/api/src/lib/scheduler.ts: no job overlaps itself, and none is left in flight.
use homeparentcontrol.Prelude.{
  ◌≡◌, refl, sym, ◌∙◌, ap, subst, String, false, not, List, [], ◌∷◌, str_eq, eq_iff, arith, filter,
  inl, inr, Bool-cases,
}
use homeparentcontrol.Scheduler.{
  Job, Outcome, Scheduler, has, tick, drop_run, end_run, start_job, start_scheduler, Step, started,
  ticked, ended, halted, IsReachable, at_start, after,
}

-- No name twice.
abbrev pub AreApart : List String → Type 0
AreApart [] = Unit
AreApart (n ∷ ns) = (has n ns ≡ false) × AreApart ns

-- The runs under way are those in flight, each of another job.
pub record IsTidy (s : Scheduler) : Type 0 where
  pub runs : s.runs ≡ s.in_flight
  pub apart : AreApart s.runs

tick-IsTidy : (job : Job) (s : Scheduler) → IsTidy s → IsTidy (tick job s)
unfolding tick
tick-IsTidy job s h = elim (Bool-cases (has job.name s.in_flight)) [
  | inl e ↦ rw e h
  | inr e ↦ rw e (record {
    runs = ap (λ t. job.name ∷ t) h.runs;
    apart = (subst (λ t. has job.name t ≡ false) (sym h.runs) e, h.apart);
  })
]

-- The timers do not matter.
with_timers-IsTidy :
    (s : Scheduler) → IsTidy s → (names : List String) → IsTidy (record s { timers = names })
with_timers-IsTidy s h names = record { runs = h.runs; apart = h.apart }

start_job-IsTidy : (job : Job) (s : Scheduler) → IsTidy s → IsTidy (start_job job s)
unfolding start_job tick
start_job-IsTidy job s h = elim (Bool-cases (has job.name s.timers)) [
  | inl e ↦ rw e h
  | inr e ↦
      let t = record s { timers = job.name ∷ s.timers } in
      let k = with_timers-IsTidy s h (job.name ∷ s.timers) in
      elim (Bool-cases job.run_on_start) [
        | inl r ↦ rw (e, r) (tick-IsTidy job t k)
        | inr r ↦ rw (e, r) k
      ]
]

start_scheduler-IsTidy :
    (jobs : List Job) (s : Scheduler) → IsTidy s → IsTidy (start_scheduler jobs s)
unfolding start_scheduler
start_scheduler-IsTidy [] s h = h
start_scheduler-IsTidy (j ∷ js) s h =
    start_scheduler-IsTidy js (start_job j s) (start_job-IsTidy j s h)

without :
    (name : String) (rs : List String)
    → has name rs ≡ false
    → filter (λ n. not (str_eq name n)) rs ≡ rs
without name [] h = refl
without name (r ∷ rs) h = elim (Bool-cases (str_eq name r)) [
  | inl e ↦ absurd (ground arith)
  | inr e ↦ rw e (ap (λ t. r ∷ t) (without name rs (ground arith)))
]

-- Where no name is twice, to drop one run is to drop all of the name.
drop_run_all :
    (name : String) (rs : List String)
    → AreApart rs
    → drop_run name rs ≡ filter (λ n. not (str_eq name n)) rs
drop_run_all name [] h = refl
drop_run_all name (r ∷ rs) h = elim (Bool-cases (str_eq name r)) [
  | inl e ↦ rw e (
      sym
        (without name rs (subst (λ x. has x rs ≡ false) (sym (ground (arith, eq_iff name r))) h.0)))
  | inr e ↦ rw e (ap (λ t. r ∷ t) (drop_run_all name rs h.1))
]

has-filter :
    (name other : String) (rs : List String)
    → has name rs ≡ false
    → has name (filter (λ n. not (str_eq other n)) rs) ≡ false
has-filter name other [] h = refl
has-filter name other (r ∷ rs) h = elim (Bool-cases (str_eq other r)) [
  | inl e ↦ rw e (has-filter name other rs (ground arith))
  | inr e ↦ rw e (ground (arith, has-filter name other rs))
]

filter-AreApart :
    (name : String) (rs : List String)
    → AreApart rs
    → AreApart (filter (λ n. not (str_eq name n)) rs)
filter-AreApart name [] h = tt
filter-AreApart name (r ∷ rs) h = elim (Bool-cases (str_eq name r)) [
  | inl e ↦ rw e (filter-AreApart name rs h.1)
  | inr e ↦ rw e (has-filter r name rs h.0, filter-AreApart name rs h.1)
]

end_run-IsTidy :
    (name : String) (o : Outcome) (s : Scheduler) → IsTidy s → IsTidy (end_run name o s)
unfolding end_run
end_run-IsTidy name o s h = record {
  runs = drop_run_all name s.runs h.apart ∙ ap (filter (λ n. not (str_eq name n))) h.runs;
  apart =
      subst AreApart (sym (drop_run_all name s.runs h.apart)) (filter-AreApart name s.runs h.apart);
}

Step-IsTidy : {s t : Scheduler} → Step s t → IsTidy s → IsTidy t
Step-IsTidy (started jobs s) h = start_scheduler-IsTidy jobs s h
Step-IsTidy (ticked job s) h = tick-IsTidy job s h
Step-IsTidy (ended name o s m) h = end_run-IsTidy name o s h
Step-IsTidy (halted s) h = with_timers-IsTidy s h []

-- In every system that is reached by starts, ticks, ends of runs and stops, the names in flight are
-- those of the runs under way, and no two of these are runs of one job.
pub reachable-IsTidy : {s : Scheduler} → IsReachable s → IsTidy s
reachable-IsTidy at_start = record { runs = refl; apart = tt }
reachable-IsTidy (after r step) = Step-IsTidy step (reachable-IsTidy r)
