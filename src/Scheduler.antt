-- ===== src/Scheduler.antt =====
-- apps/api/src/lib/scheduler.ts: the timers, and the jobs in flight. A system is the scheduler's two
-- tables with the runs that are under way; a step is what a timer or the end of a run does to it.
pub mod Overlap
mod Tests
use homeparentcontrol.Prelude.{
  ℕ, String, Bool, true, false, not, List, [], ◌∷◌, ◌++◌, str_eq, if◌then◌else◌, filter, any,
}
use mathlib.Core.List.{Memᴰ}

pub record Job : Type 0 where
  pub name : String
  pub every_ms : ℕ
  pub run_on_start : Bool

-- How a run ends: its `await` returns, or throws.
pub data Outcome : Type 0 where
  ran failed : Outcome

pub record Scheduler : Type 0 where
  pub timers : List String
  pub in_flight : List String
  pub runs : List String

abbrev pub has : String → List String → Bool
has name names = any (str_eq name) names

-- What a tick does before it awaits the run.
unfoldable pub tick : Job → Scheduler → Scheduler
tick job s =
    if has job.name s.in_flight
    then s
    else record s { in_flight = job.name ∷ s.in_flight; runs = job.name ∷ s.runs }

-- One run of the name is over.
abbrev pub drop_run : String → List String → List String
drop_run name [] = []
drop_run name (r ∷ rs) = let rest = drop_run name rs in if str_eq name r then rs else r ∷ rest

-- Whether it returned or threw, `finally` takes the name out.
unfoldable pub end_run : String → Outcome → Scheduler → Scheduler
end_run name outcome s = record s {
  in_flight = filter (λ n. not (str_eq name n)) s.in_flight;
  runs = drop_run name s.runs;
}

unfoldable pub start_job : Job → Scheduler → Scheduler
start_job job s =
    if has job.name s.timers
    then s
    else let t = record s { timers = job.name ∷ s.timers } in
      if job.run_on_start then tick job t else t

unfoldable pub start_scheduler : List Job → Scheduler → Scheduler
start_scheduler [] s = s
start_scheduler (j ∷ js) s = start_scheduler js (start_job j s)

abbrev pub stop_scheduler : Scheduler → Scheduler
stop_scheduler s = record s { timers = [] }

abbrev pub stopped : Scheduler
stopped = record { timers = []; in_flight = []; runs = [] }

pub data Step : Scheduler → Scheduler → Type 0 where
  started : (jobs : List Job) (s : Scheduler) → Step s (start_scheduler jobs s)
  ticked : (job : Job) (s : Scheduler) → Step s (tick job s)
  ended :
      (name : String) (o : Outcome) (s : Scheduler) → Memᴰ name s.runs → Step s (end_run name o s)
  halted : (s : Scheduler) → Step s (stop_scheduler s)

pub data IsReachable : Scheduler → Type 0 where
  at_start : IsReachable stopped
  after : {s t : Scheduler} → IsReachable s → Step s t → IsReachable t
