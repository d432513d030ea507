-- ===== src/Scheduler/Tests.antt =====
-- apps/api/src/lib/scheduler.ts: a job whose timer fires again while it runs.
use homeparentcontrol.Prelude.{◌∷◌, [], true}
use homeparentcontrol.Scheduler.{
  Job, Scheduler, tick, start_scheduler, stopped, started, ticked, at_start, after,
}
use homeparentcontrol.Scheduler.Overlap.{IsTidy, reachable-IsTidy}

abbrev projection : Job
projection = record { name = "projection"; every_ms = 300000; run_on_start = true }

abbrev fired_twice : Scheduler
fired_twice = tick projection (start_scheduler (projection ∷ []) stopped)

reachable-IsTidy_example : IsTidy fired_twice
reachable-IsTidy_example =
    reachable-IsTidy
      (after (after at_start (started (projection ∷ []) stopped)) (ticked projection _))
