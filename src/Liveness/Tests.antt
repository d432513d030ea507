-- ===== src/Liveness/Tests.antt =====
-- apps/api/src/jobs/liveness.ts: runs on a device that has been silent since before its last boot.
use homeparentcontrol.Prelude.{◌≡◌, refl, arith, List, [], ◌∷◌, none, some, true, false, ◌↔◌, inr}
use homeparentcontrol.Prelude.Int.{pos}
use homeparentcontrol.Prelude.Query.{latest_by}
use homeparentcontrol.Calendar.{Tzdb}
use homeparentcontrol.Liveness.{
  Device, active, healthy, unexpected_silence, Interval, Db, Verdict, decide, is_due, maybe_notify,
  evaluate_liveness,
}
use homeparentcontrol.Liveness.Verdicts.{IsUnexplained, decide-unexpected_silence}
use homeparentcontrol.Liveness.Intervals.{IsConsistent}
use homeparentcontrol.Liveness.Notices.{
  Evaluation, notice, change, evaluated_all, maybe_notify_once,
}
use homeparentcontrol.Liveness.History.{Extends}
use homeparentcontrol.Liveness.Sweep.{evaluate_liveness-IsConsistent, evaluate_liveness-Extends}

abbrev utc : Tzdb
utc z t = pos 0

abbrev ivy : Device
ivy = record {
  id = 1;
  status = active;
  last_sync_at = some 1000000;
  system_boot_time = some 500000;
  self_reported_reason = none;
  away_until = none;
  policy_set_id = none;
  health_state = healthy;
  health_reason = none;
  health_since = some 1000000;
  child_timezone = none;
  household_timezone = "UTC";
}

-- The same device, held in amber.
abbrev silent_ivy : Device
silent_ivy = record ivy { health_state = unexpected_silence }

abbrev healthy_since_start : Interval
healthy_since_start = record {
  id = 0;
  device_id = 1;
  state = healthy;
  reason = none;
  entered_at = 1000000;
  exited_at = none;
  notified_at = none;
  reclassified_from = none;
}

abbrev one_device : Db
one_device = record {
  devices = ivy ∷ [];
  intervals = healthy_since_start ∷ [];
  events = [];
  windows = [];
  next_interval = 1;
}

abbrev silent : Db
silent = record one_device {
  devices = silent_ivy ∷ [];
  intervals = record healthy_since_start { state = unexpected_silence } ∷ [];
}

abbrev amber : Verdict
amber = record { state = unexpected_silence; reason = none }

one_device-IsConsistent : IsConsistent one_device
one_device-IsConsistent = record {
  agrees = (inr refl, tt);
  numbered = (omega arith, tt);
  distinct = (tt, tt);
}

decide-unexpected_silence_example :
    ((decide [] ivy 2000000 true).state ≡ unexpected_silence) ↔ IsUnexplained [] ivy 2000000 true
decide-unexpected_silence_example = decide-unexpected_silence [] ivy 2000000 true (λ e. cc)

an_hour_on : (maybe_notify silent_ivy amber 5000000 true silent).1 ≡ true
unfolding maybe_notify latest_by is_due
an_hour_on = refl

-- Two evaluations of Ivy's device and a change of another's state lie between.
abbrev between : List Evaluation
between =
    notice silent_ivy amber 5060000 true
    ∷ change (record silent_ivy { id = 2 }) amber 5100000
    ∷ notice silent_ivy amber 5120000 false
    ∷ []

maybe_notify_once_example :
    (maybe_notify silent_ivy amber 6000000 true
      (evaluated_all between (maybe_notify silent_ivy amber 5000000 true silent).0)).1
    ≡ false
maybe_notify_once_example =
    maybe_notify_once silent_ivy amber 5000000 true silent between silent_ivy amber 6000000 true
      an_hour_on (refl, (refl, (refl, tt))) refl

evaluate_liveness-IsConsistent_example : IsConsistent (evaluate_liveness utc 2000000 one_device).0
evaluate_liveness-IsConsistent_example =
    evaluate_liveness-IsConsistent utc 2000000 one_device one_device-IsConsistent

evaluate_liveness-Extends_example :
    Extends one_device.intervals (evaluate_liveness utc 2000000 one_device).0.intervals
evaluate_liveness-Extends_example = evaluate_liveness-Extends utc 2000000 one_device
