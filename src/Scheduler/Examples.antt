-- ===== src/Scheduler/Examples.antt =====
-- The scheduler's theorems at concrete sessions, and runs of it.
use open_dynamic_workflow.Base.{
  ℕ, ◌+◌, ◌≤◌, ◌≡◌, String, refl, true, false, none, some, List, [], ◌∷◌, ◌++◌, map, arith, count,
  length, insert, remove,
}
use open_dynamic_workflow.Agent.{cancelled, failed}
use open_dynamic_workflow.Scheduler.{
  Scheduler, InternalTask, TaskState, Call, schedules, drains, ticks, ends, times_out, no_reason,
  text, normalize_reason, returned, threw, nullish, error, plain, result, value, skip, failure,
  handles, init, resolve, emit, skip_task, skip_all, mark_aborted, check_drain, abort, schedule,
  drain, start_task, pump_loop, pump, store, settle, finish, finish_returned, finish_threw,
  settled_returned, settled_threw, find_run, drop_run, tick, end_run, time_out, step, run,
  running_handles,
}
use open_dynamic_workflow.Scheduler.Bounds.{Inv, IsBounded, run-init-Inv}
use open_dynamic_workflow.Scheduler.Conservation.{submitted, held-run-init}
use open_dynamic_workflow.Scheduler.Order.{run-init-order, run_aborted}
use open_dynamic_workflow.Scheduler.Quiescence.{run-init-quiescent}
use open_dynamic_workflow.Scheduler.Slots.{run-init-slots}
use open_dynamic_workflow.Scheduler.Slots.Flood.{shared_id_overruns}
use open_dynamic_workflow.Scheduler.Aborts.{skipped_by, abort_lem, abort-abort, finish_fail_fast}
use open_dynamic_workflow.Scheduler.Drains.{run-init-drains}

scheduler : Unit {0}
unfolding init schedule drain abort skip_task skip_all mark_aborted check_drain pump pump_loop
    start_task store settle finish finish_returned finish_threw settled_returned settled_threw
    find_run drop_run tick end_run time_out step run resolve emit insert remove normalize_reason
    count
scheduler = tt

abbrev task : ℕ → String → InternalTask
task h i = record {
  handle = h;
  id = i;
  timeout_ms = some 1000;
  fail_fast = false;
  defer_fail_fast = false;
  suppress_events = false;
  status = TaskState.queued;
}

-- Two tasks on one slot; the first succeeds, the second one rejects.
abbrev session : List Call
session =
    schedules (task 1 "a")
    ∷ schedules (task 2 "b")
    ∷ drains 7
    ∷ ticks
    ∷ ticks
    ∷ ends 1 (returned (plain 5))
    ∷ ends 2 (threw (error "Error" none))
    ∷ []

session_settled :
    (run session (init 1 false true)).settled
    ≡ (1, value (plain 5)) ∷ (2, failure failed "INTERNAL_ERROR") ∷ []
unfolding scheduler
session_settled = refl

session_runs :
    ((run session (init 1 false true)).runs ≡ 1 ∷ 2 ∷ [])
    × ((run session (init 1 false true)).drained ≡ 7 ∷ [])
unfolding scheduler
session_runs = (refl, refl)

-- A run that rejects with undefined leaves its promise pending.
lost_run :
    (run (schedules (task 1 "a") ∷ ticks ∷ ends 1 (threw nullish) ∷ []) (init 1 false true)).settled
    ≡ []
unfolding scheduler
lost_run = refl

-- A timer that fires before the run ends turns its error into a cancellation.
timed_out_run :
    (run
      (schedules (task 1 "a") ∷ ticks ∷ times_out 1 ∷ ends 1 (threw (error "Error" none)) ∷ [])
      (init 1 false true)).settled
    ≡ (1, failure cancelled "USER_CANCELLED") ∷ []
unfolding scheduler
timed_out_run = refl

-- Under fail-fast a failure skips what waits.
failed_fast :
    (run
      (schedules (task 1 "a")
        ∷ schedules (task 2 "b")
        ∷ ticks
        ∷ ends 1 (returned (result false none 0))
        ∷ [])
      (init 1 true true)).settled
    ≡ (1, value (result false none 0)) ∷ (2, skip "Fail-fast triggered by step a") ∷ []
unfolding scheduler
failed_fast = refl

run-init-Inv_example : Inv 1 (run session (init 1 false true))
run-init-Inv_example = run-init-Inv 1 false true session

held-run-init_example :
    (let s = run session (init 1 false true) in
      count 2 (handles s.queue)
      + count 2 (handles s.in_flight)
      + count 2 (handles s.lost)
      + count 2 (map (λ r. r.0) s.settled))
    ≡ 1
unfolding count
held-run-init_example = held-run-init 1 false true session 2

run-init-order_example :
    (run session (init 1 false true)).runs ++ handles (run session (init 1 false true)).queue
    ≡ 1 ∷ 2 ∷ []
unfolding scheduler
run-init-order_example = run-init-order 1 false true session refl

abbrev halted : Scheduler
halted = abort (text "stop") (init 2 false true)

run_aborted_example :
    ((run session halted).aborted ≡ true) × ((run session halted).runs ≡ halted.runs)
unfolding scheduler
run_aborted_example = run_aborted session halted refl

run-init-quiescent_example :
    (let s = run session (init 1 false true) in
      (s.queue ≡ [])
      × (s.running ≡ [])
      × ((h : ℕ)
          → count h (handles s.lost) + count h (map (λ r. r.0) s.settled)
            ≡ count h (submitted session)))
unfolding scheduler
run-init-quiescent_example = run-init-quiescent 1 false true session (omega arith) refl refl

run-init-slots_example : length (run session (init 1 false true)).in_flight ≤ 1
unfolding scheduler
run-init-slots_example =
    run-init-slots 1 false true session (refl, (refl, (tt, (tt, (tt, (tt, (tt, tt)))))))

abbrev twins : List InternalTask
twins = task 1 "a" ∷ task 2 "a" ∷ task 3 "a" ∷ []

shared_id_overruns_example :
    length (pump (run (map schedules twins) (init 2 false true))).in_flight ≡ 3
shared_id_overruns_example =
    shared_id_overruns 2 false true "a" twins (omega arith) (refl, (refl, (refl, tt)))

abbrev waiting : Scheduler
waiting = run (schedules (task 1 "a") ∷ schedules (task 2 "b") ∷ ticks ∷ []) (init 1 true true)

abort_lem_example :
    (let t = abort no_reason waiting in
      (t.aborted ≡ true)
      × (t.abort_reason ≡ some (normalize_reason no_reason))
      × (t.queue ≡ [])
      × (t.running ≡ waiting.running)
      × (t.in_flight ≡ waiting.in_flight)
      × (t.aborted_signals ≡ waiting.aborted_signals ++ running_handles waiting.running)
      × (t.settled
          ≡ waiting.settled ++ map (skipped_by (normalize_reason no_reason)) waiting.queue))
unfolding scheduler
abort_lem_example = abort_lem no_reason waiting refl

abort-abort_example : abort (text "later") (abort no_reason waiting) ≡ abort no_reason waiting
abort-abort_example = abort-abort no_reason (text "later") waiting

waiting-IsBounded : IsBounded 1 waiting
waiting-IsBounded =
    (run-init-Inv 1 true true (schedules (task 1 "a") ∷ schedules (task 2 "b") ∷ ticks ∷ [])).slots

finish_fail_fast_example :
    (let r = finish (task 1 "a") (returned (result false none 0)) waiting in
      (r.aborted ≡ true)
      × (r.queue ≡ [])
      × (r.runs ≡ waiting.runs)
      × ((finish (task 1 "a") (threw nullish) waiting).aborted ≡ waiting.aborted))
unfolding scheduler
finish_fail_fast_example =
    finish_fail_fast (task 1 "a") (returned (result false none 0)) waiting waiting-IsBounded refl
      refl

run-init-drains_example : (run session (init 1 false true)).drain_resolvers ≡ []
unfolding scheduler
run-init-drains_example = run-init-drains 1 false true session refl refl
