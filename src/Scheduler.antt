-- ===== src/Scheduler.antt =====
-- orchestration/scheduler.ts, `DefaultScheduler`: its methods, and the steps of its environment.
-- `task.run` is asynchronous, and does not call the scheduler before its first `await`.
mod State
mod Frames
pub mod Bounds
pub mod Conservation
pub mod Order
pub mod Quiescence
pub mod Slots
pub mod Aborts
pub mod Drains
mod Examples
use Prim.Native.String.{◌++◌ as concat}
use mathlib.Core.List.{map}
use open_dynamic_workflow.Base.{
  ℕ, zero, suc, ◌+◌, String, Bool, true, false, not, ◌&&◌, ◌||◌, Option, none, some, List, [], ◌∷◌,
  ◌++◌, ltb, if◌then◌else◌, ◌==◌, ℕ_eq, String_eq, length, insert, remove,
}
use open_dynamic_workflow.Agent.{
  AgentStatus, succeeded, failed, timed_out, cancelled, skipped, AbortReason, AbortType, AbortCause,
}
unfoldable pub use State.*

-- `checkDrain`
pub check_drain : Scheduler → Scheduler
check_drain s =
    if is_idle s
    then record s { drain_resolvers = []; drained = s.drained ++ s.drain_resolvers }
    else s

-- `drain`: the promise resolves at once where nothing is under way.
pub drain : ℕ → Scheduler → Scheduler
drain waiter s =
    if is_idle s
    then record s { drained = s.drained ++ waiter ∷ [] }
    else record s { drain_resolvers = s.drain_resolvers ++ waiter ∷ [] }

-- The body of `schedule`; the timer is armed before all else.
pub schedule : InternalTask → Scheduler → Scheduler
schedule task s =
    let armed = if has_timeout task.timeout_ms then s.timers ++ task.handle ∷ [] else s.timers in
    if s.aborted
    then resolve task (skip (skip_message s.abort_reason)) (record s { timers = armed })
    else (let pushed = record s { timers = armed; queue = s.queue ++ task ∷ [] } in
        let sent = emit task agent_queued none none pushed in
        record sent { pending_pumps = sent.pending_pumps + 1 })

-- What the loop of `abort` does with one queued task.
pub skip_task : InternalTask → Scheduler → Scheduler
skip_task t s =
    resolve t (skip (skip_message s.abort_reason))
      (emit t agent_cancelled (some skipped) (some "TASK_SKIPPED") s)

pub skip_all : List InternalTask → Scheduler → Scheduler
skip_all [] s = s
skip_all (t ∷ ts) s = skip_all ts (skip_task t s)

abbrev pub handles : List InternalTask → List ℕ
handles = map λ t. t.handle

abbrev pub running_handles : List (String × InternalTask) → List ℕ
running_handles = map λ r. r.1.handle

-- The argument of `abort`: none, a text, or a reason.
pub data AbortArgument : Type 0 where
  no_reason : AbortArgument
  text : String → AbortArgument
  reason : AbortReason → AbortArgument

abbrev pub other_reason : String → AbortReason
other_reason m = record { type = AbortType.other; message = m; source = none; cause = none }

pub normalize_reason : AbortArgument → AbortReason
normalize_reason no_reason = other_reason "Scheduler aborted"
normalize_reason (text m) = other_reason m
normalize_reason (reason r) = r

-- `abort`: the flag, the reason and the signals of the running tasks; the queue is emptied by the
-- loop that follows.
pub mark_aborted : AbortArgument → Scheduler → Scheduler
mark_aborted argument s = record s {
  aborted = true;
  abort_reason = some (normalize_reason argument);
  aborted_signals = s.aborted_signals ++ running_handles s.running;
  queue = [];
}

pub abort : AbortArgument → Scheduler → Scheduler
abort argument s = if s.aborted then s else check_drain (skip_all s.queue (mark_aborted argument s))

-- One round of the loop of `pump`: the task enters the map and its `run` is called.
pub start_task : InternalTask → Scheduler → Scheduler
start_task t s =
    let t' = record t { status = TaskState.running } in
    emit t' agent_started none none (record s {
      running = insert t.id t' s.running;
      in_flight = s.in_flight ++ t' ∷ [];
      runs = s.runs ++ t.handle ∷ [];
    })

-- The loop over the queue, which the loop shifts from the front.
pub pump_loop : List InternalTask → Scheduler → Scheduler
pump_loop [] s = record s { queue = [] }
pump_loop (t ∷ ts) s =
    let rest = pump_loop ts (start_task t s) in
    if ltb (length s.running) s.concurrency then rest else record s { queue = t ∷ ts }

-- `pump`
pub pump : Scheduler → Scheduler
pump s = if s.aborted then s else check_drain (pump_loop s.queue s)

-- `isSuccess` and `agentStatus`: a value with no field `ok` is a success.
abbrev pub is_success : Returned → Bool
is_success (plain v) = true
is_success (result good status v) = good

abbrev pub agent_status : Returned → AgentStatus
agent_status (plain v) = succeeded
agent_status (result good none v) = if good then succeeded else failed
agent_status (result good (some st) v) = st

-- `getEventNameForStatus`
abbrev pub event_name_for_status : AgentStatus → EventType
event_name_for_status timed_out = agent_timed_out
event_name_for_status cancelled = agent_cancelled
event_name_for_status skipped = agent_cancelled
event_name_for_status _ = agent_failed

abbrev pub failure_cause : AgentStatus → AbortCause
failure_cause timed_out = AbortCause.timeout
failure_cause _ = AbortCause.failure

abbrev pub fail_fast_reason : InternalTask → String → AbortCause → AbortArgument
fail_fast_reason t tail cause = reason (record {
  type = AbortType.fail_fast;
  message = concat "Fail-fast triggered by step " (concat t.id tail);
  source = some t.id;
  cause = some cause;
})

abbrev pub fails_fast : InternalTask → Scheduler → Bool
fails_fast t s = (s.fail_fast || t.fail_fast) && not t.defer_fail_fast

-- `running.delete` and `completed.set`
pub store : InternalTask → Settlement → Scheduler → Scheduler
store t v s = record s { running = remove t.id s.running; completed = insert t.id v s.completed }

-- The part of the `try` block behind the `await`: what it writes, and the fail-fast abort.
pub settled_returned : InternalTask → Returned → Scheduler → Scheduler
settled_returned t v s =
    let stored = store t (value v) s in
    let st = agent_status v in
    if is_success v
    then resolve t (value v) (emit t agent_completed (some succeeded) none stored)
    else resolve t (value v) (emit t (event_name_for_status st) (some st) none stored)

pub finish_returned : InternalTask → Returned → Scheduler → Scheduler
finish_returned t v s =
    if not (is_success v) && fails_fast t s
    then abort (fail_fast_reason t "" (failure_cause (agent_status v))) (settled_returned t v s)
    else settled_returned t v s

abbrev pub thrown_code : Bool → Option String → String
thrown_code true code = "USER_CANCELLED"
thrown_code false none = "INTERNAL_ERROR"
thrown_code false (some code) = code

abbrev pub is_abort : InternalTask → String → Scheduler → Bool
is_abort t name s = is_member t.handle s.aborted_signals || name == "AbortError"

-- The `catch` block, in the same two parts. Reading `err.name` of null or undefined throws out of
-- it, with the promise unresolved.
pub settled_threw : InternalTask → String → Option String → Scheduler → Scheduler
settled_threw t name code s =
    let st = if is_abort t name s then cancelled else failed in
    let code' = thrown_code (is_abort t name s) code in
    let event = if is_abort t name s then agent_cancelled else agent_failed in
    resolve t (failure st code')
      (emit t event (some st) (some code') (store t (failure st code') s))

pub finish_threw : InternalTask → Thrown → Scheduler → Scheduler
finish_threw t nullish s = record s { running = remove t.id s.running; lost = s.lost ++ t ∷ [] }
finish_threw t (error name code) s =
    if fails_fast t s
    then abort (fail_fast_reason t " throwing error" AbortCause.error) (settled_threw t name code s)
    else settled_threw t name code s

pub settle : InternalTask → Outcome → Scheduler → Scheduler
settle t (returned v) s = finish_returned t v s
settle t (threw e) s = finish_threw t e s

-- The whole of what follows the `await` of a run, its `finally` block included.
pub finish : InternalTask → Outcome → Scheduler → Scheduler
finish t o s = check_drain (pump (settle t o s))

-- The suspended body of a handle, and the others.
pub find_run : ℕ → List InternalTask → Option InternalTask
find_run h [] = none
find_run h (t ∷ ts) = if t.handle == h then some t else find_run h ts

pub drop_run : ℕ → List InternalTask → List InternalTask
drop_run h [] = []
drop_run h (t ∷ ts) = if t.handle == h then ts else t ∷ drop_run h ts

-- What can happen to the scheduler: a call of a method, a `nextTick` callback, the end of a run,
-- the end of a timer. A callback, a run or a timer that is not there does nothing.
pub data Call : Type 0 where
  schedules : InternalTask → Call
  aborts : AbortArgument → Call
  drains : ℕ → Call
  ticks : Call
  ends : ℕ → Outcome → Call
  times_out : ℕ → Call

pub tick : ℕ → Scheduler → Scheduler
tick zero s = s
tick (suc n) s = pump (record s { pending_pumps = n })

pub end_run : Option InternalTask → Outcome → Scheduler → Scheduler
end_run none o s = s
end_run (some t) o s = finish t o (record s { in_flight = drop_run t.handle s.in_flight })

pub time_out : ℕ → Scheduler → Scheduler
time_out h s =
    if is_member h s.timers
    then record s { timers = without h s.timers; aborted_signals = s.aborted_signals ++ h ∷ [] }
    else s

pub step : Call → Scheduler → Scheduler
step (schedules t) s = schedule t s
step (aborts r) s = abort r s
step (drains w) s = drain w s
step ticks s = tick s.pending_pumps s
step (ends h o) s = end_run (find_run h s.in_flight) o s
step (times_out h) s = time_out h s

pub run : List Call → Scheduler → Scheduler
run [] s = s
run (c ∷ cs) s = run cs (step c s)
