-- ===== src/Scheduler/State.antt =====
-- The state of `DefaultScheduler` (src/orchestration/scheduler.ts): the object's fields, and beside
-- them what its environment holds of it: the suspended bodies of `pump`, the aborted signals, the
-- armed timers, the pending `nextTick` callbacks, and the logs of what it did (runs started,
-- promises resolved, events emitted, drain promises resolved).
use open_dynamic_workflow.Base.{
  ℕ, String, Bool, true, false, not, ◌&&◌, ◌||◌, Option, none, some, List, [], ◌∷◌, ◌++◌, ltb,
  if◌then◌else◌, ◌==◌, ℕ_eq, String_eq, filter,
}
use open_dynamic_workflow.Agent.{AgentStatus, AbortReason}

-- `AgentTaskState`, as far as the scheduler writes it (`dropped` is its "skipped").
pub data TaskState : Type 0 where
  queued running dropped : TaskState

-- `InternalTask` with the parts of its `ScheduledTask` and `ScheduleOptions` that decide anything.
-- The handle is the object's identity, and so that of its promise, controller and timer.
pub record InternalTask : Type 0 where
  pub handle : ℕ
  pub id : String
  pub timeout_ms : Option ℕ
  pub fail_fast : Bool
  pub defer_fail_fast : Bool
  pub suppress_events : Bool
  pub status : TaskState

-- What `task.run` resolves to: an object with a field `ok`, or anything else. The last number
-- stands for the rest of the value.
pub data Returned : Type 0 where
  plain : ℕ → Returned
  result : (ok : Bool) (status : Option AgentStatus) (content : ℕ) → Returned

-- What it rejects with: null or undefined, or an object with a name and perhaps a code.
pub data Thrown : Type 0 where
  nullish : Thrown
  error : (name : String) (code : Option String) → Thrown

pub data Outcome : Type 0 where
  returned : Returned → Outcome
  threw : Thrown → Outcome

-- What the promise of `schedule` resolves to.
pub data Settlement : Type 0 where
  value : Returned → Settlement
  skip : (message : String) → Settlement
  failure : (status : AgentStatus) (code : String) → Settlement

pub data EventType : Type 0 where
  agent_queued agent_started agent_completed agent_failed agent_cancelled agent_timed_out :
      EventType

pub record Event : Type 0 where
  pub type : EventType
  pub agent_id : String
  pub status : Option AgentStatus
  pub code : Option String

pub record Scheduler : Type 0 where
  pub concurrency : ℕ
  pub fail_fast : Bool
  pub has_sink : Bool
  pub queue : List InternalTask
  pub running : List (String × InternalTask)
  pub completed : List (String × Settlement)
  pub aborted : Bool
  pub abort_reason : Option AbortReason
  pub drain_resolvers : List ℕ
  -- the environment
  pub in_flight : List InternalTask
  pub lost : List InternalTask
  pub aborted_signals : List ℕ
  pub timers : List ℕ
  pub pending_pumps : ℕ
  -- the logs, oldest first
  pub runs : List ℕ
  pub settled : List (ℕ × Settlement)
  pub events : List Event
  pub drained : List ℕ

unfoldable pub init : ℕ → Bool → Bool → Scheduler
init concurrency fail_fast has_sink = record {
  concurrency = concurrency;
  fail_fast = fail_fast;
  has_sink = has_sink;
  queue = [];
  running = [];
  completed = [];
  aborted = false;
  abort_reason = none;
  drain_resolvers = [];
  in_flight = [];
  lost = [];
  aborted_signals = [];
  timers = [];
  pending_pumps = 0;
  runs = [];
  settled = [];
  events = [];
  drained = [];
}

abbrev pub without : ℕ → List ℕ → List ℕ
without h = filter λ k. not (k == h)

abbrev pub is_empty {ℓ} : {A : Type ℓ} → List A → Bool
is_empty [] = true
is_empty (x ∷ xs) = false

abbrev pub is_member : ℕ → List ℕ → Bool
is_member h [] = false
is_member h (k ∷ ks) = k == h || is_member h ks

-- `resolveFn`: clears the timer and resolves the promise.
unfoldable pub resolve : InternalTask → Settlement → Scheduler → Scheduler
resolve t v s = record s {
  timers = without t.handle s.timers;
  settled = s.settled ++ (t.handle, v) ∷ [];
}

-- `if (this.eventSink && !options?.suppressLifecycleEvents) this.eventSink.emit(…)`
unfoldable pub emit :
    InternalTask → EventType → Option AgentStatus → Option String → Scheduler → Scheduler
emit t type status code s =
    if s.has_sink && not t.suppress_events
    then record s {
      events =
          s.events ++ record { type = type; agent_id = t.id; status = status; code = code } ∷ [];
    }
    else s

-- The message of `createSkippedOrCancelledResult`: an empty one counts as none.
abbrev pub skip_message : Option AbortReason → String
skip_message none = "Task was skipped"
skip_message (some r) = if r.message == "" then "Task was skipped" else r.message

abbrev pub has_timeout : Option ℕ → Bool
has_timeout none = false
has_timeout (some ms) = ltb 0 ms

abbrev pub is_idle : Scheduler → Bool
is_idle s = is_empty s.running && is_empty s.queue
