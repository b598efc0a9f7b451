-- ===== src/Retry/State.antt =====
-- agents/retry-orchestrator.ts, the data of `RetryOrchestrator`: its input, what happens around it
-- in one pass of its loop, the local variables of `execute`, and what it returns. Wall-clock times
-- of day, labels, models, permissions and metadata are left out.
use open_dynamic_workflow.Base.{ℕ, String, Bool, false, Option, none, List, [], ◌∷◌, ◌++◌}
use open_dynamic_workflow.Agent.{AgentStatus, skipped, AgentResult, AbortReason}
use open_dynamic_workflow.RunLimits.{RunLimitTracker}
use open_dynamic_workflow.Retry.Classifier.{FailureReason}
use open_dynamic_workflow.Retry.Delay.{RetryPolicy}

pub record RetryInput : Type 0 where
  pub logical_agent_id : String
  pub base_prompt : String
  pub enabled : Bool
  pub policy : RetryPolicy
  pub fail_fast : Bool

-- What `schedule` rejects with: its name and code if any, its message or text.
pub record Rejection : Type 0 where
  pub name : Option String
  pub message : String
  pub code : Option String

-- The promise of `scheduler.schedule`.
pub data Scheduled : Type 0 where
  resolved : AgentResult → Scheduled
  rejected : Rejection → Scheduled

-- What one pass of the loop meets: the signal each time it is read, the agents that the run limit
-- has counted since, the outcome of the attempt, the clock, `Math.random` in units, whether the
-- sleep is aborted, and the redacted feedback for the artifact of the validation errors.
pub record Surroundings : Type 0 where
  pub aborted_before : Bool
  pub others : List String
  pub outcome : Scheduled
  pub duration : ℕ
  pub aborted_after : Bool
  pub random : ℕ
  pub aborted_at_delay : Bool
  pub sleep_aborted : Bool
  pub feedback : Option String → String
  pub signal_reason : Option String

-- `RetryAttemptSummary`
pub record AttemptSummary : Type 0 where
  pub attempt : ℕ
  pub status : AgentStatus
  pub retryable : Bool
  pub failure_reason : Option FailureReason
  pub duration_ms : ℕ
  pub computed_delay : Option ℕ
  pub delay_skipped : Bool
  pub artifact_path : String

-- What `eventBus.emit` is called with.
pub data Event : Type 0 where
  agent_started : Event
  attempt_started attempt_completed : ℕ → Event
  attempt_failed : ℕ → AgentStatus → Bool → Event
  retry_skipped_delay retry_scheduled : (failed_attempt delay : ℕ) → Event
  retry_exhausted : Option FailureReason → Event
  agent_completed agent_failed agent_timed_out agent_cancelled : Event

-- The variables that the loop changes and a later pass reads, and the run limit.
pub record LoopState : Type 0 where
  pub attempts : List AttemptSummary
  pub attempts_started : ℕ
  pub attempt_num : ℕ
  pub current_prompt : String
  pub run_limits : RunLimitTracker
  pub prompts : List String
  pub events : List Event

-- The variables that the loop sets as it ends.
pub record Ending : Type 0 where
  pub final_status : AgentStatus
  pub final_failure_reason : Option FailureReason
  pub final_result : Option AgentResult
  pub exhausted : Bool

-- Their initial values, which a loop without a pass leaves.
abbrev pub no_ending : Ending
no_ending = record {
  final_status = skipped;
  final_failure_reason = none;
  final_result = none;
  exhausted = false;
}

pub data Pass : Type 0 where
  breaks : LoopState → Ending → Pass
  continues : LoopState → Pass

-- `RetryMetadata`
pub record RetryMetadata : Type 0 where
  pub enabled : Bool
  pub exhausted : Bool
  pub max_attempts : ℕ
  pub attempts_started : ℕ
  pub final_attempt : ℕ
  pub final_failure_reason : Option FailureReason
  pub attempts : List AttemptSummary

-- The result with its metadata, and the effects: events, the prompts of the scheduled attempts, the
-- run limit, the status in the summary file, and the reason that the scheduler is aborted with.
pub record Execution : Type 0 where
  pub result : AgentResult
  pub retry : RetryMetadata
  pub final_status : AgentStatus
  pub events : List Event
  pub prompts : List String
  pub run_limits : RunLimitTracker
  pub abort : Option AbortReason

abbrev pub emit : Event → LoopState → LoopState
emit e s = record s { events = s.events ++ e ∷ [] }

abbrev pub push : AttemptSummary → LoopState → LoopState
push a s = record s { attempts = s.attempts ++ a ∷ [] }
