-- ===== src/Retry/Parts.antt =====
-- agents/retry-orchestrator.ts: the results, summaries and prompts that a pass of the loop makes.
use open_dynamic_workflow.Base.{
  ℕ, ◌+◌, String, String_eq, Bool, true, false, Option, none, some, if◌then◌else◌, show, join,
}
use open_dynamic_workflow.Agent.{failed, cancelled, AgentResult}
use open_dynamic_workflow.RunLimits.{or_text}
use open_dynamic_workflow.Retry.Classifier.{
  FailureReason, cancel, schema_validation_failed, classify,
}
use open_dynamic_workflow.Retry.State.{
  RetryInput, Rejection, resolved, rejected, Surroundings, AttemptSummary, LoopState, Ending, Pass,
  breaks, push,
}

abbrev pub max_attempts : RetryInput → ℕ
max_attempts q = if q.enabled then q.policy.max_attempts else 1

abbrev pub logical_dir : RetryInput → String
logical_dir q = join "agents/" q.logical_agent_id

abbrev pub attempt_dir : RetryInput → ℕ → String
attempt_dir q n = join (logical_dir q) (join "/attempts/" (show n))

-- The failure that a refusal of the run limit becomes.
abbrev pub refusal_result : RetryInput → ℕ → String → AgentResult
refusal_result q n message = record {
  ok = false;
  status = failed;
  id = q.logical_agent_id;
  stdout = "";
  stderr = or_text (some message) "Run limit exceeded";
  exit_code = none;
  duration_ms = 0;
  artifact_dir = attempt_dir q n;
  validation_error_path = none;
  error = some record {
    name = "OpenDynamicWorkflowError";
    message = or_text (some message) "Run limit exceeded";
    code = some "RUN_LIMIT_EXCEEDED";
  };
}

-- The catch block after `await attemptResultPromise`.
abbrev pub rejection_result : RetryInput → ℕ → ℕ → Rejection → AgentResult
rejection_result q n duration e = record {
  ok = false;
  status = failed;
  id = q.logical_agent_id;
  stdout = "";
  stderr = e.message;
  exit_code = none;
  duration_ms = duration;
  artifact_dir = attempt_dir q n;
  validation_error_path = none;
  error = some record {
    name = or_text e.name "Error";
    message = e.message;
    code = some (or_text e.code "INTERNAL_ERROR");
  };
}

abbrev pub attempt_result : RetryInput → ℕ → Surroundings → AgentResult
attempt_result q n w = elim w.outcome [
  | resolved r ↦ r
  | rejected e ↦ rejection_result q n w.duration e
]

abbrev pub stop_text : Option String → String
stop_text none = "Execution stopped"
stop_text (some t) = or_text (some t) "Execution stopped"

-- `buildLogicalCancellationResult`
unfoldable pub build_logical_cancellation_result :
    RetryInput → Surroundings → AgentResult → AgentResult
build_logical_cancellation_result q w source = record source {
  ok = false;
  status = cancelled;
  id = q.logical_agent_id;
  stderr = stop_text w.signal_reason;
  exit_code = none;
  error = some record {
    name = "CancelledError";
    message = stop_text w.signal_reason;
    code = some "USER_CANCELLED";
  };
}

abbrev pub cancelled_ending : Option AgentResult → Ending
cancelled_ending r = record {
  final_status = cancelled;
  final_failure_reason = some cancel;
  final_result = r;
  exhausted = false;
}

-- The summary of an attempt that ran.
abbrev pub summarize : RetryInput → ℕ → Surroundings → AgentResult → AttemptSummary
summarize q n w r = record {
  attempt = n;
  status = r.status;
  retryable = (classify none r).retryable;
  failure_reason = if r.ok then none else (classify none r).reason;
  duration_ms = w.duration;
  computed_delay = none;
  delay_skipped = false;
  artifact_path = attempt_dir q n;
}

-- A break with the summary's status and the final one cancelled.
abbrev pub breaks_cancelled :
    RetryInput → Surroundings → AgentResult → AttemptSummary → LoopState → Pass
breaks_cancelled q w r a s =
    breaks (push (record a { status = cancelled }) s)
      (cancelled_ending (some (build_logical_cancellation_result q w r)))

abbrev pub is_schema_failure : Option FailureReason → Bool
is_schema_failure (some schema_validation_failed) = true
is_schema_failure _ = false

-- The prompt of the next attempt.
abbrev pub next_prompt : RetryInput → Surroundings → AgentResult → String → String
next_prompt q w r prompt =
    if is_schema_failure (classify none r).reason
    then join q.base_prompt (join "\n\n" (w.feedback r.validation_error_path))
    else prompt

-- The end of a pass that another one follows.
abbrev pub next_attempt :
    RetryInput → Surroundings → AgentResult → AttemptSummary → LoopState → LoopState
next_attempt q w r a s = record (push a s) {
  current_prompt = next_prompt q w r s.current_prompt;
  attempt_num = s.attempt_num + 1;
}
