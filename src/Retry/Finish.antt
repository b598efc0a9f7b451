-- ===== src/Retry/Finish.antt =====
-- agents/retry-orchestrator.ts, what follows the loop of `RetryOrchestrator.execute`, and the whole.
-- The files that it writes and copies are left out.
use open_dynamic_workflow.Base.{
  ℕ, String, String_eq, ◌==◌, Bool, false, not, ◌&&◌, Option, none, some, List, [], ◌∷◌, ◌++◌, leb,
  if◌then◌else◌, join,
}
use open_dynamic_workflow.Agent.{
  AgentStatus, timed_out, cancelled, skipped, AgentResult, SerializedError, AbortReason, AbortCause,
  fail_fast, timeout as timeout_cause, failure,
}
use open_dynamic_workflow.RunLimits.{RunLimitTracker, or_text}
use open_dynamic_workflow.Retry.State.{
  RetryInput, Surroundings, AttemptSummary, Event, retry_exhausted, agent_completed, agent_failed,
  agent_timed_out, agent_cancelled, LoopState, Ending, Execution,
}
use open_dynamic_workflow.Retry.Parts.{max_attempts, logical_dir, attempt_dir, stop_text}
use open_dynamic_workflow.Retry.Pass.{loop, start}

-- What follows the loop: the result that stands in for a missing one.
abbrev pub fallback_result : RetryInput → Option String → AgentStatus → AgentResult
fallback_result q reason status = record {
  ok = false;
  status = status;
  id = q.logical_agent_id;
  stdout = "";
  stderr = stop_text reason;
  exit_code = none;
  duration_ms = 0;
  artifact_dir = attempt_dir q 1;
  validation_error_path = none;
  error =
      some record {
        name = "CancelledError";
        message = stop_text reason;
        code = some "USER_CANCELLED";
      };
}

abbrev pub stand_in : RetryInput → Option String → Ending → AgentResult
stand_in q reason e = elim e.final_result [
  | none ↦ fallback_result q reason e.final_status
  | some r ↦ r
]

-- `if (finalStatus === "cancelled" && finalResult) finalResult.status = "cancelled"`
abbrev pub cancel_status : AgentStatus → AgentResult → AgentResult
cancel_status cancelled r = record r { status = cancelled }
cancel_status _ r = r

-- `buildLogicalAgentArtifacts`, of the paths that the model has.
abbrev pub build_logical_agent_artifacts : RetryInput → AgentResult → AgentResult
build_logical_agent_artifacts q r = record r {
  artifact_dir = logical_dir q;
  validation_error_path = elim r.validation_error_path [
    | none ↦ none
    | some p ↦ some (join (logical_dir q) "/validation-error.json")
  ];
}

-- `!!attempts[attempts.length - 1]?.retryable`
unfoldable pub last_retryable : List AttemptSummary → Bool
last_retryable [] = false
last_retryable (a ∷ []) = a.retryable
last_retryable (a ∷ b ∷ rest) = last_retryable (b ∷ rest)

-- `error?.code`, and its message.
abbrev pub error_code_of : Option SerializedError → Option String
error_code_of none = none
error_code_of (some e) = e.code

abbrev pub error_message_of : Option SerializedError → String
error_message_of none = "Execution failed"
error_message_of (some e) = or_text (some e.message) "Execution failed"

abbrev pub is_provider_unavailable : Option String → Bool
is_provider_unavailable none = false
is_provider_unavailable (some c) = c == "PROVIDER_UNAVAILABLE"

-- The error of a result whose retries are exhausted.
unfoldable pub exhaust : Bool → AgentResult → AgentResult
exhaust retryable r =
    if retryable && (not r.ok && not (is_provider_unavailable (error_code_of r.error)))
    then record r {
      error = some record {
        name = "OpenDynamicWorkflowError";
        message = join "Agent retry attempts exhausted: " (error_message_of r.error);
        code = some "RETRY_EXHAUSTED";
      };
    }
    else r

-- `getLogicalTerminalEventType`
unfoldable pub get_logical_terminal_event_type : AgentStatus → Event
get_logical_terminal_event_type timed_out = agent_timed_out
get_logical_terminal_event_type cancelled = agent_cancelled
get_logical_terminal_event_type skipped = agent_cancelled
get_logical_terminal_event_type _ = agent_failed

abbrev pub failure_cause : AgentStatus → AbortCause
failure_cause timed_out = timeout_cause
failure_cause _ = failure

-- The argument of `scheduler.abort`.
abbrev pub abort_reason : RetryInput → AgentStatus → AbortReason
abort_reason q status = record {
  type = fail_fast;
  message = join "Fail-fast triggered by final logical failure of agent " q.logical_agent_id;
  source = some q.logical_agent_id;
  cause = some (failure_cause status);
}

-- The final result with its status, time and artifacts.
abbrev pub logical_result : RetryInput → ℕ → Option String → Ending → AgentResult
logical_result q total reason e =
    build_logical_agent_artifacts q
      (record (cancel_status e.final_status (stand_in q reason e)) { duration_ms = total })

-- The final result, before its metadata are attached.
unfoldable pub final_result : RetryInput → ℕ → Option String → Ending → Bool → AgentResult
unfolding exhaust
final_result q total reason e exhaustion = exhaust exhaustion (logical_result q total reason e)

-- The loop is over: `total` is the time since the start, `reason` the text of the signal's reason.
unfoldable pub finalize : RetryInput → ℕ → Option String → LoopState → Ending → Execution
unfolding final_result last_retryable get_logical_terminal_event_type
finalize q total reason s e =
    let exhaustion = e.exhausted && last_retryable s.attempts in
    let r = final_result q total reason e exhaustion in
    let end_event = if r.ok then agent_completed else get_logical_terminal_event_type r.status in
    record {
      result = r;
      retry = record {
        enabled = q.enabled;
        exhausted = e.exhausted;
        max_attempts = max_attempts q;
        attempts_started = s.attempts_started;
        final_attempt =
            if leb s.attempt_num (max_attempts q) then s.attempt_num else max_attempts q;
        final_failure_reason = if r.ok then none else e.final_failure_reason;
        attempts = s.attempts;
      };
      final_status = e.final_status;
      events =
          s.events
          ++ (if exhaustion
              then retry_exhausted e.final_failure_reason ∷ end_event ∷ []
              else end_event ∷ []);
      prompts = s.prompts;
      run_limits = s.run_limits;
      abort = if not r.ok && q.fail_fast then some (abort_reason q e.final_status) else none;
    }

-- `execute`; the first pass begins at attempt 1, so that `maxAttempts` passes are left.
unfoldable pub execute :
    RetryInput → RunLimitTracker → (ℕ → Surroundings) → ℕ → Option String → Execution
unfolding loop finalize
execute q t env total reason =
    let (s, e) = loop q env (max_attempts q) (start q t) in finalize q total reason s e
