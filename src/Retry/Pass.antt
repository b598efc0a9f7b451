-- ===== src/Retry/Pass.antt =====
-- agents/retry-orchestrator.ts, the loop of `RetryOrchestrator.execute`: one pass, and the loop.
use open_dynamic_workflow.Base.{
  ℕ, zero, suc, ◌+◌, String, String_eq, true, false, ◌&&◌, Option, none, some, List, [], ◌∷◌, ◌++◌,
  ltb, nat_eq, if◌then◌else◌,
}
use open_dynamic_workflow.Agent.{succeeded, failed, AgentResult}
use open_dynamic_workflow.RunLimits.{RunLimitTracker, before_agent_schedule}
use open_dynamic_workflow.Retry.Classifier.{run_limit_exceeded, classify}
use open_dynamic_workflow.Retry.Delay.{compute_retry_delay}
use open_dynamic_workflow.Retry.State.{
  RetryInput, Surroundings, agent_started, attempt_started, attempt_completed, attempt_failed,
  retry_skipped_delay, retry_scheduled, LoopState, Ending, no_ending, Pass, breaks, continues, emit,
  push,
}
use open_dynamic_workflow.Retry.Parts.{
  max_attempts, attempt_dir, refusal_result, attempt_result, cancelled_ending, summarize,
  breaks_cancelled, next_attempt,
}

-- The branch `if (canRetry)`.
unfoldable pub retry : RetryInput → Surroundings → AgentResult → LoopState → Pass
retry q w r s =
    let delay = (compute_retry_delay q.policy s.attempt_num w.random).delay in
    let a = record (summarize q s.attempt_num w r) { computed_delay = some delay } in
    let skipping = record a { delay_skipped = true } in
    let waiting = emit (retry_scheduled s.attempt_num delay) s in
    if w.aborted_at_delay
    then breaks_cancelled q w r a s
    else if q.policy.disable_delay
    then continues (next_attempt q w r skipping (emit (retry_skipped_delay s.attempt_num delay) s))
    else if w.sleep_aborted
    then breaks_cancelled q w r a waiting
    else continues (next_attempt q w r a waiting)

-- The branch of an attempt that failed.
unfoldable pub fail : RetryInput → Surroundings → AgentResult → LoopState → Pass
unfolding retry
fail q w r s =
    let c = classify none r in
    let a = summarize q s.attempt_num w r in
    let s' = emit (attempt_failed s.attempt_num r.status c.retryable) s in
    if w.aborted_after
    then breaks_cancelled q w r a s'
    else if c.retryable && ltb s.attempt_num (max_attempts q)
    then retry q w r s'
    else breaks (push a s') record {
      final_status = r.status;
      final_failure_reason = c.reason;
      final_result = some r;
      exhausted = true;
    }

-- The branch of an attempt that succeeded.
unfoldable pub succeed : RetryInput → Surroundings → AgentResult → LoopState → Pass
succeed q w r s =
    breaks (emit (attempt_completed s.attempt_num) (push (summarize q s.attempt_num w r) s))
      record {
        final_status = succeeded;
        final_failure_reason = none;
        final_result = some r;
        exhausted = false;
      }

-- The attempt runs, with the current prompt.
unfoldable pub attempt : RetryInput → Surroundings → LoopState → Pass
unfolding succeed fail
attempt q w s =
    let r = attempt_result q s.attempt_num w in
    let s' =
      emit (attempt_started s.attempt_num)
        record s { prompts = s.prompts ++ s.current_prompt ∷ [] } in
    if r.ok then succeed q w r s' else fail q w r s'

-- The run limit refuses the attempt.
unfoldable pub refuse : RetryInput → String → LoopState → Pass
refuse q message s =
    breaks
      (push
        record {
          attempt = s.attempt_num;
          status = failed;
          retryable = false;
          failure_reason = some run_limit_exceeded;
          duration_ms = 0;
          computed_delay = none;
          delay_skipped = false;
          artifact_path = attempt_dir q s.attempt_num;
        }
        s)
      record {
        final_status = failed;
        final_failure_reason = some run_limit_exceeded;
        final_result = some (refusal_result q s.attempt_num message);
        exhausted = nat_eq s.attempt_num (max_attempts q);
      }

-- The run limit after the calls of other agents.
unfoldable pub count_others : List String → RunLimitTracker → RunLimitTracker
count_others [] t = t
count_others (id ∷ ids) t = count_others ids (before_agent_schedule id t).0

-- `beforeAgentSchedule` in this pass.
abbrev pub charge : RetryInput → Surroundings → LoopState → RunLimitTracker × Option String
charge q w s = before_agent_schedule q.logical_agent_id (count_others w.others s.run_limits)

-- `if (runLimitError)`
unfoldable pub proceed : RetryInput → Surroundings → Option String → LoopState → Pass
unfolding attempt refuse
proceed q w (some message) s = refuse q message s
proceed q w none s = attempt q w s

-- One pass of the loop.
unfoldable pub pass : RetryInput → Surroundings → LoopState → Pass
unfolding proceed
pass q w s =
    if w.aborted_before
    then breaks s (cancelled_ending none)
    else proceed q w (charge q w s).1
        record s { attempts_started = s.attempts_started + 1; run_limits = (charge q w s).0 }

-- The loop, by the passes that `attemptNum <= maxAttempts` leaves; `env n` is met at attempt n.
unfoldable pub loop : RetryInput → (ℕ → Surroundings) → ℕ → LoopState → LoopState × Ending
loop q env zero s = (s, no_ending)
loop q env (suc left) s = elim (pass q (env s.attempt_num) s) [
  | breaks s' e ↦ (s', e)
  | continues s' ↦ loop q env left s'
]

abbrev pub start : RetryInput → RunLimitTracker → LoopState
start q t = record {
  attempts = [];
  attempts_started = 0;
  attempt_num = 1;
  current_prompt = q.base_prompt;
  run_limits = t;
  prompts = [];
  events = agent_started ∷ [];
}
