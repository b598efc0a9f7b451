-- ===== src/Retry/Examples.antt =====
-- The retry orchestrator's theorems at concrete calls, and runs of it.
use open_dynamic_workflow.Base.{
  ℕ, zero, suc, ◌≤◌, ◌<◌, ◌*◌, ◌≡◌, refl, true, false, not, ◌&&◌, none, some, [], ◌∷◌, length,
  filter, arith, if◌then◌else◌, lookup, show_digits,
}
use open_dynamic_workflow.Agent.{AgentResult, succeeded, failed, cancelled}
use open_dynamic_workflow.RunLimits.{new, before_agent_schedule, mark_exceeded}
use open_dynamic_workflow.RunLimits.Laws.{schedules, min, new-schedules}
use open_dynamic_workflow.Retry.Classifier.{object, classify, mapped, is_inherited}
use open_dynamic_workflow.Retry.Delay.{
  RetryPolicy, exponential, unit_ms, compute_retry_delay, raw_delay_ms,
}
use open_dynamic_workflow.Retry.State.{
  RetryInput, Surroundings, resolved, agent_started, attempt_started, attempt_completed,
  attempt_failed, retry_scheduled, agent_completed,
}
use open_dynamic_workflow.Retry.Parts.{max_attempts, build_logical_cancellation_result}
use open_dynamic_workflow.Retry.Pass.{
  loop, pass, proceed, attempt, refuse, succeed, fail, retry, count_others,
}
use open_dynamic_workflow.Retry.Finish.{
  execute, finalize, final_result, exhaust, last_retryable, get_logical_terminal_event_type,
  abort_reason, build_logical_agent_artifacts, error_code_of,
}
use open_dynamic_workflow.Retry.Attempts.{Numbered, AllButLast, IsRetried, is_lifecycle}
use open_dynamic_workflow.Retry.Verdict.{is_succeeded, Fits}
use open_dynamic_workflow.Retry.Results.{
  execute-attempts, execute-lifecycle, execute-status, end_event,
}
use open_dynamic_workflow.Retry.Progress.{IsUndisturbed, Fails}
use open_dynamic_workflow.Retry.Outcomes.{execute-succeeds, execute-exhausts}
use open_dynamic_workflow.Retry.Interruption.{execute-interrupted}
use open_dynamic_workflow.Retry.Policies.{
  retryable_as, classify-retryable, compute_retry_delay-grows,
}

abbrev policy : RetryPolicy
policy = record {
  max_attempts = 3;
  delay_ms = 100;
  backoff = exponential;
  max_delay_ms = 5000;
  jitter = false;
  disable_delay = false;
}

abbrev call : RetryInput
call = record {
  logical_agent_id = "review";
  base_prompt = "Review it";
  enabled = true;
  policy = policy;
  fail_fast = true;
}

abbrev good : AgentResult
good = record {
  ok = true;
  status = succeeded;
  id = "review";
  stdout = "fine";
  stderr = "";
  exit_code = some 0;
  duration_ms = 5;
  artifact_dir = "agents/review/attempts/3";
  validation_error_path = none;
  error = none;
}

abbrev bad : AgentResult
bad = record good {
  ok = false;
  status = failed;
  exit_code = some 1;
  error = some record { name = "Error"; message = "broken"; code = some "PROVIDER_PROCESS_FAILED" };
}

abbrev around : AgentResult → Surroundings
around r = record {
  aborted_before = false;
  others = "other" ∷ [];
  outcome = resolved r;
  duration = 7;
  aborted_after = false;
  random = 0;
  aborted_at_delay = false;
  sleep_aborted = false;
  feedback = λ path. "wrong";
  signal_reason = none;
}

-- Two failures, then a success.
abbrev third_time : ℕ → Surroundings
third_time (suc (suc (suc n))) = around good
third_time _ = around bad

abbrev always_bad : ℕ → Surroundings
always_bad n = around bad

-- The signal is aborted before the third attempt.
abbrev cut_third : ℕ → Surroundings
cut_third (suc (suc (suc n))) = record (around good) { aborted_before = true }
cut_third _ = around bad

around-IsUndisturbed : (r : AgentResult) → IsUndisturbed (around r)
around-IsUndisturbed r = record { before = refl; after = refl; delay = refl; sleep = refl }

bad-Fails : (n : ℕ) → Fails call n (around bad)
unfolding classify mapped lookup is_inherited
bad-Fails n = (around-IsUndisturbed bad, (refl, refl))

third_time-Fails : (n : ℕ) → 1 ≤ n → n < 3 → Fails call n (third_time n)
third_time-Fails zero p h = bad-Fails 0
third_time-Fails (suc zero) p h = bad-Fails 1
third_time-Fails (suc (suc zero)) p h = bad-Fails 2
third_time-Fails (suc (suc (suc n))) p h = absurd (omega (arith, h))

cut_third-Fails : (n : ℕ) → 1 ≤ n → n < 3 → Fails call n (cut_third n)
cut_third-Fails zero p h = bad-Fails 0
cut_third-Fails (suc zero) p h = bad-Fails 1
cut_third-Fails (suc (suc zero)) p h = bad-Fails 2
cut_third-Fails (suc (suc (suc n))) p h = absurd (omega (arith, h))

third_time-Fits : (n : ℕ) → Fits (third_time n).outcome
unfolding Fits
third_time-Fits zero = refl
third_time-Fits (suc zero) = refl
third_time-Fits (suc (suc zero)) = refl
third_time-Fits (suc (suc (suc n))) = refl

runs : Unit {0}
unfolding execute finalize loop pass proceed attempt refuse succeed fail retry final_result exhaust
    last_retryable get_logical_terminal_event_type count_others before_agent_schedule mark_exceeded
    new classify mapped lookup is_inherited compute_retry_delay raw_delay_ms show_digits
    build_logical_cancellation_result
runs = tt
  where
    third_time_events :
        (execute call (new none) third_time 10 none).events
        ≡ agent_started
          ∷ attempt_started 1
          ∷ attempt_failed 1 failed true
          ∷ retry_scheduled 1 (100 * unit_ms)
          ∷ attempt_started 2
          ∷ attempt_failed 2 failed true
          ∷ retry_scheduled 2 (200 * unit_ms)
          ∷ attempt_started 3
          ∷ attempt_completed 3
          ∷ agent_completed
          ∷ []
    third_time_events = refl

    limited :
        (execute call (new (some 3)) always_bad 10 none).result.stderr
        ≡ "Run limit exceeded before scheduling agent 'review': maxAgentCalls 3 has been reached."
    limited = refl

execute-attempts_example :
    let x = execute call (new (some 4)) third_time 10 none in
    (x.retry.attempts_started ≡ length x.retry.attempts)
    × ((length x.retry.attempts ≤ max_attempts call)
        × (Numbered 1 x.retry.attempts × AllButLast (IsRetried policy) x.retry.attempts))
execute-attempts_example = execute-attempts call (new (some 4)) third_time 10 none

execute-lifecycle_example :
    let x = execute call (new (some 4)) third_time 10 none in
    filter is_lifecycle x.events ≡ agent_started ∷ end_event x.result ∷ []
execute-lifecycle_example = execute-lifecycle call (new (some 4)) third_time 10 none

execute-status_example :
    let x = execute call (new (some 4)) third_time 10 none in
    (x.result.status ≡ x.final_status)
    × ((x.result.ok ≡ is_succeeded x.final_status)
        × (x.abort ≡ (
            if not (is_succeeded x.final_status) && call.fail_fast
            then some (abort_reason call x.final_status)
            else none)))
execute-status_example = execute-status call (new (some 4)) third_time 10 none third_time-Fits

unlimited : (new none).max_agent_calls ≡ none
unfolding new
unlimited = refl

execute-succeeds_example :
    let x = execute call (new none) third_time 10 none in
    (x.retry.attempts_started ≡ 3)
    × ((x.result ≡ build_logical_agent_artifacts call (record good { duration_ms = 10 }))
        × (x.abort ≡ none))
execute-succeeds_example =
    execute-succeeds call (new none) third_time unlimited 3 (omega arith) (omega arith)
      third_time-Fails (around-IsUndisturbed good, refl) 10 none

execute-exhausts_example :
    let x = execute call (new none) always_bad 10 none in
    (x.retry.attempts_started ≡ 3)
    × ((x.retry.exhausted ≡ true)
        × ((x.result.ok ≡ false) × (error_code_of x.result.error ≡ some "RETRY_EXHAUSTED")))
execute-exhausts_example =
    execute-exhausts call (new none) always_bad unlimited (omega arith) (λ n p h. bad-Fails n) 10
      none

execute-interrupted_example :
    let x = execute call (new none) cut_third 10 none in
    (x.result.status ≡ cancelled)
    × ((x.retry.exhausted ≡ false) × ((x.retry.attempts_started ≡ 2) × (x.retry.final_attempt ≡ 3)))
execute-interrupted_example =
    execute-interrupted call (new none) cut_third unlimited 2 (omega arith) cut_third-Fails refl 10
      none

classify-retryable_example :
    let c = classify (some (object (some "PARSE_ERROR") none)) bad in
    c.retryable ≡ retryable_as c.reason
classify-retryable_example = classify-retryable (some (object (some "PARSE_ERROR") none)) bad

compute_retry_delay-grows_example :
    let d = (compute_retry_delay policy 3 5).delay in
    ((compute_retry_delay policy 2 5).delay ≤ d)
    × ((d ≤ 5000 * unit_ms)
        × (d ≤ (compute_retry_delay (record policy { jitter = false }) 3 5).delay))
compute_retry_delay-grows_example =
    compute_retry_delay-grows policy 2 3 5 (omega arith) (omega arith)

new-schedules_example :
    ((schedules ("a" ∷ "b" ∷ "c" ∷ []) (new (some 2))).1 ≡ min 3 2)
    × (((schedules ("a" ∷ "b" ∷ "c" ∷ []) (new (some 2))).0.agent_calls ≡ min 3 2)
        × ((schedules ("a" ∷ "b" ∷ "c" ∷ []) (new (some 2))).0.exceeded ≡ true))
new-schedules_example = new-schedules ("a" ∷ "b" ∷ "c" ∷ []) 1
