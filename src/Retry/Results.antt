-- ===== src/Retry/Results.antt =====
-- What `execute` returns, reports and aborts, over all that may happen around it.
use open_dynamic_workflow.Base.{
  ℕ, ◌≤◌, ◌≡◌, refl, sym, ap, ◌∙◌, Bool, true, false, not, ◌&&◌, Option, none, some, String, List,
  [], ◌∷◌, ◌++◌, length, filter, filter-append, if◌then◌else◌, arith,
}
use open_dynamic_workflow.Agent.{
  AgentStatus, succeeded, failed, timed_out, cancelled, skipped, AgentResult,
}
use open_dynamic_workflow.RunLimits.{RunLimitTracker}
use open_dynamic_workflow.Retry.Classifier.{FailureReason}
use open_dynamic_workflow.Retry.State.{
  RetryInput, Surroundings, Event, agent_started, agent_completed, Ending, retry_exhausted,
}
use open_dynamic_workflow.Retry.Parts.{max_attempts}
use open_dynamic_workflow.Retry.Pass.{loop, start}
use open_dynamic_workflow.Retry.Finish.{
  stand_in, final_result, finalize, execute, exhaust, last_retryable, logical_result,
  get_logical_terminal_event_type, abort_reason, cancel_status,
}
use open_dynamic_workflow.Retry.Attempts.{Numbered, AllButLast, IsRetried, is_lifecycle, loop-Ended}
use open_dynamic_workflow.Retry.Verdict.{is_succeeded, Fits, Decided, loop-Decided}

-- The attempts that the metadata list are numbered from 1, as many as `attemptsStarted` says and at
-- most `maxAttempts`; each but the last was a retryable failure, after which the delay stayed within
-- the policy's bound.
pub execute-attempts :
    (q : RetryInput) (t : RunLimitTracker) (env : ℕ → Surroundings) (total : ℕ)
    (reason : Option String)
    → let x = execute q t env total reason in
      (x.retry.attempts_started ≡ length x.retry.attempts)
      × ((length x.retry.attempts ≤ max_attempts q)
          × (Numbered 1 x.retry.attempts × AllButLast (IsRetried q.policy) x.retry.attempts))
unfolding execute finalize
execute-attempts q t env total reason =
    let h = loop-Ended q t env in (h.started, (h.bound, (h.numbered, h.retried)))

-- The event that ends the call.
abbrev pub end_event : AgentResult → Event
end_event r = if r.ok then agent_completed else get_logical_terminal_event_type r.status

end_event-lifecycle : (r : AgentResult) → filter is_lifecycle (end_event r ∷ []) ≡ end_event r ∷ []
unfolding is_lifecycle get_logical_terminal_event_type
end_event-lifecycle r = ground arith

closing_lem :
    (es : List Event) (b : Bool) (reason : Option FailureReason) (r : AgentResult)
    → filter is_lifecycle
        (es ++ (if b then retry_exhausted reason ∷ end_event r ∷ [] else end_event r ∷ []))
      ≡ filter is_lifecycle es ++ end_event r ∷ []
unfolding is_lifecycle
closing_lem es true reason r =
    filter-append is_lifecycle es (retry_exhausted reason ∷ end_event r ∷ [])
    ∙ ap (λ x. filter is_lifecycle es ++ x) (end_event-lifecycle r)
closing_lem es false reason r =
    filter-append is_lifecycle es (end_event r ∷ [])
    ∙ ap (λ x. filter is_lifecycle es ++ x) (end_event-lifecycle r)

-- Of the events that begin and end the call there are two, in this order: the start, and the end
-- that the result's status demands.
pub execute-lifecycle :
    (q : RetryInput) (t : RunLimitTracker) (env : ℕ → Surroundings) (total : ℕ)
    (reason : Option String)
    → let x = execute q t env total reason in
      filter is_lifecycle x.events ≡ agent_started ∷ end_event x.result ∷ []
unfolding execute finalize is_lifecycle
execute-lifecycle q t env total reason =
    let h = loop-Ended q t env in
    closing_lem (loop q env (max_attempts q) (start q t)).0.events _ _
      (execute q t env total reason).result
    ∙ ap (λ es. es ++ end_event (execute q t env total reason).result ∷ []) h.lifecycle

cancel_status_lem :
    (t : AgentStatus) (r : AgentResult)
    → r.status ≡ t
    → ((cancel_status t r).status ≡ t) × ((cancel_status t r).ok ≡ r.ok)
cancel_status_lem succeeded r h = (h, refl)
cancel_status_lem failed r h = (h, refl)
cancel_status_lem timed_out r h = (h, refl)
cancel_status_lem cancelled r h = (refl, refl)
cancel_status_lem skipped r h = (h, refl)

exhaust_lem :
    (b : Bool) (r : AgentResult) → ((exhaust b r).status ≡ r.status) × ((exhaust b r).ok ≡ r.ok)
unfolding exhaust
exhaust_lem b r = (ground arith, ground arith)

final_result_lem :
    (q : RetryInput) (total : ℕ) (reason : Option String) (e : Ending) (b : Bool)
    → Decided q reason e
    → ((final_result q total reason e b).status ≡ e.final_status)
      × ((final_result q total reason e b).ok ≡ is_succeeded e.final_status)
unfolding final_result
final_result_lem q total reason e b d =
    let c = cancel_status_lem e.final_status (stand_in q reason e) d.0 in
    let x = exhaust_lem b (logical_result q total reason e) in (x.0 ∙ c.0, x.1 ∙ (c.1 ∙ sym d.1))

-- If each outcome has the status succeeded just if it is ok, the result has the status that the
-- summary file records, it is ok just if that is succeeded, and the scheduler is aborted just if it
-- is not and the call fails fast.
pub execute-status :
    (q : RetryInput) (t : RunLimitTracker) (env : ℕ → Surroundings) (total : ℕ)
    (reason : Option String)
    → ((n : ℕ) → Fits (env n).outcome)
    → let x = execute q t env total reason in
      (x.result.status ≡ x.final_status)
      × ((x.result.ok ≡ is_succeeded x.final_status)
          × (x.abort ≡ (
              if not (is_succeeded x.final_status) && q.fail_fast
              then some (abort_reason q x.final_status)
              else none)))
unfolding execute finalize
execute-status q t env total reason f =
    let d = loop-Decided q t env reason f in
    let b =
      (loop q env (max_attempts q) (start q t)).1.exhausted
      && last_retryable (loop q env (max_attempts q) (start q t)).0.attempts in
    let r = final_result_lem q total reason (loop q env (max_attempts q) (start q t)).1 b d in
    (
      r.0,
      (
        r.1,
        ap
            (λ ok.
              if not ok && q.fail_fast
              then some (abort_reason q (loop q env (max_attempts q) (start q t)).1.final_status)
              else none)
            r.1,
      ),
    )
