-- ===== src/Retry/Progress.antt =====
-- What the loop does as long as nothing but the attempts' own outcomes decides.
use open_dynamic_workflow.Base.{
  ℕ, ◌+◌, ◌≤◌, ◌<◌, ◌≡◌, refl, sym, ap, ◌∙◌, subst, true, false, ◌&&◌, none, some, String, List, [],
  ◌∷◌, ◌++◌, if_then, if_else, if_intro, ltb, arith,
}
use open_dynamic_workflow.Agent.{succeeded}
use open_dynamic_workflow.RunLimits.{RunLimitTracker, before_agent_schedule}
use open_dynamic_workflow.Retry.Classifier.{classify}
use open_dynamic_workflow.Retry.State.{RetryInput, Surroundings, AttemptSummary, LoopState, Ending}
use open_dynamic_workflow.Retry.Parts.{max_attempts, attempt_result, summarize}
use open_dynamic_workflow.Retry.Pass.{
  retry, fail, succeed, attempt, proceed, charge, count_others, pass,
}
use open_dynamic_workflow.Retry.Finish.{last_retryable}
use open_dynamic_workflow.Retry.Loop.{Sat}

-- Nobody aborts the call while it is in this pass.
pub record IsUndisturbed (w : Surroundings) : Type 0 where
  pub before : w.aborted_before ≡ false
  pub after : w.aborted_after ≡ false
  pub delay : w.aborted_at_delay ≡ false
  pub sleep : w.sleep_aborted ≡ false

-- The n-th attempt fails in a way that may be retried.
abbrev pub Fails : RetryInput → ℕ → Surroundings → Type 0
Fails q n w =
    IsUndisturbed w
    × (((attempt_result q n w).ok ≡ false)
        × ((classify none (attempt_result q n w)).retryable ≡ true))

abbrev pub Succeeds : RetryInput → ℕ → Surroundings → Type 0
Succeeds q n w = IsUndisturbed w × ((attempt_result q n w).ok ≡ true)

schedule-unlimited :
    (id : String) (t : RunLimitTracker)
    → t.max_agent_calls ≡ none
    → before_agent_schedule id t ≡ (t, none)
unfolding before_agent_schedule
schedule-unlimited id t e = ground arith

count_others-unlimited :
    (ids : List String) (t : RunLimitTracker) → t.max_agent_calls ≡ none → count_others ids t ≡ t
unfolding count_others
count_others-unlimited [] t e = refl
count_others-unlimited (id ∷ ids) t e =
    ap (λ x. count_others ids x.0) (schedule-unlimited id t e) ∙ count_others-unlimited ids t e

charge-unlimited :
    (q : RetryInput) (w : Surroundings) (s : LoopState)
    → s.run_limits.max_agent_calls ≡ none
    → charge q w s ≡ (s.run_limits, none)
charge-unlimited q w s e =
    ap (before_agent_schedule q.logical_agent_id) (count_others-unlimited w.others s.run_limits e)
    ∙ schedule-unlimited q.logical_agent_id s.run_limits e

last_retryable-append :
    (xs : List AttemptSummary) (a : AttemptSummary) → last_retryable (xs ++ a ∷ []) ≡ a.retryable
unfolding last_retryable
last_retryable-append [] a = refl
last_retryable-append (x ∷ []) a = refl
last_retryable-append (x ∷ y ∷ xs) a = last_retryable-append (y ∷ xs) a

module _ (q : RetryInput) (w : Surroundings) (s : LoopState) (H : LoopState → Type 0)
    (R : LoopState → Ending → Type 0) where
  abbrev counted : LoopState
  counted = record s { attempts_started = s.attempts_started + 1 }

  Sat-begin :
      IsUndisturbed w
      → s.run_limits.max_agent_calls ≡ none
      → Sat H R (attempt q w counted)
      → Sat H R (pass q w s)
  unfolding pass proceed
  Sat-begin u e h = if_else (Sat H R) w.aborted_before _ _ u.before (
      subst
        (λ c. Sat H R (
          proceed q w c.1
            (record s { attempts_started = s.attempts_started + 1; run_limits = c.0 })))
        (sym (charge-unlimited q w s e)) h)

  abbrev pub Follows : LoopState → Type 0
  Follows s' =
      (s'.run_limits ≡ s.run_limits)
      × ((s'.attempt_num ≡ s.attempt_num + 1) × (s'.attempts_started ≡ s.attempts_started + 1))

  -- A failure that is not the last one is retried.
  pub Sat-retried :
      s.run_limits.max_agent_calls ≡ none
      → Fails q s.attempt_num w
      → s.attempt_num < max_attempts q
      → ((s' : LoopState) → Follows s' → H s')
      → Sat H R (pass q w s)
  unfolding Sat attempt fail retry
  Sat-retried e f lt next =
      let P = Sat H R in
      let r = attempt_result q s.attempt_num w in
      let u = f.0 in
      Sat-begin u e (
        if_else P r.ok _ _ f.1.0 (
          if_else P w.aborted_after _ _ u.after (
            if_then P ((classify none r).retryable && ltb s.attempt_num (max_attempts q)) _ _
              (ground (arith, f.1.1, lt))
              (if_else P w.aborted_at_delay _ _ u.delay (
                if_intro P q.policy.disable_delay (next _ (refl, (refl, refl)))
                  (if_else P w.sleep_aborted _ _ u.sleep (next _ (refl, (refl, refl)))))))))

  -- The last failure ends the loop.
  pub Sat-exhausted :
      s.run_limits.max_agent_calls ≡ none
      → Fails q s.attempt_num w
      → max_attempts q ≤ s.attempt_num
      → ((s' : LoopState)
          → last_retryable s'.attempts ≡ true
          → s'.attempts_started ≡ s.attempts_started + 1
          → R s' record {
            final_status = (attempt_result q s.attempt_num w).status;
            final_failure_reason = (classify none (attempt_result q s.attempt_num w)).reason;
            final_result = some (attempt_result q s.attempt_num w);
            exhausted = true;
          })
      → Sat H R (pass q w s)
  unfolding Sat attempt fail
  Sat-exhausted e f le ended =
      let P = Sat H R in
      let r = attempt_result q s.attempt_num w in
      let u = f.0 in
      Sat-begin u e (
        if_else P r.ok _ _ f.1.0 (
          if_else P w.aborted_after _ _ u.after (
            if_else P ((classify none r).retryable && ltb s.attempt_num (max_attempts q)) _ _
              (ground (arith, f.1.1, le))
              (ended _ (last_retryable-append s.attempts (summarize q s.attempt_num w r) ∙ f.1.1)
                refl))))

  pub Sat-succeeded :
      s.run_limits.max_agent_calls ≡ none
      → Succeeds q s.attempt_num w
      → ((s' : LoopState)
          → s'.attempts_started ≡ s.attempts_started + 1
          → R s' record {
            final_status = succeeded;
            final_failure_reason = none;
            final_result = some (attempt_result q s.attempt_num w);
            exhausted = false;
          })
      → Sat H R (pass q w s)
  unfolding Sat attempt succeed
  Sat-succeeded e f ended =
      Sat-begin f.0 e
        (if_then (Sat H R) (attempt_result q s.attempt_num w).ok _ _ f.1 (ended _ refl))
