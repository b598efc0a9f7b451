-- ===== src/Retry/Verdict.antt =====
-- How the loop's last pass decides on the status and the result.
use open_dynamic_workflow.Base.{
  ℕ, ◌≡◌, refl, sym, Bool, true, false, Option, none, some, String, if_intro, if_intro_when, ltb,
  ◌&&◌,
}
use open_dynamic_workflow.Agent.{
  AgentStatus, succeeded, failed, timed_out, cancelled, skipped, AgentResult,
}
use open_dynamic_workflow.RunLimits.{RunLimitTracker}
use open_dynamic_workflow.Retry.Classifier.{classify}
use open_dynamic_workflow.Retry.State.{
  RetryInput, Surroundings, Scheduled, resolved, rejected, LoopState, Ending,
}
use open_dynamic_workflow.Retry.Parts.{
  max_attempts, attempt_result, build_logical_cancellation_result,
}
use open_dynamic_workflow.Retry.Pass.{
  retry, fail, succeed, attempt, refuse, proceed, charge, pass, loop, start,
}
use open_dynamic_workflow.Retry.Finish.{stand_in}
use open_dynamic_workflow.Retry.Loop.{Sat, loop_rule}

abbrev pub is_succeeded : AgentStatus → Bool
is_succeeded succeeded = true
is_succeeded _ = false

-- What the type of `AgentResult` says: it is ok just if its status is succeeded.
unfoldable pub Fits : Scheduled → Type 0
Fits (resolved r) = is_succeeded r.status ≡ r.ok
Fits (rejected e) = Unit

-- The result, or what stands in for it, has the final status, and is ok just if that is succeeded.
abbrev pub Decided : RetryInput → Option String → Ending → Type 0
Decided q reason e =
    ((stand_in q reason e).status ≡ e.final_status)
    × (is_succeeded e.final_status ≡ (stand_in q reason e).ok)

attempt_result-Fits :
    (q : RetryInput) (n : ℕ) (w : Surroundings) (o : Scheduled)
    → Fits o
    → (let r = attempt_result q n (record w { outcome = o }) in is_succeeded r.status ≡ r.ok)
unfolding Fits
attempt_result-Fits q n w (resolved r) h = h
attempt_result-Fits q n w (rejected e) h = refl

succeeded_lem : (t : AgentStatus) (b : Bool) → is_succeeded t ≡ b → b ≡ true → t ≡ succeeded
succeeded_lem succeeded b h e = refl
succeeded_lem failed b h e = cc
succeeded_lem timed_out b h e = cc
succeeded_lem cancelled b h e = cc
succeeded_lem skipped b h e = cc

module _ (q : RetryInput) (reason : Option String) (w : Surroundings) where
  Sat-retry :
      (r : AgentResult) (s : LoopState)
      → Sat (λ s'. Unit {0}) (λ s' e. Decided q reason e) (retry q w r s)
  unfolding Sat retry build_logical_cancellation_result
  Sat-retry r s =
      let P = Sat (λ s'. Unit {0}) (λ s' e. Decided q reason e) in
      if_intro P w.aborted_at_delay (refl, refl)
        (if_intro P q.policy.disable_delay tt (if_intro P w.sleep_aborted (refl, refl) tt))

  Sat-fail :
      (r : AgentResult) (s : LoopState)
      → is_succeeded r.status ≡ r.ok
      → Sat (λ s'. Unit {0}) (λ s' e. Decided q reason e) (fail q w r s)
  unfolding Sat fail build_logical_cancellation_result
  Sat-fail r s h =
      let P = Sat (λ s'. Unit {0}) (λ s' e. Decided q reason e) in
      let decided : Decided q reason (record {
        final_status = r.status;
        final_failure_reason = (classify none r).reason;
        final_result = some r;
        exhausted = true;
      }) =
        (refl, h) in
      if_intro P w.aborted_after (refl, refl)
        (if_intro P ((classify none r).retryable && ltb s.attempt_num (max_attempts q))
          (Sat-retry r _) decided)

  Sat-attempt :
      (s : LoopState)
      → Fits w.outcome
      → Sat (λ s'. Unit {0}) (λ s' e. Decided q reason e) (attempt q w s)
  unfolding Sat attempt succeed
  Sat-attempt s f =
      let r = attempt_result q s.attempt_num w in
      let h = attempt_result-Fits q s.attempt_num w w.outcome f in
      if_intro_when (Sat (λ s'. Unit {0}) (λ s' e. Decided q reason e)) r.ok
        (λ ok. (succeeded_lem r.status r.ok h ok, sym ok)) (Sat-fail r _ h)

  Sat-proceed :
      (refusal : Option String) (s : LoopState)
      → Fits w.outcome
      → Sat (λ s'. Unit {0}) (λ s' e. Decided q reason e) (proceed q w refusal s)
  unfolding Sat proceed refuse
  Sat-proceed (some message) s f = (refl, refl)
  Sat-proceed none s f = Sat-attempt s f

  Sat-pass :
      (s : LoopState)
      → Fits w.outcome
      → Sat (λ s'. Unit {0}) (λ s' e. Decided q reason e) (pass q w s)
  unfolding Sat pass
  Sat-pass s f =
      if_intro (Sat (λ s'. Unit {0}) (λ s' e. Decided q reason e)) w.aborted_before (refl, refl)
        (Sat-proceed (charge q w s).1 _ f)

pub loop-Decided :
    (q : RetryInput) (t : RunLimitTracker) (env : ℕ → Surroundings) (reason : Option String)
    → ((n : ℕ) → Fits (env n).outcome)
    → Decided q reason (loop q env (max_attempts q) (start q t)).1
loop-Decided q t env reason f =
    loop_rule q env (λ left s. Unit {0}) (λ s e. Decided q reason e)
      (λ left s h. Sat-pass q reason (env s.attempt_num) s (f s.attempt_num)) (λ s h. (refl, refl))
      (max_attempts q) (start q t) tt
