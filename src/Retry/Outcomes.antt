-- ===== src/Retry/Outcomes.antt =====
-- What `execute` returns if nothing but the attempts' own outcomes decides: the first success, or
-- the last failure.
use open_dynamic_workflow.Base.{
  ℕ, suc, ◌+◌, ◌≤◌, ◌<◌, ◌≡◌, refl, sym, ap, ◌∙◌, Bool, true, false, not, ◌&&◌, Option, none, some,
  String, ◌⊎◌, inl, inr, if◌then◌else◌, String_eq, arith, ltb, Bool-cases, subst,
}
use open_dynamic_workflow.Agent.{
  AgentResult, AgentStatus, succeeded, failed, timed_out, cancelled, skipped,
}
use open_dynamic_workflow.RunLimits.{RunLimitTracker}
use open_dynamic_workflow.Retry.Classifier.{classify}
use open_dynamic_workflow.Retry.State.{RetryInput, Surroundings, LoopState, Ending}
use open_dynamic_workflow.Retry.Parts.{max_attempts, attempt_result}
use open_dynamic_workflow.Retry.Pass.{pass, loop, start}
use open_dynamic_workflow.Retry.Finish.{
  finalize, final_result, exhaust, execute, build_logical_agent_artifacts, is_provider_unavailable,
  error_code_of, last_retryable, cancel_status, logical_result,
}
use open_dynamic_workflow.Retry.Loop.{Sat, loop_rule}
use open_dynamic_workflow.Retry.Progress.{
  Fails, Succeeds, Sat-retried, Sat-exhausted, Sat-succeeded,
}

-- At the head of the loop, with `left` passes to come.
abbrev pub Going : RetryInput → ℕ → LoopState → Type 0
Going q left s =
    (s.run_limits.max_agent_calls ≡ none)
    × ((s.attempt_num ≡ suc s.attempts_started) × (s.attempts_started + left ≡ max_attempts q))

pub Going-next :
    (q : RetryInput) (left : ℕ) (s s' : LoopState)
    → Going q (suc left) s
    → (s'.run_limits ≡ s.run_limits)
      × ((s'.attempt_num ≡ s.attempt_num + 1) × (s'.attempts_started ≡ s.attempts_started + 1))
    → Going q left s'
Going-next q left s s' g f = (
  ap (λ t. t.max_agent_calls) f.0 ∙ g.0,
  (ground (arith, f.1.0, f.1.1, g.1.0), ground (arith, f.1.1, g.1.1)),
)

pub below_or_at : (n k : ℕ) → n ≤ k → (n < k) ⊎ (n ≡ k)
below_or_at n k h = elim (Bool-cases (ltb n k)) [
  | inl e ↦ inl (ground (arith, e))
  | inr e ↦ inr (ground (arith, e, h))
]

not_failed :
    {A : Type 0} (ok ff : Bool) (a : A) → ok ≡ true → (if not ok && ff then some a else none) ≡ none
not_failed true ff a h = refl
not_failed false ff a h = cc

provider_code :
    (c : Option String) → is_provider_unavailable c ≡ true → c ≡ some "PROVIDER_UNAVAILABLE"
provider_code none h = cc
provider_code (some c) h = ap some ((String_eq.same_iff c "PROVIDER_UNAVAILABLE").0 h)

cancel_status-kept :
    (s : AgentStatus) (r : AgentResult)
    → ((cancel_status s r).ok ≡ r.ok) × ((cancel_status s r).error ≡ r.error)
cancel_status-kept succeeded r = (refl, refl)
cancel_status-kept failed r = (refl, refl)
cancel_status-kept timed_out r = (refl, refl)
cancel_status-kept cancelled r = (refl, refl)
cancel_status-kept skipped r = (refl, refl)

exhaust-code :
    (r : AgentResult)
    → r.ok ≡ false
    → (error_code_of (exhaust true r).error
        ≡ some (
            if is_provider_unavailable (error_code_of r.error)
            then "PROVIDER_UNAVAILABLE"
            else "RETRY_EXHAUSTED"))
      × ((exhaust true r).ok ≡ false)
unfolding exhaust
exhaust-code r h = ground (arith, h, provider_code (error_code_of r.error))

module _ (q : RetryInput) (t : RunLimitTracker) (env : ℕ → Surroundings)
    (unlimited : t.max_agent_calls ≡ none) where
  module _ (k : ℕ) (positive : 1 ≤ k) (le : k ≤ max_attempts q)
      (earlier : (n : ℕ) → 1 ≤ n → n < k → Fails q n (env n)) (success : Succeeds q k (env k)) where
    abbrev won : ℕ → Ending
    won n = record {
      final_status = succeeded;
      final_failure_reason = none;
      final_result = some (attempt_result q n (env n));
      exhausted = false;
    }

    abbrev Won : LoopState → Ending → Type 0
    Won s e = (e ≡ won k) × (s.attempts_started ≡ k)

    Won-pass :
        (left : ℕ) (s : LoopState)
        → Going q (suc left) s × (s.attempt_num ≤ k)
        → Sat (λ s'. Going q left s' × (s'.attempt_num ≤ k)) Won (pass q (env s.attempt_num) s)
    Won-pass left s h = elim (below_or_at s.attempt_num k h.1) [
      | inl lt ↦
          Sat-retried q (env s.attempt_num) s _ _ h.0.0
            (earlier s.attempt_num (omega (arith, h.0.1.0)) lt) (omega (arith, lt, le))
            (λ s' f. (Going-next q left s s' h.0 f, omega (arith, f.1.0, lt)))
      | inr e ↦
          Sat-succeeded q (env s.attempt_num) s _ _ h.0.0
            (subst (λ n. Succeeds q n (env n)) (sym e) success)
            (λ s' f. (ap won e, omega (arith, f, e, h.0.1.0)))
    ]

    Won-loop :
        Won (loop q env (max_attempts q) (start q t)).0 (loop q env (max_attempts q) (start q t)).1
    Won-loop =
        loop_rule q env (λ left s. Going q left s × (s.attempt_num ≤ k)) Won Won-pass
          (λ s h. absurd (omega (arith, h.0.1.0, h.0.1.1, h.1, le))) (max_attempts q) (start q t)
          ((unlimited, (refl, omega arith)), positive)

    -- Without a run limit and undisturbed, if each attempt before the k-th fails in a way that may
    -- be retried and the k-th succeeds, within `maxAttempts`, then k attempts are started and the
    -- result is that of the k-th, with the artifacts of the whole call; nothing is aborted.
    pub execute-succeeds :
        (total : ℕ) (reason : Option String)
        → let x = execute q t env total reason in
          (x.retry.attempts_started ≡ k)
          × ((x.result
                ≡ build_logical_agent_artifacts q
                    (record (attempt_result q k (env k)) { duration_ms = total }))
              × (x.abort ≡ none))
    unfolding execute finalize final_result exhaust
    execute-succeeds total reason =
        let s = (loop q env (max_attempts q) (start q t)).0 in
        (
          Won-loop.1,
          (
            ap (λ e. final_result q total reason e (e.exhausted && last_retryable s.attempts))
                Won-loop.0,
            ap (λ e. (finalize q total reason s e).abort) Won-loop.0
                ∙ not_failed (attempt_result q k (env k)).ok q.fail_fast _ success.1,
          ),
        )

  module _ (positive : 1 ≤ max_attempts q)
      (failing : (n : ℕ) → 1 ≤ n → n ≤ max_attempts q → Fails q n (env n)) where
    abbrev lost : ℕ → Ending
    lost n = record {
      final_status = (attempt_result q n (env n)).status;
      final_failure_reason = (classify none (attempt_result q n (env n))).reason;
      final_result = some (attempt_result q n (env n));
      exhausted = true;
    }

    abbrev Lost : LoopState → Ending → Type 0
    Lost s e =
        (e ≡ lost (max_attempts q))
        × ((s.attempts_started ≡ max_attempts q) × (last_retryable s.attempts ≡ true))

    Lost-pass :
        (left : ℕ) (s : LoopState)
        → Going q (suc left) s × (1 ≤ suc left)
        → Sat (λ s'. Going q left s' × (1 ≤ left)) Lost (pass q (env s.attempt_num) s)
    Lost-pass left s h =
        elim (below_or_at s.attempt_num (max_attempts q) (omega (arith, h.0.1.0, h.0.1.1))) [
          | inl lt ↦
              Sat-retried q (env s.attempt_num) s _ _ h.0.0
                (failing s.attempt_num (omega (arith, h.0.1.0)) (omega (arith, lt))) lt
                (λ s' f. (Going-next q left s s' h.0 f, omega (arith, lt, h.0.1.0, h.0.1.1)))
          | inr e ↦
              Sat-exhausted q (env s.attempt_num) s _ _ h.0.0
                (failing s.attempt_num (omega (arith, h.0.1.0)) (omega (arith, e)))
                (omega (arith, e)) (λ s' last f. (ap lost e, (omega (arith, f, e, h.0.1.0), last)))
        ]

    Lost-loop :
        Lost (loop q env (max_attempts q) (start q t)).0 (loop q env (max_attempts q) (start q t)).1
    Lost-loop =
        loop_rule q env (λ left s. Going q left s × (1 ≤ left)) Lost Lost-pass
          (λ s h. absurd (omega (arith, h.1))) (max_attempts q) (start q t)
          ((unlimited, (refl, omega arith)), positive)

    -- Without a run limit and undisturbed, if each attempt fails in a way that may be retried, then
    -- `maxAttempts` attempts are started, the retries count as exhausted, and the result is a failure
    -- whose code is RETRY_EXHAUSTED, or PROVIDER_UNAVAILABLE where the last attempt's was.
    pub execute-exhausts :
        (total : ℕ) (reason : Option String)
        → let x = execute q t env total reason in
          (x.retry.attempts_started ≡ max_attempts q)
          × ((x.retry.exhausted ≡ true)
              × ((x.result.ok ≡ false)
                  × (error_code_of x.result.error
                      ≡ some (
                          if is_provider_unavailable (
                            error_code_of
                              (attempt_result q (max_attempts q) (env (max_attempts q))).error)
                          then "PROVIDER_UNAVAILABLE"
                          else "RETRY_EXHAUSTED"))))
    unfolding execute finalize final_result
    execute-exhausts total reason =
        let s = (loop q env (max_attempts q) (start q t)).0 in
        let m = max_attempts q in
        let r = attempt_result q m (env m) in
        let x = logical_result q total reason (lost m) in
        let kept = cancel_status-kept r.status r in
        let same =
          ap (λ e. final_result q total reason e (e.exhausted && last_retryable s.attempts))
            Lost-loop.0
          ∙ ap (λ b. final_result q total reason (lost m) b) Lost-loop.1.1 in
        let code = exhaust-code x (kept.0 ∙ (failing m positive (omega arith)).1.0) in
        (
          Lost-loop.1.0,
          (
            ap (λ e. e.exhausted) Lost-loop.0,
            (
              ap (λ y. y.ok) same ∙ code.1,
              ap (λ y. error_code_of y.error) same
                  ∙ (code.0
                      ∙ ap
                          (λ e. some (
                            if is_provider_unavailable (error_code_of e)
                            then "PROVIDER_UNAVAILABLE"
                            else "RETRY_EXHAUSTED"))
                          kept.1),
            ),
          ),
        )
