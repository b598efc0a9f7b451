-- ===== src/Retry/Interruption.antt =====
-- `execute` as the signal is aborted between two attempts.
use open_dynamic_workflow.Base.{
  ℕ, suc, ◌≤◌, ◌<◌, ◌≡◌, refl, sym, ap, true, false, Option, none, String, inl, inr, arith, subst,
  if_then,
}
use open_dynamic_workflow.Agent.{cancelled}
use open_dynamic_workflow.RunLimits.{RunLimitTracker}
use open_dynamic_workflow.Retry.State.{RetryInput, Surroundings, LoopState, Ending}
use open_dynamic_workflow.Retry.Parts.{max_attempts, cancelled_ending}
use open_dynamic_workflow.Retry.Pass.{pass, loop, start}
use open_dynamic_workflow.Retry.Finish.{finalize, final_result, exhaust, execute}
use open_dynamic_workflow.Retry.Loop.{Sat, loop_rule}
use open_dynamic_workflow.Retry.Progress.{Fails, Sat-retried}
use open_dynamic_workflow.Retry.Outcomes.{Going, Going-next, below_or_at}

module _ (q : RetryInput) (t : RunLimitTracker) (env : ℕ → Surroundings)
    (unlimited : t.max_agent_calls ≡ none) (k : ℕ) (le : suc k ≤ max_attempts q)
    (earlier : (n : ℕ) → 1 ≤ n → n < suc k → Fails q n (env n))
    (cut : (env (suc k)).aborted_before ≡ true) where
  abbrev Cut : LoopState → Ending → Type 0
  Cut s e = (e ≡ cancelled_ending none) × ((s.attempts_started ≡ k) × (s.attempt_num ≡ suc k))

  Cut-pass :
      (left : ℕ) (s : LoopState)
      → Going q (suc left) s × (s.attempt_num ≤ suc k)
      → Sat (λ s'. Going q left s' × (s'.attempt_num ≤ suc k)) Cut (pass q (env s.attempt_num) s)
  unfolding Sat pass
  Cut-pass left s h = elim (below_or_at s.attempt_num (suc k) h.1) [
    | inl lt ↦
        Sat-retried q (env s.attempt_num) s _ _ h.0.0
          (earlier s.attempt_num (omega (arith, h.0.1.0)) lt) (omega (arith, lt, le))
          (λ s' f. (Going-next q left s s' h.0 f, omega (arith, f.1.0, lt)))
    | inr e ↦
        if_then (Sat (λ s'. Going q left s' × (s'.attempt_num ≤ suc k)) Cut)
          (env s.attempt_num).aborted_before _ _
          (subst (λ n. (env n).aborted_before ≡ true) (sym e) cut)
          (refl, (omega (arith, e, h.0.1.0), e))
  ]

  Cut-loop :
      Cut (loop q env (max_attempts q) (start q t)).0 (loop q env (max_attempts q) (start q t)).1
  Cut-loop =
      loop_rule q env (λ left s. Going q left s × (s.attempt_num ≤ suc k)) Cut Cut-pass
        (λ s h. absurd (omega (arith, h.0.1.0, h.0.1.1, h.1, le))) (max_attempts q) (start q t)
        ((unlimited, (refl, omega arith)), omega arith)

  -- Without a run limit, if k attempts fail undisturbed in a way that may be retried and the signal is
  -- aborted before the next one begins, then the result is cancelled, the retries do not count as
  -- exhausted, and `finalAttempt` names attempt k + 1 though only k attempts were started.
  pub execute-interrupted :
      (total : ℕ) (reason : Option String)
      → let x = execute q t env total reason in
        (x.result.status ≡ cancelled)
        × ((x.retry.exhausted ≡ false)
            × ((x.retry.attempts_started ≡ k) × (x.retry.final_attempt ≡ suc k)))
  unfolding execute finalize final_result exhaust
  execute-interrupted total reason =
      let s = (loop q env (max_attempts q) (start q t)).0 in
      (
        ap (λ e. (finalize q total reason s e).result.status) Cut-loop.0,
        (ap (λ e. e.exhausted) Cut-loop.0, (Cut-loop.1.0, ground (arith, Cut-loop.1.1, le))),
      )
