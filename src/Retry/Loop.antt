-- ===== src/Retry/Loop.antt =====
-- The loop of the retry orchestrator: a rule for what holds as it ends, and its invariant.
use open_dynamic_workflow.Base.{ℕ, zero, suc}
use open_dynamic_workflow.Retry.State.{
  RetryInput, Surroundings, LoopState, Ending, no_ending, Pass, breaks, continues,
}
use open_dynamic_workflow.Retry.Pass.{pass, loop}

module _ (H : LoopState → Type 0) (R : LoopState → Ending → Type 0) where
  unfoldable pub Sat : Pass → Type 0
  Sat (breaks s e) = R s e
  Sat (continues s) = H s

-- What each pass keeps holds when the loop ends.
pub loop_rule :
    (q : RetryInput) (env : ℕ → Surroundings) (H : ℕ → LoopState → Type 0)
    (R : LoopState → Ending → Type 0)
    → ((left : ℕ) (s : LoopState) → H (suc left) s → Sat (H left) R (pass q (env s.attempt_num) s))
    → ((s : LoopState) → H 0 s → R s no_ending)
    → (left : ℕ) (s : LoopState) → H left s
    → R (loop q env left s).0 (loop q env left s).1
unfolding loop Sat
loop_rule q env H R kept ended zero s h = ended s h
loop_rule q env H R kept ended (suc left) s h =
    let k = kept left s h in
    elim (pass q (env s.attempt_num) s)
        as (λ p.
          Sat (H left) R p
          → R
              (elim p as (λ _. LoopState × Ending) [
                | breaks s' e ↦ (s', e)
                | continues s' ↦ loop q env left s'
              ]).0
              (elim p as (λ _. LoopState × Ending) [
                | breaks s' e ↦ (s', e)
                | continues s' ↦ loop q env left s'
              ]).1) [
                | breaks s' e ↦ λ r. r
                | continues s' ↦ λ h'. loop_rule q env H R kept ended left s' h'
              ]
      k
