-- ===== src/Loop/Refinement.antt =====
-- The result of a loop is that of its iteration.
use open_dynamic_workflow.Base.{
  ap, ◌∙◌, ℕ, zero, suc, ◌≤◌, ◌≡◌, refl, if_intro, Bool, true, false, none, some, List, [], ◌∷◌,
  length, arith, if◌then◌else◌, ℕ_eq,
}
use open_dynamic_workflow.Workflow.Json.{Clone, as_value, clone_recursive}
use open_dynamic_workflow.Workflow.Json.Laws.{HasNoProto, clone-stable}
use open_dynamic_workflow.Loop.Data.{LoopFailureMode, throw, settled, LoopStatus, exhausted, Abort}
use open_dynamic_workflow.Loop.Rounds.{Meets, Ended, ended, escaped, run_rounds}
use open_dynamic_workflow.Loop.Run.{
  NormalizedLoopInput, finalize, when_any, start, run_loop, outcome_of, LoopRun, begin, run_from,
}
use open_dynamic_workflow.Loop.Laws.{conclude-final_copy}
use open_dynamic_workflow.Loop.Reference.{iterate, report, Steps, Ends, run_rounds-iterate}

iterate-count : (step : Clone → Bool × Clone) (n : ℕ) (s : Clone) → 1 ≤ (iterate step (suc n) s).1.1
unfolding iterate
iterate-count step n s =
    if_intro (λ (r : Bool × (Clone × ℕ)). 1 ≤ r.1.1) (step s).0 (omega arith) (omega arith)

when_any-length {ℓ κ} :
    {A : Type ℓ} {B : Type κ} (xs : List A) (y : B) → 1 ≤ length xs → when_any xs y ≡ some y
when_any-length [] y h = absurd (omega (arith, h))
when_any-length (x ∷ xs) y h = refl

module _ (input : NormalizedLoopInput) (meets : ℕ → Meets) (abort_at_end : Abort) where
  finalize-report :
      (initial : Clone) (r : Bool × (Clone × ℕ)) (e : Ended)
      → Ends 0 r e
      → 1 ≤ r.1.1
      → (finalize input meets abort_at_end initial e).outcome ≡ report input.failure_mode r
  finalize-report initial r (escaped q e) h b = absurd h
  finalize-report initial (done, (s, n)) (ended q status loop_error round_error) (c, l, t, a, o, k)
        b =
      ap (λ (r : LoopRun). r.outcome)
        (conclude-final_copy input meets abort_at_end initial q _ _ round_error k)
      ∙ rw (t, a, o) (through input.failure_mode done)
    where
      counted : length q.rounds ≡ n
      counted = omega (arith, l)

      through :
          (mode : LoopFailureMode) (d : Bool)
          → outcome_of mode
              (if d then LoopStatus.succeeded else LoopStatus.max_rounds)
              q
              (if d then none else some exhausted)
              (if d then none else some exhausted)
            ≡ report mode (d, (s, n))
      through throw true = rw c
      through throw false = refl
      through settled true = rw (counted, c)
      through settled false =
          rw (when_any-length q.rounds q.current_state (omega (arith, l, b)), counted, c)

  report-rounds :
      (step : Clone → Bool × Clone) (initial : Clone)
      → Steps step meets
      → clone_recursive (as_value initial) ≡ some initial
      → (n : ℕ) → n ≡ input.max_rounds
      → 1 ≤ n
      → (finalize input meets abort_at_end initial
          (run_rounds input.max_rounds meets n 0 (start input meets abort_at_end initial))).outcome
        ≡ report input.failure_mode (iterate step n initial)
  report-rounds step initial steps c zero e b = absurd (omega (arith, b))
  report-rounds step initial steps c (suc left) e b =
      finalize-report initial (iterate step (suc left) initial) _
        (run_rounds-iterate step meets steps input.max_rounds left 0
          (start input meets abort_at_end initial) (omega (arith, e)) c)
        (iterate-count step left initial)

  -- If the initial state is JSON without an object with an own key `__proto__`, at least one round is
  -- allowed, nothing is aborted, and the callback returns what a step gives, whose states are their
  -- own clones, then the loop, in either failure mode, returns or throws what the iteration of the
  -- step for `maxRounds` rounds or until it says that it is done reports.
  pub run_loop-iterate :
      (step : Clone → Bool × Clone) (initial : Clone)
      → clone_recursive input.initial_state ≡ some initial
      → HasNoProto input.initial_state
      → 1 ≤ input.max_rounds
      → Steps step meets
      → (run_loop input meets abort_at_end).outcome
        ≡ report input.failure_mode (iterate step input.max_rounds initial)
  unfolding run_loop
  run_loop-iterate step initial c n b steps =
      let stable = clone-stable input.initial_state initial n c in
      ap (λ (r : LoopRun). r.outcome)
        (ap (begin input meets abort_at_end) c
          ∙ ap (run_from input meets abort_at_end initial) stable)
      ∙ report-rounds step initial steps stable input.max_rounds refl b
