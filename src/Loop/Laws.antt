-- ===== src/Loop/Laws.antt =====
-- What a loop promises: its records, its events, and its result.
use open_dynamic_workflow.Base.{
  Option, List, ap, sym, subst, ◌∙◌, ℕ, zero, suc, ◌≤◌, ◌≡◌, refl, some, [], ◌∷◌, ◌++◌, length,
  arith,
}
use open_dynamic_workflow.Workflow.Json.{Clone, as_value, clone_recursive}
use open_dynamic_workflow.Workflow.Json.Laws.{HasNoProto, clone-stable}
use open_dynamic_workflow.Loop.Data.{
  Abort, LoopExecutionRecord, LoopRoundRecord, LoopStatus, LoopError, loop_started,
  terminal_loop_event_type,
}
use open_dynamic_workflow.Loop.Rounds.{Meets, Progress, Ended, ended, escaped, run_rounds}
use open_dynamic_workflow.Loop.Run.{
  NormalizedLoopInput, LoopRun, when_any, finalize, start, run_loop, conclude, begin, run_from,
  final_copy,
}
use open_dynamic_workflow.Loop.Protocol.{
  Through, Threads, round_events, Sound, RejectsWithSomething, ReturnsCopied, IsStable,
}
use open_dynamic_workflow.Loop.Protocol.Steps.{run_rounds-Sound}

-- The record that a loop has written, its rounds with the states that they pass on, and the events of the
-- loop.
pub record Kept (input : NormalizedLoopInput) (initial : Clone) (run : LoopRun) : Type 0 where
  pub kept : LoopExecutionRecord
  pub last_state : Clone
  pub written : run.record_written ≡ some kept
  pub threads : Threads 0 initial kept.rounds last_state
  pub final_state : kept.final_state ≡ when_any kept.rounds last_state
  pub bound : length kept.rounds ≤ input.max_rounds
  pub count : kept.rounds_completed ≡ length kept.rounds
  pub events :
      run.events
      ≡ loop_started
        ∷ (round_events kept.rounds
            ++ (terminal_loop_event_type kept.status (length kept.rounds) ∷ []))

module _ (input : NormalizedLoopInput) (meets : ℕ → Meets) (abort_at_end : Abort) where
  -- The end of the loop where the final state is its own clone.
  pub conclude-final_copy :
      (initial : Clone) (q : Progress) (s : LoopStatus) (e round_error : Option LoopError)
      → IsStable q.current_state
      → conclude input meets abort_at_end initial q s e round_error
          (final_copy q.rounds (clone_recursive (as_value q.current_state)))
        ≡ conclude input meets abort_at_end initial q s e round_error
            (some (when_any q.rounds q.current_state))
  conclude-final_copy initial q s e round_error c =
      ap (conclude input meets abort_at_end initial q s e round_error)
        (ap (final_copy q.rounds) c ∙ copied q.rounds)
    where
      copied :
          (rs : List LoopRoundRecord)
          → final_copy rs (some q.current_state) ≡ some (when_any rs q.current_state)
      copied [] = refl
      copied (r ∷ rs) = refl

  conclude-Kept :
      (initial : Clone) (left : ℕ) (q : Progress) (s : LoopStatus)
      (e round_error : Option LoopError) (status : Option LoopStatus)
      → suc left ≡ input.max_rounds
      → Through 0 (suc left) (start input meets abort_at_end initial) q status
      → Kept input initial (
          conclude input meets abort_at_end initial q s e round_error
            (some (when_any q.rounds q.current_state)))
  conclude-Kept initial left q s e round_error status h t = record {
    kept = record {
      status = s;
      rounds_completed = length q.rounds;
      max_rounds = input.max_rounds;
      initial_state = some initial;
      final_state = when_any q.rounds q.current_state;
      rounds = q.rounds;
      error = e;
    };
    last_state = q.current_state;
    written = refl;
    threads = rw (t.rounds) (t.threads);
    final_state = refl;
    bound = rw (t.rounds) (omega (arith, t.bound, h));
    count = refl;
    events = rw (t.rounds, t.events) refl;
  }

  finalize-Kept :
      (initial : Clone) (left : ℕ) (e : Ended)
      → suc left ≡ input.max_rounds
      → Sound 0 (suc left) (start input meets abort_at_end initial) e
      → Kept input initial (finalize input meets abort_at_end initial e)
  finalize-Kept initial left (ended q status a b) h t =
      subst (Kept input initial) (sym (conclude-final_copy initial q _ _ b t.stable))
        (conclude-Kept initial left q _ _ b status h t)
  finalize-Kept initial left (escaped q e) h t = absurd t

  Kept-rounds :
      (initial : Clone) (n : ℕ)
      → n ≡ input.max_rounds
      → 1 ≤ n
      → RejectsWithSomething meets
      → ReturnsCopied meets
      → IsStable initial
      → Kept input initial (
          finalize input meets abort_at_end initial
            (run_rounds input.max_rounds meets n 0 (start input meets abort_at_end initial)))
  Kept-rounds initial zero e b h f c = absurd (omega (arith, b))
  Kept-rounds initial (suc left) e b h f c =
      finalize-Kept initial left _ e
        (run_rounds-Sound input.max_rounds meets left 0 _ (omega (arith, e)) h f c)

  -- If the initial state is JSON, at least one round is allowed, no callback rejects with null or
  -- undefined, neither the initial state nor a next state that a callback returns has an object with
  -- an own key `__proto__`, and a result whose next state is JSON can itself be copied as JSON, then
  -- the loop writes a record and ends: its rounds are numbered, at most `maxRounds`, each begins with
  -- the state that the one before ended with, the first with the initial state, and only the last may
  -- be one that is not completed; the final state is the last one; and the events are the start of
  -- the loop, those of the start and the end of each round in their order, and the end of the loop
  -- that its status demands.
  pub run_loop-Kept :
      (initial : Clone)
      → clone_recursive input.initial_state ≡ some initial
      → HasNoProto input.initial_state
      → 1 ≤ input.max_rounds
      → RejectsWithSomething meets
      → ReturnsCopied meets
      → Kept input initial (run_loop input meets abort_at_end)
  unfolding run_loop
  run_loop-Kept initial c n b h f =
      let stable = clone-stable input.initial_state initial n c in
      subst (Kept input initial)
        (sym (
          ap (begin input meets abort_at_end) c
          ∙ ap (run_from input meets abort_at_end initial) stable))
        (Kept-rounds initial input.max_rounds refl b h f stable)
