-- ===== src/Loop/Examples.antt =====
-- The loop at concrete callbacks.
use open_dynamic_workflow.Base.{
  Result, ◌∙◌, ok, subst, sym, ap, codes, none, list_eq, ℕ, suc, ◌≡◌, refl, Bool, true, some, [],
  ◌∷◌, ltb, arith,
}
use open_dynamic_workflow.Context.Json.{JsValue, JsFields}
use open_dynamic_workflow.Workflow.Json.{
  Clone, as_value, clone_recursive, is_constructed, is_named_object,
}
use open_dynamic_workflow.Workflow.Json.Laws.{HasNoProto}
use open_dynamic_workflow.Loop.Data.{
  LoopFailureMode, throw, settled, nullish, error, exhausted, reading_null, state_not_json,
  LoopRunResult, InvalidRunResult, live, loop_started, round_started, round_completed, round_failed,
  loop_max_rounds, loop_failed, validate_loop_run_result,
}
use open_dynamic_workflow.Loop.Rounds.{Outcome, returned, rejected, Meets, run_rounds}
use open_dynamic_workflow.Loop.Run.{NormalizedLoopInput, returns_state, rejects, run_loop}
use open_dynamic_workflow.Loop.Protocol.{RejectsWithSomething, IsCopied, ReturnsCopied}
use open_dynamic_workflow.Loop.Laws.{Kept, run_loop-Kept}
use open_dynamic_workflow.Loop.Reference.{
  result, validate-result, copied, result-copied, iterate, report, Steps,
}
use open_dynamic_workflow.Loop.Refinement.{run_loop-iterate}

-- The state counts the rounds, and the third one is done.
abbrev count : Clone → Bool × Clone
count (Clone.number n) = (ltb 1 n, Clone.number (suc n))
count j = (true, Clone.null)

abbrev steps_to : (Clone → Outcome) → ℕ → Meets
steps_to run n = record {
  abort_before = live;
  run = run;
  abort_at_catch = live;
  duration_ms = 1;
  nested_calls = record { agents = []; workflows = []; tools = [] };
}

abbrev counts : ℕ → Meets
counts = steps_to (λ s. returned (result (count s)))

abbrev rejects_null : ℕ → Meets
rejects_null = steps_to (λ s. rejected nullish)

abbrev fails : ℕ → Meets
fails = steps_to (λ s. rejected (error none none))

abbrev from_zero : LoopFailureMode → ℕ → NormalizedLoopInput
from_zero mode n = record { initial_state = JsValue.number 0; failure_mode = mode; max_rounds = n }

loops : Unit {0}
unfolding run_loop run_rounds validate_loop_run_result clone_recursive as_value list_eq
loops = tt
  where
    third_is_done :
        (run_loop (from_zero throw 5) counts live).outcome ≡ returns_state (Clone.number 3)
    third_is_done = refl

    two_are_few : (run_loop (from_zero throw 2) counts live).outcome ≡ rejects exhausted
    two_are_few = refl

    events_of_two :
        (run_loop (from_zero throw 2) counts live).events
        ≡ loop_started
          ∷ round_started 1
          ∷ round_completed 1
          ∷ round_started 2
          ∷ round_completed 2
          ∷ loop_max_rounds 2
          ∷ []
    events_of_two = refl

    failure :
        (run_loop (from_zero throw 5) fails live).events
        ≡ loop_started ∷ round_started 1 ∷ round_failed 1 ∷ loop_failed 1 ∷ []
    failure = refl

    -- A callback that rejects with null or undefined leaves the round and the loop without an end.
    null_events :
        (run_loop (from_zero settled 5) rejects_null live).events
        ≡ loop_started ∷ round_started 1 ∷ []
    null_events = refl

    null_outcome : (run_loop (from_zero settled 5) rejects_null live).outcome ≡ rejects reading_null
    null_outcome = refl

-- The initial state `{ "__proto__": { "constructor": 1 } }`.
abbrev with_prototype : NormalizedLoopInput
with_prototype = record {
  initial_state = JsValue.object true (
      JsFields.field (codes "__proto__")
        (JsValue.object true (JsFields.field (codes "constructor") (JsValue.number 1) JsFields.end))
        JsFields.end);
  failure_mode = settled;
  max_rounds = 2;
}

-- Its clone cannot be cloned, so that the loop rejects without a record.
prototypes : Unit {0}
unfolding run_loop run_rounds validate_loop_run_result clone_recursive as_value is_constructed
    is_named_object list_eq
prototypes = tt
  where
    prototype_outcome : (run_loop with_prototype counts live).outcome ≡ rejects state_not_json
    prototype_outcome = refl

    prototype_events : (run_loop with_prototype counts live).events ≡ loop_started ∷ []
    prototype_events = refl

    prototype_record : (run_loop with_prototype counts live).record_written ≡ none
    prototype_record = refl

number_is_json : clone_recursive (JsValue.number 0) ≡ some (Clone.number 0)
unfolding clone_recursive
number_is_json = refl

counts-RejectsWithSomething : RejectsWithSomething counts
counts-RejectsWithSomething n s h = cc

count_is_clean : (s : Clone) → clone_recursive (as_value (count s).1) ≡ some (count s).1
unfolding clone_recursive as_value
count_is_clean Clone.null = refl
count_is_clean (Clone.boolean b) = refl
count_is_clean (Clone.number n) = refl
count_is_clean (Clone.text t) = refl
count_is_clean (Clone.array xs) = refl
count_is_clean (Clone.object p fs) = refl

counts-Steps : Steps count counts
counts-Steps = record { undisturbed = λ n. refl; does = λ n s. refl; clean = count_is_clean }

ok_inj : {q r : LoopRunResult} → Path (Result InvalidRunResult LoopRunResult) (ok q) (ok r) → q ≡ r
ok_inj h = cc

returned_inj : {u v : JsValue} → returned u ≡ returned v → u ≡ v
returned_inj h = cc

count-HasNoProto : (s : Clone) → HasNoProto (as_value (count s).1)
unfolding HasNoProto as_value
count-HasNoProto Clone.null = tt
count-HasNoProto (Clone.boolean b) = tt
count-HasNoProto (Clone.number n) = tt
count-HasNoProto (Clone.text t) = tt
count-HasNoProto (Clone.array xs) = tt
count-HasNoProto (Clone.object p fs) = tt

count-IsCopied :
    (s : Clone)
    → IsCopied (result (count s)) (record { done = (count s).0; next_state = as_value (count s).1 })
count-IsCopied s =
    (count-HasNoProto s, λ next e. (copied (count s), result-copied (count s) (count_is_clean s)))

counts-ReturnsCopied : ReturnsCopied counts
counts-ReturnsCopied n s v r e valid =
    let same = returned_inj e in
    let valid' = ap validate_loop_run_result same ∙ valid in
    subst (λ u. IsCopied u r) same
      (subst (IsCopied (result (count s))) (ok_inj (sym (validate-result (count s)) ∙ valid'))
        (count-IsCopied s))

number-HasNoProto : HasNoProto (JsValue.number 0)
unfolding HasNoProto
number-HasNoProto = tt

run_loop-Kept_example :
    Kept (from_zero settled 2) (Clone.number 0) (run_loop (from_zero settled 2) counts live)
run_loop-Kept_example =
    run_loop-Kept (from_zero settled 2) counts live (Clone.number 0) number_is_json
      number-HasNoProto (omega arith) counts-RejectsWithSomething counts-ReturnsCopied

run_loop-iterate_example :
    (run_loop (from_zero throw 5) counts live).outcome
    ≡ report throw (iterate count 5 (Clone.number 0))
run_loop-iterate_example =
    run_loop-iterate (from_zero throw 5) counts live count (Clone.number 0) number_is_json
      number-HasNoProto (omega arith) counts-Steps
