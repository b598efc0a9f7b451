-- ===== src/Loop/Rounds.antt =====
-- loop/run.ts, the rounds of `runLoop`.
use open_dynamic_workflow.Base.{
  ℕ, ℕ_eq, zero, suc, ◌+◌, String, String_eq, ◌==◌, Bool, false, ◌||◌, Option, none, some, List, [],
  ◌∷◌, ◌++◌, Result, ok, err, if◌then◌else◌,
}
use open_dynamic_workflow.Context.Json.{JsValue}
use open_dynamic_workflow.Workflow.Json.{Clone, as_value, clone_json_value, clone_recursive}
use open_dynamic_workflow.Loop.Data.{
  LoopStatus, LoopRoundStatus, Thrown, nullish, falsy, error, LoopError, thrown, invalid_run_result,
  state_not_json, aborted, exhausted, reading_null, Abort, live, parent_aborted, timed_out,
  NestedCalls, LoopRoundRecord, Event, round_started, terminal_round_event_type, InvalidRunResult,
  LoopRunResult, validate_loop_run_result,
}

-- What the race of a round and the abort of the loop ends with.
pub data Outcome : Type 0 where
  returned : JsValue → Outcome
  rejected : Thrown → Outcome

-- What a round meets from outside: the signals when it would begin, the callback with its argument, the
-- signals when it is seen to reject, its duration and the calls that it made.
pub record Meets : Type 0 where
  pub abort_before : Abort
  pub run : Clone → Outcome
  pub abort_at_catch : Abort
  pub duration_ms : ℕ
  pub nested_calls : NestedCalls

-- The variables of the loop that a later round reads, and the events.
pub record Progress : Type 0 where
  pub current_state : Clone
  pub rounds : List LoopRoundRecord
  pub events : List Event

-- How the rounds end: with the status, if one is set, the serialised error and the one to be thrown; or
-- with an error that leaves `runLoop` at once.
pub data Ended : Type 0 where
  ended :
      Progress
      → Option LoopStatus
      → (loop_error : Option LoopError) → (round_error : Option LoopError) → Ended
  escaped : Progress → LoopError → Ended

-- The status where the rounds stop for the signals.
abbrev pub abort_status : Abort → Option LoopStatus
abort_status live = none
abort_status parent_aborted = some LoopStatus.cancelled
abort_status timed_out = some LoopStatus.timed_out

abbrev pub loop_status : LoopRoundStatus → LoopStatus
loop_status LoopRoundStatus.completed = LoopStatus.succeeded
loop_status LoopRoundStatus.failed = LoopStatus.failed
loop_status LoopRoundStatus.cancelled = LoopStatus.cancelled
loop_status LoopRoundStatus.timed_out = LoopStatus.timed_out

abbrev pub is_text : String → Option String → Bool
is_text s none = false
is_text s (some t) = t == s

-- The status by the name and the code of what was thrown; reading these of null throws.
abbrev pub thrown_status : Thrown → Option LoopRoundStatus
thrown_status nullish = none
thrown_status falsy = some LoopRoundStatus.failed
thrown_status (error name code) = some (
    if is_text "AbortError" name || is_text "WORKFLOW_CANCELLED" code
    then LoopRoundStatus.cancelled
    else (if is_text "WORKFLOW_TIMEOUT" code
        then LoopRoundStatus.timed_out
        else LoopRoundStatus.failed))

abbrev pub catch_status : Abort → Thrown → Option LoopRoundStatus
catch_status parent_aborted e = some LoopRoundStatus.cancelled
catch_status timed_out e = some LoopRoundStatus.timed_out
catch_status live e = thrown_status e

module _ (max_rounds : ℕ) (m : Meets) (i : ℕ) (input : Clone) (p : Progress) where
  -- The end of a round that is not completed: its record, its event, and the break.
  abbrev pub fail_round : LoopRoundStatus → LoopError → Ended
  fail_round status e =
      ended
        record {
          current_state = p.current_state;
          rounds =
              p.rounds
              ++ (record {
                index = i;
                round_number = i + 1;
                status = status;
                input_state = input;
                next_state = none;
                duration_ms = m.duration_ms;
                error = some e;
                nested_calls = m.nested_calls;
              }
                  ∷ []);
          events = p.events ++ (terminal_round_event_type status (i + 1) ∷ []);
        }
        (some (loop_status status)) (some e) (some e)

  -- The progress after a completed round.
  abbrev pub complete_round : Clone → Progress
  complete_round next = record {
    current_state = next;
    rounds =
        p.rounds
        ++ (record {
          index = i;
          round_number = i + 1;
          status = LoopRoundStatus.completed;
          input_state = input;
          next_state = some next;
          duration_ms = m.duration_ms;
          error = none;
          nested_calls = m.nested_calls;
        }
            ∷ []);
    events = p.events ++ (terminal_round_event_type LoopRoundStatus.completed (i + 1) ∷ []);
  }

  -- What follows a completed round: the end, or the next one.
  abbrev pub after_round : (Progress → Ended) → Bool → Clone → Ended
  after_round next_round done next =
      if done
      then ended (complete_round next) (some LoopStatus.succeeded) none none
      else (if i + 1 == max_rounds
          then ended (complete_round next) (some LoopStatus.max_rounds) (some exhausted)
              (some exhausted)
          else next_round (complete_round next))

  -- The copies of the result and of the next state that are written to files, before the event; the copy of
  -- the input state, itself the clone of a clone, never throws.
  abbrev pub write_round : (Progress → Ended) → Bool → Clone → Option Clone → Option Clone → Ended
  write_round next_round done next (some result) (some copy) = after_round next_round done next
  write_round next_round done next none copy =
      escaped (record (complete_round next) { current_state = p.current_state; events = p.events })
        state_not_json
  write_round next_round done next (some result) none =
      escaped (record (complete_round next) { current_state = p.current_state; events = p.events })
        state_not_json

  abbrev pub clone_next : (Progress → Ended) → JsValue → Bool → Option Clone → Ended
  clone_next next_round v done none = fail_round LoopRoundStatus.failed state_not_json
  clone_next next_round v done (some next) =
      write_round next_round done next (clone_json_value v) (clone_json_value (as_value next))

  abbrev pub finish_round : (Progress → Ended) → JsValue → Result LoopError LoopRunResult → Ended
  finish_round next_round v (err e) = fail_round LoopRoundStatus.failed e
  finish_round next_round v (ok r) = clone_next next_round v r.done (clone_json_value r.next_state)

  abbrev pub invalid : Result InvalidRunResult LoopRunResult → Result LoopError LoopRunResult
  invalid (ok r) = ok r
  invalid (err e) = err (invalid_run_result e)

  abbrev pub caught : LoopError → Option LoopRoundStatus → Ended
  caught e none = escaped p reading_null
  caught e (some status) = fail_round status e

  abbrev pub settle_round : (Progress → Ended) → Option Outcome → Ended
  settle_round next_round none =
      caught state_not_json
        (catch_status m.abort_at_catch (error none (some "WORKFLOW_INVALID_CALL")))
  settle_round next_round (some (returned v)) =
      finish_round next_round v (invalid (validate_loop_run_result v))
  settle_round next_round (some (rejected e)) = caught (thrown e) (catch_status m.abort_at_catch e)

-- The callback with its own copy of the state, if it can be copied.
abbrev pub call_run : (Clone → Outcome) → Option Clone → Option Outcome
call_run run none = none
call_run run (some state) = some (run state)

abbrev pub start_round : ℕ → Progress → Progress
start_round i p = record {
  current_state = p.current_state;
  rounds = p.rounds;
  events = p.events ++ (round_started (i + 1) ∷ []);
}

-- One pass of the loop over the rounds; `next_round` is what follows it.
abbrev pub round : ℕ → Meets → ℕ → Progress → (Progress → Ended) → Option Clone → Ended
round max_rounds m i p next_round none = escaped p state_not_json
round max_rounds m i p next_round (some input) = elim (abort_status m.abort_before) [
  | some status ↦ ended p (some status) (some aborted) none
  | none ↦
      settle_round max_rounds m i input (start_round i p) next_round
        (call_run m.run (clone_json_value (as_value input)))
]

-- The rounds from `i` on, of which `left` are left.
unfoldable pub run_rounds : ℕ → (ℕ → Meets) → (left i : ℕ) → Progress → Ended
unfolding clone_recursive as_value validate_loop_run_result
run_rounds max_rounds meets zero i p = ended p none none none
run_rounds max_rounds meets (suc left) i p =
    round max_rounds (meets i) i p (λ q. run_rounds max_rounds meets left (i + 1) q)
      (clone_json_value (as_value p.current_state))
