-- ===== src/Loop/Run.antt =====
-- loop/run.ts, `runLoop` from the normalised input on, with loop/results.ts. Of the files that it writes there
-- are the copies of the states, which may throw; the rest of them, the markers of the call cache and
-- the payloads of the events but for the number of the round are left out.
use open_dynamic_workflow.Base.{
  ℕ, Bool, true, false, Option, none, some, List, [], ◌∷◌, ◌++◌, length,
}
use open_dynamic_workflow.Context.Json.{JsValue}
use open_dynamic_workflow.Workflow.Json.{Clone, as_value, clone_json_value, clone_recursive}
use open_dynamic_workflow.Loop.Data.{
  LoopFailureMode, throw, settled, LoopStatus, Thrown, falsy, LoopError, thrown, state_not_json,
  aborted, exhausted, workflow_timeout, workflow_cancelled, workflow_failed, Abort,
  LoopExecutionRecord, LoopRoundRecord, Event, loop_started, loop_failed, terminal_loop_event_type,
}
use open_dynamic_workflow.Loop.Rounds.{Meets, Progress, Ended, ended, escaped, run_rounds}

-- `NormalizedLoopInput`; the callback is in what the rounds meet.
pub record NormalizedLoopInput : Type 0 where
  pub initial_state : JsValue
  pub failure_mode : LoopFailureMode
  pub max_rounds : ℕ

pub record LoopSettledResult : Type 0 where
  pub ok : Bool
  pub status : LoopStatus
  pub rounds_completed : ℕ
  pub final_state : Option Clone
  pub error : Option LoopError

-- What the promise of `runLoop` settles with.
pub data LoopOutcome : Type 0 where
  returns_state : Clone → LoopOutcome
  returns_result : LoopSettledResult → LoopOutcome
  rejects : LoopError → LoopOutcome

pub record LoopRun : Type 0 where
  pub outcome : LoopOutcome
  pub events : List Event
  pub record_written : Option LoopExecutionRecord

abbrev pub when_any {ℓ κ} : {A : Type ℓ} {B : Type κ} → List A → B → Option B
when_any [] x = none
when_any (a ∷ rest) x = some x

-- The copy of the final state, where a round has been recorded: none if it throws.
abbrev pub final_copy : List LoopRoundRecord → Option Clone → Option (Option Clone)
final_copy [] copy = some none
final_copy (r ∷ rest) none = none
final_copy (r ∷ rest) (some state) = some (some state)

-- The status where no round has set one.
abbrev pub final_status : Abort → Option LoopStatus → LoopStatus
final_status a (some status) = status
final_status Abort.parent_aborted none = LoopStatus.cancelled
final_status Abort.timed_out none = LoopStatus.timed_out
final_status Abort.live none = LoopStatus.failed

abbrev pub final_error : Abort → Option LoopStatus → Option LoopError → Option LoopError
final_error a (some status) e = e
final_error Abort.live none e = e
final_error _ none e = some aborted

-- `roundErrorThrown || new OpenDynamicWorkflowError(...)`
abbrev pub error_to_throw : Option LoopError → LoopError
error_to_throw none = workflow_failed
error_to_throw (some (thrown falsy)) = workflow_failed
error_to_throw (some (thrown Thrown.nullish)) = workflow_failed
error_to_throw (some e) = e

abbrev pub throw_outcome : LoopStatus → Clone → Option LoopError → LoopOutcome
throw_outcome LoopStatus.succeeded state e = returns_state state
throw_outcome LoopStatus.max_rounds state e = rejects exhausted
throw_outcome LoopStatus.timed_out state e = rejects workflow_timeout
throw_outcome LoopStatus.cancelled state e = rejects workflow_cancelled
throw_outcome LoopStatus.failed state e = rejects (error_to_throw e)

abbrev pub settled_outcome : LoopStatus → Progress → Option LoopError → LoopOutcome
settled_outcome LoopStatus.succeeded p e = returns_result record {
  ok = true;
  status = LoopStatus.succeeded;
  rounds_completed = length p.rounds;
  final_state = some p.current_state;
  error = none;
}
settled_outcome status p e = returns_result record {
  ok = false;
  status = status;
  rounds_completed = length p.rounds;
  final_state = when_any p.rounds p.current_state;
  error = e;
}

abbrev pub outcome_of :
    LoopFailureMode → LoopStatus → Progress → Option LoopError → Option LoopError → LoopOutcome
outcome_of throw status p loop_error round_error = throw_outcome status p.current_state round_error
outcome_of settled status p loop_error round_error = settled_outcome status p loop_error

module _ (input : NormalizedLoopInput) (meets : ℕ → Meets) (abort_at_end : Abort) where
  -- The end of the loop, with the copy of the final state.
  abbrev pub conclude :
      Clone
      → Progress
      → LoopStatus
      → Option LoopError
      → Option LoopError
      → Option (Option Clone)
      → LoopRun
  conclude initial p s e round_error none = record {
    outcome = rejects state_not_json;
    events = p.events;
    record_written = none;
  }
  conclude initial p s e round_error (some final) = record {
    outcome = outcome_of input.failure_mode s p e round_error;
    events = p.events ++ (terminal_loop_event_type s (length p.rounds) ∷ []);
    record_written = some record {
      status = s;
      rounds_completed = length p.rounds;
      max_rounds = input.max_rounds;
      initial_state = some initial;
      final_state = final;
      rounds = p.rounds;
      error = e;
    };
  }

  -- What follows the rounds.
  abbrev pub finalize : Clone → Ended → LoopRun
  finalize initial (escaped p e) = record {
    outcome = rejects e;
    events = p.events;
    record_written = none;
  }
  finalize initial (ended p status loop_error round_error) =
      conclude initial p (final_status abort_at_end status)
        (final_error abort_at_end status loop_error) round_error
        (final_copy p.rounds (clone_json_value (as_value p.current_state)))

  -- The initial state is no JSON.
  abbrev pub refuse : LoopRun
  refuse = record {
    outcome = rejects state_not_json;
    events = loop_started ∷ loop_failed 0 ∷ [];
    record_written = some record {
      status = LoopStatus.failed;
      rounds_completed = 0;
      max_rounds = input.max_rounds;
      initial_state = none;
      final_state = none;
      rounds = [];
      error = some state_not_json;
    };
  }

  abbrev pub start : Clone → Progress
  start initial = record { current_state = initial; rounds = []; events = loop_started ∷ [] }

  -- The loop proper, once the initial state has been written to its file, which copies it.
  abbrev pub run_from : Clone → Option Clone → LoopRun
  run_from initial none = finalize initial (escaped (start initial) state_not_json)
  run_from initial (some copy) =
      finalize initial (run_rounds input.max_rounds meets input.max_rounds 0 (start initial))

  abbrev pub begin : Option Clone → LoopRun
  begin none = refuse
  begin (some initial) = run_from initial (clone_json_value (as_value initial))

  unfoldable pub run_loop : LoopRun
  unfolding clone_recursive run_rounds as_value
  run_loop = begin (clone_json_value input.initial_state)
