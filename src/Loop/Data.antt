-- ===== src/Loop/Data.antt =====
-- loop/types.ts and the checks of loop/validate.ts on what a round returns; the data of loop/run.ts. Times
-- of day, identifiers, paths and the texts of errors are left out.
use open_dynamic_workflow.Base.{
  ℕ, ℕ_eq, List_eq, ◌==◌, String, Bool, true, false, not, Option, none, some, List, Text, codes,
  Result, ok, err, if◌then◌else◌,
}
use open_dynamic_workflow.Context.Json.{JsValue, JsFields}
use open_dynamic_workflow.Workflow.Json.{Clone}

pub data LoopFailureMode : Type 0 where
  throw settled : LoopFailureMode

pub data LoopStatus : Type 0 where
  succeeded failed cancelled timed_out max_rounds : LoopStatus

pub data LoopRoundStatus : Type 0 where
  completed failed cancelled timed_out : LoopRoundStatus

-- The checks of `validateLoopRunResult` that may fail.
pub data InvalidRunResult : Type 0 where
  non_object missing_done done_not_boolean missing_next_state deprecated_result deprecated_break :
      InvalidRunResult
  unsupported_property : Text → InvalidRunResult

-- What the callback of a round rejects with: null or undefined, another value that counts as false, or a
-- value with a name and a code, if any.
pub data Thrown : Type 0 where
  nullish falsy : Thrown
  error : (name : Option String) → (code : Option String) → Thrown

-- The errors of a loop.
pub data LoopError : Type 0 where
  thrown : Thrown → LoopError
  invalid_run_result : InvalidRunResult → LoopError
  state_not_json aborted exhausted workflow_timeout workflow_cancelled workflow_failed
        reading_null :
      LoopError

-- The signals: that of the caller, and that of the loop, which a timeout aborts as well.
pub data Abort : Type 0 where
  live parent_aborted timed_out : Abort

pub record NestedCalls : Type 0 where
  pub agents : List String
  pub workflows : List String
  pub tools : List String

pub record LoopRoundRecord : Type 0 where
  pub index : ℕ
  pub round_number : ℕ
  pub status : LoopRoundStatus
  pub input_state : Clone
  pub next_state : Option Clone
  pub duration_ms : ℕ
  pub error : Option LoopError
  pub nested_calls : NestedCalls

pub record LoopExecutionRecord : Type 0 where
  pub status : LoopStatus
  pub rounds_completed : ℕ
  pub max_rounds : ℕ
  pub initial_state : Option Clone
  pub final_state : Option Clone
  pub rounds : List LoopRoundRecord
  pub error : Option LoopError

-- What the event sink is called with; the number is that of the round, or of the rounds completed.
pub data Event : Type 0 where
  loop_started : Event
  round_started round_completed round_failed round_cancelled round_timed_out : ℕ → Event
  loop_completed loop_failed loop_cancelled loop_timed_out loop_max_rounds : ℕ → Event

abbrev pub terminal_loop_event_type : LoopStatus → ℕ → Event
terminal_loop_event_type LoopStatus.failed n = loop_failed n
terminal_loop_event_type LoopStatus.cancelled n = loop_cancelled n
terminal_loop_event_type LoopStatus.timed_out n = loop_timed_out n
terminal_loop_event_type LoopStatus.max_rounds n = loop_max_rounds n
terminal_loop_event_type LoopStatus.succeeded n = loop_completed n

abbrev pub terminal_round_event_type : LoopRoundStatus → ℕ → Event
terminal_round_event_type LoopRoundStatus.failed n = round_failed n
terminal_round_event_type LoopRoundStatus.cancelled n = round_cancelled n
terminal_round_event_type LoopRoundStatus.timed_out n = round_timed_out n
terminal_round_event_type LoopRoundStatus.completed n = round_completed n

-- A property of an object, undefined where it is not there.
unfoldable pub property : Text → JsFields → JsValue
property key JsFields.end = JsValue.undefined
property key (JsFields.field k v fs) = if k == key then v else property key fs

abbrev pub is_undefined : JsValue → Bool
is_undefined JsValue.undefined = true
is_undefined _ = false

-- `=== "loop-break"`
abbrev pub is_loop_break : JsValue → Bool
is_loop_break (JsValue.text t) = t == codes "loop-break"
is_loop_break _ = false

-- `extraKeys[0]`
unfoldable pub extra_key : JsFields → Option Text
extra_key JsFields.end = none
extra_key (JsFields.field k v fs) =
    if k == codes "done"
    then extra_key fs
    else (if k == codes "nextState" then extra_key fs else some k)

-- What the rest of the loop takes from a result.
pub record LoopRunResult : Type 0 where
  pub done : Bool
  pub next_state : JsValue

abbrev pub check_keys : LoopRunResult → Option Text → Result InvalidRunResult LoopRunResult
check_keys r none = ok r
check_keys r (some key) = err (unsupported_property key)

abbrev pub check_rest : Bool → JsFields → Result InvalidRunResult LoopRunResult
check_rest done fs =
    if is_undefined (property (codes "nextState") fs)
    then err missing_next_state
    else (if not (is_undefined (property (codes "result") fs))
        then err deprecated_result
        else (if not (is_undefined (property (codes "break") fs))
            then err deprecated_break
            else (if is_loop_break (property (codes "__brand") fs)
                then err deprecated_break
                else check_keys record { done = done; next_state = property (codes "nextState") fs }
                    (extra_key fs))))

abbrev pub check_done : JsValue → JsFields → Result InvalidRunResult LoopRunResult
check_done JsValue.undefined fs = err missing_done
check_done (JsValue.boolean done) fs = check_rest done fs
check_done _ fs = err done_not_boolean

-- `validateLoopRunResult`, with the properties that are read once it has passed.
unfoldable pub validate_loop_run_result : JsValue → Result InvalidRunResult LoopRunResult
unfolding property extra_key
validate_loop_run_result (JsValue.object is_plain fs) = check_done (property (codes "done") fs) fs
validate_loop_run_result _ = err non_object
