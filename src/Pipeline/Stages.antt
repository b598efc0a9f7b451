-- ===== src/Pipeline/Stages.antt =====
-- pipeline/stage-runner.ts and pipeline/results.ts: the run of one stage on one item. The values `V` and
-- the errors `E` are any; timestamps, agents of the stage, events and artifacts are left out.
use open_dynamic_workflow.Base.{
  ℕ, suc, Bool, ◌||◌, Option, none, some, List, [], ◌∷◌, String, if◌then◌else◌,
}

pub data StageStatus : Type 0 where
  succeeded failed skipped timed_out cancelled : StageStatus

-- What `serializeError` gets: what the stage threw, or an error with a text of its own, where nothing
-- was thrown or a value that counts as false.
pub data StageError (E : Type 0) : Type 0 where
  thrown : E → StageError E
  stage_timed_out stage_cancelled stage_failed : String → StageError E

-- `PipelineStageResult`. A value that is undefined is a value.
pub record StageResult (V : Type 0) (E : Type 0) : Type 0 where
  pub stage_name : String
  pub stage_index : ℕ
  pub status : StageStatus
  pub value : Option V
  pub error : Option (StageError E)

-- How the race of the stage with the abort of its signal ends. A rejection has the value, where it does
-- not count as false, and whether its message speaks of a timeout. One with null or undefined while
-- the signal is aborted is left out: the test of its message throws in the `catch`.
pub data Race (V : Type 0) (E : Type 0) : Type 0 where
  returned : V → Race V E
  rejected : Option E → Bool → Race V E

-- What the run of a stage meets: whether its signal is aborted when it begins and when a rejection is
-- caught, each with whether the reason is a timeout, its own or that of the signal.
pub record StageRun (V : Type 0) (E : Type 0) : Type 0 where
  pub aborted_at_start : Bool
  pub timeout_at_start : Bool
  pub race : Race V E
  pub aborted_at_catch : Bool
  pub timeout_at_catch : Bool

-- `actualError` where the error does not count as false, and where it does.
abbrev pub actual_error : {E : Type 0} → String → StageStatus → Option E → StageError E
actual_error name status (some e) = thrown e
actual_error name timed_out none = stage_timed_out name
actual_error name cancelled none = stage_cancelled name
actual_error name _ none = stage_failed name

abbrev pub abort_status : Bool → StageStatus
abort_status timeout = if timeout then timed_out else cancelled

module _ {V : Type 0} {E : Type 0} where
  abbrev pub create_succeeded_stage_result : String → ℕ → V → StageResult V E
  create_succeeded_stage_result name index value = record {
    stage_name = name;
    stage_index = index;
    status = succeeded;
    value = some value;
    error = none;
  }

  abbrev pub create_failed_stage_result : String → ℕ → StageStatus → StageError E → StageResult V E
  create_failed_stage_result name index status error = record {
    stage_name = name;
    stage_index = index;
    status = status;
    value = none;
    error = some error;
  }

  abbrev pub create_skipped_stage_result : String → ℕ → StageResult V E
  create_skipped_stage_result name index = record {
    stage_name = name;
    stage_index = index;
    status = skipped;
    value = none;
    error = none;
  }

  -- The results of the stages from an index on, as skipped.
  unfoldable pub skipped_from : ℕ → List String → List (StageResult V E)
  skipped_from index [] = []
  skipped_from index (name ∷ names) =
      create_skipped_stage_result name index ∷ skipped_from (suc index) names

  abbrev pub failure : String → ℕ → StageStatus → Option E → StageResult V E
  failure name index status error =
      create_failed_stage_result name index status (actual_error name status error)

  -- The end of the race, with the `catch`.
  abbrev pub end_race : String → ℕ → StageRun V E → Race V E → StageResult V E
  end_race name index run (returned value) = create_succeeded_stage_result name index value
  end_race name index run (rejected error says_timeout) =
      failure name index
        (if run.aborted_at_catch
          then abort_status (run.timeout_at_catch || says_timeout)
          else failed)
        error

  unfoldable pub run_stage : String → ℕ → StageRun V E → StageResult V E
  run_stage name index run =
      if run.aborted_at_start
      then failure name index (abort_status run.timeout_at_start) none
      else end_race name index run run.race
