-- ===== src/Pipeline/Strategies.antt =====
-- pipeline/item-streaming.ts and pipeline/stage-barrier.ts: the two strategies. What an item meets at a
-- stage is an input, so that the limiters, which only say when a stage begins, are left to
-- Pipeline.Concurrency, and what an abort changes is what the signals read.
pub mod Laws
pub mod Barrier
pub mod Sorting
pub mod Equivalence
pub mod Trace
mod Examples
use open_dynamic_workflow.Base.{
  ℕ, zero, suc, ◌+◌, Bool, true, false, ◌||◌, Option, none, some, List, [], ◌∷◌, ◌++◌, map, String,
  if◌then◌else◌, leb, length,
}
use open_dynamic_workflow.Pipeline.Stages.{
  StageStatus, StageError, StageResult, StageRun, create_skipped_stage_result, skipped_from,
  run_stage,
}

-- The status of an item, `active` being that of one which the stages have not ended.
pub data ItemStatus : Type 0 where
  active succeeded failed cancelled timed_out : ItemStatus

-- `PipelineItemResult`
pub record ItemResult (V : Type 0) (E : Type 0) : Type 0 where
  pub item_index : ℕ
  pub status : ItemStatus
  pub value : Option V
  pub failed_stage : Option String
  pub error : Option (StageError E)
  pub stages : List (StageResult V E)

-- What an item meets at a stage: whether the pipeline's signal is aborted before the item asks for
-- the stage and once it has been let in, and the run of the stage on its value.
pub record Meets (V : Type 0) (E : Type 0) : Type 0 where
  pub aborted_before : Bool
  pub aborted_in_turn : Bool
  pub run : V → StageRun V E

-- Where the stages leave an item.
pub record ItemState (V : Type 0) (E : Type 0) : Type 0 where
  pub index : ℕ
  pub current_value : V
  pub stages_results : List (StageResult V E)
  pub status : ItemStatus
  pub first_error : Option (StageError E)
  pub failed_stage : Option String

-- The status of an item whose stage has not succeeded.
abbrev pub status_of_failure : StageStatus → ItemStatus
status_of_failure StageStatus.timed_out = timed_out
status_of_failure StageStatus.cancelled = cancelled
status_of_failure _ = failed

-- The value that a result of a stage passes on.
abbrev pub passed_on : {V : Type 0} → V → Option V → V
passed_on value none = value
passed_on value (some next) = next

-- `items.map((item, index) => ...)`
unfoldable pub numbered : {V : Type 0} → ℕ → List V → List (ℕ × V)
numbered i [] = []
numbered i (item ∷ items) = (i, item) ∷ numbered (suc i) items

-- The names of the stages from an index on.
unfoldable pub names_from : ℕ → List String → List String
names_from zero names = names
names_from (suc n) [] = []
names_from (suc n) (name ∷ names) = names_from n names

abbrev pub final_status : ItemStatus → ItemStatus
final_status active = succeeded
final_status status = status

module _ {V : Type 0} {E : Type 0} where
  abbrev pub create_item_success : ℕ → V → List (StageResult V E) → ItemResult V E
  create_item_success index value stages = record {
    item_index = index;
    status = succeeded;
    value = some value;
    failed_stage = none;
    error = none;
    stages = stages;
  }

  abbrev pub create_item_failure :
      ℕ
      → ItemStatus
      → Option String
      → Option (StageError E)
      → List (StageResult V E)
      → ItemResult V E
  create_item_failure index status failed_stage error stages = record {
    item_index = index;
    status = status;
    value = none;
    failed_stage = failed_stage;
    error = error;
    stages = stages;
  }

  -- The result of an item whose state is final.
  abbrev pub result_of : ItemState V E → ItemStatus → ItemResult V E
  result_of s succeeded = create_item_success s.index s.current_value s.stages_results
  result_of s status =
      create_item_failure s.index status s.failed_stage s.first_error s.stages_results

  abbrev pub item_result : ItemState V E → ItemResult V E
  item_result s = result_of s s.status

  -- The body of the limiter's call in `processItem`.
  abbrev pub stage_in_turn : Meets V E → String → ℕ → V → StageResult V E
  stage_in_turn m name index value =
      if m.aborted_in_turn
      then create_skipped_stage_result name index
      else run_stage name index (m.run value)

  -- An item after the result of a stage: `recurse` goes on with the stages that are left.
  abbrev pub after_stage :
      (V → List (StageResult V E) → ItemState V E)
      → ℕ
      → V
      → List (StageResult V E)
      → String
      → List (StageResult V E)
      → StageResult V E
      → StageStatus
      → ItemState V E
  after_stage recurse index value results name left r StageStatus.succeeded =
      recurse (passed_on value r.value) (results ++ r ∷ [])
  after_stage recurse index value results name left r status = record {
    index = index;
    current_value = value;
    stages_results = results ++ r ∷ left;
    status = status_of_failure status;
    first_error = r.error;
    failed_stage = some name;
  }

  -- The loop of `processItem` from a stage on.
  unfoldable pub process_stages :
      (ℕ → Meets V E) → ℕ → ℕ → List String → V → List (StageResult V E) → ItemState V E
  process_stages meets index i [] value results = record {
    index = index;
    current_value = value;
    stages_results = results;
    status = succeeded;
    first_error = none;
    failed_stage = none;
  }
  process_stages meets index i (name ∷ names) value results =
      let r = stage_in_turn (meets i) name i value in
      let after =
        after_stage (process_stages meets index (suc i) names) index value results name
          (skipped_from (suc i) names) r r.status in
      if (meets i).aborted_before
      then record {
        index = index;
        current_value = value;
        stages_results = results ++ skipped_from i (name ∷ names);
        status = cancelled;
        first_error = none;
        failed_stage = none;
      }
      else after

  unfoldable pub process_item : (ℕ → ℕ → Meets V E) → List String → ℕ × V → ItemResult V E
  process_item meets names (index, item) =
      item_result (process_stages (meets index) index 0 names item [])

  -- `sort((a, b) => a.itemIndex - b.itemIndex)`, which is stable.
  unfoldable pub insert_result : ItemResult V E → List (ItemResult V E) → List (ItemResult V E)
  insert_result r [] = r ∷ []
  insert_result r (s ∷ rest) =
      let inserted = insert_result r rest in
      if leb r.item_index s.item_index then r ∷ s ∷ rest else s ∷ inserted

  unfoldable pub sort_results : List (ItemResult V E) → List (ItemResult V E)
  sort_results [] = []
  sort_results (r ∷ rest) = insert_result r (sort_results rest)

  -- The completed results in the order that the options ask for.
  abbrev pub in_order : Bool → List (ItemResult V E) → List (ItemResult V E)
  in_order preserve_order completed = if preserve_order then sort_results completed else completed

  -- The results of all items, which complete in the order of `completed`.
  unfoldable pub run_item_streaming :
      (ℕ → ℕ → Meets V E) → Bool → List String → List (ℕ × V) → List (ItemResult V E)
  run_item_streaming meets preserve_order names completed =
      in_order preserve_order (map (process_item meets names) completed)

  abbrev pub initial_state : ℕ × V → ItemState V E
  initial_state (index, item) = record {
    index = index;
    current_value = item;
    stages_results = [];
    status = active;
    first_error = none;
    failed_stage = none;
  }

  abbrev pub is_active : ItemState V E → Bool
  is_active s = elim s.status [ active ↦ true | _ ↦ false ]

  unfoldable pub any_active : List (ItemState V E) → Bool
  any_active [] = false
  any_active (s ∷ rest) = is_active s || any_active rest

  -- A stage for an active item that has been let in.
  abbrev pub record_result : String → ItemState V E → StageResult V E → StageStatus → ItemState V E
  record_result name s r StageStatus.succeeded = record s {
    stages_results = s.stages_results ++ r ∷ [];
    current_value = passed_on s.current_value r.value;
  }
  record_result name s r status = record s {
    stages_results = s.stages_results ++ r ∷ [];
    status = status_of_failure status;
    failed_stage = some name;
    first_error = r.error;
  }

  abbrev pub barrier_stage : Meets V E → String → ℕ → ItemState V E → ItemState V E
  barrier_stage m name i s =
      let r = run_stage name i (m.run s.current_value) in
      if m.aborted_in_turn
      then record s {
        stages_results = s.stages_results ++ create_skipped_stage_result name i ∷ [];
        status = cancelled;
      }
      else record_result name s r r.status

  abbrev pub when_active : (ItemState V E → ItemState V E) → ItemState V E → ItemState V E
  when_active step s = if is_active s then step s else s

  -- The loop over the stages. `aborted_at` is what the pipeline's signal reads before a stage.
  unfoldable pub run_stages :
      (ℕ → Bool)
      → (ℕ → ℕ → Meets V E)
      → ℕ
      → List String
      → List (ItemState V E)
      → List (ItemState V E)
  run_stages aborted_at meets i [] states = states
  run_stages aborted_at meets i (name ∷ names) states =
      let next =
        run_stages aborted_at meets (suc i) names
          (map (when_active (λ s. barrier_stage (meets s.index i) name i s)) states) in
      if any_active states
      then if aborted_at i
        then map (when_active (λ s. record s { status = cancelled })) states
        else next
      else states

  abbrev pub final_state : List String → ItemState V E → ItemState V E
  final_state names s =
      let done = length s.stages_results in
      record s {
        status = final_status s.status;
        stages_results = s.stages_results ++ skipped_from done (names_from done names);
      }

  unfoldable pub run_stage_barrier :
      (ℕ → Bool) → (ℕ → ℕ → Meets V E) → Bool → List String → List V → List (ItemResult V E)
  run_stage_barrier aborted_at meets preserve_order names items = in_order preserve_order (
      map (λ s. item_result (final_state names s))
        (run_stages aborted_at meets 0 names (map initial_state (numbered 0 items))))
