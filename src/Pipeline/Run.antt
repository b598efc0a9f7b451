-- ===== src/Pipeline/Run.antt =====
-- pipeline/run.ts and pipeline/summary.ts: the choice of the strategy, the status of a pipeline and the
-- counts of its summary. Identifiers, events, durations and artifacts are left out.
use open_dynamic_workflow.Base.{
  ℕ, ◌+◌, ◌-◌, ◌≤◌, Bool, true, false, ◌||◌, List, [], ◌∷◌, String, ◌≡◌, ◌≢◌, refl, length, filter,
  if◌then◌else◌, arith, All,
}
use open_dynamic_workflow.Pipeline.Strategies.{
  ItemStatus, ItemResult, Meets, run_item_streaming, run_stage_barrier,
}

pub data PipelineStrategy : Type 0 where
  item_streaming stage_barrier : PipelineStrategy

pub data PipelineStatus : Type 0 where
  succeeded failed cancelled : PipelineStatus

-- The fields of `PipelineSummary` that are no names, paths or times.
pub record PipelineSummary : Type 0 where
  pub status : PipelineStatus
  pub item_count : ℕ
  pub succeeded_count : ℕ
  pub failed_count : ℕ
  pub cancelled_count : ℕ
  pub skipped_count : ℕ

abbrev pub has_succeeded : ItemStatus → Bool
has_succeeded ItemStatus.succeeded = true
has_succeeded _ = false

abbrev pub has_failed : ItemStatus → Bool
has_failed ItemStatus.failed = true
has_failed ItemStatus.timed_out = true
has_failed _ = false

abbrev pub is_cancelled : ItemStatus → Bool
is_cancelled ItemStatus.cancelled = true
is_cancelled _ = false

one-count :
    (status : ItemStatus)
    → status ≢ ItemStatus.active
    → (if has_succeeded status then 1 else 0)
        + (if has_failed status then 1 else 0)
        + (if is_cancelled status then 1 else 0)
      ≡ 1
one-count ItemStatus.active h = absurd (h refl)
one-count ItemStatus.succeeded h = refl
one-count ItemStatus.failed h = refl
one-count ItemStatus.cancelled h = refl
one-count ItemStatus.timed_out h = refl

module _ {V : Type 0} {E : Type 0} where
  -- `results.some((r) => test(r.status))`
  unfoldable pub some_result : (ItemStatus → Bool) → List (ItemResult V E) → Bool
  some_result test [] = false
  some_result test (r ∷ rest) = let others = some_result test rest in test r.status || others

  -- Where the strategy has thrown there are no results.
  abbrev pub pipeline_status : Bool → Bool → List (ItemResult V E) → PipelineStatus
  pipeline_status aborted threw results =
      if aborted || threw
      then (if threw then failed else cancelled)
      else if some_result is_cancelled results
      then cancelled
      else if some_result has_failed results
      then failed
      else succeeded

  abbrev pub count_results : (ItemStatus → Bool) → List (ItemResult V E) → ℕ
  count_results test results = length (filter (λ (r : ItemResult V E). test r.status) results)

  unfoldable pub build_pipeline_summary :
      PipelineStatus → ℕ → List (ItemResult V E) → PipelineSummary
  build_pipeline_summary status item_count results = record {
    status = status;
    item_count = item_count;
    succeeded_count = count_results has_succeeded results;
    failed_count = count_results has_failed results;
    cancelled_count = count_results is_cancelled results;
    skipped_count = item_count - length results;
  }

  abbrev pub results_of :
      PipelineStrategy
      → (ℕ → Bool)
      → (ℕ → ℕ → Meets V E)
      → Bool
      → List String
      → List V
      → List (ℕ × V)
      → List (ItemResult V E)
  results_of stage_barrier aborted_at meets preserve_order names items completed =
      run_stage_barrier aborted_at meets preserve_order names items
  results_of item_streaming aborted_at meets preserve_order names items completed =
      run_item_streaming meets preserve_order names completed

  -- A result that has a status of its own.
  abbrev IsEnded : ItemResult V E → Type 0
  IsEnded r = r.status ≢ ItemStatus.active

  count_results-add :
      (results : List (ItemResult V E))
      → All IsEnded results
      → count_results has_succeeded results
          + count_results has_failed results
          + count_results is_cancelled results
        ≡ length results
  count_results-add [] h = refl
  count_results-add (r ∷ rest) h =
      ground (arith, one-count r.status (h.0), count_results-add rest (h.1))

  -- The counts of a summary add up to the number of items, where there is no more than one result for
  -- each and every result has ended.
  pub build_pipeline_summary-adds :
      (status : PipelineStatus) (items : ℕ) (results : List (ItemResult V E))
      → length results ≤ items
      → All IsEnded results
      → let s = build_pipeline_summary status items results in
        s.succeeded_count + s.failed_count + s.cancelled_count + s.skipped_count ≡ items
  unfolding build_pipeline_summary
  build_pipeline_summary-adds status items results le ended =
      omega (arith, le, count_results-add results ended)
