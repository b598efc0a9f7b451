-- ===== src/Pipeline/Strategies/Equivalence.antt =====
-- The two strategies of the pipeline give an item the same result, where no signal is aborted.
use open_dynamic_workflow.Base.{
  ℕ, zero, suc, Bool, true, false, none, some, List, [], ◌∷◌, ◌++◌, map, String, ◌≡◌, refl, ap, ap₂,
  sym, ◌∙◌, if_false, append_assoc, append-nil, length, length-append, arith,
}
use open_dynamic_workflow.Pipeline.Stages.{StageStatus, StageResult, skipped_from, run_stage}
use open_dynamic_workflow.Pipeline.Strategies.{
  ItemStatus, active, succeeded, failed, cancelled, timed_out, Meets, ItemState, passed_on,
  after_stage, process_stages, record_result, names_from, initial_state, numbered, final_state,
  item_result, process_item, run_item_streaming, run_stage_barrier, in_order,
}
use mathlib.Core.List.{Permᴰ}
use open_dynamic_workflow.Pipeline.Strategies.Sorting.{sort_results-completed}
use open_dynamic_workflow.Pipeline.Strategies.Barrier.{
  item_stages, item_stages-inactive, run_stages-item_stages,
}

pub names_from-tail :
    (i : ℕ) (all names : List String) (name : String)
    → names_from i all ≡ name ∷ names
    → names_from (suc i) all ≡ names
unfolding names_from
names_from-tail zero [] names name h = cc
names_from-tail zero (x ∷ all) names name h = cc
names_from-tail (suc i) [] names name h = cc
names_from-tail (suc i) (x ∷ all) names name h = names_from-tail i all names name h

module _ {V : Type 0} {E : Type 0} where
  abbrev active_state : ℕ → V → List (StageResult V E) → ItemState V E
  active_state index v results = record {
    index = index;
    current_value = v;
    stages_results = results;
    status = active;
    first_error = none;
    failed_stage = none;
  }

  -- Nothing is aborted, for any item at any stage.
  abbrev pub IsUndisturbed : (ℕ → ℕ → Meets V E) → Type 0
  IsUndisturbed meets =
      (index i : ℕ)
      → ((meets index i).aborted_before ≡ false) × ((meets index i).aborted_in_turn ≡ false)

  -- The skipped stages that the barrier adds at the end.
  pub filled :
      (all names : List String) (i : ℕ) (results : List (StageResult V E)) (r : StageResult V E)
      → length results ≡ i
      → names_from (suc i) all ≡ names
      → (results ++ r ∷ [])
          ++ skipped_from (length (results ++ r ∷ [])) (names_from (length (results ++ r ∷ [])) all)
        ≡ results ++ r ∷ skipped_from (suc i) names
  filled all names i results r long left =
      let longer : length (results ++ r ∷ []) ≡ suc i =
        omega (arith, long, length-append results (r ∷ [])) in
      append_assoc results (r ∷ [])
        (skipped_from (length (results ++ r ∷ [])) (names_from (length (results ++ r ∷ [])) all))
      ∙ ap (λ n. results ++ r ∷ skipped_from n (names_from n all)) longer
      ∙ ap (λ ns. results ++ r ∷ skipped_from (suc i) ns) left

  module _ (meets : ℕ → ℕ → Meets V E) (all : List String) where
    abbrev stopped :
        ℕ → V → String → StageResult V E → ItemStatus → List (StageResult V E) → ItemState V E
    stopped index v name r status results = record {
      index = index;
      current_value = v;
      stages_results = results;
      status = status;
      first_error = r.error;
      failed_stage = some name;
    }

    record_result-after_stage :
        (i index : ℕ) (name : String) (names : List String) (v : V)
        (results : List (StageResult V E)) (r : StageResult V E) (status : StageStatus)
        → length results ≡ i
        → names_from (suc i) all ≡ names
        → ((w : V) (rs : List (StageResult V E))
            → length rs ≡ suc i
            → final_state all (item_stages meets (suc i) names (active_state index w rs))
              ≡ process_stages (meets index) index (suc i) names w rs)
        → final_state all (
            item_stages meets
              (suc i)
              names
              (record_result name (active_state index v results) r status))
          ≡ after_stage
              (process_stages (meets index) index (suc i) names)
              index
              v
              results
              name
              (skipped_from (suc i) names)
              r
              status
    record_result-after_stage i index name names v results r StageStatus.succeeded long left more =
        more (passed_on v r.value) (results ++ r ∷ [])
          (omega (arith, long, length-append results (r ∷ [])))
    record_result-after_stage i index name names v results r StageStatus.failed long left more =
        ap (final_state all) (item_stages-inactive meets (suc i) names _ refl)
        ∙ ap (stopped index v name r failed) (filled all names i results r long left)
    record_result-after_stage i index name names v results r StageStatus.skipped long left more =
        ap (final_state all) (item_stages-inactive meets (suc i) names _ refl)
        ∙ ap (stopped index v name r failed) (filled all names i results r long left)
    record_result-after_stage i index name names v results r StageStatus.timed_out long left more =
        ap (final_state all) (item_stages-inactive meets (suc i) names _ refl)
        ∙ ap (stopped index v name r timed_out) (filled all names i results r long left)
    record_result-after_stage i index name names v results r StageStatus.cancelled long left more =
        ap (final_state all) (item_stages-inactive meets (suc i) names _ refl)
        ∙ ap (stopped index v name r cancelled) (filled all names i results r long left)

    item_stages-process_stages :
        (i index : ℕ) (names : List String) (v : V) (results : List (StageResult V E))
        → IsUndisturbed meets
        → length results ≡ i
        → names_from i all ≡ names
        → final_state all (item_stages meets i names (active_state index v results))
          ≡ process_stages (meets index) index i names v results
    unfolding item_stages process_stages skipped_from
    item_stages-process_stages i index [] v results calm long left =
        ap
          (λ rs. record {
            index = index;
            current_value = v;
            stages_results = rs;
            status = succeeded;
            first_error = none;
            failed_stage = none;
          })
          (ap (λ n. results ++ skipped_from n (names_from n all)) long
            ∙ ap (λ ns. results ++ skipped_from i ns) left
            ∙ append-nil results)
    item_stages-process_stages i index (name ∷ names) v results calm long left =
        let m = meets index i in
        let r = run_stage name i (m.run v) in
        let going = process_stages (meets index) index (suc i) names in
        let left' = names_from-tail i all names name left in
        ap (λ s. final_state all (item_stages meets (suc i) names s))
          (if_false m.aborted_in_turn _ _ ((calm index i).1))
        ∙ record_result-after_stage i index name names v results r r.status long left'
            (λ w rs more. item_stages-process_stages (suc i) index names w rs calm more left')
        ∙ sym (
            if_false m.aborted_before _ _ ((calm index i).0)
            ∙ ap
                (λ q.
                  after_stage going index v results name (skipped_from (suc i) names) q q.status)
                (if_false m.aborted_in_turn _ _ ((calm index i).1)))

    item_result-process_item :
        (p : ℕ × V)
        → IsUndisturbed meets
        → item_result (final_state all (item_stages meets 0 all (initial_state p)))
          ≡ process_item meets all p
    unfolding process_item names_from
    item_result-process_item (index, item) calm =
        ap item_result (item_stages-process_stages 0 index all item [] calm refl refl)

    barrier_items :
        (items : List (ℕ × V))
        → IsUndisturbed meets
        → map
            (λ s. item_result (final_state all s))
            (map (item_stages meets 0 all) (map initial_state items))
          ≡ map (process_item meets all) items
    barrier_items [] calm = refl
    barrier_items (p ∷ items) calm =
        ap₂ ◌∷◌ (item_result-process_item p calm) (barrier_items items calm)

    -- The barrier gives the results of the items in their order.
    pub run_stage_barrier-process_item :
        (aborted_at : ℕ → Bool) (preserve_order : Bool) (items : List V)
        → IsUndisturbed meets
        → ((i : ℕ) → aborted_at i ≡ false)
        → run_stage_barrier aborted_at meets preserve_order all items
          ≡ in_order preserve_order (map (process_item meets all) (numbered 0 items))
    unfolding run_stage_barrier
    run_stage_barrier-process_item aborted_at preserve_order items calm free =
        ap (λ states. in_order preserve_order (map (λ s. item_result (final_state all s)) states))
          (run_stages-item_stages meets aborted_at 0 all (map initial_state (numbered 0 items))
            free)
        ∙ ap (in_order preserve_order) (barrier_items (numbered 0 items) calm)

  -- Where no signal is aborted, whatever the stages return or throw and in whichever order the items
  -- complete, item streaming and the barrier return the same results, if these keep the order of the
  -- items.
  pub run_item_streaming-run_stage_barrier :
      (meets : ℕ → ℕ → Meets V E) (aborted_at : ℕ → Bool) (names : List String) (items : List V)
      (completed : List (ℕ × V))
      → IsUndisturbed meets
      → ((i : ℕ) → aborted_at i ≡ false)
      → Permᴰ completed (numbered 0 items)
      → run_item_streaming meets true names completed
        ≡ run_stage_barrier aborted_at meets true names items
  unfolding run_item_streaming
  run_item_streaming-run_stage_barrier meets aborted_at names items completed calm free perm =
      sort_results-completed meets names items completed perm
      ∙ sym (run_stage_barrier-process_item meets names aborted_at true items calm free)
