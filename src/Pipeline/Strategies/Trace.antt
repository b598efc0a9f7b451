-- ===== src/Pipeline/Strategies/Trace.antt =====
-- What pipeline/stage-barrier.ts records of an item, whatever its stages meet.
mod Going
use open_dynamic_workflow.Base.{
  ℕ, suc, Bool, true, false, some, List, [], ◌∷◌, ◌++◌, map, String, ◌≡◌, ◌≢◌, ◌⊎◌, refl, ap, sym,
  subst, ◌∙◌, Bool-cases, inl, inr, if_true, if_false, if_intro, append_assoc, length,
  length-append, arith, All, All-imply,
}
use open_dynamic_workflow.Pipeline.Stages.{
  StageStatus, StageResult, skipped_from, run_stage, create_skipped_stage_result,
}
use open_dynamic_workflow.Pipeline.Strategies.{
  ItemStatus, active, succeeded, failed, cancelled, timed_out, Meets, ItemState, is_active,
  any_active, record_result, barrier_stage, when_active, run_stages, names_from, initial_state,
  numbered, final_status, final_state, item_result, run_item_streaming, run_stage_barrier,
}
use open_dynamic_workflow.Pipeline.Strategies.Laws.{
  IsOf, IsTrace, IsTraced, run_stage-IsOf, result_of-IsTraced, in_order-All,
  run_item_streaming-IsTraced,
}
use open_dynamic_workflow.Pipeline.Strategies.Barrier.{or-left-false, or-right-false}
use open_dynamic_workflow.Pipeline.Strategies.Equivalence.{filled, names_from-tail}
use open_dynamic_workflow.Pipeline.Strategies.Trace.Going.{
  IsFinal, IsGoing, IsOpen, IsFinal-cancelled, barrier_stage-IsGoing, when_active-All,
  IsGoing-active, IsGoing-inactive, IsGoing-IsFinal,
}

module _ {V : Type 0} {E : Type 0} (all : List String) where
  none_active-IsFinal :
      (i : ℕ) (names : List String) (states : List (ItemState V E))
      → All (IsGoing all i names) states
      → any_active states ≡ false
      → All (IsFinal all) states
  unfolding any_active
  none_active-IsFinal i names [] h e = _
  none_active-IsFinal i names (s ∷ states) h e = (
    IsGoing-inactive all i names s (h.0) (or-left-false (is_active s) (any_active states) e),
    none_active-IsFinal i names states (h.1) (or-right-false (is_active s) (any_active states) e),
  )

  run_stages-IsFinal :
      (aborted_at : ℕ → Bool) (meets : ℕ → ℕ → Meets V E) (i : ℕ) (names : List String)
      (states : List (ItemState V E))
      → All (IsGoing all i names) states
      → All (IsFinal all) (run_stages aborted_at meets i names states)
  unfolding run_stages
  run_stages-IsFinal aborted_at meets i [] states h =
      All-imply (IsGoing all i []) (IsFinal all) states (IsGoing-IsFinal all i) h
  run_stages-IsFinal aborted_at meets i (name ∷ names) states h =
      elim (Bool-cases (any_active states)) [
        | inr e ↦
            subst (All (IsFinal all)) (sym (if_false (any_active states) _ _ e))
              (none_active-IsFinal i (name ∷ names) states h e)
        | inl e ↦ subst (All (IsFinal all)) (sym (if_true (any_active states) _ _ e)) (
            if_intro (All (IsFinal all)) (aborted_at i)
              (when_active-All all (IsGoing all i (name ∷ names)) (IsFinal all)
                (λ s. record s { status = cancelled }) states
                (λ s g a.
                  IsFinal-cancelled all i name names s (IsGoing-active all i (name ∷ names) s g a))
                (IsGoing-inactive all i (name ∷ names)) h)
              (run_stages-IsFinal aborted_at meets (suc i) names _ (
                when_active-All all (IsGoing all i (name ∷ names)) (IsGoing all (suc i) names)
                  (λ s. barrier_stage (meets s.index i) name i s) states
                  (λ s g a.
                    barrier_stage-IsGoing all i name names (meets s.index i) s
                      (IsGoing-active all i (name ∷ names) s g a))
                  (λ s g a. inr (a, IsGoing-inactive all i (name ∷ names) s g a)) h)))
      ]

  initial_state-IsGoing :
      (meets : ℕ → ℕ → Meets V E) (items : List (ℕ × V))
      → All (IsGoing all 0 all) (map (initial_state {V = V} {E = E}) items)
  unfolding names_from
  initial_state-IsGoing meets [] = _
  initial_state-IsGoing meets (p ∷ items) = (
    inl (record { active = refl; long = refl; left = refl; complete = λ rs status t. t }),
    initial_state-IsGoing meets items,
  )

  item_results-IsTraced :
      (states : List (ItemState V E))
      → All (IsFinal all) states
      → All (IsTraced all) (map (λ s. item_result (final_state all s)) states)
  item_results-IsTraced [] h = _
  item_results-IsTraced (s ∷ states) h = (
    result_of-IsTraced all (final_state all s) ((final_state all s).status) (h.0),
    item_results-IsTraced states (h.1),
  )

  run_stage_barrier-IsTraced :
      (aborted_at : ℕ → Bool) (meets : ℕ → ℕ → Meets V E) (preserve_order : Bool) (items : List V)
      → All (IsTraced all) (run_stage_barrier aborted_at meets preserve_order all items)
  unfolding run_stage_barrier
  run_stage_barrier-IsTraced aborted_at meets preserve_order items =
      let states = run_stages aborted_at meets 0 all (map initial_state (numbered 0 items)) in
      in_order-All (IsTraced all) preserve_order (map (λ s. item_result (final_state all s)) states)
        (item_results-IsTraced states (
          run_stages-IsFinal aborted_at meets 0 all (map initial_state (numbered 0 items))
            (initial_state-IsGoing meets (numbered 0 items))))

  -- Whatever the items meet, wherever the signal is aborted, and in whichever order they complete:
  -- each result that either strategy returns lists one result for each stage, in the order of the
  -- stages; either all succeeded, and so did the item, or the item did not, and then some stages
  -- succeeded, the next did not and all after it were skipped.
  pub strategies-IsTraced :
      (aborted_at : ℕ → Bool) (meets : ℕ → ℕ → Meets V E) (preserve_order : Bool) (items : List V)
      (completed : List (ℕ × V))
      → All (IsTraced all) (run_item_streaming meets preserve_order all completed)
        × All (IsTraced all) (run_stage_barrier aborted_at meets preserve_order all items)
  strategies-IsTraced aborted_at meets preserve_order items completed = (
    run_item_streaming-IsTraced meets preserve_order all completed,
    run_stage_barrier-IsTraced aborted_at meets preserve_order items,
  )
