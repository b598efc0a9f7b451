-- ===== src/Pipeline/Strategies/Examples.antt =====
-- Runs of the two strategies of the pipeline, and concrete inputs of their theorems.
use mathlib.Core.List.{Permᴰ}
use open_dynamic_workflow.Base.{
  ℕ, ◌+◌, true, false, some, List, [], ◌∷◌, map, String, ◌≡◌, refl, All, ltb, nat_eq, if◌then◌else◌,
}
use open_dynamic_workflow.Pipeline.Stages.{StageRun, returned, rejected, run_stage, skipped_from}
use open_dynamic_workflow.Pipeline.Strategies.{
  ItemStatus, ItemResult, Meets, process_item, process_stages, numbered, insert_result,
  sort_results, run_item_streaming, run_stage_barrier, run_stages, any_active, names_from,
}
use open_dynamic_workflow.Pipeline.Strategies.Laws.{IsTraced}
use open_dynamic_workflow.Pipeline.Strategies.Trace.{strategies-IsTraced}
use open_dynamic_workflow.Pipeline.Strategies.Equivalence.{run_item_streaming-run_stage_barrier}

-- Stages that add one, and fail from 7 on.
abbrev adding : ℕ → StageRun ℕ String
adding n = record {
  aborted_at_start = false;
  timeout_at_start = false;
  race = if ltb n 7 then returned (n + 1) else rejected (some "too big") false;
  aborted_at_catch = false;
  timeout_at_catch = false;
}

abbrev calm : ℕ → ℕ → Meets ℕ String
calm index i = record { aborted_before = false; aborted_in_turn = false; run = adding }

-- The signal is aborted while item 1 waits for its second stage.
abbrev aborting : ℕ → ℕ → Meets ℕ String
aborting index i = record { aborted_before = false; aborted_in_turn = nat_eq index 1; run = adding }

abbrev two_stages : List String
two_stages = "a" ∷ "b" ∷ []

abbrev statuses : List (ItemResult ℕ String) → List ItemStatus
statuses rs = map (λ (r : ItemResult ℕ String). r.status) rs

-- An item that finds the signal aborted once it has been let in has failed in one strategy, and is
-- cancelled in the other.
in_turn_streaming :
    statuses (run_item_streaming aborting true two_stages ((1, 3) ∷ (0, 2) ∷ []))
    ≡ ItemStatus.succeeded ∷ ItemStatus.failed ∷ []
unfolding run_item_streaming sort_results insert_result process_item process_stages run_stage
    skipped_from
in_turn_streaming = refl

in_turn_barrier :
    statuses (run_stage_barrier (λ i. false) aborting true two_stages (2 ∷ 3 ∷ []))
    ≡ ItemStatus.succeeded ∷ ItemStatus.cancelled ∷ []
unfolding run_stage_barrier sort_results insert_result run_stages any_active numbered names_from
    run_stage skipped_from
in_turn_barrier = refl

failing_item :
    statuses (run_item_streaming calm true two_stages ((1, 6) ∷ (0, 2) ∷ []))
    ≡ ItemStatus.succeeded ∷ ItemStatus.failed ∷ []
unfolding run_item_streaming sort_results insert_result process_item process_stages run_stage
    skipped_from
failing_item = refl

strategies-IsTraced_example :
    All (IsTraced two_stages) (run_item_streaming aborting true two_stages ((1, 3) ∷ (0, 6) ∷ []))
    × All
        (IsTraced two_stages)
        (run_stage_barrier (λ i. nat_eq i 1) aborting true two_stages (6 ∷ 3 ∷ []))
strategies-IsTraced_example =
    strategies-IsTraced two_stages (λ i. nat_eq i 1) aborting true (6 ∷ 3 ∷ [])
      ((1, 3) ∷ (0, 6) ∷ [])

late_first : Permᴰ ((1, 6) ∷ (0, 2) ∷ []) (numbered {V = ℕ} 0 (2 ∷ 6 ∷ []))
unfolding numbered
late_first = Permᴰ.swap refl refl

run_item_streaming-run_stage_barrier_example :
    run_item_streaming calm true two_stages ((1, 6) ∷ (0, 2) ∷ [])
    ≡ run_stage_barrier (λ i. false) calm true two_stages (2 ∷ 6 ∷ [])
run_item_streaming-run_stage_barrier_example =
    run_item_streaming-run_stage_barrier calm (λ i. false) two_stages (2 ∷ 6 ∷ [])
      ((1, 6) ∷ (0, 2) ∷ []) (λ index i. (refl, refl)) (λ i. refl) late_first
