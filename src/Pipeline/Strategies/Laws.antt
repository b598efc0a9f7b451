-- ===== src/Pipeline/Strategies/Laws.antt =====
-- What pipeline/item-streaming.ts records of an item, whatever its stages meet.
use open_dynamic_workflow.Base.{
  ℕ, suc, Bool, true, false, List, [], ◌∷◌, ◌++◌, map, String, ◌≡◌, ◌≢◌, ◌⊎◌, inl, inr, refl, sym,
  subst, ◌∙◌, All, if_intro, append_assoc, append-nil, leb,
}
use open_dynamic_workflow.Pipeline.Stages.{
  StageStatus, StageResult, StageRun, Race, returned, rejected, skipped_from, run_stage, end_race,
  create_skipped_stage_result,
}
use open_dynamic_workflow.Pipeline.Strategies.{
  ItemStatus, active, succeeded, failed, cancelled, timed_out, ItemResult, Meets, ItemState,
  result_of, stage_in_turn, passed_on, after_stage, process_stages, process_item, insert_result,
  sort_results, in_order, run_item_streaming,
}

module _ {V : Type 0} {E : Type 0} where
  abbrev pub IsOf : String → ℕ → StageResult V E → Type 0
  IsOf name i r = (r.stage_name ≡ name) × (r.stage_index ≡ i)

  -- The results of the stages from an index on: one for each, in their order; either all succeeded,
  -- and so did the item, or some succeeded, then one did not, and all after it were skipped.
  unfoldable pub IsTrace : ℕ → List String → List (StageResult V E) → ItemStatus → Type 0
  IsTrace i [] rs status = (rs ≡ []) × (status ≡ succeeded)
  IsTrace i (name ∷ names) rs status =
      ((r : StageResult V E) × (rest : List (StageResult V E)) × (rs ≡ r ∷ rest)
        × IsOf name i r
        × (r.status ≡ StageStatus.succeeded)
        × IsTrace (suc i) names rest status)
      ⊎ ((r : StageResult V E) × (rs ≡ r ∷ skipped_from (suc i) names)
          × IsOf name i r
          × (r.status ≢ StageStatus.succeeded)
          × (status ≢ succeeded))

  end_race-IsOf :
      (name : String) (i : ℕ) (run : StageRun V E) (race : Race V E)
      → IsOf name i (end_race name i run race)
  end_race-IsOf name i run (returned v) = (refl, refl)
  end_race-IsOf name i run (rejected e t) = (refl, refl)

  pub run_stage-IsOf :
      (name : String) (i : ℕ) (run : StageRun V E) → IsOf name i (run_stage name i run)
  unfolding run_stage
  run_stage-IsOf name i run =
      if_intro (IsOf name i) run.aborted_at_start (refl, refl) (end_race-IsOf name i run run.race)

  stage_in_turn-IsOf :
      (m : Meets V E) (name : String) (i : ℕ) (v : V) → IsOf name i (stage_in_turn m name i v)
  stage_in_turn-IsOf m name i v =
      if_intro (IsOf name i) m.aborted_in_turn (refl, refl) (run_stage-IsOf name i (m.run v))

  -- A state whose results extend some that were there by those of the stages from an index on.
  pub record Extends (i : ℕ) (names : List String) (results : List (StageResult V E))
      (s : ItemState V E) : Type 0 where
    pub added : List (StageResult V E)
    pub appended : s.stages_results ≡ results ++ added
    pub trace : IsTrace i names added s.status

  Extends-stopped :
      (i : ℕ) (name : String) (names : List String) (results : List (StageResult V E))
      (r : StageResult V E) (s : ItemState V E)
      → s.stages_results ≡ results ++ r ∷ skipped_from (suc i) names
      → IsOf name i r
      → r.status ≢ StageStatus.succeeded
      → s.status ≢ succeeded
      → Extends i (name ∷ names) results s
  unfolding IsTrace
  Extends-stopped i name names results r s e of stage item = record {
    added = r ∷ skipped_from (suc i) names;
    appended = e;
    trace = inr (r, refl, of, stage, item);
  }

  after_stage-Extends :
      (i index : ℕ) (name : String) (names : List String) (v : V) (results : List (StageResult V E))
      (r : StageResult V E) (recurse : V → List (StageResult V E) → ItemState V E)
      (status : StageStatus)
      → r.status ≡ status
      → IsOf name i r
      → ((w : V) (rs : List (StageResult V E)) → Extends (suc i) names rs (recurse w rs))
      → Extends i
          (name ∷ names)
          results
          (after_stage recurse index v results name (skipped_from (suc i) names) r status)
  unfolding IsTrace
  after_stage-Extends i index name names v results r recurse StageStatus.succeeded e of more =
      let rest = more (passed_on v r.value) (results ++ r ∷ []) in
      record {
        added = r ∷ rest.added;
        appended = rest.appended ∙ append_assoc results (r ∷ []) rest.added;
        trace = inl (r, rest.added, refl, of, e, rest.trace);
      }
  after_stage-Extends i index name names v results r recurse StageStatus.failed e of more =
      Extends-stopped i name names results r _ refl of (λ x. cc) (λ x. cc)
  after_stage-Extends i index name names v results r recurse StageStatus.skipped e of more =
      Extends-stopped i name names results r _ refl of (λ x. cc) (λ x. cc)
  after_stage-Extends i index name names v results r recurse StageStatus.timed_out e of more =
      Extends-stopped i name names results r _ refl of (λ x. cc) (λ x. cc)
  after_stage-Extends i index name names v results r recurse StageStatus.cancelled e of more =
      Extends-stopped i name names results r _ refl of (λ x. cc) (λ x. cc)

  process_stages-Extends :
      (meets : ℕ → Meets V E) (index i : ℕ) (names : List String) (v : V)
      (results : List (StageResult V E))
      → Extends i names results (process_stages meets index i names v results)
  unfolding process_stages IsTrace skipped_from
  process_stages-Extends meets index i [] v results = record {
    added = [];
    appended = sym (append-nil results);
    trace = (refl, refl);
  }
  process_stages-Extends meets index i (name ∷ names) v results =
      let r = stage_in_turn (meets i) name i v in
      if_intro (Extends i (name ∷ names) results) (meets i).aborted_before
        (record {
          added = skipped_from i (name ∷ names);
          appended = refl;
          trace = inr (create_skipped_stage_result name i, refl, (refl, refl), λ x. cc, λ x. cc);
        })
        (after_stage-Extends i index name names v results r
          (process_stages meets index (suc i) names) r.status refl
          (stage_in_turn-IsOf (meets i) name i v)
          (λ w rs. process_stages-Extends meets index (suc i) names w rs))

  abbrev pub IsTraced : List String → ItemResult V E → Type 0
  IsTraced names r = IsTrace 0 names r.stages r.status

  pub result_of-IsTraced :
      (names : List String) (s : ItemState V E) (status : ItemStatus)
      → IsTrace 0 names s.stages_results status
      → IsTraced names (result_of s status)
  result_of-IsTraced names s active h = h
  result_of-IsTraced names s succeeded h = h
  result_of-IsTraced names s failed h = h
  result_of-IsTraced names s cancelled h = h
  result_of-IsTraced names s timed_out h = h

  process_item-IsTraced :
      (meets : ℕ → ℕ → Meets V E) (names : List String) (p : ℕ × V)
      → IsTraced names (process_item meets names p)
  unfolding process_item
  process_item-IsTraced meets names (index, item) =
      let e = process_stages-Extends (meets index) index 0 names item [] in
      let s = process_stages (meets index) index 0 names item [] in
      result_of-IsTraced names s s.status
        (subst (λ rs. IsTrace 0 names rs s.status) (sym e.appended) e.trace)

  insert_result-All :
      (P : ItemResult V E → Type 0) (r : ItemResult V E) (rs : List (ItemResult V E))
      → P r
      → All P rs
      → All P (insert_result r rs)
  unfolding insert_result
  insert_result-All P r [] p h = (p, h)
  insert_result-All P r (s ∷ rest) p h =
      if_intro (All P) (leb r.item_index s.item_index) (p, h)
        (h.0, insert_result-All P r rest p (h.1))

  sort_results-All :
      (P : ItemResult V E → Type 0) (rs : List (ItemResult V E))
      → All P rs
      → All P (sort_results rs)
  unfolding sort_results
  sort_results-All P [] h = h
  sort_results-All P (r ∷ rest) h =
      insert_result-All P r (sort_results rest) (h.0) (sort_results-All P rest (h.1))

  pub in_order-All :
      (P : ItemResult V E → Type 0) (preserve_order : Bool) (rs : List (ItemResult V E))
      → All P rs
      → All P (in_order preserve_order rs)
  in_order-All P true rs h = sort_results-All P rs h
  in_order-All P false rs h = h

  process_items-All :
      (meets : ℕ → ℕ → Meets V E) (names : List String) (completed : List (ℕ × V))
      → All (IsTraced names) (map (process_item meets names) completed)
  process_items-All meets names [] = _
  process_items-All meets names (p ∷ completed) =
      (process_item-IsTraced meets names p, process_items-All meets names completed)

  pub run_item_streaming-IsTraced :
      (meets : ℕ → ℕ → Meets V E) (preserve_order : Bool) (names : List String)
      (completed : List (ℕ × V))
      → All (IsTraced names) (run_item_streaming meets preserve_order names completed)
  unfolding run_item_streaming
  run_item_streaming-IsTraced meets preserve_order names completed =
      in_order-All (IsTraced names) preserve_order (map (process_item meets names) completed)
        (process_items-All meets names completed)
