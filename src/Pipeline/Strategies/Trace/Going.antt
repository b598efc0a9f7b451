-- ===== src/Pipeline/Strategies/Trace/Going.antt =====
-- An item of pipeline/stage-barrier.ts between two stages: what its results will be.
use open_dynamic_workflow.Base.{
  ℕ, suc, true, false, some, List, [], ◌∷◌, ◌++◌, map, String, ◌≡◌, ◌≢◌, ◌⊎◌, refl, ap, sym, subst,
  ◌∙◌, Bool-cases, inl, inr, if_true, if_false, if_intro, append_assoc, length, length-append,
  arith, All,
}
use open_dynamic_workflow.Pipeline.Stages.{
  StageStatus, StageResult, skipped_from, run_stage, create_skipped_stage_result,
}
use open_dynamic_workflow.Pipeline.Strategies.{
  ItemStatus, active, succeeded, failed, cancelled, timed_out, Meets, ItemState, is_active,
  record_result, barrier_stage, when_active, names_from, final_status, final_state,
}
use open_dynamic_workflow.Pipeline.Strategies.Laws.{IsOf, IsTrace, run_stage-IsOf}
use open_dynamic_workflow.Pipeline.Strategies.Equivalence.{filled, names_from-tail}

true-false : true ≢ false
true-false h = cc

active-lem :
    (status : ItemStatus)
    → elim status [ active ↦ true | _ ↦ false ] ≡ true
    → final_status status ≡ succeeded
active-lem active e = refl
active-lem succeeded e = refl
active-lem failed e = cc
active-lem cancelled e = cc
active-lem timed_out e = cc

module _ {V : Type 0} {E : Type 0} (all : List String) where
  -- An item that waits for a stage: its stages so far have succeeded, so that the results of those
  -- that are left complete the list.
  pub record IsOpen (i : ℕ) (names : List String) (s : ItemState V E) : Type 0 where
    pub active : is_active s ≡ true
    pub long : length s.stages_results ≡ i
    pub left : names_from i all ≡ names
    pub complete :
        (rs : List (StageResult V E)) (status : ItemStatus)
        → IsTrace i names rs status
        → IsTrace 0 all (s.stages_results ++ rs) status

  -- The results of an item with those that are added at the end.
  abbrev pub IsFinal : ItemState V E → Type 0
  IsFinal s = IsTrace 0 all ((final_state all s).stages_results) ((final_state all s).status)

  abbrev pub IsGoing : ℕ → List String → ItemState V E → Type 0
  IsGoing i names s = IsOpen i names s ⊎ ((is_active s ≡ false) × IsFinal s)

  -- A stage has ended the item.
  IsFinal-stopped :
      (i : ℕ) (name : String) (names : List String) (s t : ItemState V E) (r : StageResult V E)
      → IsOpen i (name ∷ names) s
      → IsOf name i r
      → r.status ≢ StageStatus.succeeded
      → t.stages_results ≡ s.stages_results ++ r ∷ []
      → final_status t.status ≢ succeeded
      → IsFinal t
  unfolding IsTrace
  IsFinal-stopped i name names s t r o of stage results item =
      subst (λ rs. IsTrace 0 all rs (final_status t.status))
        (sym (
          ap (λ rs. rs ++ skipped_from (length rs) (names_from (length rs) all)) results
          ∙ filled all names i s.stages_results r o.long (names_from-tail i all names name o.left)))
        (o.complete (r ∷ skipped_from (suc i) names) (final_status t.status)
          (inr (r, refl, of, stage, item)))

  -- The signal has ended the item before a stage.
  pub IsFinal-cancelled :
      (i : ℕ) (name : String) (names : List String) (s : ItemState V E)
      → IsOpen i (name ∷ names) s
      → IsFinal (record s { status = cancelled })
  unfolding IsTrace skipped_from
  IsFinal-cancelled i name names s o =
      let same : s.stages_results
            ++ skipped_from (length s.stages_results) (names_from (length s.stages_results) all)
          ≡ s.stages_results ++ skipped_from i (name ∷ names) =
        ap (λ n. s.stages_results ++ skipped_from n (names_from n all)) o.long
        ∙ ap (λ ns. s.stages_results ++ skipped_from i ns) o.left in
      subst (λ rs. IsTrace 0 all rs cancelled) (sym same)
        (o.complete (skipped_from i (name ∷ names)) cancelled
          (inr (create_skipped_stage_result name i, refl, (refl, refl), λ x. cc, λ x. cc)))

  abbrev ended : String → ItemState V E → StageResult V E → ItemStatus → ItemState V E
  ended name s r status = record s {
    stages_results = s.stages_results ++ r ∷ [];
    status = status;
    failed_stage = some name;
    first_error = r.error;
  }

  abbrev left_out : String → ℕ → ItemState V E → ItemState V E
  left_out name i s = record s {
    stages_results = s.stages_results ++ create_skipped_stage_result name i ∷ [];
    status = cancelled;
  }

  record_result-IsGoing :
      (i : ℕ) (name : String) (names : List String) (s : ItemState V E) (r : StageResult V E)
      (status : StageStatus)
      → IsOpen i (name ∷ names) s
      → IsOf name i r
      → r.status ≡ status
      → IsGoing (suc i) names (record_result name s r status)
  unfolding IsTrace
  record_result-IsGoing i name names s r StageStatus.succeeded o of e = inl (record {
    active = o.active;
    long = omega (arith, o.long, length-append s.stages_results (r ∷ []));
    left = names_from-tail i all names name o.left;
    complete = λ rs status t.
        subst (λ q. IsTrace 0 all q status) (sym (append_assoc s.stages_results (r ∷ []) rs))
          (o.complete (r ∷ rs) status (inl (r, rs, refl, of, e, t)));
  })
  record_result-IsGoing i name names s r StageStatus.failed o of e =
      inr (
        refl,
        IsFinal-stopped i name names s (ended name s r failed) r o of (λ x. cc) refl (λ x. cc),
      )
  record_result-IsGoing i name names s r StageStatus.skipped o of e =
      inr (
        refl,
        IsFinal-stopped i name names s (ended name s r failed) r o of (λ x. cc) refl (λ x. cc),
      )
  record_result-IsGoing i name names s r StageStatus.timed_out o of e = inr (
    refl,
    IsFinal-stopped i name names s (ended name s r timed_out) r o of (λ x. cc) refl (λ x. cc),
  )
  record_result-IsGoing i name names s r StageStatus.cancelled o of e = inr (
    refl,
    IsFinal-stopped i name names s (ended name s r cancelled) r o of (λ x. cc) refl (λ x. cc),
  )

  pub barrier_stage-IsGoing :
      (i : ℕ) (name : String) (names : List String) (m : Meets V E) (s : ItemState V E)
      → IsOpen i (name ∷ names) s
      → IsGoing (suc i) names (barrier_stage m name i s)
  barrier_stage-IsGoing i name names m s o =
      let r = run_stage name i (m.run s.current_value) in
      if_intro (IsGoing (suc i) names) m.aborted_in_turn
        (inr (
          refl,
          IsFinal-stopped i name names s (left_out name i s) (create_skipped_stage_result name i) o
              (refl, refl) (λ x. cc) refl (λ x. cc),
        ))
        (record_result-IsGoing i name names s r r.status o
          (run_stage-IsOf name i (m.run s.current_value)) refl)

  -- What is done to the active items, and an item that a stage has ended.
  pub when_active-All :
      (P Q : ItemState V E → Type 0) (step : ItemState V E → ItemState V E)
      (states : List (ItemState V E))
      → ((s : ItemState V E) → P s → is_active s ≡ true → Q (step s))
      → ((s : ItemState V E) → P s → is_active s ≡ false → Q s)
      → All P states
      → All Q (map (when_active step) states)
  when_active-All P Q step [] on off h = _
  when_active-All P Q step (s ∷ states) on off h =
      let rest = when_active-All P Q step states on off (h.1) in
      elim (Bool-cases (is_active s)) [
        | inl e ↦ (subst Q (sym (if_true (is_active s) (step s) s e)) (on s (h.0) e), rest)
        | inr e ↦ (subst Q (sym (if_false (is_active s) (step s) s e)) (off s (h.0) e), rest)
      ]

  pub IsGoing-active :
      (i : ℕ) (names : List String) (s : ItemState V E)
      → IsGoing i names s
      → is_active s ≡ true
      → IsOpen i names s
  IsGoing-active i names s (inl o) e = o
  IsGoing-active i names s (inr (x, f)) e = cc

  pub IsGoing-inactive :
      (i : ℕ) (names : List String) (s : ItemState V E)
      → IsGoing i names s
      → is_active s ≡ false
      → IsFinal s
  IsGoing-inactive i names s (inl o) e = absurd (true-false (sym o.active ∙ e))
  IsGoing-inactive i names s (inr (x, f)) e = f

  -- At the end of the stages.
  pub IsGoing-IsFinal : (i : ℕ) (s : ItemState V E) → IsGoing i [] s → IsFinal s
  unfolding IsTrace skipped_from
  IsGoing-IsFinal i s (inr (x, f)) = f
  IsGoing-IsFinal i s (inl o) =
      let done = s.stages_results in
      let same : done ++ skipped_from (length done) (names_from (length done) all) ≡ done ++ [] =
        ap (λ n. done ++ skipped_from n (names_from n all)) o.long
        ∙ ap (λ ns. done ++ skipped_from i ns) o.left in
      subst (λ rs. IsTrace 0 all rs (final_status s.status)) (sym same)
        (subst (IsTrace 0 all (done ++ [])) (sym (active-lem s.status o.active))
          (o.complete [] succeeded (refl, refl)))
