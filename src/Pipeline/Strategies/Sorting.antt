-- ===== src/Pipeline/Strategies/Sorting.antt =====
-- The order of the results of pipeline/item-streaming.ts: that of the items, in whichever order these
-- complete.
use mathlib.Core.List.{Permᴰ}
use open_dynamic_workflow.Base.{
  ℕ, suc, ◌≤◌, some, List, [], ◌∷◌, ◌++◌, map, String, ◌≡◌, refl, ap, ap₂, sym, subst, ◌∙◌, arith,
  All, All-imply, lookup, ℕ_eq, if_intro,
}
use open_dynamic_workflow.Pipeline.Stages.{StageStatus, StageResult, skipped_from}
use open_dynamic_workflow.Pipeline.Strategies.{
  ItemStatus, ItemResult, Meets, process_item, numbered, insert_result, sort_results, result_of,
  process_stages, ItemState, after_stage, stage_in_turn, passed_on,
}

some_inj {ℓ} : {A : Type ℓ} {x y : A} → some x ≡ some y → x ≡ y
some_inj h = cc

-- The item at an index, in a list that is numbered from another one on.
numbered-known :
    {V : Type 0} (k : ℕ) (items : List V)
    → All (λ p. (k ≤ p.0) × (lookup (p.0) (numbered k items) ≡ some (p.1))) (numbered k items)
unfolding numbered lookup
numbered-known k [] = _
numbered-known k (item ∷ items) = (
  (omega arith, ground arith),
  All-imply _ _ (numbered (suc k) items) (λ p h. (omega (arith, h.0), ground (arith, h.0, h.1)))
      (numbered-known (suc k) items),
)

module _ {V : Type 0} {E : Type 0} where
  insert_result-swap :
      (a b : ItemResult V E) (rest : List (ItemResult V E))
      → (a.item_index ≡ b.item_index → a ≡ b)
      → insert_result a (insert_result b rest) ≡ insert_result b (insert_result a rest)
  unfolding insert_result
  insert_result-swap a b [] same = ground (arith, same)
  insert_result-swap a b (s ∷ rest) same = ground (arith, same, insert_result-swap a b rest same)

  result_of-index :
      (s : ItemState V E) (status : ItemStatus) → (result_of s status).item_index ≡ s.index
  result_of-index s ItemStatus.active = refl
  result_of-index s ItemStatus.succeeded = refl
  result_of-index s ItemStatus.failed = refl
  result_of-index s ItemStatus.cancelled = refl
  result_of-index s ItemStatus.timed_out = refl

  module _ (f : ℕ × V → ItemResult V E) (known : List (ℕ × V)) where
    -- A pair of an index and the item that stands there.
    abbrev IsKnown : ℕ × V → Type 0
    IsKnown p = lookup (p.0) known ≡ some (p.1)

    IsKnown-unique : (p q : ℕ × V) → IsKnown p → IsKnown q → p.0 ≡ q.0 → f p ≡ f q
    IsKnown-unique (i, v) (j, w) h k e =
        let same : v ≡ w = some_inj (sym h ∙ ap (λ n. lookup n known) e ∙ k) in
        ap₂ (λ n u. f (n, u)) e same

    -- A permutation of known items keeps them known, and does not change the sorted results.
    sort_results-Permutation :
        (xs ys : List (ℕ × V))
        → ((p : ℕ × V) → (f p).item_index ≡ p.0)
        → Permᴰ xs ys
        → All IsKnown ys
        → All IsKnown xs × (sort_results (map f xs) ≡ sort_results (map f ys))
    unfolding sort_results
    sort_results-Permutation _ _ index Permᴰ.nil h = (_, refl)
    sort_results-Permutation _ _ index (Permᴰ.cons {a = a} {b = b} {l₁ = xs} {l₂ = ys} e rest) h =
        let ih = sort_results-Permutation xs ys index rest (h.1) in
        ((subst IsKnown (sym e) (h.0), ih.0), ap₂ (λ p rs. insert_result (f p) rs) e (ih.1))
    sort_results-Permutation _ _ index (Permᴰ.swap {a = a} {b = b} {a' = c} {b' = d} {l = xs} e g)
          h =
        let ka = subst IsKnown (sym e) ((h.1).0) in
        let kb = subst IsKnown (sym g) (h.0) in
        let sorted = sort_results (map f xs) in
        (
          (ka, (kb, (h.1).1)),
          insert_result-swap (f a) (f b) sorted
                (λ x. IsKnown-unique a b ka kb (sym (index a) ∙ x ∙ index b))
              ∙ ap₂ (λ p q. insert_result (f p) (insert_result (f q) sorted)) g e,
        )
    sort_results-Permutation _ _ index (Permᴰ.trans {l₁ = xs} {l₂ = ys} {l₃ = zs} x y) h =
        let last = sort_results-Permutation ys zs index y h in
        let first = sort_results-Permutation xs ys index x (last.0) in (first.0, first.1 ∙ last.1)

  after_stage-index :
      (recurse : V → List (StageResult V E) → ItemState V E) (index : ℕ) (v : V)
      (results : List (StageResult V E)) (name : String) (left : List (StageResult V E))
      (r : StageResult V E) (status : StageStatus)
      → ((w : V) (rs : List (StageResult V E)) → (recurse w rs).index ≡ index)
      → (after_stage recurse index v results name left r status).index ≡ index
  after_stage-index recurse index v results name left r StageStatus.succeeded more =
      more (passed_on v r.value) (results ++ r ∷ [])
  after_stage-index recurse index v results name left r StageStatus.failed more = refl
  after_stage-index recurse index v results name left r StageStatus.skipped more = refl
  after_stage-index recurse index v results name left r StageStatus.timed_out more = refl
  after_stage-index recurse index v results name left r StageStatus.cancelled more = refl

  process_stages-index :
      (meets : ℕ → Meets V E) (index i : ℕ) (names : List String) (v : V)
      (results : List (StageResult V E))
      → (process_stages meets index i names v results).index ≡ index
  unfolding process_stages
  process_stages-index meets index i [] v results = refl
  process_stages-index meets index i (name ∷ names) v results =
      if_intro (λ (s : ItemState V E). s.index ≡ index) (meets i).aborted_before refl
        (after_stage-index (process_stages meets index (suc i) names) index v results name
          (skipped_from (suc i) names) (stage_in_turn (meets i) name i v)
          (stage_in_turn (meets i) name i v).status
          (λ w rs. process_stages-index meets index (suc i) names w rs))

  process_item-index :
      (meets : ℕ → ℕ → Meets V E) (names : List String) (p : ℕ × V)
      → (process_item meets names p).item_index ≡ p.0
  unfolding process_item
  process_item-index meets names (index, item) =
      let s = process_stages (meets index) index 0 names item [] in
      result_of-index s s.status ∙ process_stages-index (meets index) index 0 names item []

  -- The order in which the items complete does not change the sorted results.
  pub sort_results-completed :
      (meets : ℕ → ℕ → Meets V E) (names : List String) (items : List V) (completed : List (ℕ × V))
      → Permᴰ completed (numbered 0 items)
      → sort_results (map (process_item meets names) completed)
        ≡ sort_results (map (process_item meets names) (numbered 0 items))
  sort_results-completed meets names items completed perm =
      (sort_results-Permutation (process_item meets names) (numbered 0 items) completed
        (numbered 0 items) (process_item-index meets names) perm
        (All-imply _ _ (numbered 0 items) (λ p h. h.1) (numbered-known 0 items))).1
