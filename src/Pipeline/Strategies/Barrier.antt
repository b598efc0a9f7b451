-- ===== src/Pipeline/Strategies/Barrier.antt =====
-- The barrier of pipeline/stage-barrier.ts, item by item: while the signal is not aborted no item
-- changes what another gets.
use open_dynamic_workflow.Base.{
  ℕ, suc, Bool, true, false, ◌||◌, List, [], ◌∷◌, map, String, ◌≡◌, refl, ap, ap₂, sym, ◌∙◌,
  Bool-cases, inl, inr, if_true, if_false,
}
use open_dynamic_workflow.Pipeline.Strategies.{
  Meets, ItemState, is_active, any_active, barrier_stage, when_active, run_stages,
}

pub or-left-false : (a b : Bool) → (a || b) ≡ false → a ≡ false
or-left-false true b h = cc
or-left-false false b h = refl

pub or-right-false : (a b : Bool) → (a || b) ≡ false → b ≡ false
or-right-false true b h = cc
or-right-false false b h = h

module _ {V : Type 0} {E : Type 0} (meets : ℕ → ℕ → Meets V E) where
  abbrev stage_of : ℕ → String → ItemState V E → ItemState V E
  stage_of i name = when_active (λ (s : ItemState V E). barrier_stage (meets s.index i) name i s)

  -- The stages from an index on for one item.
  unfoldable pub item_stages : ℕ → List String → ItemState V E → ItemState V E
  item_stages i [] s = s
  item_stages i (name ∷ names) s = item_stages (suc i) names (stage_of i name s)

  pub item_stages-inactive :
      (i : ℕ) (names : List String) (s : ItemState V E)
      → is_active s ≡ false
      → item_stages i names s ≡ s
  unfolding item_stages
  item_stages-inactive i [] s h = refl
  item_stages-inactive i (name ∷ names) s h =
      ap (item_stages (suc i) names) (if_false (is_active s) _ _ h)
      ∙ item_stages-inactive (suc i) names s h

  none_active :
      (i : ℕ) (names : List String) (states : List (ItemState V E))
      → any_active states ≡ false
      → states ≡ map (item_stages i names) states
  unfolding any_active
  none_active i names [] h = refl
  none_active i names (s ∷ states) h =
      ap₂ ◌∷◌
        (sym (item_stages-inactive i names s (or-left-false (is_active s) (any_active states) h)))
        (none_active i names states (or-right-false (is_active s) (any_active states) h))

  map-item_stages :
      (i : ℕ) (name : String) (names : List String) (states : List (ItemState V E))
      → map (item_stages (suc i) names) (map (stage_of i name) states)
        ≡ map (item_stages i (name ∷ names)) states
  unfolding item_stages
  map-item_stages i name names [] = refl
  map-item_stages i name names (s ∷ states) =
      ap (λ rest. item_stages (suc i) names (stage_of i name s) ∷ rest)
        (map-item_stages i name names states)

  map-done : (i : ℕ) (states : List (ItemState V E)) → states ≡ map (item_stages i []) states
  unfolding item_stages
  map-done i [] = refl
  map-done i (s ∷ states) = ap (λ rest. s ∷ rest) (map-done i states)

  pub run_stages-item_stages :
      (aborted_at : ℕ → Bool) (i : ℕ) (names : List String) (states : List (ItemState V E))
      → ((j : ℕ) → aborted_at j ≡ false)
      → run_stages aborted_at meets i names states ≡ map (item_stages i names) states
  unfolding run_stages
  run_stages-item_stages aborted_at i [] states calm = map-done i states
  run_stages-item_stages aborted_at i (name ∷ names) states calm =
      elim (Bool-cases (any_active states)) [
        | inl e ↦
            if_true _ _ _ e
            ∙ if_false _ _ _ (calm i)
            ∙ run_stages-item_stages aborted_at (suc i) names (map (stage_of i name) states) calm
            ∙ map-item_stages i name names states
        | inr e ↦ if_false _ _ _ e ∙ none_active i (name ∷ names) states e
      ]
