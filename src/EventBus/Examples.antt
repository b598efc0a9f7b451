-- ===== src/EventBus/Examples.antt =====
-- The event bus at a concrete session.
use open_dynamic_workflow.Base.{◌≡◌, refl, true, false, List, [], ◌∷◌}
use open_dynamic_workflow.EventBus.{
  Call, emits, subscribes, handles, new, emit, subscribe, notify, step, run,
}
use open_dynamic_workflow.EventBus.Order.{line, numbers, run-new-numbers}

abbrev session : List Call
session =
    emits "a"
    ∷ subscribes 8
    ∷ emits "b"
    ∷ handles [] true (λ n. true)
    ∷ emits "c"
    ∷ handles (9 ∷ []) true (λ n. false)
    ∷ []

sessions : Unit {0}
unfolding run step new emit subscribe notify
sessions = tt
  where
    settled_in_order : (run session (new (7 ∷ []))).settled ≡ (1, false) ∷ (2, true) ∷ []
    settled_in_order = refl

    handled_in_order : (run session (new (7 ∷ []))).handled ≡ (1, 7) ∷ (2, 7) ∷ (2, 8) ∷ (2, 9) ∷ []
    handled_in_order = refl

run-new-numbers_example :
    line (run session (new (7 ∷ []))) ≡ numbers (run session (new (7 ∷ []))).sequence
run-new-numbers_example = run-new-numbers (7 ∷ []) session
