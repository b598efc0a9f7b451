-- ===== src/Pipeline/Concurrency/Examples.antt =====
-- The concurrency limiter's theorems at a concrete session, and a run of it.
use open_dynamic_workflow.Base.{◌≡◌, refl, some, none, List, [], ◌∷◌}
use open_dynamic_workflow.Pipeline.Concurrency.{
  Call, begins, ends, has, drop_one, begin, end, step, run, min_limit, positive, create_limiter,
}
use open_dynamic_workflow.Pipeline.Concurrency.Laws.{IsLimited, run-create_limiter-IsLimited}

abbrev session : List Call
session = begins 1 ∷ begins 2 ∷ begins 3 ∷ ends 1 ∷ ends 1 ∷ begins 4 ∷ []

sessions : Unit {0}
unfolding step run begin end has drop_one create_limiter min_limit
sessions = tt
  where
    called_in_order : (run session (create_limiter (some 2))).called ≡ 1 ∷ 2 ∷ 3 ∷ []
    called_in_order = refl

    unlimited : (run session (create_limiter none)).called ≡ 1 ∷ 2 ∷ 3 ∷ 4 ∷ []
    unlimited = refl

run-create_limiter-IsLimited_example :
    IsLimited (min_limit (positive (some 2))) (run session (create_limiter (some 2)))
run-create_limiter-IsLimited_example = run-create_limiter-IsLimited (some 2) session
