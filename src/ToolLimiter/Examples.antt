-- ===== src/ToolLimiter/Examples.antt =====
-- The tool limiter's theorems at a concrete session, and a run of it.
use open_dynamic_workflow.Base.{◌≡◌, refl, List, [], ◌∷◌, ◌++◌, arith}
use open_dynamic_workflow.ToolLimiter.{
  Call, acquires, releases, aborts, has, drop_one, pump_loop, pump, acquire, release, abort_signal,
  step, run, init,
}
use open_dynamic_workflow.ToolLimiter.Bounds.{Inv, run-new-Inv}
use open_dynamic_workflow.ToolLimiter.Order.{acquired, line, run-new-order}

abbrev session : List Call
session =
    acquires 1 10 ∷ acquires 2 20 ∷ acquires 3 30 ∷ acquires 4 40 ∷ releases 1 ∷ releases 1 ∷ []

sessions : Unit {0}
unfolding step run acquire release abort_signal pump pump_loop has drop_one
sessions = tt
  where
    let_in_first : (run session (init 2)).held ≡ 3 ∷ 2 ∷ []
    let_in_first = refl

    aborted_while_waiting :
        (run (session ++ aborts 40 ∷ releases 2 ∷ []) (init 2)).rejected ≡ 4 ∷ []
    aborted_while_waiting = refl

run-new-Inv_example : Inv (run session (init 2))
run-new-Inv_example = run-new-Inv 2 session (omega arith)

run-new-order_example : line (run session (init 2)) ≡ 1 ∷ 2 ∷ 3 ∷ 4 ∷ []
unfolding acquired
run-new-order_example =
    run-new-order 2 session (omega arith) (refl, (refl, (refl, (refl, (refl, (refl, tt))))))
