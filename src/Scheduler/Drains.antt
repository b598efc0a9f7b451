-- ===== src/Scheduler/Drains.antt =====
-- When the promises of `drain` resolve.
use open_dynamic_workflow.Base.{
  ℕ, zero, suc, ◌≡◌, refl, sym, subst, inl, inr, Bool, true, false, Bool-cases, Option, none, some,
  List, [], ◌∷◌, ◌++◌, arith,
}
use open_dynamic_workflow.Scheduler.{
  Scheduler, InternalTask, Call, schedules, aborts, drains, ticks, ends, times_out, AbortArgument,
  Outcome, is_empty, is_idle, init, resolve, emit, check_drain, abort, schedule, drain, pump,
  finish, find_run, tick, end_run, time_out, step, run,
}
use open_dynamic_workflow.Scheduler.Frames.{abort_again, abort_first, pump_aborted, pump_live}

-- No drain promise is pending while nothing runs or waits.
abbrev IsQuiet : Scheduler → Type 0
IsQuiet s = is_idle s ≡ true → s.drain_resolvers ≡ []

check_drain-IsQuiet : (s : Scheduler) → IsQuiet (check_drain s)
unfolding check_drain
check_drain-IsQuiet s = ground arith

abort-IsQuiet : (a : AbortArgument) (s : Scheduler) → IsQuiet s → IsQuiet (abort a s)
abort-IsQuiet a s q = elim (Bool-cases s.aborted) [
  | inl e ↦ subst IsQuiet (sym (abort_again a s e)) q
  | inr e ↦ subst IsQuiet (sym (abort_first a s e)) (check_drain-IsQuiet _)
]

pump-IsQuiet : (s : Scheduler) → IsQuiet s → IsQuiet (pump s)
pump-IsQuiet s q = elim (Bool-cases s.aborted) [
  | inl e ↦ subst IsQuiet (sym (pump_aborted s e)) q
  | inr e ↦ subst IsQuiet (sym (pump_live s e)) (check_drain-IsQuiet _)
]

end_run-IsQuiet :
    (r : Option InternalTask) (o : Outcome) (s : Scheduler) → IsQuiet s → IsQuiet (end_run r o s)
unfolding end_run finish
end_run-IsQuiet none o s q = q
end_run-IsQuiet (some t) o s q = check_drain-IsQuiet _

tick-IsQuiet : (k : ℕ) (s : Scheduler) → IsQuiet s → IsQuiet (tick k s)
unfolding tick
tick-IsQuiet zero s q = q
tick-IsQuiet (suc k) s q = pump-IsQuiet _ q

is_empty-concat : (ts : List InternalTask) (t : InternalTask) → is_empty (ts ++ t ∷ []) ≡ false
is_empty-concat [] t = refl
is_empty-concat (x ∷ ts) t = refl

schedule-IsQuiet : (t : InternalTask) (s : Scheduler) → IsQuiet s → IsQuiet (schedule t s)
unfolding schedule resolve emit
schedule-IsQuiet t s q = ground (arith, is_empty-concat s.queue t)

drain-IsQuiet : (w : ℕ) (s : Scheduler) → IsQuiet s → IsQuiet (drain w s)
unfolding drain
drain-IsQuiet w s q = ground arith

time_out-IsQuiet : (k : ℕ) (s : Scheduler) → IsQuiet s → IsQuiet (time_out k s)
unfolding time_out
time_out-IsQuiet k s q = ground arith

step-IsQuiet : (c : Call) (s : Scheduler) → IsQuiet s → IsQuiet (step c s)
unfolding step
step-IsQuiet (schedules t) s q = schedule-IsQuiet t s q
step-IsQuiet (aborts a) s q = abort-IsQuiet a s q
step-IsQuiet (drains w) s q = drain-IsQuiet w s q
step-IsQuiet ticks s q = tick-IsQuiet s.pending_pumps s q
step-IsQuiet (ends k o) s q = end_run-IsQuiet (find_run k s.in_flight) o s q
step-IsQuiet (times_out k) s q = time_out-IsQuiet k s q

run-IsQuiet : (cs : List Call) (s : Scheduler) → IsQuiet s → IsQuiet (run cs s)
unfolding run
run-IsQuiet [] s q = q
run-IsQuiet (c ∷ cs) s q = run-IsQuiet cs (step c s) (step-IsQuiet c s q)

init-IsQuiet : (n : ℕ) (fail_fast sink : Bool) → IsQuiet (init n fail_fast sink)
unfolding init
init-IsQuiet n fail_fast sink e = refl

-- Whatever happens to a new scheduler, whenever its map of running tasks and its queue are empty,
-- no promise that `drain` returned is pending.
pub run-init-drains :
    (n : ℕ) (fail_fast sink : Bool) (cs : List Call)
    → let s = run cs (init n fail_fast sink) in
      s.running ≡ [] → s.queue ≡ [] → s.drain_resolvers ≡ []
run-init-drains n fail_fast sink cs r q =
    run-IsQuiet cs (init n fail_fast sink) (init-IsQuiet n fail_fast sink) (ground arith)
