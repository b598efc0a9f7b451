-- ===== src/Scheduler/Conservation.antt =====
-- Where the scheduled tasks are: in the queue, in flight, settled, or lost.
mod Places
use open_dynamic_workflow.Base.{
  ℕ, zero, suc, ◌+◌, ◌≡◌, refl, ◌∙◌, ap, ◌⊎◌, inl, inr, Bool, true, false, Bool-cases, Option-cases,
  Option, none, some, List, [], ◌∷◌, ◌++◌, map, String, arith, if◌then◌else◌, count, count-append,
  count-cons,
}
use open_dynamic_workflow.Agent.{AgentStatus, skipped}
use open_dynamic_workflow.Scheduler.{
  is_success, value, agent_completed, event_name_for_status, agent_status, agent_cancelled, skip,
  skip_message, Scheduler, InternalTask, TaskState, Call, schedules, aborts, drains, ticks, ends,
  times_out, AbortArgument, Outcome, returned, threw, Thrown, nullish, error, Returned, Settlement,
  EventType, init, handles, resolve, emit, mark_aborted, skip_task, skip_all, check_drain, abort,
  schedule, drain, start_task, pump_loop, pump, store, settled_returned, settled_threw,
  finish_returned, finish_threw, settle, finish, find_run, drop_run, tick, end_run, time_out, step,
  run,
}
use Places.{
  held, one, handles-append, settled-append, held-emit, held-resolve, held-check_drain, held-abort,
  held-pump, held-settle,
}

module _ (h : ℕ) where
  held-finish :
      (t : InternalTask) (o : Outcome) (s : Scheduler)
      → held h (finish t o s) ≡ held h s + one h t.handle
  unfolding finish
  held-finish t o s = held-check_drain h _ ∙ held-pump h _ ∙ held-settle h t o s

  count-drop_run :
      (k : ℕ) (t : InternalTask) (ts : List InternalTask)
      → find_run k ts ≡ some t
      → count h (handles (drop_run t.handle ts)) + one h t.handle ≡ count h (handles ts)
  unfolding find_run drop_run count
  count-drop_run k t [] e = cc
  count-drop_run k t (x ∷ ts) e = ground (arith, count-drop_run k t ts)

  held-in_flight :
      (ts : List InternalTask) (s : Scheduler)
      → held h (record s { in_flight = ts }) + count h (handles s.in_flight)
        ≡ held h s + count h (handles ts)
  unfolding held
  held-in_flight ts s = omega arith

  held-end_run :
      (k : ℕ) (o : Outcome) (s : Scheduler)
      → held h (end_run (find_run k s.in_flight) o s) ≡ held h s
  unfolding end_run
  held-end_run k o s = elim (Option-cases (find_run k s.in_flight)) [
    | inl e ↦ rw (e, end_run)
    | inr (t, e) ↦
        let ts = drop_run t.handle s.in_flight in
        rw (e, end_run)
          (omega (
            arith,
            held-finish t o (record s { in_flight = ts }),
            held-in_flight ts s,
            count-drop_run k t s.in_flight e,
          ))
  ]

  held-tick : (k : ℕ) (s : Scheduler) → held h (tick k s) ≡ held h s
  unfolding tick
  held-tick zero s = refl
  held-tick (suc k) s = held-pump h _ ∙ (unfold held in refl)

  held-schedule :
      (t : InternalTask) (s : Scheduler) → held h (schedule t s) ≡ held h s + one h t.handle
  unfolding schedule resolve emit held
  held-schedule t s = ground (
    arith,
    settled-append h s.settled t.handle (skip (skip_message s.abort_reason)),
    handles-append h s.queue t,
  )

  held-drain : (w : ℕ) (s : Scheduler) → held h (drain w s) ≡ held h s
  unfolding drain held
  held-drain w s = ground arith

  held-time_out : (k : ℕ) (s : Scheduler) → held h (time_out k s) ≡ held h s
  unfolding time_out held
  held-time_out k s = ground arith

held-init : (h n : ℕ) (fail_fast sink : Bool) → held h (init n fail_fast sink) ≡ 0
unfolding held init count
held-init h n fail_fast sink = refl

-- The handles that a call schedules.
abbrev pub submitted_by : Call → List ℕ
submitted_by (schedules t) = t.handle ∷ []
submitted_by (aborts a) = []
submitted_by (drains w) = []
submitted_by ticks = []
submitted_by (ends k o) = []
submitted_by (times_out k) = []

abbrev pub submitted : List Call → List ℕ
submitted [] = []
submitted (c ∷ cs) = submitted_by c ++ submitted cs

held-step :
    (h : ℕ) (c : Call) (s : Scheduler) → held h (step c s) ≡ held h s + count h (submitted_by c)
unfolding step count
held-step h (schedules t) s = held-schedule h t s
held-step h (aborts a) s = omega (arith, held-abort h a s)
held-step h (drains w) s = omega (arith, held-drain h w s)
held-step h ticks s = omega (arith, held-tick h s.pending_pumps s)
held-step h (ends k o) s = omega (arith, held-end_run h k o s)
held-step h (times_out k) s = omega (arith, held-time_out h k s)

pub held-run :
    (h : ℕ) (cs : List Call) (s : Scheduler) → held h (run cs s) ≡ held h s + count h (submitted cs)
unfolding run
held-run h [] s = unfold count in omega arith
held-run h (c ∷ cs) s = omega (
  arith,
  held-run h cs (step c s),
  held-step h c s,
  count-append h (submitted_by c) (submitted cs),
)

-- Whatever happens to a new scheduler, each scheduled task is in exactly one place, as often as it
-- was scheduled: it waits, runs, has had its promise resolved once, or is lost.
pub held-run-init :
    (n : ℕ) (fail_fast sink : Bool) (cs : List Call) (h : ℕ)
    → let s = run cs (init n fail_fast sink) in
      count h (handles s.queue)
        + count h (handles s.in_flight)
        + count h (handles s.lost)
        + count h (map (λ r. r.0) s.settled)
      ≡ count h (submitted cs)
held-run-init n fail_fast sink cs h =
    unfold held in
    omega (arith, held-run h cs (init n fail_fast sink), held-init h n fail_fast sink)
