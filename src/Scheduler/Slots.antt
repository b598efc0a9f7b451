-- ===== src/Scheduler/Slots.antt =====
-- The map of running tasks is keyed by id: it counts the runs in flight as long as no two tasks
-- under way share an id.
mod Keys
pub mod Flood
use mathlib.Core.List.{map-append}
use open_dynamic_workflow.Base.{
  ℕ, zero, suc, ◌+◌, ◌≤◌, ◌<◌, ◌≡◌, refl, sym, ap, ap₂, subst, ◌∙◌, ◌⊎◌, inl, inr, Bool, true,
  false, ◌||◌, if_intro, ltb, if◌then◌else◌, Bool-cases, Option-cases, Option, none, some, List, [],
  ◌∷◌, ◌++◌, append_assoc, append-nil, map, arith, String, String_eq, ◌==◌, eq_refl, eq_iff, insert,
  remove, length, length-map,
}
use open_dynamic_workflow.Scheduler.{
  Scheduler, InternalTask, TaskState, Call, schedules, aborts, drains, ticks, ends, times_out,
  AbortArgument, Outcome, returned, threw, nullish, error, init, resolve, emit, mark_aborted,
  normalize_reason, running_handles, abort, schedule, drain, start_task, pump_loop, pump, settle,
  finish, find_run, drop_run, tick, end_run, time_out, step, run,
}
use open_dynamic_workflow.Scheduler.Frames.{
  Keeps, abort-Keeps, check_drain-Keeps, release, EndsAs, settle-EndsAs, abort_again, pump_aborted,
  pump_live,
}
use open_dynamic_workflow.Scheduler.Bounds.{Inv, run-init-Inv}
use open_dynamic_workflow.Scheduler.Quiescence.{
  release-running, find_run-handle, schedule-kept, time_out-kept,
}
use Keys.{
  ids, keys, mem, Distinct, mem-append, Distinct-concat, Distinct-left, Distinct-middle,
  keys-insert, without_key, keys-remove, Distinct-drop_run, ids-drop_run,
}

-- The map holds exactly the runs in flight, and no two tasks under way share an id.
record IsExact (s : Scheduler) : Type 0 where
  exact : keys s.running ≡ ids s.in_flight
  distinct : Distinct (ids s.in_flight ++ ids s.queue)

Keeps-IsExact : {s t : Scheduler} → Keeps s t → IsExact s → IsExact t
Keeps-IsExact k v = record {
  exact = ap keys k.running ∙ v.exact ∙ ap ids (sym k.in_flight);
  distinct = subst Distinct (sym (ap₂ (λ a b. ids a ++ ids b) k.in_flight k.queue)) v.distinct;
}

abort-IsExact : (a : AbortArgument) (s : Scheduler) → IsExact s → IsExact (abort a s)
abort-IsExact a s v = elim (Bool-cases s.aborted) [
  | inl e ↦ subst IsExact (sym (abort_again a s e)) v
  | inr e ↦ Keeps-IsExact (abort-Keeps a s e) (unfold mark_aborted in marked)
]
  where
    marked : IsExact (record s {
      aborted = true;
      abort_reason = some (normalize_reason a);
      aborted_signals = s.aborted_signals ++ running_handles s.running;
      queue = [];
    })
    marked = record {
      exact = v.exact;
      distinct = subst Distinct (sym (append-nil _)) (Distinct-left _ _ v.distinct);
    }

start_task-parts :
    (t : InternalTask) (s : Scheduler)
    → ((start_task t s).running ≡ insert t.id (record t { status = TaskState.running }) s.running)
      × (ids (start_task t s).in_flight ≡ ids s.in_flight ++ t.id ∷ [])
unfolding start_task emit
start_task-parts t s = ground (
  arith,
  map-append (λ (x : InternalTask). x.id) s.in_flight
      (record t { status = TaskState.running } ∷ []),
)

pump_loop-IsExact :
    (ts : List InternalTask) (s : Scheduler)
    → keys s.running ≡ ids s.in_flight
    → Distinct (ids s.in_flight ++ ids ts)
    → IsExact (pump_loop ts s)
unfolding pump_loop
pump_loop-IsExact [] s e d = record { exact = e; distinct = d }
pump_loop-IsExact (t ∷ ts) s e d =
    if_intro IsExact (ltb (length s.running) s.concurrency)
      (pump_loop-IsExact ts (start_task t s) started (subst Distinct regroup d))
      (record { exact = e; distinct = d })
  where
    parts :
        ((start_task t s).running ≡ insert t.id (record t { status = TaskState.running }) s.running)
        × (ids (start_task t s).in_flight ≡ ids s.in_flight ++ t.id ∷ [])
    parts = start_task-parts t s

    fresh : mem t.id (keys s.running) ≡ false
    fresh = ap (mem t.id) e ∙ Distinct-middle (ids s.in_flight) t.id (ids ts) d

    started : keys (start_task t s).running ≡ ids (start_task t s).in_flight
    started =
        ap keys parts.0
        ∙ keys-insert t.id _ s.running fresh
        ∙ ap (λ l. l ++ t.id ∷ []) e
        ∙ sym parts.1

    regroup : ids s.in_flight ++ t.id ∷ ids ts ≡ ids (start_task t s).in_flight ++ ids ts
    regroup =
        sym (ap (λ l. l ++ ids ts) parts.1 ∙ append_assoc (ids s.in_flight) (t.id ∷ []) (ids ts))

pump-IsExact : (s : Scheduler) → IsExact s → IsExact (pump s)
pump-IsExact s v = elim (Bool-cases s.aborted) [
  | inl e ↦ subst IsExact (sym (pump_aborted s e)) v
  | inr e ↦
      subst IsExact (sym (pump_live s e))
        (Keeps-IsExact (check_drain-Keeps _) (pump_loop-IsExact s.queue s v.exact v.distinct))
]

release-queue : (t : InternalTask) (o : Outcome) (s : Scheduler) → (release t o s).queue ≡ s.queue
unfolding release
release-queue t (returned v) s = refl
release-queue t (threw nullish) s = refl
release-queue t (threw (error n c)) s = refl

release-IsExact :
    (k : ℕ) (t : InternalTask) (o : Outcome) (s : Scheduler)
    → IsExact s
    → find_run k s.in_flight ≡ some t
    → IsExact (release t o (record s { in_flight = drop_run t.handle s.in_flight }))
release-IsExact k t o s v e = record {
  exact =
      ap keys m
      ∙ keys-remove t.id s.running
      ∙ ap (without_key t.id) v.exact
      ∙ sym dropped
      ∙ ap ids (sym f);
  distinct =
      subst Distinct (sym (ap₂ (λ a b. ids a ++ ids b) f (release-queue t o s')))
        (Distinct-drop_run t.handle s.in_flight (ids s.queue) v.distinct);
}
  where
    s' : Scheduler
    s' = record s { in_flight = drop_run t.handle s.in_flight }

    m : (release t o s').running ≡ remove t.id s.running
    m = (release-running t o s').0

    f : (release t o s').in_flight ≡ drop_run t.handle s.in_flight
    f = (release-running t o s').1

    dropped : ids (drop_run t.handle s.in_flight) ≡ without_key t.id (ids s.in_flight)
    dropped = ids-drop_run k t s.in_flight e (Distinct-left _ _ v.distinct)

EndsAs-IsExact : {m r : Scheduler} → EndsAs m r → IsExact m → IsExact r
EndsAs-IsExact (u, k, inl e) b = subst IsExact (sym e) (Keeps-IsExact k b)
EndsAs-IsExact (u, k, inr (a, e)) b = subst IsExact (sym e) (abort-IsExact a u (Keeps-IsExact k b))

end_run-IsExact :
    (k : ℕ) (o : Outcome) (s : Scheduler)
    → IsExact s
    → IsExact (end_run (find_run k s.in_flight) o s)
unfolding end_run finish
end_run-IsExact k o s r = elim (Option-cases (find_run k s.in_flight)) [
  | inl e ↦ subst (λ x. IsExact (end_run x o s)) (sym e) r
  | inr (t, e) ↦
      subst (λ x. IsExact (end_run x o s)) (sym e)
        (Keeps-IsExact (check_drain-Keeps _)
          (pump-IsExact _ (EndsAs-IsExact (settle-EndsAs t o _) (release-IsExact k t o s r e))))
]

tick-IsExact : (k : ℕ) (s : Scheduler) → IsExact s → IsExact (tick k s)
unfolding tick
tick-IsExact zero s v = v
tick-IsExact (suc k) s v = pump-IsExact _ (record { exact = v.exact; distinct = v.distinct })

drain-Keeps : (w : ℕ) (s : Scheduler) → Keeps s (drain w s)
unfolding drain
drain-Keeps w s = ground arith

moved-IsExact :
    (s t : Scheduler)
    → (t.running ≡ s.running) × (t.in_flight ≡ s.in_flight)
    → Distinct (ids s.in_flight ++ ids t.queue)
    → IsExact s
    → IsExact t
moved-IsExact s t (m, f) d v = record {
  exact = ap keys m ∙ v.exact ∙ ap ids (sym f);
  distinct = subst (λ l. Distinct (ids l ++ ids t.queue)) (sym f) d;
}

time_out-queue : (k : ℕ) (s : Scheduler) → (time_out k s).queue ≡ s.queue
unfolding time_out
time_out-queue k s = ground arith

time_out-IsExact : (k : ℕ) (s : Scheduler) → IsExact s → IsExact (time_out k s)
time_out-IsExact k s v =
    moved-IsExact s (time_out k s) (time_out-kept k s)
      (subst (λ q. Distinct (ids s.in_flight ++ ids q)) (sym (time_out-queue k s)) v.distinct) v

-- The id of a task that is scheduled belongs to no task in flight or in the queue.
abbrev pub IsNew : Call → Scheduler → Type 0
IsNew (schedules t) s = mem t.id (ids s.in_flight ++ ids s.queue) ≡ false
IsNew _ s = Unit

abbrev pub AllNew : List Call → Scheduler → Type 0
AllNew [] s = Unit
AllNew (c ∷ cs) s = IsNew c s × AllNew cs (step c s)

schedule-queue :
    (t : InternalTask) (s : Scheduler)
    → ((schedule t s).queue ≡ s.queue) ⊎ ((schedule t s).queue ≡ s.queue ++ t ∷ [])
unfolding schedule resolve emit
schedule-queue t s = ground arith

schedule-IsExact :
    (t : InternalTask) (s : Scheduler) → IsNew (schedules t) s → IsExact s → IsExact (schedule t s)
schedule-IsExact t s fresh v =
    moved-IsExact s (schedule t s) (schedule-kept t s)
      (elim (schedule-queue t s) [
        | inl e ↦ subst (λ q. Distinct (ids s.in_flight ++ ids q)) (sym e) v.distinct
        | inr e ↦
            subst Distinct (regroup ∙ ap (λ q. ids s.in_flight ++ ids q) (sym e))
              (Distinct-concat _ t.id v.distinct fresh)
      ])
      v
  where
    regroup :
        (ids s.in_flight ++ ids s.queue) ++ t.id ∷ [] ≡ ids s.in_flight ++ ids (s.queue ++ t ∷ [])
    regroup =
        append_assoc (ids s.in_flight) (ids s.queue) (t.id ∷ [])
        ∙ ap (λ l. ids s.in_flight ++ l)
            (sym (map-append (λ (x : InternalTask). x.id) s.queue (t ∷ [])))

step-IsExact : (c : Call) (s : Scheduler) → IsNew c s → IsExact s → IsExact (step c s)
unfolding step
step-IsExact (schedules t) s f v = schedule-IsExact t s f v
step-IsExact (aborts a) s f v = abort-IsExact a s v
step-IsExact (drains w) s f v = Keeps-IsExact (drain-Keeps w s) v
step-IsExact ticks s f v = tick-IsExact s.pending_pumps s v
step-IsExact (ends k o) s f v = end_run-IsExact k o s v
step-IsExact (times_out k) s f v = time_out-IsExact k s v

run-IsExact : (cs : List Call) (s : Scheduler) → AllNew cs s → IsExact s → IsExact (run cs s)
unfolding run
run-IsExact [] s f v = v
run-IsExact (c ∷ cs) s f v = run-IsExact cs (step c s) f.1 (step-IsExact c s f.0 v)

init-IsExact : (n : ℕ) (fail_fast sink : Bool) → IsExact (init n fail_fast sink)
unfolding init
init-IsExact n fail_fast sink = record { exact = refl; distinct = tt }

-- If the id of each scheduled task differs from those of the tasks then in flight or queued, at
-- most `concurrency` runs are in flight at any time.
pub run-init-slots :
    (n : ℕ) (fail_fast sink : Bool) (cs : List Call)
    → AllNew cs (init n fail_fast sink)
    → length (run cs (init n fail_fast sink)).in_flight ≤ n
run-init-slots n fail_fast sink cs f =
    let v = run-IsExact cs (init n fail_fast sink) f (init-IsExact n fail_fast sink) in
    let b = run-init-Inv n fail_fast sink cs in
    let s = run cs (init n fail_fast sink) in
    omega (
      arith,
      length-map (λ (t : InternalTask). t.id) s.in_flight,
      length-map (λ (r : String × InternalTask). r.0) s.running,
      ap length v.exact,
      b.slots.bounded,
    )
