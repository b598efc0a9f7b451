-- ===== src/Scheduler/Quiescence.antt =====
-- When nothing is left to happen, every promise has been resolved.
use open_dynamic_workflow.Base.{
  ℕ, zero, suc, ◌+◌, ◌<◌, ◌≡◌, refl, sym, ap, subst, ◌∙◌, inl, inr, Bool, false, ◌||◌, if_intro,
  ltb, Bool-cases, Option-cases, none, some, List, [], ◌∷◌, ◌++◌, map, arith, String, String_eq,
  ◌==◌, eq_refl, lookup, remove, lookup-insert, lookup-remove, count, length,
}
use open_dynamic_workflow.Scheduler.{
  Scheduler, InternalTask, TaskState, Call, schedules, aborts, drains, ticks, ends, times_out,
  AbortArgument, Outcome, returned, threw, nullish, error, init, handles, resolve, emit,
  mark_aborted, abort, schedule, drain, start_task, pump_loop, pump, finish, find_run, drop_run,
  tick, end_run, time_out, step, run,
}
use open_dynamic_workflow.Scheduler.Frames.{
  Keeps, abort-Keeps, check_drain-Keeps, release, EndsAs, settle-EndsAs, abort_again, pump_aborted,
  pump_live,
}
use open_dynamic_workflow.Scheduler.Bounds.{run-init-Inv}
use open_dynamic_workflow.Scheduler.Conservation.{submitted, held-run-init}

abbrev has_id : String → List InternalTask → Bool
has_id i [] = false
has_id i (t ∷ ts) = t.id == i || has_id i ts

-- Every entry of the map of running tasks is the id of a run in flight.
abbrev IsTracked : Scheduler → Type 0
IsTracked s = (i : String) → has_id i s.in_flight ≡ false → lookup i s.running ≡ none

has_id-append :
    (i : String) (ts : List InternalTask) (t : InternalTask)
    → has_id i (ts ++ t ∷ []) ≡ has_id i ts || t.id == i
has_id-append i [] t = ground arith
has_id-append i (x ∷ ts) t = ground (arith, has_id-append i ts t)

Keeps-IsTracked : {s t : Scheduler} → Keeps s t → IsTracked s → IsTracked t
Keeps-IsTracked k r i h = ap (lookup i) k.running ∙ r i (ap (has_id i) (sym k.in_flight) ∙ h)

abort-IsTracked : (a : AbortArgument) (s : Scheduler) → IsTracked s → IsTracked (abort a s)
unfolding mark_aborted
abort-IsTracked a s r = elim (Bool-cases s.aborted) [
  | inl e ↦ subst IsTracked (sym (abort_again a s e)) r
  | inr e ↦ Keeps-IsTracked (abort-Keeps a s e) r
]

start_task-IsTracked : (t : InternalTask) (s : Scheduler) → IsTracked s → IsTracked (start_task t s)
unfolding start_task emit
start_task-IsTracked t s r i h =
    let t' = record t { status = TaskState.running } in
    ground (arith, has_id-append i s.in_flight t', lookup-insert t.id i t' s.running, r i)

pump_loop-IsTracked :
    (ts : List InternalTask) (s : Scheduler) → IsTracked s → IsTracked (pump_loop ts s)
unfolding pump_loop
pump_loop-IsTracked [] s r = r
pump_loop-IsTracked (t ∷ ts) s r =
    if_intro IsTracked (ltb (length s.running) s.concurrency)
      (pump_loop-IsTracked ts (start_task t s) (start_task-IsTracked t s r)) r

pump-IsTracked : (s : Scheduler) → IsTracked s → IsTracked (pump s)
pump-IsTracked s r = elim (Bool-cases s.aborted) [
  | inl e ↦ subst IsTracked (sym (pump_aborted s e)) r
  | inr e ↦
      subst IsTracked (sym (pump_live s e))
        (Keeps-IsTracked (check_drain-Keeps _) (pump_loop-IsTracked s.queue s r))
]

pub find_run-handle :
    (k : ℕ) (t : InternalTask) (ts : List InternalTask) → find_run k ts ≡ some t → t.handle ≡ k
unfolding find_run
find_run-handle k t [] e = cc
find_run-handle k t (x ∷ ts) e = ground (arith, find_run-handle k t ts)

has_id-drop_run :
    (i : String) (k : ℕ) (t : InternalTask) (ts : List InternalTask)
    → find_run k ts ≡ some t
    → has_id i (drop_run t.handle ts) ≡ false
    → (t.id == i) ≡ false
    → has_id i ts ≡ false
unfolding find_run drop_run
has_id-drop_run i k t [] e h n = cc
has_id-drop_run i k t (x ∷ ts) e h n =
    ground (arith, has_id-drop_run i k t ts, find_run-handle k t ts)

pub release-running :
    (t : InternalTask) (o : Outcome) (s : Scheduler)
    → ((release t o s).running ≡ remove t.id s.running) × ((release t o s).in_flight ≡ s.in_flight)
unfolding release
release-running t (returned v) s = (refl, refl)
release-running t (threw nullish) s = (refl, refl)
release-running t (threw (error n c)) s = (refl, refl)

release-IsTracked :
    (k : ℕ) (t : InternalTask) (o : Outcome) (s : Scheduler)
    → IsTracked s
    → find_run k s.in_flight ≡ some t
    → IsTracked (release t o (record s { in_flight = drop_run t.handle s.in_flight }))
release-IsTracked k t o s r e i h =
    let s' = record s { in_flight = drop_run t.handle s.in_flight } in
    let (m, f) = release-running t o s' in
    ground (
      arith,
      ap (lookup i) m,
      ap (has_id i) f,
      lookup-remove t.id i s.running,
      r i,
      has_id-drop_run i k t s.in_flight e,
    )

EndsAs-IsTracked : {m r : Scheduler} → EndsAs m r → IsTracked m → IsTracked r
EndsAs-IsTracked (u, k, inl e) b = subst IsTracked (sym e) (Keeps-IsTracked k b)
EndsAs-IsTracked (u, k, inr (a, e)) b =
    subst IsTracked (sym e) (abort-IsTracked a u (Keeps-IsTracked k b))

end_run-IsTracked :
    (k : ℕ) (o : Outcome) (s : Scheduler)
    → IsTracked s
    → IsTracked (end_run (find_run k s.in_flight) o s)
unfolding end_run finish
end_run-IsTracked k o s r = elim (Option-cases (find_run k s.in_flight)) [
  | inl e ↦ subst (λ x. IsTracked (end_run x o s)) (sym e) r
  | inr (t, e) ↦
      subst (λ x. IsTracked (end_run x o s)) (sym e)
        (Keeps-IsTracked (check_drain-Keeps _) (
          pump-IsTracked _
            (EndsAs-IsTracked (settle-EndsAs t o _) (release-IsTracked k t o s r e))))
]

tick-IsTracked : (k : ℕ) (s : Scheduler) → IsTracked s → IsTracked (tick k s)
unfolding tick
tick-IsTracked zero s r = r
tick-IsTracked (suc k) s r = pump-IsTracked _ r

pub schedule-kept :
    (t : InternalTask) (s : Scheduler)
    → ((schedule t s).running ≡ s.running) × ((schedule t s).in_flight ≡ s.in_flight)
unfolding schedule resolve emit
schedule-kept t s = ground arith

drain-kept :
    (w : ℕ) (s : Scheduler)
    → ((drain w s).running ≡ s.running) × ((drain w s).in_flight ≡ s.in_flight)
unfolding drain
drain-kept w s = ground arith

pub time_out-kept :
    (k : ℕ) (s : Scheduler)
    → ((time_out k s).running ≡ s.running) × ((time_out k s).in_flight ≡ s.in_flight)
unfolding time_out
time_out-kept k s = ground arith

kept-IsTracked :
    (s t : Scheduler)
    → (t.running ≡ s.running) × (t.in_flight ≡ s.in_flight)
    → IsTracked s
    → IsTracked t
kept-IsTracked s t (m, f) r i h = ap (lookup i) m ∙ r i (ap (has_id i) (sym f) ∙ h)

step-IsTracked : (c : Call) (s : Scheduler) → IsTracked s → IsTracked (step c s)
unfolding step
step-IsTracked (schedules t) s r = kept-IsTracked s (schedule t s) (schedule-kept t s) r
step-IsTracked (aborts a) s r = abort-IsTracked a s r
step-IsTracked (drains w) s r = kept-IsTracked s (drain w s) (drain-kept w s) r
step-IsTracked ticks s r = tick-IsTracked s.pending_pumps s r
step-IsTracked (ends k o) s r = end_run-IsTracked k o s r
step-IsTracked (times_out k) s r = kept-IsTracked s (time_out k s) (time_out-kept k s) r

run-IsTracked : (cs : List Call) (s : Scheduler) → IsTracked s → IsTracked (run cs s)
unfolding run
run-IsTracked [] s r = r
run-IsTracked (c ∷ cs) s r = run-IsTracked cs (step c s) (step-IsTracked c s r)

init-IsTracked : (n : ℕ) (fail_fast sink : Bool) → IsTracked (init n fail_fast sink)
unfolding init lookup
init-IsTracked n fail_fast sink i e = refl

empty_of_lookup : (m : List (String × InternalTask)) → ((i : String) → lookup i m ≡ none) → m ≡ []
unfolding lookup
empty_of_lookup [] h = refl
empty_of_lookup ((j, t) ∷ m) h = cc (h j, eq_refl j)

-- With at least one slot, once no run is in flight and no pump is to come, nothing is left: the
-- queue and the map of running tasks are empty, and the promise of each scheduled task has been
-- resolved, as often as it was scheduled, unless its run rejected with null or undefined.
pub run-init-quiescent :
    (n : ℕ) (fail_fast sink : Bool) (cs : List Call)
    → let s = run cs (init n fail_fast sink) in
      0 < n
      → s.in_flight ≡ []
      → s.pending_pumps ≡ 0
      → (s.queue ≡ [])
        × (s.running ≡ [])
        × ((h : ℕ)
            → count h (handles s.lost) + count h (map (λ r. r.0) s.settled)
              ≡ count h (submitted cs))
run-init-quiescent n fail_fast sink cs pos idle rest = (
  queue,
  running,
  λ h.
      unfold count in
      ground (
        arith,
        held-run-init n fail_fast sink cs h,
        ap (λ q. count h (handles q)) queue,
        ap (λ q. count h (handles q)) idle,
      ),
)
  where
    running : (run cs (init n fail_fast sink)).running ≡ []
    running = empty_of_lookup _ λ i.
        run-IsTracked cs (init n fail_fast sink) (init-IsTracked n fail_fast sink) i
          (ap (has_id i) idle)

    queue : (run cs (init n fail_fast sink)).queue ≡ []
    queue =
        let v = run-init-Inv n fail_fast sink cs in
        ground (arith, v.awake, v.slots, ap length running)
