-- ===== src/Scheduler/Slots/Flood.antt =====
-- Tasks that share an id take one entry of the map, however many of them run.
use open_dynamic_workflow.Base.{
  ℕ, ◌+◌, ◌≤◌, ◌≡◌, refl, sym, ap, subst, ◌∙◌, ◌⊎◌, inl, inr, Bool, false, List, [], ◌∷◌, ◌++◌,
  append_assoc, append-nil, map, arith, String, String_eq, eq_iff, insert, length, length-append,
  All,
}
use open_dynamic_workflow.Scheduler.{
  Scheduler, InternalTask, TaskState, schedules, init, resolve, emit, schedule, start_task,
  pump_loop, pump, step, run,
}
use open_dynamic_workflow.Scheduler.Frames.{check_drain-Keeps, pump_live}

abbrev pub Shares : String → List InternalTask → Type 0
Shares i = All λ t. t.id ≡ i

-- The map has at most the entry of `i`.
abbrev IsLone : String → Scheduler → Type 0
IsLone i s = (s.running ≡ []) ⊎ ((t : InternalTask) × (s.running ≡ (i, t) ∷ []))

start_task-IsLone :
    (i : String) (t : InternalTask) (s : Scheduler)
    → t.id ≡ i
    → IsLone i s
    → IsLone i (start_task t s)
unfolding start_task emit insert
start_task-IsLone i t s e (inl h) = inr (record t { status = TaskState.running }, ground (arith))
start_task-IsLone i t s e (inr (u, h)) =
    inr (record t { status = TaskState.running }, ground (arith, eq_iff i t.id))

start_task-in_flight :
    (t : InternalTask) (s : Scheduler)
    → (length (start_task t s).in_flight ≡ length s.in_flight + 1)
      × ((start_task t s).concurrency ≡ s.concurrency)
unfolding start_task emit
start_task-in_flight t s =
    ground (arith, length-append s.in_flight (record t { status = TaskState.running } ∷ []))

flood :
    (i : String) (ts : List InternalTask) (s : Scheduler)
    → Shares i ts
    → IsLone i s
    → 2 ≤ s.concurrency
    → length (pump_loop ts s).in_flight ≡ length s.in_flight + length ts
unfolding pump_loop
flood i [] s h l n = omega arith
flood i (t ∷ ts) s h l n = ground (
  arith,
  flood i ts (start_task t s) h.1 (start_task-IsLone i t s h.0 l),
  start_task-in_flight t s,
  l,
)

-- A scheduler to which only `schedule` was called.
record Queued (n : ℕ) (ts : List InternalTask) (s : Scheduler) : Type 0 where
  limit : s.concurrency ≡ n
  live : s.aborted ≡ false
  running : s.running ≡ []
  in_flight : s.in_flight ≡ []
  queue : s.queue ≡ ts

schedule-Queued :
    (n : ℕ) (ts : List InternalTask) (t : InternalTask) (s : Scheduler)
    → Queued n ts s
    → Queued n (ts ++ t ∷ []) (schedule t s)
unfolding schedule resolve emit
schedule-Queued n ts t s q = ground arith

run-Queued :
    (n : ℕ) (us ts : List InternalTask) (s : Scheduler)
    → Queued n us s
    → Queued n (us ++ ts) (run (map schedules ts) s)
unfolding run step
run-Queued n us [] s q = subst (λ l. Queued n l s) (sym (append-nil us)) q
run-Queued n us (t ∷ ts) s q =
    subst (λ l. Queued n l (run (map schedules ts) (schedule t s))) (append_assoc us (t ∷ []) ts)
      (run-Queued n (us ++ t ∷ []) ts (schedule t s) (schedule-Queued n us t s q))

init-Queued : (n : ℕ) (fail_fast sink : Bool) → Queued n [] (init n fail_fast sink)
unfolding init
init-Queued n fail_fast sink = record {
  limit = refl;
  live = refl;
  running = refl;
  in_flight = refl;
  queue = refl;
}

-- With two slots or more, any number of tasks that share one id run at the same time: the map of
-- running tasks, whose size is held against `concurrency`, has one entry for all of them.
pub shared_id_overruns :
    (n : ℕ) (fail_fast sink : Bool) (i : String) (ts : List InternalTask)
    → 2 ≤ n
    → Shares i ts
    → length (pump (run (map schedules ts) (init n fail_fast sink))).in_flight ≡ length ts
shared_id_overruns n fail_fast sink i ts h shares =
    ap (λ (r : Scheduler). length r.in_flight) (pump_live s q.live)
    ∙ ap length (check_drain-Keeps (pump_loop s.queue s)).in_flight
    ∙ ap (λ l. length (pump_loop l s).in_flight) q.queue
    ∙ (omega (
      arith,
      flood i ts s shares (inl q.running) (omega (arith, q.limit)),
      ap length q.in_flight,
    ))
  where
    s : Scheduler
    s = run (map schedules ts) (init n fail_fast sink)

    q : Queued n ts s
    q = run-Queued n [] ts (init n fail_fast sink) (init-Queued n fail_fast sink)
