-- ===== src/Scheduler/Bounds.antt =====
-- The slots of the scheduler: never more running tasks than allowed, an empty queue after an abort,
-- and a pending pump whenever a task waits beside a free slot.
use open_dynamic_workflow.Base.{
  String_eq, ℕ, zero, suc, ◌≤◌, ◌<◌, ◌≡◌, refl, ◌⊎◌, inl, inr, Bool, true, false, Bool-cases, List,
  [], ◌∷◌, Option, none, some, arith, length, length-insert-le, length-remove-le,
}
use open_dynamic_workflow.Scheduler.{
  Scheduler, InternalTask, TaskState, Call, schedules, aborts, drains, ticks, ends, times_out,
  AbortArgument, Outcome, returned, threw, nullish, error, init, resolve, emit, mark_aborted, abort,
  schedule, drain, start_task, pump_loop, pump, settle, finish, find_run, tick, end_run, time_out,
  step, run,
}
use open_dynamic_workflow.Scheduler.Frames.{
  Keeps, abort-Keeps, check_drain-Keeps, release, EndsAs, settle-EndsAs,
}

pub record IsBounded (n : ℕ) (s : Scheduler) : Type 0 where
  pub limit : s.concurrency ≡ n
  pub bounded : length s.running ≤ n
  pub stopped : s.aborted ≡ true → s.queue ≡ []

abbrev pub IsAwake : Scheduler → Type 0
IsAwake s = (s.queue ≡ []) ⊎ (s.concurrency ≤ length s.running) ⊎ (0 < s.pending_pumps)

Keeps-IsAwake : {s t : Scheduler} → Keeps s t → IsAwake s → IsAwake t
Keeps-IsAwake k b = ground arith

pump_loop-IsAwake : (ts : List InternalTask) (s : Scheduler) → IsAwake (pump_loop ts s)
unfolding pump_loop
pump_loop-IsAwake [] s = inl refl
pump_loop-IsAwake (t ∷ ts) s = ground (arith, pump_loop-IsAwake ts (start_task t s))

abort-IsAwake : (a : AbortArgument) (s : Scheduler) → IsAwake s → IsAwake (abort a s)
unfolding mark_aborted abort
abort-IsAwake a s w = elim (Bool-cases s.aborted) [
  | inl e ↦ simp e w
  | inr e ↦ Keeps-IsAwake (abort-Keeps a s e) (inl refl)
]

pub record Inv (n : ℕ) (s : Scheduler) : Type 0 where
  pub slots : IsBounded n s
  pub awake : IsAwake s

module _ {n : ℕ} where
  Keeps-IsBounded : {s t : Scheduler} → Keeps s t → IsBounded n s → IsBounded n t
  Keeps-IsBounded k b = ground arith

  abort-IsBounded : (a : AbortArgument) (s : Scheduler) → IsBounded n s → IsBounded n (abort a s)
  unfolding mark_aborted abort
  abort-IsBounded a s b = elim (Bool-cases s.aborted) [
    | inl e ↦ simp e b
    | inr e ↦
        Keeps-IsBounded (abort-Keeps a s e)
          (record { limit = b.limit; bounded = b.bounded; stopped = λ _. refl })
  ]

  pump_loop-IsBounded :
      (ts : List InternalTask) (s : Scheduler)
      → s.aborted ≡ false
      → s.concurrency ≡ n
      → length s.running ≤ n
      → IsBounded n (pump_loop ts s)
  unfolding pump_loop start_task emit
  pump_loop-IsBounded [] s e l b = ground arith
  pump_loop-IsBounded (t ∷ ts) s e l b = ground (
    arith,
    pump_loop-IsBounded ts (start_task t s),
    length-insert-le t.id (record t { status = TaskState.running }) s.running,
  )

  pump-IsBounded : (s : Scheduler) → IsBounded n s → IsBounded n (pump s)
  unfolding pump
  pump-IsBounded s b = elim (Bool-cases s.aborted) [
    | inl e ↦ simp e b
    | inr e ↦
        simp e (
          Keeps-IsBounded (check_drain-Keeps _) (pump_loop-IsBounded s.queue s e b.limit b.bounded))
  ]

  -- After a pump no task waits beside a free slot.
  pub pump-IsAwake : (s : Scheduler) → IsBounded n s → IsAwake (pump s)
  unfolding pump
  pump-IsAwake s b = elim (Bool-cases s.aborted) [
    | inl e ↦ simp e (inl (b.stopped e))
    | inr e ↦ simp e (Keeps-IsAwake (check_drain-Keeps _) (pump_loop-IsAwake s.queue s))
  ]

  release-IsBounded :
      (t : InternalTask) (o : Outcome) (s : Scheduler) → IsBounded n s → IsBounded n (release t o s)
  unfolding release
  release-IsBounded t (returned v) s b = ground (arith, length-remove-le t.id s.running)
  release-IsBounded t (threw nullish) s b = ground (arith, length-remove-le t.id s.running)
  release-IsBounded t (threw (error n c)) s b = ground (arith, length-remove-le t.id s.running)

  EndsAs-IsBounded : {m r : Scheduler} → EndsAs m r → IsBounded n m → IsBounded n r
  EndsAs-IsBounded (u, k, inl e) b = rw e (Keeps-IsBounded k b)
  EndsAs-IsBounded (u, k, inr (a, e)) b = rw e (abort-IsBounded a u (Keeps-IsBounded k b))

  pub settle-IsBounded :
      (t : InternalTask) (o : Outcome) (s : Scheduler) → IsBounded n s → IsBounded n (settle t o s)
  settle-IsBounded t o s b = EndsAs-IsBounded (settle-EndsAs t o s) (release-IsBounded t o s b)

  Keeps-Inv : {s t : Scheduler} → Keeps s t → Inv n s → Inv n t
  Keeps-Inv k v = record { slots = Keeps-IsBounded k v.slots; awake = Keeps-IsAwake k v.awake }

  pump-Inv : (s : Scheduler) → IsBounded n s → Inv n (pump s)
  pump-Inv s b = record { slots = pump-IsBounded s b; awake = pump-IsAwake s b }

  finish-Inv :
      (t : InternalTask) (o : Outcome) (s : Scheduler) → IsBounded n s → Inv n (finish t o s)
  unfolding finish
  finish-Inv t o s b = Keeps-Inv (check_drain-Keeps _) (pump-Inv _ (settle-IsBounded t o s b))

  end_run-Inv :
      (r : Option InternalTask) (o : Outcome) (s : Scheduler) → Inv n s → Inv n (end_run r o s)
  unfolding end_run
  end_run-Inv none o s v = v
  end_run-Inv (some t) o s v =
      finish-Inv t o _
        (record { limit = v.slots.limit; bounded = v.slots.bounded; stopped = v.slots.stopped })

  tick-Inv : (k : ℕ) (s : Scheduler) → Inv n s → Inv n (tick k s)
  unfolding tick
  tick-Inv zero s v = v
  tick-Inv (suc k) s v =
      pump-Inv _
        (record { limit = v.slots.limit; bounded = v.slots.bounded; stopped = v.slots.stopped })

  schedule-Inv : (t : InternalTask) (s : Scheduler) → Inv n s → Inv n (schedule t s)
  unfolding schedule resolve emit
  schedule-Inv t s v = ground arith

  abort-Inv : (a : AbortArgument) (s : Scheduler) → Inv n s → Inv n (abort a s)
  unfolding mark_aborted abort
  abort-Inv a s v = elim (Bool-cases s.aborted) [
    | inl e ↦ simp e v
    | inr e ↦ record { slots = abort-IsBounded a s v.slots; awake = abort-IsAwake a s v.awake }
  ]

  drain-Inv : (w : ℕ) (s : Scheduler) → Inv n s → Inv n (drain w s)
  unfolding drain
  drain-Inv w s v = ground arith

  time_out-Inv : (h : ℕ) (s : Scheduler) → Inv n s → Inv n (time_out h s)
  unfolding time_out
  time_out-Inv h s v = ground arith

  pub step-Inv : (c : Call) (s : Scheduler) → Inv n s → Inv n (step c s)
  unfolding step
  step-Inv (schedules t) s v = schedule-Inv t s v
  step-Inv (aborts a) s v = abort-Inv a s v
  step-Inv (drains w) s v = drain-Inv w s v
  step-Inv ticks s v = tick-Inv s.pending_pumps s v
  step-Inv (ends h o) s v = end_run-Inv (find_run h s.in_flight) o s v
  step-Inv (times_out h) s v = time_out-Inv h s v

  run-Inv : (cs : List Call) (s : Scheduler) → Inv n s → Inv n (run cs s)
  unfolding run
  run-Inv [] s v = v
  run-Inv (c ∷ cs) s v = run-Inv cs (step c s) (step-Inv c s v)

-- Whatever happens to a new scheduler: at most `concurrency` entries are in its map of running
-- tasks, an aborted scheduler has an empty queue, and a task waits in the queue only while all
-- slots are taken or a pump is still to come.
pub run-init-Inv :
    (n : ℕ) (fail_fast sink : Bool) (cs : List Call) → Inv n (run cs (init n fail_fast sink))
unfolding init
run-init-Inv n fail_fast sink cs = run-Inv cs _ (record { slots = ground arith; awake = inl refl })
